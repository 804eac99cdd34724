-- ===== src/Luks2/Areas/Validate.antt =====
-- lib/luks2/luks2_json_metadata.c: which lists of intervals validate_intervals accepts.
use cryptsetup.Base.{
  ℕ, zero, suc, ◌+◌, ◌*◌, ◌^◌, ◌≤◌, ◌<◌, ◌≡◌, ◌≢◌, ◌⊎◌, refl, arith, List, [], ◌∷◌,
}
use cryptsetup.Base.{get_elem?, some, ◌&&◌, true, false, All, Bool}
use mathlib.Core.Path.{subst}
use cryptsetup.Luks2.Areas.{Area, is_inside, no_overlap, validate_from, validate_intervals}
use cryptsetup.Luks2.Areas.Table.{Apart, IsArea, IsPlaced}

abbrev pub Fits : Area → Type 0
Fits a = a.offset + a.len < 2 ^ 64

both_true : (b c : Bool) → (b && c) ≡ true → (b ≡ true) × (c ≡ true)
both_true true true h = (refl, refl)
both_true true false h = absurd cc
both_true false c h = absurd cc

-- `a` does not start inside of `b`.
abbrev StartsOutside : Area → Area → Type 0
StartsOutside a b = (a.offset < b.offset) ⊎ (b.offset + b.len ≤ a.offset)

All-get_elem? :
    (P : Area → Type 0) (ix : List Area) (k : ℕ) (a : Area)
    → All P ix
    → get_elem? ix k ≡ some a
    → P a
All-get_elem? P [] k a h e = absurd cc
All-get_elem? P (x ∷ ix) zero a (h, hs) e = let same : x ≡ a = cc in subst P same h
All-get_elem? P (x ∷ ix) (suc k) a (h, hs) e = All-get_elem? P ix k a hs e

no_overlap-StartsOutside :
    (a : Area) (i : ℕ) (ix : List Area) (j k : ℕ) (b : Area)
    → no_overlap a i ix j ≡ true
    → All Fits ix
    → get_elem? ix k ≡ some b
    → i ≢ j + k
    → StartsOutside a b
unfolding no_overlap
no_overlap-StartsOutside a i [] j k b h f e ne = absurd cc
no_overlap-StartsOutside a i (x ∷ ix) j zero b h f e ne = let g : Fits x = f.0 in ground arith
no_overlap-StartsOutside a i (x ∷ ix) j (suc k) b h f e ne =
    no_overlap-StartsOutside a i ix (suc j) k b (ground arith) f.1 e (λ p. ne (omega arith))

-- What is accepted of each interval.
validate_from-get_elem? :
    (m end : ℕ) (ix rest : List Area) (i k : ℕ) (a : Area)
    → validate_from m end ix rest i ≡ true
    → get_elem? rest k ≡ some a
    → (is_inside m end a ≡ true) × (no_overlap a (i + k) ix 0 ≡ true)
unfolding validate_from
validate_from-get_elem? m end ix [] i k a h e = absurd cc
validate_from-get_elem? m end ix (x ∷ rest) i zero a h e =
    let same : x ≡ a = cc in
    let (inside, others) =
      both_true (is_inside m end x) (no_overlap x i ix 0 && validate_from m end ix rest (suc i))
        h in
    let apart = (both_true (no_overlap x i ix 0) (validate_from m end ix rest (suc i)) others).0 in
    let index : i ≡ i + 0 = omega arith in
    (
      subst (λ b. is_inside m end b ≡ true) same inside,
      subst (λ b. no_overlap b (i + 0) ix 0 ≡ true) same
          (subst (λ j. no_overlap x j ix 0 ≡ true) index apart),
    )
validate_from-get_elem? m end ix (x ∷ rest) i (suc k) a h e =
    let (inside, others) =
      both_true (is_inside m end x) (no_overlap x i ix 0 && validate_from m end ix rest (suc i))
        h in
    let later = (both_true (no_overlap x i ix 0) (validate_from m end ix rest (suc i)) others).1 in
    let index : suc i + k ≡ i + suc k = omega arith in
    subst (λ j. (is_inside m end a ≡ true) × (no_overlap a j ix 0 ≡ true)) index
      (validate_from-get_elem? m end ix rest (suc i) k a later e)

is_inside-IsArea :
    (m end : ℕ) (a : Area)
    → 2 * m < 2 ^ 64
    → Fits a
    → is_inside m end a ≡ true
    → IsArea (2 * m) end a
is_inside-IsArea m end a small fits h = record {
  low = ground arith;
  nonempty = ground arith;
  high = ground arith;
}

-- If no end of an interval exceeds 64 bits, all intervals that are accepted are not empty, lie
-- between the header copies and the end of the keyslots area, and do not overlap. Condition: twice
-- the size of a header copy fits 64 bits.
pub validate_intervals-IsPlaced :
    (ix : List Area) (metadata_size end : ℕ)
    → 2 * metadata_size < 2 ^ 64
    → All Fits ix
    → validate_intervals ix metadata_size end ≡ true
    → IsPlaced (2 * metadata_size) end (get_elem? ix)
unfolding validate_intervals
validate_intervals-IsPlaced ix m end small fits h = record {
  bounds = λ i a e.
      is_inside-IsArea m end a small (All-get_elem? Fits ix i a fits e)
        (validate_from-get_elem? m end ix ix 0 i a h e).0;
  apart = λ i j a b e f ne.
      let p =
        no_overlap-StartsOutside a (0 + i) ix 0 j b
          (validate_from-get_elem? m end ix ix 0 i a h e).1 fits f (λ q. ne (omega arith)) in
      let q =
        no_overlap-StartsOutside b (0 + j) ix 0 i a
          (validate_from-get_elem? m end ix ix 0 j b h f).1 fits e (λ r. ne (omega arith)) in
      starts_outside a b (validate_from-get_elem? m end ix ix 0 i a h e).0
        (validate_from-get_elem? m end ix ix 0 j b h f).0 p q;
}
  where
    starts_outside :
        (a b : Area)
        → is_inside m end a ≡ true
        → is_inside m end b ≡ true
        → StartsOutside a b
        → StartsOutside b a
        → Apart a b
    starts_outside a b v w p q = ground arith

-- An interval whose end exceeds 64 bits is accepted if its end modulo 2^64 is small enough, though
-- it lies outside of the keyslots area.
pub validate_intervals_wraps :
    (a : Area) (metadata_size end : ℕ)
    → 2 * metadata_size ≤ a.offset
    → a.offset < 2 ^ 64
    → a.len < 2 ^ 64
    → 2 ^ 64 ≤ a.offset + a.len
    → a.offset + a.len ≤ end + 2 ^ 64
    → end < 2 ^ 64
    → (validate_intervals (a ∷ []) metadata_size end ≡ true) × (end < a.offset + a.len)
unfolding validate_intervals validate_from no_overlap
validate_intervals_wraps a m end h1 h2 h3 h4 h5 h6 = (ground arith, omega arith)
