-- ===== src/Luks2/Validate/Intervals.antt =====
-- lib/luks2/luks2_json_metadata.c: which lists of intervals validate_segment_intervals accepts.
use cryptsetup.Base.{
  ℕ, zero, suc, ◌+◌, ◌^◌, ◌≤◌, ◌<◌, ◌≡◌, ◌≢◌, ◌⊎◌, inl, inr, arith, List, [], ◌∷◌, length, not,
  ◌==◌, ◌&&◌, All, get_elem?, some, true,
}
use mathlib.Core.Path.{subst}
use cryptsetup.Luks2.Areas.{Area}
use cryptsetup.Luks2.Validate.Fields.{both_true}
use cryptsetup.Luks2.Validate.Segments.{
  uint64_max, starts_outside, segments_from, validate_segment_intervals,
}

-- A segment of dynamic size has no end; the end of another one fits 64 bits.
abbrev pub SegmentFits : Area → Type 0
SegmentFits a = (a.len ≡ uint64_max) ⊎ (a.offset + a.len < 2 ^ 64)

-- `a` ends before `b` starts.
abbrev pub Before : Area → Area → Type 0
Before a b = (a.len ≢ uint64_max) × (a.offset + a.len ≤ b.offset)

pub record IsSegmentation (ix : List Area) : Type 0 where
  pub apart :
      (i k : ℕ) (a b : Area)
      → get_elem? ix i ≡ some a
      → get_elem? ix k ≡ some b
      → i ≢ k
      → Before a b ⊎ Before b a
  pub dynamic_last :
      (i : ℕ) (a : Area) → get_elem? ix i ≡ some a → a.len ≡ uint64_max → suc i ≡ length ix

abbrev Outside : Area → Area → Type 0
Outside a b = (a.offset < b.offset) ⊎ Before b a

starts_outside-Outside :
    (a : Area) (i : ℕ) (ix : List Area) (j k : ℕ) (b : Area)
    → starts_outside a i ix j ≡ true
    → All SegmentFits ix
    → get_elem? ix k ≡ some b
    → i ≢ j + k
    → Outside a b
unfolding starts_outside
starts_outside-Outside a i [] j k b h f e ne = absurd cc
starts_outside-Outside a i (x ∷ ix) j zero b h f e ne = let g : SegmentFits x = f.0 in ground arith
starts_outside-Outside a i (x ∷ ix) j (suc k) b h f e ne =
    starts_outside-Outside a i ix (suc j) k b (ground arith) f.1 e (λ p. ne (omega arith))

-- What is accepted of each interval; `rest` has `k` intervals before it.
segments_from-get_elem? :
    (ix rest : List Area) (i k : ℕ) (a : Area)
    → segments_from ix rest i ≡ true
    → get_elem? rest k ≡ some a
    → (a.len ≡ uint64_max → suc k ≡ length rest) × (starts_outside a (i + k) ix 0 ≡ true)
unfolding segments_from
segments_from-get_elem? ix [] i k a h e = absurd cc
segments_from-get_elem? ix (x ∷ rest) i zero a h e =
    let same : x ≡ a = cc in
    let (dynamic, others) =
      both_true (not (x.len == uint64_max && not (length rest == 0)))
        (starts_outside x i ix 0 && segments_from ix rest (suc i)) h in
    let apart = (both_true (starts_outside x i ix 0) (segments_from ix rest (suc i)) others).0 in
    let index : i ≡ i + 0 = omega arith in
    (
      λ d. ground arith,
      subst (λ b. starts_outside b (i + 0) ix 0 ≡ true) same
          (subst (λ j. starts_outside x j ix 0 ≡ true) index apart),
    )
segments_from-get_elem? ix (x ∷ rest) i (suc k) a h e =
    let (dynamic, others) =
      both_true (not (x.len == uint64_max && not (length rest == 0)))
        (starts_outside x i ix 0 && segments_from ix rest (suc i)) h in
    let later = (both_true (starts_outside x i ix 0) (segments_from ix rest (suc i)) others).1 in
    let (last, apart) = segments_from-get_elem? ix rest (suc i) k a later e in
    let index : suc i + k ≡ i + suc k = omega arith in
    (λ d. omega (arith, last d), subst (λ j. starts_outside a j ix 0 ≡ true) index apart)

-- If no end of an interval exceeds 64 bits, the intervals that are accepted do not overlap, and
-- only the last one may have a dynamic size.
pub validate_segment_intervals-IsSegmentation :
    (ix : List Area) → All SegmentFits ix → validate_segment_intervals ix ≡ true → IsSegmentation ix
unfolding validate_segment_intervals
validate_segment_intervals-IsSegmentation ix fits h = record {
  apart = λ i k a b e f ne.
      let p =
        starts_outside-Outside a (0 + i) ix 0 k b (segments_from-get_elem? ix ix 0 i a h e).1 fits f
          (λ q. ne (omega arith)) in
      let q =
        starts_outside-Outside b (0 + k) ix 0 i a (segments_from-get_elem? ix ix 0 k b h f).1 fits e
          (λ r. ne (omega arith)) in
      one_before a b p q;
  dynamic_last = λ i a e. (segments_from-get_elem? ix ix 0 i a h e).0;
}
  where
    one_before : (a b : Area) → Outside a b → Outside b a → Before a b ⊎ Before b a
    one_before a b (inr before) q = inr before
    one_before a b (inl p) (inr before) = inl before
    one_before a b (inl p) (inl q) = absurd (omega arith)
