-- ===== src/Luks2/Areas/Table.antt =====
-- lib/luks2/luks2_json_format.c: tables of areas that do not overlap.
use cryptsetup.Base.{
  ℕ, zero, suc, ◌+◌, ◌≤◌, ◌<◌, ◌≡◌, ◌≢◌, ◌⊎◌, inl, inr, refl, ap, ◌∙◌, arith, List, [], ◌∷◌,
}
use cryptsetup.Base.{get_elem?, some, none, Option, Bool-cases, sym}
use cryptsetup.Luks2.Areas.{Area, is_candidate, smallest, area_table}

-- Two areas share no byte.
abbrev pub Apart : Area → Area → Type 0
Apart a b = (a.offset + a.len ≤ b.offset) ⊎ (b.offset + b.len ≤ a.offset)

-- The area lies between `lo` and `hi`, and is not empty.
pub record IsArea (lo hi : ℕ) (a : Area) : Type 0 where
  pub low : lo ≤ a.offset
  pub nonempty : 0 < a.len
  pub high : a.offset + a.len ≤ hi

-- The areas that a partial list holds: all of them are areas between `lo` and `hi`, without
-- exception, and no two of them overlap.
pub record IsPlaced (lo hi : ℕ) (at : ℕ → Option Area) : Type 0 where
  pub bounds : (i : ℕ) (a : Area) → at i ≡ some a → IsArea lo hi a
  pub apart : (i k : ℕ) (a b : Area) → at i ≡ some a → at k ≡ some b → i ≢ k → Apart a b

-- The area of keyslot `i`; `none` if it has none or there is no such keyslot.
unfoldable pub area_at : List (Option Area) → ℕ → Option Area
area_at [] i = none
area_at (k ∷ ks) zero = k
area_at (k ∷ ks) (suc i) = area_at ks i

-- The same for the table that the search sorts, in which an offset of 0 marks an empty entry.
pub record IsTable (lo hi : ℕ) (t : List Area) : Type 0 where
  pub bounds : (i : ℕ) (a : Area) → get_elem? t i ≡ some a → a.offset ≢ 0 → IsArea lo hi a
  pub apart :
      (i j : ℕ) (a b : Area)
      → get_elem? t i ≡ some a
      → get_elem? t j ≡ some b
      → i ≢ j
      → a.offset ≢ 0
      → b.offset ≢ 0
      → Apart a b

-- What `smallest` finds: nothing, if no entry in use starts at or below `offset`; or the index of
-- an entry in use that starts there and before all others.
pub data Found (t : List Area) (j offset : ℕ) (area_i result : Option ℕ) : Type 0 where
  nothing :
      result ≡ area_i
      → ((k : ℕ) (a : Area) → get_elem? t k ≡ some a → a.offset ≢ 0 → offset < a.offset)
      → Found t j offset area_i result
  entry :
      (k : ℕ) (x : Area)
      → result ≡ some (j + k)
      → get_elem? t k ≡ some x
      → x.offset ≢ 0
      → x.offset ≤ offset
      → ((i : ℕ) (a : Area) → get_elem? t i ≡ some a → a.offset ≢ 0 → x.offset ≤ a.offset)
      → Found t j offset area_i result

cons_bound :
    (a : Area) (t : List Area) (n : ℕ)
    → (a.offset ≢ 0 → n ≤ a.offset)
    → ((k : ℕ) (b : Area) → get_elem? t k ≡ some b → b.offset ≢ 0 → n ≤ b.offset)
    → (k : ℕ) (b : Area) → get_elem? (a ∷ t) k ≡ some b
    → b.offset ≢ 0
    → n ≤ b.offset
cons_bound a t n h hs zero b e nz = ground arith
cons_bound a t n h hs (suc k) b e nz = hs k b e nz

-- An entry in use is the area of a keyslot, and the areas of the keyslots that lie behind the start
-- of the device are in the table.
pub area_table-area_at :
    (ks : List (Option Area)) (i : ℕ) (a : Area)
    → get_elem? (area_table ks) i ≡ some a
    → a.offset ≢ 0
    → area_at ks i ≡ some a
unfolding area_table area_at
area_table-area_at [] i a e nz = absurd cc
area_table-area_at (none ∷ ks) zero a e nz =
    let empty : 0 ≡ a.offset = ap (λ o. elim o [ some x ↦ x.offset | none ↦ 0 ]) e in
    absurd (nz (sym empty))
area_table-area_at (some b ∷ ks) zero a e nz = e
area_table-area_at (none ∷ ks) (suc i) a e nz = area_table-area_at ks i a e nz
area_table-area_at (some b ∷ ks) (suc i) a e nz = area_table-area_at ks i a e nz

pub area_at-area_table :
    (ks : List (Option Area)) (i : ℕ) (a : Area)
    → area_at ks i ≡ some a
    → get_elem? (area_table ks) i ≡ some a
unfolding area_table area_at
area_at-area_table [] i a e = absurd cc
area_at-area_table (none ∷ ks) zero a e = absurd cc
area_at-area_table (some b ∷ ks) zero a e = e
area_at-area_table (none ∷ ks) (suc i) a e = area_at-area_table ks i a e
area_at-area_table (some b ∷ ks) (suc i) a e = area_at-area_table ks i a e

pub area_table-IsTable :
    {lo hi : ℕ} (ks : List (Option Area))
    → IsPlaced lo hi (area_at ks)
    → IsTable lo hi (area_table ks)
area_table-IsTable ks v = record {
  bounds = λ i a e nz. v.bounds i a (area_table-area_at ks i a e nz);
  apart = λ i k a b e f ne n m.
      v.apart i k a b (area_table-area_at ks i a e n) (area_table-area_at ks k b f m) ne;
}

pub smallest-Found :
    (t : List Area) (j offset : ℕ) (area_i : Option ℕ)
    → Found t j offset area_i (smallest t j offset area_i)
unfolding smallest
smallest-Found [] j offset area_i = nothing refl (λ k a e nz. absurd (cc))
smallest-Found (a ∷ t) j offset area_i = elim (Bool-cases (is_candidate offset a)) [
  | inl hit ↦ elim (smallest-Found t (suc j) a.offset (some j)) [
    | nothing e above ↦
        entry 0 a (rw hit (e ∙ ap some (omega arith))) refl (ground arith) (ground arith)
          (cons_bound a t a.offset (λ _. omega arith) (λ k b f nz. omega (arith, above k b f nz)))
    | entry k x e f nz le least ↦
        entry (suc k) x (rw hit (e ∙ ap some (omega arith))) f nz (ground arith)
          (cons_bound a t x.offset (λ _. le) least)
  ]
  | inr miss ↦ elim (smallest-Found t (suc j) offset area_i) [
    | nothing e above ↦ nothing (rw miss e) (cons_bound a t (suc offset) (λ nz. ground arith) above)
    | entry k x e f nz le least ↦
        entry (suc k) x (rw miss (e ∙ ap some (omega arith))) f nz le
          (cons_bound a t x.offset (λ nz'. ground arith) least)
  ]
]
