-- ===== src/Luks2/Areas/Sort.antt =====
-- lib/luks2/luks2_json_format.c: the sorted table lists the areas in use in order, with no overlap.
use cryptsetup.Base.{
  ℕ, zero, suc, ◌+◌, ◌≤◌, ◌<◌, ◌≡◌, ◌≢◌, inl, inr, sym, ap, ◌∙◌, arith, List, [], ◌∷◌,
}
use cryptsetup.Base.{
  get_elem?, set, get_elem?-set, get_elem?-set_ne, get_or-get_elem?, In, some, none, length,
}
use cryptsetup.Base.{◌==◌, if◌then◌else◌}
use cryptsetup.Luks2.Areas.{Area, no_area, sort_areas, smallest}
use cryptsetup.Luks2.Areas.Table.{IsArea, IsTable, nothing, entry, smallest-Found}
use mathlib.Core.Path.{subst}
use native.Mathlib.Decide.{ℕ_discrete}

-- Areas in order between `lo` and `hi`.
abbrev pub Chain : ℕ → ℕ → List Area → Type 0
Chain lo hi [] = Unit
Chain lo hi (a ∷ s) = IsArea lo hi a × Chain (a.offset + a.len) hi s

-- An entry in use of a table from which entry `k` was removed.
cleared_entry :
    (t : List Area) (k i : ℕ) (a : Area)
    → get_elem? (set t k no_area) i ≡ some a
    → a.offset ≢ 0
    → (k ≢ i) × (get_elem? t i ≡ some a)
cleared_entry t k i a e nz = elim (get_elem?-set t k i no_area a e) [
  | inl (p, q) ↦ absurd (nz (ap (λ (b : Area). b.offset) q))
  | inr r ↦ r
]

cleared-IsTable :
    (lo hi : ℕ) (t : List Area) (k : ℕ) (x : Area)
    → IsTable lo hi t
    → get_elem? t k ≡ some x
    → x.offset ≢ 0
    → ((i : ℕ) (a : Area) → get_elem? t i ≡ some a → a.offset ≢ 0 → x.offset ≤ a.offset)
    → IsTable (x.offset + x.len) hi (set t k no_area)
cleared-IsTable lo hi t k x v f nz least = record {
  bounds = λ i a e n.
      let (ne, g) = cleared_entry t k i a e n in
      let b = v.bounds i a g n in
      let le = least i a g n in
      let ap' = v.apart k i x a f g ne nz n in
      record { low = omega arith; nonempty = b.nonempty; high = b.high };
  apart = λ i j a b e g ne n m.
      v.apart i j a b (cleared_entry t k i a e n).1 (cleared_entry t k j b g m).1 ne n m;
}

sort_areas-none :
    (n start : ℕ) (t : List Area)
    → smallest t 0 start none ≡ none
    → sort_areas (suc n) start t ≡ sort_areas n start t
unfolding sort_areas
sort_areas-none n start t e = ground arith

sort_areas-some :
    (n start : ℕ) (t : List Area) (k : ℕ) (x : Area)
    → smallest t 0 start none ≡ some (0 + k)
    → get_elem? t k ≡ some x
    → sort_areas (suc n) start t ≡ x ∷ sort_areas n start (set t k no_area)
unfolding sort_areas
sort_areas-some n start t k x e f =
    let at : smallest t 0 start none ≡ some k = e ∙ ap some (omega arith) in
    rw (at, sort_areas)
      (ap (λ y. y ∷ sort_areas n start (set t k no_area)) (get_or-get_elem? t k no_area x f))

pub sort_areas-Chain :
    (n start lo hi : ℕ) (t : List Area) → IsTable lo hi t → Chain lo hi (sort_areas n start t)
sort_areas-Chain zero start lo hi t v = unfold sort_areas in tt
sort_areas-Chain (suc n) start lo hi t v = elim (smallest-Found t 0 start none) [
  | nothing e above ↦
      subst (Chain lo hi) (sym (sort_areas-none n start t e)) (sort_areas-Chain n start lo hi t v)
  | entry k x e f nz le least ↦ subst (Chain lo hi) (sym (sort_areas-some n start t k x e f)) (
    v.bounds k x f nz,
    sort_areas-Chain n start (x.offset + x.len) hi (set t k no_area)
        (cleared-IsTable lo hi t k x v f nz least),
  )
]

-- The number of entries in use.
pub in_use : List Area → ℕ
in_use [] = 0
in_use (a ∷ t) = if a.offset == 0 then in_use t else suc (in_use t)

pub in_use-le-length : (t : List Area) → in_use t ≤ length t
unfolding in_use
in_use-le-length [] = omega arith
in_use-le-length (a ∷ t) = ground (arith, in_use-le-length t)

in_use-set :
    (t : List Area) (k : ℕ) (x : Area)
    → get_elem? t k ≡ some x
    → x.offset ≢ 0
    → suc (in_use (set t k no_area)) ≡ in_use t
unfolding in_use
in_use-set [] k x e nz = cc
in_use-set (a ∷ t) zero x e nz = ground arith
in_use-set (a ∷ t) (suc k) x e nz = ground (arith, in_use-set t k x e nz)

in_use-pos :
    (t : List Area) (k : ℕ) (x : Area) → get_elem? t k ≡ some x → x.offset ≢ 0 → 0 < in_use t
unfolding in_use
in_use-pos t k x e nz = omega (arith, in_use-set t k x e nz)

-- With a round for each entry in use, every area that starts at or below `start` is in the sorted
-- table.
pub sort_areas-In :
    (n start : ℕ) (t : List Area) (i : ℕ) (a : Area)
    → in_use t ≤ n
    → get_elem? t i ≡ some a
    → a.offset ≢ 0
    → a.offset ≤ start
    → In a (sort_areas n start t)
sort_areas-In zero start t i a h e nz le = absurd (omega (arith, in_use-pos t i a e nz))
sort_areas-In (suc n) start t i a h e nz le = elim (smallest-Found t 0 start none) [
  | nothing p above ↦ absurd (omega (arith, above i a e nz))
  | entry k x p f nz' le' least ↦
      subst (In a) (sym (sort_areas-some n start t k x p f)) (elim (ℕ_discrete k i) [
        | yes same ↦ let both : some a ≡ some x = sym e ∙ ap (get_elem? t) (sym same) ∙ f in inl cc
        | no other ↦ inr (
            sort_areas-In n start (set t k no_area) i a (omega (arith, in_use-set t k x f nz'))
              (get_elem?-set_ne t k i no_area other ∙ e) nz le)
      ])
]

-- The sorted table has no other areas.
pub In-sort_areas :
    (n start : ℕ) (t : List Area) (b : Area)
    → In b (sort_areas n start t)
    → (i : ℕ) × (get_elem? t i ≡ some b) × (b.offset ≢ 0)
In-sort_areas zero start t b m = absurd (unfold sort_areas in m)
In-sort_areas (suc n) start t b m = elim (smallest-Found t 0 start none) [
  | nothing e above ↦ In-sort_areas n start t b (subst (In b) (sort_areas-none n start t e) m)
  | entry k x e f nz le least ↦ elim (subst (In b) (sort_areas-some n start t k x e f) m) [
    | inl same ↦ (k, f ∙ ap some (sym same), λ z. nz (ap (λ (a : Area). a.offset) (sym same) ∙ z))
    | inr rest ↦
        let (i, g, bz) = In-sort_areas n start (set t k no_area) b rest in
        (i, (cleared_entry t k i b g bz).1, bz)
  ]
]
