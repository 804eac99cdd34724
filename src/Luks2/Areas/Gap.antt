-- ===== src/Luks2/Areas/Gap.antt =====
-- lib/luks2/luks2_json_format.c: the loop of LUKS2_find_area_gap over areas in order.
use cryptsetup.Base.{ℕ, ◌+◌, ◌^◌, ◌≤◌, ◌<◌, ◌≡◌, ◌⊎◌, inl, inr, refl, sym, ap, arith, List, [], ◌∷◌}
use cryptsetup.Base.{In}
use mathlib.Core.Path.{subst}
use cryptsetup.Luks2.Areas.{Area, first_gap}
use cryptsetup.Luks2.Areas.Table.{IsArea}
use cryptsetup.Luks2.Areas.Sort.{Chain}

-- The `len` bytes from `offset` on and the area share no byte.
abbrev pub Free : ℕ → ℕ → Area → Type 0
Free offset len a = (offset + len ≤ a.offset) ⊎ (a.offset + a.len ≤ offset)

pub Chain-IsArea : (lo hi : ℕ) (s : List Area) (b : Area) → Chain lo hi s → In b s → IsArea lo hi b
Chain-IsArea lo hi [] b c m = elim m [ ]
Chain-IsArea lo hi (a ∷ s) b (v, c) (inl e) = subst (IsArea lo hi) (sym e) v
Chain-IsArea lo hi (a ∷ s) b (v, c) (inr m) =
    let w = Chain-IsArea (a.offset + a.len) hi s b c m in
    record { low = omega (arith, v.low, w.low); nonempty = w.nonempty; high = w.high }

-- The areas are not empty, so each of them is looked at; there is no overflow.
gap_step :
    (a : Area) (s : List Area) (lo hi len : ℕ)
    → IsArea lo hi a
    → 0 < lo
    → hi + len < 2 ^ 64
    → ((lo < a.offset) × (lo + len ≤ a.offset) × (first_gap (a ∷ s) lo len ≡ lo))
      ⊎ (((a.offset ≤ lo) ⊎ (a.offset < lo + len))
          × (first_gap (a ∷ s) lo len ≡ first_gap s (a.offset + a.len) len))
unfolding first_gap
gap_step a s lo hi len v pos small =
    let l = v.low in let n = v.nonempty in let h = v.high in ground arith

pub first_gap-low :
    (s : List Area) (lo hi len : ℕ)
    → Chain lo hi s
    → 0 < lo
    → hi + len < 2 ^ 64
    → lo ≤ first_gap s lo len
first_gap-low [] lo hi len c pos small = unfold first_gap in omega arith
first_gap-low (a ∷ s) lo hi len (v, c) pos small = elim (gap_step a s lo hi len v pos small) [
  | inl (_, _, e) ↦ omega (arith, e)
  | inr (_, e) ↦
      let low = v.low in
      omega (arith, e, first_gap-low s (a.offset + a.len) hi len c (omega arith) small)
]

pub first_gap-high :
    (s : List Area) (lo hi len : ℕ)
    → Chain lo hi s
    → 0 < lo
    → lo ≤ hi
    → hi + len < 2 ^ 64
    → first_gap s lo len ≤ hi
first_gap-high [] lo hi len c pos le small = unfold first_gap in omega arith
first_gap-high (a ∷ s) lo hi len (v, c) pos le small = elim (gap_step a s lo hi len v pos small) [
  | inl (_, _, e) ↦ omega (arith, e)
  | inr (_, e) ↦
      let low = v.low in
      let high = v.high in
      omega (arith, e, first_gap-high s (a.offset + a.len) hi len c (omega arith) high small)
]

pub first_gap-Free :
    (s : List Area) (lo hi len : ℕ) (b : Area)
    → Chain lo hi s
    → 0 < lo
    → hi + len < 2 ^ 64
    → In b s
    → Free (first_gap s lo len) len b
first_gap-Free [] lo hi len b c pos small m = elim m [ ]
first_gap-Free (a ∷ s) lo hi len b (v, c) pos small m = elim (gap_step a s lo hi len v pos small) [
  | inl (_, gap, e) ↦
      let w =
        Chain-IsArea a.offset hi (a ∷ s) b
          (record { low = omega arith; nonempty = v.nonempty; high = v.high }, c) m in
      let low = w.low in inl (omega (arith, e))
  | inr (_, e) ↦
      let low = v.low in
      elim m [
        | inl same ↦
            let last : b.offset + b.len ≡ a.offset + a.len =
              ap (λ (x : Area). x.offset + x.len) same in
            inr (
              omega
                (arith, e, last, first_gap-low s (a.offset + a.len) hi len c (omega arith) small))
        | inr n ↦
            subst (λ r. Free r len b) (sym e)
              (first_gap-Free s (a.offset + a.len) hi len b c (omega arith) small n)
      ]
]

-- Nothing that is free stands before the gap found.
pub first_gap-least :
    (s : List Area) (lo hi len x : ℕ)
    → Chain lo hi s
    → 0 < lo
    → hi + len < 2 ^ 64
    → 0 < len
    → lo ≤ x
    → ((b : Area) → In b s → Free x len b)
    → first_gap s lo len ≤ x
first_gap-least [] lo hi len x c pos small some_len le free = unfold first_gap in le
first_gap-least (a ∷ s) lo hi len x (v, c) pos small some_len le free =
    elim (gap_step a s lo hi len v pos small) [
      | inl (_, _, e) ↦ omega (arith, e)
      | inr (no_gap, e) ↦
          let low = v.low in
          let nonempty = v.nonempty in
          let after : a.offset + a.len ≤ x =
            after_area (free a (inl refl)) no_gap v.low v.nonempty in
          omega (
            arith,
            e,
            first_gap-least s (a.offset + a.len) hi len x c (omega arith) small some_len after
                (λ b m. free b (inr m)),
          )
    ]
  where
    after_area :
        Free x len a
        → (a.offset ≤ lo) ⊎ (a.offset < lo + len)
        → lo ≤ a.offset
        → 0 < a.len
        → a.offset + a.len ≤ x
    after_area f g low n = ground arith
