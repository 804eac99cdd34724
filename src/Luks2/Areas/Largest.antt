-- ===== src/Luks2/Areas/Largest.antt =====
-- lib/luks2/luks2_json_format.c: the loop of LUKS2_find_area_max_gap over areas in order.
use cryptsetup.Base.{
  ℕ, ◌+◌, ◌-◌, ◌^◌, ◌≤◌, ◌<◌, ◌≡◌, ◌⊎◌, inl, inr, refl, sym, ap, ◌∙◌, arith, List, [], ◌∷◌, ◌++◌,
  In, if◌then◌else◌, ◌==◌, ltb, ◌&&◌, false,
}
use mathlib.Core.Path.{subst}
use cryptsetup.Luks2.Areas.{Area, u64, largest_gap, is_empty}
use cryptsetup.Luks2.Areas.Table.{Apart, IsArea}
use cryptsetup.Luks2.Areas.Sort.{Chain}
use cryptsetup.Luks2.Areas.Gap.{Chain-IsArea}

-- The best gap after the one between `offset` and the area.
abbrev next_best : Area → ℕ → Area → Area
next_best a offset best =
    if ltb offset a.offset && ltb best.len (a.offset - offset)
    then record { offset = offset; len = a.offset - offset }
    else best

next_best-cases :
    (a : Area) (offset : ℕ) (best : Area)
    → ((offset < a.offset)
        × (best.len < a.offset - offset)
        × (next_best a offset best ≡ record { offset = offset; len = a.offset - offset }))
      ⊎ ((a.offset - offset ≤ best.len) × (next_best a offset best ≡ best))
next_best-cases a offset best = ground arith

next_best-le :
    (a : Area) (offset : ℕ) (best : Area)
    → (best.len ≤ (next_best a offset best).len)
      × (a.offset - offset ≤ (next_best a offset best).len)
next_best-le a offset best = ground arith

-- An area that is not empty is looked at; its end does not overflow.
largest_gap-cons :
    (a : Area) (s : List Area) (offset : ℕ) (best : Area)
    → 0 < a.offset
    → 0 < a.len
    → a.offset + a.len < 2 ^ 64
    → largest_gap (a ∷ s) offset best ≡ largest_gap s (a.offset + a.len) (next_best a offset best)
unfolding largest_gap
largest_gap-cons a s offset best pos nonempty small =
    let used : is_empty a ≡ false = ground arith in
    let end : u64 (a.offset + a.len) ≡ a.offset + a.len = omega arith in rw (used, end) refl

pub pos-ne_zero : (n : ℕ) → 0 < n → (n == 0) ≡ false
pos-ne_zero n h = ground arith

-- The loop over areas in order below `hi`, where the last area stands.
module _ (hi : ℕ) (small : hi + 1 < 2 ^ 64) where
  abbrev pub last : Area
  last = record { offset = hi; len = 1 }

  abbrev pub largest : List Area → ℕ → Area → Area
  largest s lo best = largest_gap (s ++ (last ∷ [])) lo best

  largest-nil : (lo : ℕ) (best : Area) → 0 < hi → largest [] lo best ≡ next_best last lo best
  largest-nil lo best pos =
      largest_gap-cons last [] lo best pos (omega arith) small ∙ unfold largest_gap in refl

  largest-cons :
      (a : Area) (s : List Area) (lo : ℕ) (best : Area)
      → 0 < lo
      → IsArea lo hi a
      → largest (a ∷ s) lo best ≡ largest s (a.offset + a.len) (next_best a lo best)
  largest-cons a s lo best pos v =
      let low = v.low in
      let high = v.high in
      largest_gap-cons a (s ++ (last ∷ [])) lo best (omega arith) v.nonempty (omega arith)

  -- The best gap only gets longer.
  pub largest-ge :
      (s : List Area) (lo : ℕ) (best : Area)
      → 0 < lo
      → lo ≤ hi
      → Chain lo hi s
      → best.len ≤ (largest s lo best).len
  largest-ge [] lo best pos le c = omega (
    arith,
    ap (λ (a : Area). a.len) (largest-nil lo best (omega arith)),
    next_best-le last lo best,
  )
  largest-ge (a ∷ s) lo best pos le (v, c) =
      let low = v.low in
      omega (
        arith,
        ap (λ (x : Area). x.len) (largest-cons a s lo best pos v),
        next_best-le a lo best,
        largest-ge s (a.offset + a.len) (next_best a lo best) (omega arith) v.high c,
      )

  -- A place between `lo` and `hi` that shares no byte with the areas.
  abbrev pub IsGap : ℕ → List Area → Area → Type 0
  IsGap lo s r = IsArea lo hi r × ((b : Area) → In b s → Apart r b)

  -- What the loop returns is the best gap before it, or a gap.
  pub largest-IsGap :
      (s : List Area) (lo : ℕ) (best : Area)
      → 0 < lo
      → lo ≤ hi
      → Chain lo hi s
      → (largest s lo best ≡ best) ⊎ IsGap lo s (largest s lo best)
  largest-IsGap [] lo best pos le c = elim (next_best-cases last lo best) [
    | inr (_, e) ↦ inl (largest-nil lo best (omega arith) ∙ e)
    | inl (room, _, e) ↦ inr (
        subst (IsGap lo []) (sym (largest-nil lo best (omega arith) ∙ e)) (
          record { low = omega arith; nonempty = omega arith; high = omega arith },
          λ b m. elim m [ ],
        ))
  ]
  largest-IsGap (a ∷ s) lo best pos le (v, c) =
      let low = v.low in
      let high = v.high in
      let nonempty = v.nonempty in
      let step = largest-cons a s lo best pos v in
      elim (largest-IsGap s (a.offset + a.len) (next_best a lo best) (omega arith) v.high c) [
        | inr (w, free) ↦ inr (subst (IsGap lo (a ∷ s)) (sym step) (after a s lo _ v w free))
        | inl same ↦ elim (next_best-cases a lo best) [
          | inr (_, e) ↦ inl (step ∙ same ∙ e)
          | inl (room, _, e) ↦
              inr (subst (IsGap lo (a ∷ s)) (sym (step ∙ same ∙ e)) (before a s lo room v c))
        ]
      ]
    where
      after :
          (a : Area) (s : List Area) (lo : ℕ) (r : Area)
          → IsArea lo hi a
          → IsArea (a.offset + a.len) hi r
          → ((b : Area) → In b s → Apart r b)
          → IsGap lo (a ∷ s) r
      after a s lo r v w free =
          let low = v.low in
          let behind = w.low in
          (
            record { low = omega arith; nonempty = w.nonempty; high = w.high },
            λ b m. elim m [ inl e ↦ subst (Apart r) (sym e) (inr behind) | inr i ↦ free b i ],
          )

      before :
          (a : Area) (s : List Area) (lo : ℕ)
          → lo < a.offset
          → IsArea lo hi a
          → Chain (a.offset + a.len) hi s
          → IsGap lo (a ∷ s) (record { offset = lo; len = a.offset - lo })
      before a s lo room v c =
          let high = v.high in
          (
            record { low = omega arith; nonempty = omega arith; high = omega arith },
            λ b m. elim m [
              | inl e ↦ subst (Apart _) (sym e) (inl (omega arith))
              | inr i ↦
                  let w = Chain-IsArea (a.offset + a.len) hi s b c i in
                  let behind = w.low in inl (omega arith)
            ],
          )

  -- No gap is longer.
  pub largest-max :
      (s : List Area) (lo : ℕ) (best x : Area)
      → 0 < lo
      → lo ≤ hi
      → Chain lo hi s
      → IsGap lo s x
      → x.len ≤ (largest s lo best).len
  largest-max [] lo best x pos le c (w, free) =
      let low = w.low in
      let high = w.high in
      omega (
        arith,
        ap (λ (a : Area). a.len) (largest-nil lo best (omega arith)),
        next_best-le last lo best,
      )
  largest-max (a ∷ s) lo best x pos le (v, c) (w, free) =
      let low = v.low in
      let low' = w.low in
      let step = ap (λ (y : Area). y.len) (largest-cons a s lo best pos v) in
      elim (free a (inl refl)) [
        | inl in_front ↦ omega (
          arith,
          step,
          next_best-le a lo best,
          largest-ge s (a.offset + a.len) (next_best a lo best) (omega arith) v.high c,
        )
        | inr behind ↦
            let rest : IsArea (a.offset + a.len) hi x = record {
              low = behind;
              nonempty = w.nonempty;
              high = w.high;
            } in
            omega (
              arith,
              step,
              largest-max s (a.offset + a.len) (next_best a lo best) x (omega arith) v.high c
                  (rest, λ b m. free b (inr m)),
            )
      ]
