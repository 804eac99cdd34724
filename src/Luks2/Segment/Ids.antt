-- ===== src/Luks2/Segment/Ids.antt =====
-- lib/luks2/luks2_segment.c: which ids and offsets the searches find.
use cryptsetup.Base.{
  ℕ, suc, ◌-◌, ◌^◌, ◌≤◌, ◌<◌, ◌≡◌, refl, sym, ap, ap₂, ◌∙◌, arith, List, [], ◌∷◌, Bool, false,
  if◌then◌else◌, ltb, ◌==◌, Bool-cases, Option-cases, inl, inr, ◌⊎◌,
}
use cryptsetup.Base.{none, some, ok, ok-injective, In}
use cryptsetup.Base.Strings.{same, codes, same-eq}
use mathlib.Core.Path.{subst}
use cryptsetup.Json.{JsonC}
use cryptsetup.Json.Decimal.{decimal, atoi}
use cryptsetup.Json.Laws.{IsJsonC, find_member}
use cryptsetup.Json.Number.{atoi-decimal}
use cryptsetup.Luks2.Segment.{
  after_last, segment_first_unused_id, segments_get_segment, least_offset,
  segments_get_minimal_offset,
}
use cryptsetup.Luks2.Segment.{segment_is_backup, segment_get_offset, in_units}

-- INT_MAX
abbrev pub int_max : ℕ
int_max = 2 ^ 31 - 1

pair :
    {A : Type 0} {k k' : List ℕ} {v v' : A} → k ≡ k' → v ≡ v' → ◌≡◌ {A = List ℕ × A} (k, v) (k', v')
pair e f = ap₂ (λ x y. (x, y)) e f

-- The member that is found stands in the list under its key.
pub find_member-In :
    {A : Type 0} (ms : List (List ℕ × A)) (key : List ℕ) (a : A)
    → find_member ms key ≡ some a
    → In (key, a) ms
unfolding find_member
find_member-In [] key a h = absurd cc
find_member-In {A} (m ∷ ms) key a h = elim (Bool-cases (same (m.0) key)) [
  | inl here ↦
      let e : some (m.1) ≡ some a = sym (rw here refl) ∙ h in
      let value : a ≡ m.1 = cc in inl (pair (sym (same-eq (m.0) key here)) value)
  | inr there ↦ inr (find_member-In ms key a (sym (rw there refl) ∙ h))
]

module _ (j : JsonC) where
  after_last-ge : (ms : List (List ℕ × j.Json)) (next : ℕ) → next ≤ after_last j ms next
  unfolding after_last
  after_last-ge [] next = omega arith
  after_last-ge (m ∷ ms) next =
      ground (arith, after_last-ge ms next, after_last-ge ms (suc (atoi (m.0))))

  after_last-gt :
      (ms : List (List ℕ × j.Json)) (next : ℕ) (m : List ℕ × j.Json)
      → In m ms
      → atoi (m.0) < after_last j ms next
  unfolding after_last
  after_last-gt [] next m h = elim h [ ]
  after_last-gt (x ∷ ms) next m (inl e) =
      let id : atoi (m.0) ≡ atoi (x.0) = ap (λ (y : List ℕ × j.Json). atoi (y.0)) e in
      ground (arith, after_last-ge ms next, after_last-ge ms (suc (atoi (x.0))))
  after_last-gt (x ∷ ms) next m (inr h) =
      after_last-gt ms (if ltb (atoi (x.0)) next then next else suc (atoi (x.0))) m h

  -- Behind ids below a bound comes no larger number than the bound.
  after_last-le :
      (ms : List (List ℕ × j.Json)) (next bound : ℕ)
      → next ≤ bound
      → ((m : List ℕ × j.Json) → In m ms → atoi (m.0) < bound)
      → after_last j ms next ≤ bound
  unfolding after_last
  after_last-le [] next bound le ids = le
  after_last-le (m ∷ ms) next bound le ids =
      after_last-le ms (if ltb (atoi (m.0)) next then next else suc (atoi (m.0))) bound
        (larger (ids m (inl refl))) (λ x i. ids x (inr i))
    where
      larger :
          atoi (m.0) < bound → (if ltb (atoi (m.0)) next then next else suc (atoi (m.0))) ≤ bound
      larger below = ground arith

  -- A smallest offset so far only gets smaller.
  least_offset-le :
      (ms : List (List ℕ × j.Json)) (blockwise : Bool) (least : ℕ)
      → least_offset j ms blockwise least ≤ least
  unfolding least_offset
  least_offset-le [] blockwise least = omega arith
  least_offset-le (m ∷ ms) blockwise least = ground (
    arith,
    least_offset-le ms blockwise least,
    least_offset-le ms blockwise (segment_get_offset j (some (m.1)) blockwise),
  )

  least_offset-lower :
      (ms : List (List ℕ × j.Json)) (blockwise : Bool) (least : ℕ) (m : List ℕ × j.Json)
      → In m ms
      → segment_is_backup j (m.1) ≡ false
      → least_offset j ms blockwise least ≤ segment_get_offset j (some (m.1)) blockwise
  unfolding least_offset
  least_offset-lower [] blockwise least m h regular = elim h [ ]
  least_offset-lower (x ∷ ms) blockwise least m (inl e) regular =
      let same_offset : segment_get_offset j (some (m.1)) blockwise
          ≡ segment_get_offset j (some (x.1)) blockwise =
        ap (λ (y : List ℕ × j.Json). segment_get_offset j (some (y.1)) blockwise) e in
      let x_regular : segment_is_backup j (x.1) ≡ false =
        ap (λ (y : List ℕ × j.Json). segment_is_backup j (y.1)) (sym e) ∙ regular in
      ground (
        arith,
        least_offset-le ms blockwise least,
        least_offset-le ms blockwise (segment_get_offset j (some (x.1)) blockwise),
      )
  least_offset-lower (x ∷ ms) blockwise least m (inr h) regular = ground (
    arith,
    least_offset-lower ms blockwise least m h regular,
    least_offset-lower ms blockwise (segment_get_offset j (some (x.1)) blockwise) m h regular,
  )

  -- The result is the offset of a regular segment, or the bound the search started with.
  abbrev pub Attained : List (List ℕ × j.Json) → Bool → ℕ → ℕ → Type 0
  Attained ms blockwise least r =
      (r ≡ least)
      ⊎ ((m : List ℕ × j.Json) × In m ms
          × (segment_is_backup j (m.1) ≡ false)
          × (r ≡ segment_get_offset j (some (m.1)) blockwise))

  Attained-cons :
      (x : List ℕ × j.Json) (ms : List (List ℕ × j.Json)) (blockwise : Bool) (least r : ℕ)
      → Attained ms blockwise least r
      → Attained (x ∷ ms) blockwise least r
  Attained-cons x ms blockwise least r (inl e) = inl e
  Attained-cons x ms blockwise least r (inr (m, h, regular, e)) = inr (m, inr h, regular, e)

  least_offset-Attained :
      (ms : List (List ℕ × j.Json)) (blockwise : Bool) (least : ℕ)
      → Attained ms blockwise least (least_offset j ms blockwise least)
  unfolding least_offset
  least_offset-Attained [] blockwise least = inl refl
  least_offset-Attained (x ∷ ms) blockwise least = elim (Bool-cases (segment_is_backup j (x.1))) [
    | inl backup ↦
        subst (λ r. Attained (x ∷ ms) blockwise least r) (rw backup refl)
          (Attained-cons x ms blockwise least (least_offset j ms blockwise least)
            (least_offset-Attained ms blockwise least))
    | inr regular ↦ elim (Bool-cases ((segment_get_offset j (some (x.1)) blockwise) == 0)) [
      | inl zero_offset ↦
          let value : 0 ≡ (segment_get_offset j (some (x.1)) blockwise) = ground arith in
          subst (λ r. Attained (x ∷ ms) blockwise least r) (rw (regular, zero_offset) refl)
            (inr (x, inl refl, regular, value))
      | inr positive ↦ elim (Bool-cases (ltb (segment_get_offset j (some (x.1)) blockwise) least)) [
        | inl less ↦
            subst (λ r. Attained (x ∷ ms) blockwise least r) (rw (regular, positive, less) refl)
              (elim (least_offset-Attained ms blockwise
                (segment_get_offset j (some (x.1)) blockwise)) [
                  | inl e ↦ inr (x, inl refl, regular, e)
                  | inr (m, h, reg, e) ↦ inr (m, inr h, reg, e)
                ])
        | inr not_less ↦
            subst (λ r. Attained (x ∷ ms) blockwise least r) (rw (regular, positive, not_less) refl)
              (Attained-cons x ms blockwise least (least_offset j ms blockwise least)
                (least_offset-Attained ms blockwise least))
      ]
    ]
  ]

-- If every id is below the largest int, the id that LUKS2_segment_first_unused_id returns is an int,
-- above every id, and it names no segment.
pub segment_first_unused_id_free :
    (j : JsonC) (hdr segments : j.Json) (id : ℕ)
    → IsJsonC j
    → j.get_ex hdr (codes "segments") ≡ some segments
    → ((m : List ℕ × j.Json) → In m (j.members segments) → atoi (m.0) < int_max)
    → segment_first_unused_id j hdr ≡ ok id
    → (id ≤ int_max)
      × ((m : List ℕ × j.Json) → In m (j.members segments) → atoi (m.0) < id)
      × (segments_get_segment j segments id ≡ none)
unfolding segments_get_segment segment_first_unused_id
segment_first_unused_id_free j hdr segments id laws e ints h =
    let same_id : after_last j (j.members segments) 0 ≡ id =
      ok-injective (sym (rw (e, segment_first_unused_id) refl) ∙ h) in
    let fits : id ≤ int_max =
      subst (λ n. n ≤ int_max) same_id
        (after_last-le j (j.members segments) 0 int_max (omega arith) ints) in
    let above : (m : List ℕ × j.Json) → In m (j.members segments) → atoi (m.0) < id =
      λ m i. subst (λ n. atoi (m.0) < n) same_id (after_last-gt j (j.members segments) 0 m i) in
    (
      fits,
      above,
      elim (Option-cases (j.get_ex segments (decimal id))) [
        | inl free ↦ free
        | inr (v, used) ↦
            let member =
              find_member-In (j.members segments) (decimal id) v
                (sym (laws.get_members segments (decimal id)) ∙ used) in
            let below = above (decimal id, v) member in
            absurd (omega (arith, atoi-decimal id (omega arith)))
      ],
    )

segments_get_minimal_offset-lower :
    (j : JsonC) (segments segment : j.Json) (key : List ℕ) (blockwise : Bool)
    → In (key, segment) (j.members segments)
    → segment_is_backup j segment ≡ false
    → segments_get_minimal_offset j (some segments) blockwise
      ≤ segment_get_offset j (some segment) blockwise
unfolding segments_get_minimal_offset
segments_get_minimal_offset-lower j segments segment key blockwise h regular =
    least_offset-lower j (j.members segments) blockwise (in_units blockwise (2 ^ 64 - 1))
      (key, segment) h regular

-- What json_segments_get_minimal_offset returns is not above the offset of any regular segment, and
-- it is the offset of one, or the largest number if every offset is.
pub segments_get_minimal_offset_least :
    (j : JsonC) (segments segment : j.Json) (key : List ℕ) (blockwise : Bool)
    → In (key, segment) (j.members segments)
    → segment_is_backup j segment ≡ false
    → (segments_get_minimal_offset j (some segments) blockwise
        ≤ segment_get_offset j (some segment) blockwise)
      × Attained j
          (j.members segments)
          blockwise
          (in_units blockwise (2 ^ 64 - 1))
          (segments_get_minimal_offset j (some segments) blockwise)
unfolding segments_get_minimal_offset
segments_get_minimal_offset_least j segments segment key blockwise h regular = (
  segments_get_minimal_offset-lower j segments segment key blockwise h regular,
  least_offset-Attained j (j.members segments) blockwise (in_units blockwise (2 ^ 64 - 1)),
)
