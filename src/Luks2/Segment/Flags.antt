-- ===== src/Luks2/Segment/Flags.antt =====
-- lib/luks2/luks2_segment.c: setting and removing a flag.
use cryptsetup.Base.{
  ℕ, ◌≡◌, refl, sym, ap, ◌∙◌, arith, List, [], ◌∷◌, ◌++◌, true, if◌then◌else◌, ◌==◌, length,
  Bool-cases, Option-cases, inl, inr,
}
use cryptsetup.Base.{Option, none, some}
use cryptsetup.Base.Strings.{same, same_refl, codes}
use cryptsetup.Json.{JsonC, find_string, drop_string, array_jobj, array_remove}
use cryptsetup.Json.Laws.{IsJsonC}
use cryptsetup.Luks2.Segment.{segment_set_flag, segment_remove_flag}

-- The flags of a segment.
abbrev pub flags_of : (j : JsonC) → j.Json → List j.Json
flags_of j segment = elim (j.get_ex segment (codes "flags")) [
  | none ↦ []
  | some flags ↦ j.elements flags
]

module _ (j : JsonC) (laws : IsJsonC j) (flag : List ℕ) where
  same_flag : (x : j.Json) → j.get_string x ≡ flag → same flag (j.get_string x) ≡ true
  same_flag x e = ap (λ s. same flag s) e ∙ same_refl flag

  pub find_string-append :
      (xs : List j.Json) (x : j.Json)
      → j.get_string x ≡ flag
      → find_string j xs flag ≡ none
      → find_string j (xs ++ (x ∷ [])) flag ≡ some x
  unfolding find_string
  find_string-append [] x e h = rw (same_flag x e) refl
  find_string-append (y ∷ ys) x e h = elim (Bool-cases (same flag (j.get_string y))) [
    | inl here ↦ let found : some y ≡ none = sym (rw here refl) ∙ h in absurd cc
    | inr there ↦ rw there (find_string-append ys x e (sym (rw there refl) ∙ h))
  ]

  drop_string-append :
      (xs : List j.Json) (x : j.Json)
      → j.get_string x ≡ flag
      → find_string j xs flag ≡ none
      → drop_string j (xs ++ (x ∷ [])) flag ≡ xs
  unfolding find_string drop_string
  drop_string-append [] x e h = rw (same_flag x e) refl
  drop_string-append (y ∷ ys) x e h = elim (Bool-cases (same flag (j.get_string y))) [
    | inl here ↦ let found : some y ≡ none = sym (rw here refl) ∙ h in absurd cc
    | inr there ↦ rw there (ap (λ t. y ∷ t) (drop_string-append ys x e (sym (rw there refl) ∙ h)))
  ]

  -- The segment after the flag was added, from the array it is added to.
  abbrev with_flag : j.Json → j.Json → j.Json
  with_flag segment flags =
      j.object_add segment (codes "flags") (j.array_add flags (j.new_string flag))

  abbrev elements_of : Option j.Json → List j.Json
  elements_of o = elim o [ none ↦ [] | some flags ↦ j.elements flags ]

  abbrev shortened : j.Json → j.Json → j.Json
  shortened segment flags =
      if length (j.elements flags) == 0
      then j.object_del segment (codes "flags")
      else j.object_add segment (codes "flags") flags

  flags_of-shortened :
      (segment flags : j.Json) → flags_of j (shortened segment flags) ≡ j.elements flags
  flags_of-shortened segment flags = elim (Bool-cases (length (j.elements flags) == 0)) [
    | inl empty ↦
        ap
          (λ b. flags_of j (
            if b
            then j.object_del segment (codes "flags")
            else j.object_add segment (codes "flags") flags))
          empty
        ∙ ap elements_of (laws.get_del segment (codes "flags"))
        ∙ sym (no_elements (j.elements flags) (ground arith))
    | inr more ↦
        ap
          (λ b. flags_of j (
            if b
            then j.object_del segment (codes "flags")
            else j.object_add segment (codes "flags") flags))
          more
        ∙ ap elements_of (laws.get_add segment flags (codes "flags"))
  ]
    where
      no_elements : (xs : List j.Json) → length xs ≡ 0 → xs ≡ []
      no_elements [] e = refl
      no_elements (x ∷ xs) e = absurd (omega arith)

  -- Removing the flag that was added last.
  pub array_remove-array_add :
      (flags : j.Json)
      → find_string j (j.elements flags) flag ≡ none
      → (new : j.Json) × (array_remove j (j.array_add flags (j.new_string flag)) flag ≡ some new)
        × (j.elements new ≡ j.elements flags)
  unfolding array_remove array_jobj
  array_remove-array_add flags absent =
      let x : j.Json = j.new_string flag in
      let xs : List j.Json = j.elements (j.array_add flags x) in
      let found : find_string j xs flag ≡ some x =
        ap (λ ys. find_string j ys flag) (laws.elements_add flags x)
        ∙ find_string-append (j.elements flags) x (laws.string_new flag) absent in
      (
        j.new_array (drop_string j xs flag),
        ap
            (λ (o : Option j.Json). elim o [
              | none ↦ none
              | some _ ↦ some (j.new_array (drop_string j xs flag))
            ])
            found,
        laws.elements_new (drop_string j xs flag)
            ∙ ap (λ ys. drop_string j ys flag) (laws.elements_add flags x)
            ∙ drop_string-append (j.elements flags) x (laws.string_new flag) absent,
      )

  remove-with_flag :
      (segment flags : j.Json)
      → find_string j (j.elements flags) flag ≡ none
      → flags_of j (segment_remove_flag j (with_flag segment flags) flag) ≡ j.elements flags
  unfolding segment_remove_flag
  remove-with_flag segment flags absent =
      let after : j.Json = with_flag segment flags in
      let array : j.Json = j.array_add flags (j.new_string flag) in
      let removed : Option j.Json → j.Json =
        λ o. elim o [ none ↦ after | some new ↦ shortened after new ] in
      let of_flags : Option j.Json → j.Json =
        λ o. elim o [ none ↦ after | some fs ↦ removed (array_remove j fs flag) ] in
      let (new, e, same_elements) = array_remove-array_add flags absent in
      ap (λ o. flags_of j (of_flags o)) (laws.get_add segment array (codes "flags"))
      ∙ ap (λ o. flags_of j (removed o)) e
      ∙ flags_of-shortened after new
      ∙ same_elements

  set-with_flag :
      (segment : j.Json)
      → find_string j (flags_of j segment) flag ≡ none
      → (flags : j.Json) × (j.elements flags ≡ flags_of j segment)
        × (segment_set_flag j segment flag ≡ with_flag segment flags)
  unfolding segment_set_flag array_jobj
  set-with_flag segment absent =
      let array : Option j.Json → j.Json =
        λ o. elim o [ none ↦ j.new_array [] | some flags ↦ flags ] in
      let set_in : j.Json → j.Json = λ flags. elim (array_jobj j flags flag) [
        | none ↦ with_flag segment flags
        | some _ ↦ segment
      ] in
      let flags : j.Json = array (j.get_ex segment (codes "flags")) in
      let same_elements : j.elements flags ≡ flags_of j segment =
        elim (Option-cases (j.get_ex segment (codes "flags"))) [
          | inl e ↦ ap (λ o. j.elements (array o)) e ∙ laws.elements_new [] ∙ sym (ap elements_of e)
          | inr (fs, e) ↦ ap (λ o. j.elements (array o)) e ∙ sym (ap elements_of e)
        ] in
      (
        flags,
        same_elements,
        ap (λ (o : Option j.Json). elim o [ none ↦ with_flag segment flags | some _ ↦ segment ])
            (ap (λ xs. find_string j xs flag) same_elements ∙ absent),
      )

-- For a flag that the segment does not have, whether it has flags or not: setting it puts it behind
-- the flags that the segment has, and removing it again leaves a segment with the flags it had.
pub segment_remove_flag-segment_set_flag :
    (j : JsonC) (segment : j.Json) (flag : List ℕ)
    → IsJsonC j
    → find_string j (flags_of j segment) flag ≡ none
    → (flags_of j (segment_set_flag j segment flag)
        ≡ flags_of j segment ++ (j.new_string flag ∷ []))
      × (flags_of j (segment_remove_flag j (segment_set_flag j segment flag) flag)
          ≡ flags_of j segment)
segment_remove_flag-segment_set_flag j segment flag laws absent =
    let (flags, same_elements, e) = set-with_flag j laws flag segment absent in
    (
      ap (λ s. flags_of j s) e
          ∙ ap (elements_of j laws flag)
              (laws.get_add segment (j.array_add flags (j.new_string flag)) (codes "flags"))
          ∙ laws.elements_add flags (j.new_string flag)
          ∙ ap (λ xs. xs ++ (j.new_string flag ∷ [])) same_elements,
      ap (λ s. flags_of j (segment_remove_flag j s flag)) e
          ∙ remove-with_flag j laws flag segment flags
              (ap (λ xs. find_string j xs flag) same_elements ∙ absent)
          ∙ same_elements,
    )
