-- ===== src/Luks2/Validate/Backup.antt =====
-- lib/luks2/luks2_json_metadata.c: the first backup segment, as the loop of hdr_validate_segments
-- finds it.
use cryptsetup.Base.{
  ℕ, ◌≤◌, ◌≡◌, ◌⊎◌, inl, inr, refl, ap, ◌∙◌, arith, List, [], ◌∷◌, In, Bool, Bool-cases, true,
  false, not, ◌&&◌, if◌then◌else◌, ltb, Option, none, some,
}
use mathlib.Core.Path.{subst}
use cryptsetup.Base.Strings.{same, codes}
use cryptsetup.Json.{JsonC, numbered}
use cryptsetup.Json.Decimal.{atoi}
use cryptsetup.Luks2.Segment.{segment_is_backup}
use cryptsetup.Luks2.Validate.Fields.{>>?-eq-some}
use cryptsetup.Luks2.Validate.Segments.{
  next_backup, each_segment, segment_fields, segment_flags, crypt_segment_validate,
}

module _ (j : JsonC) where
  -- What is known of the lowest id of a backup segment among `ms` and the one found before.
  pub data First (ms : List (List ℕ × j.Json)) (before after : Option ℕ) : Type 0 where
    no_backup :
        before ≡ none
        → after ≡ none
        → ((m : List ℕ × j.Json) → In m ms → segment_is_backup j (m.1) ≡ false)
        → First ms before after
    backup :
        (n : ℕ)
        → after ≡ some n
        → ((m : List ℕ × j.Json) → In m ms → segment_is_backup j (m.1) ≡ true → n ≤ atoi (m.0))
        → ((k : ℕ) → before ≡ some k → n ≤ k)
        → (before ≡ some n)
          ⊎ ((m : List ℕ × j.Json) × In m ms
              × (segment_is_backup j (m.1) ≡ true)
              × (atoi (m.0) ≡ n))
        → First ms before after

  -- One segment: it is regular and nothing changes, or it is a backup.
  next_backup-cases :
      (val : j.Json) (i : ℕ) (before next : Option ℕ)
      → next_backup j val i before ≡ some next
      → ((segment_is_backup j val ≡ false) × (next ≡ before))
        ⊎ ((k : ℕ) × (segment_is_backup j val ≡ true)
            × (next ≡ some k)
            × (k ≤ i)
            × ((f : ℕ) → before ≡ some f → k ≤ f)
            × ((before ≡ some k) ⊎ (i ≡ k)))
  unfolding next_backup
  next_backup-cases val i none next h = elim (Bool-cases (segment_is_backup j val)) [
    | inl is_backup ↦ inr (i, is_backup, ground arith, omega arith, λ f e. absurd cc, inr refl)
    | inr regular ↦ inl (regular, ground arith)
  ]
  next_backup-cases val i (some f) next h = elim (Bool-cases (segment_is_backup j val)) [
    | inl is_backup ↦ elim (Bool-cases (ltb i f)) [
      | inl lower ↦ inr (i, is_backup, ground arith, omega arith, λ g e. ground arith, inr refl)
      | inr higher ↦ inr (f, is_backup, ground arith, ground arith, λ g e. ground arith, inl refl)
    ]
    | inr regular ↦ inl (regular, ground arith)
  ]

  each_segment-cons :
      (digests : j.Json) (m : List ℕ × j.Json) (ms : List (List ℕ × j.Json))
      (before after : Option ℕ)
      → each_segment j digests (m ∷ ms) before ≡ some after
      → (next : Option ℕ) × (next_backup j (m.1) (atoi (m.0)) before ≡ some next)
        × (each_segment j digests ms next ≡ some after)
  unfolding each_segment
  each_segment-cons digests m ms before after h =
      let h1 = (accepted (not (numbered (m.0))) h).1 in
      let (f, _, h2) = >>?-eq-some (segment_fields j (m.1)) h1 in
      let h3 = (accepted (not (segment_flags j (m.1))) h2).1 in
      let (next, e, h4) = >>?-eq-some (next_backup j (m.1) (atoi (m.0)) before) h3 in
      let refused =
        same f.type (codes "crypt") && not (crypt_segment_validate j (m.1) (m.0) digests f.size) in
      (next, e, (accepted refused h4).1)
    where
      accepted :
          (b : Bool) {o : Option (Option ℕ)}
          → (if b then none else o) ≡ some after
          → (b ≡ false) × (o ≡ some after)
      accepted true e = absurd cc
      accepted false e = (refl, e)

  First-regular :
      (m : List ℕ × j.Json) (ms : List (List ℕ × j.Json)) (before after : Option ℕ)
      → segment_is_backup j (m.1) ≡ false
      → First ms before after
      → First (m ∷ ms) before after
  First-regular m ms before after regular (no_backup b a all) = no_backup b a at
    where
      at : (x : List ℕ × j.Json) → In x (m ∷ ms) → segment_is_backup j (x.1) ≡ false
      at x (inl e) = ap (λ (y : List ℕ × j.Json). segment_is_backup j (y.1)) e ∙ regular
      at x (inr i) = all x i
  First-regular m ms before after regular (backup n a lower le found) =
      backup n a at le (elim found [ inl e ↦ inl e | inr (x, i, b, e) ↦ inr (x, inr i, b, e) ])
    where
      at : (x : List ℕ × j.Json) → In x (m ∷ ms) → segment_is_backup j (x.1) ≡ true → n ≤ atoi (x.0)
      at x (inl e) b =
          let no : segment_is_backup j (x.1) ≡ false =
            ap (λ (y : List ℕ × j.Json). segment_is_backup j (y.1)) e ∙ regular in
          absurd cc
      at x (inr i) b = lower x i b

  First-backup :
      (m : List ℕ × j.Json) (ms : List (List ℕ × j.Json)) (before after : Option ℕ) (k : ℕ)
      → segment_is_backup j (m.1) ≡ true
      → k ≤ atoi (m.0)
      → ((f : ℕ) → before ≡ some f → k ≤ f)
      → (before ≡ some k) ⊎ (atoi (m.0) ≡ k)
      → First ms (some k) after
      → First (m ∷ ms) before after
  First-backup m ms before after k is_backup le below source (no_backup b a all) = absurd cc
  First-backup m ms before after k is_backup le below source (backup n a lower le' found) =
      backup n a at (λ f e. omega (arith, below f e, le' k refl))
        (elim found [
          | inr (x, i, b, e) ↦ inr (x, inr i, b, e)
          | inl e ↦
              let same_id : k ≡ n = cc in
              elim source [
                | inl p ↦ inl (p ∙ ap some same_id)
                | inr p ↦ inr (m, inl refl, is_backup, p ∙ same_id)
              ]
        ])
    where
      at : (x : List ℕ × j.Json) → In x (m ∷ ms) → segment_is_backup j (x.1) ≡ true → n ≤ atoi (x.0)
      at x (inl e) b = omega (arith, le' k refl, ap (λ (y : List ℕ × j.Json). atoi (y.0)) e)
      at x (inr i) b = lower x i b

  -- The loop finds the lowest id of a backup segment.
  pub each_segment-First :
      (digests : j.Json) (ms : List (List ℕ × j.Json)) (before after : Option ℕ)
      → each_segment j digests ms before ≡ some after
      → First ms before after
  each_segment-First digests [] none after h =
      no_backup refl (nothing_left none h) (λ m i. elim i [ ])
    where
      nothing_left : (b : Option ℕ) → each_segment j digests [] b ≡ some after → after ≡ b
      nothing_left b e = unfold each_segment in cc
  each_segment-First digests [] (some k) after h =
      backup k (nothing_left (some k) h) (λ m i b. elim i [ ]) (λ f e. ground arith) (inl refl)
    where
      nothing_left : (b : Option ℕ) → each_segment j digests [] b ≡ some after → after ≡ b
      nothing_left b e = unfold each_segment in cc
  each_segment-First digests (m ∷ ms) before after h =
      let (next, e, rest) = each_segment-cons digests m ms before after h in
      let later = each_segment-First digests ms next after rest in
      elim (next_backup-cases (m.1) (atoi (m.0)) before next e) [
        | inl (regular, p) ↦
            First-regular m ms before after regular (subst (λ b. First ms b after) p later)
        | inr (k, is_backup, p, le, below, source) ↦
            First-backup m ms before after k is_backup le below source
              (subst (λ b. First ms b after) p later)
      ]
