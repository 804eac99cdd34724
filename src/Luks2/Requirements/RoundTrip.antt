-- ===== src/Luks2/Requirements/RoundTrip.antt =====
-- lib/luks2/luks2_json_metadata.c: the requirements that are set are the ones that are read.
use cryptsetup.Base.{
  ℕ, ◌+◌, ◌≡◌, ◌⊎◌, inl, inr, refl, sym, ap, ◌∙◌, arith, List, [], ◌∷◌, ◌++◌, length, not, ◌==◌,
  if◌then◌else◌, Bool-cases, Option, none, some, ok, einval, >>=-eq-ok, ok-injective, if-eq-ok,
}
use mathlib.Core.Path.{subst}
use cryptsetup.Base.Strings.{same, codes}
use cryptsetup.Json.{JsonC}
use cryptsetup.Json.Laws.{IsJsonC, find_member}
use cryptsetup.Luks2.Requirements.{
  requirements_flags, has_flag, name_flag, read_mandatory, config_get_requirements, take_flags,
  put_mandatory, put_requirements, config_set_requirements,
}
use cryptsetup.Luks2.Validate.Fields.{◌>>?◌}
use cryptsetup.Luks2.Validate.Keyslots.{value_or}

module _ (j : JsonC) (laws : IsJsonC j) where
  abbrev mandatory_of : j.Json → Option j.Json
  mandatory_of config =
      j.get_ex config (codes "requirements") >>? λ r. j.get_ex r (codes "mandatory")

  abbrev elements_of : Option j.Json → List j.Json
  elements_of o = elim o [ none ↦ [] | some m ↦ j.elements m ]

  no_members : (o : j.Json) (key : List ℕ) → length (j.members o) ≡ 0 → j.get_ex o key ≡ none
  no_members o key e = laws.get_members o key ∙ none_found (j.members o) e
    where
      none_found : (ms : List (List ℕ × j.Json)) → length ms ≡ 0 → find_member ms key ≡ none
      none_found [] e = unfold find_member in refl
      none_found (m ∷ ms) e = absurd (omega arith)

  no_elements : (xs : List j.Json) → length xs ≡ 0 → xs ≡ []
  no_elements [] e = refl
  no_elements (x ∷ xs) e = absurd (omega arith)

  -- What is read of the requirements that were put.
  mandatory_of-put_requirements :
      (config r : j.Json)
      → elements_of (mandatory_of (put_requirements j config r))
        ≡ elements_of (j.get_ex r (codes "mandatory"))
  mandatory_of-put_requirements config r = elim (Bool-cases (length (j.members r) == 0)) [
    | inl empty ↦
        let gone : j.get_ex r (codes "mandatory") ≡ none =
          no_members r (codes "mandatory") (ground arith) in
        ap
          (λ b. elements_of (
            mandatory_of (
              if b
              then j.object_del config (codes "requirements")
              else j.object_add config (codes "requirements") r)))
          empty
        ∙ ap (λ o. elements_of (o >>? λ x. j.get_ex x (codes "mandatory")))
            (laws.get_del config (codes "requirements"))
        ∙ sym (ap elements_of gone)
    | inr more ↦
        ap
          (λ b. elements_of (
            mandatory_of (
              if b
              then j.object_del config (codes "requirements")
              else j.object_add config (codes "requirements") r)))
          more
        ∙ ap (λ o. elements_of (o >>? λ x. j.get_ex x (codes "mandatory")))
            (laws.get_add config r (codes "requirements"))
  ]

  elements_of-put_mandatory :
      (r m : j.Json)
      → elements_of (j.get_ex (put_mandatory j r m) (codes "mandatory")) ≡ j.elements m
  elements_of-put_mandatory r m = elim (Bool-cases (length (j.elements m) == 0)) [
    | inl empty ↦
        ap
          (λ b. elements_of (
            j.get_ex
              (if b
                then j.object_del r (codes "mandatory")
                else j.object_add r (codes "mandatory") m)
              (codes "mandatory")))
          empty
        ∙ ap elements_of (laws.get_del r (codes "mandatory"))
        ∙ sym (no_elements (j.elements m) (ground arith))
    | inr more ↦
        ap
          (λ b. elements_of (
            j.get_ex
              (if b
                then j.object_del r (codes "mandatory")
                else j.object_add r (codes "mandatory") m)
              (codes "mandatory")))
          more
        ∙ ap elements_of (laws.get_add r m (codes "mandatory"))
  ]

  -- The flags that are left are 0 for the known flags only.
  known :
      (reqs : ℕ)
      → (take_flags j requirements_flags (j.new_array []) reqs).1 ≡ 0
      → (reqs ≡ 0) ⊎ ((reqs ≡ 1) ⊎ ((reqs ≡ 2) ⊎ (reqs ≡ 3)))
  unfolding take_flags
  known reqs h = ground arith

  one_name :
      (name : List ℕ)
      → j.elements (j.array_add (j.new_array []) (j.new_string name)) ≡ j.new_string name ∷ []
  one_name name =
      laws.elements_add (j.new_array []) (j.new_string name)
      ∙ ap (λ xs. xs ++ (j.new_string name ∷ [])) (laws.elements_new [])

  two_names :
      (n m : List ℕ)
      → j.elements (j.array_add (j.array_add (j.new_array []) (j.new_string n)) (j.new_string m))
        ≡ j.new_string n ∷ (j.new_string m ∷ [])
  two_names n m =
      laws.elements_add (j.array_add (j.new_array []) (j.new_string n)) (j.new_string m)
      ∙ ap (λ xs. xs ++ (j.new_string m ∷ [])) (one_name n)

  abbrev ReadAgain : ℕ → Type 0
  ReadAgain reqs =
      read_mandatory j (j.elements (take_flags j requirements_flags (j.new_array []) reqs).0) 0
      ≡ reqs

  -- The names that are taken for flags are read as the same flags.
  ReadAgain-0 : ReadAgain 0
  unfolding take_flags read_mandatory
  ReadAgain-0 = ap (λ xs. read_mandatory j xs 0) (laws.elements_new [])

  ReadAgain-1 : ReadAgain 1
  unfolding take_flags read_mandatory name_flag same
  ReadAgain-1 =
      let name = codes "offline-reencrypt" in
      ap (λ xs. read_mandatory j xs 0) (one_name name)
      ∙ ap (λ s. let req = name_flag requirements_flags s in if has_flag 0 req then 0 else 0 + req)
          (laws.string_new name)

  ReadAgain-2 : ReadAgain 2
  unfolding take_flags read_mandatory name_flag same
  ReadAgain-2 =
      let name = codes "online-reencrypt" in
      ap (λ xs. read_mandatory j xs 0) (one_name name)
      ∙ ap (λ s. let req = name_flag requirements_flags s in if has_flag 0 req then 0 else 0 + req)
          (laws.string_new name)

  ReadAgain-3 : ReadAgain 3
  unfolding take_flags read_mandatory name_flag same
  ReadAgain-3 =
      let n = codes "offline-reencrypt" in
      let m = codes "online-reencrypt" in
      let add : ℕ → List ℕ → ℕ = λ reqs s.
        let req = name_flag requirements_flags s in
        if has_flag reqs req then reqs else reqs + req in
      ap (λ xs. read_mandatory j xs 0) (two_names n m)
      ∙ ap (λ s. add (add 0 s) (j.get_string (j.new_string m))) (laws.string_new n)
      ∙ ap (λ s. add 1 s) (laws.string_new m)

  read-take_flags :
      (reqs : ℕ) → (take_flags j requirements_flags (j.new_array []) reqs).1 ≡ 0 → ReadAgain reqs
  read-take_flags reqs h = elim (known reqs h) [
    | inl e ↦ subst ReadAgain (sym e) ReadAgain-0
    | inr (inl e) ↦ subst ReadAgain (sym e) ReadAgain-1
    | inr (inr (inl e)) ↦ subst ReadAgain (sym e) ReadAgain-2
    | inr (inr (inr e)) ↦ subst ReadAgain (sym e) ReadAgain-3
  ]

  -- What is read of a header whose configuration was put.
  config_get_requirements-put :
      (hdr config r m : j.Json)
      → config_get_requirements j
          (j.object_add hdr (codes "config") (put_requirements j config (put_mandatory j r m)))
        ≡ read_mandatory j (j.elements m) 0
  unfolding config_get_requirements
  config_get_requirements-put hdr config r m =
      let new : j.Json = put_requirements j config (put_mandatory j r m) in
      let read : Option j.Json → ℕ =
        λ o. elim o [ none ↦ 0 | some x ↦ read_mandatory j (j.elements x) 0 ] in
      ap (λ (o : Option j.Json). read (o >>? λ c. mandatory_of c))
        (laws.get_add hdr new (codes "config"))
      ∙ by_elements (mandatory_of new)
      ∙ ap (λ xs. read_mandatory j xs 0)
          (mandatory_of-put_requirements config (put_mandatory j r m)
            ∙ elements_of-put_mandatory r m)
    where
      by_elements :
          (o : Option j.Json)
          → elim o [ none ↦ 0 | some x ↦ read_mandatory j (j.elements x) 0 ]
            ≡ read_mandatory j (elements_of o) 0
      by_elements none = unfold read_mandatory in refl
      by_elements (some x) = refl

-- The requirements that LUKS2_config_set_requirements has set are the ones that
-- LUKS2_config_get_requirements reads, whatever requirements there were before.
pub config_get_requirements-config_set_requirements :
    (j : JsonC) (hdr changed : j.Json) (reqs : ℕ)
    → IsJsonC j
    → config_set_requirements j hdr reqs ≡ ok changed
    → config_get_requirements j changed ≡ reqs
unfolding config_set_requirements
config_get_requirements-config_set_requirements j hdr changed reqs laws h =
    let mandatory : j.Json = (take_flags j requirements_flags (j.new_array []) reqs).0 in
    let (known_only, h1) =
      if-eq-ok (not ((take_flags j requirements_flags (j.new_array []) reqs).1 == 0)) einval _ h in
    let (config, _, h2) = >>=-eq-ok (value_or (j.get_ex hdr (codes "config")) einval) h1 in
    let requirements : j.Json = elim (j.get_ex config (codes "requirements")) [
      | none ↦ j.new_object
      | some o ↦ o
    ] in
    ap (config_get_requirements j) (sym (ok-injective h2))
    ∙ config_get_requirements-put j laws hdr config requirements mandatory
    ∙ read-take_flags j laws reqs (ground arith)
