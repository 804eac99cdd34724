-- ===== src/Luks2/Digest/Assign.antt =====
-- lib/luks2/luks2_digest.c: assigning keyslots and segments to digests.
use cryptsetup.Base.{
  ℕ, List, [], ◌∷◌, ◌++◌, ◌≡◌, refl, ap, ◌∙◌, Option, none, some, ok, true, false,
}
use cryptsetup.Base.Strings.{codes}
use cryptsetup.Json.{JsonC, array_jobj, find_string}
use cryptsetup.Json.Decimal.{decimal}
use cryptsetup.Json.Laws.{IsJsonC}
use cryptsetup.Luks2.Segment.Flags.{array_remove-array_add}
use cryptsetup.Luks2.Digest.{get_digest_jobj, assign_one, put_digest, with_name, without_name}
use cryptsetup.Luks2.Validate.Fields.{◌>>?◌, >>?-eq-some}

-- The names that a digest has in a section.
abbrev pub names_of : (j : JsonC) → j.Json → List ℕ → ℕ → List j.Json
names_of j hdr section digest = elim (get_digest_jobj j hdr digest >>? λ d. j.get_ex d section) [
  | none ↦ []
  | some names ↦ j.elements names
]

module _ (j : JsonC) (laws : IsJsonC j) where
  names_of-eq :
      (hdr d names : j.Json) (section : List ℕ) (digest : ℕ)
      → get_digest_jobj j hdr digest ≡ some d
      → j.get_ex d section ≡ some names
      → names_of j hdr section digest ≡ j.elements names
  names_of-eq hdr d names section digest e f =
      ap (λ o. elim (o >>? λ x. j.get_ex x section) [ none ↦ [] | some ns ↦ j.elements ns ]) e
      ∙ ap (λ o. elim o [ none ↦ [] | some ns ↦ j.elements ns ]) f

  get-put_digest :
      (hdr d new : j.Json) (digest : ℕ)
      → get_digest_jobj j hdr digest ≡ some d
      → get_digest_jobj j (put_digest j hdr digest new) digest ≡ some new
  unfolding get_digest_jobj
  get-put_digest hdr d new digest h =
      let (digests, e, _) = >>?-eq-some (j.get_ex hdr (codes "digests")) h in
      let put : Option j.Json → j.Json = λ o. elim o [
        | none ↦ hdr
        | some ds ↦ j.object_add hdr (codes "digests") (j.object_add ds (decimal digest) new)
      ] in
      ap (λ o. get_digest_jobj j (put o) digest) e
      ∙ ap (λ o. o >>? λ ds. j.get_ex ds (decimal digest))
          (laws.get_add hdr (j.object_add digests (decimal digest) new) (codes "digests"))
      ∙ laws.get_add digests new (decimal digest)

  assign_one-eq :
      (hdr d names : j.Json) (section : List ℕ) (id digest : ℕ)
      → get_digest_jobj j hdr digest ≡ some d
      → j.get_ex d section ≡ some names
      → (assign_one j hdr section id digest true
          ≡ ok (put_digest j hdr digest (with_name j d section names (decimal id))))
        × (assign_one j hdr section id digest false
            ≡ ok (put_digest j hdr digest (without_name j d section names (decimal id))))
  unfolding assign_one
  assign_one-eq hdr d names section id digest e f = (rw (e, f) refl, rw (e, f) refl)

-- A keyslot that is assigned to a digest and then removed from it, or a segment: the name stands at
-- the end of the digest's array in between, and afterwards the array has the elements it had. Both
-- calls succeed if the digest has the array. Condition: the digest did not have the name before.
pub assign_one-assign_one :
    (j : JsonC) (hdr d names : j.Json) (section : List ℕ) (id digest : ℕ)
    → IsJsonC j
    → get_digest_jobj j hdr digest ≡ some d
    → j.get_ex d section ≡ some names
    → find_string j (j.elements names) (decimal id) ≡ none
    → (hdr1 : j.Json) × (hdr2 : j.Json) × (assign_one j hdr section id digest true ≡ ok hdr1)
      × (assign_one j hdr1 section id digest false ≡ ok hdr2)
      × (names_of j hdr1 section digest ≡ j.elements names ++ (j.new_string (decimal id) ∷ []))
      × (names_of j hdr2 section digest ≡ j.elements names)
unfolding array_jobj
assign_one-assign_one j hdr d names section id digest laws e f absent =
    let num = decimal id in
    let names1 : j.Json = j.array_add names (j.new_string num) in
    let d1 : j.Json = j.object_add d section names1 in
    let hdr1 : j.Json = put_digest j hdr digest d1 in
    let added : with_name j d section names num ≡ d1 =
      ap (λ (o : Option j.Json). elim o [ none ↦ d1 | some _ ↦ d ]) absent in
    let e1 : get_digest_jobj j hdr1 digest ≡ some d1 = get-put_digest j laws hdr d d1 digest e in
    let f1 : j.get_ex d1 section ≡ some names1 = laws.get_add d names1 section in
    let (names2, removed, same_elements) = array_remove-array_add j laws num names absent in
    let d2 : j.Json = j.object_add d1 section names2 in
    let hdr2 : j.Json = put_digest j hdr1 digest d2 in
    let taken : without_name j d1 section names1 num ≡ d2 =
      ap (λ (o : Option j.Json). elim o [ none ↦ d1 | some n ↦ j.object_add d1 section n ])
        removed in
    let e2 : get_digest_jobj j hdr2 digest ≡ some d2 = get-put_digest j laws hdr1 d1 d2 digest e1 in
    (
      hdr1,
      hdr2,
      (assign_one-eq j laws hdr d names section id digest e f).0
          ∙ ap (λ x. ok (put_digest j hdr digest x)) added,
      (assign_one-eq j laws hdr1 d1 names1 section id digest e1 f1).1
          ∙ ap (λ x. ok (put_digest j hdr1 digest x)) taken,
      names_of-eq j laws hdr1 d1 names1 section digest e1 f1
          ∙ laws.elements_add names (j.new_string num),
      names_of-eq j laws hdr2 d2 names2 section digest e2 (laws.get_add d1 names2 section)
          ∙ same_elements,
    )
