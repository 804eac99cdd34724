-- ===== src/Luks2/Validate/References.antt =====
-- lib/luks2/luks2_json_metadata.c: digests and tokens name objects that exist.
use cryptsetup.Base.{ℕ, ◌≡◌, sym, ap, ◌∙◌, List, [], ◌∷◌, inl, inr, some, none, true, In}
use mathlib.Core.Path.{subst}
use cryptsetup.Base.Strings.{codes}
use cryptsetup.Json.{JsonC, object_type, array_type, string_type, json_contains, numbered}
use cryptsetup.Luks2.Validate.Areas.{json_contains-some}
use cryptsetup.Luks2.Validate.Fields.{
  need-true, both_true, has, array_member, all_named, all_digests, digest_validate,
  hdr_validate_digests, some-injective,
}

module _ (j : JsonC) where
  all_named-In :
      (xs : List j.Json) (section x : j.Json)
      → all_named j xs section ≡ true
      → In x xs
      → (v : j.Json) × (j.get_ex section (j.get_string x) ≡ some v)
  unfolding all_named
  all_named-In [] section x h m = elim m [ ]
  all_named-In (y ∷ ys) section x h m =
      let (_, h1) = both_true (j.is_type y string_type) _ h in
      let (named, h2) = both_true (has j section (j.get_string y) object_type) _ h1 in
      elim m [
        | inl e ↦
            let (v, f, _) =
              need-true (json_contains j section (j.get_string y) object_type) named in
            (
              v,
              ap (λ z. j.get_ex section (j.get_string z)) e
                  ∙ json_contains-some j section (j.get_string y) object_type v f,
            )
        | inr later ↦ all_named-In ys section x h2 later
      ]

  array_member-eq :
      (o arr : j.Json) (key : List ℕ)
      → json_contains j o key array_type ≡ some arr
      → array_member j o key ≡ j.elements arr
  array_member-eq o arr key e =
      ap (λ m. elim m [ none ↦ [] | some v ↦ j.elements v ])
        (json_contains-some j o key array_type arr e)

  all_digests-In :
      (keyslots segments : j.Json) (ms : List (List ℕ × j.Json)) (m : List ℕ × j.Json)
      → all_digests j keyslots segments ms ≡ true
      → In m ms
      → digest_validate j keyslots segments (m.1) ≡ true
  unfolding all_digests
  all_digests-In keyslots segments [] m h e = elim e [ ]
  all_digests-In keyslots segments (y ∷ ms) m h e =
      let (_, h1) = both_true (numbered (y.0)) _ h in
      let (valid, h2) = both_true (digest_validate j keyslots segments (y.1)) _ h1 in
      elim e [
        | inl q ↦
            subst (λ (z : List ℕ × j.Json). digest_validate j keyslots segments (z.1) ≡ true)
              (sym q) valid
        | inr later ↦ all_digests-In keyslots segments ms m h2 later
      ]

  -- What a digest names exists in the section.
  abbrev pub Refers : j.Json → List ℕ → j.Json → Type 0
  Refers object key section =
      (x : j.Json)
      → In x (array_member j object key)
      → (v : j.Json) × (j.get_ex section (j.get_string x) ≡ some v)

  digest_validate-Refers :
      (keyslots segments digest : j.Json)
      → digest_validate j keyslots segments digest ≡ true
      → Refers digest (codes "keyslots") keyslots × Refers digest (codes "segments") segments
  digest_validate-Refers keyslots segments digest h =
      let (_, h1) = both_true (has j digest (codes "type") string_type) _ h in
      let (keys, e, h2) = need-true (json_contains j digest (codes "keyslots") array_type) h1 in
      let (segs, f, h3) = need-true (json_contains j digest (codes "segments") array_type) h2 in
      let (k, s) = both_true (all_named j (j.elements keys) keyslots) _ h3 in
      (
        λ x m.
            all_named-In (j.elements keys) keyslots x k
              (subst (λ xs. In x xs) (array_member-eq digest keys (codes "keyslots") e) m),
        λ x m.
            all_named-In (j.elements segs) segments x s
              (subst (λ xs. In x xs) (array_member-eq digest segs (codes "segments") f) m),
      )

-- In a header that passes the check of the digests, every keyslot and every segment that a digest
-- names is a member of its section.
pub hdr_validate_digests-Refers :
    (j : JsonC) (hdr digests keyslots segments : j.Json) (m : List ℕ × j.Json)
    → j.get_ex hdr (codes "digests") ≡ some digests
    → j.get_ex hdr (codes "keyslots") ≡ some keyslots
    → j.get_ex hdr (codes "segments") ≡ some segments
    → hdr_validate_digests j hdr ≡ true
    → In m (j.members digests)
    → Refers j (m.1) (codes "keyslots") keyslots × Refers j (m.1) (codes "segments") segments
unfolding hdr_validate_digests
hdr_validate_digests-Refers j hdr digests keyslots segments m e f g h member =
    let (digests', e', h1) = need-true (j.get_ex hdr (codes "digests")) h in
    let (keyslots', f', h2) = need-true (j.get_ex hdr (codes "keyslots")) h1 in
    let (segments', g', h3) = need-true (j.get_ex hdr (codes "segments")) h2 in
    let same_digests : digests' ≡ digests = some-injective (sym e' ∙ e) in
    let same_keyslots : keyslots' ≡ keyslots = some-injective (sym f' ∙ f) in
    let same_segments : segments' ≡ segments = some-injective (sym g' ∙ g) in
    digest_validate-Refers j keyslots segments (m.1) (
      all_digests-In j keyslots segments (j.members digests) m
        (subst (λ d. all_digests j keyslots segments (j.members d) ≡ true) same_digests
          (subst (λ k. all_digests j k segments (j.members digests') ≡ true) same_keyslots
            (subst (λ s. all_digests j keyslots' s (j.members digests') ≡ true) same_segments h3)))
        member)
