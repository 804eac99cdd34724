-- ===== src/Luks2/Digest/Free.antt =====
-- lib/luks2/luks2_digest.c, lib/luks2/luks2_keyslot.c: the number that a new digest or keyslot gets.
use cryptsetup.Base.{
  ℕ, zero, suc, ◌+◌, ◌<◌, ◌≡◌, refl, sym, ap, ◌∙◌, arith, inl, inr, ◌==◌, if◌then◌else◌, Option,
  none, some, Option-cases, Result, ok, err, einval, enospc, false, >>=-eq-ok, ok-injective,
  Bool-cases,
}
use mathlib.Core.Path.{subst}
use cryptsetup.Json.{JsonC}
use cryptsetup.Luks2.Areas.{Area, Layout, keyslots_max, find_area_gap}
use cryptsetup.Luks2.Digest.{
  digest_max, first_free, get_digest_jobj, digest_find_free, keyslot_find_empty,
}
use cryptsetup.Luks2.Validate.Fields.{some-injective}
use cryptsetup.Luks2.Validate.Keyslots.{value_or, get_keyslot_jobj}

module _ (j : JsonC) where
  -- The number is below the limit and free, and all smaller ones are in use.
  pub record IsLeastFree (get : ℕ → Option j.Json) (limit i : ℕ) : Type 0 where
    pub below : i < limit
    pub free : get i ≡ none
    pub used : (k : ℕ) → k < i → (v : j.Json) × (get k ≡ some v)

  first_free-IsLeastFree :
      (get : ℕ → Option j.Json) (n i limit r : ℕ)
      → i + n ≡ limit
      → ((k : ℕ) → k < i → (v : j.Json) × (get k ≡ some v))
      → first_free j get n i ≡ some r
      → IsLeastFree get limit r
  unfolding first_free
  first_free-IsLeastFree get zero i limit r sum used h = absurd cc
  first_free-IsLeastFree get (suc n) i limit r sum used h = elim (Option-cases (get i)) [
    | inl e ↦
        let here : i ≡ r =
          some-injective (
            sym (ap (λ o. elim o [ none ↦ some i | some _ ↦ first_free j get n (suc i) ]) e) ∙ h) in
        subst (λ k. IsLeastFree get limit k) here
          (record { below = omega arith; free = e; used = used })
    | inr (v, e) ↦
        first_free-IsLeastFree get n (suc i) limit r (omega arith)
          (λ k small. elim (Bool-cases (k == i)) [
            | inl last ↦ let last_eq : k ≡ i = ground arith in (v, ap get last_eq ∙ e)
            | inr before ↦ used k (ground arith)
          ])
          (sym (ap (λ o. elim o [ none ↦ some i | some _ ↦ first_free j get n (suc i) ]) e) ∙ h)
  ]

-- The number that LUKS2_digest_find_free returns is below 8 and names no digest, and all smaller
-- numbers name one.
pub digest_find_free-IsLeastFree :
    (j : JsonC) (hdr : j.Json) (digest : ℕ)
    → digest_find_free j hdr ≡ some digest
    → IsLeastFree j (get_digest_jobj j hdr) digest_max digest
unfolding digest_find_free
digest_find_free-IsLeastFree j hdr digest h =
    first_free-IsLeastFree j (get_digest_jobj j hdr) digest_max 0 digest_max digest (omega arith)
      (λ k small. absurd (omega arith)) h

-- The number that LUKS2_keyslot_find_empty returns is below 32 and names no keyslot, all smaller
-- numbers name one, and LUKS2_find_area_gap finds an area if a key length is given.
pub keyslot_find_empty-IsLeastFree :
    (j : JsonC) (hdr : j.Json) (layout : Layout) (keylength keyslot : ℕ)
    → keyslot_find_empty j hdr layout keylength ≡ ok keyslot
    → 0 < keylength
    → IsLeastFree j (get_keyslot_jobj j hdr) keyslots_max keyslot
      × ((a : Area) × (find_area_gap layout keylength ≡ ok a))
unfolding keyslot_find_empty
keyslot_find_empty-IsLeastFree j hdr layout keylength keyslot h pos =
    let get = get_keyslot_jobj j hdr in
    let (i, e, h1) = >>=-eq-ok (value_or (first_free j get keyslots_max 0) einval) h in
    let asked : (keylength == 0) ≡ false = ground arith in
    let gap : (elim (find_area_gap layout keylength) [ ok _ ↦ ok i | err _ ↦ err enospc ])
        ≡ ok keyslot =
      sym (
        ap
          (λ b.
            if b
            then ok i
            else elim (find_area_gap layout keylength) [ ok _ ↦ ok i | err _ ↦ err enospc ])
          asked)
      ∙ h1 in
    let (area, same_number) = found (find_area_gap layout keylength) i gap in
    (
      subst (λ k. IsLeastFree j get keyslots_max k) same_number
          (first_free-IsLeastFree j get keyslots_max 0 keyslots_max i (omega arith)
            (λ k small. absurd (omega arith)) (value (first_free j get keyslots_max 0) i e)),
      area,
    )
  where
    value : (o : Option ℕ) (i : ℕ) → value_or o einval ≡ ok i → o ≡ some i
    value none i e = cc
    value (some k) i e = cc

    found :
        (r : Result Area) (i : ℕ)
        → (elim r [ ok _ ↦ ok i | err _ ↦ err enospc ]) ≡ ok keyslot
        → ((a : Area) × (r ≡ ok a)) × (i ≡ keyslot)
    found (ok a) i e = ((a, refl), ok-injective e)
    found (err c) i e = absurd cc
