-- ===== src/Luks2/Validate/Fields.antt =====
-- lib/luks2/luks2_json_metadata.c: the checks of tokens and digests, and what all checks share.
use cryptsetup.Base.{
  ℕ, List, [], ◌∷◌, Bool, true, false, ◌&&◌, Option, none, some, ◌≡◌, refl, if◌then◌else◌,
}
use cryptsetup.Base.Strings.{codes}
use cryptsetup.Json.{
  JsonC, JsonType, object_type, array_type, string_type, int_type, json_contains, numbered,
  validate_json_uint32,
}

-- A check that goes on only with a value, and refuses without one.
abbrev pub need {ℓ} : {A : Type ℓ} → Option A → (A → Bool) → Bool
need none check = false
need (some a) check = check a

-- A check of a value that may be missing.
abbrev pub optional {ℓ} : {A : Type ℓ} → Option A → (A → Bool) → Bool
optional none check = true
optional (some a) check = check a

-- A value that is read with the help of another one.
infixl 5 ◌>>?◌
abbrev pub ◌>>?◌ {ℓ κ} : {A : Type ℓ} {B : Type κ} → Option A → (A → Option B) → Option B
none >>? next = none
some a >>? next = next a

module _ (j : JsonC) where
  abbrev pub has : j.Json → List ℕ → JsonType → Bool
  has jobj key type = need (json_contains j jobj key type) (λ _. true)

  -- The text of a member; the code asks for it where the member was checked before.
  abbrev pub text_member : j.Json → List ℕ → List ℕ
  text_member jobj key = elim (j.get_ex jobj key) [ none ↦ [] | some v ↦ j.get_string v ]

  -- The elements of an array that is a member, none if it is missing.
  abbrev pub array_member : j.Json → List ℕ → List j.Json
  array_member jobj key = elim (j.get_ex jobj key) [ none ↦ [] | some v ↦ j.elements v ]

  -- The loops that ask for an array of texts.
  unfoldable pub all_strings : List j.Json → Bool
  all_strings [] = true
  all_strings (x ∷ xs) = j.is_type x string_type && all_strings xs

  -- `validate_keyslots_array` and `validate_segments_array`: the array names objects of a section.
  unfoldable pub all_named : List j.Json → j.Json → Bool
  unfolding json_contains
  all_named [] section = true
  all_named (x ∷ xs) section =
      j.is_type x string_type && (has section (j.get_string x) object_type && all_named xs section)

  abbrev pub validate_keyslots_array : j.Json → j.Json → Bool
  validate_keyslots_array jarr jobj_keys = all_named (j.elements jarr) jobj_keys

  abbrev pub validate_segments_array : j.Json → j.Json → Bool
  validate_segments_array jarr jobj_segments = all_named (j.elements jarr) jobj_segments

  -- `LUKS2_keyslot_validate` of lib/luks2/luks2_json_metadata.c
  abbrev pub keyslot_validate : j.Json → Bool
  keyslot_validate hdr_keyslot =
      has hdr_keyslot (codes "type") string_type
      && need (json_contains j hdr_keyslot (codes "key_size") int_type) (validate_json_uint32 j)

  -- `LUKS2_token_validate`
  unfoldable pub token_validate : j.Json → j.Json → Bool
  unfolding all_named
  token_validate hdr jobj_token = need (j.get_ex hdr (codes "keyslots")) (λ keyslots.
      has jobj_token (codes "type") string_type
      && need (json_contains j jobj_token (codes "keyslots") array_type)
          (λ jarr. validate_keyslots_array jarr keyslots))

  unfoldable pub all_tokens : j.Json → List (List ℕ × j.Json) → Bool
  unfolding token_validate numbered
  all_tokens hdr [] = true
  all_tokens hdr (m ∷ ms) = numbered (m.0) && (token_validate hdr (m.1) && all_tokens hdr ms)

  -- `hdr_validate_tokens`
  unfoldable pub hdr_validate_tokens : j.Json → Bool
  unfolding all_tokens
  hdr_validate_tokens hdr =
      need (j.get_ex hdr (codes "tokens")) (λ tokens. all_tokens hdr (j.members tokens))

  abbrev pub digest_validate : j.Json → j.Json → j.Json → Bool
  digest_validate keyslots segments digest =
      has digest (codes "type") string_type
      && need (json_contains j digest (codes "keyslots") array_type) (λ jarr_keys.
        need (json_contains j digest (codes "segments") array_type) (λ jarr_segs.
          validate_keyslots_array jarr_keys keyslots && validate_segments_array jarr_segs segments))

  unfoldable pub all_digests : j.Json → j.Json → List (List ℕ × j.Json) → Bool
  unfolding numbered
  all_digests keyslots segments [] = true
  all_digests keyslots segments (m ∷ ms) =
      numbered (m.0)
      && (digest_validate keyslots segments (m.1) && all_digests keyslots segments ms)

  -- `hdr_validate_digests`
  unfoldable pub hdr_validate_digests : j.Json → Bool
  unfolding all_digests
  hdr_validate_digests hdr = need (j.get_ex hdr (codes "digests")) (λ digests.
      need (j.get_ex hdr (codes "keyslots")) (λ keyslots.
        need (j.get_ex hdr (codes "segments"))
          (λ segments. all_digests keyslots segments (j.members digests))))

  unfoldable pub all_keyslots : List (List ℕ × j.Json) → Bool
  unfolding numbered
  all_keyslots [] = true
  all_keyslots (m ∷ ms) = numbered (m.0) && (keyslot_validate (m.1) && all_keyslots ms)

  -- `hdr_validate_keyslots`
  unfoldable pub hdr_validate_keyslots : j.Json → Bool
  unfolding all_keyslots
  hdr_validate_keyslots hdr =
      need (j.get_ex hdr (codes "keyslots")) (λ keyslots. all_keyslots (j.members keyslots))

-- A check with a value was passed.
pub need-true {ℓ} :
    {A : Type ℓ} (value : Option A) {check : A → Bool}
    → need value check ≡ true
    → (a : A) × (value ≡ some a) × (check a ≡ true)
need-true none h = cc
need-true (some a) h = (a, refl, h)

pub >>?-eq-some {ℓ κ} :
    {A : Type ℓ} {B : Type κ} (value : Option A) {next : A → Option B} {b : B}
    → (value >>? next) ≡ some b
    → (a : A) × (value ≡ some a) × (next a ≡ some b)
>>?-eq-some none h = cc
>>?-eq-some (some a) h = (a, refl, h)

pub some-injective {ℓ} : {A : Type ℓ} {a b : A} → some a ≡ some b → a ≡ b
some-injective h = cc

pub if-eq-some {ℓ} :
    {A : Type ℓ} (test : Bool) (o : Option A) {a : A}
    → (if test then o else none) ≡ some a
    → (test ≡ true) × (o ≡ some a)
if-eq-some true o h = (refl, h)
if-eq-some false o h = cc

pub both_true : (b c : Bool) → (b && c) ≡ true → (b ≡ true) × (c ≡ true)
both_true true true h = (refl, refl)
both_true true false h = absurd cc
both_true false c h = absurd cc
