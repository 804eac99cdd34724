-- ===== src/Luks2/Validate/Keyslots.antt =====
-- lib/luks2/luks2_keyslot.c: the check of the keyslots by the handlers for their types, in
-- lib/luks2/luks2_keyslot_luks2.c and lib/luks2/luks2_keyslot_reenc.c; and the area of a keyslot.
use cryptsetup.Base.{
  ℕ, suc, ◌-◌, ◌%◌, ◌^◌, List, [], ◌∷◌, length, Bool, true, not, ◌&&◌, ◌||◌, ◌==◌, ltb,
  if◌then◌else◌, Option, none, some, Result, ok, err, ◌>>=◌, ◌>>◌, guard, Errno, einval, enoent,
}
use Prim.Native.Nat.{bit_and}
use cryptsetup.Base.Strings.{same, codes}
use cryptsetup.Json.{
  JsonC, string_type, int_type, json_contains, get_uint64, validate_json_uint32, find_string,
}
use cryptsetup.Json.Decimal.{decimal, atoi}
use cryptsetup.Luks2.Areas.{Area, keyslots_max}
use cryptsetup.Luks2.Validate.Fields.{◌>>?◌, need, has, text_member, array_member}

-- The handlers that have a place in `keyslot_handlers`.
pub data KeyslotHandler : Type 0 where
  luks2_keyslot reenc_keyslot : KeyslotHandler

-- `LUKS2_keyslot_handler_type`
abbrev pub keyslot_handler_type : List ℕ → Option KeyslotHandler
keyslot_handler_type type =
    if same (codes "luks2") type
    then some luks2_keyslot
    else if same (codes "reencrypt") type
    then some reenc_keyslot
    else none

abbrev pub value_or : {A : Type 0} → Option A → Errno → Result A
value_or none code = err code
value_or (some a) code = ok a

module _ (j : JsonC) where
  abbrev pub kdf_validate : j.Json → List ℕ → Bool
  kdf_validate kdf type =
      let count = length (j.members kdf) in
      if same type (codes "pbkdf2")
      then count == 4
        && (has j kdf (codes "hash") string_type
            && (has j kdf (codes "iterations") int_type && has j kdf (codes "salt") string_type))
      else if same type (codes "argon2i") || same type (codes "argon2id")
      then count == 5
        && (has j kdf (codes "time") int_type
            && (has j kdf (codes "memory") int_type
                && (has j kdf (codes "cpus") int_type && has j kdf (codes "salt") string_type)))
      else true

  -- `luks2_keyslot_validate`
  unfoldable pub luks2_keyslot_validate : j.Json → Bool
  luks2_keyslot_validate keyslot = need (j.get_ex keyslot (codes "kdf")) (λ kdf.
      need (j.get_ex keyslot (codes "af")) (λ af. need (j.get_ex keyslot (codes "area")) (λ area.
        need (json_contains j kdf (codes "type") string_type)
          (λ type. kdf_validate kdf (j.get_string type))
        && (need (j.get_ex af (codes "type")) (λ type.
              same (j.get_string type) (codes "luks1")
              && (has j af (codes "hash") string_type && has j af (codes "stripes") int_type))
            && need (j.get_ex area (codes "type")) (λ type.
              same (j.get_string type) (codes "raw")
              && (has j area (codes "encryption") string_type
                  && (has j area (codes "key_size") int_type
                      && (has j area (codes "offset") string_type
                          && has j area (codes "size") string_type))))))))

  -- The fields of an area that depend on its type.
  abbrev pub resilience_validate : j.Json → List ℕ → Bool
  resilience_validate area type =
      if same type (codes "checksum")
      then has j area (codes "hash") string_type
        && need (json_contains j area (codes "sector_size") int_type) (λ jobj_sector_size.
          validate_json_uint32 j jobj_sector_size
          && need (j.get_int64 jobj_sector_size) (λ n.
            let sector_size = n % 2 ^ 32 in
            not (ltb sector_size 512) && bit_and sector_size (sector_size - 1) == 0))
      else if same type (codes "datashift")
      then need (json_contains j area (codes "shift_size") string_type) (λ jobj_shift_size.
        let shift_size = get_uint64 j jobj_shift_size in
        not (shift_size == 0) && shift_size % 512 == 0)
      else true

  -- `reenc_keyslot_validate`
  unfoldable pub reenc_keyslot_validate : j.Json → Bool
  reenc_keyslot_validate keyslot = need (j.get_ex keyslot (codes "area")) (λ area.
      need (j.get_ex area (codes "type")) (λ jobj_type.
        need (json_contains j keyslot (codes "mode") string_type) (λ jobj_mode.
          need (json_contains j keyslot (codes "direction") string_type) (λ jobj_direction.
            let mode = j.get_string jobj_mode in
            let direction = j.get_string jobj_direction in
            (same mode (codes "reencrypt")
              || (same mode (codes "encrypt") || same mode (codes "decrypt")))
            && ((same direction (codes "forward") || same direction (codes "backward"))
                && resilience_validate area (j.get_string jobj_type))))))

  -- How many of the digests have the keyslot: `LUKS2_get_keyslot_digests_count`.
  unfoldable pub digests_with : List (List ℕ × j.Json) → List ℕ → ℕ
  unfolding find_string
  digests_with [] num = 0
  digests_with (m ∷ ms) num =
      let rest = digests_with ms num in
      if need (find_string j (array_member j (m.1) (codes "keyslots")) num) (λ _. true)
      then suc rest
      else rest

  abbrev pub get_keyslot_digests_count : j.Json → ℕ → ℕ
  get_keyslot_digests_count hdr keyslot = elim (j.get_ex hdr (codes "digests")) [
    | none ↦ 0
    | some digests ↦ digests_with (j.members digests) (decimal keyslot)
  ]

  abbrev pub handler_accepts : j.Json → ℕ → j.Json → Option KeyslotHandler → Bool
  handler_accepts hdr keyslot val none = true
  handler_accepts hdr keyslot val (some luks2_keyslot) =
      luks2_keyslot_validate val && get_keyslot_digests_count hdr keyslot == 1
  handler_accepts hdr keyslot val (some reenc_keyslot) = reenc_keyslot_validate val

  unfoldable pub each_keyslot : j.Json → List (List ℕ × j.Json) → Bool
  each_keyslot hdr [] = true
  each_keyslot hdr (m ∷ ms) =
      handler_accepts hdr (atoi (m.0)) (m.1)
        (keyslot_handler_type (text_member j (m.1) (codes "type")))
      && each_keyslot hdr ms

  -- `LUKS2_keyslots_validate`
  unfoldable pub keyslots_validate : j.Json → Bool
  unfolding each_keyslot
  keyslots_validate hdr =
      need (j.get_ex hdr (codes "keyslots")) (λ keyslots. each_keyslot hdr (j.members keyslots))

  -- `LUKS2_get_keyslot_jobj`
  unfoldable pub get_keyslot_jobj : j.Json → ℕ → Option j.Json
  get_keyslot_jobj hdr keyslot =
      j.get_ex hdr (codes "keyslots") >>? λ keyslots. j.get_ex keyslots (decimal keyslot)

  -- `LUKS2_keyslot_area`. `LUKS2_keyslot_info` is invalid for the numbers from 32 on.
  unfoldable pub keyslot_area : j.Json → ℕ → Result Area
  keyslot_area hdr keyslot =
      guard (ltb keyslot keyslots_max) einval
      >> (value_or (get_keyslot_jobj hdr keyslot) enoent >>= λ val.
          value_or (j.get_ex val (codes "area")) einval >>= λ area.
          value_or (j.get_ex area (codes "offset")) einval >>= λ offset.
          value_or (j.get_ex area (codes "size")) einval >>= λ size.
          ok (record { offset = get_uint64 j offset; len = get_uint64 j size }))
