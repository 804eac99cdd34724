-- ===== src/Luks2/Validate/Header.antt =====
-- lib/luks2/luks2_json_metadata.c: the checks of the configuration and of the keyslots' areas, and
-- the order of all checks.
use cryptsetup.Base.{
  ℕ, ◌+◌, ◌-◌, ◌*◌, List, [], ◌∷◌, length, Bool, false, not, ◌&&◌, ◌||◌, ◌==◌, ltb, Option, some,
}
use cryptsetup.Base.Strings.{codes}
use cryptsetup.Json.{JsonC, object_type, array_type, string_type, json_contains, json_str_to_uint64}
use cryptsetup.Luks2.Areas.{
  Area, u64, validate_intervals, check_metadata_area_size, check_keyslots_area_size,
}
use cryptsetup.Luks2.Struct.{hdr_bin_len}
use cryptsetup.Luks2.Segment.{segments_get_minimal_offset, uint64_member}
use cryptsetup.Luks2.Validate.Fields.{
  ◌>>?◌, need, optional, has, all_strings, hdr_validate_tokens, hdr_validate_digests,
  hdr_validate_keyslots,
}
use cryptsetup.Luks2.Validate.Segments.{hdr_validate_segments, numbered_uint64}
use cryptsetup.Luks2.Validate.Keyslots.{keyslots_validate}

module _ (j : JsonC) where
  -- A size in the section `config`.
  abbrev pub config_size : j.Json → List ℕ → ℕ
  config_size hdr key = uint64_member j (j.get_ex hdr (codes "config")) key

  -- `LUKS2_metadata_size_jobj`, `LUKS2_keyslots_size_jobj` and `LUKS2_hdr_and_areas_size_jobj`
  unfoldable pub metadata_size_jobj : j.Json → ℕ
  metadata_size_jobj hdr = u64 (config_size hdr (codes "json_size") + hdr_bin_len)

  unfoldable pub keyslots_size_jobj : j.Json → ℕ
  keyslots_size_jobj hdr = config_size hdr (codes "keyslots_size")

  unfoldable pub hdr_and_areas_size_jobj : j.Json → ℕ
  unfolding metadata_size_jobj keyslots_size_jobj
  hdr_and_areas_size_jobj hdr = u64 (2 * metadata_size_jobj hdr + keyslots_size_jobj hdr)

  -- `hdr_validate_json_size`
  unfoldable pub hdr_validate_json_size : j.Json → ℕ → Bool
  hdr_validate_json_size hdr hdr_json_size =
      let json_area_size = config_size hdr (codes "json_size") in
      hdr_json_size == json_area_size && not (ltb json_area_size (length (j.print hdr)))

  -- The area of one keyslot; `none` if it is illegal.
  unfoldable pub area_of : j.Json → Option Area
  area_of val = json_contains j val (codes "area") object_type >>? λ area.
      json_contains j area (codes "type") string_type >>? λ _.
      json_contains j area (codes "offset") string_type >>? λ jobj_offset.
      json_contains j area (codes "size") string_type >>? λ jobj_length.
      numbered_uint64 j jobj_offset >>? λ offset.
      numbered_uint64 j jobj_length >>? λ len. some (record { offset = offset; len = len })

  -- The loop of `hdr_validate_areas`.
  unfoldable pub keyslot_intervals : List (List ℕ × j.Json) → Option (List Area)
  unfolding area_of
  keyslot_intervals [] = some []
  keyslot_intervals (m ∷ ms) = area_of (m.1) >>? λ a. keyslot_intervals ms >>? λ ix. some (a ∷ ix)

  -- `hdr_validate_areas`; the memory for the intervals is there.
  unfoldable pub hdr_validate_areas : j.Json → Bool
  unfolding keyslot_intervals hdr_and_areas_size_jobj metadata_size_jobj validate_intervals
  hdr_validate_areas hdr = need (j.get_ex hdr (codes "keyslots")) (λ keyslots.
      need (j.get_ex hdr (codes "segments")) (λ _.
        length (j.members keyslots) == 0
        || need (keyslot_intervals (j.members keyslots))
            (λ ix. validate_intervals ix (metadata_size_jobj hdr) (hdr_and_areas_size_jobj hdr))))

  -- Whether the keyslots area ends before the first segment; a detached header has offset 0.
  unfoldable pub keyslots_size_fits : ℕ → ℕ → ℕ → Bool
  keyslots_size_fits segment_offset keyslots_size metadata_size =
      segment_offset == 0
      || (not (ltb segment_offset keyslots_size)
          && not (ltb (segment_offset - keyslots_size) (u64 (2 * metadata_size))))

  abbrev pub requirements_validate : j.Json → j.Json → Bool
  requirements_validate config requirements =
      has j config (codes "requirements") object_type
      && optional (j.get_ex requirements (codes "mandatory")) (λ mandatory.
        has j requirements (codes "mandatory") array_type && all_strings j (j.elements mandatory))

  abbrev pub config_flags : j.Json → Bool
  config_flags config =
      optional (j.get_ex config (codes "flags"))
        (λ flags. has j config (codes "flags") array_type && all_strings j (j.elements flags))

  -- `hdr_validate_config`
  unfoldable pub hdr_validate_config : j.Json → Bool
  unfolding all_strings keyslots_size_fits check_metadata_area_size check_keyslots_area_size
  hdr_validate_config hdr = need (j.get_ex hdr (codes "config")) (λ config.
      need (json_contains j config (codes "json_size") string_type) (λ jobj_json.
        need (json_str_to_uint64 j jobj_json) (λ json_size.
          need (json_contains j config (codes "keyslots_size") string_type) (λ jobj_keyslots.
            need (json_str_to_uint64 j jobj_keyslots) (λ keyslots_size.
              let metadata_size = u64 (json_size + hdr_bin_len) in
              let segment_offset =
                segments_get_minimal_offset j (j.get_ex hdr (codes "segments")) false in
              not (check_metadata_area_size metadata_size)
              && (not (check_keyslots_area_size keyslots_size)
                  && (keyslots_size_fits segment_offset keyslots_size metadata_size
                      && (config_flags config
                          && optional (j.get_ex config (codes "requirements"))
                              (requirements_validate config)))))))))

  -- `LUKS2_hdr_validate`, on a header that is there.
  unfoldable pub hdr_validate : j.Json → ℕ → Bool
  hdr_validate hdr json_size =
      hdr_validate_tokens j hdr
      && (hdr_validate_digests j hdr
          && (hdr_validate_segments j hdr
              && (hdr_validate_keyslots j hdr
                  && (hdr_validate_config hdr
                      && (hdr_validate_areas hdr
                          && (hdr_validate_json_size hdr json_size && keyslots_validate j hdr))))))
