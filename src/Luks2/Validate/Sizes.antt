-- ===== src/Luks2/Validate/Sizes.antt =====
-- lib/luks2/luks2_json_metadata.c: the sizes that the checks of a header accept.
use cryptsetup.Base.{
  ℕ, ◌+◌, ◌*◌, ◌^◌, ◌≤◌, ◌<◌, ◌≡◌, refl, sym, ap, ◌∙◌, arith, List, ◌==◌, not, some, none, true,
  false, Bool,
}
use cryptsetup.Base.Strings.{codes}
use mathlib.Core.Path.{subst}
use cryptsetup.Json.{JsonC, string_type, json_contains, json_str_to_uint64, get_uint64}
use cryptsetup.Luks2.Areas.{u64, check_metadata_area_size, check_keyslots_area_size}
use cryptsetup.Luks2.Struct.{hdr_bin_len}
use cryptsetup.Luks2.Segment.{uint64_member}
use cryptsetup.Luks2.Validate.Fields.{need-true, both_true}
use cryptsetup.Luks2.Validate.Areas.{json_contains-some, json_str_to_uint64-get_uint64}
use cryptsetup.Luks2.Validate.Header.{
  hdr_and_areas_size_jobj, metadata_size_jobj, keyslots_size_jobj, config_size, hdr_validate_config,
  hdr_validate_json_size,
}

module _ (j : JsonC) where
  config_size-eq :
      (hdr config v : j.Json) (key : List ℕ) (n : ℕ)
      → j.get_ex hdr (codes "config") ≡ some config
      → j.get_ex config key ≡ some v
      → json_str_to_uint64 j v ≡ some n
      → config_size j hdr key ≡ n
  config_size-eq hdr config v key n e f g =
      ap (λ o. uint64_member j o key) e
      ∙ ap (λ o. elim o [ none ↦ 0 | some w ↦ get_uint64 j w ]) f
      ∙ json_str_to_uint64-get_uint64 j v n g

  -- The sizes that the checks of the configuration accept.
  pub config_sizes :
      (hdr : j.Json)
      → hdr_validate_config j hdr ≡ true
      → (check_metadata_area_size (metadata_size_jobj j hdr) ≡ false)
        × (check_keyslots_area_size (keyslots_size_jobj j hdr) ≡ false)
  unfolding hdr_validate_config metadata_size_jobj keyslots_size_jobj
  config_sizes hdr h =
      let (config, e, h1) = need-true (j.get_ex hdr (codes "config")) h in
      let (v, e1, h2) = need-true (json_contains j config (codes "json_size") string_type) h1 in
      let (n, f1, h3) = need-true (json_str_to_uint64 j v) h2 in
      let (w, e2, h4) = need-true (json_contains j config (codes "keyslots_size") string_type) h3 in
      let (k, f2, h5) = need-true (json_str_to_uint64 j w) h4 in
      let (metadata, h6) =
        both_true (not (check_metadata_area_size (u64 (n + hdr_bin_len)))) _ h5 in
      let (keyslots, _) = both_true (not (check_keyslots_area_size k)) _ h6 in
      let json_size : config_size j hdr (codes "json_size") ≡ n =
        config_size-eq hdr config v (codes "json_size") n e
          (json_contains-some j config (codes "json_size") string_type v e1) f1 in
      let keyslots_size : config_size j hdr (codes "keyslots_size") ≡ k =
        config_size-eq hdr config w (codes "keyslots_size") k e
          (json_contains-some j config (codes "keyslots_size") string_type w e2) f2 in
      (
        subst (λ m. check_metadata_area_size (u64 (m + hdr_bin_len)) ≡ false) (sym json_size)
            (not_true (check_metadata_area_size (u64 (n + hdr_bin_len))) metadata),
        subst (λ m. check_keyslots_area_size m ≡ false) (sym keyslots_size)
            (not_true (check_keyslots_area_size k) keyslots),
      )
    where
      not_true : (b : Bool) → not b ≡ true → b ≡ false
      not_true true h = absurd cc
      not_true false h = refl

  pub metadata_bounds : (n : ℕ) → check_metadata_area_size n ≡ false → (0 < n) × (n ≤ 0x400000)
  unfolding check_metadata_area_size
  metadata_bounds n h = (ground arith, ground arith)

  pub keyslots_bound : (n : ℕ) → check_keyslots_area_size n ≡ false → n ≤ 0x8000000
  unfolding check_keyslots_area_size
  keyslots_bound n h = ground arith

  pub areas_size-eq :
      (hdr : j.Json)
      → hdr_validate_config j hdr ≡ true
      → hdr_and_areas_size_jobj j hdr ≡ 2 * metadata_size_jobj j hdr + keyslots_size_jobj j hdr
  unfolding hdr_and_areas_size_jobj
  areas_size-eq hdr h =
      let (m, k) = config_sizes hdr h in
      let (_, m_bound) = metadata_bounds (metadata_size_jobj j hdr) m in
      let k_bound = keyslots_bound (keyslots_size_jobj j hdr) k in
      sum_fits (metadata_size_jobj j hdr) (keyslots_size_jobj j hdr) m_bound k_bound
    where
      sum_fits : (m k : ℕ) → m ≤ 0x400000 → k ≤ 0x8000000 → u64 (2 * m + k) ≡ 2 * m + k
      sum_fits m k hm hk = omega arith

  pub json_size-eq :
      (hdr : j.Json) (json_size : ℕ)
      → hdr_validate_json_size j hdr json_size ≡ true
      → json_size + hdr_bin_len < 2 ^ 64
      → metadata_size_jobj j hdr ≡ json_size + hdr_bin_len
  unfolding hdr_validate_json_size metadata_size_jobj
  json_size-eq hdr json_size h small =
      let (equal, _) = both_true (json_size == config_size j hdr (codes "json_size")) _ h in
      let size : json_size ≡ config_size j hdr (codes "json_size") = ground arith in
      ap (λ n. u64 (n + hdr_bin_len)) (sym size) ∙ fits_u64 (json_size + hdr_bin_len) small
    where
      fits_u64 : (n : ℕ) → n < 2 ^ 64 → u64 n ≡ n
      fits_u64 n f = omega arith
