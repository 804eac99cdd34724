-- ===== src/Luks1/Tests.antt =====
-- Runs of lib/luks1/keymanage.c, and the theorem at a concrete input.
use cryptsetup.Af.{af_split_sectors}
use cryptsetup.Base.{
  ℕ, zero, suc, ◌+◌, ◌*◌, ◌^◌, ◌≡◌, ◌≢◌, ◌≤◌, ◌<◌, ◌⊎◌, refl, arith, [], ◌∷◌, true, false, ok, err,
  einval, some,
}
use cryptsetup.Luks1.{
  Keyblock, Phdr, slot, key_enabled, luks_stripes, secs_per_stripes, sort_keyslots, check_keyslots,
  slot_valid, other_enabled, first_disabled, check_device_size, device_sectors, generate_layout,
  slot_info, slot_find_empty, keyslot_set, keyslot_active_count, count_enabled,
}
use cryptsetup.Luks1.Generate.{check_keyslots-generate_layout}
use cryptsetup.Luks1.Layout.{check_keyslots-Apart}
use cryptsetup.Luks2.Areas.{size_round_up}
use cryptsetup.Luks2.Digest.{slot_active_last, slot_inactive}

-- A header for keys of 32 bytes, with a data offset of 2 MiB.
abbrev block_at : ℕ → Keyblock
block_at offset = record {
  active = 0xDEAD;
  iterations = 0;
  salt = [];
  offset = offset;
  stripes = luks_stripes;
}

abbrev header : Phdr
header = record {
  payload_offset = 4096;
  key_bytes = 32;
  keyblock =
      block_at 8
      ∷ block_at 264
      ∷ block_at 520
      ∷ block_at 776
      ∷ block_at 1032
      ∷ block_at 1288
      ∷ block_at 1544
      ∷ block_at 1800
      ∷ [];
}

sectors_pos : 0 < af_split_sectors 32 luks_stripes
unfolding af_split_sectors
sectors_pos = omega arith

sectors_large : af_split_sectors 32 luks_stripes ≤ 32768
unfolding af_split_sectors
sectors_large = omega arith

header-generate_layout : generate_layout 32 2097152 0 0 ≡ ok header
unfolding generate_layout size_round_up af_split_sectors
header-generate_layout = refl

check_keyslots-generate_layout_example : check_keyslots header ≡ true
check_keyslots-generate_layout_example =
    check_keyslots-generate_layout 32 2097152 0 0 header (omega arith) sectors_pos sectors_large
      header-generate_layout

header_passes : check_keyslots header ≡ true
unfolding check_keyslots sort_keyslots slot_valid af_split_sectors
header_passes = refl

header_small : (i : ℕ) → (slot header i).offset + secs_per_stripes header < 2 ^ 32
unfolding af_split_sectors
header_small zero = omega arith
header_small (suc zero) = omega arith
header_small (suc (suc zero)) = omega arith
header_small (suc (suc (suc zero))) = omega arith
header_small (suc (suc (suc (suc zero)))) = omega arith
header_small (suc (suc (suc (suc (suc zero))))) = omega arith
header_small (suc (suc (suc (suc (suc (suc zero)))))) = omega arith
header_small (suc (suc (suc (suc (suc (suc (suc zero))))))) = omega arith
header_small (suc (suc (suc (suc (suc (suc (suc (suc i)))))))) = omega arith

check_keyslots-Apart_example :
    ((i : ℕ)
      → i < 8
      → (1024 ≤ (slot header i).offset * 512)
        × ((header.payload_offset ≡ 0)
            ⊎ ((slot header i).offset + secs_per_stripes header ≤ header.payload_offset)))
    × ((i j : ℕ)
        → i < 8
        → j < 8
        → i ≢ j
        → ((slot header i).offset + secs_per_stripes header ≤ (slot header j).offset)
          ⊎ ((slot header j).offset + secs_per_stripes header ≤ (slot header i).offset))
check_keyslots-Apart_example = check_keyslots-Apart header header_passes header_small

abbrev enabled : Phdr
enabled = record header {
  keyblock =
      block_at 8
      ∷ block_at 264
      ∷ block_at 520
      ∷ record (block_at 776) { active = key_enabled }
      ∷ block_at 1032
      ∷ block_at 1288
      ∷ block_at 1544
      ∷ block_at 1800
      ∷ [];
}

-- Keyslot 3 is enabled, and is the only one.
one_enabled :
    (keyslot_set header 3 true ≡ ok enabled)
    × (slot_info enabled 3 ≡ slot_active_last)
    × (slot_info enabled 0 ≡ slot_inactive)
    × (slot_find_empty enabled ≡ ok 0)
    × (keyslot_active_count enabled ≡ 1)
    × (keyslot_set enabled 8 true ≡ err einval)
unfolding keyslot_set slot_info other_enabled slot_find_empty first_disabled count_enabled
one_enabled = (refl, refl, refl, refl, refl, refl)

-- A device of 2 MiB is large enough for the keyslots, one of 1 MiB is not.
header_sizes :
    (device_sectors header ≡ 2050)
    × (check_device_size header (some 2097152) false ≡ ok tt)
    × (check_device_size header (some 1048576) false ≡ err einval)
unfolding check_device_size device_sectors sort_keyslots af_split_sectors
header_sizes = (refl, refl, refl)
