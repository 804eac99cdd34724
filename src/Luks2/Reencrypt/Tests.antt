-- ===== src/Luks2/Reencrypt/Tests.antt =====
-- Runs of lib/luks2/luks2_reencrypt.c, and the theorems at concrete inputs.
use cryptsetup.Base.{
  ℕ, zero, suc, ◌+◌, ◌*◌, ◌%◌, ◌/◌, ◌≡◌, ◌≤◌, ◌<◌, inl, inr, refl, arith, List, [], ◌∷◌, ◌++◌,
  length, replicate, true, false, Result, ok, err, einval, Option, some,
}
use cryptsetup.Luks2.Areas.{Area}
use cryptsetup.Luks2.Device.{Device, slice, splice, write_lseek}
use cryptsetup.Luks2.Reencrypt.Hotzone.{
  Csum, Crash, checksums, recover_checksum, hotzone_protect_final, keyslot_store_data,
  protect_checksum, recover_segment,
}
use cryptsetup.Luks2.Reencrypt.Hotzone.Blocks.{blocks}
use cryptsetup.Luks2.Reencrypt.Hotzone.Crashed.{recover_segment-after_crash}
use cryptsetup.Luks2.Reencrypt.Hotzone.Step.{IsHash, IsReencrypted, Survives}
use cryptsetup.Luks2.Reencrypt.Length.{
  Limits, max_hotzone_length, reencrypt_length, reencrypt_length-checksum,
}
use cryptsetup.Luks2.Reencrypt.Window.{
  Context, Done, forward, backward, context_init, context_update, offset_backward_moved,
  offset_forward, offset_backward, reencrypt_loop,
}
use cryptsetup.Luks2.Reencrypt.Window.Cover.{TilesUp, TilesDown}
use cryptsetup.Luks2.Reencrypt.Window.Start.{
  reencrypt_loop-forward_start, reencrypt_loop-backward_start,
}
use cryptsetup.Storage.Toy.{toy, toy_iv, toy-IsCipher, mask}
use cryptsetup.Storage.{Storage, storage_encrypt, sector_iv_generate}
use cryptsetup.Wrapper.{Wrapper, uspace, wrapper_encrypt}

-- A context of 10000 bytes, with hot zones of 4096 bytes.
abbrev forward_context : Context
forward_context = record {
  direction = forward;
  encrypts = false;
  data_shift = 0;
  device_size = 10000;
  offset = 0;
  len = 4096;
  progress = 0;
}

-- The steps count how often they are called.
abbrev whole_step : Context → ℕ → ℕ × Option ℕ
whole_step c n = (n + 1, some c.len)

forward_windows :
    reencrypt_loop whole_step (λ c. false) 10 forward_context 0
    ≡ some (record {
      context = record forward_context { offset = 10000; len = 0; progress = 10000 };
      state = 3;
      is_ok = true;
      windows = (0, 4096) ∷ (4096, 4096) ∷ (8192, 1808) ∷ [];
    })
unfolding reencrypt_loop context_update
forward_windows = refl

reencrypt_loop-forward_start_example :
    (d : Done ℕ) × (reencrypt_loop whole_step (λ c. false) 10001 forward_context 0 ≡ some d)
    × (d.is_ok ≡ true)
    × (d.context.progress ≡ 10000)
    × TilesUp 0 10000 d.windows
reencrypt_loop-forward_start_example =
    reencrypt_loop-forward_start whole_step (λ c. false) 10001 forward_context forward_context 0
      4096 0 refl (omega arith) starts (λ c s. refl) (λ c. refl) (omega arith)
  where
    starts : context_init forward_context (some (0, 4096)) ≡ some forward_context
    starts = unfold context_init in refl

-- An encryption of 10240 bytes with a shift of 4096.
abbrev moved_context : Context
moved_context = record {
  direction = backward;
  encrypts = true;
  data_shift = 4096;
  device_size = 10240;
  offset = 6144;
  len = 4096;
  progress = 0;
}

backward_windows :
    reencrypt_loop whole_step (λ c. false) 10 moved_context 0
    ≡ some (record {
      context = record moved_context { offset = 0; len = 4096; progress = 10240 };
      state = 3;
      is_ok = true;
      windows = (6144, 4096) ∷ (4096, 2048) ∷ (0, 4096) ∷ [];
    })
unfolding reencrypt_loop context_update
backward_windows = refl

reencrypt_loop-backward_start_example :
    (d : Done ℕ) × (reencrypt_loop whole_step (λ c. false) 6146 moved_context 0 ≡ some d)
    × (d.is_ok ≡ true)
    × (d.context.progress ≡ 10240)
    × TilesDown 10240 d.windows
reencrypt_loop-backward_start_example =
    reencrypt_loop-backward_start whole_step (λ c. false) 6146 2 10240 moved_context moved_context
      6144 4096 0 refl (omega arith) (inr (refl, found, omega arith)) starts (λ c s. refl)
      (λ c. refl) (omega arith)
  where
    found : offset_backward_moved 2 10240 4096 4096 ≡ some (6144, 4096)
    found = unfold offset_backward_moved in refl

    starts : context_init moved_context (some (6144, 4096)) ≡ some moved_context
    starts = unfold context_init in refl

-- A reencryption that was interrupted is taken up where the second segment starts.
segments_offsets :
    (offset_forward (4096 ∷ 6144 ∷ []) ≡ some 4096)
    × (offset_backward (4096 ∷ 6144 ∷ []) 10240 1024 ≡ some (3072, 1024))
unfolding offset_forward offset_backward
segments_offsets = (refl, refl)

-- The first byte as a checksum.
abbrev first_byte : List ℕ → ℕ
first_byte [] = 0
first_byte (x ∷ xs) = x

abbrev csum : Csum
csum = record { hash = λ xs. some (first_byte xs ∷ []); hash_size = 1 }

csum-IsHash : IsHash csum
csum-IsHash = record { total = λ x. (first_byte x ∷ [], refl); size = one_byte }
  where
    one_byte :
        (x sum : List ℕ)
        → ◌≡◌ {A = Option (List ℕ)} (some (first_byte x ∷ [])) (some sum)
        → length sum ≡ 1
    one_byte x (s ∷ []) e = refl
    one_byte x [] e = absurd cc
    one_byte x (s ∷ t ∷ sum) e = absurd cc

abbrev limits : Limits
limits = record {
  alignment = 256;
  area_len = 3;
  length_max = 0;
  data_shift = 0;
  soft_limit = 0;
  optimal = 512;
}

-- The area has room for three checksums; the length is a multiple of the optimal one.
limits-length : reencrypt_length (protect_checksum csum) limits ≡ 512
unfolding reencrypt_length
limits-length = refl

reencrypt_length-checksum_example :
    (reencrypt_length (protect_checksum csum) limits % 256 ≡ 0)
    × (reencrypt_length (protect_checksum csum) limits / 256 * 1 ≤ 3)
    × (reencrypt_length (protect_checksum csum) limits ≤ max_hotzone_length)
reencrypt_length-checksum_example = reencrypt_length-checksum csum limits (omega arith)

-- Blocks of 256 bytes on a device of 1024, under the keys 5 and 9, from the byte 512 on.
abbrev small_storage : ℕ → Storage toy
small_storage key = record { sector_size = 256; iv_shift = 0; cipher = key; cipher_iv = toy_iv }

abbrev under : ℕ → Wrapper toy
under key = record { kind = uspace (small_storage key) 0; data_offset = 512 }

abbrev plain_block : ℕ → List ℕ
plain_block k = replicate 256 7

abbrev old_block : ℕ → List ℕ
old_block k = replicate 256 2

abbrev new_block : ℕ → List ℕ
new_block k = replicate 256 14

block-IsReencrypted :
    (k : ℕ)
    → k < 2
    → IsReencrypted toy (under 5) (under 9) 256 k (plain_block k) (old_block k) (new_block k)
unfolding wrapper_encrypt storage_encrypt sector_iv_generate mask
block-IsReencrypted zero h = record { size = refl; under_old = refl; under_new = refl }
block-IsReencrypted (suc zero) h = record { size = refl; under_old = refl; under_new = refl }
block-IsReencrypted (suc (suc k)) h = absurd (omega arith)

-- The crash came after the first of the two blocks.
abbrev crashed_disk : Device
crashed_disk = record {
  bytes = replicate 512 0 ++ (replicate 256 14 ++ replicate 256 2);
  quota = 1000;
  bad = λ offset len. false;
}

abbrev keyslot_area : Area
keyslot_area = record { offset = 16; len = 8 }

abbrev metadata : Device
metadata = record { bytes = replicate 32 0; quota = 1000; bad = λ offset len. false }

abbrev header_write : Device → Device × Result (Unit {0})
header_write meta = (meta, ok tt)

abbrev stored_metadata : Device
stored_metadata = record {
  bytes = replicate 16 0 ++ (2 ∷ 2 ∷ replicate 14 0);
  quota = 998;
  bad = λ offset len. false;
}

abbrev crash : Crash toy
crash = record {
  offset = 0;
  len = 512;
  alignment = 256;
  data_shift = 0;
  protection = protect_checksum csum;
  segment = some 1;
  has_keys = true;
  data_offset = 512;
  moved_offset = 0;
  area = ok keyslot_area;
  opens = true;
  open_new = λ offset. ok (under 9);
  open_old = λ offset. ok (under 5);
  open_plain = λ offset. err einval;
}

crash-stored :
    hotzone_protect_final header_write
      (crash.protection)
      256
      keyslot_area
      metadata
      (blocks old_block 2 0)
    ≡ (stored_metadata, ok tt)
unfolding hotzone_protect_final checksums keyslot_store_data splice blocks write_lseek
crash-stored = refl

crash-Survives :
    (k : ℕ)
    → k < 2
    → Survives csum (old_block k) (new_block k) (slice (512 + k * 256) 256 crashed_disk.bytes)
unfolding slice
crash-Survives zero h = inr (refl, λ e. cc)
crash-Survives (suc zero) h = inl refl
crash-Survives (suc (suc k)) h = absurd (omega arith)

recover_segment-after_crash_example :
    ((recover_segment toy crash crashed_disk stored_metadata).1 ≡ ok 0)
    × ((recover_segment toy crash crashed_disk stored_metadata).0.bytes
        ≡ splice 512 (blocks new_block 2 0) crashed_disk.bytes)
recover_segment-after_crash_example =
    recover_segment-after_crash toy csum (under 5) (under 9) crash 1 2 keyslot_area plain_block
      old_block new_block header_write metadata stored_metadata crashed_disk csum-IsHash
      (toy-IsCipher 5) (toy-IsCipher 9) refl refl refl refl refl refl refl (omega arith) refl
      block-IsReencrypted (omega arith) refl (λ m. refl) crash-stored crash-Survives refl
      (omega arith) (omega arith) (omega arith)

abbrev closed_crash : Crash toy
closed_crash = record crash { opens = false }

-- The metadata device cannot be opened: the result is 0, and nothing is recovered.
unopened_accepted :
    recover_segment toy closed_crash crashed_disk stored_metadata ≡ (crashed_disk, ok 0)
unfolding recover_segment recover_checksum
unopened_accepted = refl
