-- ===== src/Luks2/Disk/Tests.antt =====
-- Runs of lib/luks2/luks2_disk_metadata.c's functions, and the theorems at concrete inputs.
use cryptsetup.Base.Endian.{cpu_to_be, be_to_cpu}
use cryptsetup.Base.Strings.{same, same_string}
use cryptsetup.Base.{
  ℕ, ◌+◌, ◌-◌, ◌%◌, ◌^◌, ◌≤◌, ◌≡◌, refl, ap, ok-injective, arith, List, [], ◌∷◌, length, replicate,
}
use cryptsetup.Base.{length-replicate, true, false, ok, err, eio, some, ◌⊎◌}
use cryptsetup.Luks2.Struct.{of_bytes, Hdr, HdrDisk, hdr_to_disk, hdr_from_disk}
use cryptsetup.Luks2.Struct.Codec.{zeros}
use cryptsetup.Luks2.Struct.Convert.{IsHdr, hdr_from_disk-hdr_to_disk}
use cryptsetup.Luks2.Device.{Device, read_lseek, slice}
use cryptsetup.Luks2.Disk.Env.{Env, HasHash}
use cryptsetup.Luks2.Disk.Checksum.{hdr_read_disk}
use cryptsetup.Luks2.Disk.Write.{hdr_write_disk, write_copies, disk_hdr_write, check_sequence_id}
use cryptsetup.Luks2.Disk.Read.{disk_hdr_read}
use cryptsetup.Luks2.Disk.RoundTrip.{IsWritable, IsReadable, hdr_read_disk-hdr_write_disk}
use cryptsetup.Luks2.Disk.Crash.{write_copies_crash}
use cryptsetup.Luks2.Disk.Reload.{IsStorable, disk_hdr_read-disk_hdr_write}

-- A world with one JSON value, written `{}`, and a hash of four bytes, the length of its input.
abbrev digest4 : List ℕ → List ℕ
digest4 m = cpu_to_be 4 (length m)

abbrev sample_env : Env
sample_env = record {
  Json = Unit {0};
  parse = λ text. some (tt, 2);
  is_object = λ _. true;
  print = λ _. b'{' ∷ b'}' ∷ [];
  is_valid = λ _ _. true;
  repair = λ j. j;
  areas_size = λ _. 8200;
  hash_size = λ _. 4;
  digest = λ alg m. ok (digest4 m);
  random_salt = ok (replicate 64 7);
  malloc = λ _. true;
  open_read = ok tt;
  open_write = ok tt;
  write_lock = ok true;
  locking_enabled = true;
  in_reencryption = false;
  size_known = true;
  can_fallocate = false;
  detect_signatures = ok tt;
}

abbrev sample_hdr : Hdr
sample_hdr = record {
  hdr_size = 4100;
  seqid = 255;
  version = 2;
  label = b'a' ∷ zeros 47;
  subsystem = zeros 48;
  checksum_alg = b's' ∷ b'h' ∷ b'a' ∷ zeros 29;
  salt1 = replicate 64 1;
  salt2 = replicate 64 2;
  uuid = b'u' ∷ zeros 39;
}

sample_hdr-IsHdr : IsHdr sample_hdr
sample_hdr-IsHdr = record {
  size_fits = omega arith;
  seqid_fits = omega arith;
  version_fits = omega arith;
  label_string = record {
    text = b'a' ∷ [];
    rest = 46;
    array = refl;
    size = refl;
    nonzero = omega arith;
  };
  subsystem_string = record { text = []; rest = 47; array = refl; size = refl; nonzero = tt };
  checksum_alg_string = record {
    text = b's' ∷ b'h' ∷ b'a' ∷ [];
    rest = 28;
    array = refl;
    size = refl;
    nonzero = omega arith;
  };
  salt1_size = refl;
  salt2_size = refl;
  uuid_string = record {
    text = b'u' ∷ [];
    rest = 38;
    array = refl;
    size = refl;
    nonzero = omega arith;
  };
}

abbrev sample_area : List ℕ
sample_area = b'{' ∷ b'}' ∷ 0 ∷ 0 ∷ []

sample-HasHash : (alg : List ℕ) → HasHash sample_env alg
unfolding cpu_to_be
sample-HasHash alg = record {
  some_size = omega arith;
  fits = omega arith;
  total = λ m. (digest4 m, refl);
  size = λ m d e. omega (arith, ap length (ok-injective e));
}

sample-IsWritable : IsWritable sample_env sample_hdr sample_area
sample-IsWritable = record {
  valid = sample_hdr-IsHdr;
  luks2 = refl;
  area_size = refl;
  hash = sample-HasHash _;
  opens = refl;
}

-- A device that fails after `quota` bytes.
abbrev blank : ℕ → Device
blank quota = record { bytes = replicate 8300 0; quota = quota; bad = λ _ _. false }

blank-IsReadable : (quota : ℕ) → IsReadable sample_env (blank quota)
blank-IsReadable quota = record { opens = refl; good = λ _ _. refl; memory = λ _. refl }

blank_fits : (quota : ℕ) → 4100 + 4100 ≤ length (blank quota).bytes
blank_fits quota = omega (arith, length-replicate {A = ℕ} 8300 0)

abbrev uninit : HdrDisk
uninit = hdr_to_disk sample_hdr true 0

sample-IsStorable : IsStorable sample_env tt (4100 - 4096)
sample-IsStorable = record {
  nonempty = λ e. cc;
  fits = omega arith;
  limit = omega arith;
  brace = λ rest. refl;
  parses = λ n. refl;
  object = refl;
  valid = refl;
}

hdr_from_disk-hdr_to_disk_example :
    hdr_from_disk (hdr_to_disk sample_hdr true 4100) (hdr_to_disk sample_hdr false 0) true
    ≡ sample_hdr
hdr_from_disk-hdr_to_disk_example =
    hdr_from_disk-hdr_to_disk sample_hdr sample_hdr-IsHdr true 4100 0

hdr_read_disk-hdr_write_disk_example :
    ((hdr_write_disk sample_env (blank 8196) sample_hdr sample_area true).1 ≡ ok tt)
    × (hdr_read_disk sample_env
          (hdr_write_disk sample_env (blank 8196) sample_hdr sample_area true).0
          uninit
          4100
          true
        ≡ (hdr_to_disk sample_hdr true 4100, ok sample_area))
hdr_read_disk-hdr_write_disk_example =
    hdr_read_disk-hdr_write_disk sample-IsWritable true (blank 8196) (blank_fits 8196) uninit
      (blank-IsReadable 8196) (omega arith)

-- The device fails in the middle of the secondary copy.
write_copies_crash_example :
    (hdr_read_disk sample_env
        (write_copies sample_env (blank 9000) sample_hdr sample_area).0
        uninit
        0
        false
      ≡ (hdr_to_disk sample_hdr false 0, ok sample_area))
    ⊎ ((hdr_read_disk sample_env
            (write_copies sample_env (blank 9000) sample_hdr sample_area).0
            uninit
            4100
            true
          ≡ hdr_read_disk sample_env (blank 9000) uninit 4100 true)
        × ((write_copies sample_env (blank 9000) sample_hdr sample_area).1 ≡ err eio))
write_copies_crash_example =
    write_copies_crash sample-IsWritable (blank 9000) (blank_fits 9000) (blank-IsReadable 9000)
      uninit

-- The device holds no header yet, so the check of the sequence id accepts the first one.
blank_accepted : check_sequence_id sample_env (blank 20000) sample_hdr ≡ false
unfolding check_sequence_id read_lseek slice of_bytes same same_string be_to_cpu
blank_accepted = refl

disk_hdr_read-disk_hdr_write_example :
    let (dev', hdr', r) = disk_hdr_write sample_env (blank 20000) sample_hdr tt true in
    (r ≡ ok tt)
    × (hdr' ≡ record sample_hdr { seqid = (255 + 1) % 2 ^ 64 })
    × (disk_hdr_read sample_env dev' uninit true true ≡ (dev', ok (hdr', tt)))
    × (check_sequence_id sample_env dev' hdr' ≡ false)
disk_hdr_read-disk_hdr_write_example =
    disk_hdr_read-disk_hdr_write {env = sample_env} {dev = blank 20000} {hdr = sample_hdr} {j = tt}
      sample_hdr-IsHdr refl (sample-HasHash _) refl (blank-IsReadable 20000) refl refl (omega arith)
      sample-IsStorable (blank_fits 20000) (omega (arith, blank_fits 20000)) (omega arith) true
      (λ _. blank_accepted) uninit true true
