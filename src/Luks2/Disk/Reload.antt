-- ===== src/Luks2/Disk/Reload.antt =====
-- lib/luks2/luks2_disk_metadata.c: what `LUKS2_disk_hdr_write` stored, `LUKS2_disk_hdr_read` loads.
use cryptsetup.Base.Endian.{be_to_cpu}
use cryptsetup.Base.{
  ℕ, zero, suc, ◌+◌, ◌-◌, ◌*◌, ◌%◌, ◌^◌, ◌≤◌, ◌<◌, ◌≡◌, refl, ap, ◌∙◌, arith, List,
}
use cryptsetup.Base.{◌++◌, length, replicate, Bool, true, false, ok, some, drop-append}
use cryptsetup.Base.{length-append, length-replicate, take_all, ◌≢◌, ◌&&◌, not}
use cryptsetup.Luks2.Struct.{string_field, Hdr, HdrDisk, hdr_bin_len, hdr_to_disk}
use cryptsetup.Luks2.Struct.Convert.{
  IsHdr, seqid-hdr_to_disk, hdr_size-hdr_to_disk, hdr_from_disk-hdr_to_disk,
}
use cryptsetup.Luks2.Device.{Device}
use cryptsetup.Luks2.Disk.Env.{Env, HasHash}
use cryptsetup.Luks2.Disk.Checksum.{json_size, hdr_read_disk}
use cryptsetup.Luks2.Disk.Parse.{all_zero, validate_json_area, starts_with_brace, parse_json_len}
use cryptsetup.Luks2.Disk.Parse.{parse_and_validate_json, validate_luks2_json_object}
use cryptsetup.Luks2.Disk.Write.{
  json_area, write_copies, device_check_size, disk_hdr_write, check_sequence_id, device_write_lock,
}
use cryptsetup.Luks2.Disk.Read.{hdr_ok, Copy, copy_of, read_primary, read_secondary, check_seqid}
use cryptsetup.Luks2.Disk.Read.{choose, loaded, disk_hdr_read}
use cryptsetup.Luks2.Disk.RoundTrip.{IsWritable, IsReadable}
use cryptsetup.Luks2.Disk.Sequence.{check_sequence_id-write_copies}
use cryptsetup.Luks2.Disk.Crash.{write_copies_whole, length-write_copies}

-- The JSON metadata survives printing and parsing in an area of `size` bytes, and it is valid.
pub record IsStorable (env : Env) (j : env.Json) (size : ℕ) : Type 0 where
  pub nonempty : length (env.print j) ≢ 0
  pub fits : length (env.print j) + 1 ≤ size
  pub limit : size < 2 ^ 31
  pub brace : (rest : List ℕ) → starts_with_brace (env.print j ++ rest) ≡ true
  pub parses : (n : ℕ) → env.parse (env.print j ++ replicate n 0) ≡ some (j, length (env.print j))
  pub object : env.is_object j ≡ true
  pub valid : env.is_valid j size ≡ true

all_zero-replicate : (n : ℕ) → all_zero (replicate n 0) ≡ true
unfolding all_zero
all_zero-replicate zero = refl
all_zero-replicate (suc n) = all_zero-replicate n

module _ {env : Env} {j : env.Json} {size : ℕ} (s : IsStorable env j size) where
  abbrev pub area : List ℕ
  area = env.print j ++ replicate (size - length (env.print j)) 0

  pub length-area : length area ≡ size
  length-area =
      let fits = s.fits in
      omega (
        arith,
        length-append (env.print j) (replicate (size - length (env.print j)) 0),
        length-replicate {A = ℕ} (size - length (env.print j)) 0,
      )

  validate_area : validate_json_area area (length (env.print j)) size ≡ true
  unfolding validate_json_area
  validate_area =
      let text = env.print j in
      let fits = s.fits in
      let rest : List ℕ = replicate (size - length text) 0 in
      let zeros =
        take_all (size - length text) rest
          (omega (arith, length-replicate {A = ℕ} (size - length text) 0)) in
      ground (
        arith,
        s.brace rest,
        drop-append (length text) text rest refl,
        zeros,
        all_zero-replicate (size - length text),
      )

  pub parse_area : parse_and_validate_json env area size ≡ some j
  unfolding parse_and_validate_json parse_json_len validate_luks2_json_object
  parse_area =
      let limit = s.limit in
      ground (arith, s.parses (size - length (env.print j)), validate_area, s.object, s.valid)

abbrev next_seqid : Hdr → Hdr
next_seqid hdr = record hdr { seqid = (hdr.seqid + 1) % 2 ^ 64 }

next_seqid-IsHdr : {hdr : Hdr} → IsHdr hdr → IsHdr (next_seqid hdr)
next_seqid-IsHdr v = record {
  size_fits = v.size_fits;
  seqid_fits = omega arith;
  version_fits = v.version_fits;
  label_string = v.label_string;
  subsystem_string = v.subsystem_string;
  checksum_alg_string = v.checksum_alg_string;
  salt1_size = v.salt1_size;
  salt2_size = v.salt2_size;
  uuid_string = v.uuid_string;
}

-- A copy that was read and whose JSON area is valid.
abbrev good_copy : (env : Env) → Hdr → List ℕ → env.Json → Bool → ℕ → Copy env.Json
good_copy env hdr a j secondary offset = record {
  state = hdr_ok;
  disk = hdr_to_disk hdr secondary offset;
  area = a;
  jobj = some j;
}

copy_of-written :
    (env : Env) (disk : HdrDisk) (a : List ℕ) (n : ℕ) (j : env.Json)
    → be_to_cpu disk.hdr_size ≡ n
    → parse_and_validate_json env a (json_size n) ≡ some j
    → copy_of env (disk, ok a) ≡ record { state = hdr_ok; disk = disk; area = a; jobj = some j }
unfolding copy_of
copy_of-written env disk a n j e p = ground arith

-- Two good copies of one header load as that header.
choose-same :
    (env : Env) (dev : Device) (hdr : Hdr) (a : List ℕ) (j : env.Json) (rec probe : Bool)
    → IsHdr hdr
    → env.size_known ≡ true
    → env.areas_size j ≤ length dev.bytes
    → choose env dev
        (good_copy env hdr a j false 0)
        (good_copy env hdr a j true hdr.hdr_size)
        (check_seqid env (good_copy env hdr a j false 0) (good_copy env hdr a j true hdr.hdr_size))
        rec
        probe
      ≡ (dev, ok (hdr, j))
unfolding choose check_seqid device_check_size loaded
choose-same env dev hdr a j rec probe v known fits = ground (
  arith,
  seqid-hdr_to_disk hdr false 0 v.seqid_fits,
  seqid-hdr_to_disk hdr true hdr.hdr_size v.seqid_fits,
  hdr_from_disk-hdr_to_disk hdr v false 0 hdr.hdr_size,
)

module _ {env : Env} {dev : Device} {hdr : Hdr} {j : env.Json} (v : IsHdr hdr)
    (luks2 : hdr.version ≡ 2) (hash : HasHash env (string_field 32 hdr.checksum_alg))
    (opens : env.open_write ≡ ok tt) (readable : IsReadable env dev)
    (locks : env.write_lock ≡ ok true) (known : env.size_known ≡ true)
    (bin_len : hdr_bin_len ≤ hdr.hdr_size)
    (storable : IsStorable env j (hdr.hdr_size - hdr_bin_len))
    (copies_fit : hdr.hdr_size + hdr.hdr_size ≤ length dev.bytes)
    (areas_fit : env.areas_size j ≤ length dev.bytes) (enough : 4 * hdr.hdr_size ≤ dev.quota) where
  abbrev stored : Hdr
  stored = next_seqid hdr

  abbrev json : List ℕ
  json = area storable

  writable : IsWritable env stored json
  writable = record {
    valid = next_seqid-IsHdr v;
    luks2 = luks2;
    area_size = omega (arith, length-area storable);
    hash = hash;
    opens = opens;
  }

  abbrev written : Device
  written = (write_copies env dev stored json).0

  quota_enough : 2 * (hdr_bin_len + length json + hdr_bin_len) ≤ dev.quota
  quota_enough = omega (arith, length-area storable)

  json_area-json : json_area env hdr j ≡ ok json
  unfolding json_area
  json_area-json =
      let size : json_size hdr.hdr_size ≡ hdr.hdr_size - hdr_bin_len = omega (arith, v.size_fits) in
      let fits = storable.fits in
      let nonempty = storable.nonempty in
      rw size (ground (arith, readable.memory (hdr.hdr_size - hdr_bin_len)))

  parses : parse_and_validate_json env json (json_size hdr.hdr_size) ≡ some j
  parses =
      let size : json_size hdr.hdr_size ≡ hdr.hdr_size - hdr_bin_len = omega (arith, v.size_fits) in
      rw size (parse_area storable)

  -- The lock is taken, with the check of the sequence id or without it.
  locked-ok : check_sequence_id env dev hdr ≡ false → device_write_lock env dev hdr ≡ ok tt
  unfolding device_write_lock
  locked-ok unchanged = ground arith

  disk_hdr_write-stored :
      (seqid_check : Bool)
      → (seqid_check ≡ true → check_sequence_id env dev hdr ≡ false)
      → disk_hdr_write env dev hdr j seqid_check ≡ (written, stored, ok tt)
  unfolding disk_hdr_write device_check_size
  disk_hdr_write-stored false unchanged =
      let whole =
        write_copies_whole writable dev copies_fit readable (hdr_to_disk hdr false 0)
          quota_enough in
      ground (arith, json_area-json, whole)
  disk_hdr_write-stored true unchanged =
      let whole =
        write_copies_whole writable dev copies_fit readable (hdr_to_disk hdr false 0)
          quota_enough in
      ground (arith, json_area-json, locked-ok (unchanged refl), whole)

  abbrev primary : Copy env.Json
  primary = good_copy env stored json j false 0

  abbrev secondary : Copy env.Json
  secondary = good_copy env stored json j true hdr.hdr_size

  read_primary-stored : (uninit : HdrDisk) → read_primary env written uninit ≡ primary
  unfolding read_primary
  read_primary-stored uninit =
      let whole = write_copies_whole writable dev copies_fit readable uninit quota_enough in
      ap (copy_of env) whole.1
      ∙ copy_of-written env primary.disk json hdr.hdr_size j
          (hdr_size-hdr_to_disk stored false 0 v.size_fits) parses

  read_secondary-stored : (uninit : HdrDisk) → read_secondary env written uninit primary ≡ secondary
  unfolding read_secondary
  read_secondary-stored uninit =
      let whole = write_copies_whole writable dev copies_fit readable uninit quota_enough in
      ap (λ n. copy_of env (hdr_read_disk env written uninit n true))
        (hdr_size-hdr_to_disk stored false 0 v.size_fits)
      ∙ ap (copy_of env) whole.2
      ∙ copy_of-written env secondary.disk json hdr.hdr_size j
          (hdr_size-hdr_to_disk stored true hdr.hdr_size v.size_fits) parses

  disk_hdr_read-stored :
      (uninit : HdrDisk) (do_recovery do_blkprobe : Bool)
      → disk_hdr_read env written uninit do_recovery do_blkprobe ≡ (written, ok (stored, j))
  unfolding disk_hdr_read
  disk_hdr_read-stored uninit do_recovery do_blkprobe =
      let rec : Bool = do_recovery && not (do_blkprobe && not env.locking_enabled) in
      let size = length-write_copies writable dev copies_fit readable quota_enough in
      ap
        (λ c.
          choose env written c (read_secondary env written uninit c)
            (check_seqid env c (read_secondary env written uninit c)) rec do_blkprobe)
        (read_primary-stored uninit)
      ∙ ap (λ c. choose env written primary c (check_seqid env primary c) rec do_blkprobe)
          (read_secondary-stored uninit)
      ∙ choose-same env written stored json j rec do_blkprobe (next_seqid-IsHdr v) known
          (omega (arith, size))

  -- What `LUKS2_disk_hdr_write` stores, with the check of the sequence id or without it,
  -- `LUKS2_disk_hdr_read` loads, with the sequence id one higher and without a further change to the
  -- device, whatever the recovery and probing flags; and `LUKS2_check_sequence_id` then accepts the
  -- header in memory, so that it can be written again with the check. The header in memory is well
  -- formed with a known hash, the JSON metadata is valid, fits the JSON area and survives printing
  -- and parsing, both copies and the keyslots area fit the device, and no lock, read or write fails.
  -- If the check is asked for, it accepts the header that is on the device.
  pub disk_hdr_read-disk_hdr_write :
      (seqid_check : Bool)
      → (seqid_check ≡ true → check_sequence_id env dev hdr ≡ false)
      → (uninit : HdrDisk) (do_recovery do_blkprobe : Bool)
      → let (dev', hdr', r) = disk_hdr_write env dev hdr j seqid_check in
        (r ≡ ok tt)
        × (hdr' ≡ record hdr { seqid = (hdr.seqid + 1) % 2 ^ 64 })
        × (disk_hdr_read env dev' uninit do_recovery do_blkprobe ≡ (dev', ok (hdr', j)))
        × (check_sequence_id env dev' hdr' ≡ false)
  disk_hdr_read-disk_hdr_write seqid_check unchanged uninit do_recovery do_blkprobe =
      rw (disk_hdr_write-stored seqid_check unchanged) (
        refl,
        refl,
        disk_hdr_read-stored uninit do_recovery do_blkprobe,
        check_sequence_id-write_copies writable dev copies_fit readable quota_enough,
      )
