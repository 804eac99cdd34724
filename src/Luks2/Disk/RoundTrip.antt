-- ===== src/Luks2/Disk/RoundTrip.antt =====
-- lib/luks2/luks2_disk_metadata.c: a copy of the header that was written is read back.
use cryptsetup.Base.Strings.{same_refl}
use cryptsetup.Base.Endian.{be_to_cpu, be_to_cpu-cpu_to_be}
use cryptsetup.Base.{ℕ, ◌+◌, ◌-◌, ◌^◌, ◌≤◌, ◌<◌, ◌≡◌, refl, sym, ap, ◌∙◌, arith}
use cryptsetup.Base.{List, ◌++◌, length, take, drop, Bool, true, false}
use cryptsetup.Base.{ok, some, replicate, length-append}
use cryptsetup.Base.{length-drop, length-replicate}
use cryptsetup.Luks2.Struct.{Hdr, HdrDisk, to_bytes, of_bytes, magic_of}
use cryptsetup.Luks2.Struct.{hdr_bin_len, hdr_to_disk, IsHdrDisk, string_field}
use cryptsetup.Luks2.Struct.Codec.{of_bytes-to_bytes, length-to_bytes}
use cryptsetup.Luks2.Struct.Convert.{IsHdr, hdr_to_disk-IsHdrDisk}
use cryptsetup.Luks2.Device.{Device, read_lseek, slice, splice, write_lseek_whole}
use cryptsetup.Luks2.Device.{slice-splice, read_lseek_good, slice-splice_after, length-splice}
use cryptsetup.Luks2.Disk.Env.{Env, HasHash}
use cryptsetup.Luks2.Disk.Checksum.{zero_csum, put_csum, hdr_checksum_calculate}
use cryptsetup.Luks2.Disk.Checksum.{hdr_checksum_check, hdr_disk_sanity_check_pre, read_area}
use cryptsetup.Luks2.Disk.Checksum.{hdr_read_disk}
use cryptsetup.Luks2.Disk.Write.{copy_offset, hdr_write_disk}

-- The header may be written with this JSON area: it is a LUKS2 header, its sizes agree, and its
-- hash is known.
pub record IsWritable (env : Env) (hdr : Hdr) (area : List ℕ) : Type 0 where
  pub valid : IsHdr hdr
  pub luks2 : hdr.version ≡ 2
  pub area_size : hdr_bin_len + length area ≡ hdr.hdr_size
  pub hash : HasHash env (string_field 32 hdr.checksum_alg)
  pub opens : env.open_write ≡ ok tt

-- The device can be read everywhere, and memory is there.
pub record IsReadable (env : Env) (dev : Device) : Type 0 where
  pub opens : env.open_read ≡ ok tt
  pub good : (offset len : ℕ) → dev.bad offset len ≡ false
  pub memory : (n : ℕ) → env.malloc n ≡ true

module _ (env : Env) (dev : Device) (secondary : Bool) (offset : ℕ) where
  read_area-ok :
      (h : HdrDisk) (n : ℕ) (area : List ℕ)
      → hdr_disk_sanity_check_pre env h secondary offset ≡ ok n
      → env.malloc n ≡ true
      → read_lseek dev n (offset + hdr_bin_len) ≡ some area
      → hdr_checksum_check env h.checksum_alg h area ≡ ok tt
      → read_area env dev h secondary offset ≡ ok area
  unfolding read_area
  read_area-ok h n area e1 e2 e3 e4 = ground arith

  pub hdr_read_disk-ok :
      (uninit : HdrDisk) (bytes area : List ℕ)
      → env.open_read ≡ ok tt
      → read_lseek dev hdr_bin_len offset ≡ some bytes
      → read_area env dev (of_bytes bytes) secondary offset ≡ ok area
      → hdr_read_disk env dev uninit offset secondary ≡ (zero_csum (of_bytes bytes), ok area)
  unfolding hdr_read_disk
  hdr_read_disk-ok uninit bytes area e1 e2 e3 = ground arith

module _ {env : Env} {hdr : Hdr} {area : List ℕ} (w : IsWritable env hdr area)
    (secondary : Bool) where
  abbrev pub disk : HdrDisk
  disk = hdr_to_disk hdr secondary (copy_offset hdr secondary)

  abbrev checksum : List ℕ
  checksum = (w.hash.total (to_bytes disk ++ area)).0

  -- The header as it is on disk in the end.
  abbrev pub sealed : HdrDisk
  sealed = put_csum disk checksum

  disk-magic : disk.magic ≡ magic_of secondary
  unfolding hdr_to_disk
  disk-magic = refl

  pub disk-checksum_alg : disk.checksum_alg ≡ string_field 32 hdr.checksum_alg
  unfolding hdr_to_disk
  disk-checksum_alg = refl

  disk-version : be_to_cpu disk.version ≡ 2
  unfolding hdr_to_disk
  disk-version = be_to_cpu-cpu_to_be 2 hdr.version w.valid.version_fits ∙ w.luks2

  pub disk-hdr_size : be_to_cpu disk.hdr_size ≡ hdr.hdr_size
  unfolding hdr_to_disk
  disk-hdr_size = be_to_cpu-cpu_to_be 8 hdr.hdr_size w.valid.size_fits

  copy_offset-lt : copy_offset hdr secondary < 256 ^ 8
  copy_offset-lt = let size_fits = w.valid.size_fits in ground arith

  disk-hdr_offset : be_to_cpu disk.hdr_offset ≡ copy_offset hdr secondary
  unfolding hdr_to_disk
  disk-hdr_offset = be_to_cpu-cpu_to_be 8 (copy_offset hdr secondary) copy_offset-lt

  length-checksum : length checksum ≡ env.hash_size (string_field 32 hdr.checksum_alg)
  length-checksum = w.hash.size _ checksum (w.hash.total (to_bytes disk ++ area)).1

  pub calculate :
      hdr_checksum_calculate env (string_field 32 hdr.checksum_alg) disk area ≡ ok sealed
  unfolding hdr_checksum_calculate
  calculate = ground (arith, w.hash.some_size, (w.hash.total (to_bytes disk ++ area)).1)

  disk-IsHdrDisk : IsHdrDisk disk
  disk-IsHdrDisk = hdr_to_disk-IsHdrDisk hdr secondary _ w.valid

  length-csum : length sealed.csum ≡ 64
  unfolding hdr_to_disk
  length-csum =
      let zeros : List ℕ = replicate 64 0 in
      omega (
        arith,
        length-append checksum (drop (length checksum) zeros),
        length-drop (length checksum) zeros,
        length-replicate {A = ℕ} 64 0,
        length-checksum,
        w.hash.fits,
      )

  pub sealed-IsHdrDisk : IsHdrDisk sealed
  sealed-IsHdrDisk = omega (arith, disk-IsHdrDisk, length-csum)

  zero_csum-sealed : zero_csum sealed ≡ disk
  unfolding hdr_to_disk
  zero_csum-sealed = refl

  -- The checksum that was written is right.
  check : hdr_checksum_check env (string_field 32 hdr.checksum_alg) sealed area ≡ ok tt
  unfolding hdr_checksum_check
  check =
      let some_size = w.hash.some_size in
      ground (
        arith,
        zero_csum-sealed,
        calculate,
        same_refl (take (env.hash_size (string_field 32 hdr.checksum_alg)) sealed.csum),
      )

  -- The written header passes the checks that come before the checksum.
  sanity :
      hdr_disk_sanity_check_pre env sealed secondary (copy_offset hdr secondary) ≡ ok (length area)
  unfolding hdr_disk_sanity_check_pre
  sanity =
      let magic_same = same_refl (magic_of secondary) in
      let area_size = w.area_size in
      let size_fits = w.valid.size_fits in
      ground (arith, disk-magic, disk-version, disk-hdr_size, disk-hdr_offset)

  -- The device after the three writes.
  abbrev pub written : List ℕ → List ℕ
  written bytes =
      let offset : ℕ = copy_offset hdr secondary in
      splice offset (to_bytes sealed)
        (splice (hdr_bin_len + offset) area (splice offset (to_bytes disk) bytes))

  pub length-disk : length (to_bytes disk) ≡ hdr_bin_len
  length-disk = length-to_bytes disk disk-IsHdrDisk

  pub length-sealed : length (to_bytes sealed) ≡ hdr_bin_len
  length-sealed = length-to_bytes sealed sealed-IsHdrDisk

  -- A device on which the two parts of the copy are read has the copy.
  pub hdr_read_disk-sealed :
      (now : Device) (uninit : HdrDisk)
      → env.open_read ≡ ok tt
      → ((n : ℕ) → env.malloc n ≡ true)
      → read_lseek now hdr_bin_len (copy_offset hdr secondary) ≡ some (to_bytes sealed)
      → read_lseek now (length area) (copy_offset hdr secondary + hdr_bin_len) ≡ some area
      → hdr_read_disk env now uninit (copy_offset hdr secondary) secondary ≡ (disk, ok area)
  hdr_read_disk-sealed now uninit opens memory e1 e2 =
      let at : ℕ = copy_offset hdr secondary in
      let back : of_bytes (to_bytes sealed) ≡ sealed = of_bytes-to_bytes sealed sealed-IsHdrDisk in
      hdr_read_disk-ok env now secondary at uninit (to_bytes sealed) area opens e1 (
        ap (λ h. read_area env now h secondary at) back
        ∙ read_area-ok env now secondary at sealed (length area) area sanity (memory _) e2
            (ap (λ alg. hdr_checksum_check env alg sealed area) disk-checksum_alg ∙ check))
      ∙ ap (λ h. (h, ok area)) (ap zero_csum back ∙ zero_csum-sealed)

  module _ (dev : Device) (fits : copy_offset hdr secondary + hdr.hdr_size ≤ length dev.bytes) where
    abbrev pub offset : ℕ
    offset = copy_offset hdr secondary

    abbrev pub bytes1 : List ℕ
    bytes1 = splice offset (to_bytes disk) dev.bytes

    abbrev pub bytes2 : List ℕ
    bytes2 = splice (hdr_bin_len + offset) area bytes1

    pub length-bytes1 : length bytes1 ≡ length dev.bytes
    length-bytes1 =
        let size = w.area_size in
        length-splice offset (to_bytes disk) dev.bytes (omega (arith, length-disk))

    pub length-bytes2 : length bytes2 ≡ length dev.bytes
    length-bytes2 =
        let size = w.area_size in
        length-splice (hdr_bin_len + offset) area bytes1 (omega (arith, length-bytes1))
        ∙ length-bytes1

    pub length-written : length (written dev.bytes) ≡ length dev.bytes
    length-written =
        let size = w.area_size in
        length-splice offset (to_bytes sealed) bytes2 (omega (arith, length-sealed, length-bytes2))
        ∙ length-bytes2

    -- With room on the device and a quota for all three writes, `hdr_write_disk` succeeds.
    pub hdr_write_disk_whole :
        hdr_bin_len + length area + hdr_bin_len ≤ dev.quota
        → hdr_write_disk env dev hdr area secondary ≡ (
          record dev {
            bytes = written dev.bytes;
            quota = dev.quota - length (to_bytes disk) - length area - length (to_bytes sealed);
          },
          ok tt,
        )
    unfolding hdr_write_disk
    hdr_write_disk_whole enough =
        let size = w.area_size in
        let d1 : Device = record dev {
          bytes = bytes1;
          quota = dev.quota - length (to_bytes disk);
        } in
        let d2 : Device = record d1 { bytes = bytes2; quota = d1.quota - length area } in
        let e1 =
          write_lseek_whole dev (to_bytes disk) offset (omega (arith, length-disk))
            (omega (arith, length-disk)) in
        let e2 =
          write_lseek_whole d1 area (hdr_bin_len + offset) (omega (arith, length-bytes1))
            (omega (arith, length-disk)) in
        let e3 =
          write_lseek_whole d2 (to_bytes sealed) offset
            (omega (arith, length-bytes2, length-sealed))
            (omega (arith, length-disk, length-sealed)) in
        ground
          (arith, w.opens, e1, e2, e3, length-disk, length-sealed, disk-checksum_alg, calculate)

    slice-header : slice offset hdr_bin_len (written dev.bytes) ≡ to_bytes sealed
    slice-header =
        let size = w.area_size in
        ap (λ n. slice offset n (written dev.bytes)) (sym length-sealed)
        ∙ slice-splice offset (to_bytes sealed) bytes2 (omega (arith, length-sealed, length-bytes2))

    slice-area : slice (offset + hdr_bin_len) (length area) (written dev.bytes) ≡ area
    slice-area =
        let size = w.area_size in
        let swap : offset + hdr_bin_len ≡ hdr_bin_len + offset = omega arith in
        ap (λ n. slice n (length area) (written dev.bytes)) swap
        ∙ slice-splice_after (hdr_bin_len + offset) (length area) offset (to_bytes sealed) bytes2
            (omega (arith, length-sealed)) (omega (arith, length-sealed, length-bytes2))
        ∙ slice-splice (hdr_bin_len + offset) area bytes1 (omega (arith, length-bytes1))

    pub reads_header :
        (quota : ℕ)
        → IsReadable env dev
        → read_lseek (record dev { bytes = written dev.bytes; quota = quota }) hdr_bin_len offset
          ≡ some (to_bytes sealed)
    reads_header quota r =
        let size = w.area_size in
        read_lseek_good (record dev { bytes = written dev.bytes; quota = quota }) hdr_bin_len offset
          (r.good _ _) (omega (arith, length-written))
        ∙ ap some slice-header

    pub reads_area :
        (quota : ℕ)
        → IsReadable env dev
        → read_lseek
            (record dev { bytes = written dev.bytes; quota = quota })
            (length area)
            (offset + hdr_bin_len)
          ≡ some area
    reads_area quota r =
        let size = w.area_size in
        read_lseek_good (record dev { bytes = written dev.bytes; quota = quota }) (length area)
          (offset + hdr_bin_len) (r.good _ _) (omega (arith, length-written))
        ∙ ap some slice-area

    -- What `hdr_read_disk` finds at this copy's place once it is written.
    pub hdr_read_disk-written :
        (uninit : HdrDisk) (quota : ℕ)
        → IsReadable env dev
        → hdr_read_disk env
            (record dev { bytes = written dev.bytes; quota = quota })
            uninit
            (copy_offset hdr secondary)
            secondary
          ≡ (disk, ok area)
    hdr_read_disk-written uninit quota r =
        hdr_read_disk-sealed (record dev { bytes = written dev.bytes; quota = quota }) uninit
          r.opens r.memory (reads_header quota r) (reads_area quota r)

    -- A header copy that is written with room on the device and a quota for its three writes is read
    -- back: `hdr_write_disk` returns 0, and `hdr_read_disk` at its place then succeeds and returns
    -- the binary header, with the checksum field zeroed, and the JSON area. The header is one that
    -- may be written (`IsWritable`), and the device and memory do not fail (`IsReadable`).
    pub hdr_read_disk-hdr_write_disk :
        (uninit : HdrDisk)
        → IsReadable env dev
        → hdr_bin_len + length area + hdr_bin_len ≤ dev.quota
        → ((hdr_write_disk env dev hdr area secondary).1 ≡ ok tt)
          × (hdr_read_disk env
                (hdr_write_disk env dev hdr area secondary).0
                uninit
                (copy_offset hdr secondary)
                secondary
              ≡ (hdr_to_disk hdr secondary (copy_offset hdr secondary), ok area))
    hdr_read_disk-hdr_write_disk uninit r enough =
        rw (hdr_write_disk_whole enough) (refl, hdr_read_disk-written uninit _ r)
