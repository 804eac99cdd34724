-- ===== src/Luks2/Disk/Checksum.antt =====
-- lib/luks2/luks2_disk_metadata.c: the checksum of a header copy and the checks before it.
use cryptsetup.Base.{ℕ, ◌+◌, ◌-◌, ◌%◌, ◌^◌, List, ◌++◌, length, take, drop, replicate}
use cryptsetup.Base.{Bool, not, ◌&&◌, ◌==◌, if◌then◌else◌}
use cryptsetup.Base.{Result, ok, err, einval, eio, enomem, ◌>>=◌, ◌>>◌, guard, none, some}
use cryptsetup.Base.Strings.{same}
use cryptsetup.Luks2.Struct.{HdrDisk, to_bytes, of_bytes, magic_of, hdr_bin_len}
use cryptsetup.Base.Endian.{be_to_cpu}
use cryptsetup.Luks2.Device.{Device, read_lseek}
use cryptsetup.Luks2.Disk.Env.{Env}

-- `hdr_size - LUKS2_HDR_BIN_LEN` in 64 bits.
abbrev pub json_size : ℕ → ℕ
json_size hdr_size = (hdr_size + 2 ^ 64 - hdr_bin_len) % 2 ^ 64

-- The checksum field after `size` bytes of it are zeroed or written.
abbrev pub zero_csum : HdrDisk → HdrDisk
zero_csum h = record h { csum = replicate 64 0 }

abbrev pub put_csum : HdrDisk → List ℕ → HdrDisk
put_csum h d = record h { csum = d ++ drop (length d) h.csum }

module _ (env : Env) where
  -- `hdr_checksum_calculate`: the header with the checksum in its field.
  unfoldable pub hdr_checksum_calculate : List ℕ → HdrDisk → List ℕ → Result HdrDisk
  hdr_checksum_calculate alg h area =
      if env.hash_size alg == 0
      then err einval
      else do d ← env.digest alg (to_bytes h ++ area); ok (put_csum h d)

  -- `hdr_checksum_check`
  unfoldable pub hdr_checksum_check : List ℕ → HdrDisk → List ℕ → Result (Unit {0})
  hdr_checksum_check alg h area = if env.hash_size alg == 0 then err einval else do
    tmp ← hdr_checksum_calculate alg (zero_csum h) area
    guard (same (take (env.hash_size alg) tmp.csum) (take (env.hash_size alg) h.csum)) einval

  -- `hdr_disk_sanity_check_pre`: the size of the JSON area.
  unfoldable pub hdr_disk_sanity_check_pre : HdrDisk → Bool → ℕ → Result ℕ
  unfolding same be_to_cpu
  hdr_disk_sanity_check_pre h secondary offset =
      if not (same h.magic (magic_of secondary))
      then err einval
      else if not (be_to_cpu h.version == 2)
      then err einval
      else if not (offset == be_to_cpu h.hdr_offset)
      then err einval
      else if secondary && not (offset == be_to_cpu h.hdr_size)
      then err einval
      else ok (json_size (be_to_cpu h.hdr_size))

  -- The part of `hdr_read_disk` after the binary header is read. Any failure of the checksum is EINVAL.
  unfoldable pub read_area : Device → HdrDisk → Bool → ℕ → Result (List ℕ)
  read_area dev h secondary offset = do
    size ← hdr_disk_sanity_check_pre h secondary offset
    guard (env.malloc size) enomem
    area ← elim (read_lseek dev size (offset + hdr_bin_len)) [ none ↦ err eio | some a ↦ ok a ]
    elim (hdr_checksum_check h.checksum_alg h area) [ err e ↦ err einval | ok _ ↦ ok area ]

  -- `hdr_read_disk`: the binary header and the JSON area. `h` is what the caller's struct held
  -- before, which stays where nothing is read. The checksum is zeroed after it was checked, also
  -- when it was wrong.
  unfoldable pub hdr_read_disk : Device → HdrDisk → ℕ → Bool → HdrDisk × Result (List ℕ)
  unfolding read_area
  hdr_read_disk dev h offset secondary = elim env.open_read [
    | err e ↦ (h, err e)
    | ok _ ↦ elim (read_lseek dev hdr_bin_len offset) [
      | none ↦ (h, err eio)
      | some bytes ↦
          let read = of_bytes bytes in (zero_csum read, read_area dev read secondary offset)
    ]
  ]
