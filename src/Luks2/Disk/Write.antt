-- ===== src/Luks2/Disk/Write.antt =====
-- lib/luks2/luks2_disk_metadata.c: writing the header.
use cryptsetup.Base.Strings.{same, same_string}
use cryptsetup.Base.Endian.{be_to_cpu}
use cryptsetup.Base.{ℕ, ◌+◌, ◌-◌, ◌%◌, ◌^◌, List, ◌++◌, length, replicate}
use cryptsetup.Base.{Bool, true, false, not, ◌&&◌, ◌||◌, ◌==◌, ltb, if◌then◌else◌}
use cryptsetup.Base.{Result, ok, err, einval, eio, enomem, none, some}
use cryptsetup.Luks2.Struct.{Hdr, HdrDisk, to_bytes, of_bytes, magic_1st, hdr_bin_len}
use cryptsetup.Luks2.Struct.{hdr_to_disk}
use cryptsetup.Luks2.Device.{Device, read_lseek, write_lseek}
use cryptsetup.Luks2.Disk.Env.{Env}
use cryptsetup.Luks2.Disk.Checksum.{json_size, hdr_checksum_calculate}

-- The header copy's place.
abbrev pub copy_offset : Hdr → Bool → ℕ
copy_offset hdr secondary = if secondary then hdr.hdr_size else 0

module _ (env : Env) where
  -- The last step of `hdr_write_disk`: the header again, with its checksum.
  unfoldable pub write_checksum : Device → HdrDisk → List ℕ → ℕ → Device × Result (Unit {0})
  write_checksum dev h area offset = elim (hdr_checksum_calculate env h.checksum_alg h area) [
    | err e ↦ (dev, err e)
    | ok h' ↦
        let (dev', n) = write_lseek dev (to_bytes h') offset in
        (dev', if ltb n hdr_bin_len then err eio else ok tt)
  ]

  -- `hdr_write_disk`: the header without checksum, the JSON area, and the header with checksum.
  -- `area` is as long as the JSON area of this header.
  unfoldable pub hdr_write_disk : Device → Hdr → List ℕ → Bool → Device × Result (Unit {0})
  unfolding write_checksum
  hdr_write_disk dev hdr area secondary =
      let offset : ℕ = copy_offset hdr secondary in
      let h = hdr_to_disk hdr secondary offset in
      elim env.open_write [
        | err e ↦ (dev, err e)
        | ok _ ↦
            let (dev1, n1) = write_lseek dev (to_bytes h) offset in
            if ltb n1 hdr_bin_len
            then (dev1, err eio)
            else let (dev2, n2) = write_lseek dev1 area (hdr_bin_len + offset) in
              if ltb n2 (length area) then (dev2, err eio) else write_checksum dev2 h area offset
      ]

  -- `LUKS2_check_sequence_id`, on the 512 bytes that it reads: whether it returns anything but 0.
  unfoldable pub check_sequence_id : Device → Hdr → Bool
  unfolding read_lseek same same_string be_to_cpu
  check_sequence_id dev hdr = elim env.open_read [
    | err e ↦ true
    | ok _ ↦ elim (read_lseek dev 512 0) [
      | none ↦ true
      | some bytes ↦
          let d = of_bytes bytes in
          if not (be_to_cpu d.version == 2)
            || (not (same d.magic magic_1st) || not (same_string d.uuid hdr.uuid))
          then false
          else not (hdr.seqid == be_to_cpu d.seqid)
    ]
  ]

  -- `LUKS2_device_write_lock`
  unfoldable pub device_write_lock : Device → Hdr → Result (Unit {0})
  unfolding check_sequence_id
  device_write_lock dev hdr = elim env.write_lock [
    | err e ↦ err e
    | ok first ↦
        if first && not env.in_reencryption && check_sequence_id dev hdr then err einval else ok tt
  ]

  -- `device_check_size` of lib/utils_device.c
  unfoldable pub device_check_size : Device → ℕ → Bool → Device × Result (Unit {0})
  device_check_size dev req_offset falloc =
      if not env.size_known
      then (dev, err eio)
      else if ltb (length dev.bytes) req_offset
      then (if falloc && env.can_fallocate then (grown, ok tt) else (dev, err einval))
      else (dev, ok tt)
    where
      grown : Device
      grown = record dev { bytes = dev.bytes ++ replicate (req_offset - length dev.bytes) 0 }

  -- The two calls of `hdr_write_disk` at the end of `LUKS2_disk_hdr_write`.
  unfoldable pub write_copies : Device → Hdr → List ℕ → Device × Result (Unit {0})
  write_copies dev hdr area =
      let (dev1, r) = hdr_write_disk dev hdr area false in
      elim r [ err e ↦ (dev1, err e) | ok _ ↦ hdr_write_disk dev1 hdr area true ]

  -- The JSON area with the text in it: `crypt_zalloc` and `strncpy`.
  unfoldable pub json_area : Hdr → env.Json → Result (List ℕ)
  json_area hdr jobj =
      let size : ℕ = json_size hdr.hdr_size in
      let text = env.print jobj in
      if not (env.malloc size)
      then err enomem
      else if length text == 0
      then err enomem
      else if ltb ((size + 2 ^ 64 - 1) % 2 ^ 64) (length text)
      then err einval
      else ok (text ++ replicate (size - length text) 0)

  -- `LUKS2_disk_hdr_write`: the device, the header in memory, and the result.
  unfoldable pub disk_hdr_write : Device → Hdr → env.Json → Bool → Device × Hdr × Result (Unit {0})
  disk_hdr_write dev hdr jobj seqid_check =
      if not (hdr.version == 2)
      then (dev, hdr, err einval)
      else let (dev1, checked) = device_check_size dev (env.areas_size jobj) true in
        elim checked [
          | err e ↦ (dev1, hdr, err e)
          | ok _ ↦ elim (json_area hdr jobj) [
            | err e ↦ (dev1, hdr, err e)
            | ok area ↦
                let locked : Result (Unit {0}) =
                  if seqid_check
                  then device_write_lock dev1 hdr
                  else elim env.write_lock [ err e ↦ err e | ok _ ↦ ok tt ] in
                elim locked [
                  | err e ↦ (dev1, hdr, err e)
                  | ok _ ↦
                      let hdr' = record hdr { seqid = (hdr.seqid + 1) % 2 ^ 64 } in
                      let (dev2, r) = write_copies dev1 hdr' area in (dev2, hdr', r)
                ]
          ]
        ]
