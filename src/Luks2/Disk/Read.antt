-- ===== src/Luks2/Disk/Read.antt =====
-- lib/luks2/luks2_disk_metadata.c: `LUKS2_disk_hdr_read`, in the order of its steps.
use cryptsetup.Base.Endian.{be_to_cpu}
use cryptsetup.Base.{ℕ, List, [], ◌∷◌, Bool, true, false, not, ◌&&◌, ltb, if◌then◌else◌}
use cryptsetup.Base.{Result, ok, err, Errno, einval, eio, eagain, Option, none, some}
use cryptsetup.Luks2.Struct.{Hdr, HdrDisk, hdr_from_disk}
use cryptsetup.Luks2.Device.{Device}
use cryptsetup.Luks2.Disk.Env.{Env}
use cryptsetup.Luks2.Disk.Checksum.{json_size, hdr_read_disk}
use cryptsetup.Luks2.Disk.Parse.{parse_and_validate_json}
use cryptsetup.Luks2.Disk.Write.{hdr_write_disk, device_check_size}

-- The states HDR_OK, HDR_OBSOLETE, HDR_FAIL and HDR_FAIL_IO.
pub data State : Type 0 where
  hdr_ok obsolete fail fail_io : State

abbrev pub is_ok : State → Bool
is_ok hdr_ok = true
is_ok _ = false

-- Neither HDR_FAIL nor HDR_FAIL_IO.
abbrev pub is_read : State → Bool
is_read hdr_ok = true
is_read obsolete = true
is_read _ = false

abbrev pub is_fail_io : State → Bool
is_fail_io fail_io = true
is_fail_io _ = false

abbrev pub is_eio : Errno → Bool
is_eio eio = true
is_eio _ = false

abbrev pub is_eagain : Errno → Bool
is_eagain eagain = true
is_eagain _ = false

-- `LUKS2_HDR2_OFFSETS`
abbrev pub hdr2_offsets : List ℕ
hdr2_offsets =
    0x4000 ∷ 0x8000 ∷ 0x10000 ∷ 0x20000 ∷ 0x40000 ∷ 0x80000 ∷ 0x100000 ∷ 0x200000 ∷ 0x400000 ∷ []

-- The local variables of one header copy.
pub record Copy (Json : Type 0) : Type 0 where
  pub state : State
  pub disk : HdrDisk
  pub area : List ℕ
  pub jobj : Option Json

module _ (env : Env) where
  -- The state of a copy, from what `hdr_read_disk` left and returned.
  unfoldable pub copy_of : HdrDisk × Result (List ℕ) → Copy env.Json
  copy_of (disk, ok area) =
      elim (parse_and_validate_json env area (json_size (be_to_cpu disk.hdr_size))) [
        | none ↦ record { state = obsolete; disk = disk; area = area; jobj = none }
        | some j ↦ record { state = hdr_ok; disk = disk; area = area; jobj = some j }
      ]
  copy_of (disk, err e) = record {
    state = if is_eio e then fail_io else fail;
    disk = disk;
    area = [];
    jobj = none;
  }

  -- The loop over the known offsets; `r` is the result so far, and the loop ends with the first
  -- copy that is read.
  unfoldable pub scan : Device → List ℕ → HdrDisk → Result (List ℕ) → HdrDisk × Result (List ℕ)
  scan dev offsets disk (ok area) = (disk, ok area)
  scan dev [] disk (err e) = (disk, err e)
  scan dev (offset ∷ offsets) disk (err e) =
      let (disk', r) = hdr_read_disk env dev disk offset true in scan dev offsets disk' r

  unfoldable pub read_primary : Device → HdrDisk → Copy env.Json
  read_primary dev uninit = copy_of (hdr_read_disk env dev uninit 0 false)

  unfoldable pub read_secondary : Device → HdrDisk → Copy env.Json → Copy env.Json
  read_secondary dev uninit c1 =
      if is_read c1.state
      then copy_of (hdr_read_disk env dev uninit (be_to_cpu c1.disk.hdr_size) true)
      else copy_of (scan dev hdr2_offsets uninit (err einval))

  -- The check of the sequence ids: the states of the two copies after it.
  unfoldable pub check_seqid : Copy env.Json → Copy env.Json → State × State
  check_seqid c1 c2 =
      if is_ok c1.state && is_ok c2.state
      then if ltb (be_to_cpu c2.disk.seqid) (be_to_cpu c1.disk.seqid)
        then (c1.state, obsolete)
        else if ltb (be_to_cpu c1.disk.seqid) (be_to_cpu c2.disk.seqid)
        then (obsolete, c2.state)
        else (c1.state, c2.state)
      else (c1.state, c2.state)

  -- Recovery of the copy `bad` from the copy `good`; `secondary` says that the good copy is the
  -- secondary one. It returns the struct of the bad copy as the code leaves it.
  unfoldable pub recover :
      Device → Copy env.Json → HdrDisk → Bool → Device × HdrDisk × Result (Unit {0})
  recover dev good bad secondary = elim env.random_salt [
    | err e ↦ (dev, good.disk, err e)
    | ok s ↦
        let bad' = record good.disk { salt = s } in
        let (dev', r) =
          hdr_write_disk env dev (hdr_from_disk good.disk bad' secondary) good.area
            (not secondary) in
        (dev', bad', r)
  ]

  -- The rewriting of the bad copy where one is bad, with the checks before it: `err` is a jump to
  -- the end of the function. A failed recovery is reported by EAGAIN only.
  unfoldable pub auto_recover :
      Device → Copy env.Json → HdrDisk → Bool → Bool → Bool → Device × Result HdrDisk
  auto_recover dev good bad secondary do_recovery do_blkprobe =
      let probed : Result (Unit {0}) = if do_blkprobe then env.detect_signatures else ok tt in
      elim probed [
        | err e ↦ (dev, err e)
        | ok _ ↦
            if not do_recovery
            then (dev, ok bad)
            else let (dev', bad', r) = recover dev good bad secondary in
              (dev', elim r [ ok _ ↦ ok bad' | err e ↦ if is_eagain e then err e else ok bad' ])
      ]

  -- The header in memory, from the good copy and the salt of the other.
  unfoldable pub loaded : Copy env.Json → HdrDisk → Bool → Result (Hdr × env.Json)
  loaded good other secondary = elim good.jobj [
    | none ↦ err einval
    | some j ↦ ok (hdr_from_disk good.disk other secondary, j)
  ]

  -- The last part: both states are known.
  unfoldable pub choose :
      Device
      → Copy env.Json
      → Copy env.Json
      → State × State
      → Bool
      → Bool
      → Device × Result (Hdr × env.Json)
  choose dev c1 c2 (s1, s2) do_recovery do_blkprobe =
      if not (is_ok s1) && not (is_ok s2)
      then (dev, err (if is_fail_io s1 && is_fail_io s2 then eio else einval))
      else let secondary : Bool = not (is_ok s1) in
        let good : Copy env.Json = if is_ok s1 then c1 else c2 in
        let bad : HdrDisk = if is_ok s1 then c2.disk else c1.disk in
        let (dev1, fits) =
          device_check_size env dev (elim good.jobj [ none ↦ 0 | some j ↦ env.areas_size j ])
            false in
        elim fits [
          | err e ↦ (dev1, err e)
          | ok _ ↦
              if is_ok s1 && is_ok s2
              then (dev1, loaded c1 c2.disk false)
              else let (dev2, r) = auto_recover dev1 good bad secondary do_recovery do_blkprobe in
                elim r [ err e ↦ (dev2, err e) | ok other ↦ (dev2, loaded good other secondary) ]
        ]

  -- `LUKS2_disk_hdr_read`; `uninit` is what the two structs on the stack hold at first.
  unfoldable pub disk_hdr_read : Device → HdrDisk → Bool → Bool → Device × Result (Hdr × env.Json)
  disk_hdr_read dev uninit do_recovery do_blkprobe =
      let c1 = read_primary dev uninit in
      let c2 = read_secondary dev uninit c1 in
      choose dev c1 c2 (check_seqid c1 c2)
        (do_recovery && not (do_blkprobe && not env.locking_enabled)) do_blkprobe
