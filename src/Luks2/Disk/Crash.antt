-- ===== src/Luks2/Disk/Crash.antt =====
-- lib/luks2/luks2_disk_metadata.c: what is left on the device when writing the header stops at any
-- byte.
use native.Mathlib.Decide.{dec_lt}
use cryptsetup.Base.{ℕ, ◌*◌, ◌+◌, ◌-◌, ◌≤◌, ◌<◌, ◌≡◌, ap, ◌∙◌, arith, min, List, length, take}
use cryptsetup.Base.{Bool, true, false, ◌⊎◌, inl, inr, ok, err, eio, some}
use cryptsetup.Base.{length-take, Option-cases, Result-cases}
use cryptsetup.Luks2.Struct.{Hdr, HdrDisk, to_bytes, hdr_bin_len, hdr_to_disk, of_bytes}
use cryptsetup.Luks2.Device.{Device, read_lseek, write_lseek, slice, splice, write_lseek_count}
use cryptsetup.Luks2.Device.{
  slice-splice_before, slice-splice_after, slice-splice_front, length-splice, read_lseek_good,
}
use cryptsetup.Luks2.Disk.Env.{Env}
use cryptsetup.Luks2.Disk.Checksum.{hdr_read_disk, read_area, hdr_disk_sanity_check_pre}
use cryptsetup.Luks2.Disk.Write.{copy_offset, hdr_write_disk, write_copies}
use cryptsetup.Luks2.Disk.RoundTrip.{IsWritable, IsReadable}
use cryptsetup.Luks2.Disk.RoundTrip

-- `dev'` reads as `dev` outside the bytes from `lo` up to `hi`, and has its size.
pub record Keeps (lo hi : ℕ) (dev dev' : Device) : Type 0 where
  pub above : (len at : ℕ) → hi ≤ at → read_lseek dev' len at ≡ read_lseek dev len at
  pub below : (len at : ℕ) → at + len ≤ lo → read_lseek dev' len at ≡ read_lseek dev len at
  pub size : length dev'.bytes ≡ length dev.bytes

Keeps-trans : {lo hi : ℕ} {a b c : Device} → Keeps lo hi a b → Keeps lo hi b c → Keeps lo hi a c
Keeps-trans p q = record {
  above = λ len at h. q.above len at h ∙ p.above len at h;
  below = λ len at h. q.below len at h ∙ p.below len at h;
  size = q.size ∙ p.size;
}

read_lseek_same :
    (dev : Device) (bytes : List ℕ) (quota len at : ℕ)
    → length bytes ≡ length dev.bytes
    → slice at len bytes ≡ slice at len dev.bytes
    → read_lseek (record dev { bytes = bytes; quota = quota }) len at ≡ read_lseek dev len at
unfolding read_lseek
read_lseek_same dev bytes quota len at e f = ground arith

module _ (lo hi : ℕ) (dev : Device) (src : List ℕ) (offset : ℕ) where
  -- One write, whole or short, inside the range.
  write_lseek-Keeps :
      lo ≤ offset
      → offset + length src ≤ hi
      → hi ≤ length dev.bytes
      → Keeps lo hi dev (write_lseek dev src offset).0
  unfolding write_lseek
  write_lseek-Keeps h k fits =
      let n : ℕ = min (length src) (min dev.quota (length dev.bytes - offset)) in
      let part : List ℕ = take n src in
      let len_part : length part ≤ length src = omega (arith, length-take n src) in
      let splice_part : List ℕ = splice offset part dev.bytes in
      let size : length splice_part ≡ length dev.bytes =
        length-splice offset part dev.bytes (omega arith) in
      record {
        above = λ len at a.
            read_lseek_same dev splice_part (dev.quota - n) len at size
              (slice-splice_after at len offset part dev.bytes (omega arith) (omega arith));
        below = λ len at b.
            read_lseek_same dev splice_part (dev.quota - n) len at size
              (slice-splice_before at len offset part dev.bytes (omega arith) (omega arith));
        size = size;
      }

-- A copy above the range is read as before.
read_area-Keeps_above :
    (env : Env) {lo hi : ℕ} {dev dev' : Device} (h : HdrDisk) (offset : ℕ) (secondary : Bool)
    → Keeps lo hi dev dev'
    → hi ≤ offset
    → read_area env dev' h secondary offset ≡ read_area env dev h secondary offset
unfolding read_area
read_area-Keeps_above env h offset secondary k a =
    elim (Result-cases (hdr_disk_sanity_check_pre env h secondary offset)) [
      | inl (n, e) ↦ rw (e, k.above n (offset + hdr_bin_len) (omega arith))
      | inr (x, e) ↦ rw e
    ]

hdr_read_disk-Keeps_above :
    (env : Env) {lo hi : ℕ} {dev dev' : Device} (uninit : HdrDisk) (offset : ℕ) (secondary : Bool)
    → Keeps lo hi dev dev'
    → hi ≤ offset
    → hdr_read_disk env dev' uninit offset secondary ≡ hdr_read_disk env dev uninit offset secondary
unfolding hdr_read_disk
hdr_read_disk-Keeps_above env {dev = dev} uninit offset secondary k a =
    let header = k.above hdr_bin_len offset a in
    elim (Option-cases (read_lseek dev hdr_bin_len offset)) [
      | inl e ↦ ground arith
      | inr (bytes, e) ↦
          ground (arith, read_area-Keeps_above env (of_bytes bytes) offset secondary k a)
    ]

module _ {env : Env} {hdr : Hdr} {area : List ℕ} (w : IsWritable env hdr area)
    (secondary : Bool) where
  module _ (dev : Device) (fits : copy_offset hdr secondary + hdr.hdr_size ≤ length dev.bytes) where
    abbrev start : ℕ
    start = copy_offset hdr secondary

    abbrev dev1 : Device
    dev1 = (write_lseek dev (to_bytes (RoundTrip.disk w secondary)) start).0

    abbrev dev2 : Device
    dev2 = (write_lseek dev1 area (hdr_bin_len + start)).0

    abbrev dev3 : Device
    dev3 = (write_lseek dev2 (to_bytes (RoundTrip.sealed w secondary)) start).0

    dev1-Keeps : Keeps start (start + hdr.hdr_size) dev dev1
    dev1-Keeps =
        let size = w.area_size in
        write_lseek-Keeps start (start + hdr.hdr_size) dev _ start (omega arith)
          (omega (arith, RoundTrip.length-disk w secondary)) fits

    dev2-Keeps : Keeps start (start + hdr.hdr_size) dev dev2
    dev2-Keeps =
        let size = w.area_size in
        Keeps-trans dev1-Keeps (
          write_lseek-Keeps start (start + hdr.hdr_size) dev1 area (hdr_bin_len + start)
            (omega arith) (omega arith) (omega (arith, dev1-Keeps.size)))

    dev3-Keeps : Keeps start (start + hdr.hdr_size) dev dev3
    dev3-Keeps =
        let size = w.area_size in
        Keeps-trans dev2-Keeps (
          write_lseek-Keeps start (start + hdr.hdr_size) dev2 _ start (omega arith)
            (omega (arith, RoundTrip.length-sealed w secondary)) (omega (arith, dev2-Keeps.size)))

    -- The ways in which `hdr_write_disk` ends.
    hdr_write_disk-cases :
        (hdr_write_disk env dev hdr area secondary ≡ (dev1, err eio))
        ⊎ (hdr_write_disk env dev hdr area secondary ≡ (dev2, err eio))
        ⊎ ((hdr_write_disk env dev hdr area secondary).0 ≡ dev3)
    unfolding hdr_write_disk
    hdr_write_disk-cases =
        ground
          (arith, w.opens, RoundTrip.calculate w secondary, RoundTrip.disk-checksum_alg w secondary)

    -- Whatever the quota, only the bytes of this copy change.
    hdr_write_disk-Keeps :
        Keeps start (start + hdr.hdr_size) dev (hdr_write_disk env dev hdr area secondary).0
    hdr_write_disk-Keeps = elim hdr_write_disk-cases [
      | inl e ↦ rw e dev1-Keeps
      | inr (inl e) ↦ rw e dev2-Keeps
      | inr (inr e) ↦ rw e dev3-Keeps
    ]

    -- A quota that is too small is reported.
    hdr_write_disk_short :
        dev.quota < hdr_bin_len + length area + hdr_bin_len
        → (hdr_write_disk env dev hdr area secondary).1 ≡ err eio
    unfolding hdr_write_disk
    hdr_write_disk_short h = ground (
      arith,
      w.opens,
      RoundTrip.calculate w secondary,
      RoundTrip.disk-checksum_alg w secondary,
      write_lseek_count dev (to_bytes (RoundTrip.disk w secondary)) start,
      write_lseek_count dev1 area (hdr_bin_len + start),
      write_lseek_count dev2 (to_bytes (RoundTrip.sealed w secondary)) start,
    )

module _ {env : Env} {hdr : Hdr} {area : List ℕ} (w : IsWritable env hdr area) where
  module _ (dev : Device) (fits : hdr.hdr_size + hdr.hdr_size ≤ length dev.bytes)
      (r : IsReadable env dev) where
    abbrev after : Device
    after = (write_copies env dev hdr area).0

    fits_primary : 0 + hdr.hdr_size ≤ length dev.bytes
    fits_primary = omega arith

    -- The new primary copy can be read.
    abbrev HasNewPrimary : Device → Type 0
    HasNewPrimary d =
        (uninit : HdrDisk) → hdr_read_disk env d uninit 0 false ≡ (hdr_to_disk hdr false 0, ok area)

    -- The secondary copy reads as it did.
    abbrev HasOldSecondary : Device → Type 0
    HasOldSecondary d =
        (uninit : HdrDisk)
        → hdr_read_disk env d uninit hdr.hdr_size true
          ≡ hdr_read_disk env dev uninit hdr.hdr_size true

    write_copies_stop :
        (hdr_write_disk env dev hdr area false).1 ≡ err eio
        → write_copies env dev hdr area ≡ ((hdr_write_disk env dev hdr area false).0, err eio)
    unfolding write_copies
    write_copies_stop e = ground arith

    write_copies_go :
        {d : Device}
        → hdr_write_disk env dev hdr area false ≡ (d, ok tt)
        → write_copies env dev hdr area ≡ hdr_write_disk env d hdr area true
    unfolding write_copies
    write_copies_go e = ground arith

    short_primary :
        dev.quota < hdr_bin_len + length area + hdr_bin_len
        → HasOldSecondary after × ((write_copies env dev hdr area).1 ≡ err eio)
    short_primary h =
        let e = write_copies_stop (hdr_write_disk_short w false dev fits_primary h) in
        (
          λ uninit.
              ap (λ p. hdr_read_disk env p.0 uninit hdr.hdr_size true) e
              ∙ hdr_read_disk-Keeps_above env uninit hdr.hdr_size true
                  (hdr_write_disk-Keeps w false dev fits_primary) (omega arith),
          ap (λ p. p.1) e,
        )

    -- The device between the two copies, if the quota is enough for the first.
    abbrev between : Device
    between = record dev {
      bytes = RoundTrip.written w false dev.bytes;
      quota =
          dev.quota
          - length (to_bytes (RoundTrip.disk w false))
          - length area
          - length (to_bytes (RoundTrip.sealed w false));
    }

    fits_secondary : hdr.hdr_size + hdr.hdr_size ≤ length between.bytes
    fits_secondary = omega (arith, RoundTrip.length-written w false dev fits_primary)

    whole_primary :
        hdr_bin_len + length area + hdr_bin_len ≤ dev.quota
        → (write_copies env dev hdr area ≡ hdr_write_disk env between hdr area true)
          × HasNewPrimary (hdr_write_disk env between hdr area true).0
    whole_primary h =
        let size = w.area_size in
        let keeps = hdr_write_disk-Keeps w true between fits_secondary in
        (
          write_copies_go (RoundTrip.hdr_write_disk_whole w false dev fits_primary h),
          λ uninit.
              RoundTrip.hdr_read_disk-sealed w false (hdr_write_disk env between hdr area true).0
                uninit r.opens r.memory
                (keeps.below hdr_bin_len 0 (omega arith)
                  ∙ RoundTrip.reads_header w false dev fits_primary between.quota r)
                (keeps.below (length area) (0 + hdr_bin_len) (omega arith)
                  ∙ RoundTrip.reads_area w false dev fits_primary between.quota r),
        )

    -- Wherever the writing of the two copies stops, one complete copy is on the device: either the
    -- new primary copy is read back, or the secondary copy reads as it did before. If the writing
    -- stopped before the primary copy was complete, the error is reported. The header may be
    -- written, both copies fit the device, and reading does not fail.
    pub write_copies_crash :
        (uninit : HdrDisk)
        → (hdr_read_disk env (write_copies env dev hdr area).0 uninit 0 false
            ≡ (hdr_to_disk hdr false 0, ok area))
          ⊎ ((hdr_read_disk env (write_copies env dev hdr area).0 uninit hdr.hdr_size true
                ≡ hdr_read_disk env dev uninit hdr.hdr_size true)
              × ((write_copies env dev hdr area).1 ≡ err eio))
    write_copies_crash uninit = elim (dec_lt dev.quota (hdr_bin_len + length area + hdr_bin_len)) [
      | yes h ↦ let (old, failed) = short_primary h in inr (old uninit, failed)
      | no h ↦
          let (e, new) = whole_primary (omega arith) in
          inl (ap (λ p. hdr_read_disk env p.0 uninit 0 false) e ∙ new uninit)
    ]

    -- With a quota for both copies, both are written, the result is 0, and both are read back.
    pub write_copies_whole :
        (uninit : HdrDisk)
        → 2 * (hdr_bin_len + length area + hdr_bin_len) ≤ dev.quota
        → ((write_copies env dev hdr area).1 ≡ ok tt)
          × (hdr_read_disk env (write_copies env dev hdr area).0 uninit 0 false
              ≡ (hdr_to_disk hdr false 0, ok area))
          × (hdr_read_disk env (write_copies env dev hdr area).0 uninit hdr.hdr_size true
              ≡ (hdr_to_disk hdr true hdr.hdr_size, ok area))
    write_copies_whole uninit h =
        let (e, new) = whole_primary (omega arith) in
        let r' : IsReadable env between = record {
          opens = r.opens;
          good = r.good;
          memory = r.memory;
        } in
        let (done, second) =
          RoundTrip.hdr_read_disk-hdr_write_disk w true between fits_secondary uninit r'
            (omega (arith, RoundTrip.length-disk w false, RoundTrip.length-sealed w false)) in
        rw e (done, new uninit, second)

    -- The first bytes of the device are those of the new primary copy.
    pub read_lseek-write_copies :
        (len : ℕ)
        → len ≤ hdr_bin_len
        → 2 * (hdr_bin_len + length area + hdr_bin_len) ≤ dev.quota
        → read_lseek (write_copies env dev hdr area).0 len 0
          ≡ some (take len (to_bytes (RoundTrip.sealed w false)))
    read_lseek-write_copies len short h =
        let size = w.area_size in
        let (e, _) = whole_primary (omega arith) in
        let keeps = hdr_write_disk-Keeps w true between fits_secondary in
        ap (λ p. read_lseek p.0 len 0) e
        ∙ keeps.below len 0 (omega arith)
        ∙ read_lseek_good between len 0 (r.good _ _) (omega (arith, fits_secondary))
        ∙ ap some (
            slice-splice_front len (to_bytes (RoundTrip.sealed w false))
              (RoundTrip.bytes2 w false dev fits_primary)
              (omega (arith, RoundTrip.length-sealed w false)))

    -- The size of the device does not change.
    pub length-write_copies :
        2 * (hdr_bin_len + length area + hdr_bin_len) ≤ dev.quota
        → length (write_copies env dev hdr area).0.bytes ≡ length dev.bytes
    length-write_copies h =
        let (e, _) = whole_primary (omega arith) in
        ap (λ p. length p.0.bytes) e
        ∙ (hdr_write_disk-Keeps w true between fits_secondary).size
        ∙ RoundTrip.length-written w false dev fits_primary
