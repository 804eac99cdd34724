-- ===== src/Luks2/Reencrypt/Hotzone/Crashed.antt =====
-- lib/luks2/luks2_reencrypt.c: a crash while the hot zone is being written, from the checksums that
-- were stored before it to the end of the recovery.
use cryptsetup.Base.{
  ℕ, zero, suc, ◌+◌, ◌*◌, ◌^◌, ◌≤◌, ◌<◌, ◌≡◌, sym, ap, ◌∙◌, arith, List, [], length, true, false,
  ltb, ◌||◌, not, some, Result, ok,
}
use cryptsetup.Luks2.Areas.{Area}
use cryptsetup.Luks2.Device.{Device, read_lseek, slice, splice}
use cryptsetup.Luks2.Reencrypt.Hotzone.{
  Csum, protect_checksum, Crash, hotzone_protect_final, recover_checksum, recover_with,
  recover_segment,
}
use cryptsetup.Luks2.Reencrypt.Hotzone.Blocks.{blocks}
use cryptsetup.Luks2.Reencrypt.Hotzone.Recover.{length-blocks}
use cryptsetup.Luks2.Reencrypt.Hotzone.Step.{IsHash, IsReencrypted, Survives}
use cryptsetup.Storage.{Backend}
use cryptsetup.Wrapper.{Wrapper}
use cryptsetup.Wrapper.RoundTrip.{HasCipher}
use cryptsetup.Luks2.Reencrypt.Hotzone.Stored.{hotzone_protect_final-read}
use cryptsetup.Luks2.Reencrypt.Hotzone.Resume.{length-old, recover_checksum-all}

-- All that stands before the recovery by the kind of protection succeeds.
recover_segment-run :
    (b : Backend) (c : Csum) (cw2 : Wrapper b) (r : Crash b) (segment : ℕ) (area : Area)
    (meta disk : Device)
    → r.segment ≡ some segment
    → r.has_keys ≡ true
    → r.protection ≡ protect_checksum c
    → r.area ≡ ok area
    → r.open_new (r.data_offset + r.offset) ≡ ok cw2
    → 512 ≤ r.len
    → recover_segment b r disk meta ≡ recover_checksum b r c area cw2 disk meta
unfolding recover_segment
recover_segment-run b c cw2 r segment area meta disk is_segment keys by_checksum is_area new_key
      long =
    let allowed : (ltb r.len 512 || not r.has_keys) ≡ false = ground arith in
    let with_all = recover_with b r disk meta in
    ap
      (λ s.
        with_all s (ltb r.len 512 || not r.has_keys) (r.open_new (r.data_offset + r.offset)) r.area
          r.protection)
      is_segment
    ∙ ap
        (λ t. with_all (some segment) t (r.open_new (r.data_offset + r.offset)) r.area r.protection)
        allowed
    ∙ ap (λ w. with_all (some segment) false w r.area r.protection) new_key
    ∙ ap (λ a. with_all (some segment) false (ok cw2) a r.protection) is_area
    ∙ ap (with_all (some segment) false (ok cw2) (ok area)) by_checksum

-- When the checksums were stored and the write of the hot zone is cut short, so that each block on
-- the device is the old one or the new one, which the hash tells apart, then the recovery succeeds,
-- every block of the hot zone is the new one after it, and the rest of the device is as it was. The
-- wrappers work in this process, the hash does not fail, the header's write keeps the area, and the
-- devices can be read and written there.
pub recover_segment-after_crash :
    (b : Backend) (c : Csum) (cw1 cw2 : Wrapper b) (r : Crash b) (segment count : ℕ) (area : Area)
    (plain old new : ℕ → List ℕ) (hdr_write : Device → Device × Result (Unit {0}))
    (meta0 meta disk : Device)
    → IsHash c
    → HasCipher b cw1.kind
    → HasCipher b cw2.kind
    → r.segment ≡ some segment
    → r.has_keys ≡ true
    → r.opens ≡ true
    → r.protection ≡ protect_checksum c
    → r.area ≡ ok area
    → r.open_old (r.data_offset + r.offset) ≡ ok cw1
    → r.open_new (r.data_offset + r.offset) ≡ ok cw2
    → 512 ≤ r.len
    → r.len ≡ count * r.alignment
    → ((k : ℕ) → k < count → IsReencrypted b cw1 cw2 r.alignment k (plain k) (old k) (new k))
    → area.offset + area.len ≤ length meta0.bytes
    → meta0.bad area.offset (count * c.hash_size) ≡ false
    → ((m : Device)
        → read_lseek (hdr_write m).0 (count * c.hash_size) area.offset
          ≡ read_lseek m (count * c.hash_size) area.offset)
    → hotzone_protect_final hdr_write r.protection r.alignment area meta0 (blocks old count 0)
      ≡ (meta, ok tt)
    → ((k : ℕ)
        → k < count
        → Survives c
            (old k)
            (new k)
            (slice (cw2.data_offset + k * r.alignment) r.alignment disk.bytes))
    → disk.bad cw2.data_offset r.len ≡ false
    → cw2.data_offset + r.len ≤ length disk.bytes
    → length disk.bytes < 2 ^ 64
    → r.len ≤ disk.quota
    → ((recover_segment b r disk meta).1 ≡ ok 0)
      × ((recover_segment b r disk meta).0.bytes
          ≡ splice cw2.data_offset (blocks new count 0) disk.bytes)
recover_segment-after_crash b c cw1 cw2 r segment count area plain old new hdr_write meta0 meta disk
      hashes c1 c2 is_segment keys opens by_checksum is_area old_key new_key long parts reencrypted
      meta_fits meta_good keeps stored survives good fits small enough =
    let pos : 0 < r.alignment = positive r.alignment parts in
    let old_size = length-blocks old r.alignment count 0 (λ k h.
      length-old b c cw1 cw2 r count plain old new [] meta disk area c1 reencrypted k
        (omega arith)) in
    let (sums, sums_of, room, read) =
      hotzone_protect_final-read hdr_write c r.alignment count area meta0 meta (blocks old count 0)
        hashes pos old_size meta_fits meta_good keeps
        (ap (λ p. hotzone_protect_final hdr_write p r.alignment area meta0 (blocks old count 0))
            (sym by_checksum)
          ∙ stored) in
    let run =
      recover_segment-run b c cw2 r segment area meta disk is_segment keys by_checksum is_area
        new_key long in
    let (done, bytes) =
      recover_checksum-all b c cw1 cw2 r count plain old new sums meta disk area hashes c1 c2 opens
        old_key pos parts reencrypted sums_of room read survives good fits small enough in
    (
      ap (λ (p : Device × Result ℕ). p.1) run ∙ done,
      ap (λ (p : Device × Result ℕ). p.0.bytes) run ∙ bytes,
    )
  where
    positive : (n : ℕ) → r.len ≡ count * n → 0 < n
    positive zero e = omega arith
    positive (suc n) e = omega arith
