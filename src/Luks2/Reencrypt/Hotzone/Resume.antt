-- ===== src/Luks2/Reencrypt/Hotzone/Resume.antt =====
-- lib/luks2/luks2_reencrypt.c: the recovery by checksums, with all that comes before its loop.
use cryptsetup.Base.{
  ℕ, suc, ◌+◌, ◌*◌, ◌/◌, ◌^◌, ◌≤◌, ◌<◌, ◌≡◌, sym, ap, ◌∙◌, arith, List, length, Bool, true, false,
  ltb, Option, some, Result, ok,
}
use mathlib.Core.Path.{subst}
use cryptsetup.Luks2.Areas.{Area}
use cryptsetup.Luks2.Device.{Device, read_lseek, read_lseek_good, slice, splice}
use cryptsetup.Luks2.Reencrypt.Hotzone.{
  Csum, Crash, checksums, before_blocks, recover_blocks, recover_checksum,
}
use cryptsetup.Luks2.Reencrypt.Hotzone.Blocks.{blocks, checksums-slice}
use cryptsetup.Luks2.Reencrypt.Hotzone.Recover.{recover_blocks-all}
use cryptsetup.Luks2.Reencrypt.Hotzone.Step.{IsHash, IsReencrypted, Survives}
use cryptsetup.Storage.{Backend}
use cryptsetup.Wrapper.{u64, Wrapper, wrapper_read}
use cryptsetup.Wrapper.RoundTrip.{HasCipher, wrapper_decrypt-wrapper_encrypt}
use native.Mathlib.Nat.{mul-le-mul_right, div-eq_of_eq-mul_left}
use cryptsetup.Luks2.Reencrypt.Hotzone.Stored.{slice-slice, slice-blocks}

module _ (b : Backend) (c : Csum) (cw1 cw2 : Wrapper b) (r : Crash b) (count : ℕ)
    (plain old new : ℕ → List ℕ) (sums : List ℕ) (meta disk : Device) (area : Area) where
  -- Every step before the loop succeeds.
  checksum-run :
      {buffer : List ℕ}
      → r.len / r.alignment ≡ count
      → r.open_old (r.data_offset + r.offset) ≡ ok cw1
      → r.opens ≡ true
      → count * c.hash_size ≤ area.len
      → read_lseek meta (count * c.hash_size) area.offset ≡ some sums
      → wrapper_read b disk cw2 0 r.len ≡ some buffer
      → recover_checksum b r c area cw2 disk meta
        ≡ recover_blocks b c cw1 cw2 r.alignment buffer sums count 0 disk
  unfolding recover_checksum
  checksum-run {buffer} blocks_left old_key opens room read whole =
      let short : ltb area.len (count * c.hash_size) ≡ false = ground arith in
      let loop : ℕ → Wrapper b → List ℕ → List ℕ → Device × Result ℕ =
        λ n w s t. recover_blocks b c w cw2 r.alignment t s n 0 disk in
      let parts : ℕ
          → Result (Wrapper b)
          → Bool
          → Option (List ℕ)
          → Option (List ℕ)
          → Device × Result ℕ =
        λ n o t s w. before_blocks b disk (loop n) o (ltb area.len (n * c.hash_size)) t s w in
      ap
        (λ n.
          parts n (r.open_old (r.data_offset + r.offset)) (r.opens)
            (read_lseek meta (n * c.hash_size) area.offset) (wrapper_read b disk cw2 0 r.len))
        blocks_left
      ∙ ap
          (λ o.
            parts count o (r.opens) (read_lseek meta (count * c.hash_size) area.offset)
              (wrapper_read b disk cw2 0 r.len))
          old_key
      ∙ ap
          (λ t.
            parts count (ok cw1) t (read_lseek meta (count * c.hash_size) area.offset)
              (wrapper_read b disk cw2 0 r.len))
          opens
      ∙ ap (λ s. parts count (ok cw1) true s (wrapper_read b disk cw2 0 r.len)) read
      ∙ ap (parts count (ok cw1) true (some sums)) whole
      ∙ ap (λ t. before_blocks b disk (loop count) (ok cw1) t true (some sums) (some buffer)) short

  -- What the loop relies on, for the buffer that is read.
  in_buffer :
      IsHash c
      → r.len ≡ count * r.alignment
      → ((k : ℕ) → k < count → IsReencrypted b cw1 cw2 r.alignment k (plain k) (old k) (new k))
      → ((k : ℕ) → k < count → length (old k) ≡ r.alignment)
      → checksums c r.alignment count (blocks old count 0) ≡ some sums
      → ((k : ℕ)
          → k < count
          → Survives c
              (old k)
              (new k)
              (slice (cw2.data_offset + k * r.alignment) r.alignment disk.bytes))
      → ((k : ℕ)
          → k < count
          → slice (cw2.data_offset + k * r.alignment) r.alignment disk.bytes
            ≡ slice (k * r.alignment) r.alignment (slice cw2.data_offset r.len disk.bytes))
        × ((k : ℕ)
            → k < count
            → Survives c
                (old k)
                (new k)
                (slice (k * r.alignment) r.alignment (slice cw2.data_offset r.len disk.bytes)))
        × ((k : ℕ) → k < count → c.hash (old k) ≡ some (slice (k * c.hash_size) c.hash_size sums))
  in_buffer hashes long reencrypted old_size e survives = (
    part,
    λ k h. subst (Survives c (old k) (new k)) (part k h) (survives k h),
    λ k h.
        ap c.hash (
          sym (
            slice-blocks old r.alignment count 0 k k (λ i less. old_size i (omega arith)) h
              (omega arith)))
        ∙ checksums-slice c r.alignment count (blocks old count 0) sums k hashes.size e h,
  )
    where
      part :
          (k : ℕ)
          → k < count
          → slice (cw2.data_offset + k * r.alignment) r.alignment disk.bytes
            ≡ slice (k * r.alignment) r.alignment (slice cw2.data_offset r.len disk.bytes)
      part k h =
          let more : suc k * r.alignment ≤ count * r.alignment = mul-le-mul_right r.alignment h in
          sym (
            slice-slice (k * r.alignment) r.alignment cw2.data_offset r.len disk.bytes
              (omega arith))

  pub length-old :
      HasCipher b cw1.kind
      → ((k : ℕ) → k < count → IsReencrypted b cw1 cw2 r.alignment k (plain k) (old k) (new k))
      → (k : ℕ) → k < count
      → length (old k) ≡ r.alignment
  length-old c1 reencrypted k h =
      let (_, size) =
        wrapper_decrypt-wrapper_encrypt b disk cw1 (k * r.alignment) (plain k) (old k) c1
          (reencrypted k h).under_old in
      size ∙ (reencrypted k h).size

  pub recover_checksum-all :
      IsHash c
      → HasCipher b cw1.kind
      → HasCipher b cw2.kind
      → r.opens ≡ true
      → r.open_old (r.data_offset + r.offset) ≡ ok cw1
      → 0 < r.alignment
      → r.len ≡ count * r.alignment
      → ((k : ℕ) → k < count → IsReencrypted b cw1 cw2 r.alignment k (plain k) (old k) (new k))
      → checksums c r.alignment count (blocks old count 0) ≡ some sums
      → count * c.hash_size ≤ area.len
      → read_lseek meta (count * c.hash_size) area.offset ≡ some sums
      → ((k : ℕ)
          → k < count
          → Survives c
              (old k)
              (new k)
              (slice (cw2.data_offset + k * r.alignment) r.alignment disk.bytes))
      → disk.bad cw2.data_offset r.len ≡ false
      → cw2.data_offset + r.len ≤ length disk.bytes
      → length disk.bytes < 2 ^ 64
      → r.len ≤ disk.quota
      → ((recover_checksum b r c area cw2 disk meta).1 ≡ ok 0)
        × ((recover_checksum b r c area cw2 disk meta).0.bytes
            ≡ splice cw2.data_offset (blocks new count 0) disk.bytes)
  unfolding recover_checksum
  recover_checksum-all hashes c1 c2 opens old_key pos long reencrypted e room read survives good
        fits small enough =
      let alignment : ℕ = r.alignment in
      let buffer : List ℕ = slice cw2.data_offset r.len disk.bytes in
      let blocks_left : r.len / alignment ≡ count = div-eq_of_eq-mul_left pos long in
      let at : u64 (cw2.data_offset + 0) ≡ cw2.data_offset = omega arith in
      let whole : wrapper_read b disk cw2 0 r.len ≡ some buffer =
        ap (read_lseek disk r.len) at
        ∙ read_lseek_good disk r.len cw2.data_offset good (omega arith) in
      let (same_bytes, survives_in, stored) =
        in_buffer hashes long reencrypted (length-old c1 reencrypted) e survives in
      let (done, bytes) =
        recover_blocks-all b c cw1 cw2 alignment count buffer sums plain old new hashes c1 c2
          reencrypted survives_in stored count 0 disk (omega arith) (λ k _ h. same_bytes k h)
          (omega arith) small (omega arith) in
      let run : recover_checksum b r c area cw2 disk meta
          ≡ recover_blocks b c cw1 cw2 alignment buffer sums count 0 disk =
        checksum-run blocks_left old_key opens room read whole in
      let start : cw2.data_offset + 0 * alignment ≡ cw2.data_offset = omega arith in
      (
        ap (λ (p : Device × Result ℕ). p.1) run ∙ done,
        ap (λ (p : Device × Result ℕ). p.0.bytes) run
            ∙ bytes
            ∙ ap (λ i. splice i (blocks new count 0) disk.bytes) start,
      )
