-- ===== src/Luks2/Reencrypt/Hotzone/Recover.antt =====
-- lib/luks2/luks2_reencrypt.c: the recovery of a hot zone by the checksums of its blocks.
use cryptsetup.Base.{
  ℕ, zero, suc, ◌+◌, ◌-◌, ◌*◌, ◌^◌, ◌≤◌, ◌<◌, ◌≡◌, ◌≢◌, inl, inr, refl, sym, ap, ◌∙◌, arith, List,
  [], length, length-append, take-append-drop, Bool-cases, false, some, Result, ok,
}
use cryptsetup.Base.Strings.{same, same-eq}
use cryptsetup.Luks2.Device.{Device, slice, splice, slice-splice_after, length-splice}
use cryptsetup.Luks2.Reencrypt.Hotzone.{Csum, recover_blocks}
use cryptsetup.Luks2.Reencrypt.Hotzone.Blocks.{blocks, splice-splice, splice-slice}
use cryptsetup.Storage.{Backend}
use cryptsetup.Wrapper.{Wrapper, wrapper_decrypt}
use cryptsetup.Wrapper.RoundTrip.{HasCipher, wrapper_decrypt-wrapper_encrypt}
use native.Mathlib.Nat.{mul-le-mul_right}
use cryptsetup.Luks2.Reencrypt.Hotzone.Step.{
  IsHash, IsReencrypted, Survives, recover_blocks-old, recover_blocks-new, recrypt_write,
}

splice_nil : (offset : ℕ) (xs : List ℕ) → splice offset [] xs ≡ xs
unfolding splice
splice_nil offset xs = take-append-drop offset xs

pub length-blocks :
    (f : ℕ → List ℕ) (size n s : ℕ)
    → ((k : ℕ) → k < s + n → length (f k) ≡ size)
    → length (blocks f n s) ≡ n * size
unfolding blocks
length-blocks f size zero s h = omega arith
length-blocks f size (suc n) s h =
    let rest = length-blocks f size n (suc s) (λ k small. h k (omega arith)) in
    omega (arith, length-append (f s) (blocks f n (suc s)), rest, h s (omega arith))

module _ (b : Backend) (c : Csum) (cw1 cw2 : Wrapper b) (alignment count : ℕ) (buffer sums : List ℕ)
    (plain old new : ℕ → List ℕ) (hashes : IsHash c) (c1 : HasCipher b cw1.kind)
    (c2 : HasCipher b cw2.kind)
    (reencrypted : (k : ℕ)
      → k < count
      → IsReencrypted b cw1 cw2 alignment k (plain k) (old k) (new k))
    (survives : (k : ℕ)
      → k < count
      → Survives c (old k) (new k) (slice (k * alignment) alignment buffer))
    (stored : (k : ℕ)
      → k < count
      → c.hash (old k) ≡ some (slice (k * c.hash_size) c.hash_size sums)) where
  abbrev run : ℕ → ℕ → Device → Device × Result ℕ
  run n s disk = recover_blocks b c cw1 cw2 alignment buffer sums n s disk

  abbrev start : ℕ → ℕ
  start s = cw2.data_offset + s * alignment

  length-new : (k : ℕ) → k < count → length (new k) ≡ alignment
  length-new k h =
      let r = reencrypted k h in
      let (_, long) =
        wrapper_decrypt-wrapper_encrypt b (record { bytes = []; quota = 0; bad = λ x y. false }) cw2
          (k * alignment) (plain k) (new k) c2 r.under_new in
      long ∙ r.size

  -- A new block is passed over, since its hash is not the stored one.
  new-differs :
      (s : ℕ) (sum : List ℕ)
      → s < count
      → c.hash (slice (s * alignment) alignment buffer) ≡ some sum
      → slice (s * alignment) alignment buffer ≡ new s
      → c.hash (new s) ≢ c.hash (old s)
      → same sum (slice (s * c.hash_size) c.hash_size sums) ≡ false
  new-differs s sum small h e differs =
      elim (Bool-cases (same sum (slice (s * c.hash_size) c.hash_size sums))) [
        | inr differ ↦ differ
        | inl agrees ↦
            let equal = same-eq sum (slice (s * c.hash_size) c.hash_size sums) agrees in
            absurd (differs (ap c.hash (sym e) ∙ h ∙ ap some equal ∙ sym (stored s small)))
      ]

  old-decrypts :
      (s : ℕ) (disk : Device)
      → s < count
      → slice (s * alignment) alignment buffer ≡ old s
      → wrapper_decrypt b disk cw1 (s * alignment) (slice (s * alignment) alignment buffer)
        ≡ ok (plain s)
  old-decrypts s disk small e =
      let r = reencrypted s small in
      let (decrypted, _) =
        wrapper_decrypt-wrapper_encrypt b disk cw1 (s * alignment) (plain s) (old s) c1
          r.under_old in
      ap (wrapper_decrypt b disk cw1 (s * alignment)) e ∙ decrypted

  -- The blocks from `s` on are on the device as they are in the buffer.
  abbrev AsBuffer : ℕ → Device → Type 0
  AsBuffer s disk =
      (k : ℕ)
      → s ≤ k
      → k < count
      → slice (start k) alignment disk.bytes ≡ slice (k * alignment) alignment buffer

  abbrev Recovers : ℕ → ℕ → Device → Type 0
  Recovers n s disk =
      ((run n s disk).1 ≡ ok 0)
      × ((run n s disk).0.bytes ≡ splice (start s) (blocks new n s) disk.bytes)

  -- The device after the block `s` is written.
  abbrev written_at : ℕ → Device → Device
  written_at s disk = record disk {
    bytes = splice (start s) (new s) disk.bytes;
    quota = disk.quota - alignment;
  }

  after_start : (s k : ℕ) → suc s ≤ k → start s + alignment ≤ start k
  after_start s k h =
      let more : suc s * alignment ≤ k * alignment = mul-le-mul_right alignment h in omega arith

  length-news : (n s : ℕ) → suc s + n ≡ count → length (blocks new n (suc s)) ≡ n * alignment
  length-news n s e = length-blocks new alignment n (suc s) (λ k h. length-new k (omega arith))

  -- The bytes of the other blocks are as in the buffer after this one is written.
  AsBuffer-written_at :
      (s : ℕ) (disk : Device)
      → s < count
      → AsBuffer s disk
      → start s + alignment ≤ length disk.bytes
      → AsBuffer (suc s) (written_at s disk)
  AsBuffer-written_at s disk less same_bytes fits k h small =
      let long = length-new s less in
      let later = after_start s k h in
      slice-splice_after (start k) alignment (start s) (new s) disk.bytes (omega arith)
        (omega arith)
      ∙ same_bytes k (omega arith) small

  -- Writing the blocks one by one is writing them in one piece.
  splice-blocks :
      (n s : ℕ) (disk : Device)
      → suc s + n ≡ count
      → start s + suc n * alignment ≤ length disk.bytes
      → splice (start (suc s)) (blocks new n (suc s)) (splice (start s) (new s) disk.bytes)
        ≡ splice (start s) (blocks new (suc n) s) disk.bytes
  unfolding blocks
  splice-blocks n s disk e fits =
      let long = length-new s (omega arith) in
      let rest = length-news n s e in
      splice-splice (start s) (start (suc s)) (new s) (blocks new n (suc s)) disk.bytes
        (omega arith) (omega arith)

  from_old :
      (n s : ℕ) (disk : Device)
      → suc s + n ≡ count
      → slice (s * alignment) alignment buffer ≡ old s
      → start s + suc n * alignment ≤ length disk.bytes
      → length disk.bytes < 2 ^ 64
      → suc n * alignment ≤ disk.quota
      → Recovers n (suc s) (written_at s disk)
      → Recovers (suc n) s disk
  from_old n s disk e is_old fits small enough (done, bytes) =
      let less : s < count = omega arith in
      let step =
        recover_blocks-old b c cw1 cw2 alignment buffer sums n s disk (written_at s disk) (plain s)
          (ap c.hash is_old ∙ stored s less) (old-decrypts s disk less is_old)
          (recrypt_write b c cw1 cw2 alignment buffer sums s disk (plain s) (old s) (new s) c2
            (reencrypted s less) (omega arith) small (omega arith)) in
      (
        ap (λ (p : Device × Result ℕ). p.1) step ∙ done,
        ap (λ (p : Device × Result ℕ). p.0.bytes) step ∙ bytes ∙ splice-blocks n s disk e fits,
      )

  from_new :
      (n s : ℕ) (disk : Device)
      → suc s + n ≡ count
      → AsBuffer s disk
      → slice (s * alignment) alignment buffer ≡ new s
      → c.hash (new s) ≢ c.hash (old s)
      → start s + suc n * alignment ≤ length disk.bytes
      → Recovers n (suc s) disk
      → Recovers (suc n) s disk
  from_new n s disk e same_bytes is_new differs fits (done, bytes) =
      let less : s < count = omega arith in
      let (sum, hash) = hashes.total (slice (s * alignment) alignment buffer) in
      let step =
        recover_blocks-new b c cw1 cw2 alignment buffer sums n s disk sum hash
          (new-differs s sum less hash is_new differs) in
      let kept : splice (start s) (new s) disk.bytes ≡ disk.bytes =
        ap (λ t. splice (start s) t disk.bytes) (sym (same_bytes s (omega arith) less ∙ is_new))
        ∙ splice-slice (start s) alignment disk.bytes (omega arith) in
      (
        ap (λ (p : Device × Result ℕ). p.1) step ∙ done,
        ap (λ (p : Device × Result ℕ). p.0.bytes) step
            ∙ bytes
            ∙ ap (splice (start (suc s)) (blocks new n (suc s))) (sym kept)
            ∙ splice-blocks n s disk e fits,
      )

  -- The loop makes every block the new one and changes nothing else.
  pub recover_blocks-all :
      (n s : ℕ) (disk : Device)
      → s + n ≡ count
      → AsBuffer s disk
      → start s + n * alignment ≤ length disk.bytes
      → length disk.bytes < 2 ^ 64
      → n * alignment ≤ disk.quota
      → Recovers n s disk
  unfolding blocks recover_blocks
  recover_blocks-all zero s disk e same_bytes fits small enough =
      (refl, sym (splice_nil (start s) disk.bytes))
  recover_blocks-all (suc n) s disk e same_bytes fits small enough =
      let next : suc s + n ≡ count = omega arith in
      let less : s < count = omega arith in
      elim (survives s less) [
        | inl is_old ↦
            let long = length-new s less in
            let kept = length-splice (start s) (new s) disk.bytes (omega arith) in
            from_old n s disk next is_old fits small enough (
              recover_blocks-all n (suc s) (written_at s disk) next
                (AsBuffer-written_at s disk less same_bytes (omega arith)) (omega arith)
                (omega arith) (omega arith))
        | inr (is_new, differs) ↦ from_new n s disk next same_bytes is_new differs fits (
            recover_blocks-all n (suc s) disk next (λ k h. same_bytes k (omega arith)) (omega arith)
              small (omega arith))
      ]
