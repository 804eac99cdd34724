-- ===== src/Luks2/Reencrypt/Hotzone/Step.antt =====
-- lib/luks2/luks2_reencrypt.c: one block of the recovery by checksums.
use cryptsetup.Base.{
  ℕ, suc, ◌+◌, ◌-◌, ◌*◌, ◌^◌, ◌≤◌, ◌<◌, ◌≡◌, ◌≢◌, ◌⊎◌, ap, ◌∙◌, arith, List, length, true, false,
  ◌==◌, Option, some, Result, ok, err, einval,
}
use cryptsetup.Base.Strings.{same, same_refl}
use cryptsetup.Luks2.Device.{Device, write_lseek, slice, splice, write_lseek_whole}
use cryptsetup.Luks2.Reencrypt.Hotzone.{
  Csum, recover_blocks, recover_block, recover_plain, after_write,
}
use cryptsetup.Storage.{Backend}
use cryptsetup.Wrapper.{u64, Wrapper, wrapper_decrypt, wrapper_encrypt, wrapper_encrypt_write}
use cryptsetup.Wrapper.RoundTrip.{
  HasCipher, wrapper_decrypt-wrapper_encrypt, wrapper_encrypt_write-eq,
}

-- A hash that does not fail, with results of one size.
pub record IsHash (c : Csum) : Type 0 where
  pub total : (x : List ℕ) → (sum : List ℕ) × (c.hash x ≡ some sum)
  pub size : (x sum : List ℕ) → c.hash x ≡ some sum → length sum ≡ c.hash_size

-- What a crash leaves of a block: it is the old one, or the new one, which the hash tells apart.
abbrev pub Survives : Csum → List ℕ → List ℕ → List ℕ → Type 0
Survives c old new block = (block ≡ old) ⊎ ((block ≡ new) × (c.hash new ≢ c.hash old))

module _ (b : Backend) where
  -- `old` and `new` are the block `s` under the old and the new cipher.
  pub record IsReencrypted (cw1 cw2 : Wrapper b) (alignment s : ℕ) (plain old new : List ℕ)
      : Type 0 where
    pub size : length plain ≡ alignment
    pub under_old : wrapper_encrypt b cw1 (s * alignment) plain ≡ ok old
    pub under_new : wrapper_encrypt b cw2 (s * alignment) plain ≡ ok new

  module _ (c : Csum) (cw1 cw2 : Wrapper b) (alignment : ℕ) (buffer sums : List ℕ) where
    abbrev block_at : ℕ → List ℕ
    block_at s = slice (s * alignment) alignment buffer

    abbrev sum_at : ℕ → List ℕ
    sum_at s = slice (s * c.hash_size) c.hash_size sums

    pub recover_blocks-old :
        (n s : ℕ) (disk disk1 : Device) (plain : List ℕ)
        → c.hash (block_at s) ≡ some (sum_at s)
        → wrapper_decrypt b disk cw1 (s * alignment) (block_at s) ≡ ok plain
        → wrapper_encrypt_write b disk cw2 (s * alignment) plain ≡ (disk1, some alignment)
        → recover_blocks b c cw1 cw2 alignment buffer sums (suc n) s disk
          ≡ recover_blocks b c cw1 cw2 alignment buffer sums n (suc s) disk1
    unfolding recover_blocks
    recover_blocks-old n s disk disk1 plain h d w =
        let whole : (alignment == alignment) ≡ true = ground arith in
        let rest : Device → Device × Result ℕ =
          λ d. recover_blocks b c cw1 cw2 alignment buffer sums n (suc s) d in
        let recovered =
          recover_plain b cw2 alignment (s * alignment) rest disk
            (wrapper_decrypt b disk cw1 (s * alignment) (block_at s)) in
        ap (recover_block b rest recovered disk (sum_at s)) h
        ∙ ap (λ t. elim t [ true ↦ recovered | false ↦ rest disk ]) (same_refl (sum_at s))
        ∙ ap (recover_plain b cw2 alignment (s * alignment) rest disk) d
        ∙ ap (after_write b alignment rest) w
        ∙ ap (λ t. elim t [ true ↦ rest disk1 | false ↦ (disk1, err einval) ]) whole

    pub recover_blocks-new :
        (n s : ℕ) (disk : Device) (sum : List ℕ)
        → c.hash (block_at s) ≡ some sum
        → same sum (sum_at s) ≡ false
        → recover_blocks b c cw1 cw2 alignment buffer sums (suc n) s disk
          ≡ recover_blocks b c cw1 cw2 alignment buffer sums n (suc s) disk
    unfolding recover_blocks
    recover_blocks-new n s disk sum h d =
        let rest : Device → Device × Result ℕ =
          λ d. recover_blocks b c cw1 cw2 alignment buffer sums n (suc s) d in
        let recovered =
          recover_plain b cw2 alignment (s * alignment) rest disk
            (wrapper_decrypt b disk cw1 (s * alignment) (block_at s)) in
        ap (recover_block b rest recovered disk (sum_at s)) h
        ∙ ap (λ t. elim t [ true ↦ recovered | false ↦ rest disk ]) d

    -- The range of the device that the blocks from `s` on are written to.
    abbrev start_at : ℕ → ℕ
    start_at s = cw2.data_offset + s * alignment

    u64-small : (n : ℕ) → n < 2 ^ 64 → u64 n ≡ n
    u64-small n h = omega arith

    -- The write of a block under the new cipher.
    pub recrypt_write :
        (s : ℕ) (disk : Device) (plain old new : List ℕ)
        → HasCipher b cw2.kind
        → IsReencrypted cw1 cw2 alignment s plain old new
        → start_at s + alignment ≤ length disk.bytes
        → length disk.bytes < 2 ^ 64
        → alignment ≤ disk.quota
        → wrapper_encrypt_write b disk cw2 (s * alignment) plain ≡ (
          record disk {
            bytes = splice (start_at s) new disk.bytes;
            quota = disk.quota - alignment;
          },
          some alignment,
        )
    recrypt_write s disk plain old new c2 r fits small enough =
        let (_, long) =
          wrapper_decrypt-wrapper_encrypt b disk cw2 (s * alignment) plain new c2 r.under_new in
        let size : length new ≡ alignment = long ∙ r.size in
        let written : write_lseek disk new (start_at s) ≡ (
          record disk {
            bytes = splice (start_at s) new disk.bytes;
            quota = disk.quota - alignment;
          },
          alignment,
        ) =
          write_lseek_whole disk new (start_at s) (omega arith) (omega arith)
          ∙ ap
              (λ k. (
                record disk { bytes = splice (start_at s) new disk.bytes; quota = disk.quota - k },
                k,
              ))
              size in
        let at : u64 (start_at s) ≡ start_at s = u64-small (start_at s) (omega arith) in
        wrapper_encrypt_write-eq b disk cw2 (s * alignment) plain new c2 r.under_new
        ∙ ap (λ i. to_option (write_lseek disk new i)) at
        ∙ ap to_option written
      where
        to_option : Device × ℕ → Device × Option ℕ
        to_option (d, k) = (d, some k)
