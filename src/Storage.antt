-- ===== src/Storage.antt =====
-- lib/crypto_backend/crypto_storage.c: encryption of storage by sectors, with dm-crypt's IVs.
pub mod RoundTrip
pub mod Iv
pub mod Init
mod Tests
pub mod Toy
use cryptsetup.Base.{ℕ, zero, suc, ◌+◌, ◌-◌, ◌*◌, ◌/◌, ◌%◌, ◌^◌, List, [], ◌++◌, length, take, drop}
use cryptsetup.Base.{replicate, Bool, true, false, not, ◌&&◌, ◌||◌, ◌==◌, ltb, if◌then◌else◌}
use cryptsetup.Base.{Result, ok, err, einval, enoent, ◌>>=◌, Option, none, some, ◌≡◌}
use cryptsetup.Base.Endian.{cpu_to_le, cpu_to_be}

-- The ciphers and hashes of the crypto backend. A key schedule is a `Handle`; `ivsize` is `none`
-- for a negative result, and `hash_key` is the digest of a key by a named hash.
pub record Backend : Type 1 where
  pub Handle : Type 0
  pub ivsize : List ℕ → List ℕ → Option ℕ
  pub cipher_init : List ℕ → List ℕ → List ℕ → Result Handle
  pub encrypt : Handle → List ℕ → List ℕ → Result (List ℕ)
  pub decrypt : Handle → List ℕ → List ℕ → Result (List ℕ)
  pub hash_key : List ℕ → List ℕ → Result (List ℕ)

-- What is documented of a cipher: a block that is encrypted is decrypted with the same IV to the
-- same bytes, and has its size.
pub record IsCipher (b : Backend) (h : b.Handle) : Type 0 where
  pub inverse : (x iv y : List ℕ) → b.encrypt h x iv ≡ ok y → b.decrypt h y iv ≡ ok x
  pub size : (x iv y : List ℕ) → b.encrypt h x iv ≡ ok y → length y ≡ length x

pub data IvType : Type 0 where
  iv_none iv_null iv_plain iv_plain64 iv_essiv iv_benbi iv_plain64be iv_eboiv : IvType

module _ (b : Backend) where
  -- `struct crypt_sector_iv`. The buffer `iv` is filled anew for each sector, so it is a result.
  pub record SectorIv : Type 0 where
    pub type : IvType
    pub iv_size : ℕ
    pub cipher : Option b.Handle
    pub shift : ℕ

  -- `struct crypt_storage`
  pub record Storage : Type 0 where
    pub sector_size : ℕ
    pub iv_shift : ℕ
    pub cipher : b.Handle
    pub cipher_iv : SectorIv

  -- The encryption of an IV by the cipher of the context.
  abbrev encrypt_iv : Option b.Handle → List ℕ → Result (List ℕ)
  encrypt_iv none iv = err einval
  encrypt_iv (some h) iv = b.encrypt h iv []

  -- The switch of `crypt_sector_iv_generate`.
  unfoldable pub iv_of : SectorIv → ℕ → IvType → Result (List ℕ)
  unfolding cpu_to_le cpu_to_be
  iv_of ctx sector iv_none = ok []
  iv_of ctx sector iv_null = ok (replicate ctx.iv_size 0)
  iv_of ctx sector iv_plain = ok (cpu_to_le 4 (sector % 2 ^ 32) ++ replicate (ctx.iv_size - 4) 0)
  iv_of ctx sector iv_plain64 = ok (cpu_to_le 8 sector ++ replicate (ctx.iv_size - 8) 0)
  iv_of ctx sector iv_essiv =
      encrypt_iv ctx.cipher (cpu_to_le 8 sector ++ replicate (ctx.iv_size - 8) 0)
  iv_of ctx sector iv_benbi =
      ok (replicate (ctx.iv_size - 8) 0 ++ cpu_to_be 8 ((sector * 2 ^ ctx.shift + 1) % 2 ^ 64))
  iv_of ctx sector iv_plain64be = ok (replicate (ctx.iv_size - 8) 0 ++ cpu_to_be 8 sector)
  iv_of ctx sector iv_eboiv =
      encrypt_iv ctx.cipher
        (cpu_to_le 8 (sector * 2 ^ ctx.shift % 2 ^ 64) ++ replicate (ctx.iv_size - 8) 0)

  unfoldable pub sector_iv_generate : SectorIv → ℕ → Result (List ℕ)
  unfolding iv_of
  sector_iv_generate ctx sector = iv_of ctx sector ctx.type

  -- The IV of the sector at byte `i` of the buffer.
  abbrev pub iv_at : Storage → ℕ → ℕ → Result (List ℕ)
  iv_at ctx iv_offset i =
      sector_iv_generate ctx.cipher_iv ((iv_offset + i / 512) % 2 ^ 64 / 2 ^ ctx.iv_shift)

  -- The loop of both directions: `crypt` is the cipher's operation, `n` sectors are left, and the
  -- buffer starts at byte `i`. An error leaves the sectors from there on as they were.
  unfoldable pub crypt_sectors :
      (List ℕ → List ℕ → Result (List ℕ))
      → Storage
      → ℕ
      → ℕ
      → ℕ
      → List ℕ
      → List ℕ × Result (Unit {0})
  crypt_sectors crypt ctx iv_offset zero i buffer = (buffer, ok tt)
  crypt_sectors crypt ctx iv_offset (suc n) i buffer =
      elim (iv_at ctx iv_offset i >>= crypt (take ctx.sector_size buffer)) [
        | err e ↦ (buffer, err e)
        | ok block ↦
            let (rest, r) =
              crypt_sectors crypt ctx iv_offset n (i + ctx.sector_size)
                (drop ctx.sector_size buffer) in
            (block ++ rest, r)
      ]

  -- The checks of both directions: `x & (y - 1)` is the remainder, as `y` is a power of two.
  abbrev pub misaligned : Storage → ℕ → ℕ → Bool
  misaligned ctx iv_offset len =
      not (len % ctx.sector_size == 0) || not (iv_offset % (ctx.sector_size / 512) == 0)

  unfoldable pub storage_decrypt : Storage → ℕ → ℕ → List ℕ → List ℕ × Result (Unit {0})
  unfolding crypt_sectors
  storage_decrypt ctx iv_offset len buffer =
      if misaligned ctx iv_offset len
      then (buffer, err einval)
      else crypt_sectors (b.decrypt ctx.cipher) ctx iv_offset (len / ctx.sector_size) 0 buffer

  unfoldable pub storage_encrypt : Storage → ℕ → ℕ → List ℕ → List ℕ × Result (Unit {0})
  unfolding crypt_sectors
  storage_encrypt ctx iv_offset len buffer =
      if misaligned ctx iv_offset len
      then (buffer, err einval)
      else crypt_sectors (b.encrypt ctx.cipher) ctx iv_offset (len / ctx.sector_size) 0 buffer
