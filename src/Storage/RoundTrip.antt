-- ===== src/Storage/RoundTrip.antt =====
-- lib/crypto_backend/crypto_storage.c: decryption undoes encryption.
use cryptsetup.Base.{ℕ, zero, suc, ◌+◌, ◌*◌, ◌/◌, ◌≤◌, ◌≡◌, refl, sym, ap, ◌∙◌, arith, List, ◌++◌}
use cryptsetup.Base.{length, take, drop, ok, Result, Result-cases, take-append, drop-append}
use cryptsetup.Base.{length-take, length-drop, take-append-drop, inl, inr, Bool-cases}
use cryptsetup.Base.{◌>>=◌, >>=-eq-ok}
use cryptsetup.Storage.{Backend, IsCipher, Storage, iv_at, crypt_sectors, misaligned}
use cryptsetup.Storage.{storage_decrypt, storage_encrypt}
use native.Mathlib.Nat.{div-add-mod}

module _ (b : Backend) (ctx : Storage b) (c : IsCipher b ctx.cipher) where
  open ctx use {sector_size}

  pub crypt_sectors-ok :
      (crypt : List ℕ → List ℕ → Result (List ℕ)) (off n i : ℕ) (buf block iv : List ℕ)
      → iv_at b ctx off i ≡ ok iv
      → crypt (take sector_size buf) iv ≡ ok block
      → crypt_sectors b crypt ctx off (suc n) i buf ≡ (
        block ++ (crypt_sectors b crypt ctx off n (i + sector_size) (drop sector_size buf)).0,
        (crypt_sectors b crypt ctx off n (i + sector_size) (drop sector_size buf)).1,
      )
  unfolding crypt_sectors
  crypt_sectors-ok crypt off n i buf block iv e f = ground arith

  -- A run without error has no error in its first sector.
  pub step_ok :
      (crypt : List ℕ → List ℕ → Result (List ℕ)) (off n i : ℕ) (buf : List ℕ)
      → (crypt_sectors b crypt ctx off (suc n) i buf).1 ≡ ok tt
      → (block : List ℕ) × ((iv_at b ctx off i >>= crypt (take sector_size buf)) ≡ ok block)
  unfolding crypt_sectors
  step_ok crypt off n i buf e =
      elim (Result-cases (iv_at b ctx off i >>= crypt (take sector_size buf))) [
        | inl found ↦ found
        | inr (x, f) ↦ absurd (ground arith)
      ]

  decrypt-encrypt_sectors :
      (off n i : ℕ) (buf : List ℕ)
      → n * sector_size ≤ length buf
      → (crypt_sectors b (b.encrypt ctx.cipher) ctx off n i buf).1 ≡ ok tt
      → crypt_sectors b
          (b.decrypt ctx.cipher)
          ctx
          off
          n
          i
          (crypt_sectors b (b.encrypt ctx.cipher) ctx off n i buf).0
        ≡ (buf, ok tt)
  decrypt-encrypt_sectors off zero i buf h e = unfold crypt_sectors in refl
  decrypt-encrypt_sectors off (suc n) i buf h e =
      let (block, hb) = step_ok (b.encrypt ctx.cipher) off n i buf e in
      let (iv, hiv, henc) = >>=-eq-ok (iv_at b ctx off i) hb in
      let front : List ℕ = take sector_size buf in
      let room : sector_size + n * sector_size ≤ length buf = omega arith in
      let size : length block ≡ sector_size =
        c.size front iv block henc ∙ omega (arith, length-take sector_size buf, room) in
      let whole = crypt_sectors-ok (b.encrypt ctx.cipher) off n i buf block iv hiv henc in
      let rest =
        (crypt_sectors b (b.encrypt ctx.cipher) ctx off n (i + sector_size)
          (drop sector_size buf)) in
      let ih =
        decrypt-encrypt_sectors off n (i + sector_size) (drop sector_size buf)
          (omega (arith, length-drop sector_size buf, room)) (ap (λ p. p.1) (sym whole) ∙ e) in
      let back : b.decrypt ctx.cipher (take sector_size (block ++ rest.0)) iv ≡ ok front =
        ap (λ t. b.decrypt ctx.cipher t iv) (take-append sector_size block rest.0 size)
        ∙ c.inverse front iv block henc in
      let undo =
        crypt_sectors-ok (b.decrypt ctx.cipher) off n i (block ++ rest.0) front iv hiv back in
      ap (λ p. crypt_sectors b (b.decrypt ctx.cipher) ctx off (suc n) i p.0) whole
      ∙ undo
      ∙ ap
          (λ t. (
            front ++ (crypt_sectors b (b.decrypt ctx.cipher) ctx off n (i + sector_size) t).0,
            (crypt_sectors b (b.decrypt ctx.cipher) ctx off n (i + sector_size) t).1,
          ))
          (drop-append sector_size block rest.0 size)
      ∙ ap (λ p. (front ++ p.0, p.1)) ih
      ∙ ap (λ t. (t, ok tt)) (take-append-drop sector_size buf)

  -- If `crypt_storage_encrypt` of a buffer that holds `len` bytes succeeds, `crypt_storage_decrypt`
  -- of its result with the same offset and length succeeds and gives the buffer back, the bytes
  -- behind `len` included. The cipher is any that decrypts what it encrypts.
  pub storage_decrypt-storage_encrypt :
      (off len : ℕ) (buf : List ℕ)
      → len ≤ length buf
      → (storage_encrypt b ctx off len buf).1 ≡ ok tt
      → storage_decrypt b ctx off len (storage_encrypt b ctx off len buf).0 ≡ (buf, ok tt)
  unfolding storage_decrypt storage_encrypt
  storage_decrypt-storage_encrypt off len buf h e = elim (Bool-cases (misaligned b ctx off len)) [
    | inl bad ↦ absurd (cc (rw bad at e))
    | inr good ↦ rw good (
        decrypt-encrypt_sectors off (len / sector_size) 0 buf
          (omega (arith, div-add-mod len sector_size)) (rw good at e))
  ]
