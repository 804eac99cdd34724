-- ===== src/Wrapper/RoundTrip.antt =====
-- lib/utils_storage_wrappers.c: what is written through a cipher is read back.
use cryptsetup.Base.{
  ℕ, zero, suc, ◌+◌, ◌*◌, ◌/◌, ◌≤◌, ◌≡◌, refl, sym, ap, ◌∙◌, arith, List, length, take, drop,
  length-take, length-drop, length-append, Bool-cases, false, inl, inr, Option, none, some, Result,
  ok, err, einval, >>=-eq-ok, ok-injective,
}
use cryptsetup.Luks2.Device.{
  Device, read_lseek, write_lseek, slice, splice, slice-splice, length-splice, read_lseek_good,
  write_lseek-splice,
}
use cryptsetup.Storage.{
  Backend, IsCipher, Storage, iv_at, crypt_sectors, misaligned, storage_decrypt, storage_encrypt,
}
use cryptsetup.Storage.RoundTrip.{crypt_sectors-ok, step_ok, storage_decrypt-storage_encrypt}
use cryptsetup.Wrapper.{
  u64, Kind, Wrapper, no_cipher, uspace, dmcrypt, iv_sector, whole, wrapper_read, wrapper_write,
  encrypt_as, decrypt_as, decrypt_read, read_raw, encrypt_write_as, wrapper_read_decrypt,
  wrapper_encrypt, wrapper_encrypt_write, wrapper_decrypt,
}
use native.Mathlib.Nat.{div-add-mod}

module _ (b : Backend) where
  -- A wrapper that works in this process, with a cipher that decrypts what it encrypts.
  abbrev pub HasCipher : Kind b → Type 0
  HasCipher no_cipher = Unit
  HasCipher (uspace s iv_start) = IsCipher b s.cipher
  HasCipher (dmcrypt dm) = ⊥

  length-crypt_sectors :
      (ctx : Storage b) (off n i : ℕ) (buf : List ℕ)
      → IsCipher b ctx.cipher
      → n * ctx.sector_size ≤ length buf
      → (crypt_sectors b (b.encrypt ctx.cipher) ctx off n i buf).1 ≡ ok tt
      → length (crypt_sectors b (b.encrypt ctx.cipher) ctx off n i buf).0 ≡ length buf
  length-crypt_sectors ctx off zero i buf c h e = unfold crypt_sectors in refl
  length-crypt_sectors ctx off (suc n) i buf c h e =
      let size : ℕ = ctx.sector_size in
      let (block, hb) = step_ok b ctx c (b.encrypt ctx.cipher) off n i buf e in
      let (iv, hiv, henc) = >>=-eq-ok (iv_at b ctx off i) hb in
      let room : size + n * size ≤ length buf = omega arith in
      let block_size : length block ≡ size =
        c.size (take size buf) iv block henc ∙ omega (arith, length-take size buf, room) in
      let run = crypt_sectors-ok b ctx c (b.encrypt ctx.cipher) off n i buf block iv hiv henc in
      let rest = crypt_sectors b (b.encrypt ctx.cipher) ctx off n (i + size) (drop size buf) in
      let ih =
        length-crypt_sectors ctx off n (i + size) (drop size buf) c
          (omega (arith, length-drop size buf, room)) (ap (λ p. p.1) (sym run) ∙ e) in
      ap (λ p. length p.0) run
      ∙ omega (arith, length-append block rest.0, ih, length-drop size buf, block_size, room)

  -- Encryption that succeeds keeps the size of the buffer.
  pub length-storage_encrypt :
      (ctx : Storage b) (off : ℕ) (buf : List ℕ)
      → IsCipher b ctx.cipher
      → (storage_encrypt b ctx off (length buf) buf).1 ≡ ok tt
      → length (storage_encrypt b ctx off (length buf) buf).0 ≡ length buf
  unfolding storage_encrypt
  length-storage_encrypt ctx off buf c e = elim (Bool-cases (misaligned b ctx off (length buf))) [
    | inl bad ↦ rw bad refl
    | inr good ↦ rw good (
        length-crypt_sectors ctx off (length buf / ctx.sector_size) 0 buf c
          (omega (arith, div-add-mod (length buf) ctx.sector_size)) (rw good at e))
  ]

  whole-ok :
      (r : List ℕ × Result (Unit {0})) (x : List ℕ) → whole b r ≡ ok x → (r.1 ≡ ok tt) × (r.0 ≡ x)
  whole-ok (buffer, ok tt) x e = (refl, ok-injective e)
  whole-ok (buffer, err c) x e = cc

  -- The union's member decides both directions.
  decrypt-encrypt_as :
      (dev : Device) (k : Kind b) (offset : ℕ) (plain x : List ℕ)
      → HasCipher k
      → encrypt_as b k offset plain ≡ ok x
      → (decrypt_as b dev k offset x ≡ ok plain) × (length x ≡ length plain)
  decrypt-encrypt_as dev no_cipher offset plain x c e =
      let same : plain ≡ x = ok-injective e in (ap ok (sym same), ap length (sym same))
  decrypt-encrypt_as dev (dmcrypt dm) offset plain x c e = elim c [ ]
  decrypt-encrypt_as dev (uspace s iv_start) offset plain x c e =
      let at : ℕ = iv_sector iv_start offset in
      let run = storage_encrypt b s at (length plain) plain in
      let (done, same) = whole-ok run x (not_refused (whole b run) x e) in
      let size : length x ≡ length plain =
        ap length (sym same) ∙ length-storage_encrypt s at plain c done in
      (
        ap (λ n. whole b (storage_decrypt b s at n x)) size
            ∙ ap (λ t. whole b (storage_decrypt b s at (length plain) t)) (sym same)
            ∙ ap (whole b)
                (storage_decrypt-storage_encrypt b s c at (length plain) plain (omega arith) done),
        size,
      )
    where
      not_refused :
          (r : Result (List ℕ)) (x : List ℕ)
          → elim r [ ok y ↦ ok y | err _ ↦ err einval ] ≡ ok x
          → r ≡ ok x
      not_refused (ok y) x e = e
      not_refused (err _) x e = absurd cc

  -- What encryption gives is decrypted to the same buffer, at the same offset.
  pub wrapper_decrypt-wrapper_encrypt :
      (dev : Device) (cw : Wrapper b) (offset : ℕ) (plain x : List ℕ)
      → HasCipher cw.kind
      → wrapper_encrypt b cw offset plain ≡ ok x
      → (wrapper_decrypt b dev cw offset x ≡ ok plain) × (length x ≡ length plain)
  unfolding wrapper_decrypt wrapper_encrypt
  wrapper_decrypt-wrapper_encrypt dev cw offset plain x c e =
      decrypt-encrypt_as dev cw.kind offset plain x c e

  -- Encrypting and writing is encrypting, and then writing what that gives.
  pub wrapper_encrypt_write-eq :
      (dev : Device) (cw : Wrapper b) (offset : ℕ) (plain x : List ℕ)
      → HasCipher cw.kind
      → wrapper_encrypt b cw offset plain ≡ ok x
      → wrapper_encrypt_write b dev cw offset plain ≡ wrapper_write b dev cw offset x
  unfolding wrapper_encrypt_write wrapper_encrypt
  wrapper_encrypt_write-eq dev cw offset plain x c e = by_kind cw.kind c e
    where
      written :
          (r : Result (List ℕ))
          → elim r [ ok y ↦ ok y | err _ ↦ err einval ] ≡ ok x
          → elim r [ ok y ↦ wrapper_write b dev cw offset y | err _ ↦ (dev, none) ]
            ≡ wrapper_write b dev cw offset x
      written (ok y) e = ap (wrapper_write b dev cw offset) (ok-injective e)
      written (err c) e = absurd cc

      by_kind :
          (k : Kind b)
          → HasCipher k
          → encrypt_as b k offset plain ≡ ok x
          → encrypt_write_as b dev cw k offset plain ≡ wrapper_write b dev cw offset x
      by_kind no_cipher c e = ap (wrapper_write b dev cw offset) (ok-injective e)
      by_kind (dmcrypt dm) c e = elim c [ ]
      by_kind (uspace s iv_start) c e =
          written (whole b (storage_encrypt b s (iv_sector iv_start offset) (length plain) plain)) e

  -- A write through a cipher that succeeds has encrypted the buffer.
  encrypt_write-encrypt :
      (dev dev1 : Device) (cw : Wrapper b) (offset n : ℕ) (plain : List ℕ) (k : Kind b)
      → HasCipher k
      → encrypt_write_as b dev cw k offset plain ≡ (dev1, some n)
      → (x : List ℕ) × (encrypt_as b k offset plain ≡ ok x)
        × (write_lseek dev x (u64 (cw.data_offset + offset)) ≡ (dev1, n))
  encrypt_write-encrypt dev dev1 cw offset n plain no_cipher c e = (plain, refl, written e)
    where
      written :
          {r : Device × ℕ}
          → ◌≡◌ {A = Device × Option ℕ} (r.0, some r.1) (dev1, some n)
          → r ≡ (dev1, n)
      written e = cc
  encrypt_write-encrypt dev dev1 cw offset n plain (dmcrypt dm) c e = elim c [ ]
  encrypt_write-encrypt dev dev1 cw offset n plain (uspace s iv_start) c e =
      by_result (whole b (storage_encrypt b s (iv_sector iv_start offset) (length plain) plain)) e
    where
      written :
          {r : Device × ℕ}
          → ◌≡◌ {A = Device × Option ℕ} (r.0, some r.1) (dev1, some n)
          → r ≡ (dev1, n)
      written e = cc

      by_result :
          (r : Result (List ℕ))
          → ◌≡◌ {A = Device × Option ℕ}
              (elim r [ ok y ↦ wrapper_write b dev cw offset y | err _ ↦ (dev, none) ])
              (dev1, some n)
          → (x : List ℕ) × (elim r [ ok y ↦ ok y | err _ ↦ err einval ] ≡ ok x)
            × (write_lseek dev x (u64 (cw.data_offset + offset)) ≡ (dev1, n))
      by_result (ok y) e = (y, refl, written e)
      by_result (err _) e = cc

  -- Reading through a cipher is reading, and then decrypting what was read.
  read_decrypt-decrypt :
      (dev : Device) (cw : Wrapper b) (k : Kind b) (offset len : ℕ) (x plain : List ℕ)
      → HasCipher k
      → wrapper_read b dev cw offset len ≡ some x
      → decrypt_as b dev k offset x ≡ ok plain
      → decrypt_read b k offset (read_raw b dev cw k offset len) ≡ some plain
  read_decrypt-decrypt dev cw no_cipher offset len x plain c e f =
      ap (decrypt_read b no_cipher offset) e ∙ ap some (ok-injective f)
  read_decrypt-decrypt dev cw (dmcrypt dm) offset len x plain c e f = elim c [ ]
  read_decrypt-decrypt dev cw (uspace s iv_start) offset len x plain c e f =
      ap (decrypt_read b (uspace s iv_start) offset) e
      ∙ ap (λ (r : Result (List ℕ)). elim r [ ok p ↦ some p | err _ ↦ none ]) f

-- What is written through a wrapper without error and in whole is read back and decrypted by it,
-- from a range that lies inside of the device and can be read. The wrapper works in this process.
pub wrapper_read_decrypt-wrapper_encrypt_write :
    (b : Backend) (dev dev1 : Device) (cw : Wrapper b) (offset : ℕ) (buffer : List ℕ)
    → HasCipher b cw.kind
    → u64 (cw.data_offset + offset) + length buffer ≤ length dev.bytes
    → dev.bad (u64 (cw.data_offset + offset)) (length buffer) ≡ false
    → wrapper_encrypt_write b dev cw offset buffer ≡ (dev1, some (length buffer))
    → wrapper_read_decrypt b dev1 cw offset (length buffer) ≡ some buffer
unfolding wrapper_encrypt_write wrapper_read_decrypt
wrapper_read_decrypt-wrapper_encrypt_write b dev dev1 cw offset buffer c fits good e =
    let at : ℕ = u64 (cw.data_offset + offset) in
    let (x, encrypted, written) =
      encrypt_write-encrypt b dev dev1 cw offset (length buffer) buffer cw.kind c e in
    let (decrypted, size) = decrypt-encrypt_as b dev1 cw.kind offset buffer x c encrypted in
    let (bytes, bad) =
      write_lseek-splice dev dev1 x at (omega arith) (written ∙ ap (λ n. (dev1, n)) (sym size)) in
    let long : length dev1.bytes ≡ length dev.bytes =
      ap length bytes ∙ length-splice at x dev.bytes (omega arith) in
    let read : read_lseek dev1 (length buffer) at ≡ some x =
      read_lseek_good dev1 (length buffer) at (ap (λ f. f at (length buffer)) bad ∙ good)
        (omega arith)
      ∙ ap some (
          ap (λ t. slice at (length buffer) t) bytes
          ∙ ap (λ n. slice at n (splice at x dev.bytes)) (sym size)
          ∙ slice-splice at x dev.bytes (omega arith)) in
    read_decrypt-decrypt b dev1 cw cw.kind offset (length buffer) x buffer c read decrypted
