-- ===== src/Wrapper.antt =====
-- lib/utils_storage_wrappers.c: data of a segment on a device, read and written through a cipher.
-- The device is the one of Luks2/Device.
pub mod RoundTrip
mod Tests
use cryptsetup.Base.{
  ℕ, ◌+◌, ◌/◌, ◌%◌, ◌^◌, List, length, Bool, ◌==◌, not, ◌&&◌, ◌||◌, true, false, if◌then◌else◌,
  Option, none, some, Result, Errno, ok, err, einval, enotsup, enoent,
}
use cryptsetup.Luks2.Device.{Device, read_lseek, write_lseek}
use cryptsetup.Storage.{Backend, Storage, storage_decrypt, storage_encrypt}

abbrev pub u64 : ℕ → ℕ
u64 n = n % 2 ^ 64

-- The first sector of a call, for the IVs.
abbrev pub iv_sector : ℕ → ℕ → ℕ
iv_sector iv_start offset = u64 (iv_start + offset / 512)

-- A temporary dm-crypt device, through which the kernel reads and writes the data device.
pub record Dm : Type 0 where
  pub read : Device → ℕ → ℕ → Option (List ℕ)
  pub write : Device → List ℕ → ℕ → Device × Option ℕ

module _ (b : Backend) where
  -- `crypt_storage_wrapper_type`, with the member of the union that belongs to it.
  pub data Kind : Type 0 where
    no_cipher : Kind
    uspace : Storage b → ℕ → Kind
    dmcrypt : Dm → Kind

  -- `struct crypt_storage_wrapper`; block size and alignment are in the device.
  pub record Wrapper : Type 0 where
    pub kind : Kind
    pub data_offset : ℕ

  -- The buffer that `crypt_storage_decrypt` or `crypt_storage_encrypt` leaves, unless it fails.
  abbrev pub whole : List ℕ × Result (Unit {0}) → Result (List ℕ)
  whole (buffer, ok _) = ok buffer
  whole (buffer, err e) = err e

  -- `crypt_storage_wrapper_read`; `none` stands for all but a whole read.
  abbrev pub wrapper_read : Device → Wrapper → ℕ → ℕ → Option (List ℕ)
  wrapper_read dev cw offset len = read_lseek dev len (u64 (cw.data_offset + offset))

  abbrev pub decrypt_read : Kind → ℕ → Option (List ℕ) → Option (List ℕ)
  decrypt_read kind offset none = none
  decrypt_read no_cipher offset (some buffer) = some buffer
  decrypt_read (dmcrypt dm) offset (some buffer) = some buffer
  decrypt_read (uspace s iv_start) offset (some buffer) =
      elim (whole (storage_decrypt b s (iv_sector iv_start offset) (length buffer) buffer)) [
        | ok plain ↦ some plain
        | err _ ↦ none
      ]

  abbrev pub read_raw : Device → Wrapper → Kind → ℕ → ℕ → Option (List ℕ)
  read_raw dev cw (dmcrypt dm) offset len = dm.read dev len offset
  read_raw dev cw (uspace s iv_start) offset len = wrapper_read dev cw offset len
  read_raw dev cw no_cipher offset len = wrapper_read dev cw offset len

  -- `crypt_storage_wrapper_read_decrypt`
  unfoldable pub wrapper_read_decrypt : Device → Wrapper → ℕ → ℕ → Option (List ℕ)
  wrapper_read_decrypt dev cw offset len =
      decrypt_read cw.kind offset (read_raw dev cw cw.kind offset len)

  -- `crypt_storage_wrapper_decrypt`, with what it leaves in the buffer.
  abbrev pub decrypt_as : Device → Kind → ℕ → List ℕ → Result (List ℕ)
  decrypt_as dev no_cipher offset buffer = ok buffer
  decrypt_as dev (dmcrypt dm) offset buffer = elim (dm.read dev (length buffer) offset) [
    | none ↦ err einval
    | some x ↦ ok x
  ]
  decrypt_as dev (uspace s iv_start) offset buffer =
      whole (storage_decrypt b s (iv_sector iv_start offset) (length buffer) buffer)

  unfoldable pub wrapper_decrypt : Device → Wrapper → ℕ → List ℕ → Result (List ℕ)
  wrapper_decrypt dev cw offset buffer = decrypt_as dev cw.kind offset buffer

  -- `crypt_storage_wrapper_write`: the device, and the number of bytes written.
  abbrev pub wrapper_write : Device → Wrapper → ℕ → List ℕ → Device × Option ℕ
  wrapper_write dev cw offset buffer =
      let (dev1, n) = write_lseek dev buffer (u64 (cw.data_offset + offset)) in (dev1, some n)

  -- `crypt_storage_wrapper_encrypt`
  abbrev pub encrypt_as : Kind → ℕ → List ℕ → Result (List ℕ)
  encrypt_as no_cipher offset buffer = ok buffer
  encrypt_as (dmcrypt dm) offset buffer = err enotsup
  encrypt_as (uspace s iv_start) offset buffer =
      elim (whole (storage_encrypt b s (iv_sector iv_start offset) (length buffer) buffer)) [
        | ok x ↦ ok x
        | err _ ↦ err einval
      ]

  unfoldable pub wrapper_encrypt : Wrapper → ℕ → List ℕ → Result (List ℕ)
  wrapper_encrypt cw offset buffer = encrypt_as cw.kind offset buffer

  -- `crypt_storage_wrapper_encrypt_write`; the number is `none` for an error.
  abbrev pub encrypt_write_as : Device → Wrapper → Kind → ℕ → List ℕ → Device × Option ℕ
  encrypt_write_as dev cw no_cipher offset buffer = wrapper_write dev cw offset buffer
  encrypt_write_as dev cw (dmcrypt dm) offset buffer = dm.write dev buffer offset
  encrypt_write_as dev cw (uspace s iv_start) offset buffer =
      elim (whole (storage_encrypt b s (iv_sector iv_start offset) (length buffer) buffer)) [
        | ok x ↦ wrapper_write dev cw offset x
        | err _ ↦ (dev, none)
      ]

  unfoldable pub wrapper_encrypt_write : Device → Wrapper → ℕ → List ℕ → Device × Option ℕ
  wrapper_encrypt_write dev cw offset buffer = encrypt_write_as dev cw cw.kind offset buffer

  -- The choice that `crypt_storage_wrapper_init` makes: `is_null` says that the cipher is
  -- `cipher_null`, `storage` is what crypt_storage_init returns (`none` without a volume key) and
  -- `kernel_only` whether it needs the kernel; `dm` is a new dm-crypt device. The device can be
  -- opened, and the cipher's name is well formed.
  unfoldable pub wrapper_init :
      ℕ → ℕ → Bool → Option (Result (Storage b × Bool)) → Bool → Bool → Result Dm → Result Wrapper
  wrapper_init data_offset iv_start is_null storage no_kcapi no_dmcrypt dm =
      if not (data_offset % 512 == 0)
      then err einval
      else if is_null
      then ok (record { kind = no_cipher; data_offset = data_offset })
      else elim storage [
        | none ↦ err einval
        | some r ↦ elim (backend_init r) [
          | ok s ↦ ok (record { kind = uspace s iv_start; data_offset = data_offset })
          | err e ↦ if not (falls_back e) || no_dmcrypt then err e else elim dm [
            | err e2 ↦ err e2
            | ok d ↦ ok (record { kind = dmcrypt d; data_offset = data_offset })
          ]
        ]
      ]
    where
      -- `crypt_storage_backend_init`
      backend_init : Result (Storage b × Bool) → Result (Storage b)
      backend_init (err e) = err e
      backend_init (ok (s, kernel_only)) = if no_kcapi && kernel_only then err enotsup else ok s

      falls_back : Errno → Bool
      falls_back enotsup = true
      falls_back enoent = true
      falls_back e = false
