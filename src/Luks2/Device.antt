-- ===== src/Luks2/Device.antt =====
-- The metadata device as lib/utils_io.c reads and writes it, `read_lseek_blockwise` and
-- `write_lseek_blockwise`. Writes may fail: `quota` is the number of bytes that can still be
-- written, so a small quota is a crash or a failed disk in the middle of a run of writes.
mod Bytes
unfoldable pub use Bytes.*
use cryptsetup.Base.{ℕ, ◌+◌, ◌-◌, ◌≤◌, ◌<◌, ◌≡◌, min, List, length, take}
use cryptsetup.Base.{Bool, true, false, ◌||◌, ltb, if◌then◌else◌, Option, none, some, arith, refl}
use cryptsetup.Base.{take_all, ap, sym, ◌∙◌}

-- `bad offset len` says that these bytes cannot be read.
pub record Device : Type 0 where
  pub bytes : List ℕ
  pub quota : ℕ
  pub bad : ℕ → ℕ → Bool

-- `none` is a return value other than `len`.
unfoldable pub read_lseek : Device → ℕ → ℕ → Option (List ℕ)
read_lseek dev len offset =
    if dev.bad offset len || ltb (length dev.bytes) (offset + len)
    then none
    else some (slice offset len dev.bytes)

-- The device after the write, and the number of bytes written.
unfoldable pub write_lseek : Device → List ℕ → ℕ → Device × ℕ
write_lseek dev src offset =
    let n : ℕ = min (length src) (min dev.quota (length dev.bytes - offset)) in
    (record dev { bytes = splice offset (take n src) dev.bytes; quota = dev.quota - n }, n)

module _ (dev : Device) (src : List ℕ) (offset : ℕ) where
  -- A write that fits the device and the quota is whole.
  pub write_lseek_whole :
      offset + length src ≤ length dev.bytes
      → length src ≤ dev.quota
      → write_lseek dev src offset ≡ (
        record dev { bytes = splice offset src dev.bytes; quota = dev.quota - length src },
        length src,
      )
  unfolding write_lseek
  write_lseek_whole fits enough =
      let e : min (length src) (min dev.quota (length dev.bytes - offset)) ≡ length src =
        omega arith in
      rw (e, take_all (length src) src (omega arith))

  -- What is written is taken from the quota.
  pub write_lseek_count :
      (write_lseek dev src offset).0.quota + (write_lseek dev src offset).1 ≡ dev.quota
  unfolding write_lseek
  write_lseek_count = omega arith

-- A read inside a device that can be read there returns its bytes.
pub read_lseek_good :
    (dev : Device) (len offset : ℕ)
    → dev.bad offset len ≡ false
    → offset + len ≤ length dev.bytes
    → read_lseek dev len offset ≡ some (slice offset len dev.bytes)
unfolding read_lseek
read_lseek_good dev len offset good fits = ground arith

-- A whole write inside of the device.
pub write_lseek-splice :
    (dev dev1 : Device) (src : List ℕ) (offset : ℕ)
    → offset + length src ≤ length dev.bytes
    → write_lseek dev src offset ≡ (dev1, length src)
    → (dev1.bytes ≡ splice offset src dev.bytes) × (dev1.bad ≡ dev.bad)
unfolding write_lseek
write_lseek-splice dev dev1 src offset fits e =
    let n : ℕ = min (length src) (min dev.quota (length dev.bytes - offset)) in
    let count : n ≡ length src = ap (λ (p : Device × ℕ). p.1) e in
    let device : record dev { bytes = splice offset (take n src) dev.bytes; quota = dev.quota - n }
        ≡ dev1 =
      ap (λ (p : Device × ℕ). p.0) e in
    (
      ap (λ (d : Device). d.bytes) (sym device)
          ∙ ap (λ t. splice offset t dev.bytes)
              (ap (λ k. take k src) count ∙ take_all (length src) src (omega arith)),
      ap (λ (d : Device). d.bad) (sym device),
    )
