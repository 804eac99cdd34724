-- ===== src/Luks2/Reencrypt/Hotzone.antt =====
-- lib/luks2/luks2_reencrypt.c: the protection of the hot zone, which is the part of the device that
-- is being reencrypted, and its recovery after a crash. The data device and the metadata device,
-- with the area of the reencryption keyslot, are two values; on one disk they are disjoint ranges.
pub mod Blocks
pub mod Step
pub mod Recover
pub mod Stored
pub mod Resume
pub mod Crashed
use cryptsetup.Base.{
  ℕ, zero, suc, ◌+◌, ◌-◌, ◌*◌, ◌/◌, ◌^◌, List, [], ◌++◌, length, take, drop, Bool, true, false, not,
  ◌||◌, ◌==◌, ltb, if◌then◌else◌, Option, none, some, Result, ok, err, einval, eio, ◌>>=◌,
}
use cryptsetup.Base.Strings.{same}
use cryptsetup.Luks2.Areas.{Area}
use cryptsetup.Luks2.Device.{Device, read_lseek, write_lseek, slice}
use cryptsetup.Storage.{Backend}
use cryptsetup.Wrapper.{
  u64, Wrapper, wrapper_read, wrapper_decrypt, wrapper_read_decrypt, wrapper_encrypt_write,
}

-- `struct reenc_protection`; the hash is a function of the crypto backend, with the size of its
-- result, and may fail.
pub record Csum : Type 0 where
  pub hash : List ℕ → Option (List ℕ)
  pub hash_size : ℕ

pub data Protection : Type 0 where
  protect_none protect_journal protect_datashift : Protection
  protect_checksum : Csum → Protection

-- The positive return value EINVAL, which is not a negative errno.
abbrev pub positive_einval : ℕ
positive_einval = 22

-- The checksums of the `n` blocks of a buffer.
unfoldable pub checksums : Csum → ℕ → ℕ → List ℕ → Option (List ℕ)
checksums c alignment zero buffer = some []
checksums c alignment (suc n) buffer = elim (c.hash (take alignment buffer)) [
  | none ↦ none
  | some sum ↦ elim (checksums c alignment n (drop alignment buffer)) [
    | none ↦ none
    | some sums ↦ some (sum ++ sums)
  ]
]

-- `reenc_keyslot_store_data` of lib/luks2/luks2_keyslot_reenc.c, with the area of the keyslot. A
-- write that is not whole is a failed one.
unfoldable pub keyslot_store_data : Device → Area → List ℕ → Device × Result (Unit {0})
keyslot_store_data meta area buffer =
    if area.offset == 0 || (area.len == 0 || ltb area.len (length buffer))
    then (meta, err einval)
    else (let (meta1, n) = write_lseek meta buffer area.offset in
        (meta1, if n == length buffer then ok tt else err eio))

-- `reenc_keyslot_store` for a valid keyslot and with the lock held. An empty buffer is refused;
-- `hdr_write` is LUKS2_hdr_write, which ends it.
abbrev pub after_store :
    (Device → Device × Result (Unit {0})) → Device × Result (Unit {0}) → Device × Result (Unit {0})
after_store hdr_write (meta, err e) = (meta, err e)
after_store hdr_write (meta, ok done) = hdr_write meta

abbrev pub reencrypt_store :
    (Device → Device × Result (Unit {0})) → Area → Device → List ℕ → Device × Result (Unit {0})
reencrypt_store hdr_write area meta buffer =
    if length buffer == 0
    then (meta, err einval)
    else after_store hdr_write (keyslot_store_data meta area buffer)

abbrev pub store_sums :
    (Device → Device × Result (Unit {0}))
    → Area
    → Device
    → Option (List ℕ)
    → Device × Result (Unit {0})
store_sums hdr_write area meta none = (meta, err einval)
store_sums hdr_write area meta (some sums) = reencrypt_store hdr_write area meta sums

-- `reencrypt_hotzone_protect_final`
unfoldable pub hotzone_protect_final :
    (Device → Device × Result (Unit {0}))
    → Protection
    → ℕ
    → Area
    → Device
    → List ℕ
    → Device × Result (Unit {0})
hotzone_protect_final hdr_write protect_none alignment area meta buffer = (meta, ok tt)
hotzone_protect_final hdr_write protect_datashift alignment area meta buffer = hdr_write meta
hotzone_protect_final hdr_write protect_journal alignment area meta buffer =
    reencrypt_store hdr_write area meta buffer
hotzone_protect_final hdr_write (protect_checksum c) alignment area meta buffer =
    let count : ℕ = (length buffer + (alignment - 1)) / alignment in
    store_sums hdr_write area meta (checksums c alignment count buffer)

module _ (b : Backend) where
  -- After the write of a block, the loop goes on if it was whole.
  abbrev pub after_write : ℕ → (Device → Device × Result ℕ) → Device × Option ℕ → Device × Result ℕ
  after_write alignment rest (disk, none) = (disk, err einval)
  after_write alignment rest (disk, some w) = elim (w == alignment) [
    | true ↦ rest disk
    | false ↦ (disk, err einval)
  ]

  -- A block that still has its old checksum is decrypted, encrypted and written.
  abbrev pub recover_plain :
      Wrapper b
      → ℕ
      → ℕ
      → (Device → Device × Result ℕ)
      → Device
      → Result (List ℕ)
      → Device × Result ℕ
  recover_plain cw2 alignment offset rest disk (err e) = (disk, err einval)
  recover_plain cw2 alignment offset rest disk (ok plain) =
      after_write alignment rest (wrapper_encrypt_write b disk cw2 offset plain)

  abbrev pub recover_block :
      (Device → Device × Result ℕ)
      → Device × Result ℕ
      → Device
      → List ℕ
      → Option (List ℕ)
      → Device × Result ℕ
  recover_block rest recovered disk stored none = (disk, ok positive_einval)
  recover_block rest recovered disk stored (some sum) = elim (same sum stored) [
    | true ↦ recovered
    | false ↦ rest disk
  ]

  -- The loop of the recovery by checksums: `s` is the next block and `n` are left; `sums` are the
  -- checksums that were stored.
  unfoldable pub recover_blocks :
      Csum → Wrapper b → Wrapper b → ℕ → List ℕ → List ℕ → ℕ → ℕ → Device → Device × Result ℕ
  recover_blocks c cw1 cw2 alignment buffer sums zero s disk = (disk, ok 0)
  recover_blocks c cw1 cw2 alignment buffer sums (suc n) s disk =
      let block : List ℕ = slice (s * alignment) alignment buffer in
      let rest : Device → Device × Result ℕ =
        λ d. recover_blocks c cw1 cw2 alignment buffer sums n (suc s) d in
      recover_block rest
        (recover_plain cw2 alignment (s * alignment) rest disk
          (wrapper_decrypt b disk cw1 (s * alignment) block))
        disk (slice (s * c.hash_size) c.hash_size sums) (c.hash block)

  -- What `reencrypt_recover_segment` finds in the context and the header, and the wrappers that it
  -- opens: on the data device, or on the metadata device for the journal.
  pub record Crash : Type 0 where
    pub offset : ℕ
    pub len : ℕ
    pub alignment : ℕ
    pub data_shift : ℕ
    pub protection : Protection
    -- The number of the segment in reencryption.
    pub segment : Option ℕ
    pub has_keys : Bool
    pub data_offset : ℕ
    pub moved_offset : ℕ
    pub area : Result Area
    -- Whether the metadata device can be opened.
    pub opens : Bool
    -- `crypt_storage_wrapper_init` for the new and the old cipher at an offset, and without a key.
    pub open_new : ℕ → Result (Wrapper b)
    pub open_old : ℕ → Result (Wrapper b)
    pub open_plain : ℕ → Result (Wrapper b)

  -- Reading with one wrapper and writing with the other, as the last two recoveries do.
  abbrev pub copy_through : Device → Device → Wrapper b → Wrapper b → ℕ → Device × Result ℕ
  copy_through source disk cw1 cw2 len = elim (wrapper_read_decrypt b source cw1 0 len) [
    | none ↦ (disk, err eio)
    | some plain ↦ elim ((wrapper_encrypt_write b disk cw2 0 plain).1) [
      | none ↦ ((wrapper_encrypt_write b disk cw2 0 plain).0, err einval)
      | some w ↦
          ((wrapper_encrypt_write b disk cw2 0 plain).0, if w == len then ok 0 else err einval)
    ]
  ]

  -- The steps before the loop: the old cipher, the size of the area, the metadata device, the
  -- checksums in the area and the buffer.
  abbrev pub before_blocks :
      Device
      → (Wrapper b → List ℕ → List ℕ → Device × Result ℕ)
      → Result (Wrapper b)
      → Bool
      → Bool
      → Option (List ℕ)
      → Option (List ℕ)
      → Device × Result ℕ
  before_blocks disk loop (err e) short opens sums buffer = (disk, err e)
  before_blocks disk loop (ok cw1) true opens sums buffer = (disk, err einval)
  before_blocks disk loop (ok cw1) false false sums buffer = (disk, ok 0)
  before_blocks disk loop (ok cw1) false true none buffer = (disk, err einval)
  before_blocks disk loop (ok cw1) false true (some sums) none = (disk, err einval)
  before_blocks disk loop (ok cw1) false true (some sums) (some buffer) = loop cw1 sums buffer

  unfoldable pub recover_checksum :
      Crash → Csum → Area → Wrapper b → Device → Device → Device × Result ℕ
  recover_checksum r c area cw2 disk meta =
      let count : ℕ = r.len / r.alignment in
      before_blocks disk
        (λ cw1 sums buffer. recover_blocks c cw1 cw2 r.alignment buffer sums count 0 disk)
        (r.open_old (r.data_offset + r.offset)) (ltb area.len (count * c.hash_size)) (r.opens)
        (read_lseek meta (count * c.hash_size) area.offset) (wrapper_read b disk cw2 0 r.len)

  unfoldable pub recover_journal : Crash → Area → Wrapper b → Device → Device → Device × Result ℕ
  recover_journal r area cw2 disk meta =
      if ltb area.len r.len then (disk, err einval) else elim (r.open_old area.offset) [
        | err e ↦ (disk, err e)
        | ok cw1 ↦ copy_through meta disk cw1 cw2 r.len
      ]

  unfoldable pub recover_datashift : Crash → ℕ → Wrapper b → Device → Device × Result ℕ
  recover_datashift r segment cw2 disk =
      elim (r.open_plain (
        if segment == 0
        then r.moved_offset
        else u64 (r.data_offset + r.offset + (2 ^ 64 - r.data_shift)))) [
          | err e ↦ (disk, err e)
          | ok cw1 ↦ copy_through disk disk cw1 cw2 r.len
        ]

  abbrev pub recover_by :
      Crash → ℕ → Area → Wrapper b → Protection → Device → Device → Device × Result ℕ
  recover_by r segment area cw2 protect_none disk meta = (disk, err einval)
  recover_by r segment area cw2 protect_journal disk meta = recover_journal r area cw2 disk meta
  recover_by r segment area cw2 protect_datashift disk meta = recover_datashift r segment cw2 disk
  recover_by r segment area cw2 (protect_checksum c) disk meta =
      recover_checksum r c area cw2 disk meta

  -- The steps that all protections share: the segment, the keys, the new cipher and the area.
  abbrev pub recover_with :
      Crash
      → Device
      → Device
      → Option ℕ
      → Bool
      → Result (Wrapper b)
      → Result Area
      → Protection
      → Device × Result ℕ
  recover_with r disk meta none refused cw2 area kind = (disk, err einval)
  recover_with r disk meta (some segment) true cw2 area kind = (disk, err einval)
  recover_with r disk meta (some segment) false (err e) area kind = (disk, err e)
  recover_with r disk meta (some segment) false (ok cw2) (err e) kind = (disk, err einval)
  recover_with r disk meta (some segment) false (ok cw2) (ok area) kind =
      recover_by r segment area cw2 kind disk meta

  -- `reencrypt_recover_segment`: the data device after it, and what it returns.
  unfoldable pub recover_segment : Crash → Device → Device → Device × Result ℕ
  recover_segment r disk meta =
      recover_with r disk meta (r.segment) (ltb r.len 512 || not r.has_keys)
        (r.open_new (r.data_offset + r.offset)) (r.area) (r.protection)
