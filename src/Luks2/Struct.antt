-- ===== src/Luks2/Struct.antt =====
-- lib/luks2/luks2.h: `struct luks2_hdr_disk`, a packed struct of 4096 bytes, and
-- `struct luks2_hdr`, its form in memory. An array of bytes is a list.
pub mod Codec
pub mod Convert
use cryptsetup.Base.Endian.{cpu_to_be, be_to_cpu}
use cryptsetup.Base.Strings.{strlen}
use cryptsetup.Base.{ℕ, zero, suc, ◌+◌, ◌-◌, ◌*◌, ◌/◌, ◌%◌, ◌≡◌, min, List, [], ◌∷◌, ◌++◌}
use cryptsetup.Base.{length, take, drop, replicate, ◌==◌, if◌then◌else◌, Bool}

-- `struct luks2_hdr_disk`.
pub record HdrDisk : Type 0 where
  pub magic : List ℕ
  pub version : List ℕ
  pub hdr_size : List ℕ
  pub seqid : List ℕ
  pub label : List ℕ
  pub checksum_alg : List ℕ
  pub salt : List ℕ
  pub uuid : List ℕ
  pub subsystem : List ℕ
  pub hdr_offset : List ℕ
  pub padding : List ℕ
  pub csum : List ℕ
  pub padding4096 : List ℕ

-- The sizes of the fields, in order.
abbrev pub layout : List ℕ
layout = 6 ∷ 2 ∷ 8 ∷ 8 ∷ 48 ∷ 32 ∷ 64 ∷ 40 ∷ 48 ∷ 8 ∷ 184 ∷ 64 ∷ 3584 ∷ []

abbrev pub hdr_bin_len : ℕ
hdr_bin_len = 4096

abbrev pub fields : HdrDisk → List (List ℕ)
fields h =
    h.magic ∷ h.version ∷ h.hdr_size ∷ h.seqid ∷ h.label ∷ h.checksum_alg ∷ h.salt ∷ h.uuid
    ∷ h.subsystem ∷ h.hdr_offset ∷ h.padding ∷ h.csum ∷ h.padding4096 ∷ []

unfoldable pub join : List (List ℕ) → List ℕ
join [] = []
join (f ∷ fs) = f ++ join fs

-- The bytes of the struct, as they lie in memory and on disk.
unfoldable pub to_bytes : HdrDisk → List ℕ
unfolding join
to_bytes h = join (fields h)

-- The struct that lies in the first 4096 bytes.
unfoldable pub of_bytes : List ℕ → HdrDisk
of_bytes b0 =
    let b1 = drop 6 b0 in
    let b2 = drop 2 b1 in
    let b3 = drop 8 b2 in
    let b4 = drop 8 b3 in
    let b5 = drop 48 b4 in
    let b6 = drop 32 b5 in
    let b7 = drop 64 b6 in
    let b8 = drop 40 b7 in
    let b9 = drop 48 b8 in
    let b10 = drop 8 b9 in
    let b11 = drop 184 b10 in
    let b12 = drop 64 b11 in
    record {
      magic = take 6 b0;
      version = take 2 b1;
      hdr_size = take 8 b2;
      seqid = take 8 b3;
      label = take 48 b4;
      checksum_alg = take 32 b5;
      salt = take 64 b6;
      uuid = take 40 b7;
      subsystem = take 48 b8;
      hdr_offset = take 8 b9;
      padding = take 184 b10;
      csum = take 64 b11;
      padding4096 = take 3584 b12;
    }

abbrev pub HasSizes : List ℕ → List (List ℕ) → Type 0
HasSizes [] [] = Unit
HasSizes [] (f ∷ fs) = ⊥
HasSizes (n ∷ ns) [] = ⊥
HasSizes (n ∷ ns) (f ∷ fs) = (length f ≡ n) × HasSizes ns fs

-- Every array of the struct has its size.
abbrev pub IsHdrDisk : HdrDisk → Type 0
IsHdrDisk h = HasSizes layout (fields h)

-- `struct luks2_hdr`, less `jobj`.
pub record Hdr : Type 0 where
  pub hdr_size : ℕ
  pub seqid : ℕ
  pub version : ℕ
  pub label : List ℕ
  pub subsystem : List ℕ
  pub checksum_alg : List ℕ
  pub salt1 : List ℕ
  pub salt2 : List ℕ
  pub uuid : List ℕ

-- `LUKS2_MAGIC_1ST`, "LUKS\xba\xbe", and `LUKS2_MAGIC_2ND`, "SKUL\xba\xbe".
abbrev pub magic_1st : List ℕ
magic_1st = 76 ∷ 85 ∷ 75 ∷ 83 ∷ 186 ∷ 190 ∷ []

abbrev pub magic_2nd : List ℕ
magic_2nd = 83 ∷ 75 ∷ 85 ∷ 76 ∷ 186 ∷ 190 ∷ []

abbrev pub magic_of : Bool → List ℕ
magic_of secondary = if secondary then magic_2nd else magic_1st

-- `a[n - 1] = '\0'`
abbrev pub terminate : ℕ → List ℕ → List ℕ
terminate n a = take (n - 1) a ++ (0 ∷ [])

-- A zeroed array of `n` bytes after `memcpy(a, s, MIN(strlen(s), n)); a[n - 1] = '\0'`.
abbrev pub string_field : ℕ → List ℕ → List ℕ
string_field n s =
    let len : ℕ = min (strlen s) n in terminate n (take len s ++ drop len (replicate n 0))

-- `hdr_from_disk`
unfoldable pub hdr_from_disk : HdrDisk → HdrDisk → Bool → Hdr
unfolding be_to_cpu
hdr_from_disk disk1 disk2 secondary = record {
  hdr_size = be_to_cpu disk1.hdr_size;
  seqid = be_to_cpu disk1.seqid;
  version = be_to_cpu disk1.version;
  label = terminate 48 disk1.label;
  subsystem = terminate 48 disk1.subsystem;
  checksum_alg = terminate 32 disk1.checksum_alg;
  salt1 = if secondary then disk2.salt else disk1.salt;
  salt2 = if secondary then disk1.salt else disk2.salt;
  uuid = terminate 40 disk1.uuid;
}

-- `hdr_to_disk`; it keeps no field of the struct that it fills.
unfoldable pub hdr_to_disk : Hdr → Bool → ℕ → HdrDisk
unfolding cpu_to_be strlen
hdr_to_disk hdr secondary offset = record {
  magic = magic_of secondary;
  version = cpu_to_be 2 hdr.version;
  hdr_size = cpu_to_be 8 hdr.hdr_size;
  seqid = cpu_to_be 8 hdr.seqid;
  label = string_field 48 hdr.label;
  checksum_alg = string_field 32 hdr.checksum_alg;
  salt = if secondary then hdr.salt2 else hdr.salt1;
  uuid = string_field 40 hdr.uuid;
  subsystem = string_field 48 hdr.subsystem;
  hdr_offset = cpu_to_be 8 offset;
  padding = replicate 184 0;
  csum = replicate 64 0;
  padding4096 = replicate 3584 0;
}
