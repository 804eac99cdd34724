-- ===== src/Luks2/Struct/Convert.antt =====
-- lib/luks2/luks2_disk_metadata.c: `hdr_to_disk` and `hdr_from_disk` undo each other.
use cryptsetup.Base.Endian.{be_to_cpu, length-cpu_to_be, be_to_cpu-cpu_to_be}
use cryptsetup.Base.{ℕ, ◌^◌, ◌<◌, ◌≡◌, refl, ap, List, length, length-replicate, Bool, true, false}
use cryptsetup.Base.{◌∙◌, not, if◌then◌else◌}
use cryptsetup.Luks2.Struct.{IsHdrDisk, Hdr, terminate, string_field}
use cryptsetup.Luks2.Struct.{hdr_from_disk, hdr_to_disk, magic_of}
use cryptsetup.Luks2.Struct.Codec.{IsString, string_field_lem, terminate-string}

-- A header in memory that the code may write: the numbers fit their fields on disk, the strings are
-- terminated and padded with zeros, and the salts have their size.
pub record IsHdr (h : Hdr) : Type 0 where
  pub size_fits : h.hdr_size < 256 ^ 8
  pub seqid_fits : h.seqid < 256 ^ 8
  pub version_fits : h.version < 256 ^ 2
  pub label_string : IsString 48 h.label
  pub subsystem_string : IsString 48 h.subsystem
  pub checksum_alg_string : IsString 32 h.checksum_alg
  pub salt1_size : length h.salt1 ≡ 64
  pub salt2_size : length h.salt2 ≡ 64
  pub uuid_string : IsString 40 h.uuid

pub length-magic_of : (b : Bool) → length (magic_of b) ≡ 6
length-magic_of true = refl
length-magic_of false = refl

length-string_field : (n : ℕ) (a : List ℕ) → IsString n a → length (string_field n a) ≡ n
length-string_field n a s = rw (string_field_lem n a s) s.size

length-salt :
    (h : Hdr) (b : Bool) → IsHdr h → (offset : ℕ) → length (hdr_to_disk h b offset).salt ≡ 64
unfolding hdr_to_disk
length-salt h true v offset = v.salt2_size
length-salt h false v offset = v.salt1_size

pub hdr_to_disk-IsHdrDisk :
    (h : Hdr) (b : Bool) (offset : ℕ) → IsHdr h → IsHdrDisk (hdr_to_disk h b offset)
unfolding hdr_to_disk
hdr_to_disk-IsHdrDisk h b offset v = (
  length-magic_of b,
  (
    length-cpu_to_be 2 h.version,
    (
      length-cpu_to_be 8 h.hdr_size,
      (
        length-cpu_to_be 8 h.seqid,
        (
          length-string_field 48 h.label v.label_string,
          (
            length-string_field 32 h.checksum_alg v.checksum_alg_string,
            (
              length-salt h b v offset,
              (
                length-string_field 40 h.uuid v.uuid_string,
                (
                  length-string_field 48 h.subsystem v.subsystem_string,
                  (
                    length-cpu_to_be 8 offset,
                    (
                      length-replicate {A = ℕ} 184 0,
                      (length-replicate {A = ℕ} 64 0, (length-replicate {A = ℕ} 3584 0, tt)),
                    ),
                  ),
                ),
              ),
            ),
          ),
        ),
      ),
    ),
  ),
)

stays : (n : ℕ) (a : List ℕ) → IsString n a → terminate n (string_field n a) ≡ a
stays n a s = ap (terminate n) (string_field_lem n a s) ∙ terminate-string n a s

module _ (h : Hdr) (v : IsHdr h) (b : Bool) (offset1 offset2 : ℕ) where
  -- A header that is converted to both of its forms on disk and back is the same header, whichever
  -- of the two copies the numbers and strings are taken from. The header is well formed: its texts end
  -- with zeros up to the size of their arrays, and its numbers fit their fields.
  pub hdr_from_disk-hdr_to_disk :
      hdr_from_disk (hdr_to_disk h b offset1) (hdr_to_disk h (not b) offset2) b ≡ h
  unfolding hdr_from_disk hdr_to_disk
  hdr_from_disk-hdr_to_disk = λ i. record {
    hdr_size = be_to_cpu-cpu_to_be 8 h.hdr_size v.size_fits i;
    seqid = be_to_cpu-cpu_to_be 8 h.seqid v.seqid_fits i;
    version = be_to_cpu-cpu_to_be 2 h.version v.version_fits i;
    label = stays 48 h.label v.label_string i;
    subsystem = stays 48 h.subsystem v.subsystem_string i;
    checksum_alg = stays 32 h.checksum_alg v.checksum_alg_string i;
    salt1 = salt1_same b i;
    salt2 = salt2_same b i;
    uuid = stays 40 h.uuid v.uuid_string i;
  }
    where
      salt1_same :
          (c : Bool)
          → (if c then (if not c then h.salt2 else h.salt1) else (if c then h.salt2 else h.salt1))
            ≡ h.salt1
      salt1_same true = refl
      salt1_same false = refl

      salt2_same :
          (c : Bool)
          → (if c then (if c then h.salt2 else h.salt1) else (if not c then h.salt2 else h.salt1))
            ≡ h.salt2
      salt2_same true = refl
      salt2_same false = refl

pub seqid-hdr_to_disk :
    (h : Hdr) (b : Bool) (offset : ℕ)
    → h.seqid < 256 ^ 8
    → be_to_cpu (hdr_to_disk h b offset).seqid ≡ h.seqid
unfolding hdr_to_disk
seqid-hdr_to_disk h b offset fits = be_to_cpu-cpu_to_be 8 h.seqid fits

pub hdr_size-hdr_to_disk :
    (h : Hdr) (b : Bool) (offset : ℕ)
    → h.hdr_size < 256 ^ 8
    → be_to_cpu (hdr_to_disk h b offset).hdr_size ≡ h.hdr_size
unfolding hdr_to_disk
hdr_size-hdr_to_disk h b offset fits = be_to_cpu-cpu_to_be 8 h.hdr_size fits
