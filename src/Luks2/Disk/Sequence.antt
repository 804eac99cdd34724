-- ===== src/Luks2/Disk/Sequence.antt =====
-- lib/luks2/luks2_disk_metadata.c: the sequence id of the header that was written last is the one that
-- LUKS2_check_sequence_id reads.
use cryptsetup.Base.{
  ℕ, zero, suc, ◌+◌, ◌*◌, ◌≤◌, ◌≡◌, refl, sym, ap, ◌∙◌, arith, List, [], ◌∷◌, length, take, drop,
  false, some, ok,
}
use cryptsetup.Base.Endian.{be_to_cpu}
use cryptsetup.Luks2.Struct.{Hdr, HdrDisk, hdr_bin_len, to_bytes, of_bytes}
use cryptsetup.Luks2.Struct.Codec.{of_bytes-to_bytes}
use cryptsetup.Luks2.Struct.Convert.{seqid-hdr_to_disk}
use cryptsetup.Luks2.Device.{Device, read_lseek}
use cryptsetup.Luks2.Disk.Env.{Env}
use cryptsetup.Luks2.Disk.Write.{check_sequence_id, write_copies}
use cryptsetup.Luks2.Disk.RoundTrip.{IsWritable, IsReadable, sealed, sealed-IsHdrDisk}
use cryptsetup.Luks2.Disk.Crash.{read_lseek-write_copies}

take-nil : (n : ℕ) → take {A = ℕ} n [] ≡ []
take-nil zero = refl
take-nil (suc n) = refl

drop-take : (n m k : ℕ) (xs : List ℕ) → k ≡ n + m → drop n (take k xs) ≡ take m (drop n xs)
drop-take zero m k xs e = let same_length : k ≡ m = omega arith in ap (λ i. take i xs) same_length
drop-take (suc n) m zero xs e = absurd (omega arith)
drop-take (suc n) m (suc k) [] e = sym (take-nil m)
drop-take (suc n) m (suc k) (x ∷ xs) e = drop-take n m k xs (omega arith)

take-take : (n k : ℕ) (xs : List ℕ) → n ≤ k → take n (take k xs) ≡ take n xs
take-take zero k xs h = refl
take-take (suc n) zero xs h = absurd (omega arith)
take-take (suc n) (suc k) [] h = refl
take-take (suc n) (suc k) (x ∷ xs) h = ap (λ t. x ∷ t) (take-take n k xs (omega arith))

-- The first 512 bytes hold the sequence id.
seqid-take : (bytes : List ℕ) → (of_bytes (take 512 bytes)).seqid ≡ (of_bytes bytes).seqid
unfolding of_bytes
seqid-take bytes =
    ap (λ t. take 8 (drop 8 (drop 2 t))) (drop-take 6 506 512 bytes (omega arith))
    ∙ ap (λ t. take 8 (drop 8 t)) (drop-take 2 504 506 (drop 6 bytes) (omega arith))
    ∙ ap (λ t. take 8 t) (drop-take 8 496 504 (drop 2 (drop 6 bytes)) (omega arith))
    ∙ take-take 8 496 (drop 8 (drop 2 (drop 6 bytes))) (omega arith)

same_seqid :
    (env : Env) (dev : Device) (hdr : Hdr) (bytes : List ℕ)
    → env.open_read ≡ ok tt
    → read_lseek dev 512 0 ≡ some bytes
    → be_to_cpu (of_bytes bytes).seqid ≡ hdr.seqid
    → check_sequence_id env dev hdr ≡ false
unfolding check_sequence_id
same_seqid env dev hdr bytes opens e s = ground arith

-- After both copies were written, the check of the sequence id accepts the header.
pub check_sequence_id-write_copies :
    {env : Env} {hdr : Hdr} {area : List ℕ} (w : IsWritable env hdr area) (dev : Device)
    → hdr.hdr_size + hdr.hdr_size ≤ length dev.bytes
    → IsReadable env dev
    → 2 * (hdr_bin_len + length area + hdr_bin_len) ≤ dev.quota
    → check_sequence_id env (write_copies env dev hdr area).0 hdr ≡ false
check_sequence_id-write_copies {env} {hdr} {area} w dev fits r enough =
    same_seqid env (write_copies env dev hdr area).0 hdr (take 512 (to_bytes (sealed w false)))
      r.opens (read_lseek-write_copies w dev fits r 512 (omega arith) enough)
      (ap be_to_cpu (
          seqid-take (to_bytes (sealed w false))
          ∙ ap (λ (h : HdrDisk). h.seqid)
              (of_bytes-to_bytes (sealed w false) (sealed-IsHdrDisk w false)))
        ∙ seqid-hdr_to_disk hdr false 0 w.valid.seqid_fits)
