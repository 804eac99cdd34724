-- ===== src/Luks2/Struct/Codec.antt =====
-- lib/luks2/luks2_disk_metadata.c, lib/luks2/luks2.h: the conversions between the structs and their
-- bytes, and between the form on disk and the form in memory.
use cryptsetup.Base.Strings.{strlen}
use cryptsetup.Base.{ℕ, zero, suc, ◌+◌, ◌-◌, ◌≡◌, min, refl, sym, ap}
use cryptsetup.Base.{◌∙◌, arith, List, [], ◌∷◌, ◌++◌, length, take, drop, replicate, All}
use cryptsetup.Base.{take-append, drop-append, length-append}
use cryptsetup.Base.{length-replicate, ◌≢◌, append_assoc}
use cryptsetup.Luks2.Struct.{HdrDisk, layout, fields, join}
use cryptsetup.Luks2.Struct.{to_bytes, of_bytes, HasSizes, IsHdrDisk, terminate}
use cryptsetup.Luks2.Struct.{string_field, hdr_bin_len}

-- The fields of the given sizes.
cut : List ℕ → List ℕ → List (List ℕ)
cut [] bytes = []
cut (n ∷ ns) bytes = take n bytes ∷ cut ns (drop n bytes)

cut-join : (ns : List ℕ) (fs : List (List ℕ)) → HasSizes ns fs → cut ns (join fs) ≡ fs
unfolding cut join
cut-join [] [] h = refl
cut-join [] (f ∷ fs) h = absurd h
cut-join (n ∷ ns) [] h = absurd h
cut-join (n ∷ ns) (f ∷ fs) (h, hs) =
    rw (take-append n f (join fs) h, drop-append n f (join fs) h, cut-join ns fs hs)

abbrev nth : ℕ → List (List ℕ) → List ℕ
nth n [] = []
nth zero (f ∷ fs) = f
nth (suc n) (f ∷ fs) = nth n fs

abbrev of_fields : List (List ℕ) → HdrDisk
of_fields fs = record {
  magic = nth 0 fs;
  version = nth 1 fs;
  hdr_size = nth 2 fs;
  seqid = nth 3 fs;
  label = nth 4 fs;
  checksum_alg = nth 5 fs;
  salt = nth 6 fs;
  uuid = nth 7 fs;
  subsystem = nth 8 fs;
  hdr_offset = nth 9 fs;
  padding = nth 10 fs;
  csum = nth 11 fs;
  padding4096 = nth 12 fs;
}

-- A struct written to memory and read back is the same struct.
pub of_bytes-to_bytes : (h : HdrDisk) → IsHdrDisk h → of_bytes (to_bytes h) ≡ h
unfolding of_bytes to_bytes cut
of_bytes-to_bytes h s = ap of_fields (cut-join layout (fields h) s)

sum : List ℕ → ℕ
sum [] = 0
sum (n ∷ ns) = n + sum ns

length-join : (ns : List ℕ) (fs : List (List ℕ)) → HasSizes ns fs → length (join fs) ≡ sum ns
unfolding join sum
length-join [] [] h = refl
length-join [] (f ∷ fs) h = absurd h
length-join (n ∷ ns) [] h = absurd h
length-join (n ∷ ns) (f ∷ fs) (h, hs) =
    omega (arith, length-append f (join fs), length-join ns fs hs)

pub length-to_bytes : (h : HdrDisk) → IsHdrDisk h → length (to_bytes h) ≡ hdr_bin_len
unfolding to_bytes sum
length-to_bytes h s = length-join layout (fields h) s

abbrev pub zeros : ℕ → List ℕ
zeros n = replicate n 0

-- An array of `n` bytes that holds a string: no byte of it is 0, and the rest of the array is.
pub record IsString (n : ℕ) (a : List ℕ) : Type 0 where
  pub text : List ℕ
  pub rest : ℕ
  pub array : a ≡ text ++ zeros (suc rest)
  pub size : length a ≡ n
  pub nonzero : All (λ c. c ≢ 0) text

strlen-append :
    (text : List ℕ) (k : ℕ) → All (λ c. c ≢ 0) text → strlen (text ++ zeros (suc k)) ≡ length text
unfolding strlen
strlen-append [] k h = refl
strlen-append (c ∷ text) k (h, hs) = ground (arith, strlen-append text k hs)

zeros_eq : (m n : ℕ) → m ≡ n → zeros m ≡ zeros n
zeros_eq m n e = ap zeros e

drop-replicate : (n m : ℕ) → drop n (zeros m) ≡ zeros (m - n)
drop-replicate zero m = zeros_eq m (m - 0) (omega arith)
drop-replicate (suc n) zero = zeros_eq 0 (0 - suc n) (omega arith)
drop-replicate (suc n) (suc m) = drop-replicate n m ∙ zeros_eq (m - n) (suc m - suc n) (omega arith)

replicate-snoc : (m : ℕ) → zeros (suc m) ≡ zeros m ++ (0 ∷ [])
replicate-snoc zero = refl
replicate-snoc (suc m) = ap (λ t. 0 ∷ t) (replicate-snoc m)

-- Terminating an array that holds a string changes nothing.
pub terminate-string : (n : ℕ) (a : List ℕ) → IsString n a → terminate n a ≡ a
terminate-string n a s =
    let front : List ℕ = s.text ++ zeros s.rest in
    let e : a ≡ front ++ (0 ∷ []) = s.array ∙ rw (replicate-snoc s.rest, append_assoc) in
    let len : length front ≡ n - 1 =
      omega (arith, s.size, ap length e, length-append front (0 ∷ [])) in
    rw (e, take-append (n - 1) front (0 ∷ []) len)

-- `hdr_to_disk` copies a string field as it is.
pub string_field_lem : (n : ℕ) (a : List ℕ) → IsString n a → string_field n a ≡ a
string_field_lem n a s =
    let pad : List ℕ = zeros (suc s.rest) in
    let len : length s.text + suc s.rest ≡ n = omega (
      arith,
      s.size,
      ap length s.array,
      length-append s.text pad,
      length-replicate {A = ℕ} (suc s.rest) 0,
    ) in
    let e : strlen a ≡ length s.text = ap strlen s.array ∙ strlen-append s.text s.rest s.nonzero in
    let m : min (strlen a) n ≡ length s.text = omega (arith, e) in
    let c : take (length s.text) a ≡ s.text =
      ap (λ t. take (length s.text) t) s.array ∙ take-append (length s.text) s.text pad refl in
    let z : drop (length s.text) (zeros n) ≡ pad =
      drop-replicate (length s.text) n ∙ zeros_eq (n - length s.text) (suc s.rest) (omega arith) in
    ap (λ t. terminate n (take t a ++ drop t (zeros n))) m
    ∙ ap (terminate n) (rw (c, z) (sym s.array))
    ∙ terminate-string n a s
