-- ===== src/Luks2/Reencrypt/Hotzone/Stored.antt =====
-- lib/luks2/luks2_reencrypt.c: the checksums of the hot zone in the area of the keyslot.
use cryptsetup.Base.{
  ℕ, zero, suc, ◌+◌, ◌-◌, ◌*◌, ◌/◌, ◌≤◌, ◌<◌, ◌≡◌, inl, inr, refl, sym, ap, ap₂, ◌∙◌, arith, List,
  [], ◌∷◌, ◌++◌, length, take, drop, take-append, length-append, Bool-cases, Bool, true, false, ltb,
  ◌||◌, ◌==◌, if◌then◌else◌, Option, none, some, Result, ok, err, einval, eio,
}
use cryptsetup.Luks2.Areas.{Area}
use cryptsetup.Luks2.Device.{
  Device, read_lseek, write_lseek, read_lseek_good, slice, slice-splice, length-splice,
  write_lseek-splice,
}
use cryptsetup.Luks2.Reencrypt.Hotzone.{
  Csum, protect_checksum, checksums, after_store, store_sums, keyslot_store_data,
  hotzone_protect_final,
}
use cryptsetup.Luks2.Reencrypt.Hotzone.Blocks.{
  blocks, checksums-suc, slice-drop, slice_start, slice-append,
}
use cryptsetup.Luks2.Reencrypt.Hotzone.Step.{IsHash}
use cryptsetup.Luks2.Validate.Fields.{some-injective}
use native.Mathlib.Nat.{div-eq_of_lt-le}

slice-take : (at n len : ℕ) (xs : List ℕ) → at + n ≤ len → slice at n (take len xs) ≡ slice at n xs
unfolding slice
slice-take zero zero len xs h = refl
slice-take zero (suc n) zero xs h = absurd (omega arith)
slice-take zero (suc n) (suc len) [] h = refl
slice-take zero (suc n) (suc len) (x ∷ xs) h =
    ap (λ t. x ∷ t) (slice-take zero n len xs (omega arith))
slice-take (suc at) n zero xs h = absurd (omega arith)
slice-take (suc at) n (suc len) [] h = refl
slice-take (suc at) n (suc len) (x ∷ xs) h = slice-take at n len xs (omega arith)

-- A part of a read is a read.
pub slice-slice :
    (at n offset len : ℕ) (xs : List ℕ)
    → at + n ≤ len
    → slice at n (slice offset len xs) ≡ slice (offset + at) n xs
slice-slice at n offset len xs h =
    unfold slice in slice-take at n len (drop offset xs) h ∙ sym (slice-drop offset at n xs)

-- The block `k` of the blocks from `s` on.
pub slice-blocks :
    (f : ℕ → List ℕ) (size n s k j : ℕ)
    → ((i : ℕ) → i < s + n → length (f i) ≡ size)
    → k < n
    → s + k ≡ j
    → slice (k * size) size (blocks f n s) ≡ f j
unfolding blocks
slice-blocks f size zero s k j long h e = absurd (omega arith)
slice-blocks f size (suc n) s zero j long h e =
    let at : s ≡ j = omega arith in
    slice_start size (f s ++ blocks f n (suc s))
    ∙ take-append size (f s) (blocks f n (suc s)) (long s (omega arith))
    ∙ ap f at
slice-blocks f size (suc n) s (suc k) j long h e =
    slice-append size (k * size) (suc k * size) (f s) (blocks f n (suc s)) (long s (omega arith))
      (omega arith)
    ∙ slice-blocks f size n (suc s) k j (λ i h. long i (omega arith)) (omega arith) (omega arith)

length-checksums :
    (c : Csum) (alignment n : ℕ) (buffer sums : List ℕ)
    → IsHash c
    → checksums c alignment n buffer ≡ some sums
    → length sums ≡ n * c.hash_size
unfolding checksums
length-checksums c alignment zero buffer sums hashes e = sym (ap length (none_left e)) ∙ omega arith
  where
    none_left : checksums c alignment 0 buffer ≡ some sums → [] ≡ sums
    none_left e = some-injective e
length-checksums c alignment (suc n) buffer sums hashes e =
    let (sum, rest, first, others, parts) = checksums-suc c alignment n buffer sums e in
    let ih = length-checksums c alignment n (drop alignment buffer) rest hashes others in
    let long = hashes.size (take alignment buffer) sum first in
    sym (ap length parts) ∙ omega (arith, length-append sum rest, ih, long)

-- What the keyslot stores is in its area.
keyslot_store_data-read :
    (meta meta1 : Device) (area : Area) (buffer : List ℕ)
    → keyslot_store_data meta area buffer ≡ (meta1, ok tt)
    → area.offset + area.len ≤ length meta.bytes
    → meta.bad area.offset (length buffer) ≡ false
    → (length buffer ≤ area.len) × (read_lseek meta1 (length buffer) area.offset ≡ some buffer)
unfolding keyslot_store_data
keyslot_store_data-read meta meta1 area buffer e fits good =
    elim (Bool-cases (area.offset == 0 || (area.len == 0 || ltb area.len (length buffer)))) [
      | inl bad ↦ absurd (refused (rw bad at e))
      | inr room ↦ from_write room (rw room at e)
    ]
  where
    refused : ◌≡◌ {A = Device × Result (Unit {0})} (meta, err einval) (meta1, ok tt) → ⊥
    refused e =
        let bad : ◌≡◌ {A = Result (Unit {0})} (err einval) (ok tt) =
          ap (λ (p : Device × Result (Unit {0})). p.1) e in
        absurd cc

    all_written :
        (n : ℕ)
        → ◌≡◌ {A = Result (Unit {0})} (if n == length buffer then ok tt else err eio) (ok tt)
        → n ≡ length buffer
    all_written n e = ground arith

    from_write :
        (area.offset == 0 || (area.len == 0 || ltb area.len (length buffer))) ≡ false
        → ◌≡◌ {A = Device × Result (Unit {0})}
            (
              (write_lseek meta buffer area.offset).0,
              if (write_lseek meta buffer area.offset).1 == length buffer then ok tt else err eio,
            )
            (meta1, ok tt)
        → (length buffer ≤ area.len) × (read_lseek meta1 (length buffer) area.offset ≡ some buffer)
    from_write room e =
        let fits_area : length buffer ≤ area.len = ground arith in
        let count : (write_lseek meta buffer area.offset).1 ≡ length buffer =
          all_written (write_lseek meta buffer area.offset).1
            (ap (λ (p : Device × Result (Unit {0})). p.1) e) in
        let device = ap (λ (p : Device × Result (Unit {0})). p.0) e in
        let (bytes, bad) =
          write_lseek-splice meta meta1 buffer area.offset (omega arith)
            (ap₂ (λ d (n : ℕ). (d, n)) device count) in
        let long : length meta1.bytes ≡ length meta.bytes =
          ap length bytes ∙ length-splice area.offset buffer meta.bytes (omega arith) in
        (
          fits_area,
          read_lseek_good meta1 (length buffer) area.offset
                (ap (λ f. f area.offset (length buffer)) bad ∙ good) (omega arith)
              ∙ ap some (
                  ap (slice area.offset (length buffer)) bytes
                  ∙ slice-splice area.offset buffer meta.bytes (omega arith)),
        )

-- After the protection by checksums, the area holds the checksums of the blocks of the buffer.
pub hotzone_protect_final-read :
    (hdr_write : Device → Device × Result (Unit {0})) (c : Csum) (alignment count : ℕ) (area : Area)
    (meta meta1 : Device) (buffer : List ℕ)
    → IsHash c
    → 0 < alignment
    → length buffer ≡ count * alignment
    → area.offset + area.len ≤ length meta.bytes
    → meta.bad area.offset (count * c.hash_size) ≡ false
    → ((m : Device)
        → read_lseek (hdr_write m).0 (count * c.hash_size) area.offset
          ≡ read_lseek m (count * c.hash_size) area.offset)
    → hotzone_protect_final hdr_write (protect_checksum c) alignment area meta buffer
      ≡ (meta1, ok tt)
    → (sums : List ℕ) × (checksums c alignment count buffer ≡ some sums)
      × (count * c.hash_size ≤ area.len)
      × (read_lseek meta1 (count * c.hash_size) area.offset ≡ some sums)
unfolding hotzone_protect_final
hotzone_protect_final-read hdr_write c alignment count area meta meta1 buffer hashes pos long fits
      good keeps e =
    let blocks_left : (length buffer + (alignment - 1)) / alignment ≡ count =
      ap (λ k. (k + (alignment - 1)) / alignment) long
      ∙ div-eq_of_lt-le alignment {m = count * alignment + (alignment - 1)} (omega arith)
          (omega arith) in
    by_sums (checksums c alignment count buffer) refl (
      ap (λ n. store_sums hdr_write area meta (checksums c alignment n buffer)) (sym blocks_left)
      ∙ e)
  where
    by_store :
        (sums : List ℕ) (run : Device × Result (Unit {0}))
        → length sums ≡ count * c.hash_size
        → keyslot_store_data meta area sums ≡ run
        → after_store hdr_write run ≡ (meta1, ok tt)
        → (count * c.hash_size ≤ area.len)
          × (read_lseek meta1 (count * c.hash_size) area.offset ≡ some sums)
    by_store sums (m, err x) size d e =
        let bad : ◌≡◌ {A = Result (Unit {0})} (err x) (ok tt) =
          ap (λ (p : Device × Result (Unit {0})). p.1) e in
        absurd cc
    by_store sums (m, ok tt) size d e =
        let (room, read) =
          keyslot_store_data-read meta m area sums d fits
            (ap (λ n. meta.bad area.offset n) size ∙ good) in
        (
          omega arith,
          ap (λ (p : Device × Result (Unit {0})). read_lseek p.0 (count * c.hash_size) area.offset)
                (sym e)
              ∙ keeps m
              ∙ ap (λ n. read_lseek m n area.offset) (sym size)
              ∙ read,
        )

    not_refused :
        (b : Bool) (run : Device × Result (Unit {0}))
        → (if b then (meta, err einval) else run) ≡ (meta1, ok tt)
        → run ≡ (meta1, ok tt)
    not_refused true run e =
        let bad : ◌≡◌ {A = Result (Unit {0})} (err einval) (ok tt) =
          ap (λ (p : Device × Result (Unit {0})). p.1) e in
        absurd cc
    not_refused false run e = e

    by_sums :
        (o : Option (List ℕ))
        → checksums c alignment count buffer ≡ o
        → store_sums hdr_write area meta o ≡ (meta1, ok tt)
        → (sums : List ℕ) × (checksums c alignment count buffer ≡ some sums)
          × (count * c.hash_size ≤ area.len)
          × (read_lseek meta1 (count * c.hash_size) area.offset ≡ some sums)
    by_sums none o e =
        let bad : ◌≡◌ {A = Result (Unit {0})} (err einval) (ok tt) =
          ap (λ (p : Device × Result (Unit {0})). p.1) e in
        absurd cc
    by_sums (some sums) o e =
        let size = length-checksums c alignment count buffer sums hashes o in
        let (room, read) = by_store sums (keyslot_store_data meta area sums) size refl (
          not_refused (length sums == 0) (after_store hdr_write (keyslot_store_data meta area sums))
            e) in
        (sums, o, room, read)
