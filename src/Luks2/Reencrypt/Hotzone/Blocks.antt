-- ===== src/Luks2/Reencrypt/Hotzone/Blocks.antt =====
-- lib/luks2/luks2_reencrypt.c: a buffer as blocks, and their checksums.
use cryptsetup.Base.{
  ℕ, zero, suc, ◌+◌, ◌*◌, ◌≤◌, ◌<◌, ◌≡◌, refl, sym, ap, ◌∙◌, arith, List, [], ◌∷◌, ◌++◌, length,
  take, drop, take-append, drop-append, take-append-drop, length-take, Option, none, some,
}
use cryptsetup.Io.Bytes.{drop-drop}
use cryptsetup.Luks2.Device.{slice, splice}
use cryptsetup.Luks2.Reencrypt.Hotzone.{Csum, checksums}
use cryptsetup.Luks2.Validate.Fields.{some-injective}

-- Two writes, the second of which starts where the first ends, are one.
pub splice-splice :
    (offset k : ℕ) (s1 s2 xs : List ℕ)
    → offset + length s1 ≡ k
    → k + length s2 ≤ length xs
    → splice k s2 (splice offset s1 xs) ≡ splice offset (s1 ++ s2) xs
unfolding splice
splice-splice zero zero [] s2 xs e h = refl
splice-splice zero (suc k) [] s2 xs e h = absurd (omega arith)
splice-splice zero zero (a ∷ s1) s2 xs e h = absurd (omega arith)
splice-splice zero (suc k) (a ∷ s1) s2 [] e h = absurd (omega arith)
splice-splice zero (suc k) (a ∷ s1) s2 (x ∷ xs) e h =
    ap (λ t. a ∷ t) (splice-splice zero k s1 s2 xs (omega arith) (omega arith))
splice-splice (suc offset) zero s1 s2 xs e h = absurd (omega arith)
splice-splice (suc offset) (suc k) s1 s2 [] e h = absurd (omega arith)
splice-splice (suc offset) (suc k) s1 s2 (x ∷ xs) e h =
    ap (λ t. x ∷ t) (splice-splice offset k s1 s2 xs (omega arith) (omega arith))

-- Writing what stands there changes nothing.
pub splice-slice :
    (offset n : ℕ) (xs : List ℕ)
    → offset + n ≤ length xs
    → splice offset (slice offset n xs) xs ≡ xs
unfolding splice slice
splice-slice zero n xs h =
    let size : length (take n xs) ≡ n = omega (arith, length-take n xs) in
    ap (λ k. take n xs ++ drop k xs) size ∙ take-append-drop n xs
splice-slice (suc offset) n [] h = absurd (omega arith)
splice-slice (suc offset) n (x ∷ xs) h = ap (λ t. x ∷ t) (splice-slice offset n xs (omega arith))

-- The bytes of the blocks from `s` on, of which there are `n`.
unfoldable pub blocks : (ℕ → List ℕ) → ℕ → ℕ → List ℕ
blocks f zero s = []
blocks f (suc n) s = f s ++ blocks f n (suc s)

pub slice-drop : (m n k : ℕ) (xs : List ℕ) → slice (m + n) k xs ≡ slice n k (drop m xs)
unfolding slice
slice-drop m n k xs = ap (take k) (sym (drop-drop n m (m + n) xs (omega arith)))

pub slice_start : (k : ℕ) (xs : List ℕ) → slice (0 * k) k xs ≡ take k xs
unfolding slice
slice_start k xs = let none : 0 * k ≡ 0 = omega arith in ap (λ i. take k (drop i xs)) none

pub slice-append :
    (n k i : ℕ) (xs ys : List ℕ) → length xs ≡ n → n + k ≡ i → slice i n (xs ++ ys) ≡ slice k n ys
unfolding slice
slice-append n k i xs ys size e =
    ap (take n) (sym (drop-drop k n i (xs ++ ys) e) ∙ ap (drop k) (drop-append n xs ys size))

-- The checksums of a buffer are the one of its first block, and those of the others.
pub checksums-suc :
    (c : Csum) (alignment n : ℕ) (buffer sums : List ℕ)
    → checksums c alignment (suc n) buffer ≡ some sums
    → (sum : List ℕ) × (rest : List ℕ) × (c.hash (take alignment buffer) ≡ some sum)
      × (checksums c alignment n (drop alignment buffer) ≡ some rest)
      × (sum ++ rest ≡ sums)
unfolding checksums
checksums-suc c alignment n buffer sums h =
    by_hash (c.hash (take alignment buffer)) (checksums c alignment n (drop alignment buffer)) h
  where
    by_hash :
        (o p : Option (List ℕ))
        → elim o [
          | none ↦ none
          | some sum ↦ elim p [ none ↦ none | some rest ↦ some (sum ++ rest) ]
        ]
          ≡ some sums
        → (sum : List ℕ) × (rest : List ℕ) × (o ≡ some sum) × (p ≡ some rest) × (sum ++ rest ≡ sums)
    by_hash none p g = absurd cc
    by_hash (some sum) none g = absurd cc
    by_hash (some sum) (some rest) g = (sum, rest, refl, refl, some-injective g)

-- The checksum of a block stands at its place.
pub checksums-slice :
    (c : Csum) (alignment n : ℕ) (buffer sums : List ℕ) (s : ℕ)
    → ((x sum : List ℕ) → c.hash x ≡ some sum → length sum ≡ c.hash_size)
    → checksums c alignment n buffer ≡ some sums
    → s < n
    → c.hash (slice (s * alignment) alignment buffer)
      ≡ some (slice (s * c.hash_size) c.hash_size sums)
checksums-slice c alignment zero buffer sums s size h small = absurd (omega arith)
checksums-slice c alignment (suc n) buffer sums zero size h small =
    let (sum, rest, first, others, e) = checksums-suc c alignment n buffer sums h in
    let stored : take c.hash_size sums ≡ sum =
      ap (take c.hash_size) (sym e)
      ∙ take-append c.hash_size sum rest (size (take alignment buffer) sum first) in
    ap c.hash (slice_start alignment buffer)
    ∙ first
    ∙ ap some (sym stored ∙ sym (slice_start c.hash_size sums))
checksums-slice c alignment (suc n) buffer sums (suc s) size h small =
    let (sum, rest, first, others, e) = checksums-suc c alignment n buffer sums h in
    let long = size (take alignment buffer) sum first in
    let next : suc s * alignment ≡ alignment + s * alignment = omega arith in
    ap (λ i. c.hash (slice i alignment buffer)) next
    ∙ ap c.hash (slice-drop alignment (s * alignment) alignment buffer)
    ∙ checksums-slice c alignment n (drop alignment buffer) rest s size others (omega arith)
    ∙ ap some (
        sym (
          slice-append c.hash_size (s * c.hash_size) (suc s * c.hash_size) sum rest long
            (omega arith))
        ∙ ap (slice (suc s * c.hash_size) c.hash_size) e)
