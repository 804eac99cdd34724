-- ===== src/Luks2/Device/Bytes.antt =====
-- Reading and writing a range of bytes in a buffer.
use cryptsetup.Base.{ℕ, zero, suc, ◌+◌, ◌≤◌, ◌≡◌, refl, ap, arith, List, [], ◌∷◌, ◌++◌}
use cryptsetup.Base.{length, take, drop, take-append, length-append, length-drop, length-take}

-- The `len` bytes at `offset`.
unfoldable pub slice : ℕ → ℕ → List ℕ → List ℕ
slice offset len bytes = take len (drop offset bytes)

-- The bytes after `data` is put at `offset`.
unfoldable pub splice : ℕ → List ℕ → List ℕ → List ℕ
splice offset src bytes = take offset bytes ++ (src ++ drop (length src) (drop offset bytes))

take-splice :
    (n offset : ℕ) (src bytes : List ℕ)
    → n ≤ offset
    → offset ≤ length bytes
    → take n (splice offset src bytes) ≡ take n bytes
unfolding splice
take-splice zero offset src bytes h k = refl
take-splice (suc n) zero src bytes h k = absurd (omega arith)
take-splice (suc n) (suc offset) src [] h k = absurd (omega arith)
take-splice (suc n) (suc offset) src (b ∷ bytes) h k =
    ap (λ t. b ∷ t) (take-splice n offset src bytes (omega arith) (omega arith))

drop-over :
    (n : ℕ) (src bytes : List ℕ)
    → length src ≤ n
    → length src ≤ length bytes
    → drop n (src ++ drop (length src) bytes) ≡ drop n bytes
drop-over n [] bytes h k = refl
drop-over zero (s ∷ src) bytes h k = absurd (omega arith)
drop-over (suc n) (s ∷ src) [] h k = absurd (omega arith)
drop-over (suc n) (s ∷ src) (b ∷ bytes) h k = drop-over n src bytes (omega arith) (omega arith)

drop-splice :
    (n offset : ℕ) (src bytes : List ℕ)
    → offset + length src ≤ n
    → offset + length src ≤ length bytes
    → drop n (splice offset src bytes) ≡ drop n bytes
unfolding splice
drop-splice n zero src bytes h k = drop-over n src bytes (omega arith) (omega arith)
drop-splice zero (suc offset) src bytes h k = absurd (omega arith)
drop-splice (suc n) (suc offset) src [] h k = absurd (omega arith)
drop-splice (suc n) (suc offset) src (b ∷ bytes) h k =
    drop-splice n offset src bytes (omega arith) (omega arith)

-- What was written is read back.
pub slice-splice :
    (offset : ℕ) (src bytes : List ℕ)
    → offset + length src ≤ length bytes
    → slice offset (length src) (splice offset src bytes) ≡ src
unfolding slice splice
slice-splice zero src bytes h = take-append (length src) src (drop (length src) bytes) refl
slice-splice (suc offset) src [] h = absurd (omega arith)
slice-splice (suc offset) src (b ∷ bytes) h = slice-splice offset src bytes (omega arith)

-- The start of what was written at the start.
pub slice-splice_front :
    (n : ℕ) (src bytes : List ℕ) → n ≤ length src → slice 0 n (splice 0 src bytes) ≡ take n src
unfolding slice splice
slice-splice_front n src bytes h = take-append_front n src (drop (length src) bytes) h
  where
    take-append_front : (m : ℕ) (xs ys : List ℕ) → m ≤ length xs → take m (xs ++ ys) ≡ take m xs
    take-append_front zero xs ys k = refl
    take-append_front (suc m) [] ys k = absurd (omega arith)
    take-append_front (suc m) (x ∷ xs) ys k =
        ap (λ t. x ∷ t) (take-append_front m xs ys (omega arith))

-- A write leaves a range before it as it was.
pub slice-splice_before :
    (at len offset : ℕ) (src bytes : List ℕ)
    → at + len ≤ offset
    → offset ≤ length bytes
    → slice at len (splice offset src bytes) ≡ slice at len bytes
unfolding slice splice
slice-splice_before zero len offset src bytes h k = take-splice len offset src bytes (omega arith) k
slice-splice_before (suc at) len zero src bytes h k = absurd (omega arith)
slice-splice_before (suc at) len (suc offset) src [] h k = absurd (omega arith)
slice-splice_before (suc at) len (suc offset) src (b ∷ bytes) h k =
    slice-splice_before at len offset src bytes (omega arith) (omega arith)

-- A write leaves a range behind it as it was.
pub slice-splice_after :
    (at len offset : ℕ) (src bytes : List ℕ)
    → offset + length src ≤ at
    → offset + length src ≤ length bytes
    → slice at len (splice offset src bytes) ≡ slice at len bytes
unfolding slice
slice-splice_after at len offset src bytes h k =
    ap (λ t. take len t) (drop-splice at offset src bytes h k)

-- A write inside the buffer keeps its size.
pub length-splice :
    (offset : ℕ) (src bytes : List ℕ)
    → offset + length src ≤ length bytes
    → length (splice offset src bytes) ≡ length bytes
unfolding splice
length-splice zero src bytes h =
    omega (arith, length-append src (drop (length src) bytes), length-drop (length src) bytes)
length-splice (suc offset) src [] h = absurd (omega arith)
length-splice (suc offset) src (b ∷ bytes) h = ap suc (length-splice offset src bytes (omega arith))

pub length-slice :
    (offset len : ℕ) (bytes : List ℕ)
    → offset + len ≤ length bytes
    → length (slice offset len bytes) ≡ len
unfolding slice
length-slice offset len bytes h =
    omega (arith, length-take len (drop offset bytes), length-drop offset bytes)
