-- ===== src/Af.antt =====
-- lib/luks1/af.c: the anti-forensic splitter. A buffer is a list of bytes; the blocks of `dst` are
-- written one after the other, so the buffer is the list of what was written.
pub mod RoundTrip
mod Tests
use cryptsetup.Base.{ℕ, zero, suc, ◌+◌, ◌-◌, ◌*◌, ◌/◌, ◌%◌, ◌^◌, ◌<◌, bit_xor}
use cryptsetup.Base.{Bool, true, false, if◌then◌else◌, ltb, ◌==◌, List, [], ◌∷◌, ◌++◌}
use cryptsetup.Base.{length, take, drop, replicate, ◌≡◌}
use cryptsetup.Base.{Result, ok, err, Errno, einval, ◌>>=◌, ◌>>◌, guard}

-- The hash library and the random number generator that the code calls. `hash_init` is whether
-- `crypt_hash_init` succeeds, `hash_size` is 0 for an unknown hash, and `hash_final` is the digest
-- of all that was written, cut to the length asked for. `random i n` are the bytes for block `i`.
pub record Crypto : Type 0 where
  pub hash_size : ℕ
  pub hash_init : Bool
  pub hash_final : List ℕ → ℕ → Result (List ℕ)
  pub random : ℕ → ℕ → Result (List ℕ)

-- What the code relies on: the calls fill the buffers that they are given.
pub record IsSized (c : Crypto) : Type 0 where
  pub final_length : (m : List ℕ) (n : ℕ) (d : List ℕ) → c.hash_final m n ≡ ok d → length d ≡ n
  pub random_length : (i n : ℕ) (d : List ℕ) → c.random i n ≡ ok d → length d ≡ n

abbrev pub u32_mod : ℕ
u32_mod = 2 ^ 32

abbrev pub u64_mod : ℕ
u64_mod = 2 ^ 64

-- `XORblock`: the two sources have the same length.
unfoldable pub xor_block : List ℕ → List ℕ → List ℕ
xor_block [] ys = []
xor_block (x ∷ xs) [] = []
xor_block (x ∷ xs) (y ∷ ys) = bit_xor x y ∷ xor_block xs ys

-- The four bytes of a counter in big-endian order, which `be32_to_cpu` leaves in memory.
unfoldable pub be32 : ℕ → List ℕ
be32 n = n / 2 ^ 24 % 256 ∷ n / 2 ^ 16 % 256 ∷ n / 2 ^ 8 % 256 ∷ n % 256 ∷ []

module _ (c : Crypto) where
  open c use {hash_size, hash_init, hash_final, random}

  unfoldable pub hash_buf : List ℕ → ℕ → ℕ → Result (List ℕ)
  hash_buf src iv len = do guard hash_init einval; hash_final (be32 iv ++ take len src) len

  -- The loop of `diffuse` with `blocks` rounds left, at block `i`; `src` starts at that block. Each
  -- round reads its block before it writes it, so source and target may be one buffer.
  diffuse_blocks : ℕ → ℕ → List ℕ → ℕ → Result (List ℕ)
  unfolding hash_buf
  diffuse_blocks zero i src padding = if ltb 0 padding then hash_buf src i padding else ok []
  diffuse_blocks (suc blocks) i src padding = do
    d ← hash_buf src i hash_size
    rest ← diffuse_blocks blocks (i + 1) (drop hash_size src) padding
    ok (d ++ rest)

  unfoldable pub diffuse : List ℕ → ℕ → Result (List ℕ)
  unfolding diffuse_blocks
  diffuse src size =
      if hash_size == 0
      then err einval
      else diffuse_blocks (size / hash_size) 0 src (size % hash_size)

  -- `rounds` blocks are still to be filled with random bytes; `bufblock` is the running sum.
  split_blocks : ℕ → ℕ → List ℕ → List ℕ → ℕ → Result (List ℕ)
  unfolding diffuse
  split_blocks zero i src bufblock blocksize = ok (xor_block src bufblock)
  split_blocks (suc rounds) i src bufblock blocksize = do
    r ← random i blocksize
    bufblock' ← diffuse (xor_block r bufblock) blocksize
    rest ← split_blocks rounds (i + 1) src bufblock' blocksize
    ok (r ++ rest)

  -- `blocknumbers - 1` is an unsigned subtraction.
  unfoldable pub af_split : List ℕ → ℕ → ℕ → Result (List ℕ)
  unfolding split_blocks
  af_split src blocksize blocknumbers =
      split_blocks ((blocknumbers + u32_mod - 1) % u32_mod) 0 src (replicate blocksize 0) blocksize

  -- `src` starts at the block of this round.
  merge_blocks : ℕ → List ℕ → List ℕ → ℕ → Result (List ℕ)
  unfolding diffuse
  merge_blocks zero src bufblock blocksize = ok (xor_block (take blocksize src) bufblock)
  merge_blocks (suc rounds) src bufblock blocksize = do
    bufblock' ← diffuse (xor_block (take blocksize src) bufblock) blocksize
    merge_blocks rounds (drop blocksize src) bufblock' blocksize

  unfoldable pub af_merge : List ℕ → ℕ → ℕ → Result (List ℕ)
  unfolding merge_blocks
  af_merge src blocksize blocknumbers =
      merge_blocks ((blocknumbers + u32_mod - 1) % u32_mod) src (replicate blocksize 0) blocksize

-- `AF_split_sectors`, in `size_t` arithmetic with 512-byte sectors.
unfoldable pub af_split_sectors : ℕ → ℕ → ℕ
af_split_sectors blocksize blocknumbers = (blocksize * blocknumbers % u64_mod + 511) % u64_mod / 512
