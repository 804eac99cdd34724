-- ===== src/Verity/Hash.antt =====
-- lib/verity/verity_hash.c: one level of the tree is hashed, and the digests are written or
-- compared with those that are there.
use cryptsetup.Base.{
  ℕ, zero, suc, ◌+◌, ◌-◌, ◌*◌, ◌/◌, ◌%◌, ◌^◌, List, take, replicate, Bool, true, false, ◌||◌, ◌==◌,
  ltb, if◌then◌else◌,
}
use cryptsetup.Base.{Result, ok, err, einval, eperm, ◌>>=◌, Option, none, some}
use cryptsetup.Base.Strings.{same}
use cryptsetup.Verity.File.{File, fread, fwrite, fseek}
use cryptsetup.Verity.Levels.{get_bits_up, get_bits_down}

-- The hash library that the code calls.
pub record Crypto : Type 1 where
  pub Ctx : Type 0
  pub hash_init : List ℕ → Result Ctx
  pub hash_write : Ctx → List ℕ → Result Ctx
  pub hash_final : Ctx → ℕ → Result (List ℕ)

-- The parameters of the tree that stay the same.
pub record Params : Type 0 where
  pub version : ℕ
  pub hash_name : List ℕ
  pub data_block_size : ℕ
  pub hash_block_size : ℕ
  pub digest_size : ℕ
  pub salt : List ℕ

-- `verify_zero`
unfoldable pub verify_zero : ℕ → File → Result File
unfolding fread same
verify_zero bytes wr = do
  (block, wr') ← fread bytes wr
  if same block (replicate bytes 0) then ok wr' else err eperm

-- What the loop changes besides the hash file: the data file, the blocks that are left and the
-- digest calculated last.
pub record HashState : Type 0 where
  pub rd : File
  pub blocks : ℕ
  pub digest : List ℕ

-- `digest_size_full`
abbrev pub full_size : Params → ℕ
full_size p = 2 ^ get_bits_up p.digest_size

-- A digest in the hash file: compared if `verify`, and else written.
unfoldable pub put_digest : Bool → Params → List ℕ → File → Result File
unfolding fread fwrite same
put_digest true p digest wr = do
  (read_digest, wr') ← fread p.digest_size wr
  if same read_digest (take p.digest_size digest) then ok wr' else err eperm
put_digest false p digest wr = fwrite (take p.digest_size digest) wr

-- A spare area: checked for zeros if `verify`, and else written.
unfoldable pub put_spare : Bool → ℕ → File → Result File
unfolding verify_zero fwrite
put_spare true bytes wr = verify_zero bytes wr
put_spare false bytes wr = fwrite (replicate bytes 0) wr

-- The spare area after a digest, which version 0 has not.
abbrev pub put_padding : Bool → Params → File → Result File
put_padding verify p wr =
    if p.version == 0 || full_size p - p.digest_size == 0
    then ok wr
    else put_spare verify (full_size p - p.digest_size) wr

-- The rest of a hash block.
abbrev pub put_left : Bool → ℕ → File → Result File
put_left verify left_bytes wr = if left_bytes == 0 then ok wr else put_spare verify left_bytes wr

abbrev pub entry_size : Params → ℕ
entry_size p = if p.version == 0 then p.digest_size else full_size p

module _ (c : Crypto) where
  -- The salt comes before the data in version 1, and after it in version 0.
  abbrev pub hash_salted : Params → c.Ctx → List ℕ → Result (List ℕ)
  hash_salted p ctx block = do
    ctx1 ← if p.version == 1 then c.hash_write ctx p.salt else ok ctx
    ctx2 ← c.hash_write ctx1 block
    ctx3 ← if p.version == 0 then c.hash_write ctx2 p.salt else ok ctx2
    c.hash_final ctx3 p.digest_size

  -- `verify_hash_block`, which calculates the digest.
  unfoldable pub verify_hash_block : Params → List ℕ → Result (List ℕ)
  verify_hash_block p block = elim (c.hash_init p.hash_name) [
    | err e ↦ err einval
    | ok ctx ↦ hash_salted p ctx block
  ]

  -- One data block is read and hashed.
  unfoldable pub next_digest : Params → HashState → Result HashState
  unfolding fread verify_hash_block
  next_digest p s = do
    (block, rd) ← fread p.data_block_size s.rd
    elim (verify_hash_block p block) [
      | err e ↦ err einval
      | ok digest ↦ ok (record { rd = rd; blocks = s.blocks - 1; digest = digest })
    ]

  -- The inner loop, with `n` rounds left: the state and `left_bytes`. Without a hash file it stops
  -- after one block.
  unfoldable pub hash_blocks :
      Bool → Params → ℕ → ℕ → HashState → Option File → Result ((HashState × ℕ) × Option File)
  unfolding next_digest put_digest put_spare get_bits_up
  hash_blocks verify p zero left_bytes s wr = ok ((s, left_bytes), wr)
  hash_blocks verify p (suc n) left_bytes s wr =
      if s.blocks == 0
      then ok ((s, left_bytes), wr)
      else next_digest p s >>= λ s'. elim wr [
        | none ↦ ok ((s', left_bytes), none)
        | some f ↦ do
          f1 ← put_digest verify p s'.digest f
          f2 ← put_padding verify p f1
          hash_blocks verify p n ((left_bytes + 2 ^ 64 - entry_size p) % 2 ^ 64) s' (some f2)
      ]

  abbrev pub put_rest : Bool → ℕ → Option File → Result (Option File)
  put_rest verify left_bytes none = ok none
  put_rest verify left_bytes (some f) = put_left verify left_bytes f >>= λ f'. ok (some f')

  -- The outer loop, over hash blocks.
  unfoldable pub hash_level :
      Bool → Params → ℕ → ℕ → HashState → Option File → Result (HashState × Option File)
  unfolding hash_blocks
  hash_level verify p hash_per_block zero s wr = ok (s, wr)
  hash_level verify p hash_per_block (suc n) s wr = do
    ((s', left_bytes), wr') ← hash_blocks verify p hash_per_block p.hash_block_size s wr
    wr'' ← put_rest verify left_bytes wr'
    hash_level verify p hash_per_block n s' wr''

  abbrev pub seek_wr : ℕ → Option File → Result (Option File)
  seek_wr offset none = ok none
  seek_wr offset (some f) = fseek offset f >>= λ f'. ok (some f')

  -- The part of `create_or_verify` that uses the files, at the two offsets.
  abbrev pub hash_at :
      Params
      → File
      → Option File
      → ℕ
      → ℕ
      → ℕ
      → ℕ
      → ℕ
      → Bool
      → List ℕ
      → Result (List ℕ × Option File)
  hash_at p rd wr seek_rd seek_wr_ hash_per_block n blocks verify digest = do
    rd' ← fseek seek_rd rd
    wr' ← seek_wr seek_wr_ wr
    (s, wr'') ←
        hash_level verify p hash_per_block n (record { rd = rd'; blocks = blocks; digest = digest })
          wr'
    ok (s.digest, wr'')

  -- `create_or_verify`: the digest calculated last and the hash file. What was written before an
  -- error is not part of the result. `1 << bits` is an int: this is the code for hash blocks below
  -- 2^31 bytes, for which the shift does not overflow.
  unfoldable pub create_or_verify :
      Params → File → Option File → ℕ → ℕ → ℕ → Bool → List ℕ → Result (List ℕ × Option File)
  unfolding hash_level fseek get_bits_down
  create_or_verify p rd wr data_block hash_block blocks verify digest =
      let hash_per_block : ℕ = 2 ^ get_bits_down (p.hash_block_size / p.digest_size) in
      let blocks_to_write : ℕ = (blocks + hash_per_block + 2 ^ 64 - 1) % 2 ^ 64 / hash_per_block in
      if ltb 1024 p.digest_size
      then err einval
      else if ltb (2 ^ 64 - 1) (data_block * p.data_block_size)
          || ltb (2 ^ 64 - 1) (hash_block * p.hash_block_size)
      then err einval
      else hash_at p rd wr (data_block * p.data_block_size) (hash_block * p.hash_block_size)
          hash_per_block blocks_to_write blocks verify digest
