-- ===== src/Verity/Levels.antt =====
-- lib/verity/verity_hash.c: the sizes and positions of the levels of the tree.
use cryptsetup.Base.{
  ℕ, zero, suc, ◌+◌, ◌-◌, ◌*◌, ◌/◌, ◌%◌, ◌^◌, List, [], ◌∷◌, ◌&&◌, not, ◌==◌, ltb, if◌then◌else◌,
}
use cryptsetup.Base.{Result, ok, err, einval}

-- The loops of the next two functions, with the rounds that are left.
bits_up : ℕ → ℕ → ℕ → ℕ
bits_up zero i u = i
bits_up (suc n) i u = let rest = bits_up n (suc i) u in if ltb (2 ^ i) u then rest else i

bits_down : ℕ → ℕ → ℕ → ℕ
bits_down zero i u = i
bits_down (suc n) i u = let rest = bits_down n (suc i) u in if ltb 1 (u / 2 ^ i) then rest else i

-- `get_bits_up`, for `u` up to 2^31: beyond that C shifts out of range.
unfoldable pub get_bits_up : ℕ → ℕ
unfolding bits_up
get_bits_up u = bits_up 32 0 u

-- `get_bits_down`
unfoldable pub get_bits_down : ℕ → ℕ
unfolding bits_down
get_bits_down u = bits_down 64 0 u

-- The loop that counts the levels; each round adds at least one bit, so 64 rounds are enough.
pub count_levels : ℕ → ℕ → ℕ → ℕ → ℕ
count_levels zero bits blocks levels = levels
count_levels (suc n) bits blocks levels =
    let rest = count_levels n bits blocks (suc levels) in
    if ltb (bits * levels) 64 && not ((blocks + 2 ^ 64 - 1) % 2 ^ 64 / 2 ^ (bits * levels) == 0)
    then rest
    else levels

-- `hash_level_block[i]` and `hash_level_size[i]`
pub record Level : Type 0 where
  pub block : ℕ
  pub size : ℕ

-- The blocks that level `i` needs.
abbrev pub level_size : ℕ → ℕ → ℕ → ℕ
level_size bits blocks i =
    (blocks + 2 ^ ((i + 1) * bits) + 2 ^ 64 - 1) % 2 ^ 64 / 2 ^ ((i + 1) * bits)

-- The loop from the highest level down: `i` levels are left, and `levels` are those done, the
-- lowest first.
unfoldable pub place_levels : ℕ → ℕ → ℕ → ℕ → List Level → Result (List Level × ℕ)
place_levels bits blocks zero hash_position levels = ok (levels, hash_position)
place_levels bits blocks (suc i) hash_position levels =
    let s = level_size bits blocks i in
    let next = (hash_position + s) % 2 ^ 64 in
    let rest =
      place_levels bits blocks i next (record { block = hash_position; size = s } ∷ levels) in
    if ltb 63 ((i + 1) * bits)
    then err einval
    else if ltb next hash_position
    then err einval
    else rest

abbrev pub max_levels : ℕ
max_levels = 63

-- `hash_levels`: the levels and the position after them.
unfoldable pub hash_levels : ℕ → ℕ → ℕ → ℕ → Result (List Level × ℕ)
unfolding count_levels place_levels get_bits_down
hash_levels hash_block_size digest_size data_file_blocks hash_position =
    let bits = get_bits_down (hash_block_size / digest_size) in
    let levels = count_levels 64 bits data_file_blocks 0 in
    if digest_size == 0
    then err einval
    else if bits == 0
    then err einval
    else if ltb max_levels levels
    then err einval
    else place_levels bits data_file_blocks levels hash_position []
