-- ===== src/Verity/Stack.antt =====
-- lib/verity/verity_hash.c: the levels of the tree stand one after the other.
use cryptsetup.Base.{
  ℕ, zero, suc, ◌+◌, ◌-◌, ◌/◌, ◌*◌, ◌%◌, ◌^◌, ◌≡◌, ◌≤◌, ◌<◌, refl, arith, List, [], ◌∷◌, ◌==◌, ltb,
  false,
}
use cryptsetup.Base.{ok, err, einval, if-eq-ok, ok-injective, if◌then◌else◌}
use mathlib.Core.Path.{subst}
use cryptsetup.Verity.Levels.{
  Level, place_levels, level_size, hash_levels, count_levels, get_bits_down, max_levels,
}
use native.Mathlib.Nat.{div-le_self}

-- From `lo` to `hi` stand the levels, the last of the list first, with nothing between them.
abbrev pub Stacked : ℕ → ℕ → List Level → Type 0
Stacked lo hi [] = lo ≡ hi
Stacked lo hi (l ∷ levels) = (l.block + l.size ≡ hi) × Stacked lo l.block levels

place_levels-Stacked :
    (bits blocks i lo position : ℕ) (levels result : List Level) (end : ℕ)
    → Stacked lo position levels
    → position < 2 ^ 64
    → place_levels bits blocks i position levels ≡ ok (result, end)
    → Stacked lo end result × (end < 2 ^ 64)
unfolding place_levels
place_levels-Stacked bits blocks zero lo position levels result end v small h =
    let same : (levels, position) ≡ (result, end) = ok-injective h in
    subst (λ (r : List Level × ℕ). Stacked lo r.1 r.0 × (r.1 < 2 ^ 64)) same (v, small)
place_levels-Stacked bits blocks (suc i) lo position levels result end v small h =
    let s : ℕ = level_size bits blocks i in
    let next : ℕ = (position + s) % 2 ^ 64 in
    let levels' : List Level = record { block = position; size = s } ∷ levels in
    let rest = place_levels bits blocks i next levels' in
    let (_, h1) =
      if-eq-ok (ltb 63 ((i + 1) * bits)) einval (if ltb next position then err einval else rest)
        h in
    let (no_wrap, h2) = if-eq-ok (ltb next position) einval rest h1 in
    let numerator : ℕ = (blocks + 2 ^ ((i + 1) * bits) + 2 ^ 64 - 1) % 2 ^ 64 in
    let below : s ≤ numerator = div-le_self numerator (2 ^ ((i + 1) * bits)) in
    let bound : numerator < 2 ^ 64 = omega arith in
    let sum : position + s ≡ next = fits s no_wrap (omega arith) in
    place_levels-Stacked bits blocks i lo next levels' result end (sum, v) (omega arith) h2
  where
    fits :
        (s : ℕ)
        → ltb ((position + s) % 2 ^ 64) position ≡ false
        → s < 2 ^ 64
        → position + s ≡ (position + s) % 2 ^ 64
    fits s no_wrap lt = ground arith

-- If hash_levels succeeds, the levels of the tree fill the blocks from the position given to the one
-- returned, which fits into 64 bits, the highest level first, without gaps or overlaps.
pub hash_levels-Stacked :
    (hash_block_size digest_size blocks position : ℕ) (levels : List Level) (end : ℕ)
    → position < 2 ^ 64
    → hash_levels hash_block_size digest_size blocks position ≡ ok (levels, end)
    → Stacked position end levels × (end < 2 ^ 64)
unfolding hash_levels
hash_levels-Stacked hash_block_size digest_size blocks position levels end small h =
    let bits : ℕ = get_bits_down (hash_block_size / digest_size) in
    let n : ℕ = count_levels 64 bits blocks 0 in
    let placed = place_levels bits blocks n position [] in
    let (_, h1) =
      if-eq-ok (digest_size == 0) einval
        (if bits == 0 then err einval else if ltb max_levels n then err einval else placed) h in
    let (_, h2) =
      if-eq-ok (bits == 0) einval (if ltb max_levels n then err einval else placed) h1 in
    let (_, h3) = if-eq-ok (ltb max_levels n) einval placed h2 in
    place_levels-Stacked bits blocks n position position [] levels end refl small h3
