-- ===== src/Luks2/Reencrypt/Length.antt =====
-- lib/luks2/luks2_reencrypt.c: how long a hot zone is, `reencrypt_length`.
use cryptsetup.Base.{
  ℕ, ◌-◌, ◌*◌, ◌/◌, ◌%◌, ◌≤◌, ◌<◌, ◌≡◌, inl, inr, arith, Bool-cases, not, ◌||◌, ◌==◌, ltb,
  if◌then◌else◌, min,
}
use cryptsetup.Luks2.Reencrypt.Hotzone.{
  Csum, Protection, protect_none, protect_journal, protect_datashift, protect_checksum,
}
use cryptsetup.Wrapper.{u64}
use mathlib.Core.Path.{subst}
use Prim.Native.Nat.{◌∣◌}
use native.Mathlib.Nat.{
  div-add-mod, dvd-mul_right, dvd_of_mod-eq-zero, dvd_trans, mod-eq-zero_of_dvd,
  le_of_mul-le-mul_right, mul-le-mul_right, div-mul-le_self,
}

-- What `reencrypt_length` asks the system and the header for.
pub record Limits : Type 0 where
  pub alignment : ℕ
  pub area_len : ℕ
  pub length_max : ℕ
  pub data_shift : ℕ
  -- A quarter of the memory, 0 if it is not known.
  pub soft_limit : ℕ
  pub optimal : ℕ

-- `LUKS2_REENCRYPT_MAX_HOTZONE_LENGTH` and `LUKS2_DEFAULT_NONE_REENCRYPTION_LENGTH`
abbrev pub max_hotzone_length : ℕ
max_hotzone_length = 0x40000000

abbrev pub default_none_length : ℕ
default_none_length = 0x1400000

-- The length before the limits.
abbrev pub wanted_length : Protection → Limits → ℕ
wanted_length protect_none l = if l.length_max == 0 then default_none_length else l.length_max
wanted_length (protect_checksum c) l = u64 (l.area_len / c.hash_size * l.alignment)
wanted_length protect_datashift l = l.data_shift
wanted_length protect_journal l = l.area_len

abbrev pub limited_length : Limits → ℕ → ℕ
limited_length l len =
    let len1 : ℕ = min len max_hotzone_length in
    let len2 : ℕ = if not (l.soft_limit == 0) then min len1 l.soft_limit else len1 in
    let len3 : ℕ = if not (l.length_max == 0) then min len2 l.length_max else len2 in
    len3 - len3 % l.alignment

abbrev pub optimal_length : Limits → ℕ → ℕ
optimal_length l len =
    if len == 0 || not (l.optimal % l.alignment == 0)
    then len
    else if ltb l.optimal len
    then len - len % l.optimal
    else len

-- `reencrypt_length`
unfoldable pub reencrypt_length : Protection → Limits → ℕ
reencrypt_length protect_datashift l = l.data_shift
reencrypt_length protect_none l = optimal_length l (limited_length l (wanted_length protect_none l))
reencrypt_length protect_journal l =
    optimal_length l (limited_length l (wanted_length protect_journal l))
reencrypt_length (protect_checksum c) l =
    optimal_length l (limited_length l (wanted_length (protect_checksum c) l))

-- Cutting a number down to a multiple.
dvd_trim : (n x : ℕ) → n ∣ x - x % n
dvd_trim n x =
    let whole : n * (x / n) ≡ x - x % n = omega (arith, div-add-mod x n) in
    subst (λ k. n ∣ k) whole (dvd-mul_right n (x / n))

optimal_multiple :
    (l : Limits) (len : ℕ)
    → l.alignment ∣ len
    → (l.alignment ∣ optimal_length l len) × (optimal_length l len ≤ len)
optimal_multiple l len e = elim (Bool-cases (len == 0 || not (l.optimal % l.alignment == 0))) [
  | inl kept ↦ rw kept (e, omega arith)
  | inr cut ↦ rw cut (
      let fits : l.optimal % l.alignment ≡ 0 = ground arith in
      let parts = dvd_of_mod-eq-zero l.alignment {n = l.optimal} fits in
      elim (Bool-cases (ltb l.optimal len)) [
        | inl large ↦ rw large (dvd_trans l.alignment parts (dvd_trim l.optimal len), omega arith)
        | inr small ↦ rw small (e, omega arith)
      ])
]

limited_multiple :
    (l : Limits) (len : ℕ)
    → (l.alignment ∣ limited_length l len)
      × (limited_length l len ≤ len)
      × (limited_length l len ≤ max_hotzone_length)
limited_multiple l len =
    let len1 : ℕ = min len max_hotzone_length in
    let len2 : ℕ = if not (l.soft_limit == 0) then min len1 l.soft_limit else len1 in
    let len3 : ℕ = if not (l.length_max == 0) then min len2 l.length_max else len2 in
    let less2 : len2 ≤ len1 = ground arith in
    let less3 : len3 ≤ len2 = ground arith in
    (dvd_trim l.alignment len3, omega (arith, less2, less3), omega (arith, less2, less3))

-- With the protection by checksums, the length that reencrypt_length gives a hot zone is a multiple of
-- the alignment, the checksums of its blocks fit into the area of the keyslot, and it is not above the
-- largest length of a hot zone. The alignment is not 0.
pub reencrypt_length-checksum :
    (c : Csum) (l : Limits)
    → 0 < l.alignment
    → (reencrypt_length (protect_checksum c) l % l.alignment ≡ 0)
      × (reencrypt_length (protect_checksum c) l / l.alignment * c.hash_size ≤ l.area_len)
      × (reencrypt_length (protect_checksum c) l ≤ max_hotzone_length)
unfolding reencrypt_length
reencrypt_length-checksum c l pos =
    let wanted : ℕ = wanted_length (protect_checksum c) l in
    let (parts, less, bounded) = limited_multiple l wanted in
    let (parts1, less1) = optimal_multiple l (limited_length l wanted) parts in
    let len : ℕ = optimal_length l (limited_length l wanted) in
    let count : ℕ = l.area_len / c.hash_size in
    let below : len ≤ count * l.alignment = omega (arith, less, less1) in
    let blocks : len / l.alignment ≤ count =
      le_of_mul-le-mul_right {m = len / l.alignment} {k = l.alignment}
        (omega (arith, div-mul-le_self len l.alignment, below)) pos in
    (
      mod-eq-zero_of_dvd l.alignment parts1,
      omega (arith, mul-le-mul_right c.hash_size blocks, div-mul-le_self l.area_len c.hash_size),
      omega (arith, less1, bounded),
    )
