-- ===== src/Storage/Init.antt =====
-- lib/crypto_backend/crypto_storage.c: the setup of a storage context.
use cryptsetup.Base.{ℕ, zero, suc, ◌+◌, ◌-◌, ◌*◌, ◌/◌, ◌^◌, ◌<◌, ◌≡◌, refl, arith, List, take}
use cryptsetup.Base.{Bool, true, false, not, ◌&&◌, ◌||◌, ◌==◌, ltb, if◌then◌else◌, ◌⊎◌}
use cryptsetup.Base.{Result, ok, err, einval, enoent, ◌>>=◌, Option, none, some}
use cryptsetup.Base.{inl, inr, >>=-eq-ok, ok-injective, ap, sym, ◌∙◌, Bool-cases}
use cryptsetup.Base.Strings.{codes, same, same_nocase, starts_nocase, split_at}
use cryptsetup.Storage.{Backend, SectorIv, Storage, IvType, iv_none, iv_null, iv_plain, iv_plain64}
use cryptsetup.Storage.{iv_essiv, iv_benbi, iv_plain64be, iv_eboiv}
use Prim.Native.Nat.{bit_and}
use cryptsetup.Base.Bits.{holds_below, holds_below_sound}

-- The loop of `int_log2`; the fuel is a bound on the value, which is halved each round.
log2_loop : ℕ → ℕ → ℕ → ℕ
log2_loop zero x r = r
log2_loop (suc fuel) x r = let rest = log2_loop fuel (x / 2) (r + 1) in if x == 0 then r else rest

-- `int_log2` of a 32-bit number.
unfoldable pub int_log2 : ℕ → ℕ
unfolding log2_loop
int_log2 x = log2_loop 32 (x / 2) 0

module _ (b : Backend) where
  -- The IV context whose type needs no cipher.
  abbrev plain_iv : ℕ → IvType → SectorIv b
  plain_iv iv_size type = record { type = type; iv_size = iv_size; cipher = none; shift = 0 }

  -- The branches of `crypt_sector_iv_init` from the test of "null" on. The malloc of the IV buffer
  -- does not fail.
  unfoldable pub named_iv_init : List ℕ → List ℕ → List ℕ → ℕ → ℕ → Result (SectorIv b)
  unfolding same_nocase starts_nocase int_log2
  named_iv_init cipher_name iv_name key sector_size iv_size =
      if same_nocase iv_name (codes "null")
      then ok (plain_iv iv_size iv_null)
      else if same_nocase iv_name (codes "plain64")
      then ok (plain_iv iv_size iv_plain64)
      else if same_nocase iv_name (codes "plain64be")
      then ok (plain_iv iv_size iv_plain64be)
      else if same_nocase iv_name (codes "plain")
      then ok (plain_iv iv_size iv_plain)
      else if starts_nocase iv_name (codes "essiv:")
      then (do
        digest ← elim (split_at b':' iv_name).1 [
          | none ↦ err einval
          | some hash_name ↦ b.hash_key hash_name key
        ]
        h ← b.cipher_init cipher_name (codes "ecb") digest
        ok (record { type = iv_essiv; iv_size = iv_size; cipher = some h; shift = 0 }))
      else if starts_nocase iv_name (codes "benbi")
      then (if ltb 9 (int_log2 iv_size)
          then err einval
          else ok (record {
            type = iv_benbi;
            iv_size = iv_size;
            cipher = none;
            shift = 9 - int_log2 iv_size;
          }))
      else if starts_nocase iv_name (codes "eboiv")
      then (do
        h ← b.cipher_init cipher_name (codes "ecb") key
        ok (record {
          type = iv_eboiv;
          iv_size = iv_size;
          cipher = some h;
          shift = int_log2 sector_size;
        }))
      else err enoent

  -- `crypt_sector_iv_init`
  unfoldable pub sector_iv_init :
      List ℕ → List ℕ → Option (List ℕ) → List ℕ → ℕ → Result (SectorIv b)
  unfolding same
  sector_iv_init cipher_name mode_name iv_name key sector_size =
      elim (b.ivsize cipher_name mode_name) [
        | none ↦ err enoent
        | some iv_size ↦
            let is_ecb = same mode_name (codes "ecb") in
            if not is_ecb && ltb iv_size 8
            then err enoent
            else if same cipher_name (codes "cipher_null") || is_ecb
            then elim iv_name [ some _ ↦ err einval | none ↦ ok (plain_iv 0 iv_none) ]
            else elim iv_name [
              | none ↦ err einval
              | some name ↦ named_iv_init cipher_name name key sector_size iv_size
            ]
      ]

  -- `crypt_storage_init`; the cipher mode is cut to 63 bytes, and its part behind the first dash
  -- names the IV.
  unfoldable pub storage_init : ℕ → List ℕ → List ℕ → List ℕ → Bool → Result (Storage b)
  unfolding sector_iv_init split_at int_log2
  storage_init sector_size cipher cipher_mode key large_iv =
      if ltb sector_size 512
        || (ltb 4096 sector_size || not (bit_and sector_size (sector_size - 1) == 0))
      then err einval
      else let (mode_name, iv_name) = split_at b'-' (take 63 cipher_mode) in
        do
          h ← b.cipher_init cipher mode_name key
          iv ← sector_iv_init cipher mode_name iv_name key sector_size
          ok (record {
            sector_size = sector_size;
            iv_shift = if large_iv then int_log2 sector_size - 9 else 0;
            cipher = h;
            cipher_iv = iv;
          })

-- A number that the check of the sector size lets through is one of four.
is_sector_size : ℕ → Bool
is_sector_size n = n == 512 || (n == 1024 || (n == 2048 || n == 4096))

abbrev refused : ℕ → Bool
refused n = ltb n 512 || (ltb 4096 n || not (bit_and n (n - 1) == 0))

sector_size_table : holds_below (λ n. refused n || is_sector_size n) 4097 ≡ true
unfolding holds_below is_sector_size
sector_size_table = refl

sector_sizes : (n : ℕ) → refused n ≡ false → (n ≡ 512) ⊎ (n ≡ 1024) ⊎ (n ≡ 2048) ⊎ (n ≡ 4096)
unfolding is_sector_size
sector_sizes n h = ground (
  arith,
  λ (lt : n < 4097).
      holds_below_sound (λ (k : ℕ). refused k || is_sector_size k) 4097 n lt sector_size_table,
)

shift_of_size :
    (n : ℕ) (large : Bool)
    → (n ≡ 512) ⊎ (n ≡ 1024) ⊎ (n ≡ 2048) ⊎ (n ≡ 4096)
    → 512 * 2 ^ (if large then int_log2 n - 9 else 0) ≡ (if large then n else 512)
unfolding int_log2
shift_of_size n false h = refl
shift_of_size n true (inl e) = rw e
shift_of_size n true (inr (inl e)) = rw e
shift_of_size n true (inr (inr (inl e))) = rw e
shift_of_size n true (inr (inr (inr e))) = rw e

module _ (b : Backend) (sector_size : ℕ) (cipher cipher_mode key : List ℕ) (large_iv : Bool) where
  -- A storage context that `crypt_storage_init` returns has the sector size that was asked for, which
  -- is 512, 1024, 2048 or 4096, and counts its IVs in sectors of that size with large IVs, and of
  -- 512 bytes without.
  pub storage_init_sizes :
      {s : Storage b}
      → storage_init b sector_size cipher cipher_mode key large_iv ≡ ok s
      → (s.sector_size ≡ sector_size)
        × ((sector_size ≡ 512) ⊎ (sector_size ≡ 1024) ⊎ (sector_size ≡ 2048) ⊎ (sector_size ≡ 4096))
        × (512 * 2 ^ s.iv_shift ≡ (if large_iv then sector_size else 512))
  unfolding storage_init
  storage_init_sizes {s} h = elim (Bool-cases (refused sector_size)) [
    | inl bad ↦ absurd (cc (rw bad at h))
    | inr good ↦
        let (mode_name, iv_name) = split_at b'-' (take 63 cipher_mode) in
        let (c, _, h1) = >>=-eq-ok (b.cipher_init cipher mode_name key) (rw good at h) in
        let (iv, _, h2) =
          >>=-eq-ok (sector_iv_init b cipher mode_name iv_name key sector_size) h1 in
        let made = ok-injective h2 in
        let sizes = sector_sizes sector_size good in
        (
          ap (λ t. t.sector_size) (sym made),
          sizes,
          ap (λ t. 512 * 2 ^ t.iv_shift) (sym made) ∙ shift_of_size sector_size large_iv sizes,
        )
  ]
