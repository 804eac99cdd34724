-- ===== src/Storage/Iv.antt =====
-- lib/crypto_backend/crypto_storage.c: which sectors share an IV.
use cryptsetup.Base.{ℕ, ◌-◌, ◌%◌, ◌^◌, ◌<◌, ◌≡◌, refl, sym, ap, ◌∙◌, arith, List, ◌++◌}
use cryptsetup.Base.{
  length, take, drop, replicate, ok, ok-injective, take-append, drop-append, ◌⊎◌, inl, inr,
}
use cryptsetup.Base.{◌↔◌}
use cryptsetup.Base.Endian.{cpu_to_le, cpu_to_be, cpu_to_le-injective, cpu_to_be-injective}
use cryptsetup.Base.Endian.{length-cpu_to_le}
use cryptsetup.Storage.{Backend, SectorIv, iv_plain, iv_plain64, iv_plain64be}
use cryptsetup.Storage.{iv_of, sector_iv_generate}

front-injective : (n : ℕ) (a b z : List ℕ) → length a ≡ n → length b ≡ n → a ++ z ≡ b ++ z → a ≡ b
front-injective n a b z ha hb e = sym (take-append n a z ha) ∙ ap (take n) e ∙ take-append n b z hb

back-injective : (z a b : List ℕ) → z ++ a ≡ z ++ b → a ≡ b
back-injective z a b e =
    sym (drop-append (length z) z a refl) ∙ ap (drop (length z)) e ∙ drop-append (length z) z b refl

module _ (b : Backend) (ctx : SectorIv b) (s t : ℕ) where
  -- With `plain64` and `plain64be` two 64-bit sector numbers that get one IV are the same.
  pub iv_plain64-injective :
      s < 2 ^ 64
      → t < 2 ^ 64
      → (ctx.type ≡ iv_plain64) ⊎ (ctx.type ≡ iv_plain64be)
      → sector_iv_generate b ctx s ≡ sector_iv_generate b ctx t
      → s ≡ t
  unfolding sector_iv_generate
  iv_plain64-injective hs ht (inl k) e =
      let e' : iv_of b ctx s iv_plain64 ≡ iv_of b ctx t iv_plain64 =
        ap (iv_of b ctx s) (sym k) ∙ e ∙ ap (iv_of b ctx t) k in
      cpu_to_le-injective 8 s t hs ht (
        front-injective 8 (cpu_to_le 8 s) (cpu_to_le 8 t) (replicate (ctx.iv_size - 8) 0)
          (length-cpu_to_le 8 s) (length-cpu_to_le 8 t) (ok-injective e'))
  iv_plain64-injective hs ht (inr k) e =
      let e' : iv_of b ctx s iv_plain64be ≡ iv_of b ctx t iv_plain64be =
        ap (iv_of b ctx s) (sym k) ∙ e ∙ ap (iv_of b ctx t) k in
      cpu_to_be-injective 8 s t hs ht (
        back-injective (replicate (ctx.iv_size - 8) 0) (cpu_to_be 8 s) (cpu_to_be 8 t)
          (ok-injective e'))

  -- With `plain` exactly the sectors that agree in their low 32 bits share an IV.
  pub iv_plain_period :
      ctx.type ≡ iv_plain
      → (sector_iv_generate b ctx s ≡ sector_iv_generate b ctx t) ↔ (s % 2 ^ 32 ≡ t % 2 ^ 32)
  unfolding sector_iv_generate
  iv_plain_period k = (forth, back)
    where
      forth : sector_iv_generate b ctx s ≡ sector_iv_generate b ctx t → s % 2 ^ 32 ≡ t % 2 ^ 32
      forth e =
          let e' : iv_of b ctx s iv_plain ≡ iv_of b ctx t iv_plain =
            ap (iv_of b ctx s) (sym k) ∙ e ∙ ap (iv_of b ctx t) k in
          cpu_to_le-injective 4 (s % 2 ^ 32) (t % 2 ^ 32) (omega arith) (omega arith) (
            front-injective 4 (cpu_to_le 4 (s % 2 ^ 32)) (cpu_to_le 4 (t % 2 ^ 32))
              (replicate (ctx.iv_size - 4) 0) (length-cpu_to_le 4 (s % 2 ^ 32))
              (length-cpu_to_le 4 (t % 2 ^ 32)) (ok-injective e'))

      back : s % 2 ^ 32 ≡ t % 2 ^ 32 → sector_iv_generate b ctx s ≡ sector_iv_generate b ctx t
      back e =
          ap (iv_of b ctx s) k
          ∙ ap (λ n. ok (cpu_to_le 4 n ++ replicate (ctx.iv_size - 4) 0)) e
          ∙ ap (iv_of b ctx t) (sym k)
