-- ===== src/Storage/Tests.antt =====
-- Runs of lib/crypto_backend/crypto_storage.c, and the theorems at concrete inputs.
use cryptsetup.Base.{ℕ, ◌+◌, ◌%◌, ◌^◌, ◌≡◌, ◌↔◌, ◌⊎◌, refl, arith, List, [], ◌∷◌, replicate}
use cryptsetup.Base.{true, ok, inl}
use cryptsetup.Base.{length-replicate, if◌then◌else◌, ◌*◌}
use cryptsetup.Base.Strings.{codes}
use cryptsetup.Storage.{Storage, SectorIv, iv_plain, sector_iv_generate}
use cryptsetup.Storage.Toy.{toy, toy_iv, toy_storage, toy-IsCipher}
use cryptsetup.Storage.{storage_encrypt, storage_decrypt}
use cryptsetup.Storage.RoundTrip.{storage_decrypt-storage_encrypt}
use cryptsetup.Storage.Iv.{iv_plain64-injective, iv_plain_period}
use cryptsetup.Storage.Init.{storage_init, storage_init_sizes, named_iv_init}

abbrev sectors : List ℕ
sectors = replicate 1024 9

toy_encrypts : (storage_encrypt toy toy_storage 3 1024 sectors).1 ≡ ok tt
unfolding storage_encrypt sector_iv_generate
toy_encrypts = refl

storage_decrypt-storage_encrypt_example :
    storage_decrypt toy toy_storage 3 1024 (storage_encrypt toy toy_storage 3 1024 sectors).0
    ≡ (sectors, ok tt)
storage_decrypt-storage_encrypt_example =
    storage_decrypt-storage_encrypt toy toy_storage (toy-IsCipher 5) 3 1024 sectors
      (omega (arith, length-replicate {A = ℕ} 1024 9)) toy_encrypts

iv_plain64-injective_example : ◌≡◌ {A = ℕ} 7 7
iv_plain64-injective_example =
    iv_plain64-injective toy toy_iv 7 7 (omega arith) (omega arith) (inl refl) refl

abbrev toy_plain : SectorIv toy
toy_plain = record toy_iv { type = iv_plain }

-- A volume of more than 2 TiB repeats its IVs.
iv_plain_period_example :
    (sector_iv_generate toy toy_plain 1 ≡ sector_iv_generate toy toy_plain (2 ^ 32 + 1))
    ↔ (1 % 2 ^ 32 ≡ (2 ^ 32 + 1) % 2 ^ 32)
iv_plain_period_example = iv_plain_period toy toy_plain 1 (2 ^ 32 + 1) refl

abbrev made : Storage toy
made = record { sector_size = 4096; iv_shift = 3; cipher = 5; cipher_iv = toy_iv }

init_large : storage_init toy 4096 (codes "aes") (codes "xts-plain64") (5 ∷ []) true ≡ ok made
unfolding storage_init named_iv_init
init_large = refl

storage_init_sizes_example :
    (made.sector_size ≡ 4096)
    × ((◌≡◌ {A = ℕ} 4096 512)
        ⊎ (◌≡◌ {A = ℕ} 4096 1024)
        ⊎ (◌≡◌ {A = ℕ} 4096 2048)
        ⊎ (◌≡◌ {A = ℕ} 4096 4096))
    × (512 * 2 ^ made.iv_shift ≡ (if true then 4096 else 512))
storage_init_sizes_example =
    storage_init_sizes toy 4096 (codes "aes") (codes "xts-plain64") (5 ∷ []) true init_large
