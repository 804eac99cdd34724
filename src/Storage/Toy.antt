-- ===== src/Storage/Toy.antt =====
-- A backend for runs of lib/crypto_backend/crypto_storage.c at concrete inputs.
use cryptsetup.Base.{
  ℕ, suc, ◌≡◌, refl, sym, ap, ap₂, ◌∙◌, List, [], ◌∷◌, length, replicate, ok, some, none, bit_xor,
  ok-injective,
}
use cryptsetup.Base.Bits.{bit_xor-cancel}
use cryptsetup.Storage.{Backend, IsCipher, Storage, SectorIv, iv_plain64}

-- A cipher that masks each byte with the first byte of the key.
unfoldable pub mask : ℕ → List ℕ → List ℕ
mask k [] = []
mask k (x ∷ xs) = bit_xor x k ∷ mask k xs

pub mask-mask : (k : ℕ) (xs : List ℕ) → mask k (mask k xs) ≡ xs
unfolding mask
mask-mask k [] = refl
mask-mask k (x ∷ xs) = ap₂ ◌∷◌ (bit_xor-cancel x k) (mask-mask k xs)

pub length-mask : (k : ℕ) (xs : List ℕ) → length (mask k xs) ≡ length xs
unfolding mask
length-mask k [] = refl
length-mask k (x ∷ xs) = ap suc (length-mask k xs)

abbrev pub first_byte : List ℕ → ℕ
first_byte [] = 0
first_byte (x ∷ xs) = x

abbrev pub toy : Backend
toy = record {
  Handle = ℕ;
  ivsize = λ cipher mode. some 16;
  cipher_init = λ cipher mode key. ok (first_byte key);
  encrypt = λ k x iv. ok (mask k x);
  decrypt = λ k x iv. ok (mask k x);
  hash_key = λ name key. ok (replicate 32 1);
}

abbrev pub toy_iv : SectorIv toy
toy_iv = record { type = iv_plain64; iv_size = 16; cipher = none; shift = 0 }

abbrev pub toy_storage : Storage toy
toy_storage = record { sector_size = 512; iv_shift = 0; cipher = 5; cipher_iv = toy_iv }

pub toy-IsCipher : (key : ℕ) → IsCipher toy key
toy-IsCipher key = record {
  inverse = λ x iv y e. ap (λ t. ok (mask key t)) (sym (ok-injective e)) ∙ ap ok (mask-mask key x);
  size = λ x iv y e. ap length (sym (ok-injective e)) ∙ length-mask key x;
}
