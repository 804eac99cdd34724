-- ===== src/Af/Tests.antt =====
-- Runs of lib/luks1/af.c, and the theorems at concrete inputs.
use cryptsetup.Base.{
  ℕ, ◌+◌, ◌*◌, ◌≡◌, refl, sym, ap, ◌∙◌, arith, List, [], ◌∷◌, length, replicate, true,
}
use cryptsetup.Base.{ok, ok-injective, length-replicate}
use cryptsetup.Af.{xor_block, be32, Crypto, IsSized, af_split, af_merge}
use cryptsetup.Af.RoundTrip.{af_merge-af_split}

-- A hash of two bytes that counts its input, and a generator that repeats the block's number.
abbrev toy : Crypto
toy = record {
  hash_size = 2;
  hash_init = true;
  hash_final = λ m n. ok (replicate n (length m));
  random = λ i n. ok (replicate n (i + 3));
}

toy-IsSized : IsSized toy
toy-IsSized = record {
  final_length = λ m n d e. ap length (sym (ok-injective e)) ∙ length-replicate n (length m);
  random_length = λ i n d e. ap length (sym (ok-injective e)) ∙ length-replicate n (i + 3);
}

abbrev split_key : List ℕ
split_key = 3 ∷ 3 ∷ 3 ∷ 4 ∷ 4 ∷ 4 ∷ 7 ∷ 0 ∷ 6 ∷ []

toy_splits : af_split toy (1 ∷ 6 ∷ 3 ∷ []) 3 3 ≡ ok split_key
unfolding af_split xor_block be32
toy_splits = refl

af_merge-af_split_example :
    (length split_key ≡ 3 * 3) × (af_merge toy split_key 3 3 ≡ ok (1 ∷ 6 ∷ 3 ∷ []))
af_merge-af_split_example =
    af_merge-af_split toy toy-IsSized (1 ∷ 6 ∷ 3 ∷ []) 3 (omega arith) (omega arith) toy_splits
