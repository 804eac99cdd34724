-- ===== src/Verity/Tests.antt =====
-- lib/verity/verity_hash.c: runs with a hash that repeats the sum of the bytes.
use cryptsetup.Base.{
  ℕ, ◌+◌, ◌%◌, ◌^◌, ◌<◌, ◌≡◌, refl, arith, List, [], ◌∷◌, ◌++◌, replicate, length-replicate, length,
  ap, sym, ◌∙◌, true, false,
}
use cryptsetup.Base.{ok, ok-injective, some}
use cryptsetup.Verity.File.{File, fread, fwrite, fseek}
use cryptsetup.Verity.Levels.{Level, hash_levels, place_levels, get_bits_up, get_bits_down}
use cryptsetup.Verity.Hash.{
  Crypto, Params, create_or_verify, hash_level, hash_blocks, next_digest, verify_hash_block,
  put_digest, put_spare,
}
use cryptsetup.Verity.Stack.{Stacked, hash_levels-Stacked}
use cryptsetup.Verity.Rerun.{IsSized}
use cryptsetup.Verity.RoundTrip.{create_or_verify-create_or_verify}

sum : List ℕ → ℕ
sum [] = 0
sum (x ∷ xs) = x + sum xs

abbrev summing : Crypto
summing = record {
  Ctx = List ℕ;
  hash_init = λ name. ok [];
  hash_write = λ ctx bytes. ok (ctx ++ bytes);
  hash_final = λ ctx n. ok (replicate n (sum ctx % 256));
}

summing-IsSized : IsSized summing
summing-IsSized = record {
  final_length =
      λ ctx n d h. ap length (sym (ok-injective h)) ∙ length-replicate {A = ℕ} n (sum ctx % 256);
}

abbrev sample : Params
sample = record {
  version = 1;
  hash_name = [];
  data_block_size = 2;
  hash_block_size = 16;
  digest_size = 3;
  salt = 5 ∷ [];
}

abbrev data_file : File
data_file = record { before = []; after = 1 ∷ 2 ∷ 3 ∷ 4 ∷ 5 ∷ 6 ∷ [] }

abbrev hash_file : File
hash_file = record { before = []; after = replicate 40 9 }

abbrev written_file : File
written_file = record {
  before =
      replicate 16 9 ++ (8 ∷ 8 ∷ 8 ∷ 0 ∷ 12 ∷ 12 ∷ 12 ∷ 0 ∷ 16 ∷ 16 ∷ 16 ∷ 0 ∷ 0 ∷ 0 ∷ 0 ∷ 0 ∷ []);
  after = replicate 8 9;
}

sample_created :
    create_or_verify summing sample data_file (some hash_file) 0 1 3 false []
    ≡ ok (16 ∷ 16 ∷ 16 ∷ [], some written_file)
unfolding create_or_verify hash_level hash_blocks next_digest verify_hash_block put_digest put_spare
    fread fwrite fseek get_bits_up get_bits_down sum
sample_created = refl

create_or_verify-create_or_verify_example :
    create_or_verify summing sample data_file (some written_file) 0 1 3 true []
    ≡ ok (16 ∷ 16 ∷ 16 ∷ [], some written_file)
create_or_verify-create_or_verify_example =
    create_or_verify-create_or_verify summing sample data_file hash_file 0 1 3 []
      (16 ∷ 16 ∷ 16 ∷ []) (some written_file) summing-IsSized (omega arith) sample_created

abbrev sample_levels : List Level
sample_levels = record { block = 4; size = 8 } ∷ record { block = 3; size = 1 } ∷ []

sample_levels_found : hash_levels 4096 32 1000 3 ≡ ok (sample_levels, 12)
unfolding hash_levels place_levels get_bits_down
sample_levels_found = refl

hash_levels-Stacked_example : Stacked 3 12 sample_levels × (12 < 2 ^ 64)
hash_levels-Stacked_example =
    hash_levels-Stacked 4096 32 1000 3 sample_levels 12 (omega arith) sample_levels_found
