-- ===== src/Verity/Rerun.antt =====
-- lib/verity/verity_hash.c: what the loops over the blocks wrote, they accept when they verify.
use cryptsetup.Base.{
  ℕ, zero, suc, ◌+◌, ◌-◌, ◌%◌, ◌^◌, ◌≡◌, refl, sym, ap, ap₂, ◌∙◌, List, [], ◌++◌, append-nil,
  append_assoc, length,
}
use cryptsetup.Base.{Bool, true, false, Bool-cases, ◌==◌, if◌then◌else◌, inl, inr}
use cryptsetup.Base.{
  Result, ok, err, einval, ◌>>=◌, >>=-eq-ok, Result-cases, ok-injective, Option, some,
}
use mathlib.Core.Path.{subst}
use cryptsetup.Verity.File.{File, fread}
use cryptsetup.Verity.Hash.{
  Crypto, Params, HashState, put_digest, put_padding, put_left, entry_size,
}
use cryptsetup.Verity.Hash.{
  hash_salted, verify_hash_block, next_digest, hash_blocks, put_rest, hash_level,
}
use cryptsetup.Verity.Replay.{file, put_digest-Replayed, put_padding-Replayed, put_left-Replayed}

-- A digest has the length that is asked for.
pub record IsSized (c : Crypto) : Type 0 where
  pub final_length : (ctx : c.Ctx) (n : ℕ) (d : List ℕ) → c.hash_final ctx n ≡ ok d → length d ≡ n

-- A run on the hash file that wrote some bytes, which another run takes from there.
pub record Redone {A : Type 0} (again : File → Result (A × Option File)) (f : File) (a : A)
    (o : Option File) : Type 0 where
  pub written : List ℕ
  pub last : File
  pub is_file : o ≡ some last
  pub grows : last.before ≡ f.before ++ written
  pub replay : (b t : List ℕ) → again (file b (written ++ t)) ≡ ok (a, some (file (b ++ written) t))

regroup : (x a b d : List ℕ) → ((x ++ a) ++ b) ++ d ≡ x ++ (a ++ (b ++ d))
regroup x a b d = append_assoc (x ++ a) b d ∙ append_assoc x a (b ++ d)

ungroup : (a b d t : List ℕ) → (a ++ (b ++ d)) ++ t ≡ a ++ (b ++ (d ++ t))
ungroup a b d t = append_assoc a (b ++ d) t ∙ ap (λ y. a ++ y) (append_assoc b d t)

module _ (c : Crypto) (sized : IsSized c) (p : Params) where
  verify_hash_block-length :
      (block digest : List ℕ)
      → verify_hash_block c p block ≡ ok digest
      → length digest ≡ p.digest_size
  unfolding verify_hash_block
  verify_hash_block-length block digest h = elim (Result-cases (c.hash_init p.hash_name)) [
    | inr (e, bad) ↦
        let failed : err einval ≡ ok digest = sym (rw (bad, verify_hash_block) refl) ∙ h in
        absurd cc
    | inl (ctx, good) ↦
        let h0 : hash_salted c p ctx block ≡ ok digest =
          sym (rw (good, verify_hash_block) refl) ∙ h in
        let (ctx1, _, h1) =
          >>=-eq-ok (if p.version == 1 then c.hash_write ctx p.salt else ok ctx) h0 in
        let (ctx2, _, h2) = >>=-eq-ok (c.hash_write ctx1 block) h1 in
        let (ctx3, _, h3) =
          >>=-eq-ok (if p.version == 0 then c.hash_write ctx2 p.salt else ok ctx2) h2 in
        sized.final_length ctx3 p.digest_size digest h3
  ]

  next_digest-length :
      (s s' : HashState) → next_digest c p s ≡ ok s' → length s'.digest ≡ p.digest_size
  unfolding next_digest
  next_digest-length s s' h =
      let ((block, rd), _, h1) = >>=-eq-ok (fread p.data_block_size s.rd) h in
      elim (Result-cases (verify_hash_block c p block)) [
        | inr (e, bad) ↦ let failed : err einval ≡ ok s' = sym (rw bad refl) ∙ h1 in absurd cc
        | inl (digest, good) ↦
            let next : HashState = record { rd = rd; blocks = s.blocks - 1; digest = digest } in
            let same : ok next ≡ ok s' = sym (rw good refl) ∙ h1 in
            sym (ap (λ (x : HashState). length x.digest) (ok-injective same))
            ∙ verify_hash_block-length block digest good
      ]

  -- The calls of one round, after the test that blocks are left.
  abbrev one_block : Bool → ℕ → ℕ → HashState → File → Result ((HashState × ℕ) × Option File)
  one_block verify n left_bytes s f = do
    s' ← next_digest c p s
    f1 ← put_digest verify p s'.digest f
    f2 ← put_padding verify p f1
    hash_blocks c verify p n ((left_bytes + 2 ^ 64 - entry_size p) % 2 ^ 64) s' (some f2)

  one_block-eq :
      (verify : Bool) (n left_bytes : ℕ) (s s' : HashState) (g g1 g2 : File)
      (r : Result ((HashState × ℕ) × Option File))
      → next_digest c p s ≡ ok s'
      → put_digest verify p s'.digest g ≡ ok g1
      → put_padding verify p g1 ≡ ok g2
      → hash_blocks c verify p n ((left_bytes + 2 ^ 64 - entry_size p) % 2 ^ 64) s' (some g2) ≡ r
      → one_block verify n left_bytes s g ≡ r
  one_block-eq verify n left_bytes s s' g g1 g2 r e0 e1 e2 h =
      ap
        (λ m. m >>= λ x. put_digest verify p x.digest g >>= λ y. put_padding verify p y >>= λ z.
          hash_blocks c verify p n ((left_bytes + 2 ^ 64 - entry_size p) % 2 ^ 64) x (some z))
        e0
      ∙ ap
          (λ m. m >>= λ y. put_padding verify p y >>= λ z.
            hash_blocks c verify p n ((left_bytes + 2 ^ 64 - entry_size p) % 2 ^ 64) s' (some z))
          e1
      ∙ ap
          (λ m. m >>= λ z.
            hash_blocks c verify p n ((left_bytes + 2 ^ 64 - entry_size p) % 2 ^ 64) s' (some z))
          e2
      ∙ h

  hash_blocks-zero :
      (verify : Bool) (n left_bytes : ℕ) (s : HashState) (wr : Option File)
      → (s.blocks == 0) ≡ true
      → hash_blocks c verify p (suc n) left_bytes s wr ≡ ok ((s, left_bytes), wr)
  unfolding hash_blocks
  hash_blocks-zero verify n left_bytes s wr e = rw e refl

  hash_blocks-suc :
      (verify : Bool) (n left_bytes : ℕ) (s : HashState) (f : File)
      → (s.blocks == 0) ≡ false
      → hash_blocks c verify p (suc n) left_bytes s (some f) ≡ one_block verify n left_bytes s f
  unfolding hash_blocks
  hash_blocks-suc verify n left_bytes s f e = rw e refl

  idle-Redone :
      {A : Type 0} (again : File → Result (A × Option File)) (f : File) (x a : A) (o : Option File)
      → ((g : File) → again g ≡ ok (x, some g))
      → ◌≡◌ {A = Result (A × Option File)} (ok (x, some f)) (ok (a, o))
      → Redone again f a o
  idle-Redone {A} again f x a o idle h =
      let before : A × Option File = (x, some f) in
      let after : A × Option File = (a, o) in
      let same : before ≡ after = ok-injective h in
      record {
        written = [];
        last = f;
        is_file = sym (ap (λ (r : A × Option File). r.1) same);
        grows = sym (append-nil f.before);
        replay = λ b t.
            idle (file b t)
            ∙ ap₂ (λ y z. ok (y, some (file z t))) (ap (λ (r : A × Option File). r.0) same)
                (sym (append-nil b));
      }

  hash_blocks-Redone :
      (n left_bytes : ℕ) (s : HashState) (f : File) (a : HashState × ℕ) (o : Option File)
      → hash_blocks c false p n left_bytes s (some f) ≡ ok (a, o)
      → Redone (λ g. hash_blocks c true p n left_bytes s (some g)) f a o
  hash_blocks-Redone zero left_bytes s f a o h =
      idle-Redone (λ g. hash_blocks c true p 0 left_bytes s (some g)) f (s, left_bytes) a o
        (λ g. unfold hash_blocks in refl) (unfold hash_blocks in h)
  hash_blocks-Redone (suc n) left_bytes s f a o h = elim (Bool-cases (s.blocks == 0)) [
    | inl done ↦
        idle-Redone (λ g. hash_blocks c true p (suc n) left_bytes s (some g)) f (s, left_bytes) a o
          (λ g. hash_blocks-zero true n left_bytes s (some g) done)
          (sym (hash_blocks-zero false n left_bytes s (some f) done) ∙ h)
    | inr more ↦
        let h0 = sym (hash_blocks-suc false n left_bytes s f more) ∙ h in
        let (s', e0, h1) = >>=-eq-ok (next_digest c p s) h0 in
        let (f1, e1, h2) = >>=-eq-ok (put_digest false p s'.digest f) h1 in
        let (f2, e2, h3) = >>=-eq-ok (put_padding false p f1) h2 in
        let left : ℕ = (left_bytes + 2 ^ 64 - entry_size p) % 2 ^ 64 in
        let v1 = put_digest-Replayed p s'.digest f f1 (next_digest-length s s' e0) e1 in
        let v2 = put_padding-Replayed p f1 f2 e2 in
        let v3 = hash_blocks-Redone n left s' f2 a o h3 in
        record {
          written = v1.written ++ (v2.written ++ v3.written);
          last = v3.last;
          is_file = v3.is_file;
          grows =
              v3.grows
              ∙ ap (λ y. y ++ v3.written) (v2.grows ∙ ap (λ y. y ++ v2.written) v1.grows)
              ∙ regroup f.before v1.written v2.written v3.written;
          replay = λ b t.
              let w1 = v1.written in
              let w2 = v2.written in
              let w3 = v3.written in
              let round : one_block true n left_bytes s (file b (w1 ++ (w2 ++ (w3 ++ t))))
                  ≡ ok (a, some (file (((b ++ w1) ++ w2) ++ w3) t)) =
                one_block-eq true n left_bytes s s' (file b (w1 ++ (w2 ++ (w3 ++ t))))
                  (file (b ++ w1) (w2 ++ (w3 ++ t))) (file ((b ++ w1) ++ w2) (w3 ++ t))
                  (ok (a, some (file (((b ++ w1) ++ w2) ++ w3) t))) e0
                  (v1.replay b (w2 ++ (w3 ++ t))) (v2.replay (b ++ w1) (w3 ++ t))
                  (v3.replay ((b ++ w1) ++ w2) t) in
              ap (λ y. hash_blocks c true p (suc n) left_bytes s (some (file b y)))
                (ungroup w1 w2 w3 t)
              ∙ hash_blocks-suc true n left_bytes s (file b (w1 ++ (w2 ++ (w3 ++ t)))) more
              ∙ round
              ∙ ap (λ y. ok (a, some (file y t))) (regroup b w1 w2 w3);
        }
  ]

  hash_level-eq :
      (verify : Bool) (hash_per_block n left_bytes : ℕ) (s s' : HashState) (g g1 g2 : File)
      (r : Result (HashState × Option File))
      → hash_blocks c verify p hash_per_block p.hash_block_size s (some g)
        ≡ ok ((s', left_bytes), some g1)
      → put_left verify left_bytes g1 ≡ ok g2
      → hash_level c verify p hash_per_block n s' (some g2) ≡ r
      → hash_level c verify p hash_per_block (suc n) s (some g) ≡ r
  unfolding hash_level
  hash_level-eq verify hash_per_block n left_bytes s s' g g1 g2 r e0 e1 h =
      ap
        (λ m. m >>= λ x.
          put_rest c verify x.0.1 x.1 >>= λ y. hash_level c verify p hash_per_block n x.0.0 y)
        e0
      ∙ ap (λ m. (m >>= λ z. ok (some z)) >>= λ y. hash_level c verify p hash_per_block n s' y) e1
      ∙ h

  put_rest-ok :
      (left_bytes : ℕ) (g : File) (o1 o2 : Option File)
      → o1 ≡ some g
      → put_rest c false left_bytes o1 ≡ ok o2
      → (g' : File) × (put_left false left_bytes g ≡ ok g') × (o2 ≡ some g')
  put_rest-ok left_bytes g o1 o2 e h =
      let h' : put_rest c false left_bytes (some g) ≡ ok o2 =
        subst (λ o. put_rest c false left_bytes o ≡ ok o2) e h in
      let (g', e1, h1) = >>=-eq-ok (put_left false left_bytes g) h' in
      (g', e1, sym (ok-injective h1))

  pub hash_level-Redone :
      (hash_per_block n : ℕ) (s : HashState) (f : File) (a : HashState) (o : Option File)
      → hash_level c false p hash_per_block n s (some f) ≡ ok (a, o)
      → Redone (λ g. hash_level c true p hash_per_block n s (some g)) f a o
  unfolding hash_level
  hash_level-Redone hash_per_block zero s f a o h =
      idle-Redone (λ g. hash_level c true p hash_per_block 0 s (some g)) f s a o (λ g. refl) h
  hash_level-Redone hash_per_block (suc n) s f a o h =
      let (((s', l), o1), e1, h1) =
        >>=-eq-ok (hash_blocks c false p hash_per_block p.hash_block_size s (some f)) h in
      let v1 = hash_blocks-Redone hash_per_block p.hash_block_size s f (s', l) o1 e1 in
      let (o2, e2, h2) = >>=-eq-ok (put_rest c false l o1) h1 in
      let (f2, e3, is_f2) = put_rest-ok l v1.last o1 o2 v1.is_file e2 in
      let h3 = subst (λ y. hash_level c false p hash_per_block n s' y ≡ ok (a, o)) is_f2 h2 in
      let v2 = put_left-Replayed l v1.last f2 e3 in
      let v3 = hash_level-Redone hash_per_block n s' f2 a o h3 in
      record {
        written = v1.written ++ (v2.written ++ v3.written);
        last = v3.last;
        is_file = v3.is_file;
        grows =
            v3.grows
            ∙ ap (λ y. y ++ v3.written) (v2.grows ∙ ap (λ y. y ++ v2.written) v1.grows)
            ∙ regroup f.before v1.written v2.written v3.written;
        replay = λ b t.
            let w1 = v1.written in
            let w2 = v2.written in
            let w3 = v3.written in
            ap (λ y. hash_level c true p hash_per_block (suc n) s (some (file b y)))
              (ungroup w1 w2 w3 t)
            ∙ hash_level-eq true hash_per_block n l s s' (file b (w1 ++ (w2 ++ (w3 ++ t))))
                (file (b ++ w1) (w2 ++ (w3 ++ t))) (file ((b ++ w1) ++ w2) (w3 ++ t))
                (ok (a, some (file (((b ++ w1) ++ w2) ++ w3) t))) (v1.replay b (w2 ++ (w3 ++ t)))
                (v2.replay (b ++ w1) (w3 ++ t)) (v3.replay ((b ++ w1) ++ w2) t)
            ∙ ap (λ y. ok (a, some (file y t))) (regroup b w1 w2 w3);
      }
