-- ===== src/Verity/RoundTrip.antt =====
-- lib/verity/verity_hash.c: a level that was written is verified with the same digest.
use cryptsetup.Base.{
  ℕ, ◌+◌, ◌-◌, ◌*◌, ◌/◌, ◌%◌, ◌^◌, ◌≡◌, ◌≤◌, sym, ap, ap₂, ◌∙◌, arith, List, ◌++◌, append_assoc,
  length, take, drop,
}
use cryptsetup.Base.{
  take-append, drop-append, length-take, Bool, true, false, ◌||◌, ltb, leb, if◌then◌else◌,
}
use cryptsetup.Base.{
  Result, ok, err, einval, eio, ◌>>=◌, >>=-eq-ok, ok-injective, if-eq-ok, Option, some,
}
use mathlib.Core.Path.{subst}
use cryptsetup.Verity.File.{File, fseek}
use cryptsetup.Verity.Hash.{Crypto, Params, HashState}
use cryptsetup.Verity.Hash.{hash_level, hash_at, seek_wr, create_or_verify}
use cryptsetup.Verity.Levels.{get_bits_down}
use cryptsetup.Verity.Replay.{file}
use cryptsetup.Verity.Rerun.{IsSized, hash_level-Redone}

module _ (c : Crypto) (sized : IsSized c) (p : Params) where
  fseek-ok :
      (offset : ℕ) (f g : File)
      → fseek offset f ≡ ok g
      → (leb (2 ^ 63) offset ≡ false)
        × (file (take offset (f.before ++ f.after)) (drop offset (f.before ++ f.after)) ≡ g)
  unfolding fseek
  fseek-ok offset f g h =
      let place : File =
        file (take offset (f.before ++ f.after)) (drop offset (f.before ++ f.after)) in
      let (small, same) = if-eq-ok (leb (2 ^ 63) offset) eio (ok place) h in
      (small, ok-injective same)

  -- Back to where a run of writes began.
  fseek-written :
      (offset : ℕ) (b w : List ℕ) (last : File)
      → leb (2 ^ 63) offset ≡ false
      → length b ≡ offset
      → last.before ≡ b ++ w
      → fseek offset last ≡ ok (file b (w ++ last.after))
  unfolding fseek
  fseek-written offset b w last small len grows =
      let whole : last.before ++ last.after ≡ b ++ (w ++ last.after) =
        ap (λ y. y ++ last.after) grows ∙ append_assoc b w last.after in
      let front : take offset (last.before ++ last.after) ≡ b =
        ap (λ y. take offset y) whole ∙ take-append offset b (w ++ last.after) len in
      let back : drop offset (last.before ++ last.after) ≡ w ++ last.after =
        ap (λ y. drop offset y) whole ∙ drop-append offset b (w ++ last.after) len in
      rw small (ap₂ (λ x y. ok (file x y)) front back)

  verified :
      (rd rd' : File) (seek_rd offset hash_per_block n : ℕ) (s0 s : HashState) (b w : List ℕ)
      (last : File) (o : Option File) (digest' : List ℕ) (wr' : Option File)
      → fseek seek_rd rd ≡ ok rd'
      → fseek offset last ≡ ok (file b (w ++ last.after))
      → hash_level c true p hash_per_block n
          (record { rd = rd'; blocks = s0.blocks; digest = s0.digest })
          (some (file b (w ++ last.after)))
        ≡ ok (s, some (file (b ++ w) last.after))
      → last.before ≡ b ++ w
      → o ≡ some last
      → ◌≡◌ {A = Result (List ℕ × Option File)} (ok (s.digest, o)) (ok (digest', wr'))
      → hash_at c p rd wr' seek_rd offset hash_per_block n s0.blocks true s0.digest
        ≡ ok (digest', wr')
  verified rd rd' seek_rd offset hash_per_block n s0 s b w last o digest' wr' e0 e1 e2 grows is_file
        h =
      let run : Option File → Result (List ℕ × Option File) =
        λ y. hash_at c p rd y seek_rd offset hash_per_block n s0.blocks true s0.digest in
      let start : File → HashState =
        λ y. record { rd = y; blocks = s0.blocks; digest = s0.digest } in
      let again : run (some last) ≡ ok (s.digest, some last) =
        ap
          (λ m. m >>= λ y. seek_wr c offset (some last) >>= λ z.
            hash_level c true p hash_per_block n (start y) z >>= λ r. ok (r.0.digest, r.1))
          e0
        ∙ ap
            (λ m. (m >>= λ f. ok (some f)) >>= λ z.
              hash_level c true p hash_per_block n (start rd') z >>= λ r. ok (r.0.digest, r.1))
            e1
        ∙ ap (λ m. m >>= λ r. ok (r.0.digest, r.1)) e2
        ∙ ap (λ y. ok (s.digest, some (file y last.after))) (sym grows) in
      let found : ◌≡◌ {A = List ℕ × Option File} (s.digest, o) (digest', wr') = ok-injective h in
      let is_wr : wr' ≡ some last = sym (ap (λ (r : List ℕ × Option File). r.1) found) ∙ is_file in
      ap run is_wr ∙ again ∙ ap (λ y. ok (s.digest, y)) (sym is_file) ∙ h

  hash_at-again :
      (rd wr : File) (seek_rd offset hash_per_block n blocks : ℕ) (digest digest' : List ℕ)
      (wr' : Option File)
      → offset ≤ length (wr.before ++ wr.after)
      → hash_at c p rd (some wr) seek_rd offset hash_per_block n blocks false digest
        ≡ ok (digest', wr')
      → hash_at c p rd wr' seek_rd offset hash_per_block n blocks true digest ≡ ok (digest', wr')
  hash_at-again rd wr seek_rd offset hash_per_block n blocks digest digest' wr' inside h =
      let (rd', e0, h1) = >>=-eq-ok (fseek seek_rd rd) h in
      let (o0, e1, h2) = >>=-eq-ok (seek_wr c offset (some wr)) h1 in
      let (wr0, e2, h3) = >>=-eq-ok (fseek offset wr) e1 in
      let s0 : HashState = record { rd = rd'; blocks = blocks; digest = digest } in
      let ((s, o), e3, h4) = >>=-eq-ok (hash_level c false p hash_per_block n s0 o0) h2 in
      let e4 =
        subst (λ y. hash_level c false p hash_per_block n s0 y ≡ ok (s, o)) (sym (ok-injective h3))
          e3 in
      let v = hash_level-Redone c sized p hash_per_block n s0 wr0 s o e4 in
      let (small, place) = fseek-ok offset wr wr0 e2 in
      let front : wr0.before ≡ take offset (wr.before ++ wr.after) =
        sym (ap (λ (g : File). g.before) place) in
      let len : length wr0.before ≡ offset =
        ap length front ∙ omega (arith, length-take offset (wr.before ++ wr.after)) in
      verified rd rd' seek_rd offset hash_per_block n s0 s wr0.before v.written v.last o digest' wr'
        e0 (fseek-written offset wr0.before v.written v.last small len v.grows)
        (v.replay wr0.before v.last.after) v.grows v.is_file h4

-- If a level of the tree is written with success, verifying it then succeeds with the same digest,
-- given that the level starts inside of the hash file and that digests have their length.
pub create_or_verify-create_or_verify :
    (c : Crypto) (p : Params) (rd wr : File) (data_block hash_block blocks : ℕ)
    (digest digest' : List ℕ) (wr' : Option File)
    → IsSized c
    → hash_block * p.hash_block_size ≤ length (wr.before ++ wr.after)
    → create_or_verify c p rd (some wr) data_block hash_block blocks false digest
      ≡ ok (digest', wr')
    → create_or_verify c p rd wr' data_block hash_block blocks true digest ≡ ok (digest', wr')
unfolding create_or_verify
create_or_verify-create_or_verify c p rd wr data_block hash_block blocks digest digest' wr' sized
      inside h =
    let hash_per_block : ℕ = 2 ^ get_bits_down (p.hash_block_size / p.digest_size) in
    let n : ℕ = (blocks + hash_per_block + 2 ^ 64 - 1) % 2 ^ 64 / hash_per_block in
    let seek_rd : ℕ = data_block * p.data_block_size in
    let offset : ℕ = hash_block * p.hash_block_size in
    let run = hash_at c p rd (some wr) seek_rd offset hash_per_block n blocks false digest in
    let (a, h1) =
      if-eq-ok (ltb 1024 p.digest_size) einval
        (if ltb (2 ^ 64 - 1) seek_rd || ltb (2 ^ 64 - 1) offset then err einval else run) h in
    let (b, h2) = if-eq-ok (ltb (2 ^ 64 - 1) seek_rd || ltb (2 ^ 64 - 1) offset) einval run h1 in
    if-false a (
      if-false b (
        hash_at-again c sized p rd wr seek_rd offset hash_per_block n blocks digest digest' wr'
          inside h2))
  where
    if-false :
        {test : Bool} {m r : Result (List ℕ × Option File)}
        → test ≡ false
        → m ≡ r
        → (if test then err einval else m) ≡ r
    if-false e h = rw e h
