-- ===== src/Verity/Replay.antt =====
-- lib/verity/verity_hash.c: digests and spare areas that were written are found when verified.
use cryptsetup.Base.{
  ℕ, ◌-◌, ◌≡◌, ◌<◌, refl, sym, ap, ◌∙◌, arith, List, [], ◌++◌, append-nil, length, take, drop,
  replicate,
}
use cryptsetup.Base.{
  take-append, drop-append, length-append, length-replicate, length-take, Bool, true, false, ◌||◌,
  ◌==◌, ltb, if◌then◌else◌,
}
use cryptsetup.Base.{Result, ok, eio, ok-injective, if-eq-ok}
use cryptsetup.Base.Strings.{same, same_refl}
use cryptsetup.Verity.File.{File, fread, fwrite}
use cryptsetup.Verity.Hash.{
  Params, put_digest, put_spare, put_padding, put_left, verify_zero, full_size,
}

abbrev pub file : List ℕ → List ℕ → File
file before after = record { before = before; after = after }

-- What `run false` writes, `run true` accepts.
pub record Replayed (run : Bool → File → Result File) (f f' : File) : Type 0 where
  pub written : List ℕ
  pub grows : f'.before ≡ f.before ++ written
  pub replay : (b t : List ℕ) → run true (file b (written ++ t)) ≡ ok (file (b ++ written) t)

fwrite-eq-ok :
    (bytes : List ℕ) (f f' : File)
    → fwrite bytes f ≡ ok f'
    → (0 < length bytes) × (f'.before ≡ f.before ++ bytes)
unfolding fwrite
fwrite-eq-ok bytes f f' h =
    let f1 : File = file (f.before ++ bytes) (drop (length bytes) f.after) in
    let (good, same) =
      if-eq-ok (length bytes == 0 || ltb (length f.after) (length bytes)) eio (ok f1) h in
    let same' : f1 ≡ f' = ok-injective same in
    (ground arith, sym (ap (λ (g : File). g.before) same'))

fread-written :
    (w b t : List ℕ) → 0 < length w → fread (length w) (file b (w ++ t)) ≡ ok (w, file (b ++ w) t)
unfolding fread
fread-written w b t pos =
    let fits : (length w == 0 || ltb (length (w ++ t)) (length w)) ≡ false =
      let l = length-append w t in ground arith in
    rw (fits, take-append (length w) w t refl, drop-append (length w) w t refl) refl

pub put_digest-Replayed :
    (p : Params) (digest : List ℕ) (f f' : File)
    → length digest ≡ p.digest_size
    → put_digest false p digest f ≡ ok f'
    → Replayed (λ verify. put_digest verify p digest) f f'
unfolding put_digest
put_digest-Replayed p digest f f' len h =
    let (pos, grows) = fwrite-eq-ok (take p.digest_size digest) f f' h in
    let size : length (take p.digest_size digest) ≡ p.digest_size =
      omega (arith, length-take p.digest_size digest) in
    record {
      written = take p.digest_size digest;
      grows = grows;
      replay = λ b t.
          rw
            (
              ap (λ n. fread n (file b (take p.digest_size digest ++ t))) (sym size),
              fread-written (take p.digest_size digest) b t pos,
              same_refl (take p.digest_size digest),
            )
            refl;
    }

put_spare-Replayed :
    (n : ℕ) (f f' : File)
    → put_spare false n f ≡ ok f'
    → Replayed (λ verify. put_spare verify n) f f'
unfolding put_spare verify_zero
put_spare-Replayed n f f' h =
    let (pos, grows) = fwrite-eq-ok (replicate n 0) f f' h in
    record {
      written = replicate n 0;
      grows = grows;
      replay = λ b t.
          rw
            (
              ap (λ m. fread m (file b (replicate n 0 ++ t))) (sym (length-replicate {A = ℕ} n 0)),
              fread-written (replicate n 0) b t pos,
              same_refl (replicate n 0),
            )
            refl;
    }

nothing-Replayed :
    (run : Bool → File → Result File) (f f' : File)
    → ((g : File) → run true g ≡ ok g)
    → f ≡ f'
    → Replayed run f f'
nothing-Replayed run f f' idle same = record {
  written = [];
  grows = ap (λ (g : File). g.before) (sym same) ∙ sym (append-nil f.before);
  replay = λ b t. idle (file b t) ∙ ap (λ c. ok (file c t)) (sym (append-nil b));
}

-- A spare area that may be left out.
optional-Replayed :
    (skip : Bool) (n : ℕ) (f f' : File)
    → (if skip then ok f else put_spare false n f) ≡ ok f'
    → Replayed (λ verify g. if skip then ok g else put_spare verify n g) f f'
optional-Replayed true n f f' h =
    nothing-Replayed (λ verify g. ok g) f f' (λ g. refl) (ok-injective h)
optional-Replayed false n f f' h = put_spare-Replayed n f f' h

pub put_padding-Replayed :
    (p : Params) (f f' : File)
    → put_padding false p f ≡ ok f'
    → Replayed (λ verify. put_padding verify p) f f'
put_padding-Replayed p f f' h =
    optional-Replayed (p.version == 0 || full_size p - p.digest_size == 0)
      (full_size p - p.digest_size) f f' h

pub put_left-Replayed :
    (left_bytes : ℕ) (f f' : File)
    → put_left false left_bytes f ≡ ok f'
    → Replayed (λ verify. put_left verify left_bytes) f f'
put_left-Replayed left_bytes f f' h = optional-Replayed (left_bytes == 0) left_bytes f f' h
