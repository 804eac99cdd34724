-- ===== src/Af/RoundTrip.antt =====
-- lib/luks1/af.c: merging what was split gives the key back.
use cryptsetup.Base.{ℕ, zero, suc, ◌+◌, ◌-◌, ◌*◌, ◌/◌, ◌%◌, ◌<◌, ◌≡◌, refl, ap, arith}
use cryptsetup.Base.{List, [], ◌∷◌, ◌++◌, length, take, drop, Bool-cases, ltb, ◌==◌}
use cryptsetup.Base.{inl, inr, take-append, drop-append, take_all, length-append}
use cryptsetup.Base.{length-replicate, ok, >>=-eq-ok, ok-injective, ◌∙◌}
use cryptsetup.Base.Bits.{bit_xor-cancel}
use cryptsetup.Af.{be32, Crypto, IsSized, u32_mod, xor_block, hash_buf, diffuse_blocks, diffuse}
use cryptsetup.Af.{split_blocks, af_split, merge_blocks, af_merge}
use native.Mathlib.Nat.{div-add-mod}

xor_block-cancel : (xs ys : List ℕ) → length xs ≡ length ys → xor_block (xor_block xs ys) ys ≡ xs
unfolding xor_block
xor_block-cancel [] ys h = refl
xor_block-cancel (x ∷ xs) [] h = absurd (omega arith)
xor_block-cancel (x ∷ xs) (y ∷ ys) h =
    ground (arith, bit_xor-cancel x y, xor_block-cancel xs ys (omega arith))

length-xor_block : (xs ys : List ℕ) → length xs ≡ length ys → length (xor_block xs ys) ≡ length ys
unfolding xor_block
length-xor_block [] ys h = h
length-xor_block (x ∷ xs) [] h = absurd (omega arith)
length-xor_block (x ∷ xs) (y ∷ ys) h = ap suc (length-xor_block xs ys (omega arith))

module _ (c : Crypto) (sized : IsSized c) where
  length-hash_buf : (src : List ℕ) (i n : ℕ) {d : List ℕ} → hash_buf c src i n ≡ ok d → length d ≡ n
  unfolding hash_buf
  length-hash_buf src i n {d} h = ground (arith, sized.final_length (be32 i ++ take n src) n d)

  length-diffuse_blocks :
      (blocks i : ℕ) (src : List ℕ) (padding : ℕ) {d : List ℕ}
      → diffuse_blocks c blocks i src padding ≡ ok d
      → length d ≡ blocks * c.hash_size + padding
  unfolding diffuse_blocks
  length-diffuse_blocks zero i src padding h = elim (Bool-cases (ltb 0 padding)) [
    | inl e ↦ omega (arith, length-hash_buf src i padding (rw e at h))
    | inr e ↦ ground arith
  ]
  length-diffuse_blocks (suc blocks) i src padding h =
      let (x, hx, h1) = >>=-eq-ok (hash_buf c src i c.hash_size) h in
      let (r, hr, e) =
        >>=-eq-ok (diffuse_blocks c blocks (i + 1) (drop c.hash_size src) padding) h1 in
      omega (
        arith,
        ap length (ok-injective e),
        length-hash_buf src i c.hash_size hx,
        length-diffuse_blocks blocks (i + 1) (drop c.hash_size src) padding hr,
        length-append x r,
      )

  -- `diffuse` writes as many bytes as it was given room for.
  pub length-diffuse :
      (src : List ℕ) (size : ℕ) {d : List ℕ} → diffuse c src size ≡ ok d → length d ≡ size
  unfolding diffuse
  length-diffuse src size h = elim (Bool-cases (c.hash_size == 0)) [
    | inl e ↦ ground arith
    | inr e ↦ omega (
      arith,
      length-diffuse_blocks (size / c.hash_size) 0 src (size % c.hash_size) (rw e at h),
      div-add-mod size c.hash_size,
    )
  ]

  merge_blocks-split_blocks :
      (rounds i : ℕ) (src buf : List ℕ) (size : ℕ) {d : List ℕ}
      → length src ≡ size
      → length buf ≡ size
      → split_blocks c rounds i src buf size ≡ ok d
      → merge_blocks c rounds d buf size ≡ ok src
  unfolding split_blocks merge_blocks
  merge_blocks-split_blocks zero i src buf size {d} hs hb h =
      let e : xor_block src buf ≡ d = cc in
      rw (
        ← e,
        take_all size (xor_block src buf) (omega (arith, length-xor_block src buf (omega arith))),
        xor_block-cancel src buf (omega arith),
      )
  merge_blocks-split_blocks (suc rounds) i src buf size {d} hs hb h =
      let (r, hr, h1) = >>=-eq-ok (c.random i size) h in
      let (b, hb', h2) = >>=-eq-ok (diffuse c (xor_block r buf) size) h1 in
      let (rest, hrest, h3) = >>=-eq-ok (split_blocks c rounds (i + 1) src b size) h2 in
      let e : r ++ rest ≡ d = cc in
      let len = sized.random_length i size r hr in
      rw (← e, take-append size r rest len, drop-append size r rest len, hb')
        (merge_blocks-split_blocks rounds (i + 1) src b size hs (length-diffuse _ size hb') hrest)

  length-split_blocks :
      (rounds i : ℕ) (src buf : List ℕ) (size : ℕ) {d : List ℕ}
      → length src ≡ size
      → length buf ≡ size
      → split_blocks c rounds i src buf size ≡ ok d
      → length d ≡ size * (rounds + 1)
  unfolding split_blocks
  length-split_blocks zero i src buf size {d} hs hb h =
      ground (arith, length-xor_block src buf (omega arith))
  length-split_blocks (suc rounds) i src buf size {d} hs hb h =
      let (r, hr, h1) = >>=-eq-ok (c.random i size) h in
      let (b, hb', h2) = >>=-eq-ok (diffuse c (xor_block r buf) size) h1 in
      let (rest, hrest, h3) = >>=-eq-ok (split_blocks c rounds (i + 1) src b size) h2 in
      let e : r ++ rest ≡ d = cc in
      let tail =
        length-split_blocks rounds (i + 1) src b size hs (length-diffuse _ size hb') hrest in
      omega (arith, ap length e, length-append r rest, sized.random_length i size r hr, tail)

  -- If `AF_split` of a key of `size` bytes succeeds, its output has `size` bytes for each of the
  -- `n` stripes, and `AF_merge` of that output gives the key back. The hash and the random number
  -- generator are any whose results have the length asked for; `n` is a positive 32-bit number.
  pub af_merge-af_split :
      (src : List ℕ) (n : ℕ) {d : List ℕ}
      → 0 < n
      → n < u32_mod
      → af_split c src (length src) n ≡ ok d
      → (length d ≡ length src * n) × (af_merge c d (length src) n ≡ ok src)
  unfolding af_split af_merge
  af_merge-af_split src n pos small h =
      let rounds : ℕ = (n + u32_mod - 1) % u32_mod in
      let zeros = length-replicate {A = ℕ} (length src) 0 in
      let len = length-split_blocks rounds 0 src _ (length src) refl zeros h in
      let e : rounds + 1 ≡ n = omega arith in
      (
        len ∙ ap (λ (t : ℕ). length src * t) e,
        merge_blocks-split_blocks rounds 0 src _ (length src) refl zeros h,
      )
