-- ===== src/Io/Bytes.antt =====
-- lib/utils_io.c: a write at an offset, cut into blocks.
use cryptsetup.Base.{
  ℕ, zero, suc, ◌+◌, ◌≤◌, ◌≡◌, refl, sym, ap, ◌∙◌, arith, List, [], ◌∷◌, ◌++◌, append-nil,
  append_assoc,
}
use cryptsetup.Base.{length, take, drop, take-append-drop, length-take, length-append}
use cryptsetup.Luks2.Device.{splice}

-- In each lemma, `k` is a sum with a name of its own, on which the recursion goes.
pub drop-drop : (m n k : ℕ) (xs : List ℕ) → n + m ≡ k → drop m (drop n xs) ≡ drop k xs
drop-drop m zero k xs e = ap (λ i. drop i xs) (the_sum e)
  where
    the_sum : 0 + m ≡ k → m ≡ k
    the_sum e = omega arith
drop-drop m (suc n) zero xs e = absurd (omega arith)
drop-drop zero (suc n) (suc k) [] e = refl
drop-drop (suc m) (suc n) (suc k) [] e = refl
drop-drop m (suc n) (suc k) (x ∷ xs) e = drop-drop m n k xs (omega arith)

pub take-drop-append :
    (m n k : ℕ) (xs : List ℕ) → m + n ≡ k → take m xs ++ take n (drop m xs) ≡ take k xs
take-drop-append zero n k xs e = ap (λ i. take i xs) (the_sum e)
  where
    the_sum : 0 + n ≡ k → n ≡ k
    the_sum e = omega arith
take-drop-append (suc m) n zero xs e = absurd (omega arith)
take-drop-append (suc m) zero (suc k) [] e = refl
take-drop-append (suc m) (suc n) (suc k) [] e = refl
take-drop-append (suc m) n (suc k) (x ∷ xs) e =
    ap (λ t. x ∷ t) (take-drop-append m n k xs (omega arith))

drop_all : (n : ℕ) (xs : List ℕ) → length xs ≤ n → drop n xs ≡ []
drop_all zero [] h = refl
drop_all zero (x ∷ xs) h = absurd (omega arith)
drop_all (suc n) [] h = refl
drop_all (suc n) (x ∷ xs) h = drop_all n xs (omega arith)

pub drop-take : (m n : ℕ) (xs : List ℕ) → m ≤ n → drop m (take n xs) ++ drop n xs ≡ drop m xs
drop-take zero n xs h = take-append-drop n xs
drop-take (suc m) zero xs h = absurd (omega arith)
drop-take (suc m) (suc n) [] h = refl
drop-take (suc m) (suc n) (x ∷ xs) h = drop-take m n xs (omega arith)

-- A write inside of the first `n` bytes leaves the others.
pub splice-take :
    (offset n : ℕ) (src xs : List ℕ)
    → offset + length src ≤ n
    → n ≤ length xs
    → splice offset src (take n xs) ++ drop n xs ≡ splice offset src xs
unfolding splice
splice-take zero n src xs h k =
    append_assoc src (drop (length src) (take n xs)) (drop n xs)
    ∙ ap (λ t. src ++ t) (drop-take (length src) n xs (omega arith))
splice-take (suc offset) zero src xs h k = absurd (omega arith)
splice-take (suc offset) (suc n) src [] h k = absurd (omega arith)
splice-take (suc offset) (suc n) src (x ∷ xs) h k =
    ap (λ t. x ∷ t) (splice-take offset n src xs (omega arith) (omega arith))

-- A write that ends with the first `n` bytes, and one that starts behind them.
pub splice-append :
    (offset n : ℕ) (s1 s2 xs : List ℕ)
    → offset + length s1 ≡ n
    → n ≤ length xs
    → splice offset s1 (take n xs) ++ splice 0 s2 (drop n xs) ≡ splice offset (s1 ++ s2) xs
unfolding splice
splice-append zero n s1 s2 xs h k =
    let gone : drop (length s1) (take n xs) ≡ [] =
      drop_all (length s1) (take n xs) (omega (arith, length-take n xs)) in
    ap (λ t. (s1 ++ t) ++ (s2 ++ drop (length s2) (drop n xs))) gone
    ∙ ap (λ t. t ++ (s2 ++ drop (length s2) (drop n xs))) (append-nil s1)
    ∙ sym (append_assoc s1 s2 (drop (length s2) (drop n xs)))
    ∙ ap (λ t. (s1 ++ s2) ++ t)
        (drop-drop (length s2) n (length (s1 ++ s2)) xs (omega (arith, length-append s1 s2)))
splice-append (suc offset) zero s1 s2 xs h k = absurd (omega arith)
splice-append (suc offset) (suc n) s1 s2 [] h k = absurd (omega arith)
splice-append (suc offset) (suc n) s1 s2 (x ∷ xs) h k =
    ap (λ t. x ∷ t) (splice-append offset n s1 s2 xs (omega arith) (omega arith))

-- A write at an offset from some byte on.
pub splice-drop :
    (n offset k : ℕ) (src xs : List ℕ)
    → n + offset ≡ k
    → n ≤ length xs
    → take n xs ++ splice offset src (drop n xs) ≡ splice k src xs
unfolding splice
splice-drop zero offset k src xs e h = ap (λ m. splice m src xs) (the_sum e)
  where
    the_sum : 0 + offset ≡ k → offset ≡ k
    the_sum e = omega arith
splice-drop (suc n) offset k src [] e h = absurd (omega arith)
splice-drop (suc n) offset zero src (x ∷ xs) e h = absurd (omega arith)
splice-drop (suc n) offset (suc k) src (x ∷ xs) e h =
    ap (λ t. x ∷ t) (splice-drop n offset k src xs (omega arith) (omega arith))
