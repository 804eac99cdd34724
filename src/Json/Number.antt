-- ===== src/Json/Number.antt =====
-- lib/luks2/luks2_json_metadata.c: numbers as texts.
use cryptsetup.Base.{
  ℕ, zero, suc, ◌+◌, ◌-◌, ◌*◌, ◌/◌, ◌%◌, ◌^◌, ◌<◌, ◌≤◌, ◌≡◌, refl, sym, ap, ◌∙◌, arith, List, [],
  ◌∷◌, ◌++◌, append-nil, append_assoc,
}
use cryptsetup.Base.{
  true, false, not, ◌==◌, leb, ltb, if◌then◌else◌, Bool-cases, inl, inr, some, none,
}
use cryptsetup.Json.{JsonC, json_str_to_uint64, new_uint64}
use cryptsetup.Json.Decimal.{
  decimal, digits_of, scan_digits, skip_space, is_digit, is_space, starts_with_digit, scan_unsigned,
  scan_sign, strtoull, Scan, atoi,
}
use cryptsetup.Json.Laws.{IsJsonC}

abbrev pow10 : ℕ → ℕ
pow10 zero = 1
pow10 (suc n) = 10 * pow10 n

some_fuel : (n fuel : ℕ) → n < pow10 (suc fuel) → 10 ≤ n → 0 < fuel
some_fuel n zero small large = absurd (omega arith)
some_fuel n (suc fuel) small large = omega arith

scan_digit :
    (n d : ℕ) (t : List ℕ) → d < 10 → scan_digits n ((48 + d) ∷ t) ≡ scan_digits (n * 10 + d) t
unfolding scan_digits
scan_digit n d t small =
    let digit : is_digit (48 + d) ≡ true = ground arith in
    let value : n * 10 + (48 + d - 48) ≡ n * 10 + d = omega arith in
    rw digit (ap (λ k. scan_digits k t) value)

pub scan-digits_of :
    (fuel n : ℕ) (t : List ℕ)
    → n < pow10 fuel
    → 0 < fuel
    → scan_digits 0 (digits_of fuel n ++ t) ≡ scan_digits n t
unfolding digits_of
scan-digits_of zero n t small pos = absurd (omega arith)
scan-digits_of (suc fuel) n t small pos = elim (Bool-cases (ltb n 10)) [
  | inl last ↦ rw last (scan_digit 0 n t (ground arith) ∙ ap (λ k. scan_digits k t) (omega arith))
  | inr more ↦
      let large : 10 ≤ n = ground arith in
      let value : n / 10 * 10 + n % 10 ≡ n = omega arith in
      rw more (
        ap (λ x. scan_digits 0 x) (append_assoc (digits_of fuel (n / 10)) ((48 + n % 10) ∷ []) t)
        ∙ scan-digits_of fuel (n / 10) ((48 + n % 10) ∷ t) (omega arith)
            (some_fuel n fuel small large)
        ∙ scan_digit (n / 10) (n % 10) t (omega arith)
        ∙ ap (λ k. scan_digits k t) value)
]

digits_of-cons :
    (fuel n : ℕ)
    → n < pow10 fuel
    → 0 < fuel
    → (c : ℕ) × (s : List ℕ) × (digits_of fuel n ≡ c ∷ s) × (is_digit c ≡ true)
unfolding digits_of
digits_of-cons zero n small pos = absurd (omega arith)
digits_of-cons (suc fuel) n small pos = elim (Bool-cases (ltb n 10)) [
  | inl last ↦ (48 + n, [], rw last refl, ground arith)
  | inr more ↦
      let (c, s, e, d) =
        digits_of-cons fuel (n / 10) (omega arith) (some_fuel n fuel small (ground arith)) in
      (c, s ++ ((48 + n % 10) ∷ []), rw more (ap (λ x. x ++ ((48 + n % 10) ∷ [])) e), d)
]

-- A text that starts with a digit has neither white space nor a sign in front.
strtoull_digits :
    (c : ℕ) (s rest : List ℕ) (n : ℕ)
    → is_digit c ≡ true
    → scan_digits 0 (c ∷ s) ≡ (n, rest)
    → n < 2 ^ 64
    → strtoull (c ∷ s) ≡ record { value = n; range_error = false; rest = rest }
unfolding strtoull skip_space scan_sign scan_unsigned starts_with_digit
strtoull_digits c s rest n digit scan small =
    let not_space : is_space c ≡ false = ground arith in
    let not_minus : (c == b'-') ≡ false = ground arith in
    let not_plus : (c == b'+') ≡ false = ground arith in
    let fits : leb (2 ^ 64) n ≡ false = ground arith in
    let found : ℕ × List ℕ → Scan = λ p.
      if leb (2 ^ 64) (p.0)
      then record { value = 2 ^ 64 - 1; range_error = true; rest = p.1 }
      else record { value = p.0; range_error = false; rest = p.1 } in
    let none_found : Scan = record { value = 0; range_error = false; rest = c ∷ s } in
    let unsigned : Scan = scan_unsigned (c ∷ s) false (c ∷ s) in
    ap (λ b. scan_sign (c ∷ s) (if b then skip_space s else c ∷ s)) not_space
    ∙ ap
        (λ b.
          if b
          then scan_unsigned (c ∷ s) true s
          else if c == b'+'
          then scan_unsigned (c ∷ s) false s
          else unsigned)
        not_minus
    ∙ ap (λ b. if b then scan_unsigned (c ∷ s) false s else unsigned) not_plus
    ∙ ap (λ b. if not b then none_found else found (scan_digits 0 (c ∷ s))) digit
    ∙ ap found scan
    ∙ ap
        (λ b.
          if b
          then record { value = 2 ^ 64 - 1; range_error = true; rest = rest }
          else record { value = n; range_error = false; rest = rest })
        fits

strtoull-decimal :
    (n : ℕ)
    → n < 2 ^ 64
    → strtoull (decimal n) ≡ record { value = n; range_error = false; rest = [] }
strtoull-decimal n small =
    let (c, s, e, d) = digits_of-cons 20 n (omega arith) (omega arith) in
    let scan : scan_digits 0 (decimal n) ≡ (n, []) =
      ap (λ x. scan_digits 0 x) (sym (append-nil (decimal n)))
      ∙ scan-digits_of 20 n [] (omega arith) (omega arith)
      ∙ nothing_left n in
    ap strtoull e ∙ strtoull_digits c s [] n d (ap (λ x. scan_digits 0 x) (sym e) ∙ scan) small
  where
    nothing_left : (k : ℕ) → scan_digits k [] ≡ (k, [])
    nothing_left k = unfold scan_digits in refl

-- A number that is stored as a text is read back, up to 64 bits.
pub json_str_to_uint64-new_uint64 :
    (j : JsonC) (n : ℕ) → IsJsonC j → n < 2 ^ 64 → json_str_to_uint64 j (new_uint64 j n) ≡ some n
unfolding json_str_to_uint64
json_str_to_uint64-new_uint64 j n laws small =
    let e : strtoull (j.get_string (new_uint64 j n))
        ≡ record { value = n; range_error = false; rest = [] } =
      ap strtoull (laws.string_new (decimal n)) ∙ strtoull-decimal n small in
    ap
      (λ (r : Scan). elim (r.rest) [
        | [] ↦ if r.range_error then none else some (r.value)
        | _ ∷ _ ↦ none
      ])
      e

pub atoi-decimal : (n : ℕ) → n < 2 ^ 64 → atoi (decimal n) ≡ n
unfolding atoi
atoi-decimal n small =
    ap (λ x. (scan_digits 0 x).0) (sym (append-nil (decimal n)))
    ∙ ap (λ (r : ℕ × List ℕ). r.0)
        (scan-digits_of 20 n [] (omega arith) (omega arith) ∙ nothing_left n)
  where
    nothing_left : (k : ℕ) → scan_digits k [] ≡ (k, [])
    nothing_left k = unfold scan_digits in refl

pub decimal-injective : (m n : ℕ) → m < 2 ^ 64 → n < 2 ^ 64 → decimal m ≡ decimal n → m ≡ n
decimal-injective m n hm hn e = sym (atoi-decimal m hm) ∙ ap atoi e ∙ atoi-decimal n hn
