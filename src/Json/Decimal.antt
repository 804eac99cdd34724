-- ===== src/Json/Decimal.antt =====
-- The functions of the C library that read and print decimal numbers.
use cryptsetup.Base.{
  ℕ, zero, suc, ◌+◌, ◌-◌, ◌*◌, ◌/◌, ◌%◌, ◌^◌, List, [], ◌∷◌, ◌++◌, Bool, true, false, not, ◌&&◌,
  ◌||◌, ◌==◌, leb, ltb, if◌then◌else◌,
}

abbrev pub is_digit : ℕ → Bool
is_digit c = leb 48 c && leb c 57

abbrev pub is_space : ℕ → Bool
is_space c = c == 32 || leb 9 c && leb c 13

-- The digits of a number, with at most `fuel` of them; 20 are enough for 64 bits.
unfoldable pub digits_of : ℕ → ℕ → List ℕ
digits_of zero n = []
digits_of (suc fuel) n =
    if ltb n 10 then (48 + n) ∷ [] else digits_of fuel (n / 10) ++ ((48 + n % 10) ∷ [])

-- `snprintf` with %u or PRIu64
abbrev pub decimal : ℕ → List ℕ
decimal n = digits_of 20 n

-- The number that the digits in front make, after the digits before them made `n`, and the rest.
unfoldable pub scan_digits : ℕ → List ℕ → ℕ × List ℕ
scan_digits n [] = (n, [])
scan_digits n (c ∷ s) = if is_digit c then scan_digits (n * 10 + (c - 48)) s else (n, c ∷ s)

unfoldable pub skip_space : List ℕ → List ℕ
skip_space [] = []
skip_space (c ∷ s) = if is_space c then skip_space s else c ∷ s

pub record Scan : Type 0 where
  pub value : ℕ
  -- Whether errno is ERANGE.
  pub range_error : Bool
  -- What `endptr` points to.
  pub rest : List ℕ

unfoldable pub starts_with_digit : List ℕ → Bool
starts_with_digit [] = false
starts_with_digit (c ∷ s) = is_digit c

-- The digits behind the sign. Without a digit the whole text is left.
unfoldable pub scan_unsigned : List ℕ → Bool → List ℕ → Scan
unfolding scan_digits starts_with_digit
scan_unsigned text minus s =
    let (n, rest) = scan_digits 0 s in
    if not (starts_with_digit s)
    then record { value = 0; range_error = false; rest = text }
    else if leb (2 ^ 64) n
    then record { value = 2 ^ 64 - 1; range_error = true; rest = rest }
    else record {
      value = if minus then (2 ^ 64 - n) % 2 ^ 64 else n;
      range_error = false;
      rest = rest;
    }

unfoldable pub scan_sign : List ℕ → List ℕ → Scan
unfolding scan_unsigned
scan_sign text [] = scan_unsigned text false []
scan_sign text (c ∷ s) =
    if c == b'-'
    then scan_unsigned text true s
    else if c == b'+'
    then scan_unsigned text false s
    else scan_unsigned text false (c ∷ s)

-- `strtoull` with base 10
unfoldable pub strtoull : List ℕ → Scan
unfolding scan_sign skip_space
strtoull s = scan_sign s (skip_space s)

-- `atoi` of a text that starts with a digit and whose number fits an int; 0 for another text. The C
-- standard leaves the other numbers undefined; statements about ids exclude them.
unfoldable pub atoi : List ℕ → ℕ
unfolding scan_digits
atoi s = (scan_digits 0 s).0
