-- ===== src/Base/Strings.antt =====
-- The string functions of the C library, on buffers and on texts as lists of bytes.
use Prim.Native.Nat.{ℕ, suc, ◌+◌}
use Prim.Native.Char.{code}
use Prim.Native.String.{String}
use mathlib.Core.Path.{◌≡◌, refl, ap₂}
use mathlib.Core.Bool.{Bool, true, false, ◌&&◌}
use mathlib.Core.List.{List, [], ◌∷◌}
use mathlib.Core.Option.{Option, none, some}
use native.Mathlib.Omega.{arith}
use cryptsetup.Base.Lists.{take}
use cryptsetup.Base.Tests.{◌==◌, leb, if◌then◌else◌}

-- The bytes of a literal.
abbrev pub codes : String → List ℕ
codes String.[] = []
codes (String.◌∷◌ c s) = code c ∷ codes s

-- `strlen` of a string that lies in the buffer.
unfoldable pub strlen : List ℕ → ℕ
strlen [] = 0
strlen (c ∷ s) = if c == 0 then 0 else suc (strlen s)

-- `memcmp(a, b, n) == 0` on arrays of at least `n` bytes.
unfoldable pub same : List ℕ → List ℕ → Bool
same [] [] = true
same [] (b ∷ bs) = false
same (a ∷ as') [] = false
same (a ∷ as') (b ∷ bs) = a == b && same as' bs

-- `strcmp(a, b) == 0`
unfoldable pub same_string : List ℕ → List ℕ → Bool
unfolding same strlen
same_string a b = same (take (strlen a) a) (take (strlen b) b)

pub same_refl : (xs : List ℕ) → same xs xs ≡ true
unfolding same
same_refl [] = refl
same_refl (x ∷ xs) = ground (arith, same_refl xs)

unfoldable pub to_lower : ℕ → ℕ
to_lower c = if leb b'A' c && leb c b'Z' then c + 32 else c

-- `strcasecmp(a, b) == 0`, for texts.
unfoldable pub same_nocase : List ℕ → List ℕ → Bool
unfolding to_lower
same_nocase [] [] = true
same_nocase [] (b ∷ bs) = false
same_nocase (a ∷ as') [] = false
same_nocase (a ∷ as') (b ∷ bs) = to_lower a == to_lower b && same_nocase as' bs

-- `strncasecmp(a, p, strlen(p)) == 0`
unfoldable pub starts_nocase : List ℕ → List ℕ → Bool
unfolding to_lower
starts_nocase a [] = true
starts_nocase [] (p ∷ ps) = false
starts_nocase (a ∷ as') (p ∷ ps) = to_lower a == to_lower p && starts_nocase as' ps

-- The text before the first `c`, and the text behind it if there is a `c` (`strchr`).
unfoldable pub split_at : ℕ → List ℕ → List ℕ × Option (List ℕ)
split_at c [] = ([], none)
split_at c (a ∷ as') =
    let (front, back) = split_at c as' in if a == c then ([], some as') else (a ∷ front, back)

pub same-eq : (xs ys : List ℕ) → same xs ys ≡ true → xs ≡ ys
unfolding same
same-eq [] [] h = refl
same-eq [] (y ∷ ys) h = absurd cc
same-eq (x ∷ xs) [] h = absurd cc
same-eq (x ∷ xs) (y ∷ ys) h =
    let head : x ≡ y = ground arith in
    let tail : same xs ys ≡ true = ground arith in ap₂ (λ a as'. a ∷ as') head (same-eq xs ys tail)
