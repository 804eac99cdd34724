-- ===== src/Base/Endian.antt =====
-- lib/bitops.h: numbers in memory, `cpu_to_be64` and its relatives. The number of bytes comes first.
use Prim.Native.Nat.{ℕ, zero, suc, ◌+◌, ◌*◌, ◌/◌, ◌%◌, ◌^◌, ◌<◌}
use mathlib.Core.Path.{◌≡◌, refl, sym, ap, ◌∙◌}
use mathlib.Core.List.{List, [], ◌∷◌, ◌++◌}
use native.Mathlib.Nat.{pow-suc}
use native.Mathlib.Omega.{arith}
use cryptsetup.Base.Lists.{length, length-append}

-- Big-endian numbers in memory, as `cpu_to_be64` and `be64_to_cpu` convert them.
unfoldable pub cpu_to_be : ℕ → ℕ → List ℕ
cpu_to_be zero n = []
cpu_to_be (suc k) n = cpu_to_be k (n / 256) ++ (n % 256 ∷ [])

unfoldable pub be_to_cpu_from : ℕ → List ℕ → ℕ
be_to_cpu_from acc [] = acc
be_to_cpu_from acc (b ∷ bs) = be_to_cpu_from (acc * 256 + b) bs

unfoldable pub be_to_cpu : List ℕ → ℕ
unfolding be_to_cpu_from
be_to_cpu bs = be_to_cpu_from 0 bs

unfoldable pub cpu_to_le : ℕ → ℕ → List ℕ
cpu_to_le zero n = []
cpu_to_le (suc k) n = n % 256 ∷ cpu_to_le k (n / 256)

be_to_cpu_from-snoc :
    (acc : ℕ) (bs : List ℕ) (b : ℕ)
    → be_to_cpu_from acc (bs ++ (b ∷ [])) ≡ be_to_cpu_from acc bs * 256 + b
unfolding be_to_cpu_from
be_to_cpu_from-snoc acc [] b = refl
be_to_cpu_from-snoc acc (c ∷ bs) b = be_to_cpu_from-snoc (acc * 256 + c) bs b

-- A number that fits `k` bytes survives `cpu_to_be` and `be_to_cpu`.
pub be_to_cpu-cpu_to_be : (k n : ℕ) → n < 256 ^ k → be_to_cpu (cpu_to_be k n) ≡ n
unfolding be_to_cpu cpu_to_be be_to_cpu_from
be_to_cpu-cpu_to_be zero n h = omega arith
be_to_cpu-cpu_to_be (suc k) n h = omega (
  arith,
  be_to_cpu_from-snoc 0 (cpu_to_be k (n / 256)) (n % 256),
  be_to_cpu-cpu_to_be k (n / 256) (omega (arith, pow-suc 256 k)),
)

pub length-cpu_to_be : (k n : ℕ) → length (cpu_to_be k n) ≡ k
unfolding cpu_to_be
length-cpu_to_be zero n = refl
length-cpu_to_be (suc k) n =
    omega
      (arith, length-append (cpu_to_be k (n / 256)) (n % 256 ∷ []), length-cpu_to_be k (n / 256))

pub length-cpu_to_le : (k n : ℕ) → length (cpu_to_le k n) ≡ k
unfolding cpu_to_le
length-cpu_to_le zero n = refl
length-cpu_to_le (suc k) n = ap suc (length-cpu_to_le k (n / 256))

le_value : List ℕ → ℕ
le_value [] = 0
le_value (b ∷ bs) = b + 256 * le_value bs

le_value-cpu_to_le : (k n : ℕ) → n < 256 ^ k → le_value (cpu_to_le k n) ≡ n
unfolding le_value cpu_to_le
le_value-cpu_to_le zero n h = omega arith
le_value-cpu_to_le (suc k) n h =
    omega (arith, le_value-cpu_to_le k (n / 256) (omega (arith, pow-suc 256 k)))

-- Numbers that fit `k` bytes are told apart by those bytes, in either order.
pub cpu_to_le-injective :
    (k n m : ℕ) → n < 256 ^ k → m < 256 ^ k → cpu_to_le k n ≡ cpu_to_le k m → n ≡ m
cpu_to_le-injective k n m hn hm e =
    sym (le_value-cpu_to_le k n hn) ∙ ap le_value e ∙ le_value-cpu_to_le k m hm

pub cpu_to_be-injective :
    (k n m : ℕ) → n < 256 ^ k → m < 256 ^ k → cpu_to_be k n ≡ cpu_to_be k m → n ≡ m
cpu_to_be-injective k n m hn hm e =
    sym (be_to_cpu-cpu_to_be k n hn) ∙ ap be_to_cpu e ∙ be_to_cpu-cpu_to_be k m hm
