-- ===== src/Base/Bits.antt =====
-- Exclusive or at variables: two applications of one mask cancel.
use Prim.Native.Nat.{ℕ, zero, suc, ◌+◌, ◌-◌, ◌*◌, ◌/◌, ◌%◌, ◌≤◌, ◌<◌, bit_xor, differ, digits}
use Prim.Native.Nat.{bit_xor-bitwise}
use mathlib.Core.Path.{◌≡◌, refl, sym, ap, ◌∙◌}
use mathlib.Core.Bool.{Bool, true, ◌&&◌}
use native.Mathlib.Omega.{arith}

abbrev xor_digits : ℕ → ℕ → ℕ → ℕ
xor_digits n a b = digits (λ b. b) differ n a b

xor_digits_zero : (fuel b : ℕ) → xor_digits fuel 0 b ≡ b
xor_digits_zero zero b = refl
xor_digits_zero (suc fuel) b = refl

-- A round more changes nothing, once there are as many as `a`.
xor_digits-suc : (fuel a b : ℕ) → a ≤ fuel → xor_digits (suc fuel) a b ≡ xor_digits fuel a b
xor_digits-suc fuel zero b enough = sym (xor_digits_zero fuel b)
xor_digits-suc zero (suc a) b enough = absurd (omega arith)
xor_digits-suc (suc fuel) (suc a) b enough =
    ap (λ t. t * 2 + differ (suc a % 2) (b % 2))
      (xor_digits-suc fuel (suc a / 2) (b / 2) (omega arith))

xor_digits_settle :
    (more fuel a b : ℕ) → a ≤ fuel → xor_digits (more + fuel) a b ≡ xor_digits fuel a b
xor_digits_settle zero fuel a b enough = ap (λ n. xor_digits n a b) (omega arith)
xor_digits_settle (suc more) fuel a b enough =
    let next : suc more + fuel ≡ suc (more + fuel) = omega arith in
    ap (λ n. xor_digits n a b) next
    ∙ xor_digits-suc (more + fuel) a b (omega arith)
    ∙ xor_digits_settle more fuel a b enough

bit_xor_step : (a b : ℕ) → bit_xor a b ≡ bit_xor (a / 2) (b / 2) * 2 + differ (a % 2) (b % 2)
bit_xor_step zero b =
    let whole : bit_xor 0 b ≡ b = bit_xor-bitwise 0 b in
    let halves : bit_xor 0 (b / 2) ≡ b / 2 = bit_xor-bitwise 0 (b / 2) in omega arith
bit_xor_step (suc a) b =
    let half : ℕ = suc a / 2 in
    let rounds : (a - half) + half ≡ a = omega arith in
    let settled = xor_digits_settle (a - half) half half (b / 2) (omega arith) in
    let enough : xor_digits a half (b / 2) ≡ xor_digits half half (b / 2) =
      ap (λ n. xor_digits n half (b / 2)) (sym rounds) ∙ settled in
    omega (arith, enough, bit_xor-bitwise (suc a) b, bit_xor-bitwise half (b / 2))

differ_binary : (x y : ℕ) → x < 2 → y < 2 → (differ x y < 2) × (differ (differ x y) y ≡ x)
differ_binary zero zero p q = omega arith
differ_binary zero (suc zero) p q = omega arith
differ_binary zero (suc (suc y)) p q = absurd (omega arith)
differ_binary (suc zero) zero p q = omega arith
differ_binary (suc zero) (suc zero) p q = omega arith
differ_binary (suc zero) (suc (suc y)) p q = absurd (omega arith)
differ_binary (suc (suc x)) y p q = absurd (omega arith)

bit_xor-cancel_fuel : (n a b : ℕ) → a ≤ n → b ≤ n → bit_xor (bit_xor a b) b ≡ a
bit_xor-cancel_fuel zero zero zero p q = refl
bit_xor-cancel_fuel zero zero (suc b) p q = absurd (omega arith)
bit_xor-cancel_fuel zero (suc a) b p q = absurd (omega arith)
bit_xor-cancel_fuel (suc n) a b p q =
    let (small, back) = differ_binary (a % 2) (b % 2) (omega arith) (omega arith) in
    let half : bit_xor a b / 2 ≡ bit_xor (a / 2) (b / 2) = omega (arith, bit_xor_step a b, small) in
    let low : bit_xor a b % 2 ≡ differ (a % 2) (b % 2) = omega (arith, bit_xor_step a b, small) in
    omega (
      arith,
      bit_xor_step (bit_xor a b) b,
      ap (λ t. bit_xor t (b / 2)) half,
      ap (λ t. differ t (b % 2)) low,
      back,
      bit_xor-cancel_fuel n (a / 2) (b / 2) (omega arith) (omega arith),
    )

-- A mask applied twice gives the number back.
pub bit_xor-cancel : (a b : ℕ) → bit_xor (bit_xor a b) b ≡ a
bit_xor-cancel a b = bit_xor-cancel_fuel (a + b) a b (omega arith) (omega arith)

-- A test that every number below a bound passes.
unfoldable pub holds_below : (ℕ → Bool) → ℕ → Bool
holds_below test zero = true
holds_below test (suc bound) = holds_below test bound && test bound

pub holds_below_sound :
    (test : ℕ → Bool) (bound x : ℕ) → x < bound → holds_below test bound ≡ true → test x ≡ true
unfolding holds_below
holds_below_sound test zero x lt h = absurd (omega arith)
holds_below_sound test (suc bound) x lt h = ground (arith, holds_below_sound test bound x)
