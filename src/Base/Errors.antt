-- ===== src/Base/Errors.antt =====
-- A function that returns 0 or a value, or a negative errno.
use mathlib.Core.Path.{◌≡◌, refl}
use mathlib.Core.Logic.{◌⊎◌, inl, inr}
use mathlib.Core.Bool.{Bool, true, false}
use cryptsetup.Base.Tests.{if◌then◌else◌}

-- The errno values that the modelled code names; any may come from a callee.
pub data Errno : Type 0 where
  einval enomem eio enoent ebusy enotsup eperm eagain enospc : Errno

pub data Result {ℓ} (A : Type ℓ) : Type ℓ where
  ok : A → Result A
  err : Errno → Result A

-- The first error ends a chain of calls.
infixl 5 ◌>>=◌ ◌>>◌
abbrev pub ◌>>=◌ {ℓ κ} : {A : Type ℓ} {B : Type κ} → Result A → (A → Result B) → Result B
err code >>= next = err code
ok value >>= next = next value

abbrev pub ◌>>◌ {κ} : {B : Type κ} → Result (Unit {0}) → Result B → Result B
err code >> next = err code
ok done >> next = next

abbrev pub guard : Bool → Errno → Result (Unit {0})
guard false code = err code
guard true code = ok tt

-- To split on the result of a callee and keep the equation.
pub Result-cases {ℓ} :
    {A : Type ℓ} (r : Result A) → ((a : A) × (r ≡ ok a)) ⊎ ((e : Errno) × (r ≡ err e))
Result-cases (ok a) = inl (a, refl)
Result-cases (err e) = inr (e, refl)

-- A chain that succeeds: its first call, which is named, has succeeded.
pub >>=-eq-ok {ℓ κ} :
    {A : Type ℓ} {B : Type κ} (call : Result A) {next : A → Result B} {result : B}
    → (call >>= next) ≡ ok result
    → (value : A) × (call ≡ ok value) × (next value ≡ ok result)
>>=-eq-ok (err code) chain = cc
>>=-eq-ok (ok value) chain = (value, refl, chain)

pub ok-injective {ℓ} : {A : Type ℓ} {a b : A} → ok a ≡ ok b → a ≡ b
ok-injective h = cc

-- A check that was passed.
pub if-eq-ok {ℓ} :
    {A : Type ℓ} (test : Bool) (e : Errno) (m : Result A) {result : A}
    → (if test then err e else m) ≡ ok result
    → (test ≡ false) × (m ≡ ok result)
if-eq-ok true e m h = cc
if-eq-ok false e m h = (refl, h)
