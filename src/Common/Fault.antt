-- ===== src/Common/Fault.antt =====
-- The result of code that can fault: a value, or the way in which the run ends abnormally.
use mathlib.Core.Bool.{Bool, true, false}
use mathlib.Core.Path.{◌≡◌, refl}

-- `out_of_bounds` is an access outside a vector or a range whose end precedes its start,
-- `assertion` a failed `assert`, `exception` a C++ exception that nothing catches, `aborted` a call of `abort`, `overflow` a signed
-- number out of its range, `stuck` a loop that has not ended within its fuel.
pub data Fault : Type 0 where
  out_of_bounds assertion exception aborted overflow stuck : Fault

pub data Result {ℓ} (Value : Type ℓ) : Type ℓ where
  err : Fault → Result Value
  ok : Value → Result Value

-- The rest of a computation, behind a value and behind a check.
infixl 5 ◌>>=◌ ◌>>◌
abbrev pub ◌>>=◌ {ℓ₁ ℓ₂} :
    {From : Type ℓ₁} {To : Type ℓ₂} → Result From → (From → Result To) → Result To
err fault >>= rest = err fault
ok value >>= rest = rest value

abbrev pub ◌>>◌ {ℓ} : {To : Type ℓ} → Result (Unit {0}) → Result To → Result To
err fault >> rest = err fault
ok checked >> rest = rest

-- `assert(b)` and the like: goes on when the test holds.
abbrev pub guard : Bool → Fault → Result (Unit {0})
guard false fault = err fault
guard true fault = ok tt

-- What a computation that has succeeded went through: its first part succeeded, and so did the rest.
pub >>=-eq-ok {ℓ₁ ℓ₂} :
    {From : Type ℓ₁} {To : Type ℓ₂} (first : Result From) (rest : From → Result To) {last : To}
    → (first >>= rest) ≡ ok last
    → (value : From) × (first ≡ ok value) × (rest value ≡ ok last)
>>=-eq-ok (err fault) rest run = cc
>>=-eq-ok (ok value) rest run = (value, refl, run)

pub ok-injective {ℓ} : {A : Type ℓ} {a b : A} → ok a ≡ ok b → a ≡ b
ok-injective h = cc

-- Inversion of a guard that is passed.
pub guard-eq-ok {ℓ} :
    {B : Type ℓ} (t : Bool) (e : Fault) (k : Result B) {b : B}
    → (guard t e >> k) ≡ ok b
    → (t ≡ true) × (k ≡ ok b)
guard-eq-ok true e k h = (refl, h)
guard-eq-ok false e k h = cc
