-- ===== src/Common/Decimal.antt =====
-- Numbers in decimal, as `%d` and `%zd` print them.
use hydrogen_web.Common.Tests.{ltb, if◌then◌else◌}
use hydrogen_web.Common.Bytes.{Bytes}
use hydrogen_web.Common.Lists.{length}
use Prim.Native.Nat.{ℕ, zero, suc, ◌+◌, ◌-◌, ◌*◌, ◌/◌, ◌%◌, ◌<◌, ◌≤◌}
use mathlib.Core.Path.{◌≡◌, sym, ap, ◌∙◌}
use mathlib.Core.Bool.{true}
use native.Mathlib.Omega.{arith}
use mathlib.Core.List.{[], ◌∷◌}

-- The digits of `n` in front of `acc`, with fuel.
unfoldable pub digits_onto : ℕ → ℕ → Bytes → Bytes
digits_onto zero n acc = acc
digits_onto (suc fuel) n acc =
    let more = digits_onto fuel (n / 10) ((b'0' + n % 10) ∷ acc) in
    if ltb n 10 then (b'0' + n) ∷ acc else more

unfoldable pub decimal : ℕ → Bytes
unfolding digits_onto
decimal n = digits_onto (suc n) n []

-- The number that digits stand for, behind those that stand for `n`.
abbrev value : ℕ → Bytes → ℕ
value n [] = n
value n (c ∷ cs) = value (10 * n + (c - b'0')) cs

value-digits_onto :
    (fuel n : ℕ) (acc : Bytes) → n < fuel → value 0 (digits_onto fuel n acc) ≡ value n acc
unfolding digits_onto
value-digits_onto zero n acc h = elim h [ ]
value-digits_onto (suc fuel) n acc h =
    let e : 10 * (n / 10) + (b'0' + n % 10 - b'0') ≡ n = omega arith in
    let d : 10 * 0 + (b'0' + n - b'0') ≡ n = omega arith in
    ground (arith, value-digits_onto fuel (n / 10) ((b'0' + n % 10) ∷ acc), e, d)

-- No two numbers print alike.
pub decimal-injective : (m n : ℕ) → decimal m ≡ decimal n → m ≡ n
unfolding decimal
decimal-injective m n h =
    sym (value-digits_onto (suc m) m [] (omega arith))
    ∙ ap (value 0) h
    ∙ value-digits_onto (suc n) n [] (omega arith)

-- The numbers below are those of `k` digits at most.
abbrev pub ten : ℕ → ℕ
ten zero = 1
ten (suc k) = 10 * ten k

length-digits_onto :
    (fuel n k : ℕ) (acc : Bytes)
    → n < ten (suc k)
    → length (digits_onto fuel n acc) ≤ suc k + length acc
unfolding digits_onto
length-digits_onto zero n k acc h = omega arith
length-digits_onto (suc fuel) n zero acc h =
    let e : ltb n 10 ≡ true = ground arith in rw (e) (omega arith)
length-digits_onto (suc fuel) n (suc k) acc h =
    let i = length-digits_onto fuel (n / 10) k ((b'0' + n % 10) ∷ acc) (omega arith) in
    ground (arith, i)

pub length-decimal : (n k : ℕ) → n < ten (suc k) → length (decimal n) ≤ suc k
unfolding decimal
length-decimal n k h = let e = length-digits_onto (suc n) n k [] h in omega (arith, e)
