-- ===== src/Base/Int32.antt =====
-- The operations on `i32` in a release build, on bit patterns below 2 ^ 32: a sum, a difference and a product wrap, a
-- division that has no result panics.
use Prim.Native.Nat.{ℕ, ◌+◌, ◌-◌, ◌*◌, ◌/◌, ◌%◌, ◌^◌, ◌≤◌, ◌<◌}
use mathlib.Core.Path.{◌≡◌}
use mathlib.Core.Bool.{Bool, true, ◌&&◌}
use mathlib.Core.Option.{Option, none, some}
use native.Mathlib.Omega.{arith}
use secure_desk.Base.Tests.{ltb, leb, ◌==◌, if◌then◌else◌}

abbrev pub is_negative : ℕ → Bool
is_negative a = leb (2 ^ 31) a

abbrev pub sub32 : ℕ → ℕ → ℕ
sub32 a b = (a + 2 ^ 32 - b) % 2 ^ 32

abbrev pub mul32 : ℕ → ℕ → ℕ
mul32 a b = (a * b) % 2 ^ 32

abbrev pub neg32 : ℕ → ℕ
neg32 a = (2 ^ 32 - a) % 2 ^ 32

-- The absolute value of the least number is the least number.
abbrev pub abs32 : ℕ → ℕ
abs32 a = if is_negative a then neg32 a else a

-- `a < b` for a `b` that is not negative
abbrev pub lt32 : ℕ → ℕ → Bool
lt32 a b = if is_negative a then true else ltb a b

-- The quotient of the absolute values, with the sign
abbrev pub signed_quotient : ℕ → ℕ → ℕ
signed_quotient a b =
    let q = abs32 a / abs32 b in
    if is_negative a
    then (if is_negative b then q else neg32 q)
    else (if is_negative b then neg32 q else q)

abbrev pub div32 : ℕ → ℕ → Option ℕ
div32 a b =
    if b == 0
    then none
    else if a == 2 ^ 31 && b == 2 ^ 32 - 1
    then none
    else some (signed_quotient a b)

-- Between two numbers that are not negative, what is nearer than 2 is at most 1 away.
pub near_lem :
    (a b : ℕ)
    → a < 2 ^ 31
    → b < 2 ^ 31
    → lt32 (abs32 (sub32 a b)) 2 ≡ true
    → (a ≤ b + 1) × (b ≤ a + 1)
near_lem a b ha hb h = ground arith

pub div32_lem : (a b : ℕ) → a < 2 ^ 31 → 0 < b → b < 2 ^ 31 → div32 a b ≡ some (a / b)
div32_lem a b ha hb hb' = ground arith
