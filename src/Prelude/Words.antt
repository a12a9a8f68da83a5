-- ===== src/Prelude/Words.antt =====
-- Shorts and ints as the natural numbers of their bits. What C++ leaves open on an overflow wraps around.
use Prim.Native.Nat.{ℕ, ◌+◌, ◌-◌, ◌*◌, ◌/◌, ◌%◌, ◌^◌, ◌≤◌, ◌<◌}
use mathlib.Core.Path.{◌≡◌}
use native.Mathlib.Omega.{arith}
use mathlib.Core.Bool.{Bool}
use cpp_framework.Prelude.Tests.{ltb, leb, if◌then◌else◌}

-- The widening of a `short` to an `int`.
unfoldable pub widen : ℕ → ℕ
widen s = if ltb s (2 ^ 15) then s else s + (2 ^ 32 - 2 ^ 16)

-- `a <= b` for two values of `w` bits.
unfoldable pub signed_le : ℕ → ℕ → ℕ → Bool
signed_le w a b = leb ((a + 2 ^ (w - 1)) % 2 ^ w) ((b + 2 ^ (w - 1)) % 2 ^ w)

unfoldable pub int_mul : ℕ → ℕ → ℕ
int_mul a b = (a * b) % 2 ^ 32

unfoldable pub int_sub : ℕ → ℕ → ℕ
int_sub a b = (a + (2 ^ 32 - b)) % 2 ^ 32

-- `a / n` for a positive constant.
unfoldable pub int_div : ℕ → ℕ → ℕ
int_div a n = if ltb a (2 ^ 31) then a / n else (2 ^ 32 - (2 ^ 32 - a) / n) % 2 ^ 32

unfoldable pub short_add : ℕ → ℕ → ℕ
short_add a b = (a + b) % 2 ^ 16

unfoldable pub short_sub : ℕ → ℕ → ℕ
short_sub a b = (a + (2 ^ 16 - b)) % 2 ^ 16

unfoldable pub int_add : ℕ → ℕ → ℕ
int_add a b = (a + b) % 2 ^ 32

pub int_sub_self : (a : ℕ) → a ≤ 2 ^ 32 → int_sub a a ≡ 0
unfolding int_sub
int_sub_self a h = omega arith

pub int_add-int_sub : (a : ℕ) → a < 2 ^ 32 → int_add a (int_sub 0 a) ≡ 0
unfolding int_add int_sub
int_add-int_sub a h = omega arith

pub int_add_comm : (a b : ℕ) → int_add a b ≡ int_add b a
unfolding int_add
int_add_comm a b = omega arith

pub int_add_lt : (a b : ℕ) → int_add a b < 2 ^ 32
unfolding int_add
int_add_lt a b = omega arith

pub int_mul_lt : (a b : ℕ) → int_mul a b < 2 ^ 32
unfolding int_mul
int_mul_lt a b = omega arith
