-- ===== src/Gateway/Cipher/Bits.antt =====
-- The exclusive or of numbers, one binary digit at a time.
use Prim.Native.Nat.{digits, differ, bit_xor, bit_xor-bitwise}
use cpp_framework.Prelude.{ℕ, zero, suc, ◌+◌, ◌*◌, ◌/◌, ◌%◌, ◌^◌, ◌≤◌, ◌<◌, ◌≡◌, refl, arith}

pub pow_suc : (n : ℕ) → 2 ^ suc n ≡ 2 * 2 ^ n
pow_suc n = omega arith

abbrev xor_digits : ℕ → ℕ → ℕ → ℕ
xor_digits n a b = digits (λ b. b) differ n a b

xor_digits_fuel : (n m a b : ℕ) → a ≤ n → a ≤ m → xor_digits n a b ≡ xor_digits m a b
xor_digits_fuel zero zero a b p q = refl
xor_digits_fuel zero (suc m) zero b p q = refl
xor_digits_fuel zero (suc m) (suc a) b p q = absurd (omega arith)
xor_digits_fuel (suc n) zero zero b p q = refl
xor_digits_fuel (suc n) zero (suc a) b p q = absurd (omega arith)
xor_digits_fuel (suc n) (suc m) zero b p q = refl
xor_digits_fuel (suc n) (suc m) (suc a) b p q =
    omega (arith, xor_digits_fuel n m (suc a / 2) (b / 2) (omega arith) (omega arith))

bit_xor_zero : (b : ℕ) → bit_xor 0 b ≡ b
bit_xor_zero b = bit_xor-bitwise 0 b

differ_zero : (y : ℕ) → differ 0 y ≡ y
differ_zero y = refl

pub bit_xor_step : (a b : ℕ) → bit_xor a b ≡ bit_xor (a / 2) (b / 2) * 2 + differ (a % 2) (b % 2)
bit_xor_step zero b = omega (arith, bit_xor_zero b, bit_xor_zero (b / 2), differ_zero (b % 2))
bit_xor_step (suc a) b = omega (
  arith,
  bit_xor-bitwise (suc a) b,
  bit_xor-bitwise (suc a / 2) (b / 2),
  xor_digits_fuel a (suc a / 2) (suc a / 2) (b / 2) (omega arith) (omega arith),
)

differ_le : (x y : ℕ) → x ≤ 1 → y ≤ 1 → differ x y ≤ 1
differ_le zero y p q = q
differ_le (suc zero) zero p q = omega arith
differ_le (suc zero) (suc y) p q = omega arith
differ_le (suc (suc x)) y p q = absurd (omega arith)

differ_one : (x y : ℕ) → x ≡ 1 → y ≡ 1 → differ x y ≡ 0
differ_one x y p q = rw (p, q) refl

-- Where the top digits of two numbers stand at the same place, they cancel.
pub bit_xor_top :
    (k a b : ℕ) → 2 ^ k ≤ a → a < 2 ^ suc k → 2 ^ k ≤ b → b < 2 ^ suc k → bit_xor a b < 2 ^ k
bit_xor_top zero a b p q r s =
    let one : a ≡ 1 = omega arith in
    let other : b ≡ 1 = omega arith in rw (one, other) (omega arith)
bit_xor_top (suc k) a b p q r s =
    let half =
      bit_xor_top k (a / 2) (b / 2) (omega arith) (omega arith) (omega arith) (omega arith) in
    omega (arith, bit_xor_step a b, half, differ_le (a % 2) (b % 2) (omega arith) (omega arith))
