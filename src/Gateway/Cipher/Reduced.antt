-- ===== src/Gateway/Cipher/Reduced.antt =====
-- gateway_server/sdk/AESSBox.h: the remainder is a byte, and the two ways to square a byte agree.
use native.Mathlib.Nat.{pow-suc, one-le-pow, pow-le-pow_right}
use cpp_framework.Prelude.{
  ℕ, zero, suc, ◌+◌, ◌-◌, ◌*◌, ◌/◌, ◌%◌, ◌^◌, ◌≤◌, ◌<◌, ◌≡◌, refl, ap, Bool, nat_key, arith,
}
use cpp_framework.Gateway.Cipher.Bits.{pow_suc, bit_xor_top}
use cpp_framework.Gateway.Cipher.Field.{
  seekat, weight, length_from, bit_length, reduce_once, reduce, mod_poly, mul, mul_digits, multwo,
}

length_from_zero : (n : ℕ) → length_from n 0 ≡ 0
unfolding length_from
length_from_zero zero = refl
length_from_zero (suc n) = refl

length_from_top :
    (k n temp : ℕ) → k < n → 2 ^ k ≤ temp → temp < 2 ^ suc k → length_from n temp ≡ suc k
unfolding length_from
length_from_top k zero temp l p q = absurd (omega arith)
length_from_top zero (suc n) temp l p q =
    let one : temp ≡ 1 = omega arith in rw one (ap suc (length_from_zero n))
length_from_top (suc k) (suc n) temp l p q =
    ground
      (arith, length_from_top k n (temp / 2) (omega arith) (omega arith) (omega arith), pow_suc k)

-- The digits above the diagonal cancel those below it.
square_digits :
    (a7 a6 a5 a4 a3 a2 a1 a0 : Bool)
    → mul_digits a7 a6 a5 a4 a3 a2 a1 a0 a7 a6 a5 a4 a3 a2 a1 a0
      ≡ weight a7 0x4000
        + weight a6 0x1000
        + weight a5 0x0400
        + weight a4 0x0100
        + weight a3 0x0040
        + weight a2 0x0010
        + weight a1 0x0004
        + weight a0 0x0001
unfolding mul_digits
square_digits a7 a6 a5 a4 a3 a2 a1 a0 = ground arith

-- For the square of a byte the product of two bytes is the shorter formula, whatever the byte.
pub multwo-mul : (temp : ℕ) → multwo temp temp ≡ mul temp
unfolding multwo mul
multwo-mul temp =
    square_digits (seekat 7 temp) (seekat 6 temp) (seekat 5 temp) (seekat 4 temp) (seekat 3 temp)
      (seekat 2 temp) (seekat 1 temp) (seekat 0 temp)

pow_bounds : (j : ℕ) → j < 8 → (1 ≤ 2 ^ j) × (2 ^ j ≤ 128)
pow_bounds j l =
    let small : j ≤ 7 = omega arith in
    (one-le-pow j 2 (omega arith), pow-le-pow_right {n = 2} (omega arith) small)

shifted :
    (p mx : ℕ)
    → 1 ≤ p
    → p ≤ 128
    → 256 ≤ mx
    → mx < 512
    → (256 * p ≤ (mx * p) % 2 ^ 16) × ((mx * p) % 2 ^ 16 < 512 * p)
shifted p mx a b c d = grind arith

-- Two to the number of digits below the highest one.
abbrev top : ℕ → ℕ
top j = suc (suc (suc (suc (suc (suc (suc (suc j)))))))

pow-top : (j : ℕ) → 2 ^ top j ≡ 256 * 2 ^ j
pow-top j = simp pow-suc (omega arith)

reduce_once_lt :
    (j temp mx : ℕ)
    → j < 8
    → 2 ^ top j ≤ temp
    → temp < 2 ^ suc (top j)
    → 256 ≤ mx
    → mx < 512
    → reduce_once temp mx < 2 ^ top j
unfolding reduce_once bit_length
reduce_once_lt j temp mx l p q c d =
    let long = length_from_top (top j) 16 temp (omega arith) p q in
    let bounds = pow_bounds j l in
    let range = shifted (2 ^ j) mx bounds.0 bounds.1 c d in
    let shift : suc (top j) - 9 ≡ j = omega arith in
    rw (long, shift)
      (bit_xor_top (top j) temp ((mx * 2 ^ j) % 2 ^ 16) p q (omega (arith, pow-top j, range))
        (omega (arith, pow-top j, pow_suc (top j), range)))

reduce_once_shorter :
    (n temp mx : ℕ)
    → n < 8
    → 256 ≤ temp
    → temp < 2 ^ suc (top n)
    → 256 ≤ mx
    → mx < 512
    → reduce_once temp mx < 2 ^ top n
reduce_once_shorter zero temp mx l p q c d = reduce_once_lt zero temp mx l p q c d
reduce_once_shorter (suc n) temp mx l p q c d =
    let low = λ (r : temp < 2 ^ suc (top n)). reduce_once_shorter n temp mx (omega arith) p r c d in
    let high = λ (r : 2 ^ suc (top n) ≤ temp). reduce_once_lt (suc n) temp mx l r q c d in
    ground (arith, low, high, pow_suc (top n))

reduce_lt :
    (n temp mx : ℕ) → n ≤ 8 → temp < 2 ^ top n → 256 ≤ mx → mx < 512 → reduce n temp mx < 256
unfolding reduce
reduce_lt zero temp mx l q c d = q
reduce_lt (suc n) temp mx l q c d =
    let once = λ (p : 256 ≤ temp). reduce_once_shorter n temp mx (omega arith) p q c d in
    ground (arith, once, reduce_lt n (reduce_once temp mx) mx)

-- The loop of `mod` ends within eight rounds with a byte, for any short and any polynomial of degree 8.
pub mod_poly-reduce :
    (temp mx : ℕ)
    → temp < 2 ^ 16
    → 256 ≤ mx
    → mx < 512
    → (reduce 8 temp mx < 256) × (mod_poly temp mx ≡ reduce 8 temp mx)
unfolding mod_poly
mod_poly-reduce temp mx p c d =
    let less = reduce_lt 8 temp mx (omega arith) p c d in (less, omega (arith, less))
