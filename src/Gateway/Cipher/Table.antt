-- ===== src/Gateway/Cipher/Table.antt =====
-- gateway_server/sdk/AESSBox.h: the table that `GenerateOriginalBoxe` makes from its default polynomial.
use Prim.Native.Nat.{bit_xor}
use cpp_framework.Prelude.{
  ℕ, zero, suc, ◌≡◌, refl, ap, ◌∙◌, ◌<◌, Bool, true, ◌&&◌, ◌==◌, nat_key, nat_eq_iff, arith,
}
use cpp_framework.Gateway.Cipher.Field.{
  seekat, weight, length_from, bit_length, reduce_once, reduce, mod_poly, mul, mul_digits, multwo,
  matrix, invert_rounds, box_value,
}

-- x^8 + x, the polynomial that `__server.cpp` leaves to the default.
abbrev pub default_poly : ℕ
default_poly = 0x0102

all_below : ℕ → (ℕ → Bool) → Bool
all_below zero p = true
all_below (suc n) p = p n && all_below n p

all_below-Sound : (n : ℕ) (p : ℕ → Bool) (x : ℕ) → all_below n p ≡ true → x < n → p x ≡ true
unfolding all_below
all_below-Sound zero p x h l = absurd (omega arith)
all_below-Sound (suc n) p x h l = ground (arith, all_below-Sound n p x)

-- A constant and one summand for each digit.
unfoldable pub affine : ℕ → ℕ
affine x =
    bit_xor
      (bit_xor
        (bit_xor
          (bit_xor
            (bit_xor
              (bit_xor (bit_xor (bit_xor 99 (weight (seekat 0 x) 31)) (weight (seekat 1 x) 124))
                (weight (seekat 2 x) 241))
              (weight (seekat 3 x) 199))
            (weight (seekat 4 x) 62))
          (weight (seekat 5 x) 248))
        (weight (seekat 6 x) 227))
      (weight (seekat 7 x) 143)

unfoldable pub unaffine : ℕ → ℕ
unaffine y =
    bit_xor
      (bit_xor
        (bit_xor
          (bit_xor
            (bit_xor
              (bit_xor (bit_xor (bit_xor 3 (weight (seekat 0 y) 56)) (weight (seekat 1 y) 134))
                (weight (seekat 2 y) 97))
              (weight (seekat 3 y) 28))
            (weight (seekat 4 y) 194))
          (weight (seekat 5 y) 41))
        (weight (seekat 6 y) 148))
      (weight (seekat 7 y) 67)

table-affine : all_below 256 (λ x. box_value default_poly x == affine x) ≡ true
unfolding box_value matrix invert_rounds seekat length_from bit_length reduce_once reduce mod_poly
    mul mul_digits multwo affine all_below
table-affine = refl

table-unaffine : all_below 256 (λ x. unaffine (affine x) == x) ≡ true
unfolding seekat affine unaffine all_below
table-unaffine = refl

-- Every byte of the table is a constant and, for each digit of the index that is set, one more byte,
-- under exclusive or.
pub box_value-affine : (x : ℕ) → x < 256 → box_value default_poly x ≡ affine x
box_value-affine x h =
    (nat_eq_iff (box_value default_poly x) (affine x)).0
      (all_below-Sound 256 (λ x. box_value default_poly x == affine x) x table-affine h)

-- No two bytes have the same byte in the table.
pub unaffine-box_value : (x : ℕ) → x < 256 → unaffine (box_value default_poly x) ≡ x
unaffine-box_value x h =
    ap unaffine (box_value-affine x h)
    ∙ (nat_eq_iff (unaffine (affine x)) x).0
        (all_below-Sound 256 (λ x. unaffine (affine x) == x) x table-unaffine h)
