-- ===== src/Gateway/Cipher/Field.antt =====
-- gateway_server/sdk/AESSBox.h: bytes as polynomials over two elements. The digits of a byte, which the
-- code has as the ints 0 and 1, are Booleans: `*` of two is `&&` and `^` is `xor`.
use Prim.Native.Nat.{bit_xor}
use cpp_framework.Prelude.{
  ℕ, zero, suc, ◌+◌, ◌-◌, ◌*◌, ◌/◌, ◌%◌, ◌^◌, Bool, true, false, not, ◌&&◌, List, [], ◌∷◌, ◌==◌,
  nat_key, if◌then◌else◌, ltb,
}

-- `seekat0` to `seekat7`
unfoldable pub seekat : ℕ → ℕ → Bool
seekat k byte = (byte / 2 ^ k) % 2 == 1

infixl 40 ◌⊻◌
abbrev pub ◌⊻◌ : Bool → Bool → Bool
true ⊻ b = not b
false ⊻ b = b

-- `if (b) out += n`
abbrev pub weight : Bool → ℕ → ℕ
weight true n = n
weight false n = 0

-- `length`: the loop shifts a short, so sixteen rounds are enough.
unfoldable pub length_from : ℕ → ℕ → ℕ
length_from zero temp = 0
length_from (suc n) temp = let rest = length_from n (temp / 2) in if temp == 0 then 0 else suc rest

unfoldable pub bit_length : ℕ → ℕ
bit_length temp = length_from 16 temp

-- One round of `mod`: the short `mx << (length (temp) - 9)` is taken off.
unfoldable pub reduce_once : ℕ → ℕ → ℕ
reduce_once temp mx = bit_xor temp ((mx * 2 ^ (bit_length temp - 9)) % 2 ^ 16)

unfoldable pub reduce : ℕ → ℕ → ℕ → ℕ
reduce zero temp mx = temp
reduce (suc n) temp mx =
    let rest = reduce n (reduce_once temp mx) mx in if ltb temp 256 then temp else rest

-- `mod`: each round makes a short shorter, down to the eight digits of a byte.
unfoldable pub mod_poly : ℕ → ℕ → ℕ
mod_poly temp mx = reduce 8 temp mx % 2 ^ 8

-- `mul`: the square of a byte.
unfoldable pub mul : ℕ → ℕ
mul temp =
    weight (seekat 7 temp) 0x4000
    + weight (seekat 6 temp) 0x1000
    + weight (seekat 5 temp) 0x0400
    + weight (seekat 4 temp) 0x0100
    + weight (seekat 3 temp) 0x0040
    + weight (seekat 2 temp) 0x0010
    + weight (seekat 1 temp) 0x0004
    + weight (seekat 0 temp) 0x0001

-- `multwo`, with the digits of the two bytes from the highest.
unfoldable pub mul_digits :
    Bool
    → Bool
    → Bool
    → Bool
    → Bool
    → Bool
    → Bool
    → Bool
    → Bool
    → Bool
    → Bool
    → Bool
    → Bool
    → Bool
    → Bool
    → Bool
    → ℕ
mul_digits a7 a6 a5 a4 a3 a2 a1 a0 b7 b6 b5 b4 b3 b2 b1 b0 =
    weight ((a7 && b7)) 0x4000
    + weight ((a7 && b6) ⊻ (a6 && b7)) 0x2000
    + weight ((a7 && b5) ⊻ (a6 && b6) ⊻ (a5 && b7)) 0x1000
    + weight ((a7 && b4) ⊻ (a6 && b5) ⊻ (a5 && b6) ⊻ (a4 && b7)) 0x800
    + weight ((a7 && b3) ⊻ (a6 && b4) ⊻ (a5 && b5) ⊻ (a4 && b6) ⊻ (a3 && b7)) 0x400
    + weight ((a7 && b2) ⊻ (a6 && b3) ⊻ (a5 && b4) ⊻ (a4 && b5) ⊻ (a3 && b6) ⊻ (a2 && b7)) 0x200
    + weight
        ((a7 && b1) ⊻ (a6 && b2) ⊻ (a5 && b3) ⊻ (a4 && b4) ⊻ (a3 && b5) ⊻ (a2 && b6) ⊻ (a1 && b7))
        0x100
    + weight
        ((a7 && b0)
          ⊻ (a6 && b1)
          ⊻ (a5 && b2)
          ⊻ (a4 && b3)
          ⊻ (a3 && b4)
          ⊻ (a2 && b5)
          ⊻ (a1 && b6)
          ⊻ (a0 && b7))
        0x80
    + weight
        ((a6 && b0) ⊻ (a5 && b1) ⊻ (a4 && b2) ⊻ (a3 && b3) ⊻ (a2 && b4) ⊻ (a1 && b5) ⊻ (a0 && b6))
        0x40
    + weight ((a5 && b0) ⊻ (a4 && b1) ⊻ (a3 && b2) ⊻ (a2 && b3) ⊻ (a1 && b4) ⊻ (a0 && b5)) 0x20
    + weight ((a4 && b0) ⊻ (a3 && b1) ⊻ (a2 && b2) ⊻ (a1 && b3) ⊻ (a0 && b4)) 0x10
    + weight ((a3 && b0) ⊻ (a2 && b1) ⊻ (a1 && b2) ⊻ (a0 && b3)) 0x8
    + weight ((a2 && b0) ⊻ (a1 && b1) ⊻ (a0 && b2)) 0x4
    + weight ((a1 && b0) ⊻ (a0 && b1)) 0x2
    + weight ((a0 && b0)) 0x1

unfoldable pub multwo : ℕ → ℕ → ℕ
multwo s t =
    mul_digits (seekat 7 s) (seekat 6 s) (seekat 5 s) (seekat 4 s) (seekat 3 s) (seekat 2 s)
      (seekat 1 s) (seekat 0 s) (seekat 7 t) (seekat 6 t) (seekat 5 t) (seekat 4 t) (seekat 3 t)
      (seekat 2 t) (seekat 1 t) (seekat 0 t)

-- `matrix`, with the digits that are multiplied by 1.
unfoldable pub matrix : ℕ → ℕ
matrix t =
    weight (seekat 0 t ⊻ seekat 4 t ⊻ seekat 5 t ⊻ seekat 6 t ⊻ seekat 7 t ⊻ true) 1
    + weight (seekat 0 t ⊻ seekat 1 t ⊻ seekat 5 t ⊻ seekat 6 t ⊻ seekat 7 t ⊻ true) 2
    + weight (seekat 0 t ⊻ seekat 1 t ⊻ seekat 2 t ⊻ seekat 6 t ⊻ seekat 7 t ⊻ false) 4
    + weight (seekat 0 t ⊻ seekat 1 t ⊻ seekat 2 t ⊻ seekat 3 t ⊻ seekat 7 t ⊻ false) 8
    + weight (seekat 0 t ⊻ seekat 1 t ⊻ seekat 2 t ⊻ seekat 3 t ⊻ seekat 4 t ⊻ false) 16
    + weight (seekat 1 t ⊻ seekat 2 t ⊻ seekat 3 t ⊻ seekat 4 t ⊻ seekat 5 t ⊻ true) 32
    + weight (seekat 2 t ⊻ seekat 3 t ⊻ seekat 4 t ⊻ seekat 5 t ⊻ seekat 6 t ⊻ true) 64
    + weight (seekat 3 t ⊻ seekat 4 t ⊻ seekat 5 t ⊻ seekat 6 t ⊻ seekat 7 t ⊻ false) 128

-- The seven rounds for one value of the table: the squares and their product.
unfoldable pub invert_rounds : ℕ → ℕ → ℕ → ℕ → ℕ
invert_rounds zero mx value out = out
invert_rounds (suc n) mx value out =
    let square = mod_poly (mul value) mx in
    invert_rounds n mx square (mod_poly (multwo out square) mx)

unfoldable pub box_value : ℕ → ℕ → ℕ
box_value mx value = matrix (invert_rounds 7 mx value 1)

unfoldable pub box_from : ℕ → ℕ → ℕ → List ℕ
box_from zero mx value = []
box_from (suc n) mx value = box_value mx value ∷ box_from n mx (suc value)

-- `generateBox`: `marked` is never set, so all the 256 values are made.
unfoldable pub generate_box : ℕ → List ℕ
generate_box mx = box_from 256 mx 0
