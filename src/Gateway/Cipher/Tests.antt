-- ===== src/Gateway/Cipher/Tests.antt =====
-- gateway_server/sdk/AESSBox.cpp: values of the table, and a session that exchanges four of its bytes.
use cpp_framework.Prelude.{◌≡◌, refl, [], ◌∷◌, map, arith, ◌<◌, ◌+◌, ◌/◌, ◌≤◌}
use cpp_framework.Gateway.Cipher.Field.{
  seekat, length_from, bit_length, reduce_once, reduce, mod_poly, mul, mul_digits, multwo, matrix,
  invert_rounds, box_value, generate_box,
}
use cpp_framework.Gateway.Cipher.Reduced.{multwo-mul, mod_poly-reduce}
use cpp_framework.Gateway.Cipher.Table.{default_poly, affine, unaffine, box_value-affine}
use cpp_framework.Gateway.Cipher.Box.{encrypt, form_new_boxes, unexchange, map-unexchange-encrypt}
use cpp_framework.Gateway.Cipher.Randoms.{
  RandomUtil, random_num, get_box_of_randoms, get_a_random, IsWithin, get_box_of_randoms-IsWithin,
}

-- With the polynomial of AES the code makes the table of AES.
aes_table : box_value 0x11b 0x53 ≡ 0xed
unfolding box_value matrix invert_rounds seekat length_from bit_length reduce_once reduce mod_poly
    mul mul_digits multwo
aes_table = refl

multwo-mul_example : multwo 0xc3 0xc3 ≡ mul 0xc3
multwo-mul_example = multwo-mul 0xc3

mod_poly-reduce_example :
    (reduce 8 0xffff 0x11b < 256) × (mod_poly 0xffff 0x11b ≡ reduce 8 0xffff 0x11b)
mod_poly-reduce_example = mod_poly-reduce 0xffff 0x11b (omega arith) (omega arith) (omega arith)

box_value-affine_example : box_value default_poly 0x53 ≡ affine 0x53
box_value-affine_example = box_value-affine 0x53 (omega arith)

map-unexchange-encrypt_example :
    map (unexchange (7 ∷ 200 ∷ 0 ∷ 7 ∷ []) (generate_box default_poly) unaffine) (
      encrypt
        (form_new_boxes (generate_box default_poly) (7 ∷ 200 ∷ 0 ∷ 7 ∷ []))
        (0 ∷ 7 ∷ 255 ∷ []))
    ≡ 0 ∷ 7 ∷ 255 ∷ []
map-unexchange-encrypt_example =
    map-unexchange-encrypt (7 ∷ 200 ∷ 0 ∷ 7 ∷ []) (0 ∷ 7 ∷ 255 ∷ []) (ground arith) (ground arith)

abbrev near_end : RandomUtil
near_end = record { i = 999700; j = 24; next = 1000000 }

get_box_of_randoms-IsWithin_example :
    ((get_box_of_randoms near_end).i + 128 / 4 ≤ random_num)
    × ((get_a_random near_end).0 < random_num)
    × IsWithin (get_box_of_randoms near_end)
    × IsWithin (get_a_random near_end).1
get_box_of_randoms-IsWithin_example = get_box_of_randoms-IsWithin near_end (ground arith)
