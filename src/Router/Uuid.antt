-- ===== src/Router/Uuid.antt =====
-- module/zmsg.hpp, `encode_uuid` and `decode_uuid`: the 17 bytes by which a ROUTER socket names a
-- peer, as 33 printable characters and back.
pub mod RoundTrip
use cpp_framework.Prelude.{
  ℕ, ◌+◌, ◌*◌, ◌/◌, ◌%◌, List, [], ◌∷◌, ◌==◌, nat_key, Bytes, codes, length, get_or, take,
  if◌then◌else◌,
}
use cpp_framework.Router.Fault.{Fault, Result, ok, fault, ◌>>=◌, ◌>>◌, assert}

-- A `char *` reads a string up to its first zero.
unfoldable pub c_str : Bytes → Bytes
c_str [] = []
c_str (x ∷ xs) = let rest = c_str xs in if x == 0 then [] else x ∷ rest

abbrev pub at_sign : ℕ
at_sign = b'@'

abbrev pub hex_char : List ℕ
hex_char = codes "0123456789ABCDEF"

-- The table of the source; its -1 is the byte 255, which gives the same sum modulo 256.
abbrev hex_to_bin : List ℕ
hex_to_bin =
    255 ∷ 255 ∷ 255 ∷ 255 ∷ 255 ∷ 255 ∷ 255 ∷ 255 ∷ 255 ∷ 255 ∷ 255 ∷ 255 ∷ 255 ∷ 255 ∷ 255 ∷ 255
    ∷ 255 ∷ 255 ∷ 255 ∷ 255 ∷ 255 ∷ 255 ∷ 255 ∷ 255 ∷ 255 ∷ 255 ∷ 255 ∷ 255 ∷ 255 ∷ 255 ∷ 255 ∷ 255
    ∷ 255 ∷ 255 ∷ 255 ∷ 255 ∷ 255 ∷ 255 ∷ 255 ∷ 255 ∷ 255 ∷ 255 ∷ 255 ∷ 255 ∷ 255 ∷ 255 ∷ 255 ∷ 255
    ∷ 0 ∷ 1 ∷ 2 ∷ 3 ∷ 4 ∷ 5 ∷ 6 ∷ 7 ∷ 8 ∷ 9 ∷ 255 ∷ 255 ∷ 255 ∷ 255 ∷ 255 ∷ 255 ∷ 255 ∷ 10 ∷ 11 ∷ 12
    ∷ 13 ∷ 14 ∷ 15 ∷ 255 ∷ 255 ∷ 255 ∷ 255 ∷ 255 ∷ 255 ∷ 255 ∷ 255 ∷ 255 ∷ 255 ∷ 255 ∷ 255 ∷ 255
    ∷ 255 ∷ 255 ∷ 255 ∷ 255 ∷ 255 ∷ 255 ∷ 255 ∷ 255 ∷ 255 ∷ 255 ∷ 255 ∷ 255 ∷ 255 ∷ 10 ∷ 11 ∷ 12
    ∷ 13 ∷ 14 ∷ 15 ∷ 255 ∷ 255 ∷ 255 ∷ 255 ∷ 255 ∷ 255 ∷ 255 ∷ 255 ∷ 255 ∷ 255 ∷ 255 ∷ 255 ∷ 255
    ∷ 255 ∷ 255 ∷ 255 ∷ 255 ∷ 255 ∷ 255 ∷ 255 ∷ 255 ∷ 255 ∷ 255 ∷ 255 ∷ 255 ∷ []

-- The rounds of the loop of `encode_uuid`.
unfoldable pub hex_pairs : Bytes → Bytes
hex_pairs [] = []
hex_pairs (b ∷ bs) = get_or hex_char (b / 16) 0 ∷ get_or hex_char (b % 16) 0 ∷ hex_pairs bs

unfoldable pub encode_uuid : Bytes → Result Bytes
unfolding hex_pairs
encode_uuid [] = fault Fault.assertion
encode_uuid (b ∷ bs) = do assert (b == 0); ok (at_sign ∷ hex_pairs (take 16 bs))

-- One round of the loop of `decode_uuid`.
decode_pair : ℕ → ℕ → ℕ
decode_pair hi lo = (get_or hex_to_bin (hi % 128) 0 * 16 + get_or hex_to_bin (lo % 128) 0) % 256

unfoldable pub unhex_pairs : Bytes → Bytes
unfolding decode_pair
unhex_pairs [] = []
unhex_pairs (hi ∷ []) = []
unhex_pairs (hi ∷ lo ∷ rest) = decode_pair hi lo ∷ unhex_pairs rest

unfoldable pub decode_uuid : Bytes → Result Bytes
unfolding unhex_pairs c_str
decode_uuid [] = fault Fault.assertion
decode_uuid (c ∷ cs) = do
  assert (length (c_str (c ∷ cs)) == 33)
  assert (c == at_sign)
  ok (0 ∷ unhex_pairs cs)
