-- ===== src/Router/Uuid/RoundTrip.antt =====
-- `decode_uuid` undoes `encode_uuid`, and the printed form is a text that `c_str` keeps.
use cpp_framework.Prelude.{
  ℕ, zero, suc, ◌*◌, ◌/◌, ◌%◌, ◌≤◌, ◌<◌, ◌≡◌, refl, ap, Bool, true, false, ◌&&◌, not, [], ◌∷◌, ◌==◌,
  nat_key, arith, Bytes, length, get_or, take, nat_eq_iff,
}
use cpp_framework.Router.Fault.{ok, ◌>>=◌}
use cpp_framework.Router.Uuid.{
  c_str, at_sign, hex_char, hex_pairs, unhex_pairs, decode_pair, encode_uuid, decode_uuid,
}

-- The test holds for the bytes from `n - 1` down.
holds_under : (ℕ → Bool) → ℕ → Bool
holds_under test zero = true
holds_under test (suc byte) = holds_under test byte && test byte

holds_under-at :
    (test : ℕ → Bool) (bound byte : ℕ)
    → byte < bound
    → holds_under test bound ≡ true
    → test byte ≡ true
unfolding holds_under
holds_under-at test zero byte inside all = elim inside [ ]
holds_under-at test (suc last) byte inside all = ground (arith, holds_under-at test last byte)

abbrev hi_digit : ℕ → ℕ
hi_digit b = get_or hex_char (b / 16) 0

abbrev lo_digit : ℕ → ℕ
lo_digit b = get_or hex_char (b % 16) 0

-- Neither digit of a byte is a zero byte, and the two decode to the byte.
abbrev reads_back : ℕ → Bool
reads_back b =
    (decode_pair (hi_digit b) (lo_digit b) == b) && not (hi_digit b == 0) && not (lo_digit b == 0)

reads_back_table : holds_under reads_back 256 ≡ true
unfolding holds_under decode_pair
reads_back_table = refl

record IsDigits (b : ℕ) : Type 0 where
  decoded : decode_pair (hi_digit b) (lo_digit b) ≡ b
  hi_text : (hi_digit b == 0) ≡ false
  lo_text : (lo_digit b == 0) ≡ false

IsDigits_of_test :
    (t u v : Bool) → (t && not u && not v) ≡ true → (t ≡ true) × (u ≡ false) × (v ≡ false)
IsDigits_of_test t u v h = ground arith

byte-IsDigits : (b : ℕ) → b < 256 → IsDigits b
byte-IsDigits b h =
    let parts = IsDigits_of_test _ _ _ (holds_under-at reads_back 256 b h reads_back_table) in
    record { decoded = (nat_eq_iff _ b).0 parts.0; hi_text = parts.1; lo_text = parts.2 }

-- Every entry is a byte.
abbrev pub AreBytes : Bytes → Type 0
AreBytes [] = Unit {0}
AreBytes (b ∷ bs) = (b < 256) × AreBytes bs

unhex_pairs-hex_pairs : (bs : Bytes) → AreBytes bs → unhex_pairs (hex_pairs bs) ≡ bs
unfolding unhex_pairs hex_pairs
unhex_pairs-hex_pairs [] h = refl
unhex_pairs-hex_pairs (b ∷ bs) h = cc (unhex_pairs-hex_pairs bs h.1, (byte-IsDigits b h.0).decoded)

c_str-hex_pairs : (bs : Bytes) → AreBytes bs → c_str (hex_pairs bs) ≡ hex_pairs bs
unfolding c_str hex_pairs
c_str-hex_pairs [] h = refl
c_str-hex_pairs (b ∷ bs) h =
    let d = byte-IsDigits b h.0 in rw (d.hi_text, d.lo_text, c_str-hex_pairs bs h.1)

length-hex_pairs : (bs : Bytes) → length (hex_pairs bs) ≡ 2 * length bs
unfolding hex_pairs
length-hex_pairs [] = omega arith
length-hex_pairs (b ∷ bs) = omega (arith, length-hex_pairs bs)

take_all : (n : ℕ) (bs : Bytes) → length bs ≤ n → take n bs ≡ bs
take_all zero [] h = refl
take_all zero (b ∷ bs) h = absurd (omega arith)
take_all (suc n) [] h = refl
take_all (suc n) (b ∷ bs) h = ap (◌∷◌ b) (take_all n bs (omega arith))

-- The text of the name of a peer.
abbrev pub printed : Bytes → Bytes
printed bs = at_sign ∷ hex_pairs bs

pub encode_uuid_lem : (bs : Bytes) → length bs ≡ 16 → encode_uuid (0 ∷ bs) ≡ ok (printed bs)
unfolding encode_uuid
encode_uuid_lem bs n = rw (take_all 16 bs (omega arith))

pub c_str-printed : (bs : Bytes) → AreBytes bs → c_str (printed bs) ≡ printed bs
unfolding c_str
c_str-printed bs h = rw (c_str-hex_pairs bs h)

pub length-printed : (bs : Bytes) → length bs ≡ 16 → length (printed bs) ≡ 33
length-printed bs n = omega (arith, length-hex_pairs bs)

pub decode_uuid-printed :
    (bs : Bytes) → length bs ≡ 16 → AreBytes bs → decode_uuid (printed bs) ≡ ok (0 ∷ bs)
unfolding decode_uuid
decode_uuid-printed bs n h = rw (
  c_str-hex_pairs bs h,
  (nat_eq_iff (length (printed bs)) 33).1 (length-printed bs n),
  unhex_pairs-hex_pairs bs h,
)

-- A name of 17 bytes that begins with a zero byte is encoded without a failed assertion, and
-- decoding the text gives the name back.
pub decode_uuid-encode_uuid :
    (bs : Bytes)
    → length bs ≡ 16
    → AreBytes bs
    → (do text ← encode_uuid (0 ∷ bs); decode_uuid text) ≡ ok (0 ∷ bs)
decode_uuid-encode_uuid bs n h = rw (encode_uuid_lem bs n, decode_uuid-printed bs n h)
