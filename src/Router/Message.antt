-- ===== src/Router/Message.antt =====
-- module/zmsg.hpp: a message of several parts. The parts are byte strings; what the socket carries
-- is the list of them in which the names of peers have their 17 byte form.
pub mod Laws
use cpp_framework.Prelude.{
  ℕ, ◌≡◌, Bool, true, false, ◌&&◌, Option, none, some, List, [], ◌∷◌, ◌++◌, ◌==◌, nat_key, Bytes,
  length, get_or, set, if◌then◌else◌,
}
use cpp_framework.Router.Fault.{Fault, Result, ok, fault, ◌>>=◌, ◌>>◌, traverse}
use cpp_framework.Router.Uuid.{c_str, at_sign, encode_uuid, decode_uuid}

abbrev pub Zmsg : Type 0
Zmsg = List Bytes

-- The tests of `recv` and `send` for a name in its 17 byte form, and in its printed form.
unfoldable pub is_binary : Bytes → Bool
is_binary f = length f == 17 && get_or f 0 0 == 0

unfoldable pub is_printed : Bytes → Bool
is_printed f = length f == 33 && get_or f 0 0 == at_sign

recv_part : Bytes → Result Bytes
recv_part f = if is_binary f then encode_uuid f else ok f

-- `recv`: the parts of what the socket hands over.
unfoldable pub recv : List Bytes → Result Zmsg
unfolding recv_part
recv frames = traverse recv_part frames

send_part : Bytes → Result Bytes
send_part part = if is_printed part then decode_uuid part else ok part

-- `send`: what goes to the socket.
unfoldable pub send : Zmsg → Result (List Bytes)
unfolding send_part
send msg = traverse send_part msg

-- `push_front` and the two kinds of `push_back`: of a text, and of bytes.
unfoldable pub push_front : Bytes → Zmsg → Zmsg
push_front part msg = c_str part ∷ msg

unfoldable pub push_back : Bytes → Zmsg → Zmsg
push_back part msg = msg ++ (c_str part ∷ [])

unfoldable pub push_back_data : Bytes → Zmsg → Zmsg
push_back_data part msg = msg ++ (part ∷ [])

-- On an empty message `return 0` makes a string from a null pointer.
unfoldable pub pop_front : Zmsg → Result (Bytes × Zmsg)
pop_front [] = fault Fault.null_string
pop_front (part ∷ msg) = ok (part, msg)

-- `set_part` writes inside the message only.
unfoldable pub set_part : ℕ → Bytes → Zmsg → Zmsg
set_part i part msg = set msg i (c_str part)

erase_last : Zmsg → Zmsg
erase_last [] = []
erase_last (part ∷ []) = []
erase_last (part ∷ next ∷ msg) = part ∷ erase_last (next ∷ msg)

unfoldable pub body_set : Bytes → Zmsg → Zmsg
unfolding erase_last push_back
body_set text msg = push_back text (erase_last msg)

-- `none` is the null pointer.
unfoldable pub body : Zmsg → Option Bytes
unfolding c_str
body [] = none
body (part ∷ []) = some (c_str part)
body (part ∷ next ∷ msg) = body (next ∷ msg)

unfoldable pub address : Zmsg → Option Bytes
address [] = none
address (part ∷ msg) = some (c_str part)

abbrev push_delim : Option Bytes → Zmsg → Zmsg
push_delim none msg = msg
push_delim (some delim) msg = push_front delim msg

unfoldable pub wrap : Bytes → Option Bytes → Zmsg → Zmsg
wrap addr delim msg = push_front addr (push_delim delim msg)

-- An empty first part is the delimiter, and goes with the address.
abbrev drop_delim : Option Bytes → Bytes → Zmsg → Result (Bytes × Zmsg)
drop_delim none addr msg = ok (addr, msg)
drop_delim (some []) addr msg = do (_, rest) ← pop_front msg; ok (addr, rest)
drop_delim (some (c ∷ cs)) addr msg = ok (addr, msg)

unfoldable pub unwrap : Zmsg → Result (Bytes × Zmsg)
unfolding pop_front address
unwrap msg = do (addr, rest) ← pop_front msg; drop_delim (address rest) (c_str addr) rest
