-- ===== src/Router/Message/Laws.antt =====
-- What the operations on a message undo, and what a message looks like when it has come in from a
-- socket and goes out again.
use cpp_framework.Prelude.{
  ℕ, ◌≡◌, refl, ap, true, false, inl, inr, some, List, [], ◌∷◌, ◌++◌, map, nat_key, arith, Bytes,
  length, nat_eq_iff, if◌then◌else◌, Bool-cases,
}
use cpp_framework.Router.Fault.{ok, ◌>>=◌, traverse}
use cpp_framework.Router.Uuid.{c_str}
use cpp_framework.Router.Uuid.RoundTrip.{
  AreBytes, printed, encode_uuid_lem, decode_uuid-printed, length-printed,
}
use cpp_framework.Router.Message.{
  Zmsg, is_binary, is_printed, recv_part, recv, send_part, send, body, body_set, erase_last, wrap,
  unwrap, push_front,
}

pub c_str-c_str : (s : Bytes) → c_str (c_str s) ≡ c_str s
unfolding c_str
c_str-c_str [] = refl
c_str-c_str (x ∷ xs) = ground (arith, c_str-c_str xs)

-- `unwrap` takes off what `wrap` with the empty delimiter put on, whatever the message.
pub unwrap-wrap :
    (addr : Bytes) (msg : Zmsg) → unwrap (wrap addr (some []) msg) ≡ ok (c_str addr, msg)
unfolding unwrap wrap push_front c_str
unwrap-wrap addr msg = rw (c_str-c_str addr)

pub body-append : (msg : Zmsg) (part : Bytes) → body (msg ++ (part ∷ [])) ≡ some (c_str part)
unfolding body
body-append [] part = refl
body-append (x ∷ []) part = refl
body-append (x ∷ y ∷ msg) part = body-append (y ∷ msg) part

erase_last-append : (msg : Zmsg) (part : Bytes) → erase_last (msg ++ (part ∷ [])) ≡ msg
unfolding erase_last
erase_last-append [] part = refl
erase_last-append (x ∷ []) part = refl
erase_last-append (x ∷ y ∷ msg) part = ap (◌∷◌ x) (erase_last-append (y ∷ msg) part)

-- The body that was set is read back, and the parts before it stay.
pub body-body_set :
    (text : Bytes) (msg : Zmsg) (last : Bytes)
    → (body (body_set text (msg ++ (last ∷ []))) ≡ some (c_str text))
      × (body_set text (msg ++ (last ∷ [])) ≡ msg ++ (c_str text ∷ []))
unfolding body_set
body-body_set text msg last =
    rw erase_last-append (rw body-append (ap some (c_str-c_str text)), refl)

-- A frame of bytes that is no name in printed form, so that nothing takes it for one.
pub record IsFrame (f : Bytes) : Type 0 where
  pub bytes : AreBytes f
  pub plain : is_printed f ≡ false

abbrev pub AreFrames : List Bytes → Type 0
AreFrames [] = Unit {0}
AreFrames (f ∷ fs) = IsFrame f × AreFrames fs

is_printed-printed : (bs : Bytes) → length bs ≡ 16 → is_printed (printed bs) ≡ true
unfolding is_printed
is_printed-printed bs n = rw ((nat_eq_iff (length (printed bs)) 33).1 (length-printed bs n))

binary_shape : (b : ℕ) (bs : Bytes) → is_binary (b ∷ bs) ≡ true → (b ≡ 0) × (length bs ≡ 16)
unfolding is_binary
binary_shape b bs h = ground arith

-- A part as it is kept between its coming in and its going out.
abbrev pub kept : Bytes → Bytes
kept [] = []
kept (b ∷ bs) = if is_binary (b ∷ bs) then printed bs else b ∷ bs

recv_part_lem : (f : Bytes) → recv_part f ≡ ok (kept f)
unfolding recv_part
recv_part_lem [] = unfold is_binary in refl
recv_part_lem (b ∷ bs) = elim (Bool-cases (is_binary (b ∷ bs))) [
  | inl e ↦ let shape = binary_shape b bs e in rw e (rw shape.0 (encode_uuid_lem bs shape.1))
  | inr e ↦ rw e
]

send_part-kept : (f : Bytes) → IsFrame f → send_part (kept f) ≡ ok f
unfolding send_part
send_part-kept [] v = unfold is_printed in refl
send_part-kept (b ∷ bs) v = elim (Bool-cases (is_binary (b ∷ bs))) [
  | inl e ↦
      let shape = binary_shape b bs e in
      rw (e, is_printed-printed bs shape.1, decode_uuid-printed bs shape.1 v.bytes.1) (cc shape.0)
  | inr e ↦ rw (e, v.plain)
]

-- What `recv` makes of the frames of the socket.
pub recv_lem : (frames : List Bytes) → recv frames ≡ ok (map kept frames)
unfolding recv traverse
recv_lem [] = refl
recv_lem (f ∷ fs) = rw (recv_part_lem f, recv_lem fs)

pub send-kept : (frames : List Bytes) → AreFrames frames → send (map kept frames) ≡ ok frames
unfolding send traverse
send-kept [] h = refl
send-kept (f ∷ fs) h = rw (send_part-kept f h.0, send-kept fs h.1)

-- The first part of a message that goes out: a printed name, or any other text.
pub send-printed_cons :
    (bs : Bytes) (msg : Zmsg) (frames : List Bytes)
    → length bs ≡ 16
    → AreBytes bs
    → send msg ≡ ok frames
    → send (printed bs ∷ msg) ≡ ok ((0 ∷ bs) ∷ frames)
unfolding send traverse
send-printed_cons bs msg frames n h e = rw (is_printed-printed bs n, decode_uuid-printed bs n h, e)

pub send-plain_cons :
    (part : Bytes) (msg : Zmsg) (frames : List Bytes)
    → is_printed part ≡ false
    → send msg ≡ ok frames
    → send (part ∷ msg) ≡ ok (part ∷ frames)
unfolding send traverse
send-plain_cons part msg frames plain e = rw (plain, e)

pub kept-name : (bs : Bytes) → length bs ≡ 16 → kept (0 ∷ bs) ≡ printed bs
kept-name bs n = unfold is_binary in rw ((nat_eq_iff (length (0 ∷ bs)) 17).1 (omega arith))

-- What came in from a socket goes out again frame for frame: nothing fails on the way, the names of
-- the peers are printed and read back, and the other frames are not touched; if no frame is in the printed
-- form of a name, 33 bytes after an at sign, which sending would turn into 17 bytes or stop at.
pub send-recv : (frames : List Bytes) → AreFrames frames → (recv frames >>= send) ≡ ok frames
send-recv frames h = rw (recv_lem frames) (send-kept frames h)
