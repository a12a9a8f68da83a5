-- ===== src/Gateway/Filter.antt =====
-- gateway_server/sdk/my_filter.h: the frames of the messages of a session, and their cipher. A message is
-- the list of its bytes.
use cpp_framework.Prelude.{
  ℕ, zero, suc, ◌+◌, ◌-◌, ◌*◌, ◌/◌, ◌%◌, ◌^◌, Bool, true, false, not, ◌&&◌, ◌||◌, List, [], ◌∷◌,
  ◌++◌, ◌==◌, nat_key, Bytes, length, take, drop, get_or, if◌then◌else◌, ltb, leb,
}
use cpp_framework.Router.Fault.{Fault, Result, ok, fault, ◌>>=◌}
use cpp_framework.Gateway.Cipher.Box.{form_new_boxes, encrypt}
use cpp_framework.Gateway.Cipher.Randoms.{RandomUtil, get_box_of_randoms}
pub mod Frames
pub mod Reading
mod Tests

-- `MyFilter`. `global_aesbox` and the random numbers belong to the process.
pub record MyFilter : Type 0 where
  pub header_read : Bool
  pub header : ℕ
  pub p_box : Bytes
  pub global_aesbox : Bytes
  pub random_util : RandomUtil

abbrev pub server_challenge_response_id : ℕ
server_challenge_response_id = 1000

-- `EXCHANGETIMES * 2`
abbrev pub exchange_bytes : ℕ
exchange_bytes = 128

-- The first two bytes of a message, the lower one first.
unfoldable pub id_of : Bytes → ℕ
id_of message = get_or message 0 0 + get_or message 1 0 * 2 ^ 8

-- The two bytes of a `uint16_t`.
unfoldable pub header_bytes : ℕ → Bytes
header_bytes n = n % 2 ^ 8 ∷ n / 2 ^ 8 % 2 ^ 8 ∷ []

unfoldable pub bytes_wanna_write : List Bytes → ℕ
bytes_wanna_write [] = 0
bytes_wanna_write (message ∷ messages) = 2 + length message + bytes_wanna_write messages

-- The bytes after the number of the message go through the table.
unfoldable pub encrypt_message : Bytes → Bytes → Bytes
encrypt_message box message = take 2 message ++ encrypt box (drop 2 message)

bytes_from : (ℕ → ℕ) → ℕ → ℕ → Bytes
bytes_from byte i zero = []
bytes_from byte i (suc n) = byte i ∷ bytes_from byte (suc i) n

module _ (byte : ℕ → ℕ) where
  -- The challenge goes as it is, and after it the random bytes of the table that the session begins to
  -- use. `byte` are the bytes of the random numbers, four of each.
  unfoldable pub write_challenge : Bytes → Bytes → MyFilter → ℕ × Bytes × MyFilter
  unfolding bytes_from
  write_challenge message buffer s =
      let r = get_box_of_randoms s.random_util in
      let randoms = bytes_from byte (4 * r.i) exchange_bytes in
      (
        exchange_bytes + 2,
        buffer ++ header_bytes ((length message + exchange_bytes) % 2 ^ 16) ++ message ++ randoms,
        record s { p_box = form_new_boxes s.global_aesbox randoms; random_util = r },
      )

  unfoldable pub write_one : Bytes → Bytes → MyFilter → ℕ × Bytes × MyFilter
  unfolding write_challenge
  write_one message buffer s =
      if id_of message == server_challenge_response_id then write_challenge message buffer s else (
        length message + 2,
        buffer ++ header_bytes (length message) ++ encrypt_message s.p_box message,
        s,
      )

  -- `Write`: the number of bytes, the buffer and the filter after it. A message that is too long ends
  -- it. The code goes on past the end of a message of fewer than two bytes.
  unfoldable pub write : List Bytes → ℕ → Bytes → MyFilter → Result (ℕ × Bytes × MyFilter)
  write [] result buffer s = ok (result, buffer, s)
  write (message ∷ messages) result buffer s =
      let r = write_one message buffer s in
      let rest = write messages (result + r.0) r.1 r.2 in
      if ltb 65535 (length message)
      then ok (0, buffer, s)
      else if ltb (length message) 2
      then fault Fault.bad_iterator
      else rest

unfoldable pub bytes_wanna_read : MyFilter → ℕ
bytes_wanna_read s = if s.header_read then s.header else 2

unfoldable pub decrypt_message : Bytes → Bytes → Bytes
decrypt_message box message =
    if leb server_challenge_response_id (id_of message)
      && (ltb 3 (length message) && ltb (length message) 65535)
    then encrypt_message box message
    else message

-- `Read`: the messages, the number of bytes and the filter after it.
unfoldable pub read : List Bytes → Bytes → MyFilter → List Bytes × ℕ × MyFilter
read messages buffer s =
    if s.header_read
    then (
      messages ++ decrypt_message s.p_box buffer ∷ [],
      s.header,
      record s { header_read = false },
    )
    else (messages, 2, record s { header = id_of buffer; header_read = true })

-- What a session does with a filter and a stream: it reads as many bytes as the filter wants, as long
-- as there are some. A body of no bytes is wanted never: the session stops.
unfoldable pub read_stream : ℕ → List Bytes → Bytes → MyFilter → List Bytes × Bytes × MyFilter
read_stream zero messages stream s = (messages, stream, s)
read_stream (suc n) messages stream s =
    let wanted = bytes_wanna_read s in
    let r = read messages (take wanted stream) s in
    let rest = read_stream n r.0 (drop wanted stream) r.2 in
    if (wanted == 0) || ltb (length stream) wanted then (messages, stream, s) else rest
