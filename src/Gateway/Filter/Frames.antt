-- ===== src/Gateway/Filter/Frames.antt =====
-- gateway_server/sdk/my_filter.h: the frames that are written.
use cpp_framework.Prelude.{
  ℕ, ◌+◌, ◌≤◌, ◌<◌, ◌≡◌, refl, ap, sym, ◌∙◌, true, false, List, [], ◌∷◌, ◌++◌, ◌==◌, nat_key, Bytes,
  length, get_or, ltb, arith,
}
use cpp_framework.Router.Fault.{ok}
use cpp_framework.Gateway.Cipher.Box.{AreBelow}
use cpp_framework.Gateway.Filter.{
  MyFilter, server_challenge_response_id, id_of, header_bytes, bytes_wanna_write, encrypt_message,
  write_one, write,
}

-- A message that both sides take to be encrypted.
abbrev pub IsMessage : Bytes → Type 0
IsMessage message =
    (4 ≤ length message)
    × (length message < 65535)
    × (server_challenge_response_id < id_of message)
    × AreBelow 256 message

abbrev pub AreMessages : List Bytes → Type 0
AreMessages [] = Unit
AreMessages (message ∷ messages) = IsMessage message × AreMessages messages

-- The table undoes the other one.
abbrev pub IsUndone : Bytes → Bytes → Type 0
IsUndone inverse box = (b : ℕ) → b < 256 → get_or inverse (get_or box b 0) 0 ≡ b

abbrev pub frame : Bytes → Bytes → Bytes
frame box message = header_bytes (length message) ++ encrypt_message box message

abbrev pub frames : Bytes → List Bytes → Bytes
frames box [] = []
frames box (message ∷ messages) = frame box message ++ frames box messages

pub append_assoc : (xs ys zs : Bytes) → (xs ++ ys) ++ zs ≡ xs ++ (ys ++ zs)
append_assoc [] ys zs = refl
append_assoc (x ∷ xs) ys zs = ap (λ r. x ∷ r) (append_assoc xs ys zs)

append-nil : (xs : Bytes) → xs ++ [] ≡ xs
append-nil [] = refl
append-nil (x ∷ xs) = ap (λ r. x ∷ r) (append-nil xs)

pub append-none : (xs : List Bytes) → xs ++ [] ≡ xs
append-none [] = refl
append-none (x ∷ xs) = ap (λ r. x ∷ r) (append-none xs)

write_one-frame :
    (byte : ℕ → ℕ) (message buffer : Bytes) (s : MyFilter)
    → IsMessage message
    → write_one byte message buffer s ≡ (length message + 2, buffer ++ frame s.p_box message, s)
unfolding write_one
write_one-frame byte message buffer s h =
    let other : (id_of message == server_challenge_response_id) ≡ false = ground arith in
    rw
      (other, append_assoc buffer (header_bytes (length message)) (encrypt_message s.p_box message))
      refl

-- `Write` appends a frame for each message, and keeps the filter.
write-append :
    (byte : ℕ → ℕ) (messages more : List Bytes) (result : ℕ) (buffer : Bytes) (s : MyFilter)
    → AreMessages messages
    → write byte (messages ++ more) result buffer s
      ≡ write byte more (result + bytes_wanna_write messages) (buffer ++ frames s.p_box messages) s
unfolding write bytes_wanna_write
write-append byte [] more result buffer s h =
    let same : result + 0 ≡ result = omega arith in rw (append-nil buffer, same) refl
write-append byte (message ∷ messages) more result buffer s h =
    let short : ltb 65535 (length message) ≡ false = ground arith in
    let long : ltb (length message) 2 ≡ false = ground arith in
    let sum : result + (length message + 2) + bytes_wanna_write messages
        ≡ result + (2 + length message + bytes_wanna_write messages) =
      omega arith in
    rw (short, long, write_one-frame byte message buffer s h.0)
      (write-append byte messages more (result + (length message + 2))
          (buffer ++ frame s.p_box message) s h.1
        ∙ rw (sum, append_assoc buffer (frame s.p_box message) (frames s.p_box messages)) refl)

pub write-frames :
    (byte : ℕ → ℕ) (messages : List Bytes) (result : ℕ) (buffer : Bytes) (s : MyFilter)
    → AreMessages messages
    → write byte messages result buffer s
      ≡ ok (result + bytes_wanna_write messages, buffer ++ frames s.p_box messages, s)
unfolding write
write-frames byte messages result buffer s h =
    ap (λ m. write byte m result buffer s) (sym (append-none messages))
    ∙ write-append byte messages [] result buffer s h

-- A message of more than 65535 bytes ends `Write` with 0 bytes, although the frames of the messages
-- before it are in the buffer; nothing of the messages after it is written.
pub write-too_long :
    (byte : ℕ → ℕ) (before after : List Bytes) (message buffer : Bytes) (s : MyFilter)
    → AreMessages before
    → 65535 < length message
    → write byte (before ++ message ∷ after) 0 buffer s ≡ ok (0, buffer ++ frames s.p_box before, s)
unfolding write
write-too_long byte before after message buffer s h l =
    let long : ltb 65535 (length message) ≡ true = ground arith in
    write-append byte before (message ∷ after) 0 buffer s h ∙ rw long refl
