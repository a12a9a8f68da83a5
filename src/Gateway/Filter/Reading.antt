-- ===== src/Gateway/Filter/Reading.antt =====
-- gateway_server/sdk/my_filter.h: what is written is read again on the other side.
use cpp_framework.Prelude.{
  ℕ, zero, suc, ◌+◌, ◌*◌, ◌/◌, ◌%◌, ◌^◌, ◌≤◌, ◌<◌, ◌≡◌, refl, ap, sym, ◌∙◌, true, false, List, [],
  ◌∷◌, ◌++◌, nat_key, Bytes, length, take, drop, get_or, length-append, length-map, arith,
}
use mathlib.Core.Path.{subst}
use cpp_framework.Router.Returns.{Returns, returns}
use cpp_framework.Gateway.Cipher.Box.{AreBelow, encrypt}
use cpp_framework.Gateway.Filter.{
  MyFilter, id_of, header_bytes, bytes_wanna_write, encrypt_message, write, bytes_wanna_read,
  decrypt_message, read, read_stream,
}
use cpp_framework.Gateway.Filter.Frames.{
  IsMessage, AreMessages, IsUndone, frame, frames, append_assoc, append-none, write-frames,
}

take-append : (xs ys : Bytes) → take (length xs) (xs ++ ys) ≡ xs
take-append [] ys = refl
take-append (x ∷ xs) ys = ap (λ r. x ∷ r) (take-append xs ys)

drop-append : (xs ys : Bytes) → drop (length xs) (xs ++ ys) ≡ ys
drop-append [] ys = refl
drop-append (x ∷ xs) ys = drop-append xs ys

encrypt-encrypt :
    (inverse box bytes : Bytes)
    → IsUndone inverse box
    → AreBelow 256 bytes
    → encrypt inverse (encrypt box bytes) ≡ bytes
unfolding encrypt
encrypt-encrypt inverse box [] u h = refl
encrypt-encrypt inverse box (b ∷ bytes) u h =
    rw (u b h.0, encrypt-encrypt inverse box bytes u h.1) refl

length-encrypt : (box bytes : Bytes) → length (encrypt box bytes) ≡ length bytes
unfolding encrypt
length-encrypt box bytes = length-map bytes (λ b. get_or box b 0)

length-encrypt_message :
    (box message : Bytes) → length (encrypt_message box message) ≡ length message
unfolding encrypt_message encrypt
length-encrypt_message box [] = refl
length-encrypt_message box (a ∷ []) = refl
length-encrypt_message box (a ∷ b ∷ body) = ap (λ n. suc (suc n)) (length-encrypt box body)

decrypt_message-encrypt_message :
    (inverse box message : Bytes)
    → IsUndone inverse box
    → IsMessage message
    → decrypt_message inverse (encrypt_message box message) ≡ message
unfolding decrypt_message encrypt_message id_of
decrypt_message-encrypt_message inverse box [] u h = absurd (omega (arith, h.0))
decrypt_message-encrypt_message inverse box (a ∷ []) u h = absurd (omega (arith, h.0))
decrypt_message-encrypt_message inverse box (a ∷ b ∷ body) u h =
    let body_read = encrypt-encrypt inverse box body u h.3.1.1 in
    let long = length-encrypt box body in rw (long, body_read) (ground arith)

read_stream-read :
    (n wanted : ℕ) (messages : List Bytes) (stream : Bytes) (s : MyFilter)
    → bytes_wanna_read s ≡ wanted
    → 0 < wanted
    → wanted ≤ length stream
    → let r = read messages (take wanted stream) s in
      read_stream (suc n) messages stream s ≡ read_stream n r.0 (drop wanted stream) r.2
unfolding read_stream
read_stream-read n wanted messages stream s w p q = rw w (ground arith)

read_stream-header :
    (n : ℕ) (messages : List Bytes) (length_of : ℕ) (rest : Bytes) (s : MyFilter)
    → length_of < 2 ^ 16
    → read_stream
        (suc n)
        messages
        (header_bytes length_of ++ rest)
        (record s { header_read = false })
      ≡ read_stream n messages rest (record s { header = length_of; header_read = true })
unfolding header_bytes bytes_wanna_read read id_of
read_stream-header n messages length_of rest s h =
    let value : length_of % 2 ^ 8 + length_of / 2 ^ 8 % 2 ^ 8 * 2 ^ 8 ≡ length_of = omega arith in
    read_stream-read n 2 messages (header_bytes length_of ++ rest)
      (record s { header_read = false }) refl (omega arith) (omega arith)
    ∙ ap (λ v. read_stream n messages rest (record s { header = v; header_read = true })) value

read_stream-body :
    (n : ℕ) (messages : List Bytes) (body rest : Bytes) (s : MyFilter)
    → 0 < length body
    → read_stream
        (suc n)
        messages
        (body ++ rest)
        (record s { header = length body; header_read = true })
      ≡ read_stream n
          (messages ++ decrypt_message s.p_box body ∷ [])
          rest
          (record s { header = length body; header_read = false })
unfolding bytes_wanna_read read
read_stream-body n messages body rest s h =
    let first =
      read_stream-read n (length body) messages (body ++ rest)
        (record s { header = length body; header_read = true }) refl h
        (omega (arith, length-append body rest)) in
    first ∙ rw (take-append body rest, drop-append body rest) refl

-- The reader takes the two bytes of the header and then the message.
read_stream-frame :
    (n : ℕ) (messages : List Bytes) (rest box message : Bytes) (s : MyFilter)
    → IsUndone s.p_box box
    → IsMessage message
    → read_stream
        (suc (suc n))
        messages
        (frame box message ++ rest)
        (record s { header_read = false })
      ≡ read_stream n
          (messages ++ message ∷ [])
          rest
          (record s { header = length message; header_read = false })
read_stream-frame n messages rest box message s u h =
    let coded = encrypt_message box message in
    let long = length-encrypt_message box message in
    let plain = decrypt_message-encrypt_message s.p_box box message u h in
    let ahead = read_stream-body n messages coded rest s (omega (arith, long, h.0)) in
    ap (λ b. read_stream (suc (suc n)) messages b (record s { header_read = false }))
      (append_assoc (header_bytes (length message)) coded rest)
    ∙ read_stream-header (suc n) messages (length message) (coded ++ rest) s (omega (arith, h.1))
    ∙ subst
        (λ k.
          read_stream (suc n) messages (coded ++ rest) (record s { header = k; header_read = true })
          ≡ read_stream n (messages ++ decrypt_message s.p_box coded ∷ []) rest
              (record s { header = k; header_read = false }))
        long ahead
    ∙ ap
        (λ m.
          read_stream n (messages ++ m ∷ []) rest
            (record s { header = length message; header_read = false }))
        plain

abbrev pub twice : ℕ → ℕ
twice zero = zero
twice (suc n) = suc (suc (twice n))

snoc-append : (xs ys : List Bytes) (m : Bytes) → (xs ++ m ∷ []) ++ ys ≡ xs ++ (m ∷ ys)
snoc-append [] ys m = refl
snoc-append (x ∷ xs) ys m = ap (λ r. x ∷ r) (snoc-append xs ys m)

read_stream-all :
    (messages before : List Bytes) (box : Bytes) (s : MyFilter)
    → IsUndone s.p_box box
    → AreMessages messages
    → let r =
        read_stream
          (twice (length messages))
          before
          (frames box messages)
          (record s { header_read = false }) in
      (r.0 ≡ before ++ messages) × (r.1 ≡ [])
unfolding read_stream
read_stream-all [] before box s u h = (sym (append-none before), refl)
read_stream-all (message ∷ messages) before box s u h =
    let first =
      read_stream-frame (twice (length messages)) before (frames box messages) box message s u
        h.0 in
    let rest =
      read_stream-all messages (before ++ message ∷ []) box (record s { header = length message }) u
        h.1 in
    (
      ap (λ r. r.0) first ∙ rest.0 ∙ snoc-append before messages message,
      ap (λ r. r.1) first ∙ rest.1,
    )

-- What `Write` appends for messages of 4 to 65534 bytes with a number above 1000, a filter whose table
-- undoes that of the writer reads again in two reads for each message, to the last byte.
pub read_stream-write :
    (byte : ℕ → ℕ) (messages : List Bytes) (writer reader : MyFilter)
    → IsUndone reader.p_box writer.p_box
    → AreMessages messages
    → Returns
        (λ w.
          let r =
            read_stream (twice (length messages)) [] w.1 (record reader { header_read = false }) in
          (w.0 ≡ bytes_wanna_write messages) × (r.0 ≡ messages) × (r.1 ≡ []))
        (write byte messages 0 [] writer)
read_stream-write byte messages writer reader u h =
    let again = read_stream-all messages [] writer.p_box reader u h in
    let none_before : 0 + bytes_wanna_write messages ≡ bytes_wanna_write messages = omega arith in
    rw (write-frames byte messages 0 [] writer h) (returns (none_before, again.0, again.1))
