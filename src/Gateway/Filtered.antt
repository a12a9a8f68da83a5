-- ===== src/Gateway/Filtered.antt =====
-- gateway_server/sdk/my_filter.h: `MyFilter` as the filter of a session, for the messages that it writes.
use cpp_framework.Prelude.{
  ℕ, ◌≤◌, ◌≡◌, ◌≢◌, ◌↔◌, refl, false, List, [], ◌∷◌, ◌++◌, ◌==◌, nat_key, Bytes, length, ltb, arith,
  Bool-cases, inl, inr,
}
use cpp_framework.Router.Fault.{Result, ok, fault}
use cpp_framework.Gateway.Session.{Wanted, Filter, is_empty}
use cpp_framework.Gateway.Sound.{AreFit, IsFilter, is_empty-append}
use cpp_framework.Gateway.Filter.{
  MyFilter, server_challenge_response_id, id_of, header_bytes, bytes_wanna_write, write_challenge,
  write_one, write, bytes_wanna_read, read,
}

-- A message that `Write` neither refuses nor reads past its end.
abbrev pub Fits : Bytes → Type 0
Fits message = (2 ≤ length message) × (length message ≤ 65535)

-- What a call of `Write` leaves. A fault ends the process: the laws speak of messages that fit.
unfoldable pub written_by : MyFilter → Result (ℕ × Bytes × MyFilter) → Bytes × MyFilter
written_by s (ok r) = (r.1, r.2)
written_by s (fault e) = ([], s)

module _ (byte : ℕ → ℕ) where
  unfoldable pub my_filter : Filter Bytes MyFilter
  unfolding written_by
  my_filter = record {
    bytes_wanna_read = λ s. Wanted.exactly (bytes_wanna_read s);
    bytes_wanna_write = bytes_wanna_write;
    read = read;
    write = λ messages s. written_by s (write byte messages 0 [] s);
  }

  some_bytes : (xs ys : Bytes) → is_empty xs ≡ false → is_empty (xs ++ ys) ≡ false
  some_bytes [] ys h = cc
  some_bytes (x ∷ xs) ys h = refl

  headed : (buffer : Bytes) (n : ℕ) → is_empty (buffer ++ header_bytes n) ≡ false
  unfolding header_bytes
  headed buffer n = is_empty-append buffer (header_bytes n) refl

  write_one-bytes :
      (message buffer : Bytes) (s : MyFilter) → is_empty (write_one byte message buffer s).1 ≡ false
  unfolding write_one write_challenge
  write_one-bytes message buffer s =
      elim (Bool-cases (id_of message == server_challenge_response_id)) [
        | inl e ↦ rw e (some_bytes _ _ (some_bytes _ _ (headed buffer _)))
        | inr e ↦ rw e (some_bytes _ _ (headed buffer _))
      ]

  write-bytes :
      (messages : List Bytes) (result : ℕ) (buffer : Bytes) (t s : MyFilter)
      → AreFit Fits messages
      → is_empty buffer ≡ false
      → is_empty (written_by t (write byte messages result buffer s)).0 ≡ false
  unfolding write written_by
  write-bytes [] result buffer t s fit h = h
  write-bytes (message ∷ messages) result buffer t s fit h =
      let short : ltb 65535 (length message) ≡ false = ground (arith, fit) in
      let long : ltb (length message) 2 ≡ false = ground (arith, fit) in
      rw (short, long) (write-bytes messages _ _ t _ fit.1 (write_one-bytes message buffer s))

  write-first :
      (messages : List Bytes) (s : MyFilter)
      → AreFit Fits messages
      → messages ≢ []
      → is_empty (written_by s (write byte messages 0 [] s)).0 ≡ false
  unfolding write
  write-first [] s fit h = absurd (h refl)
  write-first (message ∷ messages) s fit h =
      let short : ltb 65535 (length message) ≡ false = ground (arith, fit) in
      let long : ltb (length message) 2 ≡ false = ground (arith, fit) in
      rw (short, long) (write-bytes messages _ _ s _ fit.1 (write_one-bytes message [] s))

  wanted-nil : (messages : List Bytes) → (bytes_wanna_write messages ≡ 0) ↔ (messages ≡ [])
  unfolding bytes_wanna_write
  wanted-nil [] = ((λ _. refl), (λ _. refl))
  wanted-nil (message ∷ messages) = ((λ h. absurd (omega (arith, h))), (λ h. cc))

  read-length :
      (messages : List Bytes) (bytes : Bytes) (s : MyFilter)
      → length bytes ≡ bytes_wanna_read s
      → (read messages bytes s).1 ≡ length bytes
  unfolding read bytes_wanna_read
  read-length messages bytes s h = elim (Bool-cases s.header_read) [
    | inl e ↦ ground (arith, e, h)
    | inr e ↦ ground (arith, e, h)
  ]

  pub my_filter-IsFilter : IsFilter Fits my_filter
  unfolding my_filter
  my_filter-IsFilter = record { wanted = wanted-nil; writes = write-first; reads = read-length }
