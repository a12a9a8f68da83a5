-- ===== src/Gateway/Sound.antt =====
-- gateway_server/sdk/tcp_session.cc: the counter of handlers, the two buffers, and the bytes on the way.
use cpp_framework.Prelude.{
  none, some, ℕ, suc, ◌+◌, ◌≡◌, refl, ap, ◌∙◌, sym, Bool, true, false, not, ◌||◌, ◌↔◌, List, [],
  ◌∷◌, ◌++◌, ◌≢◌, ◌==◌, nat_key, Bytes, length, if◌then◌else◌, ltb, arith,
}
use cpp_framework.Router.Fault.{Result, ok, fault}
use cpp_framework.Gateway.Session.{
  Wanted, Filter, Task, Session, is_empty, post, pack_message_list, shut_down, handle_close, close,
  active_close, leave_handler, Event, handle,
}

-- A read that ended well gives as many bytes as were asked for.
abbrev pub IsAnswer : Wanted → (bytes : ℕ) → Type 0
IsAnswer Wanted.no_bytes bytes = true ≡ false
IsAnswer Wanted.any_bytes bytes = Unit
IsAnswer (Wanted.exactly n) bytes = bytes ≡ n

abbrev pub AreFit : {M : Type 0} → (M → Type 0) → List M → Type 0
AreFit Fits [] = Unit
AreFit Fits (message ∷ messages) = Fits message × AreFit Fits messages

-- What a session relies on: a filter wants no bytes for no messages only, makes some bytes of messages
-- that fit it, and reads all that it is given when that is what it asked for.
pub record IsFilter {M F : Type 0} (Fits : M → Type 0) (f : Filter M F) : Type 0 where
  pub wanted : (messages : List M) → (f.bytes_wanna_write messages ≡ 0) ↔ (messages ≡ [])
  pub writes :
      (messages : List M) (state : F)
      → AreFit Fits messages
      → messages ≢ []
      → is_empty (f.write messages state).0 ≡ false
  pub reads :
      (messages : List M) (bytes : Bytes) (state : F)
      → IsAnswer (f.bytes_wanna_read state) (length bytes)
      → (f.read messages bytes state).1 ≡ length bytes

abbrev pub count : Bool → ℕ
count true = 1
count false = 0

pub append_assoc : (xs ys zs : Bytes) → (xs ++ ys) ++ zs ≡ xs ++ (ys ++ zs)
append_assoc [] ys zs = refl
append_assoc (x ∷ xs) ys zs = ap (λ r. x ∷ r) (append_assoc xs ys zs)

pub append-nil : (xs : Bytes) → xs ++ [] ≡ xs
append-nil [] = refl
append-nil (x ∷ xs) = ap (λ r. x ∷ r) (append-nil xs)

pub started :
    (wire sending waiting more : Bytes)
    → sending ≡ []
    → waiting ≡ []
    → wire ++ (waiting ++ more) ++ sending ≡ wire ++ sending ++ waiting ++ more
started wire sending waiting more h k =
    rw (h, k)
      (append-nil (wire ++ more)
        ∙ ap (λ r. r ++ more) (sym (append-nil (wire ++ []) ∙ append-nil wire)))

pub is_empty-append : (xs ys : Bytes) → is_empty ys ≡ false → is_empty (xs ++ ys) ≡ false
is_empty-append [] ys h = h
is_empty-append (x ∷ xs) ys h = refl

pub nil_of : (xs : Bytes) → is_empty xs ≡ true → xs ≡ []
nil_of [] h = refl
nil_of (x ∷ xs) h = absurd (ground (arith, h))

module _ {M F : Type 0} where
  -- The bytes on the way: written, being written, and waiting.
  unfoldable pub stream : Session M F → Bytes
  stream s = s.wire ++ s.buffer_sending ++ s.buffer_to_be_sent

  pub record IsSession (s : Session M F) : Type 0 where
    pub handlers : s.num_handlers ≡ count s.reading + count s.writing
    pub sent : s.messages_to_be_sent ≡ []
    pub sends : s.closed ≡ false → s.writing ≡ not (is_empty s.buffer_sending)
    pub waits : is_empty s.buffer_sending ≡ true → s.buffer_to_be_sent ≡ []

  -- What one event leaves of a session whose bytes on the way were `before`.
  pub record Goes (before : Bytes) (s : Session M F) : Type 0 where
    pub sound : IsSession s
    pub bytes : stream s ≡ before

  -- The parts of a session that the invariant speaks of.
  pub record Same (s t : Session M F) : Type 0 where
    pub same_handlers : t.num_handlers ≡ s.num_handlers
    pub same_reading : t.reading ≡ s.reading
    pub same_writing : t.writing ≡ s.writing
    pub same_messages : t.messages_to_be_sent ≡ s.messages_to_be_sent
    pub same_sending : t.buffer_sending ≡ s.buffer_sending
    pub same_waiting : t.buffer_to_be_sent ≡ s.buffer_to_be_sent
    pub same_wire : t.wire ≡ s.wire
    pub same_closed : t.closed ≡ s.closed

  pub Same-refl : (s : Session M F) → Same s s
  Same-refl s = record {
    same_handlers = refl;
    same_reading = refl;
    same_writing = refl;
    same_messages = refl;
    same_sending = refl;
    same_waiting = refl;
    same_wire = refl;
    same_closed = refl;
  }

  pub posted-Same : (task : Task M) (s : Session M F) → Same s (post task s)
  unfolding post
  posted-Same task s = record {
    same_handlers = refl;
    same_reading = refl;
    same_writing = refl;
    same_messages = refl;
    same_sending = refl;
    same_waiting = refl;
    same_wire = refl;
    same_closed = refl;
  }

  pub shut_down-Same : (s : Session M F) → Same s (shut_down s)
  unfolding shut_down pack_message_list post
  shut_down-Same s = record {
    same_handlers = ground arith;
    same_reading = ground arith;
    same_writing = ground arith;
    same_messages = ground arith;
    same_sending = ground arith;
    same_waiting = ground arith;
    same_wire = ground arith;
    same_closed = ground arith;
  }

  pub handle_close-Same : (s : Session M F) → Same s (handle_close s)
  unfolding handle_close
  handle_close-Same s =
      elim (ltb 0 s.num_handlers || s.active_closed)
        as (λ b. Same s (if b then s else shut_down s)) [
          | true ↦ Same-refl s
          | false ↦ shut_down-Same s
        ]

  pub Same-Goes : {before : Bytes} {s t : Session M F} → Same s t → Goes before s → Goes before t
  Same-Goes {s} {t} e g = record {
    sound = record {
      handlers = ground (arith, g.sound.handlers, e.same_handlers, e.same_reading, e.same_writing);
      sent = ground (arith, g.sound.sent, e.same_messages);
      sends = λ h. ground (arith, g.sound.sends, e.same_writing, e.same_sending, e.same_closed, h);
      waits = λ h. ground (arith, g.sound.waits, e.same_waiting, e.same_sending, h);
    };
    bytes = unfold stream in ground (arith, g.bytes, e.same_wire, e.same_sending, e.same_waiting);
  }

  pub closed-Goes : (s : Session M F) → IsSession s → Goes (stream s) (record s { closed = true })
  unfolding stream
  closed-Goes s v = record {
    sound = record { handlers = v.handlers; sent = v.sent; sends = λ h. cc; waits = v.waits };
    bytes = refl;
  }

  pub close-Goes : (s : Session M F) → IsSession s → Goes (stream s) (close s)
  unfolding close
  close-Goes s v =
      elim s.closed
        as (λ b. Goes (stream s) (if b then s else handle_close (record s { closed = true }))) [
          | true ↦ record { sound = v; bytes = refl }
          | false ↦ Same-Goes (handle_close-Same _) (closed-Goes s v)
        ]

  pub active_close-Goes : (s : Session M F) → IsSession s → Goes (stream s) (active_close s)
  unfolding active_close stream
  active_close-Goes s v = Same-Goes (shut_down-Same _) (record {
    sound = record { handlers = v.handlers; sent = v.sent; sends = v.sends; waits = v.waits };
    bytes = refl;
  })

  pub leave_handler_lem :
      (s : Session M F) (n : ℕ)
      → s.num_handlers ≡ suc n
      → leave_handler s ≡ ok (record s { num_handlers = n })
  unfolding leave_handler
  leave_handler_lem s n h = ground (arith, h)

  module _ (f : Filter M F) where
    -- What an event adds to the bytes on the way: the encoding of the messages that an open session
    -- is given.
    unfoldable pub accepted : Event M → Session M F → Bytes
    accepted (Event.posts messages) s =
        if s.closed || f.bytes_wanna_write messages == 0 then [] else (f.write messages s.filter).0
    accepted event s = []

    unfoldable pub next : Result (Session M F) → Session M F → Session M F
    next (ok t) s = t
    next (fault e) s = s

    unfoldable pub all_accepted : List (Event M) → Session M F → Bytes
    unfolding next
    all_accepted [] s = []
    all_accepted (event ∷ events) s =
        accepted event s ++ all_accepted events (next (handle f event s) s)

    -- asio gives a session the bytes that its filter asks for, and the messages that are posted fit.
    unfoldable pub IsAsked : (M → Type 0) → Event M → Session M F → Type 0
    IsAsked Fits (Event.posts messages) s = AreFit Fits messages
    IsAsked Fits (Event.reads main_thread now none) s = Unit
    IsAsked Fits (Event.reads main_thread now (some bytes)) s =
        s.reading ≡ true → IsAnswer (f.bytes_wanna_read s.filter) (length bytes)
    IsAsked Fits (Event.writes error) s = Unit
    IsAsked Fits Event.closes s = Unit
    IsAsked Fits Event.closes_actively s = Unit

    unfoldable pub AreAsked : (M → Type 0) → List (Event M) → Session M F → Type 0
    unfolding IsAsked next
    AreAsked Fits [] s = Unit
    AreAsked Fits (event ∷ events) s =
        IsAsked Fits event s × AreAsked Fits events (next (handle f event s) s)
