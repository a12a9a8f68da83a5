-- ===== src/Gateway/Session.antt =====
-- gateway_server/sdk/tcp_session.cc: a session between the socket and the message filter. `reading`
-- and `writing` say that asio holds a read or a write, which ends in one call of the handler; `wire`
-- is what the socket took of completed writes.
use cpp_framework.Prelude.{
  ℕ, zero, suc, Bool, true, false, not, ◌||◌, Option, none, some, List, [], ◌∷◌, ◌++◌, ◌==◌,
  nat_key, Bytes, length, if◌then◌else◌, ltb,
}
use cpp_framework.Router.Fault.{Fault, Result, ok, fault, ◌>>=◌, ◌>>◌, assert}

-- What a filter wants to read: nothing, what there is (`size_t(-1)`), or a number of bytes.
pub data Wanted : Type 0 where
  no_bytes any_bytes : Wanted
  exactly : ℕ → Wanted

-- `NetMessageFilterInterface`, over the states `F` of a filter. `read` gives the messages after those
-- that were there, the number of bytes it took and the new state; `write` the bytes to append.
pub record Filter (M F : Type 0) : Type 0 where
  pub bytes_wanna_read : F → Wanted
  pub bytes_wanna_write : List M → ℕ
  pub read : List M → Bytes → F → List M × ℕ × F
  pub write : List M → F → Bytes × F

-- What a session posts to the threads.
pub data Task (M : Type 0) : Type 0 where
  on_session_close : ℕ → Task M
  send_message_list : Bool → Task M
  send_to_handler : List M → Task M
  start_timer : Task M

pub record Session (M F : Type 0) : Type 0 where
  pub id : ℕ
  pub filter : F
  pub messages_received : List M
  pub messages_to_be_sent : List M
  pub buffer_to_be_sent : Bytes
  pub buffer_sending : Bytes
  pub num_handlers : ℕ
  pub closed : Bool
  pub receive_delay : Bool
  pub active_closed : Bool
  pub last_receive_data_time : ℕ
  pub in_queue : Bool
  pub socket_open : Bool
  pub reading : Bool
  pub writing : Bool
  pub wire : Bytes
  pub posted : List (Task M)

abbrev pub is_empty {ℓ} : {A : Type ℓ} → List A → Bool
is_empty [] = true
is_empty (x ∷ xs) = false

module _ {M F : Type 0} where
  unfoldable pub post : Task M → Session M F → Session M F
  post task s = record s { posted = task ∷ s.posted }

  -- `PackMessageList`
  unfoldable pub pack_message_list : Session M F → Session M F
  unfolding post
  pack_message_list s =
      if is_empty s.messages_received
      then s
      else record (post (Task.send_to_handler s.messages_received) s) { messages_received = [] }

  -- The end of `HandleClose` and of `activeClose`.
  unfoldable pub shut_down : Session M F → Session M F
  unfolding post
  shut_down s = record (pack_message_list (post (Task.on_session_close s.id) s)) {
    socket_open = false;
    in_queue = false;
  }

  unfoldable pub handle_close : Session M F → Session M F
  handle_close s = if ltb 0 s.num_handlers || s.active_closed then s else shut_down s

  unfoldable pub close : Session M F → Session M F
  close s = if s.closed then s else handle_close (record s { closed = true })

  unfoldable pub active_close : Session M F → Session M F
  active_close s = shut_down (record s { active_closed = true })

  -- `async_write` of `buffer_sending_`
  unfoldable pub start_write : Bytes → Bytes → Session M F → Session M F
  start_write sending to_be_sent s = record s {
    buffer_sending = sending;
    buffer_to_be_sent = to_be_sent;
    num_handlers = suc s.num_handlers;
    writing = true;
  }

  -- `--num_handlers_` and the assertion after it.
  unfoldable pub leave_handler : Session M F → Result (Session M F)
  leave_handler s = elim s.num_handlers [
    | zero ↦ fault Fault.assertion
    | suc n ↦ ok (record s { num_handlers = n })
  ]

  module _ (f : Filter M F) where
    unfoldable pub start_read : Session M F → Session M F
    start_read s = record s { num_handlers = suc s.num_handlers; reading = true }

    unfoldable pub ask_to_read : Session M F → Session M F
    unfolding start_read
    ask_to_read s = elim (f.bytes_wanna_read s.filter) [
      | Wanted.no_bytes ↦ s
      | Wanted.any_bytes ↦ start_read s
      | Wanted.exactly n ↦ if n == 0 then s else start_read s
    ]

    -- `Init` of a session that has no id yet.
    unfoldable pub init : ℕ → Session M F → Session M F
    init id s = ask_to_read (record s { id = id; in_queue = true })

    unfoldable pub encode : List M → Session M F → Session M F
    encode messages s =
        let r = f.write messages s.filter in
        record s {
          filter = r.1;
          buffer_to_be_sent = s.buffer_to_be_sent ++ r.0;
          messages_to_be_sent = [];
        }

    unfoldable pub send_encoded : Session M F → Session M F
    send_encoded s =
        if is_empty s.buffer_sending then start_write s.buffer_to_be_sent s.buffer_sending s else s

    unfoldable pub post_messages : List M → Session M F → Session M F
    unfolding send_encoded
    post_messages messages s =
        if f.bytes_wanna_write messages == 0
        then record s { messages_to_be_sent = messages }
        else send_encoded (encode messages s)

    unfoldable pub post_message_list : List M → Session M F → Result (Session M F)
    unfolding post_messages
    post_message_list messages s =
        if s.closed
        then ok s
        else assert (is_empty s.messages_to_be_sent) >> ok (post_messages messages s)

    -- The messages wait for the main thread, or for the timer.
    unfoldable pub hand_over : Bool → Bool → Session M F → Session M F
    unfolding post
    hand_over main_thread true s = s
    hand_over main_thread false s =
        if is_empty s.messages_received
        then s
        else post (if s.receive_delay then Task.start_timer else Task.send_message_list main_thread)
            s

    unfoldable pub receive : Bool → Bytes → Session M F → Result (Session M F)
    unfolding hand_over
    receive main_thread bytes s =
        let r = f.read s.messages_received bytes s.filter in
        assert (r.1 == length bytes)
        >> ok (
            ask_to_read (
              hand_over main_thread (not (is_empty s.messages_received))
                (record s { messages_received = r.0; filter = r.2 })))

    -- `HandleRead`: `none` is an error. `now` is `GlobalTime`.
    unfoldable pub handle_read : Bool → ℕ → Option Bytes → Session M F → Result (Session M F)
    unfolding receive
    handle_read main_thread now data_read s =
        leave_handler (record s { last_receive_data_time = now; reading = false }) >>= λ t.
        if t.closed then ok (handle_close t) else elim data_read [
          | none ↦ ok (handle_close (record t { closed = true }))
          | some bytes ↦ receive main_thread bytes t
        ]

    write_kept : Session M F → Session M F
    write_kept s =
        let r = f.write s.messages_to_be_sent s.filter in
        start_write r.0 [] (record s { filter = r.1 })

    unfoldable pub write_more : Session M F → Session M F
    unfolding write_kept
    write_more s =
        if is_empty s.buffer_to_be_sent
        then (if f.bytes_wanna_write s.messages_to_be_sent == 0
            then (if s.closed then handle_close s else s)
            else write_kept s)
        else start_write s.buffer_to_be_sent [] s

    -- `HandleWrite`: the socket took the bytes, or there was an error.
    unfoldable pub handle_write : Bool → Session M F → Result (Session M F)
    unfolding write_more
    handle_write error s = leave_handler (record s { writing = false }) >>= λ t. ok (
        if error
        then handle_close (record t { closed = true })
        else write_more (record t { wire = t.wire ++ t.buffer_sending; buffer_sending = [] }))

-- What happens to a session. A read or a write ends only if asio holds one.
pub data Event (M : Type 0) : Type 0 where
  posts : List M → Event M
  reads : Bool → ℕ → Option Bytes → Event M
  writes : Bool → Event M
  closes : Event M
  closes_actively : Event M

module _ {M F : Type 0} (f : Filter M F) where
  unfoldable pub handle : Event M → Session M F → Result (Session M F)
  handle (Event.posts messages) s = post_message_list f messages s
  handle (Event.reads main_thread now data_read) s =
      if s.reading then handle_read f main_thread now data_read s else ok s
  handle (Event.writes error) s = if s.writing then handle_write f error s else ok s
  handle Event.closes s = ok (close s)
  handle Event.closes_actively s = ok (active_close s)

  unfoldable pub run_session : List (Event M) → Session M F → Result (Session M F)
  run_session [] s = ok s
  run_session (event ∷ events) s = handle event s >>= λ t. run_session events t
