-- ===== src/Gateway/Outbox.antt =====
-- gateway_server/sdk/tcp_session_handler.cc: the messages that a handler sends, on their way to the session.
-- What is posted to a thread is a list of tasks, which run in their order.
use cpp_framework.Prelude.{
  ℕ, ◌+◌, Bool, true, false, not, ◌&&◌, Option, none, some, List, [], ◌∷◌, ◌++◌, ◌==◌, nat_key,
  if◌then◌else◌,
}
use cpp_framework.Gateway.Session.{is_empty}
pub mod Orderly
pub mod InOrder
mod Tests

-- `PackMessageList` and `SendMessageListDirectly`, posted to the main thread.
pub data MainTask : Type 0 where
  pack directly : MainTask

-- `SendMessageListToSession` and `CloseSession`, posted to the thread of the session with the identifier that
-- the handler has then.
pub data SessionTask (M : Type 0) : Type 0 where
  post_list : (session_id : ℕ) → List M → SessionTask M
  close_session : (session_id : ℕ) → SessionTask M

-- A handler with its session. `session_id` is 0 for `kInvalidTCPSessionID`; `in_queue` says that the queue
-- of the thread has the session, which stands there under `queue_id`. `posted` holds the lists that `PostMessageList` was given, and `sent` what
-- `Send` took.
pub record Outbox (M : Type 0) : Type 0 where
  pub session_id : ℕ
  pub on_main_thread : Bool
  pub send_delay : Bool
  pub messages_to_be_sent : List M
  pub timer : Bool
  pub main_tasks : List MainTask
  pub session_tasks : List (SessionTask M)
  pub in_queue : Bool
  pub queue_id : ℕ
  pub posted : List M
  pub close_calls : ℕ
  pub sent : List M

module _ {M : Type 0} where
  -- Whether `session_queue().Get(id)` finds the session.
  abbrev pub get : ℕ → Outbox M → Bool
  get id h = h.in_queue && id == h.queue_id

  unfoldable pub pack_message_list : Outbox M → Outbox M
  pack_message_list h = if is_empty h.messages_to_be_sent then h else record h {
    messages_to_be_sent = [];
    session_tasks =
        h.session_tasks ++ SessionTask.post_list h.session_id h.messages_to_be_sent ∷ [];
  }

  -- Without a session the messages stay.
  unfoldable pub send_message_list_directly : Outbox M → Outbox M
  send_message_list_directly h =
      if get h.session_id h
      then record h { messages_to_be_sent = []; posted = h.posted ++ h.messages_to_be_sent }
      else h

  unfoldable pub flush : Outbox M → Outbox M
  flush h = if h.on_main_thread then send_message_list_directly h else pack_message_list h

  -- The first message of a list starts its way.
  unfoldable pub start_sending : Outbox M → Outbox M
  start_sending h = if h.send_delay then record h { timer = true } else record h {
    main_tasks =
        h.main_tasks ++ (if h.on_main_thread then MainTask.directly else MainTask.pack) ∷ [];
  }

  unfoldable pub send : (M → Bool) → M → Outbox M → Outbox M
  send empty m h =
      let t = record h {
        messages_to_be_sent = h.messages_to_be_sent ++ m ∷ [];
        sent = h.sent ++ m ∷ [];
      } in
      if h.session_id == 0
      then h
      else if empty m
      then h
      else if is_empty h.messages_to_be_sent
      then start_sending t
      else t

  -- `Close` of the handler.
  unfoldable pub close : Outbox M → Outbox M
  close h =
      let t = pack_message_list h in
      if h.session_id == 0 then h else record t {
        session_tasks = t.session_tasks ++ SessionTask.close_session h.session_id ∷ [];
      }

  unfoldable pub dispose : Outbox M → Outbox M
  dispose h = record h { session_id = 0 }

  -- `HandleSendTimer` of a timer that ran out.
  unfoldable pub handle_send_timer : Outbox M → Outbox M
  handle_send_timer h = if h.timer then flush (record h { timer = false }) else h

  unfoldable pub run_main : List MainTask → Outbox M → Outbox M
  run_main [] h = h
  run_main (MainTask.pack ∷ tasks) h = pack_message_list (record h { main_tasks = tasks })
  run_main (MainTask.directly ∷ tasks) h =
      send_message_list_directly (record h { main_tasks = tasks })

  -- A list for a session that is gone, or packed after `Dispose`, is not given to any session.
  unfoldable pub run_session : List (SessionTask M) → Outbox M → Outbox M
  run_session [] h = h
  run_session (SessionTask.post_list id messages ∷ tasks) h =
      if get id h
      then record h { session_tasks = tasks; posted = h.posted ++ messages }
      else record h { session_tasks = tasks }
  run_session (SessionTask.close_session id ∷ tasks) h =
      if get id h
      then record h { session_tasks = tasks; close_calls = h.close_calls + 1 }
      else record h { session_tasks = tasks }

-- What happens to a handler: calls of it, a timer that runs out, a task that runs, and the end of the
-- session.
pub data Event (M : Type 0) : Type 0 where
  sends : M → Event M
  closes disposes timer_ends main_runs session_runs session_ends : Event M

module _ {M : Type 0} (empty : M → Bool) where
  unfoldable pub handle : Event M → Outbox M → Outbox M
  handle (Event.sends m) h = send empty m h
  handle Event.closes h = close h
  handle Event.disposes h = dispose h
  handle Event.timer_ends h = handle_send_timer h
  handle Event.main_runs h = run_main h.main_tasks h
  handle Event.session_runs h = run_session h.session_tasks h
  handle Event.session_ends h = record h { in_queue = false }

  unfoldable pub run : List (Event M) → Outbox M → Outbox M
  run [] h = h
  run (event ∷ events) h = run events (handle event h)
