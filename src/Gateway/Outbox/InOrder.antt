-- ===== src/Gateway/Outbox/InOrder.antt =====
-- gateway_server/sdk/tcp_session_handler.cc: messages reach the session in their order, each once.
use cpp_framework.Prelude.{
  nat_eq_iff, ◌+◌, ◌≡◌, refl, ap, sym, ◌∙◌, Bool, true, false, List, [], ◌∷◌, ◌++◌, ◌==◌, nat_key,
  if◌then◌else◌, arith,
}
use cpp_framework.Gateway.Session.{is_empty}
use cpp_framework.Gateway.Outbox.{
  MainTask, SessionTask, Outbox, get, pack_message_list, flush, send, close, dispose,
  handle_send_timer, run_main, run_session, Event, handle, run,
}
use cpp_framework.Gateway.Outbox.Orderly.{
  append_assoc, append-nil, packed, IsOpen, packed-append, IsInOrder, ArePacks, IsOrderly, nil_of,
  pack_message_list-IsOrderly, start_sending-IsOrderly,
}

module _ {M : Type 0} where
  appended :
      (posted packed_ones messages : List M) (m : M)
      → posted ++ (packed_ones ++ (messages ++ m ∷ []))
        ≡ (posted ++ (packed_ones ++ messages)) ++ m ∷ []
  appended posted packed_ones messages m =
      ap (λ r. posted ++ r) (sym (append_assoc packed_ones messages (m ∷ [])))
      ∙ sym (append_assoc posted (packed_ones ++ messages) (m ∷ []))

  IsOrderly-if :
      (c : Bool) {x y : Outbox M}
      → (c ≡ true → IsOrderly x)
      → (c ≡ false → IsOrderly y)
      → IsOrderly (if c then x else y)
  IsOrderly-if true p q = p refl
  IsOrderly-if false p q = q refl

  send-IsOrderly :
      (empty : M → Bool) (m : M) (h : Outbox M) → IsOrderly h → IsOrderly (send empty m h)
  unfolding send
  send-IsOrderly empty m h o =
      let t = record h {
        messages_to_be_sent = h.messages_to_be_sent ++ m ∷ [];
        sent = h.sent ++ m ∷ [];
      } in
      let in_order : IsInOrder t = λ q.
        appended h.posted (packed h.queue_id h.session_tasks) h.messages_to_be_sent m
        ∙ ap (λ r. r ++ m ∷ []) (o.order q) in
      IsOrderly-if (h.session_id == 0) (λ _. o)
        (λ _.
          IsOrderly-if (empty m) (λ _. o)
            (λ _.
              IsOrderly-if (is_empty h.messages_to_be_sent)
                (λ _. start_sending-IsOrderly t o.named o.thread o.packs in_order)
                (λ e. record {
                  named = o.named;
                  thread = o.thread;
                  packs = o.packs;
                  order = in_order;
                  pending = λ q. ground (arith, o.pending q);
                })))

  close-IsOrderly : (h : Outbox M) → IsOrderly h → IsOrderly (close h)
  unfolding close
  close-IsOrderly h o =
      let t = pack_message_list h in
      let p = pack_message_list-IsOrderly h o.named o.thread o.packs o.order in
      let same : packed t.queue_id (t.session_tasks ++ SessionTask.close_session h.session_id ∷ [])
          ≡ packed t.queue_id t.session_tasks =
        packed-append t.queue_id t.session_tasks (SessionTask.close_session h.session_id ∷ [])
        ∙ append-nil (packed t.queue_id t.session_tasks) in
      IsOrderly-if (h.session_id == 0) (λ _. o)
        (λ _. record {
          named = p.named;
          thread = p.thread;
          packs = p.packs;
          order = λ q. ap (λ r. t.posted ++ (r ++ t.messages_to_be_sent)) same ∙ p.order q;
          pending = p.pending;
        })

  flush-IsOrderly :
      (h : Outbox M)
      → (h.queue_id == 0) ≡ false
      → h.on_main_thread ≡ false
      → ArePacks h.main_tasks
      → IsInOrder h
      → IsOrderly (flush h)
  unfolding flush
  flush-IsOrderly h n t p o =
      IsOrderly-if h.on_main_thread (λ e. absurd (ground arith))
        (λ _. pack_message_list-IsOrderly h n t p o)

  run_main-IsOrderly :
      (tasks : List MainTask) (h : Outbox M)
      → ArePacks tasks
      → IsOrderly h
      → IsOrderly (run_main tasks h)
  unfolding run_main
  run_main-IsOrderly [] h p o = o
  run_main-IsOrderly (MainTask.pack ∷ tasks) h p o =
      pack_message_list-IsOrderly (record h { main_tasks = tasks }) o.named o.thread p o.order
  run_main-IsOrderly (MainTask.directly ∷ tasks) h p o = absurd (ground arith)

  -- The same handler with another part of the way behind it.
  moved :
      (h t : Outbox M)
      → IsOrderly h
      → t.on_main_thread ≡ h.on_main_thread
      → t.main_tasks ≡ h.main_tasks
      → t.messages_to_be_sent ≡ h.messages_to_be_sent
      → t.timer ≡ h.timer
      → t.in_queue ≡ h.in_queue
      → t.queue_id ≡ h.queue_id
      → t.session_id ≡ h.session_id
      → IsInOrder t
      → IsOrderly t
  moved h t o a b c d e q i order = record {
    named = ap (λ x. x == 0) q ∙ o.named;
    thread = a ∙ o.thread;
    packs = rw b o.packs;
    order = order;
    pending = rw (b, c, d, e, q, i) o.pending;
  }

  run_session-IsOrderly :
      (tasks : List (SessionTask M)) (h : Outbox M)
      → h.session_tasks ≡ tasks
      → IsOrderly h
      → IsOrderly (run_session tasks h)
  unfolding run_session
  run_session-IsOrderly [] h e o = o
  run_session-IsOrderly (SessionTask.post_list id messages ∷ tasks) h e o =
      IsOrderly-if (get id h)
        (λ c.
          let same : (id == h.queue_id) ≡ true = ground (arith, c) in
          let t = record h { session_tasks = tasks; posted = h.posted ++ messages } in
          moved h t o refl refl refl refl refl refl refl (λ q.
            append_assoc h.posted messages (packed h.queue_id tasks ++ h.messages_to_be_sent)
            ∙ ap (λ r. h.posted ++ r)
                (sym (append_assoc messages (packed h.queue_id tasks) h.messages_to_be_sent)
                  ∙ ap (λ r. r ++ h.messages_to_be_sent)
                      (sym (ap (packed h.queue_id) e ∙ rw same refl)))
            ∙ o.order q))
        λ c.
          moved h (record h { session_tasks = tasks }) o refl refl refl refl refl refl refl
            λ q.
              let other : (id == h.queue_id) ≡ false = ground (arith, c, q) in
              ap (λ r. h.posted ++ (r ++ h.messages_to_be_sent))
                (sym (ap (packed h.queue_id) e ∙ rw other refl))
              ∙ o.order q
  run_session-IsOrderly (SessionTask.close_session id ∷ tasks) h e o =
      let order : IsInOrder (record h { session_tasks = tasks }) = λ q.
        ap (λ r. h.posted ++ (packed h.queue_id r ++ h.messages_to_be_sent)) (sym e) ∙ o.order q in
      IsOrderly-if (get id h)
        (λ _.
          moved h (record h { session_tasks = tasks; close_calls = h.close_calls + 1 }) o refl refl
            refl refl refl refl refl order)
        (λ _.
          moved h (record h { session_tasks = tasks }) o refl refl refl refl refl refl refl order)

  handle-IsOrderly :
      (empty : M → Bool) (event : Event M) (h : Outbox M)
      → IsOrderly h
      → IsOrderly (handle empty event h)
  unfolding handle dispose handle_send_timer
  handle-IsOrderly empty (Event.sends m) h o = send-IsOrderly empty m h o
  handle-IsOrderly empty Event.closes h o = close-IsOrderly h o
  handle-IsOrderly empty Event.disposes h o =
      let gone : (0 == h.queue_id) ≡ false =
        ground (arith, o.named, nat_eq_iff 0 h.queue_id, nat_eq_iff h.queue_id 0) in
      record {
        named = o.named;
        thread = o.thread;
        packs = o.packs;
        order = λ q. absurd (ground (arith, q, gone));
        pending = λ q. absurd (ground (arith, q, gone));
      }
  handle-IsOrderly empty Event.timer_ends h o =
      IsOrderly-if h.timer
        (λ _. flush-IsOrderly (record h { timer = false }) o.named o.thread o.packs o.order)
        (λ _. o)
  handle-IsOrderly empty Event.main_runs h o = run_main-IsOrderly h.main_tasks h o.packs o
  handle-IsOrderly empty Event.session_runs h o = run_session-IsOrderly h.session_tasks h refl o
  handle-IsOrderly empty Event.session_ends h o = record {
    named = o.named;
    thread = o.thread;
    packs = o.packs;
    order = λ q. absurd (ground (arith, q));
    pending = λ q. absurd (ground (arith, q));
  }

  -- Whatever is sent and in whatever order the threads run, while the session of another thread is there and
  -- the handler is not disposed of, the messages that the session was given, those packed for it and those
  -- that wait are the messages that were sent, in their order, each once; and messages that wait have a
  -- timer or a task that will take them; if that was so at the start and the session has a valid identifier.
  pub run-IsOrderly :
      (empty : M → Bool) (events : List (Event M)) (h : Outbox M)
      → IsOrderly h
      → IsOrderly (run empty events h)
  unfolding run
  run-IsOrderly empty [] h o = o
  run-IsOrderly empty (event ∷ events) h o =
      run-IsOrderly empty events (handle empty event h) (handle-IsOrderly empty event h o)

  -- When no task is left and no timer runs, a session of another thread that is still there, and whose
  -- handler is not disposed of, has been given all that was sent, in its order, if the handler was in order
  -- at the start.
  pub posted-run :
      (empty : M → Bool) (events : List (Event M)) (h : Outbox M)
      → IsOrderly h
      → IsOpen (run empty events h)
      → (run empty events h).timer ≡ false
      → (run empty events h).main_tasks ≡ []
      → (run empty events h).session_tasks ≡ []
      → (run empty events h).posted ≡ (run empty events h).sent
  posted-run empty events h o q no_timer no_task no_list =
      let t = run empty events h in
      let ends = run-IsOrderly empty events h o in
      let waits : is_empty t.messages_to_be_sent ≡ true = ground (arith, ends.pending q) in
      let none_left : packed t.queue_id t.session_tasks ++ t.messages_to_be_sent ≡ [] =
        rw (no_list, nil_of t.messages_to_be_sent waits) refl in
      sym (append-nil t.posted) ∙ ap (λ r. t.posted ++ r) (sym none_left) ∙ ends.order q
