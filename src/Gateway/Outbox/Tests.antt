-- ===== src/Gateway/Outbox/Tests.antt =====
-- gateway_server/sdk/tcp_session_handler.cc: three messages, one of them after a close.
use cpp_framework.Prelude.{ℕ, ◌≡◌, refl, true, false, List, [], ◌∷◌, ◌==◌, nat_key}
use cpp_framework.Gateway.Outbox.{
  Outbox, Event, run, handle, send, start_sending, run_main, run_session, pack_message_list, close,
  send_message_list_directly, dispose,
}
use cpp_framework.Gateway.Outbox.Orderly.{IsOrderly}
use cpp_framework.Gateway.Outbox.InOrder.{run-IsOrderly, posted-run}

-- 0 stands for a message without bytes.
abbrev fresh : Outbox ℕ
fresh = record {
  session_id = 4;
  on_main_thread = false;
  send_delay = false;
  messages_to_be_sent = [];
  timer = false;
  main_tasks = [];
  session_tasks = [];
  in_queue = true;
  queue_id = 4;
  posted = [];
  close_calls = 0;
  sent = [];
}

fresh-IsOrderly : IsOrderly fresh
fresh-IsOrderly = record {
  named = refl;
  thread = refl;
  packs = tt;
  order = λ q. refl;
  pending = λ q. refl;
}

abbrev events : List (Event ℕ)
events =
    Event.sends 1
    ∷ Event.sends 0
    ∷ Event.sends 2
    ∷ Event.closes
    ∷ Event.sends 3
    ∷ Event.main_runs
    ∷ Event.main_runs
    ∷ Event.session_runs
    ∷ Event.session_runs
    ∷ Event.session_runs
    ∷ []

run-IsOrderly_example : IsOrderly (run (λ m. m == 0) events fresh)
run-IsOrderly_example = run-IsOrderly (λ m. m == 0) events fresh fresh-IsOrderly

posted-run_example : (run (λ m. m == 0) events fresh).posted ≡ (run (λ m. m == 0) events fresh).sent
unfolding run handle send start_sending run_main run_session pack_message_list close
posted-run_example = posted-run (λ m. m == 0) events fresh fresh-IsOrderly refl refl refl refl

-- A session of the main thread gets a message that is sent after a close before the others.
main_thread_order :
    (run
      (λ m. m == 0)
      (Event.sends 1 ∷ Event.closes ∷ Event.sends 2 ∷ Event.main_runs ∷ Event.session_runs ∷ [])
      (record fresh { on_main_thread = true })).posted
    ≡ 2 ∷ 1 ∷ []
unfolding run handle send start_sending run_main run_session pack_message_list close
    send_message_list_directly
main_thread_order = refl

-- A list that is packed after the handler is disposed of reaches no session.
disposed :
    (run
      (λ m. m == 0)
      (Event.sends 1 ∷ Event.disposes ∷ Event.main_runs ∷ Event.session_runs ∷ [])
      fresh).posted
    ≡ []
unfolding run handle send start_sending run_main run_session pack_message_list dispose
disposed = refl
