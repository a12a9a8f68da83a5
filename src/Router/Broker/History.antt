-- ===== src/Router/Broker/History.antt =====
-- router/mdbroker.cpp: no message of a client and no heartbeat makes the directory and the heap
-- unsound, and so no run of the loop does.
use cpp_framework.Prelude.{
  ℕ, ◌≡◌, refl, Option, none, some, List, [], ◌∷◌, ◌==◌, bytes_key, nat_key, arith, Bytes, length,
  Dict, lookup, leb, ltb,
}
use cpp_framework.Router.Fault.{Result, ok, ◌>>=◌, assert}
use cpp_framework.Router.Post.{Post, returns, Post->>=, Post-eq, Post_of_ok}
use cpp_framework.Router.Uuid.{c_str}
use cpp_framework.Router.Message.{Zmsg, pop_front, wrap, recv, body_set}
use cpp_framework.Router.Broker.State.{
  Worker, Broker, client_send, client_message, mdpw_heartbeat, mdpc_client, mdpw_worker,
  start_broker,
}
use cpp_framework.Router.Broker.Dispatch.{service_internal, internal_status, reply_message}
use cpp_framework.Router.Broker.Workers
use cpp_framework.Router.Broker.Workers.{
  worker_require, disconnect_first, leave_service, worker_delete, worker_waiting, attach_worker,
  worker_ready, worker_heartbeat, worker_reply, worker_process, type_or_default, is_reserved,
}
use cpp_framework.Router.Broker.Clients.{add_client, client_request, client_command, client_process}
use cpp_framework.Router.Broker.Loop.{
  beat_workers, beat_clients, heartbeat, process_message, broker_input, broker_round,
}
use cpp_framework.Router.Broker.Soundness.{IsSound, same-IsSound}
use cpp_framework.Router.Broker.Invariant.{
  Post-if, service_require-Keeps, service_dispatch-IsSound, transmit-IsSound,
}
use cpp_framework.Router.Broker.Handlers.{worker_send-IsSound, worker_process-IsSound}

service_internal-IsSound :
    (b : Broker) (name : Bytes) (msg : Zmsg)
    → IsSound b
    → Post IsSound (service_internal b name msg)
unfolding service_internal
service_internal-IsSound b name msg v = Post->>= (Post-eq (internal_status b name msg)) λ status _.
    Post->>= (Post-eq (reply_message name (body_set status msg)))
      λ reply _. transmit-IsSound b reply v

client_request-IsSound :
    (now : ℕ) (b : Broker) (sender name : Bytes) (msg : Zmsg)
    → IsSound b
    → Post IsSound (client_request now b sender name msg)
unfolding client_request
client_request-IsSound now b sender name msg v =
    Post->>= (service_require-Keeps b name Workers.default_type v) λ r v'.
      Post-if (is_reserved name) (service_internal-IsSound r.1 name _ v')
        (service_dispatch-IsSound now r.1 r.0 (some (wrap sender (some []) msg)) v')

add_client-IsSound : (b : Broker) (sender : Bytes) → IsSound b → IsSound (add_client b sender)
add_client-IsSound b sender v = same-IsSound b _ same.0 same.1 same.2 v
  where
    same :
        ((add_client b sender).services ≡ b.services)
        × ((add_client b sender).heap ≡ b.heap)
        × ((add_client b sender).next ≡ b.next)
    same = unfold add_client in (ground arith, ground arith, ground arith)

client_command-IsSound :
    (now : ℕ) (b : Broker) (sender : Bytes) (rest : Zmsg) (name : Bytes)
    → IsSound b
    → Post IsSound (client_command now b sender rest name)
unfolding client_command
client_command-IsSound now b sender rest [] v = returns v
client_command-IsSound now b sender rest (c ∷ cs) v =
    Post-if ((c ∷ cs) == mdpw_heartbeat) (returns (add_client-IsSound b sender v))
      (client_request-IsSound now b sender (c ∷ cs) rest v)

client_process-IsSound :
    (now : ℕ) (b : Broker) (sender : Bytes) (msg : Zmsg)
    → IsSound b
    → Post IsSound (client_process now b sender msg)
unfolding client_process
client_process-IsSound now b sender msg v = Post->>= (Post-eq (assert (leb 2 (length msg)))) λ _ _.
    Post->>= (Post-eq (pop_front msg)) λ p _. client_command-IsSound now b sender p.1 (c_str p.0) v

client_send-IsSound :
    (b : Broker) (client command option : Bytes)
    → IsSound b
    → Post IsSound (client_send b client command option)
client_send-IsSound b client command option v =
    unfold client_send in transmit-IsSound b (client_message client command option) v

beat_workers-IsSound :
    (ws : Dict Bytes Worker) (b : Broker) → IsSound b → Post IsSound (beat_workers ws b)
unfolding beat_workers
beat_workers-IsSound [] b v = returns v
beat_workers-IsSound ((worker, w) ∷ ws) b v =
    Post->>= (worker_send-IsSound b worker mdpw_heartbeat [] none v)
      λ b' v'. beat_workers-IsSound ws b' v'

beat_clients-IsSound : (cs : List Bytes) (b : Broker) → IsSound b → Post IsSound (beat_clients cs b)
unfolding beat_clients
beat_clients-IsSound [] b v = returns v
beat_clients-IsSound (client ∷ cs) b v =
    Post->>= (client_send-IsSound b client mdpw_heartbeat [] v)
      λ b' v'. beat_clients-IsSound cs b' v'

heartbeat-IsSound : (now : ℕ) (b : Broker) → IsSound b → Post IsSound (heartbeat now b)
unfolding heartbeat
heartbeat-IsSound now b v =
    Post-if (ltb b.heartbeat_at now)
      (Post->>= (beat_workers-IsSound b.workers b v) λ b' v'.
        Post->>= (beat_clients-IsSound b.clients b' v')
          λ b'' v''. returns (same-IsSound b'' _ refl refl refl v''))
      (returns v)

module _ (grow : ℕ → ℕ) (now : ℕ) where
  process_message-IsSound :
      (b : Broker) (frames : List Bytes)
      → IsSound b
      → Post IsSound (process_message grow now b frames)
  unfolding process_message
  process_message-IsSound b frames v = Post->>= (Post-eq (recv frames)) λ msg _.
      Post->>= (Post-eq (pop_front msg)) λ p _. Post->>= (Post-eq (pop_front p.1)) λ q _.
        Post->>= (Post-eq (pop_front q.1)) λ r _.
          Post-if (c_str r.0 == mdpc_client) (client_process-IsSound now b (c_str p.0) r.1 v) (
            Post-if (c_str r.0 == mdpw_worker) (worker_process-IsSound grow now b (c_str p.0) r.1 v)
              (returns v))

  broker_input-IsSound :
      (b : Broker) (input : Option (List Bytes))
      → IsSound b
      → Post IsSound (broker_input grow now b input)
  unfolding broker_input
  broker_input-IsSound b none v = returns v
  broker_input-IsSound b (some frames) v = process_message-IsSound b frames v

  broker_round-Post :
      (b : Broker) (input : Option (List Bytes))
      → IsSound b
      → Post IsSound (broker_round grow now b input)
  unfolding broker_round
  broker_round-Post b input v =
      Post->>= (broker_input-IsSound b input v) λ b' v'. heartbeat-IsSound now b' v'

-- The rounds of the loop, each at its time and with what the poll brought.
abbrev pub Events : Type 0
Events = List (ℕ × Option (List Bytes))

unfoldable pub run : (ℕ → ℕ) → Broker → Events → Result Broker
run grow b [] = ok b
run grow b ((now, input) ∷ events) = do b' ← broker_round grow now b input; run grow b' events

start_broker-IsSound : (now : ℕ) → IsSound (start_broker now)
start_broker-IsSound now =
    unfold start_broker in
    record {
      live = λ name a h. absurd (unfold lookup in ground arith);
      fresh = λ a h. refl;
      distinct = λ a s h. cc;
    }

run-Post :
    (grow : ℕ → ℕ) (events : Events) (b : Broker) → IsSound b → Post IsSound (run grow b events)
unfolding run
run-Post grow [] b v = returns v
run-Post grow ((now, input) ∷ events) b v =
    Post->>= (broker_round-Post grow now b input v) λ b' v'. run-Post grow events b' v'

-- A broker that has started, and gone through any messages from clients and workers and any time-outs
-- without a fault, has a directory in which every name leads to a service that is not deleted and
-- that bears the name; no worker waits twice at a service.
pub run-IsSound :
    (grow : ℕ → ℕ) (now : ℕ) (events : Events) (b : Broker)
    → run grow (start_broker now) events ≡ ok b
    → IsSound b
run-IsSound grow now events b e = Post_of_ok (run-Post grow events _ (start_broker-IsSound now)) b e
