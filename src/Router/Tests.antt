-- ===== src/Router/Tests.antt =====
-- The theorems about the router at concrete messages, workers and services, and tests of its parts.
use cpp_framework.Prelude.{
  ℕ, ◌+◌, ◌≡◌, refl, true, false, Option, none, some, List, [], ◌∷◌, arith, Bytes, ◌==◌, nat_key,
  if◌then◌else◌, codes, lookup, insert, modify, erase,
}
use cpp_framework.Router.Fault.{Fault, Result, ok, fault, ◌>>=◌, traverse}
use cpp_framework.Router.Uuid.{encode_uuid, decode_uuid, c_str}
use cpp_framework.Router.Uuid.RoundTrip.{decode_uuid-encode_uuid}
use cpp_framework.Router.Message.{recv, send, is_printed, is_binary, wrap, push_front}
use cpp_framework.Router.Message.Laws.{AreFrames, send-recv}
use cpp_framework.Router.Service.{
  Service, ServiceType, Iterator, pop_worker, pop_request, worker_waiting, is_waiting,
  has_actived_worker, create_service, copy,
}
use cpp_framework.Router.Service.RoundRobin.{pop_many, pop_many-rounds}
use cpp_framework.Router.Broker.State.{
  Worker, Broker, start_broker, mdpc_client, mdpw_worker, mdpw_ready, mdpw_heartbeat, worker_send,
  expired,
}
use cpp_framework.Router.Broker.Services.{service_change, service_require}
use cpp_framework.Router.Broker.Dispatch.{dispatch_loop, reply_message, mmi_service}
use cpp_framework.Router.Broker.Delivery.{Served, IsIdle, dispatch_loop-Served}
use cpp_framework.Router.Broker.Workers.{worker_process, is_reserved}
use cpp_framework.Router.Broker.Clients.{client_process}
use cpp_framework.Router.Broker.Soundness.{IsSound}
use cpp_framework.Router.Broker.History.{Events, run, run-IsSound}
use cpp_framework.Router.Broker.Loop.{broker_round, process_message}
use cpp_framework.Router.Broker.Replies.{reply_message-frames}
use cpp_framework.Router.Broker.Change.{worker_process-service_change}

-- The name of a peer behind its zero byte.
abbrev peer : Bytes
peer = 1 ∷ 2 ∷ 3 ∷ 250 ∷ 255 ∷ 0 ∷ 7 ∷ 8 ∷ 9 ∷ 10 ∷ 11 ∷ 12 ∷ 13 ∷ 14 ∷ 15 ∷ 16 ∷ []

decode_uuid-encode_uuid_example :
    (do text ← encode_uuid (0 ∷ peer); decode_uuid text) ≡ ok (0 ∷ peer)
decode_uuid-encode_uuid_example = decode_uuid-encode_uuid peer refl (omega arith)

abbrev request_frames : List Bytes
request_frames = (0 ∷ peer) ∷ [] ∷ codes "CLIENT" ∷ codes "logic" ∷ (0 ∷ 64 ∷ 200 ∷ []) ∷ []

request_AreFrames : AreFrames request_frames
unfolding is_printed
request_AreFrames = (
  record { bytes = omega arith; plain = refl },
  (
    record { bytes = tt; plain = refl },
    (
      record { bytes = omega arith; plain = refl },
      (
        record { bytes = omega arith; plain = refl },
        (record { bytes = omega arith; plain = refl }, tt),
      ),
    ),
  ),
)

send-recv_example : (recv request_frames >>= send) ≡ ok request_frames
send-recv_example = send-recv request_frames request_AreFrames

abbrev no_service : Service
no_service = record {
  name = codes "logic";
  type = ServiceType.do_not_wait_response;
  waiting = [];
  capacity = 0;
  requests = [];
  if_pos_init = false;
  pos = Iterator.singular;
}

abbrev w1 : Bytes
w1 = codes "w1"

abbrev w2 : Bytes
w2 = codes "w2"

abbrev two_workers : Service
two_workers = record no_service { waiting = w1 ∷ w2 ∷ []; capacity = 2 }

pop_many-rounds_example : pop_many 3 two_workers ≡ ok (some w1 ∷ some w2 ∷ some w1 ∷ [])
pop_many-rounds_example = pop_many-rounds 3 two_workers (λ e. cc) refl

abbrev both_taken : Service
both_taken = record two_workers { if_pos_init = true; pos = Iterator.at 2 }

reply_message-frames_example :
    (do
      msg ← recv ((0 ∷ peer) ∷ [] ∷ codes "done" ∷ [])
      reply ← reply_message (codes "logic") msg
      send reply)
    ≡ ok ((0 ∷ peer) ∷ [] ∷ mdpc_client ∷ codes "logic" ∷ codes "done" ∷ [])
reply_message-frames_example =
    reply_message-frames peer (codes "logic") (codes "done" ∷ []) refl (omega arith)
      (unfold c_str in refl) (unfold is_printed in refl)
      (record { bytes = omega arith; plain = unfold is_printed in refl }, tt)

-- A broker with one service, at address 0, and a worker that does not wait.
abbrev at_logic : Worker
at_logic = record { service = some 0; expiry = 90000 }

abbrev started : Broker
started = record {
  services = (codes "logic", 0) ∷ [];
  workers = (w1, at_logic) ∷ [];
  clients = [];
  heartbeat_at = 90000;
  heap = λ a. if a == 0 then some no_service else none;
  next = 1;
  sent = [];
}

abbrev value : Result (Option ℕ × Broker) → Broker
value (ok (a, b)) = b
value (fault e) = started

worker_process-service_change_example :
    worker_process
      (λ n. n + 1)
      5
      (value (service_change started 0 (codes "ServiceWaitResponse")))
      w1
      (mdpw_heartbeat ∷ [])
    ≡ fault Fault.dangling
worker_process-service_change_example =
    worker_process-service_change (λ n. n + 1) 5 started _ 0 1 (codes "ServiceWaitResponse")
      no_service w1 at_logic refl (unfold is_waiting in refl) (unfold lookup in refl) refl
      (unfold service_change insert erase create_service copy in refl)

-- Brokers with a service whose name begins with a letter of the prefix, and with the internal one.
abbrev offers_mail : Broker
offers_mail = record started { services = (codes "mail", 0) ∷ [] }

abbrev offers_mmi : Broker
offers_mmi = record started { services = (mmi_service, 0) ∷ [] }

abbrev queued : Service
queued = record two_workers { requests = (w2 ∷ [] ∷ []) ∷ (w1 ∷ [] ∷ []) ∷ [] }

abbrev left : Result (Service × Broker) → Service × Broker
left (ok r) = r
left (fault e) = (no_service, started)

dispatch_loop-Served_example :
    let r = left (dispatch_loop 5 2 queued started) in Served queued started r.0 r.1 × IsIdle r.0
dispatch_loop-Served_example = dispatch_loop-Served 5 queued started _ _ (
    unfold dispatch_loop pop_worker pop_request has_actived_worker expired lookup worker_send send
      traverse c_str is_printed in
    refl)

-- A client asks before any worker is there, and a worker that asks for the first class of service
-- joins, is given the request, and replies.
abbrev history : Events
history =
    (5, some request_frames)
    ∷ (6, some (w1 ∷ [] ∷ mdpw_worker ∷ mdpw_ready ∷ codes "logic" ∷ [] ∷ []))
    ∷ (9000, none)
    ∷ []

abbrev final : Result Broker → Broker
final (ok b) = b
final (fault e) = started

run-IsSound_example : IsSound (final (run (λ n. n + 1) (start_broker 0) history))
run-IsSound_example =
    run-IsSound (λ n. n + 1) 0 history _
      (unfold run broker_round start_broker process_message client_process worker_process recv send
          traverse is_printed is_binary encode_uuid decode_uuid lookup insert modify erase
          service_require service_change create_service copy dispatch_loop pop_worker pop_request
          has_actived_worker expired is_reserved worker_waiting worker_send wrap push_front in
        refl)
