-- ===== src/Router/Broker/State.antt =====
-- router/mdbroker.cpp and router/worker.hpp: the broker's fields, its services on a heap, and how it
-- sends to a worker and to a client.
use cpp_framework.Prelude.{
  ℕ, ◌+◌, ◌*◌, Bool, false, Option, none, some, List, [], ◌∷◌, ◌++◌, ◌==◌, nat_key, bytes_key,
  Bytes, Dict, codes, lookup, ltb, if◌then◌else◌,
}
use cpp_framework.Router.Fault.{Fault, Result, ok, ◌>>=◌, or_fault}
use cpp_framework.Router.Message.{Zmsg, push_front, wrap, send}
use cpp_framework.Router.Service.{Service}

-- `BrokerWorker`. `service` is the address of its service, `none` the null pointer.
pub record Worker : Type 0 where
  pub service : Option ℕ
  pub expiry : ℕ

-- `heap` holds the services that are not deleted, `next` is an address that was never used, and
-- `sent` is what went to the socket, oldest first.
pub record Broker : Type 0 where
  pub services : Dict Bytes ℕ
  pub workers : Dict Bytes Worker
  pub clients : List Bytes
  pub heartbeat_at : ℕ
  pub heap : ℕ → Option Service
  pub next : ℕ
  pub sent : List (List Bytes)

abbrev pub heartbeat_interval : ℕ
heartbeat_interval = 2500

abbrev pub heartbeat_liveness : ℕ
heartbeat_liveness = 3

abbrev pub heartbeat_expiry : ℕ
heartbeat_expiry = heartbeat_interval * heartbeat_liveness

-- mdp.h
abbrev pub mdpc_client : Bytes
mdpc_client = codes "CLIENT"

abbrev pub mdpw_worker : Bytes
mdpw_worker = codes "WORKER"

abbrev pub mdpw_ready : Bytes
mdpw_ready = 1 ∷ []

abbrev pub mdpw_request : Bytes
mdpw_request = 2 ∷ []

abbrev pub mdpw_reply : Bytes
mdpw_reply = 3 ∷ []

abbrev pub mdpw_heartbeat : Bytes
mdpw_heartbeat = 4 ∷ []

abbrev pub mdpw_disconnect : Bytes
mdpw_disconnect = 5 ∷ []

-- The constructor, at the clock reading `now`.
unfoldable pub start_broker : ℕ → Broker
start_broker now = record {
  services = [];
  workers = [];
  clients = [];
  heartbeat_at = now + heartbeat_interval;
  heap = λ _. none;
  next = 0;
  sent = [];
}

abbrev pub update : (ℕ → Option Service) → ℕ → Option Service → ℕ → Option Service
update heap a s p = if a == p then s else heap p

-- Reading through a `Service *`, and writing.
unfoldable pub load : Broker → ℕ → Result Service
load b a = or_fault Fault.dangling (b.heap a)

unfoldable pub store : Broker → ℕ → Service → Broker
store b a s = record b { heap = update b.heap a (some s) }

-- `BrokerWorker::expired`
unfoldable pub expired : ℕ → Dict Bytes Worker → Bytes → Bool
expired now workers identity = elim (lookup identity workers) [
  | none ↦ false
  | some w ↦ ltb w.expiry now
]

-- `if (option.size () > 0) push_front (option)`
abbrev push_option : Bytes → Zmsg → Zmsg
push_option [] msg = msg
push_option (c ∷ cs) msg = push_front (c ∷ cs) msg

-- The message that `worker_send` builds; `none` is a null `_msg`.
unfoldable pub worker_message : Bytes → Bytes → Bytes → Option Zmsg → Zmsg
unfolding push_front wrap
worker_message identity command option msg = wrap identity (some []) (
    push_front mdpw_worker
      (push_front command (push_option option (elim msg [ none ↦ [] | some m ↦ m ]))))

unfoldable pub transmit : Broker → Zmsg → Result Broker
transmit b msg = do frames ← send msg; ok (record b { sent = b.sent ++ (frames ∷ []) })

unfoldable pub worker_send : Broker → Bytes → Bytes → Bytes → Option Zmsg → Result Broker
unfolding worker_message transmit
worker_send b identity command option msg = transmit b (worker_message identity command option msg)

unfoldable pub client_message : Bytes → Bytes → Bytes → Zmsg
unfolding push_front wrap
client_message client command option =
    wrap client (some []) (push_front mdpc_client (push_front command (push_option option [])))

unfoldable pub client_send : Broker → Bytes → Bytes → Bytes → Result Broker
unfolding client_message transmit
client_send b client command option = transmit b (client_message client command option)
