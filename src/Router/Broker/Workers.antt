-- ===== src/Router/Broker/Workers.antt =====
-- router/mdbroker.cpp: `worker_require`, `worker_delete`, `worker_waiting`, `worker_process`.
use cpp_framework.Prelude.{
  ℕ, ◌+◌, ◌*◌, Bool, true, false, ◌&&◌, ◌||◌, Option, none, some, [], ◌∷◌, ◌==◌, nat_key, bytes_key,
  Bytes, codes, length, lookup, insert, modify, leb, if◌then◌else◌,
}
use cpp_framework.Router.Fault.{Fault, Result, ok, ◌>>=◌, ◌>>◌, assert, or_fault}
use cpp_framework.Router.Uuid.{c_str}
use cpp_framework.Router.Message.{Zmsg, pop_front}
use cpp_framework.Router.Service.{delete_worker}
use cpp_framework.Router.Service as Service
use cpp_framework.Router.Broker.State.{
  Worker, Broker, load, store, worker_send, transmit, heartbeat_expiry, mdpw_ready, mdpw_reply,
  mdpw_heartbeat, mdpw_disconnect,
}
use cpp_framework.Router.Broker.Services.{service_require}
use cpp_framework.Router.Broker.Dispatch.{service_dispatch, reply_message}

unfoldable pub worker_require : Broker → Bytes → Worker × Broker
worker_require b identity = elim (lookup identity b.workers) [
  | some w ↦ (w, b)
  | none ↦
      let w : Worker = record { service = none; expiry = 0 } in
      (w, record b { workers = insert identity w b.workers })
]

abbrev pub disconnect_first : Bool → Broker → Bytes → Result Broker
disconnect_first true b identity = worker_send b identity mdpw_disconnect [] none
disconnect_first false b identity = ok b

-- `if (wrk->m_service) wrk->m_service->delete_worker (wrk)`
unfoldable pub leave_service : Broker → Bytes → Option ℕ → Result Broker
unfolding load store
leave_service b identity none = ok b
leave_service b identity (some a) = do s ← load b a; ok (store b a (delete_worker s identity))

-- The worker stays in `m_workers`; it only stops waiting.
unfoldable pub worker_delete : Broker → Bytes → Worker → Bool → Result Broker
unfolding worker_send leave_service
worker_delete b identity w disconnect = do
  told ← disconnect_first disconnect b identity
  leave_service told identity w.service

-- `service.find_first_of ("mmi.") == 0` asks for one of the four characters, not for the prefix.
unfoldable pub is_reserved : Bytes → Bool
is_reserved [] = false
is_reserved (c ∷ cs) = leb 4 (length (c ∷ cs)) && (c == b'm' || c == b'i' || c == b'.')

abbrev pub default_type : Bytes
default_type = codes "ServiceDoNotWaitResponse"

abbrev pub type_or_default : Bytes → Bytes
type_or_default [] = default_type
type_or_default (c ∷ cs) = c ∷ cs

module _ (grow : ℕ → ℕ) (now : ℕ) where
  unfoldable pub worker_waiting : Broker → Bytes → Worker → Result Broker
  worker_waiting b identity w = do
    let set_expiry = λ (x : Worker). record x { expiry = now + heartbeat_expiry * 10 }
    let fresh = record b { workers = modify identity set_expiry b.workers }
    a ← or_fault Fault.null_pointer w.service
    s ← load fresh a
    service_dispatch now (store fresh a (Service.worker_waiting grow s identity)) (some a) none

  -- The worker's service, and the type that it asks for, which may be empty. An empty name is
  -- refused.
  unfoldable pub attach_worker : Broker → Bytes → Worker → Zmsg → Bytes → Result Broker
  unfolding worker_waiting pop_front c_str
  attach_worker b sender w rest [] = ok b
  attach_worker b sender w rest (c ∷ cs) = do
    (type_part, _) ← pop_front rest
    (srv, b') ← service_require b (c ∷ cs) (type_or_default (c_str type_part))
    let attach = λ (x : Worker). record x { service = srv }
    worker_waiting (record b' { workers = modify sender attach b'.workers }) sender (attach w)

  -- READY
  unfoldable pub worker_ready : Broker → Bytes → Worker → Zmsg → Result Broker
  unfolding worker_delete attach_worker pop_front c_str
  worker_ready b sender w msg =
      if is_reserved sender
      then worker_delete b sender w false
      else do (name_part, rest) ← pop_front msg; attach_worker b sender w rest (c_str name_part)

  -- What REPLY and HEARTBEAT end with, and all of HEARTBEAT.
  unfoldable pub worker_heartbeat : Broker → Bytes → Worker → Option ℕ → Result Broker
  unfolding worker_delete worker_waiting
  worker_heartbeat b sender w (some a) = worker_waiting b sender w
  worker_heartbeat b sender w none = worker_delete b sender w true

  -- REPLY: the name of the service is read before the pointer is tested.
  unfoldable pub worker_reply : Broker → Bytes → Worker → Zmsg → Result Broker
  unfolding worker_heartbeat reply_message
  worker_reply b sender w msg = do
    a ← or_fault Fault.null_pointer w.service
    s ← load b a
    reply ← reply_message s.name msg
    b' ← transmit b reply
    worker_heartbeat b' sender w w.service

  unfoldable pub worker_process : Broker → Bytes → Zmsg → Result Broker
  unfolding worker_require worker_delete worker_ready worker_reply worker_heartbeat pop_front
  worker_process b sender msg = do
    assert (leb 1 (length msg))
    (command_part, rest) ← pop_front msg
    let command = c_str command_part
    let (w, b') = worker_require b sender
    if command == mdpw_ready
        then worker_ready b' sender w rest
        else if command == mdpw_reply
        then worker_reply b' sender w rest
        else if command == mdpw_heartbeat
        then worker_heartbeat b' sender w w.service
        else if command == mdpw_disconnect
        then worker_delete b' sender w true
        else ok b'
