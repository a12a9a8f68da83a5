-- ===== src/Router/Broker/Dispatch.antt =====
-- router/mdbroker.cpp: `service_dispatch` and `service_internal`.
use cpp_framework.Prelude.{
  ℕ, zero, suc, Option, none, some, List, [], ◌∷◌, ◌++◌, ◌==◌, bytes_key, Bytes, codes, length,
  lookup, if◌then◌else◌,
}
use cpp_framework.Router.Fault.{Fault, Result, ok, ◌>>=◌, or_fault}
use cpp_framework.Router.Message.{Zmsg, body, body_set, unwrap, wrap}
use cpp_framework.Router.Service.{Service, pop_request, has_actived_worker, pop_worker}
use cpp_framework.Router.Broker.State.{
  Broker, load, store, expired, worker_send, transmit, mdpc_client, mdpw_request,
}

-- The end of a round of the loop of `service_dispatch`: the worker that was popped gets the oldest
-- request, and `continue` runs the further rounds.
unfoldable pub dispatch_to :
    (Service → Broker → Result (Service × Broker))
    → Option Bytes
    → Service
    → Broker
    → Result (Service × Broker)
dispatch_to continue none popped b = ok (popped, b)
dispatch_to continue (some identity) popped b = do
  let (msg, rest) = pop_request popped
  after ← worker_send b identity mdpw_request [] msg
  continue rest after

-- The second test of the loop, on the number of workers left, and `pop_worker`.
unfoldable pub dispatch_alive :
    (Service → Broker → Result (Service × Broker))
    → ℕ
    → Service
    → Broker
    → Result (Service × Broker)
unfolding dispatch_to
dispatch_alive continue zero alive b = ok (alive, b)
dispatch_alive continue (suc left) alive b = do
  (wrk, popped) ← pop_worker alive
  dispatch_to continue wrk popped b

-- One round, on the requests of the service.
unfoldable pub dispatch_round :
    (Service → Broker → Result (Service × Broker))
    → ℕ
    → List Zmsg
    → Service
    → Broker
    → Result (Service × Broker)
unfolding dispatch_alive
dispatch_round continue now [] s b = ok (s, b)
dispatch_round continue now (_ ∷ _) s b =
    let (left, alive) = has_actived_worker (expired now b.workers) s in
    dispatch_alive continue left alive b

-- The loop, for as many rounds as there are requests. It works on the service while the broker's own
-- fields change by what is sent only.
unfoldable pub dispatch_loop : ℕ → ℕ → Service → Broker → Result (Service × Broker)
unfolding dispatch_round
dispatch_loop now zero s b = ok (s, b)
dispatch_loop now (suc rounds) s b = dispatch_round (dispatch_loop now rounds) now s.requests s b

-- `if (msg) m_requests.push_back (msg)`
unfoldable pub enqueue : Option Zmsg → Service → Service
enqueue none s = s
enqueue (some msg) s = record s { requests = s.requests ++ (msg ∷ []) }

unfoldable pub service_dispatch : ℕ → Broker → Option ℕ → Option Zmsg → Result Broker
unfolding load store enqueue
service_dispatch now b srv msg = do
  a ← or_fault Fault.assertion srv
  s ← load b a
  let queued = enqueue msg s
  (s', b') ← dispatch_loop now (length queued.requests) queued b
  ok (store b' a s')

abbrev pub mmi_service : Bytes
mmi_service = codes "mmi.service"

-- `200` or `404` for a service with or without waiting workers; `at` throws where there is none.
unfoldable pub service_status : Broker → Zmsg → Result Bytes
service_status b msg = do
  name ← or_fault Fault.null_string (body msg)
  a ← or_fault Fault.out_of_range (lookup name b.services)
  s ← load b a
  ok (elim s.waiting [ [] ↦ codes "404" | _ ∷ _ ↦ codes "200" ])

unfoldable pub internal_status : Broker → Bytes → Zmsg → Result Bytes
unfolding service_status
internal_status b service_name msg =
    if service_name == mmi_service then service_status b msg else ok (codes "501")

-- The reply goes back in the envelope of the request.
unfoldable pub reply_message : Bytes → Zmsg → Result Zmsg
reply_message service_name msg = do
  (client, rest) ← unwrap msg
  ok (wrap client (some []) (wrap mdpc_client (some service_name) rest))

unfoldable pub service_internal : Broker → Bytes → Zmsg → Result Broker
unfolding internal_status reply_message
service_internal b service_name msg = do
  status ← internal_status b service_name msg
  reply ← reply_message service_name (body_set status msg)
  transmit b reply
