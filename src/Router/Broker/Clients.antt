-- ===== src/Router/Broker/Clients.antt =====
-- router/mdbroker.cpp: `client_process`.
use cpp_framework.Prelude.{
  ℕ, some, [], ◌∷◌, ◌++◌, ◌==◌, bytes_key, Bytes, length, leb, if◌then◌else◌,
}
use cpp_framework.Router.Fault.{Result, ok, ◌>>=◌, ◌>>◌, assert}
use cpp_framework.Router.Uuid.{c_str}
use cpp_framework.Router.Message.{Zmsg, pop_front, wrap}
use cpp_framework.Router.Service.{is_waiting}
use cpp_framework.Router.Broker.State.{Broker, mdpw_heartbeat}
use cpp_framework.Router.Broker.Services.{service_require}
use cpp_framework.Router.Broker.Dispatch.{service_dispatch, service_internal}
use cpp_framework.Router.Broker.Workers.{is_reserved, default_type}

-- `m_clients`, in the order of the first heartbeats.
unfoldable pub add_client : Broker → Bytes → Broker
unfolding is_waiting
add_client b sender =
    if is_waiting sender b.clients then b else record b { clients = b.clients ++ (sender ∷ []) }

-- A request for a service; without a type the required one is the default.
unfoldable pub client_request : ℕ → Broker → Bytes → Bytes → Zmsg → Result Broker
unfolding service_internal service_dispatch
client_request now b sender service_name msg = do
  (srv, b') ← service_require b service_name default_type
  let wrapped = wrap sender (some []) msg
  if is_reserved service_name
      then service_internal b' service_name wrapped
      else service_dispatch now b' srv (some wrapped)

-- An empty name is refused; the heartbeat command in the place of the name enters the client.
unfoldable pub client_command : ℕ → Broker → Bytes → Zmsg → Bytes → Result Broker
unfolding add_client client_request
client_command now b sender rest [] = ok b
client_command now b sender rest (c ∷ cs) =
    if (c ∷ cs) == mdpw_heartbeat
    then ok (add_client b sender)
    else client_request now b sender (c ∷ cs) rest

unfoldable pub client_process : ℕ → Broker → Bytes → Zmsg → Result Broker
unfolding pop_front c_str client_command
client_process now b sender msg = do
  assert (leb 2 (length msg))
  (name_part, rest) ← pop_front msg
  client_command now b sender rest (c_str name_part)
