-- ===== src/Router/Broker/Loop.antt =====
-- router/mdbroker.cpp: one round of `start_brokering`, at one reading of the clock.
use cpp_framework.Prelude.{
  ℕ, ◌+◌, Option, none, some, List, [], ◌∷◌, ◌==◌, bytes_key, Bytes, Dict, ltb, if◌then◌else◌,
}
use cpp_framework.Router.Fault.{Result, ok, ◌>>=◌}
use cpp_framework.Router.Uuid.{c_str}
use cpp_framework.Router.Message.{recv, pop_front}
use cpp_framework.Router.Broker.State.{
  Worker, Broker, worker_send, client_send, heartbeat_interval, mdpc_client, mdpw_worker,
  mdpw_heartbeat,
}
use cpp_framework.Router.Broker.Workers.{worker_process}
use cpp_framework.Router.Broker.Clients.{client_process}

unfoldable pub beat_workers : Dict Bytes Worker → Broker → Result Broker
beat_workers [] b = ok b
beat_workers ((identity, _) ∷ rest) b = do
  b' ← worker_send b identity mdpw_heartbeat [] none
  beat_workers rest b'

unfoldable pub beat_clients : List Bytes → Broker → Result Broker
beat_clients [] b = ok b
beat_clients (client ∷ rest) b = do
  b' ← client_send b client mdpw_heartbeat []
  beat_clients rest b'

unfoldable pub beat : ℕ → Broker → Result Broker
unfolding beat_workers beat_clients
beat now b = do
  b' ← beat_workers b.workers b
  b'' ← beat_clients b.clients b'
  ok (record b'' { heartbeat_at = now + heartbeat_interval })

-- The heartbeats to all workers and all clients, once the time for them has come.
unfoldable pub heartbeat : ℕ → Broker → Result Broker
unfolding beat
heartbeat now b = if ltb b.heartbeat_at now then beat now b else ok b

module _ (grow : ℕ → ℕ) (now : ℕ) where
  -- What is done with the frames of one message; an unknown header is only printed.
  unfoldable pub process_message : Broker → List Bytes → Result Broker
  process_message b frames = do
    msg ← recv frames
    (sender_part, after_sender) ← pop_front msg
    (_, after_delim) ← pop_front after_sender
    (header_part, rest) ← pop_front after_delim
    let sender = c_str sender_part
    let header = c_str header_part
    if header == mdpc_client
        then client_process now b sender rest
        else if header == mdpw_worker
        then worker_process grow now b sender rest
        else ok b

  -- `none`: the poll timed out.
  unfoldable pub broker_input : Broker → Option (List Bytes) → Result Broker
  unfolding process_message
  broker_input b none = ok b
  broker_input b (some frames) = process_message b frames

  unfoldable pub broker_round : Broker → Option (List Bytes) → Result Broker
  unfolding broker_input heartbeat
  broker_round b input = do b' ← broker_input b input; heartbeat now b'
