-- ===== src/Battle/Ticks.antt =====
-- workers/pvp_worker/pvpServer.cpp: the loop of `main`, a tick at a time, with the messages that arrived.
use cpp_framework.Prelude.{ℕ, ◌≡◌, length, List, [], ◌∷◌, Bytes}
use cpp_framework.Router.Fault.{Fault, Result, ok, ◌>>=◌}
use cpp_framework.Battle.State.{RedisClient, Server}
use cpp_framework.Battle.Messages.{Codec}
use cpp_framework.Battle.Loop.{push, tick}
use cpp_framework.Battle.Fair.{IsFought, IsInt}
use cpp_framework.Battle.Handled.{caused, Handles, handled, Handles->>=}
use cpp_framework.Battle.Received.{StopsIn, handle_msg-IsFought}
use cpp_framework.Battle.Timed.{update_battle_maps-IsFought}

module _ {Db O : Type 0} (redis : RedisClient Db) (codec : Codec O) (garbage : ℕ) where
  -- What the thread of the router pushes before a tick.
  pub push_all : List Bytes → List Bytes → List Bytes
  unfolding push
  push_all [] queue = queue
  push_all (m ∷ ms) queue = push_all ms (push m queue)

  -- The ticks of `main`: for each the time and the messages that arrive before it.
  unfoldable pub run :
      List (ℕ × List Bytes) → List Bytes × Server Db → Result (List Bytes × Server Db)
  unfolding push_all
  run [] r = ok r
  run ((now, arrived) ∷ later) r = do
    next ← tick redis codec garbage now (push_all arrived r.0) r.1
    run later next

  tick-IsFought :
      (now : ℕ) (queue : List Bytes) (s : Server Db)
      → IsInt redis
      → IsFought s
      → Handles
          (λ r. IsFought r.1)
          (StopsIn redis codec garbage now (length queue) queue s)
          (tick redis codec garbage now queue s)
  unfolding tick
  tick-IsFought now queue s i h =
      Handles->>= (handle_msg-IsFought redis codec garbage now i queue s h) (λ e c. c)
        λ r _ f. handled (update_battle_maps-IsFought redis r.1 f)

  -- A tick comes to a message that stops the worker.
  pub data Stops : List (ℕ × List Bytes) → List Bytes × Server Db → Fault → Type 0 where
    in_tick :
        {now : ℕ} {arrived : List Bytes} {later : List (ℕ × List Bytes)}
        {r : List Bytes × Server Db} {e : Fault}
        → StopsIn redis codec garbage now
            (length (push_all arrived r.0))
            (push_all arrived r.0)
            r.1
            e
        → Stops ((now, arrived) ∷ later) r e
    later_tick :
        {now : ℕ} {arrived : List Bytes} {later : List (ℕ × List Bytes)}
        {r next : List Bytes × Server Db} {e : Fault}
        → tick redis codec garbage now (push_all arrived r.0) r.1 ≡ ok next
        → Stops later next e
        → Stops ((now, arrived) ∷ later) r e

  -- However many ticks pass and whatever messages arrive, the worker never pops an empty queue. It stops
  -- only where it comes to a message shorter than eight bytes, or to one whose player has a peer that no
  -- battle is listed under. Else each battle is listed under its defender, has 0 or 3 stars and has run for
  -- less than 3000 ticks, and each result that was sent is 36 points for three stars or a loss of 20 for
  -- none; if that was so at the start and redis has the levels of players as ints.
  pub run-IsFought :
      (ticks : List (ℕ × List Bytes)) (r : List Bytes × Server Db)
      → IsInt redis
      → IsFought r.1
      → Handles (λ t. IsFought t.1) (Stops ticks r) (run ticks r)
  unfolding run
  run-IsFought [] r i h = handled h
  run-IsFought ((now, arrived) ∷ later) r i h =
      Handles->>= (tick-IsFought now (push_all arrived r.0) r.1 i h) (λ e c. in_tick c)
        λ next one f. caused (run-IsFought later next i f) λ e c. later_tick one c
