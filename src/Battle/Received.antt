-- ===== src/Battle/Received.antt =====
-- workers/pvp_worker/GameHandler.cpp: the loop over the queue of messages keeps the battles fair.
use cpp_framework.Prelude.{
  ◌≡◌, ◌<◌, Option-cases, inl, inr, true, ℕ, zero, suc, ◌≤◌, Option, none, some, List, [], ◌∷◌,
  ◌++◌, ◌==◌, nat_key, Bytes, ltb, arith, length, get_elem?,
}
use cpp_framework.Router.Fault.{ok, Fault}
use cpp_framework.Battle.State.{RedisClient, Message, Server}
use cpp_framework.Battle.Messages.{
  Request, Codec, body_of, uid_of, read_byte, login_id, logout_id, id_of,
}
use cpp_framework.Battle.Fair.{IsFought, IsInt}
use cpp_framework.Battle.Fought.{login-IsFought, start_attack-IsFought, logout-IsFought}
use cpp_framework.Battle.Loop.{
  handle_request, handle_body, handle_message, handle_one, handle_messages, handle_msg,
}
use cpp_framework.Battle.Handled.{
  Handles, handled, stopped, caused, IsOver, Handles->>=, Handles-if, hero_cast_skill-IsFought,
  hero_move-IsFought, pass_on-IsFought, dfder_isready-IsFought, set_rallypoint-IsFought,
  atker_stop_battle-IsFought, object_die-IsFought,
}

-- A message of fewer than eight bytes.
pub data IsShort (bytes : Bytes) : Fault → Type 0 where
  too_short : length bytes < 8 → IsShort bytes Fault.bad_iterator

-- Why a message stops the worker: it is too short, or its player's battle is over.
pub data IsBad {Db : Type 0} (bytes : Bytes) (s : Server Db) (e : Fault) : Type 0 where
  short : IsShort bytes e → IsBad bytes s e
  over : (uid : ℕ) → uid_of bytes ≡ ok uid → IsOver uid s e → IsBad bytes s e

get_elem?-none : (bytes : Bytes) (i : ℕ) → get_elem? (bytes ++ 0 ∷ []) i ≡ none → length bytes < i
get_elem?-none [] zero h = cc
get_elem?-none [] (suc i) h = omega arith
get_elem?-none (b ∷ bytes) zero h = cc
get_elem?-none (b ∷ bytes) (suc i) h = omega (arith, get_elem?-none bytes i h)

read_byte-Handles :
    (bytes : Bytes) (i : ℕ) → i < 8 → Handles (λ _. Unit {0}) (IsShort bytes) (read_byte bytes i)
unfolding read_byte
read_byte-Handles bytes i low = elim (Option-cases (get_elem? (bytes ++ 0 ∷ []) i)) [
  | inl e ↦ rw e (stopped (too_short (omega (arith, get_elem?-none bytes i e))))
  | inr (b, e) ↦ rw e (handled tt)
]

uid_of-Handles : (bytes : Bytes) → Handles (λ _. Unit {0}) (IsShort bytes) (uid_of bytes)
unfolding uid_of
uid_of-Handles bytes =
    Handles->>= (read_byte-Handles bytes 2 (omega arith)) (λ e c. c)
      λ a _ _.
        Handles->>= (read_byte-Handles bytes 3 (omega arith)) (λ e c. c)
          λ b _ _.
            Handles->>= (read_byte-Handles bytes 4 (omega arith)) (λ e c. c)
              λ c _ _.
                Handles->>= (read_byte-Handles bytes 5 (omega arith)) (λ e c. c) λ d _ _. handled tt

id_of-Handles : (bytes : Bytes) → Handles (λ _. Unit {0}) (IsShort bytes) (id_of bytes)
unfolding id_of
id_of-Handles bytes =
    Handles->>= (read_byte-Handles bytes 6 (omega arith)) (λ e c. c)
      λ a _ _. Handles->>= (read_byte-Handles bytes 7 (omega arith)) (λ e c. c) λ b _ _. handled tt

body_of-Handles :
    {O : Type 0} (codec : Codec O) (id : ℕ) (bytes : Bytes)
    → Handles (λ _. Unit {0}) (IsShort bytes) (body_of codec id bytes)
unfolding body_of
body_of-Handles codec id bytes =
    Handles-if (ltb (length bytes) 8) (λ e. stopped (too_short (ground (arith, e)))) λ _. handled tt

module _ {Db O : Type 0} (redis : RedisClient Db) (codec : Codec O) (garbage now : ℕ) where
  -- The loop over a queue comes to a message that stops the worker, in the state that the messages before
  -- it left.
  pub data StopsIn : ℕ → List Bytes → Server Db → Fault → Type 0 where
    at_message :
        {n : ℕ} {bytes : Bytes} {queue : List Bytes} {s : Server Db} {e : Fault}
        → IsBad bytes s e
        → StopsIn (suc n) (bytes ∷ queue) s e
    later_message :
        {n : ℕ} {bytes : Bytes} {queue : List Bytes} {s t : Server Db} {e : Fault}
        → handle_one redis codec garbage now bytes s ≡ ok (true, t)
        → StopsIn n queue t e
        → StopsIn (suc n) (bytes ∷ queue) s e

module _ {Db O : Type 0} (redis : RedisClient Db) (codec : Codec O) (garbage now : ℕ)
    (i : IsInt redis) where
  handle_request-IsFought :
      (uid : ℕ) (m : Request) (s : Server Db)
      → IsFought s
      → Handles IsFought (IsOver uid s) (handle_request redis codec garbage now uid m s)
  unfolding handle_request
  handle_request-IsFought uid (Request.start_attack m) s h =
      handled (start_attack-IsFought redis garbage uid m s i h)
  handle_request-IsFought uid (Request.hero_cast_skill m) s h =
      handled (hero_cast_skill-IsFought uid m s h)
  handle_request-IsFought uid (Request.object_die m) s h = object_die-IsFought redis uid m s h
  handle_request-IsFought uid (Request.hero_move m) s h = handled (hero_move-IsFought uid m s h)
  handle_request-IsFought uid (Request.cur_battle_info m) s h =
      handled (pass_on-IsFought uid (Message.cur_battle_info m) s tt h)
  handle_request-IsFought uid (Request.dfder_isready m) s h =
      handled (dfder_isready-IsFought uid m s h)
  handle_request-IsFought uid (Request.report_cur_state m) s h =
      handled (pass_on-IsFought uid (Message.report_cur_state m) s tt h)
  handle_request-IsFought uid (Request.set_rallypoint m) s h =
      handled (set_rallypoint-IsFought uid m s h)
  handle_request-IsFought uid (Request.atker_stop_battle m) s h =
      handled (atker_stop_battle-IsFought uid m s h)

  handle_body-IsFought :
      (uid : ℕ) (m : Option Request) (s : Server Db)
      → IsFought s
      → Handles IsFought (IsOver uid s) (handle_body redis codec garbage now uid m s)
  unfolding handle_body
  handle_body-IsFought uid none s h = handled h
  handle_body-IsFought uid (some m) s h = handle_request-IsFought uid m s h

  handle_message-IsFought :
      (uid id : ℕ) (bytes : Bytes) (s : Server Db)
      → uid_of bytes ≡ ok uid
      → IsFought s
      → Handles
          (λ r. IsFought r.1)
          (IsBad bytes s)
          (handle_message redis codec garbage now uid id bytes s)
  unfolding handle_message
  handle_message-IsFought uid id bytes s who h =
      Handles-if (id == login_id) (λ _. handled (login-IsFought redis garbage now uid s h))
        λ _.
          Handles-if (id == logout_id) (λ _. handled (logout-IsFought uid s h))
            λ _.
              Handles->>= (body_of-Handles codec id bytes) (λ e c. short c)
                λ m _ _.
                  Handles->>= (handle_body-IsFought uid m s h) (λ e c. over uid who c)
                    λ t _ f. handled f

  handle_one-IsFought :
      (bytes : Bytes) (s : Server Db)
      → IsFought s
      → Handles (λ r. IsFought r.1) (IsBad bytes s) (handle_one redis codec garbage now bytes s)
  unfolding handle_one
  handle_one-IsFought bytes s h =
      Handles->>= (uid_of-Handles bytes) (λ e c. short c)
        λ uid who _.
          Handles->>= (id_of-Handles bytes) (λ e c. short c)
            λ id _ _. handle_message-IsFought uid id bytes s who h

  handle_messages-IsFought :
      (n : ℕ) (queue : List Bytes) (s : Server Db)
      → n ≤ length queue
      → IsFought s
      → Handles
          (λ r. IsFought r.1)
          (StopsIn redis codec garbage now n queue s)
          (handle_messages redis codec garbage now n queue s)
  unfolding handle_messages
  handle_messages-IsFought zero queue s l h = handled h
  handle_messages-IsFought (suc n) [] s l h = absurd (omega arith)
  handle_messages-IsFought (suc n) (bytes ∷ queue) s l h =
      Handles->>= (handle_one-IsFought bytes s h) (λ e c. at_message c)
        λ r one f.
          Handles-if r.0
            (λ goes.
              caused (handle_messages-IsFought n queue r.1 (omega arith) f)
                λ e c. later_message (ground (arith, one, goes)) c)
            λ _. handled f

  -- `handleMsg` never pops an empty queue: it ends, or comes to a message that is shorter than eight bytes
  -- or whose player's battle is over. Where it ends, every battle is still fair.
  pub handle_msg-IsFought :
      (queue : List Bytes) (s : Server Db)
      → IsFought s
      → Handles
          (λ r. IsFought r.1)
          (StopsIn redis codec garbage now (length queue) queue s)
          (handle_msg redis codec garbage now queue s)
  unfolding handle_msg
  handle_msg-IsFought queue s h = handle_messages-IsFought (length queue) queue s (omega arith) h
