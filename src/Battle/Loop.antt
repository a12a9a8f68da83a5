-- ===== src/Battle/Loop.antt =====
-- workers/pvp_worker/GameHandler.cpp, pvpServer.cpp and LockingQueue.h: the messages that wait, the loop
-- over them, and the tick that handles them and moves the battles on.
use cpp_framework.Prelude.{
  ℕ, zero, suc, Bool, true, Option, none, some, List, [], ◌∷◌, ◌++◌, ◌==◌, nat_key, Bytes, length,
  if◌then◌else◌,
}
use cpp_framework.Router.Fault.{Fault, Result, ok, fault, ◌>>=◌}
use cpp_framework.Battle.State.{RedisClient, Message, Server}
use cpp_framework.Battle.Messages.{Codec, Request, login_id, logout_id, body_of, uid_of, id_of}
use cpp_framework.Battle.Server.{
  login, logout, start_attack, hero_cast_skill, object_die, hero_move, pass_on, dfder_isready,
  set_rallypoint, atker_stop_battle,
}
use cpp_framework.Battle.Update.{update_battle_maps}

-- `LockingQueue`, in which one thread pushes and another pops: each call holds the lock.
unfoldable pub push {ℓ} : {A : Type ℓ} → A → List A → List A
push a queue = queue ++ a ∷ []

module _ {Db O : Type 0} (redis : RedisClient Db) (codec : Codec O) (garbage now : ℕ) where
  -- The cases of the `switch`.
  unfoldable pub handle_request : ℕ → Request → Server Db → Result (Server Db)
  handle_request uid (Request.start_attack m) s = ok (start_attack redis garbage uid m s)
  handle_request uid (Request.hero_cast_skill m) s = ok (hero_cast_skill uid m s)
  handle_request uid (Request.object_die m) s = object_die redis uid m s
  handle_request uid (Request.hero_move m) s = ok (hero_move uid m s)
  handle_request uid (Request.cur_battle_info m) s = ok (pass_on uid (Message.cur_battle_info m) s)
  handle_request uid (Request.dfder_isready m) s = ok (dfder_isready uid m s)
  handle_request uid (Request.report_cur_state m) s =
      ok (pass_on uid (Message.report_cur_state m) s)
  handle_request uid (Request.set_rallypoint m) s = ok (set_rallypoint uid m s)
  handle_request uid (Request.atker_stop_battle m) s = ok (atker_stop_battle uid m s)

  unfoldable pub handle_body : ℕ → Option Request → Server Db → Result (Server Db)
  unfolding handle_request
  handle_body uid none s = ok s
  handle_body uid (some m) s = handle_request uid m s

  -- One message, and whether the loop goes on.
  unfoldable pub handle_message : ℕ → ℕ → Bytes → Server Db → Result (Bool × Server Db)
  unfolding handle_body
  handle_message uid id bytes s =
      if id == login_id
      then ok (true, login redis garbage now uid s)
      else if id == logout_id
      then ok (logout uid s)
      else body_of codec id bytes >>= λ m. handle_body uid m s >>= λ t. ok (true, t)

  unfoldable pub handle_one : Bytes → Server Db → Result (Bool × Server Db)
  handle_one bytes s = do uid ← uid_of bytes; id ← id_of bytes; handle_message uid id bytes s

  -- `handleMsg`: as many messages as there were at its start, unless a logout ends it. It gives the
  -- messages that are left.
  unfoldable pub handle_messages : ℕ → List Bytes → Server Db → Result (List Bytes × Server Db)
  handle_messages zero queue s = ok (queue, s)
  handle_messages (suc n) [] s = fault Fault.queue_empty
  handle_messages (suc n) (bytes ∷ queue) s = do
    r ← handle_one bytes s
    let rest = handle_messages n queue r.1 in if r.0 then rest else ok (queue, r.1)

  unfoldable pub handle_msg : List Bytes → Server Db → Result (List Bytes × Server Db)
  handle_msg queue s = handle_messages (length queue) queue s

  -- One turn of the loop of `main`.
  unfoldable pub tick : List Bytes → Server Db → Result (List Bytes × Server Db)
  tick queue s = do r ← handle_msg queue s; ok (r.0, update_battle_maps redis r.1)
