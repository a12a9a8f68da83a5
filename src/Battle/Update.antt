-- ===== src/Battle/Update.antt =====
-- workers/pvp_worker/BattleMapManager.cpp: `updateBattleMaps`, once in a tick of 100 ms.
use cpp_framework.Prelude.{
  ℕ, ◌%◌, Option, none, some, [], ◌∷◌, ◌==◌, nat_key, Dict, if◌then◌else◌, leb,
}
use cpp_framework.Battle.State.{
  BattleMap, RedisClient, Message, Server, cur_tick, plus_cur_tick, send_to_player,
}
use cpp_framework.Battle.Points.{points_of}

-- `(1000 / SERVER_TICK_TIME) * SECONDS_PER_BATTLE`
abbrev pub ticks_per_battle : ℕ
ticks_per_battle = 3000

unfoldable pub keep_battle : ℕ → Option BattleMap → Dict ℕ BattleMap → Dict ℕ BattleMap
keep_battle uid none rest = rest
keep_battle uid (some b) rest = (uid, b) ∷ rest

module _ {Db : Type 0} (redis : RedisClient Db) where
  -- Every two seconds.
  unfoldable pub ask_state : BattleMap → Server Db → Server Db
  ask_state b s =
      if cur_tick b % 20 == 0
      then send_to_player Message.ask_cur_state b.defender_id
          (send_to_player Message.ask_cur_state b.attacker_id s)
      else s

  unfoldable pub battle_over : BattleMap → Server Db → Server Db
  battle_over b s =
      let points = points_of b in
      let t =
        send_to_player (Message.battle_result_to_dfder b.star_num points.1 none) b.defender_id (
          send_to_player (Message.battle_result_to_atker b.star_num points.0 none) b.attacker_id
            s) in
      record t {
        db =
            redis.plus_player_point b.defender_id points.1
              (redis.plus_player_point b.attacker_id points.0 t.db);
      }

  -- A battle that runs: `none` once it is over.
  unfoldable pub tick_battle : BattleMap → Server Db → Option BattleMap × Server Db
  unfolding ask_state
  tick_battle b s =
      let t = ask_state b s in
      if leb ticks_per_battle (cur_tick b) then (none, battle_over b t) else (some b, t)

  -- One battle: what is left of it, and what it did to the rest of the worker.
  unfoldable pub update_battle : BattleMap → Server Db → Option BattleMap × Server Db
  unfolding tick_battle
  update_battle b s = if b.is_start then tick_battle (plus_cur_tick b) s else (some b, s)

  -- The loop over the battles: those that are left, and the rest of the worker.
  unfoldable pub update_all : Dict ℕ BattleMap → Server Db → Dict ℕ BattleMap × Server Db
  unfolding keep_battle
  update_all [] s = ([], s)
  update_all ((uid, b) ∷ rest) s =
      let r = update_battle b s in
      let left = update_all rest r.1 in (keep_battle uid r.0 left.0, left.1)

  unfoldable pub update_battle_maps : Server Db → Server Db
  update_battle_maps s = let r = update_all s.battle_maps s in record (r.1) { battle_maps = r.0 }
