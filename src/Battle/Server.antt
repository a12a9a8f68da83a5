-- ===== src/Battle/Server.antt =====
-- workers/pvp_worker/GameHandler.cpp: what the worker does with each message. A handler gives the new
-- state of the worker.
use cpp_framework.Prelude.{
  ℕ, Bool, true, false, ◌&&◌, ◌||◌, Option, none, some, ◌==◌, nat_key, Bytes, lookup, if◌then◌else◌,
}
use cpp_framework.Router.Fault.{Fault, Result, ok, fault}
use cpp_framework.Battle.State.{
  Loot, BattleMap, RedisClient, Message, Server, new_battle_map, plus_died_building_num, add_loot,
  send_to_player, is_attacker_or_defender, get_peer_uid, deinitialize_battle_map, insert_battle_map,
  store_battle_map, is_online, user_login, user_logout,
}
use cpp_framework.Battle.Points.{points_of}
use cpp_framework.Battle.Messages.{
  StartAttack, HeroCastSkill, ObjectDie, HeroMove, SetRallypoint, hero_cast_skill_id, object_die_id,
  hero_move_id, set_rallypoint_id, atker_stop_battle_id,
}

module _ {Db : Type 0} (redis : RedisClient Db) where
  -- The defender has to say that it is ready before the battle goes on. `garbage` is what the variable
  -- `peerUid` holds, which this branch does not set.
  unfoldable pub tell_login : (garbage : ℕ) → ℕ → Option BattleMap → Server Db → Server Db
  tell_login garbage uid none s = s
  tell_login garbage uid (some b) s =
      let t =
        send_to_player (Message.being_atk garbage (redis.username garbage s.db)) uid
          (store_battle_map uid (record b { is_start = false }) s) in
      send_to_player (Message.dfder_login uid (redis.username uid t.db)) b.attacker_id t

  unfoldable pub login : (garbage now : ℕ) → ℕ → Server Db → Server Db
  unfolding tell_login
  login garbage now uid s =
      let t = user_login now uid s in tell_login garbage uid (lookup uid t.battle_maps) t

-- Both players get the result, and the battle is over.
unfoldable pub report_result :
    {Db : Type 0} → Option Loot → ℕ → ℕ → BattleMap → Server Db → Server Db
report_result loot attacker defender b s =
    let points = points_of b in
    deinitialize_battle_map defender (
      send_to_player (Message.battle_result_to_dfder b.star_num points.1 loot) defender
        (send_to_player (Message.battle_result_to_atker b.star_num points.0 loot) attacker s))

module _ {Db : Type 0} where
  -- The attacker goes: `false` where there is no battle, which ends the loop over the messages.
  unfoldable pub retreat : ℕ → ℕ → Option BattleMap → Server Db → Bool × Server Db
  retreat uid peer none s = (false, s)
  retreat uid peer (some b) s = (true, report_result none uid peer b s)

  unfoldable pub logout : ℕ → Server Db → Bool × Server Db
  unfolding retreat
  logout uid s =
      let t = user_logout uid s in
      let role = is_attacker_or_defender uid t in
      let peer = get_peer_uid uid t in
      if role == 1
      then (true, send_to_player Message.dfder_logout peer t)
      else if role == 2
      then retreat uid peer (lookup peer t.battle_maps) (send_to_player Message.atker_logout peer t)
      else (true, t)

-- The name gives the defender, or leaves the variable as it was.
unfoldable pub defender_of : (garbage : ℕ) → Option ℕ → ℕ
defender_of garbage none = garbage
defender_of garbage (some uid) = uid

module _ {Db : Type 0} (redis : RedisClient Db) where
  unfoldable pub begin_battle : StartAttack → ℕ → ℕ → Option BattleMap → Server Db → Server Db
  begin_battle m uid peer (some b) s = s
  begin_battle m uid peer none s =
      let t = (insert_battle_map peer (new_battle_map redis uid peer s.db) s).1 in
      let soldiers = redis.soldier_info_by_ids uid m.sid_list t.db in
      let u = send_to_player (Message.start_atk_to_dfder soldiers m.hero_id m.x m.y) peer t in
      send_to_player
        (Message.start_atk_to_atker (redis.defender_soldiers peer u.db) (is_online peer u)) uid u

  unfoldable pub start_attack : (garbage : ℕ) → ℕ → StartAttack → Server Db → Server Db
  unfolding begin_battle
  start_attack garbage uid m s =
      let peer = defender_of garbage (redis.player_id_by_uname m.defender_uname s.db) in
      begin_battle m uid peer (lookup peer s.battle_maps) s

module _ {Db : Type 0} where
  unfoldable pub hero_cast_skill : ℕ → HeroCastSkill → Server Db → Server Db
  hero_cast_skill uid m s =
      send_to_player (Message.hero_cast_skill m.hero_id m.is_atk m.targets m.skill_id)
        (get_peer_uid uid s) (send_to_player (Message.request_ack hero_cast_skill_id) uid s)

unfoldable pub loot_of : ℕ → Option ℕ → BattleMap → BattleMap
loot_of type none b = b
loot_of type (some amount) b = record b { loot = add_loot type amount b.loot }

unfoldable pub townhall_died : Bool → BattleMap → BattleMap
townhall_died false b = b
townhall_died true b = record b { townhall_is_died = true }

module _ {Db : Type 0} (redis : RedisClient Db) where
  -- What the attacker takes from a building of one of the four kinds.
  unfoldable pub plunder : ℕ → Bytes → Option ℕ → Db → BattleMap → BattleMap
  unfolding loot_of
  plunder peer object none db b = b
  plunder peer object (some type) db b =
      if (type == 1 || type == 2) || (type == 3 || type == 4)
      then loot_of type (redis.building_cur_res peer object db) b
      else b

  -- The pair of players outlives the battle, whose pointer is then null.
  unfoldable pub building_died : ℕ → ObjectDie → Option BattleMap → Server Db → Result (Server Db)
  unfolding plunder townhall_died
  building_died peer m none s = fault Fault.null_pointer
  building_died peer m (some b) s =
      let c = plus_died_building_num (townhall_died m.is_townhall b) in
      let type = redis.building_type peer m.object_id s.db in
      ok (store_battle_map peer (plunder peer m.object_id type s.db c) s)

  unfoldable pub object_die : ℕ → ObjectDie → Server Db → Result (Server Db)
  unfolding building_died
  object_die uid m s =
      let peer = get_peer_uid uid s in
      let t =
        send_to_player (Message.request_ack object_die_id) uid
          (send_to_player (Message.object_die m.object_id m.is_building) peer s) in
      let u = record t { db = redis.set_soldier_die peer m.object_id t.db } in
      if peer == 0
      then ok s
      else if (is_attacker_or_defender uid u == 2) && m.is_building
      then building_died peer m (lookup peer u.battle_maps) u
      else ok u

module _ {Db : Type 0} where
  unfoldable pub hero_move : ℕ → HeroMove → Server Db → Server Db
  hero_move uid m s =
      let peer = get_peer_uid uid s in
      if peer == 0
      then s
      else send_to_player (Message.hero_move m.hero_id m.dst_x m.dst_y) peer
          (send_to_player (Message.request_ack hero_move_id) uid s)

  -- `cur_battle_info` and `report_cur_state`
  unfoldable pub pass_on : ℕ → Message → Server Db → Server Db
  pass_on uid m s =
      let peer = get_peer_uid uid s in if peer == 0 then s else send_to_player m peer s

  unfoldable pub begin_again : ℕ → ℕ → Bool → Option BattleMap → Server Db → Server Db
  begin_again uid peer is_ready none s = s
  begin_again uid peer is_ready (some b) s =
      send_to_player (Message.dfder_isready is_ready) peer
        (store_battle_map uid (record b { is_start = true }) s)

  unfoldable pub dfder_isready : ℕ → Bool → Server Db → Server Db
  unfolding begin_again
  dfder_isready uid is_ready s =
      let peer = get_peer_uid uid s in
      if peer == 0 then s else begin_again uid peer is_ready (lookup uid s.battle_maps) s

  unfoldable pub set_rallypoint : ℕ → SetRallypoint → Server Db → Server Db
  set_rallypoint uid m s =
      send_to_player (Message.set_rallypoint m.x m.y m.target_id m.tgt_is_building)
        (get_peer_uid uid s) (send_to_player (Message.request_ack set_rallypoint_id) uid s)

  unfoldable pub end_battle : ℕ → ℕ → Option BattleMap → Server Db → Server Db
  end_battle uid peer none s = s
  end_battle uid peer (some b) s = report_result (some b.loot) uid peer b s

  unfoldable pub atker_stop_battle : ℕ → Bool → Server Db → Server Db
  unfolding end_battle
  atker_stop_battle uid is_stop s =
      let peer = get_peer_uid uid s in
      let t =
        send_to_player (Message.request_ack atker_stop_battle_id) uid
          (send_to_player (Message.atker_stop_battle is_stop) peer s) in
      end_battle uid peer (lookup peer t.battle_maps) t
