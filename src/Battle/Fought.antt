-- ===== src/Battle/Fought.antt =====
-- workers/pvp_worker/GameHandler.cpp and BattleMapManager.cpp: the handlers keep the battles fair and
-- send no result but the two.
use cpp_framework.Prelude.{ℕ, ◌≡◌, refl, Option, none, some, nat_key, lookup, arith}
use cpp_framework.Prelude.Entries.{
  assign-Every, erase-Every, lookup-Every, assign-IsSorted, erase-IsSorted,
}
use cpp_framework.Router.Returns.{OnSome, absent, present}
use cpp_framework.Battle.State.{
  Loot, BattleMap, RedisClient, Message, Server, send_to_player, get_peer_uid,
  deinitialize_battle_map, insert_battle_map, store_battle_map, user_login, user_logout,
}
use cpp_framework.Battle.Messages.{StartAttack}
use cpp_framework.Battle.Server.{
  tell_login, login, report_result, retreat, logout, begin_battle, start_attack,
}
use cpp_framework.Battle.Fair.{
  IsFair, IsOutcome, IsFought, IsInt, new_battle_map-IsFair, points_of-IsOutcome,
}

module _ {Db : Type 0} where
  pub send_to_player-IsFought :
      (m : Message) (uid : ℕ) (s : Server Db)
      → IsOutcome m
      → IsFought s
      → IsFought (send_to_player m uid s)
  unfolding send_to_player
  send_to_player-IsFought m uid s o h = (h.0, h.1, (o, h.2))

  pub store_battle_map-IsFought :
      (uid : ℕ) (b : BattleMap) (s : Server Db)
      → IsFair uid b
      → IsFought s
      → IsFought (store_battle_map uid b s)
  unfolding store_battle_map
  store_battle_map-IsFought uid b s f h =
      (assign-Every IsFair uid b s.battle_maps f h.0, assign-IsSorted uid b s.battle_maps h.1, h.2)

  deinitialize_battle_map-IsFought :
      (uid : ℕ) (s : Server Db) → IsFought s → IsFought (deinitialize_battle_map uid s)
  unfolding deinitialize_battle_map
  deinitialize_battle_map-IsFought uid s h =
      (erase-Every IsFair uid s.battle_maps h.0, erase-IsSorted uid s.battle_maps h.1, h.2)

  insert_battle_map-IsFought :
      (uid : ℕ) (b : BattleMap) (s : Server Db)
      → IsFair uid b
      → IsFought s
      → IsFought (insert_battle_map uid b s).1
  unfolding insert_battle_map
  insert_battle_map-IsFought uid b s f h = ground (
    arith,
    assign-Every IsFair uid b s.battle_maps f h.0,
    assign-IsSorted uid b s.battle_maps h.1,
  )

  -- The battle that is found is fair.
  pub found-IsFair :
      (uid : ℕ) (s : Server Db) → IsFought s → OnSome (IsFair uid) (lookup uid s.battle_maps)
  found-IsFair uid s h = go (lookup uid s.battle_maps) refl
    where
      go : (o : Option BattleMap) → lookup uid s.battle_maps ≡ o → OnSome (IsFair uid) o
      go none e = absent
      go (some b) e = present (lookup-Every IsFair uid b s.battle_maps h.0 e)

  pub report_result-IsFought :
      (loot : Option Loot) (uid peer : ℕ) (b : BattleMap) (s : Server Db)
      → IsFair peer b
      → IsFought s
      → IsFought (report_result loot uid peer b s)
  unfolding report_result
  report_result-IsFought loot uid peer b s f h =
      let o = points_of-IsOutcome peer b loot f in
      deinitialize_battle_map-IsFought peer _
        (send_to_player-IsFought _ peer _ o.1 (send_to_player-IsFought _ uid s o.0 h))

  user_login-IsFought : (now uid : ℕ) (s : Server Db) → IsFought s → IsFought (user_login now uid s)
  unfolding user_login
  user_login-IsFought now uid s h = h

module _ {Db : Type 0} (redis : RedisClient Db) where
  tell_login-IsFought :
      (garbage uid : ℕ) (o : Option BattleMap) (s : Server Db)
      → OnSome (IsFair uid) o
      → IsFought s
      → IsFought (tell_login redis garbage uid o s)
  unfolding tell_login
  tell_login-IsFought garbage uid none s f h = h
  tell_login-IsFought garbage uid (some b) s (present f) h =
      send_to_player-IsFought _ b.attacker_id _ tt
        (send_to_player-IsFought _ uid _ tt (store_battle_map-IsFought uid _ s f h))

  pub login-IsFought :
      (garbage now uid : ℕ) (s : Server Db) → IsFought s → IsFought (login redis garbage now uid s)
  unfolding login user_login
  login-IsFought garbage now uid s h =
      tell_login-IsFought garbage uid _ (user_login now uid s) (found-IsFair uid s h) h

  begin_battle-IsFought :
      (m : StartAttack) (uid peer : ℕ) (o : Option BattleMap) (s : Server Db)
      → IsInt redis
      → IsFought s
      → IsFought (begin_battle redis m uid peer o s)
  unfolding begin_battle
  begin_battle-IsFought m uid peer (some b) s i h = h
  begin_battle-IsFought m uid peer none s i h = send_to_player-IsFought _ uid _ tt (
      send_to_player-IsFought _ peer _ tt
        (insert_battle_map-IsFought peer _ s (new_battle_map-IsFair redis uid peer s.db i) h))

  pub start_attack-IsFought :
      (garbage uid : ℕ) (m : StartAttack) (s : Server Db)
      → IsInt redis
      → IsFought s
      → IsFought (start_attack redis garbage uid m s)
  unfolding start_attack
  start_attack-IsFought garbage uid m s i h = begin_battle-IsFought m uid _ _ s i h

module _ {Db : Type 0} where
  retreat-IsFought :
      (uid peer : ℕ) (o : Option BattleMap) (s : Server Db)
      → OnSome (IsFair peer) o
      → IsFought s
      → IsFought (retreat uid peer o s).1
  unfolding retreat
  retreat-IsFought uid peer none s f h = h
  retreat-IsFought uid peer (some b) s (present f) h = report_result-IsFought none uid peer b s f h

  pub logout-IsFought : (uid : ℕ) (s : Server Db) → IsFought s → IsFought (logout uid s).1
  unfolding logout user_logout
  logout-IsFought uid s h =
      let t = user_logout uid s in
      let peer = get_peer_uid uid t in
      let gone =
        retreat-IsFought uid peer (lookup peer t.battle_maps)
          (send_to_player Message.atker_logout peer t) (found-IsFair peer s h)
          (send_to_player-IsFought Message.atker_logout peer t tt h) in
      ground (arith, gone, send_to_player-IsFought Message.dfder_logout peer t tt h)
