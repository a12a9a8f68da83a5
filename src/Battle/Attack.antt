-- ===== src/Battle/Attack.antt =====
-- workers/pvp_worker/GameHandler.cpp: the beginning of an attack, the pause of a battle, and the pair of
-- players that outlives it.
use cpp_framework.Prelude.{
  ℕ, ◌≡◌, ◌≢◌, refl, Bool, true, false, Option, none, some, ◌==◌, nat_key, lookup, if◌then◌else◌,
  arith, lookup-assign,
}
use cpp_framework.Router.Fault.{Fault, fault}
use cpp_framework.Battle.State.{
  BattleMap, RedisClient, Server, new_battle_map, send_to_player, get_peer_uid,
  is_attacker_or_defender, insert_battle_map, store_battle_map, user_login,
}
use cpp_framework.Battle.Messages.{StartAttack, ObjectDie}
use cpp_framework.Battle.Server.{
  defender_of, begin_battle, start_attack, tell_login, login, begin_again, dfder_isready,
  object_die, building_died,
}

module _ {Db : Type 0} where
  get_peer_uid_of_defender :
      (uid : ℕ) (b : BattleMap) (s : Server Db)
      → lookup uid s.battle_maps ≡ some b
      → get_peer_uid uid s ≡ b.attacker_id
  unfolding get_peer_uid
  get_peer_uid_of_defender uid b s found = ground arith

  get_peer_uid_of_attacker :
      (uid peer : ℕ) (s : Server Db)
      → lookup uid s.battle_maps ≡ none
      → lookup uid s.player_pairs ≡ some peer
      → get_peer_uid uid s ≡ peer
  unfolding get_peer_uid
  get_peer_uid_of_attacker uid peer s none_of pair = ground arith

  lookup-store_battle_map :
      (uid : ℕ) (b : BattleMap) (s : Server Db)
      → lookup uid (store_battle_map uid b s).battle_maps ≡ some b
  unfolding store_battle_map
  lookup-store_battle_map uid b s = ground (arith, lookup-assign uid uid b s.battle_maps)

  lookup-dfder_isready :
      (uid : ℕ) (is_ready : Bool) (b : BattleMap) (s : Server Db)
      → lookup uid s.battle_maps ≡ some b
      → b.attacker_id ≢ 0
      → lookup uid (dfder_isready uid is_ready s).battle_maps ≡ some (record b { is_start = true })
  unfolding dfder_isready begin_again send_to_player
  lookup-dfder_isready uid is_ready b s found other =
      rw (get_peer_uid_of_defender uid b s found, found)
        (ground (arith, lookup-store_battle_map uid (record b { is_start = true }) s))

module _ {Db : Type 0} (redis : RedisClient Db) where
  lookup-login :
      (garbage now uid : ℕ) (b : BattleMap) (s : Server Db)
      → lookup uid s.battle_maps ≡ some b
      → lookup uid (login redis garbage now uid s).battle_maps
        ≡ some (record b { is_start = false })
  unfolding login tell_login send_to_player user_login
  lookup-login garbage now uid b s found =
      rw found (lookup-store_battle_map uid (record b { is_start = false }) (user_login now uid s))

  lookup-begin_battle :
      (m : StartAttack) (uid peer j : ℕ) (o : Option BattleMap) (s : Server Db)
      → o ≡ lookup peer s.battle_maps
      → lookup j (begin_battle redis m uid peer o s).battle_maps ≡ (
          if peer == j
          then some (elim o [ some b ↦ b | none ↦ new_battle_map redis uid peer s.db ])
          else lookup j s.battle_maps)
  unfolding begin_battle insert_battle_map send_to_player
  lookup-begin_battle m uid peer j none s e =
      ground (arith, lookup-assign peer j (new_battle_map redis uid peer s.db) s.battle_maps)
  lookup-begin_battle m uid peer j (some b) s e = ground arith

  -- An attack begins a battle for its defender where there is none, leaves one that is there as it was,
  -- and touches no battle of another defender.
  pub lookup-start_attack :
      (garbage uid j : ℕ) (m : StartAttack) (s : Server Db)
      → let peer = defender_of garbage (redis.player_id_by_uname m.defender_uname s.db) in
        lookup j (start_attack redis garbage uid m s).battle_maps ≡ (
          if peer == j
          then some (elim (lookup peer s.battle_maps) [
            | some b ↦ b
            | none ↦ new_battle_map redis uid peer s.db
          ])
          else lookup j s.battle_maps)
  unfolding start_attack
  lookup-start_attack garbage uid j m s =
      let peer = defender_of garbage (redis.player_id_by_uname m.defender_uname s.db) in
      lookup-begin_battle m uid peer j (lookup peer s.battle_maps) s refl

  -- A defender who logs in during a battle and then says that it is ready finds the battle as it was
  -- and running, if its attacker is not the player 0.
  pub dfder_isready-login :
      (garbage now uid : ℕ) (is_ready : Bool) (b : BattleMap) (s : Server Db)
      → lookup uid s.battle_maps ≡ some b
      → b.attacker_id ≢ 0
      → lookup uid (dfder_isready uid is_ready (login redis garbage now uid s)).battle_maps
        ≡ some (record b { is_start = true })
  dfder_isready-login garbage now uid is_ready b s found other =
      lookup-dfder_isready uid is_ready (record b { is_start = false })
        (login redis garbage now uid s) (lookup-login garbage now uid b s found) other

  -- The pair of players outlives the battle: where the battle of an attacker is over, its message that a
  -- building died follows a null pointer.
  pub object_die-stale :
      (uid peer : ℕ) (m : ObjectDie) (s : Server Db)
      → lookup uid s.battle_maps ≡ none
      → lookup uid s.player_pairs ≡ some peer
      → lookup peer s.battle_maps ≡ none
      → peer ≢ 0
      → m.is_building ≡ true
      → object_die redis uid m s ≡ fault Fault.null_pointer
  unfolding object_die is_attacker_or_defender send_to_player building_died
  object_die-stale uid peer m s none_of pair over other building =
      rw (get_peer_uid_of_attacker uid peer s none_of pair, none_of, pair, over, building)
        (ground arith)
