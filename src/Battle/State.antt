-- ===== src/Battle/State.antt =====
-- workers/pvp_worker/BattleMap.h, BattleMap.cpp, BattleMapManager.cpp and PlayerManager.cpp: a battle,
-- and the tables of battles, of pairs of players and of players that are online. Values that the worker
-- only passes on, floats and packed lists, are the numbers or the bytes that they arrive as.
use cpp_framework.Prelude.{
  ℕ, ◌+◌, ◌*◌, ◌/◌, ◌%◌, ◌^◌, Bool, true, false, ◌&&◌, Option, none, some, List, ◌∷◌, nat_key,
  Bytes, Dict, lookup, assign, erase, if◌then◌else◌, ltb, leb, int_add, nat_eq,
}

pub record Loot : Type 0 where
  pub wood : ℕ
  pub stone : ℕ
  pub ore : ℕ
  pub concrete : ℕ

pub record BattleMap : Type 0 where
  pub ticks : ℕ
  pub attacker_id : ℕ
  pub defender_id : ℕ
  pub building_num : ℕ
  pub died_building_num : ℕ
  pub townhall_is_died : Bool
  pub star_num : ℕ
  pub atker_point : ℕ
  pub dfder_point : ℕ
  pub is_start : Bool
  pub loot : Loot

-- What redis and the reading of numbers answer.
pub record RedisClient (Db : Type 0) : Type 0 where
  pub game_to_int : Bytes → ℕ
  pub player_points : ℕ → Db → Bytes
  pub username : ℕ → Db → Bytes
  pub player_id_by_uname : Bytes → Db → Option ℕ
  pub soldier_info_by_ids : ℕ → List Bytes → Db → Bytes
  pub defender_soldiers : ℕ → Db → Bytes
  pub building_type : ℕ → Bytes → Db → Option ℕ
  pub building_cur_res : ℕ → Bytes → Db → Option ℕ
  pub set_soldier_die : ℕ → Bytes → Db → Db
  pub plus_player_point : ℕ → ℕ → Db → Db

-- The constructor of `BattleMap`. The number of buildings that it reads it replaces by 50.
unfoldable pub new_battle_map : {Db : Type 0} → RedisClient Db → ℕ → ℕ → Db → BattleMap
new_battle_map redis attacker defender db = record {
  ticks = 0;
  attacker_id = attacker;
  defender_id = defender;
  building_num = 50;
  died_building_num = 0;
  townhall_is_died = false;
  star_num = 0;
  atker_point = redis.game_to_int (redis.player_points attacker db);
  dfder_point = redis.game_to_int (redis.player_points attacker db);
  is_start = true;
  loot = record { wood = 0; stone = 0; ore = 0; concrete = 0 };
}

-- `getCurTick`: the counter as a short.
unfoldable pub cur_tick : BattleMap → ℕ
cur_tick b = b.ticks % 2 ^ 16

-- `update`
unfoldable pub plus_cur_tick : BattleMap → BattleMap
plus_cur_tick b = record b { ticks = (b.ticks + 1) % 2 ^ 32 }

-- The quotient of two unsigned numbers, in the comparisons with 0.5 and 1.0.
unfoldable pub star_of : ℕ → BattleMap → ℕ
star_of ratio b =
    if leb 1 (ratio * 2) && ltb ratio 1
    then if b.townhall_is_died then 2 else 1
    else if leb 1 ratio
    then 3
    else b.star_num

unfoldable pub plus_died_building_num : BattleMap → BattleMap
unfolding star_of
plus_died_building_num b =
    let died =
      if ltb b.died_building_num b.building_num
      then b.died_building_num + 1
      else b.died_building_num in
    record b { died_building_num = died; star_num = star_of (died / b.building_num) b }

-- `setWoodLoot` and its like, by the type of the building.
unfoldable pub add_loot : ℕ → ℕ → Loot → Loot
add_loot building_type amount l =
    if nat_eq building_type 1
    then record l { wood = int_add l.wood amount }
    else if nat_eq building_type 2
    then record l { stone = int_add l.stone amount }
    else if nat_eq building_type 3
    then record l { ore = int_add l.ore amount }
    else if nat_eq building_type 4
    then record l { concrete = int_add l.concrete amount }
    else l

-- What the players are sent. The loot is `none` where the code leaves it unset.
pub data Message : Type 0 where
  being_atk : ℕ → Bytes → Message
  dfder_login : ℕ → Bytes → Message
  dfder_logout atker_logout ask_cur_state : Message
  start_atk_to_dfder : Bytes → ℕ → ℕ → ℕ → Message
  start_atk_to_atker : Bytes → Bool → Message
  request_ack : ℕ → Message
  hero_cast_skill : ℕ → Bool → List Bytes → ℕ → Message
  object_die : Bytes → Bool → Message
  hero_move : ℕ → ℕ → ℕ → Message
  cur_battle_info : Bytes → Message
  dfder_isready : Bool → Message
  report_cur_state : Bytes → Message
  set_rallypoint : ℕ → ℕ → Bytes → Bool → Message
  atker_stop_battle : Bool → Message
  battle_result_to_atker battle_result_to_dfder : ℕ → ℕ → Option Loot → Message

-- The static tables of the worker, what redis holds, and the messages that were sent, last first.
pub record Server (Db : Type 0) : Type 0 where
  pub battle_maps : Dict ℕ BattleMap
  pub player_pairs : Dict ℕ ℕ
  pub online_players : Dict ℕ ℕ
  pub db : Db
  pub sent : List (ℕ × Message)

abbrev pub present {ℓ} : {A : Type ℓ} → Option A → Bool
present none = false
present (some a) = true

peer_of_pair : Option ℕ → ℕ
peer_of_pair none = 0
peer_of_pair (some peer) = peer

module _ {Db : Type 0} where
  unfoldable pub send_to_player : Message → ℕ → Server Db → Server Db
  send_to_player m uid s = record s { sent = (uid, m) ∷ s.sent }

  -- 1 for a defender, 2 for an attacker, 0 for neither.
  unfoldable pub is_attacker_or_defender : ℕ → Server Db → ℕ
  is_attacker_or_defender uid s =
      if present (lookup uid s.battle_maps)
      then 1
      else if present (lookup uid s.player_pairs)
      then 2
      else 0

  -- 0 where there is no battle.
  unfoldable pub get_peer_uid : ℕ → Server Db → ℕ
  unfolding peer_of_pair
  get_peer_uid uid s = elim (lookup uid s.battle_maps) [
    | some b ↦ b.attacker_id
    | none ↦ peer_of_pair (lookup uid s.player_pairs)
  ]

  unfoldable pub deinitialize_battle_map : ℕ → Server Db → Server Db
  deinitialize_battle_map uid s = record s { battle_maps = erase uid s.battle_maps }

  unfoldable pub insert_battle_map : ℕ → BattleMap → Server Db → Bool × Server Db
  insert_battle_map uid item s = if present (lookup uid s.battle_maps) then (false, s) else (
    true,
    record s {
      battle_maps = assign uid item s.battle_maps;
      player_pairs = assign item.attacker_id uid s.player_pairs;
    },
  )

  unfoldable pub store_battle_map : ℕ → BattleMap → Server Db → Server Db
  store_battle_map uid b s = record s { battle_maps = assign uid b s.battle_maps }

  unfoldable pub is_online : ℕ → Server Db → Bool
  is_online uid s = present (lookup uid s.online_players)

  unfoldable pub user_login : ℕ → ℕ → Server Db → Server Db
  user_login now uid s = record s { online_players = assign uid now s.online_players }

  unfoldable pub user_logout : ℕ → Server Db → Server Db
  user_logout uid s = record s { online_players = erase uid s.online_players }
