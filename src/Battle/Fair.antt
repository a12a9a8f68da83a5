-- ===== src/Battle/Fair.antt =====
-- workers/pvp_worker: the state of a battle between its events, and the results that players are sent.
use cpp_framework.Prelude.{
  ℕ, ◌-◌, ◌^◌, ◌≤◌, ◌<◌, ◌≡◌, ◌⊎◌, Option, nat_key, Bytes, Every, IsSorted, if◌then◌else◌, leb,
  arith,
}
use cpp_framework.Battle.State.{
  Loot, BattleMap, RedisClient, Message, Server, new_battle_map, star_of, plus_died_building_num,
}
use cpp_framework.Battle.Points.{points_of, getted_points-none, getted_points-three}

-- A battle that is listed under its defender. There are never one or two stars, since the quotient of
-- the numbers of buildings is 0 or 1, and the two players have the points of the attacker.
abbrev pub IsFair : ℕ → BattleMap → Type 0
IsFair uid b =
    (b.defender_id ≡ uid)
    × (b.building_num ≡ 50)
    × (b.died_building_num ≤ 50)
    × (b.star_num ≡ (if leb 50 b.died_building_num then 3 else 0))
    × (b.atker_point ≡ b.dfder_point)
    × (b.dfder_point < 2 ^ 32)
    × (b.ticks < 3000)

-- The attacker wins 36 points with three stars or loses 20 with none, and the defender the reverse.
abbrev pub IsOutcome : Message → Type 0
IsOutcome (Message.battle_result_to_atker star points loot) =
    ((star ≡ 0) × (points ≡ 2 ^ 32 - 20)) ⊎ ((star ≡ 3) × (points ≡ 36))
IsOutcome (Message.battle_result_to_dfder star points loot) =
    ((star ≡ 0) × (points ≡ 20)) ⊎ ((star ≡ 3) × (points ≡ 2 ^ 32 - 36))
IsOutcome _ = Unit

abbrev pub IsFought : {Db : Type 0} → Server Db → Type 0
IsFought s =
    Every IsFair s.battle_maps × IsSorted s.battle_maps × Every (λ uid m. IsOutcome m) s.sent

-- `gameToInt` gives an `int`.
abbrev pub IsInt : {Db : Type 0} → RedisClient Db → Type 0
IsInt redis = (bytes : Bytes) → redis.game_to_int bytes < 2 ^ 32

pub new_battle_map-IsFair :
    {Db : Type 0} (redis : RedisClient Db) (a d : ℕ) (db : Db)
    → IsInt redis
    → IsFair d (new_battle_map redis a d db)
unfolding new_battle_map
new_battle_map-IsFair redis a d db h = ground (arith, h (redis.player_points a db))

pub plus_died_building_num-IsFair :
    (uid : ℕ) (b : BattleMap) → IsFair uid b → IsFair uid (plus_died_building_num b)
unfolding plus_died_building_num star_of
plus_died_building_num-IsFair uid b h = ground arith

pub points_of-IsOutcome :
    (uid : ℕ) (b : BattleMap) (loot : Option Loot)
    → IsFair uid b
    → IsOutcome (Message.battle_result_to_atker b.star_num (points_of b).0 loot)
      × IsOutcome (Message.battle_result_to_dfder b.star_num (points_of b).1 loot)
unfolding points_of
points_of-IsOutcome uid b loot h =
    ground (arith, getted_points-none b.dfder_point, getted_points-three b.dfder_point)
