-- ===== src/Battle/Tests.antt =====
-- workers/pvp_worker: player 5 attacks player 7, who logs in and is ready.
use cpp_framework.Prelude.{
  ℕ, ◌≡◌, refl, true, false, none, some, List, [], ◌∷◌, nat_key, Bytes, lookup, arith,
}
use cpp_framework.Battle.State.{BattleMap, RedisClient, Server, new_battle_map}
use cpp_framework.Battle.Messages.{StartAttack, ObjectDie, Codec}
use cpp_framework.Battle.Server.{defender_of, login, start_attack, dfder_isready}
use cpp_framework.Battle.Fair.{IsFought, IsFair}
use cpp_framework.Battle.Handled.{Handles}
use cpp_framework.Battle.Timed.{updates, lookup-updates}
use cpp_framework.Battle.Ticks.{Stops, run, run-IsFought}
use cpp_framework.Battle.Attack.{lookup-start_attack, dfder_isready-login}

-- A data base that counts the soldiers that died; a player's name is its number.
abbrev redis : RedisClient ℕ
redis = record {
  game_to_int = λ bytes. 40;
  player_points = λ uid db. uid ∷ [];
  username = λ uid db. uid ∷ [];
  player_id_by_uname = λ name db. elim name [ [] ↦ none | uid ∷ rest ↦ some uid ];
  soldier_info_by_ids = λ uid ids db. [];
  defender_soldiers = λ uid db. [];
  building_type = λ uid object db. some 2;
  building_cur_res = λ uid object db. some 9;
  set_soldier_die = λ uid object db. db;
  plus_player_point = λ uid points db. db;
}

abbrev attack_7 : StartAttack
attack_7 = record { defender_uname = 7 ∷ []; race = 1; sid_list = []; hero_id = 1; x = 0; y = 0 }

abbrev building : ObjectDie
building = record { object_id = 1 ∷ []; is_building = true; is_townhall = false }

abbrev codec : Codec Bytes
codec = record {
  unpack = λ bytes. some bytes;
  start_attack = λ bytes. some attack_7;
  hero_cast_skill = λ bytes. none;
  object_die = λ bytes. some building;
  hero_move = λ bytes. none;
  cur_battle_info = λ bytes. some bytes;
  dfder_isready = λ bytes. some true;
  report_cur_state = λ bytes. some bytes;
  set_rallypoint = λ bytes. none;
  atker_stop_battle = λ bytes. some true;
}

-- A message of a player with an empty body; the number of its kind is given in two bytes.
abbrev message_of : ℕ → ℕ → Bytes
message_of uid low = 0 ∷ 0 ∷ uid ∷ 0 ∷ 0 ∷ 0 ∷ low ∷ 4 ∷ []

abbrev arrivals : List (ℕ × List Bytes)
arrivals =
    (1, message_of 5 32 ∷ [])
    ∷ (2, message_of 5 34 ∷ message_of 7 41 ∷ [])
    ∷ (3, message_of 5 44 ∷ message_of 5 8 ∷ [])
    ∷ []

abbrev quiet : Server ℕ
quiet = record { battle_maps = []; player_pairs = []; online_players = []; db = 0; sent = [] }

abbrev battle : BattleMap
battle = record {
  ticks = 12;
  attacker_id = 5;
  defender_id = 7;
  building_num = 50;
  died_building_num = 1;
  townhall_is_died = false;
  star_num = 0;
  atker_point = 40;
  dfder_point = 40;
  is_start = true;
  loot = record { wood = 0; stone = 9; ore = 0; concrete = 0 };
}

abbrev fighting : Server ℕ
fighting = record quiet { battle_maps = (7, battle) ∷ []; player_pairs = (5, 7) ∷ [] }

abbrev over : Server ℕ
over = record quiet { player_pairs = (5, 7) ∷ [] }

battle-IsFair : IsFair 7 battle
battle-IsFair = (refl, refl, omega arith, refl, refl, omega arith, omega arith)

fighting-IsFought : IsFought fighting
fighting-IsFought = ((battle-IsFair, tt), (tt, tt), tt)

run-IsFought_example :
    Handles
      (λ t. IsFought t.1)
      (Stops redis codec 99 arrivals ([], quiet))
      (run redis codec 99 arrivals ([], quiet))
run-IsFought_example =
    run-IsFought redis codec 99 arrivals ([], quiet) (λ bytes. omega arith) (tt, tt, tt)

-- The battle is over after 2988 more ticks.
lookup-updates_example : lookup 7 (updates redis 2988 fighting).battle_maps ≡ none
unfolding lookup
lookup-updates_example = lookup-updates redis 2988 7 fighting fighting-IsFought

lookup-start_attack_example :
    lookup 7 (start_attack redis 99 5 attack_7 quiet).battle_maps
    ≡ some (new_battle_map redis 5 7 0)
unfolding lookup defender_of
lookup-start_attack_example = lookup-start_attack redis 99 5 7 attack_7 quiet

dfder_isready-login_example :
    lookup 7 (dfder_isready 7 true (login redis 99 3 7 fighting)).battle_maps ≡ some battle
unfolding lookup
dfder_isready-login_example =
    dfder_isready-login redis 99 3 7 true battle fighting refl (ground arith)
