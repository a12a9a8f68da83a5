-- ===== src/Battle/Handled.antt =====
-- workers/pvp_worker/GameHandler.cpp: each message keeps the battles fair.
use cpp_framework.Prelude.{
  ◌≡◌, refl, ℕ, Bool, true, false, ◌&&◌, Option, none, some, ◌==◌, nat_key, Bytes, lookup,
  if◌then◌else◌, arith,
}
use cpp_framework.Router.Fault.{Fault, Result, ok, fault, ◌>>=◌}
use cpp_framework.Router.Returns.{OnSome, present}
use cpp_framework.Battle.State.{
  BattleMap, RedisClient, Message, Server, plus_died_building_num, send_to_player,
  is_attacker_or_defender, get_peer_uid,
}
use cpp_framework.Battle.Messages.{
  HeroCastSkill, ObjectDie, HeroMove, SetRallypoint, object_die_id, hero_move_id,
  atker_stop_battle_id,
}
use cpp_framework.Battle.Server.{
  hero_cast_skill, loot_of, plunder, townhall_died, building_died, object_die, hero_move, pass_on,
  begin_again, dfder_isready, set_rallypoint, end_battle, atker_stop_battle,
}
use cpp_framework.Battle.Fair.{IsFair, IsOutcome, IsFought, plus_died_building_num-IsFair}
use cpp_framework.Battle.Fought.{
  send_to_player-IsFought, store_battle_map-IsFought, found-IsFair, report_result-IsFought,
}

-- The value satisfies the predicate, or there is the cause of the fault.
pub data Handles {ℓ κ μ} {A : Type ℓ} (P : A → Type κ) (Cause : Fault → Type μ)
    : Result A → Type (ℓ ⊔ κ ⊔ μ) where
  handled : {a : A} → P a → Handles P Cause (ok a)
  stopped : {e : Fault} → Cause e → Handles P Cause (fault e)

module _ {ℓ κ μ ν ξ ο} {A : Type ℓ} {B : Type μ} {P : A → Type κ} {Q : B → Type ν}
    {Cause : Fault → Type ξ} {Later : Fault → Type ο} where
  pub Handles->>= :
      {r : Result A} {f : A → Result B}
      → Handles P Cause r
      → ((e : Fault) → Cause e → Later e)
      → ((a : A) → r ≡ ok a → P a → Handles Q Later (f a))
      → Handles Q Later (r >>= f)
  Handles->>= (handled {a = a} p) c k = k a refl p
  Handles->>= (stopped {e = e} p) c k = stopped (c e p)

module _ {ℓ κ ξ} {B : Type ℓ} {Q : B → Type κ} {Cause : Fault → Type ξ} where
  pub Handles-if :
      (c : Bool) {x y : Result B}
      → (c ≡ true → Handles Q Cause x)
      → (c ≡ false → Handles Q Cause y)
      → Handles Q Cause (if c then x else y)
  Handles-if true p q = p refl
  Handles-if false p q = q refl

-- The battle that a player takes part in is over.
pub data IsOver {Db : Type 0} (uid : ℕ) (s : Server Db) : Fault → Type 0 where
  no_battle :
      (get_peer_uid uid s == 0) ≡ false
      → lookup (get_peer_uid uid s) s.battle_maps ≡ none
      → IsOver uid s Fault.null_pointer

module _ {Db : Type 0} where
  pub hero_cast_skill-IsFought :
      (uid : ℕ) (m : HeroCastSkill) (s : Server Db)
      → IsFought s
      → IsFought (hero_cast_skill uid m s)
  unfolding hero_cast_skill
  hero_cast_skill-IsFought uid m s h =
      send_to_player-IsFought _ _ _ tt (send_to_player-IsFought _ uid s tt h)

  pub hero_move-IsFought :
      (uid : ℕ) (m : HeroMove) (s : Server Db) → IsFought s → IsFought (hero_move uid m s)
  unfolding hero_move
  hero_move-IsFought uid m s h =
      let peer = get_peer_uid uid s in
      let ack = Message.request_ack hero_move_id in
      let told =
        send_to_player-IsFought (Message.hero_move m.hero_id m.dst_x m.dst_y) peer
          (send_to_player ack uid s) tt (send_to_player-IsFought ack uid s tt h) in
      ground (arith, told)

  pub pass_on-IsFought :
      (uid : ℕ) (m : Message) (s : Server Db)
      → IsOutcome m
      → IsFought s
      → IsFought (pass_on uid m s)
  unfolding pass_on
  pass_on-IsFought uid m s o h =
      ground (arith, send_to_player-IsFought m (get_peer_uid uid s) s o h)

  pub begin_again-IsFought :
      (uid peer : ℕ) (is_ready : Bool) (o : Option BattleMap) (s : Server Db)
      → OnSome (IsFair uid) o
      → IsFought s
      → IsFought (begin_again uid peer is_ready o s)
  unfolding begin_again
  begin_again-IsFought uid peer is_ready none s f h = h
  begin_again-IsFought uid peer is_ready (some b) s (present f) h =
      send_to_player-IsFought _ peer _ tt (store_battle_map-IsFought uid _ s f h)

  pub dfder_isready-IsFought :
      (uid : ℕ) (is_ready : Bool) (s : Server Db)
      → IsFought s
      → IsFought (dfder_isready uid is_ready s)
  unfolding dfder_isready
  dfder_isready-IsFought uid is_ready s h =
      let again =
        begin_again-IsFought uid (get_peer_uid uid s) is_ready (lookup uid s.battle_maps) s
          (found-IsFair uid s h) h in
      ground (arith, again)

  pub set_rallypoint-IsFought :
      (uid : ℕ) (m : SetRallypoint) (s : Server Db) → IsFought s → IsFought (set_rallypoint uid m s)
  unfolding set_rallypoint
  set_rallypoint-IsFought uid m s h =
      send_to_player-IsFought _ _ _ tt (send_to_player-IsFought _ uid s tt h)

  pub end_battle-IsFought :
      (uid peer : ℕ) (o : Option BattleMap) (s : Server Db)
      → OnSome (IsFair peer) o
      → IsFought s
      → IsFought (end_battle uid peer o s)
  unfolding end_battle
  end_battle-IsFought uid peer none s f h = h
  end_battle-IsFought uid peer (some b) s (present f) h =
      report_result-IsFought (some b.loot) uid peer b s f h

  pub atker_stop_battle-IsFought :
      (uid : ℕ) (is_stop : Bool) (s : Server Db)
      → IsFought s
      → IsFought (atker_stop_battle uid is_stop s)
  unfolding atker_stop_battle
  atker_stop_battle-IsFought uid is_stop s h =
      let peer = get_peer_uid uid s in
      let ack = Message.request_ack atker_stop_battle_id in
      let stop = Message.atker_stop_battle is_stop in
      let t = send_to_player ack uid (send_to_player stop peer s) in
      let told =
        send_to_player-IsFought ack uid (send_to_player stop peer s) tt
          (send_to_player-IsFought stop peer s tt h) in
      end_battle-IsFought uid peer (lookup peer t.battle_maps) t (found-IsFair peer t told) told

loot_of-IsFair :
    (uid type : ℕ) (o : Option ℕ) (b : BattleMap) → IsFair uid b → IsFair uid (loot_of type o b)
unfolding loot_of
loot_of-IsFair uid type none b f = f
loot_of-IsFair uid type (some amount) b f = f

townhall_died-IsFair :
    (uid : ℕ) (died : Bool) (b : BattleMap) → IsFair uid b → IsFair uid (townhall_died died b)
unfolding townhall_died
townhall_died-IsFair uid false b f = f
townhall_died-IsFair uid true b f = f

pub caused :
    {A : Type 0} {P : A → Type 0} {Cause Later : Fault → Type 0} {r : Result A}
    → Handles P Cause r
    → ((e : Fault) → Cause e → Later e)
    → Handles P Later r
caused (handled p) c = handled p
caused (stopped {e = e} p) c = stopped (c e p)

module _ {Db : Type 0} (redis : RedisClient Db) where
  plunder-IsFair :
      (uid peer : ℕ) (object : Bytes) (type : Option ℕ) (db : Db) (b : BattleMap)
      → IsFair uid b
      → IsFair uid (plunder redis peer object type db b)
  unfolding plunder
  plunder-IsFair uid peer object none db b f = f
  plunder-IsFair uid peer object (some type) db b f =
      ground (arith, loot_of-IsFair uid type (redis.building_cur_res peer object db) b f)

  pub building_died-IsFought :
      (peer : ℕ) (m : ObjectDie) (o : Option BattleMap) (s : Server Db)
      → OnSome (IsFair peer) o
      → IsFought s
      → Handles IsFought
          (λ e. (e ≡ Fault.null_pointer) × (o ≡ none))
          (building_died redis peer m o s)
  unfolding building_died
  building_died-IsFought peer m none s f h = stopped (refl, refl)
  building_died-IsFought peer m (some b) s (present f) h =
      let c = townhall_died m.is_townhall b in
      let fair =
        plus_died_building_num-IsFair peer c (townhall_died-IsFair peer m.is_townhall b f) in
      let type = redis.building_type peer m.object_id s.db in
      handled (
        store_battle_map-IsFought peer _ s
          (plunder-IsFair peer peer m.object_id type s.db (plus_died_building_num c) fair) h)

  pub object_die-IsFought :
      (uid : ℕ) (m : ObjectDie) (s : Server Db)
      → IsFought s
      → Handles IsFought (IsOver uid s) (object_die redis uid m s)
  unfolding object_die send_to_player
  object_die-IsFought uid m s h =
      let peer = get_peer_uid uid s in
      let died = Message.object_die m.object_id m.is_building in
      let ack = Message.request_ack object_die_id in
      let t = send_to_player ack uid (send_to_player died peer s) in
      let u = record t { db = redis.set_soldier_die peer m.object_id t.db } in
      let told =
        send_to_player-IsFought ack uid (send_to_player died peer s) tt
          (send_to_player-IsFought died peer s tt h) in
      let razed =
        building_died-IsFought peer m (lookup peer u.battle_maps) u (found-IsFair peer u told)
          told in
      Handles-if (peer == 0) (λ _. handled h)
        λ some_peer.
          Handles-if ((is_attacker_or_defender uid u == 2) && m.is_building)
            (λ _. caused razed λ e c. rw (c.0) (no_battle some_peer c.1)) λ _. handled told
