-- ===== src/Army/State.antt =====
-- workers/small_map_worker/_army_build_queue_manager.h: what a player's build queues hold, and what
-- they ask of the databases. A `short` and an `int` are the natural numbers of their bits.
use cpp_framework.Prelude.{
  ℕ, ◌+◌, ◌^◌, Bool, true, false, ◌&&◌, Option, none, some, List, [], ◌∷◌, nat_key, bytes_key,
  Bytes, Dict, lookup, modify, get_elem?, if◌then◌else◌, ltb,
}
use cpp_framework.Router.Fault.{Fault, Result, or_fault}

pub data Operation : Type 0 where
  del nothing add : Operation

pub record SoldierInfoRequest : Type 0 where
  pub soldier_type : ℕ
  pub soldier_level : ℕ
  pub soldier_num : ℕ
  pub which_camp : Bytes
  pub operation : Operation

-- `not_a_date_time` is `none`; other times are seconds.
abbrev pub Time : Type 0
Time = Option ℕ

-- `waiting`: a call of `timeIsUp` is pending on the timer.
pub record TimerQueue : Type 0 where
  pub expires : Time
  pub waiting : Bool
  pub begin_build_time : Time
  pub armys_queue : List SoldierInfoRequest
  pub is_block : Bool

-- What the build queue reads of an `ArmsResponse`.
pub record Arms : Type 0 where
  pub need_wood : ℕ
  pub need_stone : ℕ
  pub need_iron : ℕ
  pub need_soil : ℕ
  pub population : ℕ
  pub build_time : ℕ

-- wood, stone, iron and concrete
pub record Resources : Type 0 where
  pub wood : ℕ
  pub stone : ℕ
  pub iron : ℕ
  pub concrete : ℕ

pub record Soldier : Type 0 where
  pub category : ℕ
  pub level : ℕ
  pub sid : ℕ

-- The messages that `SendToPlayer` takes.
pub data Response : Type 0 where
  process_response : SoldierInfoRequest → Bool → Resources → Response
  time_is_up_response : SoldierInfoRequest → ℕ → Response
  complete_response : Bytes → ℕ → List Soldier → Response
  camp_info_response : Dict Bytes (List (ℕ × ℕ × ℕ) × ℕ) → Response

-- What the two databases, the configuration and the C library answer; `Db` is the databases' state.
-- `save` writes a camp's queue under its key.
pub record Game (Db : Type 0) : Type 0 where
  pub arms : List (List Arms)
  pub combat_union_limit : List (List ℕ)
  pub man_player_resources : ℕ → Resources → Db → Bool × Db
  pub get_player_resources : Db → List Bytes
  pub insert_to_builded : ℕ → ℕ → ℕ → Db → Option ℕ × Db
  pub combat_union_uid : Db → Bytes
  pub sub_diamond : ℕ → Db → Bool × Db
  pub save : Bytes → Time → List SoldierInfoRequest → Bool → Db → Db
  pub atoi : Bytes → ℕ
  pub special_seconds : ℕ

-- The build queues of one player, the databases, and the messages that were sent, last first.
pub record Player (Db : Type 0) : Type 0 where
  pub camp_queue : Dict Bytes TimerQueue
  pub db : Db
  pub sent : List Response

abbrev pub new_timer_queue : TimerQueue
new_timer_queue = record {
  expires = none;
  waiting = false;
  begin_build_time = none;
  armys_queue = [];
  is_block = false;
}

unfoldable pub plus : Time → ℕ → Time
plus none n = none
plus (some t) n = some (t + n)

abbrev pub is_empty {ℓ} : {A : Type ℓ} → List A → Bool
is_empty [] = true
is_empty (x ∷ xs) = false

module _ {Db : Type 0} where
  -- `_arms[soldier_type][soldier_level]`, within the bounds that the code tests.
  unfoldable pub arms_at : Game Db → ℕ → ℕ → Option Arms
  arms_at g soldier_type soldier_level =
      if ltb soldier_type (2 ^ 15) && ltb soldier_level (2 ^ 15)
      then elim (get_elem? g.arms soldier_type) [
        | none ↦ none
        | some levels ↦ get_elem? levels soldier_level
      ]
      else none

  -- `camp_queue[which_camp]->...`
  unfoldable pub load_camp : Player Db → Bytes → Result TimerQueue
  load_camp p which_camp = or_fault Fault.null_pointer (lookup which_camp p.camp_queue)

  unfoldable pub store_camp : Bytes → TimerQueue → Player Db → Player Db
  store_camp which_camp tq p = record p { camp_queue = modify which_camp (λ _. tq) p.camp_queue }

  unfoldable pub send_to_player : Response → Player Db → Player Db
  send_to_player res p = record p { sent = res ∷ p.sent }
