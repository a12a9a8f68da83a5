-- ===== src/Army/Complete.antt =====
-- workers/small_map_worker/_army_build_queue_manager.cpp: `completeAtOnce`, `getCampInfo` and the
-- destructor, and the loop over what happens to one player's camps.
use cpp_framework.Prelude.{
  widen, int_mul, int_sub, int_div, ℕ, ◌+◌, ◌-◌, ◌%◌, ◌^◌, zero, suc, Bool, true, false, none, some,
  List, [], ◌∷◌, ◌++◌, bytes_key, Bytes, Dict, lookup, if◌then◌else◌, leb, ltb,
}
use cpp_framework.Router.Fault.{Fault, Result, ok, ◌>>=◌, or_fault}
use cpp_framework.Army.State.{
  SoldierInfoRequest, Operation, Time, TimerQueue, Soldier, Response, Game, Player, plus, arms_at,
  store_camp, send_to_player,
}
use cpp_framework.Army.Queue.{
  cancel_timer, insert_to_builded, write_into_redis, add_soldiers, del_soldiers, time_is_up,
}

-- `(now - begin).seconds()`: the seconds that do not make a whole minute.
unfoldable pub seconds_since : ℕ → ℕ → Time → ℕ
seconds_since special now none = special
seconds_since special now (some t) =
    if leb t now then (now - t) % 60 else (2 ^ 32 - (t - now) % 60) % 2 ^ 32

-- The rounds of `for (int i = 0; i < soldier_num; i++)`.
unfoldable pub rounds : ℕ → ℕ
rounds soldier_num = if ltb soldier_num (2 ^ 15) then soldier_num else 0

module _ {Db : Type 0} (g : Game Db) (now : ℕ) where
  unfoldable pub build_total_second : List SoldierInfoRequest → ℕ → Result ℕ
  build_total_second [] total = ok total
  build_total_second (sir ∷ rest) total =
      or_fault Fault.bad_iterator (arms_at g sir.soldier_type sir.soldier_level) >>= λ a.
      build_total_second rest ((total + int_mul (widen sir.soldier_num) a.build_time) % 2 ^ 32)

  unfoldable pub diamonds : TimerQueue → ℕ → ℕ
  diamonds tq total =
      let accelerate_time =
        int_sub total (seconds_since g.special_seconds now tq.begin_build_time) in
      (int_div accelerate_time 300 + 1) % 2 ^ 32

  -- One entry's soldiers; the first that is refused ends the loop.
  unfoldable pub build_soldiers : ℕ → SoldierInfoRequest → Player Db → List Soldier × Player Db
  build_soldiers zero sir p = ([], p)
  build_soldiers (suc n) sir p =
      let r = insert_to_builded g now sir.soldier_type sir.soldier_level p in
      let rest = build_soldiers n sir r.1 in
      elim r.0 [
        | none ↦ ([], r.1)
        | some soldier_id ↦ (
          record { category = sir.soldier_type; level = sir.soldier_level; sid = soldier_id }
              ∷ rest.0,
          rest.1,
        )
      ]

  unfoldable pub build_all : List SoldierInfoRequest → Player Db → List Soldier × Player Db
  build_all [] p = ([], p)
  build_all (sir ∷ queue) p =
      let r = build_soldiers (rounds sir.soldier_num) sir p in
      let rest = build_all queue r.1 in (r.0 ++ rest.0, rest.1)

  unfoldable pub cleared : TimerQueue → TimerQueue
  cleared tq = record (cancel_timer tq) {
    armys_queue = [];
    begin_build_time = some now;
    is_block = false;
  }

  unfoldable pub pay : Bytes → TimerQueue → ℕ → Bool × Db → Player Db → Player Db
  unfolding cleared
  pay which_camp tq diamond_to_sub (false, db) p =
      send_to_player (Response.complete_response which_camp 0 []) (record p { db = db })
  pay which_camp tq diamond_to_sub (true, db) p =
      let r = build_all tq.armys_queue (record p { db = db }) in
      send_to_player (Response.complete_response which_camp diamond_to_sub r.0)
        (write_into_redis g now which_camp (cleared tq) (store_camp which_camp (cleared tq) r.1))

  unfoldable pub complete_in : Bytes → TimerQueue → Player Db → Result (Player Db)
  unfolding pay
  complete_in which_camp tq p = build_total_second tq.armys_queue 0 >>= λ total.
      ok (pay which_camp tq (diamonds tq total) (g.sub_diamond (diamonds tq total) p.db) p)

  -- A camp that is not there ends the call.
  unfoldable pub complete_at_once : Bytes → Player Db → Result (Player Db)
  complete_at_once which_camp p = elim (lookup which_camp p.camp_queue) [
    | none ↦ ok p
    | some tq ↦ complete_in which_camp tq p
  ]

  unfoldable pub get_soldiers_vector : List SoldierInfoRequest → List (ℕ × ℕ × ℕ)
  get_soldiers_vector [] = []
  get_soldiers_vector (sir ∷ rest) =
      (sir.soldier_type, sir.soldier_level, sir.soldier_num) ∷ get_soldiers_vector rest

  remaining : Time → ℕ
  remaining none = g.special_seconds
  remaining (some t) =
      if leb now t then (t - now) % 2 ^ 32 else (2 ^ 32 - (now - t) % 2 ^ 32) % 2 ^ 32

  -- `time_remain`, for a camp that is there.
  unfoldable pub time_remain : TimerQueue → Result ℕ
  unfolding remaining
  time_remain tq = elim tq.armys_queue [
    | [] ↦ ok 0
    | sir ∷ rest ↦
        if tq.is_block
        then ok 0
        else or_fault Fault.bad_iterator (arms_at g sir.soldier_type sir.soldier_level) >>= λ a.
            ok (remaining (plus tq.begin_build_time a.build_time))
  ]

  unfoldable pub camp_infos : Dict Bytes TimerQueue → Result (Dict Bytes (List (ℕ × ℕ × ℕ) × ℕ))
  camp_infos [] = ok []
  camp_infos ((camp, tq) ∷ rest) = time_remain tq >>= λ time.
      camp_infos rest >>= λ infos. ok ((camp, (get_soldiers_vector tq.armys_queue, time)) ∷ infos)

  unfoldable pub get_camp_info : Player Db → Result (Player Db)
  get_camp_info p =
      camp_infos p.camp_queue >>= λ infos. ok (send_to_player (Response.camp_info_response infos) p)

  -- The destructor: every timer is cancelled and every queue is written.
  unfoldable pub save_camps : Dict Bytes TimerQueue → Player Db → Player Db
  save_camps [] p = p
  save_camps ((camp, tq) ∷ rest) p =
      save_camps rest
        (write_into_redis g now camp (cancel_timer tq) (store_camp camp (cancel_timer tq) p))

-- What happens to a player's camps, each with what the clock says.
pub data Event : Type 0 where
  requests : SoldierInfoRequest → Event
  completes : Bytes → Event
  time_up : Bytes → Event
  asks : Event

module _ {Db : Type 0} (g : Game Db) where
  -- `requestProcess`, for a player who has queues.
  unfoldable pub request_process :
      ℕ → Operation → SoldierInfoRequest → Player Db → Result (Player Db)
  request_process now Operation.add info p = add_soldiers g now info p
  request_process now Operation.del info p = del_soldiers g now info p
  request_process now Operation.nothing info p = ok p

  unfoldable pub handle : ℕ → Event → Player Db → Result (Player Db)
  handle now (Event.requests info) p = request_process now info.operation info p
  handle now (Event.completes camp) p = complete_at_once g now camp p
  handle now (Event.time_up camp) p = time_is_up g now camp p
  handle now Event.asks p = get_camp_info g now p

  unfoldable pub run_player : List (ℕ × Event) → Player Db → Result (Player Db)
  run_player [] p = ok p
  run_player ((now, event) ∷ events) p = handle now event p >>= λ p'. run_player events p'
