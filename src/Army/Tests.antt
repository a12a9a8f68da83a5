-- ===== src/Army/Tests.antt =====
-- workers/small_map_worker: a small configuration and a few events for the build queues.
use cpp_framework.Prelude.{
  suc, ℕ, ◌+◌, true, none, some, List, [], ◌∷◌, codes, false, bytes_key, ltb, if◌then◌else◌,
}
use cpp_framework.Prelude.{◌≡◌, refl, arith}
use cpp_framework.Router.Fault.{ok}
use cpp_framework.Army.Restored.{AreCounted, unqueue_soldiers-queue_soldiers}
use cpp_framework.Army.State.{
  TimerQueue, new_timer_queue, Operation, SoldierInfoRequest, Arms, Game, Player, arms_at,
}
use cpp_framework.Army.Queue.{queue_soldiers, unqueue_soldiers, soldier_is_unlock}
use cpp_framework.Army.Complete.{Event, run_player}
use cpp_framework.Router.Returns.{Returns, returns}
use cpp_framework.Army.Scheduled.{AreScheduled}
use cpp_framework.Army.Reload.{reload_entry}
use cpp_framework.Army.Reload.Counts.{HasRoom, HasBuilt, reload_entry-HasBuilt}
use cpp_framework.Army.Scheduled.Handlers.{HasLimits, run_player-AreScheduled}

abbrev militia : Arms
militia = record {
  need_wood = 10;
  need_stone = 4;
  need_iron = 0;
  need_soil = 2;
  population = 1;
  build_time = 20;
}

-- The databases' state is the number of soldiers that were built; five fit.
abbrev five_fit : Game ℕ
five_fit = record {
  arms = [] ∷ (militia ∷ militia ∷ []) ∷ [];
  combat_union_limit = [];
  man_player_resources = λ kind amount built. (true, built);
  get_player_resources = λ built. [];
  insert_to_builded =
      λ t l population built. if ltb built 5 then (some built, built + 1) else (none, built);
  combat_union_uid = λ built. [];
  sub_diamond = λ n built. (true, built);
  save = λ camp time queue block built. built;
  atoi = λ text. 0;
  special_seconds = 0;
}

abbrev two_militia : SoldierInfoRequest
two_militia = record {
  soldier_type = 1;
  soldier_level = 1;
  soldier_num = 2;
  which_camp = codes "camp";
  operation = Operation.add;
}

abbrev nobody : Player ℕ
nobody = record { camp_queue = []; db = 0; sent = [] }

abbrev events : List (ℕ × Event)
events =
    (100, Event.requests two_militia)
    ∷ (120, Event.time_up (codes "camp"))
    ∷ (130, Event.asks)
    ∷ (140, Event.completes (codes "camp"))
    ∷ (150, Event.requests (record two_militia { operation = Operation.del }))
    ∷ []

five_fit-HasLimits : HasLimits five_fit
unfolding HasLimits soldier_is_unlock
five_fit-HasLimits now soldier_type soldier_level a p h = returns tt

run_player-AreScheduled_example :
    Returns (λ q. AreScheduled five_fit q.camp_queue) (run_player five_fit events nobody)
run_player-AreScheduled_example =
    run_player-AreScheduled five_fit events nobody five_fit-HasLimits (unfold AreScheduled in tt)

abbrev building : TimerQueue
building = record new_timer_queue {
  expires = some 120;
  waiting = true;
  begin_build_time = some 100;
  armys_queue = two_militia ∷ [];
}

unqueue_soldiers-queue_soldiers_example :
    (tq : TimerQueue) × (queue_soldiers five_fit 105 two_militia building ≡ ok tq)
    × (unqueue_soldiers five_fit 110 two_militia tq ≡ ok (some building))
unqueue_soldiers-queue_soldiers_example =
    unqueue_soldiers-queue_soldiers five_fit 105 110 two_militia two_militia [] building refl
      (unfold AreCounted in ((omega arith, omega arith), tt)) (omega arith)

-- The databases of a game in which every soldier fits.
abbrev all_fit : Game ℕ
all_fit = record five_fit { insert_to_builded = λ t l population built. (some built, suc built) }

reload_entry-HasBuilt_example :
    Returns
      (HasBuilt all_fit
        (λ built. built)
        3
        20
        (record { begun = 100; insert_directly = false; tq = new_timer_queue; player = nobody }))
      (reload_entry all_fit 160 two_militia
        (record { begun = 100; insert_directly = false; tq = new_timer_queue; player = nobody }))
reload_entry-HasBuilt_example =
    reload_entry-HasBuilt all_fit (λ built. built) 160
      (unfold HasRoom in λ t l population db. (db, suc db, refl, refl)) two_militia militia _
      (unfold arms_at in refl) (omega arith) (omega arith) (omega arith) (omega arith) refl
      (omega arith)
