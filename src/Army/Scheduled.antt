-- ===== src/Army/Scheduled.antt =====
-- workers/small_map_worker/_army_build_queue_manager.cpp: the timer of a camp waits exactly while
-- soldiers are queued, whatever happens to the camp.
pub mod Queues
pub mod Handlers
pub mod Reloaded
use cpp_framework.Prelude.{
  ℕ, ◌≡◌, refl, Bool, true, false, not, Option, none, some, List, [], ◌∷◌, Dict, Bytes,
  if◌then◌else◌, arith,
}
use cpp_framework.Router.Fault.{Fault, Result, ok, ◌>>=◌, or_fault}
use cpp_framework.Army.State.{SoldierInfoRequest, TimerQueue, Arms, Game, Player, is_empty, arms_at}

module _ {Db : Type 0} (g : Game Db) where
  -- Every entry is of soldiers that the configuration has.
  unfoldable pub AreArmed : List SoldierInfoRequest → Type 0
  AreArmed [] = Unit
  AreArmed (sir ∷ rest) =
      ((a : Arms) × (arms_at g sir.soldier_type sir.soldier_level ≡ some a)) × AreArmed rest

  pub record IsScheduled (tq : TimerQueue) : Type 0 where
    pub waits : tq.waiting ≡ not (is_empty tq.armys_queue)
    pub armed : AreArmed tq.armys_queue

  unfoldable pub AreScheduled : Dict Bytes TimerQueue → Type 0
  AreScheduled [] = Unit
  AreScheduled ((camp, tq) ∷ rest) = IsScheduled tq × AreScheduled rest
