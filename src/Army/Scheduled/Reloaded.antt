-- ===== src/Army/Scheduled/Reloaded.antt =====
-- workers/small_map_worker/_army_build_queue_manager.cpp: a camp that was read from redis.
use cpp_framework.Prelude.{◌≡◌, true, false, not, nat_key, bytes_key}
use cpp_framework.Router.Returns.{Returns}
use cpp_framework.Army.State.{Game, is_empty}
use cpp_framework.Army.Scheduled.{AreArmed}
use cpp_framework.Army.Reload.{Reload}

module _ {Db : Type 0} (g : Game Db) where
  -- What holds of a camp between the rounds of the loop.
  pub record IsReloading (r : Reload Db) : Type 0 where
    pub armed : AreArmed g (r.tq).armys_queue
    pub waits : (r.tq).is_block ≡ false → (r.tq).waiting ≡ not (is_empty (r.tq).armys_queue)
    pub busy :
        r.insert_directly ≡ true → (r.tq).is_block ≡ false → is_empty (r.tq).armys_queue ≡ false
    pub idle : r.insert_directly ≡ false → is_empty (r.tq).armys_queue ≡ true
    pub quiet : is_empty (r.tq).armys_queue ≡ true → (r.tq).waiting ≡ false
