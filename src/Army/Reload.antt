-- ===== src/Army/Reload.antt =====
-- workers/small_map_worker/_army_build_queue_manager.cpp: `newTimerQueueFromRedis`. The text of redis is
-- taken apart before: the entries are those of the loop, in its order.
pub mod Counts
use cpp_framework.Prelude.{
  ℕ, zero, suc, ◌+◌, ◌^◌, Bool, true, false, ◌||◌, Option, none, some, List, [], ◌∷◌, ◌==◌, nat_key,
  bytes_key, Bytes, assign, if◌then◌else◌, ltb,
}
use cpp_framework.Router.Fault.{Fault, Result, ok, ◌>>=◌, or_fault}
use cpp_framework.Army.State.{
  SoldierInfoRequest, TimerQueue, Arms, Game, Player, new_timer_queue, is_empty, arms_at,
}
use cpp_framework.Army.Queue.{push_back, register_time, insert_to_builded}

-- `td` is the time from `begun` to now; `insert_directly` is `mark_insert_directly`.
pub record Reload (Db : Type 0) : Type 0 where
  pub begun : ℕ
  pub insert_directly : Bool
  pub tq : TimerQueue
  pub player : Player Db

-- The rounds of `for (; soldier_num >= 0;)`: one more than the soldiers.
unfoldable pub reload_rounds : ℕ → ℕ
reload_rounds soldier_num = if ltb soldier_num (2 ^ 15) then suc soldier_num else 0

module _ {Db : Type 0} (g : Game Db) (now : ℕ) where
  -- The entry is not due yet: its timer starts.
  unfoldable pub wait_for : SoldierInfoRequest → Reload Db → Result (Reload Db)
  wait_for sir r = do
    tq ← register_time g now (some r.begun) 0 (push_back sir r.tq)
    ok (record r { insert_directly = true; tq = tq })

  -- Where there is no room for a soldier the rest of the entry waits.
  unfoldable pub after_insert :
      SoldierInfoRequest
      → Option ℕ × Player Db
      → Reload Db
      → (Reload Db → Result (Reload Db))
      → Result (Reload Db)
  after_insert left (none, p) r next = ok (record r {
    insert_directly = true;
    tq = push_back left (record (r.tq) { is_block = true });
    player = p;
  })
  after_insert left (some soldier_id, p) r next =
      next (record r { tq = record (r.tq) { is_block = false }; player = p })

  unfoldable pub reload_soldier :
      SoldierInfoRequest → Arms → Reload Db → (Reload Db → Result (Reload Db)) → Result (Reload Db)
  reload_soldier left a r next =
      if ltb now (r.begun + a.build_time)
      then wait_for left r
      else after_insert left (insert_to_builded g now left.soldier_type left.soldier_level r.player)
          (record r { begun = r.begun + a.build_time }) next

  unfoldable pub reload_soldiers : ℕ → SoldierInfoRequest → Reload Db → Result (Reload Db)
  reload_soldiers zero sir r = ok r
  reload_soldiers (suc n) sir r =
      or_fault Fault.bad_iterator (arms_at g sir.soldier_type sir.soldier_level) >>= λ a.
      reload_soldier (record sir { soldier_num = n }) a r (reload_soldiers n sir)

  unfoldable pub reload_entry : SoldierInfoRequest → Reload Db → Result (Reload Db)
  reload_entry sir r =
      if (sir.soldier_type == 0) || ((sir.soldier_level == 0) || (sir.soldier_num == 0))
      then ok r
      else if r.insert_directly
      then ok (record r { tq = push_back sir r.tq })
      else reload_soldiers (reload_rounds sir.soldier_num) sir r

  unfoldable pub reload_entries : List SoldierInfoRequest → Reload Db → Result (Reload Db)
  reload_entries [] r = ok r
  reload_entries (sir ∷ entries) r = reload_entry sir r >>= λ t. reload_entries entries t

  unfoldable pub reload_end : TimerQueue → Result TimerQueue
  reload_end tq = if tq.is_block then register_time g now (some now) 30 tq else ok tq

  -- The time of redis, whether the camp is blocked, and its entries.
  unfoldable pub new_timer_queue_from_redis :
      Bytes → ℕ → Bool → List SoldierInfoRequest → Player Db → Result (Player Db)
  new_timer_queue_from_redis camp_id last is_block entries p =
      let start : Reload Db = record {
        begun = last;
        insert_directly = is_block;
        tq = record new_timer_queue { is_block = is_block };
        player = p;
      } in
      if is_empty camp_id
      then ok p
      else reload_entries entries start >>= λ r. reload_end r.tq >>= λ tq.
          ok (record (r.player) { camp_queue = assign camp_id tq (r.player).camp_queue })
