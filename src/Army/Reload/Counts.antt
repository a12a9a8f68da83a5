-- ===== src/Army/Reload/Counts.antt =====
-- workers/small_map_worker/_army_build_queue_manager.cpp: how many soldiers an entry of redis builds.
use cpp_framework.Prelude.{
  ℕ, zero, suc, ◌+◌, ◌*◌, ◌^◌, ◌≤◌, ◌<◌, ◌≡◌, refl, false, ◌||◌, Option, some, ◌==◌, nat_key, ltb,
  arith,
}
use cpp_framework.Router.Fault.{Result}
use cpp_framework.Router.Returns.{
  Returns, returns, Returns->>=, Returns-weaken, Returns-if, or_fault-Returns,
}
use cpp_framework.Army.State.{SoldierInfoRequest, Arms, Game, Player, arms_at}
use cpp_framework.Army.Queue.{insert_to_builded}
use cpp_framework.Army.Reload.{
  Reload, reload_rounds, after_insert, reload_soldier, reload_soldiers, reload_entry,
}

reload_rounds-short : (n : ℕ) → n < 2 ^ 15 → reload_rounds n ≡ suc n
unfolding reload_rounds
reload_rounds-short n h = ground (arith, h)

after_insert-goes :
    {Db : Type 0}
    → (g : Game Db) (now : ℕ) (P : Reload Db → Type 0) (left : SoldierInfoRequest) (soldier_id : ℕ)
      (o : Option ℕ × Player Db) (q : Player Db) (r : Reload Db)
      (next : Reload Db → Result (Reload Db))
    → o ≡ (some soldier_id, q)
    → Returns P (next (record r { tq = record (r.tq) { is_block = false }; player = q }))
    → Returns P (after_insert g now left o r next)
unfolding after_insert
after_insert-goes g now P left soldier_id o q r next e h = rw e h

module _ {Db : Type 0} (g : Game Db) (built : Db → ℕ) where
  -- The database has room for every soldier, and counts it.
  unfoldable pub HasRoom : Type 0
  HasRoom =
      (soldier_type soldier_level population : ℕ) (db : Db)
      → (soldier_id : ℕ) × (more : Db) × (g.insert_to_builded soldier_type soldier_level population
            db
          ≡ (some soldier_id, more))
        × (built more ≡ suc (built db))

  -- So many soldiers more are built than at the start, and none is queued.
  abbrev pub HasBuilt : ℕ → ℕ → Reload Db → Reload Db → Type 0
  HasBuilt n build_time r t =
      (built (t.player).db ≡ built (r.player).db + n)
      × (t.begun ≡ r.begun + n * build_time)
      × ((t.tq).armys_queue ≡ (r.tq).armys_queue)

  module _ (now : ℕ) (room : HasRoom) where
    insert_to_builded-room :
        (soldier_type soldier_level : ℕ) (a : Arms) (p : Player Db)
        → arms_at g soldier_type soldier_level ≡ some a
        → (soldier_id : ℕ) × (q : Player Db) × (insert_to_builded g now soldier_type soldier_level p
            ≡ (some soldier_id, q))
          × (built q.db ≡ suc (built p.db))
    unfolding insert_to_builded HasRoom
    insert_to_builded-room t l a p e =
        let r = room t l a.population p.db in
        (r.0, record p { db = r.1 }, ground (arith, e, r.2), r.3)

    reload_soldiers-HasBuilt :
        (n : ℕ) (sir : SoldierInfoRequest) (a : Arms) (r : Reload Db)
        → arms_at g sir.soldier_type sir.soldier_level ≡ some a
        → r.begun + n * a.build_time ≤ now
        → Returns (HasBuilt n a.build_time r) (reload_soldiers g now n sir r)
    unfolding reload_soldiers reload_soldier
    reload_soldiers-HasBuilt zero sir a r e h = returns (ground (arith), ground (arith), refl)
    reload_soldiers-HasBuilt (suc n) sir a r e h = Returns->>= (or_fault-Returns _ _ a e) λ b same.
        rw same (
          Returns-if (ltb now (r.begun + a.build_time)) (λ c. absurd (ground (arith, c, h)))
            λ _.
              let i = insert_to_builded-room sir.soldier_type sir.soldier_level a r.player e in
              after_insert-goes g now _ _ i.0 _ i.1 _ _ i.2 (
                Returns-weaken (reload_soldiers-HasBuilt n sir a _ e (ground (arith, h)))
                  λ t w. (ground (arith, w.0, i.3), ground (arith, w.1), w.2)))

    -- An entry of n soldiers, more than none and within a short, whose soldiers and one more are due
    -- before now, of soldiers that the map of arms has: it builds n + 1 soldiers and takes the time of
    -- so many, and queues nothing, when no entry before it was queued and the database has room.
    pub reload_entry-HasBuilt :
        (sir : SoldierInfoRequest) (a : Arms) (r : Reload Db)
        → arms_at g sir.soldier_type sir.soldier_level ≡ some a
        → 0 < sir.soldier_type
        → 0 < sir.soldier_level
        → 0 < sir.soldier_num
        → sir.soldier_num < 2 ^ 15
        → r.insert_directly ≡ false
        → r.begun + suc sir.soldier_num * a.build_time ≤ now
        → Returns (HasBuilt (suc sir.soldier_num) a.build_time r) (reload_entry g now sir r)
    unfolding reload_entry reload_rounds
    reload_entry-HasBuilt sir a r e t l s small d h =
        Returns-if ((sir.soldier_type == 0) || ((sir.soldier_level == 0) || (sir.soldier_num == 0)))
          (λ c. absurd (ground (arith, c, t, l, s)))
          λ _.
            Returns-if r.insert_directly (λ c. absurd (ground (arith, c, d)))
              λ _.
                rw (reload_rounds-short sir.soldier_num small)
                  (reload_soldiers-HasBuilt (suc sir.soldier_num) sir a r e h)
