-- ===== src/Army/Scheduled/Handlers.antt =====
-- workers/small_map_worker/_army_build_queue_manager.cpp: no request, no timer and no order in which
-- they come leaves a camp with soldiers and no timer, and none of them goes wrong.
use mathlib.Core.Path.{subst}
use cpp_framework.Prelude.{
  ℕ, zero, suc, ◌≡◌, refl, Bool, true, false, Option, none, some, List, [], ◌∷◌, Bytes, bytes_key,
  Dict, lookup, arith,
}
use cpp_framework.Router.Fault.{Fault, or_fault}
use cpp_framework.Army.State.{
  Operation, SoldierInfoRequest, TimerQueue, Arms, Resources, Game, Player, arms_at, load_camp,
  store_camp, send_to_player,
}
use cpp_framework.Army.Queue.{
  cancel_timer, insert_to_builded, write_camp, send_process_result_to_user,
  send_soldier_is_complete, write_into_redis, man_resources, soldier_is_unlock, paid, buy_soldiers,
  add_soldiers, give_back, del_from_camp, del_soldiers, soldier_built, time_is_up_in, time_is_up,
}
use cpp_framework.Army.Complete.{
  build_total_second, build_soldiers, build_all, cleared, pay, complete_in, complete_at_once,
  time_remain, camp_infos, get_camp_info, Event, request_process, handle, run_player, rounds,
}
use cpp_framework.Router.Returns.{
  Returns, returns, Returns->>=, Returns-if, Returns-list, Returns-option, OnSome, absent, present,
  or_fault-Returns,
}
use cpp_framework.Army.Scheduled.{AreArmed, IsScheduled, AreScheduled}
use cpp_framework.Army.Scheduled.Queues.{
  lookup-AreScheduled, modify-AreScheduled, insert-AreScheduled, queue_soldiers-IsScheduled,
  unqueue_soldiers-IsScheduled, lookup-insert_new, built-IsScheduled, blocked-IsScheduled,
}

module _ {Db : Type 0} (g : Game Db) where
  -- Every soldier of the configuration has a limit in the table.
  unfoldable pub HasLimits : Type 0
  HasLimits =
      (now soldier_type soldier_level : ℕ) (a : Arms) (p : Player Db)
      → arms_at g soldier_type soldier_level ≡ some a
      → Returns (λ _. Unit {0}) (soldier_is_unlock g now soldier_type soldier_level p)

  abbrev pub Holds : Player Db → Type 0
  Holds p = AreScheduled g p.camp_queue

  module _ (now : ℕ) where
    camps-send_process_result_to_user :
        (info : SoldierInfoRequest) (status : Bool) (r : Resources) (p : Player Db)
        → (send_process_result_to_user g now info status r p).camp_queue ≡ p.camp_queue
    unfolding send_process_result_to_user send_to_player
    camps-send_process_result_to_user info status r p =
        elim (lookup info.which_camp p.camp_queue)
          as (λ o. (write_camp g now info.which_camp o p).camp_queue ≡ p.camp_queue) [
            | none ↦ unfold write_camp in refl
            | some tq ↦ unfold write_camp write_into_redis in refl
          ]

    camps-insert_to_builded :
        (soldier_type soldier_level : ℕ) (p : Player Db)
        → (insert_to_builded g now soldier_type soldier_level p).1.camp_queue ≡ p.camp_queue
    unfolding insert_to_builded
    camps-insert_to_builded soldier_type soldier_level p = ground arith

    camps-build_soldiers :
        (n : ℕ) (sir : SoldierInfoRequest) (p : Player Db)
        → (build_soldiers g now n sir p).1.camp_queue ≡ p.camp_queue
    unfolding build_soldiers
    camps-build_soldiers zero sir p = refl
    camps-build_soldiers (suc n) sir p = ground (
      arith,
      camps-insert_to_builded sir.soldier_type sir.soldier_level p,
      camps-build_soldiers n sir (insert_to_builded g now sir.soldier_type sir.soldier_level p).1,
    )

    camps-build_all :
        (queue : List SoldierInfoRequest) (p : Player Db)
        → (build_all g now queue p).1.camp_queue ≡ p.camp_queue
    unfolding build_all
    camps-build_all [] p = refl
    camps-build_all (sir ∷ queue) p = ground (
      arith,
      camps-build_soldiers (rounds sir.soldier_num) sir p,
      camps-build_all queue (build_soldiers g now (rounds sir.soldier_num) sir p).1,
    )

    sent-Holds :
        (info : SoldierInfoRequest) (status : Bool) (r : Resources) (p : Player Db)
        → Holds p
        → Holds (send_process_result_to_user g now info status r p)
    sent-Holds info status r p v = rw (camps-send_process_result_to_user info status r p) v

    store_camp-Holds :
        (camp : Bytes) (tq : TimerQueue) (p : Player Db)
        → IsScheduled g tq
        → Holds p
        → Holds (store_camp camp tq p)
    unfolding store_camp
    store_camp-Holds camp tq p t v = modify-AreScheduled g camp p.camp_queue tq v t

    or_fault-IsScheduled :
        (o : Option TimerQueue) (f : (tq : TimerQueue) × (o ≡ some tq))
        → IsScheduled g f.0
        → Returns (IsScheduled g) (or_fault Fault.null_pointer o)
    or_fault-IsScheduled none f t = absurd (ground (arith, f.1))
    or_fault-IsScheduled (some tq) f t = returns (subst (IsScheduled g) (ground (arith, f.1)) t)

    load_camp-Returns :
        (camp : Bytes) (p : Player Db)
        → Holds p
        → (tq : TimerQueue) × (lookup camp p.camp_queue ≡ some tq)
        → Returns (IsScheduled g) (load_camp p camp)
    unfolding load_camp
    load_camp-Returns camp p v f =
        or_fault-IsScheduled (lookup camp p.camp_queue) f
          (lookup-AreScheduled g camp p.camp_queue f.0 v f.1)

    paid-Holds :
        (info : SoldierInfoRequest) (a : Arms) (r : Bool × Resources × Player Db)
        → arms_at g info.soldier_type info.soldier_level ≡ some a
        → Holds r.2
        → (tq : TimerQueue) × (lookup info.which_camp r.2.camp_queue ≡ some tq)
        → Returns Holds (paid g now info r)
    unfolding paid
    paid-Holds info a (false, r, p) h v _ = returns (sent-Holds info false r p v)
    paid-Holds info a (true, r, p) h v f =
        Returns->>= (load_camp-Returns info.which_camp p v f) λ tq t.
          Returns->>= (queue_soldiers-IsScheduled g now info a tq h t) λ tq' t'.
            returns (sent-Holds info true r _ (store_camp-Holds info.which_camp tq' p t' v))

    buy_soldiers-Holds :
        (info : SoldierInfoRequest) (a : Arms) (p : Player Db) (unlocked : Bool)
        → arms_at g info.soldier_type info.soldier_level ≡ some a
        → Holds p
        → (tq : TimerQueue) × (lookup info.which_camp p.camp_queue ≡ some tq)
        → Returns Holds (buy_soldiers g now info a p unlocked)
    unfolding buy_soldiers man_resources
    buy_soldiers-Holds info a p true h v f = returns v
    buy_soldiers-Holds info a p false h v f = paid-Holds info a _ h v f

    add_soldiers-Holds :
        (info : SoldierInfoRequest) (p : Player Db)
        → HasLimits
        → Holds p
        → Returns Holds (add_soldiers g now info p)
    unfolding add_soldiers HasLimits
    add_soldiers-Holds info p limits v =
        let v1 = insert-AreScheduled g info.which_camp p.camp_queue v in
        Returns-option (arms_at g info.soldier_type info.soldier_level) (λ _. returns v1)
          λ a h. Returns->>= (limits now info.soldier_type info.soldier_level a _ h) λ unlocked _.
            buy_soldiers-Holds info a _ unlocked h v1
              (lookup-insert_new g info.which_camp p.camp_queue)

    give_back-Holds :
        (info : SoldierInfoRequest) (a : Arms) (o : Option TimerQueue) (p : Player Db)
        → OnSome (IsScheduled g) o
        → Holds p
        → Holds (give_back g now info a o p)
    unfolding give_back man_resources
    give_back-Holds info a none p absent v = v
    give_back-Holds info a (some tq) p (present t) v =
        sent-Holds info true _ _ (store_camp-Holds info.which_camp tq p t v)

    del_from_camp-Holds :
        (info : SoldierInfoRequest) (a : Arms) (o : Option TimerQueue) (p : Player Db)
        → ((tq : TimerQueue) → o ≡ some tq → IsScheduled g tq)
        → Holds p
        → Returns Holds (del_from_camp g now info a o p)
    unfolding del_from_camp
    del_from_camp-Holds info a none p t v = returns (sent-Holds info false _ p v)
    del_from_camp-Holds info a (some tq) p t v =
        Returns->>= (unqueue_soldiers-IsScheduled g now info tq (t tq refl))
          λ o s. returns (give_back-Holds info a o p s v)

    del_soldiers-Holds :
        (info : SoldierInfoRequest) (p : Player Db)
        → Holds p
        → Returns Holds (del_soldiers g now info p)
    unfolding del_soldiers
    del_soldiers-Holds info p v =
        Returns-option (arms_at g info.soldier_type info.soldier_level) (λ _. returns v)
          λ a h.
            del_from_camp-Holds info a _ p
              (λ tq. lookup-AreScheduled g info.which_camp p.camp_queue tq v) v

    soldier_built-Holds :
        (camp : Bytes) (sir : SoldierInfoRequest) (rest : List SoldierInfoRequest) (tq : TimerQueue)
        (r : Option ℕ × Player Db)
        → AreArmed g (sir ∷ rest)
        → AreArmed g tq.armys_queue
        → tq.waiting ≡ false
        → Holds r.1
        → Returns Holds (soldier_built g now camp sir rest tq r)
    unfolding soldier_built send_soldier_is_complete send_to_player write_into_redis
    soldier_built-Holds camp sir rest tq (none, p) a q h v =
        Returns->>= (blocked-IsScheduled g now tq q h)
          λ tq' t. returns (store_camp-Holds camp tq' p t v)
    soldier_built-Holds camp sir rest tq (some soldier_id, p) a q h v =
        Returns->>= (built-IsScheduled g now sir rest tq a h)
          λ tq' t. returns (store_camp-Holds camp tq' _ t v)

    time_is_up-Holds :
        (camp : Bytes) (p : Player Db) → Holds p → Returns Holds (time_is_up g now camp p)
    unfolding time_is_up time_is_up_in
    time_is_up-Holds camp p v =
        Returns-option (lookup camp p.camp_queue) (λ _. returns v)
          λ tq e.
            Returns-if tq.waiting
              (λ _.
                Returns-list tq.armys_queue (λ _. returns v)
                  λ sir rest c.
                    let t = lookup-AreScheduled g camp p.camp_queue tq v e in
                    soldier_built-Holds camp sir rest _ _ (subst (AreArmed g) c t.armed) t.armed
                      refl (rw (camps-insert_to_builded sir.soldier_type sir.soldier_level p) v))
              λ _. returns v

    build_total_second-Returns :
        (queue : List SoldierInfoRequest) (total : ℕ)
        → AreArmed g queue
        → Returns (λ _. Unit {0}) (build_total_second g now queue total)
    unfolding build_total_second AreArmed
    build_total_second-Returns [] total v = returns tt
    build_total_second-Returns (sir ∷ rest) total v =
        Returns->>= (or_fault-Returns _ _ v.0.0 v.0.1) λ a _. build_total_second-Returns rest _ v.1

    cleared-IsScheduled : (tq : TimerQueue) → IsScheduled g tq → IsScheduled g (cleared g now tq)
    unfolding cleared
    cleared-IsScheduled tq t = record {
      waits = unfold cancel_timer in ground (arith, t.waits);
      armed = unfold AreArmed in tt;
    }

    pay-Holds :
        (camp : Bytes) (tq : TimerQueue) (diamond_to_sub : ℕ) (r : Bool × Db) (p : Player Db)
        → IsScheduled g tq
        → Holds p
        → Holds (pay g now camp tq diamond_to_sub r p)
    unfolding pay send_to_player write_into_redis
    pay-Holds camp tq diamond_to_sub (false, db) p t v = v
    pay-Holds camp tq diamond_to_sub (true, db) p t v =
        store_camp-Holds camp _ _ (cleared-IsScheduled tq t)
          (rw (camps-build_all tq.armys_queue (record p { db = db })) v)

    complete_at_once-Holds :
        (camp : Bytes) (p : Player Db) → Holds p → Returns Holds (complete_at_once g now camp p)
    unfolding complete_at_once complete_in
    complete_at_once-Holds camp p v =
        Returns-option (lookup camp p.camp_queue) (λ _. returns v)
          λ tq e.
            let t = lookup-AreScheduled g camp p.camp_queue tq v e in
            Returns->>= (build_total_second-Returns tq.armys_queue 0 t.armed)
              λ total _. returns (pay-Holds camp tq _ _ p t v)

    time_remain-Returns :
        (tq : TimerQueue) → IsScheduled g tq → Returns (λ _. Unit {0}) (time_remain g now tq)
    unfolding time_remain AreArmed
    time_remain-Returns tq t =
        Returns-list tq.armys_queue (λ _. returns tt)
          λ sir rest e.
            let v = subst (AreArmed g) e t.armed in
            Returns-if tq.is_block (λ _. returns tt)
              λ _. Returns->>= (or_fault-Returns _ _ v.0.0 v.0.1) λ a _. returns tt

    camp_infos-Returns :
        (camps : Dict Bytes TimerQueue)
        → AreScheduled g camps
        → Returns (λ _. Unit {0}) (camp_infos g now camps)
    unfolding camp_infos AreScheduled
    camp_infos-Returns [] v = returns tt
    camp_infos-Returns ((camp, tq) ∷ rest) v =
        Returns->>= (time_remain-Returns tq v.0)
          λ time _. Returns->>= (camp_infos-Returns rest v.1) λ infos _. returns tt

    get_camp_info-Holds : (p : Player Db) → Holds p → Returns Holds (get_camp_info g now p)
    unfolding get_camp_info send_to_player
    get_camp_info-Holds p v = Returns->>= (camp_infos-Returns p.camp_queue v) λ infos _. returns v

    request_process-Holds :
        (operation : Operation) (info : SoldierInfoRequest) (p : Player Db)
        → HasLimits
        → Holds p
        → Returns Holds (request_process g now operation info p)
    unfolding request_process
    request_process-Holds Operation.add info p limits v = add_soldiers-Holds info p limits v
    request_process-Holds Operation.del info p limits v = del_soldiers-Holds info p v
    request_process-Holds Operation.nothing info p limits v = returns v

    handle-Holds :
        (event : Event) (p : Player Db) → HasLimits → Holds p → Returns Holds (handle g now event p)
    unfolding handle
    handle-Holds (Event.requests info) p limits v =
        request_process-Holds info.operation info p limits v
    handle-Holds (Event.completes camp) p limits v = complete_at_once-Holds camp p v
    handle-Holds (Event.time_up camp) p limits v = time_is_up-Holds camp p v
    handle-Holds Event.asks p limits v = get_camp_info-Holds p v

  -- From a player with no camps, or any state in which each camp's timer waits exactly while soldiers
  -- of the configuration are queued, every sequence of requests and time-outs returns without a
  -- fault in such a state, if the table of limits covers the configuration.
  pub run_player-AreScheduled :
      (events : List (ℕ × Event)) (p : Player Db)
      → HasLimits
      → AreScheduled g p.camp_queue
      → Returns (λ q. AreScheduled g q.camp_queue) (run_player g events p)
  unfolding run_player
  run_player-AreScheduled [] p limits v = returns v
  run_player-AreScheduled ((now, event) ∷ events) p limits v =
      Returns->>= (handle-Holds now event p limits v)
        λ q w. run_player-AreScheduled events q limits w
