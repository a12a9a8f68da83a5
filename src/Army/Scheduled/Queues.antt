-- ===== src/Army/Scheduled/Queues.antt =====
-- workers/small_map_worker/_army_build_queue_manager.cpp: what adding, removing and building do to
-- one camp's queue and timer.
use cpp_framework.Prelude.{
  signed_le, short_sub, ℕ, zero, suc, ◌≡◌, refl, Bool, true, false, none, some, List, [], ◌∷◌, ◌++◌,
  Bytes, bytes_key, nat_key, Dict, lookup, insert, modify, arith, if◌then◌else◌, bytes_lt,
  bytes_eq_iff, ◌==◌, Bool-cases, inl, inr,
}
use mathlib.Core.Path.{subst}
use cpp_framework.Army.State.{
  SoldierInfoRequest, Time, TimerQueue, Arms, Game, new_timer_queue, is_empty, arms_at,
}
use cpp_framework.Army.Queue.{
  push_back, cancel_timer, add_to, del_from, same_soldier, register_time, append_soldiers,
  del_first, unqueue_soldiers, take_soldier, waiting_time, queue_soldiers,
}
use cpp_framework.Router.Returns.{
  Returns, returns, Returns->>=, Returns-if, Returns-list, Returns-OnSome, OnSome, absent, present,
  OnSome-if, OnSome-map, or_fault-Returns,
}
use cpp_framework.Army.Scheduled.{AreArmed, IsScheduled, AreScheduled}

module _ {Db : Type 0} (g : Game Db) where
  AreArmed-add_to :
      (info : SoldierInfoRequest) (queue : List SoldierInfoRequest)
      → AreArmed g queue
      → OnSome (λ more. AreArmed g more × (is_empty more ≡ is_empty queue)) (add_to info queue)
  unfolding add_to AreArmed
  AreArmed-add_to info [] v = absent
  AreArmed-add_to info (sir ∷ rest) v =
      OnSome-if (same_soldier sir info) (present (v, refl))
        (OnSome-map _ (AreArmed-add_to info rest v.1) λ more m. ((v.0, m.0), refl))

  AreArmed-del_from :
      (info : SoldierInfoRequest) (queue : List SoldierInfoRequest)
      → AreArmed g queue
      → OnSome (AreArmed g) (del_from info queue)
  unfolding del_from AreArmed
  AreArmed-del_from info [] v = absent
  AreArmed-del_from info (sir ∷ rest) v =
      OnSome-if (same_soldier sir info)
        (OnSome-if (signed_le 16 (short_sub sir.soldier_num info.soldier_num) 0) (present v.1)
          (present v))
        (OnSome-map _ (AreArmed-del_from info rest v.1) λ more m. (v.0, m))

  pub AreArmed-append :
      (queue : List SoldierInfoRequest) (info : SoldierInfoRequest) (a : Arms)
      → AreArmed g queue
      → arms_at g info.soldier_type info.soldier_level ≡ some a
      → AreArmed g (queue ++ (info ∷ []))
  unfolding AreArmed
  AreArmed-append [] info a v h = ((a, h), tt)
  AreArmed-append (sir ∷ rest) info a v h = (v.0, AreArmed-append rest info a v.1 h)

  pub is_empty-append :
      (queue : List SoldierInfoRequest) (info : SoldierInfoRequest)
      → is_empty (queue ++ (info ∷ [])) ≡ false
  is_empty-append [] info = refl
  is_empty-append (sir ∷ rest) info = refl

  AreArmed-rest :
      {queue : List SoldierInfoRequest} {sir : SoldierInfoRequest} {rest : List SoldierInfoRequest}
      → queue ≡ sir ∷ rest
      → AreArmed g queue
      → ((a : Arms) × (arms_at g sir.soldier_type sir.soldier_level ≡ some a)) × AreArmed g rest
  AreArmed-rest e v = unfold AreArmed in subst (AreArmed g) e v

  AreArmed-cons :
      (sir : SoldierInfoRequest) (rest : List SoldierInfoRequest)
      → ((a : Arms) × (arms_at g sir.soldier_type sir.soldier_level ≡ some a)) × AreArmed g rest
      → AreArmed g (sir ∷ rest)
  unfolding AreArmed
  AreArmed-cons sir rest v = v

  pub lookup-AreScheduled :
      (camp : Bytes) (camps : Dict Bytes TimerQueue) (tq : TimerQueue)
      → AreScheduled g camps
      → lookup camp camps ≡ some tq
      → IsScheduled g tq
  unfolding AreScheduled lookup
  lookup-AreScheduled camp [] tq v h = cc
  lookup-AreScheduled camp ((c, t) ∷ rest) tq v h = ground (arith, lookup-AreScheduled camp rest tq)

  AreScheduled-if :
      (c : Bool) (x y : Dict Bytes TimerQueue)
      → AreScheduled g x
      → AreScheduled g y
      → AreScheduled g (if c then x else y)
  AreScheduled-if true x y p q = p
  AreScheduled-if false x y p q = q

  pub modify-AreScheduled :
      (camp : Bytes) (camps : Dict Bytes TimerQueue) (tq : TimerQueue)
      → AreScheduled g camps
      → IsScheduled g tq
      → AreScheduled g (modify camp (λ _. tq) camps)
  unfolding AreScheduled modify
  modify-AreScheduled camp [] tq v h = v
  modify-AreScheduled camp ((c, t) ∷ rest) tq v h =
      AreScheduled-if (c == camp) _ _ (h, v.1) (v.0, modify-AreScheduled camp rest tq v.1 h)

  pub new-IsScheduled : IsScheduled g new_timer_queue
  new-IsScheduled = record { waits = refl; armed = unfold AreArmed in tt }

  pub insert-AreScheduled :
      (camp : Bytes) (camps : Dict Bytes TimerQueue)
      → AreScheduled g camps
      → AreScheduled g (insert camp new_timer_queue camps)
  unfolding AreScheduled insert
  insert-AreScheduled camp [] v = (new-IsScheduled, tt)
  insert-AreScheduled camp ((c, t) ∷ rest) v = AreScheduled-if (c == camp) _ _ v (
      AreScheduled-if (bytes_lt camp c) _ _ (new-IsScheduled, v)
        (v.0, insert-AreScheduled camp rest v.1))

  pub lookup-insert_new :
      (camp : Bytes) (camps : Dict Bytes TimerQueue)
      → (tq : TimerQueue) × (lookup camp (insert camp new_timer_queue camps) ≡ some tq)
  unfolding lookup insert
  lookup-insert_new camp [] = (new_timer_queue, ground (arith, bytes_eq_iff camp camp))
  lookup-insert_new camp ((c, t) ∷ rest) =
      let r = lookup-insert_new camp rest in
      elim (Bool-cases (c == camp)) [
        | inl e ↦ (t, ground (arith, e))
        | inr e ↦ elim (Bool-cases (bytes_lt camp c)) [
          | inl l ↦ (new_timer_queue, ground (arith, e, l, bytes_eq_iff camp camp))
          | inr l ↦ (r.0, ground (arith, e, l, r.1))
        ]
      ]

  module _ (now : ℕ) where
    pub waiting_time-Returns :
        (sir : SoldierInfoRequest) (secs : ℕ) (rest : List SoldierInfoRequest)
        → AreArmed g (sir ∷ rest)
        → Returns (λ _. Unit {0}) (waiting_time g now sir secs)
    unfolding waiting_time AreArmed
    waiting_time-Returns sir zero rest v =
        Returns->>= (or_fault-Returns _ _ v.0.0 v.0.1) λ a _. returns tt
    waiting_time-Returns sir (suc secs) rest v = returns tt

    pub register_time-IsScheduled :
        (begins : Time) (secs : ℕ) (tq : TimerQueue)
        → AreArmed g tq.armys_queue
        → (is_empty tq.armys_queue ≡ true → tq.waiting ≡ false)
        → Returns (IsScheduled g) (register_time g now begins secs tq)
    unfolding register_time
    register_time-IsScheduled begins secs tq v h =
        Returns-list tq.armys_queue
          (λ e. returns (record { waits = ground (arith, h, e); armed = v }))
          λ sir rest e.
            Returns->>= (waiting_time-Returns sir secs rest (subst (AreArmed g) e v))
              λ duration _. returns (record { waits = ground (arith, e); armed = v })

    pub queue_soldiers-IsScheduled :
        (info : SoldierInfoRequest) (a : Arms) (tq : TimerQueue)
        → arms_at g info.soldier_type info.soldier_level ≡ some a
        → IsScheduled g tq
        → Returns (IsScheduled g) (queue_soldiers g now info tq)
    unfolding queue_soldiers append_soldiers push_back
    queue_soldiers-IsScheduled info a tq h v =
        Returns-OnSome (AreArmed-add_to info tq.armys_queue v.armed)
          (Returns-if (is_empty tq.armys_queue)
            (λ e.
              register_time-IsScheduled _ 0 _ (AreArmed-append tq.armys_queue info a v.armed h)
                λ _. ground (arith, v.waits, e))
            λ e. returns (record {
              waits = ground (arith, v.waits, e, is_empty-append tq.armys_queue info);
              armed = AreArmed-append tq.armys_queue info a v.armed h;
            }))
          λ more m. returns (record { waits = ground (arith, m.1, v.waits); armed = m.0 })

    cancel_timer-idle : (tq : TimerQueue) → IsScheduled g tq → (cancel_timer tq).waiting ≡ false
    unfolding cancel_timer
    cancel_timer-idle tq v = ground (arith, v.waits)

    del_first-IsScheduled :
        (info sir : SoldierInfoRequest) (rest : List SoldierInfoRequest) (tq : TimerQueue)
        → tq.armys_queue ≡ sir ∷ rest
        → IsScheduled g tq
        → Returns (IsScheduled g) (del_first g now info sir rest tq)
    unfolding del_first
    del_first-IsScheduled info sir rest tq e v =
        Returns-if (signed_le 16 sir.soldier_num info.soldier_num)
          (λ _.
            register_time-IsScheduled _ 0 _ (AreArmed-rest e v.armed).1 λ _. cancel_timer-idle tq v)
          λ _. returns (record {
            waits = ground (arith, v.waits, e);
            armed = AreArmed-cons _ rest (AreArmed-rest e v.armed);
          })

    pub unqueue_soldiers-IsScheduled :
        (info : SoldierInfoRequest) (tq : TimerQueue)
        → IsScheduled g tq
        → Returns (OnSome (IsScheduled g)) (unqueue_soldiers g now info tq)
    unfolding unqueue_soldiers
    unqueue_soldiers-IsScheduled info tq v =
        Returns-list tq.armys_queue (λ e. returns absent)
          λ sir rest e.
            Returns-if (same_soldier sir info)
              (λ _.
                Returns->>= (del_first-IsScheduled info sir rest tq e v)
                  λ tq' v'. returns (present v'))
              λ _.
                Returns-OnSome (AreArmed-del_from info rest (AreArmed-rest e v.armed).1)
                  (returns absent)
                  λ more m. returns (
                    present (record {
                      waits = ground (arith, v.waits, e);
                      armed = AreArmed-cons sir more ((AreArmed-rest e v.armed).0, m);
                    }))

    take_soldier-armed :
        (sir : SoldierInfoRequest) (rest : List SoldierInfoRequest) (tq : TimerQueue)
        → AreArmed g (sir ∷ rest)
        → AreArmed g (take_soldier g now sir rest tq).armys_queue
          × ((take_soldier g now sir rest tq).waiting ≡ tq.waiting)
    unfolding take_soldier
    take_soldier-armed sir rest tq v =
        elim (sir.soldier_num == 1)
          as (λ b.
            let t = if b then record tq { armys_queue = rest; is_block = false } else record tq {
              armys_queue = record sir { soldier_num = short_sub sir.soldier_num 1 } ∷ rest;
              is_block = false;
            } in
            AreArmed g t.armys_queue × (t.waiting ≡ tq.waiting)) [
              | true ↦ ((unfold AreArmed in v.1), refl)
              | false ↦ ((unfold AreArmed in v), refl)
            ]

    pub built-IsScheduled :
        (sir : SoldierInfoRequest) (rest : List SoldierInfoRequest) (tq : TimerQueue)
        → AreArmed g (sir ∷ rest)
        → tq.waiting ≡ false
        → Returns (IsScheduled g) (register_time g now none 0 (take_soldier g now sir rest tq))
    built-IsScheduled sir rest tq v h =
        let t = take_soldier-armed sir rest tq v in
        register_time-IsScheduled none 0 _ t.0 λ _. ground (arith, t.1, h)

    pub blocked-IsScheduled :
        (tq : TimerQueue)
        → AreArmed g tq.armys_queue
        → tq.waiting ≡ false
        → Returns (IsScheduled g) (register_time g now none 30 (record tq { is_block = true }))
    blocked-IsScheduled tq v h = register_time-IsScheduled none 30 _ v λ _. h
