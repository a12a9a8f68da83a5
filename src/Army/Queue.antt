-- ===== src/Army/Queue.antt =====
-- workers/small_map_worker/_army_build_queue_manager.cpp: the operations on one player's camps. The
-- numbers that `addSoldiers` and `delSoliders` return, which no caller reads, are left out. `now` is
-- what the clock says in a call. A call of `addSoldiers` takes the request whose operation is ADD, and
-- one of `delSoliders` the request whose operation is DEL, as `requestProcess` has them.
use cpp_framework.Prelude.{
  widen, signed_le, int_mul, int_div, short_add, short_sub, ℕ, zero, suc, Bool, true, false, ◌&&◌,
  Option, none, some, List, [], ◌∷◌, ◌++◌, ◌==◌, nat_key, bytes_key, Bytes, lookup, insert,
  get_elem?, if◌then◌else◌,
}
use cpp_framework.Router.Fault.{Fault, Result, ok, ◌>>=◌, or_fault}
use cpp_framework.Army.State.{
  Operation, SoldierInfoRequest, Time, TimerQueue, Arms, Resources, Response, Game, Player,
  new_timer_queue, plus, is_empty, arms_at, load_camp, store_camp, send_to_player,
}

-- `TimerQueue::push_back`
unfoldable pub push_back : SoldierInfoRequest → TimerQueue → TimerQueue
push_back sir tq = record tq { armys_queue = tq.armys_queue ++ (sir ∷ []) }

-- asio has not queued the handler of the timer yet: one that it has queued would run all the same.
unfoldable pub cancel_timer : TimerQueue → TimerQueue
cancel_timer tq = if is_empty tq.armys_queue then tq else record tq { waiting = false }

abbrev start_time : Time → Time → Time
start_time none expires = expires
start_time (some t) expires = some t

unfoldable pub same_soldier : SoldierInfoRequest → SoldierInfoRequest → Bool
same_soldier a b = a.soldier_type == b.soldier_type && a.soldier_level == b.soldier_level

abbrev no_resources : Resources
no_resources = record { wood = 0; stone = 0; iron = 0; concrete = 0 }

-- The first entry for the same soldiers grows by their number.
unfoldable pub add_to :
    SoldierInfoRequest → List SoldierInfoRequest → Option (List SoldierInfoRequest)
add_to info [] = none
add_to info (sir ∷ rest) =
    let more = add_to info rest in
    if same_soldier sir info
    then some (record sir { soldier_num = short_add sir.soldier_num info.soldier_num } ∷ rest)
    else elim more [ none ↦ none | some rest' ↦ some (sir ∷ rest') ]

-- The first entry for the same soldiers shrinks, and goes when nothing is left of it.
unfoldable pub del_from :
    SoldierInfoRequest → List SoldierInfoRequest → Option (List SoldierInfoRequest)
del_from info [] = none
del_from info (sir ∷ rest) =
    let more = del_from info rest in
    let left = short_sub sir.soldier_num info.soldier_num in
    if same_soldier sir info
    then if signed_le 16 left 0 then some rest else some (record sir { soldier_num = left } ∷ rest)
    else elim more [ none ↦ none | some rest' ↦ some (sir ∷ rest') ]

unfoldable pub cost : Arms → ℕ → Resources
cost a soldier_num = record {
  wood = int_mul a.need_wood (widen soldier_num);
  stone = int_mul a.need_stone (widen soldier_num);
  iron = int_mul a.need_iron (widen soldier_num);
  concrete = int_mul a.need_soil (widen soldier_num);
}

unfoldable pub refund : Arms → ℕ → Resources
refund a soldier_num = record {
  wood = int_mul (int_div a.need_wood 2) (widen soldier_num);
  stone = int_mul (int_div a.need_stone 2) (widen soldier_num);
  iron = int_mul (int_div a.need_iron 2) (widen soldier_num);
  concrete = int_mul (int_div a.need_soil 2) (widen soldier_num);
}

module _ {Db : Type 0} (g : Game Db) (now : ℕ) where
  wallet : List Bytes → Resources
  wallet (wood ∷ stone ∷ iron ∷ concrete ∷ []) = record {
    wood = g.atoi wood;
    stone = g.atoi stone;
    iron = g.atoi iron;
    concrete = g.atoi concrete;
  }
  wallet output = no_resources

  -- `subResource` is the operation 2, `addResource` the operation 1; the second part of the answer
  -- is what the reference parameters hold afterwards.
  unfoldable pub man_resources : ℕ → Resources → Player Db → Bool × Resources × Player Db
  unfolding wallet
  man_resources kind amount p =
      let r = g.man_player_resources kind amount p.db in
      (r.0, wallet (g.get_player_resources r.1), record p { db = r.1 })

  limit_at : ℕ → ℕ → Result ℕ
  limit_at combat_union_id soldier_type =
      or_fault Fault.bad_iterator (get_elem? g.combat_union_limit combat_union_id) >>= λ row.
      or_fault Fault.bad_iterator (get_elem? row soldier_type)

  unfoldable pub soldier_is_unlock : ℕ → ℕ → Player Db → Result Bool
  unfolding limit_at
  soldier_is_unlock soldier_type soldier_level p =
      let output = g.combat_union_uid p.db in
      if is_empty output
      then ok false
      else if signed_le 32 6 (g.atoi output)
      then ok false
      else limit_at (g.atoi output) soldier_type >>= λ limit. ok (signed_le 32 soldier_level limit)

  unfoldable pub insert_to_builded : ℕ → ℕ → Player Db → Option ℕ × Player Db
  insert_to_builded soldier_type soldier_level p = elim (arms_at g soldier_type soldier_level) [
    | none ↦ (none, p)
    | some a ↦
        let r = g.insert_to_builded soldier_type soldier_level a.population p.db in
        (r.0, record p { db = r.1 })
  ]

  -- `registerTime`; `secs` is 0 for the time that the first soldier takes.
  unfoldable pub waiting_time : SoldierInfoRequest → ℕ → Result ℕ
  waiting_time sir zero =
      or_fault Fault.bad_iterator (arms_at g sir.soldier_type sir.soldier_level) >>= λ a.
      ok a.build_time
  waiting_time sir (suc secs) = ok (suc secs)

  unfoldable pub register_time : Time → ℕ → TimerQueue → Result TimerQueue
  unfolding waiting_time
  register_time begin_build_time secs tq = elim tq.armys_queue [
    | [] ↦ ok tq
    | sir ∷ rest ↦ waiting_time sir secs >>= λ duration.
        let begins = start_time begin_build_time tq.expires in
        ok (record tq { begin_build_time = begins; expires = plus begins duration; waiting = true })
  ]

  unfoldable pub write_into_redis : Bytes → TimerQueue → Player Db → Player Db
  write_into_redis which_camp tq p = record p {
    db = g.save which_camp tq.begin_build_time tq.armys_queue tq.is_block p.db;
  }

  unfoldable pub write_camp : Bytes → Option TimerQueue → Player Db → Player Db
  write_camp which_camp none p = p
  write_camp which_camp (some tq) p = write_into_redis which_camp tq p

  unfoldable pub send_process_result_to_user :
      SoldierInfoRequest → Bool → Resources → Player Db → Player Db
  unfolding write_camp
  send_process_result_to_user info status r p =
      send_to_player (Response.process_response info status r)
        (write_camp info.which_camp (lookup info.which_camp p.camp_queue) p)

  unfoldable pub send_soldier_is_complete :
      SoldierInfoRequest → Bytes → ℕ → TimerQueue → Player Db → Player Db
  send_soldier_is_complete sir which_camp soldier_id tq p =
      send_to_player
        (Response.time_is_up_response
          (record sir { soldier_num = 1; which_camp = which_camp; operation = Operation.add })
          soldier_id)
        (write_into_redis which_camp tq p)

  -- An entry for the soldiers at the end of the queue; the first one starts the timer.
  unfoldable pub append_soldiers : SoldierInfoRequest → TimerQueue → Result TimerQueue
  append_soldiers info tq =
      let tq' = push_back info tq in
      if is_empty tq.armys_queue then register_time (some now) 0 tq' else ok tq'

  unfoldable pub queue_soldiers : SoldierInfoRequest → TimerQueue → Result TimerQueue
  unfolding append_soldiers
  queue_soldiers info tq = elim (add_to info tq.armys_queue) [
    | none ↦ append_soldiers info tq
    | some queue ↦ ok (record tq { armys_queue = queue })
  ]

  unfoldable pub paid : SoldierInfoRequest → Bool × Resources × Player Db → Result (Player Db)
  unfolding queue_soldiers
  paid info (false, r, p) = ok (send_process_result_to_user info false r p)
  paid info (true, r, p) = load_camp p info.which_camp >>= λ tq. queue_soldiers info tq >>= λ tq'.
      ok (send_process_result_to_user info true r (store_camp info.which_camp tq' p))

  unfoldable pub buy_soldiers : SoldierInfoRequest → Arms → Player Db → Bool → Result (Player Db)
  unfolding paid
  buy_soldiers info a p true = ok p
  buy_soldiers info a p false = paid info (man_resources 2 (cost a info.soldier_num) p)

  unfoldable pub add_soldiers : SoldierInfoRequest → Player Db → Result (Player Db)
  unfolding buy_soldiers
  add_soldiers info p =
      let p1 = record p { camp_queue = insert info.which_camp new_timer_queue p.camp_queue } in
      elim (arms_at g info.soldier_type info.soldier_level) [
        | none ↦ ok p1
        | some a ↦ soldier_is_unlock info.soldier_type info.soldier_level p1 >>= λ unlocked.
            buy_soldiers info a p1 unlocked
      ]

  -- The first entry: when it goes the timer starts again for the next.
  unfoldable pub del_first :
      SoldierInfoRequest
      → SoldierInfoRequest
      → List SoldierInfoRequest
      → TimerQueue
      → Result TimerQueue
  del_first info sir rest tq =
      if signed_le 16 sir.soldier_num info.soldier_num
      then register_time (some now) 0 (record (cancel_timer tq) { armys_queue = rest })
      else ok (record tq {
        armys_queue =
            record sir { soldier_num = short_sub sir.soldier_num info.soldier_num } ∷ rest;
      })

  -- The queue without the soldiers; `none` if no entry is theirs.
  unfoldable pub unqueue_soldiers : SoldierInfoRequest → TimerQueue → Result (Option TimerQueue)
  unfolding del_first
  unqueue_soldiers info tq = elim tq.armys_queue [
    | [] ↦ ok none
    | sir ∷ rest ↦
        if same_soldier sir info
        then (del_first info sir rest tq >>= λ tq'. ok (some tq'))
        else elim (del_from info rest) [
          | none ↦ ok none
          | some rest' ↦ ok (some (record tq { armys_queue = sir ∷ rest' }))
        ]
  ]

  unfoldable pub give_back : SoldierInfoRequest → Arms → Option TimerQueue → Player Db → Player Db
  give_back info a none p = p
  give_back info a (some tq) p =
      let r = man_resources 1 (refund a info.soldier_num) (store_camp info.which_camp tq p) in
      send_process_result_to_user info true r.1 r.2

  unfoldable pub del_from_camp :
      SoldierInfoRequest → Arms → Option TimerQueue → Player Db → Result (Player Db)
  unfolding give_back
  del_from_camp info a none p = ok (send_process_result_to_user info false no_resources p)
  del_from_camp info a (some tq) p = unqueue_soldiers info tq >>= λ o. ok (give_back info a o p)

  unfoldable pub del_soldiers : SoldierInfoRequest → Player Db → Result (Player Db)
  unfolding del_from_camp
  del_soldiers info p = elim (arms_at g info.soldier_type info.soldier_level) [
    | none ↦ ok p
    | some a ↦ del_from_camp info a (lookup info.which_camp p.camp_queue) p
  ]

  -- The queue after one soldier of its first entry is built.
  unfoldable pub take_soldier :
      SoldierInfoRequest → List SoldierInfoRequest → TimerQueue → TimerQueue
  take_soldier sir rest tq =
      if sir.soldier_num == 1
      then record tq { armys_queue = rest; is_block = false }
      else record tq {
        armys_queue = record sir { soldier_num = short_sub sir.soldier_num 1 } ∷ rest;
        is_block = false;
      }

  unfoldable pub soldier_built :
      Bytes
      → SoldierInfoRequest
      → List SoldierInfoRequest
      → TimerQueue
      → Option ℕ × Player Db
      → Result (Player Db)
  soldier_built which_camp sir rest tq (none, p) =
      register_time none 30 (record tq { is_block = true }) >>= λ tq'.
      ok (store_camp which_camp tq' p)
  soldier_built which_camp sir rest tq (some soldier_id, p) =
      let tq1 = take_soldier sir rest tq in
      register_time none 0 tq1 >>= λ tq'.
      ok (store_camp which_camp tq' (send_soldier_is_complete sir which_camp soldier_id tq1 p))

  unfoldable pub time_is_up_in : Bytes → TimerQueue → Player Db → Result (Player Db)
  unfolding soldier_built
  time_is_up_in which_camp tq p = elim tq.armys_queue [
    | [] ↦ ok p
    | sir ∷ rest ↦
        soldier_built which_camp sir rest (record tq { waiting = false })
          (insert_to_builded sir.soldier_type sir.soldier_level p)
  ]

  -- The wait of a camp's timer is over; a cancelled wait does nothing.
  unfoldable pub time_is_up : Bytes → Player Db → Result (Player Db)
  unfolding time_is_up_in
  time_is_up which_camp p = elim (lookup which_camp p.camp_queue) [
    | none ↦ ok p
    | some tq ↦ if tq.waiting then time_is_up_in which_camp tq p else ok p
  ]
