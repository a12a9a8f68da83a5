-- ===== src/Battle/Timed.antt =====
-- workers/pvp_worker/BattleMapManager.cpp: what a tick does to the battles.
use cpp_framework.Prelude.{
  ℕ, zero, suc, ◌+◌, ◌<◌, ◌≡◌, refl, sym, ap, ◌∙◌, Bool, true, false, Option, none, some, [], ◌∷◌,
  nat_key, Dict, lookup, Every, IsSorted, if◌then◌else◌, ltb, arith,
}
use cpp_framework.Prelude.Entries.{lookup_below}
use cpp_framework.Router.Returns.{OnSome, OnSome-if, absent, present}
use cpp_framework.Battle.State.{
  BattleMap, RedisClient, Message, Server, cur_tick, plus_cur_tick, send_to_player,
}
use cpp_framework.Battle.Update.{
  ask_state, battle_over, tick_battle, update_battle, keep_battle, update_all, update_battle_maps,
}
use cpp_framework.Battle.Points.{points_of}
use cpp_framework.Battle.Fair.{IsFair, IsOutcome, IsFought, points_of-IsOutcome}
use cpp_framework.Battle.Fought.{found-IsFair}

-- A battle after some ticks without a message.
abbrev pub aged : ℕ → BattleMap → Option BattleMap
aged n b =
    if b.is_start
    then if ltb (b.ticks + n) 3000 then some (record b { ticks = b.ticks + n }) else none
    else some b

abbrev pub later : ℕ → Option BattleMap → Option BattleMap
later n none = none
later n (some b) = aged n b

running-IsFair :
    (n uid : ℕ) (b : BattleMap) (c : Bool)
    → ltb (b.ticks + n) 3000 ≡ c
    → IsFair uid b
    → OnSome (IsFair uid) (if c then some (record b { ticks = b.ticks + n }) else none)
running-IsFair n uid b false e f = absent
running-IsFair n uid b true e f =
    let less : b.ticks + n < 3000 = ground arith in present (f.0, f.1, f.2, f.3, f.4, f.5, less)

aged-IsFair : (n uid : ℕ) (b : BattleMap) → IsFair uid b → OnSome (IsFair uid) (aged n b)
aged-IsFair n uid b f =
    OnSome-if b.is_start (running-IsFair n uid b (ltb (b.ticks + n) 3000) refl f) (present f)

module _ {Db : Type 0} (redis : RedisClient Db) where
  pub update_battle-aged :
      (uid : ℕ) (b : BattleMap) (s : Server Db)
      → IsFair uid b
      → (update_battle redis b s).0 ≡ aged 1 b
  unfolding update_battle tick_battle plus_cur_tick cur_tick
  update_battle-aged uid b s f = ground arith

  abbrev IsSentFair : Server Db → Type 0
  IsSentFair s = Every (λ uid m. IsOutcome m) s.sent

  abbrev HasOutcomes : BattleMap → Type 0
  HasOutcomes b =
      IsOutcome (Message.battle_result_to_atker b.star_num (points_of b).0 none)
      × IsOutcome (Message.battle_result_to_dfder b.star_num (points_of b).1 none)

  battle_over-IsSentFair :
      (b : BattleMap) (s : Server Db)
      → HasOutcomes b
      → IsSentFair s
      → IsSentFair (battle_over redis b s)
  unfolding battle_over send_to_player
  battle_over-IsSentFair b s o h = (o.1, (o.0, h))

  ask_state-IsSentFair :
      (b : BattleMap) (s : Server Db) → IsSentFair s → IsSentFair (ask_state redis b s)
  unfolding ask_state send_to_player
  ask_state-IsSentFair b s h = ground arith

  tick_battle-IsSentFair :
      (b : BattleMap) (s : Server Db)
      → HasOutcomes b
      → IsSentFair s
      → IsSentFair (tick_battle redis b s).1
  unfolding tick_battle
  tick_battle-IsSentFair b s o h =
      let asked = ask_state-IsSentFair b s h in
      ground (arith, asked, battle_over-IsSentFair b (ask_state redis b s) o asked)

  update_battle-IsSentFair :
      (uid : ℕ) (b : BattleMap) (s : Server Db)
      → IsFair uid b
      → IsSentFair s
      → IsSentFair (update_battle redis b s).1
  unfolding update_battle plus_cur_tick points_of
  update_battle-IsSentFair uid b s f h =
      ground
        (arith, tick_battle-IsSentFair (plus_cur_tick b) s (points_of-IsOutcome uid b none f) h)

keep_battle-lookup :
    (uid j : ℕ) (b : BattleMap) (o : Option BattleMap) (m left : Dict ℕ BattleMap)
    → o ≡ aged 1 b
    → Every (λ i _. j < i) m
    → lookup uid left ≡ later 1 (lookup uid m)
    → lookup uid (keep_battle j o left) ≡ later 1 (lookup uid ((j, b) ∷ m))
unfolding keep_battle lookup
keep_battle-lookup uid j b none m left e s h = ground (arith, lookup_below j m s)
keep_battle-lookup uid j b (some c) m left e s h = ground arith

keep_battle-Every :
    (P : ℕ → BattleMap → Type 0) (j : ℕ) (o : Option BattleMap) (left : Dict ℕ BattleMap)
    → OnSome (P j) o
    → Every P left
    → Every P (keep_battle j o left)
unfolding keep_battle
keep_battle-Every P j none left f h = h
keep_battle-Every P j (some c) left (present f) h = (f, h)

keep_battle-IsSorted :
    (j : ℕ) (o : Option BattleMap) (left : Dict ℕ BattleMap)
    → Every (λ i _. j < i) left
    → IsSorted left
    → IsSorted (keep_battle j o left)
unfolding keep_battle
keep_battle-IsSorted j none left f h = h
keep_battle-IsSorted j (some c) left f h = (f, h)

always : {P : Type 0} (o : Option BattleMap) → P → OnSome (λ _. P) o
always none p = absent
always (some b) p = present p

module _ {Db : Type 0} (redis : RedisClient Db) where
  update_all-below :
      (j : ℕ) (m : Dict ℕ BattleMap) (s : Server Db)
      → Every (λ i _. j < i) m
      → Every (λ i _. j < i) (update_all redis m s).0
  unfolding update_all
  update_all-below j [] s h = tt
  update_all-below j ((i, b) ∷ m) s h =
      let r = update_battle redis b s in
      keep_battle-Every (λ i _. j < i) i r.0 (update_all redis m r.1).0 (always r.0 h.0)
        (update_all-below j m r.1 h.1)

  update_all-IsSorted :
      (m : Dict ℕ BattleMap) (s : Server Db) → IsSorted m → IsSorted (update_all redis m s).0
  unfolding update_all
  update_all-IsSorted [] s h = tt
  update_all-IsSorted ((i, b) ∷ m) s h =
      let r = update_battle redis b s in
      keep_battle-IsSorted i r.0 (update_all redis m r.1).0 (update_all-below i m r.1 h.0)
        (update_all-IsSorted m r.1 h.1)

  update_all-IsFair :
      (m : Dict ℕ BattleMap) (s : Server Db)
      → Every IsFair m
      → IsSentFair redis s
      → Every IsFair (update_all redis m s).0 × IsSentFair redis (update_all redis m s).1
  unfolding update_all
  update_all-IsFair [] s h t = (tt, t)
  update_all-IsFair ((i, b) ∷ m) s h t =
      let r = update_battle redis b s in
      let rest = update_all-IsFair m r.1 h.1 (update_battle-IsSentFair redis i b s h.0 t) in
      let fair : OnSome (IsFair i) r.0 =
        rw (update_battle-aged redis i b s h.0) (aged-IsFair 1 i b h.0) in
      (keep_battle-Every IsFair i r.0 (update_all redis m r.1).0 fair rest.0, rest.1)

  update_all-lookup :
      (uid : ℕ) (m : Dict ℕ BattleMap) (s : Server Db)
      → Every IsFair m
      → IsSorted m
      → lookup uid (update_all redis m s).0 ≡ later 1 (lookup uid m)
  unfolding update_all lookup
  update_all-lookup uid [] s f h = refl
  update_all-lookup uid ((i, b) ∷ m) s f h =
      let r = update_battle redis b s in
      keep_battle-lookup uid i b r.0 m (update_all redis m r.1).0
        (update_battle-aged redis i b s f.0) h.0 (update_all-lookup uid m r.1 f.1 h.1)

  pub update_battle_maps-IsFought :
      (s : Server Db) → IsFought s → IsFought (update_battle_maps redis s)
  unfolding update_battle_maps
  update_battle_maps-IsFought s h =
      let r = update_all-IsFair s.battle_maps s h.0 h.2 in
      (r.0, update_all-IsSorted s.battle_maps s h.1, r.1)

later-suc : (n : ℕ) (o : Option BattleMap) → later n (later 1 o) ≡ later (suc n) o
later-suc n none = refl
later-suc n (some b) = ground arith

later-zero : (uid : ℕ) (o : Option BattleMap) → OnSome (IsFair uid) o → later 0 o ≡ o
later-zero uid none f = refl
later-zero uid (some b) (present f) = ground arith

module _ {Db : Type 0} (redis : RedisClient Db) where
  -- Ticks in which no message comes.
  unfoldable pub updates : ℕ → Server Db → Server Db
  updates zero s = s
  updates (suc n) s = updates n (update_battle_maps redis s)

  -- After any number of ticks without a message a battle that runs is the same with its counter moved
  -- on while the counter is below 3000, and is no longer listed after that; a battle that waits for its
  -- defender is as it was, and no battle is new.
  pub lookup-updates :
      (n uid : ℕ) (s : Server Db)
      → IsFought s
      → lookup uid (updates n s).battle_maps ≡ later n (lookup uid s.battle_maps)
  unfolding updates update_battle_maps
  lookup-updates zero uid s h =
      sym (later-zero uid (lookup uid s.battle_maps) (found-IsFair uid s h))
  lookup-updates (suc n) uid s h =
      lookup-updates n uid (update_battle_maps redis s) (update_battle_maps-IsFought redis s h)
      ∙ ap (later n) (update_all-lookup redis uid s.battle_maps s h.0 h.1)
      ∙ later-suc n (lookup uid s.battle_maps)
