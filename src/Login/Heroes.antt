-- ===== src/Login/Heroes.antt =====
-- gateway_server/service/_login_worker_logicworker.cpp: naming heroes, taking them from the tavern and
-- dropping them. A hero's attributes are what is dealt to them; the values that are dealt are computed
-- with floats.
pub mod Dealt
pub mod Kept
mod Tests
use cpp_framework.Prelude.{
  ℕ, zero, suc, ◌+◌, ◌-◌, ◌%◌, ◌^◌, Bool, true, false, not, ◌||◌, ◌&&◌, Option, none, some, List,
  [], ◌∷◌, ◌==◌, nat_key, bytes_key, Bytes, Dict, lookup, assign, erase, length, get_elem?, get_or,
  set, replicate, if◌then◌else◌, ltb, signed_le,
}
use cpp_framework.Router.Fault.{Fault, Result, ok, fault, ◌>>=◌, or_fault}
use cpp_framework.Login.State.{negative}
use cpp_framework.Login.Goods.{Stats, Equip, Hero, at, equips_of}

-- `index_array` before the first value is dealt.
abbrev pub all_free : List Bool
all_free = replicate 5 true

-- `GetARandom() % (5 - i)` for the rounds.
unfoldable pub places : List ℕ → List ℕ
places [] = []
places (random ∷ randoms) = (random % suc (length randoms)) ∷ places randoms

-- The search for the next attribute that has no value.
unfoldable pub probe : ℕ → ℕ → List Bool → ℕ
probe zero index free = index
probe (suc rounds) index free =
    let later = probe rounds (suc index) free in
    if get_or free (suc index % 5) false then suc index else later

-- The attribute that a value goes to, and the others; a write behind the array is a fault.
unfoldable pub deal : List ℕ → List Bool → Result (List ℕ)
unfolding probe
deal [] free = ok []
deal (place ∷ rest) free =
    let index = if get_or free place false then place else probe 5 place free in
    let later = deal rest (set free index false) in
    if ltb index 5 then later >>= (λ dealt. ok (index ∷ dealt)) else fault Fault.bad_iterator

unfoldable pub get_hero_att : List ℕ → Result (List ℕ)
get_hero_att randoms = deal (places randoms) all_free

pub data Request : Type 0 where
  appoint_hero_request cancel_hero_request get_rand_hero_request drop_hero_request : Request
  recruit_request : Request

pub data Effect (H : Type 0) : Type 0 where
  set_hero : Hero H → Effect H
  del_hero : Bytes → Effect H
  move_hero : List (Option (Hero H)) → ℕ → Effect H
  simple : Request → (result : ℕ) → Effect H
  update_diamond asset : (diamond : ℕ) → Effect H
  hero_list : List (Option (Hero H)) → Effect H
  set_recurite : (recurite chance_num : ℕ) → Effect H

pub record Tavern (H : Type 0) : Type 0 where
  pub my_hero : List (Option (Hero H))
  pub rand_hero : List (Option (Hero H))
  pub hero_equip : Dict Bytes (List Equip)
  pub effects : List (Effect H)

-- The first of the places that is empty.
unfoldable pub empty_place {ℓ} : {A : Type ℓ} → ℕ → List (Option A) → Option ℕ
empty_place zero heroes = none
empty_place (suc n) [] = none
empty_place (suc n) (none ∷ heroes) = some 0
empty_place (suc n) (some h ∷ heroes) = elim (empty_place n heroes) [
  | none ↦ none
  | some i ↦ some (suc i)
]

module _ {H : Type 0} where
  abbrev pub emit : Effect H → Tavern H → Tavern H
  emit e t = record t { effects = e ∷ t.effects }

  -- The first hero of whom the test holds, and their place.
  unfoldable pub find_hero : (Hero H → Bool) → List (Option (Hero H)) → Option (ℕ × Hero H)
  find_hero test [] = none
  find_hero test (hero ∷ heroes) =
      let later : Option (ℕ × Hero H) = elim (find_hero test heroes) [
        | none ↦ none
        | some (i, h) ↦ some (suc i, h)
      ] in
      elim hero [ none ↦ later | some h ↦ if test h then some (0, h) else later ]

  unfoldable pub set_job : ℕ → ℕ → Hero H → Tavern H → Tavern H
  set_job job place h t =
      let named = record h { job = job } in
      emit (Effect.set_hero named) (record t { my_hero = set t.my_hero place (some named) })

  -- The hero who has the office loses it, and the one who is named gets it.
  unfoldable pub appoint_hero : Bytes → ℕ → Tavern H → Tavern H
  unfolding set_job
  appoint_hero hero_uuid job_title t =
      let left : Tavern H = elim (find_hero (λ h. h.job == job_title) t.my_hero) [
        | none ↦ t
        | some (i, h) ↦ set_job 0 i h t
      ] in
      elim (find_hero (λ h. h.hero_uuid == hero_uuid) left.my_hero) [
        | none ↦ left
        | some (i, h) ↦
            emit (Effect.simple Request.cancel_hero_request 0) (set_job job_title i h left)
      ]

  unfoldable pub cancel_hero : Bytes → Tavern H → Tavern H
  unfolding set_job
  cancel_hero hero_uuid t = elim (find_hero (λ h. h.hero_uuid == hero_uuid) t.my_hero) [
    | none ↦ emit (Effect.simple Request.cancel_hero_request (negative 1)) t
    | some (i, h) ↦ emit (Effect.simple Request.cancel_hero_request 0) (set_job 0 i h t)
  ]

  -- `empty` is equipment whose fields are zero.
  unfoldable pub hire : Equip → ℕ → ℕ → Hero H → Tavern H → Tavern H
  hire empty place which h t =
      let mine = record h { job = 0; hero_sn = suc place } in
      emit (Effect.simple Request.get_rand_hero_request 0) (
        emit (Effect.set_hero mine) (record t {
          my_hero = set t.my_hero place (some mine);
          rand_hero = set t.rand_hero which none;
          hero_equip =
              assign h.hero_uuid (replicate 6 (record empty { witch_pannle = negative 1 }))
                t.hero_equip;
        }))

  unfoldable pub get_rand_hero : Equip → ℕ → Tavern H → Result (Tavern H)
  unfolding hire
  get_rand_hero empty hero_sn t =
      if not (signed_le 32 hero_sn 0) && not (signed_le 32 4 hero_sn)
      then at t.rand_hero (hero_sn - 1) >>= (λ hero. elim (empty_place 5 t.my_hero) [
        | none ↦ ok (emit (Effect.simple Request.get_rand_hero_request (negative 1)) t)
        | some place ↦ elim hero [
          | none ↦ ok (emit (Effect.simple Request.get_rand_hero_request (negative 1)) t)
          | some h ↦ ok (hire empty place (hero_sn - 1) h t)
        ]
      ])
      else ok (emit (Effect.simple Request.get_rand_hero_request (negative 2)) t)

  -- The heroes behind the place move up.
  unfoldable pub move_up : ℕ → ℕ → List (Option (Hero H)) → List (Option (Hero H))
  move_up zero i heroes = heroes
  move_up (suc rounds) i heroes = move_up rounds (suc i) (elim (get_or heroes i none) [
    | none ↦ heroes
    | some h ↦ set (set heroes (i - 1) (some (record h { hero_sn = i }))) i none
  ])

  unfoldable pub dismiss : ℕ → Hero H → Tavern H → Tavern H
  unfolding move_up
  dismiss hero_sn h t =
      let gone = emit (Effect.del_hero h.hero_uuid) (record t {
        hero_equip = erase h.hero_uuid t.hero_equip;
        my_hero = set t.my_hero (hero_sn - 1) none;
      }) in
      let moved =
        if signed_le 32 6 hero_sn
        then gone
        else (let heroes = move_up (6 - hero_sn) hero_sn gone.my_hero in
            emit (Effect.move_hero heroes (hero_sn - 1)) (record gone { my_hero = heroes })) in
      emit (Effect.simple Request.drop_hero_request 0) moved

  -- The look-up of the equipment enters a hero that has none; the answer -2 follows in any case.
  unfoldable pub drop_hero : ℕ → Tavern H → Result (Tavern H)
  unfolding dismiss
  drop_hero hero_sn t =
      or_fault Fault.bad_iterator (if hero_sn == 0 then none else get_elem? t.my_hero (hero_sn - 1))
      >>= λ hero. elim hero [
        | none ↦ ok (emit (Effect.simple Request.drop_hero_request (negative 2)) t)
        | some h ↦ elim (equips_of h.hero_uuid t.hero_equip) [
          | [] ↦
              ok (emit (Effect.simple Request.drop_hero_request (negative 2)) (dismiss hero_sn h t))
          | e ∷ equips ↦ ok (emit (Effect.simple Request.drop_hero_request (negative 2)) t)
        ]
      ]
