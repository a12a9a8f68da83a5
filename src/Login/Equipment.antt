-- ===== src/Login/Equipment.antt =====
-- gateway_server/service/_login_worker_logicworker.cpp: equipment on heroes and in the backpack. `recaculate`
-- is the part of `HeroRecaculate` that is computed with floats.
pub mod Conserved
use cpp_framework.Prelude.{
  ℕ, zero, suc, ◌+◌, ◌-◌, ◌^◌, Bool, true, false, not, ◌&&◌, ◌||◌, Option, none, some, List, [],
  ◌∷◌, ◌==◌, nat_key, bytes_key, Bytes, Dict, lookup, insert, modify, get_elem?, set, if◌then◌else◌,
  signed_le,
}
use cpp_framework.Router.Fault.{Fault, Result, ok, ◌>>=◌, or_fault}
use cpp_framework.Login.State.{negative}
use cpp_framework.Login.Goods.{
  Equip, Bonus, Hero, Request, Effect, Player, emit, refuse, at, get_backpack, no_bonus, bonus_of,
  equips_of, find_hero_equip_sn,
}

unfoldable pub out_of_reach : (which_hero backpack_position backpack_num : ℕ) → Bool
out_of_reach which_hero bag backpack_num =
    not (signed_le 32 0 bag)
    || (signed_le 32 backpack_num bag
        || (not (signed_le 32 1 which_hero) || not (signed_le 32 which_hero 5)))

unfoldable pub out_of_places : (which_hero position : ℕ) → Bool
out_of_places which_hero place =
    not (signed_le 32 1 which_hero)
    || (not (signed_le 32 which_hero 5)
        || (not (signed_le 32 0 place) || not (signed_le 32 place 5)))

module _ {H : Type 0} (recaculate : H → Bonus → H) where
  unfoldable pub hero_recaculate : Dict Bytes (List Equip) → Hero H → Hero H
  hero_recaculate all h = record h {
    attributes = recaculate h.attributes (bonus_of (equips_of h.hero_uuid all) no_bonus);
  }

  unfoldable pub update_hero : ℕ → Hero H → Player H → Player H
  unfolding hero_recaculate
  update_hero place h p =
      let better = hero_recaculate p.hero_equip h in
      emit (Effect.hero better)
        (emit (Effect.set_hero better) (record p { my_hero = set p.my_hero place (some better) }))

  -- Equipment of the backpack on a hero.
  abbrev pub on_hero : Equip → Hero H → ℕ → Equip
  on_hero e h place = record e { witch_pannle = 1; where_uuid = h.hero_uuid; position = place }

  -- What was worn there goes to the backpack, or the place in the backpack gets free.
  unfoldable pub put_on : Hero H → ℕ → ℕ → List Equip → Equip → Equip → Player H → Player H
  put_on h place bag equips packed worn p =
      let e1 = on_hero packed h place in
      let e = record worn { witch_pannle = 0; position = bag } in
      let t = record p {
        hero_equip = modify h.hero_uuid (λ _. set equips place e1) p.hero_equip;
      } in
      if worn.witch_pannle == 1
      then emit (Effect.set_equip e1)
          (emit (Effect.set_equip e) (record t { my_backpack = set p.my_backpack bag e }))
      else emit (Effect.set_equip e1) (record t {
        my_backpack = set p.my_backpack bag e1;
        backpack_status = set p.backpack_status bag false;
      })

  unfoldable pub dress_at : ℕ → Hero H → ℕ → ℕ → Player H → Result (Player H)
  unfolding put_on
  dress_at which h place bag p =
      let equips = equips_of h.hero_uuid p.hero_equip in
      at equips place >>= λ worn. at p.my_backpack bag >>= λ packed.
      ok (update_hero which h (put_on h place bag equips packed worn p))

  -- Without a place, the first that is free; the search enters the hero into the table.
  unfoldable pub enter : Hero H → Player H → Player H
  enter h p = elim (lookup h.hero_uuid p.hero_equip) [
    | none ↦ record p { hero_equip = insert h.hero_uuid [] p.hero_equip }
    | some equips ↦ p
  ]

  unfoldable pub dress_hero : ℕ → Hero H → ℕ → ℕ → Player H → Result (Player H)
  dress_hero which h hero_position bag p =
      if hero_position == negative 1
      then elim (find_hero_equip_sn (equips_of h.hero_uuid p.hero_equip)) [
        | none ↦ refuse Request.dress_equip (negative 4) (enter h p)
        | some place ↦ dress_at which h place bag (enter h p)
      ]
      else dress_at which h hero_position bag p

  unfoldable pub dress_equip :
      (which_hero backpack_position hero_position : ℕ) → Player H → Result (Player H)
  dress_equip which_hero bag place p =
      if out_of_reach which_hero bag p.backpack_num
      then refuse Request.dress_equip (negative 1) p
      else at p.backpack_status bag >>= λ taken. at p.my_hero (which_hero - 1) >>= λ hero.
          elim hero [
            | none ↦ refuse Request.dress_equip (negative 2) p
            | some h ↦
                if not taken
                then refuse Request.dress_equip (negative 2) p
                else if signed_le 32 h.cur_goods_space place
                then refuse Request.dress_equip (negative 3) p
                else dress_hero (which_hero - 1) h place bag p
          ]

  unfoldable pub take_off : ℕ → Hero H → ℕ → ℕ → List Equip → Equip → Player H → Player H
  unfolding update_hero
  take_off which h place bag equips worn p =
      let e = record worn { witch_pannle = 0; position = bag } in
      let packed = emit (Effect.set_equip e) (record p {
        backpack_status = set p.backpack_status bag true;
        my_backpack = set p.my_backpack bag e;
        hero_equip =
            modify h.hero_uuid (λ _. set equips place (record worn { witch_pannle = negative 1 }))
              p.hero_equip;
      }) in
      emit (Effect.simple Request.unload_equip 0) (update_hero which h packed)

  -- The hero has an entry, whose place is looked at first, or none, and then there is no such place.
  unfoldable pub unload_hero : ℕ → Hero H → ℕ → Player H → Result (Player H)
  unfolding take_off
  unload_hero which h place p = elim (lookup h.hero_uuid p.hero_equip) [
    | none ↦ elim (get_backpack p.backpack_num p.backpack_status) [
      | none ↦ refuse Request.unload_equip (negative 4) p
      | some bag ↦ or_fault Fault.bad_iterator none
    ]
    | some equips ↦ at equips place >>= λ worn.
        if not (worn.witch_pannle == 1)
        then refuse Request.unload_equip (negative 3) p
        else elim (get_backpack p.backpack_num p.backpack_status) [
          | none ↦ refuse Request.unload_equip (negative 4) p
          | some bag ↦ ok (take_off which h place bag equips worn p)
        ]
  ]

  unfoldable pub unload_equip : (which_hero position : ℕ) → Player H → Result (Player H)
  unload_equip which_hero place p =
      if out_of_places which_hero place
      then refuse Request.unload_equip (negative 1) p
      else at p.my_hero (which_hero - 1) >>= λ hero. elim hero [
        | none ↦ refuse Request.unload_equip (negative 2) p
        | some h ↦ unload_hero (which_hero - 1) h place p
      ]
