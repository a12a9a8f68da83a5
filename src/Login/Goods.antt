-- ===== src/Login/Goods.antt =====
-- gateway_server/service/_login_worker.h, module/msgpack_struct.h and the market of
-- gateway_server/database/redis_chat_worker.cpp: equipment, where it can be, and the market.
use cpp_framework.Prelude.{
  ℕ, zero, suc, ◌-◌, Bool, true, false, ◌&&◌, Option, none, some, List, [], ◌∷◌, ◌++◌, ◌==◌,
  nat_key, bytes_key, Bytes, Dict, lookup, assign, erase, length, get_elem?, set, if◌then◌else◌,
  ltb, signed_le, int_add, ◌≡◌, arith, Option-cases, inl, inr,
}
use cpp_framework.Router.Fault.{Fault, Result, ok, or_fault}

pub record Stats : Type 0 where
  pub part : ℕ
  pub quality : ℕ
  pub level : ℕ
  pub attr1_type : ℕ
  pub attr1_value : ℕ
  pub attr2_type : ℕ
  pub attr2_value : ℕ
  pub extral1_type : ℕ
  pub extral1_value : ℕ
  pub extral2_type : ℕ
  pub extral2_value : ℕ

-- `EquipResponse`; `witch_pannle` is 0 in the backpack, 1 on a hero, 2 in a mail and -1 in an empty place.
pub record Equip : Type 0 where
  pub witch_pannle : ℕ
  pub where_uuid : Bytes
  pub position : ℕ
  pub equip_sn : Bytes
  pub stats : Stats
  pub diamond_cost : ℕ

-- `MarketGoodsResponse`
pub record Goods : Type 0 where
  pub player : Bytes
  pub remain_time : ℕ
  pub diamond_cost : ℕ
  pub goods_type : ℕ
  pub position : ℕ
  pub equip_sn : Bytes
  pub stats : Stats

-- `EmailSaleResponse`
pub record Mail : Type 0 where
  pub email_uuid : Bytes
  pub diamond : ℕ
  pub time : ℕ
  pub other_name : Bytes
  pub equip : Equip

-- What equipment adds to a hero.
pub record Bonus : Type 0 where
  pub leader : ℕ
  pub strategy : ℕ
  pub economy : ℕ
  pub strength : ℕ
  pub magic_power : ℕ
  pub hp : ℕ
  pub mp : ℕ

-- `HeroResponse`; `attributes` has what is computed with floats.
pub record Hero (H : Type 0) : Type 0 where
  pub hero_sn : ℕ
  pub hero_uuid : Bytes
  pub cur_goods_space : ℕ
  pub job : ℕ
  pub attributes : H

-- `gloabal_market` and `market_index`
pub record Market : Type 0 where
  pub goods : List Goods
  pub index : Dict Bytes ℕ

pub data Request : Type 0 where
  dress_equip unload_equip sale_goods buy_market_goods open_box get_email_goods : Request

-- A command for redis or MySQL, or a message for a player.
pub data Effect (H : Type 0) : Type 0 where
  set_equip : Equip → Effect H
  del_equip : Bytes → Effect H
  set_hero : Hero H → Effect H
  update_diamond : ℕ → Effect H
  set_email_sale : Mail → (uuid : ℕ) → Effect H
  del_email_sale : Mail → Effect H
  equip : Equip → Effect H
  hero : Hero H → Effect H
  asset : (diamond : ℕ) → Effect H
  email_sale : Mail → (uuid : ℕ) → Effect H
  simple : Request → (result : ℕ) → Effect H

-- One player, the market, and the mails of those who are online; `effects` has what was done, last first.
pub record Player (H : Type 0) : Type 0 where
  pub uuid : ℕ
  pub name : Bytes
  pub diamond : ℕ
  pub backpack_num : ℕ
  pub backpack_status : List Bool
  pub my_backpack : List Equip
  pub my_hero : List (Option (Hero H))
  pub hero_equip : Dict Bytes (List Equip)
  pub market : Market
  pub mails : Dict ℕ (Dict Bytes Mail)
  pub effects : List (Effect H)

module _ {H : Type 0} where
  abbrev pub emit : Effect H → Player H → Player H
  emit e p = record p { effects = e ∷ p.effects }

  abbrev pub refuse : Request → ℕ → Player H → Result (Player H)
  refuse request result p = ok (emit (Effect.simple request result) p)

-- `at[index]` of an array
abbrev pub at {ℓ} : {A : Type ℓ} → List A → ℕ → Result A
at array index = or_fault Fault.bad_iterator (get_elem? array index)

first_free : ℕ → List Bool → Option ℕ
first_free zero status = none
first_free (suc n) [] = none
first_free (suc n) (taken ∷ status) =
    let later = first_free n status in
    if taken then elim later [ none ↦ none | some i ↦ some (suc i) ] else some 0

-- `GetBackpack`
unfoldable pub get_backpack : ℕ → List Bool → Option ℕ
unfolding first_free
get_backpack backpack_num status =
    if signed_le 32 12 backpack_num && signed_le 32 backpack_num 64
    then first_free backpack_num status
    else none

first_free-free :
    (n : ℕ) (status : List Bool) (i : ℕ)
    → first_free n status ≡ some i
    → get_elem? status i ≡ some false
unfolding first_free
first_free-free zero status i h = cc
first_free-free (suc n) [] i h = cc
first_free-free (suc n) (false ∷ status) i h = ground arith
first_free-free (suc n) (true ∷ status) i h = elim (Option-cases (first_free n status)) [
  | inl e ↦ absurd (ground (arith, e, h))
  | inr (j, e) ↦ ground (arith, e, h, first_free-free n status j e)
]

-- The place that is found in the backpack is free.
pub get_backpack-free :
    (backpack_num : ℕ) (status : List Bool) (i : ℕ)
    → get_backpack backpack_num status ≡ some i
    → get_elem? status i ≡ some false
unfolding get_backpack
get_backpack-free backpack_num status i h = ground (arith, first_free-free backpack_num status i, h)

unfoldable pub add_bonus : ℕ → ℕ → Bonus → Bonus
add_bonus kind value b =
    if kind == 1
    then record b { leader = int_add b.leader value }
    else if kind == 2
    then record b { strategy = int_add b.strategy value }
    else if kind == 3
    then record b { economy = int_add b.economy value }
    else if kind == 4
    then record b { strength = int_add b.strength value }
    else if kind == 5
    then record b { magic_power = int_add b.magic_power value }
    else if kind == 6
    then record b { hp = int_add b.hp value }
    else if kind == 7
    then record b { mp = int_add b.mp value }
    else b

abbrev pub no_bonus : Bonus
no_bonus = record {
  leader = 0;
  strategy = 0;
  economy = 0;
  strength = 0;
  magic_power = 0;
  hp = 0;
  mp = 0;
}

unfoldable pub equip_bonus : Stats → Bonus → Bonus
unfolding add_bonus
equip_bonus e b = add_bonus e.extral2_type e.extral2_value (
    add_bonus e.extral1_type e.extral1_value
      (add_bonus e.attr2_type e.attr2_value (add_bonus e.attr1_type e.attr1_value b)))

unfoldable pub bonus_of : List Equip → Bonus → Bonus
unfolding equip_bonus
bonus_of [] b = b
bonus_of (e ∷ equips) b = bonus_of equips (if e.witch_pannle == 1 then equip_bonus e.stats b else b)

-- `hero_equip[uuid]`, which a hero without an entry gets empty.
unfoldable pub equips_of : Bytes → Dict Bytes (List Equip) → List Equip
equips_of uuid all = elim (lookup uuid all) [ none ↦ [] | some equips ↦ equips ]

-- `find_hero_equip_sn`
unfoldable pub find_hero_equip_sn : List Equip → Option ℕ
find_hero_equip_sn [] = none
find_hero_equip_sn (e ∷ equips) =
    let later = find_hero_equip_sn equips in
    if e.witch_pannle == 1 then elim later [ none ↦ none | some i ↦ some (suc i) ] else some 0

-- `set_market`: the goods stay for a day.
unfoldable pub set_market : Goods → Market → Market
set_market g m = record {
  goods = m.goods ++ (record g { remain_time = 86400 } ∷ []);
  index = assign g.equip_sn (length m.goods) m.index;
}

unfoldable pub pop_back : List Goods → List Goods
pop_back [] = []
pop_back (g ∷ []) = []
pop_back (g ∷ h ∷ goods) = g ∷ pop_back (h ∷ goods)

unfoldable pub remove_at : Bytes → ℕ → Market → Market
unfolding pop_back
remove_at equip_sn i m = elim (get_elem? m.goods (length m.goods - 1)) [
  | none ↦ m
  | some last ↦ record {
    goods = pop_back (set m.goods i last);
    index = erase equip_sn (assign last.equip_sn i m.index);
  }
]

-- `del_market`: the last goods take the place of those that go.
unfoldable pub del_market : Bytes → Market → Market
unfolding remove_at
del_market equip_sn m = elim (lookup equip_sn m.index) [
  | none ↦ m
  | some i ↦
      if ltb i (length m.goods)
      then if length m.goods == 1 then record { goods = []; index = [] } else remove_at equip_sn i m
      else m
]
