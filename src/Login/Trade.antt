-- ===== src/Login/Trade.antt =====
-- gateway_server/service/_login_worker_logicworker.cpp: selling and buying equipment, boxes and mails. `now` is
-- `time(0)`, and the identifiers and random numbers that a call draws are its arguments. The copies of
-- the market and of the mails in redis are left out, and so are messages without an effect here.
pub mod Listed
pub mod Lost
mod Tests
use cpp_framework.Prelude.{
  ℕ, zero, suc, ◌+◌, ◌-◌, ◌*◌, ◌/◌, ◌%◌, ◌^◌, Bool, true, false, not, ◌||◌, Option, none, some,
  List, [], ◌∷◌, ◌==◌, nat_key, bytes_key, Bytes, Dict, lookup, assign, erase, length, get_elem?,
  set, if◌then◌else◌, ltb, signed_le, int_add, int_sub, codes,
}
use cpp_framework.Router.Fault.{Fault, Result, ok, ◌>>=◌, or_fault}
use cpp_framework.Login.State.{negative}
use cpp_framework.Login.Goods.{
  Stats, Equip, Goods, Mail, Market, Request, Effect, Player, emit, refuse, at, get_backpack,
  set_market, del_market,
}

abbrev space_not_enough : ℕ
space_not_enough = negative 6

abbrev money_not_enough : ℕ
money_not_enough = negative 7

unfoldable pub goods_of : Bytes → ℕ → Equip → ℕ → Goods
goods_of name now e diamond_cost = record {
  player = name;
  remain_time = now;
  diamond_cost = if signed_le 32 diamond_cost 0 then 1 else diamond_cost;
  goods_type = 0;
  position = 1;
  equip_sn = e.equip_sn;
  stats = e.stats;
}

-- The copy takes the value of the second extra attribute for that of the first.
unfoldable pub copied_stats : Stats → Stats
copied_stats s = record s { extral1_value = s.extral2_value }

unfoldable pub bought : Goods → ℕ → Equip
unfolding copied_stats
bought g bag = record {
  witch_pannle = 0;
  where_uuid = [];
  position = bag;
  equip_sn = g.equip_sn;
  stats = copied_stats g.stats;
  diamond_cost = 10;
}

-- `random` draws six numbers.
unfoldable pub box_stats : (random : ℕ → ℕ) → Stats
box_stats random = record {
  part = random 0 % 4 + 1;
  quality = random 1 % 3 + 1;
  level = 10;
  attr1_type = random 2 % 7 + 1;
  attr1_value = 10;
  attr2_type = random 3 % 7 + 1;
  attr2_value = 10;
  extral1_type = random 4 % 7 + 1;
  extral1_value = 10;
  extral2_type = random 5 % 7 + 1;
  extral2_value = 10;
}

module _ {H : Type 0} where
  -- Equipment that comes into the backpack.
  unfoldable pub pack : ℕ → Equip → Player H → Player H
  pack bag e p = emit (Effect.set_equip e) (record p {
    backpack_status = set p.backpack_status bag true;
    my_backpack = set p.my_backpack bag e;
  })

  -- The mail of a player who is online.
  unfoldable pub deliver : Mail → ℕ → Player H → Player H
  deliver m uuid p = elim (lookup uuid p.mails) [
    | none ↦ p
    | some mails ↦
        emit (Effect.email_sale m uuid)
          (record p { mails = assign uuid (assign m.email_uuid m mails) p.mails })
  ]

  unfoldable pub sell : ℕ → Equip → Goods → Player H → Player H
  sell place e g p =
      emit (Effect.simple Request.sale_goods 0) (record (emit (Effect.del_equip e.equip_sn) p) {
        backpack_status = set p.backpack_status place false;
        market = set_market g p.market;
      })

  unfoldable pub sale_goods : (now position diamond_cost : ℕ) → Player H → Result (Player H)
  unfolding sell
  sale_goods now place diamond_cost p =
      if signed_le 32 0 place || not (signed_le 32 64 p.backpack_num)
      then at p.backpack_status place >>= (λ taken.
        if taken
        then at p.my_backpack place
          >>= (λ e. ok (sell place e (goods_of p.name now e diamond_cost) p))
        else refuse Request.sale_goods (negative 1) p)
      else refuse Request.sale_goods (negative 1) p

  unfoldable pub receive : ℕ → Goods → Player H → Player H
  unfolding bought
  receive bag g p =
      let paid = record p { diamond = int_sub p.diamond g.diamond_cost } in
      let packed = pack bag (bought g bag) (emit (Effect.update_diamond paid.diamond) paid) in
      emit (Effect.asset paid.diamond) (
        emit (Effect.simple Request.buy_market_goods 0) (
          emit (Effect.equip (bought g bag))
            (record packed { market = del_market g.equip_sn packed.market })))

  module _ (user_uuid : Bytes → ℕ) where
    -- The seller's mail, for the price that now stands where the goods stood. `unset` is the equipment of a
    -- mail that is given none.
    unfoldable pub pay_seller :
        (unset : Equip) (now : ℕ) (email_uuid : Bytes) → ℕ → Goods → Player H → Result (Player H)
    pay_seller unset now email_uuid i g p =
        or_fault Fault.dangling (get_elem? (p.market).goods i) >>= λ e.
        let m : Mail = record {
          email_uuid = email_uuid;
          diamond = e.diamond_cost;
          time = now;
          other_name = p.name;
          equip = unset;
        } in
        let seller = user_uuid g.player in
        ok (deliver m seller (emit (Effect.set_email_sale m seller) p))

    unfoldable pub buy_at :
        (unset : Equip) (now : ℕ) (email_uuid : Bytes) → ℕ → Player H → Result (Player H)
    buy_at unset now email_uuid i p = elim (get_backpack p.backpack_num p.backpack_status) [
      | none ↦ refuse Request.buy_market_goods space_not_enough p
      | some bag ↦ or_fault Fault.bad_iterator (get_elem? (p.market).goods i) >>= λ g.
          if signed_le 32 g.diamond_cost p.diamond
          then pay_seller unset now email_uuid i g (receive bag g p)
          else refuse Request.buy_market_goods money_not_enough p
    ]

    unfoldable pub buy_market_goods :
        (unset : Equip) (now : ℕ) (email_uuid goods_sn : Bytes) → Player H → Result (Player H)
    unfolding buy_at
    buy_market_goods unset now email_uuid goods_sn p = elim (lookup goods_sn (p.market).index) [
      | none ↦ refuse Request.buy_market_goods (negative 1) p
      | some i ↦
          if ltb i (length (p.market).goods)
          then buy_at unset now email_uuid i p
          else refuse Request.buy_market_goods (negative 1) p
    ]

    -- Goods whose time is over return to their player.
    unfoldable pub push_notify : (now : ℕ) (email_uuid : Bytes) → Goods → Player H → Player H
    push_notify now email_uuid g p =
        let e : Equip = record {
          witch_pannle = 2;
          where_uuid = email_uuid;
          position = 0;
          equip_sn = g.equip_sn;
          stats = copied_stats g.stats;
          diamond_cost = 10;
        } in
        let m : Mail = record {
          email_uuid = email_uuid;
          diamond = 0;
          time = now;
          other_name = codes "MySelf";
          equip = e;
        } in
        let owner = user_uuid g.player in
        deliver m owner (
          emit (Effect.set_email_sale m owner)
            (record p { market = del_market g.equip_sn p.market }))

  -- What a mail holds: equipment, if there is room for it, or diamonds.
  unfoldable pub open_mail : Mail → Player H → Player H
  unfolding pack
  open_mail m p =
      if signed_le 32 m.diamond 0
      then elim (get_backpack p.backpack_num p.backpack_status) [
        | none ↦ p
        | some bag ↦
            emit (Effect.del_email_sale m)
              (pack bag (record (m.equip) { witch_pannle = 0; position = bag }) p)
      ]
      else emit (Effect.update_diamond (int_add p.diamond m.diamond))
          (record p { diamond = int_add p.diamond m.diamond })

  unfoldable pub get_email_goods : (email_uuid : Bytes) → Player H → Player H
  unfolding open_mail
  get_email_goods email_uuid p =
      let refused = emit (Effect.simple Request.get_email_goods (negative 1)) p in
      elim (lookup p.uuid p.mails) [
        | none ↦ refused
        | some mails ↦ elim (lookup email_uuid mails) [
          | none ↦ refused
          | some m ↦
              let opened = emit (Effect.del_email_sale m) (open_mail m p) in
              emit (Effect.simple Request.get_email_goods 0)
                (record opened { mails = assign p.uuid (erase email_uuid mails) opened.mails })
        ]
      ]

  unfoldable pub open_box : (random : ℕ → ℕ) (equip_sn : Bytes) → Player H → Player H
  unfolding pack box_stats
  open_box random equip_sn p = elim (get_backpack p.backpack_num p.backpack_status) [
    | none ↦ emit (Effect.simple Request.open_box space_not_enough) p
    | some bag ↦
        let e : Equip = record {
          witch_pannle = 0;
          where_uuid = codes "NoEquipUUID";
          position = bag;
          equip_sn = equip_sn;
          stats = box_stats random;
          diamond_cost = 10;
        } in
        emit (Effect.equip e) (pack bag e p)
  ]

-- The rounds of the loop over a page that are left.
unfoldable pub page_goods : ℕ → ℕ → List Goods → List Goods
page_goods zero i goods = []
page_goods (suc rounds) i goods =
    let rest = page_goods rounds (suc i) goods in
    elim (get_elem? goods i) [ none ↦ rest | some g ↦ g ∷ rest ]

-- `LookMarketGoodsRequestService`: the goods of a page, and the number of pages.
unfoldable pub look_market_goods : ℕ → Market → Option (List Goods × ℕ)
unfolding page_goods
look_market_goods page_num m =
    let all_page = length m.goods / 5 + 1 in
    if not (signed_le 32 1 page_num) || not (signed_le 32 page_num all_page)
    then none
    else some (page_goods 5 ((page_num - 1) * 5) m.goods, all_page)
