-- ===== src/Login/Trade/Tests.antt =====
-- gateway_server/service: a player with a hero, equipment, goods on the market and a mail.
use cpp_framework.Prelude.{
  ℕ, zero, suc, ◌≡◌, refl, true, false, none, some, [], ◌∷◌, codes, Bytes, bytes_key, nat_key,
  bytes_eq_iff, lookup, replicate, ltb, if◌then◌else◌, signed_le, arith,
}
use cpp_framework.Router.Fault.{Fault, ok, fault}
use cpp_framework.Router.Returns.{OnOk}
use cpp_framework.Login.Goods.{
  Stats, Equip, Goods, Mail, Bonus, Hero, Market, Effect, Player, emit, get_backpack, del_market,
}
use cpp_framework.Login.Equipment.{dress_equip, unload_equip}
use cpp_framework.Login.Equipment.Conserved.{owns, dress_equip-owns, unload_equip-owns}
use cpp_framework.Login.Trade.{deliver, receive, buy_market_goods}
use cpp_framework.Login.Trade.Listed.{IsListed, name_at, del_market-IsListed}
use cpp_framework.Login.Trade.Lost.{sale_mail, buy_market_goods-price}

abbrev plain : Stats
plain = record {
  part = 1;
  quality = 1;
  level = 10;
  attr1_type = 1;
  attr1_value = 10;
  attr2_type = 2;
  attr2_value = 10;
  extral1_type = 3;
  extral1_value = 10;
  extral2_type = 4;
  extral2_value = 20;
}

abbrev sword : Equip
sword = record {
  witch_pannle = 0;
  where_uuid = [];
  position = 0;
  equip_sn = codes "sword";
  stats = plain;
  diamond_cost = 10;
}

abbrev helmet : Equip
helmet = record sword { witch_pannle = 1; equip_sn = codes "helmet" }

abbrev offer : Goods
offer = record {
  player = codes "seller";
  remain_time = 86400;
  diamond_cost = 5;
  goods_type = 0;
  position = 1;
  equip_sn = codes "ring";
  stats = plain;
}

abbrev dear_offer : Goods
dear_offer = record offer { diamond_cost = 50; equip_sn = codes "crown" }

abbrev two_offers : Market
two_offers = record {
  goods = offer ∷ dear_offer ∷ [];
  index = (codes "crown", 1) ∷ (codes "ring", 0) ∷ [];
}

abbrev knight : Hero ℕ
knight = record {
  hero_sn = 1;
  hero_uuid = codes "knight";
  cur_goods_space = 6;
  job = 0;
  attributes = 0;
}

abbrev sword_mail : Mail
sword_mail = record {
  email_uuid = codes "mail";
  diamond = 0;
  time = 0;
  other_name = codes "MySelf";
  equip = sword;
}

-- The first place of the backpack has the sword, and the hero wears the helmet.
abbrev player : Player ℕ
player = record {
  uuid = 7;
  name = codes "player";
  diamond = 20;
  backpack_num = 12;
  backpack_status = true ∷ replicate 63 false;
  my_backpack = replicate 64 sword;
  my_hero = some knight ∷ replicate 5 none;
  hero_equip = (codes "knight", helmet ∷ replicate 5 (record sword { witch_pannle = 9 })) ∷ [];
  market = two_offers;
  mails = (7, (codes "mail", sword_mail) ∷ []) ∷ [];
  effects = [];
}

abbrev no_change : ℕ → Bonus → ℕ
no_change attributes bonus = attributes

dress_equip-owns_example :
    OnOk
      (λ q. owns (codes "sword") q ≡ owns (codes "sword") player)
      (dress_equip no_change 1 0 0 player)
dress_equip-owns_example = dress_equip-owns no_change (codes "sword") 1 0 0 player

unload_equip-owns_example :
    OnOk
      (λ q. owns (codes "helmet") q ≡ owns (codes "helmet") player)
      (unload_equip no_change 1 0 player)
unload_equip-owns_example = unload_equip-owns no_change (codes "helmet") 1 0 player refl

two_offers-leads :
    (i : ℕ) (sn : Bytes)
    → lookup sn two_offers.index ≡ some i
    → name_at two_offers.goods i ≡ some sn
unfolding lookup name_at
two_offers-leads zero sn e =
    ground (arith, e, bytes_eq_iff (codes "crown") sn, bytes_eq_iff (codes "ring") sn)
two_offers-leads (suc zero) sn e =
    ground (arith, e, bytes_eq_iff (codes "crown") sn, bytes_eq_iff (codes "ring") sn)
two_offers-leads (suc (suc i)) sn e = ground (arith, e)

two_offers-covers :
    (i : ℕ) (sn : Bytes)
    → name_at two_offers.goods i ≡ some sn
    → lookup sn two_offers.index ≡ some i
unfolding lookup name_at
two_offers-covers zero sn e = let named : codes "ring" ≡ sn = cc in rw (← named) refl
two_offers-covers (suc zero) sn e = let named : codes "crown" ≡ sn = cc in rw (← named) refl
two_offers-covers (suc (suc i)) sn e = cc

two_offers-IsListed : IsListed two_offers
two_offers-IsListed = record {
  leads = λ sn i e. two_offers-leads i sn e;
  covers = λ i sn e. two_offers-covers i sn e;
}

del_market-IsListed_example :
    IsListed (del_market (codes "ring") two_offers)
    × (lookup (codes "ring") (del_market (codes "ring") two_offers).index ≡ none)
del_market-IsListed_example = del_market-IsListed (codes "ring") two_offers two_offers-IsListed

abbrev seller_uuid : Bytes → ℕ
seller_uuid name = 7

buy_market_goods-price_example :
    buy_market_goods seller_uuid sword 100 (codes "new") (codes "ring") player ≡ (
      if ltb 1 2
      then ok (
          let m = sale_mail sword 100 (codes "new") (codes "player") 50 in
          deliver m 7 (emit (Effect.set_email_sale m 7) (receive 1 offer player)))
      else fault Fault.dangling)
buy_market_goods-price_example =
    buy_market_goods-price seller_uuid sword 100 (codes "new") 0 1 offer dear_offer player
      two_offers-IsListed refl refl (unfold get_backpack signed_le in refl)
      (unfold signed_le in refl)
