-- ===== src/Login/Trade/Lost.antt =====
-- gateway_server/service/_login_worker_logicworker.cpp: the price that a seller is sent.
use cpp_framework.Prelude.{
  ℕ, zero, suc, ◌-◌, ◌≡◌, refl, true, none, some, List, [], ◌∷◌, ◌==◌, nat_key, bytes_key, Bytes,
  length, get_elem?, set, if◌then◌else◌, ltb, signed_le, arith, Bool-cases, inl, inr, get_elem?-lt,
  get_elem?-set_self, length-set, lt→ltb,
}
use cpp_framework.Router.Fault.{Fault, ok, fault}
use cpp_framework.Login.Goods.{
  Equip, Goods, Mail, Market, Effect, Player, emit, get_backpack, pop_back, remove_at, del_market,
}
use cpp_framework.Login.Trade.{deliver, pack, receive, pay_seller, buy_at, buy_market_goods}
use cpp_framework.Login.Trade.Listed.{IsListed, name_at_lem}

get_elem?-pop_back :
    (goods : List Goods) (i : ℕ)
    → get_elem? (pop_back goods) i
      ≡ (if ltb (suc i) (length goods) then get_elem? goods i else none)
unfolding pop_back
get_elem?-pop_back [] i = ground arith
get_elem?-pop_back (g ∷ []) i = ground arith
get_elem?-pop_back (g ∷ h ∷ goods) zero = ground arith
get_elem?-pop_back (g ∷ h ∷ goods) (suc i) = ground (arith, get_elem?-pop_back (h ∷ goods) i)

-- What stands where goods stood that were taken from the market.
get_elem?-del_market :
    (m : Market) (i : ℕ) (g last : Goods)
    → IsListed m
    → get_elem? m.goods i ≡ some g
    → get_elem? m.goods (length m.goods - 1) ≡ some last
    → get_elem? (del_market g.equip_sn m).goods i
      ≡ (if ltb (suc i) (length m.goods) then some last else none)
unfolding del_market
get_elem?-del_market m i g last h here at_end =
    let inside = get_elem?-lt m.goods i g here in
    let found = h.covers i g.equip_sn (name_at_lem m.goods i g here) in
    rw (found, del_market)
      (rw (lt→ltb _ _ inside) (elim (Bool-cases (length m.goods == 1)) [
        | inl one ↦ rw one (ground (arith, one, inside))
        | inr more ↦ rw more (
            rw (at_end, remove_at)
              (ground (
                arith,
                get_elem?-pop_back (set m.goods i last) i,
                length-set m.goods i last,
                get_elem?-set_self m.goods i last inside,
              )))
      ]))

abbrev pub sale_mail : Equip → ℕ → Bytes → Bytes → ℕ → Mail
sale_mail unset now email_uuid name diamond = record {
  email_uuid = email_uuid;
  diamond = diamond;
  time = now;
  other_name = name;
  equip = unset;
}

module _ {H : Type 0} (user_uuid : Bytes → ℕ) where
  pay_seller-some :
      (unset : Equip) (now : ℕ) (email_uuid : Bytes) (i bag : ℕ) (g e : Goods) (p : Player H)
      → get_elem? (del_market g.equip_sn p.market).goods i ≡ some e
      → pay_seller user_uuid unset now email_uuid i g (receive bag g p)
        ≡ ok (
            let m = sale_mail unset now email_uuid p.name e.diamond_cost in
            deliver m
              (user_uuid g.player)
              (emit (Effect.set_email_sale m (user_uuid g.player)) (receive bag g p)))
  unfolding pay_seller receive pack
  pay_seller-some unset now email_uuid i bag g e p h = rw (h, pay_seller) refl

  pay_seller-none :
      (unset : Equip) (now : ℕ) (email_uuid : Bytes) (i bag : ℕ) (g : Goods) (p : Player H)
      → get_elem? (del_market g.equip_sn p.market).goods i ≡ none
      → pay_seller user_uuid unset now email_uuid i g (receive bag g p) ≡ fault Fault.dangling
  unfolding pay_seller receive pack
  pay_seller-none unset now email_uuid i bag g p h = rw (h, pay_seller) refl

  -- Goods that can be bought for their price and for which there is a place: the seller's mail has the price
  -- of the last goods on the market instead, and where the goods are the last a deleted object is read.
  pub buy_market_goods-price :
      (unset : Equip) (now : ℕ) (email_uuid : Bytes) (i bag : ℕ) (g last : Goods) (p : Player H)
      → IsListed p.market
      → get_elem? (p.market).goods i ≡ some g
      → get_elem? (p.market).goods (length (p.market).goods - 1) ≡ some last
      → get_backpack p.backpack_num p.backpack_status ≡ some bag
      → signed_le 32 g.diamond_cost p.diamond ≡ true
      → buy_market_goods user_uuid unset now email_uuid g.equip_sn p ≡ (
          if ltb (suc i) (length (p.market).goods)
          then ok (
              let m = sale_mail unset now email_uuid p.name last.diamond_cost in
              deliver m
                (user_uuid g.player)
                (emit (Effect.set_email_sale m (user_uuid g.player)) (receive bag g p)))
          else fault Fault.dangling)
  unfolding buy_market_goods
  buy_market_goods-price unset now email_uuid i bag g last p h here at_end room enough =
      let inside = get_elem?-lt (p.market).goods i g here in
      let found = h.covers i g.equip_sn (name_at_lem (p.market).goods i g here) in
      rw (found, buy_market_goods)
        (rw (lt→ltb _ _ inside) (
          rw (room, buy_at)
            (rw here (
              rw enough (
                let there = get_elem?-del_market p.market i g last h here at_end in
                elim (Bool-cases (ltb (suc i) (length (p.market).goods))) [
                  | inl e ↦
                      rw e (pay_seller-some unset now email_uuid i bag g last p (rw e at there))
                  | inr e ↦ rw e (pay_seller-none unset now email_uuid i bag g p (rw e at there))
                ])))))
