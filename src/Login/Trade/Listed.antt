-- ===== src/Login/Trade/Listed.antt =====
-- gateway_server/database/redis_chat_worker.cpp: the index of the market leads to the goods.
use cpp_framework.Prelude.{
  ℕ, zero, suc, ◌-◌, ◌<◌, ◌≡◌, refl, Option, none, some, List, [], ◌∷◌, ◌++◌, ◌==◌, nat_key,
  bytes_key, Bytes, lookup, assign, erase, length, get_elem?, set, if◌then◌else◌, ltb, arith,
  lookup-assign, lookup-erase, bytes_eq_iff, Option-cases, Bool-cases, inl, inr, ltb→lt, lt→ltb,
  ◌⊎◌, length-set, get_elem?-present,
}
use cpp_framework.Login.Goods.{Goods, Market, set_market, pop_back, remove_at, del_market}

unfoldable pub name_at : List Goods → ℕ → Option Bytes
name_at [] i = none
name_at (g ∷ goods) zero = some g.equip_sn
name_at (g ∷ goods) (suc i) = name_at goods i

-- The index has the name of all goods, with their place, and nothing else.
pub record IsListed (m : Market) : Type 0 where
  pub leads : (sn : Bytes) (i : ℕ) → lookup sn m.index ≡ some i → name_at m.goods i ≡ some sn
  pub covers : (i : ℕ) (sn : Bytes) → name_at m.goods i ≡ some sn → lookup sn m.index ≡ some i

name_at-append :
    (goods : List Goods) (g : Goods) (i : ℕ)
    → name_at (goods ++ (g ∷ [])) i
      ≡ (if i == length goods then some g.equip_sn else name_at goods i)
unfolding name_at
name_at-append [] g zero = refl
name_at-append [] g (suc i) = ground arith
name_at-append (h ∷ goods) g zero = ground arith
name_at-append (h ∷ goods) g (suc i) = ground (arith, name_at-append goods g i)

name_at-pop_back :
    (goods : List Goods) (i : ℕ)
    → name_at (pop_back goods) i ≡ (if ltb (suc i) (length goods) then name_at goods i else none)
unfolding pop_back name_at
name_at-pop_back [] i = ground arith
name_at-pop_back (g ∷ []) i = ground arith
name_at-pop_back (g ∷ h ∷ goods) zero = ground arith
name_at-pop_back (g ∷ h ∷ goods) (suc i) = ground (arith, name_at-pop_back (h ∷ goods) i)

name_at-set :
    (goods : List Goods) (i j : ℕ) (g : Goods)
    → i < length goods
    → name_at (set goods i g) j ≡ (if i == j then some g.equip_sn else name_at goods j)
unfolding name_at
name_at-set [] i j g h = absurd (omega arith)
name_at-set (f ∷ goods) zero zero g h = ground arith
name_at-set (f ∷ goods) zero (suc j) g h = ground arith
name_at-set (f ∷ goods) (suc i) zero g h = ground arith
name_at-set (f ∷ goods) (suc i) (suc j) g h = ground (arith, name_at-set goods i j g)

name_at-lt :
    (goods : List Goods) (i : ℕ) (sn : Bytes) → name_at goods i ≡ some sn → i < length goods
unfolding name_at
name_at-lt [] i sn h = cc
name_at-lt (g ∷ goods) zero sn h = omega arith
name_at-lt (g ∷ goods) (suc i) sn h = omega (arith, name_at-lt goods i sn h)

pub name_at_lem :
    (goods : List Goods) (i : ℕ) (g : Goods)
    → get_elem? goods i ≡ some g
    → name_at goods i ≡ some g.equip_sn
unfolding name_at
name_at_lem [] i g h = cc
name_at_lem (f ∷ goods) zero g h = ground arith
name_at_lem (f ∷ goods) (suc i) g h = name_at_lem goods i g h

name_at_end :
    (goods : List Goods) (j : ℕ) (sn : Bytes) (last : Goods)
    → name_at goods j ≡ some sn
    → get_elem? goods (length goods - 1) ≡ some last
    → (suc j < length goods) ⊎ (last.equip_sn ≡ sn)
name_at_end goods j sn last h e = elim (Bool-cases (ltb (suc j) (length goods))) [
  | inl l ↦ inl (ltb→lt _ _ l)
  | inr l ↦
      let inside = name_at-lt goods j sn h in
      let place : length goods - 1 ≡ j = ground (arith, l, inside) in
      inr (ground (arith, name_at_lem goods j last (rw place at e), h))
]

-- Goods of a new name that come to the market keep its index right.
pub set_market-IsListed :
    (g : Goods) (m : Market)
    → lookup g.equip_sn m.index ≡ none
    → IsListed m
    → IsListed (set_market g m)
unfolding set_market
set_market-IsListed g m new h = record {
  leads = λ sn i e. ground (
    arith,
    bytes_eq_iff g.equip_sn sn,
    lookup-assign g.equip_sn sn (length m.goods) m.index,
    name_at-append m.goods (record g { remain_time = 86400 }) i,
    h.leads sn i,
    name_at-lt m.goods i sn,
  );
  covers = λ i sn e. ground (
    arith,
    bytes_eq_iff g.equip_sn sn,
    lookup-assign g.equip_sn sn (length m.goods) m.index,
    name_at-append m.goods (record g { remain_time = 86400 }) i,
    h.covers i sn,
    name_at-lt m.goods i sn,
  );
}

remove_at-IsListed :
    (gone : Bytes) (i : ℕ) (last : Goods) (m : Market)
    → lookup gone m.index ≡ some i
    → get_elem? m.goods (length m.goods - 1) ≡ some last
    → IsListed m
    → IsListed (record {
      goods = pop_back (set m.goods i last);
      index = erase gone (assign last.equip_sn i m.index);
    })
remove_at-IsListed gone i last m found at_end h =
    let n = length m.goods in
    let end_name = name_at_lem m.goods (n - 1) last at_end in
    let here = h.leads gone i found in
    let inside = name_at-lt m.goods i gone here in
    let end_at = h.covers (n - 1) last.equip_sn end_name in
    let goods = λ (j : ℕ). name_at-pop_back (set m.goods i last) j in
    let index = λ (s : Bytes). lookup-erase gone s (assign last.equip_sn i m.index) in
    record {
      leads = λ s j e. ground (
        arith,
        goods j,
        index s,
        length-set m.goods i last,
        name_at-set m.goods i j last inside,
        lookup-assign last.equip_sn s i m.index,
        h.leads s j,
        name_at_end m.goods j s last,
        at_end,
        end_name,
        here,
        found,
        bytes_eq_iff gone s,
        bytes_eq_iff last.equip_sn s,
      );
      covers = λ j s e. ground (
        arith,
        goods j,
        index s,
        length-set m.goods i last,
        name_at-set m.goods i j last inside,
        lookup-assign last.equip_sn s i m.index,
        h.covers j s,
        end_at,
        end_name,
        here,
        found,
        bytes_eq_iff gone s,
        bytes_eq_iff last.equip_sn s,
      );
    }

empty_lookup : (sn : Bytes) → lookup {V = ℕ} sn [] ≡ none
unfolding lookup
empty_lookup sn = refl

empty-IsListed : IsListed (record { goods = []; index = [] })
unfolding lookup name_at
empty-IsListed = record { leads = λ sn i e. cc; covers = λ i sn e. cc }

-- Taking goods from the market keeps its index right, whether they are there or not, and no place leads to
-- their name afterwards.
pub del_market-IsListed :
    (sn : Bytes) (m : Market)
    → IsListed m
    → IsListed (del_market sn m) × (lookup sn (del_market sn m).index ≡ none)
unfolding del_market remove_at
del_market-IsListed sn m h = elim (Option-cases (lookup sn m.index)) [
  | inl e ↦ rw (e, del_market) (h, e)
  | inr (i, e) ↦
      let inside = name_at-lt m.goods i sn (h.leads sn i e) in
      rw (e, del_market)
        (rw (lt→ltb _ _ inside) (elim (Bool-cases (length m.goods == 1)) [
          | inl one ↦ rw one (empty-IsListed, empty_lookup sn)
          | inr more ↦ rw more (
              let last = get_elem?-present m.goods (length m.goods - 1) (omega (arith, inside)) in
              rw (last.1, remove_at)
                (
                  remove_at-IsListed sn i last.0 m e last.1 h,
                  ground (
                    arith,
                    lookup-erase sn sn (assign last.0.equip_sn i m.index),
                    bytes_eq_iff sn sn,
                  ),
                ))
        ]))
]
