-- ===== src/Login/Heroes/Tests.antt =====
-- gateway_server/service/_login_worker_logicworker.cpp: a tavern with one hero.
use cpp_framework.Prelude.{
  ℕ, ◌<◌, ◌≡◌, refl, true, none, some, [], ◌∷◌, codes, length, get_elem?, replicate, arith,
}
use cpp_framework.Router.Fault.{ok}
use cpp_framework.Router.Returns.{Returns}
use cpp_framework.Login.State.{negative}
use cpp_framework.Login.Goods.{Equip, Hero}
use cpp_framework.Login.Heroes.{
  Request, Effect, Tavern, emit, empty_place, get_hero_att, get_rand_hero, drop_hero,
}
use cpp_framework.Login.Heroes.Dealt.{contains, get_hero_att-contains}
use cpp_framework.Login.Heroes.Kept.{drop_hero-get_rand_hero}

get_hero_att-contains_example :
    Returns
      (λ dealt. (length dealt ≡ 5) × ((k : ℕ) → k < 5 → contains k dealt ≡ true))
      (get_hero_att (7 ∷ 7 ∷ 7 ∷ 7 ∷ 7 ∷ []))
get_hero_att-contains_example = get_hero_att-contains 7 7 7 7 7

abbrev nothing : Equip
nothing = record {
  witch_pannle = 0;
  where_uuid = [];
  position = 0;
  equip_sn = [];
  stats = record {
    part = 0;
    quality = 0;
    level = 0;
    attr1_type = 0;
    attr1_value = 0;
    attr2_type = 0;
    attr2_value = 0;
    extral1_type = 0;
    extral1_value = 0;
    extral2_type = 0;
    extral2_value = 0;
  };
  diamond_cost = 0;
}

abbrev ranger : Hero ℕ
ranger = record {
  hero_sn = 2;
  hero_uuid = codes "ranger";
  cur_goods_space = 6;
  job = 1;
  attributes = 0;
}

abbrev tavern : Tavern ℕ
tavern = record {
  my_hero = replicate 6 none;
  rand_hero = none ∷ some ranger ∷ none ∷ [];
  hero_equip = [];
  effects = [];
}

drop_hero-get_rand_hero_example :
    (u : Tavern ℕ) × (get_rand_hero nothing 2 tavern ≡ ok u)
    × (get_elem? u.my_hero 0 ≡ some (some (record ranger { job = 0; hero_sn = 1 })))
    × (drop_hero 1 u ≡ ok (emit (Effect.simple Request.drop_hero_request (negative 2)) u))
drop_hero-get_rand_hero_example =
    drop_hero-get_rand_hero nothing 2 0 ranger tavern (omega arith) (omega arith) refl
      (unfold empty_place in refl)
