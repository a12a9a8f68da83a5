-- ===== src/Login/Tests.antt =====
-- gateway_server/service: a small configuration, a city and a player for the login worker.
use mathlib.Core.Path.{subst}
use cpp_framework.Prelude.{
  none, assign, ◌^◌, get_elem?, ℕ, zero, suc, ◌<◌, ◌≡◌, refl, false, some, List, [], ◌∷◌, codes,
  bytes_key, lookup, signed_le, int_add, arith,
}
use cpp_framework.Router.Returns.{Returns, OnOk}
use cpp_framework.Login.State.{Assets, Build, BuildConfig, CityLimit, Config, City, cell}
use cpp_framework.Login.Arms.{HaveTables, upgrade_arm_type, upgrade_arm_type-HaveTables}
use cpp_framework.Login.Buildings.{
  build_status_list, get_build_map, map_builds, with_time, place_all, place, diamonds_for,
  build_create, build_upgrade, fast_finish,
}
use cpp_framework.Login.Built.{count, in_progress, IsBuilt}
use cpp_framework.Login.Begun.{IsComplete}
use cpp_framework.Login.Events.{handle, Event, IsNew, AreNew, run, run-IsBuilt}
use cpp_framework.Login.Finishing.{IsFinished, fast_finish-IsFinished}
use cpp_framework.Login.Spending.{
  HasPrices, IsCharged, build_create-IsCharged, build_upgrade-IsCharged,
}

abbrev house : BuildConfig
house = record {
  big_type = 1;
  need_wood = 10;
  need_stone = 5;
  need_iron = 0;
  need_soil = 1;
  need_diamond = 2;
  build_time = 600;
  output = 0;
  space = 0;
  max_hp = 100;
}

abbrev two_levels : CityLimit
two_levels = record { max_level = 2; max_num = 3 }

abbrev levels : List BuildConfig
levels = house ∷ house ∷ house ∷ []

abbrev limits : List CityLimit
limits = two_levels ∷ two_levels ∷ []

abbrev village : Config
village = record {
  global_build = [] ∷ levels ∷ [];
  city_limit = limits ∷ limits ∷ limits ∷ [];
  produced = λ output seconds. 0;
}

village_house :
    (build_type level : ℕ) (conf : BuildConfig)
    → cell village.global_build build_type level ≡ some conf
    → conf ≡ house
unfolding cell
village_house zero n conf e = cc
village_house (suc zero) zero conf e = cc
village_house (suc zero) (suc zero) conf e = cc
village_house (suc zero) (suc (suc zero)) conf e = cc
village_house (suc zero) (suc (suc (suc n))) conf e = cc
village_house (suc (suc m)) n conf e = cc

two_types :
    (build_type level : ℕ)
    → 0 < build_type
    → build_type < 2
    → level < 3
    → (conf : BuildConfig) × (cell village.global_build build_type level ≡ some conf)
unfolding cell
two_types zero n o h k = absurd (omega arith)
two_types (suc zero) zero o h k = (house, refl)
two_types (suc zero) (suc zero) o h k = (house, refl)
two_types (suc zero) (suc (suc zero)) o h k = (house, refl)
two_types (suc zero) (suc (suc (suc n))) o h k = absurd (omega arith)
two_types (suc (suc m)) n o h k = absurd (omega arith)

village_size :
    (build_type level : ℕ) (conf : BuildConfig)
    → cell village.global_build build_type level ≡ some conf
    → (0 < build_type) × (build_type < 2) × (level < 3)
unfolding cell
village_size zero n conf e = cc
village_size (suc zero) zero conf e = omega arith
village_size (suc zero) (suc zero) conf e = omega arith
village_size (suc zero) (suc (suc zero)) conf e = omega arith
village_size (suc zero) (suc (suc (suc n))) conf e = cc
village_size (suc (suc m)) n conf e = cc

limit_at :
    (level build_type : ℕ)
    → level < 3
    → build_type < 2
    → (limit : CityLimit) × (cell village.city_limit level build_type ≡ some limit)
unfolding cell
limit_at zero zero h k = (two_levels, refl)
limit_at zero (suc zero) h k = (two_levels, refl)
limit_at (suc zero) zero h k = (two_levels, refl)
limit_at (suc zero) (suc zero) h k = (two_levels, refl)
limit_at (suc (suc zero)) zero h k = (two_levels, refl)
limit_at (suc (suc zero)) (suc zero) h k = (two_levels, refl)
limit_at (suc (suc (suc n))) t h k = absurd (omega arith)
limit_at n (suc (suc t)) h k = absurd (omega arith)

limit_value :
    (level build_type : ℕ) (limit : CityLimit)
    → cell village.city_limit level build_type ≡ some limit
    → limit ≡ two_levels
unfolding cell
limit_value zero zero limit e = cc
limit_value zero (suc zero) limit e = cc
limit_value zero (suc (suc t)) limit e = cc
limit_value (suc zero) zero limit e = cc
limit_value (suc zero) (suc zero) limit e = cc
limit_value (suc zero) (suc (suc t)) limit e = cc
limit_value (suc (suc zero)) zero limit e = cc
limit_value (suc (suc zero)) (suc zero) limit e = cc
limit_value (suc (suc zero)) (suc (suc t)) limit e = cc
limit_value (suc (suc (suc n))) t limit e = cc

below_two : (level : ℕ) → level < 3 → signed_le 32 2 level ≡ false → int_add level 1 < 3
unfolding signed_le int_add
below_two zero h e = omega arith
below_two (suc zero) h e = omega arith
below_two (suc (suc zero)) h e = cc
below_two (suc (suc (suc n))) h e = absurd (omega arith)

village-IsComplete : IsComplete village
village-IsComplete = record {
  first = λ t o h. two_types t 0 o h (omega arith);
  second = λ t o h. two_types t 1 o h (omega arith);
  limits = λ hall level t conf e h. limit_at level t (village_size hall level conf e).2 h;
  next = λ city t level limit conf e small f.
      let size = village_size t level conf f in
      two_types t (int_add level 1) size.0 size.1
        (below_two level size.2 (ground (arith, limit_value city t limit e, small)));
}

village-HasPrices : HasPrices village
village-HasPrices t level conf e = rw (village_house t level conf e) (omega arith)

abbrev hall : Build
hall = record {
  build_sn = codes "hall";
  big_type = 1;
  status = 0;
  ctime = 0;
  time = 0;
  build_type = 1;
  build_level = 0;
  cur_hp = 100;
  cur_resource = 0;
  x = 0;
  y = 0;
}

abbrev rich : Assets
rich = record { wood = 100; stone = 100; iron = 100; soil = 100; diamond = 100 }

abbrev city : City
city = record {
  assets = rich;
  city_hall_uuid = codes "hall";
  my_build = (codes "hall", hall) ∷ [];
  build_num = [];
  building_timer = [];
  building = [];
  effects = [];
}

city-IsBuilt : IsBuilt village city
unfolding cell count in_progress lookup
city-IsBuilt = record {
  kept = ((refl, record { current = (house, refl); next = λ e. cc }), tt);
  counted = λ sn. ground arith;
  timed = λ sn seconds e. cc;
}

abbrev city_events : List (ℕ × Event)
city_events =
    (5, Event.moves ((codes "hall", hall) ∷ []) ((codes "hall", 3, 4) ∷ []))
    ∷ (10, Event.creates (codes "a") 1 0 0)
    ∷ (20, Event.upgrades (codes "hall"))
    ∷ (700, Event.time_up (codes "a"))
    ∷ (710, Event.finishes (codes "hall"))
    ∷ []

city_events-AreNew : AreNew village city_events city
unfolding AreNew IsNew lookup handle build_status_list get_build_map map_builds with_time place_all
    place assign
city_events-AreNew = (
  refl,
  λ s d.
      let moved : build_status_list village 5 ((codes "hall", hall) ∷ [])
            ((codes "hall", 3, 4) ∷ []) city
          ≡ s =
        cc in
      (
        subst (λ u. lookup (codes "a") u.my_build ≡ none) moved refl,
        λ t e. (tt, λ u f. (tt, λ v g. (tt, λ w h. tt))),
      ),
)

run-IsBuilt_example : Returns (IsBuilt village) (run village city_events city)
run-IsBuilt_example =
    run-IsBuilt village village-IsComplete city_events city city_events-AreNew city-IsBuilt

abbrev begun_hall : Build
begun_hall = record hall { status = 1; ctime = 20; time = 600 }

abbrev building_city : City
building_city = record city {
  my_build = (codes "hall", begun_hall) ∷ [];
  building_timer = (codes "hall", 600) ∷ [];
  building = codes "hall" ∷ [];
}

building_city-IsBuilt : IsBuilt village building_city
unfolding cell count in_progress lookup int_add
building_city-IsBuilt = record {
  kept = ((refl, record { current = (house, refl); next = λ e. (house, refl) }), tt);
  counted = λ sn. ground arith;
  timed = λ sn seconds e. ground arith;
}

fast_finish-IsFinished_example :
    Returns
      (IsFinished village 30 (codes "hall") begun_hall (diamonds_for 30 begun_hall) building_city)
      (fast_finish village 30 (codes "hall") building_city)
unfolding cell int_add
fast_finish-IsFinished_example =
    fast_finish-IsFinished village 30 (codes "hall") begun_hall building_city
      (refl, record { current = (house, refl); next = λ e. (house, refl) }) (unfold count in refl)
      (unfold lookup in refl) refl (unfold signed_le diamonds_for in refl)

build_create-IsCharged_example :
    OnOk
      (IsCharged village 1 0 (λ conf. conf.need_diamond) city)
      (build_create village 10 (codes "a") 1 0 0 city)
build_create-IsCharged_example =
    build_create-IsCharged village 10 village-HasPrices (codes "a") 1 0 0 city (omega arith)

build_upgrade-IsCharged_example :
    OnOk (IsCharged village 1 0 (λ conf. 0) city) (build_upgrade village 10 (codes "hall") city)
build_upgrade-IsCharged_example =
    build_upgrade-IsCharged village 10 village-HasPrices (codes "hall") hall city
      (unfold lookup in refl) (omega arith)

abbrev table_sizes : List ℕ
table_sizes = 0 ∷ 4 ∷ []

table_sizes-full :
    (t size : ℕ) → 0 < t → get_elem? table_sizes t ≡ some size → (0 < size) × (size < 2 ^ 64)
table_sizes-full zero size h e = absurd (omega arith)
table_sizes-full (suc zero) size h e = ground (arith, e)
table_sizes-full (suc (suc t)) size h e = cc

no_levels-HaveTables : HaveTables table_sizes 1 []
unfolding HaveTables lookup
no_levels-HaveTables t level size e f = cc

upgrade_arm_type-HaveTables_example :
    OnOk (λ r. HaveTables table_sizes 1 r.1) (upgrade_arm_type table_sizes 1 1 [])
upgrade_arm_type-HaveTables_example =
    upgrade_arm_type-HaveTables table_sizes 1 1 [] table_sizes-full no_levels-HaveTables
