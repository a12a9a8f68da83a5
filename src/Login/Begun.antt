-- ===== src/Login/Begun.antt =====
-- gateway_server/service/_login_worker_logicworker.cpp: putting down and raising a building keeps the
-- tables of a city together.
use cpp_framework.Prelude.{
  zero, suc, ℕ, ◌<◌, ◌≡◌, refl, false, not, ◌&&◌, none, some, List, ◌==◌, nat_key, bytes_key, Bytes,
  Dict, lookup, assign, length, ltb, signed_le, int_add, get_elem?, arith, Option-cases,
  get_elem?-lt, Bool-cases, inl, inr, lookup-assign, bytes_eq_iff,
}
use cpp_framework.Router.Returns.{
  Returns, returns, Returns->>=, Returns-if, Returns-option, or_fault-Returns,
}
use cpp_framework.Login.State.{Build, BuildConfig, CityLimit, Config, City, cell}
use cpp_framework.Login.Buildings.{
  affords, pay_diamond, en_timer, begin_building, new_build, create_build, create_within,
  build_create, upgrade, upgrade_within, build_upgrade,
}
use cpp_framework.Login.Built.{
  in_progress, in_progress_lem, HasLevels, IsBuilt, begin-AreBuilt, timer-AreBuilt,
}
use cpp_framework.Login.Progress.{kept_at}

-- A table of levels for every type that can be built, which type 0 cannot, with the level that follows where the limits
-- allow one, and the limits of a city whose hall has a level of the table.
pub record IsComplete (c : Config) : Type 0 where
  pub first :
      (build_type : ℕ)
      → 0 < build_type
      → build_type < length c.global_build
      → (conf : BuildConfig) × (cell c.global_build build_type 0 ≡ some conf)
  pub second :
      (build_type : ℕ)
      → 0 < build_type
      → build_type < length c.global_build
      → (conf : BuildConfig) × (cell c.global_build build_type 1 ≡ some conf)
  pub limits :
      (hall level build_type : ℕ) (conf : BuildConfig)
      → cell c.global_build hall level ≡ some conf
      → build_type < length c.global_build
      → (limit : CityLimit) × (cell c.city_limit level build_type ≡ some limit)
  pub next :
      (city_level build_type level : ℕ) (limit : CityLimit) (conf : BuildConfig)
      → cell c.city_limit city_level build_type ≡ some limit
      → signed_le 32 limit.max_level level ≡ false
      → cell c.global_build build_type level ≡ some conf
      → (more : BuildConfig) × (cell c.global_build build_type (int_add level 1) ≡ some more)

cell-lt :
    (table : List (List BuildConfig)) (row column : ℕ) (conf : BuildConfig)
    → cell table row column ≡ some conf
    → row < length table
unfolding cell
cell-lt table row column conf h = elim (Option-cases (get_elem? table row)) [
  | inl e ↦ absurd (ground (arith, e, h))
  | inr (entries, e) ↦ get_elem?-lt table row entries e
]

begun_in_progress :
    (sn : Bytes) (b : Build) (builds : Dict Bytes Build)
    → b.status ≡ 1
    → in_progress sn (assign sn b builds) ≡ 1
unfolding in_progress
begun_in_progress sn b builds one =
    ground (arith, one, lookup-assign sn sn b builds, bytes_eq_iff sn sn)

module _ (c : Config) where
  fresh_idle :
      (sn : Bytes) (builds : Dict Bytes Build) → lookup sn builds ≡ none → in_progress sn builds ≡ 0
  unfolding in_progress
  fresh_idle sn builds e = rw (e, in_progress)

  above : (t : ℕ) → signed_le 32 t 0 ≡ false → 0 < t
  unfolding signed_le
  above zero e = cc
  above (suc t) e = omega arith

  module _ (now : ℕ) where
    begun_HasLevels :
        (t x y : ℕ) (b : BuildConfig) (uuid : Bytes)
        → IsComplete c
        → 0 < t
        → t < length c.global_build
        → HasLevels c (new_build b now uuid t x y)
    unfolding new_build int_add
    begun_HasLevels t x y b uuid full o inside = record {
      current = full.first t o inside;
      next = λ _. full.second t o inside;
    }

    -- A building that is put down or raised, with its timer.
    begin_building-IsBuilt :
        (b : Build) (s : City)
        → HasLevels c b
        → b.status ≡ 1
        → in_progress b.build_sn s.my_build ≡ 0
        → IsBuilt c s
        → IsBuilt c (begin_building b s)
    unfolding begin_building en_timer
    begin_building-IsBuilt b s k one fresh h =
        let begun =
          begin-AreBuilt c s.my_build s.building s.building_timer b.build_sn b (refl, k) one fresh
            h in
        elim (Bool-cases (signed_le 32 b.time 1100)) [
          | inl e ↦
              rw (e, en_timer)
                (timer-AreBuilt c _ _ s.building_timer b.build_sn b.time
                  (begun_in_progress b.build_sn b s.my_build one) begun)
          | inr e ↦ rw (e, en_timer) begun
        ]

    create_within-IsBuilt :
        (b : BuildConfig) (hall : Build) (uuid : Bytes) (t x y : ℕ) (s : City)
        → IsComplete c
        → 0 < t
        → t < length c.global_build
        → cell c.global_build t 0 ≡ some b
        → lookup s.city_hall_uuid s.my_build ≡ some hall
        → lookup uuid s.my_build ≡ none
        → IsBuilt c s
        → Returns (IsBuilt c) (create_within c now b hall uuid t x y s)
    unfolding create_within create_build new_build pay_diamond
    create_within-IsBuilt b hall uuid t x y s full o inside conf found fresh h =
        let level = (kept_at c s.city_hall_uuid hall s h found).1.current in
        let limit = full.limits hall.build_type hall.build_level t level.0 level.1 inside in
        Returns->>= (or_fault-Returns _ _ limit.0 limit.1) λ limits _.
          Returns-if (signed_le 32 limits.max_num _) (λ _. returns h)
            λ _. returns (
              begin_building-IsBuilt (new_build b now uuid t x y) _
                (begun_HasLevels t x y b uuid full o inside) refl (fresh_idle uuid s.my_build fresh)
                h)

    pub build_create-IsBuilt :
        (uuid : Bytes) (t x y : ℕ) (s : City)
        → IsComplete c
        → lookup uuid s.my_build ≡ none
        → IsBuilt c s
        → Returns (IsBuilt c) (build_create c now uuid t x y s)
    unfolding build_create
    build_create-IsBuilt uuid t x y s full fresh h =
        Returns-if (not (signed_le 32 t 0) && ltb t (length c.global_build))
          (λ e.
            let o : 0 < t = above t (ground (arith, e)) in
            let inside : t < length c.global_build = ground (arith, e) in
            let row = full.first t o inside in
            Returns->>= (or_fault-Returns _ _ row.0 row.1) λ b same.
              Returns-if (affords b s.assets && signed_le 32 b.need_diamond (s.assets).diamond)
                (λ _.
                  Returns-option (lookup s.city_hall_uuid s.my_build) (λ _. returns h)
                    λ hall found.
                      create_within-IsBuilt b hall uuid t x y s full o inside
                        (ground (arith, row.1, same)) found fresh h)
                λ _. returns h)
          λ _. returns h

    pub build_upgrade-IsBuilt :
        (sn : Bytes) (s : City)
        → IsComplete c
        → IsBuilt c s
        → Returns (IsBuilt c) (build_upgrade c now sn s)
    unfolding build_upgrade upgrade_within upgrade
    build_upgrade-IsBuilt sn s full h =
        Returns-option (lookup s.city_hall_uuid s.my_build) (λ _. returns h)
          λ hall hall_at.
            Returns-option (lookup sn s.my_build) (λ _. returns h)
              λ b found.
                let k = kept_at c sn b s h found in
                let level = (kept_at c s.city_hall_uuid hall s h hall_at).1.current in
                let inside = cell-lt _ _ _ _ k.1.current.1 in
                let limit =
                  full.limits hall.build_type hall.build_level b.build_type level.0 level.1
                    inside in
                Returns->>= (or_fault-Returns _ _ limit.0 limit.1) λ limits same.
                  Returns-if
                    (not (signed_le 32 limits.max_level b.build_level) && not (b.status == 1))
                    (λ e. Returns->>= (or_fault-Returns _ _ k.1.current.0 k.1.current.1) λ res _.
                      Returns-if (affords res s.assets)
                        (λ _. returns (
                          begin_building-IsBuilt
                            (record b { status = 1; ctime = now; time = res.build_time }) _
                            (record {
                              current = k.1.current;
                              next = λ _.
                                  full.next hall.build_level b.build_type b.build_level limits _
                                    (ground (arith, limit.1, same)) (ground (arith, e))
                                    k.1.current.1;
                            })
                            refl (ground (arith, k.0, in_progress_lem sn b s.my_build found, e)) h))
                        λ _. returns h)
                    λ _. returns h
