-- ===== src/Login/Spending.antt =====
-- gateway_server/service/_login_worker_logicworker.cpp: what buildings cost.
use cpp_framework.Prelude.{
  ℕ, ◌+◌, ◌^◌, ◌<◌, ◌≡◌, refl, true, not, ◌&&◌, some, ◌==◌, nat_key, bytes_key, Bytes, lookup,
  length, ltb, signed_le, int_sub, arith, Bool-cases, inl, inr,
}
use cpp_framework.Router.Returns.{OnOk, value, OnOk-or_fault, OnOk-option, OnOk-if}
use cpp_framework.Login.State.{Assets, Build, BuildConfig, Config, City, cell}
use cpp_framework.Login.Buildings.{
  affords, pay, pay_diamond, en_timer, begin_building, send_begun, create_build, create_within,
  build_create, upgrade, upgrade_within, build_upgrade, count_of,
}

-- No resource is negative.
abbrev pub IsSolvent : Assets → Type 0
IsSolvent a =
    (a.wood < 2 ^ 31)
    × (a.stone < 2 ^ 31)
    × (a.iron < 2 ^ 31)
    × (a.soil < 2 ^ 31)
    × (a.diamond < 2 ^ 31)

-- No price is negative.
abbrev pub HasPrice : BuildConfig → Type 0
HasPrice b =
    (b.need_wood < 2 ^ 31)
    × (b.need_stone < 2 ^ 31)
    × (b.need_iron < 2 ^ 31)
    × (b.need_soil < 2 ^ 31)
    × (b.need_diamond < 2 ^ 31)

-- The resources and what a building costs without its diamonds are together what there was.
abbrev pub IsPaid : BuildConfig → (diamonds : ℕ) → Assets → Assets → Type 0
IsPaid b diamonds old a =
    (a.wood + b.need_wood ≡ old.wood)
    × (a.stone + b.need_stone ≡ old.stone)
    × (a.iron + b.need_iron ≡ old.iron)
    × (a.soil + b.need_soil ≡ old.soil)
    × (a.diamond + diamonds ≡ old.diamond)

int_sub-add : (a b : ℕ) → a < 2 ^ 31 → b < 2 ^ 31 → signed_le 32 b a ≡ true → int_sub a b + b ≡ a
unfolding int_sub signed_le
int_sub-add a b h k e = ground (arith, e)

pay-IsPaid :
    (b : BuildConfig) (a : Assets)
    → IsSolvent a
    → HasPrice b
    → affords b a ≡ true
    → IsPaid b 0 a (pay b a)
unfolding affords pay
pay-IsPaid b a h k e = (
  ground (arith, int_sub-add a.wood b.need_wood, e),
  ground (arith, int_sub-add a.stone b.need_stone, e),
  ground (arith, int_sub-add a.iron b.need_iron, e),
  ground (arith, int_sub-add a.soil b.need_soil, e),
  omega arith,
)

begin_building-assets : (b : Build) (s : City) → (begin_building b s).assets ≡ s.assets
unfolding begin_building en_timer
begin_building-assets b s = elim (Bool-cases (signed_le 32 b.time 1100)) [
  | inl e ↦ rw (e, en_timer)
  | inr e ↦ rw (e, en_timer)
]

module _ (c : Config) where
  upgrade-assets :
      (now : ℕ) (b : Build) (res : BuildConfig) (s : City)
      → (upgrade c now b res s).assets ≡ pay res s.assets
  unfolding upgrade send_begun
  upgrade-assets now b res s = begin_building-assets _ _

  create_build-assets :
      (now : ℕ) (b : BuildConfig) (uuid : Bytes) (t x y : ℕ) (s : City)
      → (create_build c now b uuid t x y s).assets
        ≡ record (pay b s.assets) { diamond = int_sub (s.assets).diamond b.need_diamond }
  unfolding create_build send_begun pay_diamond pay
  create_build-assets now b uuid t x y s = begin_building-assets _ _

  pay_all-IsPaid :
      (b : BuildConfig) (a : Assets)
      → IsSolvent a
      → HasPrice b
      → affords b a && signed_le 32 b.need_diamond a.diamond ≡ true
      → IsPaid b b.need_diamond a (record (pay b a) { diamond = int_sub a.diamond b.need_diamond })
  pay_all-IsPaid b a h k e =
      let basic = pay-IsPaid b a h k (ground (arith, e)) in
      (basic.0, basic.1, basic.2, basic.3, ground (arith, int_sub-add a.diamond b.need_diamond, e))

  -- No level of a building has a negative price.
  abbrev pub HasPrices : Type 0
  HasPrices =
      (build_type level : ℕ) (conf : BuildConfig)
      → cell c.global_build build_type level ≡ some conf
      → HasPrice conf

  -- Nothing is spent, or exactly the price of a level of a building that the city can be charged.
  pub data IsCharged (build_type level : ℕ) (diamonds : BuildConfig → ℕ) (s t : City) : Type 0 where
    nothing : t.assets ≡ s.assets → IsCharged build_type level diamonds s t
    price :
        (conf : BuildConfig)
        → cell c.global_build build_type level ≡ some conf
        → IsPaid conf (diamonds conf) s.assets t.assets
        → IsCharged build_type level diamonds s t

  module _ (now : ℕ) (cheap : HasPrices) where
    -- A request for a new building that returns has spent nothing, or the price of the first level of the
    -- type to the last unit, diamonds included; no resource of a city that has no debts gets negative.
    pub build_create-IsCharged :
        (uuid : Bytes) (build_type x y : ℕ) (s : City)
        → IsSolvent s.assets
        → OnOk
            (IsCharged build_type 0 (λ conf. conf.need_diamond) s)
            (build_create c now uuid build_type x y s)
    unfolding build_create create_within
    build_create-IsCharged uuid t x y s h =
        OnOk-if (not (signed_le 32 t 0) && ltb t (length c.global_build))
          (λ _. OnOk-or_fault _ (cell c.global_build t 0) λ b e.
            OnOk-if (affords b s.assets && signed_le 32 b.need_diamond (s.assets).diamond)
              (λ enough.
                OnOk-option (lookup s.city_hall_uuid s.my_build) (λ _. value (nothing refl))
                  λ hall _. OnOk-or_fault _ (cell c.city_limit hall.build_level t) λ limit _.
                    OnOk-if (signed_le 32 limit.max_num (count_of t s)) (λ _. value (nothing refl))
                      λ _. value (
                        price b e (
                          rw (create_build-assets now b uuid t x y s)
                            (pay_all-IsPaid b s.assets h (cheap t 0 b e) enough))))
              λ _. value (nothing refl))
          λ _. value (nothing refl)

    -- A request to raise a building that returns has spent nothing, or the price of the level of that building
    -- in wood, stone, iron and soil to the last unit and no diamonds, in a city that has no debts.
    pub build_upgrade-IsCharged :
        (sn : Bytes) (b : Build) (s : City)
        → lookup sn s.my_build ≡ some b
        → IsSolvent s.assets
        → OnOk (IsCharged b.build_type b.build_level (λ conf. 0) s) (build_upgrade c now sn s)
    unfolding build_upgrade upgrade_within
    build_upgrade-IsCharged sn b s found h =
        OnOk-option (lookup s.city_hall_uuid s.my_build) (λ _. value (nothing refl))
          λ hall _. rw found (
            OnOk-or_fault _ (cell c.city_limit hall.build_level b.build_type) λ limit _.
              OnOk-if (not (signed_le 32 limit.max_level b.build_level) && not (b.status == 1))
                (λ _. OnOk-or_fault _ (cell c.global_build b.build_type b.build_level) λ res e.
                  OnOk-if (affords res s.assets)
                    (λ enough. value (
                      price res e (
                        rw (upgrade-assets now b res s) (
                          pay-IsPaid res s.assets h (cheap b.build_type b.build_level res e)
                            enough))))
                    λ _. value (nothing refl))
                λ _. value (nothing refl))
