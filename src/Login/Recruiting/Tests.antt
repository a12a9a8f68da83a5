-- ===== src/Login/Recruiting/Tests.antt =====
-- Recruiting at concrete inputs.
use mathlib.Core.Path.{subst}
use cpp_framework.Prelude.{
  zero, suc, true, some, get_elem?, int_sub, List, ℕ, ◌+◌, ◌*◌, ◌≡◌, refl, none, [], ◌∷◌, replicate,
  arith, signed_le,
}
use cpp_framework.Router.Returns.{Returns}
use cpp_framework.Login.Recruiting.{
  HeroBaseConfig, has_ranges, HeroUpdateConfig, Inn, try_starts, starts, recruit,
}
use cpp_framework.Login.Recruiting.Previous.{IsRecruited, recruit-previous}

abbrev common : HeroUpdateConfig
common = record { diamond = 10; start1 = 1000; start2 = 300; start3 = 0; start4 = 0; start5 = 0 }

abbrev rare : HeroUpdateConfig
rare = record { diamond = 90; start1 = 1000; start2 = 0; start3 = 0; start4 = 500; start5 = 200 }

abbrev draws : ℕ → ℕ
draws n = n * 350 + 250

abbrev inn : Inn ℕ
inn = record {
  tavern = record {
    my_hero = replicate 6 none;
    rand_hero = replicate 3 none;
    hero_equip = [];
    effects = [];
  };
  diamond = 100;
  recuite_type = 1;
  chance_num = 0;
  drawn = 0;
}

-- A quality whose `start` is 0 takes no random number.
try_starts-common : try_starts draws (starts common) 0 ≡ (2, 1)
unfolding try_starts
try_starts-common = refl

try_starts-rare : try_starts draws (starts rare) 0 ≡ (1, 3)
unfolding try_starts
try_starts-rare = refl

abbrev row : HeroBaseConfig
row = record {
  s_min = 10;
  s_min_grow = 100;
  s_max = 60;
  s_max_grow = 300;
  s_min_limit_max = 40;
  s_min_limit_grow = 200;
  s_max_limit_min = 50;
  s_max_limit_grow = 250;
  goods_space = 4;
}

abbrev heroes : List HeroBaseConfig
heroes = replicate 5 row

same_rows :
    (n i : ℕ) (r : HeroBaseConfig) → get_elem? (replicate n row) i ≡ some r → has_ranges r ≡ true
unfolding has_ranges int_sub
same_rows zero i r e = cc
same_rows (suc n) zero r e = let same : row ≡ r = cc in subst (λ x. has_ranges x ≡ true) same refl
same_rows (suc n) (suc i) r e = same_rows n i r e

recruit-previous_example :
    Returns
      (λ t.
        Returns
          (λ u.
            IsRecruited 1 common inn t
            × IsRecruited 2 rare inn u
            × (t.tavern.rand_hero ≡ u.tavern.rand_hero))
          (recruit draws
            (λ n. n ∷ [])
            (λ quality calls dealt. quality)
            (common ∷ rare ∷ rare ∷ [])
            heroes
            2
            inn))
      (recruit draws
        (λ n. n ∷ [])
        (λ quality calls dealt. quality)
        (common ∷ rare ∷ rare ∷ [])
        heroes
        1
        inn)
recruit-previous_example =
    recruit-previous draws (λ n. n ∷ []) (λ quality calls dealt. quality)
      (common ∷ rare ∷ rare ∷ []) heroes (omega arith) (omega arith) (same_rows 5) 1 2 inn common
      rare (omega arith, omega arith, omega arith, refl, unfold signed_le in refl)
      (omega arith, omega arith, omega arith, refl, unfold signed_le in refl)
