-- ===== src/Login/Recruiting/Previous.antt =====
-- gateway_server/service/_login_worker_logicworker.cpp: recruiting takes the price of the type asked for and
-- brings heroes of the type before.
use cpp_framework.Prelude.{
  ℕ, ◌-◌, ◌^◌, ◌<◌, ◌≤◌, ◌≡◌, refl, true, not, ◌&&◌, ◌||◌, none, some, List, nat_key, Bytes, length,
  get_elem?, get_or, if◌then◌else◌, ltb, signed_le, int_sub, arith, get_elem?-present, Option-cases,
  inl, inr,
}
use cpp_framework.Router.Fault.{Fault, Result, ok, ◌>>=◌}
use cpp_framework.Router.Returns.{
  Returns, returns, Returns-if, Returns->>=, Returns->>=-eq, or_fault-Returns,
}
use cpp_framework.Login.Goods.{Hero}
use cpp_framework.Login.Heroes.{Effect, Tavern}
use cpp_framework.Login.Heroes.Dealt.{get_hero_att-contains}
use cpp_framework.Login.Recruiting.{
  HeroBaseConfig, has_ranges, base_row, HeroUpdateConfig, Inn, starts, try_starts, random_quality,
  new_rand_hero, enter_hero, refresh_one, tell, refresh_random_hero, pay_recruit, recruit,
}

-- Two taverns with the same heroes, type and random numbers, and so many diamonds.
record Alike {H : Type 0} (left_s left_t : ℕ) (s t : Inn H) : Type 0 where
  pub first_left : s.diamond ≡ left_s
  pub second_left : t.diamond ≡ left_t
  pub same_heroes : s.tavern.rand_hero ≡ t.tavern.rand_hero
  pub same_type : s.recuite_type ≡ t.recuite_type
  pub same_drawn : s.drawn ≡ t.drawn

try_starts-lt :
    (random : ℕ → ℕ) (c : HeroUpdateConfig) (drawn : ℕ)
    → (try_starts random (starts c) drawn).0 - 1 < 5
unfolding try_starts
try_starts-lt random c drawn = ground arith

both :
    {A B : Type 0} {P : A → A → Type 0} {Q : B → B → Type 0} {r q : Result A} {f g : A → Result B}
    → Returns (λ x. Returns (P x) q) r
    → ((x y : A) → P x y → Returns (λ u. Returns (Q u) (g y)) (f x))
    → Returns (λ u. Returns (Q u) (q >>= g)) (r >>= f)
both (returns {a = x} (returns {a = y} p)) k = k x y p

-- The type is in the table and the player has its price.
abbrev pub IsOffered : {H : Type 0} → List HeroUpdateConfig → ℕ → HeroUpdateConfig → Inn H → Type 0
IsOffered table a c s =
    (0 < a)
    × (a < length table)
    × (a < 2 ^ 31)
    × (get_elem? table (a - 1) ≡ some c)
    × (signed_le 32 c.diamond s.diamond ≡ true)

-- The price is paid, and the type is the one asked for.
abbrev pub IsRecruited : {H : Type 0} → ℕ → HeroUpdateConfig → Inn H → Inn H → Type 0
IsRecruited a c s t =
    (t.diamond ≡ int_sub s.diamond c.diamond) × (t.recuite_type ≡ a) × (t.chance_num ≡ 3)

enter_hero-rand_hero :
    {H : Type 0} (i : ℕ) (h : Hero H) (t u : Tavern H)
    → t.rand_hero ≡ u.rand_hero
    → (enter_hero i h t).rand_hero ≡ (enter_hero i h u).rand_hero
unfolding enter_hero
enter_hero-rand_hero i h t u e = elim (Option-cases (get_or u.rand_hero i none)) [
  | inl f ↦ ground (arith, e, f)
  | inr (old, f) ↦ ground (arith, e, f)
]

module _ {H : Type 0} (random : ℕ → ℕ) (uuid : ℕ → Bytes) (attributes : ℕ → ℕ → List ℕ → H)
    (table : List HeroUpdateConfig) (base : List HeroBaseConfig) where
  module _ (some_row : 0 < length table) (five : 5 ≤ length base)
      (open_rows : (i : ℕ) (row : HeroBaseConfig)
        → get_elem? base i ≡ some row
        → has_ranges row ≡ true) where
    row-lt :
        (kind : ℕ)
        → (if signed_le 32 kind 0 || ltb (length table) kind then 1 else kind) - 1 < length table
    unfolding signed_le
    row-lt kind = ground (arith, some_row)

    random_quality-Returns :
        (kind drawn : ℕ) → Returns (λ q. q.0 - 1 < 5) (random_quality random table kind drawn)
    unfolding random_quality
    random_quality-Returns kind drawn =
        let row = if signed_le 32 kind 0 || ltb (length table) kind then 1 else kind in
        let (c, e) = get_elem?-present table (row - 1) (row-lt kind) in
        Returns->>= (or_fault-Returns Fault.bad_iterator _ c e)
          λ d _. returns (try_starts-lt random d drawn)

    base_row-lt : (quality : ℕ) → base_row base quality < length base
    unfolding base_row
    base_row-lt quality = ground (arith, five)

    new_rand_hero-Returns :
        (i kind drawn : ℕ)
        → Returns (λ _. Unit {0}) (new_rand_hero random uuid attributes table base i kind drawn)
    unfolding new_rand_hero
    new_rand_hero-Returns i kind drawn = Returns->>= (random_quality-Returns kind drawn) λ q low.
        let (first, d) = get_elem?-present base (base_row base q.0) (base_row-lt q.0) in
        let (row, e) = get_elem?-present base (q.0 - 1) (omega (arith, low, five)) in
        Returns->>= (or_fault-Returns Fault.bad_iterator _ first d) λ ranges same.
          Returns-if (has_ranges ranges)
            (λ _. Returns->>= (get_hero_att-contains _ _ _ _ _) λ dealt _.
              Returns->>= (or_fault-Returns Fault.bad_iterator _ row e) λ _ _. returns tt)
            λ none_open. absurd (
              ground
                (arith, none_open, open_rows (base_row base q.0) ranges (ground (arith, d, same))))

    refresh_one-Alike :
        (i m n : ℕ) (s t : Inn H)
        → Alike m n s t
        → Returns
            (λ u. Returns (Alike m n u) (refresh_one random uuid attributes table base i t))
            (refresh_one random uuid attributes table base i s)
    unfolding refresh_one
    refresh_one-Alike i m n s t a =
        Returns->>=-eq (new_rand_hero-Returns i s.recuite_type s.drawn) λ made e _.
          let f : new_rand_hero random uuid attributes table base i t.recuite_type t.drawn
              ≡ ok made =
            ground (arith, a.same_type, a.same_drawn, e) in
          returns (
            rw f (
              returns (record {
                first_left = a.first_left;
                second_left = a.second_left;
                same_heroes = enter_hero-rand_hero i made.0 s.tavern t.tavern a.same_heroes;
                same_type = a.same_type;
                same_drawn = refl;
              })))

    refresh-Alike :
        (a b m n : ℕ) (s t : Inn H)
        → Alike m n s t
        → Returns
            (λ u. Returns (Alike m n u) (refresh_random_hero random uuid attributes table base b t))
            (refresh_random_hero random uuid attributes table base a s)
    unfolding refresh_random_hero
    refresh-Alike a b m n s t alike = both (refresh_one-Alike 0 m n s t alike) λ s1 t1 alike1.
        both (refresh_one-Alike 1 m n s1 t1 alike1) λ s2 t2 alike2.
          both (refresh_one-Alike 2 m n s2 t2 alike2) λ s3 t3 alike3. returns (
            returns (record {
              first_left = alike3.first_left;
              second_left = alike3.second_left;
              same_heroes = alike3.same_heroes;
              same_type = alike3.same_type;
              same_drawn = alike3.same_drawn;
            }))

    in_table :
        {a : ℕ}
        → 0 < a
        → a < length table
        → a < 2 ^ 31
        → not (signed_le 32 a 0) && ltb a (length table) ≡ true
    unfolding signed_le
    in_table low inside small = ground (arith, low, inside, small)

    recruit-refresh :
        (a : ℕ) (s : Inn H) (c : HeroUpdateConfig)
        → IsOffered table a c s
        → recruit random uuid attributes table base a s ≡ (
            refresh_random_hero random uuid attributes table base a (pay_recruit c s) >>= (λ t.
              ok (tell (Effect.set_recurite a 3) (record t { recuite_type = a; chance_num = 3 }))))
    unfolding recruit
    recruit-refresh a s c (low, inside, small, row, enough) =
        rw (in_table low inside small) (rw row (rw enough refl))

    -- Where the player can pay for either of two types of recruiting, each request takes the price of its own
    -- type and notes its own type, and both bring the same heroes, if the configuration of heroes has a row
    -- for each of five qualities, with room between the bounds of its attributes.
    pub recruit-previous :
        (a b : ℕ) (s : Inn H) (c d : HeroUpdateConfig)
        → IsOffered table a c s
        → IsOffered table b d s
        → Returns
            (λ t.
              Returns
                (λ u.
                  IsRecruited a c s t
                  × IsRecruited b d s u
                  × (t.tavern.rand_hero ≡ u.tavern.rand_hero))
                (recruit random uuid attributes table base b s))
            (recruit random uuid attributes table base a s)
    unfolding pay_recruit
    recruit-previous a b s c d o p =
        rw (recruit-refresh a s c o, recruit-refresh b s d p)
          (both
            (refresh-Alike a b _ _ (pay_recruit c s) (pay_recruit d s) (record {
              first_left = refl;
              second_left = refl;
              same_heroes = refl;
              same_type = refl;
              same_drawn = refl;
            }))
            λ t u alike. returns (
              returns (
                (alike.first_left, refl, refl),
                (alike.second_left, refl, refl),
                alike.same_heroes,
              )))
