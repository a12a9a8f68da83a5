-- ===== src/Login/Recruiting.antt =====
-- gateway_server/service/_login_worker_logicworker.cpp: the heroes who come to the tavern when a player
-- recruits. `random n` is the number that RandomUtil returns at its call n, `uuid n` the name that is made
-- after n calls, and `attributes` computes with floats what a hero of a quality has, from remainders by
-- numbers that must not be 0.
pub mod Previous
mod Tests
use cpp_framework.Prelude.{
  ℕ, zero, suc, ◌+◌, ◌-◌, ◌%◌, Bool, not, ◌||◌, ◌&&◌, Option, none, some, List, [], ◌∷◌, ◌==◌,
  nat_key, Bytes, length, get_elem?, get_or, set, if◌then◌else◌, ltb, signed_le, int_sub,
}
use cpp_framework.Router.Fault.{fault, Fault, Result, ok, ◌>>=◌, or_fault}
use cpp_framework.Login.State.{negative}
use cpp_framework.Login.Goods.{Hero}
use cpp_framework.Login.Heroes.{get_hero_att, Request, Effect, Tavern, emit}

-- `start1` to `start5` are how often in a thousand a hero has that quality.
pub record HeroUpdateConfig : Type 0 where
  pub diamond : ℕ
  pub start1 : ℕ
  pub start2 : ℕ
  pub start3 : ℕ
  pub start4 : ℕ
  pub start5 : ℕ

pub record HeroBaseConfig : Type 0 where
  pub s_min : ℕ
  pub s_min_grow : ℕ
  pub s_max : ℕ
  pub s_max_grow : ℕ
  pub s_min_limit_max : ℕ
  pub s_min_limit_grow : ℕ
  pub s_max_limit_min : ℕ
  pub s_max_limit_grow : ℕ
  pub goods_space : ℕ

-- The remainders of `get_hero_att` are by numbers that are not 0.
unfoldable pub has_ranges : HeroBaseConfig → Bool
has_ranges c =
    not (int_sub c.s_max c.s_max_limit_min == 0)
    && (not (int_sub c.s_max_grow c.s_max_limit_grow == 0)
        && (not (int_sub c.s_min_limit_max c.s_min == 0)
            && not (int_sub c.s_min_limit_grow c.s_min_grow == 0)))

-- The row of a quality in `get_hero_att`.
unfoldable pub base_row : List HeroBaseConfig → (quality : ℕ) → ℕ
base_row hero_base_config quality =
    if ltb (quality - 1) (length hero_base_config) then quality - 1 else 0

-- `drawn` counts the calls of RandomUtil.
pub record Inn (H : Type 0) : Type 0 where
  pub tavern : Tavern H
  pub diamond : ℕ
  pub recuite_type : ℕ
  pub chance_num : ℕ
  pub drawn : ℕ

abbrev pub starts : HeroUpdateConfig → List (ℕ × ℕ)
starts c = (5, c.start5) ∷ (4, c.start4) ∷ (3, c.start3) ∷ (2, c.start2) ∷ (1, c.start1) ∷ []

-- The quality, and the calls of RandomUtil up to then; where `start` is 0 there is no call.
unfoldable pub try_starts : (ℕ → ℕ) → List (ℕ × ℕ) → ℕ → ℕ × ℕ
try_starts random [] drawn = (1, drawn)
try_starts random ((quality, start) ∷ rest) drawn =
    let later = try_starts random rest (if start == 0 then drawn else suc drawn) in
    if not (start == 0) && ltb (random drawn % 1000) start then (quality, suc drawn) else later

unfoldable pub random_quality : (ℕ → ℕ) → List HeroUpdateConfig → ℕ → ℕ → Result (ℕ × ℕ)
random_quality random hero_update_config kind drawn =
    let row = if signed_le 32 kind 0 || ltb (length hero_update_config) kind then 1 else kind in
    or_fault Fault.bad_iterator (get_elem? hero_update_config (row - 1)) >>= λ c.
    ok (try_starts random (starts c) drawn)

module _ {H : Type 0} where
  unfoldable pub enter_hero : ℕ → Hero H → Tavern H → Tavern H
  enter_hero i h t =
      let gone : Tavern H = elim (get_or t.rand_hero i none) [
        | none ↦ t
        | some old ↦ emit (Effect.del_hero old.hero_uuid) t
      ] in
      emit (Effect.set_hero h) (record gone { rand_hero = set gone.rand_hero i (some h) })

  abbrev pub tell : Effect H → Inn H → Inn H
  tell e s = record s { tavern = emit e s.tavern }

  unfoldable pub pay_recruit : HeroUpdateConfig → Inn H → Inn H
  pay_recruit c s =
      let left = int_sub s.diamond c.diamond in
      tell (Effect.asset left) (tell (Effect.update_diamond left) (record s { diamond = left }))

module _ {H : Type 0} (random : ℕ → ℕ) (uuid : ℕ → Bytes) (attributes : ℕ → ℕ → List ℕ → H)
    (hero_update_config : List HeroUpdateConfig) (hero_base_config : List HeroBaseConfig) where
  -- A hero for the place, and the calls of RandomUtil up to then.
  unfoldable pub new_rand_hero : ℕ → ℕ → ℕ → Result (Hero H × ℕ)
  new_rand_hero i kind drawn = random_quality random hero_update_config kind drawn >>= λ q.
      or_fault Fault.bad_iterator (get_elem? hero_base_config (base_row hero_base_config q.0))
      >>= λ ranges.
          let calls = q.1 + 10 in
          if has_ranges ranges
          then get_hero_att (
              random calls
              ∷ random (calls + 1)
              ∷ random (calls + 2)
              ∷ random (calls + 3)
              ∷ random (calls + 4)
              ∷ [])
            >>= (λ dealt.
                or_fault Fault.bad_iterator (get_elem? hero_base_config (q.0 - 1)) >>= λ base. ok (
                  record {
                    hero_sn = suc i;
                    hero_uuid = uuid q.1;
                    cur_goods_space = base.goods_space;
                    job = 1;
                    attributes = attributes q.0 q.1 dealt;
                  },
                  calls + 5,
                ))
          else fault Fault.division_by_zero

  unfoldable pub refresh_one : ℕ → Inn H → Result (Inn H)
  refresh_one i s = new_rand_hero i s.recuite_type s.drawn >>= λ made.
      ok (record s { tavern = enter_hero i made.0 s.tavern; drawn = made.1 })

  -- `randomtype` is put right and not used.
  unfoldable pub refresh_random_hero : (randomtype : ℕ) → Inn H → Result (Inn H)
  refresh_random_hero randomtype s = refresh_one 0 s >>= λ s1. refresh_one 1 s1 >>= λ s2.
      refresh_one 2 s2 >>= λ s3. ok (tell (Effect.hero_list s3.tavern.rand_hero) s3)

  unfoldable pub recruit : ℕ → Inn H → Result (Inn H)
  recruit random_type s =
      let refused = ok (tell (Effect.simple Request.recruit_request (negative 1)) s) in
      if not (signed_le 32 random_type 0) && ltb random_type (length hero_update_config)
      then or_fault Fault.bad_iterator (get_elem? hero_update_config (random_type - 1)) >>= (λ c.
        if signed_le 32 c.diamond s.diamond
        then refresh_random_hero random_type (pay_recruit c s) >>= (λ t. ok (
            tell (Effect.set_recurite random_type 3)
              (record t { recuite_type = random_type; chance_num = 3 })))
        else refused)
      else refused
