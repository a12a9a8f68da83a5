-- ===== src/Battle/Points.antt =====
-- workers/pvp_worker/BattleMapManager.cpp and GameHandler.cpp: the points that a battle gives, which the
-- code computes in three places.
use cpp_framework.Prelude.{
  ℕ, ◌-◌, ◌/◌, ◌^◌, ◌≤◌, ◌≡◌, refl, ◌==◌, nat_key, int_sub_self, int_add-int_sub, int_add_comm,
  int_add_lt, int_mul_lt, ◌<◌, arith, if◌then◌else◌, ltb, int_add, int_sub, int_mul, int_div,
}
use cpp_framework.Battle.State.{BattleMap}

atker_points : ℕ → ℕ → ℕ
atker_points star difference =
    let base = int_mul (int_sub 30 (int_div difference 10)) (star / 3) in
    if star == 3 then int_add base 6 else base

-- The points of the attacker and of the defender.
unfoldable pub getted_points : ℕ → ℕ → ℕ → ℕ × ℕ
unfolding atker_points
getted_points star atker_point dfder_point =
    let difference = int_sub atker_point dfder_point in
    if ltb 0 star
    then (atker_points star difference, int_sub 0 (atker_points star difference))
    else (int_sub 0 (int_add 20 (int_div difference 20)), int_add 20 (int_div difference 20))

unfoldable pub points_of : BattleMap → ℕ × ℕ
unfolding getted_points
points_of b = getted_points b.star_num b.atker_point b.dfder_point

pub getted_points-none : (p : ℕ) → p ≤ 2 ^ 32 → getted_points 0 p p ≡ (2 ^ 32 - 20, 20)
unfolding getted_points int_div int_add int_sub
getted_points-none p h = rw (int_sub_self p h) refl

pub getted_points-three : (p : ℕ) → p ≤ 2 ^ 32 → getted_points 3 p p ≡ (36, 2 ^ 32 - 36)
unfolding getted_points atker_points int_div int_add int_sub int_mul
getted_points-three p h = rw (int_sub_self p h) refl

atker_points_lt : (star difference : ℕ) → atker_points star difference < 2 ^ 32
unfolding atker_points
atker_points_lt star difference = ground (
  arith,
  int_mul_lt (int_sub 30 (int_div difference 10)) (star / 3),
  int_add_lt (int_mul (int_sub 30 (int_div difference 10)) (star / 3)) 6,
)

-- What one player gains the other loses, for any number of stars and any points.
pub getted_points_zero_sum :
    (star atker dfder : ℕ)
    → int_add (getted_points star atker dfder).0 (getted_points star atker dfder).1 ≡ 0
unfolding getted_points
getted_points_zero_sum star atker dfder =
    let difference = int_sub atker dfder in
    let dfder_gain = int_add 20 (int_div difference 20) in
    ground (
      arith,
      int_add-int_sub (atker_points star difference) (atker_points_lt star difference),
      int_add-int_sub dfder_gain (int_add_lt 20 (int_div difference 20)),
      int_add_comm dfder_gain (int_sub 0 dfder_gain),
    )
