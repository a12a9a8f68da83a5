-- ===== src/Login/Arms.antt =====
-- gateway_server/service/_login_worker_logicworker.cpp: the types of soldiers that a player can train. `sizes`
-- has the number of levels in the table of each type, and `levels` what redis has of them.
use cpp_framework.Prelude.{
  zero, ℕ, suc, ◌+◌, ◌-◌, ◌*◌, ◌/◌, ◌%◌, ◌^◌, ◌<◌, ◌≡◌, Bool, true, false, not, ◌||◌, none, some,
  List, ◌==◌, nat_key, Dict, lookup, assign, length, get_elem?, if◌then◌else◌, ltb, leb, signed_le,
  arith, lookup-assign, nat_eq_iff, Bool-cases, inl, inr,
}
use cpp_framework.Router.Fault.{Fault, Result, ok, ◌>>=◌, or_fault}
use cpp_framework.Router.Returns.{OnOk, value, OnOk-or_fault, OnOk-if}

-- `v.size() - 1`
unfoldable pub size_less : ℕ → ℕ
size_less size = (size + 2 ^ 64 - 1) % 2 ^ 64

-- A type that is not there has the level 0.
unfoldable pub get_arm_max_level : ℕ → Dict ℕ ℕ → ℕ
get_arm_max_level arm_type levels = elim (lookup arm_type levels) [ none ↦ 0 | some level ↦ level ]

module _ (sizes : List ℕ) (combat_level : ℕ) where
  -- The first type of a branch needs a level of the combat union, the others the last level of the first.
  unfoldable pub first_level : ℕ → Dict ℕ ℕ → Result (Bool × Dict ℕ ℕ)
  first_level arm_type levels =
      if arm_type % 3 == 1
      then if signed_le 32 combat_level (arm_type / 3)
        then ok (false, levels)
        else ok (true, assign arm_type 1 levels)
      else (let pre_type = (arm_type - 1) / 3 * 3 + 1 in
          or_fault Fault.bad_iterator (get_elem? sizes pre_type) >>= λ size.
          if get_arm_max_level pre_type levels == size_less size
          then ok (true, assign arm_type 1 levels)
          else ok (false, levels))

  -- Whether the request succeeded, and the levels.
  unfoldable pub upgrade_arm_type : ℕ → Dict ℕ ℕ → Result (Bool × Dict ℕ ℕ)
  unfolding first_level
  upgrade_arm_type arm_type levels =
      if not (signed_le 32 1 arm_type) || ltb (size_less (length sizes)) arm_type
      then ok (false, levels)
      else or_fault Fault.bad_iterator (get_elem? sizes arm_type) >>= λ size.
          let level = get_arm_max_level arm_type levels in
          if leb (size_less size) level
          then ok (false, levels)
          else if not (level == 0)
          then ok (true, assign arm_type (suc level) levels)
          else first_level arm_type levels

  -- Every level of a type is in its table.
  unfoldable pub HaveTables : Dict ℕ ℕ → Type 0
  HaveTables levels =
      (arm_type level size : ℕ)
      → lookup arm_type levels ≡ some level
      → get_elem? sizes arm_type ≡ some size
      → level < size

  assign-HaveTables :
      (arm_type level size : ℕ) (levels : Dict ℕ ℕ)
      → get_elem? sizes arm_type ≡ some size
      → level < size
      → HaveTables levels
      → HaveTables (assign arm_type level levels)
  unfolding HaveTables
  assign-HaveTables arm_type level size levels here inside h t n m e f =
      elim (Bool-cases (arm_type == t)) [
        | inl same ↦
            let at : arm_type ≡ t = (nat_eq_iff arm_type t).0 same in
            ground (arith, e, same, lookup-assign arm_type t level levels, inside, rw at at here, f)
        | inr other ↦ h t n m (ground (arith, e, other, lookup-assign arm_type t level levels)) f
      ]

  size_less-lt :
      (size level : ℕ)
      → 0 < size
      → size < 2 ^ 64
      → leb (size_less size) level ≡ false
      → suc level < size
  unfolding size_less
  size_less-lt size level low high e = ground (arith, e)

  some_type :
      (arm_type : ℕ)
      → (not (signed_le 32 1 arm_type) || ltb (size_less (length sizes)) arm_type) ≡ false
      → 0 < arm_type
  unfolding signed_le
  some_type zero e = cc
  some_type (suc t) e = omega arith

  -- A request to train soldiers that returns leaves the level of every type within its table, where all were
  -- before, if no table but that of type 0 is empty and their sizes are those of vectors.
  pub upgrade_arm_type-HaveTables :
      (arm_type : ℕ) (levels : Dict ℕ ℕ)
      → ((t size : ℕ) → 0 < t → get_elem? sizes t ≡ some size → (0 < size) × (size < 2 ^ 64))
      → HaveTables levels
      → OnOk (λ r. HaveTables r.1) (upgrade_arm_type arm_type levels)
  unfolding upgrade_arm_type first_level
  upgrade_arm_type-HaveTables arm_type levels full h =
      OnOk-if (not (signed_le 32 1 arm_type) || ltb (size_less (length sizes)) arm_type)
        (λ _. value h)
        λ e0. OnOk-or_fault _ (get_elem? sizes arm_type) λ size here.
          let level = get_arm_max_level arm_type levels in
          let fits = full arm_type size (some_type arm_type e0) here in
          OnOk-if (leb (size_less size) level) (λ _. value h)
            λ e.
              let more = size_less-lt size level fits.0 fits.1 e in
              OnOk-if (not (level == 0))
                (λ _. value (assign-HaveTables arm_type (suc level) size levels here more h))
                λ _.
                  let one = assign-HaveTables arm_type 1 size levels here (omega (arith, more)) h in
                  OnOk-if (arm_type % 3 == 1)
                    (λ _.
                      OnOk-if (signed_le 32 combat_level (arm_type / 3)) (λ _. value h)
                        λ _. value one)
                    λ _. OnOk-or_fault _ (get_elem? sizes ((arm_type - 1) / 3 * 3 + 1)) λ pre _.
                      OnOk-if
                        (get_arm_max_level ((arm_type - 1) / 3 * 3 + 1) levels == size_less pre)
                        (λ _. value one) λ _. value h
