-- ===== src/Login/Built.antt =====
-- gateway_server/service/_login_worker_logicworker.cpp: the list of what is being built, the timers and the
-- states of the buildings agree.
use cpp_framework.Prelude.{
  ℕ, ◌+◌, ◌≡◌, refl, none, some, List, [], ◌∷◌, ◌++◌, ◌==◌, nat_key, bytes_key, Bytes, Dict, lookup,
  assign, erase, if◌then◌else◌, int_add, arith, Every, lookup-assign, lookup-erase, bytes_eq_iff,
  Option-cases, inl, inr,
}
use cpp_framework.Prelude.Entries.{assign-Every}
use cpp_framework.Login.State.{Build, BuildConfig, Config, City, cell}
use cpp_framework.Login.Buildings.{remove, erase_first}

unfoldable pub count : Bytes → List Bytes → ℕ
count sn [] = 0
count sn (name ∷ names) = (if name == sn then 1 else 0) + count sn names

abbrev pub under_way : Build → ℕ
under_way b = if b.status == 1 then 1 else 0

-- 1 for a building that is being built.
unfoldable pub in_progress : Bytes → Dict Bytes Build → ℕ
in_progress sn builds = elim (lookup sn builds) [ none ↦ 0 | some b ↦ under_way b ]

-- The tables have the level of the building, and the one that it will have.
pub record HasLevels (c : Config) (b : Build) : Type 0 where
  pub current : (conf : BuildConfig) × (cell c.global_build b.build_type b.build_level ≡ some conf)
  pub next :
      b.status ≡ 1
      → (conf : BuildConfig) × (cell c.global_build b.build_type (int_add b.build_level 1)
          ≡ some conf)

abbrev pub IsKept : Config → Bytes → Build → Type 0
IsKept c sn b = (b.build_sn ≡ sn) × HasLevels c b

-- What the three tables of a city say of the buildings is the same.
pub record AreBuilt (c : Config) (builds : Dict Bytes Build) (names : List Bytes)
    (timers : Dict Bytes ℕ) : Type 0 where
  pub kept : Every (IsKept c) builds
  pub counted : (sn : Bytes) → count sn names ≡ in_progress sn builds
  pub timed :
      (sn : Bytes) (seconds : ℕ) → lookup sn timers ≡ some seconds → in_progress sn builds ≡ 1

abbrev pub IsBuilt : Config → City → Type 0
IsBuilt c s = AreBuilt c s.my_build s.building s.building_timer

count-append :
    (sn name : Bytes) (names : List Bytes)
    → count sn (names ++ (name ∷ [])) ≡ count sn names + (if name == sn then 1 else 0)
unfolding count
count-append sn name [] = omega arith
count-append sn name (n ∷ names) = omega (arith, count-append sn name names)

pub count-remove :
    (sn name : Bytes) (names : List Bytes)
    → count sn (remove name names) ≡ (if name == sn then 0 else count sn names)
unfolding count remove
count-remove sn name [] = ground arith
count-remove sn name (n ∷ names) = ground (
  arith,
  bytes_eq_iff name sn,
  bytes_eq_iff n sn,
  bytes_eq_iff n name,
  count-remove sn name names,
)

pub count-erase_first :
    (sn name : Bytes) (names left : List Bytes)
    → erase_first name names ≡ some left
    → count sn names ≡ count sn left + (if name == sn then 1 else 0)
unfolding count erase_first
count-erase_first sn name [] left h = cc
count-erase_first sn name (n ∷ names) left h = elim (Option-cases (erase_first name names)) [
  | inl e ↦ ground (arith, e, h, bytes_eq_iff n name, bytes_eq_iff name sn)
  | inr (rest, e) ↦ ground (
    arith,
    e,
    h,
    bytes_eq_iff n name,
    bytes_eq_iff name sn,
    count-erase_first sn name names rest e,
  )
]

pub erase_first-none :
    (name : Bytes) (names : List Bytes) → erase_first name names ≡ none → count name names ≡ 0
unfolding count erase_first
erase_first-none name [] h = refl
erase_first-none name (n ∷ names) h = ground (arith, erase_first-none name names)

in_progress-assign :
    (sn name : Bytes) (b : Build) (builds : Dict Bytes Build)
    → in_progress sn (assign name b builds)
      ≡ (if name == sn then under_way b else in_progress sn builds)
unfolding in_progress
in_progress-assign sn name b builds = ground (arith, lookup-assign name sn b builds)

pub in_progress_lem :
    (sn : Bytes) (b : Build) (builds : Dict Bytes Build)
    → lookup sn builds ≡ some b
    → in_progress sn builds ≡ under_way b
unfolding in_progress
in_progress_lem sn b builds h = rw (h, in_progress)

module _ (c : Config) (builds : Dict Bytes Build) (names : List Bytes) (timers : Dict Bytes ℕ) where
  -- A building that stays as far as it was.
  pub touch-AreBuilt :
      (sn : Bytes) (old b : Build)
      → lookup sn builds ≡ some old
      → IsKept c sn b
      → under_way b ≡ under_way old
      → AreBuilt c builds names timers
      → AreBuilt c (assign sn b builds) names timers
  touch-AreBuilt sn old b found k same h = record {
    kept = assign-Every (IsKept c) sn b builds k h.kept;
    counted = λ j. ground (
      arith,
      bytes_eq_iff sn j,
      in_progress-assign j sn b builds,
      h.counted j,
      in_progress_lem sn old builds found,
      same,
    );
    timed = λ j t e. ground (
      arith,
      bytes_eq_iff sn j,
      in_progress-assign j sn b builds,
      h.timed j t e,
      in_progress_lem sn old builds found,
      same,
    );
  }

  -- A building that is begun.
  pub begin-AreBuilt :
      (sn : Bytes) (b : Build)
      → IsKept c sn b
      → b.status ≡ 1
      → in_progress sn builds ≡ 0
      → AreBuilt c builds names timers
      → AreBuilt c (assign sn b builds) (names ++ (sn ∷ [])) timers
  begin-AreBuilt sn b k one fresh h = record {
    kept = assign-Every (IsKept c) sn b builds k h.kept;
    counted = λ j. ground (
      arith,
      bytes_eq_iff sn j,
      count-append j sn names,
      in_progress-assign j sn b builds,
      h.counted j,
      fresh,
      one,
    );
    timed = λ j t e.
        ground (arith, bytes_eq_iff sn j, in_progress-assign j sn b builds, h.timed j t e, one);
  }

  pub timer-AreBuilt :
      (sn : Bytes) (seconds : ℕ)
      → in_progress sn builds ≡ 1
      → AreBuilt c builds names timers
      → AreBuilt c builds names (assign sn seconds timers)
  timer-AreBuilt sn seconds one h = record {
    kept = h.kept;
    counted = h.counted;
    timed = λ j t e.
        ground (arith, bytes_eq_iff sn j, lookup-assign sn j seconds timers, h.timed j t, one);
  }

  -- A building that is done, with the timer that it had.
  pub finish-AreBuilt :
      (sn : Bytes) (b : Build)
      → IsKept c sn b
      → b.status ≡ 0
      → AreBuilt c builds names timers
      → AreBuilt c (assign sn b builds) (remove sn names) (erase sn timers)
  finish-AreBuilt sn b k idle h = record {
    kept = assign-Every (IsKept c) sn b builds k h.kept;
    counted = λ j. ground (
      arith,
      bytes_eq_iff sn j,
      count-remove j sn names,
      in_progress-assign j sn b builds,
      h.counted j,
      idle,
    );
    timed = λ j t e. ground (
      arith,
      bytes_eq_iff sn j,
      in_progress-assign j sn b builds,
      lookup-erase sn j timers,
      h.timed j t,
      idle,
    );
  }

  -- A building that is done before a timer was started for it.
  pub finish_first-AreBuilt :
      (sn : Bytes) (b : Build) (left : List Bytes)
      → IsKept c sn b
      → b.status ≡ 0
      → erase_first sn names ≡ some left
      → lookup sn timers ≡ none
      → in_progress sn builds ≡ 1
      → AreBuilt c builds names timers
      → AreBuilt c (assign sn b builds) left timers
  finish_first-AreBuilt sn b left k idle found quiet one h = record {
    kept = assign-Every (IsKept c) sn b builds k h.kept;
    counted = λ j. ground (
      arith,
      bytes_eq_iff sn j,
      count-erase_first j sn names left found,
      in_progress-assign j sn b builds,
      h.counted j,
      idle,
      one,
    );
    timed = λ j t e.
        ground
          (arith, bytes_eq_iff sn j, in_progress-assign j sn b builds, h.timed j t e, quiet, idle);
  }
