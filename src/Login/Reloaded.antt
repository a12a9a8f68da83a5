-- ===== src/Login/Reloaded.antt =====
-- gateway_server/service/_login_worker_logicworker.cpp and gateway_server/database/redis_chat_worker.cpp: the
-- buildings that are read again from redis.
use mathlib.Core.Path.{subst}
use cpp_framework.Prelude.{
  ℕ, ◌≡◌, refl, sym, ◌∙◌, ap, ◌&&◌, [], ◌∷◌, ◌==◌, nat_key, bytes_key, Bytes, Dict, lookup, Every,
  arith, Bool-cases, inl, inr,
}
use cpp_framework.Login.State.{Build, Config, City}
use cpp_framework.Login.Buildings.{map_builds, with_time, get_build_map}
use cpp_framework.Login.Built.{in_progress, IsKept, IsBuilt}

abbrev pub forget_time : Build → Build
forget_time b = record b { ctime = 0; time = 0 }

-- Redis has what was written last: the buildings of the city, up to their times, which the worker changes
-- without writing them.
abbrev pub IsStored : Dict Bytes Build → City → Type 0
IsStored stored s = map_builds forget_time stored ≡ map_builds forget_time s.my_build

-- The same building up to what `Built` does not speak of.
record IsLike (b d : Build) : Type 0 where
  pub name : d.build_sn ≡ b.build_sn
  pub kind : d.build_type ≡ b.build_type
  pub level : d.build_level ≡ b.build_level
  pub state : d.status ≡ b.status

IsLike-sym : {b d : Build} → IsLike b d → IsLike d b
IsLike-sym l = record {
  name = sym l.name;
  kind = sym l.kind;
  level = sym l.level;
  state = sym l.state;
}

module _ (c : Config) where
  kept_like : (sn : Bytes) (b d : Build) → IsLike b d → IsKept c sn b → IsKept c sn d
  kept_like sn b d l k = (
    l.name ∙ k.0,
    record {
      current = rw (l.kind, l.level) k.1.current;
      next = λ one. rw (l.kind, l.level) (k.1.next (sym l.state ∙ one));
    },
  )

  module _ (f : Build → Build) (like : (b : Build) → IsLike b (f b)) where
    map-kept : (m : Dict Bytes Build) → Every (IsKept c) m → Every (IsKept c) (map_builds f m)
    unfolding map_builds
    map-kept [] h = tt
    map-kept ((sn, b) ∷ m) h = (kept_like sn b (f b) (like b) h.0, map-kept m h.1)

    unmap-kept : (m : Dict Bytes Build) → Every (IsKept c) (map_builds f m) → Every (IsKept c) m
    unfolding map_builds
    unmap-kept [] h = tt
    unmap-kept ((sn, b) ∷ m) h = (kept_like sn (f b) b (IsLike-sym (like b)) h.0, unmap-kept m h.1)

    in_progress-map :
        (sn : Bytes) (m : Dict Bytes Build) → in_progress sn (map_builds f m) ≡ in_progress sn m
    unfolding map_builds in_progress lookup
    in_progress-map sn [] = refl
    in_progress-map sn ((name, b) ∷ m) = elim (Bool-cases (name == sn)) [
      | inl e ↦ ground (arith, e, (like b).state)
      | inr e ↦ ground (arith, e, in_progress-map sn m)
    ]

  forget_time-IsLike : (b : Build) → IsLike b (forget_time b)
  forget_time-IsLike b = record { name = refl; kind = refl; level = refl; state = refl }

  with_time-IsLike : (now : ℕ) (b : Build) → IsLike b (with_time now b)
  unfolding with_time
  with_time-IsLike now b = elim (Bool-cases (b.big_type == 2 && b.status == 0)) [
    | inl e ↦ rw e (record { name = refl; kind = refl; level = refl; state = refl })
    | inr e ↦ rw e (record { name = refl; kind = refl; level = refl; state = refl })
  ]

  same_progress :
      (now : ℕ) (sn : Bytes) (stored : Dict Bytes Build) (s : City)
      → IsStored stored s
      → in_progress sn (get_build_map now stored) ≡ in_progress sn s.my_build
  unfolding get_build_map
  same_progress now sn stored s same =
      in_progress-map (with_time now) (with_time-IsLike now) sn stored
      ∙ sym (in_progress-map forget_time forget_time-IsLike sn stored)
      ∙ ap (in_progress sn) same
      ∙ in_progress-map forget_time forget_time-IsLike sn s.my_build

  pub reload-IsBuilt :
      (now : ℕ) (stored : Dict Bytes Build) (s : City)
      → IsStored stored s
      → IsBuilt c s
      → IsBuilt c (record s { my_build = get_build_map now stored })
  unfolding get_build_map
  reload-IsBuilt now stored s same h = record {
    kept = map-kept (with_time now) (with_time-IsLike now) stored (
        unmap-kept forget_time forget_time-IsLike stored (
          subst (Every (IsKept c)) (sym same)
            (map-kept forget_time forget_time-IsLike s.my_build h.kept)));
    counted = λ sn. h.counted sn ∙ sym (unfold get_build_map in same_progress now sn stored s same);
    timed = λ sn seconds e.
        unfold get_build_map in same_progress now sn stored s same ∙ h.timed sn seconds e;
  }
