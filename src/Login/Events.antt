-- ===== src/Login/Events.antt =====
-- gateway_server/service/_login_worker_logicworker.cpp: whatever happens to the buildings of a player.
use cpp_framework.Prelude.{ℕ, ◌≡◌, none, some, List, [], ◌∷◌, bytes_key, Bytes, Dict, lookup}
use cpp_framework.Router.Fault.{Result, ok, ◌>>=◌}
use cpp_framework.Router.Returns.{Returns, returns, Returns->>=-eq, Returns-option}
use cpp_framework.Login.State.{Build, Config, City}
use cpp_framework.Login.Buildings.{
  build_timer_handle, build_status_list, build_create, build_upgrade, get_my_asset, fast_finish,
}
use cpp_framework.Login.Reloaded.{IsStored}
use cpp_framework.Login.Built.{IsBuilt}
use cpp_framework.Login.Progress.{
  build_timer_handle-IsBuilt, build_status_list-IsBuilt, get_my_asset-IsBuilt, fast_finish-IsBuilt,
}
use cpp_framework.Login.Begun.{IsComplete, build_create-IsBuilt, build_upgrade-IsBuilt}

-- A request, with the identifier that the generator would give or the buildings that redis has, or the end of
-- a timer.
pub data Event : Type 0 where
  creates : (uuid : Bytes) → (build_type x y : ℕ) → Event
  upgrades collects finishes time_up : Bytes → Event
  moves : (stored : Dict Bytes Build) → List (Bytes × ℕ × ℕ) → Event

module _ (c : Config) where
  unfoldable pub handle : ℕ → Event → City → Result City
  handle now (Event.creates uuid build_type x y) s = build_create c now uuid build_type x y s
  handle now (Event.upgrades build_sn) s = build_upgrade c now build_sn s
  handle now (Event.collects build_sn) s = get_my_asset c now build_sn s
  handle now (Event.finishes build_sn) s = fast_finish c now build_sn s
  handle now (Event.moves stored values) s = ok (build_status_list c now stored values s)
  handle now (Event.time_up build_sn) s = elim (lookup build_sn s.building_timer) [
    | none ↦ ok s
    | some seconds ↦ build_timer_handle c now build_sn s
  ]

  unfoldable pub run : List (ℕ × Event) → City → Result City
  run [] s = ok s
  run ((now, e) ∷ events) s = handle now e s >>= λ t. run events t

  -- The generator does not give the identifier of a building of the city, and redis has the buildings of the
  -- city.
  unfoldable pub IsNew : Event → City → Type 0
  IsNew (Event.creates uuid build_type x y) s = lookup uuid s.my_build ≡ none
  IsNew (Event.upgrades build_sn) s = Unit
  IsNew (Event.collects build_sn) s = Unit
  IsNew (Event.finishes build_sn) s = Unit
  IsNew (Event.time_up build_sn) s = Unit
  IsNew (Event.moves stored values) s = IsStored stored s

  unfoldable pub AreNew : List (ℕ × Event) → City → Type 0
  AreNew [] s = Unit
  AreNew ((now, e) ∷ events) s = IsNew e s × ((t : City) → handle now e s ≡ ok t → AreNew events t)

  module _ (full : IsComplete c) where
    handle-IsBuilt :
        (now : ℕ) (e : Event) (s : City)
        → IsNew e s
        → IsBuilt c s
        → Returns (IsBuilt c) (handle now e s)
    unfolding handle IsNew
    handle-IsBuilt now (Event.creates uuid t x y) s fresh h =
        build_create-IsBuilt c now uuid t x y s full fresh h
    handle-IsBuilt now (Event.upgrades sn) s fresh h = build_upgrade-IsBuilt c now sn s full h
    handle-IsBuilt now (Event.collects sn) s fresh h = get_my_asset-IsBuilt c now sn s h
    handle-IsBuilt now (Event.finishes sn) s fresh h = fast_finish-IsBuilt c now sn s h
    handle-IsBuilt now (Event.moves stored values) s fresh h =
        returns (build_status_list-IsBuilt c now stored values s fresh h)
    handle-IsBuilt now (Event.time_up sn) s fresh h =
        Returns-option (lookup sn s.building_timer) (λ _. returns h)
          λ seconds timer. build_timer_handle-IsBuilt c now sn seconds s timer h

    -- Whatever is requested and whenever timers end, no index leaves the tables of the configuration, and
    -- in the end a name stands in the list of buildings under way once if the building is being built
    -- and not at all otherwise, timers run for such buildings only, and every building stands under its
    -- name and has a level of the tables; if that was so at the start, the tables have all levels that
    -- the limits allow, the generator never gives a name that is taken, and redis has the buildings as they
    -- are, up to their times.
    pub run-IsBuilt :
        (events : List (ℕ × Event)) (s : City)
        → AreNew events s
        → IsBuilt c s
        → Returns (IsBuilt c) (run events s)
    unfolding run AreNew
    run-IsBuilt [] s fresh h = returns h
    run-IsBuilt ((now, e) ∷ events) s fresh h =
        Returns->>=-eq (handle-IsBuilt now e s fresh.0 h)
          λ t same k. run-IsBuilt events t (fresh.1 t same) k
