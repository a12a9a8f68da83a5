-- ===== src/Login/Progress.antt =====
-- gateway_server/service/_login_worker_logicworker.cpp: what ends the building of a building, moves or
-- empties it keeps the tables of a city together.
use cpp_framework.Prelude.{
  Dict, ℕ, ◌≡◌, refl, ◌&&◌, none, some, List, [], ◌∷◌, ◌==◌, nat_key, bytes_key, Bytes, lookup,
  assign, erase, signed_le, int_add, arith, Option-cases, inl, inr, bytes_eq_iff,
}
use cpp_framework.Prelude.Entries.{lookup-Every}
use cpp_framework.Router.Returns.{
  Returns, returns, Returns->>=, Returns-if, Returns-option, or_fault-Returns,
}
use cpp_framework.Login.State.{Build, Config, Request, Effect, City, emit, negative}
use cpp_framework.Login.Buildings.{
  erase_first, diamonds_for, pay_diamond, finished, stop_timer, build_timer_handle, place,
  build_status_list, place_all, get_build_map, collect, get_my_asset, send_paid,
  finish_without_timer, fast_finish,
}
use cpp_framework.Login.Reloaded.{IsStored, reload-IsBuilt}
use cpp_framework.Login.Built.{
  in_progress_lem, IsKept, IsBuilt, touch-AreBuilt, finish-AreBuilt, finish_first-AreBuilt,
  count-erase_first,
}

module _ (c : Config) where
  pub kept_at :
      (sn : Bytes) (b : Build) (s : City)
      → IsBuilt c s
      → lookup sn s.my_build ≡ some b
      → IsKept c sn b
  kept_at sn b s h found = lookup-Every (IsKept c) sn b s.my_build h.kept found

  moved_at :
      {sn : Bytes} {b : Build} (x y : ℕ) → IsKept c sn b → IsKept c sn (record b { x = x; y = y })
  moved_at x y k = (k.0, record { current = k.1.current; next = k.1.next })

  module _ (now : ℕ) where
    pub finished-IsKept :
        (sn : Bytes) (b : Build)
        → IsKept c sn b
        → b.status ≡ 1
        → Returns
            (λ d. IsKept c sn d × (d.status ≡ 0) × (d.build_level ≡ int_add b.build_level 1))
            (finished c now b)
    unfolding finished
    finished-IsKept sn b k one =
        let level = k.1.next one in
        Returns->>= (or_fault-Returns _ _ level.0 level.1)
          λ conf _. returns ((k.0, record { current = level; next = λ e. cc }), refl, refl)

    pub stop_timer-some :
        (sn : Bytes) (b : Build) (seconds : ℕ) (s : City)
        → lookup sn s.building_timer ≡ some seconds
        → stop_timer c now sn b s
          ≡ emit (Effect.build_data b) (record s { building_timer = erase sn s.building_timer })
    unfolding stop_timer
    stop_timer-some sn b seconds s e = rw (e, stop_timer)

    pub build_timer_handle-IsBuilt :
        (sn : Bytes) (seconds : ℕ) (s : City)
        → lookup sn s.building_timer ≡ some seconds
        → IsBuilt c s
        → Returns (IsBuilt c) (build_timer_handle c now sn s)
    unfolding build_timer_handle
    build_timer_handle-IsBuilt sn seconds s timer h =
        Returns-option (lookup sn s.my_build) (λ e. returns h)
          λ b found.
            let one = h.timed sn seconds timer in
            let begun : b.status ≡ 1 = ground (arith, one, in_progress_lem sn b s.my_build found) in
            Returns->>= (finished-IsKept sn b (kept_at sn b s h found) begun) λ d k. returns (
              rw
                (stop_timer-some sn d seconds (record s { my_build = assign sn d s.my_build })
                  timer)
                (finish-AreBuilt c s.my_build s.building s.building_timer sn d k.0 k.1 h))

    place-IsBuilt :
        (sn : Bytes) (x y : ℕ) (s : City) → IsBuilt c s → IsBuilt c (place c now sn x y s)
    unfolding place
    place-IsBuilt sn x y s h = elim (Option-cases (lookup sn s.my_build)) [
      | inl e ↦ rw (e, place) h
      | inr (b, e) ↦
          rw (e, place)
            (touch-AreBuilt c s.my_build s.building s.building_timer sn b _ e
              (moved_at x y (kept_at sn b s h e)) refl h)
    ]

    place_all-IsBuilt :
        (values : List (Bytes × ℕ × ℕ)) (s : City)
        → IsBuilt c s
        → IsBuilt c (place_all c now values s)
    unfolding place_all
    place_all-IsBuilt [] s h = h
    place_all-IsBuilt ((sn, x, y) ∷ values) s h =
        place_all-IsBuilt values _ (place-IsBuilt sn x y s h)

    pub build_status_list-IsBuilt :
        (stored : Dict Bytes Build) (values : List (Bytes × ℕ × ℕ)) (s : City)
        → IsStored stored s
        → IsBuilt c s
        → IsBuilt c (build_status_list c now stored values s)
    unfolding build_status_list get_build_map
    build_status_list-IsBuilt stored values s same h =
        place_all-IsBuilt values _ (reload-IsBuilt c now stored s same h)

    pub get_my_asset-IsBuilt :
        (sn : Bytes) (s : City) → IsBuilt c s → Returns (IsBuilt c) (get_my_asset c now sn s)
    unfolding get_my_asset collect
    get_my_asset-IsBuilt sn s h =
        Returns-option (lookup sn s.my_build) (λ _. returns h)
          λ b found.
            let k = kept_at sn b s h found in
            Returns-if (b.big_type == 2 && b.status == 0)
              (λ _. Returns->>= (or_fault-Returns _ _ k.1.current.0 k.1.current.1) λ conf _.
                returns
                  {a = emit (Effect.simple Request.get_my_asset (negative 1))
                    (collect c now sn b conf s)}
                  (touch-AreBuilt c s.my_build s.building s.building_timer sn b
                    (record b { ctime = now }) found
                    (k.0, record { current = k.1.current; next = k.1.next }) refl h))
              λ _. returns h

    finish_without_timer-IsBuilt :
        (sn : Bytes) (b : Build) (diamond : ℕ) (left : List Bytes) (s : City)
        → lookup sn s.my_build ≡ some b
        → erase_first sn s.building ≡ some left
        → lookup sn s.building_timer ≡ none
        → IsBuilt c s
        → Returns (IsBuilt c) (finish_without_timer c now sn b diamond left s)
    unfolding finish_without_timer send_paid pay_diamond
    finish_without_timer-IsBuilt sn b diamond left s found e quiet h =
        let known = in_progress_lem sn b s.my_build found in
        let one : b.status ≡ 1 = ground (
          arith,
          known,
          h.counted sn,
          count-erase_first sn sn s.building left e,
          bytes_eq_iff sn sn,
        ) in
        Returns->>= (finished-IsKept sn b (kept_at sn b s h found) one) λ d k. returns (
          finish_first-AreBuilt c s.my_build s.building s.building_timer sn d left k.0 k.1 e quiet
            (ground (arith, known, one)) h)

    pub fast_finish-IsBuilt :
        (sn : Bytes) (s : City) → IsBuilt c s → Returns (IsBuilt c) (fast_finish c now sn s)
    unfolding fast_finish pay_diamond send_paid
    fast_finish-IsBuilt sn s h =
        Returns-option (lookup sn s.my_build) (λ _. returns h)
          λ b found.
            Returns-if (signed_le 32 (diamonds_for now b) (s.assets).diamond)
              (λ _.
                Returns-option (lookup sn s.building_timer)
                  (λ quiet.
                    Returns-option (erase_first sn s.building) (λ _. returns h)
                      λ left e. finish_without_timer-IsBuilt sn b _ left s found e quiet h)
                  λ seconds timer.
                    Returns->>= (build_timer_handle-IsBuilt sn seconds (pay_diamond _ s) timer h)
                      λ t k. returns {a = send_paid c now t} k)
              λ _. returns h
