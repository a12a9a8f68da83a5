-- ===== src/WorldMap/Tests.antt =====
-- workers/simple_worker: a map with three free positions.
use cpp_framework.Prelude.{
  widen, assign, ℕ, ◌≡◌, refl, true, false, none, some, lookup, ◌==◌, nat_key, if◌then◌else◌,
}
use cpp_framework.Router.Fault.{ok}
use cpp_framework.WorldMap.Positions.{
  WorldMap, Players, empty_map, add_key, key_of, position_of, get_settle_position,
  get_range_position,
}
use cpp_framework.WorldMap.Indexed.{IsIndexed, add_key-IsIndexed}
use cpp_framework.WorldMap.Swapped.{is_free}
use cpp_framework.WorldMap.Taken.{get_settle_position-is_free, get_range_position-is_free}

-- One player, at (5, 5); the database is the last player that was written.
abbrev at_five : Players ℕ
at_five = record {
  get_player_worldinfo = λ uuid db. if uuid == 9 then some (5, 5) else none;
  add_new_player = λ x y uuid db. uuid;
}

abbrev three_free : WorldMap
three_free = add_key 65537 (add_key 2 (add_key 1 empty_map))

empty_map-IsIndexed : IsIndexed empty_map
unfolding lookup
empty_map-IsIndexed = record { place = λ k i e. cc; entry = λ k i e. cc }

three_free-IsIndexed : IsIndexed three_free
three_free-IsIndexed =
    add_key-IsIndexed 65537 _
      (add_key-IsIndexed 2 _ (add_key-IsIndexed 1 _ empty_map-IsIndexed (unfold lookup in refl))
        (unfold add_key assign lookup in refl))
      (unfold add_key assign lookup in refl)

get_settle_position-is_free_example :
    (m' : WorldMap) × (get_settle_position at_five 1 1 9 three_free 0 ≡ ok (some true, m', 9))
    × IsIndexed m'
    × ((j : ℕ)
        → is_free j m' ≡ (
            if key_of 5 5 == j
            then true
            else if key_of 1 1 == j
            then false
            else is_free j three_free))
get_settle_position-is_free_example =
    get_settle_position-is_free at_five 1 1 9 5 5 three_free 0 refl three_free-IsIndexed
      (unfold is_free key_of widen add_key assign lookup in refl)
      (unfold is_free key_of widen add_key assign lookup in refl)

get_range_position-is_free_example :
    (key : ℕ) × (m' : WorldMap) × (get_range_position at_five 7 4 three_free 0
      ≡ ok (some (position_of key), m', 7))
    × (is_free key three_free ≡ true)
    × IsIndexed m'
    × ((j : ℕ) → is_free j m' ≡ (if key == j then false else is_free j three_free))
get_range_position-is_free_example =
    get_range_position-is_free at_five 7 4 1 three_free 0 refl three_free-IsIndexed
      (unfold add_key in refl) refl
