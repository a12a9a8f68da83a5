-- ===== src/WorldMap/Positions.antt =====
-- workers/simple_worker/_world_map.cpp: the vector `map_key` of the free positions and the index
-- `remaining_position` into it. A `short` is the natural number of its bits, and so is an `int`.
use cpp_framework.Prelude.{
  widen, assign, ℕ, zero, suc, ◌+◌, ◌*◌, ◌/◌, ◌%◌, ◌^◌, Bool, true, false, ◌||◌, Option, none, some,
  List, [], ◌∷◌, ◌++◌, ◌==◌, nat_key, Dict, lookup, erase, length, get_elem?, set, if◌then◌else◌,
  ltb,
}
use cpp_framework.Router.Fault.{Fault, Result, ok, fault, ◌>>=◌, or_fault}

unfoldable pub pop_back {ℓ} : {A : Type ℓ} → List A → List A
pop_back [] = []
pop_back (x ∷ []) = []
pop_back (x ∷ y ∷ rest) = x ∷ pop_back (y ∷ rest)

unfoldable pub last_key : List ℕ → Option ℕ
last_key [] = none
last_key (x ∷ []) = some x
last_key (x ∷ y ∷ rest) = last_key (y ∷ rest)

-- `(x << 16) + y`
unfoldable pub key_of : ℕ → ℕ → ℕ
key_of x y = (widen x * 2 ^ 16 + widen y) % 2 ^ 32

-- The two shorts that `key >> 16` and `key & 0x0000ffff` are stored in.
unfoldable pub position_of : ℕ → ℕ × ℕ
position_of key = (key / 2 ^ 16, key % 2 ^ 16)

pub record WorldMap : Type 0 where
  pub remaining_position : Dict ℕ ℕ
  pub map_key : List ℕ

abbrev pub empty_map : WorldMap
empty_map = record { remaining_position = []; map_key = [] }

unfoldable pub add_key : ℕ → WorldMap → WorldMap
add_key key m = record {
  remaining_position = assign key (length m.map_key) m.remaining_position;
  map_key = m.map_key ++ (key ∷ []);
}

-- `AddNewPositionToMap`
unfoldable pub add_new_position_to_map : ℕ → ℕ → WorldMap → WorldMap
add_new_position_to_map x y m = add_key (key_of x y) m

-- What redis knows of the player's position, and the player's new one when there is one.
pub record Players (Db : Type 0) : Type 0 where
  pub get_player_worldinfo : ℕ → Db → Option (ℕ × ℕ)
  pub add_new_player : ℕ → ℕ → ℕ → Db → Db

unfoldable pub write_at : ℕ → ℕ → List ℕ → Result (List ℕ)
write_at index key keys =
    if ltb index (length keys) then ok (set keys index key) else fault Fault.bad_iterator

-- The removal in `GetRangePosition`: the entry goes before the last key takes its place.
unfoldable pub take_at : ℕ → ℕ → WorldMap → Result WorldMap
take_at random key m =
    let remaining = erase key m.remaining_position in
    if length m.map_key == 1
    then ok (record { remaining_position = remaining; map_key = [] })
    else (or_fault Fault.bad_iterator (last_key m.map_key) >>= λ last_map_key.
        write_at random last_map_key m.map_key >>= λ keys. ok (record {
          remaining_position = assign last_map_key random remaining;
          map_key = pop_back keys;
        }))

-- The removal in `GetSettlePosition`: the last key takes its place before the entry goes.
unfoldable pub take_key : ℕ → ℕ → WorldMap → Result WorldMap
take_key index key m = or_fault Fault.bad_iterator (last_key m.map_key) >>= λ last_map_key.
    write_at index last_map_key m.map_key >>= λ keys. ok (record {
      remaining_position = erase key (assign last_map_key index m.remaining_position);
      map_key = pop_back keys;
    })

unfoldable pub leave_old : Option (ℕ × ℕ) → WorldMap → WorldMap
leave_old none m = m
leave_old (some (x, y)) m = add_new_position_to_map x y m

module _ {Db : Type 0} (players : Players Db) where
  unfoldable pub settle_random : ℕ → ℕ → Db → WorldMap → Result (Option (ℕ × ℕ) × WorldMap × Db)
  settle_random uuid random db m =
      or_fault Fault.bad_iterator (get_elem? m.map_key random) >>= λ key.
      take_at random key m >>= λ m'.
      let p = position_of key in ok (some p, m', players.add_new_player p.0 p.1 uuid db)

  -- `GetRangePosition`: the position, if there is one. `random` is what `GetARandom` returns.
  unfoldable pub get_range_position :
      ℕ → ℕ → WorldMap → Db → Result (Option (ℕ × ℕ) × WorldMap × Db)
  unfolding settle_random
  get_range_position uuid random m db =
      let m1 = leave_old (players.get_player_worldinfo uuid db) m in
      elim (length m1.map_key) [
        | zero ↦ ok (none, m1, db)
        | suc n ↦ settle_random uuid (random % suc n) db m1
      ]

  unfoldable pub move_to : ℕ → ℕ → ℕ → ℕ × ℕ → Db → WorldMap → Result (Option Bool × WorldMap × Db)
  move_to x y uuid old db m = elim (lookup (key_of x y) m.remaining_position) [
    | none ↦ ok (some false, m, db)
    | some index ↦ take_key index (key_of x y) m >>= λ m'.
        ok (some true, add_new_position_to_map old.0 old.1 m', players.add_new_player x y uuid db)
  ]

  -- `GetSettlePosition`. For a player without a position control runs off the end of the function:
  -- no value, and nothing changed.
  unfoldable pub get_settle_position :
      ℕ → ℕ → ℕ → WorldMap → Db → Result (Option Bool × WorldMap × Db)
  unfolding move_to
  get_settle_position x y uuid m db = elim (players.get_player_worldinfo uuid db) [
    | none ↦ ok (none, m, db)
    | some old ↦ move_to x y uuid old db m
  ]

-- `check_remaining_position`: row `i` from column `j` on.
unfoldable pub check_row : ℕ → ℕ → List ℕ → WorldMap → WorldMap
check_row i j [] m = m
check_row i j (cell ∷ cells) m =
    check_row i (suc j) cells (if cell == 6 then add_new_position_to_map j i m else m)

unfoldable pub check_remaining_position : ℕ → List (List ℕ) → WorldMap → WorldMap
unfolding check_row
check_remaining_position i [] m = m
check_remaining_position i (row ∷ rows) m =
    check_remaining_position (suc i) rows (check_row i 0 row m)

-- `UpdateWorldMap`: the array as a list of its 640 rows.
unfoldable pub update_world_map : ℕ → ℕ → ℕ → List (List ℕ) → Result (List (List ℕ))
update_world_map x y s world =
    if ltb 640 x || ltb 640 y
    then ok world
    else or_fault Fault.bad_iterator (get_elem? world x) >>= λ row.
        if ltb y (length row) then ok (set world x (set row y s)) else fault Fault.bad_iterator
