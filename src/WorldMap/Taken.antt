-- ===== src/WorldMap/Taken.antt =====
-- workers/simple_worker/_world_map.cpp: which positions are free after a player has settled.
use cpp_framework.Prelude.{
  ℕ, suc, ◌%◌, ◌≡◌, refl, ap, ◌∙◌, true, false, Option, none, some, ◌==◌, nat_key, lookup, length,
  get_elem?, if◌then◌else◌, ltb, arith, nat_eq_iff, length-set,
}
use cpp_framework.Router.Fault.{ok}
use cpp_framework.WorldMap.Positions.{
  WorldMap, Players, position_of, get_range_position, settle_random, leave_old, add_key, key_of,
  add_new_position_to_map, take_at, get_settle_position, move_to,
}
use cpp_framework.WorldMap.Indexed.{IsIndexed, add_key-IsIndexed}
use cpp_framework.WorldMap.Swapped.{
  take_key-IsIndexed, add_key-is_free, is_free-none, same-IsIndexed, get_elem?-inside, last_key_lem,
  length-pop_back, take_at_lem, lookup-drawn, drawn-swapped, has_value, is_free, swapped, drawn,
  swapped-IsIndexed, swapped-is_free,
}

module _ {Db : Type 0} (players : Players Db) where
  -- A player with a position who settles at a free one moves there: the call succeeds, the index stays
  -- exact, redis is told, the old position is free and the new one is not, and all others are as they
  -- were, if the old position was not free.
  pub get_settle_position-is_free :
      (x y uuid old_x old_y : ℕ) (m : WorldMap) (db : Db)
      → players.get_player_worldinfo uuid db ≡ some (old_x, old_y)
      → IsIndexed m
      → is_free (key_of x y) m ≡ true
      → is_free (key_of old_x old_y) m ≡ false
      → (m' : WorldMap) × (get_settle_position players x y uuid m db
          ≡ ok (some true, m', players.add_new_player x y uuid db))
        × IsIndexed m'
        × ((j : ℕ)
            → is_free j m' ≡ (
                if key_of old_x old_y == j
                then true
                else if key_of x y == j
                then false
                else is_free j m))
  unfolding get_settle_position move_to add_new_position_to_map
  get_settle_position-is_free x y uuid old_x old_y m db known v new old =
      let index = found (lookup (key_of x y) m.remaining_position) (unfold is_free in new) in
      let t = take_key-IsIndexed m (key_of x y) index.0 v index.1 in
      let gone =
        is_free-none (key_of old_x old_y) t.0 (ground (arith, t.3 (key_of old_x old_y), old)) in
      (
        add_key (key_of old_x old_y) t.0,
        ground (arith, known, index.1, t.1),
        add_key-IsIndexed _ t.0 t.2 gone,
        λ j. ground (arith, add_key-is_free (key_of old_x old_y) j t.0, t.3 j),
      )
    where
      found : (o : Option ℕ) → has_value o ≡ true → (i : ℕ) × (o ≡ some i)
      found none e = cc
      found (some i) e = (i, refl)

  get_range_position_lem :
      (uuid random n : ℕ) (m : WorldMap) (db : Db) (key : ℕ) (m' : WorldMap)
      → players.get_player_worldinfo uuid db ≡ none
      → length m.map_key ≡ suc n
      → get_elem? m.map_key (random % suc n) ≡ some key
      → take_at (random % suc n) key m ≡ ok m'
      → get_range_position players uuid random m db
        ≡ ok (
          some (position_of key),
          m',
          players.add_new_player (position_of key).0 (position_of key).1 uuid db,
        )
  unfolding get_range_position settle_random leave_old
  get_range_position_lem uuid random n m db key m' unknown size there taken =
      ground (arith, unknown, size, there, taken)

  -- A draw that is not of the last place takes its position: the index stays exact, and the position
  -- is free no more, if the player had none.
  pub get_range_position-is_free :
      (uuid random n : ℕ) (m : WorldMap) (db : Db)
      → players.get_player_worldinfo uuid db ≡ none
      → IsIndexed m
      → length m.map_key ≡ suc (suc n)
      → ltb (random % suc (suc n)) (suc n) ≡ true
      → (key : ℕ) × (m' : WorldMap) × (get_range_position players uuid random m db
          ≡ ok (
            some (position_of key),
            m',
            players.add_new_player (position_of key).0 (position_of key).1 uuid db,
          ))
        × (is_free key m ≡ true)
        × IsIndexed m'
        × ((j : ℕ) → is_free j m' ≡ (if key == j then false else is_free j m))
  get_range_position-is_free uuid random n m db unknown v size h =
      let i = random % suc (suc n) in
      let l = get_elem?-inside m.map_key (suc n) (ground (arith, size)) in
      let k = get_elem?-inside m.map_key i (ground (arith, size, h)) in
      let e = v.entry k.0 i k.1 in
      let inside : ltb i (length m.map_key) ≡ true = ground (arith, size, h) in
      let same = drawn-swapped m k.0 i l.0 (suc n) v e size l.1 inside h in
      (
        k.0,
        drawn k.0 i l.0 m,
        get_range_position_lem uuid random (suc n) m db k.0 _ unknown size k.1
            (take_at_lem m k.0 i l.0 n size inside (last_key_lem m.map_key (suc n) size ∙ l.1)),
        unfold is_free in ground (arith, e),
        same-IsIndexed (swapped i k.0 l.0 m) _ same refl
            (swapped-IsIndexed m k.0 i l.0 (suc n) v e size l.1 inside),
        λ j.
            unfold is_free in
            ground (arith, same j, swapped-is_free m k.0 i l.0 (suc n) v e size l.1 inside j),
      )

  -- A draw of the last of several places hands out a position that the index goes on holding, at a
  -- place behind the end of the vector, if the player had none.
  pub get_range_position-stale :
      (uuid random n : ℕ) (m : WorldMap) (db : Db)
      → players.get_player_worldinfo uuid db ≡ none
      → IsIndexed m
      → length m.map_key ≡ suc (suc n)
      → random % suc (suc n) ≡ suc n
      → (key : ℕ) × (m' : WorldMap) × (get_range_position players uuid random m db
          ≡ ok (
            some (position_of key),
            m',
            players.add_new_player (position_of key).0 (position_of key).1 uuid db,
          ))
        × (length m'.map_key ≡ suc n)
        × (lookup key m'.remaining_position ≡ some (suc n))
  get_range_position-stale uuid random n m db unknown v size h =
      let k = get_elem?-inside m.map_key (suc n) (ground (arith, size)) in
      let inside : ltb (suc n) (length m.map_key) ≡ true = ground (arith, size) in
      (
        k.0,
        drawn k.0 (suc n) k.0 m,
        get_range_position_lem uuid random (suc n) m db k.0 _ unknown size
            (ap (get_elem? m.map_key) h ∙ k.1)
            (ap (λ i. take_at i k.0 m) h
              ∙ take_at_lem m k.0 (suc n) k.0 n size inside
                  (last_key_lem m.map_key (suc n) size ∙ k.1)),
        length-pop_back _ (suc n) (length-set m.map_key (suc n) k.0 ∙ size),
        ground (arith, lookup-drawn m k.0 (suc n) k.0 k.0, nat_eq_iff k.0 k.0),
      )
