-- ===== src/WorldMap/Swapped.antt =====
-- workers/simple_worker/_world_map.cpp: a position is taken out and the last key moves to its place.
use cpp_framework.Prelude.{
  assign, lookup-assign, ℕ, zero, suc, ◌≡◌, refl, Bool, true, false, Option, none, some, List, [],
  ◌∷◌, ◌==◌, nat_key, lookup, erase, lookup-erase, length, get_elem?, set, if◌then◌else◌, ltb,
  arith, nat_eq_iff, length-set,
}
use cpp_framework.Router.Fault.{ok}
use cpp_framework.WorldMap.Positions.{
  WorldMap, pop_back, last_key, add_key, write_at, take_key, take_at,
}
use cpp_framework.WorldMap.Indexed.{
  get_elem?-pop_back, get_elem?-last_key, get_elem?-bound, get_elem?-set, IsIndexed,
}

abbrev pub has_value {ℓ} : {A : Type ℓ} → Option A → Bool
has_value none = false
has_value (some a) = true

-- A position that `GetSettlePosition` finds in the index.
unfoldable pub is_free : ℕ → WorldMap → Bool
is_free key m = has_value (lookup key m.remaining_position)

last_key-found : (x : ℕ) (xs : List ℕ) → (l : ℕ) × (last_key (x ∷ xs) ≡ some l)
unfolding last_key
last_key-found x [] = (x, refl)
last_key-found x (y ∷ rest) = last_key-found y rest

pub last_of :
    (m : WorldMap) (key index : ℕ)
    → IsIndexed m
    → lookup key m.remaining_position ≡ some index
    → (l : ℕ) × (n : ℕ) × (last_key m.map_key ≡ some l)
      × (length m.map_key ≡ suc n)
      × (get_elem? m.map_key n ≡ some l)
      × (ltb index (length m.map_key) ≡ true)
last_of m key index v h = aux m.map_key (v.place key index h)
  where
    aux :
        (keys : List ℕ)
        → get_elem? keys index ≡ some key
        → (l : ℕ) × (n : ℕ) × (last_key keys ≡ some l)
          × (length keys ≡ suc n)
          × (get_elem? keys n ≡ some l)
          × (ltb index (length keys) ≡ true)
    aux [] e = cc
    aux (x ∷ xs) e =
        let l = last_key-found x xs in
        (
          l.0,
          length xs,
          l.1,
          refl,
          ground (arith, get_elem?-last_key x xs, l.1),
          ground (arith, get_elem?-bound (x ∷ xs) index, e),
        )

-- The map when `key` is gone and the last key stands at its place.
abbrev pub swapped : ℕ → ℕ → ℕ → WorldMap → WorldMap
swapped index key l m = record {
  remaining_position = erase key (assign l index m.remaining_position);
  map_key = pop_back (set m.map_key index l);
}

module _ (m : WorldMap) (key index l n : ℕ) (v : IsIndexed m)
    (h : lookup key m.remaining_position ≡ some index) (size : length m.map_key ≡ suc n)
    (at_last : get_elem? m.map_key n ≡ some l) (inside : ltb index (length m.map_key) ≡ true) where
  lookup-swapped :
      (j : ℕ)
      → lookup j (swapped index key l m).remaining_position
        ≡ (if key == j then none else if l == j then some index else lookup j m.remaining_position)
  lookup-swapped j = ground (
    arith,
    lookup-erase key j (assign l index m.remaining_position),
    lookup-assign l j index m.remaining_position,
  )

  get_elem?-swapped :
      (i : ℕ)
      → get_elem? (swapped index key l m).map_key i
        ≡ (if ltb i n then if index == i then some l else get_elem? m.map_key i else none)
  get_elem?-swapped i = ground (
    arith,
    get_elem?-pop_back (set m.map_key index l) i,
    length-set m.map_key index l,
    get_elem?-set m.map_key index i l,
    size,
    inside,
  )

  pub swapped-IsIndexed : IsIndexed (swapped index key l m)
  swapped-IsIndexed = record {
    place = λ k i e. ground (
      arith,
      lookup-swapped k,
      get_elem?-swapped i,
      e,
      v.place k i,
      v.place key index h,
      at_last,
      size,
      inside,
      nat_eq_iff key k,
      nat_eq_iff l k,
      get_elem?-bound m.map_key i,
    );
    entry = λ k i e. ground (
      arith,
      lookup-swapped k,
      get_elem?-swapped i,
      e,
      v.entry k i,
      h,
      v.entry l n at_last,
      v.entry key n,
      size,
      inside,
      nat_eq_iff key k,
      nat_eq_iff l k,
      nat_eq_iff index i,
    );
  }

  pub swapped-is_free :
      (j : ℕ) → is_free j (swapped index key l m) ≡ (if key == j then false else is_free j m)
  unfolding is_free
  swapped-is_free j = ground (arith, lookup-swapped j, v.entry l n at_last, nat_eq_iff l j)

pub take_key-IsIndexed :
    (m : WorldMap) (key index : ℕ)
    → IsIndexed m
    → lookup key m.remaining_position ≡ some index
    → (m' : WorldMap) × (take_key index key m ≡ ok m')
      × IsIndexed m'
      × ((j : ℕ) → is_free j m' ≡ (if key == j then false else is_free j m))
unfolding take_key write_at
take_key-IsIndexed m key index v h =
    let f = last_of m key index v h in
    (
      swapped index key f.0 m,
      ground (arith, f.2, f.5),
      swapped-IsIndexed m key index f.0 f.1 v h f.3 f.4 f.5,
      swapped-is_free m key index f.0 f.1 v h f.3 f.4 f.5,
    )

pub add_key-is_free :
    (key j : ℕ) (m : WorldMap)
    → is_free j (add_key key m) ≡ (if key == j then true else is_free j m)
unfolding is_free add_key
add_key-is_free key j m =
    ground (arith, lookup-assign key j (length m.map_key) m.remaining_position)

pub is_free-none :
    (key : ℕ) (m : WorldMap) → is_free key m ≡ false → lookup key m.remaining_position ≡ none
unfolding is_free
is_free-none key m h = ground (arith, h)

pub same-IsIndexed :
    (m m' : WorldMap)
    → ((j : ℕ) → lookup j m'.remaining_position ≡ lookup j m.remaining_position)
    → m'.map_key ≡ m.map_key
    → IsIndexed m
    → IsIndexed m'
same-IsIndexed m m' h k v = record {
  place = λ key i e. ground (arith, h key, k, v.place key i, e);
  entry = λ key i e. ground (arith, h key, k, v.entry key i, e);
}

pub get_elem?-inside :
    (xs : List ℕ) (i : ℕ) → ltb i (length xs) ≡ true → (x : ℕ) × (get_elem? xs i ≡ some x)
get_elem?-inside [] i h = absurd (ground (arith, h))
get_elem?-inside (x ∷ xs) zero h = (x, refl)
get_elem?-inside (x ∷ xs) (suc i) h = get_elem?-inside xs i (ground (arith, h))

pub last_key_lem : (xs : List ℕ) (n : ℕ) → length xs ≡ suc n → last_key xs ≡ get_elem? xs n
last_key_lem [] n h = ground (arith, h)
last_key_lem (x ∷ xs) n h = ground (arith, get_elem?-last_key x xs, h)

pub length-pop_back : (xs : List ℕ) (n : ℕ) → length xs ≡ suc n → length (pop_back xs) ≡ n
unfolding pop_back
length-pop_back [] n h = ground (arith, h)
length-pop_back (x ∷ []) n h = ground (arith, h)
length-pop_back (x ∷ y ∷ rest) n h =
    ground (arith, h, length-pop_back (y ∷ rest) (length rest) refl)

-- The map that `take_at` leaves when several positions are free.
abbrev pub drawn : ℕ → ℕ → ℕ → WorldMap → WorldMap
drawn key index l m = record {
  remaining_position = assign l index (erase key m.remaining_position);
  map_key = pop_back (set m.map_key index l);
}

pub take_at_lem :
    (m : WorldMap) (key index l n : ℕ)
    → length m.map_key ≡ suc (suc n)
    → ltb index (length m.map_key) ≡ true
    → last_key m.map_key ≡ some l
    → take_at index key m ≡ ok (drawn key index l m)
unfolding take_at write_at
take_at_lem m key index l n size inside e = ground (arith, size, inside, e)

pub lookup-drawn :
    (m : WorldMap) (key index l j : ℕ)
    → lookup j (drawn key index l m).remaining_position
      ≡ (if l == j then some index else if key == j then none else lookup j m.remaining_position)
lookup-drawn m key index l j = ground (
  arith,
  lookup-erase key j m.remaining_position,
  lookup-assign l j index (erase key m.remaining_position),
)

pub drawn-swapped :
    (m : WorldMap) (key index l n : ℕ)
    → IsIndexed m
    → lookup key m.remaining_position ≡ some index
    → length m.map_key ≡ suc n
    → get_elem? m.map_key n ≡ some l
    → ltb index (length m.map_key) ≡ true
    → ltb index n ≡ true
    → (j : ℕ)
    → lookup j (drawn key index l m).remaining_position
      ≡ lookup j (swapped index key l m).remaining_position
drawn-swapped m key index l n v e size at_last inside h j = ground (
  arith,
  lookup-drawn m key index l j,
  lookup-swapped m key index l n v e size at_last inside j,
  nat_eq_iff l j,
  nat_eq_iff key j,
  e,
  v.entry l n at_last,
  h,
)
