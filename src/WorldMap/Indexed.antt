-- ===== src/WorldMap/Indexed.antt =====
-- workers/simple_worker/_world_map.cpp: the index says where each free position stands.
use cpp_framework.Prelude.{
  lookup-assign, ℕ, zero, suc, ◌≡◌, refl, true, false, none, some, List, [], ◌∷◌, ◌++◌, ◌==◌,
  nat_key, lookup, length, get_elem?, set, if◌then◌else◌, ltb, arith, nat_eq_iff,
}
use cpp_framework.WorldMap.Positions.{WorldMap, pop_back, last_key, add_key}

pub get_elem?-pop_back {ℓ} :
    {A : Type ℓ} (xs : List A) (i : ℕ)
    → get_elem? (pop_back xs) i ≡ (if ltb (suc i) (length xs) then get_elem? xs i else none)
unfolding pop_back
get_elem?-pop_back [] i = ground arith
get_elem?-pop_back (x ∷ []) i = ground arith
get_elem?-pop_back (x ∷ y ∷ rest) zero = ground arith
get_elem?-pop_back (x ∷ y ∷ rest) (suc i) = ground (arith, get_elem?-pop_back (y ∷ rest) i)

pub get_elem?-last_key : (x : ℕ) (xs : List ℕ) → get_elem? (x ∷ xs) (length xs) ≡ last_key (x ∷ xs)
unfolding last_key
get_elem?-last_key x [] = refl
get_elem?-last_key x (y ∷ rest) = get_elem?-last_key y rest

pub get_elem?-append {ℓ} :
    {A : Type ℓ} (xs : List A) (x : A) (i : ℕ)
    → get_elem? (xs ++ (x ∷ [])) i
      ≡ (if ltb i (length xs) then get_elem? xs i else if i == length xs then some x else none)
get_elem?-append [] x zero = ground arith
get_elem?-append [] x (suc i) = ground arith
get_elem?-append (y ∷ xs) x zero = ground arith
get_elem?-append (y ∷ xs) x (suc i) = ground (arith, get_elem?-append xs x i)

pub get_elem?-bound {ℓ} :
    {A : Type ℓ} (xs : List A) (i : ℕ) → ltb i (length xs) ≡ false → get_elem? xs i ≡ none
get_elem?-bound [] i h = refl
get_elem?-bound (x ∷ xs) zero h = ground arith
get_elem?-bound (x ∷ xs) (suc i) h = get_elem?-bound xs i (ground (arith, h))

pub get_elem?-set {ℓ} :
    {A : Type ℓ} (xs : List A) (i j : ℕ) (x : A)
    → ltb i (length xs) ≡ true
    → get_elem? (set xs i x) j ≡ (if i == j then some x else get_elem? xs j)
get_elem?-set [] i j x h = ground arith
get_elem?-set (y ∷ xs) zero zero x h = ground arith
get_elem?-set (y ∷ xs) zero (suc j) x h = ground arith
get_elem?-set (y ∷ xs) (suc i) zero x h = ground arith
get_elem?-set (y ∷ xs) (suc i) (suc j) x h = ground (arith, get_elem?-set xs i j x, h)

-- An entry for each place of the vector, and no other.
pub record IsIndexed (m : WorldMap) : Type 0 where
  pub place :
      (key i : ℕ) → lookup key m.remaining_position ≡ some i → get_elem? m.map_key i ≡ some key
  pub entry :
      (key i : ℕ) → get_elem? m.map_key i ≡ some key → lookup key m.remaining_position ≡ some i

pub add_key-IsIndexed :
    (key : ℕ) (m : WorldMap)
    → IsIndexed m
    → lookup key m.remaining_position ≡ none
    → IsIndexed (add_key key m)
unfolding add_key
add_key-IsIndexed key m v h = record {
  place = λ k i e. ground (
    arith,
    lookup-assign key k (length m.map_key) m.remaining_position,
    get_elem?-append m.map_key key i,
    v.place k i,
    get_elem?-bound m.map_key i,
    e,
    nat_eq_iff key k,
  );
  entry = λ k i e. ground (
    arith,
    lookup-assign key k (length m.map_key) m.remaining_position,
    get_elem?-append m.map_key key i,
    v.entry k i,
    e,
    h,
    nat_eq_iff key k,
  );
}
