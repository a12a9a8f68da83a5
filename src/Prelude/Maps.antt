-- ===== src/Prelude/Maps.antt =====
-- Dictionaries as association lists in the order of their keys: `std::map` and `unordered_map`.
use mathlib.Core.Path.{◌≡◌, refl}
use mathlib.Core.Bool.{false}
use mathlib.Core.List.{List, [], ◌∷◌}
use mathlib.Core.Option.{Option, none, some}
use native.Mathlib.Omega.{arith}
use cpp_framework.Prelude.Tests.{if◌then◌else◌}
use cpp_framework.Prelude.Keys.{Key, ◌==◌}

abbrev pub Dict {ℓ κ} : Type ℓ → Type κ → Type (ℓ ⊔ κ)
Dict K V = List (K × V)

module _ {ℓ κ} {K : Type ℓ} {V : Type κ} ⦃e : Key K⦄ where
  -- `find`
  unfoldable pub lookup : K → Dict K V → Option V
  lookup k [] = none
  lookup k ((j, v) ∷ m) = if j == k then some v else lookup k m

  -- `insert`: a key that is there keeps its value.
  unfoldable pub insert : K → V → Dict K V → Dict K V
  insert k v [] = (k, v) ∷ []
  insert k v ((j, w) ∷ m) =
      if j == k
      then (j, w) ∷ m
      else let rest = insert k v m in if e.blt k j then (k, v) ∷ (j, w) ∷ m else (j, w) ∷ rest

  -- `m[k] = v` for a key that is there, and a write through the pointer that is stored for it.
  unfoldable pub modify : K → (V → V) → Dict K V → Dict K V
  modify k f [] = []
  modify k f ((j, w) ∷ m) = if j == k then (j, f w) ∷ m else (j, w) ∷ modify k f m

  -- `m[k] = v`
  unfoldable pub assign : K → V → Dict K V → Dict K V
  assign k v [] = (k, v) ∷ []
  assign k v ((j, w) ∷ m) =
      let rest = assign k v m in
      if j == k then (j, v) ∷ m else if e.blt k j then (k, v) ∷ (j, w) ∷ m else (j, w) ∷ rest

  -- `erase`
  unfoldable pub erase : K → Dict K V → Dict K V
  erase k [] = []
  erase k ((j, w) ∷ m) = let rest = erase k m in if j == k then rest else (j, w) ∷ rest

  pub lookup-insert :
      (k j : K) (v : V) (m : Dict K V)
      → lookup k m ≡ none
      → lookup j (insert k v m) ≡ (if k == j then some v else lookup j m)
  unfolding lookup insert
  lookup-insert k j v [] h = refl
  lookup-insert k j v ((i, w) ∷ m) h =
      ground (arith, e.beq_iff k j, e.beq_iff i k, e.beq_iff i j, lookup-insert k j v m)

  pub lookup-assign :
      (k j : K) (v : V) (m : Dict K V)
      → lookup j (assign k v m) ≡ (if k == j then some v else lookup j m)
  unfolding lookup assign
  lookup-assign k j v [] = refl
  lookup-assign k j v ((i, w) ∷ m) =
      ground (arith, e.beq_iff k j, e.beq_iff i k, e.beq_iff i j, lookup-assign k j v m)

  pub lookup-modify_ne :
      (k j : K) (f : V → V) (m : Dict K V) → (k == j) ≡ false → lookup j (modify k f m) ≡ lookup j m
  unfolding lookup modify
  lookup-modify_ne k j f [] h = refl
  lookup-modify_ne k j f ((i, w) ∷ m) h =
      ground (arith, e.beq_iff k j, e.beq_iff i k, e.beq_iff i j, lookup-modify_ne k j f m)

  pub lookup-modify_self :
      (k : K) (f : V → V) (v : V) (m : Dict K V)
      → lookup k m ≡ some v
      → lookup k (modify k f m) ≡ some (f v)
  unfolding lookup modify
  lookup-modify_self k f v [] h = cc
  lookup-modify_self k f v ((i, w) ∷ m) h = ground (arith, lookup-modify_self k f v m)

  pub lookup-erase :
      (k j : K) (m : Dict K V) → lookup j (erase k m) ≡ (if k == j then none else lookup j m)
  unfolding lookup erase
  lookup-erase k j [] = ground arith
  lookup-erase k j ((i, w) ∷ m) =
      ground (arith, e.beq_iff k j, e.beq_iff i k, e.beq_iff i j, lookup-erase k j m)
