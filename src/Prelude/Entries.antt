-- ===== src/Prelude/Entries.antt =====
-- What holds of every entry of a dictionary.
use Prim.Native.Nat.{ℕ, ◌<◌}
use mathlib.Core.Path.{◌≡◌, refl}
use mathlib.Core.List.{[], ◌∷◌}
use mathlib.Core.Option.{none, some}
use native.Mathlib.Omega.{arith}
use cpp_framework.Prelude.Keys.{Key, nat_key}
use cpp_framework.Prelude.Maps.{Dict, lookup, assign, erase}

module _ {ℓ κ μ} {K : Type ℓ} {V : Type κ} where
  abbrev pub Every : (K → V → Type μ) → Dict K V → Type μ
  Every P [] = Unit
  Every P ((k, v) ∷ m) = P k v × Every P m

module _ {ℓ κ μ} {K : Type ℓ} {V : Type κ} (P : K → V → Type μ) ⦃e : Key K⦄ where
  pub assign-Every : (k : K) (v : V) (m : Dict K V) → P k v → Every P m → Every P (assign k v m)
  unfolding assign
  assign-Every k v [] p h = (p, tt)
  assign-Every k v ((j, w) ∷ m) p h = ground (arith, e.beq_iff j k, assign-Every k v m p h.1)

  pub erase-Every : (k : K) (m : Dict K V) → Every P m → Every P (erase k m)
  unfolding erase
  erase-Every k [] h = tt
  erase-Every k ((j, w) ∷ m) h = ground (arith, erase-Every k m h.1)

  pub lookup-Every : (k : K) (v : V) (m : Dict K V) → Every P m → lookup k m ≡ some v → P k v
  unfolding lookup
  lookup-Every k v [] h found = cc
  lookup-Every k v ((j, w) ∷ m) h found = ground (arith, e.beq_iff j k, lookup-Every k v m h.1)

module _ {κ} {V : Type κ} where
  -- The keys of the dictionary increase.
  abbrev pub IsSorted : Dict ℕ V → Type 0
  IsSorted [] = Unit
  IsSorted ((k, v) ∷ m) = Every (λ j _. k < j) m × IsSorted m

  weaken-Every : (k j : ℕ) (m : Dict ℕ V) → k < j → Every (λ i _. j < i) m → Every (λ i _. k < i) m
  weaken-Every k j [] l h = tt
  weaken-Every k j ((i, w) ∷ m) l h = ground (arith, weaken-Every k j m l h.1)

  pub assign-IsSorted : (k : ℕ) (v : V) (m : Dict ℕ V) → IsSorted m → IsSorted (assign k v m)
  unfolding assign
  assign-IsSorted k v [] h = (tt, tt)
  assign-IsSorted k v ((j, w) ∷ m) h =
      let less = assign-Every (λ i _. j < i) k v m in
      ground (arith, less, assign-IsSorted k v m h.1, weaken-Every k j m)

  pub erase-IsSorted : (k : ℕ) (m : Dict ℕ V) → IsSorted m → IsSorted (erase k m)
  unfolding erase
  erase-IsSorted k [] h = tt
  erase-IsSorted k ((j, w) ∷ m) h =
      ground (arith, erase-Every (λ i _. j < i) k m h.0, erase-IsSorted k m h.1)

  -- A key below all others is not found.
  pub lookup_below : (k : ℕ) (m : Dict ℕ V) → Every (λ i _. k < i) m → lookup k m ≡ none
  unfolding lookup
  lookup_below k [] h = refl
  lookup_below k ((i, w) ∷ m) h = ground (arith, lookup_below k m h.1)
