-- ===== src/Router/Returns.antt =====
-- Calls that return, and what holds of the value they return.
use cpp_framework.Prelude.{
  ◌≡◌, refl, Bool, true, false, Option, none, some, List, [], ◌∷◌, if◌then◌else◌, arith,
}
use cpp_framework.Router.Fault.{Fault, Result, ok, fault, ◌>>=◌, ◌>>◌, assert, or_fault}

-- The call returns, and what it returns satisfies the predicate.
pub data Returns {ℓ κ} {A : Type ℓ} (P : A → Type κ) : Result A → Type (ℓ ⊔ κ) where
  returns : {a : A} → P a → Returns P (ok a)

module _ {ℓ κ μ ν} {A : Type ℓ} {B : Type μ} {P : A → Type κ} {Q : B → Type ν} where
  pub Returns->>= :
      {r : Result A} {f : A → Result B}
      → Returns P r
      → ((a : A) → P a → Returns Q (f a))
      → Returns Q (r >>= f)
  Returns->>= (returns {a = a} p) k = k a p

  -- The same, where what follows needs to know the value.
  pub Returns->>=-eq :
      {r : Result A} {f : A → Result B}
      → Returns P r
      → ((a : A) → r ≡ ok a → P a → Returns Q (f a))
      → Returns Q (r >>= f)
  Returns->>=-eq (returns {a = a} p) k = k a refl p

pub Returns-weaken {ℓ κ} :
    {A : Type ℓ} {P Q : A → Type κ} {r : Result A}
    → Returns P r
    → ((a : A) → P a → Q a)
    → Returns Q r
Returns-weaken (returns {a = a} p) k = returns (k a p)

module _ {ℓ κ} {B : Type ℓ} {Q : B → Type κ} where
  pub Returns-if :
      (c : Bool) {x y : Result B}
      → (c ≡ true → Returns Q x)
      → (c ≡ false → Returns Q y)
      → Returns Q (if c then x else y)
  Returns-if true p q = p refl
  Returns-if false p q = q refl

-- The predicate holds of the value, if there is one.
pub data OnSome {ℓ κ} {A : Type ℓ} (P : A → Type κ) : Option A → Type (ℓ ⊔ κ) where
  absent : OnSome P none
  present : {a : A} → P a → OnSome P (some a)

pub OnSome-if {ℓ κ} :
    {A : Type ℓ} {P : A → Type κ} {x y : Option A} (c : Bool)
    → OnSome P x
    → OnSome P y
    → OnSome P (if c then x else y)
OnSome-if true p q = p
OnSome-if false p q = q

module _ {ℓ κ μ ν} {A : Type ℓ} {B : Type μ} {P : A → Type κ} {Q : B → Type ν} where
  pub OnSome-map :
      {o : Option A} (f : A → B)
      → OnSome P o
      → ((a : A) → P a → Q (f a))
      → OnSome Q (elim o [ none ↦ none | some a ↦ some (f a) ])
  OnSome-map f absent k = absent
  OnSome-map f (present {a = a} p) k = present (k a p)

  pub Returns-OnSome :
      {o : Option A} {x : Result B} {f : A → Result B}
      → OnSome P o
      → Returns Q x
      → ((a : A) → P a → Returns Q (f a))
      → Returns Q (elim o [ none ↦ x | some a ↦ f a ])
  Returns-OnSome absent q k = q
  Returns-OnSome (present {a = a} p) q k = k a p

module _ {ℓ κ μ} {A : Type ℓ} {B : Type μ} {Q : B → Type κ} where
  pub Returns-option :
      (o : Option A) {x : Result B} {f : A → Result B}
      → (o ≡ none → Returns Q x)
      → ((a : A) → o ≡ some a → Returns Q (f a))
      → Returns Q (elim o [ none ↦ x | some a ↦ f a ])
  Returns-option none p q = p refl
  Returns-option (some a) p q = q a refl

  pub Returns-list :
      (xs : List A) {x : Result B} {f : A → List A → Result B}
      → (xs ≡ [] → Returns Q x)
      → ((a : A) (rest : List A) → xs ≡ a ∷ rest → Returns Q (f a rest))
      → Returns Q (elim xs [ [] ↦ x | a ∷ rest ↦ f a rest ])
  Returns-list [] p q = p refl
  Returns-list (a ∷ rest) p q = q a rest refl

pub or_fault-Returns {ℓ} :
    {A : Type ℓ} (e : Fault) (o : Option A) (a : A)
    → o ≡ some a
    → Returns (λ b. b ≡ a) (or_fault e o)
or_fault-Returns e none a h = cc
or_fault-Returns e (some b) a h = returns (ground arith)

-- What holds of the value of a call, if it returns.
pub data OnOk {ℓ κ} {A : Type ℓ} (P : A → Type κ) : Result A → Type (ℓ ⊔ κ) where
  value : {a : A} → P a → OnOk P (ok a)
  none_returned : {e : Fault} → OnOk P (fault e)

module _ {ℓ κ μ} {A : Type ℓ} {B : Type μ} {Q : B → Type κ} where
  pub OnOk-or_fault :
      (e : Fault) (o : Option A) {f : A → Result B}
      → ((a : A) → o ≡ some a → OnOk Q (f a))
      → OnOk Q (or_fault e o >>= f)
  OnOk-or_fault e none k = none_returned
  OnOk-or_fault e (some a) k = k a refl

  pub OnOk-option :
      (o : Option A) {x : Result B} {f : A → Result B}
      → (o ≡ none → OnOk Q x)
      → ((a : A) → o ≡ some a → OnOk Q (f a))
      → OnOk Q (elim o [ none ↦ x | some a ↦ f a ])
  OnOk-option none p q = p refl
  OnOk-option (some a) p q = q a refl

pub OnOk-if {ℓ κ} :
    {B : Type ℓ} {Q : B → Type κ} (c : Bool) {x y : Result B}
    → (c ≡ true → OnOk Q x)
    → (c ≡ false → OnOk Q y)
    → OnOk Q (if c then x else y)
OnOk-if true p q = p refl
OnOk-if false p q = q refl

pub Returns-assert {ℓ κ} :
    {A : Type ℓ} {Q : A → Type κ} (b : Bool) (r : Result A)
    → b ≡ true
    → Returns Q r
    → Returns Q (assert b >> r)
Returns-assert true r h p = p
Returns-assert false r h p = absurd (ground (arith, h))
