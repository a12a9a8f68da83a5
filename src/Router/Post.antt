-- ===== src/Router/Post.antt =====
-- What holds of the value that a call returns, if it returns one.
use mathlib.Core.Path.{subst}
use native.Mathlib.Omega.{arith}
use cpp_framework.Prelude.{◌≡◌, refl}
use cpp_framework.Router.Fault.{Fault, Result, ok, fault, ◌>>=◌}

pub data Post {ℓ κ} {A : Type ℓ} (P : A → Type κ) : Result A → Type (ℓ ⊔ κ) where
  returns : {a : A} → P a → Post P (ok a)
  faults : {e : Fault} → Post P (fault e)

module _ {ℓ κ μ ν} {A : Type ℓ} {B : Type μ} {P : A → Type κ} {Q : B → Type ν} where
  pub Post->>= :
      {r : Result A} {f : A → Result B}
      → Post P r
      → ((a : A) → P a → Post Q (f a))
      → Post Q (r >>= f)
  Post->>= (returns {a = a} p) k = k a p
  Post->>= faults k = faults

module _ {ℓ} {A : Type ℓ} where
  -- Every call returns what it returns.
  pub Post-eq : (r : Result A) → Post (λ a. r ≡ ok a) r
  Post-eq (ok a) = returns refl
  Post-eq (fault e) = faults

  pub Post_of_ok {κ} : {P : A → Type κ} {r : Result A} → Post P r → (a : A) → r ≡ ok a → P a
  Post_of_ok {P} (returns p) a e = subst P (ground arith) p
  Post_of_ok faults a e = cc
