-- ===== src/Router/Fault.antt =====
-- What a C++ call ends with: a value, or the way in which the process goes wrong.
use cpp_framework.Prelude.{Bool, true, false, Option, none, some, List, [], ◌∷◌}

-- A string made from a null pointer, a null pointer followed, a deleted object followed, `map::at`
-- without the key (an exception that nothing catches), an `assert`, an iterator that points outside
-- its vector or into storage that the vector gave back, a pop of an empty queue,
-- a remainder by 0.
pub data Fault : Type 0 where
  null_string null_pointer dangling out_of_range assertion bad_iterator queue_empty
        division_by_zero :
      Fault

pub data Result {ℓ} (A : Type ℓ) : Type ℓ where
  ok : A → Result A
  fault : Fault → Result A

-- A call and what is done with its value.
infixl 5 ◌>>=◌ ◌>>◌
abbrev pub ◌>>=◌ {ℓ κ} : {A : Type ℓ} {B : Type κ} → Result A → (A → Result B) → Result B
fault reason >>= next = fault reason
ok value >>= next = next value

abbrev pub ◌>>◌ {ℓ} : {B : Type ℓ} → Result (Unit {0}) → Result B → Result B
check >> next = check >>= λ _. next

-- `assert (b)`
abbrev pub assert : Bool → Result (Unit {0})
assert true = ok tt
assert false = fault Fault.assertion

abbrev pub or_fault {ℓ} : {A : Type ℓ} → Fault → Option A → Result A
or_fault e none = fault e
or_fault e (some a) = ok a

module _ {ℓ κ} {A : Type ℓ} {B : Type κ} where
  -- A loop over the parts that stops at the first fault.
  unfoldable pub traverse : (A → Result B) → List A → Result (List B)
  traverse f [] = ok []
  traverse f (x ∷ xs) = do y ← f x; ys ← traverse f xs; ok (y ∷ ys)
