-- ===== src/Gateway/NetMessage/Valid.antt =====
-- gateway_server/sdk/net_message.cc: what a change of one message leaves of the others.
use cpp_framework.Prelude.{
  ℕ, zero, suc, ◌≤◌, ◌<◌, ◌≡◌, ◌≢◌, refl, ap, true, Option, none, some, List, [], ◌∷◌, ◌++◌, ◌==◌,
  nat_key, Bytes, length, get_or, set, if◌then◌else◌, arith,
}
use cpp_framework.Gateway.NetMessage.{
  NetMessage, Store, new_message, message_at, put, bytes_of, points_to, holders,
}

-- The address, if there is one, is that of a vector.
abbrev pub IsAddress : ℕ → Option ℕ → Type 0
IsAddress n none = Unit
IsAddress n (some p) = p < n

abbrev pub IsValid : Store → Type 0
IsValid s = (i : ℕ) → IsAddress (length s.vectors) (message_at i s).dynamic_data

module _ {ℓ} {A : Type ℓ} where
  pub get_or-set :
      (xs : List A) (i k : ℕ) (v d : A)
      → i < length xs
      → get_or (set xs i v) k d ≡ (if i == k then v else get_or xs k d)
  get_or-set [] i k v d h = absurd (omega arith)
  get_or-set (x ∷ xs) zero zero v d h = refl
  get_or-set (x ∷ xs) zero (suc k) v d h = ground arith
  get_or-set (x ∷ xs) (suc i) zero v d h = ground arith
  get_or-set (x ∷ xs) (suc i) (suc k) v d h = ground (arith, get_or-set xs i k v d)

  pub get_or-append :
      (xs : List A) (k : ℕ) (v d : A) → k < length xs → get_or (xs ++ v ∷ []) k d ≡ get_or xs k d
  get_or-append [] k v d h = absurd (omega arith)
  get_or-append (x ∷ xs) zero v d h = refl
  get_or-append (x ∷ xs) (suc k) v d h = get_or-append xs k v d (omega arith)

  pub get_or-snoc : (xs : List A) (v d : A) → get_or (xs ++ v ∷ []) (length xs) d ≡ v
  get_or-snoc [] v d = refl
  get_or-snoc (x ∷ xs) v d = get_or-snoc xs v d

pub message_at-put :
    (i j : ℕ) (m : NetMessage) (s : Store)
    → i < length s.messages
    → message_at j (put i m s) ≡ (if i == j then m else message_at j s)
unfolding message_at put
message_at-put i j m s h = get_or-set s.messages i j m new_message h

-- A new vector changes what no message holds.
pub bytes_of-append :
    (vectors : List Bytes) (v static : Bytes) (o : Option ℕ)
    → IsAddress (length vectors) o
    → bytes_of (vectors ++ v ∷ []) static o ≡ bytes_of vectors static o
unfolding bytes_of
bytes_of-append vectors v static none h = refl
bytes_of-append vectors v static (some p) h = get_or-append vectors p v [] h

holders-one :
    (p i : ℕ) (ms : List NetMessage)
    → points_to p (get_or ms i new_message).dynamic_data ≡ true
    → 1 ≤ holders p ms
unfolding holders points_to
holders-one p i [] a = cc
holders-one p zero (m ∷ ms) a = ground arith
holders-one p (suc i) (m ∷ ms) a = ground (arith, holders-one p i ms a)

-- Two messages that hold a vector are two holders.
pub holders-two :
    (p i j : ℕ) (ms : List NetMessage)
    → i ≢ j
    → points_to p (get_or ms i new_message).dynamic_data ≡ true
    → points_to p (get_or ms j new_message).dynamic_data ≡ true
    → 2 ≤ holders p ms
unfolding holders points_to
holders-two p i j [] d a b = cc
holders-two p zero zero (m ∷ ms) d a b = absurd (d refl)
holders-two p zero (suc j) (m ∷ ms) d a b = ground (arith, holders-one p j ms b)
holders-two p (suc i) zero (m ∷ ms) d a b = ground (arith, holders-one p i ms a)
holders-two p (suc i) (suc j) (m ∷ ms) d a b =
    ground (arith, holders-two p i j ms (λ e. d (ap suc e)) a b)
