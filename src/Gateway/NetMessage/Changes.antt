-- ===== src/Gateway/NetMessage/Changes.antt =====
-- gateway_server/sdk/net_message.cc: each operation changes the bytes of one message, and no other.
use mathlib.Core.Path.{subst}
use cpp_framework.Prelude.{
  ℕ, suc, ◌<◌, ◌≡◌, refl, sym, ◌∙◌, Bool, true, false, Option, none, some, List, [], ◌∷◌, ◌++◌,
  ◌==◌, nat_key, Bytes, length, length-set, length-append, get_or, set, if◌then◌else◌, arith,
}
use cpp_framework.Gateway.NetMessage.{
  NetMessage, Store, new_message, message_at, put, bytes_of, contents, points_to, holders,
  make_shared,
}
use cpp_framework.Gateway.NetMessage.Valid.{
  IsAddress, IsValid, get_or-set, get_or-snoc, message_at-put, bytes_of-append, holders-two,
}

-- One message has these bytes, the others those that they had.
pub record Changes (i : ℕ) (bytes : Bytes) (s t : Store) : Type 0 where
  pub valid : IsValid t
  pub size : length t.messages ≡ length s.messages
  pub reads : (j : ℕ) → contents j t ≡ (if i == j then bytes else contents j s)

IsAddress-if :
    (n : ℕ) (c : Bool) (m k : NetMessage)
    → IsAddress n m.dynamic_data
    → IsAddress n k.dynamic_data
    → IsAddress n (if c then m else k).dynamic_data
IsAddress-if n true m k a b = a
IsAddress-if n false m k a b = b

longer : (n : ℕ) (o : Option ℕ) → IsAddress n o → IsAddress (suc n) o
longer n none h = tt
longer n (some p) h = omega (arith, h)

pub put-Changes :
    (i : ℕ) (m : NetMessage) (s : Store)
    → i < length s.messages
    → IsValid s
    → IsAddress (length s.vectors) m.dynamic_data
    → Changes i (bytes_of s.vectors m.static_data m.dynamic_data) s (put i m s)
unfolding put contents
put-Changes i m s l v a = record {
  valid = λ j.
      subst (λ k. IsAddress (length s.vectors) k.dynamic_data) (sym (message_at-put i j m s l))
        (IsAddress-if (length s.vectors) (i == j) m (message_at j s) a (v j));
  size = length-set s.messages i m;
  reads = λ j. ground (arith, message_at-put i j m s l);
}

-- A vector at a new address changes nothing by itself.
grow : Bytes → Store → Store
grow bytes s = record s { vectors = s.vectors ++ bytes ∷ [] }

length-snoc : (xs : List Bytes) (b : Bytes) → length (xs ++ b ∷ []) ≡ suc (length xs)
length-snoc xs b = omega (arith, length-append xs (b ∷ []))

grow-IsValid : (bytes : Bytes) (s : Store) → IsValid s → IsValid (grow bytes s)
unfolding grow message_at
grow-IsValid bytes s v i =
    rw (length-snoc s.vectors bytes)
      (longer (length s.vectors) (get_or s.messages i new_message).dynamic_data (v i))

contents-grow :
    (j : ℕ) (bytes : Bytes) (s : Store) → IsValid s → contents j (grow bytes s) ≡ contents j s
unfolding grow contents message_at
contents-grow j bytes s v =
    bytes_of-append s.vectors bytes (get_or s.messages j new_message).static_data
      (get_or s.messages j new_message).dynamic_data (v j)

pub make_shared-Changes :
    (i : ℕ) (bytes : Bytes) (s : Store)
    → i < length s.messages
    → IsValid s
    → Changes i bytes s (make_shared i bytes s)
unfolding make_shared grow bytes_of
make_shared-Changes i bytes s l v =
    let m = record (message_at i s) { dynamic_data = some (length s.vectors) } in
    let made =
      put-Changes i m (grow bytes s) l (grow-IsValid bytes s v)
        (omega (arith, length-snoc s.vectors bytes)) in
    record {
      valid = made.valid;
      size = made.size;
      reads =
          λ j. made.reads j ∙ rw (get_or-snoc s.vectors bytes [], contents-grow j bytes s v) refl;
    }

bytes_of-set :
    (vectors : List Bytes) (p : ℕ) (bytes static : Bytes) (o : Option ℕ)
    → p < length vectors
    → bytes_of (set vectors p bytes) static o
      ≡ (if points_to p o then bytes else bytes_of vectors static o)
unfolding bytes_of points_to
bytes_of-set vectors p bytes static none h = refl
bytes_of-set vectors p bytes static (some q) h = ground (arith, get_or-set vectors p q bytes [] h)

-- A vector with one holder is that of this message, and of no other.
points_to-one :
    (p i j : ℕ) (s : Store)
    → (message_at i s).dynamic_data ≡ some p
    → (holders p s.messages == 1) ≡ true
    → points_to p (message_at j s).dynamic_data ≡ (i == j)
unfolding message_at
points_to-one p i j s a h =
    let here : points_to p (get_or s.messages i new_message).dynamic_data ≡ true =
      rw a (unfold points_to in ground arith) in
    ground (arith, here, holders-two p i j s.messages)

pub address_of : (n p : ℕ) (o : Option ℕ) → o ≡ some p → IsAddress n o → p < n
address_of n p none e h = cc
address_of n p (some q) e h = ground arith

pub vectors-Changes :
    (p i : ℕ) (bytes : Bytes) (s : Store)
    → (message_at i s).dynamic_data ≡ some p
    → IsValid s
    → (holders p s.messages == 1) ≡ true
    → Changes i bytes s (record s { vectors = set s.vectors p bytes })
unfolding contents message_at
vectors-Changes p i bytes s e v h = record {
  valid = λ j. rw (length-set s.vectors p bytes) (v j);
  size = refl;
  reads = λ j.
      let m = message_at j s in
      bytes_of-set s.vectors p bytes m.static_data m.dynamic_data
        (address_of (length s.vectors) p (message_at i s).dynamic_data e (v i))
      ∙ rw (points_to-one p i j s e h) refl;
}
