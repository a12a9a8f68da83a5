-- ===== src/Gateway/NetMessage/Values.antt =====
-- gateway_server/sdk/net_message.cc: the assignment and the exchange, and messages as values.
use mathlib.Core.Path.{subst}
use cpp_framework.Prelude.{
  ℕ, ◌<◌, ◌≡◌, refl, ◌∙◌, Option, none, some, List, [], ◌∷◌, ◌++◌, ◌==◌, nat_key, Bytes, length,
  if◌then◌else◌, arith,
}
use cpp_framework.Gateway.NetMessage.{
  NetMessage, Store, message_at, put, bytes_of, contents, set_dynamic, write, assigned, swapped,
  swap, reserve, clear, assign_message,
}
use cpp_framework.Gateway.NetMessage.Valid.{IsValid}
use cpp_framework.Gateway.NetMessage.Changes.{Changes, address_of, put-Changes}
use cpp_framework.Gateway.NetMessage.Writes.{
  Changes-if, Changes-same, write-Changes, reserve-Changes, set_dynamic-Changes, clear-Changes,
}

assigned-Changes :
    (o : Option ℕ) (i j : ℕ) (s : Store)
    → (message_at j s).dynamic_data ≡ o
    → i < length s.messages
    → IsValid s
    → Changes i (contents j s) s (put i (assigned o (message_at i s) (message_at j s)) s)
unfolding assigned contents bytes_of
assigned-Changes none i j s e l v =
    let m : NetMessage = record {
      static_data = (message_at j s).static_data;
      dynamic_data = none;
    } in
    rw e (unfold contents bytes_of in put-Changes i m s l v tt)
assigned-Changes (some p) i j s e l v =
    let m = record (message_at i s) { dynamic_data = some p } in
    rw e (
      put-Changes i m s l v (address_of (length s.vectors) p (message_at j s).dynamic_data e (v j)))

pub assign_message-Changes :
    (i j : ℕ) (s : Store)
    → i < length s.messages
    → IsValid s
    → Changes i (contents j s) s (assign_message i j s)
unfolding assign_message
assign_message-Changes i j s l v =
    Changes-if i (contents j s) s (i == j)
      (λ h. subst (λ k. Changes i (contents k s) s s) (ground arith) (Changes-same i s v))
      (λ _. assigned-Changes (message_at j s).dynamic_data i j s refl l v)

-- What `Swap` makes of two messages has the bytes of the other one.
swapped-bytes_of :
    (vectors : List Bytes) (o q : Option ℕ) (this other : NetMessage)
    → this.dynamic_data ≡ o
    → other.dynamic_data ≡ q
    → let r = swapped o q this other in
      (bytes_of vectors r.0.static_data r.0.dynamic_data
        ≡ bytes_of vectors other.static_data other.dynamic_data)
      × (bytes_of vectors r.1.static_data r.1.dynamic_data
          ≡ bytes_of vectors this.static_data this.dynamic_data)
      × (r.0.dynamic_data ≡ other.dynamic_data)
      × (r.1.dynamic_data ≡ this.dynamic_data)
unfolding swapped bytes_of
swapped-bytes_of vectors none none this other e f = rw (e, f) (refl, refl, refl, refl)
swapped-bytes_of vectors none (some q) this other e f = rw (e, f) (refl, refl, refl, refl)
swapped-bytes_of vectors (some p) none this other e f = rw (e, f) (refl, refl, refl, refl)
swapped-bytes_of vectors (some p) (some q) this other e f = rw (e, f) (refl, refl, refl, refl)

-- Two messages have each other's bytes, and no other has changed.
pub swap-contents :
    (i j : ℕ) (s : Store)
    → i < length s.messages
    → j < length s.messages
    → IsValid s
    → IsValid (swap i j s)
      × (length (swap i j s).messages ≡ length s.messages)
      × ((k : ℕ)
          → contents k (swap i j s)
            ≡ (if j == k then contents i s else if i == k then contents j s else contents k s))
unfolding swap
swap-contents i j s l m v =
    let this = message_at i s in
    let other = message_at j s in
    let r = swapped this.dynamic_data other.dynamic_data this other in
    let made =
      swapped-bytes_of s.vectors this.dynamic_data other.dynamic_data this other refl refl in
    let first = put-Changes i r.0 s l v (rw made.2 (v j)) in
    let longer : j < length (put i r.0 s).messages = omega (arith, first.size, m) in
    let second =
      put-Changes j r.1 (put i r.0 s) longer first.valid (unfold put in rw made.3 (v i)) in
    (
      second.valid,
      second.size ∙ first.size,
      λ k. second.reads k ∙ (unfold put contents in rw (made.1, first.reads k, made.0) refl),
    )

pub data Op : Type 0 where
  writes : ℕ → Bytes → Op
  reserves : ℕ → ℕ → Op
  makes_dynamic clears : ℕ → Op
  assigns swaps : ℕ → ℕ → Op

unfoldable pub step : Op → Store → Store
step (Op.writes i bytes) s = write i bytes s
step (Op.reserves i n) s = reserve i n s
step (Op.makes_dynamic i) s = set_dynamic i s
step (Op.clears i) s = clear i s
step (Op.assigns i j) s = assign_message i j s
step (Op.swaps i j) s = swap i j s

-- What an operation does to messages that are lists of bytes, with nothing shared.
abbrev pub value_step : Op → (ℕ → Bytes) → ℕ → Bytes
value_step (Op.writes i bytes) f k = if i == k then f i ++ bytes else f k
value_step (Op.reserves i n) f k = f k
value_step (Op.makes_dynamic i) f k = f k
value_step (Op.clears i) f k = if i == k then [] else f k
value_step (Op.assigns i j) f k = if i == k then f j else f k
value_step (Op.swaps i j) f k = if j == k then f i else if i == k then f j else f k

abbrev pub IsInRange : ℕ → Op → Type 0
IsInRange n (Op.writes i bytes) = i < n
IsInRange n (Op.reserves i m) = i < n
IsInRange n (Op.makes_dynamic i) = i < n
IsInRange n (Op.clears i) = i < n
IsInRange n (Op.assigns i j) = i < n
IsInRange n (Op.swaps i j) = (i < n) × (j < n)

-- The store after an operation, seen as values.
record Steps (op : Op) (s t : Store) : Type 0 where
  valid : IsValid t
  size : length t.messages ≡ length s.messages
  values : (k : ℕ) → contents k t ≡ value_step op (λ j. contents j s) k

of_Changes :
    (op : Op) (i : ℕ) (bytes : Bytes) (s t : Store)
    → Changes i bytes s t
    → ((k : ℕ) → (if i == k then bytes else contents k s) ≡ value_step op (λ j. contents j s) k)
    → Steps op s t
of_Changes op i bytes s t c h = record {
  valid = c.valid;
  size = c.size;
  values = λ k. c.reads k ∙ h k;
}

step-Steps :
    (op : Op) (s : Store) → IsInRange (length s.messages) op → IsValid s → Steps op s (step op s)
unfolding step
step-Steps (Op.writes i bytes) s l v =
    of_Changes (Op.writes i bytes) i (contents i s ++ bytes) s (write i bytes s)
      (write-Changes i bytes s l v) (λ k. refl)
step-Steps (Op.reserves i n) s l v =
    of_Changes (Op.reserves i n) i (contents i s) s (reserve i n s) (reserve-Changes i n s l v)
      (λ k. ground arith)
step-Steps (Op.makes_dynamic i) s l v =
    of_Changes (Op.makes_dynamic i) i (contents i s) s (set_dynamic i s)
      (set_dynamic-Changes i s l v) (λ k. ground arith)
step-Steps (Op.clears i) s l v =
    of_Changes (Op.clears i) i [] s (clear i s) (clear-Changes i s l v) (λ k. refl)
step-Steps (Op.assigns i j) s l v =
    of_Changes (Op.assigns i j) i (contents j s) s (assign_message i j s)
      (assign_message-Changes i j s l v) (λ k. refl)
step-Steps (Op.swaps i j) s l v =
    let c = swap-contents i j s l.0 l.1 v in record { valid = c.0; size = c.1; values = c.2 }

value_step-ext :
    (op : Op) (f g : ℕ → Bytes) (k : ℕ)
    → ((j : ℕ) → f j ≡ g j)
    → value_step op f k ≡ value_step op g k
value_step-ext (Op.writes i bytes) f g k h = ground (arith, h i, h k)
value_step-ext (Op.reserves i n) f g k h = h k
value_step-ext (Op.makes_dynamic i) f g k h = h k
value_step-ext (Op.clears i) f g k h = ground (arith, h k)
value_step-ext (Op.assigns i j) f g k h = ground (arith, h j, h k)
value_step-ext (Op.swaps i j) f g k h = ground (arith, h i, h j, h k)

unfoldable pub run : List Op → Store → Store
run [] s = s
run (op ∷ ops) s = run ops (step op s)

abbrev pub value_run : List Op → (ℕ → Bytes) → ℕ → Bytes
value_run [] f = f
value_run (op ∷ ops) f = value_run ops (value_step op f)

abbrev pub AreInRange : ℕ → List Op → Type 0
AreInRange n [] = Unit
AreInRange n (op ∷ ops) = IsInRange n op × AreInRange n ops

value_run-ext :
    (ops : List Op) (f g : ℕ → Bytes) (k : ℕ)
    → ((j : ℕ) → f j ≡ g j)
    → value_run ops f k ≡ value_run ops g k
value_run-ext [] f g k h = h k
value_run-ext (op ∷ ops) f g k h =
    value_run-ext ops (value_step op f) (value_step op g) k (λ j. value_step-ext op f g j h)

-- However messages are written, reserved, cleared, assigned and exchanged, each has the bytes that it
-- would have if every message were a list of bytes of its own, if the messages are those of the store and
-- its addresses are valid.
pub run-values :
    (ops : List Op) (s : Store) (k : ℕ)
    → AreInRange (length s.messages) ops
    → IsValid s
    → contents k (run ops s) ≡ value_run ops (λ j. contents j s) k
unfolding run
run-values [] s k r v = refl
run-values (op ∷ ops) s k r v =
    let c = step-Steps op s r.0 v in
    run-values ops (step op s) k (rw c.size r.1) c.valid
    ∙ value_run-ext ops (λ j. contents j (step op s)) (value_step op (λ j. contents j s)) k c.values
