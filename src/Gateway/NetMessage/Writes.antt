-- ===== src/Gateway/NetMessage/Writes.antt =====
-- gateway_server/sdk/net_message.cc: `Write`, `Reserve`, `clear` and the assignment.
use mathlib.Core.Path.{subst}
use cpp_framework.Prelude.{
  ℕ, ◌+◌, ◌<◌, ◌≡◌, ◌≢◌, refl, ◌∙◌, Bool, true, false, Option, none, some, [], ◌∷◌, ◌++◌, ◌==◌,
  nat_key, Bytes, length, get_or, if◌then◌else◌, ltb, leb, arith,
}
use cpp_framework.Gateway.NetMessage.{
  Store, dynamic_threshold, new_message, message_at, put, bytes_of, contents, holders, make_shared,
  set_dynamic_of, set_dynamic, append_dynamic, write_of, write, reserve_of, reserve, clear,
}
use cpp_framework.Gateway.NetMessage.Valid.{IsValid, message_at-put}
use cpp_framework.Gateway.NetMessage.Changes.{
  Changes, put-Changes, make_shared-Changes, vectors-Changes,
}

pub Changes-if :
    (i : ℕ) (bytes : Bytes) (s : Store) (c : Bool) {x y : Store}
    → (c ≡ true → Changes i bytes s x)
    → (c ≡ false → Changes i bytes s y)
    → Changes i bytes s (if c then x else y)
Changes-if i bytes s true p q = p refl
Changes-if i bytes s false p q = q refl

pub Changes-same : (i : ℕ) (s : Store) → IsValid s → Changes i (contents i s) s s
Changes-same i s v = record { valid = v; size = refl; reads = λ j. ground arith }

Changes-then :
    (i : ℕ) (a b : Bytes) (s t u : Store) → Changes i a s t → Changes i b t u → Changes i b s u
Changes-then i a b s t u first second = record {
  valid = second.valid;
  size = second.size ∙ first.size;
  reads = λ j. ground (arith, first.reads j, second.reads j);
}

append_dynamic-Changes :
    (o : Option ℕ) (i : ℕ) (bytes : Bytes) (s : Store)
    → o ≢ none
    → (message_at i s).dynamic_data ≡ o
    → i < length s.messages
    → IsValid s
    → Changes i (contents i s ++ bytes) s (append_dynamic o i bytes s)
unfolding append_dynamic contents bytes_of
append_dynamic-Changes none i bytes s d e l v = absurd (d refl)
append_dynamic-Changes (some p) i bytes s d e l v =
    let longer = get_or s.vectors p [] ++ bytes in
    rw e (
      Changes-if i longer s (holders p s.messages == 1) (vectors-Changes p i longer s e v)
        (λ _. make_shared-Changes i longer s l v))

set_dynamic_of-Changes :
    (o : Option ℕ) (i : ℕ) (s : Store)
    → (message_at i s).dynamic_data ≡ o
    → i < length s.messages
    → IsValid s
    → Changes i (contents i s) s (set_dynamic_of o i s)
unfolding set_dynamic_of contents bytes_of
set_dynamic_of-Changes (some p) i s e l v = unfold contents in Changes-same i s v
set_dynamic_of-Changes none i s e l v =
    rw e (make_shared-Changes i (message_at i s).static_data s l v)

pub set_dynamic-Changes :
    (i : ℕ) (s : Store)
    → i < length s.messages
    → IsValid s
    → Changes i (contents i s) s (set_dynamic i s)
unfolding set_dynamic
set_dynamic-Changes i s l v = set_dynamic_of-Changes (message_at i s).dynamic_data i s refl l v

set_dynamic_of-dynamic :
    (o : Option ℕ) (i : ℕ) (s : Store)
    → (message_at i s).dynamic_data ≡ o
    → i < length s.messages
    → (message_at i (set_dynamic_of o i s)).dynamic_data ≢ none
unfolding set_dynamic_of make_shared
set_dynamic_of-dynamic none i s e l h =
    let m = record (message_at i s) { dynamic_data = some (length s.vectors) } in
    let t = record s { vectors = s.vectors ++ (message_at i s).static_data ∷ [] } in
    ground (arith, message_at-put i i m t l)
set_dynamic_of-dynamic (some p) i s e l h = cc

-- The bytes that fit into the array.
static-Changes :
    (i : ℕ) (bytes : Bytes) (s : Store)
    → (message_at i s).dynamic_data ≡ none
    → i < length s.messages
    → IsValid s
    → Changes i
        (contents i s ++ bytes)
        s
        (put i (record (message_at i s) { static_data = (message_at i s).static_data ++ bytes }) s)
unfolding contents
static-Changes i bytes s e l v =
    let m = record (message_at i s) { static_data = (message_at i s).static_data ++ bytes } in
    let same : bytes_of s.vectors m.static_data m.dynamic_data
        ≡ bytes_of s.vectors (message_at i s).static_data (message_at i s).dynamic_data ++ bytes =
      rw e (unfold bytes_of in refl) in
    subst (λ b. Changes i b s (put i m s)) same (put-Changes i m s l v (v i))

write_of-Changes :
    (o : Option ℕ) (i : ℕ) (bytes : Bytes) (s : Store)
    → (message_at i s).dynamic_data ≡ o
    → i < length s.messages
    → IsValid s
    → Changes i (contents i s ++ bytes) s (write_of o i bytes s)
unfolding write_of
write_of-Changes (some p) i bytes s e l v =
    append_dynamic-Changes (some p) i bytes s (λ h. cc) e l v
write_of-Changes none i bytes s e l v =
    let t = set_dynamic i s in
    let grown = set_dynamic-Changes i s l v in
    let some_vector : (message_at i t).dynamic_data ≢ none =
      unfold set_dynamic in set_dynamic_of-dynamic (message_at i s).dynamic_data i s refl l in
    let long =
      append_dynamic-Changes (message_at i t).dynamic_data i bytes t some_vector refl
        (omega (arith, grown.size, l)) grown.valid in
    let kept : contents i t ≡ contents i s = ground (arith, grown.reads i) in
    Changes-if i (contents i s ++ bytes) s
      (leb (length (message_at i s).static_data + length bytes) dynamic_threshold)
      (λ _. static-Changes i bytes s e l v)
      (λ _.
        Changes-then i (contents i s) (contents i s ++ bytes) s t
          (append_dynamic (message_at i t).dynamic_data i bytes t) grown
          (subst
            (λ b. Changes i (b ++ bytes) t (append_dynamic (message_at i t).dynamic_data i bytes t))
            kept long))

pub write-Changes :
    (i : ℕ) (bytes : Bytes) (s : Store)
    → i < length s.messages
    → IsValid s
    → Changes i (contents i s ++ bytes) s (write i bytes s)
unfolding write
write-Changes i bytes s l v = write_of-Changes (message_at i s).dynamic_data i bytes s refl l v

pub reserve-Changes :
    (i n : ℕ) (s : Store)
    → i < length s.messages
    → IsValid s
    → Changes i (contents i s) s (reserve i n s)
unfolding reserve reserve_of
reserve-Changes i n s l v = go (message_at i s).dynamic_data
  where
    go : (o : Option ℕ) → Changes i (contents i s) s (reserve_of o i n s)
    go (some p) = Changes-same i s v
    go none =
        Changes-if i (contents i s) s (ltb n dynamic_threshold) (λ _. Changes-same i s v)
          (λ _. set_dynamic-Changes i s l v)

pub clear-Changes :
    (i : ℕ) (s : Store) → i < length s.messages → IsValid s → Changes i [] s (clear i s)
unfolding clear bytes_of
clear-Changes i s l v = put-Changes i new_message s l v tt
