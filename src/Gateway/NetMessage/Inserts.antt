-- ===== src/Gateway/NetMessage/Inserts.antt =====
-- gateway_server/sdk/net_message.cc: `insert` and `setBytes`.
use mathlib.Core.Path.{subst}
use cpp_framework.Prelude.{
  ℕ, ◌+◌, ◌≤◌, ◌<◌, ◌≡◌, refl, ap, sym, ◌∙◌, true, none, some, List, [], ◌∷◌, ◌++◌, ◌==◌, nat_key,
  Bytes, take, drop, length, get_or, set, ltb, leb, arith,
}
use cpp_framework.Gateway.NetMessage.{
  Store, dynamic_threshold, message_at, put, bytes_of, contents, write, insert, insert_of,
  insert_static, splice, set_bytes, set_bytes_in,
}
use cpp_framework.Gateway.NetMessage.Valid.{IsValid}
use cpp_framework.Gateway.NetMessage.Changes.{Changes, put-Changes, make_shared-Changes}
use cpp_framework.Gateway.NetMessage.Writes.{Changes-if, write-Changes}
use cpp_framework.Router.Returns.{Returns, returns, Returns-if}

take-all : (xs : Bytes) → take (length xs) xs ≡ xs
take-all [] = refl
take-all (x ∷ xs) = ap (λ r. x ∷ r) (take-all xs)

drop-all : (xs : Bytes) → drop (length xs) xs ≡ []
drop-all [] = refl
drop-all (x ∷ xs) = drop-all xs

append-nil : (xs : Bytes) → xs ++ [] ≡ xs
append-nil [] = refl
append-nil (x ∷ xs) = ap (λ r. x ∷ r) (append-nil xs)

splice-end : (n : ℕ) (bytes now : Bytes) → n ≡ length now → splice n bytes now ≡ now ++ bytes
unfolding splice
splice-end n bytes now h = rw (h, take-all now, drop-all now) (append-nil (now ++ bytes))

contents-static :
    (i : ℕ) (s : Store)
    → (message_at i s).dynamic_data ≡ none
    → contents i s ≡ (message_at i s).static_data
unfolding contents bytes_of
contents-static i s e = rw e refl

put_static-Changes :
    (i : ℕ) (bytes : Bytes) (s : Store)
    → (message_at i s).dynamic_data ≡ none
    → i < length s.messages
    → IsValid s
    → Changes i bytes s (put i (record (message_at i s) { static_data = bytes }) s)
put_static-Changes i bytes s e l v =
    let m = record (message_at i s) { static_data = bytes } in
    let same : bytes_of s.vectors bytes m.dynamic_data ≡ bytes = rw e (unfold bytes_of in refl) in
    subst (λ b. Changes i b s (put i m s)) same (put-Changes i m s l v (v i))

insert_static-Changes :
    (i offset : ℕ) (bytes : Bytes) (s : Store)
    → (message_at i s).dynamic_data ≡ none
    → i < length s.messages
    → IsValid s
    → Changes i (splice offset bytes (contents i s)) s (insert_static i offset bytes s)
unfolding insert_static
insert_static-Changes i offset bytes s e l v =
    let longer = splice offset bytes (message_at i s).static_data in
    rw (contents-static i s e) (
      Changes-if i longer s
        (leb (length bytes + length (message_at i s).static_data) dynamic_threshold)
        (λ _. put_static-Changes i longer s e l v) (λ _. make_shared-Changes i longer s l v))

-- `insert` into a message whose bytes are in the object puts the bytes at the place, and changes no other
-- message.
pub insert-Changes :
    (i offset : ℕ) (bytes : Bytes) (s : Store)
    → (message_at i s).dynamic_data ≡ none
    → offset ≤ length (contents i s)
    → i < length s.messages
    → IsValid s
    → Returns (Changes i (splice offset bytes (contents i s)) s) (insert i offset bytes s)
unfolding insert
insert-Changes i offset bytes s e h l v =
    Returns-if (offset == length (contents i s))
      (λ c. returns (
        subst (λ b. Changes i b s (write i bytes s))
          (sym (splice-end offset bytes (contents i s) (ground arith)))
          (write-Changes i bytes s l v)))
      (λ c.
        let inside : ltb offset (length (message_at i s).static_data) ≡ true =
          ground (arith, contents-static i s e) in
        rw e
          (unfold insert_of in rw inside (returns (insert_static-Changes i offset bytes s e l v))))

contents-shared :
    (p k : ℕ) (vectors : List Bytes) (s : Store)
    → (message_at k s).dynamic_data ≡ some p
    → contents k (record s { vectors = vectors }) ≡ get_or vectors p []
unfolding contents message_at bytes_of
contents-shared p k vectors s e = rw e refl

-- What `setBytes` writes into one of two messages that share a vector, the other one has too.
pub contents-set_bytes :
    (p i j wanted : ℕ) (buff : Bytes) (s : Store)
    → (message_at i s).dynamic_data ≡ some p
    → (message_at j s).dynamic_data ≡ some p
    → contents j (set_bytes i wanted buff s).1 ≡ contents i (set_bytes i wanted buff s).1
unfolding set_bytes set_bytes_in
contents-set_bytes p i j wanted buff s e f =
    let n = (set_bytes i wanted buff s).0 in
    let vectors = set s.vectors p (take n buff ++ drop n (contents i s)) in
    rw e (contents-shared p j vectors s f ∙ sym (contents-shared p i vectors s e))
