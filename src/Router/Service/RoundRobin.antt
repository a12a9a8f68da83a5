-- ===== src/Router/Service/RoundRobin.antt =====
-- router/service.hpp, `ServiceDoNotWaitResponse::pop_worker` over a list of workers that does not
-- change, and after changes that leave the iterator behind.
use native.Mathlib.Nat.{mod_self, mod-eq_of_lt}
use native.Mathlib.Decide.{dec_lt}
use cpp_framework.Prelude.{
  get_elem?-present, ◌⊎◌, inl, inr, ℕ, zero, suc, ◌+◌, ◌%◌, ◌≤◌, ◌<◌, ◌≡◌, refl, ◌≢◌, true, false,
  Option, none, List, [], ◌∷◌, ◌++◌, nat_key, arith, Bytes, length, get_elem?,
}
use cpp_framework.Router.Fault.{Fault, Result, ok, fault, ◌>>=◌}
use cpp_framework.Router.Service.{
  Service, Iterator, pop_in_turn, worker_waiting, is_waiting, remove, delete_worker,
}

-- `n` calls of `pop_worker`, one after the other.
pub pop_many : ℕ → Service → Result (List (Option Bytes))
pop_many zero s = ok []
pop_many (suc n) s = do (w, s') ← pop_in_turn s; rest ← pop_many n s'; ok (w ∷ rest)

-- The workers from index `i` on, going round at the end.
abbrev pub rounds : List Bytes → ℕ → ℕ → List (Option Bytes)
rounds ws i zero = []
rounds ws i (suc n) = get_elem? ws i ∷ rounds ws ((i + 1) % length ws) n

-- The next call takes the worker at index `i`.
record IsNext (s : Service) (i : ℕ) : Type 0 where
  inside : i < length s.waiting
  index :
      (s.if_pos_init ≡ false) × (i ≡ 0)
      ⊎ (s.if_pos_init ≡ true)
        × ((s.pos ≡ Iterator.at i) ⊎ (i ≡ 0) × (s.pos ≡ Iterator.at (length s.waiting)))

pop_next :
    (s : Service) (i : ℕ)
    → IsNext s i
    → pop_in_turn s
      ≡ ok (get_elem? s.waiting i, record s { if_pos_init = true; pos = Iterator.at (i + 1) })
unfolding pop_in_turn
pop_next s i v = ground (arith, get_elem?-present s.waiting i v.inside)

index_step :
    (i n : ℕ) → i < n → ((i + 1) % n ≡ i + 1) × (i + 1 < n) ⊎ ((i + 1) % n ≡ 0) × (i + 1 ≡ n)
index_step i n h = elim (dec_lt (i + 1) n) [
  | yes below ↦ inl (mod-eq_of_lt below, below)
  | no above ↦ let e : i + 1 ≡ n = omega arith in inr (rw e (mod_self n), e)
]

IsNext-step :
    (s : Service) (i : ℕ)
    → IsNext s i
    → IsNext
        (record s { if_pos_init = true; pos = Iterator.at (i + 1) })
        ((i + 1) % length s.waiting)
IsNext-step s i v = ground (arith, index_step i (length s.waiting) v.inside)

pop_many_lem : (n : ℕ) (s : Service) (i : ℕ) → IsNext s i → pop_many n s ≡ ok (rounds s.waiting i n)
unfolding pop_many
pop_many_lem zero s i v = refl
pop_many_lem (suc n) s i v =
    rw (pop_next s i v, pop_many_lem n _ ((i + 1) % length s.waiting) (IsNext-step s i v))

-- A service of the second class that nobody was taken from yet, with waiting workers, gives them out
-- in turn: the k-th call, for every k, takes the worker at index k modulo their number.
pub pop_many-rounds :
    (n : ℕ) (s : Service)
    → s.waiting ≢ []
    → s.if_pos_init ≡ false
    → pop_many n s ≡ ok (rounds s.waiting 0 n)
pop_many-rounds n s some_wait fresh =
    pop_many_lem n s 0 (record { inside = grind arith; index = inl (fresh, refl) })

get_elem?-none : (ws : List Bytes) (i : ℕ) → length ws ≤ i → get_elem? ws i ≡ none
get_elem?-none [] i h = refl
get_elem?-none (w ∷ ws) zero h = absurd (omega arith)
get_elem?-none (w ∷ ws) (suc i) h = get_elem?-none ws i (omega arith)

append-ne-nil : (ws : List Bytes) (w : Bytes) → ws ++ (w ∷ []) ≢ []
append-ne-nil [] w h = cc
append-ne-nil (x ∷ xs) w h = cc

-- A worker that joins when the storage is full moves the storage, and once somebody was taken in
-- turn the next call goes through an iterator into the storage that was given back.
pub pop_in_turn-worker_waiting :
    (grow : ℕ → ℕ) (s : Service) (worker : Bytes) (i : ℕ)
    → is_waiting worker s.waiting ≡ false
    → length s.waiting ≡ s.capacity
    → s.if_pos_init ≡ true
    → s.pos ≡ Iterator.at i
    → pop_in_turn (worker_waiting grow s worker) ≡ fault Fault.bad_iterator
unfolding pop_in_turn worker_waiting
pop_in_turn-worker_waiting grow s worker i new full started e =
    ground (arith, append-ne-nil s.waiting worker)

length-remove-le : (w : Bytes) (ws : List Bytes) → length (remove w ws) ≤ length ws
unfolding remove
length-remove-le w [] = omega arith
length-remove-le w (x ∷ xs) = ground (arith, length-remove-le w xs)

length-remove_lt :
    (w : Bytes) (ws : List Bytes) → is_waiting w ws ≡ true → length (remove w ws) < length ws
unfolding remove is_waiting
length-remove_lt w [] h = absurd (ground arith)
length-remove_lt w (x ∷ xs) h = ground (arith, length-remove_lt w xs, length-remove-le w xs)

past_end :
    (s : Service) (i : ℕ)
    → s.waiting ≢ []
    → s.if_pos_init ≡ true
    → s.pos ≡ Iterator.at i
    → length s.waiting < i
    → pop_in_turn s ≡ fault Fault.bad_iterator
unfolding pop_in_turn
past_end s i some_wait started e h = ground (arith, get_elem?-none s.waiting i)

-- When the last worker was the last one taken, and one of several workers goes, the iterator is
-- behind the new end, and the next call reads through it.
pub pop_in_turn-delete_worker :
    (s : Service) (worker : Bytes)
    → is_waiting worker s.waiting ≡ true
    → remove worker s.waiting ≢ []
    → s.if_pos_init ≡ true
    → s.pos ≡ Iterator.at (length s.waiting)
    → pop_in_turn (delete_worker s worker) ≡ fault Fault.bad_iterator
pop_in_turn-delete_worker s worker there others started e =
    unfold delete_worker in
    past_end (delete_worker s worker) (length s.waiting) others started e
      (length-remove_lt worker s.waiting there)
