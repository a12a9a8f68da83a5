-- ===== src/Router/Service/Popping.antt =====
-- router/service.hpp: what both kinds of `pop_worker` have in common.
use mathlib.Core.Path.{subst₂}
use cpp_framework.Prelude.{
  ◌∙◌, ℕ, zero, suc, ◌+◌, ◌≡◌, refl, true, Option, none, some, List, [], ◌∷◌, bytes_key,
  bytes_eq_iff, arith, Bytes, get_elem?,
}
use cpp_framework.Router.Fault.{Fault, Result, ok, fault, ◌>>=◌, or_fault}
use cpp_framework.Router.Service.{
  Service, ServiceType, Iterator, is_waiting, pop_worker, pop_first, pop_in_turn, start, take_next,
  pop_by_type,
}
use cpp_framework.Router.Service.Shrinks.{Shrinks, Shrinks-refl}

is_waiting_of_get_elem? :
    (ws : List Bytes) (i : ℕ) (w : Bytes) → get_elem? ws i ≡ some w → is_waiting w ws ≡ true
unfolding is_waiting
is_waiting_of_get_elem? [] i w h = cc
is_waiting_of_get_elem? (x ∷ ws) zero w h = ground (arith, bytes_eq_iff x w)
is_waiting_of_get_elem? (x ∷ ws) (suc i) w h = ground (arith, is_waiting_of_get_elem? ws i w h)

-- A worker that waits, or none where nobody does, is what comes out; nobody else starts to wait.
pub record Popped (s : Service) (w : Option Bytes) (s' : Service) : Type 0 where
  pub shrinks : Shrinks s s'
  pub requests : s'.requests ≡ s.requests
  pub nobody : w ≡ none → s.waiting ≡ []
  pub waited : (x : Bytes) → w ≡ some x → is_waiting x s.waiting ≡ true

abbrev pub Returns : Service → Result (Option Bytes × Service) → Type 0
Returns s (ok (w, s')) = Popped s w s'
Returns s (fault e) = Unit

pop_first-Popped : (s : Service) (ws : List Bytes) → s.waiting ≡ ws → Returns s (ok (pop_first s))
unfolding pop_first is_waiting
pop_first-Popped s [] e = record {
  shrinks = record {
    name = ground arith;
    type = ground arith;
    distinct = λ d. ground arith;
    subset = λ v h. ground arith;
  };
  requests = ground arith;
  nobody = λ _. e;
  waited = λ x h. ground arith;
}
pop_first-Popped s (w ∷ ws) e = record {
  shrinks = record {
    name = ground arith;
    type = ground arith;
    distinct = λ d. ground arith;
    subset = λ v h. ground (arith, bytes_eq_iff w v);
  };
  requests = ground arith;
  nobody = λ h. ground arith;
  waited = λ x h. ground (arith, bytes_eq_iff w x);
}

taken-Popped :
    (s : Service) (i : ℕ) (o : Option Bytes)
    → get_elem? s.waiting i ≡ o
    → Returns s (do
      w ← or_fault Fault.bad_iterator o
      ok (some w, record s { if_pos_init = true; pos = Iterator.at (i + 1) }))
taken-Popped s i none e = tt
taken-Popped s i (some w) e = record {
  shrinks = record { name = refl; type = refl; distinct = λ d. d; subset = λ v h. h };
  requests = refl;
  nobody = λ h. cc;
  waited = λ x h. is_waiting_of_get_elem? s.waiting i x (e ∙ h);
}

started-Popped :
    (s : Service) (r : Result ℕ)
    → Returns s (do
      i ← r
      w ← or_fault Fault.bad_iterator (get_elem? s.waiting i)
      ok (some w, record s { if_pos_init = true; pos = Iterator.at (i + 1) }))
started-Popped s (ok i) = taken-Popped s i (get_elem? s.waiting i) refl
started-Popped s (fault e) = tt

take_next-Popped : (s : Service) (ws : List Bytes) → s.waiting ≡ ws → Returns s (take_next s ws)
unfolding take_next
take_next-Popped s [] e = record {
  shrinks = Shrinks-refl s;
  requests = refl;
  nobody = λ _. e;
  waited = λ x h. cc;
}
take_next-Popped s (w ∷ ws) e = started-Popped s (start s s.pos)

pop_by_type-Popped : (t : ServiceType) (s : Service) → Returns s (pop_by_type t s)
unfolding pop_in_turn
pop_by_type-Popped ServiceType.wait_response s = pop_first-Popped s s.waiting refl
pop_by_type-Popped ServiceType.do_not_wait_response s = take_next-Popped s s.waiting refl

Returns-of_ok :
    (s : Service) (r : Result (Option Bytes × Service)) (w : Option Bytes) (s' : Service)
    → Returns s r
    → r ≡ ok (w, s')
    → Popped s w s'
Returns-of_ok s (ok (v, t)) w s' p e =
    let both : (v ≡ w) × (t ≡ s') = (ground arith, ground arith) in
    subst₂ (Popped s) both.0 both.1 p
Returns-of_ok s (fault f) w s' p e = cc

-- What `pop_worker` returns, in either class of service.
pub pop_worker-Popped :
    (s : Service) (w : Option Bytes) (s' : Service) → pop_worker s ≡ ok (w, s') → Popped s w s'
unfolding pop_worker
pop_worker-Popped s w s' e = Returns-of_ok s _ w s' (pop_by_type-Popped s.type s) e
