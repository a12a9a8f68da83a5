-- ===== src/Router/Broker/Delivery.antt =====
-- router/mdbroker.cpp, `service_dispatch`: which requests go to which workers.
use mathlib.Core.Path.{subst₂}
use mathlib.Core.List.{append_assoc, append-nil}
use cpp_framework.Prelude.{
  ℕ, zero, suc, ◌≤◌, ◌<◌, ◌≡◌, refl, sym, ap, ◌∙◌, ◌⊎◌, inl, inr, true, Option, none, some, List,
  [], ◌∷◌, ◌++◌, map, arith, Bytes, length,
}
use cpp_framework.Router.Fault.{Result, ok, fault, ◌>>=◌}
use cpp_framework.Router.Message.{Zmsg, send}
use cpp_framework.Router.Service.{Service, is_waiting, pop_request, has_actived_worker, pop_worker}
use cpp_framework.Router.Service.Shrinks.{
  Shrinks, Shrinks-refl, Shrinks-trans, has_actived_worker-Shrinks,
}
use cpp_framework.Router.Service.Popping.{Popped, pop_worker-Popped}
use cpp_framework.Router.Broker.State.{Broker, expired, worker_message, worker_send, mdpw_request}
use cpp_framework.Router.Broker.Dispatch.{
  dispatch_to, dispatch_alive, dispatch_round, dispatch_loop,
}

-- A worker, and the request that it gets.
abbrev pub Job : Type 0
Job = Bytes × Zmsg

-- The frames that bring each job to its worker.
abbrev pub Delivered : List Job → List (List Bytes) → Type 0
Delivered [] [] = Unit {0}
Delivered [] (f ∷ fs) = ⊥
Delivered (j ∷ js) [] = ⊥
Delivered ((w, m) ∷ js) (f ∷ fs) =
    (send (worker_message w mdpw_request [] (some m)) ≡ ok f) × Delivered js fs

abbrev pub AllWaiting : List Bytes → List Job → Type 0
AllWaiting ws [] = Unit {0}
AllWaiting ws ((w, m) ∷ js) = (is_waiting w ws ≡ true) × AllWaiting ws js

-- The oldest requests went to workers that waited, one message for each and in their order; the
-- later requests are still queued, nobody else waits, and of the broker only `sent` has changed.
pub record Served (s : Service) (b : Broker) (s' : Service) (b' : Broker) : Type 0 where
  pub jobs : List Job
  pub frames : List (List Bytes)
  pub requests : s.requests ≡ map (λ j. j.1) jobs ++ s'.requests
  pub delivered : Delivered jobs frames
  pub to_waiting : AllWaiting s.waiting jobs
  pub broker : b' ≡ record b { sent = b.sent ++ frames }
  pub shrinks : Shrinks s s'

-- The loop stops only when no request or no worker is left.
abbrev pub IsIdle : Service → Type 0
IsIdle s = (s.requests ≡ []) ⊎ (s.waiting ≡ [])

nil_of_length {ℓ} : {A : Type ℓ} (l : List A) → 0 ≡ length l → l ≡ []
nil_of_length [] h = refl
nil_of_length (x ∷ l) h = absurd (omega arith)

abbrev Ends : ℕ → Service → Broker → Result (Service × Broker) → Type 0
Ends n s b (ok (s', b')) = Served s b s' b' × (length s.requests ≤ n → IsIdle s')
Ends n s b (fault e) = Unit

AllWaiting-mono :
    (ws vs : List Bytes) (js : List Job)
    → ((v : Bytes) → is_waiting v ws ≡ true → is_waiting v vs ≡ true)
    → AllWaiting ws js
    → AllWaiting vs js
AllWaiting-mono ws vs [] h a = tt
AllWaiting-mono ws vs ((w, m) ∷ js) h a = (h w a.0, AllWaiting-mono ws vs js h a.1)

-- No job, when the queue is the same.
none-Served :
    (s s' : Service) (b : Broker) → Shrinks s s' → s.requests ≡ s'.requests → Served s b s' b
none-Served s s' b sh e = record {
  jobs = [];
  frames = [];
  requests = e;
  delivered = tt;
  to_waiting = tt;
  broker = ap (λ l. record b { sent = l }) (sym (append-nil b.sent));
  shrinks = sh;
}

-- One job before those of the further rounds.
one-Served :
    (s t : Service) (b : Broker) (w : Bytes) (m : Zmsg) (f : List Bytes)
    → Shrinks s t
    → s.requests ≡ m ∷ t.requests
    → is_waiting w s.waiting ≡ true
    → send (worker_message w mdpw_request [] (some m)) ≡ ok f
    → (s' : Service) (b' : Broker) → Served t (record b { sent = b.sent ++ (f ∷ []) }) s' b'
    → Served s b s' b'
one-Served s t b w m f sh e waits sent s' b' v = record {
  jobs = (w, m) ∷ v.jobs;
  frames = f ∷ v.frames;
  requests = e ∙ ap (◌∷◌ m) v.requests;
  delivered = (sent, v.delivered);
  to_waiting = (waits, AllWaiting-mono _ _ v.jobs sh.subset v.to_waiting);
  broker = v.broker ∙ ap (λ l. record b { sent = l }) (append_assoc b.sent (f ∷ []) v.frames);
  shrinks = Shrinks-trans sh v.shrinks;
}

pop_request_cons :
    (s : Service) (m : Zmsg) (rest : List Zmsg)
    → s.requests ≡ m ∷ rest
    → pop_request s ≡ (some m, record s { requests = rest })
unfolding pop_request
pop_request_cons s m rest e = ground arith

-- The rounds after the first, of which the induction gives the end.
module _ (now n : ℕ) (continue : Service → Broker → Result (Service × Broker))
    (further : (s : Service) (b : Broker) → Ends n s b (continue s b)) (s : Service) (b : Broker)
    (m : Zmsg) (rest : List Zmsg) (queue : s.requests ≡ m ∷ rest) where
  continue-Ends :
      (t : Service) (w : Bytes) (f : List Bytes)
      → Shrinks s t
      → t.requests ≡ rest
      → is_waiting w s.waiting ≡ true
      → send (worker_message w mdpw_request [] (some m)) ≡ ok f
      → (r : Result (Service × Broker)) → Ends n t (record b { sent = b.sent ++ (f ∷ []) }) r
      → Ends (suc n) s b r
  continue-Ends t w f sh e waits sent (ok (s', b')) v = (
    one-Served s t b w m f sh (queue ∙ ap (◌∷◌ m) (sym e)) waits sent s' b' v.0,
    λ h. v.1 (omega (arith, ap length queue, ap length e)),
  )
  continue-Ends t w f sh e waits sent (fault x) v = tt

  sent-Ends :
      (popped : Service) (w : Bytes)
      → Shrinks s popped
      → is_waiting w s.waiting ≡ true
      → (r : Result (List Bytes)) → send (worker_message w mdpw_request [] (some m)) ≡ r
      → Ends (suc n) s b (do
        after ← (do frames ← r; ok (record b { sent = b.sent ++ (frames ∷ []) }))
        continue (record popped { requests = rest }) after)
  sent-Ends popped w sh waits (ok f) e =
      continue-Ends (record popped { requests = rest }) w f
        (record { name = sh.name; type = sh.type; distinct = sh.distinct; subset = sh.subset }) refl
        waits e _ (further _ _)
  sent-Ends popped w sh waits (fault x) e = tt

  dispatch_to-Ends :
      (alive popped : Service) (w : Option Bytes)
      → Shrinks s alive
      → alive.requests ≡ s.requests
      → 0 < length alive.waiting
      → Popped alive w popped
      → Ends (suc n) s b (dispatch_to continue w popped b)
  unfolding dispatch_to worker_send
  dispatch_to-Ends alive popped none sh e some_alive p =
      absurd (omega (arith, ap length (p.nobody refl)))
  dispatch_to-Ends alive popped (some w) sh e some_alive p =
      rw (pop_request_cons popped m rest (p.requests ∙ e ∙ queue))
        (sent-Ends popped w (Shrinks-trans sh p.shrinks) (sh.subset w (p.waited w refl)) _ refl)

  popped-Ends :
      (alive : Service)
      → Shrinks s alive
      → alive.requests ≡ s.requests
      → 0 < length alive.waiting
      → (r : Result (Option Bytes × Service)) → pop_worker alive ≡ r
      → Ends (suc n) s b (do (wrk, popped) ← r; dispatch_to continue wrk popped b)
  popped-Ends alive sh e some_alive (ok (w, popped)) h =
      dispatch_to-Ends alive popped w sh e some_alive (pop_worker-Popped alive w popped h)
  popped-Ends alive sh e some_alive (fault x) h = tt

  dispatch_alive-Ends :
      (alive : Service) (left : ℕ)
      → Shrinks s alive
      → alive.requests ≡ s.requests
      → left ≡ length alive.waiting
      → Ends (suc n) s b (dispatch_alive continue left alive b)
  unfolding dispatch_alive
  dispatch_alive-Ends alive zero sh e count =
      (none-Served s alive b sh (sym e), λ _. inr (nil_of_length alive.waiting count))
  dispatch_alive-Ends alive (suc left) sh e count =
      popped-Ends alive sh e (omega arith) (pop_worker alive) refl

module _ (now n : ℕ) (continue : Service → Broker → Result (Service × Broker)) where
  dispatch_round-Ends :
      ((s : Service) (b : Broker) → Ends n s b (continue s b))
      → (s : Service) (b : Broker) (queue : List Zmsg) → s.requests ≡ queue
      → Ends (suc n) s b (dispatch_round continue now queue s b)
  unfolding dispatch_round
  dispatch_round-Ends further s b [] e = (none-Served s s b (Shrinks-refl s) refl, λ _. inl e)
  dispatch_round-Ends further s b (m ∷ rest) e =
      dispatch_alive-Ends now n continue further s b m rest e
        (has_actived_worker (expired now b.workers) s).1
        (has_actived_worker (expired now b.workers) s).0 (has_actived_worker-Shrinks _ s)
        (unfold has_actived_worker in refl) (unfold has_actived_worker in refl)

dispatch_loop-Ends : (now n : ℕ) (s : Service) (b : Broker) → Ends n s b (dispatch_loop now n s b)
unfolding dispatch_loop
dispatch_loop-Ends now zero s b =
    (none-Served s s b (Shrinks-refl s) refl, λ h. inl (nil_of_length s.requests (omega arith)))
dispatch_loop-Ends now (suc n) s b =
    dispatch_round-Ends now n (dispatch_loop now n) (dispatch_loop-Ends now n) s b s.requests refl

Ends-of_ok :
    (n : ℕ) (s : Service) (b : Broker) (r : Result (Service × Broker)) (s' : Service) (b' : Broker)
    → Ends n s b r
    → r ≡ ok (s', b')
    → Served s b s' b' × (length s.requests ≤ n → IsIdle s')
Ends-of_ok n s b (ok (t, c)) s' b' v e =
    let both : (t ≡ s') × (c ≡ b') = (ground arith, ground arith) in
    subst₂ (λ t c. Served s b t c × (length s.requests ≤ n → IsIdle t)) both.0 both.1 v
Ends-of_ok n s b (fault x) s' b' v e = cc

-- With a round for each request, the loop sends the oldest requests to waiting workers, one message
-- each and in the order of the queue, and ends with no request or no worker left.
pub dispatch_loop-Served :
    (now : ℕ) (s : Service) (b : Broker) (s' : Service) (b' : Broker)
    → dispatch_loop now (length s.requests) s b ≡ ok (s', b')
    → Served s b s' b' × IsIdle s'
dispatch_loop-Served now s b s' b' e =
    let v = Ends-of_ok (length s.requests) s b _ s' b' (dispatch_loop-Ends now _ s b) e in
    (v.0, v.1 (omega arith))
