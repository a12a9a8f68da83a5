-- ===== src/Router/Broker/Change.antt =====
-- router/mdbroker.cpp: what a client's request does to the type of a service, and what a change of the
-- type does to the workers that do not wait at that moment.
use cpp_framework.Prelude.{
  ℕ, suc, ◌≡◌, refl, ap, ◌∙◌, true, false, Option, none, some, List, [], ◌∷◌, nat_key, bytes_key,
  nat_eq_iff, arith, Bytes, Dict, lookup, lookup-modify_ne, leb, length,
}
use cpp_framework.Router.Fault.{Fault, ok, fault}
use cpp_framework.Router.Post.{Post, returns, Post->>=, Post_of_ok}
use cpp_framework.Router.Message.{Zmsg}
use cpp_framework.Router.Service.{Service, create_service, is_waiting}
use cpp_framework.Router.Broker.State.{Worker, Broker, load, mdpw_heartbeat, mdpw_reply}
use cpp_framework.Router.Broker.Services.{reattach, copy_service, replace_service, service_change}
use cpp_framework.Router.Broker.Workers.{
  worker_process, worker_require, worker_heartbeat, worker_waiting,
}
use cpp_framework.Router.Broker.Invariant.{service_delete-Post}

lookup-reattach :
    (a : ℕ) (ws : List Bytes) (worker : Bytes) (workers : Dict Bytes Worker)
    → is_waiting worker ws ≡ false
    → lookup worker (reattach a ws workers) ≡ lookup worker workers
unfolding reattach is_waiting
lookup-reattach a [] worker workers h = refl
lookup-reattach a (w ∷ ws) worker workers h =
    lookup-reattach a ws worker _ (ground arith)
    ∙ lookup-modify_ne w worker _ workers (ground arith)

-- What is left of the old service and of a worker that did not wait there.
abbrev Leaves : Broker → ℕ → Bytes → Option ℕ × Broker → Type 0
Leaves b old worker (none, c) = c ≡ b
Leaves b old worker (some a, c) =
    (c.heap old ≡ none) × (lookup worker c.workers ≡ lookup worker b.workers)

replace_service-Leaves :
    (b : Broker) (old : ℕ) (s : Service) (worker : Bytes) (made : Option Service)
    → is_waiting worker s.waiting ≡ false
    → Post (Leaves b old worker) (replace_service b old s made)
unfolding replace_service
replace_service-Leaves b old s worker none h = returns refl
replace_service-Leaves b old s worker (some t) h =
    Post->>=
      (service_delete-Post (copy_service b old s t) old (record s { waiting = []; requests = [] })
        (unfold copy_service in ground (arith, nat_eq_iff old old)))
      λ c e. returns (
        ap (λ (x : Broker). x.heap old) e ∙ ground (arith, nat_eq_iff old old),
        ap (λ (x : Broker). lookup worker x.workers) e
            ∙ unfold copy_service in lookup-reattach b.next s.waiting worker b.workers h,
      )

service_change-Leaves :
    (b c : Broker) (old a : ℕ) (service_type : Bytes) (s : Service) (worker : Bytes)
    → b.heap old ≡ some s
    → is_waiting worker s.waiting ≡ false
    → service_change b old service_type ≡ ok (some a, c)
    → Leaves b old worker (some a, c)
unfolding service_change
service_change-Leaves b c old a service_type s worker hs h e =
    Post_of_ok (replace_service-Leaves b old s worker (create_service service_type s.name) h)
      (some a, c) (rw hs at e)

-- The pointer of a worker to a service that is deleted.
record IsDangling (b : Broker) (worker : Bytes) (w : Worker) (old : ℕ) : Type 0 where
  known : lookup worker b.workers ≡ some w
  points : w.service ≡ some old
  deleted : b.heap old ≡ none

heartbeat-dangling :
    (grow : ℕ → ℕ) (now : ℕ) (b : Broker) (worker : Bytes) (w : Worker) (old : ℕ)
    → IsDangling b worker w old
    → worker_process grow now b worker (mdpw_heartbeat ∷ []) ≡ fault Fault.dangling
unfolding worker_process
heartbeat-dangling grow now b worker w old d =
    rw (d.known, worker_require)
      (rw (d.points, worker_heartbeat) (rw (d.points, worker_waiting) (rw (d.deleted, load))))

-- When a service changes its type, a worker of it that does not wait at that moment, as one that
-- works on a request of a `ServiceWaitResponse`, keeps the pointer to the deleted service: its next
-- heartbeat follows it.
pub worker_process-service_change :
    (grow : ℕ → ℕ) (now : ℕ) (b c : Broker) (old a : ℕ) (service_type : Bytes) (s : Service)
    (worker : Bytes) (w : Worker)
    → b.heap old ≡ some s
    → is_waiting worker s.waiting ≡ false
    → lookup worker b.workers ≡ some w
    → w.service ≡ some old
    → service_change b old service_type ≡ ok (some a, c)
    → worker_process grow now c worker (mdpw_heartbeat ∷ []) ≡ fault Fault.dangling
worker_process-service_change grow now b c old a service_type s worker w hs busy known points e =
    let (gone, kept) = service_change-Leaves b c old a service_type s worker hs busy e in
    heartbeat-dangling grow now c worker w old
      (record { known = kept ∙ known; points = points; deleted = gone })

leb-suc : (n : ℕ) → leb 1 (suc n) ≡ true
leb-suc n = ground arith

-- A REPLY from a worker that never said READY follows a null pointer.
pub worker_process-unattached :
    (grow : ℕ → ℕ) (now : ℕ) (b : Broker) (sender : Bytes) (rest : Zmsg)
    → lookup sender b.workers ≡ none
    → worker_process grow now b sender (mdpw_reply ∷ rest) ≡ fault Fault.null_pointer
unfolding worker_process
worker_process-unattached grow now b sender rest unknown =
    rw (leb-suc (length rest)) (rw (unknown, worker_require))
