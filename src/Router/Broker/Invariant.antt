-- ===== src/Router/Broker/Invariant.antt =====
-- router/mdbroker.cpp: every handler keeps the directory and the heap sound.
use mathlib.Core.Path.{fun_ext}
use cpp_framework.Prelude.{
  ℕ, suc, ◌≡◌, refl, sym, ap, ◌∙◌, ◌≢◌, Bool, true, false, not, Option, none, some, [], ◌==◌,
  nat_key, bytes_key, bytes_eq_iff, nat_eq_iff, arith, Bytes, lookup, insert, erase, lookup-erase,
  if◌then◌else◌, length,
}
use cpp_framework.Router.Fault.{Fault, Result, or_fault, assert}
use cpp_framework.Router.Post.{Post, returns, faults, Post->>=, Post-eq}
use cpp_framework.Router.Message.{Zmsg, send}
use cpp_framework.Router.Service.{Service, ServiceType, type_name, create_service, copy}
use cpp_framework.Router.Service.Waiting.{IsDistinct}
use cpp_framework.Router.Broker.State.{Broker, update, load, store, transmit}
use cpp_framework.Router.Broker.Services.{
  service_delete, replace_service, service_change, enter_service, require_entry, service_require,
  is_empty, copy_service,
}
use cpp_framework.Router.Broker.Dispatch.{service_dispatch, enqueue, dispatch_loop}
use cpp_framework.Router.Broker.Delivery.{Served, dispatch_loop-Served}
use cpp_framework.Router.Broker.Soundness.{
  IsSound, same-IsSound, store-IsSound, delete-IsSound, allocate-IsSound, unused_address,
}

pub or_fault-Post {ℓ} :
    {A : Type ℓ} (e : Fault) (o : Option A) → Post (λ a. o ≡ some a) (or_fault e o)
or_fault-Post e none = faults
or_fault-Post e (some a) = returns refl

pub load-Post : (b : Broker) (a : ℕ) → Post (λ s. b.heap a ≡ some s) (load b a)
unfolding load
load-Post b a = or_fault-Post Fault.dangling (b.heap a)

record IsNew (service_type name : Bytes) (s : Service) : Type 0 where
  named : s.name ≡ name
  typed : type_name s.type ≡ service_type
  nobody : s.waiting ≡ []

create_service-IsNew :
    (service_type name : Bytes) (s : Service)
    → create_service service_type name ≡ some s
    → IsNew service_type name s
unfolding create_service
create_service-IsNew service_type name s e = ground (
  arith,
  bytes_eq_iff service_type (type_name ServiceType.wait_response),
  bytes_eq_iff service_type (type_name ServiceType.do_not_wait_response),
)

pub service_delete-Post :
    (b : Broker) (a : ℕ) (s : Service)
    → b.heap a ≡ some s
    → Post
        (λ c. c ≡ record b { services = erase s.name b.services; heap = update b.heap a none })
        (service_delete b a)
unfolding service_delete
service_delete-Post b a s h = rw h (returns refl)

-- Deleting the old service and then making the new one leaves the heap of the source, which makes
-- the new one first.
heap_after_change :
    (b : Broker) (old : ℕ) (t emptied : Service)
    → b.next ≢ old
    → update (update (update b.heap b.next (some t)) old (some emptied)) old none
      ≡ update (update b.heap old none) b.next (some t)
heap_after_change b old t emptied ne =
    fun_ext λ p. ground (arith, nat_eq_iff b.next p, nat_eq_iff old p)

abbrev Keeps : Option ℕ × Broker → Type 0
Keeps r = IsSound r.1

changed-IsSound :
    (b c : Broker) (old : ℕ) (s t emptied : Service)
    → IsSound b
    → b.heap old ≡ some s
    → t.name ≡ s.name
    → emptied.name ≡ s.name
    → IsDistinct t.waiting
    → c.services ≡ insert t.name b.next (erase emptied.name b.services)
    → c.heap ≡ update (update (update b.heap b.next (some t)) old (some emptied)) old none
    → c.next ≡ suc b.next
    → IsSound c
changed-IsSound b c old s t emptied v hs nt ne d es eh en =
    same-IsSound _ c (es ∙ ap (λ n. insert t.name b.next (erase n b.services)) ne)
      (eh ∙ heap_after_change b old t emptied (unused_address b old s v hs)) en
      (allocate-IsSound
        (record b { services = erase s.name b.services; heap = update b.heap old none }) t
        (rw nt (lookup-erase s.name s.name b.services ∙ rw ((bytes_eq_iff s.name s.name).1 refl))) d
        (delete-IsSound b old s hs v))

replace_service-Keeps :
    (b : Broker) (old : ℕ) (s : Service) (service_type : Bytes) (made : Option Service)
    → IsSound b
    → b.heap old ≡ some s
    → ((t : Service) → made ≡ some t → IsNew service_type s.name t)
    → Post Keeps (replace_service b old s made)
unfolding replace_service
replace_service-Keeps b old s service_type none v hs new = returns v
replace_service-Keeps b old s service_type (some t) v hs new =
    Post->>=
      (service_delete-Post (copy_service b old s t) old (record s { waiting = []; requests = [] })
        (unfold copy_service in ground (arith, nat_eq_iff old old)))
      λ c e. returns (
        changed-IsSound b _ old s (copy t s).0 (copy t s).1 v hs (unfold copy in (new t refl).named)
          (unfold copy in refl) (unfold copy in v.distinct old s hs)
          (unfold copy_service in ap (λ (x : Broker). insert t.name b.next x.services) e)
          (unfold copy_service in ap (λ (x : Broker). x.heap) e)
          (unfold copy_service in ap (λ (x : Broker). x.next) e))

pub service_change-Keeps :
    (b : Broker) (old : ℕ) (service_type : Bytes)
    → IsSound b
    → Post Keeps (service_change b old service_type)
unfolding service_change
service_change-Keeps b old service_type v = Post->>= (load-Post b old) λ s hs.
    replace_service-Keeps b old s service_type (create_service service_type s.name) v hs
      (create_service-IsNew service_type s.name)

pub Post-if {ℓ κ} :
    {A : Type ℓ} {P : A → Type κ} {x y : Result A} (c : Bool)
    → Post P x
    → Post P y
    → Post P (if c then x else y)
Post-if true p q = p
Post-if false p q = q

enter_service-Keeps :
    (b : Broker) (name service_type : Bytes) (made : Option Service)
    → IsSound b
    → lookup name b.services ≡ none
    → ((t : Service) → made ≡ some t → IsNew service_type name t)
    → Post Keeps (enter_service b name made)
unfolding enter_service
enter_service-Keeps b name service_type none v absent new = returns v
enter_service-Keeps b name service_type (some t) v absent new =
    let n = new t refl in
    returns (
      same-IsSound _ _ (ap (λ m. insert m b.next b.services) (sym n.named)) refl refl
        (allocate-IsSound b t (rw n.named absent) (rw n.nobody tt) v))

require_entry-Keeps :
    (b : Broker) (name service_type : Bytes) (found : Option ℕ)
    → lookup name b.services ≡ found
    → IsSound b
    → Post Keeps (require_entry b name service_type found)
unfolding require_entry
require_entry-Keeps b name service_type (some a) e v = Post->>= (load-Post b a) λ s hs.
    Post-if (type_name s.type == service_type) (returns v) (service_change-Keeps b a service_type v)
require_entry-Keeps b name service_type none e v =
    enter_service-Keeps b name service_type _ v e (create_service-IsNew service_type name)

pub service_require-Keeps :
    (b : Broker) (name service_type : Bytes)
    → IsSound b
    → Post Keeps (service_require b name service_type)
unfolding service_require
service_require-Keeps b name service_type v =
    Post->>= (Post-eq (assert (not (is_empty name))))
      λ _ _. require_entry-Keeps b name service_type (lookup name b.services) refl v

pub transmit-IsSound : (b : Broker) (msg : Zmsg) → IsSound b → Post IsSound (transmit b msg)
unfolding transmit
transmit-IsSound b msg v =
    Post->>= (Post-eq (send msg)) λ frames _. returns (same-IsSound b _ refl refl refl v)

enqueue_same :
    (msg : Option Zmsg) (s : Service)
    → ((enqueue msg s).name ≡ s.name) × ((enqueue msg s).waiting ≡ s.waiting)
unfolding enqueue
enqueue_same none s = (refl, refl)
enqueue_same (some m) s = (refl, refl)

dispatched-IsSound :
    (b b' : Broker) (a : ℕ) (s s' : Service) (msg : Option Zmsg)
    → IsSound b
    → b.heap a ≡ some s
    → Served (enqueue msg s) b s' b'
    → IsSound (store b' a s')
dispatched-IsSound b b' a s s' msg v hs d =
    store-IsSound b' a s s' (ap (λ (x : Broker). x.heap a) d.broker ∙ hs)
      (d.shrinks.name ∙ (enqueue_same msg s).0)
      (d.shrinks.distinct (rw (enqueue_same msg s).1 (v.distinct a s hs)))
      (same-IsSound b b' (ap (λ (x : Broker). x.services) d.broker)
        (ap (λ (x : Broker). x.heap) d.broker) (ap (λ (x : Broker). x.next) d.broker) v)

pub service_dispatch-IsSound :
    (now : ℕ) (b : Broker) (srv : Option ℕ) (msg : Option Zmsg)
    → IsSound b
    → Post IsSound (service_dispatch now b srv msg)
unfolding service_dispatch
service_dispatch-IsSound now b srv msg v = Post->>= (or_fault-Post Fault.assertion srv) λ a _.
    Post->>= (load-Post b a) λ s hs.
      Post->>= (Post-eq (dispatch_loop now (length (enqueue msg s).requests) (enqueue msg s) b))
        λ r e. returns (
          dispatched-IsSound b r.1 a s r.0 msg v hs
            (dispatch_loop-Served now (enqueue msg s) b r.0 r.1 e).0)
