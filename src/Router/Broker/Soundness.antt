-- ===== src/Router/Broker/Soundness.antt =====
-- router/mdbroker.cpp: the directory of services and the heap fit together, and the changes that the
-- broker makes to them keep it so.
use native.Mathlib.Decide.{ℕ_discrete}
use cpp_framework.Prelude.{
  ℕ, suc, ◌≤◌, ◌≡◌, sym, ◌∙◌, ◌⊎◌, inl, inr, Bool-cases, ◌≢◌, true, false, Option, none, some, ◌==◌,
  nat_key, bytes_key, bytes_eq_iff, nat_eq_iff, arith, Bytes, lookup, insert, erase, lookup-insert,
  lookup-erase, if◌then◌else◌,
}
use cpp_framework.Router.Service.{Service}
use cpp_framework.Router.Service.Waiting.{IsDistinct}
use cpp_framework.Router.Broker.State.{Broker, update, store}

-- Every name in the directory leads to a service that is not deleted and bears the name, addresses
-- from `next` on were never used, and nobody waits twice at a service.
pub record IsSound (b : Broker) : Type 0 where
  pub live :
      (name : Bytes) (a : ℕ)
      → lookup name b.services ≡ some a
      → (s : Service) × (b.heap a ≡ some s) × (s.name ≡ name)
  pub fresh : (a : ℕ) → b.next ≤ a → b.heap a ≡ none
  pub distinct : (a : ℕ) (s : Service) → b.heap a ≡ some s → IsDistinct s.waiting

-- The directory, the heap and the next address decide; workers, clients and the socket do not matter.
pub same-IsSound :
    (b c : Broker)
    → c.services ≡ b.services
    → c.heap ≡ b.heap
    → c.next ≡ b.next
    → IsSound b
    → IsSound c
same-IsSound b c es eh en v = record {
  live = λ name a h. rw eh (v.live name a (rw es at h));
  fresh = λ a h. rw eh (v.fresh a (rw en at h));
  distinct = λ a s h. v.distinct a s (rw eh at h);
}

update_self : (heap : ℕ → Option Service) (a : ℕ) (s : Option Service) → update heap a s a ≡ s
update_self heap a s = ground (arith, nat_eq_iff a a)

update_ne :
    (heap : ℕ → Option Service) (a p : ℕ) (s : Option Service) → a ≢ p → update heap a s p ≡ heap p
update_ne heap a p s h = ground (arith, nat_eq_iff a p)

-- A write through a pointer to a service that keeps its name.
pub store-IsSound :
    (b : Broker) (a : ℕ) (s t : Service)
    → b.heap a ≡ some s
    → t.name ≡ s.name
    → IsDistinct t.waiting
    → IsSound b
    → IsSound (store b a t)
unfolding store
store-IsSound b a s t e n d v = record {
  live = λ name p h. live name p (v.live name p h);
  fresh = λ p h. ground (arith, nat_eq_iff a p, v.fresh p h);
  distinct = λ p u h. distinct p u (ℕ_discrete a p) h;
}
  where
    live :
        (name : Bytes) (p : ℕ)
        → (u : Service) × (b.heap p ≡ some u) × (u.name ≡ name)
        → (u : Service) × (update b.heap a (some t) p ≡ some u) × (u.name ≡ name)
    live name p (u, hu, nu) = elim (ℕ_discrete a p) [
      | yes q ↦ (t, ground (arith, nat_eq_iff a p), ground arith)
      | no q ↦ (u, ground (arith, nat_eq_iff a p), nu)
    ]

    distinct :
        (p : ℕ) (u : Service)
        → Dec (a ≡ p)
        → update b.heap a (some t) p ≡ some u
        → IsDistinct u.waiting
    distinct p u (yes q) h = let e : t ≡ u = ground (arith, nat_eq_iff a p) in rw (← e) d
    distinct p u (no q) h = v.distinct p u (ground (arith, nat_eq_iff a p))

-- The service of another name is at another address.
other_address :
    (b : Broker) (a p : ℕ) (s u : Service) (name : Bytes)
    → b.heap a ≡ some s
    → b.heap p ≡ some u
    → u.name ≡ name
    → (s.name == name) ≡ false
    → a ≢ p
other_address b a p s u name hs hu n ne q =
    let e : s ≡ u = ground arith in ground (arith, bytes_eq_iff s.name name)

pub unused_address : (b : Broker) (p : ℕ) (u : Service) → IsSound b → b.heap p ≡ some u → b.next ≢ p
unused_address b p u v h q = ground (arith, v.fresh p)

-- A service is deleted with its entry.
pub delete-IsSound :
    (b : Broker) (old : ℕ) (s : Service)
    → b.heap old ≡ some s
    → IsSound b
    → IsSound (record b { services = erase s.name b.services; heap = update b.heap old none })
delete-IsSound b old s hs v = record {
  live = λ name p h.
      let found : ((s.name == name) ≡ false) × (lookup name b.services ≡ some p) = (
        ground (arith, lookup-erase s.name name b.services),
        ground (arith, lookup-erase s.name name b.services),
      ) in
      let (u, hu, nu) = v.live name p found.1 in
      (u, update_ne b.heap old p none (other_address b old p s u name hs hu nu found.0) ∙ hu, nu);
  fresh = λ p h. ground (arith, nat_eq_iff old p, v.fresh p h);
  distinct = λ p u h. v.distinct p u (ground (arith, nat_eq_iff old p));
}

-- A new service under a name that the directory lacks.
pub allocate-IsSound :
    (b : Broker) (s : Service)
    → lookup s.name b.services ≡ none
    → IsDistinct s.waiting
    → IsSound b
    → IsSound (record b {
      services = insert s.name b.next b.services;
      heap = update b.heap b.next (some s);
      next = suc b.next;
    })
allocate-IsSound b s absent d v = record {
  live = λ name p h. live name p (Bool-cases (s.name == name)) (sym (law name) ∙ h);
  fresh = λ p h. ground (arith, nat_eq_iff b.next p, v.fresh p);
  distinct = λ p u h. distinct p u (ℕ_discrete b.next p) h;
}
  where
    law :
        (name : Bytes)
        → lookup name (insert s.name b.next b.services)
          ≡ (if s.name == name then some b.next else lookup name b.services)
    law name = lookup-insert s.name name b.next b.services absent

    live :
        (name : Bytes) (p : ℕ)
        → ((s.name == name) ≡ true) ⊎ ((s.name == name) ≡ false)
        → (if s.name == name then some b.next else lookup name b.services) ≡ some p
        → (u : Service) × (update b.heap b.next (some s) p ≡ some u) × (u.name ≡ name)
    live name p (inl t) h =
        let e : b.next ≡ p = ground arith in
        (s, rw (← e) (update_self b.heap b.next (some s)), (bytes_eq_iff s.name name).0 t)
    live name p (inr f) h =
        let (u, hu, nu) = v.live name p (ground arith) in
        (u, update_ne b.heap b.next p (some s) (unused_address b p u v hu) ∙ hu, nu)

    distinct :
        (p : ℕ) (u : Service)
        → Dec (b.next ≡ p)
        → update b.heap b.next (some s) p ≡ some u
        → IsDistinct u.waiting
    distinct p u (yes q) h = let e : s ≡ u = ground (arith, nat_eq_iff b.next p) in rw (← e) d
    distinct p u (no q) h = v.distinct p u (ground (arith, nat_eq_iff b.next p))
