-- ===== src/Router/Broker/Services.antt =====
-- router/mdbroker.cpp: `service_delete`, `service_change`, `service_require`.
use cpp_framework.Prelude.{
  ℕ, suc, Bool, true, false, not, Option, none, some, List, [], ◌∷◌, ◌==◌, bytes_key, Bytes, Dict,
  lookup, insert, modify, erase, if◌then◌else◌,
}
use cpp_framework.Router.Fault.{Result, ok, ◌>>=◌, ◌>>◌, assert}
use cpp_framework.Router.Service.{Service, type_name, create_service, copy}
use cpp_framework.Router.Broker.State.{Worker, Broker, update, load, store}

-- Takes the name from the service, drops its entry, and deletes it.
unfoldable pub service_delete : Broker → ℕ → Result Broker
unfolding load
service_delete b a = do
  s ← load b a
  ok (record b { services = erase s.name b.services; heap = update b.heap a none })

-- `new`
unfoldable pub allocate : Broker → Service → ℕ × Broker
allocate b s = (b.next, record b { heap = update b.heap b.next (some s); next = suc b.next })

-- The loop of `Service::copy` over the waiting workers.
unfoldable pub reattach : ℕ → List Bytes → Dict Bytes Worker → Dict Bytes Worker
reattach a [] workers = workers
reattach a (w ∷ ws) workers = reattach a ws (modify w (λ x. record x { service = some a }) workers)

-- `new_srv->copy (old_srv)` for a new service: it takes over the requests and the waiting workers.
unfoldable pub copy_service : Broker → ℕ → Service → Service → Broker
unfolding store allocate reattach copy
copy_service b old s created =
    let both = copy created s in
    let made = allocate b both.0 in
    store (record (made.1) { workers = reattach made.0 s.waiting b.workers }) old both.1

-- The old service is deleted and the new one entered under its name. `none` is NULL: the type is
-- unknown, and the old service stays.
unfoldable pub replace_service : Broker → ℕ → Service → Option Service → Result (Option ℕ × Broker)
unfolding service_delete copy_service
replace_service b old s none = ok (none, b)
replace_service b old s (some created) = do
  dropped ← service_delete (copy_service b old s created) old
  ok (some b.next, record dropped { services = insert created.name b.next dropped.services })

unfoldable pub service_change : Broker → ℕ → Bytes → Result (Option ℕ × Broker)
unfolding load replace_service
service_change b old service_type = do
  s ← load b old
  replace_service b old s (create_service service_type s.name)

abbrev pub is_empty : Bytes → Bool
is_empty [] = true
is_empty (c ∷ cs) = false

-- No entry yet: the factory's service is entered under the name.
unfoldable pub enter_service : Broker → Bytes → Option Service → Result (Option ℕ × Broker)
unfolding allocate
enter_service b service_name none = ok (none, b)
enter_service b service_name (some created) =
    let (a, made) = allocate b created in
    ok (some a, record made { services = insert service_name a made.services })

-- `none` is `count (service_name) == 0`.
unfoldable pub require_entry : Broker → Bytes → Bytes → Option ℕ → Result (Option ℕ × Broker)
unfolding load service_change enter_service
require_entry b service_name service_type (some a) = do
  s ← load b a
  if type_name s.type == service_type then ok (some a, b) else service_change b a service_type
require_entry b service_name service_type none =
    enter_service b service_name (create_service service_type service_name)

unfoldable pub service_require : Broker → Bytes → Bytes → Result (Option ℕ × Broker)
unfolding require_entry
service_require b service_name service_type = do
  assert (not (is_empty service_name))
  require_entry b service_name service_type (lookup service_name b.services)
