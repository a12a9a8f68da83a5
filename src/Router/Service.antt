-- ===== src/Router/Service.antt =====
-- router/service.hpp: a service with its waiting workers and its queued requests. A `BrokerWorker *`
-- is the identity under which the broker keeps the worker: the broker never deletes one while it
-- runs, and makes one for each identity.
pub mod RoundRobin
pub mod Waiting
pub mod Popping
pub mod Shrinks
use cpp_framework.Prelude.{
  ℕ, ◌+◌, Bool, true, false, not, ◌||◌, Option, none, some, List, [], ◌∷◌, ◌++◌, ◌==◌, nat_key,
  bytes_key, Bytes, codes, length, get_elem?, if◌then◌else◌,
}
use cpp_framework.Router.Fault.{Fault, Result, ok, fault, ◌>>=◌, or_fault}
use cpp_framework.Router.Message.{Zmsg}

-- The two classes that the factory makes.
pub data ServiceType : Type 0 where
  wait_response do_not_wait_response : ServiceType

-- The iterator `pos` of `ServiceDoNotWaitResponse`: no value yet, an index into the storage of
-- `m_waiting`, or a place in storage that the vector has given back.
pub data Iterator : Type 0 where
  singular : Iterator
  at : ℕ → Iterator
  released : Iterator

pub record Service : Type 0 where
  pub name : Bytes
  pub type : ServiceType
  pub waiting : List Bytes
  pub capacity : ℕ
  pub requests : List Zmsg
  pub if_pos_init : Bool
  pub pos : Iterator

-- `m_type`
abbrev pub type_name : ServiceType → Bytes
type_name ServiceType.wait_response = codes "ServiceWaitResponse"
type_name ServiceType.do_not_wait_response = codes "ServiceDoNotWaitResponse"

new_service : ServiceType → Bytes → Service
new_service type name = record {
  name = name;
  type = type;
  waiting = [];
  capacity = 0;
  requests = [];
  if_pos_init = false;
  pos = Iterator.singular;
}

-- `ServiceFactory::CreateService`; `none` is NULL.
unfoldable pub create_service : Bytes → Bytes → Option Service
unfolding new_service
create_service service_type service_name =
    if service_type == type_name ServiceType.wait_response
    then some (new_service ServiceType.wait_response service_name)
    else if service_type == type_name ServiceType.do_not_wait_response
    then some (new_service ServiceType.do_not_wait_response service_name)
    else none

-- `copy`, as far as it concerns the two services: the new one, and the old one emptied. The copied
-- vector has storage for its entries.
unfoldable pub copy : Service → Service → Service × Service
copy new old = (
  record new { waiting = old.waiting; capacity = length old.waiting; requests = old.requests },
  record old { waiting = []; requests = [] },
)

unfoldable pub is_waiting : Bytes → List Bytes → Bool
is_waiting worker [] = false
is_waiting worker (w ∷ ws) = w == worker || is_waiting worker ws

abbrev moved : Iterator → Iterator
moved Iterator.singular = Iterator.singular
moved (Iterator.at i) = Iterator.released
moved Iterator.released = Iterator.released

-- `vector::push_back`; `grow` is the library's choice of the new capacity when the storage is full.
push_waiting : (ℕ → ℕ) → Service → Bytes → Service
push_waiting grow s worker =
    if length s.waiting == s.capacity
    then record s {
      waiting = s.waiting ++ (worker ∷ []);
      capacity = grow s.capacity;
      pos = moved s.pos;
    }
    else record s { waiting = s.waiting ++ (worker ∷ []) }

unfoldable pub worker_waiting : (ℕ → ℕ) → Service → Bytes → Service
unfolding push_waiting is_waiting
worker_waiting grow s worker = if is_waiting worker s.waiting then s else push_waiting grow s worker

-- Erasing leaves the storage where it is.
unfoldable pub remove : Bytes → List Bytes → List Bytes
remove worker [] = []
remove worker (w ∷ ws) = let rest = remove worker ws in if w == worker then rest else w ∷ rest

unfoldable pub delete_worker : Service → Bytes → Service
unfolding remove
delete_worker s worker = record s { waiting = remove worker s.waiting }

unfoldable pub pop_request : Service → Option Zmsg × Service
pop_request s = elim s.requests [
  | [] ↦ (none, s)
  | msg ∷ rest ↦ (some msg, record s { requests = rest })
]

unfoldable pub active : (Bytes → Bool) → List Bytes → List Bytes
active expired [] = []
active expired (w ∷ ws) = let rest = active expired ws in if expired w then rest else w ∷ rest

-- The number of workers left, and the service without the expired ones.
unfoldable pub has_actived_worker : (Bytes → Bool) → Service → ℕ × Service
unfolding active
has_actived_worker expired s =
    let waiting = active expired s.waiting in (length waiting, record s { waiting = waiting })

-- `ServiceWaitResponse::pop_worker`: the longest waiting worker, which waits no more.
unfoldable pub pop_first : Service → Option Bytes × Service
pop_first s = elim s.waiting [ [] ↦ (none, s) | w ∷ rest ↦ (some w, record s { waiting = rest }) ]

-- `pos == m_waiting.end () || !if_pos_init`, and the iterator after it.
start : Service → Iterator → Result ℕ
start s Iterator.singular = if not s.if_pos_init then ok 0 else fault Fault.bad_iterator
start s Iterator.released = if not s.if_pos_init then ok 0 else fault Fault.bad_iterator
start s (Iterator.at i) = ok (if i == length s.waiting || not s.if_pos_init then 0 else i)

take_next : Service → List Bytes → Result (Option Bytes × Service)
unfolding start
take_next s [] = ok (none, s)
take_next s (first ∷ others) = do
  i ← start s s.pos
  w ← or_fault Fault.bad_iterator (get_elem? s.waiting i)
  ok (some w, record s { if_pos_init = true; pos = Iterator.at (i + 1) })

-- `ServiceDoNotWaitResponse::pop_worker`: the workers in turn, each of which goes on waiting.
unfoldable pub pop_in_turn : Service → Result (Option Bytes × Service)
unfolding take_next
pop_in_turn s = take_next s s.waiting

abbrev pop_by_type : ServiceType → Service → Result (Option Bytes × Service)
pop_by_type ServiceType.wait_response s = ok (pop_first s)
pop_by_type ServiceType.do_not_wait_response s = pop_in_turn s

unfoldable pub pop_worker : Service → Result (Option Bytes × Service)
unfolding pop_first pop_in_turn
pop_worker s = pop_by_type s.type s
