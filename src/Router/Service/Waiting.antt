-- ===== src/Router/Service/Waiting.antt =====
-- router/service.hpp: who waits at a service after each call, and that nobody waits twice.
use cpp_framework.Prelude.{
  ℕ, ◌≡◌, refl, Bool, false, ◌&&◌, ◌||◌, not, List, [], ◌∷◌, ◌++◌, ◌==◌, bytes_key, bytes_eq_iff,
  arith, Bytes, length,
}
use cpp_framework.Router.Service.{
  Service, is_waiting, worker_waiting, remove, delete_worker, active, has_actived_worker,
}

-- Nobody stands in the list twice.
abbrev pub IsDistinct : List Bytes → Type 0
IsDistinct [] = Unit {0}
IsDistinct (w ∷ ws) = (is_waiting w ws ≡ false) × IsDistinct ws

is_waiting-append :
    (w x : Bytes) (ws : List Bytes) → is_waiting w (ws ++ (x ∷ [])) ≡ (is_waiting w ws || x == w)
unfolding is_waiting
is_waiting-append w x [] = ground arith
is_waiting-append w x (y ∷ ws) = ground (arith, is_waiting-append w x ws)

append-IsDistinct :
    (w : Bytes) (ws : List Bytes)
    → IsDistinct ws
    → is_waiting w ws ≡ false
    → IsDistinct (ws ++ (w ∷ []))
unfolding is_waiting
append-IsDistinct w [] d h = (refl, tt)
append-IsDistinct w (x ∷ ws) d h = ground (
  arith,
  bytes_eq_iff w x,
  bytes_eq_iff x w,
  is_waiting-append x w ws,
  append-IsDistinct w ws d.1,
)

is_waiting-remove :
    (w v : Bytes) (ws : List Bytes) → is_waiting v (remove w ws) ≡ (is_waiting v ws && not (w == v))
unfolding is_waiting remove
is_waiting-remove w v [] = refl
is_waiting-remove w v (x ∷ ws) =
    ground (arith, bytes_eq_iff x w, bytes_eq_iff x v, bytes_eq_iff w v, is_waiting-remove w v ws)

remove-IsDistinct : (w : Bytes) (ws : List Bytes) → IsDistinct ws → IsDistinct (remove w ws)
unfolding remove
remove-IsDistinct w [] d = tt
remove-IsDistinct w (x ∷ ws) d =
    ground (arith, remove-IsDistinct w ws d.1, is_waiting-remove w x ws)

is_waiting-active :
    (expired : Bytes → Bool) (v : Bytes) (ws : List Bytes)
    → is_waiting v (active expired ws) ≡ (is_waiting v ws && not (expired v))
unfolding is_waiting active
is_waiting-active expired v [] = refl
is_waiting-active expired v (x ∷ ws) =
    ground (arith, bytes_eq_iff x v, is_waiting-active expired v ws)

active-IsDistinct :
    (expired : Bytes → Bool) (ws : List Bytes) → IsDistinct ws → IsDistinct (active expired ws)
unfolding active
active-IsDistinct expired [] d = tt
active-IsDistinct expired (x ∷ ws) d =
    ground (arith, active-IsDistinct expired ws d.1, is_waiting-active expired x ws)

-- A worker that waits already keeps its place, any other goes to the end, and every worker that
-- waited still waits.
pub worker_waiting_lem :
    (grow : ℕ → ℕ) (s : Service) (worker v : Bytes)
    → IsDistinct s.waiting
    → IsDistinct (worker_waiting grow s worker).waiting
      × (is_waiting v (worker_waiting grow s worker).waiting
          ≡ (is_waiting v s.waiting || worker == v))
      × ((worker_waiting grow s worker).requests ≡ s.requests)
unfolding worker_waiting
worker_waiting_lem grow s worker v d = ground (
  arith,
  append-IsDistinct worker s.waiting d,
  is_waiting-append v worker s.waiting,
  bytes_eq_iff worker v,
)

-- After `delete_worker` everybody waits as before but for the worker, who waits nowhere in the list.
pub delete_worker_lem :
    (s : Service) (worker v : Bytes)
    → IsDistinct s.waiting
    → IsDistinct (delete_worker s worker).waiting
      × (is_waiting v (delete_worker s worker).waiting
          ≡ (is_waiting v s.waiting && not (worker == v)))
unfolding delete_worker
delete_worker_lem s worker v d =
    (remove-IsDistinct worker s.waiting d, is_waiting-remove worker v s.waiting)

pub is_waiting-has_actived_worker :
    (expired : Bytes → Bool) (s : Service) (v : Bytes)
    → is_waiting v (has_actived_worker expired s).1.waiting
      ≡ (is_waiting v s.waiting && not (expired v))
unfolding has_actived_worker
is_waiting-has_actived_worker expired s v = is_waiting-active expired v s.waiting

-- `has_actived_worker` keeps exactly the workers that have not expired, and counts them.
pub has_actived_worker_lem :
    (expired : Bytes → Bool) (s : Service) (v : Bytes)
    → IsDistinct s.waiting
    → let (n, s') = has_actived_worker expired s in
      IsDistinct s'.waiting
      × (is_waiting v s'.waiting ≡ (is_waiting v s.waiting && not (expired v)))
      × (n ≡ length s'.waiting)
unfolding has_actived_worker
has_actived_worker_lem expired s v d =
    (active-IsDistinct expired s.waiting d, is_waiting-active expired v s.waiting, refl)

pub name-worker_waiting :
    (grow : ℕ → ℕ) (s : Service) (worker : Bytes) → (worker_waiting grow s worker).name ≡ s.name
unfolding worker_waiting
name-worker_waiting grow s worker = ground arith
