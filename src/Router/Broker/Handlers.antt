-- ===== src/Router/Broker/Handlers.antt =====
-- router/mdbroker.cpp: no message of a worker makes the directory and the heap unsound.
use cpp_framework.Prelude.{
  ℕ, ◌≡◌, refl, Bool, true, false, Option, none, some, [], ◌∷◌, ◌==◌, bytes_key, nat_key, arith,
  Bytes, length, leb,
}
use cpp_framework.Router.Fault.{Fault, assert}
use cpp_framework.Router.Post.{Post, returns, Post->>=, Post-eq}
use cpp_framework.Router.Uuid.{c_str}
use cpp_framework.Router.Message.{Zmsg, pop_front}
use cpp_framework.Router.Service.{Service, delete_worker}
use cpp_framework.Router.Service.Waiting.{
  worker_waiting_lem, name-worker_waiting, delete_worker_lem,
}
use cpp_framework.Router.Broker.State.{
  Worker, Broker, store, worker_send, worker_message, mdpw_disconnect, mdpw_heartbeat, mdpw_ready,
  mdpw_reply,
}
use cpp_framework.Router.Broker.Dispatch.{reply_message}
use cpp_framework.Router.Broker.Workers.{
  worker_require, disconnect_first, leave_service, worker_delete, worker_waiting, attach_worker,
  worker_ready, worker_heartbeat, worker_reply, worker_process, type_or_default, is_reserved,
}
use cpp_framework.Router.Broker.Soundness.{IsSound, same-IsSound, store-IsSound}
use cpp_framework.Router.Broker.Invariant.{
  or_fault-Post, load-Post, Post-if, service_require-Keeps, service_dispatch-IsSound,
  transmit-IsSound,
}

delete_worker-IsSound :
    (b : Broker) (a : ℕ) (s : Service) (worker : Bytes)
    → b.heap a ≡ some s
    → IsSound b
    → IsSound (store b a (delete_worker s worker))
delete_worker-IsSound b a s worker h v =
    store-IsSound b a s _ h (unfold delete_worker in refl)
      (delete_worker_lem s worker worker (v.distinct a s h)).0 v

leave_service-IsSound :
    (b : Broker) (worker : Bytes) (o : Option ℕ)
    → IsSound b
    → Post IsSound (leave_service b worker o)
unfolding leave_service
leave_service-IsSound b worker none v = returns v
leave_service-IsSound b worker (some a) v =
    Post->>= (load-Post b a) λ s h. returns (delete_worker-IsSound b a s worker h v)

pub worker_send-IsSound :
    (b : Broker) (worker command option : Bytes) (msg : Option Zmsg)
    → IsSound b
    → Post IsSound (worker_send b worker command option msg)
worker_send-IsSound b worker command option msg v =
    unfold worker_send in transmit-IsSound b (worker_message worker command option msg) v

disconnect_first-IsSound :
    (told : Bool) (b : Broker) (worker : Bytes)
    → IsSound b
    → Post IsSound (disconnect_first told b worker)
disconnect_first-IsSound true b worker v = worker_send-IsSound b worker _ _ _ v
disconnect_first-IsSound false b worker v = returns v

worker_delete-IsSound :
    (b : Broker) (worker : Bytes) (w : Worker) (told : Bool)
    → IsSound b
    → Post IsSound (worker_delete b worker w told)
unfolding worker_delete
worker_delete-IsSound b worker w told v =
    Post->>= (disconnect_first-IsSound told b worker v)
      λ b' v'. leave_service-IsSound b' worker w.service v'

worker_require-IsSound :
    (b : Broker) (worker : Bytes) → IsSound b → IsSound (worker_require b worker).1
worker_require-IsSound b worker v = same-IsSound b _ (same.0) (same.1) (same.2) v
  where
    same :
        ((worker_require b worker).1.services ≡ b.services)
        × ((worker_require b worker).1.heap ≡ b.heap)
        × ((worker_require b worker).1.next ≡ b.next)
    same = unfold worker_require in (ground arith, ground arith, ground arith)

module _ (grow : ℕ → ℕ) (now : ℕ) where
  worker_waiting-IsSound :
      (b : Broker) (worker : Bytes) (w : Worker)
      → IsSound b
      → Post IsSound (worker_waiting grow now b worker w)
  unfolding worker_waiting
  worker_waiting-IsSound b worker w v = Post->>= (or_fault-Post Fault.null_pointer w.service) λ a _.
      Post->>= (load-Post _ a) λ s h. service_dispatch-IsSound now _ (some a) none (
        store-IsSound _ a s _ h (name-worker_waiting grow s worker)
          (worker_waiting_lem grow s worker worker (v.distinct a s h)).0
          (same-IsSound b _ refl refl refl v))

  attach_worker-IsSound :
      (b : Broker) (worker : Bytes) (w : Worker) (rest : Zmsg) (name : Bytes)
      → IsSound b
      → Post IsSound (attach_worker grow now b worker w rest name)
  unfolding attach_worker
  attach_worker-IsSound b worker w rest [] v = returns v
  attach_worker-IsSound b worker w rest (c ∷ cs) v = Post->>= (Post-eq (pop_front rest)) λ p _.
      Post->>= (service_require-Keeps b (c ∷ cs) (type_or_default (c_str p.0)) v) λ r v'.
        worker_waiting-IsSound _ worker (record w { service = r.0 })
          (same-IsSound r.1 _ refl refl refl v')

  worker_ready-IsSound :
      (b : Broker) (worker : Bytes) (w : Worker) (msg : Zmsg)
      → IsSound b
      → Post IsSound (worker_ready grow now b worker w msg)
  unfolding worker_ready
  worker_ready-IsSound b worker w msg v =
      Post-if (is_reserved worker) (worker_delete-IsSound b worker w false v) (
        Post->>= (Post-eq (pop_front msg))
          λ p _. attach_worker-IsSound b worker w p.1 (c_str p.0) v)

  worker_heartbeat-IsSound :
      (b : Broker) (worker : Bytes) (w : Worker) (o : Option ℕ)
      → IsSound b
      → Post IsSound (worker_heartbeat grow now b worker w o)
  unfolding worker_heartbeat
  worker_heartbeat-IsSound b worker w (some a) v = worker_waiting-IsSound b worker w v
  worker_heartbeat-IsSound b worker w none v = worker_delete-IsSound b worker w true v

  worker_reply-IsSound :
      (b : Broker) (worker : Bytes) (w : Worker) (msg : Zmsg)
      → IsSound b
      → Post IsSound (worker_reply grow now b worker w msg)
  unfolding worker_reply
  worker_reply-IsSound b worker w msg v =
      Post->>= (or_fault-Post Fault.null_pointer w.service) λ a _. Post->>= (load-Post b a) λ s _.
        Post->>= (Post-eq (reply_message s.name msg)) λ reply _.
          Post->>= (transmit-IsSound b reply v)
            λ b' v'. worker_heartbeat-IsSound b' worker w w.service v'

  pub worker_process-IsSound :
      (b : Broker) (worker : Bytes) (msg : Zmsg)
      → IsSound b
      → Post IsSound (worker_process grow now b worker msg)
  unfolding worker_process
  worker_process-IsSound b worker msg v =
      let (w, b') = worker_require b worker in
      let v' = worker_require-IsSound b worker v in
      Post->>= (Post-eq (assert (leb 1 (length msg)))) λ _ _.
        Post->>= (Post-eq (pop_front msg)) λ p _.
          Post-if (c_str p.0 == mdpw_ready) (worker_ready-IsSound b' worker w p.1 v') (
            Post-if (c_str p.0 == mdpw_reply) (worker_reply-IsSound b' worker w p.1 v') (
              Post-if (c_str p.0 == mdpw_heartbeat)
                (worker_heartbeat-IsSound b' worker w w.service v')
                (Post-if (c_str p.0 == mdpw_disconnect) (worker_delete-IsSound b' worker w true v')
                  (returns v'))))
