-- ===== src/Router/Service/Shrinks.antt =====
-- router/service.hpp: what a call keeps that takes workers off the list and does nothing else to it.
use cpp_framework.Prelude.{◌≡◌, refl, ◌&&◌, sym, ◌∙◌, true, Bool, arith, Bytes}
use cpp_framework.Router.Service.{Service, is_waiting, has_actived_worker}
use cpp_framework.Router.Service.Waiting.{
  IsDistinct, has_actived_worker_lem, is_waiting-has_actived_worker,
}

pub record Shrinks (s s' : Service) : Type 0 where
  pub name : s'.name ≡ s.name
  pub type : s'.type ≡ s.type
  pub distinct : IsDistinct s.waiting → IsDistinct s'.waiting
  pub subset : (v : Bytes) → is_waiting v s'.waiting ≡ true → is_waiting v s.waiting ≡ true

pub Shrinks-refl : (s : Service) → Shrinks s s
Shrinks-refl s = record { name = refl; type = refl; distinct = λ d. d; subset = λ v h. h }

pub Shrinks-trans : {s t u : Service} → Shrinks s t → Shrinks t u → Shrinks s u
Shrinks-trans p q = record {
  name = q.name ∙ p.name;
  type = q.type ∙ p.type;
  distinct = λ d. q.distinct (p.distinct d);
  subset = λ v h. p.subset v (q.subset v h);
}

both_true : (a b : Bool) → (a && b) ≡ true → a ≡ true
both_true a b h = ground arith

pub has_actived_worker-Shrinks :
    (expired : Bytes → Bool) (s : Service) → Shrinks s (has_actived_worker expired s).1
has_actived_worker-Shrinks expired s = record {
  name = unfold has_actived_worker in refl;
  type = unfold has_actived_worker in refl;
  distinct = λ d. (has_actived_worker_lem expired s s.name d).0;
  subset = λ v h. both_true _ _ (sym (is_waiting-has_actived_worker expired s v) ∙ h);
}
