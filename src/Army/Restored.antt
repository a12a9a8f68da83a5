-- ===== src/Army/Restored.antt =====
-- workers/small_map_worker/_army_build_queue_manager.cpp: removing the soldiers that were just added.
use mathlib.Core.Path.{subst}
use cpp_framework.Prelude.{
  signed_le, short_add, short_sub, ℕ, ◌+◌, ◌%◌, ◌^◌, ◌≤◌, ◌<◌, ◌≡◌, refl, sym, ap, ◌∙◌, Bool, true,
  false, Option, none, some, List, [], ◌∷◌, ◌++◌, nat_key, nat_eq_iff, if◌then◌else◌, arith,
  Bool-cases, Option-cases, inl, inr,
}
use cpp_framework.Router.Fault.{ok}
use cpp_framework.Router.Returns.{OnSome, absent, present, OnSome-map}
use cpp_framework.Army.State.{SoldierInfoRequest, TimerQueue, Game}
use cpp_framework.Army.Queue.{
  add_to, del_from, same_soldier, queue_soldiers, unqueue_soldiers, append_soldiers, del_first,
  push_back,
}

restored : (a b : ℕ) → a + b < 32768 → short_sub (short_add a b) b ≡ a
unfolding short_sub short_add
restored a b h = omega (arith, h)

added : (a b : ℕ) → a + b < 32768 → short_add a b ≡ a + b
unfolding short_add
added a b h = omega (arith, h)

not_gone : (a b : ℕ) → b < a → a < 32768 → signed_le 16 a b ≡ false
unfolding signed_le
not_gone a b h k = ground (arith, first, second, h, k)
  where
    first : (a + 2 ^ 15) % 2 ^ 16 ≡ a + 32768
    first = omega (arith, k)

    second : (b + 2 ^ 15) % 2 ^ 16 ≡ b + 32768
    second = omega (arith, h, k)

gone : (a : ℕ) → signed_le 16 a a ≡ true
unfolding signed_le
gone a = ground arith

same_soldier_self : (a : SoldierInfoRequest) → same_soldier a a ≡ true
unfolding same_soldier
same_soldier_self a =
    ground
      (arith, nat_eq_iff a.soldier_type a.soldier_type, nat_eq_iff a.soldier_level a.soldier_level)

-- Each entry counts at least one soldier, and has room for those of `info`.
unfoldable pub AreCounted : SoldierInfoRequest → List SoldierInfoRequest → Type 0
AreCounted info [] = Unit
AreCounted info (sir ∷ rest) =
    ((1 ≤ sir.soldier_num) × (sir.soldier_num + info.soldier_num < 32768)) × AreCounted info rest

OnSome-cases {ℓ κ} :
    {A : Type ℓ} {P : A → Type κ} {x y : Option A} (c : Bool)
    → (c ≡ true → OnSome P x)
    → (c ≡ false → OnSome P y)
    → OnSome P (if c then x else y)
OnSome-cases true p q = p refl
OnSome-cases false p q = q refl

del_from_first :
    (info sir : SoldierInfoRequest) (rest : List SoldierInfoRequest)
    → same_soldier sir info ≡ true
    → signed_le 16 (short_sub sir.soldier_num info.soldier_num) 0 ≡ false
    → del_from info (sir ∷ rest)
      ≡ some (record sir { soldier_num = short_sub sir.soldier_num info.soldier_num } ∷ rest)
unfolding del_from
del_from_first info sir rest h k = ground (arith, h, k)

abbrev grown : SoldierInfoRequest → SoldierInfoRequest → SoldierInfoRequest
grown info sir = record sir { soldier_num = short_add sir.soldier_num info.soldier_num }

same_soldier-grown :
    (info sir : SoldierInfoRequest) → same_soldier (grown info sir) info ≡ same_soldier sir info
unfolding same_soldier
same_soldier-grown info sir = refl

del_from-grown :
    (info sir : SoldierInfoRequest) (rest : List SoldierInfoRequest)
    → same_soldier sir info ≡ true
    → 1 ≤ sir.soldier_num
    → sir.soldier_num + info.soldier_num < 32768
    → del_from info (grown info sir ∷ rest) ≡ some (sir ∷ rest)
del_from-grown info sir rest e h k =
    let left : short_sub (grown info sir).soldier_num info.soldier_num ≡ sir.soldier_num =
      restored sir.soldier_num info.soldier_num k in
    del_from_first info (grown info sir) rest (same_soldier-grown info sir ∙ e) (
      ap (λ n. signed_le 16 n 0) left
      ∙ not_gone sir.soldier_num 0 (omega (arith, h)) (omega (arith, k)))
    ∙ ap (λ n. some (record sir { soldier_num = n } ∷ rest)) left

del_from_next :
    (info sir : SoldierInfoRequest) (rest more : List SoldierInfoRequest)
    → same_soldier sir info ≡ false
    → del_from info more ≡ some rest
    → del_from info (sir ∷ more) ≡ some (sir ∷ rest)
unfolding del_from
del_from_next info sir rest more h k = ground (arith, h, k)

del_from-add_to :
    (info : SoldierInfoRequest) (queue : List SoldierInfoRequest)
    → AreCounted info queue
    → OnSome (λ more. del_from info more ≡ some queue) (add_to info queue)
unfolding add_to AreCounted
del_from-add_to info [] v = absent
del_from-add_to info (sir ∷ rest) v =
    OnSome-cases (same_soldier sir info) (λ e. present (del_from-grown info sir rest e v.0.0 v.0.1))
      λ e.
        OnSome-map _ (del_from-add_to info rest v.1) λ more m. del_from_next info sir rest more e m

none_left : (n : ℕ) → n < 32768 → short_sub n n ≡ 0
unfolding short_sub
none_left n h = omega (arith, h)

del_from-append :
    (info : SoldierInfoRequest) (queue : List SoldierInfoRequest)
    → info.soldier_num < 32768
    → add_to info queue ≡ none
    → del_from info (queue ++ (info ∷ [])) ≡ some queue
unfolding del_from add_to
del_from-append info [] k h =
    ground (arith, same_soldier_self info, none_left info.soldier_num k, gone 0)
del_from-append info (sir ∷ rest) k h = elim (Bool-cases (same_soldier sir info)) [
  | inl e ↦ absurd (ground (arith, h, e))
  | inr e ↦ elim (Option-cases (add_to info rest)) [
    | inl n ↦
        unfold del_from in
        del_from_next info sir rest (rest ++ (info ∷ [])) e (del_from-append info rest k n)
    | inr m ↦ absurd (ground (arith, h, e, m.1))
  ]
]

of_some :
    {P : List SoldierInfoRequest → Type 0} {o : Option (List SoldierInfoRequest)}
    → OnSome P o
    → (more : List SoldierInfoRequest) → o ≡ some more
    → P more
of_some absent more e = cc
of_some {P} (present p) more e = subst P (ground (arith, e)) p

module _ {Db : Type 0} (g : Game Db) (now : ℕ) where
  unqueue_first :
      (info sir : SoldierInfoRequest) (rest : List SoldierInfoRequest) (tq : TimerQueue)
      → tq.armys_queue ≡ grown info sir ∷ rest
      → same_soldier sir info ≡ true
      → 1 ≤ sir.soldier_num
      → sir.soldier_num + info.soldier_num < 32768
      → unqueue_soldiers g now info tq ≡ ok (some (record tq { armys_queue = sir ∷ rest }))
  unfolding unqueue_soldiers del_first
  unqueue_first info sir rest tq h e a b =
      let grows : short_add sir.soldier_num info.soldier_num ≡ sir.soldier_num + info.soldier_num =
        added sir.soldier_num info.soldier_num b in
      let stays : signed_le 16 (grown info sir).soldier_num info.soldier_num ≡ false =
        ap (λ n. signed_le 16 n info.soldier_num) grows
        ∙ not_gone (sir.soldier_num + info.soldier_num) info.soldier_num (omega (arith, a)) b in
      let same : same_soldier (grown info sir) info ≡ true = same_soldier-grown info sir ∙ e in
      ground (arith, h, same, stays, restored sir.soldier_num info.soldier_num b)

  unqueue_next :
      (info sir : SoldierInfoRequest) (rest queue : List SoldierInfoRequest) (tq : TimerQueue)
      → tq.armys_queue ≡ sir ∷ queue
      → same_soldier sir info ≡ false
      → del_from info queue ≡ some rest
      → unqueue_soldiers g now info tq ≡ ok (some (record tq { armys_queue = sir ∷ rest }))
  unfolding unqueue_soldiers
  unqueue_next info sir rest queue tq h e d = ground (arith, h, e, d)

module _ {Db : Type 0} (g : Game Db) (now later : ℕ) where
  Restored : SoldierInfoRequest → TimerQueue → Type 0
  Restored info tq =
      (tq' : TimerQueue) × (queue_soldiers g now info tq ≡ ok tq')
      × (unqueue_soldiers g later info tq' ≡ ok (some tq))

  next_Restored :
      (info sir : SoldierInfoRequest) (rest : List SoldierInfoRequest) (tq : TimerQueue)
      → tq.armys_queue ≡ sir ∷ rest
      → same_soldier sir info ≡ false
      → AreCounted info rest
      → info.soldier_num < 32768
      → (o : Option (List SoldierInfoRequest)) → add_to info rest ≡ o
      → Restored info tq
  unfolding Restored queue_soldiers append_soldiers push_back add_to
  next_Restored info sir rest tq h e v k none a = (
    record tq { armys_queue = tq.armys_queue ++ (info ∷ []) },
    ground (arith, h, e, a),
    unqueue_next g later info sir rest (rest ++ (info ∷ [])) _ (ap (λ q. q ++ (info ∷ [])) h) e
          (del_from-append info rest k a)
        ∙ ap (λ q. ok (some (record tq { armys_queue = q }))) (sym h),
  )
  next_Restored info sir rest tq h e v k (some more) a = (
    record tq { armys_queue = sir ∷ more },
    ground (arith, h, e, a),
    unqueue_next g later info sir rest more _ refl e (of_some (del_from-add_to info rest v) more a)
        ∙ ap (λ q. ok (some (record tq { armys_queue = q }))) (sym h),
  )

  -- Soldiers that are added to a camp that is building, and removed again before the timer fires,
  -- leave the camp as it was, its timer too, if every entry counts at least one soldier and no count
  -- leaves the range of a short.
  pub unqueue_soldiers-queue_soldiers :
      (info sir : SoldierInfoRequest) (rest : List SoldierInfoRequest) (tq : TimerQueue)
      → tq.armys_queue ≡ sir ∷ rest
      → AreCounted info (sir ∷ rest)
      → info.soldier_num < 32768
      → (tq' : TimerQueue) × (queue_soldiers g now info tq ≡ ok tq')
        × (unqueue_soldiers g later info tq' ≡ ok (some tq))
  unfolding queue_soldiers add_to AreCounted
  unqueue_soldiers-queue_soldiers info sir rest tq h v k =
      elim (Bool-cases (same_soldier sir info)) [
        | inl e ↦ (
          record tq { armys_queue = grown info sir ∷ rest },
          ground (arith, h, e),
          unqueue_first g later info sir rest _ refl e v.0.0 v.0.1
              ∙ ap (λ q. ok (some (record tq { armys_queue = q }))) (sym h),
        )
        | inr e ↦ unfold Restored in next_Restored info sir rest tq h e v.1 k _ refl
      ]
