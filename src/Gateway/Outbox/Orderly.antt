-- ===== src/Gateway/Outbox/Orderly.antt =====
-- gateway_server/sdk/tcp_session_handler.cc: what is on its way to a session, and how it is packed.
use cpp_framework.Prelude.{
  ℕ, ◌==◌, Bool-cases, inl, inr, ◌≡◌, refl, ap, sym, ◌∙◌, Bool, true, false, not, ◌||◌, List, [],
  ◌∷◌, ◌++◌, nat_key, if◌then◌else◌, arith,
}
use cpp_framework.Gateway.Session.{is_empty}
use cpp_framework.Gateway.Outbox.{
  MainTask, SessionTask, Outbox, pack_message_list, start_sending, get,
}

abbrev pub ArePacks : List MainTask → Type 0
ArePacks [] = Unit
ArePacks (MainTask.pack ∷ tasks) = ArePacks tasks
ArePacks (MainTask.directly ∷ tasks) = true ≡ false

snoc-ArePacks : (tasks : List MainTask) → ArePacks tasks → ArePacks (tasks ++ MainTask.pack ∷ [])
snoc-ArePacks [] h = tt
snoc-ArePacks (MainTask.pack ∷ tasks) h = snoc-ArePacks tasks h
snoc-ArePacks (MainTask.directly ∷ tasks) h = h

is_empty-snoc : {A : Type 0} (xs : List A) (x : A) → is_empty (xs ++ x ∷ []) ≡ false
is_empty-snoc [] x = refl
is_empty-snoc (y ∷ xs) x = refl

module _ {M : Type 0} where
  pub append_assoc : (xs ys zs : List M) → (xs ++ ys) ++ zs ≡ xs ++ (ys ++ zs)
  append_assoc [] ys zs = refl
  append_assoc (x ∷ xs) ys zs = ap (λ r. x ∷ r) (append_assoc xs ys zs)

  pub append-nil : (xs : List M) → xs ++ [] ≡ xs
  append-nil [] = refl
  append-nil (x ∷ xs) = ap (λ r. x ∷ r) (append-nil xs)

  -- The messages in the tasks of the session's thread that are for the session.
  abbrev pub packed : ℕ → List (SessionTask M) → List M
  packed queue_id [] = []
  packed queue_id (SessionTask.post_list id messages ∷ tasks) =
      let rest = packed queue_id tasks in if id == queue_id then messages ++ rest else rest
  packed queue_id (SessionTask.close_session id ∷ tasks) = packed queue_id tasks

  -- While the queue has the session under the identifier of the handler.
  abbrev pub IsOpen : Outbox M → Type 0
  IsOpen h = get h.session_id h ≡ true

  -- While the session is open, what it was given, what is packed for it and what waits is what was sent.
  abbrev pub IsInOrder : Outbox M → Type 0
  IsInOrder h =
      IsOpen h → h.posted ++ (packed h.queue_id h.session_tasks ++ h.messages_to_be_sent) ≡ h.sent

  -- Messages that wait have a timer or a task that will take them.
  abbrev pub IsPending : Outbox M → Type 0
  IsPending h =
      IsOpen h → (is_empty h.messages_to_be_sent || (h.timer || not (is_empty h.main_tasks))) ≡ true

  pub packed-append :
      (q : ℕ) (xs ys : List (SessionTask M)) → packed q (xs ++ ys) ≡ packed q xs ++ packed q ys
  packed-append q [] ys = refl
  packed-append q (SessionTask.post_list id messages ∷ tasks) ys = elim (Bool-cases (id == q)) [
    | inl e ↦ rw e (
        ap (λ r. messages ++ r) (packed-append q tasks ys)
        ∙ sym (append_assoc messages (packed q tasks) (packed q ys)))
    | inr e ↦ rw e (packed-append q tasks ys)
  ]
  packed-append q (SessionTask.close_session id ∷ tasks) ys = packed-append q tasks ys

  -- A handler whose session is in another thread than the main one.
  pub record IsOrderly (h : Outbox M) : Type 0 where
    pub named : (h.queue_id == 0) ≡ false
    pub thread : h.on_main_thread ≡ false
    pub packs : ArePacks h.main_tasks
    pub order : IsInOrder h
    pub pending : IsPending h

  pub nil_of : (xs : List M) → is_empty xs ≡ true → xs ≡ []
  nil_of [] h = refl
  nil_of (x ∷ xs) h = absurd (ground (arith, h))

  packed_now :
      (id q : ℕ) (posted messages : List M) (tasks : List (SessionTask M))
      → (id == q) ≡ true
      → posted ++ (packed q (tasks ++ SessionTask.post_list id messages ∷ []) ++ [])
        ≡ posted ++ (packed q tasks ++ messages)
  packed_now id q posted messages tasks same =
      ap (λ r. posted ++ r)
        (append-nil (packed q (tasks ++ SessionTask.post_list id messages ∷ []))
          ∙ packed-append q tasks (SessionTask.post_list id messages ∷ [])
          ∙ ap (λ r. packed q tasks ++ r) (rw same (append-nil messages)))

  -- After it no message waits.
  pub pack_message_list-IsOrderly :
      (h : Outbox M)
      → (h.queue_id == 0) ≡ false
      → h.on_main_thread ≡ false
      → ArePacks h.main_tasks
      → IsInOrder h
      → IsOrderly (pack_message_list h)
  unfolding pack_message_list
  pack_message_list-IsOrderly h n t p o = go (is_empty h.messages_to_be_sent) refl
    where
      go :
          (c : Bool)
          → is_empty h.messages_to_be_sent ≡ c
          → IsOrderly (
              if c then h else record h {
                messages_to_be_sent = [];
                session_tasks =
                    h.session_tasks
                    ++ SessionTask.post_list h.session_id h.messages_to_be_sent ∷ [];
              })
      go true e = record { named = n; thread = t; packs = p; order = o; pending = λ q. rw e refl }
      go false e = record {
        named = n;
        thread = t;
        packs = p;
        order = λ q.
            packed_now h.session_id h.queue_id h.posted h.messages_to_be_sent h.session_tasks
              (ground (arith, q))
            ∙ o q;
        pending = λ q. refl;
      }

  pub start_sending-IsOrderly :
      (h : Outbox M)
      → (h.queue_id == 0) ≡ false
      → h.on_main_thread ≡ false
      → ArePacks h.main_tasks
      → IsInOrder h
      → IsOrderly (start_sending h)
  unfolding start_sending
  start_sending-IsOrderly h n t p o = go h.send_delay
    where
      go :
          (c : Bool)
          → IsOrderly (
              if c then record h { timer = true } else record h {
                main_tasks =
                    h.main_tasks
                    ++ (if h.on_main_thread then MainTask.directly else MainTask.pack) ∷ [];
              })
      go true = record { named = n; thread = t; packs = p; order = o; pending = λ q. ground arith }
      go false = record {
        named = n;
        thread = t;
        packs = rw t (snoc-ArePacks h.main_tasks p);
        order = o;
        pending = λ q.
            let some_task =
              is_empty-snoc h.main_tasks
                (if h.on_main_thread then MainTask.directly else MainTask.pack) in
            ground (arith, some_task);
      }
