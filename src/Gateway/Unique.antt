-- ===== src/Gateway/Unique.antt =====
-- gateway_server/sdk/tcp_io_thread_manager.cc: no two sessions have one identifier.
use cpp_framework.Prelude.{
  ℕ, suc, ◌+◌, ◌%◌, ◌≤◌, ◌<◌, ◌≡◌, ◌≢◌, refl, Bool, true, false, not, ◌||◌, Option, none, some,
  List, [], ◌∷◌, ◌++◌, ◌==◌, nat_key, nat_eq_iff, lookup, insert, lookup-insert, lookup-erase,
  length, if◌then◌else◌, ltb, arith, Bool-cases, inl, inr,
}
use cpp_framework.Router.Fault.{Result, ok, ◌>>=◌}
use cpp_framework.Router.Returns.{
  Returns, returns, Returns->>=, Returns-if, Returns-option, Returns-assert,
}
use cpp_framework.Gateway.Manager.{
  IdGenerator, get_next, get, put, Manager, add_handler, connect, on_session_connect, forget,
  on_session_close,
}

unfoldable pub count_of : ℕ → List ℕ → ℕ
count_of x [] = 0
count_of x (y ∷ ys) = if y == x then suc (count_of x ys) else count_of x ys

count_of-append : (x y : ℕ) (ys : List ℕ) → count_of x (ys ++ (y ∷ [])) ≡ count_of x (y ∷ ys)
unfolding count_of
count_of-append x y [] = refl
count_of-append x y (z ∷ zs) = ground (arith, count_of-append x y zs)

abbrev one_if {ℓ} : {A : Type ℓ} → Option A → ℕ
one_if none = 0
one_if (some a) = 1

get_lem :
    (g : IdGenerator)
    → ltb g.threshold (length g.pool) ≡ false
    → g.next < 4294967295
    → g.max ≡ 4294967295
    → get g ≡ (some g.next, record g { next = suc g.next })
unfolding get get_next
get_lem g e h most =
    let wrap : (g.next + 1) % 4294967296 ≡ suc g.next = omega (arith, h) in
    ground (arith, e, h, most, wrap)

pool_lem :
    (g : IdGenerator) (id : ℕ) (rest : List ℕ)
    → ltb g.threshold (length g.pool) ≡ true
    → g.pool ≡ id ∷ rest
    → get g ≡ (some id, record g { pool = rest })
unfolding get
pool_lem g id rest e h = ground (arith, e, h)

module _ {H : Type 0} where
  -- How often an identifier is held, by a session or by the pool.
  unfoldable pub holders : ℕ → Manager H → ℕ
  holders x m = count_of x m.session_id_generator.pool + one_if (lookup x m.session_handler_map)

  -- With `n` identifiers left before the counter wraps around.
  pub record IsUnique (n : ℕ) (m : Manager H) : Type 0 where
    pub once : (x : ℕ) → holders x m ≤ 1
    pub below : (x : ℕ) → m.session_id_generator.next ≤ x → holders x m ≡ 0
    pub room : m.session_id_generator.next + n ≤ 4294967295
    pub most : m.session_id_generator.max ≡ 4294967295

  forget-IsUnique :
      (n id : ℕ) (o : Option H) (m : Manager H)
      → lookup id m.session_handler_map ≡ o
      → IsUnique n m
      → IsUnique n (forget id o m)
  unfolding forget put holders count_of
  forget-IsUnique n id none m e v = v
  forget-IsUnique n id (some handler) m e v = record {
    once = λ x. ground (
      arith,
      v.once x,
      count_of-append x id m.session_id_generator.pool,
      lookup-erase id x m.session_handler_map,
      nat_eq_iff id x,
      e,
    );
    below = λ x b. ground (
      arith,
      v.below x b,
      count_of-append x id m.session_id_generator.pool,
      lookup-erase id x m.session_handler_map,
      nat_eq_iff id x,
      e,
    );
    room = v.room;
    most = v.most;
  }

  on_session_close-IsUnique :
      (n id : ℕ) (m : Manager H)
      → id ≢ 0
      → IsUnique n m
      → Returns (IsUnique n) (on_session_close id m)
  unfolding on_session_close
  on_session_close-IsUnique n id m h v =
      Returns-assert _ _ (ground (arith, nat_eq_iff id 0, h))
        (returns (forget-IsUnique n id _ m refl v))

  -- The manager after the generator gave out `id`, before the handler is entered.
  record IsGiven (n id : ℕ) (m : Manager H) : Type 0 where
    spare : holders id m ≡ 0
    given : id < m.session_id_generator.next
    unique : IsUnique n m

  inserted-IsUnique :
      (n id : ℕ) (handler : H) (m : Manager H)
      → lookup id m.session_handler_map ≡ none
      → IsGiven n id m
      → IsUnique n (record m { session_handler_map = insert id handler m.session_handler_map })
  unfolding holders
  inserted-IsUnique n id handler m e v = record {
    once = λ x. ground (
      arith,
      v.unique.once x,
      v.spare,
      nat_eq_iff id x,
      e,
      lookup-insert id x handler m.session_handler_map e,
    );
    below = λ x b. ground (
      arith,
      v.unique.below x b,
      v.given,
      b,
      nat_eq_iff id x,
      e,
      lookup-insert id x handler m.session_handler_map e,
    );
    room = v.unique.room;
    most = v.unique.most;
  }

  absent-lookup :
      (n id : ℕ) (m : Manager H) → IsGiven n id m → lookup id m.session_handler_map ≡ none
  absent-lookup n id m v =
      none_of (lookup id m.session_handler_map) (unfold holders in omega (arith, v.spare))
    where
      none_of : (o : Option H) → one_if o ≡ 0 → o ≡ none
      none_of none h = refl
      none_of (some a) h = absurd (ground (arith, h))

  add_handler-IsUnique :
      (n id : ℕ) (handler : H) (m : Manager H)
      → IsGiven n id m
      → Returns (IsUnique n) (add_handler id handler m)
  unfolding add_handler
  add_handler-IsUnique n id handler m v =
      Returns-option (lookup id m.session_handler_map)
        (λ e. returns (inserted-IsUnique n id handler m e v))
        λ a e. absurd (ground (arith, e, absent-lookup n id m v))

  Given : ℕ → Manager H → Type 0
  Given n m =
      (id : ℕ) × (g : IdGenerator) × (get m.session_id_generator ≡ (some id, g))
      × IsGiven n id (record m { session_id_generator = g })

  from_pool :
      (n : ℕ) (m : Manager H) (pool : List ℕ)
      → ltb m.session_id_generator.threshold (length m.session_id_generator.pool) ≡ true
      → m.session_id_generator.pool ≡ pool
      → IsUnique (suc n) m
      → Given n m
  unfolding Given holders count_of
  from_pool n m [] e h v = absurd (ground (arith, e, h))
  from_pool n m (id ∷ rest) e h v = (
    id,
    record m.session_id_generator { pool = rest },
    pool_lem m.session_id_generator id rest e h,
    record {
      spare = ground (arith, v.once id, h, nat_eq_iff id id);
      given = ground (arith, v.below id, h, nat_eq_iff id id);
      unique = record {
        once = λ x. ground (arith, v.once x, h);
        below = λ x b. ground (arith, v.below x b, h);
        room = omega (arith, v.room);
        most = v.most;
      };
    },
  )

  -- The generator has an identifier, which nothing holds.
  get-IsGiven : (n : ℕ) (m : Manager H) → IsUnique (suc n) m → Given n m
  unfolding Given holders
  get-IsGiven n m v =
      elim (Bool-cases
        (ltb m.session_id_generator.threshold (length m.session_id_generator.pool))) [
          | inl e ↦ unfold Given in from_pool n m _ e refl v
          | inr e ↦ (
            m.session_id_generator.next,
            record m.session_id_generator { next = suc m.session_id_generator.next },
            get_lem m.session_id_generator e (omega (arith, v.room)) v.most,
            record {
              spare = v.below m.session_id_generator.next (omega arith);
              given = omega arith;
              unique = record {
                once = v.once;
                below = λ x b. v.below x (omega (arith, b));
                room = omega (arith, v.room);
                most = v.most;
              };
            },
          )
        ]

  connect-IsUnique :
      (n : ℕ) (allowed : Bool) (handler : H) (m : Manager H)
      → IsUnique (suc n) m
      → Returns (λ r. IsUnique n r.1) (on_session_connect allowed handler m)
  unfolding on_session_connect connect Given
  connect-IsUnique n allowed handler m v =
      Returns-if (not allowed || ltb 10000 (length m.session_handler_map))
        (λ _.
          returns (record {
            once = v.once;
            below = v.below;
            room = omega (arith, v.room);
            most = v.most;
          }))
        λ _.
          let f = get-IsGiven n m v in
          rw (f.2) (Returns->>= (add_handler-IsUnique n f.0 handler _ f.3) λ m' w. returns w)

-- What the main thread is told of sessions.
pub data Notice (H : Type 0) : Type 0 where
  connects : Bool → H → Notice H
  closes : ℕ → Notice H

module _ {H : Type 0} where
  room-IsUnique : (k n : ℕ) (m : Manager H) → n ≤ k → IsUnique k m → IsUnique n m
  room-IsUnique k n m h v = record {
    once = v.once;
    below = v.below;
    room = omega (arith, v.room, h);
    most = v.most;
  }

  unfoldable pub notice : Notice H → Manager H → Result (Manager H)
  notice (Notice.connects allowed handler) m = on_session_connect allowed handler m >>= λ r. ok r.1
  notice (Notice.closes id) m = on_session_close id m

  unfoldable pub notices : List (Notice H) → Manager H → Result (Manager H)
  notices [] m = ok m
  notices (e ∷ es) m = notice e m >>= λ m'. notices es m'

  -- A session has an identifier when it reports that it is closed.
  unfoldable pub AreSessions : List (Notice H) → Type 0
  AreSessions [] = Unit
  AreSessions (Notice.connects allowed handler ∷ es) = AreSessions es
  AreSessions (Notice.closes id ∷ es) = (id ≢ 0) × AreSessions es

  -- However sessions connect and report that they are closed, also more than once, no assertion
  -- fails, and no identifier is held by two sessions, or by a session and the pool, or by the pool
  -- twice, if those who report have an identifier and as many identifiers as notices are left before
  -- the counter wraps around.
  pub notices-IsUnique :
      (es : List (Notice H)) (n : ℕ) (m : Manager H)
      → AreSessions es
      → IsUnique (length es + n) m
      → Returns (IsUnique n) (notices es m)
  unfolding notices notice AreSessions
  notices-IsUnique [] n m s v = returns (room-IsUnique (0 + n) n m (omega arith) v)
  notices-IsUnique (Notice.connects allowed handler ∷ es) n m s v =
      Returns->>=
        (Returns->>=
          (connect-IsUnique (length es + n) allowed handler m (room-IsUnique _ _ m (omega arith) v))
          λ r w. returns w)
        λ m' w. notices-IsUnique es n m' s w
  notices-IsUnique (Notice.closes id ∷ es) n m s v =
      Returns->>=
        (on_session_close-IsUnique (length es + n) id m s.0 (room-IsUnique _ _ m (omega arith) v))
        λ m' w. notices-IsUnique es n m' s.1 w
