-- ===== src/Gateway/Manager.antt =====
-- gateway_server/sdk/id_generator.h and tcp_io_thread_manager.cc: the identifiers of sessions, and the
-- map of their handlers. A handler is what tells handlers apart.
use cpp_framework.Prelude.{
  ℕ, ◌+◌, ◌%◌, Bool, not, ◌||◌, Option, none, some, List, [], ◌∷◌, ◌++◌, ◌==◌, nat_key, Dict,
  lookup, insert, erase, length, if◌then◌else◌, ltb, leb,
}
use cpp_framework.Router.Fault.{Fault, Result, ok, fault, ◌>>=◌, ◌>>◌, assert}

-- `IDGenerator<TCPSessionID>`, over 32 bits.
pub record IdGenerator : Type 0 where
  pub max : ℕ
  pub next : ℕ
  pub threshold : ℕ
  pub pool : List ℕ

unfoldable pub get_next : IdGenerator → Option ℕ × IdGenerator
get_next g =
    if leb g.next g.max
    then (some g.next, record g { next = (g.next + 1) % 4294967296 })
    else (none, g)

-- `Get`
unfoldable pub get : IdGenerator → Option ℕ × IdGenerator
unfolding get_next
get g =
    if ltb g.threshold (length g.pool)
    then elim g.pool [ [] ↦ (none, g) | id ∷ rest ↦ (some id, record g { pool = rest }) ]
    else get_next g

-- `Put`
unfoldable pub put : ℕ → IdGenerator → IdGenerator
put id g = record g { pool = g.pool ++ (id ∷ []) }

pub record Manager (H : Type 0) : Type 0 where
  pub session_id_generator : IdGenerator
  pub session_handler_map : Dict ℕ H

-- The generator that the manager is made with, and no handler.
abbrev pub new_manager : {H : Type 0} → Manager H
new_manager = record {
  session_id_generator = record { max = 4294967295; next = 1; threshold = 4096; pool = [] };
  session_handler_map = [];
}

module _ {H : Type 0} where
  -- `insert` of a key that must not be there.
  unfoldable pub add_handler : ℕ → H → Manager H → Result (Manager H)
  add_handler id handler m = elim (lookup id m.session_handler_map) [
    | none ↦ ok (record m { session_handler_map = insert id handler m.session_handler_map })
    | some h ↦ fault Fault.assertion
  ]

  -- An empty `optional` must not be read.
  unfoldable pub connect : H → Manager H → Option ℕ × IdGenerator → Result (Option ℕ × Manager H)
  connect handler m (none, g) = fault Fault.assertion
  connect handler m (some id, g) =
      add_handler id handler (record m { session_id_generator = g }) >>= λ m'. ok (some id, m')

  -- `OnSessionConnect`: the identifier, if the session is let in.
  unfoldable pub on_session_connect : Bool → H → Manager H → Result (Option ℕ × Manager H)
  unfolding connect
  on_session_connect allowed handler m =
      if not allowed || ltb 10000 (length m.session_handler_map)
      then ok (none, m)
      else connect handler m (get m.session_id_generator)

  unfoldable pub forget : ℕ → Option H → Manager H → Manager H
  forget id none m = m
  forget id (some handler) m = record {
    session_id_generator = put id m.session_id_generator;
    session_handler_map = erase id m.session_handler_map;
  }

  -- `OnSessionClose`
  unfoldable pub on_session_close : ℕ → Manager H → Result (Manager H)
  unfolding forget
  on_session_close id m =
      assert (not (id == 0)) >> ok (forget id (lookup id m.session_handler_map) m)
