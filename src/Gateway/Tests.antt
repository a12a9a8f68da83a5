-- ===== src/Gateway/Tests.antt =====
-- gateway_server/sdk: a session with `MyFilter` that sends three lists, and a manager of two sessions.
use cpp_framework.Prelude.{Bytes, ℕ, refl, true, false, some, List, [], ◌∷◌, ◌++◌, arith}
use cpp_framework.Prelude.{lookup}
use cpp_framework.Gateway.Manager.{new_manager}
use cpp_framework.Gateway.Unique.{
  IsUnique, Notice, notices, AreSessions, holders, count_of, notices-IsUnique,
}
use cpp_framework.Router.Returns.{Returns}
use cpp_framework.Gateway.Session.{
  handle, post_message_list, post_messages, send_encoded, encode, start_write, Filter, Session,
  Event, run_session,
}
use cpp_framework.Gateway.Sound.{next, AreAsked, IsAsked, Goes, stream, all_accepted}
use cpp_framework.Gateway.Filter.{
  MyFilter, write, write_one, write_challenge, bytes_wanna_write, bytes_wanna_read, id_of,
  header_bytes,
}
use cpp_framework.Gateway.Filtered.{written_by, Fits, my_filter, my_filter-IsFilter}
use cpp_framework.Gateway.Stream.{run_session-Goes}

abbrev filter : MyFilter
filter = record {
  header_read = false;
  header = 0;
  p_box = 0 ∷ 1 ∷ 2 ∷ [];
  global_aesbox = 0 ∷ 1 ∷ 2 ∷ [];
  random_util = record { i = 0; j = 0; next = 0 };
}

abbrev small : Filter Bytes MyFilter
small = my_filter (λ i. i)

abbrev fresh : Session Bytes MyFilter
fresh = record {
  id = 3;
  filter = filter;
  messages_received = [];
  messages_to_be_sent = [];
  buffer_to_be_sent = [];
  buffer_sending = [];
  num_handlers = 1;
  closed = false;
  receive_delay = false;
  active_closed = false;
  last_receive_data_time = 0;
  in_queue = true;
  socket_open = true;
  reading = true;
  writing = false;
  wire = [];
  posted = [];
}

abbrev traffic : List (Event Bytes)
traffic =
    Event.posts ((1 ∷ 2 ∷ []) ∷ (7 ∷ 7 ∷ 2 ∷ []) ∷ [])
    ∷ Event.posts ((3 ∷ 0 ∷ []) ∷ [])
    ∷ Event.reads true 7 (some (9 ∷ 0 ∷ []))
    ∷ Event.writes false
    ∷ Event.closes
    ∷ Event.posts ((4 ∷ 4 ∷ []) ∷ [])
    ∷ Event.writes false
    ∷ []

traffic-AreAsked : AreAsked small Fits traffic fresh
unfolding AreAsked IsAsked next handle post_message_list post_messages send_encoded encode my_filter
    written_by write write_one write_challenge bytes_wanna_write bytes_wanna_read id_of start_write
    header_bytes
traffic-AreAsked = (
  ((omega arith, omega arith), ((omega arith, omega arith), tt)),
  (
    ((omega arith, omega arith), tt),
    ((λ _. refl), (tt, (tt, (((omega arith, omega arith), tt), (tt, tt))))),
  ),
)

run_session-Goes_example :
    Returns
      (Goes (stream fresh ++ all_accepted small traffic fresh))
      (run_session small traffic fresh)
run_session-Goes_example =
    run_session-Goes small (my_filter-IsFilter (λ i. i)) traffic fresh traffic-AreAsked
      (record { handlers = refl; sent = refl; sends = λ _. refl; waits = λ _. refl })

-- Two sessions of which the first reports twice that it is closed.
abbrev two_sessions : List (Notice ℕ)
two_sessions =
    Notice.connects true 7 ∷ Notice.closes 1 ∷ Notice.closes 1 ∷ Notice.connects true 8 ∷ []

new_manager-IsUnique : IsUnique 1000 (new_manager {H = ℕ})
unfolding holders count_of lookup
new_manager-IsUnique = record {
  once = λ x. omega arith;
  below = λ x h. refl;
  room = omega arith;
  most = refl;
}

notices-IsUnique_example : Returns (IsUnique 996) (notices two_sessions new_manager)
notices-IsUnique_example =
    notices-IsUnique two_sessions 996 new_manager
      (unfold AreSessions in ((λ e. cc), ((λ e. cc), tt))) new_manager-IsUnique
