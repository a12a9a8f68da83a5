-- ===== src/Gateway/Stream.antt =====
-- gateway_server/sdk/tcp_session.cc: what a session writes is what was posted to it, in that order.
use mathlib.Core.Path.{subst}
use cpp_framework.Prelude.{◌≡◌, refl, ap, ◌∙◌, List, [], ◌∷◌, ◌++◌, nat_key, Bytes}
use cpp_framework.Router.Fault.{Result, ◌>>=◌}
use cpp_framework.Router.Returns.{Returns, returns, Returns-if}
use cpp_framework.Gateway.Session.{Filter, Session, Event, handle, run_session}
use cpp_framework.Gateway.Sound.{
  IsAsked, AreAsked, IsFilter, append_assoc, append-nil, stream, IsSession, Goes, close-Goes,
  active_close-Goes, accepted, all_accepted, next,
}
use cpp_framework.Gateway.Handlers.{handle_read-Goes, handle_write-Goes}
use cpp_framework.Gateway.Posting.{post_message_list-Goes}

module _ {M F : Type 0} where
  module _ {Fits : M → Type 0} (f : Filter M F) (law : IsFilter Fits f) where
    unchanged :
        {r : Result (Session M F)} (s : Session M F)
        → Returns (Goes (stream s)) r
        → Returns (Goes (stream s ++ [])) r
    unchanged s p = rw (append-nil (stream s)) p

    handle-Goes :
        (event : Event M) (s : Session M F)
        → IsAsked f Fits event s
        → IsSession s
        → Returns (Goes (stream s ++ accepted f event s)) (handle f event s)
    unfolding handle accepted IsAsked
    handle-Goes (Event.posts messages) s asked v =
        unfold accepted in post_message_list-Goes f law messages s asked v
    handle-Goes (Event.reads main_thread now data_read) s asked v = unchanged s (
        Returns-if s.reading (λ h. handle_read-Goes f law main_thread now data_read s h asked v)
          λ _. returns (record { sound = v; bytes = refl }))
    handle-Goes (Event.writes error) s asked v = unchanged s (
        Returns-if s.writing (λ h. handle_write-Goes f law error s h v)
          λ _. returns (record { sound = v; bytes = refl }))
    handle-Goes Event.closes s asked v = unchanged s (returns (close-Goes s v))
    handle-Goes Event.closes_actively s asked v = unchanged s (returns (active_close-Goes s v))

    rest-Goes :
        {r : Result (Session M F)} {k : Session M F → Result (Session M F)} (s : Session M F)
        (bytes : Bytes) (after : Session M F → Bytes)
        → Returns (Goes (stream s ++ bytes)) r
        → ((t : Session M F)
            → next f r s ≡ t
            → IsSession t
            → Returns (Goes (stream t ++ after t)) (k t))
        → Returns (Goes (stream s ++ (bytes ++ after (next f r s)))) (r >>= k)
    unfolding next
    rest-Goes {k} s bytes after (returns {a = t} g) rest =
        subst (λ b. Returns (Goes b) (k t))
          (ap (λ b. b ++ after t) g.bytes ∙ append_assoc (stream s) bytes (after t))
          (rest t refl g.sound)

    -- Whatever messages that fit the filter are posted to a session, and however its reads of the bytes
    -- that were asked for and its writes end, no assertion fails, and the bytes written, being written and
    -- waiting are those that were there and, after them, the encodings of what was posted while it was open,
    -- in that order, each once, if the filter keeps its laws and the parts of the session agree at the start.
    pub run_session-Goes :
        (events : List (Event M)) (s : Session M F)
        → AreAsked f Fits events s
        → IsSession s
        → Returns (Goes (stream s ++ all_accepted f events s)) (run_session f events s)
    unfolding run_session all_accepted AreAsked
    run_session-Goes [] s asked v = unchanged s (returns (record { sound = v; bytes = refl }))
    run_session-Goes (event ∷ events) s asked v =
        rest-Goes s (accepted f event s) (all_accepted f events) (handle-Goes event s asked.0 v)
          λ t same w. run_session-Goes events t (subst (AreAsked f Fits events) same asked.1) w
