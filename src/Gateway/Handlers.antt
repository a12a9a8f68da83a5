-- ===== src/Gateway/Handlers.antt =====
-- gateway_server/sdk/tcp_session.cc: what each handler does to the bytes on the way.
use cpp_framework.Prelude.{
  none, some, ℕ, suc, ◌≡◌, refl, ap, ◌∙◌, Bool, true, false, Option, [], ◌++◌, ◌==◌, nat_key, Bytes,
  length, if◌then◌else◌, arith, nat_eq_iff,
}
use mathlib.Core.Path.{subst}
use cpp_framework.Router.Fault.{Result, ◌>>=◌}
use cpp_framework.Router.Returns.{Returns, returns, Returns-if, Returns-option, Returns-assert}
use cpp_framework.Gateway.Session.{
  Event, Wanted, Filter, Task, Session, is_empty, post, start_write, leave_handler, start_read,
  ask_to_read, hand_over, receive, handle_read, write_more, handle_write,
}
use cpp_framework.Gateway.Sound.{
  IsAnswer, IsAsked, IsFilter, count, append-nil, nil_of, stream, IsSession, Goes, Same, Same-refl,
  posted-Same, handle_close-Same, Same-Goes, closed-Goes, leave_handler_lem,
}

module _ {M F : Type 0} where
  pub Goes-if :
      {before : Bytes} (c : Bool) (s t : Session M F)
      → (c ≡ true → Goes before s)
      → (c ≡ false → Goes before t)
      → Goes before (if c then s else t)
  Goes-if true s t p q = p refl
  Goes-if false s t p q = q refl

  pub leave_handler-Returns :
      {Q : Session M F → Type 0} (s : Session M F) (n : ℕ) (k : Session M F → Result (Session M F))
      → s.num_handlers ≡ suc n
      → Returns Q (k (record s { num_handlers = n }))
      → Returns Q (leave_handler s >>= k)
  leave_handler-Returns s n k h p = rw (leave_handler_lem s n h) p

  module _ {Fits : M → Type 0} (f : Filter M F) (law : IsFilter Fits f) where
    pub start_read-Goes :
        {before : Bytes} (s : Session M F)
        → s.reading ≡ false
        → Goes before s
        → Goes before (start_read f s)
    unfolding start_read stream
    start_read-Goes s h g = record {
      sound = record {
        handlers = ground (arith, g.sound.handlers, h);
        sent = g.sound.sent;
        sends = g.sound.sends;
        waits = g.sound.waits;
      };
      bytes = g.bytes;
    }

    pub ask_to_read-Goes :
        {before : Bytes} (s : Session M F)
        → s.reading ≡ false
        → Goes before s
        → Goes before (ask_to_read f s)
    unfolding ask_to_read
    ask_to_read-Goes {before} s h g =
        elim (f.bytes_wanna_read s.filter)
          as (λ w. Goes before (elim w [
            | Wanted.no_bytes ↦ s
            | Wanted.any_bytes ↦ start_read f s
            | Wanted.exactly n ↦ if n == 0 then s else start_read f s
          ])) [
            | Wanted.no_bytes ↦ g
            | Wanted.any_bytes ↦ start_read-Goes s h g
            | Wanted.exactly n ↦ Goes-if (n == 0) s _ (λ _. g) λ _. start_read-Goes s h g
          ]

    pub idle-Goes :
        (s : Session M F)
        → IsSession s
        → is_empty s.buffer_to_be_sent ≡ true
        → Goes (stream s) (record s {
          num_handlers = count s.reading;
          writing = false;
          wire = s.wire ++ s.buffer_sending;
          buffer_sending = [];
        })
    unfolding stream
    idle-Goes s v e = record {
      sound = record {
        handlers = ground arith;
        sent = v.sent;
        sends = λ _. refl;
        waits = λ _. nil_of s.buffer_to_be_sent e;
      };
      bytes = ap (λ r. r ++ s.buffer_to_be_sent) (append-nil (s.wire ++ s.buffer_sending));
    }

    pub write_more-Goes :
        (s : Session M F)
        → IsSession s
        → Goes (stream s) (
            write_more f (record s {
              num_handlers = count s.reading;
              writing = false;
              wire = s.wire ++ s.buffer_sending;
              buffer_sending = [];
            }))
    unfolding write_more start_write stream
    write_more-Goes s v =
        Goes-if (is_empty s.buffer_to_be_sent) _ _
          (λ e.
            Goes-if (f.bytes_wanna_write s.messages_to_be_sent == 0) _ _
              (λ _.
                Goes-if s.closed _ _ (λ _. Same-Goes (handle_close-Same _) (idle-Goes s v e))
                  λ _. idle-Goes s v e)
              λ w. absurd (
                ground (
                  arith,
                  w,
                  nat_eq_iff (f.bytes_wanna_write s.messages_to_be_sent) 0,
                  law.wanted s.messages_to_be_sent,
                  v.sent,
                )))
          λ e. record {
            sound = record {
              handlers = ground arith;
              sent = v.sent;
              sends = λ _. ground (arith, e);
              waits = λ c. absurd (ground (arith, c, e));
            };
            bytes = append-nil (s.wire ++ s.buffer_sending ++ s.buffer_to_be_sent);
          }

    pub Same-hand_over :
        (main_thread quiet : Bool) (s : Session M F) → Same s (hand_over f main_thread quiet s)
    unfolding hand_over post
    Same-hand_over main_thread true s = Same-refl s
    Same-hand_over main_thread false s =
        elim (is_empty s.messages_received)
          as (λ b. Same s (
            if b
            then s
            else post
                (if s.receive_delay then Task.start_timer else Task.send_message_list main_thread)
                s)) [ true ↦ Same-refl s | false ↦ posted-Same _ s ]

    pub receive-Goes :
        {before : Bytes} (main_thread : Bool) (bytes : Bytes) (s : Session M F)
        → s.reading ≡ false
        → IsAnswer (f.bytes_wanna_read s.filter) (length bytes)
        → Goes before s
        → Returns (Goes before) (receive f main_thread bytes s)
    unfolding receive
    receive-Goes main_thread bytes s h answer g =
        Returns-assert _ _
          (ground (
            arith,
            law.reads s.messages_received bytes s.filter answer,
            nat_eq_iff (f.read s.messages_received bytes s.filter).1 (length bytes),
          ))
          (returns (
            ask_to_read-Goes _ ((Same-hand_over main_thread _ _).same_reading ∙ h)
              (Same-Goes (Same-hand_over main_thread _ _) (Same-Goes taken g))))
      where
        taken : Same s (record s {
          messages_received = (f.read s.messages_received bytes s.filter).0;
          filter = (f.read s.messages_received bytes s.filter).2;
        })
        taken = record {
          same_handlers = refl;
          same_reading = refl;
          same_writing = refl;
          same_messages = refl;
          same_sending = refl;
          same_waiting = refl;
          same_wire = refl;
          same_closed = refl;
        }

    answered :
        (main_thread : Bool) (now : ℕ) (s : Session M F) (data_read : Option Bytes) (bytes : Bytes)
        → data_read ≡ some bytes
        → IsAsked f Fits (Event.reads main_thread now data_read) s
        → s.reading ≡ true
        → IsAnswer (f.bytes_wanna_read s.filter) (length bytes)
    unfolding IsAsked
    answered main_thread now s none bytes e asked h = cc
    answered main_thread now s (some b) bytes e asked h =
        let same : b ≡ bytes = cc in
        subst (λ x. IsAnswer (f.bytes_wanna_read s.filter) (length x)) same (asked h)

    pub handle_read-Goes :
        (main_thread : Bool) (now : ℕ) (data_read : Option Bytes) (s : Session M F)
        → s.reading ≡ true
        → IsAsked f Fits (Event.reads main_thread now data_read) s
        → IsSession s
        → Returns (Goes (stream s)) (handle_read f main_thread now data_read s)
    unfolding handle_read stream IsAsked
    handle_read-Goes main_thread now data_read s h asked v =
        leave_handler-Returns _ (count s.writing) _ (ground (arith, v.handlers, h)) (
          Returns-if s.closed (λ _. returns (Same-Goes (handle_close-Same _) left))
            λ _.
              Returns-option data_read
                (λ _. returns (Same-Goes (handle_close-Same _) (closed-Goes _ left.sound)))
                λ bytes some_bytes.
                  receive-Goes main_thread bytes _ refl
                    (answered main_thread now s data_read bytes some_bytes asked h) left)
      where
        left : Goes (stream s) (record s {
          last_receive_data_time = now;
          reading = false;
          num_handlers = count s.writing;
        })
        left = record {
          sound = record {
            handlers = ground arith;
            sent = v.sent;
            sends = v.sends;
            waits = v.waits;
          };
          bytes = unfold stream in refl;
        }

    pub handle_write-Goes :
        (error : Bool) (s : Session M F)
        → s.writing ≡ true
        → IsSession s
        → Returns (Goes (stream s)) (handle_write f error s)
    unfolding handle_write stream
    handle_write-Goes error s h v =
        leave_handler-Returns _ (count s.reading) _ (ground (arith, v.handlers, h)) (
          returns (
            Goes-if error _ _ (λ _. Same-Goes (handle_close-Same _) failed)
              λ _. write_more-Goes s v))
      where
        failed :
            Goes
              (stream s)
              (record s { writing = false; num_handlers = count s.reading; closed = true })
        failed = record {
          sound = record {
            handlers = ground arith;
            sent = v.sent;
            sends = λ c. cc;
            waits = v.waits;
          };
          bytes = unfold stream in refl;
        }
