-- ===== src/Gateway/Posting.antt =====
-- gateway_server/sdk/tcp_session.cc: what posting messages does to the bytes on the way.
use cpp_framework.Prelude.{
  ◌≡◌, refl, ap, ◌∙◌, sym, false, List, ◌++◌, ◌==◌, nat_key, arith, nat_eq_iff,
}
use cpp_framework.Router.Returns.{Returns, returns, Returns-if, Returns-assert}
use cpp_framework.Gateway.Session.{
  Filter, Session, is_empty, start_write, encode, send_encoded, post_messages, post_message_list,
  Event,
}
use cpp_framework.Gateway.Sound.{
  AreFit, IsFilter, append_assoc, append-nil, started, is_empty-append, nil_of, stream, IsSession,
  Goes, accepted,
}
use cpp_framework.Gateway.Handlers.{Goes-if}

module _ {M F : Type 0} where
  module _ {Fits : M → Type 0} (f : Filter M F) (law : IsFilter Fits f) where
    pub accepted_lem :
        (messages : List M) (s : Session M F)
        → s.closed ≡ false
        → (f.bytes_wanna_write messages == 0) ≡ false
        → accepted f (Event.posts messages) s ≡ (f.write messages s.filter).0
    unfolding accepted
    accepted_lem messages s h w = ground (arith, h, w)

    pub written :
        (messages : List M) (s : Session M F)
        → AreFit Fits messages
        → (f.bytes_wanna_write messages == 0) ≡ false
        → is_empty (f.write messages s.filter).0 ≡ false
    written messages s fit w =
        law.writes messages s.filter fit λ e.
          ground (arith, w, law.wanted messages, e, nat_eq_iff (f.bytes_wanna_write messages) 0)

    pub post_messages-Goes :
        (messages : List M) (s : Session M F)
        → s.closed ≡ false
        → AreFit Fits messages
        → IsSession s
        → Goes (stream s ++ accepted f (Event.posts messages) s) (post_messages f messages s)
    unfolding post_messages send_encoded encode start_write stream accepted
    post_messages-Goes messages s h fit v =
        Goes-if (f.bytes_wanna_write messages == 0) _ _
          (λ w. record {
            sound = record {
              handlers = v.handlers;
              sent =
                  ground
                    (arith, w, law.wanted messages, nat_eq_iff (f.bytes_wanna_write messages) 0);
              sends = v.sends;
              waits = v.waits;
            };
            bytes = ground (arith, w, h, append-nil (stream s));
          })
          λ w.
            Goes-if (is_empty s.buffer_sending) _ _
              (λ e. record {
                sound = record {
                  handlers = ground (arith, v.handlers, v.sends h, e);
                  sent = refl;
                  sends = λ _. ground (
                    arith,
                    written messages s fit w,
                    is_empty-append s.buffer_to_be_sent (f.write messages s.filter).0,
                  );
                  waits = λ c. absurd (
                      ground (
                        arith,
                        c,
                        written messages s fit w,
                        is_empty-append s.buffer_to_be_sent (f.write messages s.filter).0,
                      ));
                };
                bytes =
                    started s.wire s.buffer_sending s.buffer_to_be_sent _
                      (nil_of s.buffer_sending e) (v.waits e)
                    ∙ ap (λ r. stream s ++ r) (sym (accepted_lem messages s h w));
              })
              λ e. record {
                sound = record {
                  handlers = v.handlers;
                  sent = refl;
                  sends = v.sends;
                  waits = λ c. absurd (ground (arith, c, e));
                };
                bytes =
                    sym (append_assoc (s.wire ++ s.buffer_sending) s.buffer_to_be_sent _)
                    ∙ ap (λ r. stream s ++ r) (sym (accepted_lem messages s h w));
              }

    pub post_message_list-Goes :
        (messages : List M) (s : Session M F)
        → AreFit Fits messages
        → IsSession s
        → Returns
            (Goes (stream s ++ accepted f (Event.posts messages) s))
            (post_message_list f messages s)
    unfolding post_message_list
    post_message_list-Goes messages s fit v =
        Returns-if s.closed
          (λ c. returns (record {
            sound = v;
            bytes = unfold accepted in ground (arith, c, append-nil (stream s));
          }))
          λ c.
            Returns-assert _ _ (ground (arith, v.sent))
              (returns (post_messages-Goes messages s c fit v))
