-- ===== src/Router/Broker/Replies.antt =====
-- router/mdbroker.cpp: the envelope of a request brings the reply back to its client.
use cpp_framework.Prelude.{◌≡◌, refl, sym, ap, false, ◌∙◌, some, List, [], ◌∷◌, map, Bytes, length}
use cpp_framework.Router.Fault.{ok, ◌>>=◌}
use cpp_framework.Router.Uuid.{c_str}
use cpp_framework.Router.Uuid.RoundTrip.{AreBytes, printed, c_str-printed}
use cpp_framework.Router.Message.{Zmsg, push_front, wrap, send, recv, is_printed}
use cpp_framework.Router.Message.Laws.{
  unwrap-wrap, c_str-c_str, kept, kept-name, recv_lem, AreFrames, send-kept, send-printed_cons,
  send-plain_cons,
}
use cpp_framework.Router.Broker.State.{mdpc_client}
use cpp_framework.Router.Broker.Dispatch.{reply_message}

-- The envelope that `client_process` puts round a request is taken off by the REPLY of a worker that
-- sends it back, whatever the body of the reply, and the reply is then addressed to the client.
pub reply_message-wrap :
    (client service_name : Bytes) (body : Zmsg)
    → reply_message service_name (wrap client (some []) body)
      ≡ ok (wrap client (some []) (wrap mdpc_client (some service_name) body))
unfolding reply_message
reply_message-wrap client service_name body =
    rw (unwrap-wrap client body) (unfold wrap push_front in rw (c_str-c_str client))

c_str-nil : c_str [] ≡ []
unfolding c_str
c_str-nil = refl

c_str-client : c_str mdpc_client ≡ mdpc_client
unfolding c_str
c_str-client = refl

not_printed : (is_printed [] ≡ false) × (is_printed mdpc_client ≡ false)
unfolding is_printed
not_printed = (refl, refl)

-- The parts that `wrap` puts before a message.
envelope :
    (bs : Bytes) (msg : Zmsg)
    → AreBytes bs
    → wrap (printed bs) (some []) msg ≡ printed bs ∷ [] ∷ msg
unfolding wrap push_front
envelope bs msg h = rw (c_str-printed bs h, c_str-nil)

header :
    (service_name : Bytes) (msg : Zmsg)
    → c_str service_name ≡ service_name
    → wrap mdpc_client (some service_name) msg ≡ mdpc_client ∷ service_name ∷ msg
unfolding wrap push_front
header service_name msg text = rw (c_str-client, text)

reply_parts :
    (bs service_name : Bytes) (msg : Zmsg)
    → AreBytes bs
    → c_str service_name ≡ service_name
    → reply_message service_name (printed bs ∷ [] ∷ msg)
      ≡ ok (printed bs ∷ [] ∷ mdpc_client ∷ service_name ∷ msg)
reply_parts bs service_name msg h text =
    ap (reply_message service_name) (sym (envelope bs msg h))
    ∙ reply_message-wrap (printed bs) service_name msg
    ∙ ap ok (envelope bs _ h ∙ ap (λ m. printed bs ∷ [] ∷ m) (header service_name msg text))

-- A worker's reply on the socket: the frames of the envelope that it was sent, an empty frame and the
-- frames of its body. The broker answers the client under the client's own 17 byte name, with the
-- name of the service and the same body, if the name of the service has no zero byte and is not in the
-- printed form of a peer, and no frame of the body is, which sending would turn into 17 bytes or stop at.
pub reply_message-frames :
    (bs service_name : Bytes) (body : List Bytes)
    → length bs ≡ 16
    → AreBytes bs
    → c_str service_name ≡ service_name
    → is_printed service_name ≡ false
    → AreFrames body
    → (do msg ← recv ((0 ∷ bs) ∷ [] ∷ body); reply ← reply_message service_name msg; send reply)
      ≡ ok ((0 ∷ bs) ∷ [] ∷ mdpc_client ∷ service_name ∷ body)
reply_message-frames bs service_name body n h text plain frames =
    rw (recv_lem ((0 ∷ bs) ∷ [] ∷ body), kept-name bs n)
      (rw (reply_parts bs service_name (map kept body) h text) (
        send-printed_cons bs _ _ n h (
          send-plain_cons [] _ _ not_printed.0 (
            send-plain_cons mdpc_client _ _ not_printed.1
              (send-plain_cons service_name _ _ plain (send-kept body frames))))))
