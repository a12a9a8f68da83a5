-- ===== src/Router/Broker/Reserved.antt =====
-- router/mdbroker.cpp: requests for internal services, and which names are taken for internal.
use cpp_framework.Prelude.{
  ℕ, ◌≡◌, refl, sym, ap, ◌∙◌, true, false, none, some, [], ◌∷◌, ◌++◌, ◌==◌, nat_key, bytes_key,
  arith, Bytes, codes, lookup,
}
use cpp_framework.Router.Fault.{Fault, ok, fault}
use cpp_framework.Router.Uuid.{c_str}
use cpp_framework.Router.Message.{Zmsg, wrap, push_front, body_set}
use cpp_framework.Router.Message.Laws.{body-body_set, body-append}
use cpp_framework.Router.Service.{Service, ServiceType, type_name}
use cpp_framework.Router.Broker.State.{Broker, transmit, mdpc_client}
use cpp_framework.Router.Broker.Services.{service_require}
use cpp_framework.Router.Broker.Dispatch.{service_internal, mmi_service}
use cpp_framework.Router.Broker.Workers.{is_reserved, default_type}
use cpp_framework.Router.Broker.Clients.{client_request}
use cpp_framework.Router.Broker.Replies.{reply_message-wrap}

-- The entry of the directory for a service of the default type.
pub record Offers (b : Broker) (name : Bytes) (a : ℕ) (s : Service) : Type 0 where
  pub entry : lookup name b.services ≡ some a
  pub live : b.heap a ≡ some s
  pub default : s.type ≡ ServiceType.do_not_wait_response

require_offered :
    (b : Broker) (c : ℕ) (cs : Bytes) (a : ℕ) (s : Service)
    → Offers b (c ∷ cs) a s
    → service_require b (c ∷ cs) default_type ≡ ok (some a, b)
unfolding service_require
require_offered b c cs a s v = rw (v.entry, v.live, ap type_name v.default)

wrap-append :
    (addr : Bytes) (msg : Zmsg) (last : Bytes)
    → wrap addr (some []) (msg ++ (last ∷ [])) ≡ wrap addr (some []) msg ++ (last ∷ [])
wrap-append addr msg last = unfold wrap push_front in refl

request_internal :
    (now : ℕ) (b : Broker) (sender name : Bytes) (msg : Zmsg) (a : ℕ) (s : Service)
    → Offers b name a s
    → is_reserved name ≡ true
    → client_request now b sender name msg ≡ service_internal b name (wrap sender (some []) msg)
request_internal now b sender [] msg a s v r = absurd (unfold is_reserved in ground arith)
request_internal now b sender (c ∷ cs) msg a s v r =
    unfold client_request in rw (require_offered b c cs a s v, r)

abbrev not_implemented : Bytes
not_implemented = codes "501"

body_set-wrap :
    (sender : Bytes) (msg : Zmsg) (last : Bytes)
    → body_set not_implemented (wrap sender (some []) (msg ++ (last ∷ [])))
      ≡ wrap sender (some []) (msg ++ (not_implemented ∷ []))
body_set-wrap sender msg last =
    ap (body_set not_implemented) (wrap-append sender msg last)
    ∙ (body-body_set not_implemented (wrap sender (some []) msg) last).1
    ∙ unfold c_str in sym (wrap-append sender msg not_implemented)

internal_refused :
    (b : Broker) (sender name : Bytes) (msg : Zmsg) (last : Bytes)
    → (name == mmi_service) ≡ false
    → service_internal b name (wrap sender (some []) (msg ++ (last ∷ [])))
      ≡ transmit b
          (wrap sender (some []) (wrap mdpc_client (some name) (msg ++ (not_implemented ∷ []))))
unfolding service_internal
internal_refused b sender name msg last ne = rw ne (
    rw (body_set-wrap sender msg last)
      (rw (reply_message-wrap sender name (msg ++ (not_implemented ∷ [])))))

-- A name of at least four bytes that begins with one of the letters of the prefix is taken for
-- internal, though the service is there: the client gets 501 in its own envelope, and neither the
-- service nor any other field of the broker changes.
pub client_request-reserved :
    (now : ℕ) (b : Broker) (sender name : Bytes) (msg : Zmsg) (last : Bytes) (a : ℕ) (s : Service)
    → Offers b name a s
    → is_reserved name ≡ true
    → (name == mmi_service) ≡ false
    → client_request now b sender name (msg ++ (last ∷ []))
      ≡ transmit b
          (wrap sender (some []) (wrap mdpc_client (some name) (msg ++ (codes "501" ∷ []))))
client_request-reserved now b sender name msg last a s v r ne =
    request_internal now b sender name (msg ++ (last ∷ [])) a s v r
    ∙ internal_refused b sender name msg last ne

internal_unknown :
    (b : Broker) (sender asked : Bytes) (msg : Zmsg)
    → lookup (c_str asked) b.services ≡ none
    → service_internal b mmi_service (wrap sender (some []) (msg ++ (asked ∷ [])))
      ≡ fault Fault.out_of_range
unfolding service_internal
internal_unknown b sender asked msg unknown =
    rw (wrap-append sender msg asked, body-append (wrap sender (some []) msg) asked, unknown)

-- A client that asks `mmi.service` for a service that nobody has asked for yet does not get 404: the
-- look-up throws, and nothing catches it.
pub client_request-mmi_unknown :
    (now : ℕ) (b : Broker) (sender asked : Bytes) (msg : Zmsg) (a : ℕ) (s : Service)
    → Offers b mmi_service a s
    → lookup (c_str asked) b.services ≡ none
    → client_request now b sender mmi_service (msg ++ (asked ∷ [])) ≡ fault Fault.out_of_range
client_request-mmi_unknown now b sender asked msg a s v unknown =
    request_internal now b sender mmi_service (msg ++ (asked ∷ [])) a s v
      (unfold is_reserved in refl)
    ∙ internal_unknown b sender asked msg unknown
