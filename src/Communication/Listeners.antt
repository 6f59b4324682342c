-- ===== src/Communication/Listeners.antt =====
-- What src/communication/Subscriber.cpp, NotificationSink.cpp and RpcServer.cpp register with the
-- transport.
use up_cpp.Common.{
  Bool-cases, ℕ, ◌+◌, ◌≤◌, ◌≡◌, refl, Bool, true, false, Option, none, some, [], ◌∷◌, ◌++◌, arith,
  length, if◌then◌else◌, inl, inr,
}
use up_cpp.Common.Int.{ℤ}
use up_cpp.Common.Outcome.{ok, throw}
use up_cpp.Proto.{UUri, UStatus, Protobuf, UMessage}
use up_cpp.Exception.{Result, invalid_uuri}
use up_cpp.Utils.Expected.{Expected, expected, unexpected}
use up_cpp.Validator.Uri.{is_valid_filter, is_valid_subscription}
use up_cpp.Validator.Uri.Accepted.{IsMethod, IsMethod-accepted}
use up_cpp.Validator.Uri.Filters.{filter_iff, uri_reasons-IsCoherent}
use up_cpp.Validator.Uri.Accepted
use up_cpp.Validator.Reasons.{UriReason}
use up_cpp.Transport.{
  register_listener, check_filters, UTransport, ListenHandle, get_entity_uri, is_ok_code,
}
use up_cpp.Builder.Payload.{Payload}
use up_cpp.Builder.Message.{require_uri}
use up_cpp.Transport.World.{bind_outcome, World, listening, cleaned}
use up_cpp.Transport.Contract.{logged, register_contract}
use up_cpp.Communication.Subscriber.{subscribe, wrap_handle}
use up_cpp.Communication.NotificationSink
use up_cpp.Communication.NotificationSink.{NotificationSink}
use up_cpp.Communication.RpcServer
use up_cpp.Communication.RpcServer.{RpcServer, connect, any_uri, is_bad_format}

-- What comes of one registration: the transport's implementation is called with the filters, and
-- its answer decides between the object made of the new handle and its status.
abbrev pub registration :
    {A : Type 0}
    → UTransport
    → (callback : ℕ) → UUri
    → Option UUri
    → (ListenHandle → A)
    → World
    → Result (Expected A UStatus) × World
registration t callback source sink make w =
    let conn = w.next_connection in
    let answer = t.register_listener_impl w.calls conn source sink in
    let w' = record w {
      calls = w.calls ++ listening conn callback source sink ∷ [];
      next_connection = conn + 1;
    } in
    if is_ok_code (answer.0.code)
    then (ok (expected (make conn)), w')
    else (ok (unexpected (answer.0)), if answer.1 then logged w' (cleaned conn) else w')

wrapped :
    {A : Type 0} (make : ListenHandle → A) (b : Bool) (h : ListenHandle) (status : UStatus)
    (w w' : World)
    → bind_outcome
        (wrap_handle make)
        (if b then (ok (expected h), w) else (ok (unexpected status), w'))
      ≡ (if b then (ok (expected (make h)), w) else (ok (unexpected status), w'))
wrapped make true h status w w' = refl
wrapped make false h status w w' = refl

-- A subscriber to a subscription topic registers that topic, with no sink filter.
pub subscribe_registers :
    (t : UTransport) (callback : ℕ) (topic : UUri) (w : World)
    → (is_valid_subscription topic).0 ≡ true
    → subscribe (some t) topic (some callback) w
      ≡ registration t callback topic none (λ h. record { transport = t; subscription = h }) w
unfolding subscribe require_uri
subscribe_registers t callback topic w h =
    rw (h, register_contract t callback topic none w h) (wrapped _ _ _ _ _ _)

-- A notification sink whose source filter is a topic that passes the filter check, on a transport
-- whose own URI does, registers that filter with the transport's URI for the sink.
pub sink_registers :
    (t : UTransport) (callback : ℕ) (source : UUri) (w : World)
    → (is_valid_subscription source).0 ≡ true
    → (is_valid_filter source).0 ≡ true
    → (is_valid_filter t.entity_uri).0 ≡ true
    → NotificationSink.create (some t) (some callback) source w
      ≡ registration t callback source
          (some t.entity_uri)
          (λ h. record { transport = t; listener = h })
          w
unfolding NotificationSink.create require_uri get_entity_uri
sink_registers t callback source w h k l =
    rw (h, register_contract t callback source (some t.entity_uri) w (k, l)) (wrapped _ _ _ _ _ _)

any_uri_valid : (is_valid_filter any_uri).0 ≡ true
any_uri_valid =
    ground (arith, (filter_iff any_uri).1 (omega arith, omega arith, omega arith, omega arith))

-- Whether a method that passes its own check is also a good filter.
abbrev pub IsFilter : UUri → Type 0
IsFilter u = (1 ≤ u.ue_version_major) × (u.ue_version_major ≤ 255) × (length u.authority_name ≤ 128)

method_filter : (u : UUri) → IsMethod u → IsFilter u → (is_valid_filter u).0 ≡ true
method_filter u m f = ground (arith, (filter_iff u).1 (f.0, f.1, ground (arith, m.1), f.2))

-- The server that a callback, a format and a time to live make on a transport.
abbrev pub serving_at :
    UTransport → (UMessage → Option Payload) → Option ℤ → Option ℤ → Option ListenHandle → RpcServer
serving_at t callback format ttl handle = record {
  transport = t;
  ttl = ttl;
  callback = callback;
  expected_payload_format = format;
  callback_handle = handle;
}

-- A server for a method that is also a good filter registers that method, for every source: it is
-- returned, with its handle, if the transport answers OK, and the transport's status otherwise.
pub server_registers :
    (pb : Protobuf) (t : UTransport) (method : UUri) (callback : UMessage → Option Payload)
    (format ttl : Option ℤ) (serves : ℕ) (w : World)
    → IsMethod method
    → IsFilter method
    → is_bad_format pb format ≡ false
    → RpcServer.create pb (some t) method callback format ttl serves w
      ≡ registration t serves any_uri
          (some method)
          (λ h. serving_at t callback format ttl (some h))
          w
unfolding RpcServer.create RpcServer.connect RpcServer.new_server
server_registers pb t method callback format ttl serves w m f good =
    let registered =
      register_contract t serves any_uri (some method) w
        (any_uri_valid, method_filter method m f) in
    elim (Bool-cases (
      is_ok_code
        ((t.register_listener_impl w.calls w.next_connection any_uri (some method)).0.code))) [
          | inl e ↦ rw ((IsMethod-accepted method).1 m, good, registered, e) refl
          | inr e ↦ rw ((IsMethod-accepted method).1 m, good, registered, e, e) refl
        ]

bad_filter : (u : UUri) → IsMethod u → ¬ IsFilter u → (is_valid_filter u).0 ≡ false
bad_filter u m h = elim (Bool-cases (is_valid_filter u).0) [
  | inl e ↦
      let fine = (filter_iff u).0 (Accepted.IsOk-of_accepted _ (uri_reasons-IsCoherent u).0 e) in
      absurd (h (fine.0, fine.1, fine.3))
  | inr e ↦ e
]

-- A server for a method that is no good filter, for its version or the length of its authority, is
-- refused by an exception rather than a status, and nothing is registered.
pub server_refused :
    (pb : Protobuf) (t : UTransport) (method : UUri) (callback : UMessage → Option Payload)
    (format ttl : Option ℤ) (serves : ℕ) (w : World)
    → IsMethod method
    → ¬ IsFilter method
    → is_bad_format pb format ≡ false
    → (why : Option UriReason) × (RpcServer.create pb (some t) method callback format ttl serves w
        ≡ (throw (invalid_uuri "sink_filter is not a valid URI |  " why), w))
unfolding RpcServer.create RpcServer.connect RpcServer.new_server register_listener check_filters
    require_uri
server_refused pb t method callback format ttl serves w m h good = (
  (is_valid_filter method).1,
  rw ((IsMethod-accepted method).1 m, good, any_uri_valid, bad_filter method m h) refl,
)
