-- ===== src/Transport/Contract.antt =====
-- What src/transport/UTransport.cpp promises about every send and every registration.
use up_cpp.Common.{
  ℕ, ◌+◌, ◌≡◌, ◌≢◌, refl, ◌⊎◌, inl, inr, true, false, not, Option, none, some, [], ◌∷◌, ◌++◌, arith,
  has_value, if◌then◌else◌, String,
}
use up_cpp.Common.Outcome.{ok, throw}
use up_cpp.Proto.{UUri, UMessage, Protobuf}
use up_cpp.Exception.{invalid_umessage, invalid_uuri, empty_function_object}
use up_cpp.Utils.Expected.{expected, unexpected}
use up_cpp.Validator.Reasons.{MessageReason, UriReason}
use up_cpp.Validator.Uri
use up_cpp.Validator.Uri.Filters
use up_cpp.Validator.Message
use up_cpp.Validator.Message.{Readings}
use up_cpp.Validator.Message.Responses.{message_reasons-IsCoherent}
use up_cpp.Builder.Message.{require_uri}
use up_cpp.Transport.World.{World, Call, sent, listening, cleaned}
use up_cpp.Transport.{UTransport, send, is_ok_code, register_listener}

abbrev pub logged : World → Call → World
logged w c = record w { calls = w.calls ++ c ∷ [] }

verdict_cases :
    (r : Message.ValidationResult)
    → r.0 ≡ not (has_value r.1)
    → (r ≡ (true, none)) ⊎ ((why : MessageReason) × (r ≡ (false, some why)))
verdict_cases (accepted, none) c = inl (ground arith)
verdict_cases (accepted, some why) c = inr (why, ground arith)

-- A transport hands a message to its implementation exactly when the message passes `isValid`, and
-- then answers what the implementation answers; otherwise it throws with a reason, and nothing is
-- sent.
pub send_contract :
    (pb : Protobuf) (t : UTransport) (now : Readings) (m : UMessage) (w : World)
    → ((Message.is_valid pb now m ≡ (true, none))
        × (send pb t now m w ≡ (ok (t.send_impl w.calls m), logged w (sent m))))
      ⊎ ((why : MessageReason) × (Message.is_valid pb now m ≡ (false, some why))
          × (send pb t now m w ≡ (throw (invalid_umessage "Invalid UMessage | " (some why)), w)))
unfolding send
send_contract pb t now m w =
    elim (verdict_cases (Message.is_valid pb now m) (message_reasons-IsCoherent pb now m m).6) [
      | inl e ↦ inl (e, rw e refl)
      | inr (why, e) ↦ inr (why, e, rw e refl)
    ]

-- A valid message is handed to the implementation.
pub accepted_send :
    (pb : Protobuf) (t : UTransport) (now : Readings) (m : UMessage) (w : World)
    → Message.is_valid pb now m ≡ (true, none)
    → send pb t now m w ≡ (ok (t.send_impl w.calls m), logged w (sent m))
accepted_send pb t now m w h = elim (send_contract pb t now m w) [
  | inl (_, e) ↦ e
  | inr (why, refused, _) ↦ absurd (ground (arith, h, refused))
]

-- The filters that a registration accepts: a topic to subscribe to, if there is no sink filter, and
-- two filters otherwise.
abbrev pub AreFilters : UUri → Option UUri → Type 0
AreFilters source none = (Uri.is_valid_subscription source).0 ≡ true
AreFilters source (some sink) =
    ((Uri.is_valid_filter source).0 ≡ true) × ((Uri.is_valid_filter sink).0 ≡ true)

-- What a registration with good filters and a callback leads to: the implementation is called once,
-- under the next connection number. If it answers OK, the caller gets that connection's handle and
-- the connection stays; if not, the caller gets the status, and the handle is dropped, which cleans
-- the connection up if the implementation still holds it.
pub register_contract :
    (t : UTransport) (callback : ℕ) (source : UUri) (sink : Option UUri) (w : World)
    → AreFilters source sink
    → let conn = w.next_connection in
      let answer = t.register_listener_impl w.calls conn source sink in
      let w' = record w {
        calls = w.calls ++ listening conn callback source sink ∷ [];
        next_connection = conn + 1;
      } in
      register_listener t (some callback) source sink w ≡ (
        if is_ok_code (answer.0.code)
        then (ok (expected conn), w')
        else (ok (unexpected (answer.0)), if answer.1 then logged w' (cleaned conn) else w'))
unfolding register_listener require_uri
register_contract t callback source none w h = ground arith
register_contract t callback source (some sink) w h = ground arith

uri_verdict :
    (r : Uri.ValidationResult)
    → Filters.IsCoherent r
    → (r ≡ (true, none)) ⊎ ((why : UriReason) × (r ≡ (false, some why)))
uri_verdict (accepted, none) c = inl (ground arith)
uri_verdict (accepted, some why) c = inr (why, ground arith)

empty_or_good :
    (t : UTransport) (l : Option ℕ) (source : UUri) (sink : Option UUri) (w : World)
    → AreFilters source sink
    → (AreFilters source sink
        × (l ≡ none)
        × (register_listener t l source sink w
            ≡ (throw (empty_function_object "Callback function is empty"), w)))
      ⊎ (AreFilters source sink × (l ≢ none))
unfolding register_listener require_uri
empty_or_good t none source none w h = inl (h, refl, ground arith)
empty_or_good t none source (some sink) w h = inl (h, refl, ground arith)
empty_or_good t (some callback) source sink w h = inr (h, λ e. cc)

-- A registration either throws before the implementation is called, or has good filters and a
-- callback: a bad filter is refused with a reason, and an empty callback after that.
pub register_refused :
    (t : UTransport) (listener : Option ℕ) (source : UUri) (sink : Option UUri) (w : World)
    → ((text : String) × (why : UriReason) × (¬ AreFilters source sink)
        × (register_listener t listener source sink w ≡ (throw (invalid_uuri text (some why)), w)))
      ⊎ ((AreFilters source sink
            × (listener ≡ none)
            × (register_listener t listener source sink w
                ≡ (throw (empty_function_object "Callback function is empty"), w)))
          ⊎ (AreFilters source sink × (listener ≢ none)))
unfolding register_listener require_uri
register_refused t listener source none w =
    elim (uri_verdict (Uri.is_valid_subscription source)
      (Filters.uri_reasons-IsCoherent source).7) [
        | inr (why, e) ↦
            inl
              ("source_filter is not a valid URI |  ", why, (λ h. ground (arith, h, e)), rw e refl)
        | inl e ↦ inr (empty_or_good t listener source none w (ground (arith, e)))
      ]
register_refused t listener source (some sink) w =
    elim (uri_verdict (Uri.is_valid_filter source) (Filters.uri_reasons-IsCoherent source).0) [
      | inr (why, e) ↦
          inl ("source_filter is not a valid URI |  ", why, (λ h. ground (arith, h, e)), rw e refl)
      | inl e ↦
          elim (uri_verdict (Uri.is_valid_filter sink) (Filters.uri_reasons-IsCoherent sink).0) [
            | inr (why, e') ↦ inl (
              "sink_filter is not a valid URI |  ",
              why,
              (λ h. ground (arith, h, e')),
              rw (e, e') refl,
            )
            | inl e' ↦ inr (empty_or_good t listener source (some sink) w (ground (arith, e, e')))
          ]
    ]
