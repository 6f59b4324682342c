-- ===== src/Communication/RpcServer/Replies.antt =====
-- What the listener of src/communication/RpcServer.cpp does with a request.
use up_cpp.Common.{
  ℕ, ◌≡◌, refl, inl, inr, true, false, Option, none, some, List, arith, ◌≢◌, ◌%◌, ◌^◌,
}
use up_cpp.Common.Int.{ℤ, pos, pos_part, ltb_ℤ, eq_ℤ_refl, not_ltb_ℤ_iff}
use up_cpp.Common.Outcome.{ok, ◌>>=◌, >>=-eq-ok}
use up_cpp.Proto.{UMessage, response, Protobuf, IsDocumented, default_attributes}
use up_cpp.Validator.Message.{is_valid_rpc_request, source_of, sink_of}
use up_cpp.Builder.Payload.{Payload, build_move}
use up_cpp.Builder.Message.{
  UMessageBuilder, response_to, with_ttl, with_payload_format, build, build_payload, is_bad_ttl,
  require_uri, new_builder, set_payload_format, response_builder, with_priority,
}
use up_cpp.Builder.Message.Setters.{good_ttl}
use up_cpp.Builder.Message.Validity.{SoundResponse}
use up_cpp.Builder.Message.Built.{IsPrompt, response_valid}
use up_cpp.Builder.Uuid.{get_builder}
use up_cpp.Builder.Uuid
use up_cpp.Validator.Uri.Accepted.{IsMethod-accepted, response_accepted}
use up_cpp.Validator.Uuid.{is_uuid}
use up_cpp.Validator.Message.Kinds.{IsFresh, ValidRequest, kinds_iff, is_valid_iff}
use up_cpp.Validator.Message.Responses.{message_reasons-IsCoherent, IsOk-of_accepted}
use up_cpp.Transport.World.{World, sent, invoked}
use up_cpp.Transport.Contract.{logged, accepted_send}
use up_cpp.Communication.Publisher.{apply_if}
use up_cpp.Communication.RpcServer.{RpcServer, Serving, serve, build_reply}

abbrev pub reply_ttl : Option ℤ → Option ℕ
reply_ttl none = none
reply_ttl (some t) = some (pos_part t % 2 ^ 32)

abbrev pub reply_format : Option Payload → ℤ
reply_format none = pos 0
reply_format (some p) = p.payload.1

abbrev pub reply_bytes : Option Payload → Option (List ℕ)
reply_bytes none = none
reply_bytes (some p) = some p.payload.0

-- The answer to a request: back to its source, from the method it called, with its priority and
-- its ID, and the server's time to live.
abbrev pub answer : RpcServer → Serving → UMessage → UMessage
answer server env request = record {
  attributes = record default_attributes {
    id = (Uuid.build get_builder env.system).0;
    type = response;
    source = some (sink_of request.attributes);
    sink = some (source_of request.attributes);
    reqid = some request.attributes.id;
    priority = request.attributes.priority;
    ttl = reply_ttl server.ttl;
    payload_format = reply_format (server.callback request);
  };
  payload = reply_bytes (server.callback request);
}

-- A time to live, if any, that a builder takes.
abbrev pub IsTtl : Option ℤ → Type 0
IsTtl none = Unit
IsTtl (some t) = is_bad_ttl t ≡ false

module _ (pb : Protobuf) where
  -- A payload format, if any, that a builder takes.
  abbrev pub IsFormat : Option ℤ → Type 0
  IsFormat none = Unit
  IsFormat (some f) =
      (ltb_ℤ f pb.payload_format_min ≡ false) × (ltb_ℤ pb.payload_format_max f ≡ false)

  -- What a callback may answer: an unmoved payload of the format that the server expects, if it
  -- expects one, and else nothing or an unmoved payload of a known format.
  abbrev pub Fits : Option ℤ → Option Payload → Type 0
  Fits none none = Unit
  Fits (some f) none = ⊥
  Fits none (some p) = (p.moved ≡ false) × (pb.payload_format_is_valid p.payload.1 ≡ true)
  Fits (some f) (some p) = (p.moved ≡ false) × (p.payload.1 ≡ f)

  module _ (doc : IsDocumented pb) (server : RpcServer) (env : Serving) (request : UMessage) where
    request_facts :
        (is_valid_rpc_request pb env.received request).0 ≡ true
        → ValidRequest pb env.received request.attributes
    request_facts h =
        (kinds_iff pb env.received request).0.0
          (IsOk-of_accepted _ (message_reasons-IsCoherent pb env.received request request).1 h)

    -- The builder for the answer, before the server's settings.
    abbrev opened : UMessageBuilder
    opened = record {
      attributes = record default_attributes {
        type = response;
        source = some (sink_of request.attributes);
        sink = some (source_of request.attributes);
        reqid = some request.attributes.id;
        priority = request.attributes.priority;
      };
      expected_payload_format = none;
      uuid_builder = get_builder;
    }

    opens :
        ValidRequest pb env.received request.attributes
        → (is_uuid request.attributes.id env.answered).0 ≡ true
        → response_to pb request env.answered ≡ ok opened
    unfolding response_to response_builder require_uri with_priority new_builder
    opens v h =
        let (method, method_is, method_ok) = v.sink in
        let (source, source_is, source_ok) = v.source in
        ground (
          arith,
          (IsMethod-accepted method).1 method_ok,
          (response_accepted source).1 source_ok,
          doc.priority_bounds request.attributes.priority v.common.priority,
          (not_ltb_ℤ_iff request.attributes.priority pb.priority_cs4).1 v.priority,
        )

    abbrev timed : UMessageBuilder
    timed = record opened { attributes = record opened.attributes { ttl = reply_ttl server.ttl } }

    times :
        (o : Option ℤ)
        → IsTtl o
        → apply_if (with_ttl pb) opened o
          ≡ ok (record opened { attributes = record opened.attributes { ttl = reply_ttl o } })
    unfolding with_ttl
    times none h = refl
    times (some t) h = rw h refl

    replies :
        (format : Option ℤ) (payload : Option Payload)
        → IsFormat format
        → Fits format payload
        → (do
          b'' ← apply_if (with_payload_format pb) timed format
          build_reply b'' payload env.system)
          ≡ ok (record {
            attributes = record timed.attributes {
              id = (Uuid.build get_builder env.system).0;
              payload_format = reply_format payload;
            };
            payload = reply_bytes payload;
          })
    unfolding with_payload_format set_payload_format build build_payload build_move
    replies none none h fits = refl
    replies (some f) none h fits = absurd fits
    replies none (some p) h fits = ground (arith, fits)
    replies (some f) (some p) h fits = ground (arith, fits, h, eq_ℤ_refl f)

    reply_ttl_good : (o : Option ℤ) → IsTtl o → reply_ttl o ≢ some 0
    reply_ttl_good none h = λ e. cc
    reply_ttl_good (some t) h = λ e. absurd (good_ttl pb t h (ground (arith, e)))

    answer_sound :
        ValidRequest pb env.received request.attributes
        → IsTtl server.ttl
        → SoundResponse pb request.attributes.id timed.attributes
    answer_sound v h =
        let (method, method_is, method_ok) = v.sink in
        let (source, source_is, source_ok) = v.source in
        record {
          common = record {
            priority = v.common.priority;
            format = doc.default_format;
            ttl = reply_ttl_good server.ttl h;
          };
          type = refl;
          source = (method, rw method_is refl, method_ok);
          sink = (source, rw source_is refl, source_ok);
          priority = (not_ltb_ℤ_iff request.attributes.priority pb.priority_cs4).1 v.priority;
          reqid = refl;
          permission_level = refl;
          token = refl;
        }

    reply_known :
        (format : Option ℤ) (payload : Option Payload)
        → IsFormat format
        → Fits format payload
        → pb.payload_format_is_valid (reply_format payload) ≡ true
    reply_known none none h fits = doc.default_format
    reply_known (some f) none h fits = absurd fits
    reply_known none (some p) h fits = fits.1
    reply_known (some f) (some p) h fits = rw fits.1 (doc.format_range f h.0 h.1)

    -- A server whose settings a builder takes answers every valid request whose ID still passes its
    -- check, at the response and when it is sent, if the callback's payload fits and the clock is
    -- read promptly: it invokes the callback with the request, then sends exactly the answer, and
    -- returns.
    pub serve_answers :
        (w : World)
        → IsTtl server.ttl
        → IsFormat server.expected_payload_format
        → Fits server.expected_payload_format (server.callback request)
        → IsPrompt env.system env.sending
        → (is_valid_rpc_request pb env.received request).0 ≡ true
        → (is_uuid request.attributes.id env.answered).0 ≡ true
        → (is_uuid request.attributes.id env.sending.reqid_checked).0 ≡ true
        → IsFresh request.attributes.id env.sending.reqid_rechecked env.sending.reqid_aged
            (reply_ttl server.ttl)
        → serve pb server env request w
          ≡ (ok tt, logged (logged w (invoked request)) (sent (answer server env request)))
    unfolding serve
    serve_answers w ttl_ok format_ok fits prompt valid opened_ok id_ok fresh =
        let v = request_facts valid in
        let known = reply_known _ (server.callback request) format_ok fits in
        let good = (is_valid_iff pb env.sending (answer server env request)).1 (
          inr (
            inl (
              response_valid env.system env.sending prompt pb timed.attributes _ known
                request.attributes.id id_ok fresh (answer_sound v ttl_ok)))) in
        let goes =
          accepted_send pb server.transport env.sending (answer server env request)
            (logged w (invoked request)) good in
        let (b'', formatted, built) =
          >>=-eq-ok (apply_if (with_payload_format pb) timed server.expected_payload_format)
            (λ b''. build_reply b'' (server.callback request) env.system)
            (replies _ (server.callback request) format_ok fits) in
        rw (valid, opens v opened_ok, times server.ttl ttl_ok, formatted, built, goes) refl
