-- ===== src/Builder/Message.antt =====
-- src/datamodel/builder/UMessage.cpp. A setter returns the builder that it leaves, or throws and
-- leaves the builder as it was. The builder's own UuidBuilder is always the production one, which
-- no call of `build` changes.
pub mod Setters
pub mod Validity
pub mod Factories
pub mod Built
pub mod Chains
pub mod Limits
pub mod Tests
use up_cpp.Common.{
  ℕ, ◌^◌, ◌-◌, ◌%◌, String, Bool, true, false, not, ◌&&◌, ◌||◌, Option, none, some, List, has_value,
  value_or, if◌then◌else◌,
}
use up_cpp.Common.Int.{ℤ, pos, pos_part, ltb_ℤ, eq_ℤ}
use up_cpp.Common.Outcome.{Outcome, ok, throw, ◌>>=◌}
use up_cpp.Proto.{
  UUri, Uuid, UMessageType, UCode, ok_code, UAttributes, UMessage, Protobuf, default_attributes,
  publish, request, response, notification,
}
use up_cpp.Exception.{
  Result, invalid_uuri, invalid_uuid, out_of_range, invalid_argument, domain_error,
  unexpected_format,
}
use up_cpp.Validator.Uri
use up_cpp.Validator.Uuid.{is_uuid}
use up_cpp.Validator.Message.{is_request, is_response, source_of, sink_of}
use up_cpp.Builder.Uuid.{UuidBuilder, Entropy, get_builder}
use up_cpp.Builder.Uuid
use up_cpp.Builder.Payload.{Payload, Serialized, build_move}

pub record UMessageBuilder : Type 0 where
  pub attributes : UAttributes
  pub expected_payload_format : Option ℤ
  pub uuid_builder : UuidBuilder

abbrev pub uint32_max : ℤ
uint32_max = pos 0xffff_ffff

-- The private constructor.
unfoldable pub new_builder : UMessageType → UUri → Option UUri → Option Uuid → UMessageBuilder
new_builder msg_type source sink request_id = record {
  attributes = record default_attributes {
    type = msg_type;
    source = some source;
    sink = sink;
    reqid = request_id;
  };
  expected_payload_format = none;
  uuid_builder = get_builder;
}

-- `auto [ok, reason] = check(uri); if (!ok) throw InvalidUUri(text + message(*reason));`
unfoldable pub require_uri {ℓ} : {A : Type ℓ} → String → Uri.ValidationResult → A → Result A
require_uri text (valid, reason) a = if not valid then throw (invalid_uuri text reason) else ok a

-- `ttl.count() <= 0 || ttl.count() > uint32 max`
abbrev pub is_bad_ttl : ℤ → Bool
is_bad_ttl ttl = not (ltb_ℤ (pos 0) ttl) || ltb_ℤ uint32_max ttl

module _ (pb : Protobuf) where
  unfoldable pub with_priority : UMessageBuilder → ℤ → Result UMessageBuilder
  with_priority b priority =
      if ltb_ℤ priority pb.priority_min || ltb_ℤ pb.priority_max priority
      then throw (out_of_range "Priority value is out of range")
      else if (is_request b.attributes.type || is_response b.attributes.type)
          && ltb_ℤ priority pb.priority_cs4
      then throw (out_of_range "Priority value is out of range, for req/resp should be > CS4")
      else ok (record b { attributes = record (b.attributes) { priority = priority } })

  unfoldable pub with_method : UMessageBuilder → UUri → Result UMessageBuilder
  with_method b method =
      if not (Uri.is_valid_rpc_method method).0
      then throw (invalid_argument "The UUri provided is not a valid RpcMethod")
      else ok (record b { attributes = record (b.attributes) { sink = some method } })

  unfoldable pub with_ttl : UMessageBuilder → ℤ → Result UMessageBuilder
  with_ttl b ttl =
      if is_bad_ttl ttl
      then throw (out_of_range "TTL value is out of range")
      else ok
          (record b { attributes = record (b.attributes) { ttl = some (pos_part ttl % 2 ^ 32) } })

  unfoldable pub with_token : UMessageBuilder → List ℕ → Result UMessageBuilder
  with_token b token =
      if not (is_request b.attributes.type)
      then throw (domain_error "Token can only be set on a request message")
      else ok (record b { attributes = record (b.attributes) { token = some token } })

  unfoldable pub with_permission_level : UMessageBuilder → ℕ → Result UMessageBuilder
  with_permission_level b level =
      if not (is_request b.attributes.type)
      then throw (domain_error "Permission level can only be set on a request message")
      else ok (record b { attributes = record (b.attributes) { permission_level = some level } })

  abbrev pub is_ok_code : UCode → Bool
  is_ok_code ok_code = true
  is_ok_code _ = false

  unfoldable pub with_comm_status : UMessageBuilder → UCode → Result UMessageBuilder
  with_comm_status b code =
      if not (is_response b.attributes.type)
      then throw (domain_error "CommStatus can only be set on a response message")
      else if not (pb.ucode_is_valid code)
      then throw (out_of_range "UCode is out of range")
      else if not (is_ok_code code)
      then ok (record b { attributes = record (b.attributes) { commstatus = some code } })
      else ok b

  unfoldable pub set_payload_format : UMessageBuilder → ℤ → Result UMessageBuilder
  set_payload_format b format =
      if ltb_ℤ format pb.payload_format_min || ltb_ℤ pb.payload_format_max format
      then throw (out_of_range "Payload format value is out of range")
      else ok (record b {
        attributes = record (b.attributes) { payload_format = format };
        expected_payload_format = some format;
      })

  unfoldable pub with_payload_format : UMessageBuilder → ℤ → Result UMessageBuilder
  unfolding set_payload_format
  with_payload_format b format = set_payload_format b format

  unfoldable pub publish_builder : UUri → Result UMessageBuilder
  publish_builder topic =
      require_uri "Source URI is not a valid URI |  " (Uri.is_valid_publish_topic topic)
        (new_builder publish topic none none)

  unfoldable pub notification_builder : UUri → UUri → Result UMessageBuilder
  notification_builder source sink = do
    source' ←
        require_uri "Source URI is not a valid URI |  " (Uri.is_valid_notification_source source)
          source
    sink' ← require_uri "Sink URI is not a valid URI |  " (Uri.is_valid_notification_sink sink) sink
    ok (new_builder notification source' (some sink') none)

  unfoldable pub request_builder : UUri → UUri → ℤ → ℤ → Result UMessageBuilder
  request_builder method source priority ttl = do
    method' ←
        require_uri "Method URI is not a valid URI |  " (Uri.is_valid_rpc_method method) method
    source' ←
        require_uri "Source URI is not a valid URI |  " (Uri.is_valid_rpc_response source) source
    b ←
        (if is_bad_ttl ttl
          then throw (out_of_range "TTL value is out of range")
          else ok (new_builder request source' (some method') none))
    b' ← with_priority b priority
    with_ttl b' ttl

  -- The reading of the clock is `isUuid`'s.
  unfoldable pub response_builder : UUri → Uuid → ℤ → UUri → ℤ → Result UMessageBuilder
  response_builder sink request_id priority method time_checked = do
    method' ←
        require_uri "Method URI is not a valid URI |  " (Uri.is_valid_rpc_method method) method
    sink' ← require_uri "Source URI is not a valid URI |  " (Uri.is_valid_rpc_response sink) sink
    b ←
        (let (req_id_ok, req_id_reason) = is_uuid request_id time_checked in
          if not req_id_ok
          then throw (invalid_uuid "Request id is not a valid UUid | " req_id_reason)
          else ok (new_builder response method' (some sink') (some request_id)))
    with_priority b priority

  unfoldable pub response_to : UMessage → ℤ → Result UMessageBuilder
  unfolding response_builder
  response_to request_message time_checked =
      response_builder (source_of a) a.id a.priority (sink_of a) time_checked
    where
      open request_message use {attributes as a}

-- The attributes with a new ID.
abbrev pub stamped : UMessageBuilder → Entropy → UAttributes
stamped b system = record (b.attributes) { id = (Uuid.build b.uuid_builder system).0 }

-- build()
unfoldable pub build : UMessageBuilder → Entropy → Result UMessage
build b system =
    if has_value b.expected_payload_format
    then throw (
        unexpected_format
          "Tried to build with no payload when a payload format has been set using withPayloadFormat()")
    else ok (record { attributes = stamped b system; payload = none })

-- build(method)
unfoldable pub build_method : UMessageBuilder → UUri → Entropy → Result UMessage
build_method b method system =
    if has_value b.expected_payload_format
    then throw (
        unexpected_format
          "Tried to build with no payload when a payload format has been set using withPayloadFormat()")
    else ok
        (record { attributes = record (stamped b system) { sink = some method }; payload = none })

-- What follows `buildMove`: the comparison of the formats and the payload's place in the message.
unfoldable pub fill : Option ℤ → UAttributes → Result Serialized → Result UMessage
fill expected attributes serialized = do
  (payload_data, payload_format) ← serialized
  (if has_value expected && not (eq_ℤ payload_format (value_or expected (pos 0)))
      then throw (unexpected_format "Payload format does not match the expected format")
      else ok (record {
        attributes = record attributes { payload_format = payload_format };
        payload = some payload_data;
      }))

-- build(payload): the message, and the payload afterwards.
unfoldable pub build_payload : UMessageBuilder → Payload → Entropy → Result UMessage × Payload
unfolding fill
build_payload b payload system =
    let (serialized, left) = build_move payload in
    (fill b.expected_payload_format (stamped b system) serialized, left)

-- build(method, payload)
unfoldable pub build_method_payload :
    UMessageBuilder → UUri → Payload → Entropy → Result UMessage × Payload
unfolding fill
build_method_payload b method payload system =
    let (serialized, left) = build_move payload in
    (
      fill b.expected_payload_format (record (stamped b system) { sink = some method }) serialized,
      left,
    )
