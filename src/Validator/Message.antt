-- ===== src/Validator/Message.antt =====
-- src/datamodel/validator/UMessage.cpp: which messages each message type allows. Every reading of
-- the clock that a check may make is a field of `Readings`.
pub mod Conditions
pub mod Kinds
pub mod Responses
pub mod Tests
use up_cpp.Common.{
  ◌%◌, ◌^◌, ℕ, String, Bool, true, false, not, ◌&&◌, ◌||◌, Option, none, some, ltb, ◌==◌,
  if◌then◌else◌, has_value, value_or,
}
use up_cpp.Common.Int.{ℤ, pos, ltb_ℤ, eq_ℤ}
use up_cpp.Proto.{
  UUri, Uuid, UMessageType, UAttributes, UMessage, Protobuf, default_uri, default_uuid, publish,
  request, response, notification, unspecified,
}
use up_cpp.Validator.Reasons.{
  MessageReason, bad_id, id_expired, priority_out_of_range, payload_format_out_of_range,
  bad_source_uri, bad_sink_uri, invalid_ttl, disallowed_field_set, reqid_mismatch,
  priority_mismatch, uri_mismatch, unspecified_message_type, invalid_message_type,
  wrong_message_type,
}
use up_cpp.Validator.Uri
use up_cpp.Validator.Uuid.{is_uuid, is_expired}

abbrev pub ValidationResult : Type 0
ValidationResult = Bool × Option MessageReason

-- When the checks of the ID and of the request ID read the clock: `isUuid` once, `isExpired` twice.
pub record Readings : Type 0 where
  pub id_checked : ℤ
  pub id_rechecked : ℤ
  pub id_aged : ℤ
  pub reqid_checked : ℤ
  pub reqid_rechecked : ℤ
  pub reqid_aged : ℤ

unfoldable pub message : MessageReason → String
message bad_id = "The ID does not pass UUID validity checks"
message id_expired = "The ID has expired (TTL has passed)"
message priority_out_of_range = "The Priority, if set, is not within the allowable range"
message payload_format_out_of_range = "The Payload Format is not within the allowable range"
message bad_source_uri = "Source URI did not pass validity checks"
message bad_sink_uri = "Sink URI did not pass validity checks"
message invalid_ttl = "TTL is set to an invalid value (e.g. 0)"
message disallowed_field_set = "A field was set that is not allowed for the validated mode"
message reqid_mismatch = "The Request ID did not match the ID of the request message"
message priority_mismatch = "The Priority did not match the Priority of the request message"
message uri_mismatch = "The source/sink URIs for the request/response pair have not been swapped"
message unspecified_message_type = "The message type was set to UNSPECIFIED"
message invalid_message_type = "The message type provided is not within the valid range"
message wrong_message_type = "The type set in the message is incorrect for the validated mode"

abbrev pub is_request : UMessageType → Bool
is_request request = true
is_request _ = false

abbrev pub is_response : UMessageType → Bool
is_response response = true
is_response _ = false

abbrev pub is_publish : UMessageType → Bool
is_publish publish = true
is_publish _ = false

abbrev pub is_notification : UMessageType → Bool
is_notification notification = true
is_notification _ = false

-- The generated accessors of the two message fields.
abbrev pub source_of : UAttributes → UUri
source_of a = value_or a.source default_uri

abbrev pub sink_of : UAttributes → UUri
sink_of a = value_or a.sink default_uri

abbrev pub reqid_of : UAttributes → Uuid
reqid_of a = value_or a.reqid default_uuid

-- `has_ttl() && ttl() > 0`, and the ID is past it. The field is a uint32.
unfoldable pub is_ttl_passed : Option ℕ → Uuid → ℤ → ℤ → Bool
is_ttl_passed ttl id rechecked aged =
    has_value ttl
    && ltb 0 (value_or ttl 0 % 2 ^ 32)
    && (is_expired id (pos (value_or ttl 0 % 2 ^ 32)) rechecked aged).0

module _ (pb : Protobuf) (now : Readings) where
  unfoldable pub are_common_attributes_valid : UMessage → ValidationResult
  are_common_attributes_valid umessage =
      if not (is_uuid a.id now.id_checked).0
      then (false, some bad_id)
      else if is_ttl_passed a.ttl a.id now.id_rechecked now.id_aged
      then (false, some id_expired)
      else if not (pb.priority_is_valid a.priority)
      then (false, some priority_out_of_range)
      else if not (pb.payload_format_is_valid a.payload_format)
      then (false, some payload_format_out_of_range)
      else (true, none)
    where
      open umessage use {attributes as a}

  unfoldable pub is_valid_rpc_request : UMessage → ValidationResult
  is_valid_rpc_request umessage =
      let (valid, reason) = are_common_attributes_valid umessage in
      if not valid
      then (false, reason)
      else if not (is_request a.type)
      then (false, some wrong_message_type)
      else if not (has_value a.source)
      then (false, some bad_source_uri)
      else if not (has_value a.sink)
      then (false, some bad_sink_uri)
      else if not (Uri.is_valid_rpc_response (source_of a)).0
      then (false, some bad_source_uri)
      else if not (Uri.is_valid_rpc_method (sink_of a)).0
      then (false, some bad_sink_uri)
      else if ltb_ℤ a.priority pb.priority_cs4
      then (false, some priority_out_of_range)
      else if not (has_value a.ttl) || (value_or a.ttl 0 == 0)
      then (false, some invalid_ttl)
      else if has_value a.commstatus
      then (false, some disallowed_field_set)
      else if has_value a.reqid
      then (false, some disallowed_field_set)
      else (true, none)
    where
      open umessage use {attributes as a}

  unfoldable pub is_valid_rpc_response : UMessage → ValidationResult
  is_valid_rpc_response umessage =
      let (valid, reason) = are_common_attributes_valid umessage in
      if not valid
      then (false, reason)
      else if not (is_response a.type)
      then (false, some wrong_message_type)
      else if not (has_value a.source)
      then (false, some bad_source_uri)
      else if not (has_value a.sink)
      then (false, some bad_sink_uri)
      else if not (Uri.is_valid_rpc_method (source_of a)).0
      then (false, some bad_source_uri)
      else if not (Uri.is_valid_rpc_response (sink_of a)).0
      then (false, some bad_sink_uri)
      else if not (has_value a.reqid)
      then (false, some reqid_mismatch)
      else if not (is_uuid (reqid_of a) now.reqid_checked).0
      then (false, some reqid_mismatch)
      else if is_ttl_passed a.ttl (reqid_of a) now.reqid_rechecked now.reqid_aged
      then (false, some id_expired)
      else if ltb_ℤ a.priority pb.priority_cs4
      then (false, some priority_out_of_range)
      else if has_value a.permission_level
      then (false, some disallowed_field_set)
      else if has_value a.token
      then (false, some disallowed_field_set)
      else (true, none)
    where
      open umessage use {attributes as a}

  unfoldable pub is_valid_rpc_response_for : UMessage → UMessage → ValidationResult
  is_valid_rpc_response_for request_message response_message =
      let (valid, reason) = is_valid_rpc_response response_message in
      if not valid
      then (false, reason)
      else if not (pb.uri_equals (source_of res) (sink_of req))
      then (false, some uri_mismatch)
      else if not (pb.uri_equals (sink_of res) (source_of req))
      then (false, some uri_mismatch)
      else if not (pb.uuid_equals (reqid_of res) req.id)
      then (false, some reqid_mismatch)
      else if not (eq_ℤ req.priority res.priority)
      then (false, some priority_mismatch)
      else (true, none)
    where
      open request_message use {attributes as req}
      open response_message use {attributes as res}

  unfoldable pub is_valid_publish : UMessage → ValidationResult
  is_valid_publish umessage =
      let (valid, reason) = are_common_attributes_valid umessage in
      if not valid
      then (false, reason)
      else if not (is_publish a.type)
      then (false, some wrong_message_type)
      else if not (has_value a.source)
      then (false, some bad_source_uri)
      else if not (Uri.is_valid_publish_topic (source_of a)).0
      then (false, some bad_source_uri)
      else if has_value a.sink
      then (false, some disallowed_field_set)
      else if has_value a.commstatus
      then (false, some disallowed_field_set)
      else if has_value a.reqid
      then (false, some disallowed_field_set)
      else if has_value a.permission_level
      then (false, some disallowed_field_set)
      else if has_value a.token
      then (false, some disallowed_field_set)
      else (true, none)
    where
      open umessage use {attributes as a}

  unfoldable pub is_valid_notification : UMessage → ValidationResult
  is_valid_notification umessage =
      let (valid, reason) = are_common_attributes_valid umessage in
      if not valid
      then (false, reason)
      else if not (is_notification a.type)
      then (false, some wrong_message_type)
      else if not (has_value a.source)
      then (false, some bad_source_uri)
      else if not (has_value a.sink)
      then (false, some bad_sink_uri)
      else if not (Uri.is_valid_notification_source (source_of a)).0
      then (false, some bad_source_uri)
      else if not (Uri.is_valid_notification_sink (sink_of a)).0
      then (false, some bad_sink_uri)
      else if has_value a.commstatus
      then (false, some disallowed_field_set)
      else if has_value a.reqid
      then (false, some disallowed_field_set)
      else if has_value a.permission_level
      then (false, some disallowed_field_set)
      else if has_value a.token
      then (false, some disallowed_field_set)
      else (true, none)
    where
      open umessage use {attributes as a}

  unfoldable pub is_valid : UMessage → ValidationResult
  is_valid umessage = elim umessage.attributes.type [
    | request ↦ is_valid_rpc_request umessage
    | response ↦ is_valid_rpc_response umessage
    | publish ↦ is_valid_publish umessage
    | notification ↦ is_valid_notification umessage
    | unspecified ↦ (false, some unspecified_message_type)
    | _ ↦ (false, some invalid_message_type)
  ]
