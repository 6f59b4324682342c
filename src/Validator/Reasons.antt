-- ===== src/Validator/Reasons.antt =====
-- The reason codes of the three validators (include/up-cpp/datamodel/validator).
pub data UriReason : Type 0 where
  empty reserved_version reserved_resource disallowed_wildcard bad_resource_id : UriReason
  local_authority version_overflow resource_overflow authority_too_long : UriReason

pub data UuidReason : Type 0 where
  wrong_version unsupported_variant from_the_future expired : UuidReason

pub data MessageReason : Type 0 where
  bad_id id_expired priority_out_of_range payload_format_out_of_range : MessageReason
  bad_source_uri bad_sink_uri invalid_ttl disallowed_field_set reqid_mismatch : MessageReason
  priority_mismatch uri_mismatch unspecified_message_type invalid_message_type : MessageReason
  wrong_message_type : MessageReason
