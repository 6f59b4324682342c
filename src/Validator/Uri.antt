-- ===== src/Validator/Uri.antt =====
-- src/datamodel/validator/UUri.cpp: which URIs serve as a filter, an RPC method, an RPC response, a
-- topic, a notification's ends, a subscription or a transport's entity.
pub mod Forms
pub mod Filters
pub mod Accepted
pub mod Tests
use up_cpp.Common.{
  ℕ, ◌/◌, ◌%◌, ◌*◌, ◌^◌, String, Bool, true, false, not, ◌&&◌, ◌||◌, Option, none, some, List, [],
  ◌∷◌, ltb, leb, ◌==◌, if◌then◌else◌, length, all_of, eq_bytes,
}
use up_cpp.Proto.{UUri}
use up_cpp.Validator.Reasons.{
  UriReason, empty, reserved_version, reserved_resource, disallowed_wildcard, bad_resource_id,
  local_authority, version_overflow, resource_overflow, authority_too_long,
}

abbrev pub ValidationResult : Type 0
ValidationResult = Bool × Option UriReason

abbrev pub authority_spec_max_length : ℕ
authority_spec_max_length = 128

abbrev pub start_of_topics : ℕ
start_of_topics = 0x8000

abbrev pub max_resource_id : ℕ
max_resource_id = 0xffff

pub uri_common_valid_checks : UUri → ValidationResult
uri_common_valid_checks uuri =
    if uuri.ue_version_major == 0
    then (false, some reserved_version)
    else if ltb 0xff uuri.ue_version_major
    then (false, some version_overflow)
    else if ltb 0xffff uuri.resource_id
    then (false, some resource_overflow)
    else if ltb authority_spec_max_length (length uuri.authority_name)
    then (false, some authority_too_long)
    else (true, none)

unfoldable pub message : UriReason → String
message empty = "The URI authority_name is empty or whitespace."
message reserved_version = "The version is 0 (reserved)."
message reserved_resource = "The resource is 0 for non-RPC-response URIs."
message disallowed_wildcard =
    "The URI contains a wildcard in one or more fields that is not allowed for this form."
message bad_resource_id = "The resource ID is not in the allowed range for this URI form."
message local_authority = "Local (blank) authority names are not allowed here."
message version_overflow = "uE Major Version is greater than uint8 max"
message resource_overflow = "Resource ID is greater than uint16 max"
message authority_too_long = "Authority is longer than 128 characters (spec max length)"

-- "*"
abbrev pub wildcard_authority : List ℕ
wildcard_authority = b'*' ∷ []

unfoldable pub has_wildcard_authority : UUri → Bool
has_wildcard_authority uuri = eq_bytes uuri.authority_name wildcard_authority

-- `ue_id & 0xFFFF`
unfoldable pub has_wildcard_service_id : UUri → Bool
has_wildcard_service_id uuri = uuri.ue_id % 2 ^ 16 == 0xffff

-- `ue_id & 0xFFFF0000`
unfoldable pub has_wildcard_service_instance_id : UUri → Bool
has_wildcard_service_instance_id uuri = uuri.ue_id / 2 ^ 16 % 2 ^ 16 * 2 ^ 16 == 0xffff_0000

unfoldable pub has_wildcard_version : UUri → Bool
has_wildcard_version uuri = uuri.ue_version_major == 0xff

unfoldable pub has_wildcard_resource_id : UUri → Bool
has_wildcard_resource_id uuri = uuri.resource_id == 0xffff

unfoldable pub verify_no_wildcards : UUri → Bool
unfolding has_wildcard_authority has_wildcard_service_id has_wildcard_service_instance_id
    has_wildcard_version has_wildcard_resource_id eq_bytes
verify_no_wildcards uuri =
    not (has_wildcard_authority uuri)
    && not (has_wildcard_service_id uuri)
    && not (has_wildcard_service_instance_id uuri)
    && not (has_wildcard_version uuri)
    && not (has_wildcard_resource_id uuri)

-- The C locale's `isspace`.
unfoldable pub is_space : ℕ → Bool
is_space c = (leb 9 c && leb c 13) || (c == 32)

unfoldable pub is_empty : UUri → ValidationResult
unfolding is_space
is_empty uuri =
    if not (all_of is_space uuri.authority_name)
    then (false, some empty)
    else if not (uuri.ue_id == 0)
    then (false, some reserved_resource)
    else if not (uuri.ue_version_major == 0)
    then (false, some reserved_version)
    else if not (uuri.resource_id == 0)
    then (false, some bad_resource_id)
    else (true, none)

unfoldable pub is_local : UUri → Bool
is_local uuri = elim uuri.authority_name [ [] ↦ true | _ ↦ false ]

unfoldable pub is_valid_filter : UUri → ValidationResult
unfolding is_empty uri_common_valid_checks
is_valid_filter uuri =
    let (is_empty_uri, empty_reason) = is_empty uuri in
    let (common_valid, common_fail_reason) = uri_common_valid_checks uuri in
    if is_empty_uri
    then (false, some empty)
    else if not common_valid
    then (common_valid, common_fail_reason)
    else (true, none)

unfoldable pub is_valid_rpc_method : UUri → ValidationResult
is_valid_rpc_method uuri =
    if not (verify_no_wildcards uuri)
    then (false, some disallowed_wildcard)
    else if (uuri.resource_id == 0) || leb start_of_topics uuri.resource_id
    then (false, some bad_resource_id)
    else (true, none)

unfoldable pub is_valid_rpc_response : UUri → ValidationResult
is_valid_rpc_response uuri =
    if not (verify_no_wildcards uuri)
    then (false, some disallowed_wildcard)
    else if not (uuri.resource_id == 0)
    then (false, some bad_resource_id)
    else (true, none)

unfoldable pub is_valid_default_entity : UUri → ValidationResult
unfolding is_local is_valid_rpc_response
is_valid_default_entity uuri =
    if is_local uuri then (false, some local_authority) else is_valid_rpc_response uuri

unfoldable pub is_valid_default_source : UUri → ValidationResult
unfolding is_valid_default_entity
is_valid_default_source uuri = is_valid_default_entity uuri

unfoldable pub is_valid_publish_topic : UUri → ValidationResult
is_valid_publish_topic uuri =
    if not (verify_no_wildcards uuri)
    then (false, some disallowed_wildcard)
    else if ltb uuri.resource_id start_of_topics || ltb max_resource_id uuri.resource_id
    then (false, some bad_resource_id)
    else (true, none)

unfoldable pub is_valid_notification_source : UUri → ValidationResult
is_valid_notification_source uuri =
    if not (verify_no_wildcards uuri)
    then (false, some disallowed_wildcard)
    else if ltb uuri.resource_id start_of_topics || ltb max_resource_id uuri.resource_id
    then (false, some bad_resource_id)
    else (true, none)

unfoldable pub is_valid_notification_sink : UUri → ValidationResult
is_valid_notification_sink uuri =
    if not (verify_no_wildcards uuri)
    then (false, some disallowed_wildcard)
    else if not (uuri.resource_id == 0)
    then (false, some bad_resource_id)
    else (true, none)

unfoldable pub is_valid_subscription : UUri → ValidationResult
is_valid_subscription uuri =
    if ltb uuri.resource_id start_of_topics || ltb max_resource_id uuri.resource_id
    then (false, some bad_resource_id)
    else (true, none)

unfoldable pub is_valid : UUri → ValidationResult
unfolding is_valid_rpc_method is_valid_rpc_response is_valid_publish_topic
    is_valid_notification_source is_valid_notification_sink
is_valid uuri =
    if (is_valid_rpc_method uuri).0
    then (true, none)
    else if (is_valid_rpc_response uuri).0
    then (true, none)
    else if (is_valid_publish_topic uuri).0
    then (true, none)
    else if (is_valid_notification_source uuri).0
    then (true, none)
    else is_valid_notification_sink uuri
