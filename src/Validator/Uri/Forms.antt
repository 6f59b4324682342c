-- ===== src/Validator/Uri/Forms.antt =====
-- What the URI checks of src/datamodel/validator/UUri.cpp decide, stated without the code's tests.
use up_cpp.Common.{
  ◌/◌, ◌%◌, ◌^◌, ◌≤◌, ◌<◌, ◌≡◌, ◌≢◌, ◌↔◌, true, none, [], ◌∷◌, arith, eq_bytes, eq_bytes_eq,
}
use up_cpp.Proto.{UUri}
use up_cpp.Validator.Uri.{
  ValidationResult, has_wildcard_authority, has_wildcard_service_id,
  has_wildcard_service_instance_id, has_wildcard_version, has_wildcard_resource_id,
  verify_no_wildcards, is_local, is_valid_rpc_method, is_valid_rpc_response,
  is_valid_default_entity, is_valid_publish_topic, is_valid_notification_source,
  is_valid_notification_sink, is_valid_subscription,
}

abbrev pub IsOk : ValidationResult → Type 0
IsOk r = r ≡ (true, none)

-- No field is a wildcard: the authority is not "*", neither half of the uE ID, nor the version nor
-- the resource ID has all its bits set.
pub record NoWildcards (u : UUri) : Type 0 where
  pub authority : u.authority_name ≢ b'*' ∷ []
  pub service : u.ue_id % 2 ^ 16 ≢ 0xffff
  pub service_instance : u.ue_id / 2 ^ 16 % 2 ^ 16 ≢ 0xffff
  pub version : u.ue_version_major ≢ 0xff
  pub resource : u.resource_id ≢ 0xffff

has_wildcard_authority_iff :
    (u : UUri) → (has_wildcard_authority u ≡ true) ↔ (u.authority_name ≡ b'*' ∷ [])
unfolding has_wildcard_authority eq_bytes
has_wildcard_authority_iff u = (eq_bytes_eq u.authority_name (b'*' ∷ []), λ e. ground (arith, e))

pub verify_no_wildcards_sound : (u : UUri) → verify_no_wildcards u ≡ true → NoWildcards u
unfolding verify_no_wildcards has_wildcard_service_id has_wildcard_service_instance_id
    has_wildcard_version has_wildcard_resource_id
verify_no_wildcards_sound u h = ground (arith, has_wildcard_authority_iff u)

pub verify_no_wildcards_complete : (u : UUri) → NoWildcards u → verify_no_wildcards u ≡ true
unfolding verify_no_wildcards has_wildcard_service_id has_wildcard_service_instance_id
    has_wildcard_version has_wildcard_resource_id
verify_no_wildcards_complete u h =
    ground (arith, has_wildcard_authority_iff u, h.authority, h.service, h.service_instance)

pub verify_no_wildcards_iff : (u : UUri) → (verify_no_wildcards u ≡ true) ↔ NoWildcards u
verify_no_wildcards_iff u = (verify_no_wildcards_sound u, verify_no_wildcards_complete u)

-- The resource ID's range for each kind of URI that a message names.
abbrev pub IsMethodId : UUri → Type 0
IsMethodId u = (1 ≤ u.resource_id) × (u.resource_id < 0x8000)

abbrev pub IsTopicId : UUri → Type 0
IsTopicId u = (0x8000 ≤ u.resource_id) × (u.resource_id ≤ 0xffff)

method_iff : (u : UUri) → IsOk (is_valid_rpc_method u) ↔ (NoWildcards u × IsMethodId u)
unfolding is_valid_rpc_method
method_iff u = (
  λ e. (verify_no_wildcards_sound u (ground arith), ground arith),
  λ h. rw (verify_no_wildcards_complete u h.0) (ground arith),
)

response_iff : (u : UUri) → IsOk (is_valid_rpc_response u) ↔ (NoWildcards u × (u.resource_id ≡ 0))
unfolding is_valid_rpc_response
response_iff u = (
  λ e. (verify_no_wildcards_sound u (ground arith), ground arith),
  λ h. rw (verify_no_wildcards_complete u h.0) (ground arith),
)

topic_iff : (u : UUri) → IsOk (is_valid_publish_topic u) ↔ (NoWildcards u × IsTopicId u)
unfolding is_valid_publish_topic
topic_iff u = (
  λ e. (verify_no_wildcards_sound u (ground arith), ground arith),
  λ h. rw (verify_no_wildcards_complete u h.0) (ground arith),
)

notification_source_iff :
    (u : UUri) → IsOk (is_valid_notification_source u) ↔ (NoWildcards u × IsTopicId u)
unfolding is_valid_notification_source
notification_source_iff u = (
  λ e. (verify_no_wildcards_sound u (ground arith), ground arith),
  λ h. rw (verify_no_wildcards_complete u h.0) (ground arith),
)

notification_sink_iff :
    (u : UUri) → IsOk (is_valid_notification_sink u) ↔ (NoWildcards u × (u.resource_id ≡ 0))
unfolding is_valid_notification_sink
notification_sink_iff u = (
  λ e. (verify_no_wildcards_sound u (ground arith), ground arith),
  λ h. rw (verify_no_wildcards_complete u h.0) (ground arith),
)

default_entity_iff :
    (u : UUri)
    → IsOk (is_valid_default_entity u)
      ↔ ((u.authority_name ≢ []) × NoWildcards u × (u.resource_id ≡ 0))
unfolding is_valid_default_entity is_local
default_entity_iff u = (
  λ e. let h = (response_iff u).0 (ground arith) in (ground arith, h.0, h.1),
  λ h. let e = (response_iff u).1 (h.1, h.2) in ground (arith, e),
)

subscription_iff : (u : UUri) → IsOk (is_valid_subscription u) ↔ IsTopicId u
unfolding is_valid_subscription
subscription_iff u = ground arith

-- Each check of a URI's form accepts exactly the URIs without wildcards whose resource ID is in
-- the form's range: 1 to 0x7FFF for a method, 0 for a response and a notification's sink, 0x8000
-- to 0xFFFF for a topic and a notification's source. A transport's entity also needs an authority,
-- and a subscription may hold wildcards. So a blank URI passes as a response and as a notification's
-- sink, which UUri.h documents as not to be blank.
pub forms_iff :
    (u : UUri)
    → (IsOk (is_valid_rpc_method u) ↔ (NoWildcards u × IsMethodId u))
      × (IsOk (is_valid_rpc_response u) ↔ (NoWildcards u × (u.resource_id ≡ 0)))
      × (IsOk (is_valid_default_entity u)
          ↔ ((u.authority_name ≢ []) × NoWildcards u × (u.resource_id ≡ 0)))
      × (IsOk (is_valid_publish_topic u) ↔ (NoWildcards u × IsTopicId u))
      × (IsOk (is_valid_notification_source u) ↔ (NoWildcards u × IsTopicId u))
      × (IsOk (is_valid_notification_sink u) ↔ (NoWildcards u × (u.resource_id ≡ 0)))
      × (IsOk (is_valid_subscription u) ↔ IsTopicId u)
forms_iff u = (
  method_iff u,
  response_iff u,
  default_entity_iff u,
  topic_iff u,
  notification_source_iff u,
  notification_sink_iff u,
  subscription_iff u,
)
