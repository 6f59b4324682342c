-- ===== src/Validator/Uri/Filters.antt =====
-- Filters, emptiness, the check of any form, and the reasons, of src/datamodel/validator/UUri.cpp.
use up_cpp.Common.{
  ℕ, ◌≤◌, ◌≡◌, ◌↔◌, inl, inr, true, false, arith, length, Bool-cases, all_of, has_value, not, List,
  [], ◌∷◌, ◌≢◌, ap,
}
use up_cpp.Proto.{UUri}
use up_cpp.Validator.Uri.{
  ValidationResult, is_empty, is_space, uri_common_valid_checks, is_valid_filter,
  is_valid_rpc_method, is_valid_rpc_response, is_valid_default_entity, is_valid_publish_topic,
  is_valid_notification_source, is_valid_notification_sink, is_valid_subscription, is_valid,
}
use up_cpp.Validator.Uri.Forms.{
  IsOk, NoWildcards, verify_no_wildcards_sound, verify_no_wildcards_complete,
}

-- A URI passes the check for filters exactly when its version is 1 to 255, its resource ID fits 16
-- bits and its authority has at most 128 bytes: the check for emptiness rejects nothing more.
pub filter_iff :
    (u : UUri)
    → IsOk (is_valid_filter u) ↔ (
        (1 ≤ u.ue_version_major)
        × (u.ue_version_major ≤ 255)
        × (u.resource_id ≤ 0xffff)
        × (length u.authority_name ≤ 128))
unfolding is_valid_filter is_empty uri_common_valid_checks
filter_iff u = (
  λ e. ground arith,
  λ h. elim (Bool-cases (all_of is_space u.authority_name)) [
    | inl e ↦ rw e (ground arith)
    | inr e ↦ rw e (ground arith)
  ],
)

-- The deprecated check of any form accepts exactly the URIs without wildcards whose resource ID
-- fits 16 bits.
pub any_form_iff : (u : UUri) → IsOk (is_valid u) ↔ (NoWildcards u × (u.resource_id ≤ 0xffff))
unfolding is_valid is_valid_rpc_method is_valid_rpc_response is_valid_publish_topic
    is_valid_notification_source is_valid_notification_sink
any_form_iff u = (
  λ e. (verify_no_wildcards_sound u (ground arith), ground arith),
  λ h. rw (verify_no_wildcards_complete u h.0) (ground arith),
)

-- A result is coherent if a reason comes with a rejection and only then.
abbrev pub IsCoherent : ValidationResult → Type 0
IsCoherent r = r.0 ≡ not (has_value r.1)

-- Every URI check gives a reason with each rejection and none with an acceptance, so the reasons
-- that callers dereference after a rejection are present.
pub uri_reasons-IsCoherent :
    (u : UUri)
    → IsCoherent (is_valid_filter u)
      × IsCoherent (is_valid_rpc_method u)
      × IsCoherent (is_valid_rpc_response u)
      × IsCoherent (is_valid_default_entity u)
      × IsCoherent (is_valid_publish_topic u)
      × IsCoherent (is_valid_notification_source u)
      × IsCoherent (is_valid_notification_sink u)
      × IsCoherent (is_valid_subscription u)
      × IsCoherent (is_empty u)
      × IsCoherent (is_valid u)
unfolding is_valid_filter is_empty uri_common_valid_checks is_valid_rpc_method is_valid_rpc_response
    is_valid_default_entity is_valid_publish_topic is_valid_notification_source
    is_valid_notification_sink is_valid_subscription is_valid
uri_reasons-IsCoherent u = (
  ground arith,
  ground arith,
  ground arith,
  ground arith,
  ground arith,
  ground arith,
  ground arith,
  ground arith,
  ground arith,
  ground arith,
)

star_not_space : (xs : List ℕ) → all_of is_space xs ≡ true → xs ≢ b'*' ∷ []
unfolding is_space
star_not_space xs h e = cc (h, ap (all_of is_space) e)

empty_fields :
    (u : UUri) → IsOk (is_empty u) → NoWildcards u × (u.ue_version_major ≡ 0) × (u.resource_id ≡ 0)
unfolding is_empty
empty_fields u h = (
  record {
    authority = star_not_space u.authority_name (ground arith);
    service = ground arith;
    service_instance = ground arith;
    version = ground arith;
    resource = ground arith;
  },
  ground arith,
  ground arith,
)

-- A URI that the code calls empty, which the header files call blank, passes the checks for an RPC
-- response and a notification's sink and the check of any form, and fails the other checks.
pub empty_accepted :
    (u : UUri)
    → IsOk (is_empty u)
    → IsOk (is_valid_rpc_response u)
      × IsOk (is_valid_notification_sink u)
      × IsOk (is_valid u)
      × ((is_valid_filter u).0 ≡ false)
      × ((is_valid_rpc_method u).0 ≡ false)
      × ((is_valid_publish_topic u).0 ≡ false)
      × ((is_valid_subscription u).0 ≡ false)
unfolding is_valid_rpc_response is_valid_notification_sink is_valid is_valid_filter
    is_valid_rpc_method is_valid_publish_topic is_valid_subscription
empty_accepted u h =
    let (plain, version, resource) = empty_fields u h in
    let e = verify_no_wildcards_complete u plain in
    (
      ground (arith, e),
      ground (arith, e),
      ground (arith, e),
      ground (arith, h),
      ground (arith, e),
      ground (arith, e),
      ground arith,
    )
