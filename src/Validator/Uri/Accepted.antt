-- ===== src/Validator/Uri/Accepted.antt =====
-- The accepting half of each URI check, as a caller that ignores the reason tests it.
use up_cpp.Common.{◌≡◌, ◌↔◌, true, none, some, arith}
use up_cpp.Proto.{UUri}
use up_cpp.Validator.Uri.{
  ValidationResult, is_valid_rpc_method, is_valid_rpc_response, is_valid_publish_topic,
  is_valid_notification_source, is_valid_notification_sink,
}
use up_cpp.Validator.Uri.Forms.{IsOk, NoWildcards, IsMethodId, IsTopicId, forms_iff}
use up_cpp.Validator.Uri.Filters.{IsCoherent, uri_reasons-IsCoherent}

abbrev pub IsMethod : UUri → Type 0
IsMethod u = NoWildcards u × IsMethodId u

abbrev pub IsEntity : UUri → Type 0
IsEntity u = NoWildcards u × (u.resource_id ≡ 0)

abbrev pub IsTopic : UUri → Type 0
IsTopic u = NoWildcards u × IsTopicId u

pub IsOk-of_accepted : (r : ValidationResult) → IsCoherent r → r.0 ≡ true → IsOk r
IsOk-of_accepted (accepted, none) c e = ground arith
IsOk-of_accepted (accepted, some why) c e = cc

accepted_iff : {P : Type 0} (r : ValidationResult) → IsCoherent r → (IsOk r ↔ P) → (r.0 ≡ true) ↔ P
accepted_iff r c f = (λ e. f.0 (IsOk-of_accepted r c e), λ p. ground (arith, f.1 p))

module _ (u : UUri) where
  pub IsMethod-accepted : ((is_valid_rpc_method u).0 ≡ true) ↔ IsMethod u
  IsMethod-accepted = accepted_iff _ (uri_reasons-IsCoherent u).1 (forms_iff u).0

  pub response_accepted : ((is_valid_rpc_response u).0 ≡ true) ↔ IsEntity u
  response_accepted = accepted_iff _ (uri_reasons-IsCoherent u).2 (forms_iff u).1

  pub IsTopic-accepted : ((is_valid_publish_topic u).0 ≡ true) ↔ IsTopic u
  IsTopic-accepted = accepted_iff _ (uri_reasons-IsCoherent u).4 (forms_iff u).3

  pub notification_source_accepted : ((is_valid_notification_source u).0 ≡ true) ↔ IsTopic u
  notification_source_accepted = accepted_iff _ (uri_reasons-IsCoherent u).5 (forms_iff u).4

  pub notification_sink_accepted : ((is_valid_notification_sink u).0 ≡ true) ↔ IsEntity u
  notification_sink_accepted = accepted_iff _ (uri_reasons-IsCoherent u).6 (forms_iff u).5
