-- ===== src/Validator/Message/Responses.antt =====
-- When src/datamodel/validator/UMessage.cpp takes a response for the answer to a request, and the
-- reasons that its checks give.
use up_cpp.Common.{◌≡◌, ◌↔◌, sym, true, not, none, some, arith, has_value}
use up_cpp.Common.Int.{eq_ℤ_iff}
use up_cpp.Proto.{UMessage, Protobuf, IsDocumented}
use up_cpp.Validator.Message.{
  ValidationResult, Readings, source_of, sink_of, reqid_of, are_common_attributes_valid,
  is_valid_rpc_request, is_valid_rpc_response, is_valid_rpc_response_for, is_valid_publish,
  is_valid_notification, is_valid,
}
use up_cpp.Validator.Message.Kinds.{IsOk, ValidResponse, kinds_iff}

pub IsOk-of_accepted : (r : ValidationResult) → r.0 ≡ not (has_value r.1) → r.0 ≡ true → IsOk r
IsOk-of_accepted (accepted, none) c e = ground arith
IsOk-of_accepted (accepted, some why) c e = cc

module _ (pb : Protobuf) (now : Readings) where
  abbrev pub IsCoherent : ValidationResult → Type 0
  IsCoherent r = r.0 ≡ not (has_value r.1)

  common-IsCoherent : (m : UMessage) → IsCoherent (are_common_attributes_valid pb now m)
  unfolding are_common_attributes_valid
  common-IsCoherent m = ground arith

  request-IsCoherent : (m : UMessage) → IsCoherent (is_valid_rpc_request pb now m)
  unfolding is_valid_rpc_request
  request-IsCoherent m = ground (arith, common-IsCoherent m)

  response-IsCoherent : (m : UMessage) → IsCoherent (is_valid_rpc_response pb now m)
  unfolding is_valid_rpc_response
  response-IsCoherent m = ground (arith, common-IsCoherent m)

  response_for-IsCoherent : (q m : UMessage) → IsCoherent (is_valid_rpc_response_for pb now q m)
  unfolding is_valid_rpc_response_for
  response_for-IsCoherent q m = ground (arith, response-IsCoherent m)

  publish-IsCoherent : (m : UMessage) → IsCoherent (is_valid_publish pb now m)
  unfolding is_valid_publish
  publish-IsCoherent m = ground (arith, common-IsCoherent m)

  notification-IsCoherent : (m : UMessage) → IsCoherent (is_valid_notification pb now m)
  unfolding is_valid_notification
  notification-IsCoherent m = ground (arith, common-IsCoherent m)

  valid-IsCoherent : (m : UMessage) → IsCoherent (is_valid pb now m)
  unfolding is_valid
  valid-IsCoherent m = ground (
    arith,
    request-IsCoherent m,
    response-IsCoherent m,
    publish-IsCoherent m,
    notification-IsCoherent m,
  )

  -- Every message check gives a reason with each rejection and none with an acceptance, so the
  -- reasons that callers dereference after a rejection are present.
  pub message_reasons-IsCoherent :
      (m req : UMessage)
      → IsCoherent (are_common_attributes_valid pb now m)
        × IsCoherent (is_valid_rpc_request pb now m)
        × IsCoherent (is_valid_rpc_response pb now m)
        × IsCoherent (is_valid_rpc_response_for pb now req m)
        × IsCoherent (is_valid_publish pb now m)
        × IsCoherent (is_valid_notification pb now m)
        × IsCoherent (is_valid pb now m)
  message_reasons-IsCoherent m req = (
    common-IsCoherent m,
    request-IsCoherent m,
    response-IsCoherent m,
    response_for-IsCoherent req m,
    publish-IsCoherent m,
    notification-IsCoherent m,
    valid-IsCoherent m,
  )

  -- A message is taken for the response to a request exactly when it is a valid response, its
  -- source and sink are the request's sink and source, its request ID is the request's ID and its
  -- priority is the request's. The generated comparisons compare by value.
  pub response_for_iff :
      IsDocumented pb
      → (req res : UMessage)
      → IsOk (is_valid_rpc_response_for pb now req res) ↔ (
          ValidResponse pb now res.attributes
          × (source_of res.attributes ≡ sink_of req.attributes)
          × (sink_of res.attributes ≡ source_of req.attributes)
          × (reqid_of res.attributes ≡ req.attributes.id)
          × (res.attributes.priority ≡ req.attributes.priority))
  unfolding is_valid_rpc_response_for
  response_for_iff doc req res = (
    λ e. (
      (kinds_iff pb now res).1.0 (
          IsOk-of_accepted (is_valid_rpc_response pb now res) (response-IsCoherent res)
            (ground arith)),
      (doc.uri_equals_iff _ _).0 (ground arith),
      (doc.uri_equals_iff _ _).0 (ground arith),
      (doc.uuid_equals_iff _ _).0 (ground arith),
      sym ((eq_ℤ_iff req.attributes.priority res.attributes.priority).0 (ground arith)),
    ),
    λ h. ground (
      arith,
      (kinds_iff pb now res).1.1 h.0,
      (doc.uri_equals_iff _ _).1 h.1,
      (doc.uri_equals_iff _ _).1 h.2,
      (doc.uuid_equals_iff _ _).1 h.3,
      (eq_ℤ_iff req.attributes.priority res.attributes.priority).1 (sym h.4),
    ),
  )
