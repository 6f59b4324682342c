-- ===== src/Validator/Message/Kinds.antt =====
-- What the message checks of src/datamodel/validator/UMessage.cpp accept, type by type.
pub use up_cpp.Validator.Message.Conditions.{
  IsOk, IsFresh, Holds, ValidCommon, ValidRequest, ValidResponse, ValidPublish, ValidNotification,
}
use up_cpp.Validator.Message.Conditions.{holds_iff, ttl_set_iff, common_iff, is_ttl_passed_iff}
use up_cpp.Common.{
  ℕ, ◌≡◌, ◌↔◌, ◌⊎◌, inl, inr, refl, true, false, Option, none, some, arith, has_value, value_or,
  ◌∙◌, sym,
}
use mathlib.Core.Path.{subst}
use up_cpp.Common.Int.{not_ltb_ℤ_iff}
use up_cpp.Proto.{
  Uuid, UMessageType, UMessage, Protobuf, publish, request, response, notification, unspecified,
  default_uri, default_uuid,
}
use up_cpp.Validator.Uri
use up_cpp.Validator.Uri.Accepted.{
  IsEntity, IsTopic, IsMethod-accepted, response_accepted, IsTopic-accepted,
  notification_source_accepted, notification_sink_accepted,
}
use up_cpp.Validator.Uuid.{is_uuid}
use up_cpp.Validator.Message.{
  Readings, is_ttl_passed, is_valid_rpc_request, is_valid_rpc_response, is_valid_publish,
  is_valid_notification, is_valid,
}

module _ (pb : Protobuf) (now : Readings) where
  request_iff :
      (m : UMessage) → IsOk (is_valid_rpc_request pb now m) ↔ ValidRequest pb now m.attributes
  unfolding is_valid_rpc_request
  request_iff m = (
    λ e. record {
      common = (common_iff pb now m).0 (ground arith);
      type = ground arith;
      source = (holds_iff a.source Uri.is_valid_rpc_response response_accepted).0 (ground arith);
      sink = (holds_iff a.sink Uri.is_valid_rpc_method IsMethod-accepted).0 (ground arith);
      priority = (not_ltb_ℤ_iff a.priority pb.priority_cs4).0 (ground arith);
      ttl = (ttl_set_iff a.ttl).0 (ground arith);
      commstatus = ground arith;
      reqid = ground arith;
    },
    λ v. ground (
      arith,
      (common_iff pb now m).1 v.common,
      (holds_iff a.source Uri.is_valid_rpc_response response_accepted).1 v.source,
      (holds_iff a.sink Uri.is_valid_rpc_method IsMethod-accepted).1 v.sink,
      (not_ltb_ℤ_iff a.priority pb.priority_cs4).1 v.priority,
      (ttl_set_iff a.ttl).1 v.ttl,
    ),
  )
    where
      open m use {attributes as a}

  reqid_iff :
      (reqid : Option Uuid) (ttl : Option ℕ)
      → ((has_value reqid ≡ true)
          × ((is_uuid (value_or reqid default_uuid) now.reqid_checked).0 ≡ true)
          × (is_ttl_passed ttl (value_or reqid default_uuid) now.reqid_rechecked now.reqid_aged
              ≡ false))
        ↔ ((r : Uuid) × (reqid ≡ some r)
            × ((is_uuid r now.reqid_checked).0 ≡ true)
            × IsFresh r now.reqid_rechecked now.reqid_aged ttl)
  reqid_iff none ttl = (λ e. cc (e.0), λ h. cc (h.1))
  reqid_iff (some r) ttl = (
    λ e. (r, refl, e.1, (is_ttl_passed_iff ttl r now.reqid_rechecked now.reqid_aged).0 e.2),
    λ h.
        let e : h.0 ≡ r = cc in
        (
          refl,
          subst (λ x. (is_uuid x now.reqid_checked).0 ≡ true) e h.2,
          (is_ttl_passed_iff ttl r now.reqid_rechecked now.reqid_aged).1
              (subst (λ x. IsFresh x now.reqid_rechecked now.reqid_aged ttl) e h.3),
        ),
  )

  response_iff :
      (m : UMessage) → IsOk (is_valid_rpc_response pb now m) ↔ ValidResponse pb now m.attributes
  unfolding is_valid_rpc_response
  response_iff m = (
    λ e. record {
      common = (common_iff pb now m).0 (ground arith);
      type = ground arith;
      source = (holds_iff a.source Uri.is_valid_rpc_method IsMethod-accepted).0 (ground arith);
      sink = (holds_iff a.sink Uri.is_valid_rpc_response response_accepted).0 (ground arith);
      priority = (not_ltb_ℤ_iff a.priority pb.priority_cs4).0 (ground arith);
      reqid = (reqid_iff a.reqid a.ttl).0 (ground arith);
      permission_level = ground arith;
      token = ground arith;
    },
    λ v. ground (
      arith,
      (common_iff pb now m).1 v.common,
      (holds_iff a.source Uri.is_valid_rpc_method IsMethod-accepted).1 v.source,
      (holds_iff a.sink Uri.is_valid_rpc_response response_accepted).1 v.sink,
      (not_ltb_ℤ_iff a.priority pb.priority_cs4).1 v.priority,
      (reqid_iff a.reqid a.ttl).1 v.reqid,
    ),
  )
    where
      open m use {attributes as a}

  publish_iff : (m : UMessage) → IsOk (is_valid_publish pb now m) ↔ ValidPublish pb now m.attributes
  unfolding is_valid_publish
  publish_iff m = (
    λ e. record {
      common = (common_iff pb now m).0 (ground arith);
      type = ground arith;
      source = (holds_iff a.source Uri.is_valid_publish_topic IsTopic-accepted).0 (ground arith);
      sink = ground arith;
      commstatus = ground arith;
      reqid = ground arith;
      permission_level = ground arith;
      token = ground arith;
    },
    λ v. ground (
      arith,
      (common_iff pb now m).1 v.common,
      (holds_iff a.source Uri.is_valid_publish_topic IsTopic-accepted).1 v.source,
    ),
  )
    where
      open m use {attributes as a}

  notification_iff :
      (m : UMessage) → IsOk (is_valid_notification pb now m) ↔ ValidNotification pb now m.attributes
  unfolding is_valid_notification
  notification_iff m = (
    λ e. record {
      common = (common_iff pb now m).0 (ground arith);
      type = ground arith;
      source = sources.0 (ground arith);
      sink = sinks.0 (ground arith);
      commstatus = ground arith;
      reqid = ground arith;
      permission_level = ground arith;
      token = ground arith;
    },
    λ v. ground (arith, (common_iff pb now m).1 v.common, sources.1 v.source, sinks.1 v.sink),
  )
    where
      open m use {attributes as a}

      sources :
          ((has_value a.source ≡ true)
            × ((Uri.is_valid_notification_source (value_or a.source default_uri)).0 ≡ true))
          ↔ Holds a.source IsTopic
      sources = holds_iff a.source Uri.is_valid_notification_source notification_source_accepted

      sinks :
          ((has_value a.sink ≡ true)
            × ((Uri.is_valid_notification_sink (value_or a.sink default_uri)).0 ≡ true))
          ↔ Holds a.sink IsEntity
      sinks = holds_iff a.sink Uri.is_valid_notification_sink notification_sink_accepted

  -- A message passes the check for its type exactly when it meets that type's conditions: each of
  -- the four checks, of a request, a response, a publication and a notification, accepts just the
  -- messages that have the type, the set and unset fields, the URI forms, the priority and the
  -- unexpired IDs of the type.
  pub kinds_iff :
      (m : UMessage)
      → (IsOk (is_valid_rpc_request pb now m) ↔ ValidRequest pb now m.attributes)
        × (IsOk (is_valid_rpc_response pb now m) ↔ ValidResponse pb now m.attributes)
        × (IsOk (is_valid_publish pb now m) ↔ ValidPublish pb now m.attributes)
        × (IsOk (is_valid_notification pb now m) ↔ ValidNotification pb now m.attributes)
  kinds_iff m = (request_iff m, response_iff m, publish_iff m, notification_iff m)

  -- The check that `isValid` hands a message to.
  pub is_valid_of_type :
      (m : UMessage)
      → (m.attributes.type ≡ request → is_valid pb now m ≡ is_valid_rpc_request pb now m)
        × (m.attributes.type ≡ response → is_valid pb now m ≡ is_valid_rpc_response pb now m)
        × (m.attributes.type ≡ publish → is_valid pb now m ≡ is_valid_publish pb now m)
        × (m.attributes.type ≡ notification → is_valid pb now m ≡ is_valid_notification pb now m)
  unfolding is_valid
  is_valid_of_type m = (λ e. rw e refl, λ e. rw e refl, λ e. rw e refl, λ e. rw e refl)

  accepted_kind :
      (m : UMessage) (t : UMessageType)
      → m.attributes.type ≡ t
      → IsOk (is_valid pb now m)
      → ValidRequest pb now m.attributes
        ⊎ (ValidResponse pb now m.attributes
            ⊎ (ValidPublish pb now m.attributes ⊎ ValidNotification pb now m.attributes))
  unfolding is_valid
  accepted_kind m request e h = inl ((request_iff m).0 (sym ((is_valid_of_type m).0 e) ∙ h))
  accepted_kind m response e h = inr (inl ((response_iff m).0 (sym ((is_valid_of_type m).1 e) ∙ h)))
  accepted_kind m publish e h =
      inr (inr (inl ((publish_iff m).0 (sym ((is_valid_of_type m).2 e) ∙ h))))
  accepted_kind m notification e h =
      inr (inr (inr ((notification_iff m).0 (sym ((is_valid_of_type m).3 e) ∙ h))))
  accepted_kind m unspecified e h = ground arith
  accepted_kind m (UMessageType.other n) e h = ground arith

  -- `isValid` accepts a message exactly when the message meets the conditions of one of the four
  -- types.
  pub is_valid_iff :
      (m : UMessage)
      → IsOk (is_valid pb now m) ↔ (
          ValidRequest pb now m.attributes
          ⊎ (ValidResponse pb now m.attributes
              ⊎ (ValidPublish pb now m.attributes ⊎ ValidNotification pb now m.attributes)))
  is_valid_iff m = (
    accepted_kind m m.attributes.type refl,
    elim [
      | inl v ↦ (is_valid_of_type m).0 v.type ∙ (request_iff m).1 v
      | inr (inl v) ↦ (is_valid_of_type m).1 v.type ∙ (response_iff m).1 v
      | inr (inr (inl v)) ↦ (is_valid_of_type m).2 v.type ∙ (publish_iff m).1 v
      | inr (inr (inr v)) ↦ (is_valid_of_type m).3 v.type ∙ (notification_iff m).1 v
    ],
  )
