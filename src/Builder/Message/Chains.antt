-- ===== src/Builder/Message/Chains.antt =====
-- A chain of calls on a builder of src/datamodel/builder/UMessage.cpp: a factory, any setters, and
-- `build` with or without a payload.
use up_cpp.Common.{ℕ, ◌≡◌, ap, ◌∙◌, ◌⊎◌, inl, inr, true, Option, List, arith}
use up_cpp.Common.Int.{ℤ}
use up_cpp.Common.Outcome.{ok}
use up_cpp.Proto.{UUri, Uuid, UMessage, Protobuf, IsDocumented}
use up_cpp.Exception.{Result}
use up_cpp.Validator.Uuid.{is_uuid}
use up_cpp.Validator.Message.{Readings, is_valid}
use up_cpp.Validator.Message.Kinds.{IsOk, IsFresh, is_valid_iff}
use up_cpp.Builder.Uuid.{UuidBuilder, Entropy, get_builder}
use up_cpp.Builder.Uuid
use up_cpp.Builder.Payload.{Payload, build_move}
use up_cpp.Builder.Message.{
  UMessageBuilder, publish_builder, notification_builder, request_builder, response_builder, build,
  build_payload, stamped,
}
use up_cpp.Builder.Message.Setters.{Setter, apply_all, Frame, apply_all-Frame}
use up_cpp.Builder.Message.Validity.{
  SoundCommon, SoundPublish, SoundNotification, SoundRequest, SoundResponse, publish_kept,
  notification_kept, request_kept, response_kept,
}
use up_cpp.Builder.Message.Factories.{
  publish_builder-Sound, notification_builder-Sound, request_builder-Sound, response_builder-Sound,
}
use up_cpp.Builder.Message.Built.{
  IsPrompt, finished, publish_valid, notification_valid, request_valid, response_valid,
}

-- A call of one of the four factories, with its arguments; the last one reads the clock.
pub data Factory : Type 0 where
  publishes : (topic : UUri) → Factory
  notifies : (source sink : UUri) → Factory
  requests : (method source : UUri) (priority ttl : ℤ) → Factory
  responds :
      (sink : UUri) (request_id : Uuid) (priority : ℤ) (method : UUri) (checked : ℤ) → Factory

unfoldable pub make : Protobuf → Factory → Result UMessageBuilder
make pb (publishes topic) = publish_builder pb topic
make pb (notifies source sink) = notification_builder pb source sink
make pb (requests method source priority ttl) = request_builder pb method source priority ttl
make pb (responds sink id priority method checked) =
    response_builder pb sink id priority method checked

-- What the check of a response asks of its request ID at the check's own readings.
abbrev pub RequestIdHolds : Readings → Factory → Option ℕ → Type 0
RequestIdHolds now (responds sink id priority method checked) ttl =
    ((is_uuid id now.reqid_checked).0 ≡ true) × IsFresh id now.reqid_rechecked now.reqid_aged ttl
RequestIdHolds now _ ttl = Unit

-- The message comes from `build()`, or from `build(payload)` with a payload of a known format.
abbrev pub Builds : Protobuf → UMessageBuilder → Entropy → UMessage → Type 0
Builds pb b system m =
    (build b system ≡ ok m)
    ⊎ ((payload : Payload) × (pb.payload_format_is_valid payload.payload.1 ≡ true)
        × ((build_payload b payload system).0 ≡ ok m))

pub built_attributes :
    (pb : Protobuf) (b : UMessageBuilder) (system : Entropy) (m : UMessage)
    → pb.payload_format_is_valid b.attributes.payload_format ≡ true
    → Builds pb b system m
    → (f : ℤ) × (pb.payload_format_is_valid f ≡ true)
      × (m.attributes ≡ record (stamped b system) { payload_format = f })
unfolding build build_payload build_move
built_attributes pb b system m known (inl e) = (b.attributes.payload_format, known, ground arith)
built_attributes pb b system m known (inr (payload, fine, e)) =
    (payload.payload.1, fine, ground arith)

module _ (pb : Protobuf) (doc : IsDocumented pb) (system : Entropy) (now : Readings)
    (prompt : IsPrompt system now) (ss : List Setter) (b b' : UMessageBuilder) (m : UMessage)
    (chained : apply_all pb ss b ≡ ok b') (built : Builds pb b' system m) where
  frame : Frame pb b b'
  frame = apply_all-Frame pb doc ss b b' chained

  -- The attributes of the message, once the builder is known to be sound.
  finished_attributes :
      SoundCommon pb b'.attributes
      → b.uuid_builder ≡ get_builder
      → (f : ℤ) × (pb.payload_format_is_valid f ≡ true)
        × (m.attributes ≡ finished system now prompt b'.attributes f)
  finished_attributes v same =
      let (f, known, e) = built_attributes pb b' system m v.format built in
      (
        f,
        known,
        e
            ∙ ap (λ u. record (b'.attributes) { id = (Uuid.build u system).0; payload_format = f })
                (frame.uuid_builder ∙ same),
      )

  built_publish :
      SoundPublish pb b.attributes → b.uuid_builder ≡ get_builder → IsOk (is_valid pb now m)
  built_publish v same =
      let w = publish_kept pb b b' frame v in
      let (f, known, e) = finished_attributes w.common same in
      (is_valid_iff pb now m).1
        (inr (inr (inl (rw e (publish_valid system now prompt pb b'.attributes f known w)))))

  built_notification :
      SoundNotification pb b.attributes → b.uuid_builder ≡ get_builder → IsOk (is_valid pb now m)
  built_notification v same =
      let w = notification_kept pb b b' frame v in
      let (f, known, e) = finished_attributes w.common same in
      (is_valid_iff pb now m).1
        (inr (inr (inr (rw e (notification_valid system now prompt pb b'.attributes f known w)))))

  built_request :
      SoundRequest pb b.attributes → b.uuid_builder ≡ get_builder → IsOk (is_valid pb now m)
  built_request v same =
      let w = request_kept pb b b' frame v in
      let (f, known, e) = finished_attributes w.common same in
      (is_valid_iff pb now m).1
        (inl (rw e (request_valid system now prompt pb b'.attributes f known w)))

  built_response :
      (id : Uuid)
      → (is_uuid id now.reqid_checked).0 ≡ true
      → IsFresh id now.reqid_rechecked now.reqid_aged b'.attributes.ttl
      → SoundResponse pb id b.attributes
      → b.uuid_builder ≡ get_builder
      → IsOk (is_valid pb now m)
  built_response id accepted fresh v same =
      let w = response_kept pb b b' frame id v in
      let (f, known, e) = finished_attributes w.common same in
      (is_valid_iff pb now m).1 (
        inr (
          inl
            (rw e (response_valid system now prompt pb b'.attributes f known id accepted fresh w))))

  -- Whatever factory makes the builder and whatever setters but `withMethod` follow, a message that
  -- `build` then returns passes `isValid`, if it is checked promptly. A payload has a known format,
  -- and the request ID of a response still passes its check when the response is checked.
  pub built_valid :
      (factory : Factory)
      → make pb factory ≡ ok b
      → RequestIdHolds now factory b'.attributes.ttl
      → IsOk (is_valid pb now m)
  unfolding make
  built_valid (publishes topic) made h =
      let (v, same) = publish_builder-Sound pb doc topic b made in built_publish v same
  built_valid (notifies source sink) made h =
      let (v, same) = notification_builder-Sound pb doc source sink b made in
      built_notification v same
  built_valid (requests method source priority ttl) made h =
      let (v, same) = request_builder-Sound pb doc method source priority ttl b made in
      built_request v same
  built_valid (responds sink id priority method checked) made h =
      let (v, same) = response_builder-Sound pb doc sink id priority method checked b made in
      built_response id h.0 h.1 v same
