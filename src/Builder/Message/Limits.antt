-- ===== src/Builder/Message/Limits.antt =====
-- What the setters and `build` of src/datamodel/builder/UMessage.cpp refuse, and where they let
-- through what a later check or the documentation does not.
use up_cpp.Common.{
  ℕ, ◌≡◌, ◌≢◌, ◌↔◌, sym, ◌∙◌, ◌⊎◌, inl, inr, Bool, true, false, ◌||◌, some, List, arith, Bool-cases,
}
use up_cpp.Common.Int.{ℤ, pos, ltb_ℤ_iff, not_ltb_ℤ_iff, eq_ℤ_iff, ◌≤ℤ◌, ◌<ℤ◌}
use up_cpp.Common.Outcome.{ok, throw}
use up_cpp.Proto.{
  UUri, UCode, ok_code, UMessage, Protobuf, IsDocumented, publish, request, response,
}
use up_cpp.Exception.{Result}
use up_cpp.Validator.Message.{Readings, is_valid, is_request, is_response}
use up_cpp.Validator.Message.Kinds.{is_valid_of_type, kinds_iff}
use up_cpp.Validator.Message.Responses.{message_reasons-IsCoherent, IsOk-of_accepted}
use up_cpp.Builder.Uuid.{Entropy}
use up_cpp.Builder.Payload.{Payload, build_move}
use up_cpp.Builder.Message.Setters.{Setter, apply_all, apply_all-Frame}
use up_cpp.Builder.Message.{
  UMessageBuilder, with_priority, with_method, with_ttl, with_token, with_permission_level,
  with_comm_status, with_payload_format, build, build_payload, build_method, build_method_payload,
  fill, stamped,
}

-- Whether a call returns.
abbrev pub succeeds : Result UMessageBuilder → Bool
succeeds (ok b) = true
succeeds (throw e) = false

-- Each setter returns just for the values and the message types that it documents: a priority in
-- range, and at least CS4 for a request or response; a time to live from 1 to 2^32 - 1 ms; a token
-- or a permission level on a request; a known status code on a response; a payload format in range.
pub setters_iff :
    (pb : Protobuf) (b : UMessageBuilder) (priority ttl format : ℤ) (token : List ℕ) (level : ℕ)
    (code : UCode)
    → ((succeeds (with_priority pb b priority) ≡ true) ↔ (
        (pb.priority_min ≤ℤ priority)
        × (priority ≤ℤ pb.priority_max)
        × (((is_request b.attributes.type || is_response b.attributes.type) ≡ false)
            ⊎ (pb.priority_cs4 ≤ℤ priority))))
      × ((succeeds (with_ttl pb b ttl) ≡ true) ↔ ((pos 0 <ℤ ttl) × (ttl ≤ℤ pos 0xffff_ffff)))
      × ((succeeds (with_token pb b token) ≡ true) ↔ (b.attributes.type ≡ request))
      × ((succeeds (with_permission_level pb b level) ≡ true) ↔ (b.attributes.type ≡ request))
      × ((succeeds (with_comm_status pb b code) ≡ true)
          ↔ ((b.attributes.type ≡ response) × (pb.ucode_is_valid code ≡ true)))
      × ((succeeds (with_payload_format pb b format) ≡ true)
          ↔ ((pb.payload_format_min ≤ℤ format) × (format ≤ℤ pb.payload_format_max)))
unfolding with_priority with_ttl with_token with_permission_level with_comm_status
    with_payload_format
setters_iff pb b priority ttl format token level code = (
  ground (
    arith,
    not_ltb_ℤ_iff priority pb.priority_min,
    not_ltb_ℤ_iff pb.priority_max priority,
    not_ltb_ℤ_iff priority pb.priority_cs4,
  ),
  ground (arith, ltb_ℤ_iff (pos 0) ttl, not_ltb_ℤ_iff (pos 0xffff_ffff) ttl),
  ground arith,
  ground arith,
  ground arith,
  ground (
    arith,
    not_ltb_ℤ_iff format pb.payload_format_min,
    not_ltb_ℤ_iff pb.payload_format_max format,
  ),
)

-- Once a payload format is expected, building without a payload throws, and building with one
-- returns exactly for an unmoved payload of that format; the message then holds the payload's bytes
-- and format. With no format expected every unmoved payload is taken.
pub format_enforced :
    (b : UMessageBuilder) (f : ℤ) (payload : Payload) (system : Entropy) (m : UMessage)
    → b.expected_payload_format ≡ some f
    → (build b system ≢ ok m)
      × (((build_payload b payload system).0 ≡ ok m) ↔ (
          (payload.moved ≡ false)
          × (payload.payload.1 ≡ f)
          × (m ≡ record {
            attributes = record (stamped b system) { payload_format = f };
            payload = some (payload.payload.0);
          })))
unfolding build build_payload build_move
format_enforced b f payload system m e =
    (λ h. ground (arith, h), ground (arith, eq_ℤ_iff payload.payload.1 f))

-- The message comes from one of the four ways to build: with or without a payload, and to a method
-- or not.
abbrev pub IsBuilt : UMessageBuilder → Entropy → UMessage → Type 0
IsBuilt b system m =
    (build b system ≡ ok m)
    ⊎ (((payload : Payload) × ((build_payload b payload system).0 ≡ ok m))
        ⊎ (((target : UUri) × (build_method b target system ≡ ok m))
            ⊎ ((target : UUri) × (payload : Payload) × ((build_method_payload b target payload
                    system).0
                  ≡ ok m))))

built_sink :
    (b : UMessageBuilder) (method : UUri) (system : Entropy) (m : UMessage)
    → b.attributes.type ≡ publish
    → b.attributes.sink ≡ some method
    → IsBuilt b system m
    → (m.attributes.type ≡ publish) × ((sink : UUri) × (m.attributes.sink ≡ some sink))
unfolding build build_payload build_method build_method_payload build_move fill
built_sink b method system m t e (inl h) = (ground (arith, h, t), (method, ground (arith, h, e)))
built_sink b method system m t e (inr (inl (payload, h))) =
    (ground (arith, h, t), (method, ground (arith, h, e)))
built_sink b method system m t e (inr (inr (inl (target, h)))) =
    (ground (arith, h, t), (target, ground (arith, h)))
built_sink b method system m t e (inr (inr (inr (target, payload, h)))) =
    (ground (arith, h, t), (target, ground (arith, h)))

method_set :
    (pb : Protobuf) (b b' : UMessageBuilder) (method : UUri)
    → with_method pb b method ≡ ok b'
    → (b'.attributes.type ≡ b.attributes.type) × (b'.attributes.sink ≡ some method)
unfolding with_method
method_set pb b b' method e = (ground arith, ground arith)

-- `withMethod` gives a publication a sink: however the builder was made, and whatever setters but
-- `withMethod` follow, no message that is then built, with or without a payload, to a method or not,
-- passes the check.
pub with_method_spoils_publish :
    (pb : Protobuf) (now : Readings) (b b' b'' : UMessageBuilder) (method : UUri) (ss : List Setter)
    (system : Entropy) (m : UMessage)
    → IsDocumented pb
    → b.attributes.type ≡ publish
    → with_method pb b method ≡ ok b'
    → apply_all pb ss b' ≡ ok b''
    → IsBuilt b'' system m
    → (is_valid pb now m).0 ≡ false
with_method_spoils_publish pb now b b' b'' method ss system m doc t e chained h =
    elim (Bool-cases (is_valid pb now m).0) [
      | inl accepted ↦
          let (same, set) = method_set pb b b' method e in
          let frame = apply_all-Frame pb doc ss b' b'' chained in
          let (type, (target, sink)) =
            built_sink b'' method system m (frame.type ∙ same ∙ t) (frame.sink ∙ set) h in
          let passed =
            IsOk-of_accepted (is_valid pb now m) (message_reasons-IsCoherent pb now m m).6
              accepted in
          let check = (is_valid_of_type pb now m).2 type in
          let valid = (kinds_iff pb now m).2.0 (sym check ∙ passed) in cc (valid.sink, sink)
      | inr refused ↦ refused
    ]

-- `withCommStatus(OK)` does not take back a status that an earlier call set.
pub comm_status_sticks :
    (pb : Protobuf) (b b' : UMessageBuilder) (code : UCode)
    → code ≢ ok_code
    → pb.ucode_is_valid ok_code ≡ true
    → with_comm_status pb b code ≡ ok b'
    → (with_comm_status pb b' ok_code ≡ ok b') × (b'.attributes.commstatus ≡ some code)
unfolding with_comm_status
comm_status_sticks pb b b' code h known e = (ground arith, ground arith)
