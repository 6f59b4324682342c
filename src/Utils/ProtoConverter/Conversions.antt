-- ===== src/Utils/ProtoConverter/Conversions.antt =====
-- That the conversions of include/up-cpp/utils/ProtoConverter.h fit each other, and what
-- src/utils/ProtoConverter.cpp makes of a time.
use up_cpp.Common.{
  ℕ, zero, suc, ◌+◌, ◌*◌, ◌/◌, ◌%◌, ◌<◌, ◌≡◌, ◌↔◌, refl, ◌∙◌, ap, Option, none, some, List, arith,
}
use up_cpp.Common.Int.{ℤ, pos, negsuc, pos_part, neg_part, eq_ℤ_refl}
use up_cpp.Common.Outcome.{ok}
use up_cpp.Proto.{UMessage, Protobuf}
use up_cpp.Utils.Expected.{expected}
use up_cpp.Builder.Payload.{Payload, from_any, from_message, build_move}
use up_cpp.Builder.Uuid.{Entropy}
use up_cpp.Builder.Message.{UMessageBuilder, build_payload, fill}
use up_cpp.Utils.ProtoConverter.{
  Timestamp, Any, Codec, IsFaithful, convert_to_proto_timestamp, negative, extract_from_protobuf,
  proto_to_payload, payload_or,
}

-- A valid Timestamp counts its nanoseconds forward.
abbrev pub IsTimestamp : Timestamp → Type 0
IsTimestamp t = (neg_part t.nanos ≡ 0) × (pos_part t.nanos < 1_000_000_000)

negative_parts : (k : ℕ) → (pos_part (negative k) ≡ 0) × (neg_part (negative k) ≡ k)
negative_parts zero = (refl, refl)
negative_parts (suc k) = (refl, refl)

-- A time's seconds and nanoseconds make up the time exactly. They are a valid Timestamp just for
-- times from the epoch on and for whole seconds before it: any other time before the epoch gets
-- negative nanoseconds.
pub convert_to_proto_timestamp_lem :
    (tp : ℤ)
    → let t = convert_to_proto_timestamp tp in
      (pos_part t.seconds * 1_000_000_000 + pos_part t.nanos ≡ pos_part tp)
      × (neg_part t.seconds * 1_000_000_000 + neg_part t.nanos ≡ neg_part tp)
      × (IsTimestamp t ↔ (neg_part tp % 1_000_000_000 ≡ 0))
unfolding convert_to_proto_timestamp
convert_to_proto_timestamp_lem (pos n) =
    (omega arith, refl, ((λ h. refl), λ h. (refl, omega arith)))
convert_to_proto_timestamp_lem (negsuc n) =
    let (whole_pos, whole_neg) = negative_parts (suc n / 1_000_000_000) in
    let (rest_pos, rest_neg) = negative_parts (suc n % 1_000_000_000) in
    (
      omega (arith, whole_pos, rest_pos),
      omega (arith, whole_neg, rest_neg),
      (
        (λ h. omega (arith, h.0, rest_neg)),
        λ h. (omega (arith, h, rest_neg), omega (arith, rest_pos)),
      ),
    )

module _ (pb : Protobuf) {T : Type 0} (codec : Codec T) where
  payload_made :
      (o : Option Any) (t : T) (p : Payload)
      → codec.pack t ≡ o
      → payload_or pb codec o ≡ expected p
      → (any : Any) × (codec.pack t ≡ some any) × (p ≡ from_any pb (codec.any_bytes any))
  payload_made none t p e h = absurd (cc h)
  payload_made (some any) t p e h = (any, e, cc h)

  carried :
      (b : UMessageBuilder) (p : Payload) (system : Entropy) (m : UMessage)
      → (build_payload b p system).0 ≡ ok m
      → (m.attributes.payload_format ≡ p.payload.1) × (m.payload ≡ some p.payload.0)
  unfolding build_payload build_move fill
  carried b p system m e = (ground (arith, e), ground (arith, e))

  any_extracted :
      (t : T) (any : Any) (m : UMessage)
      → IsFaithful pb codec
      → codec.pack t ≡ some any
      → m.attributes.payload_format ≡ pb.payload_format_any
      → m.payload ≡ some (codec.any_bytes any)
      → extract_from_protobuf pb codec m ≡ expected t
  unfolding extract_from_protobuf
  any_extracted t any m faithful packed format bytes =
      rw
        (
          format,
          bytes,
          faithful.formats_differ,
          eq_ℤ_refl pb.payload_format_any,
          faithful.parse_bytes any,
          faithful.unpack_pack t any packed,
        )
        refl

  -- If the protobuf library unpacks what it packs and parses what it serializes, a message that any
  -- builder builds of an object's payload has the object extracted again.
  pub extract-proto_to_payload :
      IsFaithful pb codec
      → (t : T) (p : Payload) (b : UMessageBuilder) (system : Entropy) (m : UMessage)
      → proto_to_payload pb codec t ≡ expected p
      → (build_payload b p system).0 ≡ ok m
      → extract_from_protobuf pb codec m ≡ expected t
  unfolding proto_to_payload from_any
  extract-proto_to_payload faithful t p b system m made built =
      let (any, packed, same) = payload_made (codec.pack t) t p refl made in
      let (format, bytes) = carried b p system m built in
      any_extracted t any m faithful packed (format ∙ ap (λ q. q.payload.1) same)
        (bytes ∙ ap (λ q. some q.payload.0) same)

  -- A message that any builder builds of a serialized object, in the format PROTOBUF, has the
  -- object extracted again, if its bytes parse.
  pub extract-from_message :
      (t : T) (bytes : List ℕ) (b : UMessageBuilder) (system : Entropy) (m : UMessage)
      → codec.parse bytes ≡ some t
      → (build_payload b (from_message codec.payload_format_protobuf bytes) system).0 ≡ ok m
      → extract_from_protobuf pb codec m ≡ expected t
  unfolding extract_from_protobuf from_message
  extract-from_message t bytes b system m parses built =
      let (format, content) =
        carried b (from_message codec.payload_format_protobuf bytes) system m built in
      rw (format, content, eq_ℤ_refl codec.payload_format_protobuf, parses) refl
