-- ===== src/Utils/ProtoConverter.antt =====
-- src/utils/ProtoConverter.cpp and include/up-cpp/utils/ProtoConverter.h, over the fields of the
-- generated messages that they set. What the protobuf library does with a message type is the
-- parameter `Codec`.
pub mod Conversions
pub mod Tests
use up_cpp.Common.{
  String, value_or, ℕ, zero, suc, ◌/◌, ◌%◌, ◌^◌, ◌*◌, ◌-◌, ◌+◌, ◌≡◌, Bool, true, false, Option,
  none, some, List, [], ◌∷◌, if◌then◌else◌,
}
use up_cpp.Common.Int.{ℤ, pos, negsuc, eq_ℤ, pos_part, neg_part}
use up_cpp.Proto.{
  UUri, UMessage, UStatus, UCode, internal, unimplemented, invalid_argument, Protobuf,
}
use up_cpp.Utils.Expected.{Expected, expected, unexpected}
use up_cpp.Builder.Payload.{Payload, from_any}

-- google.protobuf.Timestamp and Any.
pub record Timestamp : Type 0 where
  pub seconds : ℤ
  pub nanos : ℤ

pub record Any : Type 0 where
  pub type_url : List ℕ
  pub value : List ℕ

-- ParseFromString and PackFrom, UnpackTo for a message type, the serialization of an Any, and the
-- payload formats that have enumerators: PROTOBUF and those that have no conversion.
pub record Codec (T : Type 0) : Type 0 where
  pub parse : List ℕ → Option T
  pub pack : T → Option Any
  pub unpack : Any → Option T
  pub any_bytes : Any → List ℕ
  pub parse_any : List ℕ → Option Any
  pub payload_format_protobuf : ℤ
  pub is_unconverted_format : ℤ → Bool

-- Documented behaviour: what is packed unpacks, what is serialized parses, and the two formats of
-- protobuf messages differ.
pub record IsFaithful (pb : Protobuf) {T : Type 0} (codec : Codec T) : Type 0 where
  pub unpack_pack : (t : T) (any : Any) → codec.pack t ≡ some any → codec.unpack any ≡ some t
  pub parse_bytes : (any : Any) → codec.parse_any (codec.any_bytes any) ≡ some any
  pub formats_differ : eq_ℤ pb.payload_format_any codec.payload_format_protobuf ≡ false

abbrev pub negative : ℕ → ℤ
negative zero = pos 0
negative (suc n) = negsuc n

-- Division that rounds towards zero, and its remainder, of a signed number by a natural one.
abbrev pub truncated : ℤ → ℕ → ℤ
truncated (pos n) d = pos (n / d)
truncated (negsuc n) d = negative (suc n / d)

abbrev pub remainder : ℤ → ℕ → ℤ
remainder (pos n) d = pos (n % d)
remainder (negsuc n) d = negative (suc n % d)

-- ConvertToProtoTimestamp
unfoldable pub convert_to_proto_timestamp : ℤ → Timestamp
convert_to_proto_timestamp tp = record {
  seconds = truncated tp 1_000_000_000;
  nanos = remainder tp 1_000_000_000;
}

pub record SubscriberInfo : Type 0 where
  pub uri : UUri

pub record SubscribeAttributes : Type 0 where
  pub expire : Option Timestamp
  pub details : List Any
  pub sample_period_ms : Option ℕ

pub record SubscriptionRequest : Type 0 where
  pub topic : UUri
  pub attributes : Option SubscribeAttributes

-- The other requests; a fetch of subscriptions has one of two fields set.
pub record TopicRequest : Type 0 where
  pub topic : UUri

pub data FetchSubscriptionsRequest : Type 0 where
  of_topic : UUri → FetchSubscriptionsRequest
  of_subscriber : SubscriberInfo → FetchSubscriptionsRequest

unfoldable pub build_subscriber_info : UUri → SubscriberInfo
build_subscriber_info entity_uri = record { uri = entity_uri }

abbrev pub convert_if : Option ℤ → Option Timestamp
convert_if none = none
convert_if (some tp) = some (convert_to_proto_timestamp tp)

abbrev pub listed : Option Any → List Any
listed none = []
listed (some details) = details ∷ []

-- A count of milliseconds cast to a uint32.
abbrev pub to_uint32 : ℤ → ℕ
to_uint32 ms = (pos_part ms % 2 ^ 32 + (2 ^ 32 - neg_part ms % 2 ^ 32)) % 2 ^ 32

abbrev pub period_if : Option ℤ → Option ℕ
period_if none = none
period_if (some ms) = some (to_uint32 ms)

unfoldable pub build_subscribe_attributes : Option ℤ → Option Any → Option ℤ → SubscribeAttributes
unfolding convert_to_proto_timestamp
build_subscribe_attributes when_expire subscription_details sample_period_ms = record {
  expire = convert_if when_expire;
  details = listed subscription_details;
  sample_period_ms = period_if sample_period_ms;
}

unfoldable pub build_subscription_request : UUri → Option SubscribeAttributes → SubscriptionRequest
build_subscription_request subscription_topic attributes = record {
  topic = subscription_topic;
  attributes = attributes;
}

unfoldable pub build_unsubscribe_request : UUri → TopicRequest
build_unsubscribe_request subscription_topic = record { topic = subscription_topic }

unfoldable pub build_fetch_subscriptions_of_topic : UUri → FetchSubscriptionsRequest
build_fetch_subscriptions_of_topic topic = of_topic topic

unfoldable pub build_fetch_subscriptions_of_subscriber : SubscriberInfo → FetchSubscriptionsRequest
build_fetch_subscriptions_of_subscriber subscriber = of_subscriber subscriber

unfoldable pub build_fetch_subscribers_request : UUri → TopicRequest
build_fetch_subscribers_request topic = record { topic = topic }

unfoldable pub build_notifications_request : UUri → TopicRequest
build_notifications_request topic = record { topic = topic }

module _ (pb : Protobuf) {T : Type 0} (codec : Codec T) where
  abbrev pub failed : {A : Type 0} → UCode → String → Expected A UStatus
  failed code text = unexpected (record { code = code; message = text })

  abbrev pub parsed_or : String → Option T → Expected T UStatus
  parsed_or text none = failed internal text
  parsed_or text (some t) = expected t

  abbrev pub unpacked_or : Option Any → Expected T UStatus
  unpacked_or none =
      failed internal "extractFromProtobuf: Error when parsing payload from protobuf any."
  unpacked_or (some any) =
      parsed_or "extractFromProtobuf: Error when unpacking any." (codec.unpack any)

  -- The payload's bytes, empty if it is not set.
  abbrev pub payload_of : UMessage → List ℕ
  payload_of m = value_or m.payload []

  -- extractFromProtobuf
  unfoldable pub extract_from_protobuf : UMessage → Expected T UStatus
  extract_from_protobuf m =
      if eq_ℤ m.attributes.payload_format codec.payload_format_protobuf
      then parsed_or "extractFromProtobuf: Error when parsing payload from protobuf."
          (codec.parse (payload_of m))
      else if eq_ℤ m.attributes.payload_format pb.payload_format_any
      then unpacked_or (codec.parse_any (payload_of m))
      else if codec.is_unconverted_format m.attributes.payload_format
      then failed unimplemented "Unimplemented payload format."
      else failed invalid_argument "Unknown/invalid/unsupported payload format."

  abbrev pub payload_or : Option Any → Expected Payload UStatus
  payload_or none =
      failed internal
        "protoToPayload: There was an error when serializing the subscription request."
  payload_or (some any) = expected (from_any pb (codec.any_bytes any))

  -- protoToPayload
  unfoldable pub proto_to_payload : T → Expected Payload UStatus
  unfolding from_any
  proto_to_payload proto = payload_or (codec.pack proto)
