-- ===== src/Builder/Payload.antt =====
-- src/datamodel/builder/Payload.cpp. The data of a payload is a byte string; serialisers that the
-- constructors call are given by what they return. A moved-from std::string is left empty.
pub mod Moves
pub mod Tests
use up_cpp.Common.{ℕ, Bool, true, false, not, List, [], if◌then◌else◌}
use up_cpp.Common.Int.{ℤ}
use up_cpp.Common.Outcome.{ok, throw}
use up_cpp.Proto.{Protobuf}
use up_cpp.Exception.{Result, out_of_range, payload_moved}

-- The bytes and their format.
abbrev pub Serialized : Type 0
Serialized = List ℕ × ℤ

pub record Payload : Type 0 where
  pub payload : Serialized
  pub moved : Bool

abbrev pub fresh_payload : Serialized → Payload
fresh_payload s = record { payload = s; moved = false }

module _ (pb : Protobuf) where
  -- Payload(const std::vector<uint8_t>&, format)
  unfoldable pub from_bytes : List ℕ → ℤ → Result Payload
  from_bytes value_bytes format =
      if not (pb.payload_format_is_valid format)
      then throw (out_of_range "Invalid Byte vector payload format")
      else ok (fresh_payload (value_bytes, format))

  -- Payload(const std::string&, format)
  unfoldable pub from_string : List ℕ → ℤ → Result Payload
  from_string value format =
      if not (pb.payload_format_is_valid format)
      then throw (out_of_range "Invalid String payload format")
      else ok (fresh_payload (value, format))

  -- Payload(std::string&&, format)
  unfoldable pub from_moved_string : List ℕ → ℤ → Result Payload
  from_moved_string value format =
      if not (pb.payload_format_is_valid format)
      then throw (out_of_range "Invalid RValue String payload format")
      else ok (fresh_payload (value, format))

  -- Payload(Serialized&&)
  unfoldable pub from_serialized : Serialized → Result Payload
  from_serialized serialized =
      if not (pb.payload_format_is_valid serialized.1)
      then throw (out_of_range "Invalid RValue Serialized payload format")
      else ok (fresh_payload serialized)

  -- Payload(Serializer, const ValueT&), of what `Serializer::serialize` returns.
  unfoldable pub from_serializer : Serialized → Result Payload
  from_serializer serialized_data =
      if not (pb.payload_format_is_valid serialized_data.1)
      then throw (out_of_range "Invalid Serializer payload format")
      else ok (fresh_payload serialized_data)

  -- Payload(const google::protobuf::Any&), of what `SerializeAsString` returns.
  unfoldable pub from_any : List ℕ → Payload
  from_any serialized = fresh_payload (serialized, pb.payload_format_any)

-- Payload(const ProtobufT&), of the format PROTOBUF and what `SerializeToString` writes.
unfoldable pub from_message : ℤ → List ℕ → Payload
from_message payload_format_protobuf serialized =
    fresh_payload (serialized, payload_format_protobuf)

unfoldable pub copy_construct : Payload → Payload
copy_construct other = other

unfoldable pub copy_assign : Payload → Payload → Payload
copy_assign self other = record self { payload = other.payload; moved = other.moved }

-- What is left behind when the tuple is moved from.
abbrev pub moved_from : Serialized → Serialized
moved_from (bytes, format) = ([], format)

-- The new payload, and the one that it was moved from.
unfoldable pub move_construct : Payload → Payload × Payload
move_construct other = (
  record { payload = other.payload; moved = other.moved },
  record other { payload = moved_from other.payload },
)

-- The assigned payload, and the one that it was moved from.
unfoldable pub move_assign : Payload → Payload → Payload × Payload
move_assign self other = (
  record self { payload = other.payload; moved = other.moved },
  record other { payload = moved_from other.payload },
)

unfoldable pub build_copy : Payload → Result Serialized
build_copy p =
    if p.moved then throw (payload_moved "Payload has been already moved") else ok p.payload

-- The result, and the payload afterwards.
unfoldable pub build_move : Payload → Result Serialized × Payload
build_move p =
    if p.moved
    then (throw (payload_moved "Payload has been already moved"), p)
    else (ok p.payload, record { payload = moved_from p.payload; moved = true })
