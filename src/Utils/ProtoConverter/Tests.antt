-- ===== src/Utils/ProtoConverter/Tests.antt =====
-- The protobuf conversions' theorems for a codec whose objects are their own bytes.
use up_cpp.Common.{ℕ, zero, suc, ◌≡◌, arith, refl, ap, false, Option, none, some, List, [], ◌∷◌}
use up_cpp.Common.Int.{pos, eq_ℤ}
use up_cpp.Proto.{UMessage, UMessageType, default_attributes}
use up_cpp.Utils.Expected.{expected}
use up_cpp.Builder.Uuid.{get_builder}
use up_cpp.Builder.Payload.{from_any, build_move}
use up_cpp.Builder.Message.{UMessageBuilder, stamped, build_payload, fill}
use up_cpp.Samples.{pb, system, topic}
use up_cpp.Utils.ProtoConverter.{Any, Codec, IsFaithful, extract_from_protobuf, proto_to_payload}
use up_cpp.Utils.ProtoConverter.Conversions.{extract-proto_to_payload}

-- The type's name, a 1 before each of its bytes, then a 0 and the value.
abbrev bytes_of : List ℕ → List ℕ → List ℕ
bytes_of [] value = 0 ∷ value
bytes_of (n ∷ name) value = 1 ∷ n ∷ bytes_of name value

abbrev with_letter : ℕ → Option Any → Option Any
with_letter n none = none
with_letter n (some any) = some (record any { type_url = n ∷ any.type_url })

abbrev any_of : List ℕ → Option Any
any_of [] = none
any_of (zero ∷ value) = some (record { type_url = []; value = value })
any_of (suc k ∷ []) = none
any_of (suc k ∷ n ∷ rest) = with_letter n (any_of rest)

any_of-bytes_of :
    (name value : List ℕ)
    → any_of (bytes_of name value) ≡ some (record { type_url = name; value = value })
any_of-bytes_of [] value = refl
any_of-bytes_of (n ∷ name) value = ap (with_letter n) (any_of-bytes_of name value)

abbrev pub codec : Codec (List ℕ)
codec = record {
  parse = λ bytes. some bytes;
  pack = λ t. some (record { type_url = 116 ∷ []; value = t });
  unpack = λ any. some any.value;
  any_bytes = λ any. bytes_of any.type_url any.value;
  parse_any = any_of;
  payload_format_protobuf = pos 2;
  is_unconverted_format = λ format. false;
}

faithful : IsFaithful pb codec
unfolding eq_ℤ
faithful = record {
  unpack_pack = λ t any packed. ground (arith, packed);
  parse_bytes = λ any. any_of-bytes_of any.type_url any.value;
  formats_differ = refl;
}

abbrev packed : Any
packed = record { type_url = 116 ∷ []; value = 4 ∷ 5 ∷ [] }

abbrev start : UMessageBuilder
start = record {
  attributes = record default_attributes { type = UMessageType.publish; source = some topic };
  expected_payload_format = none;
  uuid_builder = get_builder;
}

abbrev carrier : UMessage
carrier = record {
  attributes = record (stamped start system) { payload_format = pos 1 };
  payload = some (1 ∷ 116 ∷ 0 ∷ 4 ∷ 5 ∷ []);
}

extract-proto_to_payload_example : extract_from_protobuf pb codec carrier ≡ expected (4 ∷ 5 ∷ [])
unfolding build_payload fill build_move proto_to_payload from_any
extract-proto_to_payload_example =
    extract-proto_to_payload pb codec faithful (4 ∷ 5 ∷ []) (from_any pb (codec.any_bytes packed))
      start system carrier refl refl
