-- ===== src/Proto.antt =====
-- The uProtocol messages, as far as the program reads and writes their fields, and what it uses of
-- the code that protoc generates and of the protobuf library: parameters, with the documented
-- behaviour that theorems rely on.
use up_cpp.Common.{ℕ, String, Bool, true, false, Option, none, List, [], ◌≡◌, ◌↔◌}
use up_cpp.Common.Int.{ℤ, pos, ltb_ℤ}

-- `authority_name` holds bytes; the other fields are uint32.
pub record UUri : Type 0 where
  pub authority_name : List ℕ
  pub ue_id : ℕ
  pub ue_version_major : ℕ
  pub resource_id : ℕ

-- Two uint64 fields.
pub record Uuid : Type 0 where
  pub msb : ℕ
  pub lsb : ℕ

-- An open enumeration: a value that no enumerator has is `other`.
pub data UMessageType : Type 0 where
  unspecified publish request response notification : UMessageType
  other : ℤ → UMessageType

pub data UCode : Type 0 where
  ok_code cancelled invalid_argument deadline_exceeded out_of_range unimplemented internal : UCode
  other : ℤ → UCode

-- A message field or `optional` field that is not set is `none`. `id` is only read through its
-- accessor, which answers the default for an unset field.
pub record UAttributes : Type 0 where
  pub id : Uuid
  pub type : UMessageType
  pub source : Option UUri
  pub sink : Option UUri
  pub priority : ℤ
  pub ttl : Option ℕ
  pub permission_level : Option ℕ
  pub commstatus : Option UCode
  pub reqid : Option Uuid
  pub token : Option (List ℕ)
  pub payload_format : ℤ

pub record UMessage : Type 0 where
  pub attributes : UAttributes
  pub payload : Option (List ℕ)

pub record UStatus : Type 0 where
  pub code : UCode
  pub message : String

-- Default instances.
abbrev pub default_uri : UUri
default_uri = record { authority_name = []; ue_id = 0; ue_version_major = 0; resource_id = 0 }

abbrev pub default_uuid : Uuid
default_uuid = record { msb = 0; lsb = 0 }

abbrev pub default_attributes : UAttributes
default_attributes = record {
  id = default_uuid;
  type = UMessageType.unspecified;
  source = none;
  sink = none;
  priority = pos 0;
  ttl = none;
  permission_level = none;
  commstatus = none;
  reqid = none;
  token = none;
  payload_format = pos 0;
}

-- Generated enumeration tests and bounds, and `MessageDifferencer::Equals` at two message types.
pub record Protobuf : Type 0 where
  pub priority_is_valid : ℤ → Bool
  pub priority_min : ℤ
  pub priority_max : ℤ
  pub priority_cs1 : ℤ
  pub priority_cs4 : ℤ
  pub payload_format_is_valid : ℤ → Bool
  pub payload_format_min : ℤ
  pub payload_format_max : ℤ
  pub payload_format_any : ℤ
  pub ucode_is_valid : UCode → Bool
  pub uri_equals : UUri → UUri → Bool
  pub uuid_equals : Uuid → Uuid → Bool

-- Documented behaviour: an enumeration's bounds are its least and greatest value, the two
-- enumerations have an enumerator for every value between, the default value 0 is one, and `Equals` compares messages by value.
pub record IsDocumented (pb : Protobuf) : Type 0 where
  pub priority_range :
      (p : ℤ)
      → ltb_ℤ p pb.priority_min ≡ false
      → ltb_ℤ pb.priority_max p ≡ false
      → pb.priority_is_valid p ≡ true
  pub priority_bounds :
      (p : ℤ)
      → pb.priority_is_valid p ≡ true
      → (ltb_ℤ p pb.priority_min ≡ false) × (ltb_ℤ pb.priority_max p ≡ false)
  pub format_range :
      (f : ℤ)
      → ltb_ℤ f pb.payload_format_min ≡ false
      → ltb_ℤ pb.payload_format_max f ≡ false
      → pb.payload_format_is_valid f ≡ true
  pub default_priority : pb.priority_is_valid (pos 0) ≡ true
  pub default_format : pb.payload_format_is_valid (pos 0) ≡ true
  pub uri_equals_iff : (u v : UUri) → (pb.uri_equals u v ≡ true) ↔ (u ≡ v)
  pub uuid_equals_iff : (u v : Uuid) → (pb.uuid_equals u v ≡ true) ↔ (u ≡ v)
