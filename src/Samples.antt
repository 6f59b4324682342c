-- ===== src/Samples.antt =====
-- Concrete values for the tests: generated enumerations with the values 0 to 7, URIs, readings of
-- the clock, and one message of each type.
use up_cpp.Common.{
  ◌^◌, ◌*◌, ◌+◌, ◌≡◌, refl, Bool, true, false, not, ◌&&◌, none, some, [], ◌∷◌, arith, eq_bytes,
  eq_bytes_eq, eq_bytes_refl, ◌==◌,
}
use up_cpp.Common.Int.{ℤ, pos, ltb_ℤ}
use up_cpp.Proto.{
  UUri, Uuid, UMessageType, UMessage, UStatus, ok_code, Protobuf, IsDocumented, default_attributes,
}
use up_cpp.Validator.Message.{Readings}
use up_cpp.Builder.Uuid.{Entropy}
use up_cpp.Builder.Payload.{Payload}
use up_cpp.Builder.Message.Built.{IsPrompt}
use up_cpp.Validator.Uri.Accepted.{IsTopic, IsMethod, IsEntity}
use up_cpp.Validator.Uuid.{is_uuid, timestamp_millis}
use up_cpp.Validator.Uuid.Times.{is_uuid_iff}
use up_cpp.Transport.World.{World}
use up_cpp.Transport.{UTransport}

abbrev in_enum : ℤ → Bool
in_enum v = not (ltb_ℤ v (pos 0)) && not (ltb_ℤ (pos 7) v)

abbrev pub pb : Protobuf
pb = record {
  priority_is_valid = in_enum;
  priority_min = pos 0;
  priority_max = pos 7;
  priority_cs1 = pos 2;
  priority_cs4 = pos 5;
  payload_format_is_valid = in_enum;
  payload_format_min = pos 0;
  payload_format_max = pos 7;
  payload_format_any = pos 1;
  ucode_is_valid = λ c. true;
  uri_equals = λ u v.
      eq_bytes u.authority_name v.authority_name
      && u.ue_id == v.ue_id
      && u.ue_version_major == v.ue_version_major
      && u.resource_id == v.resource_id;
  uuid_equals = λ u v. u.msb == v.msb && u.lsb == v.lsb;
}

pub doc : IsDocumented pb
unfolding ltb_ℤ
doc = record {
  priority_range = λ p h k. ground arith;
  priority_bounds = λ p h. ground arith;
  format_range = λ p h k. ground arith;
  default_priority = refl;
  default_format = refl;
  uri_equals_iff = λ u v.
      ground (arith, eq_bytes_eq u.authority_name v.authority_name, eq_bytes_refl u.authority_name);
  uuid_equals_iff = λ u v. ground arith;
}

abbrev pub topic : UUri
topic = record {
  authority_name = b'a' ∷ [];
  ue_id = 0x1_0001;
  ue_version_major = 1;
  resource_id = 0x8001;
}

abbrev pub method : UUri
method = record topic { resource_id = 1 }

abbrev pub client : UUri
client = record { authority_name = b'c' ∷ []; ue_id = 2; ue_version_major = 1; resource_id = 0 }

-- A clock at millisecond 1.
abbrev pub system : Entropy
system = record { now = pos 1_000_000; dist_a = 5; dist_b = 9 }

abbrev pub readings : Readings
readings = record {
  id_checked = pos 1_000_000;
  id_rechecked = pos 1_000_000;
  id_aged = pos 1_000_000;
  reqid_checked = pos 1_000_000;
  reqid_rechecked = pos 1_000_000;
  reqid_aged = pos 1_000_000;
}

pub prompt : IsPrompt system readings
prompt = record {
  built = 1_000_000;
  checked = 1_000_000;
  aged = 1_000_000;
  built_at = refl;
  checked_at = refl;
  aged_at = refl;
  small = omega arith;
  after = omega arith;
  soon = omega arith;
}

-- What the builder makes at that time: a timestamp of 1, version 7, variant 2.
abbrev pub id : Uuid
id = record { msb = 2 ^ 16 + 7 * 2 ^ 12 + 5; lsb = 2 ^ 63 + 9 }

abbrev pub publication : UMessage
publication = record {
  attributes = record default_attributes {
    id = id;
    type = UMessageType.publish;
    source = some topic;
  };
  payload = none;
}

abbrev pub request_message : UMessage
request_message = record {
  attributes = record default_attributes {
    id = id;
    type = UMessageType.request;
    source = some client;
    sink = some method;
    priority = pos 5;
    ttl = some 1000;
  };
  payload = none;
}

abbrev pub response_message : UMessage
response_message = record {
  attributes = record default_attributes {
    id = id;
    type = UMessageType.response;
    source = some method;
    sink = some client;
    reqid = some id;
    priority = pos 5;
  };
  payload = none;
}

pub topic-IsTopic : IsTopic topic
topic-IsTopic = (
  record {
    authority = λ e. cc;
    service = omega arith;
    service_instance = omega arith;
    version = omega arith;
    resource = omega arith;
  },
  (omega arith, omega arith),
)

pub method-IsMethod : IsMethod method
method-IsMethod = (
  record {
    authority = λ e. cc;
    service = omega arith;
    service_instance = omega arith;
    version = omega arith;
    resource = omega arith;
  },
  (omega arith, omega arith),
)

pub client-IsEntity : IsEntity client
client-IsEntity = (
  record {
    authority = λ e. cc;
    service = omega arith;
    service_instance = omega arith;
    version = omega arith;
    resource = omega arith;
  },
  refl,
)

pub id-IsUuid : (is_uuid id (pos 1_000_000)).0 ≡ true
unfolding timestamp_millis
id-IsUuid = ground (arith, (is_uuid_iff id 1_000_000 (omega arith)).1 (refl, refl, omega arith))

abbrev pub payload : Payload
payload = record { payload = (1 ∷ 2 ∷ 3 ∷ [], pos 3); moved = false }

abbrev pub fine : UStatus
fine = record { code = ok_code; message = "" }

abbrev pub transport : UTransport
transport = record {
  entity_uri = client;
  send_impl = λ calls m. fine;
  register_listener_impl = λ calls conn source sink. (fine, true);
}

abbrev pub world : World
world = record { calls = []; next_connection = 3 }
