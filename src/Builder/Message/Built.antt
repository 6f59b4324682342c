-- ===== src/Builder/Message/Built.antt =====
-- A message that a builder of src/datamodel/builder/UMessage.cpp builds passes the checks of
-- src/datamodel/validator/UMessage.cpp.
use up_cpp.Common.{
  ◌%◌, ◌^◌, ◌<◌, ◌==◌, Bool-cases, inl, ℕ, zero, suc, ◌+◌, ◌*◌, ◌/◌, ◌≤◌, ◌≡◌, ◌≢◌, refl, ap, inr,
  true, Option, none, some, arith, has_value,
}
use up_cpp.Common.Int.{ℤ, pos, not_ltb_ℤ_iff}
use up_cpp.Proto.{Uuid, UAttributes, Protobuf}
use up_cpp.Validator.Uuid.{is_uuid, timestamp_millis}
use up_cpp.Validator.Uuid.Times.{last_milli, not_expired_within}
use up_cpp.Validator.Message.{Readings}
use up_cpp.Validator.Message.Kinds.{
  IsFresh, ValidCommon, ValidRequest, ValidResponse, ValidPublish, ValidNotification,
}
use up_cpp.Builder.Uuid.{UuidBuilder, Entropy, get_builder}
use up_cpp.Builder.Uuid
use up_cpp.Builder.Uuid.Fields.{build_fields, build-IsUuid}
use up_cpp.Builder.Message.Validity.{
  SoundCommon, SoundPublish, SoundNotification, SoundRequest, SoundResponse,
}

pub positive_ttl :
    (ttl : Option ℕ) → has_value ttl ≡ true → ttl ≢ some 0 → (t : ℕ) × (ttl ≡ some (suc t))
positive_ttl none h z = cc
positive_ttl (some zero) h z = absurd (z refl)
positive_ttl (some (suc t)) h z = (t, refl)

-- A check that reads the clock soon after a build: the build's clock `t` is between the epoch and
-- millisecond 9223372036854, the ID is checked no earlier, and its age is taken within one
-- millisecond of its timestamp.
pub record IsPrompt (system : Entropy) (now : Readings) : Type 0 where
  pub built : ℕ
  pub checked : ℕ
  pub aged : ℕ
  pub built_at : system.now ≡ pos built
  pub checked_at : now.id_checked ≡ pos checked
  pub aged_at : now.id_aged ≡ pos aged
  pub small : built / 1_000_000 ≤ last_milli
  pub after : built ≤ checked
  pub soon : aged ≤ (built / 1_000_000 + 1) * 1_000_000

module _ (system : Entropy) (now : Readings) (p : IsPrompt system now) where
  abbrev pub new_id : Uuid
  new_id = (Uuid.build get_builder system).0

  new_id_millis : timestamp_millis new_id ≡ p.built / 1_000_000
  unfolding get_builder
  new_id_millis = (build_fields get_builder system p.built p.built_at (omega (arith, p.small))).2

  new_id_accepted : (is_uuid new_id now.id_checked).0 ≡ true
  unfolding get_builder
  new_id_accepted =
      rw p.checked_at (
        ap (λ r. r.0)
          (build-IsUuid get_builder system p.built p.checked p.built_at p.small p.after))

  new_id_fresh : (ttl : Option ℕ) → ttl ≢ some 0 → IsFresh new_id now.id_rechecked now.id_aged ttl
  new_id_fresh none h = tt
  new_id_fresh (some t) h = elim (Bool-cases (t % 2 ^ 32 == 0)) [
    | inl none_set ↦ inl (ground (arith, none_set))
    | inr some_set ↦
        let positive : 0 < t % 2 ^ 32 = ground (arith, some_set) in
        inr (
          rw p.aged_at (
            not_expired_within new_id (t % 2 ^ 32) p.aged now.id_rechecked
              (omega (arith, new_id_millis, p.small)) (omega arith)
              (omega (arith, new_id_millis, p.soon, positive))))
  ]

  -- The attributes of a built message: the builder's, with the new ID and the payload's format.
  abbrev pub finished : UAttributes → ℤ → UAttributes
  finished a f = record a { id = new_id; payload_format = f }

  module _ (pb : Protobuf) (a : UAttributes) (f : ℤ)
      (known : pb.payload_format_is_valid f ≡ true) where
    common_valid : SoundCommon pb a → ValidCommon pb now (finished a f)
    common_valid v = record {
      id = new_id_accepted;
      fresh = new_id_fresh a.ttl v.ttl;
      priority = v.priority;
      format = known;
    }

    pub publish_valid : SoundPublish pb a → ValidPublish pb now (finished a f)
    publish_valid v = record {
      common = common_valid v.common;
      type = v.type;
      source = v.source;
      sink = v.sink;
      commstatus = v.commstatus;
      reqid = v.reqid;
      permission_level = v.permission_level;
      token = v.token;
    }

    pub notification_valid : SoundNotification pb a → ValidNotification pb now (finished a f)
    notification_valid v = record {
      common = common_valid v.common;
      type = v.type;
      source = v.source;
      sink = v.sink;
      commstatus = v.commstatus;
      reqid = v.reqid;
      permission_level = v.permission_level;
      token = v.token;
    }

    pub request_valid : SoundRequest pb a → ValidRequest pb now (finished a f)
    request_valid v = record {
      common = common_valid v.common;
      type = v.type;
      source = v.source;
      sink = v.sink;
      priority = (not_ltb_ℤ_iff a.priority pb.priority_cs4).0 v.priority;
      ttl = positive_ttl a.ttl v.ttl v.common.ttl;
      commstatus = v.commstatus;
      reqid = v.reqid;
    }

    pub response_valid :
        (id : Uuid)
        → (is_uuid id now.reqid_checked).0 ≡ true
        → IsFresh id now.reqid_rechecked now.reqid_aged a.ttl
        → SoundResponse pb id a
        → ValidResponse pb now (finished a f)
    response_valid id accepted fresh v = record {
      common = common_valid v.common;
      type = v.type;
      source = v.source;
      sink = v.sink;
      priority = (not_ltb_ℤ_iff a.priority pb.priority_cs4).0 v.priority;
      reqid = (id, v.reqid, accepted, fresh);
      permission_level = v.permission_level;
      token = v.token;
    }
