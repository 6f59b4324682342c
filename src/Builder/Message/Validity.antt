-- ===== src/Builder/Message/Validity.antt =====
-- A message that a builder of src/datamodel/builder/UMessage.cpp builds passes the checks of
-- src/datamodel/validator/UMessage.cpp.
use up_cpp.Common.{◌≡◌, ◌≢◌, refl, ◌∙◌, true, false, none, some, has_value}
use up_cpp.Common.Int.{ltb_ℤ}
use up_cpp.Proto.{Uuid, UAttributes, Protobuf, publish, request, response, notification}
use up_cpp.Validator.Uri.Accepted.{IsMethod, IsEntity, IsTopic}
use up_cpp.Validator.Message.Kinds.{Holds}
use up_cpp.Builder.Message.{UMessageBuilder}
use up_cpp.Builder.Message.Setters.{Frame}

module _ (pb : Protobuf) where
  -- What a builder's attributes meet, whatever the type: the parts that no ID enters.
  pub record SoundCommon (a : UAttributes) : Type 0 where
    pub priority : pb.priority_is_valid a.priority ≡ true
    pub format : pb.payload_format_is_valid a.payload_format ≡ true
    pub ttl : a.ttl ≢ some 0

  pub record SoundPublish (a : UAttributes) : Type 0 where
    pub common : SoundCommon a
    pub type : a.type ≡ publish
    pub source : Holds a.source IsTopic
    pub sink : a.sink ≡ none
    pub commstatus : a.commstatus ≡ none
    pub reqid : a.reqid ≡ none
    pub permission_level : a.permission_level ≡ none
    pub token : a.token ≡ none

  pub record SoundNotification (a : UAttributes) : Type 0 where
    pub common : SoundCommon a
    pub type : a.type ≡ notification
    pub source : Holds a.source IsTopic
    pub sink : Holds a.sink IsEntity
    pub commstatus : a.commstatus ≡ none
    pub reqid : a.reqid ≡ none
    pub permission_level : a.permission_level ≡ none
    pub token : a.token ≡ none

  pub record SoundRequest (a : UAttributes) : Type 0 where
    pub common : SoundCommon a
    pub type : a.type ≡ request
    pub source : Holds a.source IsEntity
    pub sink : Holds a.sink IsMethod
    pub priority : ltb_ℤ a.priority pb.priority_cs4 ≡ false
    pub ttl : has_value a.ttl ≡ true
    pub commstatus : a.commstatus ≡ none
    pub reqid : a.reqid ≡ none

  -- The request ID passes the check at some reading of the clock.
  pub record SoundResponse (id : Uuid) (a : UAttributes) : Type 0 where
    pub common : SoundCommon a
    pub type : a.type ≡ response
    pub source : Holds a.source IsMethod
    pub sink : Holds a.sink IsEntity
    pub priority : ltb_ℤ a.priority pb.priority_cs4 ≡ false
    pub reqid : a.reqid ≡ some id
    pub permission_level : a.permission_level ≡ none
    pub token : a.token ≡ none

  module _ (b b' : UMessageBuilder) (f : Frame pb b b') where
    common_kept : SoundCommon b.attributes → SoundCommon b'.attributes
    common_kept v = record {
      priority = f.priority v.priority;
      format = f.format v.format;
      ttl = f.ttl v.ttl;
    }

    pub publish_kept : SoundPublish b.attributes → SoundPublish b'.attributes
    publish_kept v = record {
      common = common_kept v.common;
      type = f.type ∙ v.type;
      source = rw f.source v.source;
      sink = f.sink ∙ v.sink;
      commstatus = f.commstatus (rw v.type refl) ∙ v.commstatus;
      reqid = f.reqid ∙ v.reqid;
      permission_level = f.permission_level (rw v.type refl) ∙ v.permission_level;
      token = f.token (rw v.type refl) ∙ v.token;
    }

    pub notification_kept : SoundNotification b.attributes → SoundNotification b'.attributes
    notification_kept v = record {
      common = common_kept v.common;
      type = f.type ∙ v.type;
      source = rw f.source v.source;
      sink = rw f.sink v.sink;
      commstatus = f.commstatus (rw v.type refl) ∙ v.commstatus;
      reqid = f.reqid ∙ v.reqid;
      permission_level = f.permission_level (rw v.type refl) ∙ v.permission_level;
      token = f.token (rw v.type refl) ∙ v.token;
    }

    pub request_kept : SoundRequest b.attributes → SoundRequest b'.attributes
    request_kept v = record {
      common = common_kept v.common;
      type = f.type ∙ v.type;
      source = rw f.source v.source;
      sink = rw f.sink v.sink;
      priority = f.rpc_priority (rw v.type refl) v.priority;
      ttl = f.ttl_set v.ttl;
      commstatus = f.commstatus (rw v.type refl) ∙ v.commstatus;
      reqid = f.reqid ∙ v.reqid;
    }

    pub response_kept : (id : Uuid) → SoundResponse id b.attributes → SoundResponse id b'.attributes
    response_kept id v = record {
      common = common_kept v.common;
      type = f.type ∙ v.type;
      source = rw f.source v.source;
      sink = rw f.sink v.sink;
      priority = f.rpc_priority (rw v.type refl) v.priority;
      reqid = f.reqid ∙ v.reqid;
      permission_level = f.permission_level (rw v.type refl) ∙ v.permission_level;
      token = f.token (rw v.type refl) ∙ v.token;
    }
