-- ===== src/Builder/Message/Factories.antt =====
-- The builders that the factories of src/datamodel/builder/UMessage.cpp return are sound.
use mathlib.Core.Path.{subst}
use up_cpp.Common.{
  ◌≡◌, refl, sym, ◌∙◌, Bool, true, false, not, ◌||◌, Option, none, some, String, arith, has_value,
  if◌then◌else◌,
}
use up_cpp.Common.Int.{ℤ, pos, ltb_ℤ}
use up_cpp.Common.Outcome.{ok, throw, >>=-eq-ok}
use up_cpp.Proto.{UUri, Uuid, Protobuf, IsDocumented, publish, request, response, notification}
use up_cpp.Exception.{out_of_range, invalid_uuid}
use up_cpp.Validator.Uri
use up_cpp.Validator.Uri.Accepted.{
  IsMethod-accepted, response_accepted, IsTopic-accepted, notification_source_accepted,
  notification_sink_accepted,
}
use up_cpp.Validator.Reasons.{UuidReason}
use up_cpp.Validator.Uuid.{is_uuid}
use up_cpp.Validator.Message.{is_request, is_response}
use up_cpp.Builder.Uuid.{get_builder}
use up_cpp.Builder.Message.{
  UMessageBuilder, new_builder, is_bad_ttl, require_uri, publish_builder, notification_builder,
  request_builder, response_builder, with_priority, with_ttl,
}
use up_cpp.Builder.Message.Setters.{priority-Frame, ttl-Frame}
use up_cpp.Builder.Message.Validity.{
  SoundCommon, SoundPublish, SoundNotification, SoundRequest, SoundResponse,
}

require_uri_ok {ℓ} :
    {A : Type ℓ} (text : String) (r : Uri.ValidationResult) (a x : A)
    → require_uri text r a ≡ ok x
    → (r.0 ≡ true) × (a ≡ x)
unfolding require_uri
require_uri_ok text (true, reason) a x e = (refl, cc)
require_uri_ok text (false, reason) a x e = cc

module _ (pb : Protobuf) (doc : IsDocumented pb) where
  -- A factory's attributes before any setter: no time to live, and default priority and format.
  pub new_builder-SoundCommon :
      (b : UMessageBuilder)
      → b.attributes.priority ≡ pos 0
      → b.attributes.payload_format ≡ pos 0
      → b.attributes.ttl ≡ none
      → SoundCommon pb b.attributes
  new_builder-SoundCommon b p f t = record {
    priority = rw p doc.default_priority;
    format = rw f doc.default_format;
    ttl = rw t (λ e. cc);
  }

  pub publish_builder-Sound :
      (topic : UUri) (b : UMessageBuilder)
      → publish_builder pb topic ≡ ok b
      → SoundPublish pb b.attributes × (b.uuid_builder ≡ get_builder)
  unfolding publish_builder new_builder
  publish_builder-Sound topic b e =
      let (accepted, same) = require_uri_ok _ _ _ b e in
      let topic_ok = (IsTopic-accepted topic).0 accepted in
      let common = new_builder-SoundCommon (new_builder publish topic none none) refl refl refl in
      subst (λ c. SoundPublish pb c.attributes × (c.uuid_builder ≡ get_builder)) same
        (
          record {
            common = common;
            type = refl;
            source = (topic, refl, topic_ok);
            sink = refl;
            commstatus = refl;
            reqid = refl;
            permission_level = refl;
            token = refl;
          },
          refl,
        )

  pub notification_builder-Sound :
      (source sink : UUri) (b : UMessageBuilder)
      → notification_builder pb source sink ≡ ok b
      → SoundNotification pb b.attributes × (b.uuid_builder ≡ get_builder)
  unfolding notification_builder new_builder
  notification_builder-Sound source sink b e =
      let (s, first, rest) = >>=-eq-ok _ _ e in
      let (k, second, last) = >>=-eq-ok _ _ rest in
      let (source_ok, same_source) = require_uri_ok _ _ source s first in
      let (sink_ok, same_sink) = require_uri_ok _ _ sink k second in
      let start = new_builder notification s (some k) none in
      let same : start ≡ b = ground (arith, last) in
      subst (λ c. SoundNotification pb c.attributes × (c.uuid_builder ≡ get_builder)) same
        (
          record {
            common = new_builder-SoundCommon start refl refl refl;
            type = refl;
            source =
                (s, refl, rw (← same_source) ((notification_source_accepted source).0 source_ok));
            sink = (k, refl, rw (← same_sink) ((notification_sink_accepted sink).0 sink_ok));
            commstatus = refl;
            reqid = refl;
            permission_level = refl;
            token = refl;
          },
          refl,
        )

  pub with_priority_rpc :
      (b b' : UMessageBuilder) (p : ℤ)
      → with_priority pb b p ≡ ok b'
      → (is_request b.attributes.type || is_response b.attributes.type) ≡ true
      → ltb_ℤ b'.attributes.priority pb.priority_cs4 ≡ false
  unfolding with_priority
  with_priority_rpc b b' p e rpc = ground arith

  pub with_ttl_set :
      (b b' : UMessageBuilder) (t : ℤ)
      → with_ttl pb b t ≡ ok b'
      → (has_value b'.attributes.ttl ≡ true)
        × (b'.attributes.priority ≡ b.attributes.priority)
        × (b'.attributes.commstatus ≡ b.attributes.commstatus)
  unfolding with_ttl
  with_ttl_set b b' t e = ground arith

  ttl_guard_ok :
      (ttl : ℤ) (b c : UMessageBuilder)
      → (if is_bad_ttl ttl then throw (out_of_range "TTL value is out of range") else ok b) ≡ ok c
      → b ≡ c
  ttl_guard_ok ttl b c e = ground arith

  pub request_builder-Sound :
      (method source : UUri) (priority ttl : ℤ) (b : UMessageBuilder)
      → request_builder pb method source priority ttl ≡ ok b
      → SoundRequest pb b.attributes × (b.uuid_builder ≡ get_builder)
  unfolding request_builder new_builder
  request_builder-Sound method source priority ttl b e =
      let (m, first, rest) = >>=-eq-ok _ _ e in
      let (s, second, rest') = >>=-eq-ok _ _ rest in
      let (start', third, rest'') = >>=-eq-ok _ _ rest' in
      let (prior, fourth, last) = >>=-eq-ok _ _ rest'' in
      let (method_ok, same_method) = require_uri_ok _ _ method m first in
      let (source_ok, same_source) = require_uri_ok _ _ source s second in
      let start = new_builder request s (some m) none in
      let fourth' =
        subst (λ c. with_priority pb c priority ≡ ok prior)
          (sym (ttl_guard_ok ttl start start' third)) fourth in
      let f = priority-Frame pb doc start prior priority fourth' in
      let g = ttl-Frame pb doc prior b ttl last in
      let common = new_builder-SoundCommon start refl refl refl in
      let (set, same_priority, same_status) = with_ttl_set prior b ttl last in
      (
        record {
          common = record {
            priority = g.priority (f.priority common.priority);
            format = g.format (f.format common.format);
            ttl = g.ttl (f.ttl common.ttl);
          };
          type = g.type ∙ f.type;
          source =
              rw (g.source, f.source)
                (s, refl, rw (← same_source) ((response_accepted source).0 source_ok));
          sink =
              rw (g.sink, f.sink)
                (m, refl, rw (← same_method) ((IsMethod-accepted method).0 method_ok));
          priority = rw same_priority (with_priority_rpc start prior priority fourth' refl);
          ttl = set;
          commstatus = same_status ∙ f.commstatus refl;
          reqid = g.reqid ∙ f.reqid;
        },
        g.uuid_builder ∙ f.uuid_builder,
      )

  id_guard_ok :
      (r : Bool × Option UuidReason) (b c : UMessageBuilder)
      → (if not r.0 then throw (invalid_uuid "Request id is not a valid UUid | " r.1) else ok b)
        ≡ ok c
      → b ≡ c
  id_guard_ok r b c e = ground arith

  pub response_builder-Sound :
      (sink : UUri) (request_id : Uuid) (priority : ℤ) (method : UUri) (checked : ℤ)
      (b : UMessageBuilder)
      → response_builder pb sink request_id priority method checked ≡ ok b
      → SoundResponse pb request_id b.attributes × (b.uuid_builder ≡ get_builder)
  unfolding response_builder new_builder
  response_builder-Sound sink request_id priority method checked b e =
      let (m, first, rest) = >>=-eq-ok _ _ e in
      let (s, second, rest') = >>=-eq-ok _ _ rest in
      let (start', third, last) = >>=-eq-ok _ _ rest' in
      let (method_ok, same_method) = require_uri_ok _ _ method m first in
      let (sink_ok, same_sink) = require_uri_ok _ _ sink s second in
      let start = new_builder response m (some s) (some request_id) in
      let same = id_guard_ok (is_uuid request_id checked) start start' third in
      let last' = subst (λ c. with_priority pb c priority ≡ ok b) (sym same) last in
      let f = priority-Frame pb doc start b priority last' in
      let common = new_builder-SoundCommon start refl refl refl in
      (
        record {
          common = record {
            priority = f.priority common.priority;
            format = f.format common.format;
            ttl = f.ttl common.ttl;
          };
          type = f.type;
          source =
              rw f.source (m, refl, rw (← same_method) ((IsMethod-accepted method).0 method_ok));
          sink = rw f.sink (s, refl, rw (← same_sink) ((response_accepted sink).0 sink_ok));
          priority = with_priority_rpc start b priority last' refl;
          reqid = f.reqid;
          permission_level = f.permission_level refl;
          token = f.token refl;
        },
        f.uuid_builder,
      )
