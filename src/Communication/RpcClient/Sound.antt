-- ===== src/Communication/RpcClient/Sound.antt =====
-- The builder that the constructor of src/communication/RpcClient.cpp leaves.
use mathlib.Core.Path.{subst}
use up_cpp.Common.{ℕ, ◌≡◌, refl, ◌∙◌, true, false, Option, none, some, List, arith, has_value}
use up_cpp.Common.Int.{ℤ, ltb_ℤ}
use up_cpp.Common.Outcome.{ok, >>=-eq-ok, ok-injective}
use up_cpp.Proto.{UUri, Protobuf, IsDocumented, request, default_uri}
use up_cpp.Exception.{Result}
use up_cpp.Builder.Uuid.{get_builder}
use up_cpp.Builder.Message.{
  UMessageBuilder, new_builder, with_priority, with_ttl, with_payload_format, set_payload_format,
  with_permission_level, with_token,
}
use up_cpp.Builder.Message.Setters.{
  Frame, priority-Frame, ttl-Frame, format-Frame, token-Frame, permission_level-Frame, Frame-refl,
  Frame-trans,
}
use up_cpp.Builder.Message.Factories.{with_priority_rpc, with_ttl_set, new_builder-SoundCommon}
use up_cpp.Builder.Message.Validity.{SoundCommon}
use up_cpp.Transport.{UTransport, get_entity_uri}
use up_cpp.Communication.Publisher.{apply_if}
use up_cpp.Communication.Senders.{with_priority_facts, with_ttl_facts}
use up_cpp.Communication.RpcClient.{RpcClient, new_client}

module _ (pb : Protobuf) where
  -- A builder of requests from a source, which still lacks the method.
  pub record SoundClient (entity : UUri) (format : Option ℤ) (b : UMessageBuilder) : Type 0 where
    pub common : SoundCommon pb b.attributes
    pub type : b.attributes.type ≡ request
    pub source : b.attributes.source ≡ some entity
    pub priority : ltb_ℤ b.attributes.priority pb.priority_cs4 ≡ false
    pub ttl : has_value b.attributes.ttl ≡ true
    pub commstatus : b.attributes.commstatus ≡ none
    pub reqid : b.attributes.reqid ≡ none
    pub uuid_builder : b.uuid_builder ≡ get_builder
    pub expects : b.expected_payload_format ≡ format
    pub known : (f : ℤ) → format ≡ some f → pb.payload_format_is_valid f ≡ true

  optional-Frame :
      {A : Type 0} (setter : UMessageBuilder → A → Result UMessageBuilder)
      → IsDocumented pb
      → ((b b' : UMessageBuilder) (a : A) → setter b a ≡ ok b' → Frame pb b b')
      → (b b' : UMessageBuilder) (o : Option A) → apply_if setter b o ≡ ok b'
      → Frame pb b b'
  optional-Frame setter doc h b b' none e =
      subst (Frame pb b) (ok-injective e) (Frame-refl pb doc b)
  optional-Frame setter doc h b b' (some a) e = h b b' a e

  settled_format :
      (b b' : UMessageBuilder) (o : Option ℤ)
      → IsDocumented pb
      → b.expected_payload_format ≡ none
      → apply_if (with_payload_format pb) b o ≡ ok b'
      → (b'.expected_payload_format ≡ o)
        × ((f : ℤ) → o ≡ some f → pb.payload_format_is_valid f ≡ true)
  unfolding with_payload_format set_payload_format
  settled_format b b' none doc before e = (ground (arith, e, before), λ f. cc)
  settled_format b b' (some f) doc before e =
      (ground (arith, e), λ g same. ground (arith, e, same, doc.format_range f))

  kept_format :
      (b b' b'' : UMessageBuilder) (level : Option ℕ) (token : Option (List ℕ))
      → apply_if (with_permission_level pb) b level ≡ ok b'
      → apply_if (with_token pb) b' token ≡ ok b''
      → b''.expected_payload_format ≡ b.expected_payload_format
  unfolding with_permission_level with_token
  kept_format b b' b'' level token e f = ground (arith, e, f, level, token)

  pub new_client-Sound :
      IsDocumented pb
      → (t : UTransport) (prio time : ℤ) (format : Option ℤ) (level : Option ℕ)
        (token : Option (List ℕ)) (instance_id : ℕ) (client : RpcClient)
      → new_client pb t prio time format level token instance_id ≡ ok client
      → SoundClient t.entity_uri format client.builder
        × (client ≡ record {
          transport = t;
          ttl = time;
          builder = client.builder;
          instance_id = instance_id;
        })
  unfolding new_client get_entity_uri new_builder
  new_client-Sound doc t prio time format level token instance_id client e =
      let start = new_builder request t.entity_uri (some default_uri) none in
      let (b1, first, rest1) = >>=-eq-ok (with_priority pb start prio) _ e in
      let (b2, second, rest2) = >>=-eq-ok (with_ttl pb b1 time) _ rest1 in
      let (b3, third, rest3) = >>=-eq-ok (apply_if (with_payload_format pb) b2 format) _ rest2 in
      let (b4, fourth, rest4) = >>=-eq-ok (apply_if (with_permission_level pb) b3 level) _ rest3 in
      let (b5, fifth, last) = >>=-eq-ok (apply_if (with_token pb) b4 token) _ rest4 in
      let f = priority-Frame pb doc start b1 prio first in
      let g = Frame-trans pb doc start b1 b2 f (ttl-Frame pb doc b1 b2 time second) in
      let h =
        Frame-trans pb doc b2 b3 b5 (optional-Frame _ doc (format-Frame pb doc) b2 b3 format third)
          (Frame-trans pb doc b3 b4 b5
            (optional-Frame _ doc (permission_level-Frame pb doc) b3 b4 level fourth)
            (optional-Frame _ doc (token-Frame pb doc) b4 b5 token fifth)) in
      let k = Frame-trans pb doc start b2 b5 g h in
      let common = new_builder-SoundCommon pb doc start refl refl refl in
      let (set, same_priority, same_status) = with_ttl_set pb doc b1 b2 time second in
      let (expects, known) =
        settled_format b2 b3 format doc
          ((with_ttl_facts pb b1 b2 (some time) second).0
            ∙ with_priority_facts pb start b1 prio first)
          third in
      subst
        (λ c.
          SoundClient t.entity_uri format c.builder
          × (c ≡ record {
            transport = t;
            ttl = time;
            builder = c.builder;
            instance_id = instance_id;
          }))
        (ok-injective last)
        (
          record {
            common = record {
              priority = k.priority common.priority;
              format = k.format common.format;
              ttl = k.ttl common.ttl;
            };
            type = k.type;
            source = k.source;
            priority =
                h.rpc_priority (rw g.type refl)
                  (rw same_priority (with_priority_rpc pb doc start b1 prio first refl));
            ttl = h.ttl_set set;
            commstatus = k.commstatus refl;
            reqid = k.reqid;
            uuid_builder = k.uuid_builder;
            expects = kept_format b3 b4 b5 level token fourth fifth ∙ expects;
            known = known;
          },
          refl,
        )
