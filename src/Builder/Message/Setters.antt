-- ===== src/Builder/Message/Setters.antt =====
-- The setters of src/datamodel/builder/UMessage.cpp as one operation, and what every call of one
-- leaves alone or keeps.
use up_cpp.Common.{
  ℕ, ◌%◌, ◌^◌, ◌≡◌, ◌≢◌, true, false, ◌||◌, some, List, [], ◌∷◌, arith, has_value, ◌∙◌,
}
use mathlib.Core.Path.{subst}
use up_cpp.Common.Int.{ℤ, pos_part, ltb_ℤ}
use up_cpp.Common.Outcome.{ok, ◌>>=◌, >>=-eq-ok}
use up_cpp.Proto.{UCode, Protobuf, IsDocumented}
use up_cpp.Exception.{Result}
use up_cpp.Validator.Message.{is_request, is_response}
use up_cpp.Builder.Message.{
  UMessageBuilder, is_bad_ttl, with_priority, with_ttl, with_token, with_permission_level,
  with_comm_status, with_payload_format,
}

-- A call of a setter other than `withMethod`.
pub data Setter : Type 0 where
  priority ttl payload_format : ℤ → Setter
  token : List ℕ → Setter
  permission_level : ℕ → Setter
  comm_status : UCode → Setter

module _ (pb : Protobuf) where
  unfoldable pub apply : Setter → UMessageBuilder → Result UMessageBuilder
  apply (priority p) b = with_priority pb b p
  apply (ttl t) b = with_ttl pb b t
  apply (payload_format f) b = with_payload_format pb b f
  apply (token t) b = with_token pb b t
  apply (permission_level l) b = with_permission_level pb b l
  apply (comm_status c) b = with_comm_status pb b c

  -- A chain of calls, which ends at the first that throws.
  unfoldable pub apply_all : List Setter → UMessageBuilder → Result UMessageBuilder
  apply_all [] b = ok b
  apply_all (s ∷ ss) b = do b' ← apply s b; apply_all ss b'

  pub apply_all-cons :
      (s : Setter) (ss : List Setter) (b mid c : UMessageBuilder)
      → apply s b ≡ ok mid
      → apply_all ss mid ≡ ok c
      → apply_all (s ∷ ss) b ≡ ok c
  unfolding apply_all
  apply_all-cons s ss b mid c e f = rw e f

  -- What a chain of setters keeps.
  pub record Frame (b b' : UMessageBuilder) : Type 0 where
    pub type : b'.attributes.type ≡ b.attributes.type
    pub source : b'.attributes.source ≡ b.attributes.source
    pub sink : b'.attributes.sink ≡ b.attributes.sink
    pub reqid : b'.attributes.reqid ≡ b.attributes.reqid
    pub uuid_builder : b'.uuid_builder ≡ b.uuid_builder
    pub token : is_request b.attributes.type ≡ false → b'.attributes.token ≡ b.attributes.token
    pub permission_level :
        is_request b.attributes.type ≡ false
        → b'.attributes.permission_level ≡ b.attributes.permission_level
    pub commstatus :
        is_response b.attributes.type ≡ false → b'.attributes.commstatus ≡ b.attributes.commstatus
    pub priority :
        pb.priority_is_valid b.attributes.priority ≡ true
        → pb.priority_is_valid b'.attributes.priority ≡ true
    pub rpc_priority :
        (is_request b.attributes.type || is_response b.attributes.type) ≡ true
        → ltb_ℤ b.attributes.priority pb.priority_cs4 ≡ false
        → ltb_ℤ b'.attributes.priority pb.priority_cs4 ≡ false
    pub format :
        pb.payload_format_is_valid b.attributes.payload_format ≡ true
        → pb.payload_format_is_valid b'.attributes.payload_format ≡ true
    pub ttl : b.attributes.ttl ≢ some 0 → b'.attributes.ttl ≢ some 0
    pub ttl_set : has_value b.attributes.ttl ≡ true → has_value b'.attributes.ttl ≡ true

  pub good_ttl : (t : ℤ) → is_bad_ttl t ≡ false → pos_part t % 2 ^ 32 ≢ 0
  unfolding ltb_ℤ
  good_ttl t h = ground arith

  module _ (doc : IsDocumented pb) where
    pub priority-Frame :
        (b b' : UMessageBuilder) (p : ℤ) → with_priority pb b p ≡ ok b' → Frame b b'
    unfolding with_priority
    priority-Frame b b' p e = ground (arith, doc.priority_range p)

    pub ttl-Frame : (b b' : UMessageBuilder) (t : ℤ) → with_ttl pb b t ≡ ok b' → Frame b b'
    unfolding with_ttl
    ttl-Frame b b' t e = ground (arith, good_ttl t)

    pub format-Frame :
        (b b' : UMessageBuilder) (f : ℤ) → with_payload_format pb b f ≡ ok b' → Frame b b'
    unfolding with_payload_format
    format-Frame b b' f e = ground (arith, doc.format_range f)

    pub token-Frame : (b b' : UMessageBuilder) (t : List ℕ) → with_token pb b t ≡ ok b' → Frame b b'
    unfolding with_token
    token-Frame b b' t e = ground arith

    pub permission_level-Frame :
        (b b' : UMessageBuilder) (l : ℕ) → with_permission_level pb b l ≡ ok b' → Frame b b'
    unfolding with_permission_level
    permission_level-Frame b b' l e = ground arith

    comm_status-Frame :
        (b b' : UMessageBuilder) (c : UCode) → with_comm_status pb b c ≡ ok b' → Frame b b'
    unfolding with_comm_status
    comm_status-Frame b b' c e = ground arith

    apply-Frame : (s : Setter) (b b' : UMessageBuilder) → apply s b ≡ ok b' → Frame b b'
    unfolding apply
    apply-Frame (priority p) b b' e = priority-Frame b b' p e
    apply-Frame (ttl t) b b' e = ttl-Frame b b' t e
    apply-Frame (payload_format f) b b' e = format-Frame b b' f e
    apply-Frame (token t) b b' e = token-Frame b b' t e
    apply-Frame (permission_level l) b b' e = permission_level-Frame b b' l e
    apply-Frame (comm_status c) b b' e = comm_status-Frame b b' c e

    pub Frame-refl : (b : UMessageBuilder) → Frame b b
    Frame-refl b = ground arith

    pub Frame-trans : (a b c : UMessageBuilder) → Frame a b → Frame b c → Frame a c
    Frame-trans a b c f g = record {
      type = g.type ∙ f.type;
      source = g.source ∙ f.source;
      sink = g.sink ∙ f.sink;
      reqid = g.reqid ∙ f.reqid;
      uuid_builder = g.uuid_builder ∙ f.uuid_builder;
      token = λ h. g.token (rw f.type h) ∙ f.token h;
      permission_level = λ h. g.permission_level (rw f.type h) ∙ f.permission_level h;
      commstatus = λ h. g.commstatus (rw f.type h) ∙ f.commstatus h;
      priority = λ h. g.priority (f.priority h);
      rpc_priority = λ h k. g.rpc_priority (rw f.type h) (f.rpc_priority h k);
      format = λ h. g.format (f.format h);
      ttl = λ h. g.ttl (f.ttl h);
      ttl_set = λ h. g.ttl_set (f.ttl_set h);
    }

    pub apply_all-Frame :
        (ss : List Setter) (b b' : UMessageBuilder) → apply_all ss b ≡ ok b' → Frame b b'
    unfolding apply_all
    apply_all-Frame [] b b' e =
        let same : b ≡ b' = ground arith in subst (Frame b) same (Frame-refl b)
    apply_all-Frame (s ∷ ss) b b' e =
        let (mid, first, rest) = >>=-eq-ok (apply s b) (apply_all ss) e in
        Frame-trans b mid b' (apply-Frame s b mid first) (apply_all-Frame ss mid b' rest)
