-- ===== src/Validator/Message/Conditions.antt =====
-- The conditions that messages of each type meet, for the checks of
-- src/datamodel/validator/UMessage.cpp.
use up_cpp.Common.{
  ◌%◌, ◌^◌, ℕ, suc, ◌≡◌, ◌↔◌, ◌⊎◌, refl, true, false, not, Option, none, some, arith, has_value,
  value_or, ◌||◌, ◌==◌, zero,
}
use mathlib.Core.Path.{subst}
use up_cpp.Common.Int.{ℤ, pos, ◌≤ℤ◌}
use up_cpp.Proto.{
  UUri, Uuid, UAttributes, UMessage, Protobuf, publish, request, response, notification,
  default_uri,
}
use up_cpp.Validator.Uri
use up_cpp.Validator.Uri.Accepted.{IsMethod, IsEntity, IsTopic}
use up_cpp.Validator.Uuid.{is_uuid, is_expired}
use up_cpp.Validator.Message.{
  ValidationResult, Readings, is_ttl_passed, are_common_attributes_valid,
}

abbrev pub IsOk : ValidationResult → Type 0
IsOk r = r ≡ (true, none)

-- A time to live, a uint32, that is absent or 0 never passes.
abbrev pub IsFresh : Uuid → ℤ → ℤ → Option ℕ → Type 0
IsFresh id rechecked aged none = Unit
IsFresh id rechecked aged (some t) =
    (t % 2 ^ 32 ≡ 0) ⊎ ((is_expired id (pos (t % 2 ^ 32)) rechecked aged).0 ≡ false)

pub is_ttl_passed_iff :
    (ttl : Option ℕ) (id : Uuid) (rechecked aged : ℤ)
    → (is_ttl_passed ttl id rechecked aged ≡ false) ↔ IsFresh id rechecked aged ttl
unfolding is_ttl_passed
is_ttl_passed_iff none id rechecked aged = ground arith
is_ttl_passed_iff (some t) id rechecked aged = ground arith

pub ttl_set_iff :
    (ttl : Option ℕ)
    → ((not (has_value ttl) || (value_or ttl 0 == 0)) ≡ false) ↔ ((t : ℕ) × (ttl ≡ some (suc t)))
ttl_set_iff none = (λ e. cc, λ h. cc (h.1))
ttl_set_iff (some zero) = (λ e. cc, λ h. cc (h.1))
ttl_set_iff (some (suc t)) = (λ e. (t, refl), λ h. ground arith)

-- A set field that holds a URI of the form that a check tests.
abbrev pub Holds : Option UUri → (UUri → Type 0) → Type 0
Holds field P = (u : UUri) × (field ≡ some u) × P u

pub holds_iff :
    {P : UUri → Type 0} (field : Option UUri) (check : UUri → Uri.ValidationResult)
    → ((u : UUri) → ((check u).0 ≡ true) ↔ P u)
    → ((has_value field ≡ true) × ((check (value_or field default_uri)).0 ≡ true)) ↔ Holds field P
holds_iff none check f = (λ e. cc (e.0), λ h. cc (h.1))
holds_iff {P} (some u) check f =
    (λ e. (u, refl, (f u).0 e.1), λ h. (refl, (f u).1 (let e : h.0 ≡ u = cc in subst P e h.2)))

module _ (pb : Protobuf) (now : Readings) where
  pub record ValidCommon (a : UAttributes) : Type 0 where
    pub id : (is_uuid a.id now.id_checked).0 ≡ true
    pub fresh : IsFresh a.id now.id_rechecked now.id_aged a.ttl
    pub priority : pb.priority_is_valid a.priority ≡ true
    pub format : pb.payload_format_is_valid a.payload_format ≡ true

  pub record ValidRequest (a : UAttributes) : Type 0 where
    pub common : ValidCommon a
    pub type : a.type ≡ request
    pub source : Holds a.source IsEntity
    pub sink : Holds a.sink IsMethod
    pub priority : pb.priority_cs4 ≤ℤ a.priority
    pub ttl : (t : ℕ) × (a.ttl ≡ some (suc t))
    pub commstatus : a.commstatus ≡ none
    pub reqid : a.reqid ≡ none

  pub record ValidResponse (a : UAttributes) : Type 0 where
    pub common : ValidCommon a
    pub type : a.type ≡ response
    pub source : Holds a.source IsMethod
    pub sink : Holds a.sink IsEntity
    pub priority : pb.priority_cs4 ≤ℤ a.priority
    pub reqid :
        (r : Uuid) × (a.reqid ≡ some r)
        × ((is_uuid r now.reqid_checked).0 ≡ true)
        × IsFresh r now.reqid_rechecked now.reqid_aged a.ttl
    pub permission_level : a.permission_level ≡ none
    pub token : a.token ≡ none

  pub record ValidPublish (a : UAttributes) : Type 0 where
    pub common : ValidCommon a
    pub type : a.type ≡ publish
    pub source : Holds a.source IsTopic
    pub sink : a.sink ≡ none
    pub commstatus : a.commstatus ≡ none
    pub reqid : a.reqid ≡ none
    pub permission_level : a.permission_level ≡ none
    pub token : a.token ≡ none

  pub record ValidNotification (a : UAttributes) : Type 0 where
    pub common : ValidCommon a
    pub type : a.type ≡ notification
    pub source : Holds a.source IsTopic
    pub sink : Holds a.sink IsEntity
    pub commstatus : a.commstatus ≡ none
    pub reqid : a.reqid ≡ none
    pub permission_level : a.permission_level ≡ none
    pub token : a.token ≡ none

  pub common_iff :
      (m : UMessage) → ((are_common_attributes_valid pb now m).0 ≡ true) ↔ ValidCommon m.attributes
  unfolding are_common_attributes_valid
  common_iff m = (
    λ e. record {
      id = ground arith;
      fresh = (is_ttl_passed_iff a.ttl a.id now.id_rechecked now.id_aged).0 (ground arith);
      priority = ground arith;
      format = ground arith;
    },
    λ v.
        ground (arith, v.id, (is_ttl_passed_iff a.ttl a.id now.id_rechecked now.id_aged).1 v.fresh),
  )
    where
      open m use {attributes as a}
