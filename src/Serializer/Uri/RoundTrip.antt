-- ===== src/Serializer/Uri/RoundTrip.antt =====
-- The text of a URI, of src/datamodel/serializer/UUri.cpp, reads back as the URI.
use mathlib.Core.Path.{subst}
use up_cpp.Common.Outcome.{◌>>=◌, >>=-eq-ok, ok}
use up_cpp.Common.{
  String, ℕ, ◌^◌, ◌<◌, ◌≡◌, ◌≢◌, refl, inl, inr, true, false, some, List, [], ◌∷◌, ◌++◌, arith,
  eq_bytes, All, Bool-cases,
}
use up_cpp.Exception.{Result}
use up_cpp.Proto.{UUri}
use up_cpp.Validator.Uri.{is_local, is_valid_filter}
use up_cpp.Builder.Message.{require_uri}
use up_cpp.Serializer.Uri.{
  serialize, slash, find_separator, extract_segment, segment_to_uint32, extract_authority,
  deserialize,
}
use up_cpp.Serializer.Uri.Hex.{to_hex, digits-All, digits-head, from_chars-to_hex}

abbrev NoSlash : List ℕ → Type 0
NoSlash xs = All (λ c. c ≢ slash) xs

find_separator-append :
    (xs ys : List ℕ) → NoSlash xs → find_separator (xs ++ slash ∷ ys) ≡ some (xs, ys)
unfolding find_separator
find_separator-append [] ys h = refl
find_separator-append (x ∷ xs) ys h = ground (arith, h.0, find_separator-append xs ys h.1)

extract_segment-append :
    (xs ys : List ℕ) → NoSlash xs → extract_segment (xs ++ slash ∷ ys) ≡ ok (xs, ys)
unfolding extract_segment
extract_segment-append xs ys h = rw (extract_segment, find_separator-append xs ys h) refl

segment-to_hex : (n : ℕ) → n < 2 ^ 32 → segment_to_uint32 (to_hex n) ≡ ok n
unfolding segment_to_uint32
segment-to_hex n h = rw (segment_to_uint32, from_chars-to_hex n h) refl

hex_NoSlash : (n : ℕ) → n < 2 ^ 32 → NoSlash (to_hex n)
unfolding to_hex
hex_NoSlash n h = digits-All 7 n (omega (arith, h))

-- The part of the text behind the authority.
abbrev numbers : UUri → List ℕ
numbers u = to_hex u.ue_id ++ slash ∷ (to_hex u.ue_version_major ++ slash ∷ to_hex u.resource_id)

remote_authority :
    (authority rest : List ℕ)
    → NoSlash authority
    → extract_authority (slash ∷ slash ∷ authority ++ slash ∷ rest) ≡ ok (authority, rest)
unfolding extract_authority eq_bytes
remote_authority authority rest h = rw (extract_segment-append authority rest h) refl

local_authority :
    (c : ℕ) (rest : List ℕ) → c ≢ slash → extract_authority (slash ∷ c ∷ rest) ≡ ok ([], c ∷ rest)
unfolding extract_authority eq_bytes
local_authority c rest h = ground arith

empty_list : (xs : List ℕ) → (elim xs [ [] ↦ true | _ ↦ false ]) ≡ true → xs ≡ []
empty_list [] h = refl
empty_list (x ∷ xs) h = cc

-- Fields of 32 bits, and no '/' in the authority.
abbrev pub IsPrintable : UUri → Type 0
IsPrintable u =
    NoSlash u.authority_name
    × (u.ue_id < 2 ^ 32)
    × (u.ue_version_major < 2 ^ 32)
    × (u.resource_id < 2 ^ 32)

module _ (u : UUri) (valid : (is_valid_filter u).0 ≡ true) (printable : IsPrintable u) where
  read_back :
      (first : ℕ) (others : List ℕ)
      → extract_authority (first ∷ others) ≡ ok (u.authority_name, numbers u)
      → deserialize (first ∷ others) ≡ ok u
  unfolding deserialize require_uri
  read_back first others e =
      let version_text = to_hex u.ue_version_major ++ slash ∷ to_hex u.resource_id in
      rw e (
        rw (extract_segment-append (to_hex u.ue_id) version_text (hex_NoSlash u.ue_id printable.1))
          (rw (segment-to_hex u.ue_id printable.1) (
            rw
              (extract_segment-append (to_hex u.ue_version_major) (to_hex u.resource_id)
                (hex_NoSlash u.ue_version_major printable.2))
              (rw (segment-to_hex u.ue_version_major printable.2)
                (rw (segment-to_hex u.resource_id printable.3, valid) refl)))))

  numbers_local : extract_authority (slash ∷ numbers u) ≡ ok ([], numbers u)
  unfolding to_hex
  numbers_local =
      let (c, cs, e) = digits-head 7 u.ue_id in
      let plain = subst NoSlash e (hex_NoSlash u.ue_id printable.1) in
      rw e (local_authority c _ plain.0)

  local_empty : is_local u ≡ true → u.authority_name ≡ []
  unfolding is_local
  local_empty h = empty_list u.authority_name h

  -- A URI that passes the check for filters, with fields of 32 bits and no '/' in its authority, is
  -- printed, and the text reads back as that URI, local or not.
  pub uri_round_trip : (text : List ℕ) × (serialize u ≡ ok text) × (deserialize text ≡ ok u)
  unfolding serialize require_uri
  uri_round_trip = elim (Bool-cases (is_local u)) [
    | inl e ↦ (
      slash ∷ numbers u,
      rw (valid, e) refl,
      read_back slash (numbers u) (rw (local_empty e) numbers_local),
    )
    | inr e ↦ (
      slash ∷ slash ∷ u.authority_name ++ slash ∷ numbers u,
      rw (valid, e) refl,
      read_back slash _ (remote_authority u.authority_name (numbers u) printable.0),
    )
  ]

-- Code that checks every URI that it returns still does behind other code.
after :
    {A : Type 0} {u : UUri} (r : Result A) (next : A → Result UUri)
    → ((a : A) → next a ≡ ok u → (is_valid_filter u).0 ≡ true)
    → (r >>= next) ≡ ok u
    → (is_valid_filter u).0 ≡ true
after r next step e = let (a, first, rest) = >>=-eq-ok r next e in step a rest

checked_uri :
    (text : String) (v u : UUri)
    → require_uri text (is_valid_filter v) v ≡ ok u
    → (is_valid_filter u).0 ≡ true
unfolding require_uri
checked_uri text v u e = elim (Bool-cases (is_valid_filter v).0) [
  | inl valid ↦
      let same : v ≡ u = ground (arith, e, valid) in
      subst (λ w. (is_valid_filter w).0 ≡ true) same valid
  | inr invalid ↦ absurd (ground (arith, e, invalid))
]

-- Whatever text is read, a URI that comes of it passes the check for filters.
pub deserialized_uri_valid :
    (text : List ℕ) (u : UUri) → deserialize text ≡ ok u → (is_valid_filter u).0 ≡ true
unfolding deserialize
deserialized_uri_valid [] u e = cc
deserialized_uri_valid (first ∷ others) u e =
    after (extract_authority (first ∷ others)) _
      (λ found. after (extract_segment found.1) _ (λ id_text.
        after (segment_to_uint32 id_text.0) _ (λ ue_id.
          after (extract_segment id_text.1) _ (λ version_text.
            after (segment_to_uint32 version_text.0) _ (λ version.
              after (segment_to_uint32 version_text.1) _ (λ resource e'. checked_uri _ _ u e'))))))
      e
