-- ===== src/Serializer/Uri.antt =====
-- src/datamodel/serializer/UUri.cpp, over byte texts. `std::hex << std::uppercase` and
-- `std::from_chars` with base 16 are written out for 32 bits.
pub mod Hex
pub mod RoundTrip
use up_cpp.Common.{
  ℕ, String, Bool, true, false, not, Option, none, some, List, [], ◌∷◌, ◌++◌, take, drop, length,
  eq_bytes, if◌then◌else◌, ◌==◌,
}
use up_cpp.Common.Outcome.{ok, throw, ◌>>=◌}
use up_cpp.Proto.{UUri}
use up_cpp.Exception.{Result, invalid_argument, invalid_uuri}
use up_cpp.Validator.Uri
use up_cpp.Validator.Uri.{is_local, is_valid_filter}
use up_cpp.Builder.Message.{require_uri}
use Hex.{to_hex, from_chars}

abbrev pub slash : ℕ
slash = b'/'

unfoldable pub serialize : UUri → Result (List ℕ)
serialize uri = require_uri "Invalid UUri For Serialization | " (is_valid_filter uri) (
    (if is_local uri then [] else slash ∷ slash ∷ uri.authority_name)
    ++ slash
      ∷ (to_hex uri.ue_id
          ++ slash ∷ (to_hex uri.ue_version_major ++ slash ∷ to_hex uri.resource_id)))

-- The text up to the first '/' and the text behind it, if there is one.
unfoldable pub find_separator : List ℕ → Option (List ℕ × List ℕ)
find_separator [] = none
find_separator (c ∷ cs) =
    let rest = find_separator cs in
    if c == slash
    then some ([], cs)
    else elim rest [ none ↦ none | some (segment, tail) ↦ some (c ∷ segment, tail) ]

-- The segment, and what is left of the view.
unfoldable pub extract_segment : List ℕ → Result (List ℕ × List ℕ)
unfolding find_separator
extract_segment uri_view = elim (find_separator uri_view) [
  | none ↦ throw (invalid_argument "Could not extract segment")
  | some found ↦ ok found
]

unfoldable pub segment_to_uint32 : List ℕ → Result ℕ
segment_to_uint32 segment = elim (from_chars segment) [
  | none ↦ throw (invalid_argument "Failed to convert segment to number: ")
  | some value ↦ ok value
]

abbrev pub schema_prefix : List ℕ
schema_prefix = b'u' ∷ b'p' ∷ b':' ∷ slash ∷ slash ∷ []

abbrev pub remote_prefix : List ℕ
remote_prefix = slash ∷ slash ∷ []

-- The authority, and the view behind it.
unfoldable pub extract_authority : List ℕ → Result (List ℕ × List ℕ)
unfolding extract_segment
extract_authority view =
    if eq_bytes (take 5 view) schema_prefix
    then extract_segment (drop 5 view)
    else if eq_bytes (take 2 view) remote_prefix
    then extract_segment (drop 2 view)
    else if eq_bytes (take 1 view) (slash ∷ [])
    then ok ([], drop 1 view)
    else throw (invalid_argument "Did not find expected URI start in string: ")

unfoldable pub deserialize : List ℕ → Result UUri
deserialize [] = throw (invalid_argument "Cannot deserialize empty string")
deserialize (first ∷ others) = do
  (authority, view) ← extract_authority (first ∷ others)
  (ue_id_text, view') ← extract_segment view
  ue_id ← segment_to_uint32 ue_id_text
  (version_text, view'') ← extract_segment view'
  version ← segment_to_uint32 version_text
  resource ← segment_to_uint32 view''
  let uri : UUri = record {
    authority_name = authority;
    ue_id = ue_id;
    ue_version_major = version;
    resource_id = resource;
  }
  require_uri "Invalid UUri For DeSerialization | " (is_valid_filter uri) uri
