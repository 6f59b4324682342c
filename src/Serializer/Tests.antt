-- ===== src/Serializer/Tests.antt =====
-- The round trips at concrete values.
use up_cpp.Common.{refl, ℕ, ◌≡◌, List, arith, eq_bytes, true, [], ◌∷◌}
use up_cpp.Common.Outcome.{ok}
use up_cpp.Samples.{topic, id}
use up_cpp.Validator.Uri.Filters.{filter_iff}
use up_cpp.Serializer.Uri
use up_cpp.Serializer.Uri.RoundTrip.{uri_round_trip}
use up_cpp.Serializer.Uri.Hex.{from_chars, read_digits, digit_value}
use up_cpp.Validator.Uri.{is_valid_filter}
use up_cpp.Builder.Message.{require_uri}
use up_cpp.Serializer.Text
use up_cpp.Serializer.Text.{hyphen, assemble}
use up_cpp.Serializer.Text.RoundTrip.{text_round_trip}

uri_round_trip_example :
    (text : List ℕ) × (Uri.serialize topic ≡ ok text) × (Uri.deserialize text ≡ ok topic)
uri_round_trip_example =
    uri_round_trip topic
      (ground (arith, (filter_iff topic).1 (omega arith, omega arith, omega arith, omega arith)))
      (((λ e. omega (arith, e)), tt), omega arith, omega arith, omega arith)

-- "//a/10001/1/8001"
abbrev topic_text : List ℕ
topic_text =
    b'/' ∷ b'/' ∷ b'a' ∷ b'/' ∷ b'1' ∷ b'0' ∷ b'0' ∷ b'0' ∷ b'1' ∷ b'/' ∷ b'1' ∷ b'/' ∷ b'8' ∷ b'0'
    ∷ b'0' ∷ b'1' ∷ []

topic_valid : (is_valid_filter topic).0 ≡ true
topic_valid =
    ground (arith, (filter_iff topic).1 (omega arith, omega arith, omega arith, omega arith))

topic_read : Uri.deserialize topic_text ≡ ok topic
unfolding Uri.deserialize Uri.extract_authority Uri.extract_segment Uri.find_separator
    Uri.segment_to_uint32 from_chars read_digits digit_value require_uri eq_bytes
topic_read = rw topic_valid refl

text_round_trip_example : Text.deserialize (Text.serialize id) ≡ ok id
text_round_trip_example = text_round_trip id (omega arith) (omega arith)
