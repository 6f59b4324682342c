-- ===== src/Serializer/Text.antt =====
-- `AsString` of src/datamodel/serializer/Uuid.cpp, over byte texts. `std::hex` with a width and the
-- fill '0', and `std::stoull` with base 16, are written out for 64 bits.
pub mod Numbers
pub mod Digits
pub mod RoundTrip
use up_cpp.Common.{
  ℕ, ◌+◌, ◌*◌, ◌/◌, ◌%◌, ◌^◌, Bool, true, false, not, ◌||◌, Option, none, some, List, [], ◌∷◌, ◌++◌,
  bit_or, ◌==◌, if◌then◌else◌, take, drop, length,
}
use up_cpp.Common.Outcome.{ok, throw}
use up_cpp.Proto.{Uuid}
use up_cpp.Exception.{Result, invalid_argument}
use up_cpp.UuidConstants.{
  uuid_timestamp_bits, uuid_timestamp_shift, uuid_version_bits, uuid_version_shift,
  uuid_variant_bits, uuid_variant_shift, uuid_random_a_bits, uuid_random_b_bits,
}
use Numbers.{put_hex, stoull}

abbrev pub random_b_shift : ℕ
random_b_shift = 48

abbrev pub hyphen : ℕ
hyphen = b'-'

-- The five numbers of the text: `/ 2 ^ k` for `>> k`, and `% 2 ^ k` for a mask of `k` bits.
abbrev pub timestamp_high : Uuid → ℕ
timestamp_high uuid =
    uuid.msb / 2 ^ uuid_timestamp_shift % 2 ^ uuid_timestamp_bits / 2 ^ (4 * 4) % 2 ^ 32

abbrev pub timestamp_low : Uuid → ℕ
timestamp_low uuid = uuid.msb / 2 ^ uuid_timestamp_shift % 2 ^ uuid_timestamp_bits % 2 ^ 16

abbrev pub version_and_random : Uuid → ℕ
version_and_random uuid =
    bit_or (uuid.msb / 2 ^ uuid_version_shift % 2 ^ uuid_version_bits * 2 ^ uuid_version_shift)
      (uuid.msb % 2 ^ uuid_random_a_bits)

abbrev pub variant_and_random : Uuid → ℕ
variant_and_random uuid =
    bit_or (uuid.lsb / 2 ^ uuid_variant_shift % 2 ^ uuid_variant_bits * 2 ^ (4 * 3 + 2))
      (uuid.lsb % 2 ^ uuid_random_b_bits / 2 ^ random_b_shift % 2 ^ 14)

abbrev pub random_low : Uuid → ℕ
random_low uuid = uuid.lsb % 2 ^ uuid_random_b_bits % 2 ^ uuid_timestamp_bits

unfoldable pub serialize : Uuid → List ℕ
serialize uuid =
    put_hex 8 (timestamp_high uuid)
    ++ hyphen
      ∷ (put_hex 4 (timestamp_low uuid)
          ++ hyphen
            ∷ (put_hex 4 (version_and_random uuid)
                ++ hyphen
                  ∷ (put_hex 4 (variant_and_random uuid) ++ hyphen ∷ put_hex 12 (random_low uuid))))

-- `str[pos] != '-'`, of a position in the text.
unfoldable pub is_not_hyphen : ℕ → List ℕ → Bool
is_not_hyphen pos str = elim (drop pos str) [ [] ↦ true | c ∷ cs ↦ not (c == hyphen) ]

unfoldable pub is_malformed : List ℕ → Bool
unfolding is_not_hyphen
is_malformed str =
    not (length str == 36)
    || is_not_hyphen 8 str
    || is_not_hyphen 13 str
    || is_not_hyphen 18 str
    || is_not_hyphen 23 str

-- The UUID of the five numbers: shifts of 64-bit and casts to 16-bit numbers.
abbrev pub assemble : ℕ → ℕ → ℕ → ℕ → ℕ → Uuid
assemble ts_high ts_low third fourth random =
    let unix_ts_ms = bit_or (ts_high * 2 ^ (4 * 4) % 2 ^ 64) ts_low in
    let msb_low = third % 2 ^ 16 in
    let ver = msb_low / 2 ^ (4 * 3) % 2 ^ uuid_version_bits in
    let rand_a = msb_low % 2 ^ uuid_random_a_bits in
    let var_randb = fourth % 2 ^ 16 in
    let var = var_randb / 2 ^ (4 * 3 + 2) % 2 ^ uuid_variant_bits in
    let rand_b = bit_or (var_randb % 2 ^ 14 * 2 ^ random_b_shift) random in
    record {
      msb =
          bit_or
            (bit_or (unix_ts_ms * 2 ^ uuid_timestamp_shift % 2 ^ 64) (ver * 2 ^ uuid_version_shift))
            rand_a;
      lsb = bit_or (var * 2 ^ uuid_variant_shift % 2 ^ 64) rand_b;
    }

abbrev pub assemble_all : Option ℕ → Option ℕ → Option ℕ → Option ℕ → Option ℕ → Option Uuid
assemble_all (some a) (some b) (some c) (some d) (some e) = some (assemble a b c d e)
assemble_all _ _ _ _ _ = none

abbrev pub or_malformed : Option Uuid → Result Uuid
or_malformed none = throw (invalid_argument "Invalid UUID string format")
or_malformed (some uuid) = ok uuid

unfoldable pub deserialize : List ℕ → Result Uuid
unfolding is_malformed
deserialize str =
    if is_malformed str
    then throw (invalid_argument "Invalid UUID string format")
    else or_malformed (
        assemble_all (stoull (take 8 str)) (stoull (take 4 (drop 9 str)))
          (stoull (take 4 (drop 14 str))) (stoull (take 4 (drop 19 str))) (stoull (drop 24 str)))
