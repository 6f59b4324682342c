-- ===== src/Serializer/Text/RoundTrip.antt =====
-- The text form of UUIDs in src/datamodel/serializer/Uuid.cpp reads back.
use up_cpp.Common.{
  ℕ, ◌+◌, ◌*◌, ◌/◌, ◌%◌, ◌^◌, ◌<◌, ◌≡◌, refl, ◌∙◌, ap, List, ◌∷◌, ◌++◌, arith, bit_or, length,
}
use up_cpp.Common.Bits.{bit_or_disjoint}
use up_cpp.Common.Outcome.{ok}
use up_cpp.Proto.{Uuid}
use up_cpp.Serializer.Text.{
  serialize, deserialize, is_malformed, is_not_hyphen, assemble, assemble_all, or_malformed, hyphen,
  timestamp_high, timestamp_low, version_and_random, variant_and_random, random_low,
}
use up_cpp.Serializer.Text.Numbers.{stoull, lower_digit}
use up_cpp.Serializer.Text.Digits.{fixed, put_hex-fixed, stoull-fixed, stoull-stops}

-- The text of five numbers.
abbrev joined : ℕ → ℕ → ℕ → ℕ → ℕ → List ℕ
joined a b c d e =
    fixed 8 a
    ++ hyphen ∷ (fixed 4 b ++ hyphen ∷ (fixed 4 c ++ hyphen ∷ (fixed 4 d ++ hyphen ∷ fixed 12 e)))

-- Its segments stand where `deserialize` looks for them.
segments :
    (a b c d e : ℕ)
    → deserialize (joined a b c d e)
      ≡ or_malformed (
          assemble_all
            (stoull (fixed 8 a))
            (stoull (fixed 4 b))
            (stoull (fixed 4 c))
            (stoull (fixed 4 d))
            (stoull (fixed 12 e)))
unfolding deserialize is_malformed is_not_hyphen fixed
segments a b c d e = refl

deserialize-joined :
    (a b c d e : ℕ)
    → a < 2 ^ 32
    → b < 2 ^ 16
    → c < 2 ^ 16
    → d < 2 ^ 16
    → e < 2 ^ 48
    → deserialize (joined a b c d e) ≡ ok (assemble a b c d e)
deserialize-joined a b c d e ha hb hc hd he =
    segments a b c d e
    ∙ rw
        (
          stoull-fixed 6 a (omega (arith, ha)) (omega (arith, ha)),
          stoull-fixed 2 b (omega (arith, hb)) (omega (arith, hb)),
          stoull-fixed 2 c (omega (arith, hc)) (omega (arith, hc)),
          stoull-fixed 2 d (omega (arith, hd)) (omega (arith, hd)),
          stoull-fixed 10 e (omega (arith, he)) (omega (arith, he)),
        )
        refl

timestamp_joined :
    (ts : ℕ) → ts < 2 ^ 48 → bit_or (ts / 2 ^ 16 * 2 ^ 16 % 2 ^ 64) (ts % 2 ^ 16) ≡ ts
timestamp_joined ts h =
    let small : ts / 2 ^ 16 * 2 ^ 16 % 2 ^ 64 ≡ ts / 2 ^ 16 * 2 ^ 16 = omega (arith, h) in
    rw small (bit_or_disjoint 16 (ts / 2 ^ 16) (ts % 2 ^ 16) (omega arith) ∙ omega arith)

version_joined : (m : ℕ) → bit_or (m / 2 ^ 12 % 2 ^ 4 * 2 ^ 12) (m % 2 ^ 12) ≡ m % 2 ^ 16
version_joined m = bit_or_disjoint 12 (m / 2 ^ 12 % 2 ^ 4) (m % 2 ^ 12) (omega arith) ∙ omega arith

variant_joined :
    (l : ℕ)
    → l < 2 ^ 64
    → bit_or (l / 2 ^ 62 % 2 ^ 2 * 2 ^ 14) (l % 2 ^ 62 / 2 ^ 48 % 2 ^ 14) ≡ l / 2 ^ 48
variant_joined l h =
    bit_or_disjoint 14 (l / 2 ^ 62 % 2 ^ 2) (l % 2 ^ 62 / 2 ^ 48 % 2 ^ 14) (omega arith)
    ∙ omega (arith, h)

timestamp_back :
    (m : ℕ)
    → m < 2 ^ 64
    → bit_or
        (m / 2 ^ 16 % 2 ^ 48 / 2 ^ 16 % 2 ^ 32 * 2 ^ 16 % 2 ^ 64)
        (m / 2 ^ 16 % 2 ^ 48 % 2 ^ 16)
      ≡ m / 2 ^ 16
timestamp_back m h =
    let ts : m / 2 ^ 16 % 2 ^ 48 ≡ m / 2 ^ 16 = omega (arith, h) in
    let high : m / 2 ^ 16 / 2 ^ 16 % 2 ^ 32 ≡ m / 2 ^ 16 / 2 ^ 16 = omega (arith, h) in
    rw (ts, high) (timestamp_joined (m / 2 ^ 16) (omega (arith, h)))

-- The fields below the timestamp, out of the third segment.
msb_back :
    (m third ts : ℕ)
    → m < 2 ^ 64
    → third ≡ m % 2 ^ 16
    → ts ≡ m / 2 ^ 16
    → bit_or
        (bit_or (ts * 2 ^ 16 % 2 ^ 64) (third % 2 ^ 16 / 2 ^ 12 % 2 ^ 4 * 2 ^ 12))
        (third % 2 ^ 16 % 2 ^ 12)
      ≡ m
msb_back m third ts h e f =
    let shifted : ts * 2 ^ 16 % 2 ^ 64 ≡ ts * 2 ^ 16 = omega (arith, h, f) in
    let ver = third % 2 ^ 16 / 2 ^ 12 % 2 ^ 4 in
    let upper : bit_or (ts * 2 ^ 16) (ver * 2 ^ 12) ≡ (ts * 16 + ver) * 2 ^ 12 =
      bit_or_disjoint 16 ts (ver * 2 ^ 12) (omega arith) ∙ omega arith in
    rw (shifted, upper)
      (bit_or_disjoint 12 (ts * 16 + ver) (third % 2 ^ 16 % 2 ^ 12) (omega arith)
        ∙ omega (arith, h, e, f))

lsb_back :
    (l fourth : ℕ)
    → l < 2 ^ 64
    → fourth ≡ l / 2 ^ 48
    → bit_or
        (fourth % 2 ^ 16 / 2 ^ 14 % 2 ^ 2 * 2 ^ 62 % 2 ^ 64)
        (bit_or (fourth % 2 ^ 16 % 2 ^ 14 * 2 ^ 48) (l % 2 ^ 62 % 2 ^ 48))
      ≡ l
lsb_back l fourth h e =
    let var = fourth % 2 ^ 16 / 2 ^ 14 % 2 ^ 2 in
    let shifted : var * 2 ^ 62 % 2 ^ 64 ≡ var * 2 ^ 62 = omega arith in
    let random : bit_or (fourth % 2 ^ 16 % 2 ^ 14 * 2 ^ 48) (l % 2 ^ 62 % 2 ^ 48) ≡ l % 2 ^ 62 =
      bit_or_disjoint 48 (fourth % 2 ^ 16 % 2 ^ 14) (l % 2 ^ 62 % 2 ^ 48) (omega arith)
      ∙ omega (arith, h, e) in
    rw (shifted, random) (bit_or_disjoint 62 var (l % 2 ^ 62) (omega arith) ∙ omega (arith, h, e))

same_uuid :
    (u : Uuid) (a b : ℕ) → a ≡ u.msb → b ≡ u.lsb → ◌≡◌ {A = Uuid} (record { msb = a; lsb = b }) u
same_uuid u a b e f = rw (e, f) refl

assembled :
    (u : Uuid)
    → u.msb < 2 ^ 64
    → u.lsb < 2 ^ 64
    → assemble
        (timestamp_high u)
        (timestamp_low u)
        (version_and_random u)
        (variant_and_random u)
        (random_low u)
      ≡ u
assembled u h k =
    same_uuid u _ _
      (msb_back u.msb (version_and_random u) _ h (version_joined u.msb) (timestamp_back u.msb h))
      (lsb_back u.lsb (variant_and_random u) k (variant_joined u.lsb k))

-- Every UUID, its version and variant included, is printed as a text that reads back as the same
-- UUID.
pub text_round_trip :
    (u : Uuid) → u.msb < 2 ^ 64 → u.lsb < 2 ^ 64 → deserialize (serialize u) ≡ ok u
unfolding serialize
text_round_trip u h k =
    let third : version_and_random u < 2 ^ 16 = omega (arith, version_joined u.msb) in
    let fourth : variant_and_random u < 2 ^ 16 = omega (arith, variant_joined u.lsb k, k) in
    rw
      (
        put_hex-fixed 7 (timestamp_high u) (omega arith) (omega arith),
        put_hex-fixed 3 (timestamp_low u) (omega arith) (omega arith),
        put_hex-fixed 3 (version_and_random u) (omega (arith, third)) (omega (arith, third)),
        put_hex-fixed 3 (variant_and_random u) (omega (arith, fourth)) (omega (arith, fourth)),
        put_hex-fixed 11 (random_low u) (omega arith) (omega arith),
      )
      (deserialize-joined (timestamp_high u) (timestamp_low u) (version_and_random u)
          (variant_and_random u) (random_low u) (omega arith) (omega arith) third fourth
          (omega arith)
        ∙ ap ok (assembled u h k))

segments_before :
    (a b c d : ℕ) (last : List ℕ)
    → length last ≡ 12
    → deserialize (
        fixed 8 a
        ++ hyphen ∷ (fixed 4 b ++ hyphen ∷ (fixed 4 c ++ hyphen ∷ (fixed 4 d ++ hyphen ∷ last))))
      ≡ or_malformed (
          assemble_all
            (stoull (fixed 8 a))
            (stoull (fixed 4 b))
            (stoull (fixed 4 c))
            (stoull (fixed 4 d))
            (stoull last))
unfolding deserialize is_malformed is_not_hyphen fixed
segments_before a b c d last h = rw h refl

-- A text is not refused for what stands behind the first digit of a segment: with any ten bytes
-- behind a 'z' in the last one, it reads as the UUID of the digits before.
pub junk_accepted :
    (a b c d e : ℕ) (junk : List ℕ)
    → a < 2 ^ 32
    → b < 2 ^ 16
    → c < 2 ^ 16
    → d < 2 ^ 16
    → e < 16
    → length junk ≡ 10
    → deserialize (
        fixed 8 a
        ++ hyphen
          ∷ (fixed 4 b
              ++ hyphen
                ∷ (fixed 4 c ++ hyphen ∷ (fixed 4 d ++ hyphen ∷ (lower_digit e ∷ b'z' ∷ junk)))))
      ≡ ok (assemble a b c d e)
junk_accepted a b c d e junk ha hb hc hd he h =
    segments_before a b c d (lower_digit e ∷ b'z' ∷ junk) (omega (arith, h))
    ∙ rw
        (
          stoull-fixed 6 a (omega (arith, ha)) (omega (arith, ha)),
          stoull-fixed 2 b (omega (arith, hb)) (omega (arith, hb)),
          stoull-fixed 2 c (omega (arith, hc)) (omega (arith, hc)),
          stoull-fixed 2 d (omega (arith, hd)) (omega (arith, hd)),
          stoull-stops e junk he,
        )
        refl
