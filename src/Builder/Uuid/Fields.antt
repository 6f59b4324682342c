-- ===== src/Builder/Uuid/Fields.antt =====
-- The fields of a UUID that src/datamodel/builder/Uuid.cpp builds, and that it passes the check.
use up_cpp.Common.{ℕ, ◌+◌, ◌*◌, ◌/◌, ◌%◌, ◌^◌, ◌≤◌, ◌<◌, ◌≡◌, arith}
use up_cpp.Common.Bits.{bit_or_disjoint, bit_or_disjoint_low}
use up_cpp.Common.Int.{ℤ, pos}
use up_cpp.Builder.Uuid.{UuidBuilder, Entropy, call_or, build_msb, build_lsb, build}
use up_cpp.Validator.Uuid.{
  is_uuid, timestamp_millis, millis_of_nanos, internal_get_version, internal_get_variant,
}
use up_cpp.Validator.Uuid.Times.{IsOk, last_milli, is_uuid_iff}

pub build_msb_value :
    (t a : ℕ) → t < 2 ^ 48 → build_msb (pos t) a ≡ t * 2 ^ 16 + 7 * 2 ^ 12 + a % 2 ^ 12
unfolding build_msb
build_msb_value t a h =
    let fields = bit_or_disjoint 16 t (7 * 2 ^ 12) (omega arith) in
    let all = bit_or_disjoint 12 (t * 16 + 7) (a % 2 ^ 12) (omega arith) in
    let shifted : t % 2 ^ 64 * 2 ^ 16 % 2 ^ 64 ≡ t * 2 ^ 16 = omega arith in
    let packed : t * 2 ^ 16 + 7 * 2 ^ 12 ≡ (t * 16 + 7) * 2 ^ 12 = omega arith in
    rw (shifted, fields, packed) all

pub build_lsb_value : (b : ℕ) → build_lsb b ≡ 2 ^ 63 + b % 2 ^ 62
unfolding build_lsb
build_lsb_value b = omega (arith, bit_or_disjoint_low 62 (b % 2 ^ 62) 2 (omega arith))

-- The clock and the draws that one build uses: the replaced sources', or the system's.
abbrev pub clock_of : UuidBuilder → Entropy → ℤ
clock_of b system = call_or b.time_source b.time_calls system.now

-- A built UUID has version 7, variant 2, the milliseconds of its clock as its timestamp, and the
-- low 12 and 62 bits of the two draws as its random fields. The clock stands between the epoch and
-- 2^48 milliseconds after it.
pub build_fields :
    (b : UuidBuilder) (system : Entropy) (t : ℕ)
    → clock_of b system ≡ pos t
    → t / 1_000_000 < 2 ^ 48
    → let u = (build b system).0 in
      (internal_get_version u ≡ 7)
      × (internal_get_variant u ≡ 2)
      × (timestamp_millis u ≡ t / 1_000_000)
      × (u.msb % 2 ^ 12 ≡ call_or b.random_source b.random_calls system.dist_a % 2 ^ 12)
      × (u.lsb % 2 ^ 62 ≡ call_or b.random_source (b.random_calls + 1) system.dist_b % 2 ^ 62)
unfolding build internal_get_version internal_get_variant timestamp_millis millis_of_nanos
build_fields b system t e h = rw e (
  omega (arith, msb),
  omega (arith, lsb),
  omega (arith, msb),
  omega (arith, msb),
  omega (arith, lsb),
)
  where
    a : ℕ
    a = call_or b.random_source b.random_calls system.dist_a

    r : ℕ
    r = call_or b.random_source (b.random_calls + 1) system.dist_b

    msb : build_msb (pos (t / 1_000_000)) a ≡ t / 1_000_000 * 2 ^ 16 + 7 * 2 ^ 12 + a % 2 ^ 12
    msb = build_msb_value (t / 1_000_000) a h

    lsb : build_lsb r ≡ 2 ^ 63 + r % 2 ^ 62
    lsb = build_lsb_value r

-- A UUID built at a time `t` passes the check at every later time. The clock is at or after the
-- epoch, and no later than millisecond 9223372036854.
pub build-IsUuid :
    (b : UuidBuilder) (system : Entropy) (t later : ℕ)
    → clock_of b system ≡ pos t
    → t / 1_000_000 ≤ last_milli
    → t ≤ later
    → IsOk (is_uuid (build b system).0 (pos later))
unfolding internal_get_version internal_get_variant timestamp_millis
build-IsUuid b system t later e h after =
    let f = build_fields b system t e (omega arith) in
    (is_uuid_iff (build b system).0 later (omega (arith, f.2))).1 (f.0, f.1, omega (arith, f.2))
