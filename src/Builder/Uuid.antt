-- ===== src/Builder/Uuid.antt =====
-- src/datamodel/builder/Uuid.cpp. What the system answers during one `build`, its clock and its two
-- random draws, is a record; a replaced source answers its k-th call, and the builder counts calls.
pub mod Fields
use up_cpp.Common.{
  ℕ, suc, ◌+◌, ◌-◌, ◌*◌, ◌%◌, ◌^◌, bit_or, Bool, true, false, not, Option, none, some,
  if◌then◌else◌, has_value,
}
use up_cpp.Common.Int.{ℤ, pos, negsuc}
use up_cpp.Common.Outcome.{ok, throw}
use up_cpp.Proto.{Uuid}
use up_cpp.UuidConstants.{
  uuid_timestamp_shift, uuid_version_7, uuid_version_shift, uuid_random_a_bits, uuid_random_b_bits,
  uuid_variant_rfc4122, uuid_variant_shift,
}
use up_cpp.Exception.{Result, domain_error}
use up_cpp.Validator.Uuid.{millis_of_nanos}

pub record UuidBuilder : Type 0 where
  pub testing : Bool
  pub time_source : Option (ℕ → ℤ)
  pub random_source : Option (ℕ → ℕ)
  pub time_calls : ℕ
  pub random_calls : ℕ

-- The system clock in nanoseconds, and the draws from [0, 2^12) and [0, 2^62).
pub record Entropy : Type 0 where
  pub now : ℤ
  pub dist_a : ℕ
  pub dist_b : ℕ

new_builder : Bool → UuidBuilder
new_builder testing = record {
  testing = testing;
  time_source = none;
  random_source = none;
  time_calls = 0;
  random_calls = 0;
}

unfoldable pub get_builder : UuidBuilder
unfolding new_builder
get_builder = new_builder false

unfoldable pub get_test_builder : UuidBuilder
unfolding new_builder
get_test_builder = new_builder true

unfoldable pub with_time_source : UuidBuilder → (ℕ → ℤ) → Result UuidBuilder
with_time_source b time_source =
    if not b.testing
    then throw (domain_error "Cannot set time source on non-test UuidBuilder")
    else ok (record b { time_source = some time_source; time_calls = 0 })

unfoldable pub with_random_source : UuidBuilder → (ℕ → ℕ) → Result UuidBuilder
with_random_source b random_source =
    if not b.testing
    then throw (domain_error "Cannot set random source on non-test UuidBuilder")
    else ok (record b { random_source = some random_source; random_calls = 0 })

-- `static_cast<uint64_t>`
unfoldable pub unsigned64 : ℤ → ℕ
unsigned64 (pos n) = n % 2 ^ 64
unsigned64 (negsuc n) = 2 ^ 64 - 1 - n % 2 ^ 64

-- `source ? source() : otherwise`, at the source's k-th call.
abbrev pub call_or {ℓ} : {A : Type ℓ} → Option (ℕ → A) → ℕ → A → A
call_or none k otherwise = otherwise
call_or (some source) k otherwise = source k

-- The most significant half: 48 bits of milliseconds, the version, 12 random bits.
unfoldable pub build_msb : ℤ → ℕ → ℕ
unfolding unsigned64
build_msb unix_ts_ms rand_a =
    bit_or
      (bit_or (unsigned64 unix_ts_ms * 2 ^ uuid_timestamp_shift % 2 ^ 64)
        (uuid_version_7 * 2 ^ uuid_version_shift))
      (rand_a % 2 ^ uuid_random_a_bits)

-- The least significant half: the variant 10b and 62 random bits.
unfoldable pub build_lsb : ℕ → ℕ
build_lsb rand_b =
    bit_or (rand_b % 2 ^ uuid_random_b_bits) (uuid_variant_rfc4122 * 2 ^ uuid_variant_shift)

unfoldable pub build : UuidBuilder → Entropy → Uuid × UuidBuilder
build b system =
    let now = call_or b.time_source b.time_calls system.now in
    let rand_a = call_or b.random_source b.random_calls system.dist_a in
    let rand_b = call_or b.random_source (b.random_calls + 1) system.dist_b in
    (
      record { msb = build_msb (millis_of_nanos now) rand_a; lsb = build_lsb rand_b },
      record b {
        time_calls = if has_value b.time_source then b.time_calls + 1 else b.time_calls;
        random_calls = if has_value b.random_source then b.random_calls + 2 else b.random_calls;
      },
    )
