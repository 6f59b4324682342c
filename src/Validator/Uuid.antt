-- ===== src/Validator/Uuid.antt =====
-- src/datamodel/validator/Uuid.cpp. Times are nanoseconds since the epoch, the period of
-- `system_clock` in libstdc++; each reading of the clock is an argument of the function that makes
-- it, in the order of the readings.
pub mod Times
pub mod Tests
use up_cpp.Common.{
  ℕ, suc, ◌+◌, ◌-◌, ◌*◌, ◌/◌, ◌%◌, ◌^◌, String, Bool, true, false, not, Option, none, some, ltb,
  ◌==◌, if◌then◌else◌,
}
use up_cpp.Common.Int.{ℤ, pos, negsuc, sub_ℕ, ltb_ℤ, ◌-ℤ◌}
use up_cpp.Common.Outcome.{ok, throw, ◌>>=◌}
use up_cpp.Proto.{Uuid}
use up_cpp.UuidConstants.{
  uuid_timestamp_bits, uuid_timestamp_shift, uuid_version_bits, uuid_version_shift,
  uuid_variant_bits, uuid_variant_shift, uuid_version_7, uuid_variant_rfc4122,
}
use up_cpp.Validator.Reasons.{
  UuidReason, wrong_version, unsupported_variant, from_the_future, expired,
}
use up_cpp.Exception.{Result, invalid_uuid}

abbrev pub ValidationResult : Type 0
ValidationResult = Bool × Option UuidReason

abbrev pub nanos_per_milli : ℕ
nanos_per_milli = 1_000_000

-- The int64 that a 64-bit pattern stands for.
abbrev pub signed64 : ℕ → ℤ
signed64 w = if ltb w (2 ^ 63) then pos w else negsuc (2 ^ 64 - w - 1)

-- What 64 bits hold of a number. The source's arithmetic on durations is that of int64.
unfoldable pub wrap64 : ℤ → ℤ
wrap64 (pos n) = signed64 (n % 2 ^ 64)
wrap64 (negsuc n) = signed64 (2 ^ 64 - 1 - n % 2 ^ 64)

-- A duration in milliseconds as one in nanoseconds.
unfoldable pub nanos_of_millis : ℤ → ℤ
unfolding wrap64
nanos_of_millis (pos n) = wrap64 (pos (n * nanos_per_milli))
nanos_of_millis (negsuc n) = wrap64 (negsuc (suc n * nanos_per_milli - 1))

-- `duration_cast<milliseconds>`, which drops the fraction towards zero.
unfoldable pub millis_of_nanos : ℤ → ℤ
millis_of_nanos (pos n) = pos (n / nanos_per_milli)
millis_of_nanos (negsuc n) = sub_ℕ 0 (suc n / nanos_per_milli)

unfoldable pub timestamp_millis : Uuid → ℕ
timestamp_millis uuid = uuid.msb / 2 ^ uuid_timestamp_shift % 2 ^ uuid_timestamp_bits

-- The product with the clock's ticks per millisecond is made in 64 bits.
unfoldable pub get_uuid_timestamp : Uuid → ℤ
unfolding timestamp_millis
get_uuid_timestamp uuid = signed64 (timestamp_millis uuid * nanos_per_milli % 2 ^ 64)

unfoldable pub internal_get_version : Uuid → ℕ
internal_get_version uuid = uuid.msb / 2 ^ uuid_version_shift % 2 ^ uuid_version_bits

unfoldable pub internal_get_variant : Uuid → ℕ
internal_get_variant uuid = uuid.lsb / 2 ^ uuid_variant_shift % 2 ^ uuid_variant_bits

unfoldable pub message : UuidReason → String
message wrong_version = "Invalid UUID version"
message unsupported_variant = "Unsupported UUID variant"
message from_the_future = "UUID timestamp is from the future"
message expired = "UUID has expired"

unfoldable pub is_uuid : Uuid → ℤ → ValidationResult
is_uuid uuid current_time =
    if not (internal_get_version uuid == uuid_version_7)
    then (false, some wrong_version)
    else if not (internal_get_variant uuid == uuid_variant_rfc4122)
    then (false, some unsupported_variant)
    else if ltb_ℤ current_time (get_uuid_timestamp uuid)
    then (false, some from_the_future)
    else (true, none)

-- The first reading is `isUuid`'s.
unfoldable pub is_expired : Uuid → ℤ → ℤ → ℤ → ValidationResult
is_expired uuid ttl time_checked current_time =
    let (valid, reason) = is_uuid uuid time_checked in
    if not valid
    then (false, reason)
    else if ltb_ℤ (nanos_of_millis ttl) (wrap64 (current_time -ℤ get_uuid_timestamp uuid))
    then (true, some expired)
    else (false, none)

-- `if (!valid) throw InvalidUuid(message(reason.value()))`
unfoldable pub require_uuid {ℓ} : {A : Type ℓ} → Uuid → ℤ → A → Result A
require_uuid uuid current_time a =
    let (valid, reason) = is_uuid uuid current_time in
    if not valid then throw (invalid_uuid "" reason) else ok a

unfoldable pub get_version : Uuid → ℤ → Result ℕ
unfolding require_uuid
get_version uuid time_checked = require_uuid uuid time_checked (internal_get_version uuid)

unfoldable pub get_variant : Uuid → ℤ → Result ℕ
unfolding require_uuid
get_variant uuid time_checked = require_uuid uuid time_checked (internal_get_variant uuid)

unfoldable pub get_time : Uuid → ℤ → Result ℤ
unfolding require_uuid
get_time uuid time_checked = require_uuid uuid time_checked (get_uuid_timestamp uuid)

-- Three readings: `isUuid`'s, the current time, and `isUuid`'s in `getTime`.
unfoldable pub get_elapsed_time : Uuid → ℤ → ℤ → ℤ → Result ℤ
unfolding require_uuid get_time
get_elapsed_time uuid time_checked current_time time_rechecked = do
  now ← require_uuid uuid time_checked current_time
  uuid_time ← get_time uuid time_rechecked
  ok (millis_of_nanos (wrap64 (now -ℤ uuid_time)))

unfoldable pub get_remaining_time : Uuid → ℤ → ℤ → ℤ → ℤ → Result ℤ
unfolding get_elapsed_time
get_remaining_time uuid ttl time_checked current_time time_rechecked = do
  elapsed_time ← get_elapsed_time uuid time_checked current_time time_rechecked
  ok (if ltb_ℤ (wrap64 (ttl -ℤ elapsed_time)) (pos 0) then pos 0 else wrap64 (ttl -ℤ elapsed_time))
