-- ===== src/Validator/Uuid/Tests.antt =====
-- The UUID theorems at concrete UUIDs.
use up_cpp.Common.{ℕ, ◌≡◌, ◌≤◌, ◌+◌, ◌*◌, ◌^◌, ◌⊎◌, refl, false, arith}
use up_cpp.Common.Int.{pos}
use up_cpp.Common.Outcome.{ok}
use up_cpp.Proto.{Uuid}
use up_cpp.Samples.{id}
use up_cpp.Validator.Uuid.{
  is_uuid, is_expired, timestamp_millis, internal_get_version, internal_get_variant,
  get_remaining_time,
}
use up_cpp.Validator.Uuid.Times.{IsOk, is_uuid_iff, far_future_accepted, remaining_time_bounds}

is_uuid_iff_example : IsOk (is_uuid id (pos 1_000_000))
unfolding timestamp_millis
is_uuid_iff_example = (is_uuid_iff id 1_000_000 (omega arith)).1 (refl, refl, omega arith)

-- Version 7 and variant 2 at millisecond 9223372036855.
abbrev far : Uuid
far = record { msb = 9_223_372_036_855 * 2 ^ 16 + 7 * 2 ^ 12; lsb = 2 ^ 63 }

far_future_accepted_example : IsOk (is_uuid far (pos 0))
unfolding timestamp_millis internal_get_version internal_get_variant
far_future_accepted_example = far_future_accepted far 0 refl refl (omega arith) (omega arith)

id_accepted : IsOk (is_uuid id (pos 9_000_000))
unfolding timestamp_millis
id_accepted = (is_uuid_iff id 9_000_000 (omega arith)).1 (refl, refl, omega arith)

remaining_time_bounds_example :
    (left : ℕ) × (get_remaining_time id (pos 20) (pos 9_000_000) (pos 9_000_000) (pos 9_000_000)
      ≡ ok (pos left))
    × (left ≤ 20)
    × (((is_expired id (pos 20) (pos 9_000_000) (pos 9_000_000)).0 ≡ false) ⊎ (left ≡ 0))
unfolding timestamp_millis
remaining_time_bounds_example =
    remaining_time_bounds id 20 9_000_000 (omega arith) (omega arith) (omega arith) id_accepted
