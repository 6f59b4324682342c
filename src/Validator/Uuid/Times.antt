-- ===== src/Validator/Uuid/Times.antt =====
-- What the UUID checks and clocks of src/datamodel/validator/Uuid.cpp decide.
use up_cpp.Common.{
  ℕ, ◌+◌, ◌-◌, ◌*◌, ◌/◌, ◌%◌, ◌^◌, ◌≤◌, ◌<◌, ◌≡◌, ◌↔◌, ◌⊎◌, true, false, not, none, arith,
  Bool-cases, inl, inr, has_value, ap, if◌then◌else◌,
}
use up_cpp.Common.Int.{ℤ, pos, ltb_ℤ, ltb_ℤ_iff, not_ltb_ℤ_iff, ◌-ℤ◌, ◌<ℤ◌, ◌≤ℤ◌}
use up_cpp.Common.Outcome.{ok}
use up_cpp.Proto.{Uuid}
use up_cpp.Validator.Uuid.{
  ValidationResult, nanos_per_milli, nanos_of_millis, millis_of_nanos, timestamp_millis,
  get_uuid_timestamp, internal_get_version, internal_get_variant, is_uuid, is_expired, wrap64,
  get_elapsed_time, get_remaining_time,
}

abbrev pub IsOk : ValidationResult → Type 0
IsOk r = r ≡ (true, none)

-- The last millisecond whose nanoseconds fit an int64, in the year 2262.
abbrev pub last_milli : ℕ
last_milli = 9_223_372_036_854

timestamp_of_small :
    (u : Uuid)
    → timestamp_millis u ≤ last_milli
    → get_uuid_timestamp u ≡ pos (timestamp_millis u * nanos_per_milli)
unfolding get_uuid_timestamp
timestamp_of_small u h = ground arith

is_uuid_tests :
    (u : Uuid) (now : ℤ)
    → IsOk (is_uuid u now) ↔ (
        (internal_get_version u ≡ 7) × (internal_get_variant u ≡ 2) × (get_uuid_timestamp u ≤ℤ now))
unfolding is_uuid
is_uuid_tests u now =
    ground (arith, not_ltb_ℤ_iff now (get_uuid_timestamp u), ltb_ℤ_iff now (get_uuid_timestamp u))

-- A UUID whose timestamp is at most 9223372036854 ms passes the check at a time `now` exactly when
-- its version is 7, its variant is 2 and its timestamp, in nanoseconds, is not after `now`.
-- Uuid.h documents the check as one for "uP v8 UUID data"; the code takes no version but 7.
pub is_uuid_iff :
    (u : Uuid) (now : ℕ)
    → timestamp_millis u ≤ last_milli
    → IsOk (is_uuid u (pos now)) ↔ (
        (u.msb / 2 ^ 12 % 16 ≡ 7)
        × (u.lsb / 2 ^ 62 % 4 ≡ 2)
        × (u.msb / 2 ^ 16 % 2 ^ 48 * 1_000_000 ≤ now))
unfolding internal_get_version internal_get_variant timestamp_millis
is_uuid_iff u now h = ground (arith, is_uuid_tests u (pos now), timestamp_of_small u h)

far_timestamp_le :
    (u : Uuid) (now : ℕ)
    → last_milli < timestamp_millis u
    → timestamp_millis u ≤ 18_446_744_073_709
    → get_uuid_timestamp u ≤ℤ pos now
unfolding get_uuid_timestamp
far_timestamp_le u now low high = ground arith

-- A timestamp past that limit overflows: a UUID of version 7 and variant 2 whose timestamp lies
-- some 292 to 584 years after the epoch passes the check at every time from the epoch on.
pub far_future_accepted :
    (u : Uuid) (now : ℕ)
    → internal_get_version u ≡ 7
    → internal_get_variant u ≡ 2
    → last_milli < timestamp_millis u
    → timestamp_millis u ≤ 18_446_744_073_709
    → IsOk (is_uuid u (pos now))
far_future_accepted u now version variant low high =
    (is_uuid_tests u (pos now)).1 (version, variant, far_timestamp_le u now low high)

reasons_coherent : (u : Uuid) (now : ℤ) → (is_uuid u now).0 ≡ not (has_value (is_uuid u now).1)
unfolding is_uuid
reasons_coherent u now = ground arith

-- A UUID is reported as expired exactly when it passes the check and more nanoseconds than the
-- time to live have passed since its timestamp, by the arithmetic of 64 bits.
pub is_expired_iff :
    (u : Uuid) (ttl checked now : ℤ)
    → ((is_expired u ttl checked now).0 ≡ true)
      ↔ (IsOk (is_uuid u checked) × (nanos_of_millis ttl <ℤ wrap64 (now -ℤ get_uuid_timestamp u)))
unfolding is_expired
is_expired_iff u ttl checked now = ground (
  arith,
  reasons_coherent u checked,
  ltb_ℤ_iff (nanos_of_millis ttl) (wrap64 (now -ℤ get_uuid_timestamp u)),
)

elapsed_of_valid :
    (u : Uuid) (now t : ℕ)
    → now < 2 ^ 63
    → IsOk (is_uuid u (pos now))
    → get_uuid_timestamp u ≡ pos t
    → (get_elapsed_time u (pos now) (pos now) (pos now) ≡ ok (pos ((now - t) / nanos_per_milli)))
      × (t ≤ now)
unfolding get_elapsed_time millis_of_nanos ◌-ℤ◌ wrap64
elapsed_of_valid u now t bound h e =
    let before : t ≤ now = ground (arith, is_uuid_tests u (pos now), e) in
    (rw (h, e) (ground (arith, before, bound)), before)

remaining_of_elapsed :
    (ttl elapsed : ℕ)
    → ttl < 2 ^ 63
    → elapsed < 2 ^ 63
    → (if ltb_ℤ (wrap64 (pos ttl -ℤ pos elapsed)) (pos 0)
        then pos 0
        else wrap64 (pos ttl -ℤ pos elapsed))
      ≡ pos (ttl - elapsed)
unfolding ltb_ℤ ◌-ℤ◌ wrap64
remaining_of_elapsed ttl elapsed small bound = ground arith

expired_elapsed :
    (u : Uuid) (ttl now t : ℕ)
    → ttl ≤ last_milli
    → now < 2 ^ 63
    → get_uuid_timestamp u ≡ pos t
    → t ≤ now
    → (is_expired u (pos ttl) (pos now) (pos now)).0 ≡ true
    → ttl ≤ (now - t) / nanos_per_milli
unfolding nanos_of_millis ◌-ℤ◌ wrap64
expired_elapsed u ttl now t small bound e before x =
    let late = ((is_expired_iff u (pos ttl) (pos now) (pos now)).0 x).1 in
    ground (arith, late, e, small, bound)

-- With one reading of the clock for all three uses, a UUID that passes the check has a remaining
-- time, of at most its time to live, which is 0 if the UUID is reported as expired. Its timestamp
-- and the time to live are at most 9223372036854 ms, past which their nanoseconds overflow an int64,
-- and the clock is before 2^63 ns.
pub remaining_time_bounds :
    (u : Uuid) (ttl now : ℕ)
    → timestamp_millis u ≤ last_milli
    → ttl ≤ last_milli
    → now < 2 ^ 63
    → IsOk (is_uuid u (pos now))
    → (left : ℕ) × (get_remaining_time u (pos ttl) (pos now) (pos now) (pos now) ≡ ok (pos left))
      × (left ≤ ttl)
      × (((is_expired u (pos ttl) (pos now) (pos now)).0 ≡ false) ⊎ (left ≡ 0))
unfolding get_remaining_time
remaining_time_bounds u ttl now small short bound h =
    let t = timestamp_millis u * nanos_per_milli in
    let e = timestamp_of_small u small in
    let (elapsed, before) = elapsed_of_valid u now t bound h e in
    (
      ttl - (now - t) / nanos_per_milli,
      rw elapsed (
          ap ok (
            remaining_of_elapsed ttl ((now - t) / nanos_per_milli) (omega (arith, short))
              (omega (arith, bound)))),
      omega arith,
      elim (Bool-cases (is_expired u (pos ttl) (pos now) (pos now)).0) [
        | inl x ↦ inr (omega (arith, expired_elapsed u ttl now t short bound e before x))
        | inr x ↦ inl x
      ],
    )

-- A UUID is not reported as expired up to one time to live after its timestamp. The timestamp is at
-- most 9223372036854 ms, and so is the time to live.
pub not_expired_within :
    (u : Uuid) (ttl now : ℕ) (checked : ℤ)
    → timestamp_millis u ≤ last_milli
    → ttl ≤ last_milli
    → now ≤ (timestamp_millis u + ttl) * nanos_per_milli
    → (is_expired u (pos ttl) checked (pos now)).0 ≡ false
unfolding nanos_of_millis ◌-ℤ◌ wrap64
not_expired_within u ttl now checked small short early =
    elim (Bool-cases (is_expired u (pos ttl) checked (pos now)).0) [
      | inl x ↦
          let late = ((is_expired_iff u (pos ttl) checked (pos now)).0 x).1 in
          ground (arith, late, short, timestamp_of_small u small)
      | inr x ↦ x
    ]
