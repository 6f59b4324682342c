-- ===== src/Utils/Expected.antt =====
-- include/up-cpp/utils/Expected.h: a value or an error. `value() &&` and `error() &&` move out what
-- the const versions copy, so one function stands for each pair.
pub mod Access
use up_cpp.Common.{String, Bool, true, false}
use up_cpp.Common.Outcome.{Outcome, ok, throw}

pub data Expected (T E : Type 0) : Type 0 where
  expected : T → Expected T E
  unexpected : E → Expected T E

pub data BadExpectedAccess : Type 0 where
  bad_expected_access : String → BadExpectedAccess

module _ {T E : Type 0} where
  unfoldable pub has_value : Expected T E → Bool
  has_value (expected t) = true
  has_value (unexpected e) = false

  unfoldable pub value_or : Expected T E → T → T
  value_or (expected t) v = t
  value_or (unexpected e) v = v

  unfoldable pub value : Expected T E → Outcome BadExpectedAccess T
  value (expected t) = ok t
  value (unexpected e) = throw (bad_expected_access "Attempt to access value() when unexpected.")

  unfoldable pub error : Expected T E → Outcome BadExpectedAccess E
  error (expected t) = throw (bad_expected_access "Attempt to access error() when not unexpected.")
  error (unexpected e) = ok e

  -- `operator*`
  unfoldable pub dereference : Expected T E → Outcome BadExpectedAccess T
  dereference (expected t) = ok t
  dereference (unexpected e) =
      throw (bad_expected_access "Attempt to dereference expected value when unexpected.")

  -- `operator->`
  unfoldable pub arrow : Expected T E → Outcome BadExpectedAccess T
  arrow (expected t) = ok t
  arrow (unexpected e) =
      throw (bad_expected_access "Attempt to dereference expected pointer when unexpected.")
