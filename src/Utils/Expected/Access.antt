-- ===== src/Utils/Expected/Access.antt =====
-- Which accessors of include/up-cpp/utils/Expected.h return.
use up_cpp.Common.{◌≡◌, refl, ◌⊎◌, inl, inr, true, false}
use up_cpp.Common.Outcome.{Outcome, ok, throw}
use up_cpp.Utils.Expected.{
  Expected, expected, unexpected, has_value, value_or, value, error, dereference, arrow,
}

abbrev pub IsThrow : {E A : Type 0} → Outcome E A → Type 0
IsThrow (ok a) = ⊥
IsThrow (throw e) = Unit

-- A record is either expected, and then `value`, `*` and `->` return one value that `value_or`
-- returns too while `error` throws, or unexpected, and then only `error` returns and `value_or`
-- answers its default.
pub access_split :
    {T E : Type 0} (x : Expected T E) (d : T)
    → ((t : T) × (has_value x ≡ true)
        × (value x ≡ ok t)
        × (dereference x ≡ ok t)
        × (arrow x ≡ ok t)
        × (value_or x d ≡ t)
        × IsThrow (error x))
      ⊎ ((e : E) × (has_value x ≡ false)
          × (error x ≡ ok e)
          × (value_or x d ≡ d)
          × IsThrow (value x)
          × IsThrow (dereference x)
          × IsThrow (arrow x))
unfolding has_value value error dereference arrow value_or
access_split (expected t) d = inl (t, refl, refl, refl, refl, refl, tt)
access_split (unexpected e) d = inr (e, refl, refl, refl, tt, tt, tt)
