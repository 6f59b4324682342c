-- ===== src/Common/Outcome.antt =====
-- Results of code that may throw, for any type of exceptions.
use mathlib.Core.Path.{◌≡◌, refl}

pub data Outcome {ℓ κ} (E : Type κ) (A : Type ℓ) : Type (ℓ ⊔ κ) where
  ok : A → Outcome E A
  throw : E → Outcome E A

infixl 5 ◌>>=◌ ◌>>◌
abbrev pub ◌>>=◌ {ℓ κ μ} :
    {E : Type μ} {A : Type ℓ} {B : Type κ} → Outcome E A → (A → Outcome E B) → Outcome E B
throw exception >>= next = throw exception
ok value >>= next = next value

abbrev pub ◌>>◌ {ℓ κ} : {E : Type κ} {B : Type ℓ} → Outcome E (Unit {0}) → Outcome E B → Outcome E B
first >> second = first >>= λ done. second

-- Code in sequence returns only if both parts do, the second on what the first returned.
pub >>=-eq-ok {ℓ κ μ} :
    {A : Type ℓ} {E : Type μ} {B : Type κ} {out : B} (first : Outcome E A) (next : A → Outcome E B)
    → (first >>= next) ≡ ok out
    → (value : A) × (first ≡ ok value) × (next value ≡ ok out)
>>=-eq-ok (throw exception) next returned = cc
>>=-eq-ok (ok value) next returned = (value, refl, returned)

pub ok-injective {ℓ κ} :
    {E : Type κ} {A : Type ℓ} {a b : A} → ◌≡◌ {A = Outcome E A} (ok a) (ok b) → a ≡ b
ok-injective e = cc
