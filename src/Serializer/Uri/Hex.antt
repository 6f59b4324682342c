-- ===== src/Serializer/Uri/Hex.antt =====
-- Hexadecimal texts of 32-bit numbers: what `std::hex << std::uppercase` prints, and what
-- `std::from_chars` with base 16 reads to the end of a text.
use mathlib.Core.Path.{subst}
use up_cpp.Common.{
  Bool-cases, ltb→lt, inl, inr, ℕ, zero, suc, ◌+◌, ◌-◌, ◌*◌, ◌/◌, ◌%◌, ◌^◌, ◌<◌, ◌≡◌, ◌≢◌, refl,
  ◌∙◌, ap, ◌&&◌, Option, none, some, List, [], ◌∷◌, ◌++◌, arith, ltb, leb, if◌then◌else◌, All,
}

unfoldable pub hex_digit : ℕ → ℕ
hex_digit d = if ltb d 10 then b'0' + d else b'A' + (d - 10)

-- Digits, from the last one up; `fuel` is the greatest number of digits but one.
unfoldable pub digits : ℕ → ℕ → List ℕ
digits zero n = hex_digit n ∷ []
digits (suc fuel) n =
    let rest = digits fuel (n / 16) in
    if ltb n 16 then hex_digit n ∷ [] else rest ++ hex_digit (n % 16) ∷ []

unfoldable pub to_hex : ℕ → List ℕ
to_hex n = digits 7 n

unfoldable pub digit_value : ℕ → Option ℕ
digit_value c =
    if leb b'0' c && leb c b'9'
    then some (c - b'0')
    else if leb b'A' c && leb c b'F'
    then some (c - b'A' + 10)
    else if leb b'a' c && leb c b'f'
    then some (c - b'a' + 10)
    else none

abbrev pub push_digit : Option ℕ → Option ℕ → Option ℕ
push_digit (some n) (some d) = some (n * 16 + d)
push_digit _ _ = none

unfoldable pub read_digits : Option ℕ → List ℕ → Option ℕ
read_digits n [] = n
read_digits n (c ∷ cs) = read_digits (push_digit n (digit_value c)) cs

-- Nothing for an empty text, another character, or a value that 32 bits do not hold.
unfoldable pub from_chars : List ℕ → Option ℕ
from_chars [] = none
from_chars (c ∷ cs) = elim (read_digits (some 0) (c ∷ cs)) [
  | none ↦ none
  | some n ↦ if ltb n (2 ^ 32) then some n else none
]

hex_digit_value : (d : ℕ) → d < 16 → digit_value (hex_digit d) ≡ some d
unfolding hex_digit digit_value
hex_digit_value d h = ground arith

read_digits-append :
    (n : Option ℕ) (xs ys : List ℕ) → read_digits n (xs ++ ys) ≡ read_digits (read_digits n xs) ys
unfolding read_digits
read_digits-append n [] ys = refl
read_digits-append n (x ∷ xs) ys = read_digits-append (push_digit n (digit_value x)) xs ys

read_one : (n d : ℕ) → d < 16 → read_digits (some n) (hex_digit d ∷ []) ≡ some (n * 16 + d)
unfolding read_digits
read_one n d h = rw (hex_digit_value d h) refl

smaller : (fuel n : ℕ) → n < 16 ^ suc (suc fuel) → n / 16 < 16 ^ suc fuel
smaller fuel n h = omega (arith, h)

read_digits-digits :
    (fuel n : ℕ) → n < 16 ^ suc fuel → read_digits (some 0) (digits fuel n) ≡ some n
unfolding digits
read_digits-digits zero n h = read_one 0 n (omega (arith, h)) ∙ ap some (omega arith)
read_digits-digits (suc fuel) n h = elim (Bool-cases (ltb n 16)) [
  | inl e ↦ rw e (read_one 0 n (ltb→lt n 16 e) ∙ ap some (omega arith))
  | inr e ↦
      rw
        (
          e,
          read_digits-append (some 0) (digits fuel (n / 16)) (hex_digit (n % 16) ∷ []),
          read_digits-digits fuel (n / 16) (smaller fuel n h),
        )
        (read_one (n / 16) (n % 16) (omega arith) ∙ ap some (omega arith))
]

not_separator : (d : ℕ) → d < 16 → hex_digit d ≢ b'/'
unfolding hex_digit
not_separator d h = ground arith

All-append : (P : ℕ → Type 0) (xs ys : List ℕ) → All P xs → All P ys → All P (xs ++ ys)
All-append P [] ys h k = k
All-append P (x ∷ xs) ys h k = (h.0, All-append P xs ys h.1 k)

-- No digit is a '/'.
pub digits-All : (fuel n : ℕ) → n < 16 ^ suc fuel → All (λ c. c ≢ b'/') (digits fuel n)
unfolding digits
digits-All zero n h = (not_separator n (omega (arith, h)), tt)
digits-All (suc fuel) n h = elim (Bool-cases (ltb n 16)) [
  | inl e ↦ rw e (not_separator n (ltb→lt n 16 e), tt)
  | inr e ↦ rw e (
      All-append _ (digits fuel (n / 16)) _ (digits-All fuel (n / 16) (smaller fuel n h))
        (not_separator (n % 16) (omega arith), tt))
]

append_head : (xs ys : List ℕ) (c : ℕ) (cs : List ℕ) → xs ≡ c ∷ cs → xs ++ ys ≡ c ∷ (cs ++ ys)
append_head xs ys c cs e = rw e refl

pub digits-head : (fuel n : ℕ) → (c : ℕ) × (cs : List ℕ) × (digits fuel n ≡ c ∷ cs)
unfolding digits
digits-head zero n = (hex_digit n, [], refl)
digits-head (suc fuel) n = elim (Bool-cases (ltb n 16)) [
  | inl e ↦ (hex_digit n, [], rw e refl)
  | inr e ↦
      let (c, cs, h) = digits-head fuel (n / 16) in
      (c, cs ++ hex_digit (n % 16) ∷ [], rw e (append_head _ _ c cs h))
]

read_in_range :
    (c : ℕ) (cs : List ℕ) (n : ℕ)
    → read_digits (some 0) (c ∷ cs) ≡ some n
    → n < 2 ^ 32
    → from_chars (c ∷ cs) ≡ some n
unfolding from_chars
read_in_range c cs n e h = ground (arith, e)

-- A printed 32-bit number reads back.
pub from_chars-to_hex : (n : ℕ) → n < 2 ^ 32 → from_chars (to_hex n) ≡ some n
unfolding to_hex
from_chars-to_hex n h =
    let (c, cs, e) = digits-head 7 n in
    rw e (
      read_in_range c cs n
        (subst (λ xs. read_digits (some 0) xs ≡ some n) e
          (read_digits-digits 7 n (omega (arith, h))))
        h)
