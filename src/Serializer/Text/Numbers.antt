-- ===== src/Serializer/Text/Numbers.antt =====
-- Hexadecimal numbers of fixed width: what `std::hex << std::setfill('0') << std::setw(width)`
-- prints, and what `std::stoull` with base 16 reads from the front of a text.
use up_cpp.Common.{
  ℕ, zero, suc, ◌+◌, ◌-◌, ◌*◌, ◌/◌, ◌%◌, ◌^◌, Bool, true, false, ◌&&◌, ◌||◌, Option, none, some,
  List, [], ◌∷◌, ◌++◌, ltb, leb, ◌==◌, if◌then◌else◌, length, replicate, has_value,
}
use up_cpp.Serializer.Uri.Hex.{digit_value}

unfoldable pub lower_digit : ℕ → ℕ
lower_digit d = if ltb d 10 then b'0' + d else b'a' + (d - 10)

unfoldable pub lower_digits : ℕ → ℕ → List ℕ
lower_digits zero n = lower_digit n ∷ []
lower_digits (suc fuel) n =
    let rest = lower_digits fuel (n / 16) in
    if ltb n 16 then lower_digit n ∷ [] else rest ++ lower_digit (n % 16) ∷ []

abbrev pub pad : ℕ → List ℕ → List ℕ
pad width text = replicate (width - length text) b'0' ++ text

unfoldable pub put_hex : ℕ → ℕ → List ℕ
put_hex width n = pad width (lower_digits 15 n)

-- `isspace`
abbrev pub is_space : ℕ → Bool
is_space c = leb 9 c && leb c 13 || c == b' '

unfoldable pub skip_spaces : List ℕ → List ℕ
skip_spaces [] = []
skip_spaces (c ∷ cs) = let rest = skip_spaces cs in if is_space c then rest else c ∷ cs

-- Whether there is a minus sign, and the text behind a sign.
unfoldable pub read_sign : List ℕ → Bool × List ℕ
read_sign [] = (false, [])
read_sign (c ∷ cs) =
    if c == b'-' then (true, cs) else if c == b'+' then (false, cs) else (false, c ∷ cs)

abbrev pub is_digit : ℕ → Bool
is_digit c = has_value (digit_value c)

abbrev pub starts_with_digit : List ℕ → Bool
starts_with_digit [] = false
starts_with_digit (c ∷ cs) = is_digit c

-- "0x" and "0X" are skipped in front of a digit.
unfoldable pub skip_prefix : List ℕ → List ℕ
skip_prefix (c ∷ x ∷ cs) =
    if c == b'0' && (x == b'x' || x == b'X') && starts_with_digit cs then cs else c ∷ x ∷ cs
skip_prefix text = text

abbrev pub next_digit : (ℕ → ℕ) → ℕ → Option ℕ → ℕ
next_digit rest n none = n
next_digit rest n (some d) = rest (n * 16 + d)

-- The number of the digits in front.
unfoldable pub read_leading : ℕ → List ℕ → ℕ
read_leading n [] = n
read_leading n (c ∷ cs) = next_digit (λ m. read_leading m cs) n (digit_value c)

abbrev pub negate_if : Bool → ℕ → ℕ
negate_if true n = (2 ^ 64 - n) % 2 ^ 64
negate_if false n = n

abbrev pub convert : Bool × List ℕ → Option ℕ
convert (negative, text) =
    let digits = skip_prefix text in
    let n = read_leading 0 digits in
    if starts_with_digit digits && ltb n (2 ^ 64) then some (negate_if negative n) else none

-- Nothing where it throws: without a digit, or for a number that 64 bits do not hold.
unfoldable pub stoull : List ℕ → Option ℕ
stoull text = convert (read_sign (skip_spaces text))
