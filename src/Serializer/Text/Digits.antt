-- ===== src/Serializer/Text/Digits.antt =====
-- That a hexadecimal number of fixed width, as src/datamodel/serializer/Uuid.cpp prints it, reads back.
use native.Mathlib.Nat.{pow-suc}
use mathlib.Core.List.{append-nil}
use up_cpp.Common.{
  Bool-cases, ltb→lt, inl, inr, ℕ, zero, suc, ◌+◌, ◌-◌, ◌*◌, ◌/◌, ◌%◌, ◌^◌, ◌<◌, ◌≡◌, refl, sym,
  ◌∙◌, ap, true, false, ◌||◌, some, List, [], ◌∷◌, ◌++◌, append_assoc, arith, ltb, ◌==◌, length,
  length-append, replicate, has_value, lt→ltb,
}
use up_cpp.Serializer.Uri.Hex.{digit_value}
use up_cpp.Serializer.Text.Numbers.{
  lower_digit, lower_digits, pad, put_hex, is_space, skip_spaces, read_sign, starts_with_digit,
  skip_prefix, read_leading, convert, stoull,
}

-- The digits of a number below `16 ^ width`, with the zeros in front.
unfoldable pub fixed : ℕ → ℕ → List ℕ
fixed zero n = []
fixed (suc width) n = fixed width (n / 16) ++ lower_digit (n % 16) ∷ []

lower_digit_value : (d : ℕ) → d < 16 → digit_value (lower_digit d) ≡ some d
unfolding lower_digit digit_value
lower_digit_value d h = ground arith

replicate-snoc : (n c : ℕ) → replicate n c ++ c ∷ [] ≡ replicate (suc n) c
replicate-snoc zero c = refl
replicate-snoc (suc n) c = ap (λ xs. c ∷ xs) (replicate-snoc n c)

fixed-zero : (width : ℕ) → fixed width 0 ≡ replicate width b'0'
unfolding fixed lower_digit
fixed-zero zero = refl
fixed-zero (suc width) = rw (fixed-zero width) (replicate-snoc width b'0')

fixed-suc : (width n : ℕ) → fixed width (n / 16) ++ lower_digit (n % 16) ∷ [] ≡ fixed (suc width) n
unfolding fixed
fixed-suc width n = refl

one_digit : (width n : ℕ) → n < 16 → pad (suc width) (lower_digit n ∷ []) ≡ fixed (suc width) n
unfolding fixed
one_digit width n h =
    let high : n / 16 ≡ 0 = omega (arith, h) in
    let low : n % 16 ≡ n = omega (arith, h) in
    let less : suc width - 1 ≡ width = omega arith in rw (high, low, less, fixed-zero width) refl

pad-snoc :
    (width : ℕ) (text : List ℕ) (c : ℕ)
    → pad (suc width) (text ++ c ∷ []) ≡ pad width text ++ c ∷ []
pad-snoc width text c =
    let same : suc width - length (text ++ c ∷ []) ≡ width - length text =
      omega (arith, length-append text (c ∷ [])) in
    rw same (sym (append_assoc (replicate (width - length text) b'0') text (c ∷ [])))

pad-digits :
    (width fuel n : ℕ)
    → n < 16 ^ suc width
    → n < 16 ^ suc fuel
    → pad (suc width) (lower_digits fuel n) ≡ fixed (suc width) n
unfolding lower_digits
pad-digits width zero n h k = one_digit width n (omega (arith, k))
pad-digits zero (suc fuel) n h k =
    let small : ltb n 16 ≡ true = ground (arith, h) in
    rw small (one_digit zero n (omega (arith, h)))
pad-digits (suc width) (suc fuel) n h k = elim (Bool-cases (ltb n 16)) [
  | inl e ↦ rw e (one_digit (suc width) n (ltb→lt n 16 e))
  | inr e ↦ rw e (
      pad-snoc (suc width) (lower_digits fuel (n / 16)) (lower_digit (n % 16))
      ∙ ap (λ xs. xs ++ lower_digit (n % 16) ∷ [])
          (pad-digits width fuel (n / 16) (omega (arith, h)) (omega (arith, k)))
      ∙ fixed-suc (suc width) n)
]

pub put_hex-fixed :
    (width n : ℕ) → n < 16 ^ suc width → n < 2 ^ 64 → put_hex (suc width) n ≡ fixed (suc width) n
unfolding put_hex
put_hex-fixed width n h k = pad-digits width 15 n h (omega (arith, k))

read_digit :
    (n d : ℕ) (cs : List ℕ)
    → d < 16
    → read_leading n (lower_digit d ∷ cs) ≡ read_leading (n * 16 + d) cs
unfolding read_leading
read_digit n d cs h = rw (lower_digit_value d h) refl

next_place : (width m n : ℕ) → (m * 16 ^ width + n / 16) * 16 + n % 16 ≡ m * 16 ^ suc width + n
next_place width m n = omega (arith, ap (λ (k : ℕ). m * k) (pow-suc 16 width))

read_leading-fixed :
    (width n m : ℕ) (cs : List ℕ)
    → n < 16 ^ width
    → read_leading m (fixed width n ++ cs) ≡ read_leading (m * 16 ^ width + n) cs
unfolding fixed
read_leading-fixed zero n m cs h = ap (λ k. read_leading k cs) (omega (arith, h))
read_leading-fixed (suc width) n m cs h =
    ap (read_leading m) (append_assoc (fixed width (n / 16)) (lower_digit (n % 16) ∷ []) cs)
    ∙ read_leading-fixed width (n / 16) m (lower_digit (n % 16) ∷ cs) (omega (arith, h))
    ∙ read_digit (m * 16 ^ width + n / 16) (n % 16) cs (omega arith)
    ∙ ap (λ k. read_leading k cs) (next_place width m n)

-- A text that starts with two digits.
abbrev StartsWell : List ℕ → Type 0
StartsWell text =
    (d e : ℕ) × (cs : List ℕ) × (d < 16) × (e < 16) × (text ≡ lower_digit d ∷ lower_digit e ∷ cs)

fixed-StartsWell : (width n : ℕ) → StartsWell (fixed (suc (suc width)) n)
unfolding fixed
fixed-StartsWell zero n = (n / 16 % 16, n % 16, [], omega arith, omega arith, refl)
fixed-StartsWell (suc width) n =
    let (d, e, cs, h, k, same) = fixed-StartsWell width (n / 16) in
    (d, e, cs ++ lower_digit (n % 16) ∷ [], h, k, ap (λ xs. xs ++ lower_digit (n % 16) ∷ []) same)

plain_digit :
    (d : ℕ)
    → d < 16
    → (is_space (lower_digit d) ≡ false)
      × ((lower_digit d == b'-') ≡ false)
      × ((lower_digit d == b'+') ≡ false)
      × (((lower_digit d == b'x') || (lower_digit d == b'X')) ≡ false)
unfolding lower_digit
plain_digit d h = ground arith

skip_none : (d : ℕ) (cs : List ℕ) → d < 16 → skip_spaces (lower_digit d ∷ cs) ≡ lower_digit d ∷ cs
unfolding skip_spaces
skip_none d cs h = rw (plain_digit d h).0 refl

no_sign :
    (d : ℕ) (cs : List ℕ) → d < 16 → read_sign (lower_digit d ∷ cs) ≡ (false, lower_digit d ∷ cs)
unfolding read_sign
no_sign d cs h = let (_, minus, plus, _) = plain_digit d h in rw (minus, plus) refl

no_prefix :
    (d e : ℕ) (cs : List ℕ)
    → e < 16
    → skip_prefix (lower_digit d ∷ lower_digit e ∷ cs) ≡ lower_digit d ∷ lower_digit e ∷ cs
unfolding skip_prefix
no_prefix d e cs k = ground (arith, plain_digit e k)

-- Without a sign, spaces or a prefix the digits' number is read.
stoull_two :
    (d e : ℕ) (cs : List ℕ)
    → d < 16
    → e < 16
    → read_leading 0 (lower_digit d ∷ lower_digit e ∷ cs) < 2 ^ 64
    → stoull (lower_digit d ∷ lower_digit e ∷ cs)
      ≡ some (read_leading 0 (lower_digit d ∷ lower_digit e ∷ cs))
unfolding stoull
stoull_two d e cs h k small =
    let text = lower_digit d ∷ lower_digit e ∷ cs in
    let starts : starts_with_digit text ≡ true = ap has_value (lower_digit_value d h) in
    ap (λ xs. convert (read_sign xs)) (skip_none d (lower_digit e ∷ cs) h)
    ∙ ap convert (no_sign d (lower_digit e ∷ cs) h)
    ∙ rw (no_prefix d e cs k, starts, lt→ltb (read_leading 0 text) (2 ^ 64) small) refl

whole_text : (width n : ℕ) → n < 16 ^ width → read_leading 0 (fixed width n) ≡ n
unfolding read_leading
whole_text width n h =
    ap (read_leading 0) (sym (append-nil (fixed width n)))
    ∙ read_leading-fixed width n 0 [] h
    ∙ omega arith

-- A number of at most 16 digits, printed with at least two, is read back.
pub stoull-fixed :
    (width n : ℕ)
    → n < 16 ^ suc (suc width)
    → n < 2 ^ 64
    → stoull (fixed (suc (suc width)) n) ≡ some n
stoull-fixed width n h small =
    let (d, e, cs, ok_d, ok_e, same) = fixed-StartsWell width n in
    let value : read_leading 0 (lower_digit d ∷ lower_digit e ∷ cs) ≡ n =
      ap (read_leading 0) (sym same) ∙ whole_text (suc (suc width)) n h in
    ap stoull same ∙ stoull_two d e cs ok_d ok_e (omega (arith, value, small)) ∙ ap some value

-- What follows the digits does not matter.
pub stoull-stops : (d : ℕ) (junk : List ℕ) → d < 16 → stoull (lower_digit d ∷ b'z' ∷ junk) ≡ some d
unfolding stoull read_leading skip_prefix digit_value
stoull-stops d junk h =
    let text = lower_digit d ∷ b'z' ∷ junk in
    let unprefixed : skip_prefix text ≡ text = ground (arith, h) in
    let value : read_leading 0 text ≡ d = read_digit 0 d (b'z' ∷ junk) h ∙ omega arith in
    let starts : starts_with_digit text ≡ true = ap has_value (lower_digit_value d h) in
    ap (λ xs. convert (read_sign xs)) (skip_none d (b'z' ∷ junk) h)
    ∙ ap convert (no_sign d (b'z' ∷ junk) h)
    ∙ rw (unprefixed, starts, value, lt→ltb d (2 ^ 64) (omega (arith, h))) refl
