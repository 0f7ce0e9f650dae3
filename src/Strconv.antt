-- ===== src/Strconv.antt =====
-- Numbers in text: `strconv.Itoa`, `strconv.Atoi` (64-bit int) and `strconv.ParseUint(s, 0, 32)`.
pub mod Decimal
use wireguard_bgp.Base.{
  ℕ, zero, suc, ◌+◌, ◌-◌, ◌*◌, ◌/◌, ◌%◌, ◌^◌, Bool, true, false, not, ◌&&◌, ◌||◌, Option, none,
  some, [], ◌∷◌, ltb, leb, ◌==◌, if◌then◌else◌,
}
use wireguard_bgp.Text.{Text, lower_byte}

-- `negsuc n` is -(n + 1).
pub data ℤ : Type 0 where
  pos : ℕ → ℤ
  negsuc : ℕ → ℤ

abbrev pub is_digit : ℕ → Bool
is_digit c = leb b'0' c && leb c b'9'

-- Decimal digits, the last one first in line to be written; the fuel bounds their number.
unfoldable pub itoa_onto : ℕ → ℕ → Text → Text
itoa_onto zero n out = out
itoa_onto (suc fuel) n out =
    let digit = b'0' + n % 10 in
    let rest = itoa_onto fuel (n / 10) (digit ∷ out) in if ltb n 10 then digit ∷ out else rest

-- `strconv.Itoa` at n ≥ 0: n + 1 rounds are enough, since each divides n by ten.
unfoldable pub itoa : ℕ → Text
unfolding itoa_onto
itoa n = itoa_onto (suc n) n []

pub data Unsigned : Type 0 where
  number : ℕ → Unsigned
  bad_syntax out_of_range : Unsigned

-- The digit loop of `ParseUint` in base ten: 64 bits, the first fault met decides.
unfoldable pub parse_digits : ℕ → Text → Unsigned
parse_digits n [] = number n
parse_digits n (c ∷ s) =
    let next = n * 10 + (c - b'0') in
    let rest = parse_digits next s in
    if is_digit c then (if ltb next (2 ^ 64) then rest else out_of_range) else bad_syntax

-- The value and the error flag that `Atoi` returns: at a range error the nearest bound.
unfoldable pub signed : Bool → Unsigned → ℤ × Bool
signed negative bad_syntax = (pos 0, false)
signed true out_of_range = (negsuc (2 ^ 63 - 1), false)
signed false out_of_range = (pos (2 ^ 63 - 1), false)
signed false (number n) = if ltb n (2 ^ 63) then (pos n, true) else (pos (2 ^ 63 - 1), false)
signed true (number zero) = (pos 0, true)
signed true (number (suc n)) =
    if ltb n (2 ^ 63) then (negsuc n, true) else (negsuc (2 ^ 63 - 1), false)

abbrev digits_of : Text → Unsigned
digits_of [] = bad_syntax
digits_of (c ∷ s) = parse_digits 0 (c ∷ s)

-- `strconv.Atoi`: the number, and whether the error is nil.
unfoldable pub atoi : Text → ℤ × Bool
unfolding signed parse_digits
atoi [] = (pos 0, false)
atoi (c ∷ s) =
    if c == b'-'
    then signed true (digits_of s)
    else if c == b'+'
    then signed false (digits_of s)
    else signed false (digits_of (c ∷ s))

-- The value of a letter or digit, with no upper bound on the base.
abbrev digit_value : ℕ → Option ℕ
digit_value c =
    if is_digit c
    then some (c - b'0')
    else if leb b'a' (lower_byte c) && leb (lower_byte c) b'z'
    then some (lower_byte c - b'a' + 10)
    else none

-- The digit loop in a base that was read off a prefix: `_` is passed over.
in_base : ℕ → ℕ → Text → Bool
unfolding lower_byte
in_base base n [] = true
in_base base n (c ∷ s) = elim (c == b'_') [
  | true ↦ in_base base n s
  | false ↦ elim (digit_value c) [
    | none ↦ false
    | some d ↦ elim (ltb d base && ltb (n * base + d) (2 ^ 32)) [
      | true ↦ in_base base (n * base + d) s
      | false ↦ false
    ]
  ]
]

pub data Before : Type 0 where
  at_start after_digit after_underscore after_other : Before

abbrev is_after_digit : Before → Bool
is_after_digit after_digit = true
is_after_digit _ = false

abbrev is_after_underscore : Before → Bool
is_after_underscore after_underscore = true
is_after_underscore _ = false

abbrev is_hex_letter : ℕ → Bool
is_hex_letter c = leb b'a' (lower_byte c) && leb (lower_byte c) b'f'

-- `underscoreOK`: each `_` stands between digits, a base prefix counting as one.
underscores_from : Bool → Before → Text → Bool
underscores_from hex before [] = not (is_after_underscore before)
underscores_from hex before (c ∷ s) = elim (is_digit c || (hex && is_hex_letter c)) [
  | true ↦ underscores_from hex after_digit s
  | false ↦ elim (c == b'_') [
    | true ↦ elim (is_after_digit before) [
      | true ↦ underscores_from hex after_underscore s
      | false ↦ false
    ]
    | false ↦ elim (is_after_underscore before) [
      | true ↦ false
      | false ↦ underscores_from hex after_other s
    ]
  ]
]

-- After a leading 0: the letter of a base prefix needs a digit behind it.
after_zero : Text → Bool
unfolding in_base underscores_from
after_zero [] = true
after_zero (p ∷ []) = in_base 8 0 (p ∷ []) && underscores_from false after_digit (p ∷ [])
after_zero (p ∷ q ∷ s) =
    if lower_byte p == b'b'
    then in_base 2 0 (q ∷ s) && underscores_from false after_digit (q ∷ s)
    else if lower_byte p == b'o'
    then in_base 8 0 (q ∷ s) && underscores_from false after_digit (q ∷ s)
    else if lower_byte p == b'x'
    then in_base 16 0 (q ∷ s) && underscores_from true after_digit (q ∷ s)
    else in_base 8 0 (p ∷ q ∷ s) && underscores_from false after_digit (p ∷ q ∷ s)

-- Whether `strconv.ParseUint(s, 0, 32)` succeeds.
unfoldable pub is_uint32 : Text → Bool
unfolding after_zero in_base underscores_from
is_uint32 [] = false
is_uint32 (c ∷ s) =
    if c == b'0'
    then after_zero s
    else in_base 10 0 (c ∷ s) && underscores_from false at_start (c ∷ s)

-- `fmt.Sprint` at an int.
unfoldable pub sprint : ℤ → Text
unfolding itoa
sprint (pos n) = itoa n
sprint (negsuc n) = b'-' ∷ itoa (suc n)
