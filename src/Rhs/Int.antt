-- ===== src/Rhs/Int.antt =====
-- engine/src/rhs_types/int.rs: integers and integer ranges of the filter syntax.
pub mod Laws
pub mod Decimal
pub mod Lengths
use wirefilter.Prelude.{
  ℕ, zero, suc, ◌+◌, ◌-◌, ◌*◌, ◌^◌, Bool, true, false, ◌&&◌, ◌||◌, not, Option, none, some, List,
  [], ◌∷◌, leb, ltb, ◌==◌, if◌then◌else◌,
}
use wirefilter.Prelude.Int.{ℤ, pos, negsuc, leb_ℤ}
use wirefilter.Lex.{
  Text, ParseIntError, LexErrorKind, expected_name, parse_int, incompatible_range_bounds, LexResult,
  ok, err, ◌>>=◌, codes, expect, span, take_while, is_ok,
}
use wirefilter.RangeSet.{RangeInclusive}

-- `char::is_ascii_hexdigit`
abbrev pub is_hexdigit : ℕ → Bool
is_hexdigit c =
    (leb b'0' c && leb c b'9') || (leb b'A' c && leb c b'F') || (leb b'a' c && leb c b'f')

unfoldable pub lex_digits : Text → LexResult Text
lex_digits input = take_while input (codes "digit") is_hexdigit

-- `char::to_digit` of the standard library, for a radix up to 16; the radix comes first.
abbrev pub digit_value : ℕ → Option ℕ
digit_value c =
    if leb b'0' c && leb c b'9'
    then some (c - b'0')
    else if leb b'a' c && leb c b'f'
    then some (c - b'a' + 10)
    else if leb b'A' c && leb c b'F'
    then some (c - b'A' + 10)
    else none

abbrev pub below_radix : ℕ → Option ℕ → Option ℕ
below_radix radix (some d) = if ltb d radix then some d else none
below_radix radix none = none

unfoldable pub to_digit : ℕ → ℕ → Option ℕ
to_digit radix c = below_radix radix (digit_value c)

-- What the standard library's `from_str_radix` returns.
pub data Parsed (A : Type 0) : Type 0 where
  parsed : A → Parsed A
  failed : ParseIntError → Parsed A

-- Its loop over the digits: `limit` is the greatest magnitude of the type, `overflow` the error
-- past it, and a character that is no digit is reported before an overflow at the same place.
unfoldable pub magnitude : ℕ → ParseIntError → ℕ → ℕ → Text → Parsed ℕ
magnitude limit overflow radix acc [] = parsed acc
magnitude limit overflow radix acc (c ∷ cs) = elim (to_digit radix c) [
  | none ↦ failed ParseIntError.invalid_digit
  | some d ↦
      let rest = magnitude limit overflow radix (acc * radix + d) cs in
      if ltb limit (acc * radix + d) then failed overflow else rest
]

-- Minus the magnitude `n`.
abbrev pub negative : ℕ → ℤ
negative zero = pos 0
negative (suc n) = negsuc n

abbrev pub map_parsed : {A B : Type 0} → (A → B) → Parsed A → Parsed B
map_parsed f (parsed a) = parsed (f a)
map_parsed f (failed e) = failed e

-- `i64::from_str_radix`. A sign with nothing behind it is an invalid digit.
unfoldable pub i64_from_str_radix : Text → ℕ → Parsed ℤ
i64_from_str_radix [] radix = failed ParseIntError.empty
i64_from_str_radix (c ∷ []) radix =
    map_parsed pos (magnitude (2 ^ 63 - 1) ParseIntError.pos_overflow radix 0 (c ∷ []))
i64_from_str_radix (c ∷ d ∷ ds) radix =
    if c == b'-'
    then map_parsed negative (magnitude (2 ^ 63) ParseIntError.neg_overflow radix 0 (d ∷ ds))
    else if c == b'+'
    then map_parsed pos (magnitude (2 ^ 63 - 1) ParseIntError.pos_overflow radix 0 (d ∷ ds))
    else map_parsed pos (magnitude (2 ^ 63 - 1) ParseIntError.pos_overflow radix 0 (c ∷ d ∷ ds))

abbrev pub parsed_or_error : Text → Text → ℕ → Parsed ℤ → LexResult ℤ
parsed_or_error input rest radix (parsed n) = ok (n, rest)
parsed_or_error input rest radix (failed e) = err (parse_int e radix) input

unfoldable pub parse_number : Text × Text → ℕ → LexResult ℤ
parse_number (input, rest) radix = parsed_or_error input rest radix (i64_from_str_radix input radix)

abbrev pub starts_with : ℕ → Text → Bool
starts_with c [] = false
starts_with c (d ∷ ds) = c == d

-- The text behind a minus sign, or the text itself.
abbrev pub rest_or : Text → LexResult (Unit {0}) → Text
rest_or input (ok (_, rest)) = rest
rest_or input (err _ _) = input

-- Behind `0x`.
unfoldable pub lex_hex : Text → LexResult ℤ
lex_hex rest = do digits ← lex_digits rest; parse_number digits 16

-- Not behind `0x`: octal with a leading zero, which is a digit itself, or else decimal.
unfoldable pub lex_octal_or_decimal : Text → LexResult ℤ
lex_octal_or_decimal input =
    if starts_with b'0' input then (do digits ← lex_digits input; parse_number digits 8) else (do
      (_, rest) ← lex_digits (rest_or input (expect input (codes "-")))
      parse_number (span input rest, rest) 10)

abbrev pub by_hex_prefix : Text → LexResult (Unit {0}) → LexResult ℤ
by_hex_prefix input (ok (_, rest)) = lex_hex rest
by_hex_prefix input (err _ _) = lex_octal_or_decimal input

-- `<i64 as Lex>::lex`
unfoldable pub lex_i64 : Text → LexResult ℤ
lex_i64 input = by_hex_prefix input (expect input (codes "0x"))

-- `IntRange`, an inclusive range of integers.
abbrev pub IntRange : Type 0
IntRange = RangeInclusive ℤ

-- The second bound, if `..` follows the first.
abbrev pub lex_last : ℤ → Text → LexResult (Unit {0}) → LexResult ℤ
lex_last first input (ok (_, rest)) = lex_i64 rest
lex_last first input (err _ _) = ok (first, input)

abbrev pub checked_range : Text → ℤ → ℤ × Text → LexResult IntRange
checked_range initial_input first (last, input) =
    if not (leb_ℤ first last)
    then err incompatible_range_bounds (span initial_input input)
    else ok (record { start = first; end = last }, input)

-- `<IntRange as Lex>::lex`
unfoldable pub lex_int_range : Text → LexResult IntRange
lex_int_range initial_input = do
  (first, input) ← lex_i64 initial_input
  last ← lex_last first input (expect input (codes ".."))
  checked_range initial_input first last

-- `From<i64> for IntRange`
abbrev pub int_range_of : ℤ → IntRange
int_range_of i = record { start = i; end = i }
