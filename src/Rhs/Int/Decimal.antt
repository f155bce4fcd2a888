-- ===== src/Rhs/Int/Decimal.antt =====
-- engine/src/rhs_types/int.rs: decimal literals.
use wirefilter.Prelude.{
  ℕ, ◌-◌, ◌^◌, ◌≤◌, ◌≡◌, ◌≢◌, refl, true, false, [], ◌∷◌, ◌++◌, arith, all, ◌==◌,
}
use wirefilter.Prelude.Int.{pos}
use wirefilter.Lex.{
  Text, ParseIntError, ok, err, expect, strip_prefix, expected_literal, skip_while, codes,
}
use wirefilter.Lex.Laws.{take_while-append, span-append}
use wirefilter.Rhs.Int.{
  is_hexdigit, lex_digits, parsed, negative, i64_from_str_radix, parse_number, lex_octal_or_decimal,
  lex_i64,
}
use wirefilter.Rhs.Int.Laws.{decimal_value, is_decimal, magnitude-decimal}

all-is_hexdigit : (cs : Text) → all is_decimal cs ≡ true → all is_hexdigit cs ≡ true
all-is_hexdigit [] h = refl
all-is_hexdigit (c ∷ cs) h = ground (arith, all-is_hexdigit cs)

lex_digits-decimal :
    (ds rest : Text)
    → all is_decimal ds ≡ true
    → ds ≢ []
    → skip_while is_hexdigit rest ≡ rest
    → lex_digits (ds ++ rest) ≡ ok (ds, rest)
unfolding lex_digits
lex_digits-decimal ds rest h n k =
    take_while-append is_hexdigit (codes "digit") ds rest (all-is_hexdigit ds h) n k

from_str_radix-positive :
    (c : ℕ) (cs : Text)
    → all is_decimal (c ∷ cs) ≡ true
    → decimal_value 0 (c ∷ cs) ≤ 2 ^ 63 - 1
    → i64_from_str_radix (c ∷ cs) 10 ≡ parsed (pos (decimal_value 0 (c ∷ cs)))
unfolding i64_from_str_radix
from_str_radix-positive c [] h k =
    rw (magnitude-decimal (2 ^ 63 - 1) ParseIntError.pos_overflow 0 (c ∷ []) h k)
from_str_radix-positive c (d ∷ ds) h k =
    let minus : (c == b'-') ≡ false = ground arith in
    let plus : (c == b'+') ≡ false = ground arith in
    rw (minus, plus, magnitude-decimal (2 ^ 63 - 1) ParseIntError.pos_overflow 0 (c ∷ d ∷ ds) h k)

from_str_radix-negative :
    (c : ℕ) (cs : Text)
    → all is_decimal (c ∷ cs) ≡ true
    → decimal_value 0 (c ∷ cs) ≤ 2 ^ 63
    → i64_from_str_radix (b'-' ∷ c ∷ cs) 10 ≡ parsed (negative (decimal_value 0 (c ∷ cs)))
unfolding i64_from_str_radix
from_str_radix-negative c cs h k =
    rw (magnitude-decimal (2 ^ 63) ParseIntError.neg_overflow 0 (c ∷ cs) h k)

not_hex :
    (c : ℕ) (cs : Text)
    → c ≢ b'0'
    → expect (c ∷ cs) (codes "0x") ≡ err (expected_literal (codes "0x")) (c ∷ cs)
unfolding expect strip_prefix
not_hex c cs h = ground arith

not_minus :
    (c : ℕ) (cs : Text)
    → c ≢ b'-'
    → expect (c ∷ cs) (codes "-") ≡ err (expected_literal (codes "-")) (c ∷ cs)
unfolding expect strip_prefix
not_minus c cs h = ground arith

-- A text of decimal digits that does not begin with a zero, ends where no hexadecimal digit
-- follows, and stands for a number below 2^63 is read as that number.
pub lex_i64-decimal :
    (c : ℕ) (cs rest : Text)
    → all is_decimal (c ∷ cs) ≡ true
    → c ≢ b'0'
    → decimal_value 0 (c ∷ cs) ≤ 2 ^ 63 - 1
    → skip_while is_hexdigit rest ≡ rest
    → lex_i64 (c ∷ cs ++ rest) ≡ ok (pos (decimal_value 0 (c ∷ cs)), rest)
unfolding lex_i64 lex_octal_or_decimal parse_number
lex_i64-decimal c cs rest h z k s =
    let first : (b'0' == c) ≡ false = ground arith in
    rw (not_hex c (cs ++ rest) z, first, not_minus c (cs ++ rest) (ground arith))
      (rw (lex_digits-decimal (c ∷ cs) rest h (cc) s)
        (rw (span-append (c ∷ cs) rest, from_str_radix-positive c cs h k)))

-- A minus sign and then decimal digits, the first of which may be a zero, that stand for at most 2^63
-- and end where no hexadecimal digit follows, are read as the negated number.
pub lex_i64-negative :
    (c : ℕ) (cs rest : Text)
    → all is_decimal (c ∷ cs) ≡ true
    → decimal_value 0 (c ∷ cs) ≤ 2 ^ 63
    → skip_while is_hexdigit rest ≡ rest
    → lex_i64 (b'-' ∷ c ∷ cs ++ rest) ≡ ok (negative (decimal_value 0 (c ∷ cs)), rest)
unfolding lex_i64 lex_octal_or_decimal parse_number expect strip_prefix
lex_i64-negative c cs rest h k s =
    rw (lex_digits-decimal (c ∷ cs) rest h (cc) s)
      (rw (span-append (b'-' ∷ c ∷ cs) rest, from_str_radix-negative c cs h k))
