-- ===== src/Tests/Texts.antt =====
-- Literals.
use wirefilter.Prelude.{◌≡◌, refl, true, [], ◌∷◌, ◌++◌, arith}
use wirefilter.Prelude.Int.{pos, negsuc, IsI64, leb_ℤ}
use wirefilter.Lex.{codes, ok, skip_while, take_while, is_space, expect}
use wirefilter.Lex.Laws.{Takes, take_while-Takes}
use wirefilter.Rhs.Int.{
  lex_i64, is_hexdigit, lex_int_range, lex_octal_or_decimal, lex_digits, parse_number,
  i64_from_str_radix, magnitude, to_digit,
}
use wirefilter.Rhs.Int.Laws.{lex_int_range-bounds}
use wirefilter.Rhs.Int.Decimal.{lex_i64-decimal, lex_i64-negative}
use wirefilter.Rhs.Bytes.{lex_quoted_string_as_vec, as_bytes, lex_raw_string_as_str, count_hashes}
use wirefilter.Rhs.Bytes.Raw.{hashes, is_raw_body, lex_raw_string_as_str-hashes}
use wirefilter.Rhs.Bytes.RoundTrip.{escape_bytes, lex_quoted-escape_bytes, lex_quoted-plain}

no_hexdigit : skip_while is_hexdigit (codes " x") ≡ codes " x"
unfolding skip_while
no_hexdigit = refl

lex_i64-decimal_example : lex_i64 (codes "120 x") ≡ ok (pos 120, codes " x")
lex_i64-decimal_example =
    lex_i64-decimal b'1' (codes "20") (codes " x") refl (omega arith) (omega arith) no_hexdigit

lex_i64-negative_example : lex_i64 (codes "-017 x") ≡ ok (negsuc 16, codes " x")
lex_i64-negative_example =
    lex_i64-negative b'0' (codes "17") (codes " x") refl (omega arith) no_hexdigit

lex_quoted-escape_bytes_example :
    lex_quoted_string_as_vec (escape_bytes (0 ∷ 255 ∷ []) ++ b'"' ∷ codes " x")
    ≡ ok (0 ∷ 255 ∷ [], codes " x")
lex_quoted-escape_bytes_example =
    lex_quoted-escape_bytes (0 ∷ 255 ∷ []) (codes " x") (omega arith, (omega arith, tt))

lex_quoted-plain_example :
    lex_quoted_string_as_vec (codes "abc" ++ b'"' ∷ codes " x")
    ≡ ok (as_bytes (codes "abc"), codes " x")
lex_quoted-plain_example = lex_quoted-plain (codes "abc") (codes " x") refl

spaces : take_while (codes "  a") (codes "space") is_space ≡ ok (codes "  ", codes "a")
unfolding take_while
spaces = refl

take_while-Takes_example : Takes is_space (codes "  a") (codes "  ") (codes "a")
take_while-Takes_example = take_while-Takes is_space (codes "space") (codes "  a") spaces

one_to_nine : lex_int_range (codes "1..9") ≡ ok (record { start = pos 1; end = pos 9 }, [])
unfolding lex_int_range lex_i64 expect lex_octal_or_decimal lex_digits take_while parse_number
    i64_from_str_radix magnitude to_digit
one_to_nine = refl

lex_int_range-bounds_example : IsI64 (pos 1) × IsI64 (pos 9) × (leb_ℤ (pos 1) (pos 9) ≡ true)
lex_int_range-bounds_example = lex_int_range-bounds (codes "1..9") one_to_nine

body_is_raw : is_raw_body 1 (codes "say \"hi\"") ≡ true
unfolding count_hashes
body_is_raw = refl

lex_raw_string_as_str-hashes_example :
    lex_raw_string_as_str
      (hashes 1 ++ b'"' ∷ (codes "say \"hi\"" ++ b'"' ∷ (hashes 1 ++ codes " or")))
    ≡ ok ((codes "say \"hi\"", 1), codes " or")
lex_raw_string_as_str-hashes_example =
    lex_raw_string_as_str-hashes 1 (codes "say \"hi\"") (codes " or") (omega arith) body_is_raw
