-- ===== src/Tests/Filters.antt =====
-- Runs of the parser of filters, with a field `n` of integers.
use wirefilter.Prelude.{
  ◌==◌, ◌&&◌, ℕ, ◌≡◌, refl, Bool, true, false, Option, none, [], arith, length,
}
use wirefilter.Prelude.Outcome.{done}
use wirefilter.Types.{ValueType}
use wirefilter.Lex.{
  Text, codes, FieldIndex, LexErrorKind, strip_prefix, skip_while, skip_space, expect, lex_enum,
  span, take_while,
}
use wirefilter.Lex.Run.{Run, lift, Ends, Safe}
use wirefilter.Lex.Lengths.{lift-Ends, expect-Within}
use wirefilter.Rhs.Bytes.{as_bytes, encode_utf8}
use wirefilter.Rhs.External.{External, CidrResult}
use wirefilter.Rhs.Int.{
  lex_octal_or_decimal, lex_digits, parse_number, i64_from_str_radix, magnitude, to_digit,
}
use wirefilter.Value.{path_type}
use wirefilter.Index.Parse.{IndexExpr, lex_with, get_type}
use wirefilter.Index.Parse.Typed.{lex_with-get_type}
use wirefilter.Compare.Parse.{lex_with_lhs}
use wirefilter.Compare.Parse.Matches.{Answers, compared_type}
use wirefilter.Compare.Parse.Answers.{lex_with_lhs-Answers}
use wirefilter.Filter.Errors.{ParseError, new}
use wirefilter.Filter.Errors.Located.{IsLocated, new-IsLocated}
use wirefilter.Filter.{complete, trim, ParseResult, lex_filter, parse}
use wirefilter.Filter.Parse.{Accepts, parse-Accepts}

-- Nothing from outside succeeds.
abbrev no_externals : External
no_externals = record {
  Cidr = Unit {0};
  Regex = Unit {0};
  addr_from_str = λ s. none;
  cidr_from_str = λ s. CidrResult.addr_parse_error;
  is_v4 = λ c. true;
  first_address = λ c. 0;
  last_address = λ c. 0;
  lookup_regex = λ s. none;
  is_match = λ r b. false;
  build_wildcard = λ s b. none;
  wildcard_is_match = λ s p b. false;
  memchr = λ c b. false;
  memmem = λ n b. false;
  length_behind_slash = λ s e. cc;
}

abbrev lex_n : Text → Run (Unit {0})
lex_n input = lift (expect input (codes "n"))

abbrev n_type : Unit {0} → ValueType
n_type u = ValueType.int

abbrev no_lists : ValueType → Option ℕ
no_lists t = none

lex_n-Ends : (input : Text) → Ends (length input) (lex_n input)
lex_n-Ends input =
    lift-Ends (expect input (codes "n")) (length input)
      (expect-Within input (codes "n") (length input) (omega arith))

lex_n-Safe : (input : Text) → Safe (λ i rest. Unit {0}) (lex_n input)
lex_n-Safe input = by_result (expect input (codes "n"))
  where
    by_result : (r : _) → Safe {A = Unit {0}} (λ i rest. Unit {0}) (lift r)
    by_result (wirefilter.Lex.ok p) = tt
    by_result (wirefilter.Lex.err k s) = tt

-- The pointers of no span.
abbrev nowhere : Text → ℕ × ℕ
nowhere s = (0, 0)

abbrev is_parsed : {A : Type 0} → ParseResult A → Bool
is_parsed (ParseResult.parsed e) = true
is_parsed _ = false

accepted :
    is_parsed
      (parse no_externals n_type lex_n no_lists 0 nowhere (codes " n in {1 2..5} and ! n == 3 "))
    ≡ true
unfolding parse lex_filter lex_octal_or_decimal lex_digits take_while parse_number
    i64_from_str_radix magnitude to_digit
accepted = refl

parse-Accepts_example :
    Accepts no_externals n_type nowhere
      (codes " n in {1 2..5} and ! n == 3 ")
      (complete (
        lex_filter no_externals n_type lex_n no_lists 0
          (trim (codes " n in {1 2..5} and ! n == 3 "))))
      (parse no_externals n_type lex_n no_lists 0 nowhere (codes " n in {1 2..5} and ! n == 3 "))
parse-Accepts_example =
    parse-Accepts no_externals n_type lex_n no_lists 0 lex_n-Ends lex_n-Safe nowhere
      (codes " n in {1 2..5} and ! n == 3 ")

lex_with-get_type_example :
    Ends 4 (lex_with lex_n n_type (codes "n[0]"))
    × Safe
        (λ e rest. (t : ValueType) × (get_type n_type e ≡ done t))
        (lex_with lex_n n_type (codes "n[0]"))
lex_with-get_type_example = lex_with-get_type lex_n n_type lex_n-Ends lex_n-Safe (codes "n[0]")

abbrev plain_n : IndexExpr (Unit {0})
plain_n = record { identifier = tt; indexes = [] }

plain_n_type : get_type n_type plain_n ≡ done ValueType.int
unfolding get_type path_type
plain_n_type = refl

lex_with_lhs-Answers_example :
    Safe
      (λ e rest. (e.lhs ≡ plain_n) × Answers no_externals (compared_type ValueType.int) e.op)
      (lex_with_lhs no_externals no_lists 0 n_type plain_n (codes " in {1}"))
lex_with_lhs-Answers_example =
    lex_with_lhs-Answers no_externals no_lists 0 n_type plain_n ValueType.int (codes " in {1}")
      plain_n_type

-- The span of a second line, that goes on behind its end.
new-IsLocated_example :
    (e : ParseError) × (new (codes "a\nb c\nd") LexErrorKind.eof 4 3 ≡ done e)
    × (e.kind ≡ LexErrorKind.eof)
    × IsLocated (codes "a\nb c\nd") 4 3 e
new-IsLocated_example =
    new-IsLocated (codes "a\nb ") (codes "c\nd") LexErrorKind.eof 3 (omega arith)

second_line :
    new (codes "a\nb c\nd") LexErrorKind.eof 4 3
    ≡ done (record {
      kind = LexErrorKind.eof;
      input = codes "b c";
      line_number = 1;
      span_start = 2;
      span_len = 1;
    })
unfolding new
second_line = refl

-- An error about the letter behind the root, which stands at 5, and about a span that is not in the input.
abbrev at_five : Text → ℕ × ℕ
at_five s = (5, 1)

abbrev has_error : {A : Type 0} → ParseResult A → Bool
has_error (ParseResult.error e) = e.span_start == 5 && e.span_len == 1
has_error _ = false

abbrev has_panic : {A : Type 0} → ParseResult A → Bool
has_panic ParseResult.panicked = true
has_panic _ = false

error_at_five :
    has_error (parse no_externals n_type lex_n no_lists 0 at_five (codes "n==3 x")) ≡ true
unfolding parse lex_filter lex_octal_or_decimal lex_digits take_while parse_number
    i64_from_str_radix magnitude to_digit as_bytes encode_utf8
error_at_five = refl

outside : has_panic (parse no_externals n_type lex_n no_lists 0 at_five (codes "n==3x")) ≡ true
unfolding parse lex_filter lex_octal_or_decimal lex_digits take_while parse_number
    i64_from_str_radix magnitude to_digit as_bytes encode_utf8
outside = refl
