-- ===== src/Rhs/Int/Lengths.antt =====
-- engine/src/rhs_types/int.rs: how much of the input the lexers of integers leave.
use wirefilter.Prelude.{ℕ, suc, ◌≤◌, not, inl, inr, arith, length, Bool-cases}
use wirefilter.Prelude.Int.{ℤ, leb_ℤ}
use wirefilter.Lex.{Text, codes, LexResult, ok, err, expect}
use wirefilter.Lex.Lengths.{Within, bind-Within, expect-Within, take_while-Within}
use wirefilter.Rhs.Int.{
  Parsed, parsed, failed, parsed_or_error, lex_digits, i64_from_str_radix, parse_number, lex_hex,
  lex_octal_or_decimal, starts_with, rest_or, by_hex_prefix, lex_i64, lex_int_range, lex_last,
  checked_range,
}

lex_digits-Within : (input : Text) (n : ℕ) → length input ≤ suc n → Within n (lex_digits input)
unfolding lex_digits
lex_digits-Within input n h = take_while-Within input _ _ n h

parse_number-Within :
    (digits rest : Text) (radix n : ℕ)
    → length rest ≤ n
    → Within n (parse_number (digits, rest) radix)
unfolding parse_number
parse_number-Within digits rest radix n h = by_result (i64_from_str_radix digits radix)
  where
    by_result : (p : Parsed _) → Within n (parsed_or_error digits rest radix p)
    by_result (parsed a) = h
    by_result (failed e) = tt

lex_octal_or_decimal-Within :
    (input : Text) (n : ℕ) → length input ≤ suc n → Within n (lex_octal_or_decimal input)
unfolding lex_octal_or_decimal
lex_octal_or_decimal-Within input n h = elim (Bool-cases (starts_with b'0' input)) [
  | inl e ↦
      rw (e, lex_octal_or_decimal)
        (bind-Within (lex_digits input) _ n n (lex_digits-Within input n h)
          λ digits rest k. parse_number-Within digits rest 8 n k)
  | inr e ↦
      rw (e, lex_octal_or_decimal)
        (bind-Within (lex_digits (rest_or input (expect input (codes "-")))) _ n n
          (lex_digits-Within _ n
            (behind_sign (expect input (codes "-")) (expect-Within input (codes "-") (suc n) h)))
          λ digits rest k. parse_number-Within _ rest 10 n k)
]
  where
    behind_sign : (r : LexResult (Unit {0})) → Within (suc n) r → length (rest_or input r) ≤ suc n
    behind_sign (ok (u, rest)) k = k
    behind_sign (err e s) k = h

pub lex_i64-Within : (input : Text) (n : ℕ) → length input ≤ suc n → Within n (lex_i64 input)
unfolding lex_i64 lex_hex
lex_i64-Within input n h =
    by_prefix (expect input (codes "0x")) (expect-Within input (codes "0x") (suc n) h)
  where
    by_prefix : (r : LexResult (Unit {0})) → Within (suc n) r → Within n (by_hex_prefix input r)
    by_prefix (err e s) k = lex_octal_or_decimal-Within input n h
    by_prefix (ok (u, rest)) k =
        bind-Within (lex_digits rest) _ n n (lex_digits-Within rest n k)
          λ digits left j. parse_number-Within digits left 16 n j

pub lex_int_range-Within :
    (input : Text) (n : ℕ) → length input ≤ suc n → Within n (lex_int_range input)
unfolding lex_int_range
lex_int_range-Within input n h =
    bind-Within (lex_i64 input) _ n n (lex_i64-Within input n h) λ first rest k.
      bind-Within (lex_last first rest (expect rest (codes ".."))) _ n n
        (by_dots first rest (expect rest (codes "..")) k (expect-Within rest (codes "..") n k))
        λ last left j. by_bounds first last left j
  where
    by_dots :
        (first : ℤ) (rest : Text) (r : LexResult (Unit {0}))
        → length rest ≤ n
        → Within n r
        → Within n (lex_last first rest r)
    by_dots first rest (ok (u, left)) k j = lex_i64-Within left n (omega arith)
    by_dots first rest (err e s) k j = k

    by_bounds :
        (first last : ℤ) (left : Text)
        → length left ≤ n
        → Within n (checked_range input first (last, left))
    by_bounds first last left j = elim (Bool-cases (not (leb_ℤ first last))) [
      | inl e ↦ rw e tt
      | inr e ↦ rw e j
    ]
