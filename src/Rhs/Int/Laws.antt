-- ===== src/Rhs/Int/Laws.antt =====
-- engine/src/rhs_types/int.rs: the bounds of integers, and the value of decimal digits.
use wirefilter.Prelude.{
  leb, ◌&&◌, all, ℕ, zero, suc, ◌+◌, ◌-◌, ◌*◌, ◌==◌, refl, ◌^◌, ◌≤◌, ◌≡◌, Bool, true, some, [], ◌∷◌,
  arith, inl, inr, Bool-cases, Option-cases,
}
use wirefilter.Prelude.Int.{ℤ, pos, leb_ℤ, IsI64}
use wirefilter.Lex.{Text, ParseIntError, LexResult, ok, err, ◌>>=◌, expect, span, codes}
use wirefilter.Rhs.Int.{
  to_digit, Parsed, parsed, failed, magnitude, negative, map_parsed, i64_from_str_radix,
  parse_number, parsed_or_error, lex_digits, starts_with, rest_or, lex_hex, lex_octal_or_decimal,
  by_hex_prefix, lex_i64, lex_last, checked_range, IntRange, lex_int_range,
}

magnitude-le :
    (limit : ℕ) (overflow : ParseIntError) (radix acc : ℕ) (cs : Text) (n : ℕ)
    → acc ≤ limit
    → magnitude limit overflow radix acc cs ≡ parsed n
    → n ≤ limit
unfolding magnitude
magnitude-le limit overflow radix acc [] n h e = ground arith
magnitude-le limit overflow radix acc (c ∷ cs) n h e = elim (Option-cases (to_digit radix c)) [
  | inl bad ↦ ground arith
  | inr (d, digit) ↦ ground (arith, magnitude-le limit overflow radix (acc * radix + d) cs n)
]

positive-IsI64 :
    (radix : ℕ) (cs : Text) (n : ℤ)
    → map_parsed pos (magnitude (2 ^ 63 - 1) ParseIntError.pos_overflow radix 0 cs) ≡ parsed n
    → IsI64 n
positive-IsI64 radix cs n e =
    map_parsed-pos (magnitude (2 ^ 63 - 1) ParseIntError.pos_overflow radix 0 cs) n e
      (λ m h. magnitude-le (2 ^ 63 - 1) ParseIntError.pos_overflow radix 0 cs m (omega arith) h)
  where
    map_parsed-pos :
        (p : Parsed ℕ) (k : ℤ)
        → map_parsed pos p ≡ parsed k
        → ((m : ℕ) → p ≡ parsed m → m ≤ 2 ^ 63 - 1)
        → IsI64 k
    map_parsed-pos (parsed m) k eq h = ground (arith, h m)
    map_parsed-pos (failed _) k eq h = cc

negative-IsI64 :
    (radix : ℕ) (cs : Text) (n : ℤ)
    → map_parsed negative (magnitude (2 ^ 63) ParseIntError.neg_overflow radix 0 cs) ≡ parsed n
    → IsI64 n
negative-IsI64 radix cs n e =
    map_parsed-negative (magnitude (2 ^ 63) ParseIntError.neg_overflow radix 0 cs) n e
      (λ m h. magnitude-le (2 ^ 63) ParseIntError.neg_overflow radix 0 cs m (omega arith) h)
  where
    map_parsed-negative :
        (p : Parsed ℕ) (k : ℤ)
        → map_parsed negative p ≡ parsed k
        → ((m : ℕ) → p ≡ parsed m → m ≤ 2 ^ 63)
        → IsI64 k
    map_parsed-negative (parsed zero) k eq h = ground arith
    map_parsed-negative (parsed (suc m)) k eq h = ground (arith, h (suc m))
    map_parsed-negative (failed _) k eq h = cc

i64_from_str_radix-IsI64 :
    (input : Text) (radix : ℕ) (n : ℤ) → i64_from_str_radix input radix ≡ parsed n → IsI64 n
unfolding i64_from_str_radix
i64_from_str_radix-IsI64 [] radix n e = cc
i64_from_str_radix-IsI64 (c ∷ []) radix n e = positive-IsI64 radix (c ∷ []) n e
i64_from_str_radix-IsI64 (c ∷ d ∷ ds) radix n e = elim (Bool-cases (c == b'-')) [
  | inl minus ↦ negative-IsI64 radix (d ∷ ds) n (rw minus at e)
  | inr other ↦ elim (Bool-cases (c == b'+')) [
    | inl plus ↦ positive-IsI64 radix (d ∷ ds) n (rw (other, plus) at e)
    | inr digit ↦ positive-IsI64 radix (c ∷ d ∷ ds) n (rw (other, digit) at e)
  ]
]

parse_number-IsI64 :
    (p : Text × Text) (radix : ℕ) {n : ℤ} {rest : Text}
    → parse_number p radix ≡ ok (n, rest)
    → IsI64 n
unfolding parse_number
parse_number-IsI64 (input, r) radix {n} {rest} e =
    by_result (i64_from_str_radix input radix) (λ m. i64_from_str_radix-IsI64 input radix m) e
  where
    by_result :
        (p : Parsed ℤ)
        → ((m : ℤ) → p ≡ parsed m → IsI64 m)
        → parsed_or_error input r radix p ≡ ok (n, rest)
        → IsI64 n
    by_result (parsed m) h eq = ground (arith, h m)
    by_result (failed _) h eq = cc

-- Inversion of a chain of two lexers.
pub >>=-eq-ok :
    {A B : Type 0} (m : LexResult A) (f : A × Text → LexResult B) {b : B × Text}
    → m >>= f ≡ ok b
    → (a : A × Text) × (m ≡ ok a) × (f a ≡ ok b)
>>=-eq-ok (ok a) f h = (a, refl, h)
>>=-eq-ok (err _ _) f h = cc

then_parse-IsI64 :
    (m : LexResult Text) (radix : ℕ) {n : ℤ} {rest : Text}
    → m >>= (λ digits. parse_number digits radix) ≡ ok (n, rest)
    → IsI64 n
then_parse-IsI64 m radix e =
    let (digits, _, h) = >>=-eq-ok m (λ digits. parse_number digits radix) e in
    parse_number-IsI64 digits radix h

lex_octal_or_decimal-IsI64 :
    (input : Text) {n : ℤ} {rest : Text} → lex_octal_or_decimal input ≡ ok (n, rest) → IsI64 n
unfolding lex_octal_or_decimal
lex_octal_or_decimal-IsI64 input e = elim (Bool-cases (starts_with b'0' input)) [
  | inl zero_first ↦ then_parse-IsI64 (lex_digits input) 8 (rw zero_first at e)
  | inr other ↦
      let m = lex_digits (rest_or input (expect input (codes "-"))) in
      let ((_, r), _, h) =
        >>=-eq-ok m (λ (_, r). parse_number (span input r, r) 10) (rw other at e) in
      parse_number-IsI64 (span input r, r) 10 h
]

by_hex_prefix-IsI64 :
    (input : Text) (r : LexResult (Unit {0})) {n : ℤ} {rest : Text}
    → by_hex_prefix input r ≡ ok (n, rest)
    → IsI64 n
unfolding lex_hex
by_hex_prefix-IsI64 input (ok (_, rest)) e = then_parse-IsI64 (lex_digits rest) 16 e
by_hex_prefix-IsI64 input (err _ _) e = lex_octal_or_decimal-IsI64 input e

-- Every integer literal that the lexer accepts, in any of its three radixes, is a value of `i64`.
pub lex_i64-IsI64 : (input : Text) {n : ℤ} {rest : Text} → lex_i64 input ≡ ok (n, rest) → IsI64 n
unfolding lex_i64
lex_i64-IsI64 input e = by_hex_prefix-IsI64 input (expect input (codes "0x")) e

lex_last-IsI64 :
    (first : ℤ) (input : Text) (r : LexResult (Unit {0})) {last : ℤ × Text}
    → IsI64 first
    → lex_last first input r ≡ ok last
    → IsI64 last.0
lex_last-IsI64 first input (ok (_, rest)) {last} h e = lex_i64-IsI64 rest {rest = last.1} e
lex_last-IsI64 first input (err _ _) {last} h e = rw (← e') h
  where
    e' : first ≡ last.0
    e' = cc

checked_range-bounds :
    (input : Text) (first : ℤ) (last : ℤ × Text) {r : IntRange} {rest : Text}
    → IsI64 first
    → IsI64 last.0
    → checked_range input first last ≡ ok (r, rest)
    → IsI64 r.start × IsI64 r.end × (leb_ℤ r.start r.end ≡ true)
checked_range-bounds input first (last, left) {r} {rest} h k e =
    elim (Bool-cases (leb_ℤ first last)) [
      | inl valid ↦
          let e' : ◌≡◌ {A = LexResult IntRange} (ok (record { start = first; end = last }, left))
              (ok (r, rest)) =
            rw valid at e in
          let p : r ≡ record { start = first; end = last } = cc in rw p (h, k, valid)
      | inr reversed ↦ cc (rw reversed at e)
    ]

-- A range literal that is accepted has bounds in `i64`, the first at most the second.
pub lex_int_range-bounds :
    (input : Text) {r : IntRange} {rest : Text}
    → lex_int_range input ≡ ok (r, rest)
    → IsI64 r.start × IsI64 r.end × (leb_ℤ r.start r.end ≡ true)
unfolding lex_int_range
lex_int_range-bounds input {r} {rest} e =
    let ((first, after), l, h) = >>=-eq-ok (lex_i64 input) _ e in
    let (last, m, k) =
      >>=-eq-ok (lex_last first after (expect after (codes ".."))) (checked_range input first) h in
    let lower = lex_i64-IsI64 input l in
    let upper = lex_last-IsI64 first after (expect after (codes "..")) lower m in
    checked_range-bounds input first last lower upper k

-- The number that a text of decimal digits stands for, read on from `acc`.
abbrev pub decimal_value : ℕ → Text → ℕ
decimal_value acc [] = acc
decimal_value acc (c ∷ cs) = decimal_value (acc * 10 + (c - b'0')) cs

abbrev pub is_decimal : ℕ → Bool
is_decimal c = leb b'0' c && leb c b'9'

decimal_value-ge : (acc : ℕ) (cs : Text) → acc ≤ decimal_value acc cs
decimal_value-ge acc [] = omega arith
decimal_value-ge acc (c ∷ cs) = omega (arith, decimal_value-ge (acc * 10 + (c - b'0')) cs)

to_digit-decimal : (c : ℕ) → is_decimal c ≡ true → to_digit 10 c ≡ some (c - b'0')
unfolding to_digit
to_digit-decimal c h = ground arith

pub magnitude-decimal :
    (limit : ℕ) (overflow : ParseIntError) (acc : ℕ) (cs : Text)
    → all is_decimal cs ≡ true
    → decimal_value acc cs ≤ limit
    → magnitude limit overflow 10 acc cs ≡ parsed (decimal_value acc cs)
unfolding magnitude
magnitude-decimal limit overflow acc [] h k = refl
magnitude-decimal limit overflow acc (c ∷ cs) h k = ground (
  arith,
  to_digit-decimal c,
  decimal_value-ge (acc * 10 + (c - b'0')) cs,
  magnitude-decimal limit overflow (acc * 10 + (c - b'0')) cs,
)
