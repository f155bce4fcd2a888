-- ===== src/Rhs/Bytes/RoundTrip.antt =====
-- engine/src/rhs_types/bytes.rs: quoted strings that are written by a printer.
use wirefilter.Prelude.{
  ℕ, zero, suc, ◌+◌, ◌-◌, ◌/◌, ◌%◌, ◌≤◌, ◌<◌, ◌≡◌, ◌∙◌, Bool, true, false, not, ◌&&◌, some, [], ◌∷◌,
  ◌++◌, append_assoc, append-nil, arith, all, All, ltb, ◌==◌, if◌then◌else◌, length, length-append,
}
use wirefilter.Lex.{Text, ok}
use wirefilter.Lex.Laws.{take-append}
use wirefilter.Rhs.Int.{parsed, to_digit, magnitude}
use wirefilter.Rhs.Bytes.{
  Bytes, u8_from_str_radix, fixed_byte, hex_byte, encode_utf8, lex_after_backslash, quoted_loop,
  lex_quoted_string_as_vec, as_bytes,
}

-- A lower-case hexadecimal digit, and the escape of a byte.
abbrev pub hex_digit : ℕ → ℕ
hex_digit d = if ltb d 10 then b'0' + d else b'a' - 10 + d

abbrev pub escape_byte : ℕ → Text
escape_byte b = b'\\' ∷ b'x' ∷ hex_digit (b / 16) ∷ hex_digit (b % 16) ∷ []

abbrev pub escape_bytes : Bytes → Text
escape_bytes [] = []
escape_bytes (b ∷ bs) = escape_byte b ++ escape_bytes bs

to_digit-hex_digit : (d : ℕ) → d < 16 → to_digit 16 (hex_digit d) ≡ some d
unfolding to_digit
to_digit-hex_digit d h = ground arith

u8-hex_digit :
    (b : ℕ)
    → b < 256
    → u8_from_str_radix (hex_digit (b / 16) ∷ hex_digit (b % 16) ∷ []) 16 ≡ parsed b
unfolding u8_from_str_radix magnitude
u8-hex_digit b h = ground (arith, to_digit-hex_digit (b / 16), to_digit-hex_digit (b % 16))

hex_byte-hex_digit :
    (b : ℕ) (rest : Text)
    → b < 256
    → hex_byte (hex_digit (b / 16) ∷ hex_digit (b % 16) ∷ rest) ≡ ok (b, rest)
unfolding hex_byte fixed_byte
hex_byte-hex_digit b rest h =
    rw (take-append 2 (hex_digit (b / 16) ∷ hex_digit (b % 16) ∷ []) rest (omega arith))
      (rw (u8-hex_digit b h))

quoted_loop-escape_bytes :
    (fuel : ℕ) (full res bs rest : Text)
    → All (λ b. b < 256) bs
    → length bs < fuel
    → quoted_loop fuel full res (escape_bytes bs ++ b'"' ∷ rest) ≡ ok (res ++ bs, rest)
unfolding quoted_loop lex_after_backslash
quoted_loop-escape_bytes zero full res bs rest a h = absurd (omega arith)
quoted_loop-escape_bytes (suc fuel) full res [] rest a h = rw append-nil
quoted_loop-escape_bytes (suc fuel) full res (b ∷ bs) rest a h =
    rw (hex_byte-hex_digit b (escape_bytes bs ++ b'"' ∷ rest) a.0) (
      quoted_loop-escape_bytes fuel full (res ++ b ∷ []) bs rest a.1 (omega arith)
      ∙ rw append_assoc)

length-escape_bytes : (bs : Bytes) → length bs ≤ length (escape_bytes bs)
length-escape_bytes [] = omega arith
length-escape_bytes (b ∷ bs) = omega (arith, length-escape_bytes bs)

-- Every string of bytes has a quoted literal, each byte escaped, that is read back as those bytes,
-- whatever follows the closing quote.
pub lex_quoted-escape_bytes :
    (bs rest : Text)
    → All (λ b. b < 256) bs
    → lex_quoted_string_as_vec (escape_bytes bs ++ b'"' ∷ rest) ≡ ok (bs, rest)
unfolding lex_quoted_string_as_vec
lex_quoted-escape_bytes bs rest a =
    quoted_loop-escape_bytes _ _ [] bs rest a
      (omega (arith, length-escape_bytes bs, length-append {0} (escape_bytes bs) (b'"' ∷ rest)))

abbrev pub is_plain : ℕ → Bool
is_plain c = not (c == b'"') && not (c == b'\\')

quoted_loop-plain :
    (fuel : ℕ) (full res t rest : Text)
    → all is_plain t ≡ true
    → length t < fuel
    → quoted_loop fuel full res (t ++ b'"' ∷ rest) ≡ ok (res ++ as_bytes t, rest)
unfolding quoted_loop as_bytes
quoted_loop-plain zero full res t rest a h = absurd (omega arith)
quoted_loop-plain (suc fuel) full res [] rest a h = rw append-nil
quoted_loop-plain (suc fuel) full res (c ∷ t) rest a h =
    let quote : (c == b'"') ≡ false = ground arith in
    let slash : (c == b'\\') ≡ false = ground arith in
    rw (slash, quote)
      (quoted_loop-plain fuel full (res ++ encode_utf8 c) t rest (ground arith) (omega arith)
        ∙ rw append_assoc)

-- A text with no quote and no backslash is read, up to the closing quote, as its UTF-8 encoding.
pub lex_quoted-plain :
    (t rest : Text)
    → all is_plain t ≡ true
    → lex_quoted_string_as_vec (t ++ b'"' ∷ rest) ≡ ok (as_bytes t, rest)
unfolding lex_quoted_string_as_vec
lex_quoted-plain t rest a =
    quoted_loop-plain _ _ [] t rest a (omega (arith, length-append {0} t (b'"' ∷ rest)))
