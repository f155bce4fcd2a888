-- ===== src/Rhs/Bytes.antt =====
-- engine/src/rhs_types/bytes.rs: quoted strings, raw strings and byte strings.
pub mod RoundTrip
pub mod Raw
pub mod Lengths
use wirefilter.Prelude.{
  ℕ, zero, suc, ◌+◌, ◌-◌, ◌*◌, ◌/◌, ◌%◌, Bool, true, false, ◌&&◌, ◌||◌, not, Option, none, some,
  List, [], ◌∷◌, ◌++◌, leb, ltb, ◌==◌, if◌then◌else◌, length, drop, take as first_n, get_elem?,
}
use wirefilter.Lex.{
  Text, ParseIntError, LexErrorKind, expected_name, parse_int, invalid_character_escape,
  invalid_raw_string_hash_count, missing_ending_quote, eof, LexResult, ok, err, ◌>>=◌, codes, take,
}
use wirefilter.Rhs.Int.{Parsed, parsed, failed, magnitude}

abbrev pub Bytes : Type 0
Bytes = List ℕ

pub data BytesFormat : Type 0 where
  quoted : BytesFormat
  raw : ℕ → BytesFormat
  byte : BytesFormat

-- The source's field `data` is a reserved word here.
pub record BytesExpr : Type 0 where
  pub format : BytesFormat
  pub content : Bytes

-- `u8::from_str_radix`: a plus sign is accepted, and a minus sign is an invalid digit.
unfoldable pub u8_from_str_radix : Text → ℕ → Parsed ℕ
u8_from_str_radix [] radix = failed ParseIntError.empty
u8_from_str_radix (c ∷ []) radix = magnitude 255 ParseIntError.pos_overflow radix 0 (c ∷ [])
u8_from_str_radix (c ∷ d ∷ ds) radix =
    if c == b'+'
    then magnitude 255 ParseIntError.pos_overflow radix 0 (d ∷ ds)
    else magnitude 255 ParseIntError.pos_overflow radix 0 (c ∷ d ∷ ds)

abbrev pub byte_or_error : Text → Text → ℕ → Parsed ℕ → LexResult ℕ
byte_or_error digits rest radix (parsed b) = ok (b, rest)
byte_or_error digits rest radix (failed e) = err (parse_int e radix) digits

unfoldable pub fixed_byte : Text → ℕ → ℕ → LexResult ℕ
fixed_byte input count radix = do
  (digits, rest) ← take input count
  byte_or_error digits rest radix (u8_from_str_radix digits radix)

unfoldable pub hex_byte : Text → LexResult ℕ
hex_byte input = fixed_byte input 2 16

unfoldable pub oct_byte : Text → LexResult ℕ
oct_byte input = fixed_byte input 3 8

-- `write_char`: the UTF-8 encoding of a code point.
unfoldable pub encode_utf8 : ℕ → Bytes
encode_utf8 c =
    if ltb c 0x80
    then c ∷ []
    else if ltb c 0x800
    then (0xC0 + c / 64) ∷ (0x80 + c % 64) ∷ []
    else if ltb c 0x10000
    then (0xE0 + c / 4096) ∷ (0x80 + c / 64 % 64) ∷ (0x80 + c % 64) ∷ []
    else (0xF0 + c / 262144) ∷ (0x80 + c / 4096 % 64) ∷ (0x80 + c / 64 % 64) ∷ (0x80 + c % 64) ∷ []

pub data ByteSeparator : Type 0 where
  colon dash dot : ByteSeparator

abbrev pub separator_of : Text → Text → LexResult ByteSeparator
separator_of (c ∷ []) rest =
    if c == b':'
    then ok (colon, rest)
    else if c == b'-'
    then ok (dash, rest)
    else if c == b'.'
    then ok (dot, rest)
    else err (expected_name (codes "byte separator")) (c ∷ [])
separator_of sep rest = err (expected_name (codes "byte separator")) sep

unfoldable pub lex_separator : Text → LexResult ByteSeparator
lex_separator input = do (sep, rest) ← take input 1; separator_of sep rest

-- What an escape writes, and the text behind it; `c` is the character behind the backslash.
abbrev pub lex_escape : Text → ℕ → Text → LexResult Bytes
lex_escape input c rest =
    if c == b'"' || c == b'\\'
    then ok (encode_utf8 c, rest)
    else if c == b'x'
    then (do (b, rest') ← hex_byte rest; ok (b ∷ [], rest'))
    else if leb b'0' c && leb c b'7'
    then (do (b, rest') ← oct_byte input; ok (b ∷ [], rest'))
    else err invalid_character_escape (c ∷ [])

-- The part of the loop behind a backslash.
unfoldable pub lex_after_backslash : Text → Text → LexResult Bytes
lex_after_backslash full_input [] = err missing_ending_quote full_input
lex_after_backslash full_input (c ∷ rest) = lex_escape (c ∷ rest) c rest

-- The loop of `lex_quoted_string_as_vec`, on fuel: each round consumes a character at least.
unfoldable pub quoted_loop : ℕ → Text → Bytes → Text → LexResult Bytes
quoted_loop zero full_input res input = err missing_ending_quote full_input
quoted_loop (suc fuel) full_input res [] = err missing_ending_quote full_input
quoted_loop (suc fuel) full_input res (c ∷ input) =
    let escaped = lex_after_backslash full_input input >>= λ (bytes, rest).
    quoted_loop fuel full_input (res ++ bytes) rest in
    let plain = quoted_loop fuel full_input (res ++ encode_utf8 c) input in
    if c == b'\\' then escaped else if c == b'"' then ok (res, input) else plain

unfoldable pub lex_quoted_string_as_vec : Text → LexResult Bytes
lex_quoted_string_as_vec input = quoted_loop (suc (length input)) input [] input

unfoldable pub lex_quoted_string : Text → LexResult BytesExpr
lex_quoted_string input = do
  (vec, rest) ← lex_quoted_string_as_vec input
  ok (record { format = quoted; content = vec }, rest)

-- The loop of `lex_byte_string`, behind a separator, on fuel: each round consumes two characters.
unfoldable pub byte_loop : ℕ → Bytes → Text → LexResult Bytes
byte_loop zero res input = err eof input
byte_loop (suc fuel) res input = do
  (b, rest) ← hex_byte input
  elim (lex_separator rest) [
    | ok (_, rest') ↦ byte_loop fuel (res ++ b ∷ []) rest'
    | err _ _ ↦ ok (res ++ b ∷ [], rest)
  ]

unfoldable pub lex_byte_string : Text → LexResult BytesExpr
lex_byte_string input = do
  (b, rest) ← hex_byte input
  (_, rest') ← lex_separator rest
  (res, left) ← byte_loop (suc (length rest')) (b ∷ []) rest'
  ok (record { format = byte; content = res }, left)

-- How many `#` a text begins with, and what stands behind them.
unfoldable pub count_hashes : Text → ℕ
count_hashes [] = 0
count_hashes (c ∷ cs) = if c == b'#' then suc (count_hashes cs) else 0

-- The search for the final sequence. `i` is the position of the next character in the body; where
-- a quote is not followed by enough hashes, the hashes seen are skipped.
unfoldable pub raw_loop : ℕ → Text → ℕ → ℕ → Text → Option ℕ
raw_loop zero full_input hashes i chars = none
raw_loop (suc fuel) full_input hashes i [] = none
raw_loop (suc fuel) full_input hashes i (c ∷ chars) =
    let skipped =
      raw_loop fuel full_input hashes (i + 1 + count_hashes chars)
        (drop (count_hashes chars) chars) in
    let onward = raw_loop fuel full_input hashes (i + 1) chars in
    if c == b'"' then (if leb hashes (count_hashes chars) then some i else skipped) else onward

abbrev pub raw_result : Text → ℕ → Option ℕ → LexResult (Text × ℕ)
raw_result full_input hashes none = err missing_ending_quote full_input
raw_result full_input hashes (some i) =
    ok ((first_n i (drop (hashes + 1) full_input), hashes), drop (2 * (hashes + 1) + i) full_input)

abbrev pub is_quote : Option ℕ → Bool
is_quote (some c) = c == b'"'
is_quote none = false

unfoldable pub lex_raw_string_as_str : Text → LexResult (Text × ℕ)
lex_raw_string_as_str full_input =
    let hashes = count_hashes full_input in
    let body = drop (hashes + 1) full_input in
    if ltb 255 hashes
    then err invalid_raw_string_hash_count full_input
    else if not (is_quote (get_elem? full_input hashes))
    then err (expected_name (codes "\" or #")) (drop hashes full_input)
    else raw_result full_input hashes (raw_loop (suc (length body)) full_input hashes 0 body)

-- `str::as_bytes`
unfoldable pub as_bytes : Text → Bytes
as_bytes [] = []
as_bytes (c ∷ cs) = encode_utf8 c ++ as_bytes cs

unfoldable pub lex_raw_string : Text → LexResult BytesExpr
lex_raw_string input = do
  ((lexed, hashes), rest) ← lex_raw_string_as_str input
  ok (record { format = raw hashes; content = as_bytes lexed }, rest)

unfoldable pub lex_quoted_or_raw_string : Text → LexResult BytesExpr
lex_quoted_or_raw_string [] = err eof []
lex_quoted_or_raw_string (c ∷ input) =
    if c == b'"'
    then lex_quoted_string input
    else if c == b'r'
    then lex_raw_string input
    else err (expected_name (codes "\" or r")) (c ∷ input)

-- `<BytesExpr as Lex>::lex`
unfoldable pub lex_bytes : Text → LexResult BytesExpr
lex_bytes [] = err eof []
lex_bytes (c ∷ input) =
    if c == b'"' || c == b'r'
    then lex_quoted_or_raw_string (c ∷ input)
    else lex_byte_string (c ∷ input)
