-- ===== src/Rhs/Patterns.antt =====
-- engine/src/rhs_types/regex/mod.rs and engine/src/rhs_types/wildcard.rs: the patterns on the right of
-- a comparison.
pub mod Lengths
use wirefilter.Prelude.{
  ℕ, zero, suc, ◌+◌, ◌≤◌, ◌<◌, ◌≡◌, refl, Bool, true, false, not, ◌&&◌, ◌||◌, Option, none, some,
  List, [], ◌∷◌, ◌++◌, ◌==◌, leb, ltb, length, arith, if◌then◌else◌, inl, inr, Bool-cases,
}
use wirefilter.Lex.{
  Text, codes, LexErrorKind, expected_name, eof, missing_ending_quote, WildcardError, LexResult, ok,
  err, ◌>>=◌, span,
}
use wirefilter.Lex.Lengths.{Within, bind-Within}
use wirefilter.Rhs.Bytes.{Bytes, BytesExpr, lex_raw_string_as_str, lex_quoted_or_raw_string}
use wirefilter.Rhs.External.{External, WildcardToken}

-- The loop of `lex_regex_from_literal`, with the pattern so far; the value is the pattern, and what
-- stands in front of the closing quote.
unfoldable pub literal_loop : Text → Text → Bool → Text → LexResult (Text × Text)
unfolding span
literal_loop input buf in_class [] = err missing_ending_quote input
literal_loop input buf in_class (c ∷ []) =
    let closed : LexResult (Text × Text) = ok ((buf, span input (c ∷ [])), []) in
    if c == b'"' && not in_class then closed else err missing_ending_quote input
literal_loop input buf in_class (c ∷ d ∷ cs) =
    let kept = literal_loop input (buf ++ b'\\' ∷ d ∷ []) in_class cs in
    let bare = literal_loop input (buf ++ d ∷ []) in_class cs in
    let opened = literal_loop input (buf ++ b'[' ∷ []) true (d ∷ cs) in
    let left = literal_loop input (buf ++ b']' ∷ []) false (d ∷ cs) in
    let plain = literal_loop input (buf ++ c ∷ []) in_class (d ∷ cs) in
    if c == b'\\'
    then (if in_class || not (d == b'"') then kept else bare)
    else if c == b'"' && not in_class
    then ok ((buf, span input (c ∷ d ∷ cs)), d ∷ cs)
    else if c == b'[' && not in_class
    then opened
    else if c == b']' && in_class
    then left
    else plain

abbrev pub is_metasymbol : WildcardToken → Bool
is_metasymbol (WildcardToken.symbol b) = false
is_metasymbol _ = true

abbrev pub is_any : WildcardToken → Bool
is_any WildcardToken.metasymbol_any = true
is_any _ = false

unfoldable pub metasymbol_count : List WildcardToken → ℕ
metasymbol_count [] = 0
metasymbol_count (t ∷ ts) =
    if is_metasymbol t then suc (metasymbol_count ts) else metasymbol_count ts

-- The loop with the token before.
unfoldable pub double_star_from : WildcardToken → List WildcardToken → Bool
double_star_from prev [] = false
double_star_from prev (next ∷ ts) =
    let onward = double_star_from next ts in if is_any prev && is_any next then true else onward

unfoldable pub has_double_star : List WildcardToken → Bool
unfolding double_star_from
has_double_star [] = false
has_double_star (t ∷ ts) = double_star_from t ts

unfoldable pub validate_wildcard : List WildcardToken → ℕ → Option WildcardError
unfolding metasymbol_count has_double_star
validate_wildcard tokens limit =
    if ltb limit (metasymbol_count tokens)
    then some (WildcardError.too_many_star_metacharacters (metasymbol_count tokens) limit)
    else if has_double_star tokens
    then some WildcardError.double_star
    else none

-- `Wildcard<STRICT>`: the pattern, which the compiled form is built from.
pub record Wildcard : Type 0 where
  pub strict : Bool
  pub pattern : BytesExpr

module _ (E : External) where
  abbrev pub regex_or_error : Text → Text → Option E.Regex → LexResult E.Regex
  regex_or_error at rest (some r) = ok (r, rest)
  regex_or_error at rest none = err LexErrorKind.parse_regex at

  unfoldable pub lex_regex_from_literal : Text → LexResult E.Regex
  unfolding literal_loop
  lex_regex_from_literal input = do
    ((buf, regex_str), rest) ← literal_loop input [] false input
    regex_or_error regex_str rest (E.lookup_regex buf)

  unfoldable pub lex_regex_from_raw_string : Text → LexResult E.Regex
  unfolding lex_raw_string_as_str
  lex_regex_from_raw_string input = do
    ((lexed, hashes), rest) ← lex_raw_string_as_str input
    regex_or_error rest rest (E.lookup_regex lexed)

  -- `<RegexExpr as LexWith>::lex_with`
  unfoldable pub lex_regex : Text → LexResult E.Regex
  unfolding lex_regex_from_literal lex_regex_from_raw_string
  lex_regex [] = err eof []
  lex_regex (c ∷ input) =
      if c == b'"'
      then lex_regex_from_literal input
      else if c == b'r'
      then lex_regex_from_raw_string input
      else err (expected_name (codes "\" or r")) (c ∷ input)

  abbrev pub wildcard_error : ℕ → Option (List WildcardToken) → Option WildcardError
  wildcard_error limit none = some WildcardError.invalid_wildcard
  wildcard_error limit (some tokens) = validate_wildcard tokens limit

  abbrev pub wildcard_or_error : Text → Text → Wildcard → Option WildcardError → LexResult Wildcard
  wildcard_or_error input rest w none = ok (w, rest)
  wildcard_or_error input rest w (some e) = err (LexErrorKind.parse_wildcard e) input

  -- `<Wildcard<STRICT> as LexWith>::lex_with`, with the limit of the settings.
  unfoldable pub lex_wildcard : Bool → ℕ → Text → LexResult Wildcard
  unfolding lex_quoted_or_raw_string validate_wildcard
  lex_wildcard strict limit input = do
    (pattern, rest) ← lex_quoted_or_raw_string input
    wildcard_or_error input rest (record { strict = strict; pattern = pattern })
        (wildcard_error limit (E.build_wildcard strict pattern.content))
