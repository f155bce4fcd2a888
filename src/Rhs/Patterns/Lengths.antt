-- ===== src/Rhs/Patterns/Lengths.antt =====
-- engine/src/rhs_types/regex/mod.rs and engine/src/rhs_types/wildcard.rs: how much of the input the
-- lexers of patterns leave.
use wirefilter.Prelude.{
  ℕ, ◌≤◌, Bool, true, false, not, ◌&&◌, ◌||◌, Option, none, some, [], ◌∷◌, ◌++◌, ◌==◌, length,
  arith, inl, inr, Bool-cases,
}
use wirefilter.Lex.{Text, WildcardError}
use wirefilter.Lex.Lengths.{Within, bind-Within}
use wirefilter.Rhs.Bytes.{lex_raw_string_as_str, lex_quoted_or_raw_string}
use wirefilter.Rhs.Bytes.Lengths.{lex_raw_string_as_str-Within, lex_quoted_or_raw_string-Within}
use wirefilter.Rhs.External.{External}
use wirefilter.Rhs.Patterns.{
  literal_loop, Wildcard, regex_or_error, lex_regex_from_literal, lex_regex_from_raw_string,
  lex_regex, wildcard_error, wildcard_or_error, lex_wildcard,
}

literal_loop-Within :
    (input buf : Text) (in_class : Bool) (rest : Text) (n : ℕ)
    → length rest ≤ n
    → Within n (literal_loop input buf in_class rest)
unfolding literal_loop
literal_loop-Within input buf in_class [] n h = tt
literal_loop-Within input buf in_class (c ∷ []) n h =
    elim (Bool-cases (c == b'"' && not in_class)) [ inl e ↦ rw e (omega arith) | inr e ↦ rw e tt ]
literal_loop-Within input buf in_class (c ∷ d ∷ cs) n h = elim (Bool-cases (c == b'\\')) [
  | inl e ↦ elim (Bool-cases (in_class || not (d == b'"'))) [
    | inl k ↦
        rw (e, k, literal_loop)
          (literal_loop-Within input (buf ++ b'\\' ∷ d ∷ []) in_class cs n (omega arith))
    | inr k ↦
        rw (e, k, literal_loop)
          (literal_loop-Within input (buf ++ d ∷ []) in_class cs n (omega arith))
  ]
  | inr e ↦ elim (Bool-cases (c == b'"' && not in_class)) [
    | inl q ↦ rw (e, q, literal_loop) (omega arith)
    | inr q ↦ elim (Bool-cases (c == b'[' && not in_class)) [
      | inl o ↦
          rw (e, q, o, literal_loop)
            (literal_loop-Within input (buf ++ b'[' ∷ []) true (d ∷ cs) n (omega arith))
      | inr o ↦ elim (Bool-cases (c == b']' && in_class)) [
        | inl l ↦
            rw (e, q, o, l, literal_loop)
              (literal_loop-Within input (buf ++ b']' ∷ []) false (d ∷ cs) n (omega arith))
        | inr l ↦
            rw (e, q, o, l, literal_loop)
              (literal_loop-Within input (buf ++ c ∷ []) in_class (d ∷ cs) n (omega arith))
      ]
    ]
  ]
]

module _ (E : External) where
  regex_or_error-Within :
      (at rest : Text) (o : Option E.Regex) (n : ℕ)
      → length rest ≤ n
      → Within n (regex_or_error E at rest o)
  regex_or_error-Within at rest (some r) n h = h
  regex_or_error-Within at rest none n h = tt

  pub lex_regex-Within : (input : Text) (n : ℕ) → length input ≤ n → Within n (lex_regex E input)
  unfolding lex_regex lex_regex_from_literal lex_regex_from_raw_string
  lex_regex-Within [] n h = tt
  lex_regex-Within (c ∷ input) n h = elim (Bool-cases (c == b'"')) [
    | inl q ↦ rw q (
        bind-Within (literal_loop input [] false input) _ n n
          (literal_loop-Within input [] false input n (omega arith))
          λ p rest k. regex_or_error-Within p.1 rest (E.lookup_regex p.0) n k)
    | inr q ↦ elim (Bool-cases (c == b'r')) [
      | inl r ↦
          rw (q, r)
            (bind-Within (lex_raw_string_as_str input) _ n n
              (lex_raw_string_as_str-Within input n (omega arith))
              λ p rest k. regex_or_error-Within rest rest (E.lookup_regex p.0) n k)
      | inr r ↦ rw (q, r) tt
    ]
  ]

  pub lex_wildcard-Within :
      (strict : Bool) (limit : ℕ) (input : Text) (n : ℕ)
      → length input ≤ n
      → Within n (lex_wildcard E strict limit input)
  unfolding lex_wildcard
  lex_wildcard-Within strict limit input n h =
      bind-Within (lex_quoted_or_raw_string input) _ n n
        (lex_quoted_or_raw_string-Within input n (omega arith))
        λ pattern rest k.
          by_error rest (record { strict = strict; pattern = pattern })
            (wildcard_error E limit (E.build_wildcard strict pattern.content)) k
    where
      by_error :
          (rest : Text) (w : Wildcard) (e : Option WildcardError)
          → length rest ≤ n
          → Within n (wildcard_or_error E input rest w e)
      by_error rest w none k = k
      by_error rest w (some e) k = tt
