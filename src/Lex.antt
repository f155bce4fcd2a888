-- ===== src/Lex.antt =====
-- engine/src/lex.rs: the lexer's primitives. A text is the list of its code points, and a slice of
-- the input is such a list too; what is left of the input comes back with each value.
pub mod Laws
pub mod Run
pub mod Lengths
use Prim.Native.Char.{code}
use Prim.Native.String.{String}
use wirefilter.Prelude.{
  ℕ, zero, suc, ◌+◌, ◌-◌, Bool, true, false, ◌||◌, not, Option, none, some, List, [], ◌∷◌, ◌==◌,
  if◌then◌else◌, length, take as first_n, any,
}
use wirefilter.Types.{ValueType}

abbrev pub Text : Type 0
Text = List ℕ

abbrev pub codes : String → Text
codes String.[] = []
codes (String.◌∷◌ c s) = code c ∷ codes s

-- `std::num::IntErrorKind`
pub data ParseIntError : Type 0 where
  empty invalid_digit pos_overflow neg_overflow : ParseIntError

-- `FieldIndex` of scheme.rs, which an error carries.
pub data FieldIndex : Type 0 where
  array_index : ℕ → FieldIndex
  map_key : Text → FieldIndex
  map_each : FieldIndex

-- `WildcardError` of rhs_types/wildcard.rs, which an error carries.
pub data WildcardError : Type 0 where
  invalid_wildcard double_star : WildcardError
  too_many_star_metacharacters : ℕ → ℕ → WildcardError

-- The errors that the modelled lexers return. `network` stands for the errors of the address parsers.
pub data LexErrorKind : Type 0 where
  expected_name expected_literal : Text → LexErrorKind
  parse_int : ParseIntError → ℕ → LexErrorKind
  network : Text → LexErrorKind
  invalid_character_escape invalid_raw_string_hash_count missing_ending_quote : LexErrorKind
  count_mismatch : ℕ → ℕ → LexErrorKind
  unknown_field unknown_function unknown_identifier : LexErrorKind
  unsupported_op : ValueType → LexErrorKind
  incompatible_range_bounds eof : LexErrorKind
  invalid_arguments_count : ℕ → Option ℕ → LexErrorKind
  invalid_argument_kind invalid_argument_type invalid_argument_value : ℕ → LexErrorKind
  invalid_index_access : FieldIndex → ValueType → LexErrorKind
  type_mismatch : ValueType → ValueType → LexErrorKind
  invalid_map_each_access : LexErrorKind
  invalid_list_name : Text → LexErrorKind
  parse_regex : LexErrorKind
  parse_wildcard : WildcardError → LexErrorKind

-- `LexResult`: the value with the rest of the input, or the error with the text it is about.
pub data LexResult (A : Type 0) : Type 0 where
  ok : A × Text → LexResult A
  err : LexErrorKind → Text → LexResult A

infixl 5 ◌>>=◌
abbrev pub ◌>>=◌ : {A B : Type 0} → LexResult A → (A × Text → LexResult B) → LexResult B
ok p >>= f = f p
err k s >>= f = err k s

abbrev pub is_ok : {A : Type 0} → LexResult A → Bool
is_ok (ok _) = true
is_ok (err _ _) = false

-- `str::strip_prefix`, the prefix first.
unfoldable pub strip_prefix : Text → Text → Option Text
strip_prefix [] input = some input
strip_prefix (c ∷ cs) [] = none
strip_prefix (c ∷ cs) (d ∷ ds) = if c == d then strip_prefix cs ds else none

abbrev pub or_expected : Text → Text → Option Text → LexResult (Unit {0})
or_expected input s (some rest) = ok (tt, rest)
or_expected input s none = err (expected_literal s) input

-- The source returns the rest alone.
unfoldable pub expect : Text → Text → LexResult (Unit {0})
unfolding strip_prefix
expect input s = or_expected input s (strip_prefix s input)

abbrev pub is_space : ℕ → Bool
is_space c = c == b' ' || c == b'\r' || c == b'\n'

-- `trim_start_matches`, by a predicate.
unfoldable pub skip_while : (ℕ → Bool) → Text → Text
skip_while f [] = []
skip_while f (c ∷ cs) = if f c then skip_while f cs else c ∷ cs

unfoldable pub skip_space : Text → Text
unfolding skip_while
skip_space = skip_while is_space

unfoldable pub span : Text → Text → Text
span input rest = first_n (length input - length rest) input

-- The loop stops in front of the first character that `f` refuses.
unfoldable pub take_while : Text → Text → (ℕ → Bool) → LexResult Text
unfolding skip_while span
take_while input name f =
    let rest = skip_while f input in
    if not (length rest == length input)
    then ok (span input rest, rest)
    else err (expected_name name) input

-- The loop of `take`: `chars.next()` for `i` up to `expected`, with `left` rounds to go.
unfoldable pub take_loop : Text → ℕ → ℕ → ℕ → Text → LexResult Text
unfolding span
take_loop input expected zero i chars = ok (span input chars, chars)
take_loop input expected (suc left) i [] = err (count_mismatch i expected) input
take_loop input expected (suc left) i (c ∷ cs) = take_loop input expected left (i + 1) cs

unfoldable pub take : Text → ℕ → LexResult Text
unfolding take_loop
take input expected = take_loop input expected expected 0 input

-- `complete`: an error if anything is left.
pub data Completed (A : Type 0) : Type 0 where
  ok : A → Completed A
  err : LexErrorKind → Text → Completed A

unfoldable pub complete : {A : Type 0} → LexResult A → Completed A
complete (LexResult.ok (a, [])) = Completed.ok a
complete (LexResult.ok (a, c ∷ cs)) = Completed.err eof (c ∷ cs)
complete (LexResult.err k s) = Completed.err k s

-- What the macro `lex_enum!` generates for string variants: the first spelling that fits, in order.
unfoldable pub lex_enum : {A : Type 0} → Text → List (Text × A) → Text → LexResult A
unfolding strip_prefix
lex_enum name [] input = err (expected_name name) input
lex_enum name ((s, a) ∷ more) input = elim (strip_prefix s input) [
  | some rest ↦ ok (a, rest)
  | none ↦ lex_enum name more input
]
