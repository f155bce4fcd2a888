-- ===== src/Index/Parse.antt =====
-- engine/src/ast/index_expr.rs and engine/src/scheme.rs: the lexer of an identifier with its indexes.
-- `I` is the type of identifiers, `lex_identifier` their lexer and `identifier_type` their type.
pub mod Typed
use wirefilter.Prelude.{
  ℕ, zero, suc, ◌^◌, Bool, true, false, Option, none, some, List, [], ◌∷◌, ◌++◌, ltb, if◌then◌else◌,
  length,
}
use wirefilter.Prelude.Int.{ℤ, pos, negsuc}
use wirefilter.Prelude.Outcome
use wirefilter.Prelude.Outcome.{Outcome, done, panic}
use wirefilter.Types.{ValueType, into_type}
use wirefilter.Lex.{
  Text, codes, FieldIndex, LexErrorKind, expected_literal, LexResult, ok, err, expect, skip_space,
  span,
}
use wirefilter.Lex.Run.{Run, lexed, failed, out_of_fuel, lift, run_outcome, ◌>>=◌}
use wirefilter.Rhs.Int.{lex_i64}
use wirefilter.Rhs.Bytes.{BytesExpr, lex_bytes}
use wirefilter.Rhs.Utf8.{from_utf8}
use wirefilter.Value.{path_type}

-- An integer literal as an index; `u32::try_from` fails below 0 and from 2^32.
abbrev pub int_index : Text → LexResult ℤ → LexResult FieldIndex
int_index input (ok (pos n, rest)) =
    if ltb n (2 ^ 32)
    then ok (FieldIndex.array_index n, rest)
    else err (expected_literal (codes "expected positive integer as index")) input
int_index input (ok (negsuc n, rest)) =
    err (expected_literal (codes "expected positive integer as index")) input
int_index input (err k s) =
    err (expected_literal (codes "expected quoted utf8 string or positive integer")) input

abbrev pub key_or_error : Text → Text → Option Text → LexResult FieldIndex
key_or_error input rest (some s) = ok (FieldIndex.map_key s, rest)
key_or_error input rest none = err (expected_literal (codes "expected utf8 string")) input

abbrev pub bytes_index : Text → LexResult BytesExpr → LexResult FieldIndex
bytes_index input (ok (b, rest)) = key_or_error input rest (from_utf8 b.content)
bytes_index input (err k s) = err k s

-- `<FieldIndex as Lex>::lex`
unfoldable pub lex_field_index : Text → LexResult FieldIndex
unfolding expect lex_i64 lex_bytes
lex_field_index input = elim (expect input (codes "*")) [
  | ok (_, rest) ↦ ok (FieldIndex.map_each, rest)
  | err _ _ ↦ elim (expect input (codes "\"")) [
    | ok _ ↦ bytes_index input (lex_bytes input)
    | err _ _ ↦ int_index input (lex_i64 input)
  ]
]

-- An index up to the bracket that closes it.
unfoldable pub lex_closed_index : Text → Run FieldIndex
unfolding lex_field_index
lex_closed_index input = lift (lex_field_index input) >>= λ (idx, rest).
    lift (expect (skip_space rest) (codes "]")) >>= λ (_, rest). lexed (idx, rest)

-- `IndexAccessError`, about the text of the index.
abbrev pub invalid_index_access : FieldIndex → ValueType → Text → Text → Run (List FieldIndex)
invalid_index_access idx actual input rest =
    failed (LexErrorKind.invalid_index_access idx actual) (span input rest)

-- The match on the index and on the type so far, or `none` for an access error.
abbrev pub next_type : FieldIndex → ValueType → Option ValueType
next_type (FieldIndex.array_index _) (ValueType.array c) = some (into_type c)
next_type (FieldIndex.array_index _) _ = none
next_type (FieldIndex.map_key _) (ValueType.map c) = some (into_type c)
next_type (FieldIndex.map_key _) _ = none
next_type FieldIndex.map_each (ValueType.array c) = some (into_type c)
next_type FieldIndex.map_each (ValueType.map c) = some (into_type c)
next_type FieldIndex.map_each _ = none

-- The loop, with the type so far and the indexes so far.
unfoldable pub lex_indexes : ℕ → ValueType → List FieldIndex → Text → Run (List FieldIndex)
unfolding lex_closed_index into_type span
lex_indexes zero current_type indexes input = out_of_fuel
lex_indexes (suc f) current_type indexes input = elim (expect input (codes "[")) [
  | err _ _ ↦ lexed (indexes, input)
  | ok (_, rest) ↦ lex_closed_index (skip_space rest) >>= λ (idx, rest).
      elim (next_type idx current_type) [
        | none ↦ invalid_index_access idx current_type input rest
        | some t ↦ lex_indexes f t (indexes ++ idx ∷ []) rest
      ]
]

pub record IndexExpr (I : Type 0) : Type 0 where
  pub identifier : I
  pub indexes : List FieldIndex

-- Each round of the loop takes two brackets.
unfoldable pub lex_with : {I : Type 0} → (Text → Run I) → (I → ValueType) → Text → Run (IndexExpr I)
unfolding lex_indexes
lex_with lex_identifier identifier_type input = lex_identifier input >>= λ (identifier, rest).
    lex_indexes (suc (length rest)) (identifier_type identifier) [] rest >>= λ (indexes, rest).
    lexed (record { identifier = identifier; indexes = indexes }, rest)

-- `IndexExpr::get_type`, whose `unreachable!()` is a panic.
abbrev pub type_or_panic : Option ValueType → Outcome ValueType
type_or_panic (some t) = done t
type_or_panic none = panic

unfoldable pub get_type : {I : Type 0} → (I → ValueType) → IndexExpr I → Outcome ValueType
unfolding path_type
get_type identifier_type e = type_or_panic (path_type (identifier_type e.identifier) e.indexes)
