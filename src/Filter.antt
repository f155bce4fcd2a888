-- ===== src/Filter.antt =====
-- engine/src/ast/mod.rs, engine/src/ast/parse.rs and engine/src/ast/field_expr.rs: the lexer of filters,
-- from a lexer of identifiers. `I` is the type of identifiers and `identifier_type` their type.
pub mod Parse
pub mod Errors
use wirefilter.Prelude.{
  ℕ, Bool, true, false, ◌&&◌, ◌||◌, Option, none, some, List, [], ◌∷◌, ◌==◌, ltb, if◌then◌else◌,
}
use wirefilter.Prelude.Outcome.{Outcome, done, panic}
use wirefilter.Types.{PrimitiveType, CompoundType, ValueType, new}
use wirefilter.Lex.{Text, LexErrorKind, skip_while, is_space}
use wirefilter.Lex.Run.{Run, lexed, failed, run_outcome, ◌>>=◌}
use wirefilter.Rhs.External.{External}
use wirefilter.Rhs.Bytes.{as_bytes}
use wirefilter.Filter.Errors.{ParseError}
use wirefilter.Filter.Errors as Errors
use wirefilter.Index.Compile.{map_each_count}
use wirefilter.Index.Parse.{IndexExpr}
use wirefilter.Index.Parse as Index
use wirefilter.Logical.{LogicalExpr, CompiledExpr, one, vec, compile}
use wirefilter.Logical.Parse as Logical
use wirefilter.Compare.Parse.{ComparisonOpExpr, ComparisonExpr, lex_with_lhs}

-- `Type::Array(Type::Bool.into())`
abbrev pub bool_array : ValueType
bool_array = ValueType.array (record { layers = 0; len = 1; primitive = PrimitiveType.bool })

-- `complete`: an expression, or an error about a span.
pub data CompleteResult (A : Type 0) : Type 0 where
  whole : A → CompleteResult A
  error : LexErrorKind → Text → CompleteResult A
  panicked out_of_fuel : CompleteResult A

abbrev pub complete : {A : Type 0} → Run A → CompleteResult A
complete (lexed (a, [])) = whole a
complete (lexed (a, c ∷ cs)) = error LexErrorKind.eof (c ∷ cs)
complete (failed k s) = error k s
complete Run.panicked = CompleteResult.panicked
complete Run.out_of_fuel = CompleteResult.out_of_fuel

-- `FilterParser::parse`
pub data ParseResult (A : Type 0) : Type 0 where
  parsed : A → ParseResult A
  error : ParseError → ParseResult A
  panicked out_of_fuel : ParseResult A

abbrev pub error_or_panic : {A : Type 0} → Outcome ParseError → ParseResult A
error_or_panic (done e) = ParseResult.error e
error_or_panic panic = ParseResult.panicked

-- `map_err` with `ParseError::new`. `place` is what the pointers of a span say: its offset in the input
-- and its length, in bytes.
abbrev pub map_err : {A : Type 0} → (Text → ℕ × ℕ) → Text → CompleteResult A → ParseResult A
map_err place input (whole a) = parsed a
map_err place input (CompleteResult.error k s) =
    error_or_panic (Errors.new (as_bytes input) k (place s).0 (place s).1)
map_err place input CompleteResult.panicked = ParseResult.panicked
map_err place input CompleteResult.out_of_fuel = ParseResult.out_of_fuel

-- `char::is_whitespace`
abbrev pub is_whitespace : ℕ → Bool
is_whitespace c =
    ltb 8 c && ltb c 14
    || c == 0x20
    || c == 0x85
    || c == 0xA0
    || c == 0x1680
    || ltb 0x1FFF c && ltb c 0x200B
    || c == 0x2028
    || c == 0x2029
    || c == 0x202F
    || c == 0x205F
    || c == 0x3000

-- `trim_end`
unfoldable pub trim_end : Text → Text
trim_end [] = []
trim_end (c ∷ cs) = elim (trim_end cs) [
  | [] ↦ if is_whitespace c then [] else c ∷ []
  | d ∷ ds ↦ c ∷ d ∷ ds
]

-- `str::trim`
unfoldable pub trim : Text → Text
unfolding skip_while trim_end
trim input = trim_end (skip_while is_whitespace input)

module _ (E : External) {I : Type 0} (identifier_type : I → ValueType) where
  abbrev pub is_is_true : ComparisonOpExpr E → Bool
  is_is_true ComparisonOpExpr.is_true = true
  is_is_true _ = false

  -- `ComparisonExpr::get_type`
  unfoldable pub comparison_type : ComparisonExpr E I → Outcome ValueType
  unfolding map_each_count Index.get_type
  comparison_type c =
      if ltb 0 (map_each_count c.lhs.indexes)
      then done bool_array
      else if is_is_true c.op
      then Index.get_type identifier_type c.lhs
      else done ValueType.bool

  module _ (lex_identifier : Text → Run I) (get_list : ValueType → Option ℕ) (star_limit : ℕ) where
    -- `ComparisonExpr::lex_with`
    unfoldable pub lex_comparison : Text → Run (ComparisonExpr E I)
    unfolding Index.lex_with lex_with_lhs
    lex_comparison input = Index.lex_with lex_identifier identifier_type input >>= λ (lhs, rest).
        lex_with_lhs E get_list star_limit identifier_type lhs rest

    -- The root must be a single value.
    abbrev pub check_root :
        LogicalExpr (ComparisonExpr E I) → Text → ValueType → Run (LogicalExpr (ComparisonExpr E I))
    check_root e rest ValueType.bool = lexed (e, rest)
    check_root e rest t = failed (LexErrorKind.type_mismatch ValueType.bool t) rest

    -- `FilterAst::lex_with`
    unfoldable pub lex_filter : Text → Run (LogicalExpr (ComparisonExpr E I))
    unfolding lex_comparison comparison_type Logical.lex_with Logical.get_type
    lex_filter input = Logical.lex_with lex_comparison comparison_type input >>= λ (e, rest).
        run_outcome (Logical.get_type comparison_type e) (check_root e rest)

    -- `FilterParser::parse`
    unfoldable pub parse : (Text → ℕ × ℕ) → Text → ParseResult (LogicalExpr (ComparisonExpr E I))
    unfolding trim lex_filter Errors.new
    parse place input = map_err place input (complete (lex_filter (trim input)))

-- `FilterAst::compile_with_compiler`; a filter of the other kind is `unreachable!()`.
abbrev pub single : {X : Type 0} → Outcome (CompiledExpr X) → Outcome (X → Outcome Bool)
single panic = panic
single (done (one f)) = done f
single (done (vec f)) = panic

unfoldable pub compile_filter :
    {C X : Type 0} → (C → CompiledExpr X) → LogicalExpr C → Outcome (X → Outcome Bool)
unfolding compile
compile_filter compile_comparison e = single (compile compile_comparison e)
