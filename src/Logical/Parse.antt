-- ===== src/Logical/Parse.antt =====
-- engine/src/ast/logical_expr.rs: the lexer of logical expressions, on fuel. `lex_comparison` is that
-- of a comparison and `type_of` its type; `Option<LogicalOp>` compares by `rank`.
pub mod Ends
pub mod Typed
pub mod Built
pub mod Runs
pub mod Every
pub mod Precedence
pub mod Climb
use wirefilter.Prelude.{
  ℕ, zero, suc, ◌+◌, ◌*◌, Bool, true, false, Option, none, some, List, [], ◌∷◌, leb, ltb, ◌==◌,
  if◌then◌else◌, length,
}
use wirefilter.Prelude.Outcome
use wirefilter.Prelude.Outcome.{Outcome, done, panic}
use wirefilter.Types.{ValueType}
use wirefilter.Lex.{Text, codes, LexErrorKind, LexResult, ok, err, expect, skip_space, lex_enum}
use wirefilter.Lex.Run.{Run, lexed, failed, panicked, out_of_fuel, lift, run_outcome, ◌>>=◌}
use wirefilter.Logical.{LogicalOp, LogicalExpr, LogicalExprs, nil, cons}

abbrev pub logical_op_spellings : List (Text × LogicalOp)
logical_op_spellings =
    (codes "or", LogicalOp.or)
    ∷ (codes "||", LogicalOp.or)
    ∷ (codes "xor", LogicalOp.xor)
    ∷ (codes "^^", LogicalOp.xor)
    ∷ (codes "and", LogicalOp.and)
    ∷ (codes "&&", LogicalOp.and)
    ∷ []

abbrev pub unary_op_spellings : List (Text × Unit {0})
unary_op_spellings = (codes "not", tt) ∷ (codes "!", tt) ∷ []

abbrev pub op_found : Text → LexResult LogicalOp → Option LogicalOp × Text
op_found input (ok (op, rest)) = (some op, skip_space rest)
op_found input (err k s) = (none, input)

unfoldable pub lex_combining_op : Text → Option LogicalOp × Text
lex_combining_op input =
    op_found input (lex_enum (codes "LogicalOp") logical_op_spellings (skip_space input))

-- The derived order of `Option<LogicalOp>`.
abbrev pub rank : Option LogicalOp → ℕ
rank none = 0
rank (some LogicalOp.or) = 1
rank (some LogicalOp.xor) = 2
rank (some LogicalOp.and) = 3

unfoldable pub append : {C : Type 0} → LogicalExprs C → LogicalExpr C → LogicalExprs C
append nil e = cons e nil
append (cons x es) e = cons x (append es e)

-- `items.push` if the left side combines by the same operator, a new combination if not.
unfoldable pub push_item : {C : Type 0} → LogicalOp → LogicalExpr C → LogicalExpr C → LogicalExpr C
unfolding append
push_item op (LogicalExpr.combining lhs_op items) rhs =
    if rank (some lhs_op) == rank (some op)
    then LogicalExpr.combining lhs_op (append items rhs)
    else LogicalExpr.combining op (cons (LogicalExpr.combining lhs_op items) (cons rhs nil))
push_item op (LogicalExpr.comparison c) rhs =
    LogicalExpr.combining op (cons (LogicalExpr.comparison c) (cons rhs nil))
push_item op (LogicalExpr.parenthesized e) rhs =
    LogicalExpr.combining op (cons (LogicalExpr.parenthesized e) (cons rhs nil))
push_item op (LogicalExpr.unary_not e) rhs =
    LogicalExpr.combining op (cons (LogicalExpr.unary_not e) (cons rhs nil))

-- The types that the source lets an operator combine.
abbrev pub comparable : ValueType → ValueType → Bool
comparable ValueType.bool ValueType.bool = true
comparable (ValueType.array a) (ValueType.array b) = true
comparable _ _ = false

-- `LogicalExpr::get_type`; `items[0]` panics if there is none.
unfoldable pub get_type : {C : Type 0} → (C → Outcome ValueType) → LogicalExpr C → Outcome ValueType
get_type type_of (LogicalExpr.combining op nil) = panic
get_type type_of (LogicalExpr.combining op (cons e es)) = get_type type_of e
get_type type_of (LogicalExpr.comparison c) = type_of c
get_type type_of (LogicalExpr.parenthesized e) = get_type type_of e
get_type type_of (LogicalExpr.unary_not e) = get_type type_of e

-- The check of the two sides, then the left side with the right one put to it; `at` is
-- `lookahead.1`, which an error carries, and `rest` is what follows the right side.
unfoldable pub combine_checked :
    {C : Type 0}
    → (C → Outcome ValueType)
    → LogicalOp
    → LogicalExpr C
    → LogicalExpr C
    → Text
    → Text
    → Run (LogicalExpr C)
unfolding get_type push_item
combine_checked type_of op lhs rhs at rest = run_outcome (get_type type_of lhs) λ lhsty.
    run_outcome (get_type type_of rhs) λ rhsty.
      if comparable lhsty rhsty
      then lexed (push_item op lhs rhs, rest)
      else failed (LexErrorKind.type_mismatch lhsty rhsty) at

-- An operator below the limit counts as none.
abbrev pub within : Option LogicalOp → Text → Option LogicalOp × Text → Option LogicalOp × Text
within min_prec rest lookahead =
    if ltb (rank lookahead.0) (rank min_prec) then (none, rest) else lookahead

-- `lex_with_fuel` is `lex_with`, `more` is `lex_more_with_precedence`, whose inner loop is `climb`:
-- the loop ends with the lookahead of what follows its right side.
unfoldable mutual
  unfolding lex_combining_op combine_checked

  pub lex_simple_expr :
      {C : Type 0} → (Text → Run C) → (C → Outcome ValueType) → ℕ → Text → Run (LogicalExpr C)
  lex_simple_expr lex_comparison type_of zero input = out_of_fuel
  lex_simple_expr lex_comparison type_of (suc f) input = elim (expect input (codes "(")) [
    | ok (_, rest) ↦ lex_with_fuel lex_comparison type_of f (skip_space rest) >>= λ (e, rest).
        lift (expect (skip_space rest) (codes ")")) >>= λ (_, rest).
        lexed (LogicalExpr.parenthesized e, rest)
    | err _ _ ↦ elim (lex_enum (codes "UnaryOp") unary_op_spellings input) [
      | ok (_, rest) ↦ lex_simple_expr lex_comparison type_of f (skip_space rest) >>= λ (e, rest).
          lexed (LogicalExpr.unary_not e, rest)
      | err _ _ ↦ lex_comparison input >>= λ (c, rest). lexed (LogicalExpr.comparison c, rest)
    ]
  ]

  pub more :
      {C : Type 0}
      → (Text → Run C)
      → (C → Outcome ValueType)
      → ℕ
      → LogicalExpr C
      → Option LogicalOp
      → Option LogicalOp × Text
      → Run (LogicalExpr C)
  more lex_comparison type_of zero lhs min_prec lookahead = out_of_fuel
  more lex_comparison type_of (suc f) lhs min_prec (none, at) = lexed (lhs, at)
  more lex_comparison type_of (suc f) lhs min_prec (some op, at) =
      lex_simple_expr lex_comparison type_of f at >>= λ (rhs, rest).
      climb lex_comparison type_of f op rhs rest >>= λ (rhs, rest).
      combine_checked type_of op lhs rhs (lex_combining_op rest).1 rest >>= λ (lhs, rest).
      more lex_comparison type_of f lhs min_prec (within min_prec rest (lex_combining_op rest))

  pub climb :
      {C : Type 0}
      → (Text → Run C)
      → (C → Outcome ValueType)
      → ℕ
      → LogicalOp
      → LogicalExpr C
      → Text
      → Run (LogicalExpr C)
  climb lex_comparison type_of zero op rhs rest = out_of_fuel
  climb lex_comparison type_of (suc f) op rhs rest =
      elim (leb (rank (lex_combining_op rest).0) (rank (some op))) [
        | true ↦ lexed (rhs, rest)
        | false ↦
            more lex_comparison type_of f rhs (lex_combining_op rest).0 (lex_combining_op rest)
            >>= λ (rhs, rest). climb lex_comparison type_of f op rhs rest
      ]

  pub lex_with_fuel :
      {C : Type 0} → (Text → Run C) → (C → Outcome ValueType) → ℕ → Text → Run (LogicalExpr C)
  lex_with_fuel lex_comparison type_of zero input = out_of_fuel
  lex_with_fuel lex_comparison type_of (suc f) input =
      lex_simple_expr lex_comparison type_of f input >>= λ (lhs, rest).
      more lex_comparison type_of f lhs none (lex_combining_op rest)

unfoldable pub lex_with :
    {C : Type 0} → (Text → Run C) → (C → Outcome ValueType) → Text → Run (LogicalExpr C)
unfolding lex_simple_expr
lex_with lex_comparison type_of input =
    lex_with_fuel lex_comparison type_of (4 * length input + 2) input
