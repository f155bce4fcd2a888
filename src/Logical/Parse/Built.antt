-- ===== src/Logical/Parse/Built.antt =====
-- engine/src/ast/logical_expr.rs: a property that the lexer builds into what it returns.
use wirefilter.Prelude.{
  ℕ, ◌*◌, ◌+◌, zero, suc, Option, none, some, inl, inr, leb, length, Bool-cases,
}
use wirefilter.Prelude.Outcome.{Outcome}
use wirefilter.Types.{ValueType}
use wirefilter.Lex.{Text, codes, expect, skip_space, lex_enum}
use wirefilter.Lex.Run.{Run, Safe, bind-Safe, lift-Safe}
use wirefilter.Lex.Lengths.{LexResult-cases}
use wirefilter.Logical.{LogicalOp, LogicalExpr}
use wirefilter.Logical.Parse.{
  lex_combining_op, unary_op_spellings, rank, combine_checked, within, lex_simple_expr, more, climb,
  lex_with_fuel, lex_with,
}

-- A property of expressions that comparisons have and that each way to build an expression keeps, and
-- for which the check of two sides does not panic.
pub record Built {C : Type 0} (lex_comparison : Text → Run C) (type_of : C → Outcome ValueType)
    (K : LogicalExpr C → Type 0) : Type 0 where
  pub comparison :
      (input : Text) → Safe (λ c rest. K (LogicalExpr.comparison c)) (lex_comparison input)
  pub parenthesized : (e : LogicalExpr C) → K e → K (LogicalExpr.parenthesized e)
  pub unary_not : (e : LogicalExpr C) → K e → K (LogicalExpr.unary_not e)
  pub combined :
      (op : LogicalOp) (lhs rhs : LogicalExpr C) (at rest : Text)
      → K lhs
      → K rhs
      → Safe (λ e rest. K e) (combine_checked type_of op lhs rhs at rest)

module _ {C : Type 0} (lex_comparison : Text → Run C) (type_of : C → Outcome ValueType)
    (K : LogicalExpr C → Type 0) (built : Built lex_comparison type_of K) where
  abbrev Keeps : LogicalExpr C → Text → Type 0
  Keeps e rest = K e

  abbrev lex_simple : ℕ → Text → Run (LogicalExpr C)
  lex_simple = lex_simple_expr lex_comparison type_of

  mutual
    unfolding lex_simple_expr

    lex_simple_expr-Keeps : (f : ℕ) (input : Text) → Safe Keeps (lex_simple f input)
    lex_simple_expr-Keeps zero input = tt
    lex_simple_expr-Keeps (suc f) input = elim (LexResult-cases (expect input (codes "("))) [
      | inl ((u, inner), e) ↦
          rw (e, lex_simple_expr)
            (bind-Safe Keeps Keeps (lex_with_fuel lex_comparison type_of f (skip_space inner)) _
              (with-Keeps f (skip_space inner))
              λ a rest k.
                lift-Safe Keeps (expect (skip_space rest) (codes ")")) _
                  λ _ rest. built.parenthesized a k)
      | inr (k, s, e) ↦
          rw (e, lex_simple_expr)
            (elim (LexResult-cases (lex_enum (codes "UnaryOp") unary_op_spellings input)) [
              | inl ((u, arg), e') ↦ rw e' (
                  bind-Safe Keeps Keeps (lex_simple f (skip_space arg)) _
                    (lex_simple_expr-Keeps f (skip_space arg)) λ a rest k. built.unary_not a k)
              | inr (k', s', e') ↦ rw e' (
                  bind-Safe (λ c rest. K (LogicalExpr.comparison c)) Keeps (lex_comparison input) _
                    (built.comparison input) λ c rest h. h)
            ])
    ]

    more-Keeps :
        (f : ℕ) (lhs : LogicalExpr C) (min_prec : Option LogicalOp)
        (lookahead : Option LogicalOp × Text)
        → K lhs
        → Safe Keeps (more lex_comparison type_of f lhs min_prec lookahead)
    more-Keeps zero lhs min_prec lookahead h = tt
    more-Keeps (suc f) lhs min_prec (none, at) h = h
    more-Keeps (suc f) lhs min_prec (some op, at) h =
        bind-Safe Keeps Keeps (lex_simple f at) _ (lex_simple_expr-Keeps f at) λ rhs rest k.
          bind-Safe Keeps Keeps (climb lex_comparison type_of f op rhs rest) _
            (climb-Keeps f op rhs rest k)
            λ rhs rest k.
              bind-Safe Keeps Keeps
                (combine_checked type_of op lhs rhs (lex_combining_op rest).1 rest) _
                (built.combined op lhs rhs (lex_combining_op rest).1 rest h k)
                λ lhs rest k.
                  more-Keeps f lhs min_prec (within min_prec rest (lex_combining_op rest)) k

    climb-Keeps :
        (f : ℕ) (op : LogicalOp) (rhs : LogicalExpr C) (rest : Text)
        → K rhs
        → Safe Keeps (climb lex_comparison type_of f op rhs rest)
    climb-Keeps zero op rhs rest h = tt
    climb-Keeps (suc f) op rhs rest h =
        elim (Bool-cases (leb (rank (lex_combining_op rest).0) (rank (some op)))) [
          | inl e ↦ rw (e, climb) h
          | inr e ↦
              rw (e, climb)
                (bind-Safe Keeps Keeps
                  (more lex_comparison type_of f rhs (lex_combining_op rest).0
                    (lex_combining_op rest))
                  _ (more-Keeps f rhs (lex_combining_op rest).0 (lex_combining_op rest) h)
                  λ rhs rest k. climb-Keeps f op rhs rest k)
        ]

    with-Keeps : (f : ℕ) (input : Text) → Safe Keeps (lex_with_fuel lex_comparison type_of f input)
    with-Keeps zero input = tt
    with-Keeps (suc f) input =
        bind-Safe Keeps Keeps (lex_simple f input) _ (lex_simple_expr-Keeps f input)
          λ lhs rest k. more-Keeps f lhs none (lex_combining_op rest) k

  pub lex_with-Keeps : (input : Text) → Safe (λ e rest. K e) (lex_with lex_comparison type_of input)
  unfolding lex_with
  lex_with-Keeps input = with-Keeps (4 * length input + 2) input
