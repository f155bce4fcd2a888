-- ===== src/Logical/Parse/Climb.antt =====
-- engine/src/ast/logical_expr.rs: the lexer's loops and the precedence of the operators.
use wirefilter.Prelude.{
  ℕ, zero, suc, ◌+◌, ◌-◌, ◌*◌, ◌≤◌, ◌<◌, ◌≡◌, refl, Option, none, some, inl, inr, leb, arith,
  Bool-cases, length,
}
use wirefilter.Prelude.Outcome.{Outcome}
use wirefilter.Types.{ValueType}
use wirefilter.Lex.{Text, codes, expect, skip_space, lex_enum}
use wirefilter.Lex.Run.{Run, Lexes, bind-Lexes, lift-Lexes, any_Lexes, map-Lexes}
use wirefilter.Lex.Lengths.{LexResult-cases}
use wirefilter.Logical.{LogicalOp, LogicalExpr}
use wirefilter.Logical.Parse.{
  lex_combining_op, unary_op_spellings, rank, combine_checked, within, lex_simple_expr, more, climb,
  lex_with_fuel, lex_with,
}
use wirefilter.Logical.Parse.Precedence.{
  level, IsRanked, Follows, Simple, Climbed, Combined, Grown, rank_bounded, within-Follows,
  within-rank, lex_combining_op-Follows, combine_checked-Combined,
}

parenthesized-Simple :
    {C : Type 0} (e : LogicalExpr C)
    → IsRanked e
    → IsRanked (LogicalExpr.parenthesized e) × (level (LogicalExpr.parenthesized e) ≡ 4)
unfolding IsRanked
parenthesized-Simple e h = (h, refl)

unary_not-Simple :
    {C : Type 0} (e : LogicalExpr C)
    → IsRanked e × (level e ≡ 4)
    → IsRanked (LogicalExpr.unary_not e) × (level (LogicalExpr.unary_not e) ≡ 4)
unfolding IsRanked
unary_not-Simple e h = (h, refl)

comparison-Simple :
    {C : Type 0} (c : C)
    → IsRanked (LogicalExpr.comparison c) × (level (LogicalExpr.comparison c) ≡ 4)
unfolding IsRanked
comparison-Simple c = (tt, refl)

module _ {C : Type 0} (lex_comparison : Text → Run C) (type_of : C → Outcome ValueType) where
  mutual
    unfolding lex_simple_expr

    lex_simple_expr-Simple :
        (f : ℕ) (input : Text) → Lexes Simple (lex_simple_expr lex_comparison type_of f input)
    lex_simple_expr-Simple zero input = tt
    lex_simple_expr-Simple (suc f) input = elim (LexResult-cases (expect input (codes "("))) [
      | inl ((u, inner), e) ↦
          rw (e, lex_simple_expr)
            (bind-Lexes (Grown none) Simple
              (lex_with_fuel lex_comparison type_of f (skip_space inner)) _
              (lex_with_fuel-Grown f (skip_space inner))
              λ a rest k.
                lift-Lexes Simple (expect (skip_space rest) (codes ")")) _
                  λ _ rest. parenthesized-Simple a k.0)
      | inr (k, s, e) ↦
          rw (e, lex_simple_expr)
            (elim (LexResult-cases (lex_enum (codes "UnaryOp") unary_op_spellings input)) [
              | inl ((u, arg), e') ↦ rw e' (
                  bind-Lexes Simple Simple
                    (lex_simple_expr lex_comparison type_of f (skip_space arg)) _
                    (lex_simple_expr-Simple f (skip_space arg)) λ a rest k. unary_not-Simple a k)
              | inr (k', s', e') ↦ rw e' (
                  bind-Lexes (λ c rest. Unit {0}) Simple (lex_comparison input) _
                    (any_Lexes (lex_comparison input)) λ c rest k. comparison-Simple c)
            ])
    ]

    more-Grown :
        (f : ℕ) (lhs : LogicalExpr C) (min_prec : Option LogicalOp)
        (lookahead : Option LogicalOp × Text)
        → IsRanked lhs
        → rank min_prec ≤ level lhs
        → rank lookahead.0 ≤ level lhs
        → Follows min_prec lookahead
        → Lexes (Grown min_prec) (more lex_comparison type_of f lhs min_prec lookahead)
    more-Grown zero lhs min_prec lookahead h m l s = tt
    more-Grown (suc f) lhs min_prec (none, at) h m l s = (h, m, s)
    more-Grown (suc f) lhs min_prec (some op, at) h m l s =
        bind-Lexes Simple (Grown min_prec) (lex_simple_expr lex_comparison type_of f at) _
          (lex_simple_expr-Simple f at)
          λ rhs rest k.
            bind-Lexes (Climbed op) (Grown min_prec) (climb lex_comparison type_of f op rhs rest) _
              (climb-Climbed f op rhs rest k.0
                (let b = rank_bounded (some op) in omega (arith, k.1))
                (let b = rank_bounded (lex_combining_op rest).0 in omega (arith, k.1)))
              λ rhs rest k.
                bind-Lexes (Combined op) (Grown min_prec)
                  (combine_checked type_of op lhs rhs (lex_combining_op rest).1 rest) _
                  (combine_checked-Combined type_of op lhs rhs (lex_combining_op rest).1 rest h l k)
                  λ lhs rest (h, e, n).
                    more-Grown f lhs min_prec (within min_prec rest (lex_combining_op rest)) h
                      (omega arith)
                      (let w = within-rank min_prec rest (rank (some op)) n in omega arith)
                      (within-Follows min_prec rest)

    climb-Climbed :
        (f : ℕ) (op : LogicalOp) (rhs : LogicalExpr C) (rest : Text)
        → IsRanked rhs
        → rank (some op) < level rhs
        → rank (lex_combining_op rest).0 ≤ level rhs
        → Lexes (Climbed op) (climb lex_comparison type_of f op rhs rest)
    climb-Climbed zero op rhs rest h l n = tt
    climb-Climbed (suc f) op rhs rest h l n =
        elim (Bool-cases (leb (rank (lex_combining_op rest).0) (rank (some op)))) [
          | inl e ↦ rw (e, climb) (h, l, ground arith)
          | inr e ↦
              rw (e, climb)
                (bind-Lexes (Grown (lex_combining_op rest).0) (Climbed op)
                  (more lex_comparison type_of f rhs (lex_combining_op rest).0
                    (lex_combining_op rest))
                  _
                  (more-Grown f rhs (lex_combining_op rest).0 (lex_combining_op rest) h n n
                    (lex_combining_op-Follows (lex_combining_op rest).0 rest (omega arith)))
                  λ rhs rest (h, m, s). climb-Climbed f op rhs rest h (ground arith) (omega arith))
        ]

    lex_with_fuel-Grown :
        (f : ℕ) (input : Text) → Lexes (Grown none) (lex_with_fuel lex_comparison type_of f input)
    lex_with_fuel-Grown zero input = tt
    lex_with_fuel-Grown (suc f) input =
        bind-Lexes Simple (Grown none) (lex_simple_expr lex_comparison type_of f input) _
          (lex_simple_expr-Simple f input)
          λ lhs rest k.
            more-Grown f lhs none (lex_combining_op rest) k.0 (omega arith)
              (let b = rank_bounded (lex_combining_op rest).0 in omega (arith, k.1))
              (lex_combining_op-Follows none rest (omega arith))

rank_zero : (o : Option LogicalOp) → rank o ≤ 0 - 1 → o ≡ none
rank_zero none h = refl
rank_zero (some LogicalOp.or) h = absurd (omega arith)
rank_zero (some LogicalOp.xor) h = absurd (omega arith)
rank_zero (some LogicalOp.and) h = absurd (omega arith)

-- In an expression that the lexer returns, each combination has two items or more, and each of them
-- binds tighter than the combination's operator; what is left of the input begins with no operator.
pub lex_with-IsRanked :
    {C : Type 0} (lex_comparison : Text → Run C) (type_of : C → Outcome ValueType) (input : Text)
    → Lexes
        (λ e rest. IsRanked e × ((lex_combining_op rest).0 ≡ none))
        (lex_with lex_comparison type_of input)
unfolding lex_with
lex_with-IsRanked lex_comparison type_of input =
    map-Lexes (Grown none) _ (lex_with lex_comparison type_of input)
      (lex_with_fuel-Grown lex_comparison type_of (4 * length input + 2) input)
      λ e rest (h, m, n). (h, rank_zero (lex_combining_op rest).0 n)
