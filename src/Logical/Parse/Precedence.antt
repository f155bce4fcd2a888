-- ===== src/Logical/Parse/Precedence.antt =====
-- engine/src/ast/logical_expr.rs: the precedence of the operators in what the lexer returns.
use wirefilter.Prelude.{
  ℕ, ◌-◌, ◌≤◌, ◌<◌, ◌≡◌, refl, Option, none, some, inl, inr, ltb, ◌==◌, arith, Bool-cases,
}
use wirefilter.Prelude.Outcome.{Outcome}
use wirefilter.Types.{ValueType}
use wirefilter.Lex.{Text, codes, skip_space, lex_enum}
use wirefilter.Lex.Run.{Lexes, run_outcome-Lexes}
use wirefilter.Lex.Lengths.{LexResult-cases}
use wirefilter.Logical.{LogicalOp, LogicalExpr, LogicalExprs, nil, cons}
use wirefilter.Logical.Parse.{
  lex_combining_op, logical_op_spellings, rank, get_type, combine_checked, append, comparable,
  push_item, within,
}

-- How tightly an expression binds: as its operator does, and tighter than all if it has none.
abbrev pub level : {C : Type 0} → LogicalExpr C → ℕ
level (LogicalExpr.combining op items) = rank (some op)
level (LogicalExpr.comparison c) = 4
level (LogicalExpr.parenthesized e) = 4
level (LogicalExpr.unary_not e) = 4

-- The items bind tighter than `n`.
unfoldable mutual
  pub IsRanked : {C : Type 0} → LogicalExpr C → Type 0
  IsRanked (LogicalExpr.combining op nil) = ⊥
  IsRanked (LogicalExpr.combining op (cons e nil)) = ⊥
  IsRanked (LogicalExpr.combining op (cons e (cons e' es))) =
      AreTighter (rank (some op)) (cons e (cons e' es))
  IsRanked (LogicalExpr.comparison c) = Unit {0}
  IsRanked (LogicalExpr.parenthesized e) = IsRanked e
  IsRanked (LogicalExpr.unary_not e) = IsRanked e × (level e ≡ 4)

  pub AreTighter : {C : Type 0} → ℕ → LogicalExprs C → Type 0
  AreTighter n nil = Unit {0}
  AreTighter n (cons e es) = (n < level e) × IsRanked e × AreTighter n es

pub rank_bounded : (o : Option LogicalOp) → rank o < 4
rank_bounded none = omega arith
rank_bounded (some LogicalOp.or) = omega arith
rank_bounded (some LogicalOp.xor) = omega arith
rank_bounded (some LogicalOp.and) = omega arith

-- A lookahead with which the lexer goes on, or with which it stops for good.
abbrev pub Follows : Option LogicalOp → Option LogicalOp × Text → Type 0
Follows min_prec (none, at) = rank (lex_combining_op at).0 ≤ rank min_prec - 1
Follows min_prec (some op, at) = rank min_prec ≤ rank (some op)

pub lex_combining_op-Follows :
    (min_prec : Option LogicalOp) (rest : Text)
    → rank min_prec ≤ rank (lex_combining_op rest).0
    → Follows min_prec (lex_combining_op rest)
unfolding lex_combining_op
lex_combining_op-Follows min_prec rest h =
    elim (LexResult-cases (lex_enum (codes "LogicalOp") logical_op_spellings (skip_space rest))) [
      | inl ((op, onward), e) ↦ let h' : rank min_prec ≤ rank (some op) = rw e at h in rw e h'
      | inr (k, s, e) ↦ rw (e, lex_combining_op, e) (omega arith)
    ]

pub within-Follows :
    (min_prec : Option LogicalOp) (rest : Text)
    → Follows min_prec (within min_prec rest (lex_combining_op rest))
within-Follows min_prec rest =
    elim (Bool-cases (ltb (rank (lex_combining_op rest).0) (rank min_prec))) [
      | inl e ↦ rw e (ground arith)
      | inr e ↦ rw e (lex_combining_op-Follows min_prec rest (ground arith))
    ]

pub within-rank :
    (min_prec : Option LogicalOp) (rest : Text) (n : ℕ)
    → rank (lex_combining_op rest).0 ≤ n
    → rank (within min_prec rest (lex_combining_op rest)).0 ≤ n
within-rank min_prec rest n h =
    elim (Bool-cases (ltb (rank (lex_combining_op rest).0) (rank min_prec))) [
      | inl e ↦ rw e (omega arith)
      | inr e ↦ rw e h
    ]

module _ {C : Type 0} where
  append-AreTighter :
      (n : ℕ) (es : LogicalExprs C) (e : LogicalExpr C)
      → AreTighter n es
      → n < level e
      → IsRanked e
      → AreTighter n (append es e)
  unfolding IsRanked append
  append-AreTighter n nil e h l r = (l, r, tt)
  append-AreTighter n (cons x es) e (l', r', h) l r = (l', r', append-AreTighter n es e h l r)

  append-IsRanked :
      (op : LogicalOp) (es : LogicalExprs C) (e : LogicalExpr C)
      → IsRanked (LogicalExpr.combining op es)
      → rank (some op) < level e
      → IsRanked e
      → IsRanked (LogicalExpr.combining op (append es e))
  unfolding IsRanked append
  append-IsRanked op nil e h l r = elim h [ ]
  append-IsRanked op (cons x nil) e h l r = elim h [ ]
  append-IsRanked op (cons x (cons y es)) e (lx, rx, (ly, ry, h)) l r =
      (lx, rx, (ly, ry, append-AreTighter (rank (some op)) es e h l r))

  pair-IsRanked :
      (op : LogicalOp) (lhs rhs : LogicalExpr C)
      → IsRanked lhs
      → rank (some op) < level lhs
      → IsRanked rhs
      → rank (some op) < level rhs
      → IsRanked (LogicalExpr.combining op (cons lhs (cons rhs nil)))
        × (level (LogicalExpr.combining op (cons lhs (cons rhs nil))) ≡ rank (some op))
  unfolding IsRanked
  pair-IsRanked op lhs rhs hl l hr r = ((l, hl, (r, hr, tt)), refl)

  -- A side that binds no looser than the operator, and a right side that binds tighter.
  push_item-IsRanked :
      (op : LogicalOp) (lhs rhs : LogicalExpr C)
      → IsRanked lhs
      → rank (some op) ≤ level lhs
      → IsRanked rhs
      → rank (some op) < level rhs
      → IsRanked (push_item op lhs rhs) × (level (push_item op lhs rhs) ≡ rank (some op))
  unfolding push_item IsRanked
  push_item-IsRanked op (LogicalExpr.combining lhs_op items) rhs hl l hr r =
      elim (Bool-cases (rank (some lhs_op) == rank (some op))) [
        | inl e ↦
            rw (push_item, e) (append-IsRanked lhs_op items rhs hl (ground arith) hr, ground arith)
        | inr e ↦
            rw (push_item, e)
              (pair-IsRanked op (LogicalExpr.combining lhs_op items) rhs hl (ground arith) hr r)
      ]
  push_item-IsRanked op (LogicalExpr.comparison c) rhs hl l hr r =
      pair-IsRanked op (LogicalExpr.comparison c) rhs hl (rank_bounded (some op)) hr r
  push_item-IsRanked op (LogicalExpr.parenthesized c) rhs hl l hr r =
      pair-IsRanked op (LogicalExpr.parenthesized c) rhs hl (rank_bounded (some op)) hr r
  push_item-IsRanked op (LogicalExpr.unary_not c) rhs hl l hr r =
      pair-IsRanked op (LogicalExpr.unary_not c) rhs hl (rank_bounded (some op)) hr r

  -- What the lexers return, at what is left of the input.
  abbrev pub Simple : LogicalExpr C → Text → Type 0
  Simple e rest = IsRanked e × (level e ≡ 4)

  abbrev pub Climbed : LogicalOp → LogicalExpr C → Text → Type 0
  Climbed op e rest =
      IsRanked e × (rank (some op) < level e) × (rank (lex_combining_op rest).0 ≤ rank (some op))

  abbrev pub Combined : LogicalOp → LogicalExpr C → Text → Type 0
  Combined op e rest =
      IsRanked e × (level e ≡ rank (some op)) × (rank (lex_combining_op rest).0 ≤ rank (some op))

  abbrev pub Grown : Option LogicalOp → LogicalExpr C → Text → Type 0
  Grown min_prec e rest =
      IsRanked e × (rank min_prec ≤ level e) × (rank (lex_combining_op rest).0 ≤ rank min_prec - 1)

  pub combine_checked-Combined :
      (type_of : C → Outcome ValueType) (op : LogicalOp) (lhs rhs : LogicalExpr C) (at rest : Text)
      → IsRanked lhs
      → rank (some op) ≤ level lhs
      → Climbed op rhs rest
      → Lexes (Combined op) (combine_checked type_of op lhs rhs at rest)
  unfolding combine_checked
  combine_checked-Combined type_of op lhs rhs at rest hl l (hr, r, n) =
      run_outcome-Lexes (Combined op) (get_type type_of lhs) _ λ lhsty.
        run_outcome-Lexes (Combined op) (get_type type_of rhs) _ λ rhsty.
          elim (Bool-cases (comparable lhsty rhsty)) [
            | inl e ↦ let (h, k) = push_item-IsRanked op lhs rhs hl l hr r in rw e (h, k, n)
            | inr e ↦ rw e tt
          ]
