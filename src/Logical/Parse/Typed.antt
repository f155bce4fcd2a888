-- ===== src/Logical/Parse/Typed.antt =====
-- engine/src/ast/logical_expr.rs: the type check of the lexer and what a lexed expression runs to.
use wirefilter.Prelude.{
  ◌≡◌, refl, subst, Bool, true, false, Option, some, inl, inr, ◌==◌, Bool-cases, map, not,
}
use wirefilter.Prelude.Outcome.{Outcome, done}
use wirefilter.Types.{ValueType}
use wirefilter.Lex.{Text}
use wirefilter.Lex.Run.{Run, Safe}
use wirefilter.Logical.{LogicalOp, LogicalExpr, LogicalExprs, nil, cons, apply_op}
use wirefilter.Logical.Eval.{Value, bool, bools, zip_with, apply, negate_value, eval, eval_rest}
use wirefilter.Logical.Parse.{rank, get_type, combine_checked, append, comparable, push_item}

-- A single value for `Bool`, and a vector for an array.
abbrev pub fits : ValueType → Value → Bool
fits ValueType.bool (bool b) = true
fits ValueType.bool (bools bs) = false
fits (ValueType.array c) (bool b) = false
fits (ValueType.array c) (bools bs) = true
fits _ v = true

apply-fits :
    (op : LogicalOp) (l r : ValueType) (a b : Value)
    → comparable l r ≡ true
    → fits l a ≡ true
    → fits r b ≡ true
    → (v : Value) × (apply op (some a) (some b) ≡ some v) × (fits l v ≡ true)
apply-fits op ValueType.bool ValueType.bool (bool a) (bool b) e f g =
    (bool (apply_op op a b), refl, refl)
apply-fits op (ValueType.array s) (ValueType.array t) (bools a) (bools b) e f g =
    (bools (zip_with (apply_op op) a b), refl, refl)
apply-fits op l r a b e f g = cc

negate-fits :
    (t : ValueType) (a : Value)
    → fits t a ≡ true
    → (v : Value) × (negate_value (some a) ≡ some v) × (fits t v ≡ true)
negate-fits ValueType.bool (bool a) f = (bool (not a), refl, refl)
negate-fits ValueType.bool (bools a) f = cc
negate-fits (ValueType.array s) (bool a) f = cc
negate-fits t (bool a) f = (bool (not a), refl, refl)
negate-fits t (bools a) f = (bools (map not a), refl, refl)

module _ {C : Type 0} (type_of : C → Outcome ValueType) (value_of : C → Value) where
  -- An expression that has a type and a value that fits it.
  abbrev pub IsTyped : LogicalExpr C → Type 0
  IsTyped e =
      (t : ValueType) × (v : Value) × (get_type type_of e ≡ done t)
      × (eval value_of e ≡ some v)
      × (fits t v ≡ true)

  eval_rest-append :
      (op : LogicalOp) (acc : Option Value) (es : LogicalExprs C) (e : LogicalExpr C)
      → eval_rest value_of op acc (append es e)
        ≡ apply op (eval_rest value_of op acc es) (eval value_of e)
  unfolding eval append
  eval_rest-append op acc nil e = refl
  eval_rest-append op acc (cons x es) e = eval_rest-append op (apply op acc (eval value_of x)) es e

  pair-IsTyped :
      (op : LogicalOp) (lhs rhs : LogicalExpr C) (l r : ValueType) (a b : Value)
      → comparable l r ≡ true
      → get_type type_of lhs ≡ done l
      → eval value_of lhs ≡ some a
      → fits l a ≡ true
      → eval value_of rhs ≡ some b
      → fits r b ≡ true
      → IsTyped (LogicalExpr.combining op (cons lhs (cons rhs nil)))
  unfolding eval get_type
  pair-IsTyped op lhs rhs l r a b c tl vl fl vr fr =
      let (v, e, f) = apply-fits op l r a b c fl fr in (l, v, tl, rw (vl, vr) e, f)

  append-IsTyped :
      (op : LogicalOp) (items : LogicalExprs C) (rhs : LogicalExpr C) (l r : ValueType)
      (a b : Value)
      → comparable l r ≡ true
      → get_type type_of (LogicalExpr.combining op items) ≡ done l
      → eval value_of (LogicalExpr.combining op items) ≡ some a
      → fits l a ≡ true
      → eval value_of rhs ≡ some b
      → fits r b ≡ true
      → IsTyped (LogicalExpr.combining op (append items rhs))
  unfolding eval get_type append
  append-IsTyped op nil rhs l r a b c tl vl fl vr fr = cc
  append-IsTyped op (cons e es) rhs l r a b c tl vl fl vr fr =
      let (v, q, f) = apply-fits op l r a b c fl fr in
      (l, v, tl, rw (eval_rest-append op (eval value_of e) es rhs, vl, vr) q, f)

  push_item-IsTyped :
      (op : LogicalOp) (lhs rhs : LogicalExpr C) (l r : ValueType)
      → comparable l r ≡ true
      → IsTyped lhs
      → IsTyped rhs
      → get_type type_of lhs ≡ done l
      → get_type type_of rhs ≡ done r
      → IsTyped (push_item op lhs rhs)
  unfolding push_item
  push_item-IsTyped op lhs rhs l r c (l', a, tl, vl, fl) (r', b, tr, vr, fr) hl hr =
      let p : l' ≡ l = cc in
      let q : r' ≡ r = cc in
      by_lhs lhs hl vl (subst (λ t. fits t a ≡ true) p fl) (subst (λ t. fits t b ≡ true) q fr)
    where
      by_lhs :
          (e : LogicalExpr C)
          → get_type type_of e ≡ done l
          → eval value_of e ≡ some a
          → fits l a ≡ true
          → fits r b ≡ true
          → IsTyped (push_item op e rhs)
      by_lhs (LogicalExpr.combining lhs_op items) hl vl fl fr =
          elim (Bool-cases (rank (some lhs_op) == rank (some op))) [
            | inl e ↦ rw (push_item, e) (append-IsTyped lhs_op items rhs l r a b c hl vl fl vr fr)
            | inr e ↦
                rw (push_item, e)
                  (pair-IsTyped op (LogicalExpr.combining lhs_op items) rhs l r a b c hl vl fl vr
                    fr)
          ]
      by_lhs (LogicalExpr.comparison x) hl vl fl fr =
          pair-IsTyped op (LogicalExpr.comparison x) rhs l r a b c hl vl fl vr fr
      by_lhs (LogicalExpr.parenthesized x) hl vl fl fr =
          pair-IsTyped op (LogicalExpr.parenthesized x) rhs l r a b c hl vl fl vr fr
      by_lhs (LogicalExpr.unary_not x) hl vl fl fr =
          pair-IsTyped op (LogicalExpr.unary_not x) rhs l r a b c hl vl fl vr fr

  -- A lexed expression is typed.
  abbrev pub LexedTyped : Run (LogicalExpr C) → Type 0
  LexedTyped = Safe (λ e rest. IsTyped e)

  pub combine_checked-LexedTyped :
      (op : LogicalOp) (lhs rhs : LogicalExpr C) (at rest : Text)
      → IsTyped lhs
      → IsTyped rhs
      → LexedTyped (combine_checked type_of op lhs rhs at rest)
  unfolding combine_checked
  combine_checked-LexedTyped op lhs rhs at rest (l, a, tl, vl, fl) (r, b, tr, vr, fr) =
      elim (Bool-cases (comparable l r)) [
        | inl e ↦
            rw (combine_checked, tl, tr, e)
              (push_item-IsTyped op lhs rhs l r e (l, a, tl, vl, fl) (r, b, tr, vr, fr) tl tr)
        | inr e ↦ rw (combine_checked, tl, tr, e) tt
      ]

  -- The two ways around an expression.
  pub parenthesized-IsTyped :
      (e : LogicalExpr C) → IsTyped e → IsTyped (LogicalExpr.parenthesized e)
  unfolding eval get_type
  parenthesized-IsTyped e h = h

  pub unary_not-IsTyped : (e : LogicalExpr C) → IsTyped e → IsTyped (LogicalExpr.unary_not e)
  unfolding eval get_type
  unary_not-IsTyped e (t, a, te, ve, f) =
      let (v, q, f') = negate-fits t a f in (t, v, te, rw ve q, f')
