-- ===== src/Logical/Parse/Every.antt =====
-- engine/src/ast/logical_expr.rs: what holds of each comparison in what the lexer returns.
use wirefilter.Prelude.{◌≡◌, refl, some, true, inl, inr, ◌==◌, Bool-cases, subst, sym}
use wirefilter.Prelude.Outcome.{Outcome, done}
use wirefilter.Types.{ValueType}
use wirefilter.Lex.{Text}
use wirefilter.Lex.Run.{Run, Safe, Lexes, map-Safe, both-Safe, run_outcome-Lexes}
use wirefilter.Logical.{LogicalOp, LogicalExpr, LogicalExprs, nil, cons}
use wirefilter.Logical.Eval.{eval}
use wirefilter.Logical.Parse.{
  rank, append, push_item, comparable, get_type, combine_checked, lex_with,
}
use wirefilter.Logical.Parse.Typed.{IsTyped, fits}
use wirefilter.Logical.Parse.Built.{Built, lex_with-Keeps}
use wirefilter.Logical.Parse.Runs.{sample, sample-fits, IsTyped-Built}

-- Each comparison meets `P`.
unfoldable mutual
  pub Every : {C : Type 0} → (C → Type 0) → LogicalExpr C → Type 0
  Every P (LogicalExpr.combining op items) = EveryOf P items
  Every P (LogicalExpr.comparison c) = P c
  Every P (LogicalExpr.parenthesized e) = Every P e
  Every P (LogicalExpr.unary_not e) = Every P e

  pub EveryOf : {C : Type 0} → (C → Type 0) → LogicalExprs C → Type 0
  EveryOf P nil = Unit {0}
  EveryOf P (cons e es) = Every P e × EveryOf P es

module _ {C : Type 0} (P : C → Type 0) where
  append-EveryOf :
      (es : LogicalExprs C) (e : LogicalExpr C) → EveryOf P es → Every P e → EveryOf P (append es e)
  unfolding Every append
  append-EveryOf nil e h k = (k, tt)
  append-EveryOf (cons x es) e (h, hs) k = (h, append-EveryOf es e hs k)

  push_item-Every :
      (op : LogicalOp) (lhs rhs : LogicalExpr C)
      → Every P lhs
      → Every P rhs
      → Every P (push_item op lhs rhs)
  unfolding push_item Every
  push_item-Every op (LogicalExpr.combining lhs_op items) rhs h k =
      elim (Bool-cases (rank (some lhs_op) == rank (some op))) [
        | inl e ↦ rw (push_item, e) (append-EveryOf items rhs h k)
        | inr e ↦ rw (push_item, e) (h, (k, tt))
      ]
  push_item-Every op (LogicalExpr.comparison c) rhs h k = (h, (k, tt))
  push_item-Every op (LogicalExpr.parenthesized e) rhs h k = (h, (k, tt))
  push_item-Every op (LogicalExpr.unary_not e) rhs h k = (h, (k, tt))

  combine_checked-Every :
      (type_of : C → Outcome ValueType) (op : LogicalOp) (lhs rhs : LogicalExpr C) (at rest : Text)
      → Every P lhs
      → Every P rhs
      → Lexes (λ e rest. Every P e) (combine_checked type_of op lhs rhs at rest)
  unfolding combine_checked
  combine_checked-Every type_of op lhs rhs at rest h k =
      run_outcome-Lexes (λ e rest. Every P e) (get_type type_of lhs) _
        λ lhsty.
          run_outcome-Lexes (λ e rest. Every P e) (get_type type_of rhs) _
            λ rhsty. elim (Bool-cases (comparable lhsty rhsty)) [
              | inl e ↦ rw e (push_item-Every op lhs rhs h k)
              | inr e ↦ rw e tt
            ]

  Every-Built :
      (lex_comparison : Text → Run C) (type_of : C → Outcome ValueType)
      → ((input : Text)
          → Safe (λ c rest. ((t : ValueType) × (type_of c ≡ done t)) × P c) (lex_comparison input))
      → Built lex_comparison type_of (λ e. IsTyped type_of (λ c. sample (type_of c)) e × Every P e)
  unfolding Every eval get_type
  Every-Built lex_comparison type_of h =
      let typed =
        IsTyped-Built lex_comparison type_of (λ c. sample (type_of c))
          λ s. map-Safe _ _ (lex_comparison s) (h s) λ c rest ((t, e), p).
            (t, e, subst (λ o. fits t (sample o) ≡ true) (sym e) (sample-fits t)) in
      record {
        comparison = λ input. map-Safe _ _ (lex_comparison input) (h input) λ c rest ((t, e), p). (
          (
            t,
            sample (type_of c),
            e,
            refl,
            subst (λ o. fits t (sample o) ≡ true) (sym e) (sample-fits t),
          ),
          p,
        );
        parenthesized = λ e (t, p). (typed.parenthesized e t, p);
        unary_not = λ e (t, p). (typed.unary_not e t, p);
        combined = λ op lhs rhs at rest (t, p) (u, q).
            both-Safe (λ e rest. IsTyped type_of (λ c. sample (type_of c)) e) (λ e rest. Every P e)
              (combine_checked type_of op lhs rhs at rest) (typed.combined op lhs rhs at rest t u)
              (combine_checked-Every type_of op lhs rhs at rest p q);
      }

  pub lex_with-Every :
      (lex_comparison : Text → Run C) (type_of : C → Outcome ValueType)
      → ((input : Text)
          → Safe (λ c rest. ((t : ValueType) × (type_of c ≡ done t)) × P c) (lex_comparison input))
      → (input : Text)
      → Safe
          (λ e rest. ((t : ValueType) × (get_type type_of e ≡ done t)) × Every P e)
          (lex_with lex_comparison type_of input)
  lex_with-Every lex_comparison type_of h input =
      map-Safe _ _ (lex_with lex_comparison type_of input)
        (lex_with-Keeps lex_comparison type_of
          (λ e. IsTyped type_of (λ c. sample (type_of c)) e × Every P e)
          (Every-Built lex_comparison type_of h) input)
        λ e rest ((t, v, is_t, is_v, f), p). ((t, is_t), p)
