-- ===== src/Tests/Parsers.antt =====
-- Runs of the lexers that call themselves.
use wirefilter.Prelude.{
  ◌≡◌, refl, Bool, true, false, none, [], ◌∷◌, arith, ◌==◌, if◌then◌else◌, length, Bool-cases, inl,
  inr,
}
use wirefilter.Prelude.Outcome.{Outcome, done}
use wirefilter.Types.{ValueType}
use wirefilter.Lex.{
  Text, codes, strip_prefix, skip_while, skip_space, expect, lex_enum, LexErrorKind,
}
use wirefilter.Lex.Run.{Run, lexed, failed, Ends, Safe, Lexes}
use wirefilter.Logical.{LogicalOp, LogicalExpr, CompiledExpr, one, compile, nil, cons}
use wirefilter.Logical.Eval.{Value, bool, runs}
use wirefilter.Logical.Parse.{
  lex_combining_op, get_type, combine_checked, push_item, append, lex_simple_expr, lex_with_fuel,
  lex_with,
}
use wirefilter.Logical.Parse.Ends.{lex_with_fuel-Ends}
use wirefilter.Logical.Parse.Typed.{fits}
use wirefilter.Logical.Parse.Runs.{lex_with-runs}
use wirefilter.Logical.Parse.Precedence.{IsRanked}
use wirefilter.Logical.Parse.Climb.{lex_with-IsRanked}

-- `t` and `f` as the comparisons.
abbrev lex_letter : Text → Run Bool
lex_letter [] = failed LexErrorKind.eof []
lex_letter (c ∷ cs) = if c == b't' then lexed (true, cs) else lexed (false, cs)

abbrev bool_type : Bool → Outcome ValueType
bool_type b = done ValueType.bool

abbrev constant : Bool → CompiledExpr (Unit {0})
constant b = one (λ x. done b)

lex_letter-Ends : (input : Text) → Ends (length input) (lex_letter input)
lex_letter-Ends [] = tt
lex_letter-Ends (c ∷ cs) = ground arith

lex_letter-Safe :
    (input : Text)
    → Safe
        (λ c rest. (t : ValueType) × (bool_type c ≡ done t) × (fits t (bool c) ≡ true))
        (lex_letter input)
lex_letter-Safe [] = tt
lex_letter-Safe (c ∷ cs) = elim (Bool-cases (c == b't')) [
  | inl e ↦ rw e (ValueType.bool, refl, refl)
  | inr e ↦ rw e (ValueType.bool, refl, refl)
]

or_and :
    lex_with lex_letter bool_type (codes "t or !f && t)")
    ≡ lexed (
      LogicalExpr.combining LogicalOp.or (
          cons (LogicalExpr.comparison true) (
            cons
              (LogicalExpr.combining LogicalOp.and (
                cons
                  (LogicalExpr.unary_not (LogicalExpr.comparison false))
                  (cons (LogicalExpr.comparison true) nil)))
              nil)),
      codes ")",
    )
unfolding lex_with lex_simple_expr lex_combining_op get_type combine_checked push_item append
    strip_prefix skip_while skip_space expect lex_enum
or_and = refl

lex_with_fuel-Ends_example : Ends 6 (lex_with_fuel lex_letter bool_type 29 (codes "t or f"))
lex_with_fuel-Ends_example =
    lex_with_fuel-Ends lex_letter bool_type lex_letter-Ends (codes "t or f") 3

lex_with-runs_example :
    Ends 6 (lex_with lex_letter bool_type (codes "t or f"))
    × Safe
        (λ e rest.
          (t : ValueType) × (ce : CompiledExpr (Unit {0})) × (v : Value) × (get_type bool_type e
            ≡ done t)
          × (compile constant e ≡ done ce)
          × (runs ce tt ≡ done v)
          × (fits t v ≡ true))
        (lex_with lex_letter bool_type (codes "t or f"))
lex_with-runs_example =
    lex_with-runs lex_letter bool_type bool constant tt lex_letter-Ends lex_letter-Safe (λ c. refl)
      (codes "t or f")

lex_with-IsRanked_example :
    Lexes
      (λ e rest. IsRanked e × ((lex_combining_op rest).0 ≡ none))
      (lex_with lex_letter bool_type (codes "t or f and t"))
lex_with-IsRanked_example = lex_with-IsRanked lex_letter bool_type (codes "t or f and t")
