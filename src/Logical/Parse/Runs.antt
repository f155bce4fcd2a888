-- ===== src/Logical/Parse/Runs.antt =====
-- engine/src/ast/logical_expr.rs: what a lexed expression compiles and runs to.
use wirefilter.Prelude.{◌≡◌, refl, [], true, false, length}
use wirefilter.Prelude.Outcome.{Outcome, done}
use wirefilter.Types.{ValueType}
use wirefilter.Lex.{Text}
use wirefilter.Lex.Run.{Run, Ends, Safe, map-Safe}
use wirefilter.Logical.{CompiledExpr, compile}
use wirefilter.Logical.Eval.{Value, bool, bools, eval, runs}
use wirefilter.Logical.Sound.{compile-eval}
use wirefilter.Logical.Parse.{get_type, lex_with}
use wirefilter.Logical.Parse.Ends.{lex_with-Ends}
use wirefilter.Logical.Parse.Typed.{
  fits, IsTyped, combine_checked-LexedTyped, parenthesized-IsTyped, unary_not-IsTyped,
}
use wirefilter.Logical.Parse.Built.{Built, lex_with-Keeps}

pub IsTyped-Built :
    {C : Type 0} (lex_comparison : Text → Run C) (type_of : C → Outcome ValueType)
    (value_of : C → Value)
    → ((input : Text)
        → Safe
            (λ c rest. (t : ValueType) × (type_of c ≡ done t) × (fits t (value_of c) ≡ true))
            (lex_comparison input))
    → Built lex_comparison type_of (IsTyped type_of value_of)
unfolding eval get_type
IsTyped-Built lex_comparison type_of value_of typed = record {
  comparison = λ input.
      map-Safe _ _ (lex_comparison input) (typed input)
        λ c rest (t, is_t, h). (t, value_of c, is_t, refl, h);
  parenthesized = parenthesized-IsTyped type_of value_of;
  unary_not = unary_not-IsTyped type_of value_of;
  combined = combine_checked-LexedTyped type_of value_of;
}

-- Let the lexer of comparisons always end, leave no more than it was given and not panic, and let
-- each comparison that it returns have a type, and a value that fits the type. Let every comparison
-- there is, once compiled, return its value in the context. Then the lexer of logical expressions ends and does not panic, and
-- an expression that it returns has a type and compiles with no panic to code that returns in the
-- context, with no panic, a value that fits the type.
pub lex_with-runs :
    {C X : Type 0} (lex_comparison : Text → Run C) (type_of : C → Outcome ValueType)
    (value_of : C → Value) (cmp : C → CompiledExpr X) (x : X)
    → ((input : Text) → Ends (length input) (lex_comparison input))
    → ((input : Text)
        → Safe
            (λ c rest. (t : ValueType) × (type_of c ≡ done t) × (fits t (value_of c) ≡ true))
            (lex_comparison input))
    → ((c : C) → runs (cmp c) x ≡ done (value_of c))
    → (input : Text)
    → Ends (length input) (lex_with lex_comparison type_of input)
      × Safe
          (λ e rest.
            (t : ValueType) × (ce : CompiledExpr X) × (v : Value) × (get_type type_of e ≡ done t)
            × (compile cmp e ≡ done ce)
            × (runs ce x ≡ done v)
            × (fits t v ≡ true))
          (lex_with lex_comparison type_of input)
unfolding lex_with
lex_with-runs lex_comparison type_of value_of cmp x ends typed agrees input = (
  lex_with-Ends lex_comparison type_of ends input,
  map-Safe _ _ (lex_with lex_comparison type_of input)
      (lex_with-Keeps lex_comparison type_of (IsTyped type_of value_of)
        (IsTyped-Built lex_comparison type_of value_of typed) input)
      λ e rest (t, v, is_t, is_v, f).
        let (ce, compiles, returns) = compile-eval cmp value_of x agrees e v is_v in
        (t, ce, v, is_t, compiles, returns, f),
)

-- A value that fits the type.
abbrev pub sample : Outcome ValueType → Value
sample (done (ValueType.array c)) = bools []
sample _ = bool false

pub sample-fits : (t : ValueType) → fits t (sample (done t)) ≡ true
sample-fits ValueType.bool = refl
sample-fits (ValueType.array c) = refl
sample-fits ValueType.bytes = refl
sample-fits ValueType.int = refl
sample-fits ValueType.ip = refl
sample-fits (ValueType.map c) = refl
