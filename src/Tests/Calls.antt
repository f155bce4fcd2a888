-- ===== src/Tests/Calls.antt =====
-- Calls of functions.
use wirefilter.Prelude.{some, none, ◌≡◌, refl, Bool, false, List, [], ◌∷◌, length, ℕ, arith}
use wirefilter.Prelude.Int.{pos}
use wirefilter.Prelude.Outcome.{done}
use wirefilter.Types.{into_type, pop, CompoundType, ValueType, PrimitiveType}
use wirefilter.Types.Packing.{IsPacked}
use wirefilter.Value.{LhsValue, Elems}
use wirefilter.Value.Typed.{IsTyped, HasType}
use wirefilter.Lex.{LexErrorKind, Text, codes, expect}
use wirefilter.Lex.Run.{failed, Run, lexed, lift, Ends, Safe}
use wirefilter.Lex.Lengths.{expect-Within, lift-Ends}
use wirefilter.Functions.{
  SimpleFunctionDefinition, SimpleFunctionArgKind, simple_definition, FunctionParam, variable, Arg,
}
use wirefilter.Functions.Simple.{simple_definition-IsCalm}
use wirefilter.Functions.Builtin.{concat_function, concat_impl}
use wirefilter.Functions.Builtin.Joined.{joined_or_none, concat_impl-elements}
use wirefilter.Functions.Lexed.{lex_with_function}
use wirefilter.Functions.Lexed.Passed.{Passed, lex_with_function-Passed}

abbrev lex_b : Text → Run (Unit {0})
lex_b input = lift (expect input (codes "b"))

abbrev param_b : Unit {0} → FunctionParam
param_b u = variable ValueType.bytes

abbrev maps_none : Unit {0} → Bool
maps_none u = false

lex_b-Ends : (input : Text) → Ends (length input) (lex_b input)
lex_b-Ends input =
    lift-Ends (expect input (codes "b")) (length input)
      (expect-Within input (codes "b") (length input) (omega arith))

lex_b-Safe : (input : Text) → Safe (λ i rest. Unit {0}) (lex_b input)
lex_b-Safe input = by_result (expect input (codes "b"))
  where
    by_result : (r : _) → Safe {A = Unit {0}} (λ i rest. Unit {0}) (lift r)
    by_result (wirefilter.Lex.ok p) = tt
    by_result (wirefilter.Lex.err k s) = tt

abbrev call : Text
call = codes "( b, b ) and"

call_lexes :
    lex_with_function concat_function lex_b param_b maps_none call
    ≡ lexed (tt ∷ tt ∷ [], codes " and")
unfolding lex_with_function concat_function
call_lexes = refl

-- A function of one field, and of one more that may be missing.
abbrev one_or_two : SimpleFunctionDefinition
one_or_two = record {
  params = record { arg_kind = SimpleFunctionArgKind.field; val_type = ValueType.bytes } ∷ [];
  opt_params =
      record { arg_kind = SimpleFunctionArgKind.both; default_value = LhsValue.bytes [] } ∷ [];
  return_type = ValueType.bytes;
  implementation = λ args. done none;
}

two_lex :
    lex_with_function (simple_definition one_or_two) lex_b param_b maps_none call
    ≡ lexed (tt ∷ tt ∷ [], codes " and")
unfolding lex_with_function simple_definition
two_lex = refl

-- The error is about the third argument.
three_fail :
    lex_with_function (simple_definition one_or_two) lex_b param_b maps_none (codes "(b,b,b)")
    ≡ failed (LexErrorKind.invalid_arguments_count 1 (some 2)) (codes "b)")
unfolding lex_with_function simple_definition
three_fail = refl

lex_with_function-Passed_example :
    Ends 12 (lex_with_function (simple_definition one_or_two) lex_b param_b maps_none call)
    × Safe
        (λ args rest. Passed (simple_definition one_or_two) param_b args)
        (lex_with_function (simple_definition one_or_two) lex_b param_b maps_none call)
lex_with_function-Passed_example =
    lex_with_function-Passed (simple_definition one_or_two) lex_b param_b maps_none
      (simple_definition-IsCalm one_or_two) lex_b-Ends lex_b-Safe call

abbrev int_elems : CompoundType
int_elems = record { layers = 0; len = 0; primitive = PrimitiveType.int }

abbrev one_two : List Arg
one_two =
    Arg.ok (LhsValue.array int_elems (Elems.cons (LhsValue.int (pos 1)) Elems.nil))
    ∷ Arg.missing (ValueType.array int_elems)
    ∷ Arg.ok (LhsValue.array int_elems (Elems.cons (LhsValue.int (pos 2)) Elems.nil))
    ∷ []

int_elems-IsPacked : IsPacked int_elems
int_elems-IsPacked = record { len_le = omega arith; layers_lt = omega arith }

int_elems-HasType :
    (n : ℕ)
    → HasType
        (ValueType.array int_elems)
        (LhsValue.array int_elems (Elems.cons (LhsValue.int (pos n)) Elems.nil))
unfolding IsTyped into_type pop
int_elems-HasType n = (refl, (int_elems-IsPacked, (refl, tt, tt)))

concat_impl-elements_example : concat_impl one_two ≡ done (joined_or_none int_elems one_two)
concat_impl-elements_example =
    concat_impl-elements int_elems one_two (int_elems-HasType 1, (refl, (int_elems-HasType 2, tt)))
