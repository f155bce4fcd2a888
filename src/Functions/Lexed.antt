-- ===== src/Functions/Lexed.antt =====
-- engine/src/ast/function_expr.rs: the lexer of a call, behind the name of the function. `A` is the type
-- of arguments, `lex_arg` their lexer, `param_of` what a check sees of one, and `maps` whether it has a
-- `[*]` access.
pub mod Ends
pub mod Passed
use wirefilter.Prelude.{
  ℕ, zero, suc, ◌+◌, Bool, true, false, ◌&&◌, not, Option, none, some, List, [], ◌∷◌, ◌++◌, map,
  length, ltb, leb, ◌==◌, if◌then◌else◌,
}
use wirefilter.Prelude.Outcome.{Outcome, done, panic}
use wirefilter.Lex.{Text, codes, LexErrorKind, expect, skip_space, span}
use wirefilter.Lex.Run.{Run, lexed, failed, panicked, out_of_fuel, lift, run_outcome, ◌>>=◌}
use wirefilter.Functions.{
  FunctionParam, FunctionParamError, type_mismatch, kind_mismatch, invalid_constant, Check,
  FunctionDefinition,
}

abbrev add_option : ℕ → Option ℕ → Option ℕ
add_option n none = none
add_option n (some o) = some (n + o)

abbrev pub invalid_args_count : {B : Type 0} → FunctionDefinition → Text → Run B
invalid_args_count d input =
    failed (LexErrorKind.invalid_arguments_count d.mandatory (add_option d.mandatory d.optional))
      input

-- Whether an argument at the index is one too many.
abbrev pub is_beyond : ℕ → Option ℕ → ℕ → Bool
is_beyond mandatory none index = false
is_beyond mandatory (some o) index = leb (mandatory + o) index

abbrev pub check_result : ℕ → Text → Text → Check → Run (Unit {0})
check_result index input rest none = lexed (tt, rest)
check_result index input rest (some (kind_mismatch e a)) =
    failed (LexErrorKind.invalid_argument_kind index) (span input rest)
check_result index input rest (some (type_mismatch e a)) =
    failed (LexErrorKind.invalid_argument_type index) (span input rest)
check_result index input rest (some (invalid_constant e)) =
    failed (LexErrorKind.invalid_argument_value index) (span input rest)

abbrev pub comma : ℕ → Text → Run (Unit {0})
comma index input = if index == 0 then lexed (tt, input) else lift (expect input (codes ","))

module _ {A : Type 0} (d : FunctionDefinition) (lex_arg : Text → Run A)
    (param_of : A → FunctionParam) (maps : A → Bool) where
  -- The tests between an argument and the next round.
  unfoldable pub check_arg : ℕ → List A → Text → A → Text → Run (Unit {0})
  unfolding span
  check_arg index args input arg rest =
      if maps arg && not (index == 0)
      then failed LexErrorKind.invalid_map_each_access (span input rest)
      else if is_beyond d.mandatory d.optional index
      then invalid_args_count d input
      else run_outcome (d.check_param (map param_of args) (param_of arg))
          (check_result index input rest)

  -- Behind the loop.
  unfoldable pub finish : List A → Text → Run (List A)
  unfolding expect
  finish args input =
      if ltb (length args) d.mandatory
      then invalid_args_count d input
      else lift (expect input (codes ")")) >>= λ (_, rest). lexed (args, rest)

  unfoldable pub lex_args : ℕ → ℕ → List A → Text → Run (List A)
  unfolding check_arg finish skip_space expect
  lex_args zero index args input = out_of_fuel
  lex_args (suc f) index args [] = finish args []
  lex_args (suc f) index args (c ∷ cs) = elim (c == b')') [
    | true ↦ finish args (c ∷ cs)
    | false ↦ comma index (c ∷ cs) >>= λ (_, rest). lex_arg (skip_space rest) >>= λ (arg, left).
        check_arg index args (skip_space rest) arg left >>= λ (_, left).
        lex_args f (suc index) (args ++ arg ∷ []) (skip_space left)
  ]

  -- Each round after the first takes a comma.
  unfoldable pub lex_with_function : Text → Run (List A)
  unfolding lex_args
  lex_with_function input = lift (expect (skip_space input) (codes "(")) >>= λ (_, rest).
      lex_args (suc (suc (length rest))) 0 [] (skip_space rest)
