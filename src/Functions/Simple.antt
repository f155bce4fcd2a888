-- ===== src/Functions/Simple.antt =====
-- engine/src/functions: the panics of checks, which have an unreachable branch.
use wirefilter.Prelude.{◌-◌, refl, [], ◌∷◌, length, get_elem?-none, get_elem?, inl, inr, arith}
use wirefilter.Lex.Lengths.{Option-cases}
use wirefilter.Functions.{SimpleFunctionDefinition, simple_check_param, simple_definition}
use wirefilter.Functions.Builtin.{
  any_function, all_function, concat_function, check_bools, concat_check_param,
}
use wirefilter.Functions.Lexed.Passed.{IsCalm}

pub simple_definition-IsCalm : (d : SimpleFunctionDefinition) → IsCalm (simple_definition d)
unfolding simple_definition simple_check_param
simple_definition-IsCalm d params next b =
    elim (Option-cases (get_elem? d.params (length params))) [
      | inl (p, e) ↦ rw e (_, refl)
      | inr e ↦ elim (Option-cases (get_elem? d.opt_params (length params - length d.params))) [
        | inl (p, o) ↦ rw (e, o) (_, refl)
        | inr o ↦
            let n = get_elem?-none d.params (length params) e in
            let m = get_elem?-none d.opt_params (length params - length d.params) o in
            absurd (ground arith)
      ]
    ]

pub any_function-IsCalm : IsCalm any_function
unfolding any_function check_bools
any_function-IsCalm [] next b = (_, refl)
any_function-IsCalm (p ∷ params) next b = absurd (ground arith)

pub all_function-IsCalm : IsCalm all_function
unfolding all_function check_bools
all_function-IsCalm [] next b = (_, refl)
all_function-IsCalm (p ∷ params) next b = absurd (ground arith)

pub concat_function-IsCalm : IsCalm concat_function
unfolding concat_function concat_check_param
concat_function-IsCalm [] next b = (_, refl)
concat_function-IsCalm (p ∷ params) next b = (_, refl)
