-- ===== src/Functions/Lexed/Ends.antt =====
-- engine/src/ast/function_expr.rs: the fuel that the lexer of a call needs.
use wirefilter.Prelude.{
  ℕ, zero, suc, ◌+◌, ◌-◌, ◌≤◌, ◌<◌, ◌≡◌, refl, Bool, false, ◌&&◌, not, none, some, List, [], ◌∷◌,
  ◌++◌, map, length, ltb, ◌==◌, inl, inr, arith, Bool-cases,
}
use wirefilter.Prelude.Outcome.{Outcome, done, panic}
use wirefilter.Lex.{Text, codes, LexResult, ok, err, expect, skip_space}
use wirefilter.Lex.Run.{Run, lift, run_outcome, Ends, bind-Ends}
use wirefilter.Lex.Lengths.{Shorter, expect-Within, expect-Shorter, length-skip_space, lift-Ends}
use wirefilter.Functions.{
  FunctionParam, type_mismatch, kind_mismatch, invalid_constant, Check, FunctionDefinition,
}
use wirefilter.Functions.Lexed.{
  is_beyond, check_result, comma, check_arg, finish, lex_args, lex_with_function,
}

-- Fuel for an input of the length; the rounds after the first take a comma each.
fuel : ℕ → ℕ → ℕ
fuel zero l = l + 2
fuel (suc index) l = l + 1

-- What the comma leaves.
left_of : ℕ → ℕ → ℕ
left_of zero l = l
left_of (suc index) l = l - 1

fuel-left_of :
    (index l f : ℕ) → 0 < l → fuel index l ≤ suc f → (left_of index l < f) × (left_of index l ≤ l)
unfolding fuel left_of
fuel-left_of zero l f p h = (omega arith, omega arith)
fuel-left_of (suc index) l f p h = (omega arith, omega arith)

comma-Ends : (index : ℕ) (input : Text) → Ends (left_of index (length input)) (comma index input)
unfolding left_of
comma-Ends zero input = omega arith
comma-Ends (suc index) input =
    let p = expect-Shorter input (codes ",") refl in
    let z : (suc index == 0) ≡ false = ground arith in rw z (by_result (expect input (codes ",")) p)
  where
    by_result : (r : LexResult (Unit {0})) → Shorter input r → Ends (length input - 1) (lift r)
    by_result (ok (u, rest)) h = omega arith
    by_result (err k s) h = tt

module _ {A : Type 0} (d : FunctionDefinition) (lex_arg : Text → Run A)
    (param_of : A → FunctionParam) (maps : A → Bool) where
  check_arg-Ends :
      (index : ℕ) (args : List A) (input : Text) (a : A) (rest : Text)
      → Ends (length rest) (check_arg d lex_arg param_of maps index args input a rest)
  unfolding check_arg
  check_arg-Ends index args input a rest = elim (Bool-cases (maps a && not (index == 0))) [
    | inl e ↦ rw e tt
    | inr e ↦ elim (Bool-cases (is_beyond d.mandatory d.optional index)) [
      | inl b ↦ rw (e, b) tt
      | inr b ↦ rw (e, b) (by_outcome (d.check_param (map param_of args) (param_of a)))
    ]
  ]
    where
      by_outcome :
          (o : Outcome Check) → Ends (length rest) (run_outcome o (check_result index input rest))
      by_outcome panic = tt
      by_outcome (done none) = omega arith
      by_outcome (done (some (kind_mismatch x y))) = tt
      by_outcome (done (some (type_mismatch x y))) = tt
      by_outcome (done (some (invalid_constant x))) = tt

  finish-Ends :
      (args : List A) (input : Text) (n : ℕ)
      → length input ≤ n
      → Ends n (finish d lex_arg param_of maps args input)
  unfolding finish
  finish-Ends args input n h = elim (Bool-cases (ltb (length args) d.mandatory)) [
    | inl e ↦ rw e tt
    | inr e ↦ rw e (
        bind-Ends (lift (expect input (codes ")"))) _ n n
          (lift-Ends (expect input (codes ")")) n (expect-Within input (codes ")") n h))
          λ u rest k. k)
  ]

  module _ (ends : (input : Text) → Ends (length input) (lex_arg input)) where
    lex_args-Ends :
        (f index : ℕ) (args : List A) (input : Text) (n : ℕ)
        → fuel index (length input) ≤ f
        → length input ≤ n
        → Ends n (lex_args d lex_arg param_of maps f index args input)
    unfolding lex_args fuel
    lex_args-Ends zero zero args input n l h = absurd (omega arith)
    lex_args-Ends zero (suc index) args input n l h = absurd (omega arith)
    lex_args-Ends (suc f) index args [] n l h = finish-Ends args [] n h
    lex_args-Ends (suc f) index args (c ∷ cs) n l h = elim (Bool-cases (c == b')')) [
      | inl e ↦ rw (e, lex_args) (finish-Ends args (c ∷ cs) n h)
      | inr e ↦
          let (enough, shrinks) = fuel-left_of index (length (c ∷ cs)) f (omega arith) l in
          rw (e, lex_args)
            (bind-Ends (comma index (c ∷ cs)) _ (left_of index (length (c ∷ cs))) n
              (comma-Ends index (c ∷ cs))
              λ u rest k.
                let s = length-skip_space rest in
                bind-Ends (lex_arg (skip_space rest)) _ (length (skip_space rest)) n
                  (ends (skip_space rest))
                  λ a left k'.
                    bind-Ends
                      (check_arg d lex_arg param_of maps index args (skip_space rest) a left) _
                      (length left) n (check_arg-Ends index args (skip_space rest) a left)
                      λ u left' k''.
                        let s' = length-skip_space left' in
                        lex_args-Ends f (suc index) (args ++ a ∷ []) (skip_space left') n
                          (omega arith) (omega arith))
    ]

    pub lex_with_function-Ends :
        (input : Text) → Ends (length input) (lex_with_function d lex_arg param_of maps input)
    unfolding lex_with_function fuel
    lex_with_function-Ends input =
        let s = length-skip_space input in
        bind-Ends (lift (expect (skip_space input) (codes "("))) _ (length input) (length input)
          (lift-Ends (expect (skip_space input) (codes "(")) (length input)
            (expect-Within (skip_space input) (codes "(") (length input) s))
          λ u rest k.
            let s' = length-skip_space rest in
            lex_args-Ends (suc (suc (length rest))) 0 [] (skip_space rest) (length input)
              (omega arith) (omega arith)
