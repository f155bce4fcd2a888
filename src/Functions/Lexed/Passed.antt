-- ===== src/Functions/Lexed/Passed.antt =====
-- engine/src/ast/function_expr.rs: the arguments of a call that the lexer accepts.
use wirefilter.Prelude.{
  ℕ, zero, suc, ◌+◌, ◌≤◌, Option, ◌≡◌, refl, sym, subst, ap, ◌∙◌, Bool, true, false, ◌&&◌, not,
  none, some, List, [], ◌∷◌, ◌++◌, map, length, length-append, append_assoc, append-nil, ltb, ◌==◌,
  inl, inr, arith, Bool-cases, if◌then◌else◌,
}
use wirefilter.Prelude.Outcome.{done}
use wirefilter.Lex.{Text, codes, LexResult, ok, err, expect, skip_space}
use wirefilter.Lex.Run.{Run, lift, run_outcome, Ends, Safe, bind-Safe, lift-Safe}
use wirefilter.Functions.{
  FunctionParam, type_mismatch, kind_mismatch, invalid_constant, Check, FunctionDefinition,
}
use wirefilter.Functions.Lexed.Ends.{lex_with_function-Ends}
use wirefilter.Functions.Lexed.{
  is_beyond, check_result, comma, check_arg, finish, lex_args, lex_with_function,
  invalid_args_count,
}

-- No more than the mandatory and the optional arguments of a definition, which may take any number.
abbrev pub UpTo : ℕ → Option ℕ → ℕ → Type 0
UpTo mandatory none n = Unit
UpTo mandatory (some o) n = n ≤ mandatory + o

not_beyond :
    (mandatory : ℕ) (optional : Option ℕ) (index : ℕ)
    → is_beyond mandatory optional index ≡ false
    → UpTo mandatory optional (suc index)
not_beyond mandatory none index e = tt
not_beyond mandatory (some o) index e = ground arith

-- A definition whose check does not panic on an argument that it takes.
abbrev pub IsCalm : FunctionDefinition → Type 0
IsCalm d =
    (params : List FunctionParam) (next : FunctionParam)
    → UpTo d.mandatory d.optional (suc (length params))
    → (c : Check) × (d.check_param params next ≡ done c)

-- Arguments of which each passed its check behind the ones before, in a number that the definition
-- takes.
module _ {A : Type 0} (d : FunctionDefinition) (param_of : A → FunctionParam) where
  abbrev pub PassedFrom : List A → List A → Type 0
  PassedFrom before [] = Unit {0}
  PassedFrom before (a ∷ args) =
      (d.check_param (map param_of before) (param_of a) ≡ done none)
      × (UpTo d.mandatory d.optional (suc (length before)))
      × PassedFrom (before ++ a ∷ []) args

  pub record Passed (args : List A) : Type 0 where
    pub each : PassedFrom [] args
    pub enough : d.mandatory ≤ length args
    pub not_too_many : UpTo d.mandatory d.optional (length args)

  PassedFrom-UpTo :
      (before args : List A)
      → UpTo d.mandatory d.optional (length before)
      → PassedFrom before args
      → UpTo d.mandatory d.optional (length (before ++ args))
  PassedFrom-UpTo before [] u h = rw (append-nil before) u
  PassedFrom-UpTo before (x ∷ args) u (_, k, hs) =
      let more : length (before ++ x ∷ []) ≡ suc (length before) =
        omega (arith, length-append {0} before (x ∷ [])) in
      let e : before ++ x ∷ args ≡ (before ++ x ∷ []) ++ args = rw append_assoc refl in
      subst (λ xs. UpTo d.mandatory d.optional (length xs)) (sym e)
        (PassedFrom-UpTo (before ++ x ∷ []) args
          (subst (λ n. UpTo d.mandatory d.optional n) (sym more) k) hs)

  no_args : (mandatory : ℕ) (optional : Option ℕ) → UpTo mandatory optional 0
  no_args mandatory none = tt
  no_args mandatory (some o) = omega arith

  PassedFrom-Passed : (args : List A) → PassedFrom [] args → d.mandatory ≤ length args → Passed args
  PassedFrom-Passed args h n = record {
    each = h;
    enough = n;
    not_too_many = PassedFrom-UpTo [] args (no_args d.mandatory d.optional) h;
  }

  PassedFrom-append :
      (before args : List A) (a : A)
      → PassedFrom before args
      → d.check_param (map param_of (before ++ args)) (param_of a) ≡ done none
      → UpTo d.mandatory d.optional (suc (length (before ++ args)))
      → PassedFrom before (args ++ a ∷ [])
  PassedFrom-append before [] a h c b =
      let e : before ++ [] ≡ before = append-nil before in
      (
        subst (λ xs. d.check_param (map param_of xs) (param_of a) ≡ done none) e c,
        subst (λ xs. UpTo d.mandatory d.optional (suc (length xs))) e b,
        tt,
      )
  PassedFrom-append before (x ∷ args) a (h, k, hs) c b =
      let e : before ++ x ∷ args ≡ (before ++ x ∷ []) ++ args = rw append_assoc refl in
      (
        h,
        k,
        PassedFrom-append (before ++ x ∷ []) args a hs
            (subst (λ xs. d.check_param (map param_of xs) (param_of a) ≡ done none) e c)
            (subst (λ xs. UpTo d.mandatory d.optional (suc (length xs))) e b),
      )

module _ {A : Type 0} (d : FunctionDefinition) (lex_arg : Text → Run A)
    (param_of : A → FunctionParam) (maps : A → Bool) where
  -- What a check that lets an argument pass says of it.
  abbrev PassesNext : ℕ → List A → A → Type 0
  PassesNext index args a =
      (d.check_param (map param_of args) (param_of a) ≡ done none)
      × (UpTo d.mandatory d.optional (suc index))

  check_arg-PassesNext :
      (index : ℕ) (args : List A) (input : Text) (a : A) (rest : Text)
      → length args ≡ index
      → IsCalm d
      → Safe
          (λ u left. PassesNext index args a × (left ≡ rest))
          (check_arg d lex_arg param_of maps index args input a rest)
  unfolding check_arg
  check_arg-PassesNext index args input a rest n calm =
      elim (Bool-cases (maps a && not (index == 0))) [
        | inl e ↦ rw e tt
        | inr e ↦ rw e (by_bound (is_beyond d.mandatory d.optional index) refl)
      ]
    where
      length-map : (xs : List A) → length (map param_of xs) ≡ length xs
      length-map [] = refl
      length-map (x ∷ xs) = ap suc (length-map xs)

      by_check :
          (c : Check)
          → d.check_param (map param_of args) (param_of a) ≡ done c
          → UpTo d.mandatory d.optional (suc index)
          → Safe
              (λ u left. PassesNext index args a × (left ≡ rest))
              (check_result index input rest c)
      by_check none e b = ((e, b), refl)
      by_check (some (kind_mismatch x y)) e b = tt
      by_check (some (type_mismatch x y)) e b = tt
      by_check (some (invalid_constant x)) e b = tt

      by_bound :
          (b : Bool)
          → is_beyond d.mandatory d.optional index ≡ b
          → Safe
              (λ u left. PassesNext index args a × (left ≡ rest))
              (if b
                then invalid_args_count d input
                else run_outcome
                    (d.check_param (map param_of args) (param_of a))
                    (check_result index input rest))
      by_bound true e = tt
      by_bound false e =
          let room = not_beyond d.mandatory d.optional index e in
          let len : length (map param_of args) ≡ index = length-map args ∙ n in
          let (c, is_c) =
            calm (map param_of args) (param_of a)
              (subst (λ i. UpTo d.mandatory d.optional (suc i)) (sym len) room) in
          subst
            (λ o.
              Safe (λ u left. PassesNext index args a × (left ≡ rest))
                (run_outcome o (check_result index input rest)))
            (sym is_c) (by_check c is_c room)

  finish-Passed :
      (args : List A) (input : Text)
      → PassedFrom d param_of [] args
      → Safe (λ r rest. Passed d param_of r) (finish d lex_arg param_of maps args input)
  unfolding finish
  finish-Passed args input h = elim (Bool-cases (ltb (length args) d.mandatory)) [
    | inl e ↦ rw e tt
    | inr e ↦ rw e (
        lift-Safe (λ r rest. Passed d param_of r) (expect input (codes ")")) _
          λ u rest. PassedFrom-Passed d param_of args h (ground arith))
  ]

  comma-Safe : (index : ℕ) (input : Text) → Safe (λ u rest. Unit {0}) (comma index input)
  comma-Safe index input = elim (Bool-cases (index == 0)) [
    | inl e ↦ rw e tt
    | inr e ↦ rw e (by_result (expect input (codes ",")))
  ]
    where
      by_result : (r : LexResult (Unit {0})) → Safe (λ u rest. Unit {0}) (lift r)
      by_result (ok p) = tt
      by_result (err k s) = tt

  lex_args-Passed :
      IsCalm d
      → ((input : Text) → Safe (λ a rest. Unit {0}) (lex_arg input))
      → (f index : ℕ) (args : List A) (input : Text) → length args ≡ index
      → PassedFrom d param_of [] args
      → Safe (λ r rest. Passed d param_of r) (lex_args d lex_arg param_of maps f index args input)
  unfolding lex_args
  lex_args-Passed calm safe zero index args input n h = tt
  lex_args-Passed calm safe (suc f) index args [] n h = finish-Passed args [] h
  lex_args-Passed calm safe (suc f) index args (c ∷ cs) n h = elim (Bool-cases (c == b')')) [
    | inl e ↦ rw (e, lex_args) (finish-Passed args (c ∷ cs) h)
    | inr e ↦
        rw (e, lex_args)
          (bind-Safe (λ u rest. Unit {0}) _ (comma index (c ∷ cs)) _ (comma-Safe index (c ∷ cs))
            λ u rest _.
              bind-Safe (λ a rest. Unit {0}) _ (lex_arg (skip_space rest)) _
                (safe (skip_space rest))
                λ a left _.
                  bind-Safe (λ u left'. PassesNext index args a × (left' ≡ left)) _
                    (check_arg d lex_arg param_of maps index args (skip_space rest) a left) _
                    (check_arg-PassesNext index args (skip_space rest) a left n calm)
                    λ u left' ((passes, within), _).
                      lex_args-Passed calm safe f (suc index) (args ++ a ∷ []) (skip_space left')
                        (omega (arith, length-append {0} args (a ∷ [])))
                        (PassedFrom-append d param_of [] args a h passes
                          (subst (λ i. UpTo d.mandatory d.optional (suc i)) (sym n) within)))
  ]

-- For a definition whose check does not panic on an argument that is not one too many, and a lexer of
-- arguments that ends, leaves no more than it was given and does not panic: the lexer of a call ends and
-- does not panic, and each argument of a call that it returns passed the check behind the arguments
-- before it, while there are at least the mandatory arguments and at most the mandatory and the
-- optional ones together, where the definition bounds them.
pub lex_with_function-Passed :
    {A : Type 0} (d : FunctionDefinition) (lex_arg : Text → Run A) (param_of : A → FunctionParam)
    (maps : A → Bool)
    → IsCalm d
    → ((input : Text) → Ends (length input) (lex_arg input))
    → ((input : Text) → Safe (λ a rest. Unit {0}) (lex_arg input))
    → (input : Text)
    → Ends (length input) (lex_with_function d lex_arg param_of maps input)
      × Safe (λ args rest. Passed d param_of args) (lex_with_function d lex_arg param_of maps input)
unfolding lex_with_function
lex_with_function-Passed d lex_arg param_of maps calm ends safe input = (
  lex_with_function-Ends d lex_arg param_of maps ends input,
  lift-Safe (λ args rest. Passed d param_of args) (expect (skip_space input) (codes "(")) _
      λ u rest.
        lex_args-Passed d lex_arg param_of maps calm safe (suc (suc (length rest))) 0 []
          (skip_space rest) refl tt,
)
