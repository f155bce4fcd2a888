-- ===== src/Logical/Parse/Ends.antt =====
-- engine/src/ast/logical_expr.rs: the fuel that the lexer of logical expressions spends.
use wirefilter.Prelude.{
  ℕ, zero, suc, ◌+◌, ◌*◌, ◌≤◌, ◌<◌, ◌≡◌, refl, false, Option, none, some, inl, inr, leb, ltb,
  length, arith, Bool-cases, if◌then◌else◌,
}
use wirefilter.Prelude.Outcome.{Outcome, done, panic}
use wirefilter.Types.{ValueType}
use wirefilter.Lex.{Text, codes, LexErrorKind, expect, skip_space, lex_enum}
use wirefilter.Lex.Run.{Run, lexed, failed, lift, run_outcome, ◌>>=◌, Ends, bind-Ends}
use wirefilter.Lex.Lengths.{LexResult-cases, length-skip_space, expect-Shorter, lex_enum-Shorter}
use wirefilter.Logical.{LogicalOp, LogicalExpr}
use wirefilter.Logical.Parse.{
  lex_combining_op, logical_op_spellings, unary_op_spellings, rank, get_type, combine_checked,
  comparable, push_item, within, lex_simple_expr, more, climb, lex_with_fuel, lex_with,
}

-- What `more` spends on a lookahead.
abbrev need : Option LogicalOp × Text → ℕ
need (none, at) = 1
need (some op, at) = 4 * length at + 3

-- A lookahead is taken from what is left, less its operator if it has one.
record Looks (rest : Text) (lookahead : Option LogicalOp × Text) : Type 0 where
  bounded : length lookahead.1 ≤ length rest
  needs : need lookahead ≤ 4 * length rest + 1
  consumes : 0 < rank lookahead.0 → length lookahead.1 < length rest

lex_combining_op-Looks : (rest : Text) → Looks rest (lex_combining_op rest)
unfolding lex_combining_op
lex_combining_op-Looks rest =
    let h = lex_enum-Shorter (codes "LogicalOp") logical_op_spellings (skip_space rest) refl in
    let n = length-skip_space rest in
    elim (LexResult-cases (lex_enum (codes "LogicalOp") logical_op_spellings (skip_space rest))) [
      | inl ((op, onward), e) ↦
          let m = length-skip_space onward in
          let h' : length onward < length (skip_space rest) = rw e at h in
          rw e (record { bounded = omega arith; needs = omega arith; consumes = λ z. omega arith })
      | inr (k, s, e) ↦ rw e (record {
        bounded = omega arith;
        needs = omega arith;
        consumes = λ z. absurd (omega arith);
      })
    ]

within-Looks :
    (min_prec : Option LogicalOp) (rest : Text) (lookahead : Option LogicalOp × Text)
    → Looks rest lookahead
    → Looks rest (within min_prec rest lookahead)
within-Looks min_prec rest lookahead h =
    elim (Bool-cases (ltb (rank lookahead.0) (rank min_prec))) [
      | inl e ↦ rw e (record {
        bounded = omega arith;
        needs = omega arith;
        consumes = λ z. absurd (omega arith);
      })
      | inr e ↦ rw e h
    ]

above : (l : Option LogicalOp) (op : LogicalOp) → leb (rank l) (rank (some op)) ≡ false → 0 < rank l
above l op e = ground arith

combine_checked-Ends :
    {C : Type 0} (type_of : C → Outcome ValueType) (op : LogicalOp) (lhs rhs : LogicalExpr C)
    (at rest : Text)
    → Ends (length rest) (combine_checked type_of op lhs rhs at rest)
unfolding combine_checked
combine_checked-Ends type_of op lhs rhs at rest =
    by_types (get_type type_of lhs) (get_type type_of rhs)
  where
    by_types :
        (l r : Outcome ValueType)
        → Ends (length rest) (
            run_outcome l λ lhsty. run_outcome r λ rhsty.
              if comparable lhsty rhsty
              then lexed (push_item op lhs rhs, rest)
              else failed (LexErrorKind.type_mismatch lhsty rhsty) at)
    by_types panic r = tt
    by_types (done l) panic = tt
    by_types (done l) (done r) = elim (Bool-cases (comparable l r)) [
      | inl e ↦ rw e (omega arith)
      | inr e ↦ rw e tt
    ]

close-Ends :
    {C : Type 0} (rest : Text) (e : LogicalExpr C) (n : ℕ)
    → length rest ≤ n
    → Ends n (
        lift (expect (skip_space rest) (codes ")")) >>= λ (_, rest).
        lexed (LogicalExpr.parenthesized e, rest))
close-Ends rest e n l =
    let p = expect-Shorter (skip_space rest) (codes ")") refl in
    let s = length-skip_space rest in
    elim (LexResult-cases (expect (skip_space rest) (codes ")"))) [
      | inl ((u, onward), q) ↦
          let p' : length onward < length (skip_space rest) = rw q at p in rw q (omega arith)
      | inr (k, t, q) ↦ rw q tt
    ]

module _ {C : Type 0} (lex_comparison : Text → Run C) (type_of : C → Outcome ValueType)
    (ends : (input : Text) → Ends (length input) (lex_comparison input)) where
  mutual
    unfolding lex_simple_expr

    lex_simple_expr-Ends :
        (f : ℕ) (input : Text) (n : ℕ)
        → length input ≤ n
        → 4 * length input + 1 ≤ f
        → Ends n (lex_simple_expr lex_comparison type_of f input)
    lex_simple_expr-Ends zero input n l h = absurd (omega arith)
    lex_simple_expr-Ends (suc f) input n l h =
        let p = expect-Shorter input (codes "(") refl in
        let q = lex_enum-Shorter (codes "UnaryOp") unary_op_spellings input refl in
        elim (LexResult-cases (expect input (codes "("))) [
          | inl ((u, inner), e) ↦
              let s = length-skip_space inner in
              let p' : length inner < length input = rw e at p in
              rw (e, lex_simple_expr)
                (bind-Ends (lex_with_fuel lex_comparison type_of f (skip_space inner)) _ n n
                  (with-Ends f (skip_space inner) n (omega arith) (omega arith))
                  λ a rest k. close-Ends rest a n k)
          | inr (k, s, e) ↦
              rw (e, lex_simple_expr)
                (elim (LexResult-cases (lex_enum (codes "UnaryOp") unary_op_spellings input)) [
                  | inl ((u, arg), e') ↦
                      let s' = length-skip_space arg in
                      let q' : length arg < length input = rw e' at q in
                      rw e' (
                        bind-Ends (lex_simple_expr lex_comparison type_of f (skip_space arg)) _ n n
                          (lex_simple_expr-Ends f (skip_space arg) n (omega arith) (omega arith))
                          λ a rest k. k)
                  | inr (k', s', e') ↦ rw e' (
                      bind-Ends (lex_comparison input) _ (length input) n (ends input)
                        λ a rest k. omega arith)
                ])
        ]

    more-Ends :
        (f : ℕ) (lhs : LogicalExpr C) (min_prec : Option LogicalOp)
        (lookahead : Option LogicalOp × Text) (n : ℕ)
        → length lookahead.1 ≤ n
        → need lookahead ≤ f
        → Ends n (more lex_comparison type_of f lhs min_prec lookahead)
    more-Ends zero lhs min_prec (none, at) n l h = absurd (omega arith)
    more-Ends zero lhs min_prec (some op, at) n l h = absurd (omega arith)
    more-Ends (suc f) lhs min_prec (none, at) n l h = l
    more-Ends (suc f) lhs min_prec (some op, at) n l h =
        bind-Ends (lex_simple_expr lex_comparison type_of f at) _ (length at) n
          (lex_simple_expr-Ends f at (length at) (omega arith) (omega arith))
          λ rhs rest k.
            bind-Ends (climb lex_comparison type_of f op rhs rest) _ (length at) n
              (climb-Ends f op rhs rest (length at) k (omega arith))
              λ rhs rest k.
                bind-Ends (combine_checked type_of op lhs rhs (lex_combining_op rest).1 rest) _
                  (length rest) n
                  (combine_checked-Ends type_of op lhs rhs (lex_combining_op rest).1 rest)
                  λ lhs onward j.
                    let w =
                      within-Looks min_prec onward (lex_combining_op onward)
                        (lex_combining_op-Looks onward) in
                    more-Ends f lhs min_prec (within min_prec onward (lex_combining_op onward)) n
                      (omega (arith, w.bounded)) (omega (arith, w.needs))

    climb-Ends :
        (f : ℕ) (op : LogicalOp) (rhs : LogicalExpr C) (rest : Text) (n : ℕ)
        → length rest ≤ n
        → 4 * length rest + 2 ≤ f
        → Ends n (climb lex_comparison type_of f op rhs rest)
    climb-Ends zero op rhs rest n l h = absurd (omega arith)
    climb-Ends (suc f) op rhs rest n l h =
        elim (Bool-cases (leb (rank (lex_combining_op rest).0) (rank (some op)))) [
          | inl e ↦ rw (e, climb) l
          | inr e ↦
              let w = lex_combining_op-Looks rest in
              let c = w.consumes (above (lex_combining_op rest).0 op e) in
              rw (e, climb)
                (bind-Ends
                  (more lex_comparison type_of f rhs (lex_combining_op rest).0
                    (lex_combining_op rest))
                  _ (length (lex_combining_op rest).1) n
                  (more-Ends f rhs (lex_combining_op rest).0 (lex_combining_op rest)
                    (length (lex_combining_op rest).1) (omega arith) (omega (arith, w.needs)))
                  λ rhs onward k. climb-Ends f op rhs onward n (omega arith) (omega arith))
        ]

    with-Ends :
        (f : ℕ) (input : Text) (n : ℕ)
        → length input ≤ n
        → 4 * length input + 2 ≤ f
        → Ends n (lex_with_fuel lex_comparison type_of f input)
    with-Ends zero input n l h = absurd (omega arith)
    with-Ends (suc f) input n l h =
        bind-Ends (lex_simple_expr lex_comparison type_of f input) _ (length input) n
          (lex_simple_expr-Ends f input (length input) (omega arith) (omega arith))
          λ lhs rest k.
            let w = lex_combining_op-Looks rest in
            more-Ends f lhs none (lex_combining_op rest) n (omega (arith, w.bounded))
              (omega (arith, w.needs))

  -- If the lexer of comparisons always ends and leaves no more than it was given, then so does the lexer
  -- of logical expressions, on a fuel of four times the length of the input and two, and on any more.
  pub lex_with_fuel-Ends :
      (input : Text) (extra : ℕ)
      → Ends
          (length input)
          (lex_with_fuel lex_comparison type_of (4 * length input + 2 + extra) input)
  lex_with_fuel-Ends input extra =
      with-Ends (4 * length input + 2 + extra) input (length input) (omega arith) (omega arith)

  pub lex_with-Ends : (input : Text) → Ends (length input) (lex_with lex_comparison type_of input)
  unfolding lex_with
  lex_with-Ends input =
      with-Ends (4 * length input + 2) input (length input) (omega arith) (omega arith)
