-- ===== src/Logical.antt =====
-- engine/src/ast/logical_expr.rs: logical expressions and what they compile to. `C` is the type of
-- comparisons and `X` that of contexts; a closure takes the context and may panic.
pub mod Eval
pub mod Sound
pub mod Parse
use wirefilter.Prelude.{
  ℕ, zero, suc, Bool, true, false, not, ◌&&◌, ◌||◌, List, [], ◌∷◌, map, length, take, ltb,
  if◌then◌else◌,
}
use wirefilter.Prelude.Outcome.{Outcome, done, panic, ◌>>=◌}

pub data LogicalOp : Type 0 where
  or xor and : LogicalOp

-- `UnaryOp` has the one operator `Not`.
mutual
  pub data LogicalExpr (C : Type 0) : Type 0 where
    combining : LogicalOp → LogicalExprs C → LogicalExpr C
    comparison : C → LogicalExpr C
    parenthesized : LogicalExpr C → LogicalExpr C
    unary_not : LogicalExpr C → LogicalExpr C

  pub data LogicalExprs (C : Type 0) : Type 0 where
    nil : LogicalExprs C
    cons : LogicalExpr C → LogicalExprs C → LogicalExprs C

-- `CompiledExpr`
pub data CompiledExpr (X : Type 0) : Type 0 where
  one : (X → Outcome Bool) → CompiledExpr X
  vec : (X → Outcome (List Bool)) → CompiledExpr X

abbrev pub apply_op : LogicalOp → Bool → Bool → Bool
apply_op LogicalOp.and a b = a && b
apply_op LogicalOp.or a b = a || b
apply_op LogicalOp.xor true b = not b
apply_op LogicalOp.xor false b = b

-- `output.iter_mut().zip(values.iter())`: what is past the shorter of the two stays as it is.
abbrev pub zip_update : (Bool → Bool → Bool) → List Bool → List Bool → List Bool
zip_update f [] ys = []
zip_update f (x ∷ xs) [] = x ∷ xs
zip_update f (x ∷ xs) (y ∷ ys) = f x y ∷ zip_update f xs ys

-- One round of the loop over the vectors: the update, and then `truncate`.
unfoldable pub combine_vec : (Bool → Bool → Bool) → List Bool → List Bool → List Bool
combine_vec f output values =
    let updated = zip_update f output values in
    if ltb (length values) (length updated) then take (length values) updated else updated

module _ {X : Type 0} where
  -- `iter().all` and `iter().any` stop at the first item that decides.
  unfoldable pub all_items : List (X → Outcome Bool) → X → Outcome Bool
  all_items [] x = done true
  all_items (g ∷ gs) x = g x >>= λ b. if b then all_items gs x else done false

  unfoldable pub any_items : List (X → Outcome Bool) → X → Outcome Bool
  any_items [] x = done false
  any_items (g ∷ gs) x = g x >>= λ b. if b then done true else any_items gs x

  unfoldable pub xor_items : List (X → Outcome Bool) → X → Bool → Outcome Bool
  xor_items [] x acc = done acc
  xor_items (g ∷ gs) x acc = g x >>= λ b. xor_items gs x (apply_op LogicalOp.xor acc b)

  unfoldable pub run_one :
      LogicalOp → (X → Outcome Bool) → List (X → Outcome Bool) → X → Outcome Bool
  run_one LogicalOp.and f gs x = f x >>= λ b. if b then all_items gs x else done false
  run_one LogicalOp.or f gs x = f x >>= λ b. if b then done true else any_items gs x
  run_one LogicalOp.xor f gs x = f x >>= λ b. xor_items gs x b

  unfoldable pub vec_items :
      (Bool → Bool → Bool) → List (X → Outcome (List Bool)) → X → List Bool → Outcome (List Bool)
  vec_items f [] x output = done output
  vec_items f (g ∷ gs) x output = g x >>= λ values. vec_items f gs x (combine_vec f output values)

  unfoldable pub run_vec :
      LogicalOp
      → (X → Outcome (List Bool))
      → List (X → Outcome (List Bool))
      → X
      → Outcome (List Bool)
  run_vec op f gs x = f x >>= λ output. vec_items (apply_op op) gs x output

  -- The items after the first, which are `unreachable!()` if they are of the other kind.
  unfoldable pub all_ones : List (CompiledExpr X) → Outcome (List (X → Outcome Bool))
  all_ones [] = done []
  all_ones (one g ∷ cs) = all_ones cs >>= λ gs. done (g ∷ gs)
  all_ones (vec g ∷ cs) = panic

  unfoldable pub all_vecs : List (CompiledExpr X) → Outcome (List (X → Outcome (List Bool)))
  all_vecs [] = done []
  all_vecs (vec g ∷ cs) = all_vecs cs >>= λ gs. done (g ∷ gs)
  all_vecs (one g ∷ cs) = panic

  unfoldable pub combine : LogicalOp → List (CompiledExpr X) → Outcome (CompiledExpr X)
  combine op [] = panic
  combine op (one f ∷ cs) = all_ones cs >>= λ gs. done (one (run_one op f gs))
  combine op (vec f ∷ cs) = all_vecs cs >>= λ gs. done (vec (run_vec op f gs))

  abbrev pub negate : CompiledExpr X → CompiledExpr X
  negate (one f) = one (λ x. f x >>= λ b. done (not b))
  negate (vec f) = vec (λ x. f x >>= λ bs. done (map not bs))

-- `compile_with_compiler`; `compile_comparison` is that of a comparison.
unfoldable mutual
  pub compile : {C X : Type 0} → (C → CompiledExpr X) → LogicalExpr C → Outcome (CompiledExpr X)
  compile compile_comparison (combining op items) =
      compile_all compile_comparison items >>= combine op
  compile compile_comparison (comparison c) = done (compile_comparison c)
  compile compile_comparison (parenthesized e) = compile compile_comparison e
  compile compile_comparison (unary_not e) = compile compile_comparison e >>= λ c. done (negate c)

  pub compile_all :
      {C X : Type 0} → (C → CompiledExpr X) → LogicalExprs C → Outcome (List (CompiledExpr X))
  compile_all compile_comparison nil = done []
  compile_all compile_comparison (cons e es) = compile compile_comparison e >>= λ c.
      compile_all compile_comparison es >>= λ cs. done (c ∷ cs)
