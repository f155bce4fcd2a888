-- ===== src/Logical/Eval.antt =====
-- engine/src/ast/logical_expr.rs: the value of an expression by recursion on it.
use wirefilter.Prelude.{
  ◌≡◌, refl, ap, Bool, true, false, not, Option, none, some, List, [], ◌∷◌, map, arith,
  if◌then◌else◌,
}
use wirefilter.Prelude.Outcome.{Outcome, done, panic, ◌>>=◌}
use wirefilter.Logical.{
  LogicalOp, LogicalExpr, LogicalExprs, CompiledExpr, one, vec, apply_op, combine_vec, all_items,
  any_items, xor_items, run_one, negate, nil, cons,
}

pub data Value : Type 0 where
  bool : Bool → Value
  bools : List Bool → Value

-- Two vectors item by item, up to the end of the shorter.
abbrev pub zip_with : (Bool → Bool → Bool) → List Bool → List Bool → List Bool
zip_with f [] ys = []
zip_with f (x ∷ xs) [] = []
zip_with f (x ∷ xs) (y ∷ ys) = f x y ∷ zip_with f xs ys

abbrev pub apply : LogicalOp → Option Value → Option Value → Option Value
apply op (some (bool a)) (some (bool b)) = some (bool (apply_op op a b))
apply op (some (bools a)) (some (bools b)) = some (bools (zip_with (apply_op op) a b))
apply op _ _ = none

abbrev pub negate_value : Option Value → Option Value
negate_value none = none
negate_value (some (bool a)) = some (bool (not a))
negate_value (some (bools a)) = some (bools (map not a))

-- The value of an expression from those of its comparisons; items combine from the left. It has none
-- if a vector meets a single value, or if there is nothing to combine.
unfoldable mutual
  pub eval : {C : Type 0} → (C → Value) → LogicalExpr C → Option Value
  eval value_of (LogicalExpr.combining op nil) = none
  eval value_of (LogicalExpr.combining op (cons e es)) = eval_rest value_of op (eval value_of e) es
  eval value_of (LogicalExpr.comparison c) = some (value_of c)
  eval value_of (LogicalExpr.parenthesized e) = eval value_of e
  eval value_of (LogicalExpr.unary_not e) = negate_value (eval value_of e)

  pub eval_rest :
      {C : Type 0} → (C → Value) → LogicalOp → Option Value → LogicalExprs C → Option Value
  eval_rest value_of op acc nil = acc
  eval_rest value_of op acc (cons e es) = eval_rest value_of op (apply op acc (eval value_of e)) es

-- One round of the loop over vectors is the combination up to the end of the shorter.
pub combine_vec-zip_with :
    (f : Bool → Bool → Bool) (xs ys : List Bool) → combine_vec f xs ys ≡ zip_with f xs ys
unfolding combine_vec
combine_vec-zip_with f [] [] = refl
combine_vec-zip_with f [] (y ∷ ys) = ground arith
combine_vec-zip_with f (x ∷ xs) [] = ground arith
combine_vec-zip_with f (x ∷ xs) (y ∷ ys) = ground (arith, combine_vec-zip_with f xs ys)

abbrev pub runs : {X : Type 0} → CompiledExpr X → X → Outcome Value
runs (one f) x = f x >>= λ b. done (bool b)
runs (vec f) x = f x >>= λ bs. done (bools bs)

-- What is left to do after the items before, whose result is `b`.
abbrev pub run_from : {X : Type 0} → LogicalOp → List (X → Outcome Bool) → X → Bool → Outcome Bool
run_from LogicalOp.and gs x b = if b then all_items gs x else done false
run_from LogicalOp.or gs x b = if b then done true else any_items gs x
run_from LogicalOp.xor gs x b = xor_items gs x b

pub run_from-cons :
    {X : Type 0} (op : LogicalOp) (g : X → Outcome Bool) (gs : List (X → Outcome Bool)) (x : X)
    (b c : Bool)
    → g x ≡ done c
    → run_from op (g ∷ gs) x b ≡ run_from op gs x (apply_op op b c)
unfolding all_items any_items xor_items
run_from-cons LogicalOp.and g gs x true c e = rw (all_items, e)
run_from-cons LogicalOp.and g gs x false c e = refl
run_from-cons LogicalOp.or g gs x true c e = refl
run_from-cons LogicalOp.or g gs x false c e = rw (any_items, e)
run_from-cons LogicalOp.xor g gs x true c e = rw (xor_items, e)
run_from-cons LogicalOp.xor g gs x false c e = rw (xor_items, e)

pub run_one-from :
    {X : Type 0} (op : LogicalOp) (f : X → Outcome Bool) (gs : List (X → Outcome Bool)) (x : X)
    (b : Bool)
    → f x ≡ done b
    → run_one op f gs x ≡ run_from op gs x b
unfolding run_one
run_one-from LogicalOp.and f gs x b e = rw (run_one, e)
run_one-from LogicalOp.or f gs x b e = rw (run_one, e)
run_one-from LogicalOp.xor f gs x b e = rw (run_one, e)

pub runs_bool :
    {X : Type 0} (c : CompiledExpr X) (x : X) (b : Bool)
    → runs c x ≡ done (bool b)
    → (g : X → Outcome Bool) × (c ≡ one g) × (g x ≡ done b)
runs_bool {X = X} (one g) x b e = (g, refl, by_result (g x) e)
  where
    by_result : (o : Outcome Bool) → (o >>= λ r. done (bool r)) ≡ done (bool b) → o ≡ done b
    by_result (done r) p = cc
    by_result panic p = cc
runs_bool {X = X} (vec g) x b e = by_result (g x) e
  where
    by_result :
        (o : Outcome (List Bool))
        → (o >>= λ r. done (bools r)) ≡ done (bool b)
        → (f : X → Outcome Bool) × (vec g ≡ one f) × (f x ≡ done b)
    by_result (done r) p = cc
    by_result panic p = cc

pub runs_bools :
    {X : Type 0} (c : CompiledExpr X) (x : X) (bs : List Bool)
    → runs c x ≡ done (bools bs)
    → (g : X → Outcome (List Bool)) × (c ≡ vec g) × (g x ≡ done bs)
runs_bools {X = X} (vec g) x bs e = (g, refl, by_result (g x) e)
  where
    by_result :
        (o : Outcome (List Bool)) → (o >>= λ r. done (bools r)) ≡ done (bools bs) → o ≡ done bs
    by_result (done r) p = cc
    by_result panic p = cc
runs_bools {X = X} (one g) x bs e = by_result (g x) e
  where
    by_result :
        (o : Outcome Bool)
        → (o >>= λ r. done (bool r)) ≡ done (bools bs)
        → (f : X → Outcome (List Bool)) × (one g ≡ vec f) × (f x ≡ done bs)
    by_result (done r) p = cc
    by_result panic p = cc

pub negate-runs :
    {X : Type 0} (c : CompiledExpr X) (x : X) (w v : Value)
    → runs c x ≡ done w
    → negate_value (some w) ≡ some v
    → runs (negate c) x ≡ done v
negate-runs c x (bool b) v r e =
    let (g, is_one, gx) = runs_bool c x b r in
    let p : bool (not b) ≡ v = cc in rw (is_one, gx) (ap done p)
negate-runs c x (bools bs) v r e =
    let (g, is_vec, gx) = runs_bools c x bs r in
    let p : bools (map not bs) ≡ v = cc in rw (is_vec, gx) (ap done p)

module _ {C : Type 0} (value_of : C → Value) where
  eval_rest-none :
      (op : LogicalOp) (es : LogicalExprs C) (v : Value)
      → eval_rest value_of op none es ≡ some v
      → ⊥
  unfolding eval
  eval_rest-none op nil v e = cc
  eval_rest-none op (cons e' es) v e = eval_rest-none op es v e

  pub apply_bool :
      (op : LogicalOp) (b : Bool) (o : Option Value) (es : LogicalExprs C) (v : Value)
      → eval_rest value_of op (apply op (some (bool b)) o) es ≡ some v
      → (c : Bool) × (o ≡ some (bool c))
        × (eval_rest value_of op (some (bool (apply_op op b c))) es ≡ some v)
  apply_bool op b none es v e = absurd (eval_rest-none op es v e)
  apply_bool op b (some (bool c)) es v e = (c, refl, e)
  apply_bool op b (some (bools c)) es v e = absurd (eval_rest-none op es v e)

  pub apply_bools :
      (op : LogicalOp) (bs : List Bool) (o : Option Value) (es : LogicalExprs C) (v : Value)
      → eval_rest value_of op (apply op (some (bools bs)) o) es ≡ some v
      → (c : List Bool) × (o ≡ some (bools c))
        × (eval_rest value_of op (some (bools (zip_with (apply_op op) bs c))) es ≡ some v)
  apply_bools op b none es v e = absurd (eval_rest-none op es v e)
  apply_bools op b (some (bools c)) es v e = (c, refl, e)
  apply_bools op b (some (bool c)) es v e = absurd (eval_rest-none op es v e)

  pub eval_rest-some :
      (op : LogicalOp) (o : Option Value) (es : LogicalExprs C) (v : Value)
      → eval_rest value_of op o es ≡ some v
      → (w : Value) × (o ≡ some w)
  eval_rest-some op none es v e = absurd (eval_rest-none op es v e)
  eval_rest-some op (some w) es v e = (w, refl)

  pub negate_value-some :
      (o : Option Value) (v : Value) → negate_value o ≡ some v → (w : Value) × (o ≡ some w)
  negate_value-some none v e = cc
  negate_value-some (some w) v e = (w, refl)
