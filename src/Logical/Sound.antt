-- ===== src/Logical/Sound.antt =====
-- engine/src/ast/logical_expr.rs: the value of an expression and what its compiled form returns.
use wirefilter.Prelude.{◌≡◌, refl, ap, ◌∙◌, Bool, some, List, [], ◌∷◌}
use wirefilter.Prelude.Outcome.{Outcome, done}
use wirefilter.Logical.{
  LogicalOp, LogicalExpr, LogicalExprs, CompiledExpr, one, vec, apply_op, vec_items, run_one,
  run_vec, all_ones, all_vecs, combine, negate, any_items, xor_items, all_items, compile,
  compile_all, nil, cons,
}
use wirefilter.Logical.Eval.{
  Value, bool, bools, zip_with, eval, eval_rest, combine_vec-zip_with, runs, run_from,
  run_from-cons, run_one-from, runs_bool, runs_bools, negate-runs, apply_bool, apply_bools,
  eval_rest-some, negate_value-some,
}

module _ {C X : Type 0} (cmp : C → CompiledExpr X) (value_of : C → Value) (x : X) where
  -- Each comparison returns its value.
  abbrev pub Agrees : Type 0
  Agrees = (c : C) → runs (cmp c) x ≡ done (value_of c)

  abbrev pub CompiledTo : LogicalExpr C → Value → Type 0
  CompiledTo e v = (ce : CompiledExpr X) × (compile cmp e ≡ done ce) × (runs ce x ≡ done v)

  abbrev pub OnesTo : LogicalOp → LogicalExprs C → Bool → Value → Type 0
  OnesTo op es b v =
      (cs : List (CompiledExpr X)) × (gs : List (X → Outcome Bool)) × (b' : Bool) × (compile_all cmp
          es
        ≡ done cs)
      × (all_ones cs ≡ done gs)
      × (run_from op gs x b ≡ done b')
      × (bool b' ≡ v)

  abbrev pub VecsTo : LogicalOp → LogicalExprs C → List Bool → Value → Type 0
  VecsTo op es bs v =
      (cs : List (CompiledExpr X)) × (gs : List (X → Outcome (List Bool))) × (bs' : List Bool)
      × (compile_all cmp es ≡ done cs)
      × (all_vecs cs ≡ done gs)
      × (vec_items (apply_op op) gs x bs ≡ done bs')
      × (bools bs' ≡ v)

  ones_nil : (op : LogicalOp) (b : Bool) (v : Value) → bool b ≡ v → OnesTo op nil b v
  unfolding compile all_ones any_items xor_items all_items
  ones_nil LogicalOp.and Bool.true v e = ([], [], Bool.true, refl, refl, refl, e)
  ones_nil LogicalOp.and Bool.false v e = ([], [], Bool.false, refl, refl, refl, e)
  ones_nil LogicalOp.or Bool.true v e = ([], [], Bool.true, refl, refl, refl, e)
  ones_nil LogicalOp.or Bool.false v e = ([], [], Bool.false, refl, refl, refl, e)
  ones_nil LogicalOp.xor b v e = ([], [], b, refl, refl, refl, e)

  ones_cons :
      (op : LogicalOp) (e : LogicalExpr C) (es : LogicalExprs C) (b c : Bool) (v : Value)
      → CompiledTo e (bool c)
      → OnesTo op es (apply_op op b c) v
      → OnesTo op (cons e es) b v
  unfolding compile all_ones
  ones_cons op e es b c v (ce, comp, r) (cs, gs, b', all, ones, run, is_v) =
      let (g, is_one, gx) = runs_bool ce x c r in
      (
        ce ∷ cs,
        g ∷ gs,
        b',
        rw (comp, all),
        rw (is_one, ones),
        run_from-cons op g gs x b c gx ∙ run,
        is_v,
      )

  vecs_cons :
      (op : LogicalOp) (e : LogicalExpr C) (es : LogicalExprs C) (bs c : List Bool) (v : Value)
      → CompiledTo e (bools c)
      → VecsTo op es (zip_with (apply_op op) bs c) v
      → VecsTo op (cons e es) bs v
  unfolding compile all_vecs vec_items
  vecs_cons op e es bs c v (ce, comp, r) (cs, gs, bs', all, vecs, run, is_v) =
      let (g, is_vec, gx) = runs_bools ce x c r in
      (
        ce ∷ cs,
        g ∷ gs,
        bs',
        rw (comp, all),
        rw (is_vec, vecs),
        rw (vec_items, gx, combine_vec-zip_with (apply_op op) bs c) run,
        is_v,
      )

  combined :
      (op : LogicalOp) (e : LogicalExpr C) (es : LogicalExprs C) (w v : Value)
      → CompiledTo e w
      → ((b : Bool) → bool b ≡ w → OnesTo op es b v)
      → ((bs : List Bool) → bools bs ≡ w → VecsTo op es bs v)
      → CompiledTo (LogicalExpr.combining op (cons e es)) v
  unfolding compile combine run_vec
  combined op e es (bool b) v (ce, comp, r) f g =
      let (h, is_one, hx) = runs_bool ce x b r in
      let (cs, gs, b', all, ones, run, is_v) = f b refl in
      (
        one (run_one op h gs),
        rw (comp, all, is_one, combine, ones),
        rw (run_one-from op h gs x b hx ∙ run) (ap done is_v),
      )
  combined op e es (bools bs) v (ce, comp, r) f g =
      let (h, is_vec, hx) = runs_bools ce x bs r in
      let (cs, gs, bs', all, vecs, run, is_v) = g bs refl in
      (
        vec (run_vec op h gs),
        rw (comp, all, is_vec, combine, vecs),
        rw (run_vec, hx, run) (ap done is_v),
      )

  mutual
    unfolding eval compile all_vecs vec_items

    compile_runs :
        Agrees → (e : LogicalExpr C) (v : Value) → eval value_of e ≡ some v → CompiledTo e v
    compile_runs h (LogicalExpr.combining op nil) v p = cc
    compile_runs h (LogicalExpr.combining op (cons e es)) v p =
        let (w, is_w) = eval_rest-some value_of op (eval value_of e) es v p in
        let q : eval_rest value_of op (some w) es ≡ some v = rw is_w at p in
        combined op e es w v (compile_runs h e w is_w) (λ b is_b. ones_run h op es b v (rw is_b q))
          (λ bs is_bs. vecs_run h op es bs v (rw is_bs q))
    compile_runs h (LogicalExpr.comparison c) v p =
        let q : value_of c ≡ v = cc in (cmp c, refl, h c ∙ ap done q)
    compile_runs h (LogicalExpr.parenthesized e) v p = compile_runs h e v p
    compile_runs h (LogicalExpr.unary_not e) v p =
        let (w, is_w) = negate_value-some value_of (eval value_of e) v p in
        let (ce, comp, r) = compile_runs h e w is_w in
        (negate ce, rw comp, negate-runs ce x w v r (rw is_w at p))

    ones_run :
        Agrees
        → (op : LogicalOp) (es : LogicalExprs C) (b : Bool) (v : Value)
        → eval_rest value_of op (some (bool b)) es ≡ some v
        → OnesTo op es b v
    ones_run h op nil b v p = ones_nil op b v cc
    ones_run h op (cons e es) b v p =
        let (c, is_c, q) = apply_bool value_of op b (eval value_of e) es v p in
        ones_cons op e es b c v (compile_runs h e (bool c) is_c)
          (ones_run h op es (apply_op op b c) v q)

    vecs_run :
        Agrees
        → (op : LogicalOp) (es : LogicalExprs C) (bs : List Bool) (v : Value)
        → eval_rest value_of op (some (bools bs)) es ≡ some v
        → VecsTo op es bs v
    vecs_run h op nil bs v p = ([], [], bs, refl, refl, refl, cc)
    vecs_run h op (cons e es) bs v p =
        let (c, is_c, q) = apply_bools value_of op bs (eval value_of e) es v p in
        vecs_cons op e es bs c v (compile_runs h e (bools c) is_c)
          (vecs_run h op es (zip_with (apply_op op) bs c) v q)

  -- If each comparison returns its value and the expression has a value, then it compiles with no panic,
  -- and running it, with the short cuts of `and` and `or` and the shortened vectors, returns that value.
  pub compile-eval :
      ((c : C) → runs (cmp c) x ≡ done (value_of c))
      → (e : LogicalExpr C) (v : Value) → eval value_of e ≡ some v
      → (ce : CompiledExpr X) × (compile cmp e ≡ done ce) × (runs ce x ≡ done v)
  compile-eval h e v p = compile_runs h e v p
