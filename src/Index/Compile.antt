-- ===== src/Index/Compile.antt =====
-- engine/src/ast/index_expr.rs: what `IndexExpr::compile_with` runs. The value of the identifier, a
-- field or a function call, is given, `none` where it has none; so is the comparison.
pub mod Paths
use wirefilter.Prelude.{
  ℕ, zero, suc, ◌+◌, Bool, true, false, ◌&&◌, Option, none, some, List, [], ◌∷◌, map, ◌==◌,
  if◌then◌else◌,
}
use wirefilter.Prelude.Outcome.{Outcome, done, panic, ◌>>=◌}
use wirefilter.Lex.{FieldIndex}
use wirefilter.Value.{LhsValue, iter, get_nested, and_then}
use wirefilter.Index.{FieldIndexIterator, reset, drain, Drained, drained}

-- The last index is left out where it is `[*]`.
unfoldable pub simplify_indexes : List FieldIndex → List FieldIndex
simplify_indexes [] = []
simplify_indexes (FieldIndex.map_each ∷ []) = []
simplify_indexes (i ∷ is) = i ∷ simplify_indexes is

abbrev pub is_map_each : FieldIndex → Bool
is_map_each FieldIndex.map_each = true
is_map_each _ = false

abbrev pub one_if : Bool → ℕ
one_if true = 1
one_if false = 0

unfoldable pub map_each_count : List FieldIndex → ℕ
map_each_count [] = 0
map_each_count (i ∷ is) = one_if (is_map_each i) + map_each_count is

-- `indexes.last() == Some(&FieldIndex::MapEach)`
unfoldable pub last_is_map_each : List FieldIndex → Bool
last_is_map_each [] = false
last_is_map_each (i ∷ []) = is_map_each i
last_is_map_each (i ∷ j ∷ is) = last_is_map_each (j ∷ is)

abbrev pub map_or : {A : Type 0} → A → (LhsValue → A) → Option LhsValue → A
map_or a f none = a
map_or a f (some v) = f v

-- Without an index there is nothing to look up.
unfoldable pub compile_one_with :
    Bool → (LhsValue → Bool) → List FieldIndex → Option LhsValue → Outcome Bool
compile_one_with default comp [] value = done (map_or default comp value)
compile_one_with default comp (i ∷ is) value =
    and_then value (λ v. get_nested v (i ∷ is)) >>= λ o. done (map_or default comp o)

-- `val.iter().unwrap()`, with the comparison of each item.
abbrev pub compare_each : (LhsValue → Bool) → Option (List LhsValue) → Outcome (List Bool)
compare_each comp (some vs) = done (map comp vs)
compare_each comp none = panic

abbrev pub compare_items : (LhsValue → Bool) → Option LhsValue → Outcome (List Bool)
compare_items comp none = done []
compare_items comp (some v) = compare_each comp (iter v)

unfoldable pub compile_vec_with :
    (LhsValue → Bool) → List FieldIndex → Option LhsValue → Outcome (List Bool)
compile_vec_with comp indexes value =
    and_then value (λ v. get_nested v indexes) >>= compare_items comp

-- A run that has no more fuel has not returned.
pub data Ran : Type 0 where
  one : Bool → Ran
  vec : List Bool → Ran
  panicked out_of_fuel : Ran

abbrev pub compare_drained : (LhsValue → Bool) → Drained → Ran
compare_drained comp (drained vs) = vec (map comp vs)
compare_drained comp Drained.panicked = Ran.panicked
compare_drained comp Drained.out_of_fuel = Ran.out_of_fuel

abbrev pub drain_from :
    ℕ → (LhsValue → Bool) → List FieldIndex → Option (List FieldIndexIterator) → Ran
drain_from fuel comp indexes none = Ran.panicked
drain_from fuel comp indexes (some stack) = compare_drained comp (drain fuel indexes stack [])

unfoldable pub compile_iter_with : ℕ → (LhsValue → Bool) → List FieldIndex → Option LhsValue → Ran
compile_iter_with fuel comp indexes none = vec []
compile_iter_with fuel comp indexes (some v) = drain_from fuel comp indexes (reset indexes v)

abbrev pub ran_one : Outcome Bool → Ran
ran_one (done b) = one b
ran_one panic = Ran.panicked

abbrev pub ran_vec : Outcome (List Bool) → Ran
ran_vec (done bs) = vec bs
ran_vec panic = Ran.panicked

unfoldable pub compile_with : ℕ → Bool → (LhsValue → Bool) → List FieldIndex → Option LhsValue → Ran
compile_with fuel default comp indexes value =
    if map_each_count indexes == 0
    then ran_one (compile_one_with default comp (simplify_indexes indexes) value)
    else (if map_each_count indexes == 1 && last_is_map_each indexes
        then ran_vec (compile_vec_with comp (simplify_indexes indexes) value)
        else compile_iter_with fuel comp indexes value)
