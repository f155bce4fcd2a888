-- ===== src/Tests/Paths.antt =====
-- Nested values, indexes and logical expressions.
use wirefilter.Prelude.{
  ℕ, ◌+◌, ◌<◌, ◌≡◌, refl, Bool, true, false, some, none, List, [], ◌∷◌, arith, ◌↔◌, ◌==◌,
}
use wirefilter.Prelude.Int.{pos}
use wirefilter.Prelude.Outcome.{done}
use wirefilter.Types.{
  PrimitiveType, Layer, CompoundType, ValueType, new, push, pop, from_type, into_type,
}
use wirefilter.Types.Packing.{
  IsPacked, push-IsPacked, pop-push, from_type-into_type, into_type-from_type, from_type-panics,
  depth,
}
use wirefilter.Lex.{FieldIndex}
use wirefilter.Value.{
  LhsValue, Elems, get_type, array_get, index_type, get_nested, extract_nested, path_type,
}
use wirefilter.Value.Typed.{
  IsTyped, get_nested-HasType, extract_nested-get_nested, Returns, OfSome, HasType,
}
use wirefilter.Index.{FieldIndexIterator, reset, drain, drained}
use wirefilter.Index.Flatten.{flatten}
use wirefilter.Index.Drain.{drain-flatten}
use wirefilter.Index.Compile.{compile_with}
use wirefilter.Index.Compile.Paths.{compile_with-flatten, result_of}
use wirefilter.Logical.{LogicalOp, LogicalExpr, CompiledExpr, one, compile, nil, cons}
use wirefilter.Logical.Eval.{Value, bool, eval, runs}
use wirefilter.Logical.Sound.{compile-eval}

abbrev one_array : CompoundType
one_array = record { layers = 0; len = 1; primitive = PrimitiveType.int }

abbrev array_of_map : CompoundType
array_of_map = record { layers = 2; len = 2; primitive = PrimitiveType.int }

abbrev bare : CompoundType
bare = new PrimitiveType.int

bare-IsPacked : IsPacked bare
bare-IsPacked = record { len_le = omega arith; layers_lt = omega arith }

one_array-IsPacked : IsPacked one_array
one_array-IsPacked = record { len_le = omega arith; layers_lt = omega arith }

array_of_map-IsPacked : IsPacked array_of_map
array_of_map-IsPacked = record { len_le = omega arith; layers_lt = omega arith }

push-map :
    push one_array Layer.map ≡ some (record { layers = 1; len = 2; primitive = PrimitiveType.int })
unfolding push
push-map = refl

push-IsPacked_example : IsPacked (record { layers = 1; len = 2; primitive = PrimitiveType.int })
push-IsPacked_example = push-IsPacked one_array _ Layer.map one_array-IsPacked push-map

pop-push_example :
    pop (record { layers = 1; len = 2; primitive = PrimitiveType.int })
    ≡ (one_array, some Layer.map)
pop-push_example = pop-push one_array _ Layer.map one_array-IsPacked push-map

from_type-into_type_example : from_type (into_type array_of_map) ≡ some array_of_map
from_type-into_type_example = from_type-into_type array_of_map array_of_map-IsPacked

flattened :
    from_type (ValueType.array one_array)
    ≡ some (record { layers = 0; len = 2; primitive = PrimitiveType.int })
unfolding from_type
flattened = refl

into_type-from_type_example :
    (into_type (record { layers = 0; len = 2; primitive = PrimitiveType.int })
      ≡ ValueType.array one_array)
    × IsPacked (record { layers = 0; len = 2; primitive = PrimitiveType.int })
into_type-from_type_example =
    into_type-from_type (ValueType.array one_array) _ one_array-IsPacked flattened

from_type-panics_example :
    (from_type (ValueType.array one_array) ≡ none) ↔ (32 < depth (ValueType.array one_array))
from_type-panics_example = from_type-panics (ValueType.array one_array)

abbrev number : ℕ → LhsValue
number n = LhsValue.int (pos n)

abbrev row : ℕ → ℕ → LhsValue
row a b = LhsValue.array bare (Elems.cons (number a) (Elems.cons (number b) Elems.nil))

-- Two rows of two numbers.
abbrev table : LhsValue
table = LhsValue.array one_array (Elems.cons (row 1 2) (Elems.cons (row 3 4) Elems.nil))

abbrev each_second : List FieldIndex
each_second = FieldIndex.map_each ∷ FieldIndex.array_index 1 ∷ []

flatten-table : flatten each_second table ≡ some (number 2 ∷ number 4 ∷ [])
unfolding flatten array_get
flatten-table = refl

drain-flatten_example :
    (stack : List FieldIndexIterator) × (reset each_second table ≡ some stack)
    × (rounds : ℕ) × ((extra : ℕ)
        → drain (rounds + extra) each_second stack [] ≡ drained (number 2 ∷ number 4 ∷ []))
drain-flatten_example =
    drain-flatten each_second table (number 2 ∷ number 4 ∷ []) (λ e. cc) flatten-table

abbrev is_four : LhsValue → Bool
is_four (LhsValue.int (pos n)) = n == 4
is_four _ = false

compile_with-flatten_example :
    (rounds : ℕ) × ((extra : ℕ)
      → compile_with (rounds + extra) false is_four each_second (some table)
        ≡ result_of false is_four each_second (number 2 ∷ number 4 ∷ []))
compile_with-flatten_example =
    compile_with-flatten false is_four each_second table (number 2 ∷ number 4 ∷ []) flatten-table

abbrev second_of_first : List FieldIndex
second_of_first = FieldIndex.array_index 0 ∷ FieldIndex.array_index 1 ∷ []

table-IsTyped : IsTyped table
unfolding IsTyped into_type pop
table-IsTyped = (
  one_array-IsPacked,
  (
    refl,
    (bare-IsPacked, (refl, tt, (refl, tt, tt))),
    (refl, (bare-IsPacked, (refl, tt, (refl, tt, tt))), tt),
  ),
)

second_type : path_type (get_type table) second_of_first ≡ some ValueType.int
unfolding path_type index_type into_type pop
second_type = refl

get_nested-HasType_example :
    Returns (OfSome (HasType ValueType.int)) (get_nested table second_of_first)
get_nested-HasType_example =
    get_nested-HasType table second_of_first table-IsTyped second_type (λ e. cc, (λ e. cc, tt))

extract_nested-get_nested_example :
    extract_nested table second_of_first ≡ get_nested table second_of_first
extract_nested-get_nested_example = extract_nested-get_nested table second_of_first

-- `a and not b`, where the context gives the two values.
abbrev reads : Bool → CompiledExpr (Bool × Bool)
reads true = one (λ x. done x.0)
reads false = one (λ x. done x.1)

abbrev value_in : Bool → Value
value_in true = bool true
value_in false = bool false

abbrev a_and_not_b : LogicalExpr Bool
a_and_not_b = LogicalExpr.combining LogicalOp.and (
    cons (LogicalExpr.comparison true)
      (cons (LogicalExpr.unary_not (LogicalExpr.comparison false)) nil))

reads-value_in : (c : Bool) → runs (reads c) (true, false) ≡ done (value_in c)
reads-value_in true = refl
reads-value_in false = refl

a_and_not_b-holds : eval value_in a_and_not_b ≡ some (bool true)
unfolding eval
a_and_not_b-holds = refl

compile-eval_example :
    (ce : CompiledExpr (Bool × Bool)) × (compile reads a_and_not_b ≡ done ce)
    × (runs ce (true, false) ≡ done (bool true))
compile-eval_example =
    compile-eval reads value_in (true, false) reads-value_in a_and_not_b (bool true)
      a_and_not_b-holds
