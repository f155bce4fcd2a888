-- ===== src/Index.antt =====
-- engine/src/ast/index_expr.rs: the iterator over `[*]` accesses.
pub mod Flatten
pub mod Drain
pub mod Compile
pub mod Parse
use wirefilter.Prelude.{
  ℕ, zero, suc, Option, none, some, List, [], ◌∷◌, ◌++◌, get_elem?, length, leb, if◌then◌else◌,
}
use wirefilter.Prelude.Outcome.{Outcome, done, panic, ◌>>=◌}
use wirefilter.Types.{ValueType}
use wirefilter.Lex.{FieldIndex}
use wirefilter.Rhs.Bytes.{Bytes, as_bytes}
use wirefilter.Value.{
  LhsValue, Elems, Entries, get_type, to_list, into_values, array_extract, map_extract,
}

-- `FieldIndexIterator`. The iterator of `[*]` is the list of the values that it has left.
pub data FieldIndexIterator : Type 0 where
  array_index : Option (Elems × ℕ) → FieldIndexIterator
  map_key : Option (Entries × Bytes) → FieldIndexIterator
  map_each : List LhsValue → FieldIndexIterator

-- `FieldIndexIterator::new`; `none` is the access error, which its callers unwrap.
unfoldable pub new : LhsValue → FieldIndex → Option FieldIndexIterator
new (LhsValue.array c es) (FieldIndex.array_index i) = some (array_index (some (es, i)))
new (LhsValue.map c es) (FieldIndex.map_key k) = some (map_key (some (es, as_bytes k)))
new (LhsValue.array c es) FieldIndex.map_each = some (map_each (to_list es))
new (LhsValue.map c es) FieldIndex.map_each = some (map_each (into_values es))
new _ _ = none

-- `FieldIndexIterator::next`, with what is left of the iterator.
unfoldable pub next : FieldIndexIterator → Outcome (Option LhsValue × FieldIndexIterator)
next (array_index none) = done (none, array_index none)
next (array_index (some (es, i))) = array_extract es i >>= λ o. done (o, array_index none)
next (map_key none) = done (none, map_key none)
next (map_key (some (es, k))) = done (map_extract es k, map_key none)
next (map_each []) = done (none, map_each [])
next (map_each (v ∷ vs)) = done (some v, map_each vs)

-- What one round of the loop in `MapEachIterator::next` does to the stack, innermost first.
pub data Round : Type 0 where
  yielded : LhsValue → List FieldIndexIterator → Round
  continued : List FieldIndexIterator → Round
  finished panicked : Round

abbrev pub push_new : List FieldIndexIterator → Option FieldIndexIterator → Round
push_new stack (some it) = continued (it ∷ stack)
push_new stack none = panicked

abbrev pub index_at : List FieldIndexIterator → LhsValue → Option FieldIndex → Round
index_at stack v (some i) = push_new stack (new v i)
index_at stack v none = yielded v stack

-- A value from the last iterator is returned if the stack is as long as the indexes; otherwise an
-- iterator over the value is pushed. A last iterator with no value left is popped.
abbrev pub on_next :
    List FieldIndex
    → List FieldIndexIterator
    → Outcome (Option LhsValue × FieldIndexIterator)
    → Round
on_next indexes below (done (some v, it)) =
    index_at (it ∷ below) v (get_elem? indexes (suc (length below)))
on_next indexes below (done (none, it)) = continued below
on_next indexes below panic = panicked

-- The stack may not be longer than the indexes, which the source asserts.
unfoldable pub round : List FieldIndex → List FieldIndexIterator → Round
round indexes [] = finished
round indexes (it ∷ below) =
    if leb (suc (length below)) (length indexes) then on_next indexes below (next it) else panicked

pub data Drained : Type 0 where
  drained : List LhsValue → Drained
  panicked out_of_fuel : Drained

-- Calling `next` until it returns `none`, with the values returned so far. A call goes on with the
-- stack that the call before it left, so that the calls together are one sequence of rounds; each
-- takes a unit of fuel.
unfoldable pub drain : ℕ → List FieldIndex → List FieldIndexIterator → List LhsValue → Drained
drain zero indexes stack out = out_of_fuel
drain (suc fuel) indexes stack out = elim (round indexes stack) [
  | yielded v stack' ↦ drain fuel indexes stack' (out ++ v ∷ [])
  | continued stack' ↦ drain fuel indexes stack' out
  | finished ↦ drained out
  | panicked ↦ Drained.panicked
]

abbrev pub start_with : Option FieldIndexIterator → Option (List FieldIndexIterator)
start_with (some it) = some (it ∷ [])
start_with none = none

-- `MapEachIterator::reset`: `none` is the panic on no index or on one that does not fit the value.
unfoldable pub reset : List FieldIndex → LhsValue → Option (List FieldIndexIterator)
reset [] v = none
reset (i ∷ is) v = start_with (new v i)
