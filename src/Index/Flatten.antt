-- ===== src/Index/Flatten.antt =====
-- engine/src/ast/index_expr.rs: the values that indexes reach, by recursion on the indexes, and one
-- round of the iterator.
use wirefilter.Prelude.{
  ℕ, zero, suc, ◌≡◌, refl, sym, ap, Option, none, some, List, [], ◌∷◌, ◌++◌, arith, get_elem?,
  length, drop, leb, true, ◌<◌,
}
use wirefilter.Prelude.Outcome.{done}
use wirefilter.Lex.{FieldIndex}
use wirefilter.Rhs.Bytes.{as_bytes}
use wirefilter.Value.{LhsValue, to_list, into_values, array_get, map_get}
use wirefilter.Value.Typed.{array_extract-get, map_extract-get}
use wirefilter.Index.{
  FieldIndexIterator, array_index, map_key, map_each, new, next, continued, index_at, round,
}

abbrev pub option_list : Option LhsValue → List LhsValue
option_list none = []
option_list (some v) = v ∷ []

-- The parts of a value that an index reaches; `none` if the index does not fit the value.
abbrev pub children : LhsValue → FieldIndex → Option (List LhsValue)
children (LhsValue.array c es) (FieldIndex.array_index i) = some (option_list (array_get es i))
children (LhsValue.map c es) (FieldIndex.map_key k) = some (option_list (map_get es (as_bytes k)))
children (LhsValue.array c es) FieldIndex.map_each = some (to_list es)
children (LhsValue.map c es) FieldIndex.map_each = some (into_values es)
children _ _ = none

abbrev pub append_both : Option (List LhsValue) → Option (List LhsValue) → Option (List LhsValue)
append_both (some xs) (some ys) = some (xs ++ ys)
append_both _ _ = none

abbrev pub flat_each : (LhsValue → Option (List LhsValue)) → List LhsValue → Option (List LhsValue)
flat_each f [] = some []
flat_each f (v ∷ vs) = append_both (f v) (flat_each f vs)

abbrev pub or_none :
    (List LhsValue → Option (List LhsValue)) → Option (List LhsValue) → Option (List LhsValue)
or_none f none = none
or_none f (some vs) = f vs

-- The values that a list of indexes reaches, by recursion on the list and with no iterator; `none`
-- if an index does not fit the value that it meets.
unfoldable pub flatten : List FieldIndex → LhsValue → Option (List LhsValue)
flatten [] v = some (v ∷ [])
flatten (i ∷ is) v = or_none (flat_each (flatten is)) (children v i)

-- The values that an iterator has left.
abbrev pub left : FieldIndexIterator → List LhsValue
left (array_index none) = []
left (array_index (some (es, i))) = option_list (array_get es i)
left (map_key none) = []
left (map_key (some (es, k))) = option_list (map_get es k)
left (map_each vs) = vs

abbrev NewOf : LhsValue → FieldIndex → Type 0
NewOf v i =
    (vs : List LhsValue)
    → children v i ≡ some vs
    → (it : FieldIndexIterator) × (new v i ≡ some it) × (left it ≡ vs)

-- A new iterator has left what its index reaches.
pub new-children : (v : LhsValue) (i : FieldIndex) → NewOf v i
unfolding new
new-children (LhsValue.array c es) (FieldIndex.array_index i) vs e =
    (array_index (some (es, i)), refl, cc)
new-children (LhsValue.map c es) (FieldIndex.map_key k) vs e =
    (map_key (some (es, as_bytes k)), refl, cc)
new-children (LhsValue.array c es) FieldIndex.map_each vs e = (map_each (to_list es), refl, cc)
new-children (LhsValue.map c es) FieldIndex.map_each vs e = (map_each (into_values es), refl, cc)
new-children _ _ vs e = cc

option_nil : (o : Option LhsValue) → option_list o ≡ [] → o ≡ none
option_nil none e = refl
option_nil (some v) e = cc

option_cons :
    (o : Option LhsValue) (v : LhsValue) (vs : List LhsValue)
    → option_list o ≡ v ∷ vs
    → (o ≡ some v) × (vs ≡ [])
option_cons none v vs e = cc
option_cons (some w) v vs e = (cc, cc)

-- `next` takes the values left from the front.
pub next-left-nil :
    (it : FieldIndexIterator)
    → left it ≡ []
    → (it' : FieldIndexIterator) × (next it ≡ done (none, it'))
unfolding next
next-left-nil (array_index none) e = (_, refl)
next-left-nil (array_index (some (es, i))) e = (
  array_index none,
  rw (array_extract-get es i) (ap (λ o. done (o, array_index none)) (option_nil _ e)),
)
next-left-nil (map_key none) e = (_, refl)
next-left-nil (map_key (some (es, k))) e =
    (map_key none, rw (map_extract-get es k) (ap (λ o. done (o, map_key none)) (option_nil _ e)))
next-left-nil (map_each []) e = (_, refl)
next-left-nil (map_each (v ∷ vs)) e = cc

pub next-left-cons :
    (it : FieldIndexIterator) (v : LhsValue) (vs : List LhsValue)
    → left it ≡ v ∷ vs
    → (it' : FieldIndexIterator) × (next it ≡ done (some v, it')) × (left it' ≡ vs)
unfolding next
next-left-cons (array_index none) v vs e = cc
next-left-cons (array_index (some (es, i))) v vs e =
    let (p, q) = option_cons (array_get es i) v vs e in
    (array_index none, rw (array_extract-get es i, p) refl, sym q)
next-left-cons (map_key none) v vs e = cc
next-left-cons (map_key (some (es, k))) v vs e =
    let (p, q) = option_cons (map_get es k) v vs e in
    (map_key none, rw (map_extract-get es k, p) refl, sym q)
next-left-cons (map_each []) v vs e = cc
next-left-cons (map_each (w ∷ ws)) v vs e = (map_each ws, cc, cc)

pub drop-nil : (n : ℕ) (xs : List FieldIndex) → drop n xs ≡ [] → get_elem? xs n ≡ none
drop-nil zero [] e = refl
drop-nil zero (x ∷ xs) e = cc
drop-nil (suc n) [] e = refl
drop-nil (suc n) (x ∷ xs) e = drop-nil n xs e

pub drop-cons :
    (n : ℕ) (xs : List FieldIndex) (y : FieldIndex) (ys : List FieldIndex)
    → drop n xs ≡ y ∷ ys
    → (get_elem? xs n ≡ some y) × (drop (suc n) xs ≡ ys)
drop-cons zero [] y ys e = cc
drop-cons zero (x ∷ xs) y ys e = (cc, cc)
drop-cons (suc n) [] y ys e = cc
drop-cons (suc n) (x ∷ xs) y ys e = drop-cons n xs y ys e

pub append_both-some :
    (a b : Option (List LhsValue)) (out : List LhsValue)
    → append_both a b ≡ some out
    → (xs : List LhsValue) × (ys : List LhsValue) × (a ≡ some xs) × (b ≡ some ys) × (out ≡ xs ++ ys)
append_both-some (some xs) (some ys) out e = (xs, ys, refl, refl, cc)
append_both-some (some xs) none out e = cc
append_both-some none b out e = cc

pub or_none-some :
    (f : List LhsValue → Option (List LhsValue)) (o : Option (List LhsValue)) (out : List LhsValue)
    → or_none f o ≡ some out
    → (vs : List LhsValue) × (o ≡ some vs) × (f vs ≡ some out)
or_none-some f none out e = cc
or_none-some f (some vs) out e = (vs, refl, e)

within :
    (indexes : List FieldIndex) (below : List FieldIndexIterator)
    → length below < length indexes
    → leb (suc (length below)) (length indexes) ≡ true
within indexes below h = ground arith

pub drop-lt :
    (n : ℕ) (xs : List FieldIndex) (y : FieldIndex) (ys : List FieldIndex)
    → drop n xs ≡ y ∷ ys
    → n < length xs
drop-lt zero [] y ys e = cc
drop-lt zero (x ∷ xs) y ys e = omega arith
drop-lt (suc n) [] y ys e = cc
drop-lt (suc n) (x ∷ xs) y ys e = omega (arith, drop-lt n xs y ys e)

pub round-some :
    (indexes : List FieldIndex) (it : FieldIndexIterator) (below : List FieldIndexIterator)
    (v : LhsValue) (it' : FieldIndexIterator)
    → length below < length indexes
    → next it ≡ done (some v, it')
    → round indexes (it ∷ below) ≡ index_at (it' ∷ below) v (get_elem? indexes (suc (length below)))
unfolding round
round-some indexes it below v it' h e = rw (within indexes below h, e)

pub round-none :
    (indexes : List FieldIndex) (it : FieldIndexIterator) (below : List FieldIndexIterator)
    (it' : FieldIndexIterator)
    → length below < length indexes
    → next it ≡ done (none, it')
    → round indexes (it ∷ below) ≡ continued below
unfolding round
round-none indexes it below it' h e = rw (within indexes below h, e)
