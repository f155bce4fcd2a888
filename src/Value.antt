-- ===== src/Value.antt =====
-- engine/src/types.rs and engine/src/lhs_types: the values that filters run on. Whether data is
-- owned or borrowed is not modelled: a value is its contents. A map is the list of its entries in
-- the order of the keys, in which a `BTreeMap` is walked.
pub mod Typed
use wirefilter.Prelude.{
  ℕ, zero, suc, Bool, true, false, ◌&&◌, Option, none, some, List, [], ◌∷◌, leb, ◌==◌,
  if◌then◌else◌,
}
use wirefilter.Prelude.Int.{ℤ}
use wirefilter.Prelude.Outcome.{Outcome, done, panic, ◌>>=◌}
use wirefilter.Types.{ValueType, CompoundType, into_type}
use wirefilter.Lex.{FieldIndex, Text}
use wirefilter.Rhs.Bytes.{Bytes, as_bytes}

-- `std::net::IpAddr`, an address as its number.
pub data IpAddr : Type 0 where
  v4 v6 : ℕ → IpAddr

mutual
  pub data LhsValue : Type 0 where
    bool : Bool → LhsValue
    int : ℤ → LhsValue
    ip : IpAddr → LhsValue
    bytes : Bytes → LhsValue
    array : CompoundType → Elems → LhsValue
    map : CompoundType → Entries → LhsValue

  pub data Elems : Type 0 where
    nil : Elems
    cons : LhsValue → Elems → Elems

  pub data Entries : Type 0 where
    no_entries : Entries
    entry : Bytes → LhsValue → Entries → Entries

abbrev pub get_type : LhsValue → ValueType
get_type (LhsValue.bool _) = ValueType.bool
get_type (LhsValue.int _) = ValueType.int
get_type (LhsValue.ip _) = ValueType.ip
get_type (LhsValue.bytes _) = ValueType.bytes
get_type (LhsValue.array c _) = ValueType.array c
get_type (LhsValue.map c _) = ValueType.map c

abbrev pub to_list : Elems → List LhsValue
to_list Elems.nil = []
to_list (Elems.cons v es) = v ∷ to_list es

abbrev pub of_list : List LhsValue → Elems
of_list [] = Elems.nil
of_list (v ∷ vs) = Elems.cons v (of_list vs)

-- `Map::into_values`
abbrev pub into_values : Entries → List LhsValue
into_values Entries.no_entries = []
into_values (Entries.entry k v es) = v ∷ into_values es

abbrev pub bytes_eq : Bytes → Bytes → Bool
bytes_eq [] [] = true
bytes_eq (x ∷ xs) (y ∷ ys) = x == y && bytes_eq xs ys
bytes_eq _ _ = false

-- `Array::get`
unfoldable pub array_get : Elems → ℕ → Option LhsValue
array_get Elems.nil i = none
array_get (Elems.cons v es) zero = some v
array_get (Elems.cons v es) (suc i) = array_get es i

abbrev pub array_len : Elems → ℕ
array_len Elems.nil = 0
array_len (Elems.cons v es) = suc (array_len es)

-- What `swap_remove` takes out of the vector, and `get_unchecked` out of a slice: out of bounds the one
-- panics and the other is undefined.
abbrev pub swap_remove : Elems → ℕ → Outcome LhsValue
swap_remove Elems.nil i = panic
swap_remove (Elems.cons v es) zero = done v
swap_remove (Elems.cons v es) (suc i) = swap_remove es i

-- `Array::extract`: past the end there is nothing; the element is taken out of the array otherwise.
unfoldable pub array_extract : Elems → ℕ → Outcome (Option LhsValue)
array_extract es i =
    if leb (array_len es) i then done none else swap_remove es i >>= λ v. done (some v)

-- `Map::get`
unfoldable pub map_get : Entries → Bytes → Option LhsValue
map_get Entries.no_entries key = none
map_get (Entries.entry k v es) key = if bytes_eq k key then some v else map_get es key

-- `BTreeMap::remove`, the value and what is left.
unfoldable pub map_remove : Entries → Bytes → Option LhsValue × Entries
map_remove Entries.no_entries key = (none, Entries.no_entries)
map_remove (Entries.entry k v es) key =
    let (found, left) = map_remove es key in
    if bytes_eq k key then (some v, es) else (found, Entries.entry k v left)

-- `Map::extract`
unfoldable pub map_extract : Entries → Bytes → Option LhsValue
map_extract es key = (map_remove es key).0

-- `Result<Option<LhsValue>, IndexAccessError>`
pub data Access : Type 0 where
  ok : Option LhsValue → Access
  err : FieldIndex → ValueType → Access

-- `LhsValue::get`
unfoldable pub get : LhsValue → FieldIndex → Access
get (LhsValue.array c es) (FieldIndex.array_index i) = ok (array_get es i)
get (LhsValue.map c es) (FieldIndex.map_key k) = ok (map_get es (as_bytes k))
get v i = err i (get_type v)

-- `LhsValue::extract`
unfoldable pub extract : LhsValue → FieldIndex → Outcome Access
unfolding array_extract map_extract
extract (LhsValue.array c es) (FieldIndex.array_index i) = array_extract es i >>= λ o. done (ok o)
extract (LhsValue.map c es) (FieldIndex.map_key k) = done (ok (map_extract es (as_bytes k)))
extract v i = done (err i (get_type v))

-- `unwrap` on an access.
abbrev pub unwrap : Access → Outcome (Option LhsValue)
unwrap (ok o) = done o
unwrap (err _ _) = panic

-- One round of `try_fold`.
abbrev pub and_then :
    Option LhsValue → (LhsValue → Outcome (Option LhsValue)) → Outcome (Option LhsValue)
and_then none f = done none
and_then (some v) f = f v

unfoldable pub get_nested : LhsValue → List FieldIndex → Outcome (Option LhsValue)
get_nested v [] = done (some v)
get_nested v (i ∷ is) = unwrap (get v i) >>= λ o. and_then o (λ w. get_nested w is)

unfoldable pub extract_nested : LhsValue → List FieldIndex → Outcome (Option LhsValue)
extract_nested v [] = done (some v)
extract_nested v (i ∷ is) = extract v i >>= unwrap >>= λ o. and_then o (λ w. extract_nested w is)

-- `LhsValue::iter`, and `into_iter` where it is not `none`.
abbrev pub iter : LhsValue → Option (List LhsValue)
iter (LhsValue.array c es) = some (to_list es)
iter (LhsValue.map c es) = some (into_values es)
iter _ = none

-- The type that an index leads to, a round of the loop in `IndexExpr::get_type`.
unfoldable pub index_type : ValueType → FieldIndex → Option ValueType
index_type (ValueType.array c) (FieldIndex.array_index _) = some (into_type c)
index_type (ValueType.array c) FieldIndex.map_each = some (into_type c)
index_type (ValueType.map c) (FieldIndex.map_key _) = some (into_type c)
index_type (ValueType.map c) FieldIndex.map_each = some (into_type c)
index_type _ _ = none

unfoldable pub path_type : ValueType → List FieldIndex → Option ValueType
path_type t [] = some t
path_type t (i ∷ is) = elim (index_type t i) [ none ↦ none | some u ↦ path_type u is ]
