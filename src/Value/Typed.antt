-- ===== src/Value/Typed.antt =====
-- Values that keep the type their containers declare, and access to their parts.
use wirefilter.Prelude.{
  ℕ, zero, suc, ◌≡◌, ◌≢◌, refl, subst, Option, none, some, List, [], ◌∷◌, arith, inl, inr,
  Bool-cases, All,
}
use wirefilter.Prelude.Outcome.{Outcome, done, panic, ◌>>=◌}
use wirefilter.Types.{ValueType, into_type}
use wirefilter.Types.Packing.{IsPacked}
use wirefilter.Lex.{FieldIndex}
use wirefilter.Rhs.Bytes.{Bytes, as_bytes}
use wirefilter.Value.{
  LhsValue, Elems, Entries, get_type, bytes_eq, array_get, array_extract, map_get, map_remove,
  map_extract, Access, ok, err, get, extract, unwrap, and_then, get_nested, extract_nested,
  index_type, path_type,
}

-- Every element of an array, and every value of a map, is well typed and has the type that its
-- container declares.
unfoldable mutual
  pub IsTyped : LhsValue → Type 0
  IsTyped (LhsValue.array c es) = IsPacked c × ElemsTyped (into_type c) es
  IsTyped (LhsValue.map c es) = IsPacked c × EntriesTyped (into_type c) es
  IsTyped _ = Unit

  pub ElemsTyped : ValueType → Elems → Type 0
  ElemsTyped t Elems.nil = Unit
  ElemsTyped t (Elems.cons v es) = (get_type v ≡ t) × IsTyped v × ElemsTyped t es

  pub EntriesTyped : ValueType → Entries → Type 0
  EntriesTyped t Entries.no_entries = Unit
  EntriesTyped t (Entries.entry k v es) = (get_type v ≡ t) × IsTyped v × EntriesTyped t es

abbrev pub HasType : ValueType → LhsValue → Type 0
HasType t v = (get_type v ≡ t) × IsTyped v

-- What holds of a value, if there is one.
abbrev pub OfSome : (LhsValue → Type 0) → Option LhsValue → Type 0
OfSome P none = Unit
OfSome P (some v) = P v

-- Code that does not panic, and whose result satisfies a predicate.
abbrev pub Returns {ℓ} : {A : Type ℓ} → (A → Type 0) → Outcome A → Type 0
Returns P (done a) = P a
Returns P panic = ⊥

array_get-HasType :
    (t : ValueType) (es : Elems) (i : ℕ) → ElemsTyped t es → OfSome (HasType t) (array_get es i)
unfolding IsTyped array_get
array_get-HasType t Elems.nil i h = tt
array_get-HasType t (Elems.cons v es) zero h = (h.0, h.1)
array_get-HasType t (Elems.cons v es) (suc i) h = array_get-HasType t es i h.2

map_get-HasType :
    (t : ValueType) (es : Entries) (k : Bytes)
    → EntriesTyped t es
    → OfSome (HasType t) (map_get es k)
unfolding IsTyped map_get
map_get-HasType t Entries.no_entries k h = tt
map_get-HasType t (Entries.entry j v es) k h = elim (Bool-cases (bytes_eq j k)) [
  | inl here ↦ rw here (h.0, h.1)
  | inr there ↦ rw there (map_get-HasType t es k h.2)
]

pub array_extract-get : (es : Elems) (i : ℕ) → array_extract es i ≡ done (array_get es i)
unfolding array_extract array_get
array_extract-get Elems.nil i = ground arith
array_extract-get (Elems.cons v es) zero = ground arith
array_extract-get (Elems.cons v es) (suc i) = ground (arith, array_extract-get es i)

pub map_extract-get : (es : Entries) (k : Bytes) → map_extract es k ≡ map_get es k
unfolding map_extract map_remove map_get
map_extract-get Entries.no_entries k = refl
map_extract-get (Entries.entry j v es) k = ground (arith, map_extract-get es k)

pub extract-get : (v : LhsValue) (i : FieldIndex) → extract v i ≡ done (get v i)
unfolding extract get
extract-get (LhsValue.array c es) (FieldIndex.array_index i) = rw (array_extract-get es i) refl
extract-get (LhsValue.map c es) (FieldIndex.map_key k) = rw (map_extract-get es (as_bytes k)) refl
extract-get v i = refl

-- Taking a nested element out of a value gives what looking it up gives, panics included.
pub extract_nested-get_nested :
    (v : LhsValue) (is : List FieldIndex) → extract_nested v is ≡ get_nested v is
unfolding extract_nested get_nested
extract_nested-get_nested v [] = refl
extract_nested-get_nested v (i ∷ is) =
    rw (extract-get v i) (by_access (get v i) (λ w. extract_nested-get_nested w is))
  where
    by_access :
        (a : Access)
        → ((w : LhsValue) → extract_nested w is ≡ get_nested w is)
        → (unwrap a >>= λ o. and_then o (λ w. extract_nested w is))
          ≡ (unwrap a >>= λ o. and_then o (λ w. get_nested w is))
    by_access (ok none) same = refl
    by_access (ok (some w)) same = same w
    by_access (err _ _) same = refl

some_eq : {t u : ValueType} → ◌≡◌ {A = Option ValueType} (some t) (some u) → t ≡ u
some_eq e = cc

-- Access by an index that the type allows does not fail, and what it finds has the element type.
pub get-HasType :
    (v : LhsValue) (i : FieldIndex) {u : ValueType}
    → IsTyped v
    → index_type (get_type v) i ≡ some u
    → i ≢ FieldIndex.map_each
    → (o : Option LhsValue) × (get v i ≡ ok o) × OfSome (HasType u) o
unfolding get index_type IsTyped
get-HasType (LhsValue.array c es) (FieldIndex.array_index k) {u} h e n = (
  array_get es k,
  refl,
  subst (λ t. OfSome (HasType t) (array_get es k)) (some_eq e)
      (array_get-HasType (into_type c) es k h.1),
)
get-HasType (LhsValue.map c es) (FieldIndex.map_key k) {u} h e n = (
  map_get es (as_bytes k),
  refl,
  subst (λ t. OfSome (HasType t) (map_get es (as_bytes k))) (some_eq e)
      (map_get-HasType (into_type c) es (as_bytes k) h.1),
)
get-HasType v FieldIndex.map_each h e n = absurd (n refl)
get-HasType v i h e n = cc

path_type-cons :
    (t : ValueType) (i : FieldIndex) (is : List FieldIndex) {u : ValueType}
    → path_type t (i ∷ is) ≡ some u
    → (w : ValueType) × (index_type t i ≡ some w) × (path_type w is ≡ some u)
unfolding path_type
path_type-cons t i is {u} e = by_step (index_type t i) refl e
  where
    by_step :
        (o : Option ValueType)
        → index_type t i ≡ o
        → ◌≡◌ {A = Option ValueType} (elim o [ none ↦ none | some w ↦ path_type w is ]) (some u)
        → (w : ValueType) × (index_type t i ≡ some w) × (path_type w is ≡ some u)
    by_step none p q = cc
    by_step (some w) p q = (w, p, q)

-- A path of indexes that the type allows, with no `[*]` in it, leads to no panic and to a value of
-- the path's type, if to any.
pub get_nested-HasType :
    (v : LhsValue) (is : List FieldIndex) {u : ValueType}
    → IsTyped v
    → path_type (get_type v) is ≡ some u
    → All (λ i. i ≢ FieldIndex.map_each) is
    → Returns (OfSome (HasType u)) (get_nested v is)
unfolding get_nested
get_nested-HasType v [] h e n = unfold path_type in (some_eq e, h)
get_nested-HasType v (i ∷ is) {u} h e n =
    let (w, step, onward) = path_type-cons (get_type v) i is e in
    let (o, found, typed) = get-HasType v i h step n.0 in
    rw found (rest o w typed (λ x. get_nested-HasType x is) onward)
  where
    rest :
        (o : Option LhsValue) (x : ValueType)
        → OfSome (HasType x) o
        → ((x : LhsValue)
            → IsTyped x
            → path_type (get_type x) is ≡ some u
            → All (λ j. j ≢ FieldIndex.map_each) is
            → Returns (OfSome (HasType u)) (get_nested x is))
        → path_type x is ≡ some u
        → Returns (OfSome (HasType u)) (and_then o (λ x. get_nested x is))
    rest none _ t ih p = tt
    rest (some x) _ t ih p = ih x t.1 (rw t.0 p) n.1
