-- ===== src/Index/Parse/Typed.antt =====
-- engine/src/ast/index_expr.rs: the indexes that the lexer accepts.
use wirefilter.Prelude.{
  ℕ, zero, suc, ◌≤◌, ◌<◌, ◌≡◌, refl, ◌∙◌, some, List, [], ◌∷◌, ◌++◌, inl, inr, arith, length, ltb,
  ◌^◌, Bool-cases,
}
use wirefilter.Prelude.Outcome.{done}
use wirefilter.Types.{ValueType}
use wirefilter.Lex.{Text, codes, FieldIndex, LexResult, ok, err, expect, skip_space}
use wirefilter.Lex.Run.{Run, lift, Ends, Safe, bind-Ends, bind-Safe, lift-Safe}
use wirefilter.Lex.Lengths.{
  LexResult-cases, Option-cases, expect-Shorter, length-skip_space, Within, expect-Within,
  lift-Ends,
}
use wirefilter.Rhs.Int.{lex_i64}
use wirefilter.Rhs.Int.Lengths.{lex_i64-Within}
use wirefilter.Rhs.Bytes.{BytesExpr, lex_bytes}
use wirefilter.Rhs.Bytes.Lengths.{lex_bytes-Within}
use wirefilter.Rhs.Utf8.{from_utf8}
use wirefilter.Prelude.Int.{ℤ, pos, negsuc}
use wirefilter.Value.{index_type, path_type}
use wirefilter.Index.Parse.{
  int_index, bytes_index, lex_field_index, lex_closed_index, next_type, lex_indexes, lex_with,
  get_type,
}

path_type-append :
    (t : ValueType) (is : List FieldIndex) (i : FieldIndex) {u : ValueType}
    → path_type t is ≡ some u
    → path_type t (is ++ i ∷ []) ≡ path_type u (i ∷ [])
unfolding path_type
path_type-append t [] i {u} e = let p : t ≡ u = cc in rw p refl
path_type-append t (j ∷ is) i {u} e = elim (Option-cases (index_type t j)) [
  | inl (w, p) ↦ rw (path_type, p) (path_type-append w is i (rw (p, path_type) at e))
  | inr p ↦ cc (rw (p, path_type) at e)
]

path_type-single :
    (t : ValueType) (i : FieldIndex) {w : ValueType}
    → index_type t i ≡ some w
    → path_type t (i ∷ []) ≡ some w
unfolding path_type
path_type-single t i p = rw (path_type, p) refl

-- Where the lexer goes on, `get_type` does not reach its panic, and both have the same type.
next_type-index_type :
    (t : ValueType) (i : FieldIndex) {w : ValueType}
    → next_type i t ≡ some w
    → index_type t i ≡ some w
unfolding index_type
next_type-index_type (ValueType.array c) (FieldIndex.array_index n) e = e
next_type-index_type (ValueType.map c) (FieldIndex.map_key k) e = e
next_type-index_type (ValueType.array c) FieldIndex.map_each e = e
next_type-index_type (ValueType.map c) FieldIndex.map_each e = e
next_type-index_type t (FieldIndex.array_index n) e = cc
next_type-index_type t (FieldIndex.map_key k) e = cc
next_type-index_type t FieldIndex.map_each e = cc

lex_closed_index-Safe : (input : Text) → Safe (λ i rest. Unit {0}) (lex_closed_index input)
unfolding lex_closed_index
lex_closed_index-Safe input =
    lift-Safe (λ i rest. Unit {0}) (lex_field_index input) _
      λ i rest. lift-Safe (λ i rest. Unit {0}) (expect (skip_space rest) (codes "]")) _ λ u rest. tt

-- The indexes lead from the type of the identifier to the type that the loop has come to.
lex_indexes-path_type :
    (f : ℕ) (t0 t : ValueType) (indexes : List FieldIndex) (input : Text)
    → path_type t0 indexes ≡ some t
    → Safe (λ is rest. (u : ValueType) × (path_type t0 is ≡ some u)) (lex_indexes f t indexes input)
unfolding lex_indexes
lex_indexes-path_type zero t0 t indexes input h = tt
lex_indexes-path_type (suc f) t0 t indexes input h =
    elim (LexResult-cases (expect input (codes "["))) [
      | inr (k, s, e) ↦ rw (e, lex_indexes) (t, h)
      | inl ((u, rest), e) ↦
          rw (e, lex_indexes)
            (bind-Safe (λ i rest. Unit {0})
              (λ is rest. (u : ValueType) × (path_type t0 is ≡ some u))
              (lex_closed_index (skip_space rest)) _ (lex_closed_index-Safe (skip_space rest))
              λ i rest k. elim (Option-cases (next_type i t)) [
                | inr p ↦ rw p tt
                | inl (w, p) ↦ rw p (
                    lex_indexes-path_type f t0 w (indexes ++ i ∷ []) rest (
                      path_type-append t0 indexes i h
                      ∙ path_type-single t i (next_type-index_type t i p)))
              ])
    ]

lex_field_index-Within :
    (input : Text) (n : ℕ) → length input ≤ n → Within n (lex_field_index input)
unfolding lex_field_index
lex_field_index-Within input n h =
    by_star (expect input (codes "*")) (expect-Within input (codes "*") n h)
  where
    by_integer : (r : LexResult ℤ) → Within n r → Within n (int_index input r)
    by_integer (ok (pos i, rest)) k = elim (Bool-cases (ltb i (2 ^ 32))) [
      | inl e ↦ rw e k
      | inr e ↦ rw e tt
    ]
    by_integer (ok (negsuc i, rest)) k = tt
    by_integer (err e s) k = tt

    by_bytes : (r : LexResult BytesExpr) → Within n r → Within n (bytes_index input r)
    by_bytes (ok (b, rest)) k = elim (Option-cases (from_utf8 b.content)) [
      | inl (s, e) ↦ rw e k
      | inr e ↦ rw e tt
    ]
    by_bytes (err e s) k = tt

    by_quote :
        (r : LexResult (Unit {0}))
        → Within n (elim r [
          | ok _ ↦ bytes_index input (lex_bytes input)
          | err _ _ ↦ int_index input (lex_i64 input)
        ])
    by_quote (ok p) = by_bytes (lex_bytes input) (lex_bytes-Within input n (omega arith))
    by_quote (err e s) = by_integer (lex_i64 input) (lex_i64-Within input n (omega arith))

    by_star :
        (r : LexResult (Unit {0}))
        → Within n r
        → Within n (elim r [
          | ok (_, rest) ↦ ok (FieldIndex.map_each, rest)
          | err _ _ ↦ elim (expect input (codes "\"")) [
            | ok _ ↦ bytes_index input (lex_bytes input)
            | err _ _ ↦ int_index input (lex_i64 input)
          ]
        ])
    by_star (ok (u, rest)) k = k
    by_star (err e s) k = by_quote (expect input (codes "\""))

lex_closed_index-Ends : (input : Text) (n : ℕ) → length input ≤ n → Ends n (lex_closed_index input)
unfolding lex_closed_index
lex_closed_index-Ends input n h =
    bind-Ends (lift (lex_field_index input)) _ n n
      (lift-Ends (lex_field_index input) n (lex_field_index-Within input n h))
      λ idx rest k.
        let s = length-skip_space rest in
        bind-Ends (lift (expect (skip_space rest) (codes "]"))) _ n n
          (lift-Ends (expect (skip_space rest) (codes "]")) n
            (expect-Within (skip_space rest) (codes "]") n (omega arith)))
          λ u rest k. k

lex_indexes-Ends :
    (f : ℕ) (t : ValueType) (indexes : List FieldIndex) (input : Text) (n : ℕ)
    → length input < f
    → length input ≤ n
    → Ends n (lex_indexes f t indexes input)
unfolding lex_indexes
lex_indexes-Ends zero t indexes input n l h = absurd (omega arith)
lex_indexes-Ends (suc f) t indexes input n l h =
    let p = expect-Shorter input (codes "[") refl in
    elim (LexResult-cases (expect input (codes "["))) [
      | inr (k, s, e) ↦ rw (e, lex_indexes) h
      | inl ((u, rest), e) ↦
          let p' : length rest < length input = rw e at p in
          let s = length-skip_space rest in
          rw (e, lex_indexes)
            (bind-Ends (lex_closed_index (skip_space rest)) _ (length rest) n
              (lex_closed_index-Ends (skip_space rest) (length rest) s)
              λ i onward k. elim (Option-cases (next_type i t)) [
                | inr p ↦ rw p tt
                | inl (w, p) ↦
                    rw p (
                      lex_indexes-Ends f w (indexes ++ i ∷ []) onward n (omega arith) (omega arith))
              ])
    ]

-- If the lexer of identifiers ends, leaves no more than it was given and does not panic, then so does
-- the lexer of identifiers with indexes, and what it returns has a type: `IndexExpr::get_type` reaches
-- no `unreachable!()` on it.
pub lex_with-get_type :
    {I : Type 0} (lex_identifier : Text → Run I) (identifier_type : I → ValueType)
    → ((input : Text) → Ends (length input) (lex_identifier input))
    → ((input : Text) → Safe (λ i rest. Unit {0}) (lex_identifier input))
    → (input : Text)
    → Ends (length input) (lex_with lex_identifier identifier_type input)
      × Safe
          (λ e rest. (t : ValueType) × (get_type identifier_type e ≡ done t))
          (lex_with lex_identifier identifier_type input)
unfolding lex_with get_type path_type
lex_with-get_type lex_identifier identifier_type ends safe input = (
  bind-Ends (lex_identifier input) _ (length input) (length input) (ends input) λ i rest k.
      bind-Ends (lex_indexes (suc (length rest)) (identifier_type i) [] rest) _ (length input)
        (length input)
        (lex_indexes-Ends (suc (length rest)) (identifier_type i) [] rest (length input)
          (omega arith) k)
        λ is rest k. k,
  bind-Safe (λ i rest. Unit {0}) _ (lex_identifier input) _ (safe input)
      λ i rest k.
        bind-Safe _ _ (lex_indexes (suc (length rest)) (identifier_type i) [] rest) _
          (lex_indexes-path_type (suc (length rest)) (identifier_type i) (identifier_type i) [] rest
            refl)
          λ is rest (u, p). (u, rw p refl),
)
