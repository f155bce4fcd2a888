-- ===== src/Functions/Builtin/Joined.antt =====
-- engine/src/functions/concat.rs: the value of `concat` on arrays.
use wirefilter.Prelude.{
  ◌≡◌, refl, sym, ap, ◌∙◌, true, false, Option, none, some, List, [], ◌∷◌, ◌++◌, append_assoc,
  append-nil, inl, inr, arith, all, if◌then◌else◌, Bool-cases, All, subst,
}
use wirefilter.Prelude.Outcome.{done}
use wirefilter.Types.{CompoundType, ValueType, into_type}
use wirefilter.Types.Packing.{IsPacked, from_type-into_type}
use wirefilter.Scheme.Keys.{compound_eq_refl}
use wirefilter.Value.{LhsValue, Elems, to_list, of_list}
use wirefilter.Value.Typed.{IsTyped, ElemsTyped, HasType}
use wirefilter.Functions.{Arg}
use wirefilter.Functions.Builtin.{
  elem_fits, extend_arrays, any_value, try_from_vec, concat_array, concat_impl,
}

-- A well-typed argument of the type, or none of the type.
abbrev pub ArgHas : ValueType → Arg → Type 0
ArgHas t (Arg.ok v) = HasType t v
ArgHas t (Arg.missing u) = u ≡ t

-- The elements of the arrays among the arguments.
abbrev pub elements : List Arg → List LhsValue
elements [] = []
elements (Arg.ok (LhsValue.array c es) ∷ args) = to_list es ++ elements args
elements (a ∷ args) = elements args

abbrev pub joined_or_none : CompoundType → List Arg → Option LhsValue
joined_or_none c args =
    if any_value args then some (LhsValue.array c (of_list (elements args))) else none

of_list-to_list : (es : Elems) → of_list (to_list es) ≡ es
of_list-to_list Elems.nil = refl
of_list-to_list (Elems.cons v es) = ap (Elems.cons v) (of_list-to_list es)

elems_fit :
    (c : CompoundType) (es : Elems)
    → IsPacked c
    → ElemsTyped (into_type c) es
    → all (elem_fits c) (to_list es) ≡ true
unfolding IsTyped elem_fits
elems_fit c Elems.nil packed h = refl
elems_fit c (Elems.cons v es) packed (e, _, h) =
    rw (e, from_type-into_type c packed, compound_eq_refl c) (elems_fit c es packed h)

all-append :
    (c : CompoundType) (vs ws : List LhsValue)
    → all (elem_fits c) vs ≡ true
    → all (elem_fits c) ws ≡ true
    → all (elem_fits c) (vs ++ ws) ≡ true
all-append c [] ws h k = k
all-append c (v ∷ vs) ws h k = ground (arith, all-append c vs ws)

array_value :
    (c : CompoundType) (v : LhsValue)
    → HasType (ValueType.array c) v
    → (es : Elems) × (v ≡ LhsValue.array c es) × IsPacked c × ElemsTyped (into_type c) es
unfolding IsTyped
array_value c (LhsValue.array d es) (e, typed) =
    let p : d ≡ c = cc in
    (
      es,
      ap (λ d. LhsValue.array d es) p,
      subst IsPacked p typed.0,
      subst (λ d. ElemsTyped (into_type d) es) p typed.1,
    )
array_value c (LhsValue.bool b) (e, typed) = cc
array_value c (LhsValue.bytes b) (e, typed) = cc
array_value c (LhsValue.int i) (e, typed) = cc
array_value c (LhsValue.ip a) (e, typed) = cc
array_value c (LhsValue.map d es) (e, typed) = cc

elements_fit :
    (c : CompoundType) (args : List Arg)
    → All (ArgHas (ValueType.array c)) args
    → all (elem_fits c) (elements args) ≡ true
elements_fit c [] h = refl
elements_fit c (Arg.missing t ∷ args) (e, h) = elements_fit c args h
elements_fit c (Arg.ok v ∷ args) (e, h) =
    let (es, p, packed, typed) = array_value c v e in
    rw p (
      all-append c (to_list es) (elements args) (elems_fit c es packed typed)
        (elements_fit c args h))

extend_arrays-elements :
    (c : CompoundType) (acc : List LhsValue) (args : List Arg)
    → All (ArgHas (ValueType.array c)) args
    → extend_arrays acc args ≡ done (acc ++ elements args)
unfolding extend_arrays
extend_arrays-elements c acc [] h = ap done (sym (append-nil acc))
extend_arrays-elements c acc (Arg.missing t ∷ args) (e, h) = extend_arrays-elements c acc args h
extend_arrays-elements c acc (Arg.ok v ∷ args) (e, h) =
    let (es, p, packed, typed) = array_value c v e in
    rw (p, extend_arrays)
      (extend_arrays-elements c (acc ++ to_list es) args h
        ∙ ap done (append_assoc acc (to_list es) (elements args)))

elements-any_value : (args : List Arg) → any_value args ≡ false → elements args ≡ []
unfolding any_value
elements-any_value [] e = refl
elements-any_value (Arg.missing t ∷ args) e = elements-any_value args e
elements-any_value (Arg.ok v ∷ args) e = cc

concat_array-elements :
    (c : CompoundType) (es : Elems) (args : List Arg)
    → IsPacked c
    → ElemsTyped (into_type c) es
    → All (ArgHas (ValueType.array c)) args
    → concat_array c es args ≡ done (LhsValue.array c (of_list (to_list es ++ elements args)))
unfolding concat_array try_from_vec
concat_array-elements c es args packed typed h = elim (Bool-cases (any_value args)) [
  | inl a ↦
      let fit =
        all-append c (to_list es) (elements args) (elems_fit c es packed typed)
          (elements_fit c args h) in
      rw (a, extend_arrays-elements c (to_list es) args h, fit) refl
  | inr a ↦ rw (a, elements-any_value args a, append-nil (to_list es), of_list-to_list es) refl
]

-- On well-typed arguments of one array type, `concat` does not panic: its value is the array of all
-- elements of those that have a value, in order, and there is none exactly if no argument has a value.
pub concat_impl-elements :
    (c : CompoundType) (args : List Arg)
    → All (ArgHas (ValueType.array c)) args
    → concat_impl args ≡ done (joined_or_none c args)
unfolding concat_impl any_value
concat_impl-elements c [] h = refl
concat_impl-elements c (Arg.missing t ∷ args) (e, h) = concat_impl-elements c args h
concat_impl-elements c (Arg.ok v ∷ args) (e, h) =
    let (es, p, packed, typed) = array_value c v e in
    rw (p, concat_impl, concat_array-elements c es args packed typed h) refl
