-- ===== src/Index/Compile/Paths.antt =====
-- engine/src/ast/index_expr.rs: one description of the three ways to run an indexed comparison.
use wirefilter.Prelude.{
  ℕ, ◌+◌, ◌≡◌, refl, ap, sym, ◌∙◌, subst, Bool, true, false, ◌&&◌, Option, none, some, List, [],
  ◌∷◌, ◌++◌, map, append-nil, ◌==◌, arith, All, Bool-cases, inl, inr, if◌then◌else◌,
}
use wirefilter.Prelude.Outcome.{done}
use wirefilter.Lex.{FieldIndex}
use wirefilter.Value.{LhsValue, get_nested, get, array_get, map_get, to_list, into_values, Access}
use wirefilter.Rhs.Bytes.{as_bytes}
use wirefilter.Index.Flatten.{
  flatten, flat_each, children, option_list, or_none-some, append_both-some,
}
use wirefilter.Index.Drain.{drain-flatten}
use wirefilter.Index.Compile.{
  simplify_indexes, map_each_count, last_is_map_each, is_map_each, map_or, compile_one_with,
  compile_vec_with, compile_iter_with, compile_with, Ran, one, vec, compare_items, ran_one, ran_vec,
}

abbrev pub NoneEach : List FieldIndex → Type 0
NoneEach is = All (λ i. is_map_each i ≡ false) is

-- The values that the rest of the indexes reach from an optional one.
abbrev pub after : List FieldIndex → Option LhsValue → Option (List LhsValue)
after ks none = some []
after ks (some v) = flatten ks v

flat_each-option :
    (f : LhsValue → Option (List LhsValue)) (o : Option LhsValue) (out : List LhsValue)
    → flat_each f (option_list o) ≡ some out
    → elim o [ none ↦ some [] | some v ↦ f v ] ≡ some out
flat_each-option f none out e = e
flat_each-option f (some v) out e =
    let (xs, ys, a, b, c) = append_both-some (f v) (some []) out e in
    let q : ys ≡ [] = cc in a ∙ ap some (sym (c ∙ rw (q, append-nil)))

children-get :
    (v : LhsValue) (i : FieldIndex) (vs : List LhsValue)
    → is_map_each i ≡ false
    → children v i ≡ some vs
    → (o : Option LhsValue) × (get v i ≡ Access.ok o) × (vs ≡ option_list o)
unfolding get
children-get (LhsValue.array c es) (FieldIndex.array_index i) vs n e = (array_get es i, refl, cc)
children-get (LhsValue.map c es) (FieldIndex.map_key k) vs n e = (map_get es (as_bytes k), refl, cc)
children-get v FieldIndex.map_each vs n e = cc
children-get v i vs n e = cc

-- Indexes with no `[*]` reach what `get_nested` finds, and then what the rest reach from there.
get_nested-flatten :
    (is ks : List FieldIndex) (v : LhsValue) (out : List LhsValue)
    → NoneEach is
    → flatten (is ++ ks) v ≡ some out
    → (o : Option LhsValue) × (get_nested v is ≡ done o) × (after ks o ≡ some out)
unfolding get_nested
get_nested-flatten [] ks v out n e = (some v, refl, e)
get_nested-flatten (i ∷ is) ks v out n e =
    let (vs, reached, flat) =
      or_none-some (flat_each (flatten (is ++ ks))) (children v i) out (unfold flatten in e) in
    let (o, got, is_o) = children-get v i vs n.0 reached in
    by_found o got
      (flat_each-option (flatten (is ++ ks)) o out
        (subst (λ xs. flat_each (flatten (is ++ ks)) xs ≡ some out) is_o flat))
      (λ w. get_nested-flatten is ks w out n.1)
  where
    by_found :
        (o : Option LhsValue)
        → get v i ≡ Access.ok o
        → elim o [ none ↦ some [] | some w ↦ flatten (is ++ ks) w ] ≡ some out
        → ((w : LhsValue)
            → flatten (is ++ ks) w ≡ some out
            → (p : Option LhsValue) × (get_nested w is ≡ done p) × (after ks p ≡ some out))
        → (p : Option LhsValue) × (get_nested v (i ∷ is) ≡ done p) × (after ks p ≡ some out)
    by_found none got f ih = (none, rw (get_nested, got), f)
    by_found (some w) got f ih = let (p, a, b) = ih w f in (p, rw (get_nested, got) a, b)

no_each : (is : List FieldIndex) → map_each_count is ≡ 0 → NoneEach is
unfolding map_each_count
no_each [] e = tt
no_each (FieldIndex.array_index i ∷ is) e = (refl, no_each is (omega (arith, e)))
no_each (FieldIndex.map_key k ∷ is) e = (refl, no_each is (omega (arith, e)))
no_each (FieldIndex.map_each ∷ is) e = absurd (omega (arith, e))

simplify-NoneEach : (is : List FieldIndex) → NoneEach is → simplify_indexes is ≡ is
unfolding simplify_indexes
simplify-NoneEach [] n = refl
simplify-NoneEach (FieldIndex.array_index i ∷ is) n =
    ap (λ js. FieldIndex.array_index i ∷ js) (simplify-NoneEach is n.1)
simplify-NoneEach (FieldIndex.map_key k ∷ is) n =
    ap (λ js. FieldIndex.map_key k ∷ js) (simplify-NoneEach is n.1)
simplify-NoneEach (FieldIndex.map_each ∷ is) n = cc

last-NoneEach : (is : List FieldIndex) → NoneEach is → last_is_map_each is ≡ false
unfolding last_is_map_each
last-NoneEach [] n = refl
last-NoneEach (i ∷ []) n = n.0
last-NoneEach (i ∷ j ∷ is) n = last-NoneEach (j ∷ is) n.1

abbrev pub EndsWithEach : List FieldIndex → Type 0
EndsWithEach is =
    (js : List FieldIndex) × (is ≡ js ++ FieldIndex.map_each ∷ [])
    × (simplify_indexes is ≡ js)
    × NoneEach js

with_head :
    (i j : FieldIndex) (is : List FieldIndex)
    → is_map_each i ≡ false
    → simplify_indexes (i ∷ j ∷ is) ≡ i ∷ simplify_indexes (j ∷ is)
    → EndsWithEach (j ∷ is)
    → EndsWithEach (i ∷ j ∷ is)
with_head i j is n s (js, a, b, c) = (i ∷ js, ap (λ xs. i ∷ xs) a, s ∙ ap (λ xs. i ∷ xs) b, (n, c))

one_each :
    (is : List FieldIndex) → map_each_count is ≡ 1 → last_is_map_each is ≡ true → EndsWithEach is
unfolding map_each_count simplify_indexes last_is_map_each
one_each [] e l = cc
one_each (FieldIndex.map_each ∷ []) e l = ([], refl, refl, tt)
one_each (FieldIndex.array_index i ∷ []) e l = cc
one_each (FieldIndex.map_key k ∷ []) e l = cc
one_each (FieldIndex.map_each ∷ j ∷ is) e l =
    let q : map_each_count (j ∷ is) ≡ 0 = omega (arith, e) in
    absurd (let r = last-NoneEach (j ∷ is) (no_each (j ∷ is) q) in cc)
one_each (FieldIndex.array_index i ∷ j ∷ is) e l =
    with_head (FieldIndex.array_index i) j is refl refl (one_each (j ∷ is) (omega (arith, e)) l)
one_each (FieldIndex.map_key k ∷ j ∷ is) e l =
    with_head (FieldIndex.map_key k) j is refl refl (one_each (j ∷ is) (omega (arith, e)) l)

abbrev pub first_or : Bool → List Bool → Bool
first_or default [] = default
first_or default (b ∷ bs) = b

-- What a comparison of the values `out` results in: with no `[*]` one result, the default if there
-- is no value, and otherwise one for each value.
abbrev pub result_of : Bool → (LhsValue → Bool) → List FieldIndex → List LhsValue → Ran
result_of default comp is out =
    if map_each_count is == 0 then one (first_or default (map comp out)) else vec (map comp out)

some_eq : {xs ys : List LhsValue} → ◌≡◌ {A = Option (List LhsValue)} (some xs) (some ys) → xs ≡ ys
some_eq e = cc

flat_each-single : (vs : List LhsValue) → flat_each (flatten []) vs ≡ some vs
unfolding flatten
flat_each-single [] = refl
flat_each-single (v ∷ vs) = rw (flat_each-single vs)

one-after :
    (default : Bool) (comp : LhsValue → Bool) (o : Option LhsValue) (out : List LhsValue)
    → after [] o ≡ some out
    → map_or default comp o ≡ first_or default (map comp out)
unfolding flatten
one-after default comp none out e = let p : [] ≡ out = cc in rw (sym p)
one-after default comp (some v) out e = let p : v ∷ [] ≡ out = cc in rw (sym p)

vec-after :
    (comp : LhsValue → Bool) (o : Option LhsValue) (out : List LhsValue)
    → after (FieldIndex.map_each ∷ []) o ≡ some out
    → compare_items comp o ≡ done (map comp out)
unfolding flatten
vec-after comp none out e = let p : [] ≡ out = cc in rw (sym p)
vec-after comp (some (LhsValue.array c es)) out e =
    let p : to_list es ≡ out = some_eq (sym (flat_each-single (to_list es)) ∙ e) in rw (sym p)
vec-after comp (some (LhsValue.map c es)) out e =
    let p : into_values es ≡ out = some_eq (sym (flat_each-single (into_values es)) ∙ e) in
    rw (sym p)
vec-after comp (some _) out e = cc

count_nil : (map_each_count [] == 0) ≡ true
unfolding map_each_count
count_nil = refl

-- If the indexes fit the value of the identifier, then, with enough fuel, every way to run the
-- comparison returns, and the result is the comparison of the values that the indexes reach, in order.
pub compile_with-flatten :
    (default : Bool) (comp : LhsValue → Bool) (is : List FieldIndex) (v : LhsValue)
    (out : List LhsValue)
    → flatten is v ≡ some out
    → (rounds : ℕ) × ((extra : ℕ)
        → compile_with (rounds + extra) default comp is (some v) ≡ result_of default comp is out)
unfolding compile_with compile_one_with compile_vec_with compile_iter_with
compile_with-flatten default comp is v out e = elim (Bool-cases (map_each_count is == 0)) [
  | inl z ↦
      let n = no_each is (ground (arith, z)) in
      let (o, got, found) = get_nested-flatten is [] v out n (rw append-nil e) in
      (
        0,
        λ extra.
            rw (compile_with, z, simplify-NoneEach is n) (ap ran_one (one_path is o got found)),
      )
  | inr z ↦ elim (Bool-cases (map_each_count is == 1 && last_is_map_each is)) [
    | inl l ↦
        let (js, is_js, simple, n) = one_each is (ground (arith, l)) (ground (arith, l)) in
        let (o, got, found) =
          get_nested-flatten js (FieldIndex.map_each ∷ []) v out n
            (subst (λ xs. flatten xs v ≡ some out) is_js e) in
        (0, λ extra. rw (compile_with, z, l, simple) (ap ran_vec (vec_path js o got found)))
    | inr l ↦
        let (stack, start, rounds, runs) = drain-flatten is v out (λ p. some_index p z) e in
        (rounds, λ extra. rw (compile_with, z, l) (rw (compile_iter_with, start, runs extra)))
  ]
]
  where
    some_index : is ≡ [] → (map_each_count is == 0) ≡ false → ⊥
    some_index p z = let q : (map_each_count [] == 0) ≡ false = rw p at z in let r = count_nil in cc

    one_path :
        (js : List FieldIndex) (o : Option LhsValue)
        → get_nested v js ≡ done o
        → after [] o ≡ some out
        → compile_one_with default comp js (some v) ≡ done (first_or default (map comp out))
    one_path [] o got found =
        let q : some v ≡ o = unfold get_nested in cc in
        ap (λ x. done (map_or default comp x)) q ∙ ap done (one-after default comp o out found)
    one_path (j ∷ js) o got found =
        rw (compile_one_with, got) (ap done (one-after default comp o out found))

    vec_path :
        (js : List FieldIndex) (o : Option LhsValue)
        → get_nested v js ≡ done o
        → after (FieldIndex.map_each ∷ []) o ≡ some out
        → compile_vec_with comp js (some v) ≡ done (map comp out)
    vec_path js o got found = rw (compile_vec_with, got) (vec-after comp o out found)
