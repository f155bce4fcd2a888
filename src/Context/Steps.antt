-- ===== src/Context/Steps.antt =====
-- engine/src/execution_context.rs: the calls on a context and on its store as steps, in any order.
use wirefilter.Prelude.{
  ℕ, zero, suc, ◌<◌, ◌≡◌, refl, subst, Bool, true, false, Option, none, some, List, [], ◌∷◌, inl,
  inr, length, get_elem?, set, map, ◌==◌, Option-cases, arith, if◌then◌else◌,
}
use wirefilter.Prelude.Outcome.{done}
use wirefilter.Lex.{Text}
use wirefilter.Value.{LhsValue, get_type}
use wirefilter.Scheme.{SchemeStore, FieldDefinition, Result, ok, err, index, get_field_index}
use wirefilter.Scheme.Builder.{FieldRef}
use wirefilter.Scheme.Keys.{type_eq, type_eq_refl, text_key}
use wirefilter.Scheme.Store.{Extends}
use wirefilter.Context.{
  ExecutionContext, Setting, set_field_value, set_field_value_lazy, set_field_value_from_name,
  set_field_value_from_name_lazy, SetFieldValueError, write, replace_typed, assign_if_none,
  get_field_value_unchecked, clear, scheme_mismatch,
}
use wirefilter.Context.Typed.{
  IsTypedContext, replace_typed-IsTypedContext, assign_if_none-IsTypedContext, get_elem?-set,
}

clear-none :
    (xs : List (Option LhsValue)) (i : ℕ) (v : LhsValue)
    → get_elem? (map (λ o. none) xs) i ≡ some (some v)
    → ⊥
clear-none [] i v e = cc
clear-none (x ∷ xs) zero v e = cc
clear-none (x ∷ xs) (suc i) v e = clear-none xs i v e

module _ {F L M U : Type 0} where
  -- A call that returns, with the store and the context before and after it. The store changes on its
  -- own where a scheme that shares it is extended.
  pub data Step
      : SchemeStore F L
        → ExecutionContext M U
        → SchemeStore F L
        → ExecutionContext M U
        → Type 0 where
    sets :
        {s : SchemeStore F L} {c c' : ExecutionContext M U} (f : FieldRef) (v : LhsValue)
        (r : Result (Option LhsValue) SetFieldValueError)
        → set_field_value s c f v ≡ done (r, c')
        → Step s c s c'
    sets_named :
        {s : SchemeStore F L} {c c' : ExecutionContext M U} (name : Text) (v : LhsValue)
        (r : Result (Option LhsValue) SetFieldValueError)
        → set_field_value_from_name s c name v ≡ done (r, c')
        → Step s c s c'
    sets_lazily :
        {s : SchemeStore F L} {c c' : ExecutionContext M U} (f : FieldRef) (v : Unit {0} → LhsValue)
        (r : Result Bool SetFieldValueError)
        → set_field_value_lazy s c f v ≡ done (r, c')
        → Step s c s c'
    sets_named_lazily :
        {s : SchemeStore F L} {c c' : ExecutionContext M U} (name : Text) (v : Unit {0} → LhsValue)
        (r : Result Bool SetFieldValueError)
        → set_field_value_from_name_lazy s c name v ≡ done (r, c')
        → Step s c s c'
    clears : {s : SchemeStore F L} {c : ExecutionContext M U} (m : M → M) → Step s c s (clear m c)
    extends : {s s' : SchemeStore F L} {c : ExecutionContext M U} → Extends s s' → Step s c s' c

  pub data Steps
      : SchemeStore F L
        → ExecutionContext M U
        → SchemeStore F L
        → ExecutionContext M U
        → Type 0 where
    stop : {s : SchemeStore F L} {c : ExecutionContext M U} → Steps s c s c
    then_step :
        {s s' s'' : SchemeStore F L} {c c' c'' : ExecutionContext M U}
        → Step s c s' c'
        → Steps s' c' s'' c''
        → Steps s c s'' c''

  by_address :
      {A : Type 0} (b : Bool) (s : SchemeStore F L) (c c' : ExecutionContext M U)
      (ok_run : Setting M U A) (r : Result A SetFieldValueError)
      → ((ok_run ≡ done (r, c')) → IsTypedContext s c')
      → IsTypedContext s c
      → (if b then ok_run else done (err scheme_mismatch, c)) ≡ done (r, c')
      → IsTypedContext s c'
  by_address true s c c' run r f w e = f e
  by_address false s c c' run r f w e = let q : c ≡ c' = cc in subst (IsTypedContext s) q w

  Step-IsTypedContext :
      {s s' : SchemeStore F L} {c c' : ExecutionContext M U}
      → Step s c s' c'
      → IsTypedContext s c
      → IsTypedContext s' c'
  unfolding set_field_value set_field_value_from_name set_field_value_lazy
      set_field_value_from_name_lazy
  Step-IsTypedContext {s = s} {c = c} {c' = c'} (sets f v r e) w =
      by_address (c.scheme_store == f.scheme_store) s c c'
        (replace_typed c f.index v (index s f.index)) r
        (replace_typed-IsTypedContext s c c' f.index v r w) w e
  Step-IsTypedContext {s = s} {c = c} {c' = c'} (sets_named name v r e) w =
      elim (Option-cases (get_field_index s name)) [
        | inl n ↦
            let p = rw (n, set_field_value_from_name) at e in
            let q : c ≡ c' = cc in subst (IsTypedContext s) q w
        | inr (i, n) ↦
            replace_typed-IsTypedContext s c c' i v r w (rw (n, set_field_value_from_name) at e)
      ]
  Step-IsTypedContext {s = s} {c = c} {c' = c'} (sets_lazily f v r e) w =
      by_address (c.scheme_store == f.scheme_store) s c c'
        (assign_if_none c f.index v (index s f.index) (get_elem? c.values f.index)) r
        (assign_if_none-IsTypedContext s c c' f.index v r w) w e
  Step-IsTypedContext {s = s} {c = c} {c' = c'} (sets_named_lazily name v r e) w =
      elim (Option-cases (get_field_index s name)) [
        | inl n ↦
            let p = rw (n, set_field_value_from_name_lazy) at e in
            let q : c ≡ c' = cc in subst (IsTypedContext s) q w
        | inr (i, n) ↦
            assign_if_none-IsTypedContext s c c' i v r w
              (rw (n, set_field_value_from_name_lazy) at e)
      ]
  Step-IsTypedContext {c = c} (clears m) w = λ i v e. absurd (clear-none c.values i v e)
  Step-IsTypedContext (extends x) w =
      λ i v e. let (d, at, t) = w i v e in (d, x.same_fields i d at, t)

  -- However calls follow each other, on the context and on the store that it shares with others, every
  -- value of the context has the type that the store gives to its field, if that holds at the start.
  pub Steps-IsTypedContext :
      {s s' : SchemeStore F L} {c c' : ExecutionContext M U}
      → Steps s c s' c'
      → IsTypedContext s c
      → IsTypedContext s' c'
  Steps-IsTypedContext stop w = w
  Steps-IsTypedContext (then_step x xs) w = Steps-IsTypedContext xs (Step-IsTypedContext x w)

  -- A value of the type of its field can be set where the context has a place for the field: the old
  -- value comes back, the field then has the new value, and no other place of the context is changed.
  pub set_field_value-get_field_value :
      (s : SchemeStore F L) (c : ExecutionContext M U) (f : FieldRef) (v : LhsValue)
      (d : FieldDefinition)
      → c.scheme_store ≡ f.scheme_store
      → get_elem? s.fields f.index ≡ some d
      → d.ty ≡ get_type v
      → f.index < length c.values
      → (old : Option LhsValue) × (c' : ExecutionContext M U) × (get_elem? c.values f.index
          ≡ some old)
        × (set_field_value s c f v ≡ done (ok old, c'))
        × (get_field_value_unchecked s c' f ≡ done (some v))
        × (c'.values ≡ set c.values f.index (some v))
  unfolding set_field_value get_field_value_unchecked
  set_field_value-get_field_value s c f v d p at t h =
      elim (Option-cases (get_elem? c.values f.index)) [
        | inl n ↦ absurd (lookup-some c.values f.index h n)
        | inr (old, o) ↦
            let same : (c.scheme_store == f.scheme_store) ≡ true = ground (arith, p) in
            let typed : type_eq d.ty (get_type v) ≡ true = rw t (type_eq_refl (get_type v)) in
            (
              old,
              write c f.index (some v),
              o,
              rw (set_field_value, same, at, typed, o),
              rw (get_field_value_unchecked, get_elem?-set c.values f.index (some v) h),
              refl,
            )
      ]
    where
      lookup-some :
          (xs : List (Option LhsValue)) (i : ℕ) → i < length xs → get_elem? xs i ≡ none → ⊥
      lookup-some [] i k e = omega arith
      lookup-some (x ∷ xs) zero k e = cc
      lookup-some (x ∷ xs) (suc i) k e = lookup-some xs i (omega arith) e
