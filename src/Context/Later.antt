-- ===== src/Context/Later.antt =====
-- engine/src/execution_context.rs and engine/src/scheme.rs: fields that a scheme adds to the shared store
-- when a context is already there.
use wirefilter.Prelude.{
  ℕ, zero, suc, ◌≡◌, ◌≢◌, refl, sym, ap, ◌∙◌, Bool, true, false, Option, none, some, [], ◌∷◌, ◌++◌,
  ◌⊎◌, inl, inr, length, get_elem?, replicate, ◌==◌, Bool-cases, Option-cases, arith, get_elem?-out,
}
use wirefilter.Prelude.Map.{get, get_elem?-last}
use wirefilter.Prelude.Outcome.{done, panic}
use wirefilter.Types.{ValueType}
use wirefilter.Lex.{Text}
use wirefilter.Value.{LhsValue, get_type}
use wirefilter.Scheme.{SchemeStore, FieldDefinition, ok, err, add_field_internal}
use wirefilter.Scheme.Builder.{Scheme}
use wirefilter.Scheme.Keys.{type_eq, type_eq_refl, type_eq_sound, text_key}
use wirefilter.Scheme.Store.{Extends, add_field_internal-vacant}
use wirefilter.Context.{new_with, set_field_value, get_field_value_unchecked, type_mismatch}

length-replicate : {A : Type 0} (n : ℕ) (a : A) → length (replicate n a) ≡ n
length-replicate zero a = refl
length-replicate (suc n) a = ap suc (length-replicate n a)

module _ {F L : Type 0} where
  -- A field that is added is the last one, and its name was free.
  add_field_internal-last :
      (s t : SchemeStore F L) (name : Text) (ty : ValueType) (optional : Bool) (id i : ℕ)
      → add_field_internal s name ty optional id ≡ (ok i, t)
      → (length s.fields ≡ i)
        × (get_elem? t.fields i
            ≡ some (record { name = name; ty = ty; optional = optional; scheme_id = id }))
  unfolding add_field_internal
  add_field_internal-last s t name ty optional id i e =
      elim (Option-cases (get s.field_names name)) [
        | inl h ↦
            let d : FieldDefinition = record {
              name = name;
              ty = ty;
              optional = optional;
              scheme_id = id;
            } in
            let v = add_field_internal-vacant s name ty optional id h in
            let same : length s.fields ≡ i = cc in
            let store : s.fields ++ d ∷ [] ≡ t.fields = ap (λ p. p.1.fields) (sym v ∙ e) in
            (same, rw (sym store, sym same) (get_elem?-last s.fields d))
        | inr (j, h) ↦ let r = rw (h, add_field_internal) at e in cc
      ]

module _ {F L M U : Type 0} where
  -- A context is made on a store, and a field is added to the store after that, perhaps with more entries.
  -- Reading the field in the context panics. So does setting it to a value of its type, with no error,
  -- while a value of another type is the usual type error and leaves the context as it is.
  pub set_field_value-new_with :
      (new_matcher : L → M) (scheme : Scheme) (s t later : SchemeStore F L) (u : U) (name : Text)
      (ty : ValueType) (optional : Bool) (id i : ℕ) (v : LhsValue)
      → add_field_internal s name ty optional id ≡ (ok i, t)
      → Extends t later
      → (get_field_value_unchecked later
            (new_with new_matcher scheme s u)
            (record { scheme_store = scheme.scheme_store; index = i })
          ≡ panic)
        × ((ty ≡ get_type v)
              × (set_field_value later
                    (new_with new_matcher scheme s u)
                    (record { scheme_store = scheme.scheme_store; index = i })
                    v
                  ≡ panic)
            ⊎ (ty ≢ get_type v)
              × (set_field_value later
                    (new_with new_matcher scheme s u)
                    (record { scheme_store = scheme.scheme_store; index = i })
                    v
                  ≡ done (err (type_mismatch ty (get_type v)), new_with new_matcher scheme s u)))
  unfolding set_field_value get_field_value_unchecked new_with
  set_field_value-new_with new_matcher scheme s t later u name ty optional id i v e x =
      let (last, added) = add_field_internal-last s t name ty optional id i e in
      let at = x.same_fields i _ added in
      let n = length-replicate {A = Option LhsValue} (length s.fields) none in
      let out =
        get_elem?-out {A = Option LhsValue} (replicate (length s.fields) none) i
          (omega (arith, n, last)) in
      let same : (scheme.scheme_store == scheme.scheme_store) ≡ true = ground arith in
      (
        rw (get_field_value_unchecked, out) refl,
        elim (Bool-cases (type_eq ty (get_type v))) [
          | inl y ↦
              inl (type_eq_sound ty (get_type v) y, rw (set_field_value, same, at, y, out) refl)
          | inr y ↦ inr (λ q. differs y q, rw (set_field_value, same, at, y) refl)
        ],
      )
    where
      differs : type_eq ty (get_type v) ≡ false → ty ≡ get_type v → ⊥
      differs y q = let z : type_eq ty (get_type v) ≡ true = rw q (type_eq_refl (get_type v)) in cc
