-- ===== src/Scheme/Store.antt =====
-- engine/src/scheme.rs: consistency of the store, and the registration of fields.
use wirefilter.Prelude.{
  ℕ, ◌≡◌, ◌≢◌, refl, ap, Bool, false, none, some, [], ◌∷◌, ◌⊎◌, inl, inr, length, get_elem?,
  Bool-cases, Option-cases,
}
use wirefilter.Prelude.Outcome.{Outcome, done}
use wirefilter.Prelude.Map.{get, IsIndex, IsIndex-push, get_elem?-append, get_elem?-last}
use wirefilter.Types.{ValueType}
use wirefilter.Lex.{Text}
use wirefilter.Scheme.Keys.{text_key, type_key, type_eq, type_eq_refl, type_eq_sound}
use wirefilter.Scheme.{
  SchemeStore, FieldDefinition, IdentifierRedefinitionError, field_type_mismatch, Result, ok, err,
  new, push_field, add_field_internal, existing_field, get_or_add_field,
}

abbrev pub name_of : FieldDefinition → Text
name_of d = d.name

abbrev pub key_of {ℓ} : {K : Type 0} {A : Type ℓ} → K × A → K
key_of p = p.0

module _ {F L : Type 0} where
  -- Each map of the store holds the positions of the entries of its vector.
  pub record IsConsistent (s : SchemeStore F L) : Type 0 where
    pub fields_index : IsIndex name_of s.fields s.field_names
    pub functions_index : IsIndex key_of s.functions s.function_names
    pub lists_index : IsIndex key_of s.lists s.list_types

  -- Every entry of `s` is in `t`, at the same position.
  pub record Extends (s t : SchemeStore F L) : Type 0 where
    pub same_fields :
        (i : ℕ) (d : FieldDefinition)
        → get_elem? s.fields i ≡ some d
        → get_elem? t.fields i ≡ some d
    pub same_functions :
        (i : ℕ) (f : Text × F) → get_elem? s.functions i ≡ some f → get_elem? t.functions i ≡ some f
    pub same_lists :
        (i : ℕ) (l : ValueType × L) → get_elem? s.lists i ≡ some l → get_elem? t.lists i ≡ some l

  pub Extends-refl : (s : SchemeStore F L) → Extends s s
  Extends-refl s = record {
    same_fields = λ i d e. e;
    same_functions = λ i f e. e;
    same_lists = λ i l e. e;
  }

  pub Extends-trans : (s t u : SchemeStore F L) → Extends s t → Extends t u → Extends s u
  Extends-trans s t u a b = record {
    same_fields = λ i d e. b.same_fields i d (a.same_fields i d e);
    same_functions = λ i f e. b.same_functions i f (a.same_functions i f e);
    same_lists = λ i l e. b.same_lists i l (a.same_lists i l e);
  }

  pub new-IsConsistent : (b : Bool) → IsConsistent (new {F = F} {L = L} b)
  new-IsConsistent b = record {
    fields_index = record { at_position = λ k i e. cc; has_position = λ i x e. cc };
    functions_index = record { at_position = λ k i e. cc; has_position = λ i x e. cc };
    lists_index = record { at_position = λ k i e. cc; has_position = λ i x e. cc };
  }

  pub push_field-IsConsistent :
      (s : SchemeStore F L) (d : FieldDefinition)
      → IsConsistent s
      → get s.field_names d.name ≡ none
      → IsConsistent (push_field s d)
  push_field-IsConsistent s d w e = record {
    fields_index = IsIndex-push name_of s.fields s.field_names d w.fields_index e;
    functions_index = w.functions_index;
    lists_index = w.lists_index;
  }

  pub push_field-Extends : (s : SchemeStore F L) (d : FieldDefinition) → Extends s (push_field s d)
  push_field-Extends s d = record {
    same_fields = λ i x e. get_elem?-append s.fields (d ∷ []) i x e;
    same_functions = λ i f e. e;
    same_lists = λ i l e. e;
  }

  pub add_field_internal-vacant :
      (s : SchemeStore F L) (name : Text) (ty : ValueType) (optional : Bool) (id : ℕ)
      → get s.field_names name ≡ none
      → add_field_internal s name ty optional id ≡ (
        ok (length s.fields),
        push_field s (record { name = name; ty = ty; optional = optional; scheme_id = id }),
      )
  unfolding add_field_internal
  add_field_internal-vacant s name ty optional id e = rw (e, add_field_internal)

  -- The definition at `i` has this name and this type.
  abbrev pub HasField : SchemeStore F L → ℕ → Text → ValueType → Type 0
  HasField s i name ty =
      (d : FieldDefinition) × (get_elem? s.fields i ≡ some d) × (d.name ≡ name) × (d.ty ≡ ty)

  -- What registering a field does to a store.
  abbrev pub Registered :
      SchemeStore F L
      → Text
      → ValueType
      → Outcome (Result ℕ IdentifierRedefinitionError × SchemeStore F L)
      → Type 0
  Registered s name ty r =
      ((i : ℕ) × (t : SchemeStore F L) × (r ≡ done (ok i, t))
        × HasField t i name ty
        × Extends s t
        × IsConsistent t)
      ⊎ ((i : ℕ) × (old : ValueType) × (r ≡ done (err (field_type_mismatch name old ty), s))
          × HasField s i name old
          × (old ≢ ty))

  -- On a consistent store, registering a field never panics. Either it returns the position of a field
  -- of that name and type, in a consistent store that keeps every earlier entry at its position; or the
  -- name stands for a field of another type, the error names both types, and the store is as before.
  pub get_or_add_field-Registered :
      (s : SchemeStore F L) (name : Text) (ty : ValueType) (optional : Bool) (id : ℕ)
      → IsConsistent s
      → Registered s name ty (get_or_add_field s name ty optional id)
  unfolding get_or_add_field existing_field
  get_or_add_field-Registered s name ty optional id w =
      elim (Option-cases (get s.field_names name)) [
        | inl e ↦
            let d : FieldDefinition = record {
              name = name;
              ty = ty;
              optional = optional;
              scheme_id = id;
            } in
            inl (
              length s.fields,
              push_field s d,
              rw (e, get_or_add_field, existing_field)
                  (ap done (add_field_internal-vacant s name ty optional id e)),
              (d, get_elem?-last s.fields d, refl, refl),
              push_field-Extends s d,
              push_field-IsConsistent s d w e,
            )
        | inr (i, e) ↦
            let (d, at, named) = w.fields_index.at_position name i e in
            elim (Bool-cases (type_eq d.ty ty)) [
              | inl t ↦ inl (
                i,
                s,
                rw (e, at, t, get_or_add_field, existing_field),
                (d, at, named, type_eq_sound d.ty ty t),
                Extends-refl s,
                w,
              )
              | inr t ↦ inr (
                i,
                d.ty,
                rw (e, at, t, get_or_add_field, existing_field),
                (d, at, named, refl),
                λ p. let u : type_eq ty ty ≡ false = rw p at t in let v = type_eq_refl ty in cc,
              )
            ]
      ]
