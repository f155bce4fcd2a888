-- ===== src/Scheme/Entries.antt =====
-- engine/src/scheme.rs: the registration of functions and lists.
use wirefilter.Prelude.{
  ℕ, ◌≡◌, ap, ◌∙◌, some, [], ◌∷◌, ◌++◌, inl, inr, length, get_elem?, Option-cases,
}
use wirefilter.Prelude.Map.{get, insert, IsIndex-push, get_elem?-append, get_elem?-last}
use wirefilter.Types.{ValueType}
use wirefilter.Lex.{Text}
use wirefilter.Scheme.Keys.{text_key, type_key}
use wirefilter.Scheme.{
  SchemeStore, ok, get_or_add_function, get_or_add_list, add_function_internal, add_list_internal,
}
use wirefilter.Scheme.Store.{IsConsistent, Extends, Extends-refl, key_of}

module _ {F L : Type 0} where
  -- On a consistent store, registering a function never fails: it returns the position of a function of
  -- that name, the one given or one registered before, in a consistent store that keeps its entries.
  pub get_or_add_function-IsConsistent :
      (s : SchemeStore F L) (name : Text) (f : F)
      → IsConsistent s
      → (i : ℕ) × (t : SchemeStore F L) × (get_or_add_function s name f ≡ (ok i, t))
        × ((g : F) × (get_elem? t.functions i ≡ some (name, g)))
        × Extends s t
        × IsConsistent t
  unfolding get_or_add_function
  get_or_add_function-IsConsistent s name f w = elim (Option-cases (get s.function_names name)) [
    | inl e ↦ (
      length s.functions,
      record s {
        functions = s.functions ++ (name, f) ∷ [];
        function_names = insert s.function_names name (length s.functions);
      },
      rw (e, get_or_add_function) (ap (add_function_internal s name f) e),
      (f, get_elem?-last s.functions (name, f)),
      record {
        same_fields = λ i d p. p;
        same_functions = λ i g p. get_elem?-append s.functions ((name, f) ∷ []) i g p;
        same_lists = λ i l p. p;
      },
      record {
        fields_index = w.fields_index;
        functions_index =
            IsIndex-push key_of s.functions s.function_names (name, f) w.functions_index e;
        lists_index = w.lists_index;
      },
    )
    | inr (i, e) ↦
        let (g, at, named) = w.functions_index.at_position name i e in
        (
          i,
          s,
          rw (e, get_or_add_function),
          (g.1, at ∙ ap some (ap (λ n. (n, g.1)) named)),
          Extends-refl s,
          w,
        )
  ]

  -- On a consistent store, registering a list never fails: it returns the position of a list for that
  -- type, the one given or one registered before, in a consistent store that keeps its entries.
  pub get_or_add_list-IsConsistent :
      (s : SchemeStore F L) (ty : ValueType) (l : L)
      → IsConsistent s
      → (i : ℕ) × (t : SchemeStore F L) × (get_or_add_list s ty l ≡ (ok i, t))
        × ((m : L) × (get_elem? t.lists i ≡ some (ty, m)))
        × Extends s t
        × IsConsistent t
  unfolding get_or_add_list
  get_or_add_list-IsConsistent s ty l w = elim (Option-cases (get s.list_types ty)) [
    | inl e ↦ (
      length s.lists,
      record s {
        lists = s.lists ++ (ty, l) ∷ [];
        list_types = insert s.list_types ty (length s.lists);
      },
      rw (e, get_or_add_list) (ap (add_list_internal s ty l) e),
      (l, get_elem?-last s.lists (ty, l)),
      record {
        same_fields = λ i d p. p;
        same_functions = λ i g p. p;
        same_lists = λ i g p. get_elem?-append s.lists ((ty, l) ∷ []) i g p;
      },
      record {
        fields_index = w.fields_index;
        functions_index = w.functions_index;
        lists_index = IsIndex-push key_of s.lists s.list_types (ty, l) w.lists_index e;
      },
    )
    | inr (i, e) ↦
        let (g, at, named) = w.lists_index.at_position ty i e in
        (
          i,
          s,
          rw (e, get_or_add_list),
          (g.1, at ∙ ap some (ap (λ n. (n, g.1)) named)),
          Extends-refl s,
          w,
        )
  ]
