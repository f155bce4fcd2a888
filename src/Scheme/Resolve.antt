-- ===== src/Scheme/Resolve.antt =====
-- engine/src/scheme.rs: the names of a scheme and the entries of the store that it shares.
use wirefilter.Prelude.{
  Option, none, ℕ, ◌≡◌, ◌≢◌, refl, ap, sym, subst, ◌∙◌, Bool, some, ◌⊎◌, inl, inr, get_elem?,
  Bool-cases, Option-cases,
}
use wirefilter.Prelude.Outcome.{done}
use wirefilter.Prelude.Map.{HashMap, get, insert, same, get-insert}
use wirefilter.Types.{ValueType}
use wirefilter.Lex.{Text}
use wirefilter.Scheme.{SchemeStore, IdentifierRedefinitionError, field_type_mismatch, ok, err}
use wirefilter.Scheme.Keys.{text_key, text_eq_sound}
use wirefilter.Scheme.Store.{IsConsistent, Extends, HasField, get_or_add_field-Registered}
use wirefilter.Scheme.Builder.{
  SchemeItem, SchemeBuilder, Change, add_field_full, occupied, insert_field, build, get_identifier,
  get_field,
}

abbrev pub with_item : SchemeBuilder → Text → SchemeItem → SchemeBuilder
with_item b name item = record b { items = insert b.items name item }

-- The scheme has the name, for a field or for a function, and the error says for which.
abbrev pub NameTaken : Text → Option SchemeItem → IdentifierRedefinitionError → Type 0
NameTaken name o e =
    ((i : ℕ) × (o ≡ some (SchemeItem.field i)) × (e ≡ IdentifierRedefinitionError.field name))
    ⊎ ((i : ℕ) × (o ≡ some (SchemeItem.function i))
        × (e ≡ IdentifierRedefinitionError.function name))

pub occupied-NameTaken :
    (name : Text) (o : Option SchemeItem) (e : IdentifierRedefinitionError)
    → occupied name o ≡ some e
    → NameTaken name o e
occupied-NameTaken name none e p = cc
occupied-NameTaken name (some (SchemeItem.field i)) e p = inl (i, refl, cc)
occupied-NameTaken name (some (SchemeItem.function i)) e p = inr (i, refl, cc)

pub occupied-none : (name : Text) (o : Option SchemeItem) → occupied name o ≡ none → o ≡ none
occupied-none name none e = refl
occupied-none name (some (SchemeItem.field i)) e = cc
occupied-none name (some (SchemeItem.function i)) e = cc

module _ {F L : Type 0} where
  -- The item of a name stands for a definition of that name in the store.
  abbrev pub ItemResolves : SchemeStore F L → Text → SchemeItem → Type 0
  ItemResolves s name (SchemeItem.field i) = (ty : ValueType) × HasField s i name ty
  ItemResolves s name (SchemeItem.function i) = (f : F) × (get_elem? s.functions i ≡ some (name, f))

  abbrev pub IsResolved : HashMap Text SchemeItem → SchemeStore F L → Type 0
  IsResolved items s =
      (name : Text) (item : SchemeItem) → get items name ≡ some item → ItemResolves s name item

  ItemResolves-Extends :
      (s t : SchemeStore F L) (name : Text) (item : SchemeItem)
      → Extends s t
      → ItemResolves s name item
      → ItemResolves t name item
  ItemResolves-Extends s t name (SchemeItem.field i) x (ty, (d, at, n, p)) =
      (ty, (d, x.same_fields i d at, n, p))
  ItemResolves-Extends s t name (SchemeItem.function i) x (f, at) =
      (f, x.same_functions i (name, f) at)

  -- The names of a scheme still resolve in every extension of its store.
  pub IsResolved-Extends :
      (items : HashMap Text SchemeItem) (s t : SchemeStore F L)
      → Extends s t
      → IsResolved items s
      → IsResolved items t
  IsResolved-Extends items s t x w name item e =
      ItemResolves-Extends s t name item x (w name item e)

  pub IsResolved-insert :
      (items : HashMap Text SchemeItem) (s : SchemeStore F L) (name : Text) (item : SchemeItem)
      → IsResolved items s
      → ItemResolves s name item
      → IsResolved (insert items name item) s
  IsResolved-insert items s name item w r name' item' e = elim (Bool-cases (same name name')) [
    | inl p ↦
        let q : name ≡ name' = text_eq_sound name name' p in
        let u : item ≡ item' = cc (rw p at e) in
        subst (λ n. ItemResolves s n item') q (subst (λ i. ItemResolves s name i) u r)
    | inr p ↦ w name' item' (rw p at e)
  ]

  -- The outcomes of adding a field: it is added, or the name is taken in the scheme, or the store has a
  -- field of that name and another type.
  abbrev pub FieldAdded :
      SchemeBuilder
      → SchemeStore F L
      → Text
      → ValueType
      → Change F L IdentifierRedefinitionError
      → Type 0
  FieldAdded b s name ty r =
      ((i : ℕ) × (t : SchemeStore F L) × (r
          ≡ done (ok tt, with_item b name (SchemeItem.field i), t))
        × (get b.items name ≡ none)
        × HasField t i name ty
        × Extends s t
        × IsConsistent t
        × IsResolved (insert b.items name (SchemeItem.field i)) t)
      ⊎ ((e : IdentifierRedefinitionError) × (r ≡ done (err e, b, s))
          × (NameTaken name (get b.items name) e
              ⊎ ((old : ValueType) × (i : ℕ) × HasField s i name old
                  × (old ≢ ty)
                  × (e ≡ field_type_mismatch name old ty))))

  -- Adding a field to a scheme on a consistent store in which its names resolve never panics. If it
  -- succeeds, the name was new in the scheme and stands for a field with that name and the given type, the
  -- store is consistent and keeps its entries, and every name of the scheme resolves. Otherwise the scheme and the store are as
  -- before, and either the scheme has the name, for a field or a function as the error says, or the store gives
  -- it another type, which the error names.
  pub add_field_full-resolves :
      (b : SchemeBuilder) (s : SchemeStore F L) (name : Text) (ty : ValueType) (optional : Bool)
      → IsConsistent s
      → IsResolved b.items s
      → FieldAdded b s name ty (add_field_full b s name ty optional)
  unfolding add_field_full
  add_field_full-resolves b s name ty optional w v =
      elim (Option-cases (occupied name (get b.items name))) [
        | inr (e, p) ↦
            inr (e, rw (p, add_field_full), inl (occupied-NameTaken name (get b.items name) e p))
        | inl p ↦ elim (get_or_add_field-Registered s name ty optional b.scheme_id w) [
          | inl (i, t, r, has, more, w') ↦ inl (
            i,
            t,
            rw (p, add_field_full) (ap (insert_field b name) r),
            occupied-none name (get b.items name) p,
            has,
            more,
            w',
            IsResolved-insert b.items t name (SchemeItem.field i)
                (IsResolved-Extends b.items s t more v) (ty, has),
          )
          | inr (i, old, r, has, differs) ↦ inr (
            field_type_mismatch name old ty,
            rw (p, add_field_full) (ap (insert_field b name) r),
            inr (old, i, has, differs, refl),
          )
        ]
      ]

  -- `Scheme::get_field` finds a field that was just added, at an index where the store has the name and
  -- the type it was added with, and still does so after other schemes have extended the store.
  pub get_field-add_field_full :
      (b b' : SchemeBuilder) (s t u : SchemeStore F L) (name : Text) (ty : ValueType)
      (optional : Bool)
      → IsConsistent s
      → IsResolved b.items s
      → add_field_full b s name ty optional ≡ done (ok tt, b', t)
      → Extends t u
      → (i : ℕ) × (get_field (build b') name
          ≡ ok (record { scheme_store = b'.scheme_store; index = i }))
        × HasField u i name ty
  unfolding get_field get_identifier
  get_field-add_field_full b b' s t u name ty optional w v e x =
      elim (add_field_full-resolves b s name ty optional w v) [
        | inl (i, t', r, new_name, (d, at, n, p), more, w', v') ↦
            let q : ◌≡◌ {A = Change F L IdentifierRedefinitionError}
                (done (ok tt, with_item b name (SchemeItem.field i), t')) (done (ok tt, b', t)) =
              sym r ∙ e in
            let builder : with_item b name (SchemeItem.field i) ≡ b' = cc in
            let store : t' ≡ t = cc in
            let found : get b'.items name ≡ some (SchemeItem.field i) =
              rw (sym builder) (get-insert b.items name (SchemeItem.field i)) in
            (
              i,
              rw (get_field, get_identifier, found),
              (d, x.same_fields i d (rw store at at), n, p),
            )
        | inr (k, r, _) ↦ cc
      ]
