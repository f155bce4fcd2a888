-- ===== src/Scheme/Functions.antt =====
-- engine/src/scheme.rs: functions in the builder and in the scheme that it builds.
use wirefilter.Prelude.{ℕ, ◌≡◌, ap, some, none, ◌⊎◌, inl, inr, get_elem?, Option-cases}
use wirefilter.Prelude.Outcome.{done}
use wirefilter.Prelude.Map.{get, insert, get-insert}
use wirefilter.Lex.{Text}
use wirefilter.Scheme.{SchemeStore, IdentifierRedefinitionError, ok, err}
use wirefilter.Scheme.Keys.{text_key}
use wirefilter.Scheme.Store.{IsConsistent, Extends}
use wirefilter.Scheme.Entries.{get_or_add_function-IsConsistent}
use wirefilter.Scheme.Builder.{
  SchemeItem, SchemeBuilder, add_function, occupied, insert_function, build, get_function,
  get_identifier,
}
use wirefilter.Scheme.Resolve.{
  IsResolved, IsResolved-Extends, IsResolved-insert, with_item, occupied-none, NameTaken,
  occupied-NameTaken,
}

module _ {F L : Type 0} where
  -- Adding a function to a scheme on a consistent store in which its names resolve never panics. If the
  -- scheme has the name, for a field or a function, the error says for which and nothing changes. Otherwise the built scheme finds under the
  -- name a function that the store has under it, the store is consistent and keeps its entries, and every
  -- name of the scheme resolves.
  pub add_function-get_function :
      (b : SchemeBuilder) (s : SchemeStore F L) (name : Text) (f : F)
      → IsConsistent s
      → IsResolved b.items s
      → ((e : IdentifierRedefinitionError) × NameTaken name (get b.items name) e
          × (add_function b s name f ≡ done (err e, b, s)))
        ⊎ ((i : ℕ) × (g : F) × (t : SchemeStore F L) × (get b.items name ≡ none)
            × (add_function b s name f ≡ done (ok tt, with_item b name (SchemeItem.function i), t))
            × (get_function (build (with_item b name (SchemeItem.function i))) name
                ≡ ok (record { scheme_store = b.scheme_store; index = i }))
            × (get_elem? t.functions i ≡ some (name, g))
            × Extends s t
            × IsConsistent t
            × IsResolved (insert b.items name (SchemeItem.function i)) t)
  unfolding add_function get_function get_identifier
  add_function-get_function b s name f w v =
      elim (Option-cases (occupied name (get b.items name))) [
        | inr (e, p) ↦ inl (e, occupied-NameTaken name (get b.items name) e p, rw (p, add_function))
        | inl p ↦
            let (i, t, r, (g, at), more, w') = get_or_add_function-IsConsistent s name f w in
            inr (
              i,
              g,
              t,
              occupied-none name (get b.items name) p,
              rw (p, add_function) (ap (insert_function b name) r),
              rw (get_function, get_identifier, get-insert b.items name (SchemeItem.function i)),
              at,
              more,
              w',
              IsResolved-insert b.items t name (SchemeItem.function i)
                  (IsResolved-Extends b.items s t more v) (g, at),
            )
      ]
