-- ===== src/Context/Typed.antt =====
-- engine/src/execution_context.rs: contexts whose values have the types of their fields.
use wirefilter.Prelude.{
  ℕ, zero, suc, ◌<◌, ◌≡◌, ◌≢◌, refl, ap, sym, subst, Bool, Option, none, some, List, [], ◌∷◌, ◌⊎◌,
  inl, inr, length, get_elem?, set, replicate, Bool-cases, Option-cases, arith,
}
use wirefilter.Prelude.Outcome.{done}
use wirefilter.Value.{LhsValue, get_type}
use wirefilter.Scheme.{SchemeStore, FieldDefinition, Result, index}
use wirefilter.Scheme.Builder.{Scheme}
use wirefilter.Scheme.Keys.{type_eq, type_eq_sound, text_key}
use wirefilter.Context.{
  ExecutionContext, new_with, SetFieldValueError, write, replace_typed, assign_if_none,
}

module _ {A : Type 0} where
  pub get_elem?-set :
      (xs : List A) (i : ℕ) (v : A) → i < length xs → get_elem? (set xs i v) i ≡ some v
  get_elem?-set [] i v h = absurd (omega arith)
  get_elem?-set (x ∷ xs) zero v h = refl
  get_elem?-set (x ∷ xs) (suc i) v h = get_elem?-set xs i v (omega arith)

  pub get_elem?-set-other :
      (xs : List A) (i j : ℕ) (v : A) → i ≢ j → get_elem? (set xs i v) j ≡ get_elem? xs j
  get_elem?-set-other [] i j v n = refl
  get_elem?-set-other (x ∷ xs) zero zero v n = absurd (n refl)
  get_elem?-set-other (x ∷ xs) zero (suc j) v n = refl
  get_elem?-set-other (x ∷ xs) (suc i) zero v n = refl
  get_elem?-set-other (x ∷ xs) (suc i) (suc j) v n =
      get_elem?-set-other xs i j v (λ e. n (ap suc e))

  -- What stands at a position after a write stood there before, or is what was written.
  pub set-cases :
      (xs : List A) (i j : ℕ) (v w : A)
      → get_elem? (set xs i v) j ≡ some w
      → (get_elem? xs j ≡ some w) ⊎ ((i ≡ j) × (v ≡ w))
  set-cases [] i j v w e = cc
  set-cases (x ∷ xs) zero zero v w e = inr (refl, cc)
  set-cases (x ∷ xs) zero (suc j) v w e = inl e
  set-cases (x ∷ xs) (suc i) zero v w e = inl e
  set-cases (x ∷ xs) (suc i) (suc j) v w e = elim (set-cases xs i j v w e) [
    | inl p ↦ inl p
    | inr (p, q) ↦ inr (ap suc p, q)
  ]

  pub replicate-some : (n i : ℕ) (a b : A) → get_elem? (replicate n a) i ≡ some b → a ≡ b
  replicate-some zero i a b e = cc
  replicate-some (suc n) zero a b e = cc
  replicate-some (suc n) (suc i) a b e = replicate-some n i a b e

module _ {F L M U : Type 0} where
  -- A value that the context holds has the type of the field at its position.
  abbrev pub IsTypedContext : SchemeStore F L → ExecutionContext M U → Type 0
  IsTypedContext s c =
      (i : ℕ) (v : LhsValue)
      → get_elem? c.values i ≡ some (some v)
      → (d : FieldDefinition) × (get_elem? s.fields i ≡ some d) × (d.ty ≡ get_type v)

  -- A new context has a place for each field of the store, and no value.
  pub new_with-IsTypedContext :
      (new_matcher : L → M) (scheme : Scheme) (s : SchemeStore F L) (u : U)
      → IsTypedContext s (new_with new_matcher scheme s u)
  unfolding new_with
  new_with-IsTypedContext new_matcher scheme s u i v e =
      let p = replicate-some (length s.fields) i none (some v) e in cc

  pub write-IsTypedContext :
      (s : SchemeStore F L) (c : ExecutionContext M U) (i : ℕ) (v : LhsValue) (d : FieldDefinition)
      → IsTypedContext s c
      → get_elem? s.fields i ≡ some d
      → d.ty ≡ get_type v
      → IsTypedContext s (write c i (some v))
  write-IsTypedContext s c i v d w at t j u e = elim (set-cases c.values i j (some v) (some u) e) [
    | inl p ↦ w j u p
    | inr (p, q) ↦ let r : v ≡ u = cc in (d, rw (sym p) at, rw (sym r) t)
  ]

  pub replace_typed-IsTypedContext :
      (s : SchemeStore F L) (c c' : ExecutionContext M U) (i : ℕ) (v : LhsValue)
      (r : Result (Option LhsValue) SetFieldValueError)
      → IsTypedContext s c
      → replace_typed c i v (index s i) ≡ done (r, c')
      → IsTypedContext s c'
  replace_typed-IsTypedContext s c c' i v r w e = elim (Option-cases (get_elem? s.fields i)) [
    | inl h ↦ cc (rw h at e)
    | inr (d, at) ↦ elim (Bool-cases (type_eq d.ty (get_type v))) [
      | inl t ↦ elim (Option-cases (get_elem? c.values i)) [
        | inl n ↦ cc (rw (at, t, n) at e)
        | inr (old, o) ↦
            let p = rw (at, t, o) at e in
            let q : write c i (some v) ≡ c' = cc in
            subst (IsTypedContext s) q
              (write-IsTypedContext s c i v d w at (type_eq_sound d.ty (get_type v) t))
      ]
      | inr t ↦ let p = rw (at, t) at e in let q : c ≡ c' = cc in subst (IsTypedContext s) q w
    ]
  ]

  pub assign_if_none-IsTypedContext :
      (s : SchemeStore F L) (c c' : ExecutionContext M U) (i : ℕ) (f : Unit {0} → LhsValue)
      (r : Result Bool SetFieldValueError)
      → IsTypedContext s c
      → assign_if_none c i f (index s i) (get_elem? c.values i) ≡ done (r, c')
      → IsTypedContext s c'
  assign_if_none-IsTypedContext s c c' i f r w e = by_value (get_elem? c.values i) e
    where
      by_value :
          (o : Option (Option LhsValue))
          → assign_if_none c i f (index s i) o ≡ done (r, c')
          → IsTypedContext s c'
      by_value none p = cc
      by_value (some (some old)) p = let q : c ≡ c' = cc in subst (IsTypedContext s) q w
      by_value (some none) p = elim (Option-cases (get_elem? s.fields i)) [
        | inl h ↦ cc (rw h at p)
        | inr (d, at) ↦ elim (Bool-cases (type_eq d.ty (get_type (f tt)))) [
          | inl t ↦
              let p' = rw (at, t) at p in
              let q : write c i (some (f tt)) ≡ c' = cc in
              subst (IsTypedContext s) q
                (write-IsTypedContext s c i (f tt) d w at (type_eq_sound d.ty (get_type (f tt)) t))
          | inr t ↦ let p' = rw (at, t) at p in let q : c ≡ c' = cc in subst (IsTypedContext s) q w
        ]
      ]
