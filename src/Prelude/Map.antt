-- ===== src/Prelude/Map.antt =====
-- Hash maps as association lists, and the vectors of entries that such a map indexes by key.
use wirefilter.Prelude.{
  ℕ, zero, suc, ◌<◌, ◌≡◌, refl, Bool, true, Option, none, some, List, [], ◌∷◌, ◌++◌, if◌then◌else◌,
  length, get_elem?, arith, Bool-cases, ◌⊎◌, inl, inr, ap, subst,
}

-- A type of keys, in place of the traits `Eq` and `Hash`.
pub record Key (K : Type 0) : Type 0 where
  pub eq : K → K → Bool
  pub eq_refl : (a : K) → eq a a ≡ true
  pub eq_sound : (a b : K) → eq a b ≡ true → a ≡ b

abbrev pub HashMap : Type 0 → Type 0 → Type 0
HashMap K V = List (K × V)

module _ {K : Type 0} ⦃key : Key K⦄ where
  abbrev pub same : K → K → Bool
  same a b = key.eq a b

  abbrev pub get : {V : Type 0} → HashMap K V → K → Option V
  get [] k = none
  get ((k', v) ∷ m) k = if same k' k then some v else get m k

  abbrev pub insert : {V : Type 0} → HashMap K V → K → V → HashMap K V
  insert m k v = (k, v) ∷ m

  pub get-insert : {V : Type 0} (m : HashMap K V) (k : K) (v : V) → get (insert m k v) k ≡ some v
  get-insert m k v = rw (key.eq_refl k)

  pub get-insert-some :
      {V : Type 0} (m : HashMap K V) (k k' : K) (v w : V)
      → get m k ≡ none
      → get m k' ≡ some w
      → get (insert m k v) k' ≡ some w
  get-insert-some m k k' v w h e = elim (Bool-cases (same k k')) [
    | inl p ↦ absurd (cc (key.eq_sound k k' p))
    | inr p ↦ rw (p, e)
  ]

  -- The map holds the position of each entry under the key of the entry, and nothing else.
  pub record IsIndex {A : Type 0} (key_of : A → K) (xs : List A) (m : HashMap K ℕ) : Type 0 where
    pub at_position :
        (k : K) (i : ℕ) → get m k ≡ some i → (x : A) × (get_elem? xs i ≡ some x) × (key_of x ≡ k)
    pub has_position : (i : ℕ) (x : A) → get_elem? xs i ≡ some x → get m (key_of x) ≡ some i

module _ {A : Type 0} where
  pub get_elem?-lt : (xs : List A) (i : ℕ) (x : A) → get_elem? xs i ≡ some x → i < length xs
  get_elem?-lt [] i x e = cc
  get_elem?-lt (y ∷ xs) zero x e = omega arith
  get_elem?-lt (y ∷ xs) (suc i) x e = omega (arith, get_elem?-lt xs i x e)

  pub get_elem?-append :
      (xs ys : List A) (i : ℕ) (x : A) → get_elem? xs i ≡ some x → get_elem? (xs ++ ys) i ≡ some x
  get_elem?-append [] ys i x e = cc
  get_elem?-append (y ∷ xs) ys zero x e = e
  get_elem?-append (y ∷ xs) ys (suc i) x e = get_elem?-append xs ys i x e

  pub get_elem?-last : (xs : List A) (x : A) → get_elem? (xs ++ x ∷ []) (length xs) ≡ some x
  get_elem?-last [] x = refl
  get_elem?-last (y ∷ xs) x = get_elem?-last xs x

  -- An element of a list with one more at the end is an old one, or the new one.
  pub get_elem?-pushed :
      (xs : List A) (x : A) (i : ℕ) (y : A)
      → get_elem? (xs ++ x ∷ []) i ≡ some y
      → (get_elem? xs i ≡ some y) ⊎ ((i ≡ length xs) × (y ≡ x))
  get_elem?-pushed [] x zero y e = inr (refl, cc)
  get_elem?-pushed [] x (suc i) y e = cc
  get_elem?-pushed (z ∷ xs) x zero y e = inl e
  get_elem?-pushed (z ∷ xs) x (suc i) y e = elim (get_elem?-pushed xs x i y e) [
    | inl p ↦ inl p
    | inr (p, q) ↦ inr (ap suc p, q)
  ]

module _ {K : Type 0} {A : Type 0} ⦃key : Key K⦄ where
  -- An entry whose key is new may be pushed and inserted.
  pub IsIndex-push :
      (key_of : A → K) (xs : List A) (m : HashMap K ℕ) (x : A)
      → IsIndex key_of xs m
      → get m (key_of x) ≡ none
      → IsIndex key_of (xs ++ x ∷ []) (insert m (key_of x) (length xs))
  IsIndex-push key_of xs m x w h = record { at_position = found; has_position = indexed }
    where
      found :
          (k : K) (i : ℕ)
          → get (insert m (key_of x) (length xs)) k ≡ some i
          → (y : A) × (get_elem? (xs ++ x ∷ []) i ≡ some y) × (key_of y ≡ k)
      found k i e = elim (Bool-cases (same (key_of x) k)) [
        | inl p ↦
            let at : length xs ≡ i = cc (rw p at e) in
            (
              x,
              subst (λ n. get_elem? (xs ++ x ∷ []) n ≡ some x) at (get_elem?-last xs x),
              key.eq_sound (key_of x) k p,
            )
        | inr p ↦
            let (y, a, b) = w.at_position k i (rw p at e) in
            (y, get_elem?-append xs (x ∷ []) i y a, b)
      ]

      indexed :
          (i : ℕ) (y : A)
          → get_elem? (xs ++ x ∷ []) i ≡ some y
          → get (insert m (key_of x) (length xs)) (key_of y) ≡ some i
      indexed i y e = elim (get_elem?-pushed xs x i y e) [
        | inl p ↦ get-insert-some m (key_of x) (key_of y) (length xs) i h (w.has_position i y p)
        | inr (p, q) ↦ rw (p, q) (get-insert m (key_of x) (length xs))
      ]
