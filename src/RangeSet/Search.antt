-- ===== src/RangeSet/Search.antt =====
-- engine/src/range_set.rs: the bisection.
use wirefilter.Prelude.{
  ℕ, zero, suc, ◌+◌, ◌-◌, ◌/◌, ◌<◌, ◌≤◌, ◌≡◌, ◌≢◌, refl, sym, ◌∙◌, Ordering, true, List, [], ◌∷◌,
  arith, leb, length, any, inl, inr, Bool-cases, or_cases,
}
use wirefilter.Prelude.Order.{Ord}
use wirefilter.RangeSet.{
  RangeInclusive, bisect, next_base, binary_search_is_ok, compare_range, compare_at, contains,
}
use wirefilter.RangeSet.Union.{in_range, Above, IsSeparated}

-- The comparisons along the slice: less, then equal at most once, then greater.
abbrev pub IsMonotone : (ℕ → Ordering) → Type 0
IsMonotone cmp_at = (i j : ℕ) → i < j → cmp_at j ≢ Ordering.gt → cmp_at i ≡ Ordering.lt

-- A round keeps the index of an equal range between its bounds.
next_base_bounds :
    (cmp_at : ℕ → Ordering) (base size j : ℕ)
    → IsMonotone cmp_at
    → cmp_at j ≡ Ordering.eq
    → base ≤ j
    → j < base + size
    → let next = next_base (cmp_at (base + size / 2)) base (base + size / 2) in
      (next ≤ j) × (j < next + (size - size / 2))
next_base_bounds cmp_at base size j m e lo hi =
    ground (arith, m (base + size / 2) j, m j (base + size / 2))

-- Where the comparisons along the indexes are less, then equal at most once, then greater, the bisection
-- of a stretch that holds the equal index ends at it, in as many rounds as the stretch is long.
pub bisect-finds :
    (cmp_at : ℕ → Ordering) (rounds base size j : ℕ)
    → IsMonotone cmp_at
    → cmp_at j ≡ Ordering.eq
    → base ≤ j
    → j < base + size
    → size ≤ rounds
    → bisect cmp_at rounds base size ≡ j
unfolding bisect
bisect-finds cmp_at zero base size j m e lo hi f = absurd (omega arith)
bisect-finds cmp_at (suc rounds) base size j m e lo hi f = elim (Bool-cases (leb size 1)) [
  | inl last ↦ ground arith
  | inr more ↦
      let (lo', hi') = next_base_bounds cmp_at base size j m e lo hi in
      rw more (bisect-finds cmp_at rounds _ (size - size / 2) j m e lo' hi' (ground arith))
]

module _ {A : Type 0} ⦃o : Ord A⦄ where
  compare_at-any :
      (v : A) (rs : List (RangeInclusive A)) (j : ℕ)
      → compare_at v rs j ≡ Ordering.eq
      → any (in_range v) rs ≡ true
  compare_at-any v [] j e = cc
  compare_at-any v (r ∷ rs) zero e = ground arith
  compare_at-any v (r ∷ rs) (suc j) e = ground (arith, compare_at-any v rs j e)

  any-compare_at :
      (v : A) (rs : List (RangeInclusive A))
      → any (in_range v) rs ≡ true
      → (j : ℕ) × (compare_at v rs j ≡ Ordering.eq) × (j < length rs)
  any-compare_at v [] h = cc
  any-compare_at v (r ∷ rs) h = elim (or_cases (in_range v r) (any (in_range v) rs) h) [
    | inl here ↦ (0, ground arith, omega arith)
    | inr later ↦ let (j, e, l) = any-compare_at v rs later in (suc j, e, omega arith)
  ]

  Above-compare_at :
      (v : A) (a : RangeInclusive A) (rs : List (RangeInclusive A)) (j : ℕ)
      → Above a rs
      → compare_at v rs j ≢ Ordering.gt
      → compare_range v a ≡ Ordering.lt
  Above-compare_at v a [] j h g = absurd (g refl)
  Above-compare_at v a (r ∷ rs) zero h g =
      ground (arith, o.le_trans r.start v a.end, o.le_trans a.start r.start v)
  Above-compare_at v a (r ∷ rs) (suc j) h g = Above-compare_at v a rs j h.2 g

  compare_at-IsMonotone :
      (v : A) (rs : List (RangeInclusive A)) → IsSeparated rs → IsMonotone (compare_at v rs)
  compare_at-IsMonotone v [] h i j l g = absurd (g refl)
  compare_at-IsMonotone v (r ∷ rs) h zero zero l g = absurd (omega arith)
  compare_at-IsMonotone v (r ∷ rs) h zero (suc j) l g = Above-compare_at v r rs j h.0 g
  compare_at-IsMonotone v (r ∷ rs) h (suc i) zero l g = absurd (omega arith)
  compare_at-IsMonotone v (r ∷ rs) h (suc i) (suc j) l g =
      compare_at-IsMonotone v rs h.1 i j (omega arith) g

  -- What the search reports, read as a comparison at some index.
  is_ok-any :
      (v : A) (rs : List (RangeInclusive A)) → contains rs v ≡ true → any (in_range v) rs ≡ true
  unfolding contains binary_search_is_ok
  is_ok-any v [] h = cc
  is_ok-any v (r ∷ rs) h =
      compare_at-any v (r ∷ rs)
        (bisect (compare_at v (r ∷ rs)) (length (r ∷ rs)) 0 (length (r ∷ rs))) (ground arith)

  any-is_ok :
      (v : A) (rs : List (RangeInclusive A))
      → IsSeparated rs
      → any (in_range v) rs ≡ true
      → contains rs v ≡ true
  unfolding contains binary_search_is_ok
  any-is_ok v [] h e = cc
  any-is_ok v (r ∷ rs) h e =
      let (j, eq, l) = any-compare_at v (r ∷ rs) e in
      let n = length (r ∷ rs) in
      rw (
        bisect-finds (compare_at v (r ∷ rs)) n 0 n j (compare_at-IsMonotone v (r ∷ rs) h) eq
            (omega arith) (omega arith) (omega arith),
        eq,
      )

  -- Over separated ranges the bisection answers whether some range holds the value.
  pub contains-IsSeparated :
      (v : A) (rs : List (RangeInclusive A)) → IsSeparated rs → contains rs v ≡ any (in_range v) rs
  contains-IsSeparated v rs h = elim (Bool-cases (any (in_range v) rs)) [
    | inl held ↦ any-is_ok v rs h held ∙ sym held
    | inr out ↦ elim (Bool-cases (contains rs v)) [
      | inl found ↦ cc (is_ok-any v rs found)
      | inr missed ↦ missed ∙ sym out
    ]
  ]
