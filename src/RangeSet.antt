-- ===== src/RangeSet.antt =====
-- engine/src/range_set.rs: inclusive ranges, sorted, merged, and searched by bisection.
pub mod Union
pub mod Search
pub mod Contract
use wirefilter.Prelude.{
  ℕ, zero, suc, ◌+◌, ◌-◌, ◌/◌, Ordering, Bool, true, false, ◌&&◌, Option, none, some, List, [], ◌∷◌,
  if◌then◌else◌, leb, length, get_elem?,
}
use wirefilter.Prelude.Order.{Ord, le?, lt?}

-- `RangeInclusive<T>`
pub record RangeInclusive (A : Type 0) : Type 0 where
  pub start : A
  pub end : A

-- Where a round of the search goes on.
abbrev pub next_base : Ordering → ℕ → ℕ → ℕ
next_base Ordering.gt base mid = base
next_base _ base mid = mid

-- `slice::binary_search_by` of the standard library, up to the index that it reports. `cmp_at` is
-- the comparison at an index, and each round halves `size`, so that `size` rounds are enough.
unfoldable pub bisect : (ℕ → Ordering) → ℕ → ℕ → ℕ → ℕ
bisect cmp_at zero base size = base
bisect cmp_at (suc rounds) base size =
    let mid = base + size / 2 in
    let rest = bisect cmp_at rounds (next_base (cmp_at mid) base mid) (size - size / 2) in
    if leb size 1 then base else rest

abbrev pub is_equal : Ordering → Bool
is_equal Ordering.eq = true
is_equal _ = false

-- Whether the search ends with `Ok`.
unfoldable pub binary_search_is_ok : (ℕ → Ordering) → ℕ → Bool
unfolding bisect
binary_search_is_ok cmp_at zero = false
binary_search_is_ok cmp_at (suc n) = is_equal (cmp_at (bisect cmp_at (suc n) 0 (suc n)))

module _ {A : Type 0} ⦃o : Ord A⦄ where
  -- `sort_unstable_by_key(|range| *range.start())`
  unfoldable pub insert_range : RangeInclusive A → List (RangeInclusive A) → List (RangeInclusive A)
  insert_range r [] = r ∷ []
  insert_range r (q ∷ qs) = if le? r.start q.start then r ∷ q ∷ qs else q ∷ insert_range r qs

  unfoldable pub sort_by_start : List (RangeInclusive A) → List (RangeInclusive A)
  unfolding insert_range
  sort_by_start [] = []
  sort_by_start (r ∷ rs) = insert_range r (sort_by_start rs)

  -- What the callback of `dedup_by` writes to the range kept last.
  abbrev pub merge_into : RangeInclusive A → RangeInclusive A → RangeInclusive A
  merge_into a b = if lt? a.end b.end then record { start = a.start; end = b.end } else a

  -- `dedup_by`, with `a` the range kept last.
  unfoldable pub dedup_from : RangeInclusive A → List (RangeInclusive A) → List (RangeInclusive A)
  dedup_from a [] = a ∷ []
  dedup_from a (b ∷ rs) =
      let merged = dedup_from (merge_into a b) rs in
      let kept = a ∷ dedup_from b rs in if le? b.start a.end then merged else kept

  unfoldable pub dedup : List (RangeInclusive A) → List (RangeInclusive A)
  unfolding dedup_from
  dedup [] = []
  dedup (a ∷ rs) = dedup_from a rs

  -- `From<Vec<RangeInclusive<T>>>`
  unfoldable pub from_vec : List (RangeInclusive A) → List (RangeInclusive A)
  unfolding sort_by_start dedup
  from_vec rs = dedup (sort_by_start rs)

  -- The comparison that `contains` hands to the search.
  abbrev pub compare_range : A → RangeInclusive A → Ordering
  compare_range v r =
      if lt? v r.start then Ordering.gt else if le? v r.end then Ordering.eq else Ordering.lt

  abbrev pub compare_at : A → List (RangeInclusive A) → ℕ → Ordering
  compare_at v rs i = elim (get_elem? rs i) [ none ↦ Ordering.gt | some r ↦ compare_range v r ]

  unfoldable pub contains : List (RangeInclusive A) → A → Bool
  unfolding binary_search_is_ok
  contains rs v = binary_search_is_ok (compare_at v rs) (length rs)
