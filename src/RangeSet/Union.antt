-- ===== src/RangeSet/Union.antt =====
-- engine/src/range_set.rs: the values that ranges hold, through sorting and merging.
use wirefilter.Prelude.{
  ◌≡◌, refl, ◌∙◌, ap, Bool, true, false, ◌&&◌, ◌||◌, List, [], ◌∷◌, arith, any, inl, inr,
  Bool-cases,
}
use wirefilter.Prelude.Order.{Ord, le?}
use wirefilter.RangeSet.{RangeInclusive, insert_range, sort_by_start, merge_into, dedup_from, dedup}

module _ {A : Type 0} ⦃o : Ord A⦄ where
  -- Whether a range holds a value.
  abbrev pub in_range : A → RangeInclusive A → Bool
  in_range v r = le? r.start v && le? v r.end

  abbrev pub StartsFrom : A → List (RangeInclusive A) → Type 0
  StartsFrom a [] = Unit
  StartsFrom a (r ∷ rs) = (le? a r.start ≡ true) × StartsFrom a rs

  abbrev pub IsSorted : List (RangeInclusive A) → Type 0
  IsSorted [] = Unit
  IsSorted (r ∷ rs) = StartsFrom r.start rs × IsSorted rs

  StartsFrom-trans :
      (a b : A) (rs : List (RangeInclusive A)) → le? a b ≡ true → StartsFrom b rs → StartsFrom a rs
  StartsFrom-trans a b [] h s = tt
  StartsFrom-trans a b (r ∷ rs) h s = (o.le_trans a b r.start h s.0, StartsFrom-trans a b rs h s.1)

  any-insert_range :
      (v : A) (r : RangeInclusive A) (rs : List (RangeInclusive A))
      → any (in_range v) (insert_range r rs) ≡ (in_range v r || any (in_range v) rs)
  unfolding insert_range
  any-insert_range v r [] = refl
  any-insert_range v r (q ∷ qs) = ground (arith, any-insert_range v r qs)

  pub any-sort_by_start :
      (v : A) (rs : List (RangeInclusive A))
      → any (in_range v) (sort_by_start rs) ≡ any (in_range v) rs
  unfolding sort_by_start
  any-sort_by_start v [] = refl
  any-sort_by_start v (r ∷ rs) =
      any-insert_range v r (sort_by_start rs) ∙ ap (λ b. in_range v r || b) (any-sort_by_start v rs)

  -- Two ranges that touch cover together what the merged range covers.
  in_range-merge_into :
      (v : A) (a b : RangeInclusive A)
      → le? a.start b.start ≡ true
      → le? b.start a.end ≡ true
      → in_range v (merge_into a b) ≡ (in_range v a || in_range v b)
  in_range-merge_into v a b h k = ground (
    arith,
    o.le_total b.start v,
    o.le_total b.end a.end,
    o.le_trans v b.start a.end,
    o.le_trans v a.end b.end,
    o.le_trans a.start b.start v,
    o.le_trans v b.end a.end,
  )

  start-merge_into : (a b : RangeInclusive A) → (merge_into a b).start ≡ a.start
  start-merge_into a b = ground arith

  any-dedup_from :
      (v : A) (a : RangeInclusive A) (rs : List (RangeInclusive A))
      → StartsFrom a.start rs
      → IsSorted rs
      → any (in_range v) (dedup_from a rs) ≡ (in_range v a || any (in_range v) rs)
  unfolding dedup_from
  any-dedup_from v a [] s t = refl
  any-dedup_from v a (b ∷ rs) s t = elim (Bool-cases (le? b.start a.end)) [
    | inl touch ↦ rw touch (
        any-dedup_from v (merge_into a b) rs
          (rw start-merge_into (StartsFrom-trans a.start b.start rs s.0 t.0)) t.1
        ∙ ground (arith, in_range-merge_into v a b s.0 touch))
    | inr apart ↦ rw apart (ap (λ r. in_range v a || r) (any-dedup_from v b rs t.0 t.1))
  ]

  -- Each range ends before the next begins.
  abbrev pub Above : RangeInclusive A → List (RangeInclusive A) → Type 0
  Above a [] = Unit
  Above a (r ∷ rs) = (le? r.start a.end ≡ false) × (le? a.start r.start ≡ true) × Above a rs

  abbrev pub IsSeparated : List (RangeInclusive A) → Type 0
  IsSeparated [] = Unit
  IsSeparated (r ∷ rs) = Above r rs × IsSeparated rs

  le?_refl : (a : A) → le? a a ≡ true
  le?_refl a = ground (arith, o.le_total a a)

  StartsFrom-dedup_from :
      (c : A) (a : RangeInclusive A) (rs : List (RangeInclusive A))
      → le? c a.start ≡ true
      → StartsFrom c rs
      → StartsFrom c (dedup_from a rs)
  unfolding dedup_from
  StartsFrom-dedup_from c a [] h s = (h, tt)
  StartsFrom-dedup_from c a (b ∷ rs) h s = elim (Bool-cases (le? b.start a.end)) [
    | inl touch ↦ rw touch (StartsFrom-dedup_from c (merge_into a b) rs (rw start-merge_into h) s.1)
    | inr apart ↦ rw apart (h, StartsFrom-dedup_from c b rs s.0 s.1)
  ]

  Above-StartsFrom :
      (a : RangeInclusive A) (c : A) (rs : List (RangeInclusive A))
      → le? c a.end ≡ false
      → le? a.start c ≡ true
      → StartsFrom c rs
      → Above a rs
  Above-StartsFrom a c [] h k s = tt
  Above-StartsFrom a c (r ∷ rs) h k s = (
    ground (arith, o.le_trans c r.start a.end),
    o.le_trans a.start c r.start k s.0,
    Above-StartsFrom a c rs h k s.1,
  )

  dedup_from-IsSeparated :
      (a : RangeInclusive A) (rs : List (RangeInclusive A))
      → StartsFrom a.start rs
      → IsSorted rs
      → IsSeparated (dedup_from a rs)
  unfolding dedup_from
  dedup_from-IsSeparated a [] s t = (tt, tt)
  dedup_from-IsSeparated a (b ∷ rs) s t = elim (Bool-cases (le? b.start a.end)) [
    | inl touch ↦ rw touch (
        dedup_from-IsSeparated (merge_into a b) rs
          (rw start-merge_into (StartsFrom-trans a.start b.start rs s.0 t.0)) t.1)
    | inr apart ↦ rw apart (
      Above-StartsFrom a b.start (dedup_from b rs) apart s.0
          (StartsFrom-dedup_from b.start b rs (le?_refl b.start) t.0),
      dedup_from-IsSeparated b rs t.0 t.1,
    )
  ]

  insert_range-StartsFrom :
      (c : A) (r : RangeInclusive A) (rs : List (RangeInclusive A))
      → le? c r.start ≡ true
      → StartsFrom c rs
      → StartsFrom c (insert_range r rs)
  unfolding insert_range
  insert_range-StartsFrom c r [] h s = (h, tt)
  insert_range-StartsFrom c r (q ∷ qs) h s = ground (arith, insert_range-StartsFrom c r qs h s.1)

  insert_range-IsSorted :
      (r : RangeInclusive A) (rs : List (RangeInclusive A))
      → IsSorted rs
      → IsSorted (insert_range r rs)
  unfolding insert_range
  insert_range-IsSorted r [] t = (tt, tt)
  insert_range-IsSorted r (q ∷ qs) t = elim (Bool-cases (le? r.start q.start)) [
    | inl here ↦ rw here ((here, StartsFrom-trans r.start q.start qs here t.0), t)
    | inr later ↦ rw later (
      insert_range-StartsFrom q.start r qs (o.le_total r.start q.start later) t.0,
      insert_range-IsSorted r qs t.1,
    )
  ]

  pub sort_by_start-IsSorted : (rs : List (RangeInclusive A)) → IsSorted (sort_by_start rs)
  unfolding sort_by_start
  sort_by_start-IsSorted [] = tt
  sort_by_start-IsSorted (r ∷ rs) =
      insert_range-IsSorted r (sort_by_start rs) (sort_by_start-IsSorted rs)

  pub dedup-IsSeparated : (rs : List (RangeInclusive A)) → IsSorted rs → IsSeparated (dedup rs)
  unfolding dedup
  dedup-IsSeparated [] t = tt
  dedup-IsSeparated (a ∷ rs) t = dedup_from-IsSeparated a rs t.0 t.1

  pub any-dedup :
      (v : A) (rs : List (RangeInclusive A))
      → IsSorted rs
      → any (in_range v) (dedup rs) ≡ any (in_range v) rs
  unfolding dedup
  any-dedup v [] t = refl
  any-dedup v (a ∷ rs) t = any-dedup_from v a rs t.0 t.1
