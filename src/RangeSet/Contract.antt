-- ===== src/RangeSet/Contract.antt =====
-- engine/src/range_set.rs: what `contains` answers after construction.
use wirefilter.Prelude.{◌≡◌, ◌∙◌, List, any}
use wirefilter.Prelude.Order.{Ord}
use wirefilter.RangeSet.{RangeInclusive, sort_by_start, dedup, from_vec, contains}
use wirefilter.RangeSet.Union.{
  in_range, IsSorted, any-sort_by_start, sort_by_start-IsSorted, dedup-IsSeparated, any-dedup,
}
use wirefilter.RangeSet.Search.{contains-IsSeparated}

module _ {A : Type 0} ⦃o : Ord A⦄ where
  -- However the ranges are sorted by their starts (the source's sort is not stable), the set that
  -- the merge of overlapping ranges leaves contains a value exactly if some range holds it.
  pub contains-dedup :
      (v : A) (rs : List (RangeInclusive A))
      → IsSorted rs
      → contains (dedup rs) v ≡ any (in_range v) rs
  contains-dedup v rs t =
      contains-IsSeparated v (dedup rs) (dedup-IsSeparated rs t) ∙ any-dedup v rs t

  -- A set built from any list of ranges, in any order, overlapping or empty, contains a value
  -- exactly if one of the given ranges holds it.
  pub contains-from_vec :
      (v : A) (rs : List (RangeInclusive A)) → contains (from_vec rs) v ≡ any (in_range v) rs
  unfolding from_vec
  contains-from_vec v rs =
      contains-dedup v (sort_by_start rs) (sort_by_start-IsSorted rs) ∙ any-sort_by_start v rs
