-- ===== src/Tests/Sets.antt =====
-- Range sets and comparisons.
use wirefilter.Prelude.{ℕ, ◌≡◌, refl, Ordering, compare, List, [], ◌∷◌, any, arith, some}
use wirefilter.Prelude.Order.{nat_ord}
use wirefilter.Prelude.Int.{pos, negsuc}
use wirefilter.Prelude.Outcome.{done}
use wirefilter.RangeSet.{RangeInclusive, from_vec, contains}
use wirefilter.RangeSet.Union.{in_range}
use wirefilter.RangeSet.Search.{IsMonotone}
use wirefilter.RangeSet.Contract.{contains-from_vec}
use wirefilter.Value.{LhsValue, IpAddr}
use wirefilter.Compare.{
  compare_ordering, RhsValue, matches_opt, less_than, one_of_ip, ExplicitIpRange,
}
use wirefilter.Compare.Laws.{compare_ordering-matches_opt, one_of_ip-any, in_ip_range}

abbrev range : ℕ → ℕ → RangeInclusive ℕ
range a b = record { start = a; end = b }

-- Out of order, with two that overlap and one that is empty.
abbrev ranges : List (RangeInclusive ℕ)
ranges = range 20 25 ∷ range 1 5 ∷ range 3 9 ∷ range 8 7 ∷ []

contains-from_vec_example : contains (from_vec ranges) 7 ≡ any (in_range 7) ranges
contains-from_vec_example = contains-from_vec 7 ranges

abbrev around_two : ℕ → Ordering
around_two i = compare i 2

around_two-IsMonotone : IsMonotone around_two
around_two-IsMonotone i j h n = ground arith

compare_ordering-matches_opt_example :
    compare_ordering less_than (RhsValue.int (pos 3)) (LhsValue.int (negsuc 4))
    ≡ done (matches_opt less_than (some Ordering.lt))
compare_ordering-matches_opt_example =
    compare_ordering-matches_opt less_than (LhsValue.int (negsuc 4)) (RhsValue.int (pos 3))
      (some Ordering.lt) refl

abbrev networks : List ExplicitIpRange
networks =
    ExplicitIpRange.v6 (range 1 100)
    ∷ ExplicitIpRange.v4 (range 10 20)
    ∷ ExplicitIpRange.v4 (range 15 30)
    ∷ []

one_of_ip-any_example :
    one_of_ip networks (LhsValue.ip (IpAddr.v4 25))
    ≡ done (any (in_ip_range (IpAddr.v4 25)) networks)
one_of_ip-any_example = one_of_ip-any networks (IpAddr.v4 25)
