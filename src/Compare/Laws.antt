-- ===== src/Compare/Laws.antt =====
-- engine/src/ast/field_expr.rs: three-way comparisons, and membership in lists of ranges.
use wirefilter.Prelude.{
  ℕ, Ordering, compare, ◌≡◌, refl, ap, ◌∙◌, Bool, true, false, not, ◌||◌, Option, none, some, List,
  [], ◌∷◌, any, arith,
}
use wirefilter.Prelude.Int.{ℤ, leb_ℤ, int_ord}
use wirefilter.Prelude.Order.{nat_ord}
use wirefilter.Prelude.Outcome.{done}
use wirefilter.Rhs.Bytes.{Bytes}
use wirefilter.Value.{LhsValue, IpAddr, bytes_eq}
use wirefilter.RangeSet.{RangeInclusive}
use wirefilter.RangeSet.Union.{in_range}
use wirefilter.RangeSet.Contract.{contains-from_vec}
use wirefilter.Compare.{
  OrderingOp, matches, matches_opt, strict_partial_cmp, operate, int_eq, bytes_le, RhsValue,
  compare_ordering, one_of_int, one_of_ip, ExplicitIpRange, v4_ranges, v6_ranges,
}

-- The order of the integers and of the byte strings, with three outcomes.
abbrev pub compare_ints : ℤ → ℤ → Ordering
compare_ints (ℤ.pos a) (ℤ.pos b) = compare a b
compare_ints (ℤ.pos a) (ℤ.negsuc b) = Ordering.gt
compare_ints (ℤ.negsuc a) (ℤ.pos b) = Ordering.lt
compare_ints (ℤ.negsuc a) (ℤ.negsuc b) = compare b a

abbrev pub then_compare : Ordering → Ordering → Ordering
then_compare Ordering.eq o = o
then_compare o _ = o

abbrev pub compare_bytes : Bytes → Bytes → Ordering
compare_bytes [] [] = Ordering.eq
compare_bytes [] (y ∷ ys) = Ordering.lt
compare_bytes (x ∷ xs) [] = Ordering.gt
compare_bytes (x ∷ xs) (y ∷ ys) = then_compare (compare x y) (compare_bytes xs ys)

abbrev pub is_eq : Ordering → Bool
is_eq Ordering.eq = true
is_eq _ = false

abbrev pub is_le : Ordering → Bool
is_le Ordering.gt = false
is_le _ = true

-- The bit masks express the operators on every outcome.
matches-operate :
    {A : Type 0} (eq le : A → A → Bool) (op : OrderingOp) (a b : A) (o : Ordering)
    → eq a b ≡ is_eq o
    → le a b ≡ is_le o
    → le b a ≡ (is_eq o || not (is_le o))
    → operate eq le op a b ≡ matches op o
unfolding matches
matches-operate eq le op a b o e l g = ground (arith, e, l, g)

ints_eq : (a b : ℤ) → int_eq a b ≡ is_eq (compare_ints a b)
ints_eq a b = ground arith

ints_le : (a b : ℤ) → leb_ℤ a b ≡ is_le (compare_ints a b)
ints_le a b = ground arith

ints_ge : (a b : ℤ) → leb_ℤ b a ≡ (is_eq (compare_ints a b) || not (is_le (compare_ints a b)))
ints_ge a b = ground arith

bytes_eq_compare : (a b : Bytes) → bytes_eq a b ≡ is_eq (compare_bytes a b)
bytes_eq_compare [] [] = refl
bytes_eq_compare [] (y ∷ ys) = refl
bytes_eq_compare (x ∷ xs) [] = refl
bytes_eq_compare (x ∷ xs) (y ∷ ys) = ground (arith, bytes_eq_compare xs ys)

bytes_le_compare : (a b : Bytes) → bytes_le a b ≡ is_le (compare_bytes a b)
bytes_le_compare [] [] = refl
bytes_le_compare [] (y ∷ ys) = refl
bytes_le_compare (x ∷ xs) [] = refl
bytes_le_compare (x ∷ xs) (y ∷ ys) = ground (arith, bytes_le_compare xs ys)

bytes_ge_compare :
    (a b : Bytes) → bytes_le b a ≡ (is_eq (compare_bytes a b) || not (is_le (compare_bytes a b)))
bytes_ge_compare [] [] = refl
bytes_ge_compare [] (y ∷ ys) = refl
bytes_ge_compare (x ∷ xs) [] = refl
bytes_ge_compare (x ∷ xs) (y ∷ ys) = ground (arith, bytes_ge_compare xs ys)

-- Three-way comparison of a value with a literal of its type; addresses of different families are not
-- comparable.
abbrev pub compare_values : LhsValue → RhsValue → Option (Option Ordering)
compare_values (LhsValue.int a) (RhsValue.int b) = some (some (compare_ints a b))
compare_values (LhsValue.bytes a) (RhsValue.bytes b) = some (some (compare_bytes a b))
compare_values (LhsValue.ip a) (RhsValue.ip b) = some (strict_partial_cmp a b)
compare_values _ _ = none

-- On a value and a literal of one type, each of the six operators, however it is run for the type,
-- is decided by its bit mask from the three-way comparison of the two.
pub compare_ordering-matches_opt :
    (op : OrderingOp) (v : LhsValue) (r : RhsValue) (o : Option Ordering)
    → compare_values v r ≡ some o
    → compare_ordering op r v ≡ done (matches_opt op o)
unfolding compare_ordering matches_opt
compare_ordering-matches_opt op (LhsValue.int a) (RhsValue.int b) o e =
    let p : some (compare_ints a b) ≡ o = cc in
    ap done (
      matches-operate int_eq leb_ℤ op a b (compare_ints a b) (ints_eq a b) (ints_le a b)
        (ints_ge a b)
      ∙ ap (matches_opt op) p)
compare_ordering-matches_opt op (LhsValue.bytes a) (RhsValue.bytes b) o e =
    let p : some (compare_bytes a b) ≡ o = cc in
    ap done (
      matches-operate bytes_eq bytes_le op a b (compare_bytes a b) (bytes_eq_compare a b)
        (bytes_le_compare a b) (bytes_ge_compare a b)
      ∙ ap (matches_opt op) p)
compare_ordering-matches_opt op (LhsValue.ip a) (RhsValue.ip b) o e =
    let p : strict_partial_cmp a b ≡ o = cc in ap (λ x. done (matches_opt op x)) p
compare_ordering-matches_opt op v r o e = cc

-- `in` on an integer holds exactly if one of the ranges holds it.
pub one_of_int-any :
    (ranges : List (RangeInclusive ℤ)) (a : ℤ)
    → one_of_int ranges (LhsValue.int a) ≡ done (any (in_range a) ranges)
unfolding one_of_int
one_of_int-any ranges a = ap done (contains-from_vec a ranges)

abbrev pub in_ip_range : IpAddr → ExplicitIpRange → Bool
in_ip_range (IpAddr.v4 a) (ExplicitIpRange.v4 r) = in_range a r
in_ip_range (IpAddr.v6 a) (ExplicitIpRange.v6 r) = in_range a r
in_ip_range _ _ = false

any-v4_ranges :
    (ranges : List ExplicitIpRange) (a : ℕ)
    → any (in_range a) (v4_ranges ranges) ≡ any (in_ip_range (IpAddr.v4 a)) ranges
any-v4_ranges [] a = refl
any-v4_ranges (ExplicitIpRange.v4 r ∷ rs) a = ap (λ b. in_range a r || b) (any-v4_ranges rs a)
any-v4_ranges (ExplicitIpRange.v6 r ∷ rs) a = any-v4_ranges rs a

any-v6_ranges :
    (ranges : List ExplicitIpRange) (a : ℕ)
    → any (in_range a) (v6_ranges ranges) ≡ any (in_ip_range (IpAddr.v6 a)) ranges
any-v6_ranges [] a = refl
any-v6_ranges (ExplicitIpRange.v4 r ∷ rs) a = any-v6_ranges rs a
any-v6_ranges (ExplicitIpRange.v6 r ∷ rs) a = ap (λ b. in_range a r || b) (any-v6_ranges rs a)

-- `in` on an address holds exactly if a range of its own family holds it, however the ranges of the
-- two families are mixed, overlap or are ordered in the list.
pub one_of_ip-any :
    (ranges : List ExplicitIpRange) (a : IpAddr)
    → one_of_ip ranges (LhsValue.ip a) ≡ done (any (in_ip_range a) ranges)
unfolding one_of_ip
one_of_ip-any ranges (IpAddr.v4 a) =
    ap done (contains-from_vec a (v4_ranges ranges) ∙ any-v4_ranges ranges a)
one_of_ip-any ranges (IpAddr.v6 a) =
    ap done (contains-from_vec a (v6_ranges ranges) ∙ any-v6_ranges ranges a)
