-- ===== src/Compare.antt =====
-- engine/src/ast/field_expr.rs: the comparison of one value with a literal.
pub mod Laws
pub mod Parse
use wirefilter.Prelude.{
  ℕ, Ordering, compare, bit_and, Bool, true, false, not, ◌&&◌, ◌||◌, Option, none, some, List, [],
  ◌∷◌, ◌==◌, if◌then◌else◌, leb, any,
}
use wirefilter.Prelude.Order.{Ord, nat_ord}
use wirefilter.Prelude.Int.{ℤ, leb_ℤ, int_ord, to_bits}
use wirefilter.Prelude.Outcome.{Outcome, done, panic}
use wirefilter.Rhs.Bytes.{Bytes}
use wirefilter.Value.{LhsValue, IpAddr, bytes_eq}
use wirefilter.RangeSet.{RangeInclusive, from_vec, contains}
use wirefilter.Lex.{Text, LexResult, lex_enum, codes}

pub data OrderingOp : Type 0 where
  equal not_equal greater_than_equal less_than_equal greater_than less_than : OrderingOp

-- The spellings, in the order in which the generated lexer tries them.
abbrev pub ordering_op_spellings : List (Text × OrderingOp)
ordering_op_spellings =
    (codes "eq", equal)
    ∷ (codes "==", equal)
    ∷ (codes "ne", not_equal)
    ∷ (codes "!=", not_equal)
    ∷ (codes "ge", greater_than_equal)
    ∷ (codes ">=", greater_than_equal)
    ∷ (codes "le", less_than_equal)
    ∷ (codes "<=", less_than_equal)
    ∷ (codes "gt", greater_than)
    ∷ (codes ">", greater_than)
    ∷ (codes "lt", less_than)
    ∷ (codes "<", less_than)
    ∷ []

unfoldable pub lex_ordering_op : Text → LexResult OrderingOp
lex_ordering_op = lex_enum (codes "OrderingOp") ordering_op_spellings

-- The constants LESS, GREATER and EQUAL.
abbrev pub flag : Ordering → ℕ
flag Ordering.lt = 1
flag Ordering.gt = 2
flag Ordering.eq = 4

-- `self as u8`
abbrev pub mask : OrderingOp → ℕ
mask equal = 4
mask not_equal = 3
mask greater_than_equal = 6
mask less_than_equal = 5
mask greater_than = 2
mask less_than = 1

unfoldable pub matches : OrderingOp → Ordering → Bool
matches op o = not (bit_and (mask op) (flag o) == 0)

abbrev pub is_not_equal : OrderingOp → Bool
is_not_equal not_equal = true
is_not_equal _ = false

unfoldable pub matches_opt : OrderingOp → Option Ordering → Bool
unfolding matches
matches_opt op (some o) = matches op o
matches_opt op none = is_not_equal op

-- `strict_partial_cmp` of `IpAddr`
unfoldable pub strict_partial_cmp : IpAddr → IpAddr → Option Ordering
strict_partial_cmp (IpAddr.v4 a) (IpAddr.v4 b) = some (compare a b)
strict_partial_cmp (IpAddr.v6 a) (IpAddr.v6 b) = some (compare a b)
strict_partial_cmp _ _ = none

-- The operators of Rust on a type, from its equality and its order.
abbrev pub operate : {A : Type 0} → (A → A → Bool) → (A → A → Bool) → OrderingOp → A → A → Bool
operate eq le equal a b = eq a b
operate eq le not_equal a b = not (eq a b)
operate eq le greater_than_equal a b = le b a
operate eq le less_than_equal a b = le a b
operate eq le greater_than a b = not (le a b)
operate eq le less_than a b = not (le b a)

abbrev pub int_eq : ℤ → ℤ → Bool
int_eq (ℤ.pos a) (ℤ.pos b) = a == b
int_eq (ℤ.negsuc a) (ℤ.negsuc b) = a == b
int_eq _ _ = false

-- Slices of bytes are in lexicographic order.
abbrev pub bytes_le : Bytes → Bytes → Bool
bytes_le [] ys = true
bytes_le (x ∷ xs) [] = false
bytes_le (x ∷ xs) (y ∷ ys) = not (leb y x) || (x == y && bytes_le xs ys)

-- `RhsValue`, less the types that the parser never puts on the right of an ordering.
pub data RhsValue : Type 0 where
  bytes : Bytes → RhsValue
  int : ℤ → RhsValue
  ip : IpAddr → RhsValue

-- What `gen_ordering!` makes for the operator and the literal; a value of another type is unreachable.
unfoldable pub compare_ordering : OrderingOp → RhsValue → LhsValue → Outcome Bool
compare_ordering op (RhsValue.bytes b) (LhsValue.bytes a) = done (operate bytes_eq bytes_le op a b)
compare_ordering op (RhsValue.int b) (LhsValue.int a) = done (operate int_eq leb_ℤ op a b)
compare_ordering op (RhsValue.ip b) (LhsValue.ip a) = done (matches_opt op (strict_partial_cmp a b))
compare_ordering op _ _ = panic

-- The result where the left side has no value; `nil_not_equal` is the scheme's setting.
abbrev pub default_of : Bool → OrderingOp → Bool
default_of nil_not_equal not_equal = nil_not_equal
default_of nil_not_equal _ = false

unfoldable pub bitwise_and : ℤ → LhsValue → Outcome Bool
bitwise_and b (LhsValue.int a) = done (not (bit_and (to_bits a) (to_bits b) == 0))
bitwise_and b _ = panic

unfoldable pub one_of_int : List (RangeInclusive ℤ) → LhsValue → Outcome Bool
one_of_int ranges (LhsValue.int a) = done (contains (from_vec ranges) a)
one_of_int ranges _ = panic

pub data ExplicitIpRange : Type 0 where
  v4 v6 : RangeInclusive ℕ → ExplicitIpRange

abbrev pub v4_ranges : List ExplicitIpRange → List (RangeInclusive ℕ)
v4_ranges [] = []
v4_ranges (ExplicitIpRange.v4 r ∷ rs) = r ∷ v4_ranges rs
v4_ranges (ExplicitIpRange.v6 r ∷ rs) = v4_ranges rs

abbrev pub v6_ranges : List ExplicitIpRange → List (RangeInclusive ℕ)
v6_ranges [] = []
v6_ranges (ExplicitIpRange.v4 r ∷ rs) = v6_ranges rs
v6_ranges (ExplicitIpRange.v6 r ∷ rs) = r ∷ v6_ranges rs

abbrev pub contains_ip : List ExplicitIpRange → IpAddr → Bool
contains_ip ranges (IpAddr.v4 a) = contains (from_vec (v4_ranges ranges)) a
contains_ip ranges (IpAddr.v6 a) = contains (from_vec (v6_ranges ranges)) a

-- The ranges are those that `IpRange` converts to, a network being its first to its last address.
unfoldable pub one_of_ip : List ExplicitIpRange → LhsValue → Outcome Bool
one_of_ip ranges (LhsValue.ip a) = done (contains_ip ranges a)
one_of_ip ranges _ = panic

-- The `BTreeSet` of the values is a list here: a set is asked only for membership.
unfoldable pub one_of_bytes : List Bytes → LhsValue → Outcome Bool
one_of_bytes values (LhsValue.bytes a) = done (any (bytes_eq a) values)
one_of_bytes values _ = panic
