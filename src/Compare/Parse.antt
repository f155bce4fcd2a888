-- ===== src/Compare/Parse.antt =====
-- engine/src/ast/field_expr.rs: the lexer of comparisons, and the comparison that each operator makes.
-- `get_list` is the scheme's lookup of the list of a type, and `match_value` what the matcher of a list
-- in the context says.
pub mod Items
pub mod Lengths
pub mod Matches
pub mod Answers
use wirefilter.Prelude.{
  get_elem?, ℕ, zero, suc, Bool, true, false, Option, none, some, List, [], ◌∷◌, ◌++◌, ltb,
  if◌then◌else◌, length, map,
}
use wirefilter.Prelude.Int.{ℤ}
use wirefilter.Prelude.Outcome.{Outcome, done, panic}
use wirefilter.Types.{PrimitiveType, ValueType, next}
use wirefilter.Lex.{
  Text, codes, LexErrorKind, expected_name, LexResult, ok, err, expect, skip_space, span, lex_enum,
}
use wirefilter.Lex.Run.{Run, lexed, failed, panicked, out_of_fuel, lift, run_outcome, ◌>>=◌}
use wirefilter.Rhs.Int.{IntRange, lex_i64, lex_int_range}
use wirefilter.Rhs.Bytes.{Bytes, BytesExpr, lex_bytes}
use wirefilter.Rhs.External.{External}
use wirefilter.Rhs.Ip.{IpRange, lex_ip_addr, lex_ip_range, explicit_of}
use wirefilter.Rhs.ListName.{lex_list_name}
use wirefilter.Rhs.Patterns.{Wildcard, lex_regex, lex_wildcard}
use wirefilter.Value.{LhsValue}
use wirefilter.Index.Compile.{map_each_count}
use wirefilter.Index.Parse.{IndexExpr, get_type}
use wirefilter.Compare.{
  OrderingOp, lex_ordering_op, RhsValue, compare_ordering, bitwise_and, one_of_int, one_of_ip,
  one_of_bytes,
}

pub data BytesOp : Type 0 where
  contains matches wildcard strict_wildcard : BytesOp

-- `IntOp` has the one operator `BitwiseAnd`.
pub data ComparisonOp : Type 0 where
  in_set bitwise_and_op : ComparisonOp
  ordering_op : OrderingOp → ComparisonOp
  bytes_op : BytesOp → ComparisonOp

abbrev pub int_op_spellings : List (Text × Unit {0})
int_op_spellings = (codes "&", tt) ∷ (codes "bitwise_and", tt) ∷ []

abbrev pub bytes_op_spellings : List (Text × BytesOp)
bytes_op_spellings =
    (codes "contains", BytesOp.contains)
    ∷ (codes "~", BytesOp.matches)
    ∷ (codes "matches", BytesOp.matches)
    ∷ (codes "wildcard", BytesOp.wildcard)
    ∷ (codes "strict wildcard", BytesOp.strict_wildcard)
    ∷ []

abbrev pub or_bytes_op : Text → LexResult BytesOp → LexResult ComparisonOp
or_bytes_op input (ok (op, rest)) = ok (bytes_op op, rest)
or_bytes_op input (err k s) = err (expected_name (codes "ComparisonOp")) input

abbrev pub or_int_op : Text → LexResult (Unit {0}) → LexResult ComparisonOp
or_int_op input (ok (_, rest)) = ok (bitwise_and_op, rest)
or_int_op input (err k s) = or_bytes_op input (lex_enum (codes "BytesOp") bytes_op_spellings input)

abbrev pub or_ordering_op : Text → LexResult OrderingOp → LexResult ComparisonOp
or_ordering_op input (ok (op, rest)) = ok (ordering_op op, rest)
or_ordering_op input (err k s) = or_int_op input (lex_enum (codes "IntOp") int_op_spellings input)

abbrev pub or_in_set : Text → LexResult (Unit {0}) → LexResult ComparisonOp
or_in_set input (ok (_, rest)) = ok (in_set, rest)
or_in_set input (err k s) = or_ordering_op input (lex_ordering_op input)

-- `<ComparisonOp as Lex>::lex`, the kinds of operators in the order in which they are tried.
unfoldable pub lex_comparison_op : Text → LexResult ComparisonOp
unfolding expect lex_ordering_op lex_enum
lex_comparison_op input = or_in_set input (expect input (codes "in"))

-- `lex_rhs_values`: the loop, with the items so far.
unfoldable pub lex_items : {T : Type 0} → (Text → Run T) → ℕ → List T → Text → Run (List T)
unfolding expect skip_space
lex_items lex_item zero res input = out_of_fuel
lex_items lex_item (suc f) res input = elim (expect (skip_space input) (codes "}")) [
  | ok (_, rest) ↦ lexed (res, rest)
  | err _ _ ↦
      lex_item (skip_space input) >>= λ (item, rest). lex_items lex_item f (res ++ item ∷ []) rest
]

-- Each item takes a character at least.
unfoldable pub lex_rhs_values : {T : Type 0} → (Text → Run T) → Text → Run (List T)
unfolding lex_items
lex_rhs_values lex_item input =
    lift (expect input (codes "{")) >>= λ (_, rest). lex_items lex_item (suc (length rest)) [] rest

abbrev pub is_bool : ValueType → Bool
is_bool ValueType.bool = true
is_bool _ = false

abbrev pub is_some_bool : Option ValueType → Bool
is_some_bool none = false
is_some_bool (some t) = is_bool t

-- An array of arrays of booleans.
abbrev pub bool_arrays : ValueType
bool_arrays = ValueType.array (record { layers = 0; len = 1; primitive = PrimitiveType.bool })

-- `LhsValue` cast to bytes, or `unreachable!()`.
abbrev pub on_bytes : (Bytes → Bool) → LhsValue → Outcome Bool
on_bytes f (LhsValue.bytes b) = done (f b)
on_bytes f _ = panic

abbrev pub is_true_value : LhsValue → Outcome Bool
is_true_value (LhsValue.bool b) = done b
is_true_value _ = panic

module _ (E : External) where
  -- `RhsValues`, less the types that have no values on the right.
  pub data RhsValues : Type 0 where
    ips : List (IpRange E.Cidr) → RhsValues
    ints : List IntRange → RhsValues
    byte_strings : List BytesExpr → RhsValues

  -- A list is its place in the scheme.
  pub data ComparisonOpExpr : Type 0 where
    is_true : ComparisonOpExpr
    ordering : OrderingOp → RhsValue → ComparisonOpExpr
    bit_and_int : ℤ → ComparisonOpExpr
    contains_bytes : BytesExpr → ComparisonOpExpr
    matches_regex : E.Regex → ComparisonOpExpr
    matches_wildcard : Wildcard → ComparisonOpExpr
    one_of : RhsValues → ComparisonOpExpr
    contains_one_of : List BytesExpr → ComparisonOpExpr
    in_list : ℕ → Text → ComparisonOpExpr

  pub record ComparisonExpr (I : Type 0) : Type 0 where
    pub lhs : IndexExpr I
    pub op : ComparisonOpExpr

  -- `RhsValue::lex_with`; the lexers of the uninhabited types are `unreachable!()`.
  unfoldable pub lex_rhs_value : ValueType → Text → Run RhsValue
  unfolding lex_bytes lex_i64 lex_ip_addr
  lex_rhs_value ValueType.bytes input =
      lift (lex_bytes input) >>= λ (b, rest). lexed (RhsValue.bytes b.content, rest)
  lex_rhs_value ValueType.int input =
      lift (lex_i64 input) >>= λ (i, rest). lexed (RhsValue.int i, rest)
  lex_rhs_value ValueType.ip input =
      lex_ip_addr E input >>= λ (a, rest). lexed (RhsValue.ip a, rest)
  lex_rhs_value _ input = panicked

  -- `RhsValues::lex_with`
  unfoldable pub lex_one_of : ValueType → Text → Run RhsValues
  unfolding lex_rhs_values lex_ip_range lex_int_range lex_bytes
  lex_one_of ValueType.ip input =
      lex_rhs_values (lex_ip_range E) input >>= λ (v, rest). lexed (ips v, rest)
  lex_one_of ValueType.int input =
      lex_rhs_values (λ s. lift (lex_int_range s)) input >>= λ (v, rest). lexed (ints v, rest)
  lex_one_of ValueType.bytes input =
      lex_rhs_values (λ s. lift (lex_bytes s)) input >>= λ (v, rest). lexed (byte_strings v, rest)
  lex_one_of _ input = panicked

  -- The comparison that the operator makes with one value. The empty needle is found everywhere.
  abbrev pub contains_search : Bytes → LhsValue → Outcome Bool
  contains_search [] v = done true
  contains_search (b ∷ []) v = on_bytes (E.memchr b) v
  contains_search (b ∷ c ∷ bs) v = on_bytes (E.memmem (b ∷ c ∷ bs)) v

  abbrev pub compare_one_of : RhsValues → LhsValue → Outcome Bool
  compare_one_of (ips ranges) v = one_of_ip (map (explicit_of E) ranges) v
  compare_one_of (ints ranges) v = one_of_int ranges v
  compare_one_of (byte_strings values) v = one_of_bytes (map (λ b. b.content) values) v

  -- `get_list_matcher_unchecked`, which panics out of bounds, and the matcher at work.
  abbrev pub match_list : Option (Text → LhsValue → Bool) → Text → LhsValue → Outcome Bool
  match_list (some match_value) name v = done (match_value name v)
  match_list none name v = panic

  -- The list matchers are those of the context.
  unfoldable pub compare_op :
      List (Text → LhsValue → Bool) → ComparisonOpExpr → LhsValue → Outcome Bool
  unfolding compare_ordering bitwise_and one_of_ip one_of_int one_of_bytes
  compare_op matchers is_true v = is_true_value v
  compare_op matchers (ordering op rhs) v = compare_ordering op rhs v
  compare_op matchers (bit_and_int rhs) v = bitwise_and rhs v
  compare_op matchers (contains_bytes b) v = contains_search b.content v
  compare_op matchers (matches_regex r) v = on_bytes (E.is_match r) v
  compare_op matchers (matches_wildcard w) v =
      on_bytes (E.wildcard_is_match w.strict w.pattern.content) v
  compare_op matchers (one_of values) v = compare_one_of values v
  compare_op matchers (contains_one_of values) v = panic
  compare_op matchers (in_list list name) v = match_list (get_elem? matchers list) name v

  abbrev pub lex_ordering : ValueType → OrderingOp → Text → Run ComparisonOpExpr
  lex_ordering t op input = lex_rhs_value t input >>= λ (rhs, rest). lexed (ordering op rhs, rest)

  module _ (get_list : ValueType → Option ℕ) (star_limit : ℕ) where
    abbrev pub list_or_error : ValueType → Text → Text → Text → Option ℕ → Run ComparisonOpExpr
    list_or_error t initial_input rest name none =
        failed (LexErrorKind.unsupported_op t) (span initial_input rest)
    list_or_error t initial_input rest name (some list) = lexed (in_list list name, rest)

    -- Behind `in`: the name of a list, or a list of values.
    abbrev pub lex_in : ValueType → Text → Text → LexResult (Unit {0}) → Run ComparisonOpExpr
    lex_in t initial_input input (ok _) = lift (lex_list_name input) >>= λ (name, rest).
        list_or_error t initial_input rest name (get_list t)
    lex_in t initial_input input (err _ _) =
        lex_one_of t input >>= λ (values, rest). lexed (one_of values, rest)

    abbrev pub lex_bytes_operand : BytesOp → Text → Run ComparisonOpExpr
    lex_bytes_operand BytesOp.contains input =
        lift (lex_bytes input) >>= λ (b, rest). lexed (contains_bytes b, rest)
    lex_bytes_operand BytesOp.matches input =
        lift (lex_regex E input) >>= λ (r, rest). lexed (matches_regex r, rest)
    lex_bytes_operand BytesOp.wildcard input =
        lift (lex_wildcard E false star_limit input) >>= λ (w, rest).
        lexed (matches_wildcard w, rest)
    lex_bytes_operand BytesOp.strict_wildcard input =
        lift (lex_wildcard E true star_limit input) >>= λ (w, rest).
        lexed (matches_wildcard w, rest)

    -- The match on the type and the operator; `after_op` is the text behind the operator.
    unfoldable pub lex_operand :
        ValueType → ComparisonOp → Text → Text → Text → Run ComparisonOpExpr
    unfolding lex_list_name lex_one_of lex_rhs_value lex_regex lex_wildcard span
    lex_operand ValueType.ip in_set initial_input after_op input =
        lex_in ValueType.ip initial_input input (expect input (codes "$"))
    lex_operand ValueType.bytes in_set initial_input after_op input =
        lex_in ValueType.bytes initial_input input (expect input (codes "$"))
    lex_operand ValueType.int in_set initial_input after_op input =
        lex_in ValueType.int initial_input input (expect input (codes "$"))
    lex_operand ValueType.ip (ordering_op op) initial_input after_op input =
        lex_ordering ValueType.ip op input
    lex_operand ValueType.bytes (ordering_op op) initial_input after_op input =
        lex_ordering ValueType.bytes op input
    lex_operand ValueType.int (ordering_op op) initial_input after_op input =
        lex_ordering ValueType.int op input
    lex_operand ValueType.int bitwise_and_op initial_input after_op input =
        lift (lex_i64 input) >>= λ (i, rest). lexed (bit_and_int i, rest)
    lex_operand ValueType.bytes (bytes_op op) initial_input after_op input =
        lex_bytes_operand op input
    lex_operand t op initial_input after_op input =
        failed (LexErrorKind.unsupported_op t) (span initial_input after_op)

    unfoldable pub lex_operator : ValueType → Text → Run ComparisonOpExpr
    unfolding lex_comparison_op lex_operand
    lex_operator t input = lift (lex_comparison_op (skip_space input)) >>= λ (op, after_op).
        lex_operand t op (skip_space input) after_op (skip_space after_op)

    -- By the type of the left side; `has_map_each` is `map_each_count() > 0`.
    unfoldable pub lex_typed : ValueType → Bool → Text → Run ComparisonOpExpr
    unfolding next lex_operator
    lex_typed t has_map_each input =
        if is_bool t
        then lexed (is_true, input)
        else if is_some_bool (next t)
        then (if has_map_each
            then failed (LexErrorKind.unsupported_op bool_arrays) []
            else lexed (is_true, input))
        else lex_operator t input

    -- `ComparisonExpr::lex_with_lhs`
    unfoldable pub lex_with_lhs :
        {I : Type 0} → (I → ValueType) → IndexExpr I → Text → Run (ComparisonExpr I)
    unfolding lex_typed get_type map_each_count
    lex_with_lhs identifier_type lhs input = run_outcome (get_type identifier_type lhs) λ t.
        lex_typed t (ltb 0 (map_each_count lhs.indexes)) input >>= λ (op, rest).
        lexed (record { lhs = lhs; op = op }, rest)
