-- ===== src/Compare/Parse/Answers.antt =====
-- engine/src/ast/field_expr.rs: the operator that the lexer returns, and the values that it meets.
use wirefilter.Prelude.{
  ℕ, ◌≡◌, refl, Bool, true, false, Option, none, some, inl, inr, Bool-cases, ltb, subst, sym,
}
use wirefilter.Prelude.Outcome.{done}
use wirefilter.Types.{ValueType, next}
use wirefilter.Lex.{Text, LexResult, ok, err, skip_space}
use wirefilter.Lex.Run.{lexed, lift, Safe, bind-Safe, lift-Safe, ◌>>=◌}
use wirefilter.Rhs.Int.{lex_i64, lex_int_range}
use wirefilter.Rhs.Bytes.{Bytes, lex_bytes}
use wirefilter.Rhs.External.{External}
use wirefilter.Rhs.Ip.{lex_ip_addr, lex_ip_range}
use wirefilter.Rhs.Ip.Safe.{lex_ip_addr-Safe, lex_ip_range-Safe}
use wirefilter.Rhs.ListName.{lex_list_name}
use wirefilter.Rhs.Patterns.{lex_regex, lex_wildcard}
use wirefilter.Index.Compile.{map_each_count}
use wirefilter.Index.Parse.{IndexExpr, get_type}
use wirefilter.Compare.{
  OrderingOp, RhsValue, compare_ordering, bitwise_and, one_of_int, one_of_ip, one_of_bytes,
}
use wirefilter.Compare.Parse.{
  BytesOp, ComparisonOp, in_set, ordering_op, bytes_op, bitwise_and_op, lex_comparison_op,
  lex_rhs_values, is_bool, is_some_bool, RhsValues, ComparisonOpExpr, lex_rhs_value, lex_one_of,
  compare_op, list_or_error, lex_in, lex_ordering, lex_bytes_operand, lex_operand, lex_operator,
  lex_typed, lex_with_lhs,
}
use wirefilter.Compare.Parse.Matches.{
  compared_type, lex_rhs_values-Safe, lifted-Safe, Answers, on_ints, on_addresses, on_byte_strings,
  on_bools, is_bool-bool, bool-Answers, in_list-Answers, contains_bytes-Answers,
}

module _ (E : External) where
  lex_ordering_ip :
      (op : OrderingOp) (input : Text)
      → Safe (λ o rest. Answers E ValueType.ip o) (lex_ordering E ValueType.ip op input)
  unfolding lex_rhs_value compare_op compare_ordering
  lex_ordering_ip op input =
      bind-Safe (λ r rest. (a : _) × (r ≡ RhsValue.ip a)) (λ o rest. Answers E ValueType.ip o)
        (lex_rhs_value E ValueType.ip input) _
        (bind-Safe (λ a rest. Unit {0}) (λ r rest. (a : _) × (r ≡ RhsValue.ip a))
          (lex_ip_addr E input) _ (lex_ip_addr-Safe E input) λ a rest k. (a, refl))
        λ r rest (a, e).
          rw e (on_addresses E (ComparisonOpExpr.ordering op (RhsValue.ip a)) λ m i. (_, refl))

  lex_ordering_int :
      (op : OrderingOp) (input : Text)
      → Safe (λ o rest. Answers E ValueType.int o) (lex_ordering E ValueType.int op input)
  unfolding lex_rhs_value compare_op compare_ordering
  lex_ordering_int op input =
      bind-Safe (λ r rest. (a : _) × (r ≡ RhsValue.int a)) (λ o rest. Answers E ValueType.int o)
        (lex_rhs_value E ValueType.int input) _
        (lift-Safe (λ r rest. (a : _) × (r ≡ RhsValue.int a)) (lex_i64 input) _ λ a rest. (a, refl))
        λ r rest (a, e).
          rw e (on_ints E (ComparisonOpExpr.ordering op (RhsValue.int a)) λ m i. (_, refl))

  lex_ordering_bytes :
      (op : OrderingOp) (input : Text)
      → Safe (λ o rest. Answers E ValueType.bytes o) (lex_ordering E ValueType.bytes op input)
  unfolding lex_rhs_value compare_op compare_ordering
  lex_ordering_bytes op input =
      bind-Safe (λ r rest. (a : Bytes) × (r ≡ RhsValue.bytes a))
        (λ o rest. Answers E ValueType.bytes o) (lex_rhs_value E ValueType.bytes input) _
        (lift-Safe (λ r rest. (a : Bytes) × (r ≡ RhsValue.bytes a)) (lex_bytes input) _
          λ a rest. (a.content, refl))
        λ r rest (a, e).
          rw e
            (on_byte_strings E (ComparisonOpExpr.ordering op (RhsValue.bytes a)) λ m i. (_, refl))

  one_of_ip-Answers :
      (input : Text)
      → Safe
          (λ o rest. Answers E ValueType.ip (ComparisonOpExpr.one_of o))
          (lex_one_of E ValueType.ip input)
  unfolding lex_one_of compare_op one_of_ip
  one_of_ip-Answers input =
      bind-Safe (λ a rest. Unit {0}) _ (lex_rhs_values (lex_ip_range E) input) _
        (lex_rhs_values-Safe (lex_ip_range E) (lex_ip_range-Safe E) input)
        λ v rest k. on_addresses E (ComparisonOpExpr.one_of (RhsValues.ips v)) λ m i. (_, refl)

  one_of_int-Answers :
      (input : Text)
      → Safe
          (λ o rest. Answers E ValueType.int (ComparisonOpExpr.one_of o))
          (lex_one_of E ValueType.int input)
  unfolding lex_one_of compare_op one_of_int
  one_of_int-Answers input =
      bind-Safe (λ a rest. Unit {0}) _ (lex_rhs_values (λ s. lift (lex_int_range s)) input) _
        (lex_rhs_values-Safe (λ s. lift (lex_int_range s)) (λ s. lifted-Safe (lex_int_range s))
          input)
        λ v rest k. on_ints E (ComparisonOpExpr.one_of (RhsValues.ints v)) λ m i. (_, refl)

  one_of_bytes-Answers :
      (input : Text)
      → Safe
          (λ o rest. Answers E ValueType.bytes (ComparisonOpExpr.one_of o))
          (lex_one_of E ValueType.bytes input)
  unfolding lex_one_of compare_op one_of_bytes
  one_of_bytes-Answers input =
      bind-Safe (λ a rest. Unit {0}) _ (lex_rhs_values (λ s. lift (lex_bytes s)) input) _
        (lex_rhs_values-Safe (λ s. lift (lex_bytes s)) (λ s. lifted-Safe (lex_bytes s)) input)
        λ v rest k.
          on_byte_strings E (ComparisonOpExpr.one_of (RhsValues.byte_strings v)) λ m i. (_, refl)

  bit_and_int-Answers :
      (input : Text)
      → Safe
          (λ o rest. Answers E ValueType.int o)
          (lift (lex_i64 input) >>= λ (i, rest). lexed (ComparisonOpExpr.bit_and_int i, rest))
  unfolding compare_op bitwise_and
  bit_and_int-Answers input =
      lift-Safe (λ o rest. Answers E ValueType.int o) (lex_i64 input) _
        λ i rest. on_ints E (ComparisonOpExpr.bit_and_int i) λ m j. (_, refl)

  module _ (get_list : ValueType → Option ℕ) (star_limit : ℕ) where
    lex_bytes_operand-Answers :
        (op : BytesOp) (input : Text)
        → Safe
            (λ o rest. Answers E ValueType.bytes o)
            (lex_bytes_operand E get_list star_limit op input)
    unfolding compare_op
    lex_bytes_operand-Answers BytesOp.contains input =
        lift-Safe (λ o rest. Answers E ValueType.bytes o) (lex_bytes input) _
          λ b rest. contains_bytes-Answers E b
    lex_bytes_operand-Answers BytesOp.matches input =
        lift-Safe (λ o rest. Answers E ValueType.bytes o) (lex_regex E input) _
          λ r rest. on_byte_strings E (ComparisonOpExpr.matches_regex r) λ m i. (_, refl)
    lex_bytes_operand-Answers BytesOp.wildcard input =
        lift-Safe (λ o rest. Answers E ValueType.bytes o) (lex_wildcard E false star_limit input) _
          λ w rest. on_byte_strings E (ComparisonOpExpr.matches_wildcard w) λ m i. (_, refl)
    lex_bytes_operand-Answers BytesOp.strict_wildcard input =
        lift-Safe (λ o rest. Answers E ValueType.bytes o) (lex_wildcard E true star_limit input) _
          λ w rest. on_byte_strings E (ComparisonOpExpr.matches_wildcard w) λ m i. (_, refl)

    lex_in-Answers :
        (t : ValueType) (initial_input input : Text) (r : LexResult (Unit {0}))
        → Safe (λ o rest. Answers E t (ComparisonOpExpr.one_of o)) (lex_one_of E t input)
        → Safe (λ o rest. Answers E t o) (lex_in E get_list star_limit t initial_input input r)
    lex_in-Answers t initial_input input (ok u) h =
        lift-Safe (λ o rest. Answers E t o) (lex_list_name input) _
          λ name rest. by_list (get_list t) name rest
      where
        by_list :
            (o : Option ℕ) (name rest : Text)
            → Safe
                (λ o rest. Answers E t o)
                (list_or_error E get_list star_limit t initial_input rest name o)
        by_list none name rest = tt
        by_list (some l) name rest = in_list-Answers E t l name
    lex_in-Answers t initial_input input (err k s) h =
        bind-Safe _ (λ o rest. Answers E t o) (lex_one_of E t input) _ h λ values rest k. k

    lex_operand-Answers :
        (t : ValueType) (op : ComparisonOp) (initial_input after_op input : Text)
        → Safe
            (λ o rest. Answers E t o)
            (lex_operand E get_list star_limit t op initial_input after_op input)
    unfolding lex_operand
    lex_operand-Answers ValueType.ip in_set initial_input after_op input =
        lex_in-Answers ValueType.ip initial_input input _ (one_of_ip-Answers input)
    lex_operand-Answers ValueType.int in_set initial_input after_op input =
        lex_in-Answers ValueType.int initial_input input _ (one_of_int-Answers input)
    lex_operand-Answers ValueType.bytes in_set initial_input after_op input =
        lex_in-Answers ValueType.bytes initial_input input _ (one_of_bytes-Answers input)
    lex_operand-Answers ValueType.ip (ordering_op op) initial_input after_op input =
        lex_ordering_ip op input
    lex_operand-Answers ValueType.int (ordering_op op) initial_input after_op input =
        lex_ordering_int op input
    lex_operand-Answers ValueType.bytes (ordering_op op) initial_input after_op input =
        lex_ordering_bytes op input
    lex_operand-Answers ValueType.int bitwise_and_op initial_input after_op input =
        bit_and_int-Answers input
    lex_operand-Answers ValueType.bytes (bytes_op op) initial_input after_op input =
        lex_bytes_operand-Answers op input
    lex_operand-Answers t op initial_input after_op input = tt

    lex_operator-Answers :
        (t : ValueType) (input : Text)
        → Safe (λ o rest. Answers E t o) (lex_operator E get_list star_limit t input)
    unfolding lex_operator
    lex_operator-Answers t input =
        lift-Safe (λ o rest. Answers E t o) (lex_comparison_op (skip_space input)) _
          λ op after_op. lex_operand-Answers t op (skip_space input) after_op (skip_space after_op)

    lex_typed-Answers :
        (t : ValueType) (has_map_each : Bool) (input : Text)
        → Safe
            (λ o rest. Answers E (compared_type t) o)
            (lex_typed E get_list star_limit t has_map_each input)
    unfolding lex_typed compared_type
    lex_typed-Answers t has_map_each input = elim (Bool-cases (is_bool t)) [
      | inl e ↦
          let p = is_bool-bool E t e in
          rw e (
            subst (λ u. Answers E (compared_type u) ComparisonOpExpr.is_true) (sym p)
              (bool-Answers E))
      | inr e ↦ elim (Bool-cases (is_some_bool (next t))) [
        | inl n ↦ elim (Bool-cases has_map_each) [
          | inl m ↦ rw (e, n, m) tt
          | inr m ↦ rw (e, n, m) (on_bools E)
        ]
        | inr n ↦ rw (e, n) (lex_operator-Answers t input)
      ]
    ]

    -- If the left side has a type, then the lexer of what follows does not panic, and the operator that it
    -- returns compares every value of the type that it is to meet; the only panic is for a list without a
    -- matcher in the context.
    pub lex_with_lhs-Answers :
        {I : Type 0} (identifier_type : I → ValueType) (lhs : IndexExpr I) (t : ValueType)
        (input : Text)
        → get_type identifier_type lhs ≡ done t
        → Safe
            (λ e rest. (e.lhs ≡ lhs) × Answers E (compared_type t) e.op)
            (lex_with_lhs E get_list star_limit identifier_type lhs input)
    unfolding lex_with_lhs
    lex_with_lhs-Answers identifier_type lhs t input h =
        rw (h, lex_with_lhs)
          (bind-Safe (λ o rest. Answers E (compared_type t) o) _
            (lex_typed E get_list star_limit t (ltb 0 (map_each_count lhs.indexes)) input) _
            (lex_typed-Answers t (ltb 0 (map_each_count lhs.indexes)) input) λ o rest k. (refl, k))
