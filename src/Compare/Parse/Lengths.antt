-- ===== src/Compare/Parse/Lengths.antt =====
-- engine/src/ast/field_expr.rs: how much of the input the lexer of comparisons leaves.
use wirefilter.Prelude.{
  ℕ, ◌≤◌, Bool, true, false, Option, none, some, inl, inr, arith, length, Bool-cases, ltb,
}
use wirefilter.Prelude.Outcome.{Outcome, done, panic}
use wirefilter.Types.{ValueType, next}
use wirefilter.Lex.{Text, codes, LexResult, ok, err, expect, skip_space}
use wirefilter.Lex.Run.{lexed, lift, run_outcome, ◌>>=◌, Ends, bind-Ends}
use wirefilter.Lex.Lengths.{Within, length-skip_space, lift-Ends}
use wirefilter.Rhs.Int.{lex_i64, lex_int_range}
use wirefilter.Rhs.Int.Lengths.{lex_i64-Within}
use wirefilter.Rhs.Bytes.{lex_bytes}
use wirefilter.Rhs.Bytes.Lengths.{lex_bytes-Within}
use wirefilter.Rhs.External.{External}
use wirefilter.Rhs.Ip.{lex_ip_addr, lex_ip_range, lex_ip_addr-Ends}
use wirefilter.Rhs.ListName.{lex_list_name, lex_list_name-Within}
use wirefilter.Rhs.Patterns.{lex_regex, lex_wildcard}
use wirefilter.Rhs.Patterns.Lengths.{lex_regex-Within, lex_wildcard-Within}
use wirefilter.Index.Compile.{map_each_count}
use wirefilter.Index.Parse.{IndexExpr, get_type}
use wirefilter.Compare.{OrderingOp}
use wirefilter.Compare.Parse.{
  BytesOp, ComparisonOp, in_set, ordering_op, bytes_op, bitwise_and_op, lex_comparison_op,
  lex_rhs_values, is_bool, is_some_bool, ComparisonExpr, lex_rhs_value, lex_one_of, list_or_error,
  lex_in, lex_ordering, lex_bytes_operand, lex_operand, lex_operator, lex_typed, lex_with_lhs,
}
use wirefilter.Compare.Parse.Items.{
  lex_comparison_op-Within, lex_rhs_values-Ends, ranges-Takes, bytes-Takes, addresses-Takes,
}

module _ (E : External) where
  lex_rhs_value-Ends :
      (t : ValueType) (input : Text) (n : ℕ) → length input ≤ n → Ends n (lex_rhs_value E t input)
  unfolding lex_rhs_value
  lex_rhs_value-Ends ValueType.bytes input n h =
      bind-Ends (lift (lex_bytes input)) _ n n
        (lift-Ends (lex_bytes input) n (lex_bytes-Within input n (omega arith))) λ b rest k. k
  lex_rhs_value-Ends ValueType.int input n h =
      bind-Ends (lift (lex_i64 input)) _ n n
        (lift-Ends (lex_i64 input) n (lex_i64-Within input n (omega arith))) λ i rest k. k
  lex_rhs_value-Ends ValueType.ip input n h =
      bind-Ends (lex_ip_addr E input) _ n n (lex_ip_addr-Ends E input n (omega arith)) λ a rest k. k
  lex_rhs_value-Ends t input n h = tt

  lex_one_of-Ends :
      (t : ValueType) (input : Text) (n : ℕ) → length input ≤ n → Ends n (lex_one_of E t input)
  unfolding lex_one_of
  lex_one_of-Ends ValueType.ip input n h =
      bind-Ends (lex_rhs_values (lex_ip_range E) input) _ n n
        (lex_rhs_values-Ends (lex_ip_range E) (addresses-Takes E) input n h) λ v rest k. k
  lex_one_of-Ends ValueType.int input n h =
      bind-Ends (lex_rhs_values (λ s. lift (lex_int_range s)) input) _ n n
        (lex_rhs_values-Ends (λ s. lift (lex_int_range s)) ranges-Takes input n h) λ v rest k. k
  lex_one_of-Ends ValueType.bytes input n h =
      bind-Ends (lex_rhs_values (λ s. lift (lex_bytes s)) input) _ n n
        (lex_rhs_values-Ends (λ s. lift (lex_bytes s)) bytes-Takes input n h) λ v rest k. k
  lex_one_of-Ends t input n h = tt

  lex_ordering-Ends :
      (t : ValueType) (op : OrderingOp) (input : Text) (n : ℕ)
      → length input ≤ n
      → Ends n (lex_ordering E t op input)
  lex_ordering-Ends t op input n h =
      bind-Ends (lex_rhs_value E t input) _ n n (lex_rhs_value-Ends t input n h) λ rhs rest k. k

  module _ (get_list : ValueType → Option ℕ) (star_limit : ℕ) where
    lex_in-Ends :
        (t : ValueType) (initial_input input : Text) (r : LexResult (Unit {0})) (n : ℕ)
        → length input ≤ n
        → Ends n (lex_in E get_list star_limit t initial_input input r)
    lex_in-Ends t initial_input input (ok u) n h =
        bind-Ends (lift (lex_list_name input)) _ n n
          (lift-Ends (lex_list_name input) n (lex_list_name-Within input n h))
          λ name rest k. by_list (get_list t) name rest k
      where
        by_list :
            (o : Option ℕ) (name rest : Text)
            → length rest ≤ n
            → Ends n (list_or_error E get_list star_limit t initial_input rest name o)
        by_list none name rest k = tt
        by_list (some l) name rest k = k
    lex_in-Ends t initial_input input (err e s) n h =
        bind-Ends (lex_one_of E t input) _ n n (lex_one_of-Ends t input n h) λ values rest k. k

    lifted-Ends :
        {A B : Type 0} (r : LexResult A) (f : A → B) (n : ℕ)
        → Within n r
        → Ends n (lift r >>= λ (a, rest). lexed (f a, rest))
    lifted-Ends (ok (a, rest)) f n h = h
    lifted-Ends (err k s) f n h = tt

    lex_bytes_operand-Ends :
        (op : BytesOp) (input : Text) (n : ℕ)
        → length input ≤ n
        → Ends n (lex_bytes_operand E get_list star_limit op input)
    lex_bytes_operand-Ends BytesOp.contains input n h =
        lifted-Ends (lex_bytes input) _ n (lex_bytes-Within input n (omega arith))
    lex_bytes_operand-Ends BytesOp.matches input n h =
        lifted-Ends (lex_regex E input) _ n (lex_regex-Within E input n h)
    lex_bytes_operand-Ends BytesOp.wildcard input n h =
        lifted-Ends (lex_wildcard E false star_limit input) _ n
          (lex_wildcard-Within E false star_limit input n h)
    lex_bytes_operand-Ends BytesOp.strict_wildcard input n h =
        lifted-Ends (lex_wildcard E true star_limit input) _ n
          (lex_wildcard-Within E true star_limit input n h)

    lex_operand-Ends :
        (t : ValueType) (op : ComparisonOp) (initial_input after_op input : Text) (n : ℕ)
        → length input ≤ n
        → Ends n (lex_operand E get_list star_limit t op initial_input after_op input)
    unfolding lex_operand
    lex_operand-Ends ValueType.ip in_set initial_input after_op input n h =
        lex_in-Ends ValueType.ip initial_input input (expect input (codes "$")) n h
    lex_operand-Ends ValueType.int in_set initial_input after_op input n h =
        lex_in-Ends ValueType.int initial_input input (expect input (codes "$")) n h
    lex_operand-Ends ValueType.bytes in_set initial_input after_op input n h =
        lex_in-Ends ValueType.bytes initial_input input (expect input (codes "$")) n h
    lex_operand-Ends ValueType.ip (ordering_op op) initial_input after_op input n h =
        lex_ordering-Ends ValueType.ip op input n h
    lex_operand-Ends ValueType.int (ordering_op op) initial_input after_op input n h =
        lex_ordering-Ends ValueType.int op input n h
    lex_operand-Ends ValueType.bytes (ordering_op op) initial_input after_op input n h =
        lex_ordering-Ends ValueType.bytes op input n h
    lex_operand-Ends ValueType.int bitwise_and_op initial_input after_op input n h =
        lifted-Ends (lex_i64 input) _ n (lex_i64-Within input n (omega arith))
    lex_operand-Ends ValueType.bytes (bytes_op op) initial_input after_op input n h =
        lex_bytes_operand-Ends op input n h
    lex_operand-Ends t op initial_input after_op input n h = tt

    lex_operator-Ends :
        (t : ValueType) (input : Text) (n : ℕ)
        → length input ≤ n
        → Ends n (lex_operator E get_list star_limit t input)
    unfolding lex_operator
    lex_operator-Ends t input n h =
        let s = length-skip_space input in
        bind-Ends (lift (lex_comparison_op (skip_space input))) _ n n
          (lift-Ends (lex_comparison_op (skip_space input)) n
            (lex_comparison_op-Within (skip_space input) n (omega arith)))
          λ op after_op k.
            let s' = length-skip_space after_op in
            lex_operand-Ends t op (skip_space input) after_op (skip_space after_op) n (omega arith)

    lex_typed-Ends :
        (t : ValueType) (has_map_each : Bool) (input : Text) (n : ℕ)
        → length input ≤ n
        → Ends n (lex_typed E get_list star_limit t has_map_each input)
    unfolding lex_typed
    lex_typed-Ends t has_map_each input n h = elim (Bool-cases (is_bool t)) [
      | inl e ↦ rw e h
      | inr e ↦ elim (Bool-cases (is_some_bool (next t))) [
        | inl s ↦ elim (Bool-cases has_map_each) [
          | inl m ↦ rw (e, s, m) tt
          | inr m ↦ rw (e, s, m) h
        ]
        | inr s ↦ rw (e, s) (lex_operator-Ends t input n h)
      ]
    ]

    pub lex_with_lhs-Ends :
        {I : Type 0} (identifier_type : I → ValueType) (lhs : IndexExpr I) (input : Text) (n : ℕ)
        → length input ≤ n
        → Ends n (lex_with_lhs E get_list star_limit identifier_type lhs input)
    unfolding lex_with_lhs
    lex_with_lhs-Ends {I = I} identifier_type lhs input n h = by_type (get_type identifier_type lhs)
      where
        by_type :
            (o : Outcome ValueType)
            → Ends {A = ComparisonExpr E I} n (
                run_outcome o λ t.
                  lex_typed E get_list star_limit t (ltb 0 (map_each_count lhs.indexes)) input
                  >>= λ (op, rest). lexed (record { lhs = lhs; op = op }, rest))
        by_type panic = tt
        by_type (done t) =
            bind-Ends (lex_typed E get_list star_limit t (ltb 0 (map_each_count lhs.indexes)) input)
              _ n n (lex_typed-Ends t (ltb 0 (map_each_count lhs.indexes)) input n h) λ o rest k. k
