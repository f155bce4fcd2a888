-- ===== src/Compare/Parse/Matches.antt =====
-- engine/src/ast/field_expr.rs: what the operators answer to the values that they meet.
use wirefilter.Prelude.{
  get_elem?, get_elem?-none, ◌⊎◌, ◌≤◌, ℕ, ◌≡◌, refl, Bool, true, List, [], ◌∷◌, ◌++◌, inl, inr,
  if◌then◌else◌, length,
}
use wirefilter.Prelude.Outcome.{done, panic}
use wirefilter.Types.{ValueType, next}
use wirefilter.Lex.{Text, codes, LexResult, ok, err, expect, skip_space}
use wirefilter.Lex.Run.{Run, lift, Safe, bind-Safe, lift-Safe}
use wirefilter.Lex.Lengths.{Option-cases, LexResult-cases}
use wirefilter.Rhs.Bytes.{Bytes, BytesExpr}
use wirefilter.Rhs.External.{External}
use wirefilter.Value.{LhsValue}
use wirefilter.Value as Val
use wirefilter.Compare.Parse.{
  lex_items, lex_rhs_values, is_bool, is_some_bool, ComparisonOpExpr, contains_search, compare_op,
}

-- The values that are compared: the elements of an array or a map of booleans that stands alone, and
-- the values of the type itself where it is another one.
unfoldable pub compared_type : ValueType → ValueType
unfolding next
compared_type t = if is_some_bool (next t) then ValueType.bool else t

pub lex_items-Safe :
    {T : Type 0} (lex_item : Text → Run T)
    → ((input : Text) → Safe (λ a rest. Unit {0}) (lex_item input))
    → (f : ℕ) (res : List T) (input : Text)
    → Safe (λ a rest. Unit {0}) (lex_items lex_item f res input)
unfolding lex_items
lex_items-Safe lex_item h ℕ.zero res input = tt
lex_items-Safe lex_item h (ℕ.suc f) res input =
    elim (LexResult-cases (expect (skip_space input) (codes "}"))) [
      | inl ((u, rest), e) ↦ rw (e, lex_items) tt
      | inr (k, s, e) ↦
          rw (e, lex_items)
            (bind-Safe (λ a rest. Unit {0}) (λ a rest. Unit {0}) (lex_item (skip_space input)) _
              (h (skip_space input))
              λ item rest k. lex_items-Safe lex_item h f (res ++ item ∷ []) rest)
    ]

pub lex_rhs_values-Safe :
    {T : Type 0} (lex_item : Text → Run T)
    → ((input : Text) → Safe (λ a rest. Unit {0}) (lex_item input))
    → (input : Text) → Safe (λ a rest. Unit {0}) (lex_rhs_values lex_item input)
unfolding lex_rhs_values
lex_rhs_values-Safe lex_item h input =
    lift-Safe (λ a rest. Unit {0}) (expect input (codes "{")) _
      λ u rest. lex_items-Safe lex_item h (ℕ.suc (length rest)) [] rest

pub lifted-Safe : {A : Type 0} (r : LexResult A) → Safe (λ a rest. Unit {0}) (lift r)
lifted-Safe (ok p) = tt
lifted-Safe (err k s) = tt

module _ (E : External) where
  -- The operator asks for a list matcher that is not there.
  abbrev pub LacksMatcher : List (Text → LhsValue → Bool) → ComparisonOpExpr E → Type 0
  LacksMatcher matchers (ComparisonOpExpr.in_list list name) = length matchers ≤ list
  LacksMatcher matchers op = ⊥

  -- The operator compares each value of the type, and panics only for want of a list matcher.
  abbrev pub Answers : ValueType → ComparisonOpExpr E → Type 0
  Answers t op =
      (matchers : List (Text → LhsValue → Bool)) (v : LhsValue)
      → Val.get_type v ≡ t
      → ((b : Bool) × (compare_op E matchers op v ≡ done b))
        ⊎ (LacksMatcher matchers op × (compare_op E matchers op v ≡ panic))

  -- An answer on each value of the constructor that the type has.
  pub on_ints :
      (op : ComparisonOpExpr E)
      → ((m : List (Text → LhsValue → Bool)) (i : _)
          → (b : Bool) × (compare_op E m op (LhsValue.int i) ≡ done b))
      → Answers ValueType.int op
  on_ints op h m (LhsValue.int i) e = inl (h m i)
  on_ints op h m (LhsValue.bool i) e = cc
  on_ints op h m (LhsValue.ip i) e = cc
  on_ints op h m (LhsValue.bytes i) e = cc
  on_ints op h m (LhsValue.array c i) e = cc
  on_ints op h m (LhsValue.map c i) e = cc

  pub on_addresses :
      (op : ComparisonOpExpr E)
      → ((m : List (Text → LhsValue → Bool)) (i : _)
          → (b : Bool) × (compare_op E m op (LhsValue.ip i) ≡ done b))
      → Answers ValueType.ip op
  on_addresses op h m (LhsValue.ip i) e = inl (h m i)
  on_addresses op h m (LhsValue.bool i) e = cc
  on_addresses op h m (LhsValue.int i) e = cc
  on_addresses op h m (LhsValue.bytes i) e = cc
  on_addresses op h m (LhsValue.array c i) e = cc
  on_addresses op h m (LhsValue.map c i) e = cc

  pub on_byte_strings :
      (op : ComparisonOpExpr E)
      → ((m : List (Text → LhsValue → Bool)) (i : Bytes)
          → (b : Bool) × (compare_op E m op (LhsValue.bytes i) ≡ done b))
      → Answers ValueType.bytes op
  on_byte_strings op h m (LhsValue.bytes i) e = inl (h m i)
  on_byte_strings op h m (LhsValue.bool i) e = cc
  on_byte_strings op h m (LhsValue.int i) e = cc
  on_byte_strings op h m (LhsValue.ip i) e = cc
  on_byte_strings op h m (LhsValue.array c i) e = cc
  on_byte_strings op h m (LhsValue.map c i) e = cc

  pub on_bools : Answers ValueType.bool ComparisonOpExpr.is_true
  unfolding compare_op
  on_bools m (LhsValue.bool i) e = inl (i, refl)
  on_bools m (LhsValue.int i) e = cc
  on_bools m (LhsValue.ip i) e = cc
  on_bools m (LhsValue.bytes i) e = cc
  on_bools m (LhsValue.array c i) e = cc
  on_bools m (LhsValue.map c i) e = cc

  pub is_bool-bool : (t : ValueType) → is_bool t ≡ true → t ≡ ValueType.bool
  is_bool-bool ValueType.bool e = refl
  is_bool-bool t e = cc

  pub bool-Answers : Answers (compared_type ValueType.bool) ComparisonOpExpr.is_true
  unfolding compared_type next
  bool-Answers = on_bools

  pub in_list-Answers :
      (t : ValueType) (l : ℕ) (name : Text) → Answers t (ComparisonOpExpr.in_list l name)
  unfolding compare_op
  in_list-Answers t l name m v e = elim (Option-cases (get_elem? m l)) [
    | inl (f, at) ↦ inl (f name v, rw at refl)
    | inr out ↦ inr (get_elem?-none m l out, rw out refl)
  ]

  pub contains_bytes-Answers :
      (b : BytesExpr) → Answers ValueType.bytes (ComparisonOpExpr.contains_bytes b)
  unfolding compare_op
  contains_bytes-Answers b =
      on_byte_strings (ComparisonOpExpr.contains_bytes b) λ m i. by_needle b.content i
    where
      by_needle :
          (needle i : Bytes) → (r : Bool) × (contains_search E needle (LhsValue.bytes i) ≡ done r)
      by_needle [] i = (true, refl)
      by_needle (x ∷ []) i = (E.memchr x i, refl)
      by_needle (x ∷ y ∷ ys) i = (E.memmem (x ∷ y ∷ ys) i, refl)
