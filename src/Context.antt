-- ===== src/Context.antt =====
-- engine/src/execution_context.rs: the values that a filter runs on, by the position of their field in
-- the store. `M` is the type of list matchers, which are trait objects, and `U` that of the user data.
-- A method that takes the store is given the one at the address that the context holds.
pub mod Typed
pub mod Steps
pub mod Later
use wirefilter.Prelude.{
  ℕ, Bool, true, false, Option, none, some, List, [], ◌∷◌, if◌then◌else◌, length, get_elem?, set,
  map, replicate, ◌==◌,
}
use wirefilter.Prelude.Outcome.{Outcome, done, panic}
use wirefilter.Types.{ValueType}
use wirefilter.Lex.{Text}
use wirefilter.Value.{LhsValue, get_type}
use wirefilter.Scheme.{SchemeStore, FieldDefinition, Result, ok, err, index, get_field_index}
use wirefilter.Scheme.Builder.{Scheme, FieldRef}
use wirefilter.Scheme.Keys.{type_eq}

-- `SetFieldValueError`
pub data SetFieldValueError : Type 0 where
  type_mismatch : ValueType → ValueType → SetFieldValueError
  scheme_mismatch unknown_field : SetFieldValueError

pub record ExecutionContext (M U : Type 0) : Type 0 where
  pub scheme_store : ℕ
  pub scheme : Scheme
  pub values : List (Option LhsValue)
  pub list_matchers : List M
  pub user_data : U

-- The result of a setter, with the context after it.
abbrev pub Setting : Type 0 → Type 0 → Type 0 → Type 0
Setting M U A = Outcome (Result A SetFieldValueError × ExecutionContext M U)

module _ {F L M U : Type 0} where
  -- `new_matcher` is the method of the list definitions.
  unfoldable pub new_with : (L → M) → Scheme → SchemeStore F L → U → ExecutionContext M U
  new_with new_matcher scheme s u = record {
    scheme_store = scheme.scheme_store;
    scheme = scheme;
    values = replicate (length s.fields) none;
    list_matchers = map (λ l. new_matcher l.1) s.lists;
    user_data = u;
  }

module _ {M U : Type 0} where
  abbrev pub write : ExecutionContext M U → ℕ → Option LhsValue → ExecutionContext M U
  write c i v = record c { values = set c.values i v }

  -- `self.values[i].replace(v)`, which panics out of bounds.
  abbrev pub replace :
      ExecutionContext M U → ℕ → LhsValue → Option (Option LhsValue) → Setting M U (Option LhsValue)
  replace c i v (some old) = done (ok old, write c i (some v))
  replace c i v none = panic

  -- The test of the type, once the definition of the field is read.
  abbrev pub replace_typed :
      ExecutionContext M U → ℕ → LhsValue → Outcome FieldDefinition → Setting M U (Option LhsValue)
  replace_typed c i v (done d) =
      if type_eq d.ty (get_type v)
      then replace c i v (get_elem? c.values i)
      else done (err (type_mismatch d.ty (get_type v)), c)
  replace_typed c i v panic = panic

  -- `self.values[i] = Some(v)`, with the result of the lazy setters.
  abbrev pub assign : ExecutionContext M U → ℕ → LhsValue → Setting M U Bool
  assign c i v = done (ok true, write c i (some v))

  abbrev pub assign_typed :
      ExecutionContext M U → ℕ → LhsValue → Outcome FieldDefinition → Setting M U Bool
  assign_typed c i v (done d) =
      if type_eq d.ty (get_type v)
      then assign c i v
      else done (err (type_mismatch d.ty (get_type v)), c)
  assign_typed c i v panic = panic

  -- `self.values[i].is_some()`, which panics out of bounds, comes before the value is made.
  abbrev pub assign_if_none :
      ExecutionContext M U
      → ℕ
      → (Unit {0} → LhsValue)
      → Outcome FieldDefinition
      → Option (Option LhsValue)
      → Setting M U Bool
  assign_if_none c i f d (some (some old)) = done (ok false, c)
  assign_if_none c i f d (some none) = assign_typed c i (f tt) d
  assign_if_none c i f d none = panic

  abbrev pub clear : (M → M) → ExecutionContext M U → ExecutionContext M U
  clear clear_matcher c = record c {
    values = map (λ v. none) c.values;
    list_matchers = map clear_matcher c.list_matchers;
  }

-- A mandatory field must have a value.
abbrev pub or_missing : Outcome FieldDefinition → Outcome (Option LhsValue)
or_missing (done d) = if d.optional then done none else panic
or_missing panic = panic

abbrev pub value_or_missing :
    Option (Option LhsValue) → Outcome FieldDefinition → Outcome (Option LhsValue)
value_or_missing (some (some v)) d = done (some v)
value_or_missing (some none) d = or_missing d
value_or_missing none d = panic

module _ {F L M U : Type 0} where
  unfoldable pub set_field_value :
      SchemeStore F L → ExecutionContext M U → FieldRef → LhsValue → Setting M U (Option LhsValue)
  set_field_value s c field v =
      if c.scheme_store == field.scheme_store
      then replace_typed c field.index v (index s field.index)
      else done (err scheme_mismatch, c)

  unfoldable pub set_field_value_from_name :
      SchemeStore F L → ExecutionContext M U → Text → LhsValue → Setting M U (Option LhsValue)
  set_field_value_from_name s c name v = elim (get_field_index s name) [
    | some i ↦ replace_typed c i v (index s i)
    | none ↦ done (err unknown_field, c)
  ]

  unfoldable pub set_field_value_lazy :
      SchemeStore F L → ExecutionContext M U → FieldRef → (Unit {0} → LhsValue) → Setting M U Bool
  set_field_value_lazy s c field f =
      if c.scheme_store == field.scheme_store
      then assign_if_none c field.index f (index s field.index) (get_elem? c.values field.index)
      else done (err scheme_mismatch, c)

  unfoldable pub set_field_value_from_name_lazy :
      SchemeStore F L → ExecutionContext M U → Text → (Unit {0} → LhsValue) → Setting M U Bool
  set_field_value_from_name_lazy s c name f = elim (get_field_index s name) [
    | some i ↦ assign_if_none c i f (index s i) (get_elem? c.values i)
    | none ↦ done (err unknown_field, c)
  ]

  -- The callers have compared the addresses of the stores.
  unfoldable pub get_field_value_unchecked :
      SchemeStore F L → ExecutionContext M U → FieldRef → Outcome (Option LhsValue)
  get_field_value_unchecked s c field =
      value_or_missing (get_elem? c.values field.index) (index s field.index)

module _ {M U : Type 0} where
  -- `get_field_value`, which panics on a field of another store and out of bounds.
  abbrev pub get_field_value : ExecutionContext M U → FieldRef → Outcome (Option LhsValue)
  get_field_value c field =
      if c.scheme_store == field.scheme_store
      then elim (get_elem? c.values field.index) [ some v ↦ done v | none ↦ panic ]
      else panic

module _ {M U T : Type 0} where
  abbrev pub take_with : (U → T) → ExecutionContext M U → ExecutionContext M T
  take_with f c = record {
    scheme_store = c.scheme_store;
    scheme = c.scheme;
    values = c.values;
    list_matchers = c.list_matchers;
    user_data = f c.user_data;
  }

-- `ExecutionContextGuard`
pub record Guard (M U T : Type 0) : Type 0 where
  pub old : ExecutionContext M U
  pub new : ExecutionContext M T

module _ {M U T : Type 0} where
  -- `borrow_with`: the values and the matchers of the old context are taken, which leaves it empty.
  unfoldable pub borrow_with : ExecutionContext M U → T → Guard M U T
  borrow_with c t = record {
    old = record c { values = []; list_matchers = [] };
    new = record {
      scheme_store = c.scheme_store;
      scheme = c.scheme;
      values = c.values;
      list_matchers = c.list_matchers;
      user_data = t;
    };
  }

  -- The guard's `drop`, with the context that is borrowed no longer.
  unfoldable pub release : Guard M U T → ExecutionContext M U
  release g = record g.old { values = g.new.values; list_matchers = g.new.list_matchers }
