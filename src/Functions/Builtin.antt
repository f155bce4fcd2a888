-- ===== src/Functions/Builtin.antt =====
-- engine/src/functions/any.rs, engine/src/functions/all.rs and engine/src/functions/concat.rs.
pub mod Joined
use wirefilter.Prelude.{
  ℕ, Bool, true, false, ◌&&◌, not, Option, none, some, List, [], ◌∷◌, ◌++◌, length, ◌==◌,
  if◌then◌else◌, all,
}
use wirefilter.Prelude.Outcome.{Outcome, done, panic, ◌>>=◌}
use wirefilter.Types.{CompoundType, ValueType, into_type, from_type, PrimitiveType}
use wirefilter.Scheme.Keys.{type_eq, compound_eq}
use wirefilter.Rhs.Bytes.{Bytes}
use wirefilter.Value.{LhsValue, Elems, get_type, to_list, of_list}
use wirefilter.Functions.{
  FunctionParam, FunctionArgKind, ExpectedType, exactly, any_array, Check, Arg, Closure, arg_kind,
  param_type, expect_kind, expect_val_type, and_then, FunctionDefinition,
}

-- `arr.into_iter().any`, which stops at the first that holds, with the unwrapped cast of each.
unfoldable pub any_elems : List LhsValue → Outcome Bool
any_elems [] = done false
any_elems (LhsValue.bool b ∷ vs) = let onward = any_elems vs in if b then done true else onward
any_elems (v ∷ vs) = panic

unfoldable pub all_elems : List LhsValue → Outcome Bool
all_elems [] = done true
all_elems (LhsValue.bool b ∷ vs) = let onward = all_elems vs in if b then onward else done false
all_elems (v ∷ vs) = panic

abbrev pub some_bool : Outcome Bool → Outcome (Option LhsValue)
some_bool (done b) = done (some (LhsValue.bool b))
some_bool panic = panic

-- `any_impl` and `all_impl`, which differ in what they do with the elements.
unfoldable pub over_elems : (List LhsValue → Outcome Bool) → Closure
over_elems f (Arg.ok (LhsValue.array c es) ∷ []) = some_bool (f (to_list es))
over_elems f (Arg.missing (ValueType.array c) ∷ []) =
    if type_eq (into_type c) ValueType.bool then done none else panic
over_elems f args = panic

abbrev pub bool_array_type : ValueType
bool_array_type = ValueType.array (record { layers = 0; len = 1; primitive = PrimitiveType.bool })

unfoldable pub check_bools : List FunctionParam → FunctionParam → Outcome Check
unfolding expect_val_type
check_bools [] next = done (
    and_then (expect_kind (arg_kind next) FunctionArgKind.field)
      (expect_val_type next (exactly bool_array_type ∷ [])))
check_bools (p ∷ params) next = panic

unfoldable pub any_function : FunctionDefinition
unfolding check_bools over_elems any_elems
any_function = record {
  check_param = check_bools;
  return_type = λ params. done ValueType.bool;
  mandatory = 1;
  optional = some 0;
  compile = λ params. done (over_elems any_elems);
}

unfoldable pub all_function : FunctionDefinition
unfolding check_bools over_elems all_elems
all_function = record {
  check_param = check_bools;
  return_type = λ params. done ValueType.bool;
  mandatory = 1;
  optional = some 0;
  compile = λ params. done (over_elems all_elems);
}

-- The elements of the arguments that have a value; a value that is no array is unreachable.
unfoldable pub extend_arrays : List LhsValue → List Arg → Outcome (List LhsValue)
extend_arrays acc [] = done acc
extend_arrays acc (Arg.missing t ∷ args) = extend_arrays acc args
extend_arrays acc (Arg.ok (LhsValue.array c es) ∷ args) = extend_arrays (acc ++ to_list es) args
extend_arrays acc (Arg.ok v ∷ args) = panic

abbrev pub has_value : Arg → Bool
has_value (Arg.ok v) = true
has_value (Arg.missing t) = false

unfoldable pub any_value : List Arg → Bool
any_value [] = false
any_value (a ∷ args) = let onward = any_value args in if has_value a then true else onward

abbrev same_compound : CompoundType → Option CompoundType → Bool
same_compound c (some d) = compound_eq c d
same_compound c none = false

-- Flattening the type of the element panics where it has too many layers.
unfoldable pub elem_fits : CompoundType → LhsValue → Bool
unfolding from_type
elem_fits c v = same_compound c (from_type (get_type v))

-- `Array::try_from_vec`, unwrapped, so that its error is a panic as well.
unfoldable pub try_from_vec : CompoundType → List LhsValue → Outcome LhsValue
unfolding elem_fits
try_from_vec c vs = if all (elem_fits c) vs then done (LhsValue.array c (of_list vs)) else panic

unfoldable pub concat_array : CompoundType → Elems → List Arg → Outcome LhsValue
unfolding any_value extend_arrays try_from_vec
concat_array c es args =
    let joined = extend_arrays (to_list es) args >>= try_from_vec c in
    if any_value args then joined else done (LhsValue.array c es)

unfoldable pub concat_bytes : Bytes → List Arg → Bytes
concat_bytes acc [] = acc
concat_bytes acc (Arg.ok (LhsValue.bytes b) ∷ args) = concat_bytes (acc ++ b) args
concat_bytes acc (a ∷ args) = concat_bytes acc args

abbrev pub some_value : Outcome LhsValue → Outcome (Option LhsValue)
some_value (done v) = done (some v)
some_value panic = panic

-- The loop up to the first argument that has a value.
unfoldable pub concat_impl : Closure
unfolding concat_array concat_bytes
concat_impl [] = done none
concat_impl (Arg.ok (LhsValue.array c es) ∷ args) = some_value (concat_array c es args)
concat_impl (Arg.ok (LhsValue.bytes b) ∷ args) = done (some (LhsValue.bytes (concat_bytes b args)))
concat_impl (Arg.ok v ∷ args) = panic
concat_impl (Arg.missing t ∷ args) = concat_impl args

-- An argument has the type of the first one, which is an array or bytes.
unfoldable pub concat_check_param : List FunctionParam → FunctionParam → Outcome Check
unfolding expect_val_type
concat_check_param (p ∷ params) next = done (expect_val_type next (exactly (param_type p) ∷ []))
concat_check_param [] next = done (expect_val_type next (any_array ∷ exactly ValueType.bytes ∷ []))

abbrev pub first_type : List FunctionParam → Outcome ValueType
first_type (p ∷ params) = done (param_type p)
first_type [] = panic

unfoldable pub concat_function : FunctionDefinition
unfolding concat_check_param concat_impl
concat_function = record {
  check_param = concat_check_param;
  return_type = first_type;
  mandatory = 2;
  optional = none;
  compile = λ params. done concat_impl;
}
