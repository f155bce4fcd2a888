-- ===== src/Functions.antt =====
-- engine/src/functions/mod.rs: arguments, their checks, and functions with fixed parameters. An
-- argument that a call passes is a value, or the type of a value that is missing.
pub mod Simple
pub mod Builtin
pub mod Lexed
use wirefilter.Prelude.{
  ℕ, ◌+◌, ◌-◌, Bool, true, false, ◌||◌, Option, none, some, List, [], ◌∷◌, ◌++◌, map, length, drop,
  get_elem?, ltb, ◌==◌, if◌then◌else◌,
}
use wirefilter.Prelude.Outcome.{Outcome, done, panic}
use wirefilter.Types.{ValueType}
use wirefilter.Lex.{Text}
use wirefilter.Scheme.Keys.{type_eq}
use wirefilter.Compare.{RhsValue}
use wirefilter.Value.{LhsValue, get_type}

pub data FunctionArgKind : Type 0 where
  literal field : FunctionArgKind

-- What the parser knows of an argument.
pub data FunctionParam : Type 0 where
  constant : RhsValue → FunctionParam
  variable : ValueType → FunctionParam

pub data ExpectedType : Type 0 where
  exactly : ValueType → ExpectedType
  any_array any_map : ExpectedType

pub data FunctionParamError : Type 0 where
  type_mismatch : List ExpectedType → ValueType → FunctionParamError
  kind_mismatch : FunctionArgKind → FunctionArgKind → FunctionParamError
  invalid_constant : Text → FunctionParamError

-- `CompiledValueResult`
pub data Arg : Type 0 where
  ok : LhsValue → Arg
  missing : ValueType → Arg

abbrev pub rhs_type : RhsValue → ValueType
rhs_type (RhsValue.bytes b) = ValueType.bytes
rhs_type (RhsValue.int i) = ValueType.int
rhs_type (RhsValue.ip a) = ValueType.ip

abbrev pub param_type : FunctionParam → ValueType
param_type (constant v) = rhs_type v
param_type (variable t) = t

abbrev pub arg_kind : FunctionParam → FunctionArgKind
arg_kind (constant v) = FunctionArgKind.literal
arg_kind (variable t) = FunctionArgKind.field

-- A check that passes is `none`.
abbrev pub Check : Type 0
Check = Option FunctionParamError

-- `FunctionArgKind::expect`
abbrev pub expect_kind : FunctionArgKind → FunctionArgKind → Check
expect_kind FunctionArgKind.literal FunctionArgKind.literal = none
expect_kind FunctionArgKind.field FunctionArgKind.field = none
expect_kind actual expected = some (kind_mismatch expected actual)

abbrev pub fits_expected : ExpectedType → ValueType → Bool
fits_expected (exactly t) u = type_eq u t
fits_expected any_array (ValueType.array c) = true
fits_expected any_array u = false
fits_expected any_map (ValueType.map c) = true
fits_expected any_map u = false

-- The loop over the expected types, with those seen.
unfoldable pub expect_one_of : List ExpectedType → ValueType → List ExpectedType → Check
expect_one_of [] ty types = some (type_mismatch types ty)
expect_one_of (e ∷ es) ty types =
    let onward = expect_one_of es ty (types ++ e ∷ []) in
    if fits_expected e ty then none else onward

unfoldable pub expect_val_type : FunctionParam → List ExpectedType → Check
unfolding expect_one_of
expect_val_type p expected = expect_one_of expected (param_type p) []

abbrev pub and_then : Check → Check → Check
and_then (some e) k = some e
and_then none k = k

-- What a call runs: the arguments in, a value out unless there is none.
abbrev pub Closure : Type 0
Closure = List Arg → Outcome (Option LhsValue)

-- The trait `FunctionDefinition`, for definitions that keep no context.
pub record FunctionDefinition : Type 0 where
  pub check_param : List FunctionParam → FunctionParam → Outcome Check
  pub return_type : List FunctionParam → Outcome ValueType
  pub mandatory : ℕ
  pub optional : Option ℕ
  pub compile : List FunctionParam → Outcome Closure

-- Simple functions.
pub data SimpleFunctionArgKind : Type 0 where
  literal field both : SimpleFunctionArgKind

abbrev pub expect_simple : SimpleFunctionArgKind → FunctionArgKind → Check
expect_simple SimpleFunctionArgKind.literal k = expect_kind k FunctionArgKind.literal
expect_simple SimpleFunctionArgKind.field k = expect_kind k FunctionArgKind.field
expect_simple SimpleFunctionArgKind.both k = none

pub record SimpleFunctionParam : Type 0 where
  pub arg_kind : SimpleFunctionArgKind
  pub val_type : ValueType

pub record SimpleFunctionOptParam : Type 0 where
  pub arg_kind : SimpleFunctionArgKind
  pub default_value : LhsValue

pub record SimpleFunctionDefinition : Type 0 where
  pub params : List SimpleFunctionParam
  pub opt_params : List SimpleFunctionOptParam
  pub return_type : ValueType
  pub implementation : Closure

abbrev pub check_against : SimpleFunctionArgKind → ValueType → FunctionParam → Check
check_against kind t next =
    and_then (expect_simple kind (arg_kind next)) (expect_val_type next (exactly t ∷ []))

abbrev pub check_optional : Option SimpleFunctionOptParam → FunctionParam → Outcome Check
check_optional (some p) next = done (check_against p.arg_kind (get_type p.default_value) next)
check_optional none next = panic

-- Past the last optional parameter is unreachable.
abbrev pub check_mandatory :
    Option SimpleFunctionParam → Outcome Check → FunctionParam → Outcome Check
check_mandatory (some p) otherwise next = done (check_against p.arg_kind p.val_type next)
check_mandatory none otherwise next = otherwise

unfoldable pub simple_check_param :
    SimpleFunctionDefinition → List FunctionParam → FunctionParam → Outcome Check
unfolding expect_val_type
simple_check_param d params next =
    check_mandatory (get_elem? d.params (length params))
      (check_optional (get_elem? d.opt_params (length params - length d.params)) next) next

abbrev pub default_arg : SimpleFunctionOptParam → Arg
default_arg p = ok p.default_value

-- `assert_eq!(params_count, args.len())`, and then the call with the defaults behind the arguments.
abbrev pub run_with_defaults : Closure → ℕ → List SimpleFunctionOptParam → Closure
run_with_defaults implementation count opts args =
    if count == length args then implementation (args ++ map default_arg opts) else panic

-- The difference of the counts and the slice from there panic where they leave their range.
unfoldable pub simple_compile : SimpleFunctionDefinition → List FunctionParam → Outcome Closure
simple_compile d params =
    if ltb (length params) (length d.params)
      || ltb (length d.opt_params) (length params - length d.params)
    then panic
    else done (
        run_with_defaults d.implementation (length params)
          (drop (length params - length d.params) d.opt_params))

unfoldable pub simple_definition : SimpleFunctionDefinition → FunctionDefinition
unfolding simple_check_param simple_compile
simple_definition d = record {
  check_param = simple_check_param d;
  return_type = λ params. done d.return_type;
  mandatory = length d.params;
  optional = some (length d.opt_params);
  compile = simple_compile d;
}
