-- ===== src/Scheme.antt =====
-- engine/src/scheme.rs: the store of definitions that schemes share, the builder of a scheme, and
-- its lookups. `F` and `L` are the types of function and list definitions, which are trait objects.
-- An `Arc<SchemeStore>` is the address of a store; an operation takes the store at that address and
-- returns it changed. Every method that changes the store is one step under the write lock.
pub mod Keys
pub mod Builder
pub mod Store
pub mod Entries
pub mod Resolve
pub mod Functions
use wirefilter.Prelude.{
  ℕ, zero, suc, ◌+◌, ◌%◌, ◌^◌, Bool, true, false, not, ◌||◌, Option, none, some, List, [], ◌∷◌,
  ◌++◌, if◌then◌else◌, length, get_elem?, any, ◌==◌,
}
use wirefilter.Prelude.Outcome.{Outcome, done, panic}
use wirefilter.Prelude.Map.{HashMap, get, insert, same}
use wirefilter.Types.{ValueType}
use wirefilter.Lex.{Text}
use Keys.{text_key, type_key, type_eq}

pub record FieldDefinition : Type 0 where
  pub name : Text
  pub ty : ValueType
  pub optional : Bool
  pub scheme_id : ℕ

-- `IdentifierRedefinitionError` with the errors that it carries.
pub data IdentifierRedefinitionError : Type 0 where
  field function : Text → IdentifierRedefinitionError
  field_type_mismatch : Text → ValueType → ValueType → IdentifierRedefinitionError

pub data ListRedefinitionError : Type 0 where
  redefined : ValueType → ListRedefinitionError

pub data Result (A E : Type 0) : Type 0 where
  ok : A → Result A E
  err : E → Result A E

-- `SchemeStoreInner`
pub record SchemeStore (F L : Type 0) : Type 0 where
  pub fields : List FieldDefinition
  pub field_names : HashMap Text ℕ
  pub functions : List (Text × F)
  pub function_names : HashMap Text ℕ
  pub lists : List (ValueType × L)
  pub list_types : HashMap ValueType ℕ
  pub next_scheme_id : ℕ
  pub nil_not_equal_is_false : Bool

abbrev pub or_panic : {A : Type 0} → Option A → Outcome A
or_panic (some a) = done a
or_panic none = panic

abbrev pub same_type :
    Text → ValueType → ℕ → Outcome FieldDefinition → Outcome (Result ℕ IdentifierRedefinitionError)
same_type name ty i (done d) =
    if type_eq d.ty ty then done (ok i) else done (err (field_type_mismatch name d.ty ty))
same_type name ty i panic = panic

module _ {F L : Type 0} where
  abbrev pub new : Bool → SchemeStore F L
  new b = record {
    fields = [];
    field_names = [];
    functions = [];
    function_names = [];
    lists = [];
    list_types = [];
    next_scheme_id = 0;
    nil_not_equal_is_false = b;
  }

  abbrev pub get_field_index : SchemeStore F L → Text → Option ℕ
  get_field_index s name = get s.field_names name

  -- `SchemeStore::index`, which panics out of bounds.
  abbrev pub index : SchemeStore F L → ℕ → Outcome FieldDefinition
  index s i = or_panic (get_elem? s.fields i)

  abbrev pub set_nil_not_equal_is_false : SchemeStore F L → Bool → SchemeStore F L
  set_nil_not_equal_is_false s b = record s { nil_not_equal_is_false = b }

  abbrev pub nil_not_equal_behavior : SchemeStore F L → Bool
  nil_not_equal_behavior s = not s.nil_not_equal_is_false

  abbrev pub push_field : SchemeStore F L → FieldDefinition → SchemeStore F L
  push_field s d = record s {
    fields = s.fields ++ d ∷ [];
    field_names = insert s.field_names d.name (length s.fields);
  }

  abbrev pub add_unnamed :
      SchemeStore F L
      → FieldDefinition
      → Option ℕ
      → Result ℕ IdentifierRedefinitionError × SchemeStore F L
  add_unnamed s d (some _) = (err (IdentifierRedefinitionError.field d.name), s)
  add_unnamed s d none = (ok (length s.fields), push_field s d)

  unfoldable pub add_field_internal :
      SchemeStore F L
      → Text
      → ValueType
      → Bool
      → ℕ
      → Result ℕ IdentifierRedefinitionError × SchemeStore F L
  add_field_internal s name ty optional scheme_id =
      add_unnamed s (record { name = name; ty = ty; optional = optional; scheme_id = scheme_id })
        (get s.field_names name)

  -- The part of `get_or_add_field` under the read lock; `none` goes on to `add_field_internal`.
  unfoldable pub existing_field :
      SchemeStore F L → Text → ValueType → Option (Outcome (Result ℕ IdentifierRedefinitionError))
  existing_field s name ty = elim (get s.field_names name) [
    | some i ↦ some (same_type name ty i (index s i))
    | none ↦ none
  ]

  abbrev pub or_add :
      SchemeStore F L
      → Text
      → ValueType
      → Bool
      → ℕ
      → Option (Outcome (Result ℕ IdentifierRedefinitionError))
      → Outcome (Result ℕ IdentifierRedefinitionError × SchemeStore F L)
  or_add s name ty optional scheme_id (some (done r)) = done (r, s)
  or_add s name ty optional scheme_id (some panic) = panic
  or_add s name ty optional scheme_id none = done (add_field_internal s name ty optional scheme_id)

  -- No other thread changes the store between the two locks here.
  unfoldable pub get_or_add_field :
      SchemeStore F L
      → Text
      → ValueType
      → Bool
      → ℕ
      → Outcome (Result ℕ IdentifierRedefinitionError × SchemeStore F L)
  get_or_add_field s name ty optional scheme_id =
      or_add s name ty optional scheme_id (existing_field s name ty)

  -- The counter is a `u64`, which wraps in a release build.
  unfoldable pub allocate_scheme_id : SchemeStore F L → ℕ × SchemeStore F L
  allocate_scheme_id s =
      (s.next_scheme_id, record s { next_scheme_id = (s.next_scheme_id + 1) % 2 ^ 64 })

  -- The part of `get_or_add_function` under the write lock, with what its own lookup finds.
  abbrev pub add_function_internal :
      SchemeStore F L → Text → F → Option ℕ → Result ℕ IdentifierRedefinitionError × SchemeStore F L
  add_function_internal s name f (some _) = (err (IdentifierRedefinitionError.function name), s)
  add_function_internal s name f none = (
    ok (length s.functions),
    record s {
      functions = s.functions ++ (name, f) ∷ [];
      function_names = insert s.function_names name (length s.functions);
    },
  )

  abbrev pub or_add_function :
      SchemeStore F L → Text → F → Option ℕ → Result ℕ IdentifierRedefinitionError × SchemeStore F L
  or_add_function s name f (some i) = (ok i, s)
  or_add_function s name f none = add_function_internal s name f (get s.function_names name)

  unfoldable pub get_or_add_function :
      SchemeStore F L → Text → F → Result ℕ IdentifierRedefinitionError × SchemeStore F L
  get_or_add_function s name f = or_add_function s name f (get s.function_names name)

  abbrev pub add_list_internal :
      SchemeStore F L → ValueType → L → Option ℕ → Result ℕ ListRedefinitionError × SchemeStore F L
  add_list_internal s ty l (some _) = (err (redefined ty), s)
  add_list_internal s ty l none = (
    ok (length s.lists),
    record s {
      lists = s.lists ++ (ty, l) ∷ [];
      list_types = insert s.list_types ty (length s.lists);
    },
  )

  abbrev pub or_add_list :
      SchemeStore F L → ValueType → L → Option ℕ → Result ℕ ListRedefinitionError × SchemeStore F L
  or_add_list s ty l (some i) = (ok i, s)
  or_add_list s ty l none = add_list_internal s ty l (get s.list_types ty)

  unfoldable pub get_or_add_list :
      SchemeStore F L → ValueType → L → Result ℕ ListRedefinitionError × SchemeStore F L
  get_or_add_list s ty l = or_add_list s ty l (get s.list_types ty)
