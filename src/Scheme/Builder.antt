-- ===== src/Scheme/Builder.antt =====
-- engine/src/scheme.rs: `SchemeBuilder`, and the lookups of the `Scheme` that it builds.
use wirefilter.Prelude.{
  ℕ, Bool, true, false, not, Option, none, some, List, [], ◌∷◌, if◌then◌else◌, any,
}
use wirefilter.Prelude.Outcome.{Outcome, done, panic}
use wirefilter.Prelude.Map.{HashMap, get, insert}
use wirefilter.Types.{ValueType}
use wirefilter.Lex.{Text}
use wirefilter.Scheme.{
  SchemeStore, new as new_store, IdentifierRedefinitionError, ListRedefinitionError, redefined,
  Result, ok, err, allocate_scheme_id, get_or_add_field, get_or_add_function, get_or_add_list,
  set_nil_not_equal_is_false,
}
use wirefilter.Scheme.Keys.{text_key, type_eq}

pub data SchemeItem : Type 0 where
  field function : ℕ → SchemeItem

-- `scheme_store` is the address of the store. The `HashSet` of types is a list.
pub record SchemeBuilder : Type 0 where
  pub scheme_store : ℕ
  pub scheme_id : ℕ
  pub items : HashMap Text SchemeItem
  pub list_types : List ValueType

-- `Scheme` and `SchemeInner`. `scheme_store` is an address.
pub record Scheme : Type 0 where
  pub scheme_store : ℕ
  pub items : HashMap Text SchemeItem

-- The result of a call, with the builder and the store after it.
abbrev pub Change : Type 0 → Type 0 → Type 0 → Type 0
Change F L E = Outcome (Result (Unit {0}) E × SchemeBuilder × SchemeStore F L)

-- The error for a name that the scheme has; `none` for a new name.
abbrev pub occupied : Text → Option SchemeItem → Option IdentifierRedefinitionError
occupied name (some (SchemeItem.field _)) = some (IdentifierRedefinitionError.field name)
occupied name (some (SchemeItem.function _)) = some (IdentifierRedefinitionError.function name)
occupied name none = none

module _ {F L : Type 0} where
  abbrev pub started : ℕ → ℕ × SchemeStore F L → SchemeBuilder × SchemeStore F L
  started store (id, s) =
      (record { scheme_store = store; scheme_id = id; items = []; list_types = [] }, s)

  unfoldable pub new_with_scheme_store : ℕ → SchemeStore F L → SchemeBuilder × SchemeStore F L
  new_with_scheme_store store s = started store (allocate_scheme_id s)

  -- `store` is the address at which the store is allocated.
  unfoldable pub new : ℕ → SchemeBuilder × SchemeStore F L
  new store = started store (allocate_scheme_id (new_store false))

  abbrev pub insert_field :
      SchemeBuilder
      → Text
      → Outcome (Result ℕ IdentifierRedefinitionError × SchemeStore F L)
      → Change F L IdentifierRedefinitionError
  insert_field b name (done (ok i, s)) =
      done (ok tt, record b { items = insert b.items name (SchemeItem.field i) }, s)
  insert_field b name (done (err e, s)) = done (err e, b, s)
  insert_field b name panic = panic

  abbrev pub add_vacant_field :
      SchemeBuilder
      → SchemeStore F L
      → Text
      → ValueType
      → Bool
      → Option IdentifierRedefinitionError
      → Change F L IdentifierRedefinitionError
  add_vacant_field b s name ty optional (some e) = done (err e, b, s)
  add_vacant_field b s name ty optional none =
      insert_field b name (get_or_add_field s name ty optional b.scheme_id)

  unfoldable pub add_field_full :
      SchemeBuilder
      → SchemeStore F L
      → Text
      → ValueType
      → Bool
      → Change F L IdentifierRedefinitionError
  add_field_full b s name ty optional =
      add_vacant_field b s name ty optional (occupied name (get b.items name))

  abbrev pub add_field :
      SchemeBuilder → SchemeStore F L → Text → ValueType → Change F L IdentifierRedefinitionError
  add_field b s name ty = add_field_full b s name ty false

  abbrev pub add_optional_field :
      SchemeBuilder → SchemeStore F L → Text → ValueType → Change F L IdentifierRedefinitionError
  add_optional_field b s name ty = add_field_full b s name ty true

  abbrev pub insert_function :
      SchemeBuilder
      → Text
      → Result ℕ IdentifierRedefinitionError × SchemeStore F L
      → Change F L IdentifierRedefinitionError
  insert_function b name (ok i, s) =
      done (ok tt, record b { items = insert b.items name (SchemeItem.function i) }, s)
  insert_function b name (err e, s) = done (err e, b, s)

  abbrev pub add_vacant_function :
      SchemeBuilder
      → SchemeStore F L
      → Text
      → F
      → Option IdentifierRedefinitionError
      → Change F L IdentifierRedefinitionError
  add_vacant_function b s name f (some e) = done (err e, b, s)
  add_vacant_function b s name f none = insert_function b name (get_or_add_function s name f)

  unfoldable pub add_function :
      SchemeBuilder → SchemeStore F L → Text → F → Change F L IdentifierRedefinitionError
  add_function b s name f = add_vacant_function b s name f (occupied name (get b.items name))

  abbrev pub insert_list :
      SchemeBuilder
      → ValueType
      → Result ℕ ListRedefinitionError × SchemeStore F L
      → Change F L ListRedefinitionError
  insert_list b ty (ok i, s) = done (ok tt, record b { list_types = ty ∷ b.list_types }, s)
  insert_list b ty (err e, s) = done (err e, b, s)

  unfoldable pub add_list :
      SchemeBuilder → SchemeStore F L → ValueType → L → Change F L ListRedefinitionError
  add_list b s ty l =
      if any (type_eq ty) b.list_types
      then done (err (redefined ty), b, s)
      else insert_list b ty (get_or_add_list s ty l)

  abbrev pub set_nil_not_equal_behavior : SchemeStore F L → Bool → SchemeStore F L
  set_nil_not_equal_behavior s behavior = set_nil_not_equal_is_false s (not behavior)

abbrev pub build : SchemeBuilder → Scheme
build b = record { scheme_store = b.scheme_store; items = b.items }

-- `FieldRef` and `Field`, and `FunctionRef`.
pub record FieldRef : Type 0 where
  pub scheme_store : ℕ
  pub index : ℕ

pub record FunctionRef : Type 0 where
  pub scheme_store : ℕ
  pub index : ℕ

pub data Identifier : Type 0 where
  field : FieldRef → Identifier
  function : FunctionRef → Identifier

abbrev pub identifier_of : ℕ → Option SchemeItem → Option Identifier
identifier_of store (some (SchemeItem.field i)) =
    some (Identifier.field (record { scheme_store = store; index = i }))
identifier_of store (some (SchemeItem.function i)) =
    some (Identifier.function (record { scheme_store = store; index = i }))
identifier_of store none = none

-- `Scheme::get`
unfoldable pub get_identifier : Scheme → Text → Option Identifier
get_identifier s name = identifier_of s.scheme_store (get s.items name)

pub data UnknownError : Type 0 where
  unknown_field unknown_function : UnknownError

abbrev pub as_field : Option Identifier → Result FieldRef UnknownError
as_field (some (Identifier.field f)) = ok f
as_field _ = err unknown_field

unfoldable pub get_field : Scheme → Text → Result FieldRef UnknownError
get_field s name = as_field (get_identifier s name)

abbrev pub as_function : Option Identifier → Result FunctionRef UnknownError
as_function (some (Identifier.function f)) = ok f
as_function _ = err unknown_function

unfoldable pub get_function : Scheme → Text → Result FunctionRef UnknownError
get_function s name = as_function (get_identifier s name)
