-- ===== src/Tests/Schemes.antt =====
-- Stores, schemes and contexts.
use wirefilter.Prelude.{
  ◌≢◌, ℕ, zero, suc, ◌≡◌, refl, true, false, Option, some, none, [], ◌∷◌, get_elem?, set, arith,
  ◌⊎◌,
}
use wirefilter.Prelude.Int.{pos}
use wirefilter.Prelude.Map.{get, insert}
use wirefilter.Prelude.Outcome.{done, panic}
use wirefilter.Types.{ValueType}
use wirefilter.Lex.{codes}
use wirefilter.Value.{LhsValue}
use wirefilter.Scheme.{
  SchemeStore, new, FieldDefinition, IdentifierRedefinitionError, ok, err, push_field,
  existing_field, add_field_internal, get_or_add_field,
}
use wirefilter.Scheme.Keys.{text_key}
use wirefilter.Scheme.Store.{
  IsConsistent, Extends, new-IsConsistent, push_field-IsConsistent, Extends-refl, Registered,
  get_or_add_field-Registered, HasField,
}
use wirefilter.Scheme.Builder.{
  SchemeBuilder, SchemeItem, FieldRef, add_field_full, build, get_field, add_function, get_function,
}
use wirefilter.Scheme.Functions.{add_function-get_function}
use wirefilter.Scheme.Resolve.{
  IsResolved, FieldAdded, add_field_full-resolves, get_field-add_field_full, with_item, NameTaken,
}
use wirefilter.Context.{
  ExecutionContext, new_with, type_mismatch, set_field_value, get_field_value_unchecked, clear,
}
use wirefilter.Context.Typed.{IsTypedContext}
use wirefilter.Context.Later.{set_field_value-new_with}
use wirefilter.Context.Steps.{
  Steps, sets, clears, stop, then_step, Steps-IsTypedContext, set_field_value-get_field_value,
}

-- Functions and lists are numbers here.
abbrev Store : Type 0
Store = SchemeStore ℕ ℕ

abbrev empty : Store
empty = new false

abbrev port : FieldDefinition
port = record { name = codes "port"; ty = ValueType.int; optional = false; scheme_id = 0 }

abbrev with_port : Store
with_port = push_field empty port

empty-IsConsistent : IsConsistent empty
empty-IsConsistent = new-IsConsistent false

with_port-IsConsistent : IsConsistent with_port
with_port-IsConsistent = push_field-IsConsistent empty port empty-IsConsistent refl

get_or_add_field-Registered_example :
    Registered with_port
      (codes "port")
      ValueType.bytes
      (get_or_add_field with_port (codes "port") ValueType.bytes true 1)
get_or_add_field-Registered_example =
    get_or_add_field-Registered with_port (codes "port") ValueType.bytes true 1
      with_port-IsConsistent

abbrev builder : SchemeBuilder
builder = record { scheme_store = 5; scheme_id = 0; items = []; list_types = [] }

builder-IsResolved : IsResolved builder.items empty
builder-IsResolved name item e = cc

add_field_full-resolves_example :
    FieldAdded builder empty
      (codes "port")
      ValueType.int
      (add_field_full builder empty (codes "port") ValueType.int false)
add_field_full-resolves_example =
    add_field_full-resolves builder empty (codes "port") ValueType.int false empty-IsConsistent
      builder-IsResolved

abbrev built : SchemeBuilder
built = with_item builder (codes "port") (SchemeItem.field 0)

added :
    add_field_full builder empty (codes "port") ValueType.int false ≡ done (ok tt, built, with_port)
unfolding add_field_full get_or_add_field existing_field add_field_internal
added = refl

get_field-add_field_full_example :
    (i : ℕ) × (get_field (build built) (codes "port") ≡ ok (record { scheme_store = 5; index = i }))
    × HasField with_port i (codes "port") ValueType.int
get_field-add_field_full_example =
    get_field-add_field_full builder built empty with_port with_port (codes "port") ValueType.int
      false empty-IsConsistent builder-IsResolved added (Extends-refl with_port)

abbrev the_port : FieldRef
the_port = record { scheme_store = 5; index = 0 }

-- A context with no list matcher of use, and no user data.
abbrev context : Store → ExecutionContext ℕ (Unit {0})
context s = record {
  scheme_store = 5;
  scheme = build built;
  values = none ∷ [];
  list_matchers = [];
  user_data = tt;
}

abbrev fresh : ExecutionContext ℕ (Unit {0})
fresh = context with_port

abbrev eighty : LhsValue
eighty = LhsValue.int (pos 80)

abbrev after_set : ExecutionContext ℕ (Unit {0})
after_set = record fresh { values = some eighty ∷ [] }

fresh-IsTypedContext : IsTypedContext with_port fresh
fresh-IsTypedContext zero v e = cc
fresh-IsTypedContext (suc i) v e = cc

set_port : set_field_value with_port fresh the_port eighty ≡ done (ok none, after_set)
unfolding set_field_value
set_port = refl

set_then_clear : Steps with_port fresh with_port (clear (λ m. m) after_set)
set_then_clear =
    then_step (sets the_port eighty (ok none) set_port) (then_step (clears (λ m. m)) stop)

Steps-IsTypedContext_example : IsTypedContext with_port (clear (λ m. m) after_set)
Steps-IsTypedContext_example = Steps-IsTypedContext set_then_clear fresh-IsTypedContext

set_field_value-get_field_value_example :
    (old : Option LhsValue) × (c' : ExecutionContext ℕ (Unit {0})) × (get_elem? fresh.values 0
      ≡ some old)
    × (set_field_value with_port fresh the_port eighty ≡ done (ok old, c'))
    × (get_field_value_unchecked with_port c' the_port ≡ done (some eighty))
    × (c'.values ≡ set fresh.values 0 (some eighty))
set_field_value-get_field_value_example =
    set_field_value-get_field_value with_port fresh the_port eighty port refl refl refl
      (omega arith)

-- Made before the field was added.
-- The field is added when the context is there.
abbrev early : ExecutionContext ℕ (Unit {0})
early = new_with (λ l. l) (build built) empty tt

set_field_value-new_with_example :
    (get_field_value_unchecked with_port early the_port ≡ panic)
    × ((ValueType.int ≡ ValueType.int) × (set_field_value with_port early the_port eighty ≡ panic)
        ⊎ (ValueType.int ≢ ValueType.int)
          × (set_field_value with_port early the_port eighty
              ≡ done (err (type_mismatch ValueType.int ValueType.int), early)))
unfolding add_field_internal
set_field_value-new_with_example =
    set_field_value-new_with (λ l. l) (build built) empty with_port with_port tt (codes "port")
      ValueType.int false 0 0 eighty refl (Extends-refl with_port)

add_function-get_function_example :
    ((e : IdentifierRedefinitionError) × NameTaken (codes "any") (get builder.items (codes "any")) e
      × (add_function builder empty (codes "any") 7 ≡ done (err e, builder, empty)))
    ⊎ ((i : ℕ) × (g : ℕ) × (t : Store) × (get builder.items (codes "any") ≡ none)
        × (add_function builder empty (codes "any") 7
            ≡ done (ok tt, with_item builder (codes "any") (SchemeItem.function i), t))
        × (get_function
              (build (with_item builder (codes "any") (SchemeItem.function i)))
              (codes "any")
            ≡ ok (record { scheme_store = 5; index = i }))
        × (get_elem? t.functions i ≡ some (codes "any", g))
        × Extends empty t
        × IsConsistent t
        × IsResolved (insert builder.items (codes "any") (SchemeItem.function i)) t)
add_function-get_function_example =
    add_function-get_function builder empty (codes "any") 7 empty-IsConsistent builder-IsResolved
