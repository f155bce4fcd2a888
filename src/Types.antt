-- ===== src/Types.antt =====
-- engine/src/types.rs: the type of a field value, and its flattened form for nested types.
pub mod Packing
use wirefilter.Prelude.{
  ℕ, ◌+◌, ◌-◌, ◌*◌, ◌/◌, ◌%◌, ◌^◌, ◌≤◌, ◌<◌, Bool, true, false, Option, none, some, leb, ltb, ◌==◌,
  if◌then◌else◌,
}

pub data PrimitiveType : Type 0 where
  bool bytes int ip : PrimitiveType

pub data Layer : Type 0 where
  array map : Layer

-- `layers` is a `u32` and `len` a `u8`; bit 0 of `layers` is the outermost layer.
pub record CompoundType : Type 0 where
  pub layers : ℕ
  pub len : ℕ
  pub primitive : PrimitiveType

-- The source's `enum Type`.
pub data ValueType : Type 0 where
  bool bytes int ip : ValueType
  array map : CompoundType → ValueType

abbrev pub new : PrimitiveType → CompoundType
new p = record { layers = 0; len = 0; primitive = p }

-- `self.layers & 1` is the remainder by 2, and `>>= 1` the quotient.
unfoldable pub pop : CompoundType → CompoundType × Option Layer
pop c =
    let rest : CompoundType = record {
      layers = c.layers / 2;
      len = c.len - 1;
      primitive = c.primitive;
    } in
    if ltb 0 c.len
    then (if c.layers % 2 == 0 then (rest, some Layer.array) else (rest, some Layer.map))
    else (c, none)

abbrev pub layer_bit : Layer → ℕ
layer_bit Layer.array = 0
layer_bit Layer.map = 1

-- `<<` drops what leaves the 32 bits; the bit that it clears is then set to `layer`.
unfoldable pub push : CompoundType → Layer → Option CompoundType
push c l =
    if leb 32 c.len
    then none
    else some (record {
      layers = c.layers * 2 % 2 ^ 32 + layer_bit l;
      len = c.len + 1;
      primitive = c.primitive;
    })

-- `none` is the panic on too many layers.
unfoldable pub from_type : ValueType → Option CompoundType
unfolding push
from_type ValueType.bool = some (new PrimitiveType.bool)
from_type ValueType.bytes = some (new PrimitiveType.bytes)
from_type ValueType.int = some (new PrimitiveType.int)
from_type ValueType.ip = some (new PrimitiveType.ip)
from_type (ValueType.array c) = push c Layer.array
from_type (ValueType.map c) = push c Layer.map

abbrev pub from_primitive : PrimitiveType → ValueType
from_primitive PrimitiveType.bool = ValueType.bool
from_primitive PrimitiveType.bytes = ValueType.bytes
from_primitive PrimitiveType.int = ValueType.int
from_primitive PrimitiveType.ip = ValueType.ip

abbrev pub wrap_layer : CompoundType → Option Layer → ValueType
wrap_layer c (some Layer.array) = ValueType.array c
wrap_layer c (some Layer.map) = ValueType.map c
wrap_layer c none = from_primitive c.primitive

unfoldable pub into_type : CompoundType → ValueType
unfolding pop
into_type c = wrap_layer (pop c).0 (pop c).1

-- `Type::next`, the type of the elements.
unfoldable pub next : ValueType → Option ValueType
unfolding into_type
next (ValueType.array c) = some (into_type c)
next (ValueType.map c) = some (into_type c)
next _ = none
