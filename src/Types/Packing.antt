-- ===== src/Types/Packing.antt =====
-- engine/src/types.rs: the flattened form as a list of layers, outermost first, over a primitive.
use wirefilter.Prelude.{
  ℕ, zero, suc, ◌+◌, ◌-◌, ◌*◌, ◌/◌, ◌%◌, ◌^◌, ◌≤◌, ◌<◌, ◌≡◌, refl, sym, ap, ◌∙◌, ◌↔◌, Option, none,
  some, List, [], ◌∷◌, arith, ◌==◌, if◌then◌else◌,
}
use native.Mathlib.Nat.{pow-suc, pow-zero, pow-le-pow_right}
use native.Mathlib.Numerals.{add-one}
use wirefilter.Types.{
  PrimitiveType, Layer, CompoundType, ValueType, new, pop, push, layer_bit, from_type, into_type,
  wrap_layer, from_primitive,
}

-- No bit above the layers counted is set.
pub record IsPacked (c : CompoundType) : Type 0 where
  pub len_le : c.len ≤ 32
  pub layers_lt : c.layers < 2 ^ c.len

abbrev pub IsPackedType : ValueType → Type 0
IsPackedType (ValueType.array c) = IsPacked c
IsPackedType (ValueType.map c) = IsPacked c
IsPackedType _ = Unit

pow_succ : (n : ℕ) → 2 ^ (n + 1) ≡ 2 ^ n * 2
pow_succ n = rw add-one (pow-suc 2 n)

fits_shift : (c : CompoundType) → IsPacked c → c.len < 32 → c.layers * 2 < 2 ^ 32
fits_shift c p h =
    let bound : 2 ^ c.len ≤ 2 ^ 31 =
      pow-le-pow_right {n = 2} (omega arith) {j = 31} (omega arith) in
    omega (arith, p.layers_lt, bound)

-- Adding a layer keeps the flattened form well formed.
pub push-IsPacked : (c d : CompoundType) (l : Layer) → IsPacked c → push c l ≡ some d → IsPacked d
unfolding push
push-IsPacked c d l p h = ground (arith, fits_shift c p, pow_succ c.len)

-- Popping undoes pushing: the outermost layer is the last pushed.
pub pop-push :
    (c d : CompoundType) (l : Layer) → IsPacked c → push c l ≡ some d → pop d ≡ (c, some l)
unfolding push pop
pop-push c d l p h = ground (arith, fits_shift c p)

-- All 32 bits of a well-formed form are below the word size.
layers-lt_word : (c : CompoundType) → IsPacked c → c.layers < 2 ^ 32
layers-lt_word c p =
    let bound : 2 ^ c.len ≤ 2 ^ 32 = pow-le-pow_right {n = 2} (omega arith) {j = 32} p.len_le in
    omega (arith, p.layers_lt, bound)

-- Pushing undoes popping.
pub push-pop :
    (c d : CompoundType) (l : Layer) → IsPacked c → pop c ≡ (d, some l) → push d l ≡ some c
unfolding push pop
push-pop c d l p h = ground (arith, layers-lt_word c p)

pub pop-IsPacked : (c : CompoundType) → IsPacked c → IsPacked (pop c).0
unfolding pop
pop-IsPacked c p = ground (arith, pow_succ (c.len - 1))

-- Without a layer left the form is that of a bare primitive.
pop-none : (c : CompoundType) → IsPacked c → (pop c).1 ≡ none → c ≡ new c.primitive
unfolding pop
pop-none c p h = ground (arith, pow-zero 2)

from_type-from_primitive : (p : PrimitiveType) → from_type (from_primitive p) ≡ some (new p)
unfolding from_type
from_type-from_primitive PrimitiveType.bool = refl
from_type-from_primitive _ = refl

pop-none_eq :
    (c d : CompoundType) → IsPacked c → pop c ≡ (d, none) → (d ≡ c) × (c ≡ new c.primitive)
unfolding pop
pop-none_eq c d p h = ground (arith, pop-none c p)

from_type-into_type_lem :
    (c d : CompoundType) (l : Option Layer)
    → IsPacked c
    → pop c ≡ (d, l)
    → from_type (wrap_layer d l) ≡ some c
unfolding from_type
from_type-into_type_lem c d (some Layer.array) p h = push-pop c d Layer.array p h
from_type-into_type_lem c d (some Layer.map) p h = push-pop c d Layer.map p h
from_type-into_type_lem c d none p h =
    let (e, bare) = pop-none_eq c d p h in
    from_type-from_primitive d.primitive ∙ ap some (rw e (sym bare))

-- The flattened form of the type that a flattened form stands for is that form again, and no
-- panic is met on the way.
pub from_type-into_type : (c : CompoundType) → IsPacked c → from_type (into_type c) ≡ some c
unfolding into_type
from_type-into_type c p = from_type-into_type_lem c (pop c).0 (pop c).1 p refl

new_lem : (p : PrimitiveType) → (into_type (new p) ≡ from_primitive p) × IsPacked (new p)
unfolding into_type
new_lem p = (refl, omega (arith, pow-zero 2))

-- A type whose parts are well formed and that has a flattened form is recovered from it, and the form is
-- well formed.
pub into_type-from_type :
    (t : ValueType) (c : CompoundType)
    → IsPackedType t
    → from_type t ≡ some c
    → (into_type c ≡ t) × IsPacked c
unfolding from_type into_type
into_type-from_type ValueType.bool c p h = ground (arith, new_lem PrimitiveType.bool)
into_type-from_type ValueType.bytes c p h = ground (arith, new_lem PrimitiveType.bytes)
into_type-from_type ValueType.int c p h = ground (arith, new_lem PrimitiveType.int)
into_type-from_type ValueType.ip c p h = ground (arith, new_lem PrimitiveType.ip)
into_type-from_type (ValueType.array d) c p h =
    (rw (pop-push d c Layer.array p h), push-IsPacked d c Layer.array p h)
into_type-from_type (ValueType.map d) c p h =
    (rw (pop-push d c Layer.map p h), push-IsPacked d c Layer.map p h)

-- How many layers stand above the primitive.
abbrev pub depth : ValueType → ℕ
depth (ValueType.array c) = c.len + 1
depth (ValueType.map c) = c.len + 1
depth _ = 0

-- Flattening panics exactly on a type of more than 32 layers.
pub from_type-panics : (t : ValueType) → (from_type t ≡ none) ↔ (32 < depth t)
unfolding from_type push
from_type-panics ValueType.bool = ground arith
from_type-panics _ = ground arith

-- The layers of a flattened form, outermost first.
abbrev pub unpack : ℕ → ℕ → List Layer
unpack zero bits = []
unpack (suc n) bits = (if bits % 2 == 0 then Layer.array else Layer.map) ∷ unpack n (bits / 2)

abbrev pub layers_of : CompoundType → List Layer
layers_of c = unpack c.len c.layers

unpack-shift :
    (n a : ℕ) (l : Layer)
    → a * 2 < 2 ^ 32
    → unpack (n + 1) (a * 2 % 2 ^ 32 + layer_bit l) ≡ l ∷ unpack n a
unpack-shift n a l h =
    let half : (a * 2 % 2 ^ 32 + layer_bit l) / 2 ≡ a = ground arith in
    rw (add-one, half) (ground arith)

-- Pushing a layer puts it in front of the layers of the flattened form.
pub layers_of-push :
    (c d : CompoundType) (l : Layer)
    → IsPacked c
    → push c l ≡ some d
    → layers_of d ≡ l ∷ layers_of c
unfolding push
layers_of-push c d l p h = ground (arith, fits_shift c p, unpack-shift c.len c.layers l)
