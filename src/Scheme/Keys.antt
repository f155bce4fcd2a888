-- ===== src/Scheme/Keys.antt =====
-- Equality of names and of types, which are the keys of the maps in engine/src/scheme.rs.
use wirefilter.Prelude.{◌≡◌, refl, ap, Bool, true, false, ◌&&◌, [], ◌∷◌, ◌==◌, arith}
use wirefilter.Prelude.Map.{Key}
use wirefilter.Types.{PrimitiveType, CompoundType, ValueType}
use wirefilter.Lex.{Text}

abbrev pub text_eq : Text → Text → Bool
text_eq [] [] = true
text_eq (c ∷ cs) (d ∷ ds) = c == d && text_eq cs ds
text_eq _ _ = false

abbrev pub primitive_eq : PrimitiveType → PrimitiveType → Bool
primitive_eq PrimitiveType.bool PrimitiveType.bool = true
primitive_eq PrimitiveType.bytes PrimitiveType.bytes = true
primitive_eq PrimitiveType.int PrimitiveType.int = true
primitive_eq PrimitiveType.ip PrimitiveType.ip = true
primitive_eq _ _ = false

abbrev pub compound_eq : CompoundType → CompoundType → Bool
compound_eq c d = c.layers == d.layers && (c.len == d.len && primitive_eq c.primitive d.primitive)

-- The derived `PartialEq` of `Type`.
abbrev pub type_eq : ValueType → ValueType → Bool
type_eq ValueType.bool ValueType.bool = true
type_eq ValueType.bytes ValueType.bytes = true
type_eq ValueType.int ValueType.int = true
type_eq ValueType.ip ValueType.ip = true
type_eq (ValueType.array c) (ValueType.array d) = compound_eq c d
type_eq (ValueType.map c) (ValueType.map d) = compound_eq c d
type_eq _ _ = false

pub text_eq_refl : (s : Text) → text_eq s s ≡ true
text_eq_refl [] = refl
text_eq_refl (c ∷ cs) = ground (arith, text_eq_refl cs)

pub text_eq_sound : (s t : Text) → text_eq s t ≡ true → s ≡ t
text_eq_sound [] [] e = refl
text_eq_sound (c ∷ cs) (d ∷ ds) e = ground (arith, text_eq_sound cs ds)
text_eq_sound [] (d ∷ ds) e = cc
text_eq_sound (c ∷ cs) [] e = cc

primitive_eq_refl : (p : PrimitiveType) → primitive_eq p p ≡ true
primitive_eq_refl p = ground arith

primitive_eq_sound : (p q : PrimitiveType) → primitive_eq p q ≡ true → p ≡ q
primitive_eq_sound p q e = ground arith

pub compound_eq_refl : (c : CompoundType) → compound_eq c c ≡ true
compound_eq_refl c = ground (arith, primitive_eq_refl c.primitive)

compound_eq_sound : (c d : CompoundType) → compound_eq c d ≡ true → c ≡ d
compound_eq_sound c d e = ground (arith, primitive_eq_sound c.primitive d.primitive)

pub type_eq_refl : (t : ValueType) → type_eq t t ≡ true
type_eq_refl (ValueType.array c) = compound_eq_refl c
type_eq_refl (ValueType.map c) = compound_eq_refl c
type_eq_refl ValueType.bool = refl
type_eq_refl ValueType.bytes = refl
type_eq_refl ValueType.int = refl
type_eq_refl ValueType.ip = refl

pub type_eq_sound : (t u : ValueType) → type_eq t u ≡ true → t ≡ u
type_eq_sound (ValueType.array c) (ValueType.array d) e =
    ap ValueType.array (compound_eq_sound c d e)
type_eq_sound (ValueType.map c) (ValueType.map d) e = ap ValueType.map (compound_eq_sound c d e)
type_eq_sound t u e = ground arith

instance abbrev pub text_key : Key Text
text_key = record { eq = text_eq; eq_refl = text_eq_refl; eq_sound = text_eq_sound }

instance abbrev pub type_key : Key ValueType
type_key = record { eq = type_eq; eq_refl = type_eq_refl; eq_sound = type_eq_sound }
