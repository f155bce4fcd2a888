-- ===== src/Rhs/Utf8.antt =====
-- `String::from_utf8` of the standard library, which engine/src/scheme.rs calls on map keys.
use wirefilter.Prelude.{
  ℕ, zero, suc, ◌+◌, ◌-◌, ◌*◌, true, false, ◌&&◌, Option, none, some, [], ◌∷◌, leb, ltb, ◌==◌,
  if◌then◌else◌,
}
use wirefilter.Lex.{Text}
use wirefilter.Rhs.Bytes.{Bytes}

-- What may follow: `left` more bytes of a character whose bits so far are `acc`, the next one between
-- `lo` and `hi`.
pub record Pending : Type 0 where
  pub left : ℕ
  pub lo : ℕ
  pub hi : ℕ
  pub acc : ℕ

abbrev pending : ℕ → ℕ → ℕ → ℕ → Option Pending
pending left lo hi acc = some (record { left = left; lo = lo; hi = hi; acc = acc })

-- The first byte of a character of two bytes or more, by the table of well-formed sequences.
unfoldable pub lead : ℕ → Option Pending
lead b =
    if leb 0xC2 b && leb b 0xDF
    then pending 1 0x80 0xBF (b - 0xC0)
    else if b == 0xE0
    then pending 2 0xA0 0xBF 0
    else if b == 0xED
    then pending 2 0x80 0x9F 0xD
    else if leb 0xE1 b && leb b 0xEF
    then pending 2 0x80 0xBF (b - 0xE0)
    else if b == 0xF0
    then pending 3 0x90 0xBF 0
    else if leb 0xF1 b && leb b 0xF3
    then pending 3 0x80 0xBF (b - 0xF0)
    else if b == 0xF4
    then pending 3 0x80 0x8F 4
    else none

abbrev pub with_char : ℕ → Option Text → Option Text
with_char c none = none
with_char c (some cs) = some (c ∷ cs)

-- The bytes from the start of a character, or from inside of one.
unfoldable mutual
  unfolding lead

  pub from_utf8 : Bytes → Option Text
  from_utf8 [] = some []
  from_utf8 (b ∷ bs) = elim (ltb b 0x80) [
    | true ↦ with_char b (from_utf8 bs)
    | false ↦ elim (lead b) [ none ↦ none | some p ↦ inside p.left p.lo p.hi p.acc bs ]
  ]

  pub inside : ℕ → ℕ → ℕ → ℕ → Bytes → Option Text
  inside left lo hi acc [] = none
  inside zero lo hi acc (b ∷ bs) = none
  inside (suc left) lo hi acc (b ∷ bs) = elim (leb lo b && leb b hi) [
    | false ↦ none
    | true ↦ elim (left == 0) [
      | true ↦ with_char (acc * 64 + (b - 0x80)) (from_utf8 bs)
      | false ↦ inside left 0x80 0xBF (acc * 64 + (b - 0x80)) bs
    ]
  ]
