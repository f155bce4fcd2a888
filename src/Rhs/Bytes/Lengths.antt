-- ===== src/Rhs/Bytes/Lengths.antt =====
-- engine/src/rhs_types/bytes.rs: how much of the input the lexers of byte strings leave.
use wirefilter.Prelude.{
  ℕ, zero, suc, ◌+◌, ◌-◌, ◌*◌, ◌≤◌, Bool, true, false, ◌&&◌, ◌||◌, not, Option, none, some, [], ◌∷◌,
  ◌++◌, inl, inr, arith, leb, ltb, ◌==◌, length, drop, get_elem?, Bool-cases, if◌then◌else◌,
}
use wirefilter.Lex.{Text, codes, err, take, invalid_raw_string_hash_count, expected_name}
use wirefilter.Lex.Lengths.{Within, bind-Within, LexResult-cases, take-Within}
use wirefilter.Rhs.Int.{Parsed, parsed, failed}
use wirefilter.Rhs.Bytes.{
  Bytes, byte_or_error, u8_from_str_radix, fixed_byte, hex_byte, oct_byte, separator_of,
  lex_separator, lex_after_backslash, quoted_loop, lex_quoted_string_as_vec, lex_quoted_string,
  byte_loop, lex_byte_string, count_hashes, raw_loop, raw_result, is_quote, lex_raw_string_as_str,
  lex_raw_string, lex_quoted_or_raw_string, lex_bytes,
}

fixed_byte-Within :
    (input : Text) (count radix n : ℕ)
    → length input - count ≤ n
    → Within n (fixed_byte input count radix)
unfolding fixed_byte
fixed_byte-Within input count radix n h =
    bind-Within (take input count) _ (length input - count) n (take-Within input count)
      λ digits rest k. by_result digits rest (u8_from_str_radix digits radix) (omega arith)
  where
    by_result :
        (digits rest : Text) (p : Parsed ℕ)
        → length rest ≤ n
        → Within n (byte_or_error digits rest radix p)
    by_result digits rest (parsed b) k = k
    by_result digits rest (failed e) k = tt

lex_separator-Within : (input : Text) (n : ℕ) → length input ≤ n → Within n (lex_separator input)
unfolding lex_separator
lex_separator-Within input n h =
    bind-Within (take input 1) _ (length input - 1) n (take-Within input 1)
      λ sep rest k. by_text sep rest (omega arith)
  where
    by_text : (sep rest : Text) → length rest ≤ n → Within n (separator_of sep rest)
    by_text [] rest k = tt
    by_text (c ∷ d ∷ ds) rest k = tt
    by_text (c ∷ []) rest k = ground arith

lex_after_backslash-Within :
    (full_input input : Text) (n : ℕ)
    → length input ≤ n
    → Within n (lex_after_backslash full_input input)
unfolding lex_after_backslash hex_byte oct_byte
lex_after_backslash-Within full_input [] n h = tt
lex_after_backslash-Within full_input (c ∷ rest) n h = elim (Bool-cases (c == b'"' || c == b'\\')) [
  | inl e ↦ rw e (omega arith)
  | inr e ↦ elim (Bool-cases (c == b'x')) [
    | inl x ↦
        rw (e, x)
          (bind-Within (fixed_byte rest 2 16) _ n n (fixed_byte-Within rest 2 16 n (omega arith))
            λ b left k. k)
    | inr x ↦ elim (Bool-cases (leb b'0' c && leb c b'7')) [
      | inl o ↦
          rw (e, x, o)
            (bind-Within (fixed_byte (c ∷ rest) 3 8) _ n n
              (fixed_byte-Within (c ∷ rest) 3 8 n (omega arith)) λ b left k. k)
      | inr o ↦ rw (e, x, o) tt
    ]
  ]
]

quoted_loop-Within :
    (fuel : ℕ) (full_input : Text) (res : Bytes) (input : Text) (n : ℕ)
    → length input ≤ n
    → Within n (quoted_loop fuel full_input res input)
unfolding quoted_loop
quoted_loop-Within zero full_input res input n h = tt
quoted_loop-Within (suc fuel) full_input res [] n h = tt
quoted_loop-Within (suc fuel) full_input res (c ∷ input) n h = elim (Bool-cases (c == b'\\')) [
  | inl e ↦
      rw (e, quoted_loop)
        (bind-Within (lex_after_backslash full_input input) _ n n
          (lex_after_backslash-Within full_input input n (omega arith))
          λ bytes rest k. quoted_loop-Within fuel full_input (res ++ bytes) rest n k)
  | inr e ↦ elim (Bool-cases (c == b'"')) [
    | inl q ↦ rw (e, q, quoted_loop) (omega arith)
    | inr q ↦ rw (e, q, quoted_loop) (quoted_loop-Within fuel full_input _ input n (omega arith))
  ]
]

lex_quoted_string-Within :
    (input : Text) (n : ℕ) → length input ≤ n → Within n (lex_quoted_string input)
unfolding lex_quoted_string lex_quoted_string_as_vec
lex_quoted_string-Within input n h =
    bind-Within (quoted_loop (suc (length input)) input [] input) _ n n
      (quoted_loop-Within (suc (length input)) input [] input n h) λ vec rest k. k

byte_loop-Within :
    (fuel : ℕ) (res : Bytes) (input : Text) (n : ℕ)
    → length input ≤ n
    → Within n (byte_loop fuel res input)
unfolding byte_loop hex_byte
byte_loop-Within zero res input n h = tt
byte_loop-Within (suc fuel) res input n h =
    bind-Within (fixed_byte input 2 16) _ n n (fixed_byte-Within input 2 16 n (omega arith))
      λ b rest k.
        let s = lex_separator-Within rest n k in
        elim (LexResult-cases (lex_separator rest)) [
          | inl ((sep, left), e) ↦ rw e (byte_loop-Within fuel (res ++ b ∷ []) left n (rw e at s))
          | inr (e', t, e) ↦ rw e k
        ]

lex_byte_string-Within :
    (input : Text) (n : ℕ) → length input ≤ suc n → Within n (lex_byte_string input)
unfolding lex_byte_string hex_byte
lex_byte_string-Within input n h =
    bind-Within (fixed_byte input 2 16) _ n n (fixed_byte-Within input 2 16 n (omega arith))
      λ b rest k.
        bind-Within (lex_separator rest) _ n n (lex_separator-Within rest n k) λ sep rest k.
          bind-Within (byte_loop (suc (length rest)) (b ∷ []) rest) _ n n
            (byte_loop-Within (suc (length rest)) (b ∷ []) rest n k) λ res left k. k

length-drop : (k : ℕ) (xs : Text) → length (drop k xs) ≤ length xs
length-drop zero xs = omega arith
length-drop (suc k) [] = omega arith
length-drop (suc k) (x ∷ xs) = let h = length-drop k xs in omega arith

pub lex_raw_string_as_str-Within :
    (input : Text) (n : ℕ) → length input ≤ n → Within n (lex_raw_string_as_str input)
unfolding lex_raw_string_as_str
lex_raw_string_as_str-Within input n h =
    by_hashes (ltb 255 (count_hashes input)) (not (is_quote (get_elem? input (count_hashes input))))
      (raw_loop (suc (length (drop (count_hashes input + 1) input))) input (count_hashes input) 0
        (drop (count_hashes input + 1) input))
  where
    by_hashes :
        (big quote : Bool) (o : Option ℕ)
        → Within n (
            if big
            then err invalid_raw_string_hash_count input
            else if quote
            then err (expected_name (codes "\" or #")) (drop (count_hashes input) input)
            else raw_result input (count_hashes input) o)
    by_hashes true quote o = tt
    by_hashes false true o = tt
    by_hashes false false none = tt
    by_hashes false false (some i) =
        let k = length-drop (2 * (count_hashes input + 1) + i) input in omega arith

pub lex_quoted_or_raw_string-Within :
    (input : Text) (n : ℕ) → length input ≤ suc n → Within n (lex_quoted_or_raw_string input)
unfolding lex_quoted_or_raw_string lex_raw_string
lex_quoted_or_raw_string-Within [] n h = tt
lex_quoted_or_raw_string-Within (c ∷ input) n h = elim (Bool-cases (c == b'"')) [
  | inl q ↦ rw q (lex_quoted_string-Within input n (omega arith))
  | inr q ↦ elim (Bool-cases (c == b'r')) [
    | inl r ↦
        rw (q, r)
          (bind-Within (lex_raw_string_as_str input) _ n n
            (lex_raw_string_as_str-Within input n (omega arith)) λ lexed rest k. k)
    | inr r ↦ rw (q, r) tt
  ]
]

pub lex_bytes-Within : (input : Text) (n : ℕ) → length input ≤ suc n → Within n (lex_bytes input)
unfolding lex_bytes
lex_bytes-Within [] n h = tt
lex_bytes-Within (c ∷ input) n h = elim (Bool-cases (c == b'"' || c == b'r')) [
  | inr e ↦ rw e (lex_byte_string-Within (c ∷ input) n h)
  | inl e ↦ rw e (lex_quoted_or_raw_string-Within (c ∷ input) n h)
]
