-- ===== src/Compare/Parse/Items.antt =====
-- engine/src/ast/field_expr.rs and engine/src/rhs_types/mod.rs: how much of the input the lexers of
-- operators and of lists of literals leave.
use wirefilter.Prelude.{ℕ, zero, suc, ◌≤◌, ◌<◌, List, [], ◌∷◌, ◌++◌, inl, inr, arith, length}
use wirefilter.Lex.{
  Text, codes, LexResult, ok, err, expect, skip_space, lex_enum, strip_prefix, take_while,
  skip_while,
}
use wirefilter.Lex.Run.{Run, lexed, failed, panicked, out_of_fuel, lift, ◌>>=◌, Ends, bind-Ends}
use wirefilter.Lex.Lengths.{
  LexResult-cases, Within, expect-Within, lex_enum-Within, length-skip_space, lift-Ends,
}
use wirefilter.Rhs.Int.{lex_digits, lex_octal_or_decimal, lex_i64, lex_int_range}
use wirefilter.Rhs.Int.Lengths.{lex_int_range-Within}
use wirefilter.Rhs.Bytes.{lex_bytes}
use wirefilter.Rhs.Bytes.Lengths.{lex_bytes-Within}
use wirefilter.Rhs.External.{External}
use wirefilter.Rhs.Ip.{match_addr_or_cidr, lex_ip_range, lex_ip_range-Ends}
use wirefilter.Compare.{OrderingOp, ordering_op_spellings, lex_ordering_op}
use wirefilter.Compare.Parse.{
  BytesOp, bytes_op_spellings, int_op_spellings, or_bytes_op, or_int_op, or_ordering_op, or_in_set,
  lex_comparison_op, lex_items, lex_rhs_values,
}

pub lex_comparison_op-Within :
    (input : Text) (n : ℕ) → length input ≤ n → Within n (lex_comparison_op input)
unfolding lex_comparison_op lex_ordering_op
lex_comparison_op-Within input n h =
    by_in (expect input (codes "in")) (expect-Within input (codes "in") n h)
  where
    by_bytes : (r : LexResult BytesOp) → Within n r → Within n (or_bytes_op input r)
    by_bytes (ok (op, rest)) k = k
    by_bytes (err e s) k = tt

    by_int : (r : LexResult (Unit {0})) → Within n r → Within n (or_int_op input r)
    by_int (ok (op, rest)) k = k
    by_int (err e s) k =
        by_bytes (lex_enum (codes "BytesOp") bytes_op_spellings input)
          (lex_enum-Within (codes "BytesOp") bytes_op_spellings input n h)

    by_ordering : (r : LexResult OrderingOp) → Within n r → Within n (or_ordering_op input r)
    by_ordering (ok (op, rest)) k = k
    by_ordering (err e s) k =
        by_int (lex_enum (codes "IntOp") int_op_spellings input)
          (lex_enum-Within (codes "IntOp") int_op_spellings input n h)

    by_in : (r : LexResult (Unit {0})) → Within n r → Within n (or_in_set input r)
    by_in (ok (op, rest)) k = k
    by_in (err e s) k =
        by_ordering (lex_ordering_op input)
          (lex_enum-Within (codes "OrderingOp") ordering_op_spellings input n h)

-- A lexer that ends and takes a character at least.
abbrev pub Refused : {A : Type 0} → Run A → Type 0
Refused (lexed p) = ⊥
Refused (failed k s) = Unit {0}
Refused panicked = Unit {0}
Refused out_of_fuel = ⊥

abbrev pub Takes : {A : Type 0} → (Text → Run A) → Type 0
Takes lex = ((input : Text) (n : ℕ) → length input ≤ suc n → Ends n (lex input)) × Refused (lex [])

pub Refused-Ends :
    {A B : Type 0} (r : Run A) (f : A × Text → Run B) (n : ℕ) → Refused r → Ends n (r >>= f)
Refused-Ends (lexed p) f n h = elim h [ ]
Refused-Ends (failed k s) f n h = tt
Refused-Ends panicked f n h = tt
Refused-Ends out_of_fuel f n h = elim h [ ]

pub lex_items-Ends :
    {T : Type 0} (lex_item : Text → Run T)
    → Takes lex_item
    → (f : ℕ) (res : List T) (input : Text) (n : ℕ) → length input < f
    → length input ≤ n
    → Ends n (lex_items lex_item f res input)
unfolding lex_items
lex_items-Ends lex_item h zero res input n l k = absurd (omega arith)
lex_items-Ends {T = T} lex_item h (suc f) res input n l k =
    let s = length-skip_space input in
    let p = expect-Within (skip_space input) (codes "}") n (omega arith) in
    elim (LexResult-cases (expect (skip_space input) (codes "}"))) [
      | inl ((u, rest), e) ↦ rw (e, lex_items) (rw e at p)
      | inr (k', s', e) ↦
          rw (e, lex_items)
            (by_length (skip_space input) s λ item rest q.
              lex_items-Ends lex_item h f (res ++ item ∷ []) rest n (omega arith) (omega arith))
    ]
  where
    by_length :
        (t : Text)
        → length t ≤ length input
        → ((item : T) (rest : Text)
            → length rest < length t
            → Ends n (lex_items lex_item f (res ++ item ∷ []) rest))
        → Ends n (lex_item t >>= λ (item, rest). lex_items lex_item f (res ++ item ∷ []) rest)
    by_length [] s g = Refused-Ends (lex_item []) _ n h.1
    by_length (c ∷ cs) s g =
        bind-Ends (lex_item (c ∷ cs)) _ (length cs) n (h.0 (c ∷ cs) (length cs) (omega arith))
          λ item rest q. g item rest (omega arith)

pub lex_rhs_values-Ends :
    {T : Type 0} (lex_item : Text → Run T)
    → Takes lex_item
    → (input : Text) (n : ℕ) → length input ≤ n
    → Ends n (lex_rhs_values lex_item input)
unfolding lex_rhs_values
lex_rhs_values-Ends lex_item h input n k =
    bind-Ends (lift (expect input (codes "{"))) _ n n
      (lift-Ends (expect input (codes "{")) n (expect-Within input (codes "{") n k))
      λ u rest j. lex_items-Ends lex_item h (suc (length rest)) [] rest n (omega arith) j

pub ranges-Takes : Takes (λ s. lift (lex_int_range s))
unfolding lex_int_range lex_i64 expect strip_prefix lex_octal_or_decimal lex_digits take_while
    skip_while
ranges-Takes = (λ input n h. lift-Ends (lex_int_range input) n (lex_int_range-Within input n h), tt)

pub bytes-Takes : Takes (λ s. lift (lex_bytes s))
unfolding lex_bytes
bytes-Takes = (λ input n h. lift-Ends (lex_bytes input) n (lex_bytes-Within input n h), tt)

pub addresses-Takes : (E : External) → Takes (lex_ip_range E)
unfolding lex_ip_range match_addr_or_cidr take_while skip_while
addresses-Takes E = (λ input n h. lex_ip_range-Ends E input n h, tt)
