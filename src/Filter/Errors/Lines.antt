-- ===== src/Filter/Errors/Lines.antt =====
-- engine/src/ast/parse.rs: the searches for line feeds.
use wirefilter.Prelude.{
  ℕ, suc, ◌+◌, ◌≤◌, ◌≡◌, refl, sym, ap, ◌∙◌, Bool, true, not, none, some, [], ◌∷◌, ◌++◌, length,
  length-append, append_assoc, all, ◌==◌, ◌⊎◌, inl, inr, arith, Bool-cases, if◌then◌else◌,
}
use wirefilter.Lex.Lengths.{Option-cases}
use wirefilter.Rhs.Bytes.{Bytes}
use wirefilter.Filter.Errors.{last_line, find_newline}

abbrev pub is_inside : ℕ → Bool
is_inside b = not (b == 10)

abbrev pub newlines : Bytes → ℕ
newlines [] = 0
newlines (b ∷ bs) = if b == 10 then suc (newlines bs) else newlines bs

abbrev pub StartsLine : Bytes → Type 0
StartsLine earlier = (earlier ≡ []) ⊎ ((bs : Bytes) × (earlier ≡ bs ++ 10 ∷ []))

-- Where the last line of a text begins.
pub record LastLine (bs : Bytes) (r : ℕ × ℕ) : Type 0 where
  pub earlier : Bytes
  pub part : Bytes
  pub splits : bs ≡ earlier ++ part
  pub one_line : all is_inside part ≡ true
  pub starts : StartsLine earlier
  pub number : r.0 ≡ newlines earlier
  pub start : r.1 ≡ length earlier

-- Behind some line feeds, or none.
record After (bs : Bytes) (pos : ℕ) (acc : ℕ × ℕ) (r : ℕ × ℕ) : Type 0 where
  seen : Bytes
  part : Bytes
  splits : bs ≡ seen ++ 10 ∷ part
  one_line : all is_inside part ≡ true
  number : r.0 ≡ suc (acc.0 + newlines seen)
  start : r.1 ≡ suc (pos + length seen)

last_line-After :
    (pos : ℕ) (acc : ℕ × ℕ) (bs : Bytes)
    → ((all is_inside bs ≡ true) × (last_line pos acc bs ≡ acc))
      ⊎ After bs pos acc (last_line pos acc bs)
unfolding last_line
last_line-After pos acc [] = inl (refl, refl)
last_line-After pos acc (b ∷ bs) = elim (Bool-cases (b == 10)) [
  | inl e ↦ elim (last_line-After (suc pos) (suc acc.0, suc pos) bs) [
    | inl (h, r) ↦ inr (record {
      seen = [];
      part = bs;
      splits = let p : b ≡ 10 = ground arith in rw p refl;
      one_line = h;
      number = rw (e, r) (omega arith);
      start = rw (e, r) (omega arith);
    })
    | inr a ↦ inr (record {
      seen = b ∷ a.seen;
      part = a.part;
      splits = ap (λ xs. b ∷ xs) a.splits;
      one_line = a.one_line;
      number = rw (e, a.number) (omega arith);
      start = rw (e, a.start) (omega arith);
    })
  ]
  | inr e ↦ elim (last_line-After (suc pos) acc bs) [
    | inl (h, r) ↦ inl (rw (e, h) refl, rw (e, r) refl)
    | inr a ↦ inr (record {
      seen = b ∷ a.seen;
      part = a.part;
      splits = ap (λ xs. b ∷ xs) a.splits;
      one_line = a.one_line;
      number = rw (e, a.number) refl;
      start = rw (e, a.start) (omega arith);
    })
  ]
]

pub last_line-LastLine : (bs : Bytes) → LastLine bs (last_line 0 (0, 0) bs)
last_line-LastLine bs = elim (last_line-After 0 (0, 0) bs) [
  | inl (h, r) ↦ rw r (record {
    earlier = [];
    part = bs;
    splits = refl;
    one_line = h;
    starts = inl refl;
    number = refl;
    start = refl;
  })
  | inr a ↦ record {
    earlier = a.seen ++ 10 ∷ [];
    part = a.part;
    splits = a.splits ∙ sym (append_assoc a.seen (10 ∷ []) a.part);
    one_line = a.one_line;
    starts = inr (a.seen, refl);
    number = omega (arith, a.number, newlines-append a.seen (10 ∷ []));
    start = omega (arith, a.start, length-append {0} a.seen (10 ∷ []));
  }
]
  where
    newlines-append : (xs ys : Bytes) → newlines (xs ++ ys) ≡ newlines xs + newlines ys
    newlines-append [] ys = omega arith
    newlines-append (x ∷ xs) ys = ground (arith, newlines-append xs ys)

-- The line feed that was found.
pub record Found (bs : Bytes) (i : ℕ) : Type 0 where
  pub line : Bytes
  pub more : Bytes
  pub splits : bs ≡ line ++ 10 ∷ more
  pub one_line : all is_inside line ≡ true
  pub here : length line ≡ i

pub find_newline-some : (bs : Bytes) (i : ℕ) → find_newline bs ≡ some i → Found bs i
unfolding find_newline
find_newline-some [] i e = cc
find_newline-some (b ∷ bs) i e = elim (Bool-cases (b == 10)) [
  | inl h ↦ record {
    line = [];
    more = bs;
    splits = let p : b ≡ 10 = ground arith in rw p refl;
    one_line = refl;
    here = let q = rw (h, find_newline) at e in cc;
  }
  | inr h ↦ elim (Option-cases (find_newline bs)) [
    | inr f ↦ let q = rw (h, f, find_newline) at e in cc
    | inl (j, f) ↦
        let q = rw (h, f, find_newline) at e in
        let r = find_newline-some bs j f in
        record {
          line = b ∷ r.line;
          more = r.more;
          splits = ap (λ xs. b ∷ xs) r.splits;
          one_line = rw (h, r.one_line) refl;
          here = let s : suc j ≡ i = cc in omega (arith, r.here, s);
        }
  ]
]

pub find_newline-none : (bs : Bytes) → find_newline bs ≡ none → all is_inside bs ≡ true
unfolding find_newline
find_newline-none [] e = refl
find_newline-none (b ∷ bs) e = elim (Bool-cases (b == 10)) [
  | inl h ↦ let q = rw (h, find_newline) at e in cc
  | inr h ↦ elim (Option-cases (find_newline bs)) [
    | inl (j, f) ↦ let q = rw (h, f, find_newline) at e in cc
    | inr f ↦ rw (h, find_newline-none bs f) refl
  ]
]

-- A line feed is not in what holds none.
pub find_newline-append :
    (part rest : Bytes) (i : ℕ)
    → all is_inside part ≡ true
    → find_newline (part ++ rest) ≡ some i
    → length part ≤ i
unfolding find_newline
find_newline-append [] rest i h e = omega arith
find_newline-append (b ∷ bs) rest i h e = elim (Bool-cases (b == 10)) [
  | inl p ↦ let q = rw p at h in cc
  | inr p ↦ elim (Option-cases (find_newline (bs ++ rest))) [
    | inr f ↦ let q = rw (p, f, find_newline) at e in cc
    | inl (j, f) ↦
        let q = rw (p, f, find_newline) at e in
        let k = find_newline-append bs rest j (rw p at h) f in
        let s : suc j ≡ i = cc in omega (arith, k, s)
  ]
]
