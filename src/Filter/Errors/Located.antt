-- ===== src/Filter/Errors/Located.antt =====
-- engine/src/ast/parse.rs: the line that an error shows.
use wirefilter.Prelude.{
  subst, zero, suc, Bool, ◌<◌, false, if◌then◌else◌, ℕ, ◌+◌, ◌-◌, ◌≤◌, ◌≡◌, refl, sym, ap, ◌∙◌,
  true, ◌&&◌, [], ◌∷◌, ◌++◌, length, length-append, append_assoc, append-nil, take, drop, all, leb,
  ◌⊎◌, inl, inr, arith, Bool-cases,
}
use wirefilter.Prelude.Outcome.{Outcome, panic, ◌>>=◌, done}
use wirefilter.Lex.{LexErrorKind}
use wirefilter.Lex.Lengths.{Option-cases}
use wirefilter.Rhs.Bytes.{Bytes}
use wirefilter.Filter.Errors.{
  slice_from, checked_sub, ParseError, last_line, find_newline, cut_line, new, min,
}
use wirefilter.Filter.Errors.Lines.{
  is_inside, newlines, StartsLine, last_line-LastLine, find_newline-some, find_newline-none,
  find_newline-append,
}

abbrev pub EndsLine : Bytes → Type 0
EndsLine later = (later ≡ []) ⊎ ((bs : Bytes) × (later ≡ 10 ∷ bs))

-- The line of an error that shows `len` bytes from `start` on.
pub record IsLocated (input : Bytes) (start len : ℕ) (e : ParseError) : Type 0 where
  pub earlier : Bytes
  pub later : Bytes
  pub splits : input ≡ earlier ++ (e.input ++ later)
  pub one_line : all is_inside e.input ≡ true
  pub starts : StartsLine earlier
  pub ends : EndsLine later
  pub number : e.line_number ≡ newlines earlier
  pub starts_at : length earlier + e.span_start ≡ start
  pub within : e.span_start + e.span_len ≤ length e.input
  pub shortened : (e.span_len ≡ len) ⊎ (e.span_start + e.span_len ≡ length e.input)

take-prefix : (before rest : Bytes) → take (length before) (before ++ rest) ≡ before
take-prefix [] rest = refl
take-prefix (b ∷ bs) rest = ap (λ xs. b ∷ xs) (take-prefix bs rest)

drop-prefix : (before rest : Bytes) → drop (length before) (before ++ rest) ≡ rest
drop-prefix [] rest = refl
drop-prefix (b ∷ bs) rest = drop-prefix bs rest

both_leb : (a b n : ℕ) → a ≤ n → b ≤ n → (leb a n && leb b n) ≡ true
both_leb a b n h k = ground arith

new-cut_line :
    (before rest earlier part : Bytes) (kind : LexErrorKind) (len : ℕ)
    → len ≤ length rest
    → before ≡ earlier ++ part
    → (last_line 0 (0, 0) before).1 ≡ length earlier
    → new (before ++ rest) kind (length before) len
      ≡ cut_line kind
          (part ++ rest)
          (last_line 0 (0, 0) before).0
          (length part)
          len
          (find_newline (part ++ rest))
unfolding new
new-cut_line before rest earlier part kind len h p s =
    let n = length-append {0} before rest in
    let m : length before ≡ length earlier + length part =
      ap length p ∙ length-append {0} earlier part in
    let e : before ++ rest ≡ earlier ++ (part ++ rest) =
      ap (λ xs. xs ++ rest) p ∙ append_assoc earlier part rest in
    let fits =
      both_leb (length before) (length before + len) (length (before ++ rest)) (omega arith)
        (omega arith) in
    let slices : leb (length earlier) (length (before ++ rest)) ≡ true = ground arith in
    let subtracts : leb (length earlier) (length before) ≡ true = ground arith in
    let left : length before - length earlier ≡ length part = omega arith in
    let dropped : drop (length earlier) (before ++ rest) ≡ part ++ rest =
      ap (drop (length earlier)) e ∙ drop-prefix earlier (part ++ rest) in
    rw (fits, take-prefix before rest, s, slices, dropped, subtracts, left) refl

min_le : (m n : ℕ) → (min m n ≤ m) × (min m n ≤ n) × ((min m n ≡ m) ⊎ (min m n ≡ n))
min_le m n = elim (Bool-cases (leb m n)) [
  | inl e ↦ rw e (omega arith, ground arith, inl refl)
  | inr e ↦ rw e (ground arith, omega arith, inr refl)
]

-- A span that lies within the input, as those of the lexers do, gives an error without a panic, whose
-- line is one whole line of the input, with the number of the line feeds before it; the span starts in it
-- at the place that it has in the input, and its length is cut at the end of the line.
pub new-IsLocated :
    (before rest : Bytes) (kind : LexErrorKind) (len : ℕ)
    → len ≤ length rest
    → (e : ParseError) × (new (before ++ rest) kind (length before) len ≡ done e)
      × (e.kind ≡ kind)
      × IsLocated (before ++ rest) (length before) len e
new-IsLocated before rest kind len h =
    let l = last_line-LastLine before in
    let n = length-append {0} l.part rest in
    let m : length before ≡ length l.earlier + length l.part =
      ap length l.splits ∙ length-append {0} l.earlier l.part in
    let e : before ++ rest ≡ l.earlier ++ (l.part ++ rest) =
      ap (λ xs. xs ++ rest) l.splits ∙ append_assoc l.earlier l.part rest in
    let cut = new-cut_line before rest l.earlier l.part kind len h l.splits l.start in
    elim (Option-cases (find_newline (l.part ++ rest))) [
      | inr f ↦ (
        record {
          kind = kind;
          input = l.part ++ rest;
          line_number = (last_line 0 (0, 0) before).0;
          span_start = length l.part;
          span_len = len;
        },
        rw (cut, f) refl,
        refl,
        record {
          earlier = l.earlier;
          later = [];
          splits = rw (append-nil (l.part ++ rest)) e;
          one_line = find_newline-none (l.part ++ rest) f;
          starts = l.starts;
          ends = inl refl;
          number = l.number;
          starts_at = omega arith;
          within = omega arith;
          shortened = inl refl;
        },
      )
      | inl (i, f) ↦
          let r = find_newline-some (l.part ++ rest) i f in
          let k = find_newline-append l.part rest i l.one_line f in
          let inside : leb (length l.part) i ≡ true = ground arith in
          let (short, fit, either) = min_le len (i - length l.part) in
          let line : take i (l.part ++ rest) ≡ r.line =
            rw (r.splits, sym r.here) (take-prefix r.line (10 ∷ r.more)) in
          (
            record {
              kind = kind;
              input = r.line;
              line_number = (last_line 0 (0, 0) before).0;
              span_start = length l.part;
              span_len = min len (i - length l.part);
            },
            rw (cut, f, inside, line) refl,
            refl,
            record {
              earlier = l.earlier;
              later = 10 ∷ r.more;
              splits = rw (e, r.splits) refl;
              one_line = r.one_line;
              starts = l.starts;
              ends = inr (r.more, refl);
              number = l.number;
              starts_at = omega arith;
              within = omega (arith, r.here);
              shortened = elim either [ inl a ↦ inl a | inr a ↦ inr (omega (arith, r.here)) ];
            },
          )
    ]

take-drop : (n : ℕ) (bs : Bytes) → take n bs ++ drop n bs ≡ bs
take-drop zero bs = refl
take-drop (suc n) [] = refl
take-drop (suc n) (b ∷ bs) = ap (λ xs. b ∷ xs) (take-drop n bs)

length-take : (n : ℕ) (bs : Bytes) → n ≤ length bs → length (take n bs) ≡ n
length-take zero bs h = refl
length-take (suc n) [] h = absurd (omega arith)
length-take (suc n) (b ∷ bs) h = ap suc (length-take n bs (omega arith))

-- Within the input a span gives an error of the kind that shows it, and outside it gives a panic.
pub new-cases :
    (input : Bytes) (kind : LexErrorKind) (start len : ℕ)
    → ((e : ParseError) × (new input kind start len ≡ done e)
        × (e.kind ≡ kind)
        × IsLocated input start len e)
      ⊎ ((length input < start + len) × (new input kind start len ≡ panic))
unfolding new
new-cases input kind start len = elim (Bool-cases (leb (start + len) (length input))) [
  | inl e ↦
      let s : start ≤ length input = ground arith in
      let p = take-drop start input in
      let n = length-take start input s in
      let m = length-append {0} (take start input) (drop start input) in
      let q = ap length p in
      let (e, made, same, located) =
        new-IsLocated (take start input) (drop start input) kind len (ground arith) in
      (inl (
        e,
        subst (λ i. new i kind start len ≡ done e) p
            (subst (λ k. new (take start input ++ drop start input) kind k len ≡ done e) n made),
        same,
        subst (λ i. IsLocated i start len e) p
            (subst (λ k. IsLocated (take start input ++ drop start input) k len e) n located),
      ))
  | inr e ↦
      inr (ground arith, by_assert (leb start (length input)) (leb (start + len) (length input)) e)
]
  where
    by_assert :
        (a b : Bool)
        → b ≡ false
        → ◌≡◌ {A = Outcome ParseError}
            (if a && b
              then (let (line_number, line_start) = last_line 0 (0, 0) (take start input) in
                  slice_from line_start input >>= λ line.
                  checked_sub start line_start >>= λ span_start.
                  cut_line kind line line_number span_start len (find_newline line))
              else panic)
            panic
    by_assert true b h = rw h refl
    by_assert false b h = refl
