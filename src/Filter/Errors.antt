-- ===== src/Filter/Errors.antt =====
-- engine/src/ast/parse.rs: the place of an error. Texts are their bytes in UTF-8, in which `str` counts,
-- and a part of the input is its offset and its length. Only offsets next to a line feed or given by
-- the span are used to slice, so that each is a boundary of characters where the span's are.
pub mod Lines
pub mod Located
use wirefilter.Prelude.{
  ℕ, suc, ◌+◌, ◌-◌, Bool, ◌&&◌, Option, none, some, [], ◌∷◌, length, take, drop, leb, ◌==◌,
  if◌then◌else◌,
}
use wirefilter.Prelude.Outcome.{Outcome, done, panic, ◌>>=◌}
use wirefilter.Lex.{LexErrorKind}
use wirefilter.Rhs.Bytes.{Bytes}

pub record ParseError : Type 0 where
  pub kind : LexErrorKind
  pub input : Bytes
  pub line_number : ℕ
  pub span_start : ℕ
  pub span_len : ℕ

-- The last of the line feeds, numbered from 1, with the position behind it; the default is 0 and 0.
unfoldable pub last_line : ℕ → ℕ × ℕ → Bytes → ℕ × ℕ
last_line pos (line_number, line_start) [] = (line_number, line_start)
last_line pos (line_number, line_start) (b ∷ bs) =
    last_line (suc pos) (if b == 10 then (suc line_number, suc pos) else (line_number, line_start))
      bs

-- `find('\n')`
unfoldable pub find_newline : Bytes → Option ℕ
find_newline [] = none
find_newline (b ∷ bs) =
    if b == 10 then some 0 else elim (find_newline bs) [ none ↦ none | some i ↦ some (suc i) ]

-- Subtraction and slicing panic where they leave their range.
abbrev pub checked_sub : ℕ → ℕ → Outcome ℕ
checked_sub m n = if leb n m then done (m - n) else panic

abbrev pub slice_from : ℕ → Bytes → Outcome Bytes
slice_from n bs = if leb n (length bs) then done (drop n bs) else panic

-- `std::cmp::min`
abbrev pub min : ℕ → ℕ → ℕ
min m n = if leb m n then m else n

-- The line up to its end, if there is one, and the length of the span in it.
abbrev pub cut_line : LexErrorKind → Bytes → ℕ → ℕ → ℕ → Option ℕ → Outcome ParseError
cut_line kind input line_number span_start span_len none = done (record {
  kind = kind;
  input = input;
  line_number = line_number;
  span_start = span_start;
  span_len = span_len;
})
cut_line kind input line_number span_start span_len (some line_end) =
    checked_sub line_end span_start >>= λ left. done (record {
      kind = kind;
      input = take line_end input;
      line_number = line_number;
      span_start = span_start;
      span_len = min span_len left;
    })

unfoldable pub new : Bytes → LexErrorKind → ℕ → ℕ → Outcome ParseError
unfolding last_line find_newline
new input kind start span_len =
    if leb start (length input) && leb (start + span_len) (length input)
    then (let (line_number, line_start) = last_line 0 (0, 0) (take start input) in
        slice_from line_start input >>= λ line. checked_sub start line_start >>= λ span_start.
        cut_line kind line line_number span_start span_len (find_newline line))
    else panic
