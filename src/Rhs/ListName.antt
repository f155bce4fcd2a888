-- ===== src/Rhs/ListName.antt =====
-- engine/src/rhs_types/list.rs: the names of lists.
use wirefilter.Prelude.{
  ℕ, ◌≤◌, Bool, false, ◌&&◌, ◌||◌, [], ◌∷◌, ◌++◌, ◌==◌, leb, length, arith, if◌then◌else◌, inl, inr,
  Bool-cases,
}
use wirefilter.Lex.{Text, codes, LexErrorKind, LexResult, ok, err, ◌>>=◌, expect}
use wirefilter.Lex.Lengths.{Within, bind-Within, expect-Within}

abbrev pub is_name_char : ℕ → Bool
is_name_char c = leb b'a' c && leb c b'z' || leb b'0' c && leb c b'9' || c == b'_' || c == b'.'

-- The loop, with what it has read; `input` is the text behind the dollar sign.
unfoldable pub name_loop : Text → Text → Text → LexResult Text
name_loop input [] [] = err (LexErrorKind.invalid_list_name []) input
name_loop input (r ∷ res) [] = ok (r ∷ res, [])
name_loop input res (c ∷ rest) =
    let onward = name_loop input (res ++ c ∷ []) rest in
    let stopped : LexResult Text = elim res [
      | [] ↦ err (LexErrorKind.invalid_list_name (c ∷ [])) input
      | r ∷ rs ↦ ok (r ∷ rs, c ∷ rest)
    ] in
    if is_name_char c then onward else stopped

abbrev pub starts_with_dot : Text → Bool
starts_with_dot [] = false
starts_with_dot (c ∷ cs) = c == b'.'

unfoldable pub ends_with_dot : Text → Bool
ends_with_dot [] = false
ends_with_dot (c ∷ []) = c == b'.'
ends_with_dot (c ∷ d ∷ cs) = ends_with_dot (d ∷ cs)

-- `<ListName as Lex>::lex`
unfoldable pub lex_list_name : Text → LexResult Text
unfolding expect name_loop ends_with_dot
lex_list_name input = do
  (_, input) ← expect input (codes "$")
  (res, rest) ← name_loop input [] input
  if starts_with_dot res || ends_with_dot res
      then err (LexErrorKind.invalid_list_name res) input
      else ok (res, rest)

name_loop-Within :
    (input res rest : Text) (n : ℕ) → length rest ≤ n → Within n (name_loop input res rest)
unfolding name_loop
name_loop-Within input [] [] n h = tt
name_loop-Within input (r ∷ res) [] n h = h
name_loop-Within input [] (c ∷ rest) n h = elim (Bool-cases (is_name_char c)) [
  | inl e ↦ rw (e, name_loop) (name_loop-Within input (c ∷ []) rest n (omega arith))
  | inr e ↦ rw (e, name_loop) tt
]
name_loop-Within input (r ∷ res) (c ∷ rest) n h = elim (Bool-cases (is_name_char c)) [
  | inl e ↦ rw (e, name_loop) (name_loop-Within input (r ∷ res ++ c ∷ []) rest n (omega arith))
  | inr e ↦ rw (e, name_loop) h
]

pub lex_list_name-Within :
    (input : Text) (n : ℕ) → length input ≤ n → Within n (lex_list_name input)
unfolding lex_list_name
lex_list_name-Within input n h =
    bind-Within (expect input (codes "$")) _ n n (expect-Within input (codes "$") n h) λ u input k.
      bind-Within (name_loop input [] input) _ n n (name_loop-Within input [] input n k)
        λ res rest k. elim (Bool-cases (starts_with_dot res || ends_with_dot res)) [
          | inl e ↦ rw e tt
          | inr e ↦ rw e k
        ]
