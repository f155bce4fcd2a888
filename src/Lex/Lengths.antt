-- ===== src/Lex/Lengths.antt =====
-- engine/src/lex.rs: how much of the input the primitives leave.
use wirefilter.Prelude.{
  ℕ, zero, suc, ◌+◌, ◌-◌, ◌≤◌, ◌<◌, ◌≡◌, refl, ap, Bool, true, Option, some, none, List, [], ◌∷◌,
  ◌⊎◌, inl, inr, arith, length, length-append, ltb, all, not, ◌==◌, Bool-cases,
}
use wirefilter.Lex.{
  Text, LexErrorKind, LexResult, ok, err, ◌>>=◌, strip_prefix, skip_while, expect, skip_space,
  is_space, lex_enum, take_while, take_loop, take,
}
use wirefilter.Lex.Run.{lift, Ends}
use wirefilter.Lex.Laws.{strip_prefix-some, skip_while-Skips}

-- What is left is shorter than the input.
abbrev pub Shorter : {A : Type 0} → Text → LexResult A → Type 0
Shorter input (ok (a, rest)) = length rest < length input
Shorter input (err k s) = Unit {0}

-- At most `n` characters are left.
abbrev pub Within : {A : Type 0} → ℕ → LexResult A → Type 0
Within n (ok (a, rest)) = length rest ≤ n
Within n (err k s) = Unit {0}

pub bind-Within :
    {A B : Type 0} (r : LexResult A) (f : A × Text → LexResult B) (m n : ℕ)
    → Within m r
    → ((a : A) (rest : Text) → length rest ≤ m → Within n (f (a, rest)))
    → Within n (r >>= f)
bind-Within (ok (a, rest)) f m n h k = k a rest h
bind-Within (err e s) f m n h k = tt

pub weaken-Within : {A : Type 0} (r : LexResult A) (m n : ℕ) → Within m r → m ≤ n → Within n r
weaken-Within (ok (a, rest)) m n h k = omega arith
weaken-Within (err e s) m n h k = tt

pub LexResult-cases :
    {A : Type 0} (r : LexResult A)
    → ((p : A × Text) × (r ≡ ok p)) ⊎ ((k : LexErrorKind) × (s : Text) × (r ≡ err k s))
LexResult-cases (ok p) = inl (p, refl)
LexResult-cases (err k s) = inr (k, s, refl)

pub Option-cases : {A : Type 0} (o : Option A) → ((a : A) × (o ≡ some a)) ⊎ (o ≡ none)
Option-cases (some a) = inl (a, refl)
Option-cases none = inr refl

pub length-skip_while : (f : ℕ → Bool) (input : Text) → length (skip_while f input) ≤ length input
length-skip_while f input =
    let s = skip_while-Skips f input in
    omega (arith, length-append {0} s.dropped (skip_while f input), ap length s.splits)

pub length-skip_space : (input : Text) → length (skip_space input) ≤ length input
length-skip_space input = unfold skip_space in length-skip_while is_space input

length-strip_prefix :
    (s input : Text) {rest : Text}
    → strip_prefix s input ≡ some rest
    → length s + length rest ≡ length input
length-strip_prefix s input {rest} e =
    omega (arith, length-append {0} s rest, ap length (strip_prefix-some s input e))

pub expect-Shorter : (input s : Text) → ltb 0 (length s) ≡ true → Shorter input (expect input s)
unfolding expect
expect-Shorter input s h = elim (Option-cases (strip_prefix s input)) [
  | inl (rest, e) ↦ rw e (let n = length-strip_prefix s input e in ground arith)
  | inr e ↦ rw e tt
]

pub lex_enum-Shorter :
    {A : Type 0} (name : Text) (spellings : List (Text × A)) (input : Text)
    → all (λ p. ltb 0 (length p.0)) spellings ≡ true
    → Shorter input (lex_enum name spellings input)
unfolding lex_enum
lex_enum-Shorter name [] input h = tt
lex_enum-Shorter name ((s, a) ∷ more) input h = elim (Option-cases (strip_prefix s input)) [
  | inl (rest, e) ↦ rw (e, lex_enum) (let n = length-strip_prefix s input e in ground arith)
  | inr e ↦ rw (e, lex_enum) (lex_enum-Shorter name more input (ground arith))
]

pub expect-Within : (input s : Text) (n : ℕ) → length input ≤ n → Within n (expect input s)
unfolding expect
expect-Within input s n h = elim (Option-cases (strip_prefix s input)) [
  | inl (rest, e) ↦ rw e (let k = length-strip_prefix s input e in omega arith)
  | inr e ↦ rw e tt
]

pub lex_enum-Within :
    {A : Type 0} (name : Text) (spellings : List (Text × A)) (input : Text) (n : ℕ)
    → length input ≤ n
    → Within n (lex_enum name spellings input)
unfolding lex_enum
lex_enum-Within name [] input n h = tt
lex_enum-Within name ((s, a) ∷ more) input n h = elim (Option-cases (strip_prefix s input)) [
  | inl (rest, e) ↦ rw (e, lex_enum) (let k = length-strip_prefix s input e in omega arith)
  | inr e ↦ rw (e, lex_enum) (lex_enum-Within name more input n h)
]

pub take_while-Within :
    (input name : Text) (f : ℕ → Bool) (n : ℕ)
    → length input ≤ suc n
    → Within n (take_while input name f)
unfolding take_while
take_while-Within input name f n h =
    elim (Bool-cases (not (length (skip_while f input) == length input))) [
      | inl e ↦ rw e (let k = length-skip_while f input in ground arith)
      | inr e ↦ rw e tt
    ]

take_loop-Within :
    (input : Text) (expected left i : ℕ) (chars : Text)
    → Within (length chars - left) (take_loop input expected left i chars)
unfolding take_loop
take_loop-Within input expected zero i chars = omega arith
take_loop-Within input expected (suc left) i [] = tt
take_loop-Within input expected (suc left) i (c ∷ cs) =
    weaken-Within (take_loop input expected left (i + 1) cs) _ _
      (take_loop-Within input expected left (i + 1) cs) (omega arith)

pub take-Within :
    (input : Text) (expected : ℕ) → Within (length input - expected) (take input expected)
unfolding take
take-Within input expected = take_loop-Within input expected expected 0 input

pub lift-Ends : {A : Type 0} (r : LexResult A) (n : ℕ) → Within n r → Ends n (lift r)
lift-Ends (ok (a, rest)) n h = h
lift-Ends (err k s) n h = tt
