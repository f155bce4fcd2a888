-- ===== src/Lex/Laws.antt =====
-- engine/src/lex.rs: the lexer's primitives on inputs that are put together.
use wirefilter.Prelude.{
  ℕ, zero, suc, ◌+◌, ◌-◌, ◌≡◌, ◌≢◌, refl, sym, ap, ◌∙◌, subst, Bool, true, false, some, List, [],
  ◌∷◌, ◌++◌, arith, ◌==◌, length, take as first_n, all, length-append, inl, inr, Bool-cases,
}
use wirefilter.Lex.{
  Text, LexResult, ok, strip_prefix, skip_while, span, take_while, take_loop, take,
}

pub first_n-append : {A : Type 0} (xs ys : List A) → first_n (length xs) (xs ++ ys) ≡ xs
first_n-append [] ys = refl
first_n-append (x ∷ xs) ys = ap (◌∷◌ x) (first_n-append xs ys)

-- `span` cuts out what stands before the rest.
pub span-append : (xs ys : Text) → span (xs ++ ys) ys ≡ xs
unfolding span
span-append xs ys =
    let n : length (xs ++ ys) - length ys ≡ length xs = omega (arith, length-append {0} xs ys) in
    rw n (first_n-append xs ys)

pub strip_prefix-append : (s input : Text) → strip_prefix s (s ++ input) ≡ some input
unfolding strip_prefix
strip_prefix-append [] input = refl
strip_prefix-append (c ∷ s) input = ground (arith, strip_prefix-append s input)

pub strip_prefix-some :
    (s input : Text) {rest : Text} → strip_prefix s input ≡ some rest → input ≡ s ++ rest
unfolding strip_prefix
strip_prefix-some [] input h = ground arith
strip_prefix-some (c ∷ s) [] h = cc
strip_prefix-some (c ∷ s) (d ∷ input) {rest} h =
    ground (arith, strip_prefix-some s input {rest = rest})

-- What `skip_while` drops is accepted throughout, and it stops where it must.
pub record Skips (f : ℕ → Bool) (input rest : Text) : Type 0 where
  pub dropped : Text
  pub splits : input ≡ dropped ++ rest
  pub accepted : all f dropped ≡ true
  pub stops : (c : ℕ) (cs : Text) → rest ≡ c ∷ cs → f c ≡ false

pub skip_while-Skips : (f : ℕ → Bool) (input : Text) → Skips f input (skip_while f input)
unfolding skip_while
skip_while-Skips f [] = record {
  dropped = [];
  splits = refl;
  accepted = refl;
  stops = λ c cs e. cc;
}
skip_while-Skips f (c ∷ cs) = elim (Bool-cases (f c)) [
  | inl take_it ↦
      let rec = skip_while-Skips f cs in
      rw take_it (record {
        dropped = c ∷ rec.dropped;
        splits = ap (◌∷◌ c) rec.splits;
        accepted = ground (arith, rec.accepted);
        stops = rec.stops;
      })
  | inr stop ↦
      rw stop
        (record { dropped = []; splits = refl; accepted = refl; stops = λ d ds e. ground arith })
]

pub skip_while-append :
    (f : ℕ → Bool) (xs rest : Text)
    → all f xs ≡ true
    → skip_while f rest ≡ rest
    → skip_while f (xs ++ rest) ≡ rest
unfolding skip_while
skip_while-append f [] rest h k = k
skip_while-append f (x ∷ xs) rest h k = ground (arith, skip_while-append f xs rest)

length-ne-cons : (x : ℕ) (xs rest : Text) → (length rest == length (x ∷ xs ++ rest)) ≡ false
length-ne-cons x xs rest = ground (arith, length-append {0} xs rest)

-- `take_while` takes a run of accepted characters whole, up to the first that is refused.
pub take_while-append :
    (f : ℕ → Bool) (name xs rest : Text)
    → all f xs ≡ true
    → xs ≢ []
    → skip_while f rest ≡ rest
    → take_while (xs ++ rest) name f ≡ ok (xs, rest)
unfolding take_while
take_while-append f name [] rest h n k = absurd (n refl)
take_while-append f name (x ∷ xs) rest h n k =
    rw (skip_while-append f (x ∷ xs) rest h k, length-ne-cons x xs rest, span-append (x ∷ xs) rest)

-- The parts of an input that are taken and left.
pub record Takes (f : ℕ → Bool) (input taken rest : Text) : Type 0 where
  pub splits : input ≡ taken ++ rest
  pub accepted : all f taken ≡ true
  pub some_taken : taken ≢ []
  pub stops : (c : ℕ) (cs : Text) → rest ≡ c ∷ cs → f c ≡ false

take_while-dropped :
    (f : ℕ → Bool) (name dropped rest0 : Text) {taken rest : Text}
    → all f dropped ≡ true
    → ((c : ℕ) (cs : Text) → rest0 ≡ c ∷ cs → f c ≡ false)
    → skip_while f (dropped ++ rest0) ≡ rest0
    → take_while (dropped ++ rest0) name f ≡ ok (taken, rest)
    → Takes f (dropped ++ rest0) taken rest
unfolding take_while
take_while-dropped f name [] rest0 a s e h =
    let same : (length rest0 == length rest0) ≡ true = ground arith in cc (rw (e, same) at h)
take_while-dropped f name (x ∷ xs) rest0 {taken} {rest} a s e h =
    let h' : ◌≡◌ {A = LexResult Text} (ok (x ∷ xs, rest0)) (ok (taken, rest)) =
      rw (e, length-ne-cons x xs rest0, span-append (x ∷ xs) rest0) at h in
    let p : taken ≡ x ∷ xs = cc in
    let q : rest ≡ rest0 = cc in
    rw (p, q) (record { splits = refl; accepted = a; some_taken = λ z. cc; stops = s })

-- A `take_while` that succeeds splits the input into what it took and the rest: what it took is not
-- empty and all accepted, and the rest is empty or begins with a character that is refused.
pub take_while-Takes :
    (f : ℕ → Bool) (name input : Text) {taken rest : Text}
    → take_while input name f ≡ ok (taken, rest)
    → Takes f input taken rest
take_while-Takes f name input {taken} {rest} h =
    let s = skip_while-Skips f input in
    let e = s.splits in
    let h' : take_while (s.dropped ++ skip_while f input) name f ≡ ok (taken, rest) =
      subst (λ t. take_while t name f ≡ ok (taken, rest)) e h in
    subst (λ t. Takes f t taken rest) (sym e)
      (take_while-dropped f name s.dropped (skip_while f input) s.accepted s.stops
        (ap (skip_while f) (sym e)) h')

-- `take` reads exactly the number of characters asked for.
take_loop-append :
    (input : Text) (expected left i : ℕ) (xs rest : Text)
    → length xs ≡ left
    → take_loop input expected left i (xs ++ rest) ≡ ok (span input rest, rest)
unfolding take_loop
take_loop-append input expected zero i [] rest h = refl
take_loop-append input expected zero i (x ∷ xs) rest h = absurd (omega arith)
take_loop-append input expected (suc left) i [] rest h = absurd (omega arith)
take_loop-append input expected (suc left) i (x ∷ xs) rest h =
    take_loop-append input expected left (i + 1) xs rest (omega arith)

pub take-append : (n : ℕ) (xs rest : Text) → length xs ≡ n → take (xs ++ rest) n ≡ ok (xs, rest)
unfolding take
take-append n xs rest h = take_loop-append (xs ++ rest) n n 0 xs rest h ∙ rw (span-append xs rest)
