-- ===== src/Lex/Run.antt =====
-- engine/src/lex.rs: results of the lexers that call themselves, which run on fuel.
use wirefilter.Prelude.{ℕ, ◌≤◌, length}
use wirefilter.Prelude.Outcome.{Outcome, done, panic}
use wirefilter.Lex.{Text, LexErrorKind, LexResult, ok, err}

pub data Run (A : Type 0) : Type 0 where
  lexed : A × Text → Run A
  failed : LexErrorKind → Text → Run A
  panicked : Run A
  out_of_fuel : Run A

abbrev pub lift : {A : Type 0} → LexResult A → Run A
lift (ok p) = lexed p
lift (err k s) = failed k s

infixl 5 ◌>>=◌
abbrev pub ◌>>=◌ : {A B : Type 0} → Run A → (A × Text → Run B) → Run B
lexed p >>= f = f p
failed k s >>= f = failed k s
panicked >>= f = panicked
out_of_fuel >>= f = out_of_fuel

abbrev pub run_outcome : {A B : Type 0} → Outcome A → (A → Run B) → Run B
run_outcome (done a) f = f a
run_outcome panic f = panicked

-- A run that ends, with at most `n` characters left.
abbrev pub Ends : {A : Type 0} → ℕ → Run A → Type 0
Ends n (lexed (a, rest)) = length rest ≤ n
Ends n (failed k s) = Unit {0}
Ends n panicked = Unit {0}
Ends n out_of_fuel = ⊥

-- A run that does not panic, whose result meets `P`.
abbrev pub Safe : {A : Type 0} → (A → Text → Type 0) → Run A → Type 0
Safe P (lexed (a, rest)) = P a rest
Safe P (failed k s) = Unit {0}
Safe P panicked = ⊥
Safe P out_of_fuel = Unit {0}

-- A result, if there is one, that meets `P`.
abbrev pub Lexes : {A : Type 0} → (A → Text → Type 0) → Run A → Type 0
Lexes P (lexed (a, rest)) = P a rest
Lexes P (failed k s) = Unit {0}
Lexes P panicked = Unit {0}
Lexes P out_of_fuel = Unit {0}

pub bind-Ends :
    {A B : Type 0} (r : Run A) (f : A × Text → Run B) (n m : ℕ)
    → Ends n r
    → ((a : A) (rest : Text) → length rest ≤ n → Ends m (f (a, rest)))
    → Ends m (r >>= f)
bind-Ends (lexed (a, rest)) f n m h k = k a rest h
bind-Ends (failed e s) f n m h k = tt
bind-Ends panicked f n m h k = tt
bind-Ends out_of_fuel f n m h k = elim h [ ]

pub bind-Safe :
    {A B : Type 0} (P : A → Text → Type 0) (Q : B → Text → Type 0) (r : Run A)
    (f : A × Text → Run B)
    → Safe P r
    → ((a : A) (rest : Text) → P a rest → Safe Q (f (a, rest)))
    → Safe Q (r >>= f)
bind-Safe P Q (lexed (a, rest)) f h k = k a rest h
bind-Safe P Q (failed e s) f h k = tt
bind-Safe P Q panicked f h k = elim h [ ]
bind-Safe P Q out_of_fuel f h k = tt

pub lift-Safe :
    {A B : Type 0} (Q : B → Text → Type 0) (r : LexResult A) (f : A × Text → Run B)
    → ((a : A) (rest : Text) → Safe Q (f (a, rest)))
    → Safe Q (lift r >>= f)
lift-Safe Q (ok (a, rest)) f h = h a rest
lift-Safe Q (err k s) f h = tt

pub map-Safe :
    {A : Type 0} (P Q : A → Text → Type 0) (r : Run A)
    → Safe P r
    → ((a : A) (rest : Text) → P a rest → Q a rest)
    → Safe Q r
map-Safe P Q (lexed (a, rest)) h k = k a rest h
map-Safe P Q (failed e s) h k = tt
map-Safe P Q panicked h k = elim h [ ]
map-Safe P Q out_of_fuel h k = tt

pub bind-Lexes :
    {A B : Type 0} (P : A → Text → Type 0) (Q : B → Text → Type 0) (r : Run A)
    (f : A × Text → Run B)
    → Lexes P r
    → ((a : A) (rest : Text) → P a rest → Lexes Q (f (a, rest)))
    → Lexes Q (r >>= f)
bind-Lexes P Q (lexed (a, rest)) f h k = k a rest h
bind-Lexes P Q (failed e s) f h k = tt
bind-Lexes P Q panicked f h k = tt
bind-Lexes P Q out_of_fuel f h k = tt

pub lift-Lexes :
    {A B : Type 0} (Q : B → Text → Type 0) (r : LexResult A) (f : A × Text → Run B)
    → ((a : A) (rest : Text) → Lexes Q (f (a, rest)))
    → Lexes Q (lift r >>= f)
lift-Lexes Q (ok (a, rest)) f h = h a rest
lift-Lexes Q (err k s) f h = tt

pub run_outcome-Lexes :
    {A B : Type 0} (Q : B → Text → Type 0) (o : Outcome A) (f : A → Run B)
    → ((a : A) → Lexes Q (f a))
    → Lexes Q (run_outcome o f)
run_outcome-Lexes Q (done a) f h = h a
run_outcome-Lexes Q panic f h = tt

pub any_Lexes : {A : Type 0} (r : Run A) → Lexes (λ a rest. Unit {0}) r
any_Lexes (lexed p) = tt
any_Lexes (failed k s) = tt
any_Lexes panicked = tt
any_Lexes out_of_fuel = tt

pub map-Lexes :
    {A : Type 0} (P Q : A → Text → Type 0) (r : Run A)
    → Lexes P r
    → ((a : A) (rest : Text) → P a rest → Q a rest)
    → Lexes Q r
map-Lexes P Q (lexed (a, rest)) h k = k a rest h
map-Lexes P Q (failed e s) h k = tt
map-Lexes P Q panicked h k = tt
map-Lexes P Q out_of_fuel h k = tt

pub both-Safe :
    {A : Type 0} (P Q : A → Text → Type 0) (r : Run A)
    → Safe P r
    → Lexes Q r
    → Safe (λ a rest. P a rest × Q a rest) r
both-Safe P Q (lexed (a, rest)) h k = (h, k)
both-Safe P Q (failed e s) h k = tt
both-Safe P Q panicked h k = elim h [ ]
both-Safe P Q out_of_fuel h k = tt
