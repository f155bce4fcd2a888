-- ===== src/Rhs/Bytes/Raw.antt =====
-- engine/src/rhs_types/bytes.rs: the search for the end of a raw string.
use wirefilter.Prelude.{
  ℕ, zero, suc, ◌+◌, ◌*◌, ◌≤◌, ◌<◌, ◌≡◌, refl, ap, sym, ◌∙◌, Bool, true, false, not, ◌&&◌, ◌||◌,
  some, [], ◌∷◌, ◌++◌, append_assoc, arith, ltb, leb, ◌==◌, length, length-append, drop, replicate,
  get_elem?, Bool-cases, inl, inr,
}
use wirefilter.Lex.{Text, ok}
use wirefilter.Lex.Laws.{first_n-append}
use wirefilter.Rhs.Bytes.{count_hashes, raw_loop, lex_raw_string_as_str}

-- No quote in the text is followed by `n` hashes.
abbrev pub is_raw_body : ℕ → Text → Bool
is_raw_body n [] = true
is_raw_body n (c ∷ cs) = (not (c == b'"') || ltb (count_hashes cs) n) && is_raw_body n cs

count_hashes-append : (cs z : Text) → count_hashes (cs ++ b'"' ∷ z) ≡ count_hashes cs
unfolding count_hashes
count_hashes-append [] z = refl
count_hashes-append (c ∷ cs) z = ground (arith, count_hashes-append cs z)

count_hashes-le : (cs : Text) → count_hashes cs ≤ length cs
unfolding count_hashes
count_hashes-le [] = omega arith
count_hashes-le (c ∷ cs) = ground (arith, count_hashes-le cs)

drop-append : (k : ℕ) (xs ys : Text) → k ≤ length xs → drop k (xs ++ ys) ≡ drop k xs ++ ys
drop-append zero xs ys h = refl
drop-append (suc k) [] ys h = absurd (omega arith)
drop-append (suc k) (x ∷ xs) ys h = drop-append k xs ys (omega arith)

drop-whole : (k : ℕ) (xs ys : Text) → length xs ≡ k → drop k (xs ++ ys) ≡ ys
drop-whole zero [] ys h = refl
drop-whole zero (x ∷ xs) ys h = absurd (omega arith)
drop-whole (suc k) [] ys h = absurd (omega arith)
drop-whole (suc k) (x ∷ xs) ys h = drop-whole k xs ys (omega arith)

length-drop : (k : ℕ) (xs : Text) → k ≤ length xs → k + length (drop k xs) ≡ length xs
length-drop zero xs h = omega arith
length-drop (suc k) [] h = absurd (omega arith)
length-drop (suc k) (x ∷ xs) h = omega (arith, length-drop k xs (omega arith))

drop-is_raw_body :
    (k n : ℕ) (cs : Text) → is_raw_body n cs ≡ true → is_raw_body n (drop k cs) ≡ true
drop-is_raw_body zero n cs h = h
drop-is_raw_body (suc k) n [] h = refl
drop-is_raw_body (suc k) n (c ∷ cs) h = drop-is_raw_body k n cs (ground arith)

raw_loop-body :
    (fuel : ℕ) (full : Text) (n i : ℕ) (t z : Text)
    → is_raw_body n t ≡ true
    → n ≤ count_hashes z
    → length t < fuel
    → raw_loop fuel full n i (t ++ b'"' ∷ z) ≡ some (i + length t)
unfolding raw_loop
raw_loop-body zero full n i t z s h f = absurd (omega arith)
raw_loop-body (suc fuel) full n i [] z s h f =
    let enough : leb n (count_hashes z) ≡ true = ground arith in rw (enough) (ap some (omega arith))
raw_loop-body (suc fuel) full n i (c ∷ cs) z s h f = elim (Bool-cases (c == b'"')) [
  | inl q ↦
      let k = count_hashes cs in
      let few : leb n (count_hashes cs) ≡ false = ground (arith, q) in
      let le = count_hashes-le cs in
      rw (q, count_hashes-append cs z, few, drop-append (count_hashes cs) cs (b'"' ∷ z) le)
        (raw_loop-body fuel full n (i + 1 + count_hashes cs) (drop (count_hashes cs) cs) z
            (drop-is_raw_body (count_hashes cs) n cs (ground arith)) h
            (omega (arith, length-drop (count_hashes cs) cs le))
          ∙ ap some (omega (arith, length-drop (count_hashes cs) cs le)))
  | inr q ↦ rw q (
      raw_loop-body fuel full n (i + 1) cs z (ground arith) h (omega arith) ∙ ap some (omega arith))
]

abbrev pub hashes : ℕ → Text
hashes n = replicate n b'#'

count_hashes-hashes : (n : ℕ) (z : Text) → count_hashes (hashes n ++ b'"' ∷ z) ≡ n
unfolding count_hashes
count_hashes-hashes zero z = refl
count_hashes-hashes (suc n) z = ap suc (count_hashes-hashes n z)

count_hashes-at_least : (n : ℕ) (z : Text) → n ≤ count_hashes (hashes n ++ z)
unfolding count_hashes
count_hashes-at_least zero z = omega arith
count_hashes-at_least (suc n) z = omega (arith, count_hashes-at_least n z)

length-hashes : (n : ℕ) → length (hashes n) ≡ n
length-hashes zero = refl
length-hashes (suc n) = ap suc (length-hashes n)

quote_at : (n : ℕ) (z : Text) → get_elem? (hashes n ++ b'"' ∷ z) n ≡ some b'"'
quote_at zero z = refl
quote_at (suc n) z = quote_at n z

body_after : (n : ℕ) (z : Text) → drop (n + 1) (hashes n ++ b'"' ∷ z) ≡ z
body_after n z = let e : n + 1 ≡ suc n = omega arith in rw e (after n)
  where
    after : (m : ℕ) → drop (suc m) (hashes m ++ b'"' ∷ z) ≡ z
    after zero = refl
    after (suc m) = after m

rest_after :
    (n : ℕ) (t rest : Text)
    → drop (2 * (n + 1) + length t) (hashes n ++ b'"' ∷ (t ++ b'"' ∷ (hashes n ++ rest))) ≡ rest
rest_after n t rest =
    let whole = hashes n ++ b'"' ∷ (t ++ b'"' ∷ hashes n) in
    let joined : whole ++ rest ≡ hashes n ++ b'"' ∷ (t ++ b'"' ∷ (hashes n ++ rest)) =
      append_assoc (hashes n) (b'"' ∷ (t ++ b'"' ∷ hashes n)) rest
      ∙ ap (λ z. hashes n ++ b'"' ∷ z) (append_assoc t (b'"' ∷ hashes n) rest) in
    let size : length whole ≡ 2 * (n + 1) + length t = omega (
      arith,
      length-append {0} (hashes n) (b'"' ∷ (t ++ b'"' ∷ hashes n)),
      length-append {0} t (b'"' ∷ hashes n),
      length-hashes n,
    ) in
    ap (drop (2 * (n + 1) + length t)) (sym joined)
    ∙ drop-whole (2 * (n + 1) + length t) whole rest size

-- Between a quote with up to 255 hashes in front and a quote with as many hashes behind, a text in which
-- no quote is followed by that many hashes is read back as it is, whatever follows.
pub lex_raw_string_as_str-hashes :
    (n : ℕ) (t rest : Text)
    → n ≤ 255
    → is_raw_body n t ≡ true
    → lex_raw_string_as_str (hashes n ++ b'"' ∷ (t ++ b'"' ∷ (hashes n ++ rest)))
      ≡ ok ((t, n), rest)
unfolding lex_raw_string_as_str
lex_raw_string_as_str-hashes n t rest h s =
    let body = t ++ b'"' ∷ (hashes n ++ rest) in
    let few : ltb 255 n ≡ false = ground arith in
    let long : length t < suc (length body) =
      omega (arith, length-append {0} t (b'"' ∷ (hashes n ++ rest))) in
    let found =
      raw_loop-body (suc (length body)) (hashes n ++ b'"' ∷ body) n 0 t (hashes n ++ rest) s
        (count_hashes-at_least n rest) long in
    let zero_off : 0 + length t ≡ length t = omega arith in
    rw (count_hashes-hashes n body, few, quote_at n body, body_after n body, found, zero_off)
      (rw (body_after n body, rest_after n t rest, first_n-append t (b'"' ∷ (hashes n ++ rest))))
