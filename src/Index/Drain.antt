-- ===== src/Index/Drain.antt =====
-- engine/src/ast/index_expr.rs: the rounds of the iterator over `[*]` accesses, one after the other.
use wirefilter.Prelude.{
  ℕ, zero, suc, ◌+◌, ◌≤◌, ◌≡◌, ◌≢◌, refl, sym, ◌∙◌, some, List, [], ◌∷◌, ◌++◌, append_assoc,
  append-nil, arith, length, drop, ◌<◌,
}
use wirefilter.Lex.{FieldIndex}
use wirefilter.Value.{LhsValue}
use wirefilter.Index.{
  FieldIndexIterator, Round, yielded, continued, finished, round, drained, drain, reset,
}
use wirefilter.Index.Flatten.{
  flatten, flat_each, children, left, append_both-some, or_none-some, new-children, next-left-nil,
  next-left-cons, drop-nil, drop-cons, drop-lt, round-some, round-none,
}

-- Rounds that take one stack and output to another: however many are left, they come after more.
abbrev Leads :
    List FieldIndex
    → List FieldIndexIterator
    → List LhsValue
    → List FieldIndexIterator
    → List LhsValue
    → Type 0
Leads indexes stack acc stack' acc' =
    (more : ℕ → ℕ) × ((k : ℕ) → drain (more k) indexes stack acc ≡ drain k indexes stack' acc')

drain-continued :
    (k : ℕ) (indexes : List FieldIndex) (stack stack' : List FieldIndexIterator)
    (acc : List LhsValue)
    → round indexes stack ≡ continued stack'
    → drain (suc k) indexes stack acc ≡ drain k indexes stack' acc
unfolding drain
drain-continued k indexes stack stack' acc e = rw (e, drain)

drain-yielded :
    (k : ℕ) (indexes : List FieldIndex) (stack stack' : List FieldIndexIterator) (v : LhsValue)
    (acc : List LhsValue)
    → round indexes stack ≡ yielded v stack'
    → drain (suc k) indexes stack acc ≡ drain k indexes stack' (acc ++ v ∷ [])
unfolding drain
drain-yielded k indexes stack stack' v acc e = rw (e, drain)

drain-finished :
    (k : ℕ) (indexes : List FieldIndex) (acc : List LhsValue)
    → drain (suc k) indexes [] acc ≡ drained acc
unfolding drain round
drain-finished k indexes acc = refl

drain-each :
    (is indexes : List FieldIndex) (vs : List LhsValue) (it : FieldIndexIterator)
    (below : List FieldIndexIterator) (out acc : List LhsValue)
    → length below < length indexes
    → left it ≡ vs
    → drop (suc (length below)) indexes ≡ is
    → flat_each (flatten is) vs ≡ some out
    → Leads indexes (it ∷ below) acc below (acc ++ out)
drain-each is indexes [] it below out acc h l d e =
    let (after, none_left) = next-left-nil it l in
    let p : out ≡ [] = cc in
    (
      suc,
      λ k.
          rw (p, append-nil)
            (drain-continued k indexes (it ∷ below) below acc
              (round-none indexes it below after h none_left)),
    )
drain-each [] indexes (v ∷ vs) it below out acc h l d e =
    let (after, first, onward) = next-left-cons it v vs l in
    let (xs, ys, a, b, c) = append_both-some (flatten [] v) (flat_each (flatten []) vs) out e in
    let p : xs ≡ v ∷ [] = unfold flatten in cc in
    let r = round-some indexes it below v after h first in
    let (more, runs) = drain-each [] indexes vs after below ys (acc ++ v ∷ []) h onward d b in
    (
      λ k. suc (more k),
      λ k.
          drain-yielded (more k) indexes (it ∷ below) (after ∷ below) v acc
            (r ∙ rw (drop-nil (suc (length below)) indexes d))
          ∙ runs k
          ∙ rw (c, p, append_assoc),
    )
drain-each (i ∷ is) indexes (v ∷ vs) it below out acc h l d e =
    let (after, first, onward) = next-left-cons it v vs l in
    let (xs, ys, a, b, c) =
      append_both-some (flatten (i ∷ is) v) (flat_each (flatten (i ∷ is)) vs) out e in
    let (ws, reached, flat) =
      or_none-some (flat_each (flatten is)) (children v i) xs (unfold flatten in a) in
    let (at, deeper) = drop-cons (suc (length below)) indexes i is d in
    let (it', made, left') = new-children v i ws reached in
    let inner = drop-lt (suc (length below)) indexes i is d in
    let r = round-some indexes it below v after h first in
    let (more1, runs1) =
      drain-each is indexes ws it' (after ∷ below) xs acc inner left' deeper flat in
    let (more2, runs2) = drain-each (i ∷ is) indexes vs after below ys (acc ++ xs) h onward d b in
    (
      λ k. suc (more1 (more2 k)),
      λ k.
          drain-continued (more1 (more2 k)) indexes (it ∷ below) (it' ∷ after ∷ below) acc
            (r ∙ rw (at, made))
          ∙ runs1 (more2 k)
          ∙ runs2 k
          ∙ rw (c, append_assoc),
    )

drain-more :
    (n m : ℕ) (indexes : List FieldIndex) (stack : List FieldIndexIterator)
    (acc out : List LhsValue)
    → drain n indexes stack acc ≡ drained out
    → n ≤ m
    → drain m indexes stack acc ≡ drained out
unfolding drain
drain-more zero m indexes stack acc out e h = cc
drain-more (suc n) zero indexes stack acc out e h = absurd (omega arith)
drain-more (suc n) (suc m) indexes stack acc out e h =
    by_round (round indexes stack) refl (λ s a p. drain-more n m indexes s a out p (omega arith))
  where
    by_round :
        (r : Round)
        → round indexes stack ≡ r
        → ((s : List FieldIndexIterator) (a : List LhsValue)
            → drain n indexes s a ≡ drained out
            → drain m indexes s a ≡ drained out)
        → drain (suc m) indexes stack acc ≡ drained out
    by_round (yielded v s) p ih =
        drain-yielded m indexes stack s v acc p
        ∙ ih s (acc ++ v ∷ []) (sym (drain-yielded n indexes stack s v acc p) ∙ e)
    by_round (continued s) p ih =
        drain-continued m indexes stack s acc p
        ∙ ih s acc (sym (drain-continued n indexes stack s acc p) ∙ e)
    by_round finished p ih = rw (p, drain) (rw (p, drain) at e)
    by_round Round.panicked p ih = cc (rw (p, drain) at e)

-- If the indexes fit a value, then the iterator that is reset to it returns, after finitely many
-- rounds and with no panic, the values that they reach, in order: first those under the first
-- element of an outer `[*]`, then those under the second, and so on.
pub drain-flatten :
    (indexes : List FieldIndex) (v : LhsValue) (out : List LhsValue)
    → indexes ≢ []
    → flatten indexes v ≡ some out
    → (stack : List FieldIndexIterator) × (reset indexes v ≡ some stack)
      × (rounds : ℕ) × ((extra : ℕ) → drain (rounds + extra) indexes stack [] ≡ drained out)
unfolding reset
drain-flatten [] v out n e = absurd (n refl)
drain-flatten (i ∷ is) v out n e =
    let (ws, reached, flat) =
      or_none-some (flat_each (flatten is)) (children v i) out (unfold flatten in e) in
    let (it, made, left') = new-children v i ws reached in
    let (more, runs) = drain-each is (i ∷ is) ws it [] out [] (omega arith) left' refl flat in
    let last = runs 1 ∙ drain-finished 0 (i ∷ is) out in
    (
      it ∷ [],
      rw made,
      more 1,
      λ extra. drain-more (more 1) (more 1 + extra) (i ∷ is) (it ∷ []) [] out last (omega arith),
    )
