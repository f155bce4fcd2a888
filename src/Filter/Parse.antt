-- ===== src/Filter/Parse.antt =====
-- engine/src/ast/mod.rs and engine/src/ast/parse.rs: what the parser of filters returns.
use wirefilter.Prelude.{
  ℕ, ◌≤◌, ◌<◌, ◌+◌, ◌≡◌, refl, Option, [], ◌∷◌, inl, inr, ltb, length, Bool-cases,
}
use wirefilter.Prelude.Outcome.{Outcome, done, panic}
use wirefilter.Types.{ValueType}
use wirefilter.Lex.{Text, LexErrorKind}
use wirefilter.Lex.Run.{Run, lexed, failed, Ends, Safe, bind-Ends, bind-Safe, map-Safe, run_outcome}
use wirefilter.Rhs.External.{External}
use wirefilter.Rhs.Bytes.{as_bytes}
use wirefilter.Filter.Errors.Located.{IsLocated, new-cases}
use wirefilter.Index.Compile.{map_each_count}
use wirefilter.Index.Parse.{IndexExpr}
use wirefilter.Index.Parse as Index
use wirefilter.Index.Parse.Typed as Typed
use wirefilter.Logical.{LogicalExpr}
use wirefilter.Logical.Parse as Logical
use wirefilter.Logical.Parse.Ends.{lex_with-Ends}
use wirefilter.Logical.Parse.Every.{Every, lex_with-Every}
use wirefilter.Compare.Parse.{ComparisonExpr, lex_with_lhs}
use wirefilter.Compare.Parse.Matches.{Answers, compared_type}
use wirefilter.Compare.Parse.Answers.{lex_with_lhs-Answers}
use wirefilter.Compare.Parse.Lengths.{lex_with_lhs-Ends}
use wirefilter.Filter.{
  bool_array, CompleteResult, whole, ParseResult, map_err, complete, trim, is_is_true,
  comparison_type, lex_comparison, check_root, lex_filter, parse,
}

module _ (E : External) {I : Type 0} (identifier_type : I → ValueType) where
  -- A comparison that has a type, and panics on the values that it meets only for want of a list matcher.
  abbrev pub IsSound : ComparisonExpr E I → Type 0
  IsSound c =
      (t : ValueType) × (u : ValueType) × (Index.get_type identifier_type c.lhs ≡ done t)
      × (comparison_type E identifier_type c ≡ done u)
      × Answers E (compared_type t) c.op

  -- A filter whose comparisons are all sound, which is a single boolean.
  abbrev pub IsFilter : LogicalExpr (ComparisonExpr E I) → Type 0
  IsFilter e =
      (Logical.get_type (comparison_type E identifier_type) e ≡ done ValueType.bool)
      × Every IsSound e

  -- A whole filter is sound, and there is no panic and enough fuel.
  abbrev IsComplete : CompleteResult (LogicalExpr (ComparisonExpr E I)) → Type 0
  IsComplete (whole e) = IsFilter e
  IsComplete (CompleteResult.error k s) = Unit {0}
  IsComplete CompleteResult.panicked = ⊥
  IsComplete CompleteResult.out_of_fuel = ⊥

  -- A sound filter, an error that shows the place of its span in the input, or a panic on a span that is
  -- not in the input.
  abbrev pub Accepts :
      (Text → ℕ × ℕ)
      → Text
      → CompleteResult (LogicalExpr (ComparisonExpr E I))
      → ParseResult (LogicalExpr (ComparisonExpr E I))
      → Type 0
  Accepts place input r (ParseResult.parsed e) = (r ≡ whole e) × IsFilter e
  Accepts place input r (ParseResult.error e) =
      (s : Text) × (r ≡ CompleteResult.error e.kind s)
      × IsLocated (as_bytes input) (place s).0 (place s).1 e
  Accepts place input r ParseResult.panicked =
      (k : LexErrorKind) × (s : Text) × (r ≡ CompleteResult.error k s)
      × (length (as_bytes input) < (place s).0 + (place s).1)
  Accepts place input r ParseResult.out_of_fuel = ⊥

  map_err-Accepts :
      (place : Text → ℕ × ℕ) (input : Text) (r : CompleteResult (LogicalExpr (ComparisonExpr E I)))
      → IsComplete r
      → Accepts place input r (map_err place input r)
  map_err-Accepts place input (whole e) h = (refl, h)
  map_err-Accepts place input (CompleteResult.error k s) h =
      elim (new-cases (as_bytes input) k (place s).0 (place s).1) [
        | inl (e, made, same, located) ↦ rw made (s, rw same refl, located)
        | inr (outside, panics) ↦ rw panics (k, s, refl, outside)
      ]
  map_err-Accepts place input CompleteResult.panicked h = elim h [ ]
  map_err-Accepts place input CompleteResult.out_of_fuel h = elim h [ ]

  complete-IsComplete :
      (n : ℕ) (r : Run (LogicalExpr (ComparisonExpr E I)))
      → Ends n r
      → Safe (λ e rest. IsFilter e) r
      → IsComplete (complete r)
  complete-IsComplete n (lexed (e, [])) h k = k
  complete-IsComplete n (lexed (e, c ∷ cs)) h k = tt
  complete-IsComplete n (failed e s) h k = tt
  complete-IsComplete n Run.panicked h k = elim k [ ]
  complete-IsComplete n Run.out_of_fuel h k = elim h [ ]

module _ (E : External) {I : Type 0} (identifier_type : I → ValueType)
    (lex_identifier : Text → Run I) (get_list : ValueType → Option ℕ) (star_limit : ℕ)
    (ends : (input : Text) → Ends (length input) (lex_identifier input))
    (calm : (input : Text) → Safe (λ i rest. Unit {0}) (lex_identifier input)) where
  comparison_type-done :
      (c : ComparisonExpr E I) (t : ValueType)
      → Index.get_type identifier_type c.lhs ≡ done t
      → (u : ValueType) × (comparison_type E identifier_type c ≡ done u)
  unfolding comparison_type
  comparison_type-done c t h = elim (Bool-cases (ltb 0 (map_each_count c.lhs.indexes))) [
    | inl m ↦ rw m (bool_array, refl)
    | inr m ↦ elim (Bool-cases (is_is_true E identifier_type c.op)) [
      | inl k ↦ rw (m, k) (t, h)
      | inr k ↦ rw (m, k) (ValueType.bool, refl)
    ]
  ]

  lex_comparison-IsSound :
      (input : Text)
      → Safe
          (λ c rest. IsSound E identifier_type c)
          (lex_comparison E identifier_type lex_identifier get_list star_limit input)
  unfolding lex_comparison
  lex_comparison-IsSound input =
      let (_, typed) = Typed.lex_with-get_type lex_identifier identifier_type ends calm input in
      bind-Safe _ (λ c rest. IsSound E identifier_type c)
        (Index.lex_with lex_identifier identifier_type input) _ typed
        λ lhs rest (t, is_t).
          map-Safe _ (λ c rest. IsSound E identifier_type c)
            (lex_with_lhs E get_list star_limit identifier_type lhs rest)
            (lex_with_lhs-Answers E get_list star_limit identifier_type lhs t rest is_t)
            λ c rest (same, answers).
              let is_t' : Index.get_type identifier_type c.lhs ≡ done t = rw same is_t in
              let (u, is_u) = comparison_type-done c t is_t' in (t, u, is_t', is_u, answers)

  lex_comparison-Ends :
      (input : Text)
      → Ends
          (length input)
          (lex_comparison E identifier_type lex_identifier get_list star_limit input)
  unfolding lex_comparison
  lex_comparison-Ends input =
      let (ended, _) = Typed.lex_with-get_type lex_identifier identifier_type ends calm input in
      bind-Ends (Index.lex_with lex_identifier identifier_type input) _ (length input)
        (length input) ended
        λ lhs rest k.
          lex_with_lhs-Ends E get_list star_limit identifier_type lhs rest (length input) k

  lex_filter-Ends :
      (input : Text)
      → Ends (length input) (lex_filter E identifier_type lex_identifier get_list star_limit input)
  unfolding lex_filter
  lex_filter-Ends input =
      bind-Ends
        (Logical.lex_with (lex_comparison E identifier_type lex_identifier get_list star_limit)
          (comparison_type E identifier_type) input)
        _ (length input) (length input)
        (lex_with-Ends (lex_comparison E identifier_type lex_identifier get_list star_limit)
          (comparison_type E identifier_type) lex_comparison-Ends input)
        λ e rest k. by_type e rest (Logical.get_type (comparison_type E identifier_type) e) k
    where
      by_root :
          (e : LogicalExpr (ComparisonExpr E I)) (rest : Text) (t : ValueType)
          → length rest ≤ length input
          → Ends
              (length input)
              (check_root E identifier_type lex_identifier get_list star_limit e rest t)
      by_root e rest ValueType.bool k = k
      by_root e rest t k = tt

      by_type :
          (e : LogicalExpr (ComparisonExpr E I)) (rest : Text) (o : Outcome ValueType)
          → length rest ≤ length input
          → Ends (length input) (
              run_outcome o
                (check_root E identifier_type lex_identifier get_list star_limit e rest))
      by_type e rest panic k = tt
      by_type e rest (done t) k = by_root e rest t k

  lex_filter-IsFilter :
      (input : Text)
      → Safe
          (λ e rest. IsFilter E identifier_type e)
          (lex_filter E identifier_type lex_identifier get_list star_limit input)
  unfolding lex_filter
  lex_filter-IsFilter input =
      bind-Safe _ (λ e rest. IsFilter E identifier_type e)
        (Logical.lex_with (lex_comparison E identifier_type lex_identifier get_list star_limit)
          (comparison_type E identifier_type) input)
        _
        (lex_with-Every (IsSound E identifier_type)
          (lex_comparison E identifier_type lex_identifier get_list star_limit)
          (comparison_type E identifier_type)
          (λ s.
            map-Safe _ _ (lex_comparison E identifier_type lex_identifier get_list star_limit s)
              (lex_comparison-IsSound s)
              λ c rest (t, u, is_t, is_u, a). ((u, is_u), (t, u, is_t, is_u, a)))
          input)
        λ e rest ((t, is_t), every). rw is_t (by_root e rest t is_t every)
    where
      by_root :
          (e : LogicalExpr (ComparisonExpr E I)) (rest : Text) (t : ValueType)
          → Logical.get_type (comparison_type E identifier_type) e ≡ done t
          → Every (IsSound E identifier_type) e
          → Safe
              (λ e rest. IsFilter E identifier_type e)
              (check_root E identifier_type lex_identifier get_list star_limit e rest t)
      by_root e rest ValueType.bool h every = (h, every)
      by_root e rest t h every = tt

-- Let the lexer of identifiers always end, leave no more than it was given and not panic, and let the
-- pointers of the spans be any. Then the parser of filters ends on every input. It panics only if
-- `ParseError::new` is given the span of an error that is not within the input; an error has its kind
-- and shows the line and the place of its span. A filter that it returns is of type `Bool`; each comparison in it has a type, and compares
-- every value of the type that it is to meet, where the only panic is for a list that has no matcher in
-- the context.
pub parse-Accepts :
    (E : External) {I : Type 0} (identifier_type : I → ValueType) (lex_identifier : Text → Run I)
    (get_list : ValueType → Option ℕ) (star_limit : ℕ)
    → ((input : Text) → Ends (length input) (lex_identifier input))
    → ((input : Text) → Safe (λ i rest. Unit {0}) (lex_identifier input))
    → (place : Text → ℕ × ℕ) (input : Text)
    → Accepts E identifier_type place input
        (complete (lex_filter E identifier_type lex_identifier get_list star_limit (trim input)))
        (parse E identifier_type lex_identifier get_list star_limit place input)
unfolding parse
parse-Accepts E identifier_type lex_identifier get_list star_limit ends calm place input =
    map_err-Accepts E identifier_type place input _ (
      complete-IsComplete E identifier_type (length (trim input))
        (lex_filter E identifier_type lex_identifier get_list star_limit (trim input))
        (lex_filter-Ends E identifier_type lex_identifier get_list star_limit ends calm
          (trim input))
        (lex_filter-IsFilter E identifier_type lex_identifier get_list star_limit ends calm
          (trim input)))
