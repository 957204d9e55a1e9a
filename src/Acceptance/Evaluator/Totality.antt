-- ===== src/Acceptance/Evaluator/Totality.antt =====
-- No assertion of src/foampilot/acceptance/evaluator.py fails on conditions that have their numbers.
use text.Mathlib.Text.{◌==◌}
use foam_pilot.Prelude.Dict.{Dict}
use foam_pilot.Prelude.{
  ◌↔◌, All-↔, ◌≡◌, ◌≢◌, refl, Bool, not, Option, none, some, List, [], ◌∷◌, All, Result, ok, raise,
  Result-cases, if-rule, Option-cases, any, length, nat_beq, inl, inr, String, inl, inr, String,
}
use foam_pilot.Acceptance.Conditions.{
  verdict_pass, Floats, Value, scalar, vector, Sample, MetricSeries, Operator, exists, finite,
  less_equal, greater_equal, between, relative_error, absolute_balance, AcceptanceCondition,
  AssertionError, ConditionResult, compare_scalar, asserted, both, matches, first_failed, select,
  is_supported, unavailable_result,
}
use foam_pilot.Acceptance.Observations.{ObservationResult}
use foam_pilot.Acceptance.Evaluator.{
  evaluated, conclude, judge_supported, judge, selected_of, each_condition, report_of, evaluate,
  ResultReport, by_id,
}
use foam_pilot.Acceptance.Evaluator.Spec.{HasOrder, IsMet}
use foam_pilot.Acceptance.Evaluator.Judgement.{AreAccepted}
use foam_pilot.Acceptance.Evaluator.Selection.{selected-IsMet}
use foam_pilot.Acceptance.Evaluator.Verdicts.{Concluded, evaluated-Concluded}

module _ {F : Type 0} (floats : Floats F) where
  -- the condition has the numbers that its operator needs
  abbrev pub NeedsOf : Operator → AcceptanceCondition F → Type 0
  NeedsOf exists c = Unit
  NeedsOf finite c = Unit
  NeedsOf less_equal c = c.limit ≢ none
  NeedsOf greater_equal c = c.limit ≢ none
  NeedsOf between c = (c.lower ≢ none) × (c.upper ≢ none)
  NeedsOf relative_error c = (c.reference ≢ none) × (c.tolerance ≢ none)
  NeedsOf absolute_balance c = c.limit ≢ none

  abbrev pub IsComplete : AcceptanceCondition F → Type 0
  IsComplete c = NeedsOf c.operator c

  -- a call that does not raise
  abbrev pub Returns : {A : Type 0} → Result AssertionError A → Type 0
  Returns (ok a) = Unit
  Returns (raise e) = ⊥

  asserted-Returns :
      {A : Type 0} (o : Option A) (test : A → Bool) → o ≢ none → Returns (asserted floats o test)
  unfolding asserted
  asserted-Returns none test h = absurd (h refl)
  asserted-Returns (some a) test h = tt

  both-some : (a b : Option F) → a ≢ none → b ≢ none → both floats a b ≢ none
  unfolding both
  both-some none b h k = absurd (h refl)
  both-some (some a) none h k = absurd (k refl)
  both-some (some a) (some b) h k = λ z. cc

  compare_scalar-Returns :
      (o : Operator) (c : AcceptanceCondition F) (x : F)
      → NeedsOf o c
      → Returns (compare_scalar floats o c x)
  unfolding compare_scalar
  compare_scalar-Returns exists c x h = tt
  compare_scalar-Returns finite c x h = tt
  compare_scalar-Returns less_equal c x h = asserted-Returns c.limit _ h
  compare_scalar-Returns greater_equal c x h = asserted-Returns c.limit _ h
  compare_scalar-Returns between c x h =
      asserted-Returns (both floats c.lower c.upper) _ (both-some c.lower c.upper h.0 h.1)
  compare_scalar-Returns relative_error c x h =
      asserted-Returns (both floats c.reference c.tolerance) _
        (both-some c.reference c.tolerance h.0 h.1)
  compare_scalar-Returns absolute_balance c x h = asserted-Returns c.limit _ h

  matches-Returns :
      (c : AcceptanceCondition F) (v : Value F) → IsComplete c → Returns (matches floats c v)
  unfolding matches
  matches-Returns c (scalar x) h = compare_scalar-Returns c.operator c x h
  matches-Returns c (vector xs) h = tt

  -- a call that returns is no exception
  not_raised :
      {A : Type 0} (r : Result AssertionError A) (e : AssertionError) → Returns r → r ≡ raise e → ⊥
  not_raised (ok a) e h q = cc
  not_raised (raise x) e h q = h

  evaluated-Returns :
      (c : AcceptanceCondition F) (samples : List (Sample F))
      → IsComplete c
      → Returns (evaluated floats c samples)
  unfolding evaluated
  evaluated-Returns c [] h = tt
  evaluated-Returns c (s ∷ samples) h = elim (Result-cases (matches floats c s.value)) [
    | inr (x, e) ↦ absurd (not_raised (matches floats c s.value) x (matches-Returns c s.value h) e)
    | inl (b, e) ↦ elim (Result-cases (evaluated floats c samples)) [
      | inr (x, f) ↦
          absurd (not_raised (evaluated floats c samples) x (evaluated-Returns c samples h) f)
      | inl (l, f) ↦ rw (e, f, evaluated) tt
    ]
  ]

  conclude-Returns :
      (c : AcceptanceCondition F) (last : Sample F)
      (r : Result AssertionError (List (Sample F × Bool)))
      → Returns r
      → Returns (conclude floats c last r)
  unfolding conclude
  conclude-Returns c last (raise e) h = h
  conclude-Returns c last (ok l) h = elim (Option-cases (first_failed l)) [
    | inl n ↦ rw (n, conclude) tt
    | inr (s, n) ↦ rw (n, conclude) tt
  ]

  judge_supported-Returns :
      (c : AcceptanceCondition F) (samples : List (Sample F))
      → IsComplete c
      → Returns (judge_supported floats c samples)
  unfolding judge_supported
  judge_supported-Returns c [] h = tt
  judge_supported-Returns c (s ∷ samples) h =
      if-rule Returns (any (λ x. not (x.unit == c.unit)) (s ∷ samples)) _ _ (λ e. tt)
        (λ e. conclude-Returns c _ _ (evaluated-Returns c (s ∷ samples) h))

  judge-Returns :
      (c : AcceptanceCondition F) (samples : List (Sample F))
      → IsComplete c
      → Returns (judge floats c samples)
  unfolding judge
  judge-Returns c [] h = tt
  judge-Returns c (s ∷ samples) h =
      let kept : List (Sample F) = select (is_supported c) (s ∷ samples) in
      if-rule Returns (not (nat_beq (length kept) (length (s ∷ samples))))
        (ok (unavailable_result c)) (judge_supported floats c kept) (λ e. tt)
        (λ e. judge_supported-Returns c kept h)

  each_condition-Returns :
      (d : Dict String (MetricSeries F)) (conditions : List (AcceptanceCondition F))
      → All IsComplete conditions
      → Returns (each_condition floats d conditions)
  unfolding each_condition
  each_condition-Returns d [] h = tt
  each_condition-Returns d (c ∷ conditions) h =
      let samples = selected_of floats d c in
      elim (Result-cases (judge floats c samples)) [
        | inr (x, e) ↦
            absurd (not_raised (judge floats c samples) x (judge-Returns c samples h.0) e)
        | inl (b, e) ↦ elim (Result-cases (each_condition floats d conditions)) [
          | inr (x, f) ↦ absurd (
              not_raised (each_condition floats d conditions) x
                (each_condition-Returns d conditions h.1) f)
          | inl (l, f) ↦ rw (e, f, each_condition) tt
        ]
      ]

  report_of-Returns :
      (observations : List (ObservationResult F))
      (r : Result AssertionError (List (ConditionResult F)))
      → Returns r
      → Returns (report_of floats observations r)
  unfolding report_of
  report_of-Returns observations (ok l) h = tt
  report_of-Returns observations (raise e) h = h

  -- what a report says of conditions and metrics
  abbrev pub Meant : List (AcceptanceCondition F) → List (MetricSeries F) → ResultReport F → Type 0
  Meant conditions series report =
      (report.verdict ≡ verdict_pass) ↔ ((conditions ≢ []) × All (IsMet floats series) conditions)

  reported :
      (conditions : List (AcceptanceCondition F)) (series : List (MetricSeries F))
      (r : Result AssertionError (ResultReport F))
      → HasOrder floats
      → Returns r
      → Concluded floats conditions series r
      → (report : ResultReport F) × (r ≡ ok report) × Meant conditions series report
  reported conditions series (ok report) order h m =
      let (to, from) =
        All-↔ (λ c. AreAccepted floats c (selected_of floats (by_id series []) c))
          (IsMet floats series) (selected-IsMet floats order series) conditions in
      (report, refl, ((λ v. let k = m.0 v in (k.0, to k.1)), (λ k. m.1 (k.0, from k.1))))
  reported conditions series (raise e) order h m = absurd h

  -- On conditions that have the numbers of their operators, the evaluation gives a report, whatever
  -- the metrics are, if the floats are ordered by their comparisons. The report says that the results
  -- pass exactly if there are conditions, and for each of them the last series of its observation is
  -- available and has a sample in its scope, and every sample in its scope is in the unit of the
  -- condition and has a value that fulfils it: all samples, those whose time lies in a range, or those
  -- at the latest time and, if no sample has a time, the last one.
  pub evaluate-Meant :
      (requests : List String) (conditions : List (AcceptanceCondition F))
      (series : List (MetricSeries F))
      → HasOrder floats
      → All IsComplete conditions
      → (report : ResultReport F) × (evaluate floats requests conditions series ≡ ok report)
        × Meant conditions series report
  unfolding evaluate
  evaluate-Meant requests conditions series order h =
      reported conditions series (evaluate floats requests conditions series) order
        (report_of-Returns _ _ (each_condition-Returns (by_id series []) conditions h))
        (evaluated-Concluded floats requests conditions series)
