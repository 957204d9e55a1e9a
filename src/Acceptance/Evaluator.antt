-- ===== src/Acceptance/Evaluator.antt =====
-- `AcceptanceEvaluator.evaluate` of src/foampilot/acceptance/evaluator.py: the loop over the conditions
-- and the verdict.
pub mod Spec
mod Fulfilment
mod Picks
mod Maximum
mod Scopes
mod Judgement
mod Selection
pub mod Verdicts
pub mod Totality
mod Examples
use Prim.Native.String.{◌++◌ as str_append}
use text.Mathlib.Text.{◌==◌}
use foam_pilot.Prelude.Dict.{Dict, get, put}
use foam_pilot.Prelude.Equality.{text_keys}
use foam_pilot.Prelude.{
  ℕ, String, Bool, true, false, not, ◌&&◌, ◌||◌, Option, none, some, List, [], ◌∷◌, ◌++◌, length,
  any, all, map, nat_beq, if◌then◌else◌, Result, ok, raise,
}
use foam_pilot.Acceptance.Conditions.{
  Floats, Value, Sample, SeriesStatus, MetricSeries, AcceptanceCondition, ConditionStatus, pass,
  fail, not_evaluated, ConditionResult, Verdict, verdict_pass, verdict_fail, incomplete,
  not_requested, AssertionError, is_available, select, is_supported, by_id, first_failed,
  last_sample, result_of, unavailable_result, scoped_samples, matches,
}
use foam_pilot.Acceptance.Observations.{ObservationResult, observations_of}

module _ {F : Type 0} (floats : Floats F) where
  -- the comprehension over the supported samples
  unfoldable pub evaluated :
      AcceptanceCondition F → List (Sample F) → Result AssertionError (List (Sample F × Bool))
  evaluated c [] = ok []
  evaluated c (s ∷ samples) =
      let rest = evaluated c samples in
      elim (matches floats c s.value) [
        | raise e ↦ raise e
        | ok passed ↦ elim rest [ raise e ↦ raise e | ok l ↦ ok ((s, passed) ∷ l) ]
      ]

  unfoldable pub conclude :
      AcceptanceCondition F
      → Sample F
      → Result AssertionError (List (Sample F × Bool))
      → Result AssertionError (ConditionResult F)
  unfolding first_failed result_of
  conclude c last (raise e) = raise e
  conclude c last (ok l) = elim (first_failed l) [
    | some s ↦ ok (result_of c fail "condition not satisfied" s)
    | none ↦ ok (result_of c pass "condition satisfied" last)
  ]

  -- the body of the loop over the conditions from the test of the units on
  unfoldable pub judge_supported :
      AcceptanceCondition F → List (Sample F) → Result AssertionError (ConditionResult F)
  unfolding last_sample result_of unavailable_result
  judge_supported c [] = ok (unavailable_result c)
  judge_supported c (s ∷ samples) =
      let last = last_sample s samples in
      if any (λ x. not (x.unit == c.unit)) (s ∷ samples)
      then ok (result_of c not_evaluated (str_append "unit mismatch: expected " c.unit) last)
      else conclude c last (evaluated c (s ∷ samples))

  unfoldable pub judge :
      AcceptanceCondition F → List (Sample F) → Result AssertionError (ConditionResult F)
  unfolding select is_supported unavailable_result
  judge c [] = ok (unavailable_result c)
  judge c (s ∷ samples) =
      let supported = select (is_supported c) (s ∷ samples) in
      if not (nat_beq (length supported) (length (s ∷ samples)))
      then ok (unavailable_result c)
      else judge_supported c supported

  unfoldable pub selected_of :
      Dict String (MetricSeries F) → AcceptanceCondition F → List (Sample F)
  unfolding scoped_samples is_available get
  selected_of d c = elim (get c.observation_id d) [
    | none ↦ []
    | some series ↦
        if is_available series.status then scoped_samples floats c.scope series.samples else []
  ]

  -- the loop over the conditions
  unfoldable pub each_condition :
      Dict String (MetricSeries F)
      → List (AcceptanceCondition F)
      → Result AssertionError (List (ConditionResult F))
  each_condition d [] = ok []
  each_condition d (c ∷ conditions) =
      let rest = each_condition d conditions in
      elim (judge c (selected_of d c)) [
        | raise e ↦ raise e
        | ok r ↦ elim rest [ raise e ↦ raise e | ok results ↦ ok (r ∷ results) ]
      ]

unfoldable pub is_fail : ConditionStatus → Bool
is_fail fail = true
is_fail _ = false

unfoldable pub is_not_evaluated : ConditionStatus → Bool
is_not_evaluated not_evaluated = true
is_not_evaluated _ = false

-- `dict.fromkeys` of a list
unfoldable pub from_keys : List String → List String
unfolding select
from_keys [] = []
from_keys (k ∷ keys) = k ∷ select (λ j. not (j == k)) (from_keys keys)

module _ {F : Type 0} where
  unfoldable pub verdict_of : List (ConditionResult F) → Verdict
  unfolding is_fail is_not_evaluated
  verdict_of [] = not_requested
  verdict_of (r ∷ results) =
      if any (λ x. is_fail x.status) (r ∷ results)
      then verdict_fail
      else if any (λ x. is_not_evaluated x.status) (r ∷ results)
      then incomplete
      else verdict_pass

  unfoldable pub missing_of : List (ConditionResult F) → List String
  unfolding from_keys select is_not_evaluated
  missing_of results = from_keys (
      map (λ (r : ConditionResult F). r.observation_id)
        (select (λ r. is_not_evaluated r.status) results))

-- `ResultReport`, without the digests
pub record ResultReport (F : Type 0) : Type 0 where
  pub verdict : Verdict
  pub conditions : List (ConditionResult F)
  pub observations : List (ObservationResult F)
  pub missing_evidence : List String

module _ {F : Type 0} (floats : Floats F) where
  unfoldable pub report_of :
      List (ObservationResult F)
      → Result AssertionError (List (ConditionResult F))
      → Result AssertionError (ResultReport F)
  unfolding verdict_of missing_of
  report_of observations (raise e) = raise e
  report_of observations (ok results) = ok (record {
    verdict = verdict_of results;
    conditions = results;
    observations = observations;
    missing_evidence = missing_of results;
  })

  -- `AcceptanceEvaluator.evaluate`: the ids of the requested observations and the conditions of a
  -- plan, and the series of the metrics
  unfoldable pub evaluate :
      List String
      → List (AcceptanceCondition F)
      → List (MetricSeries F)
      → Result AssertionError (ResultReport F)
  unfolding by_id observations_of
  evaluate requests conditions series =
      let d = by_id series [] in
      report_of (observations_of floats d requests) (each_condition floats d conditions)
