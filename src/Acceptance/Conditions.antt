-- ===== src/Acceptance/Conditions.antt =====
-- The conditions of src/foampilot/acceptance/models.py and of the derived metrics, and the samples
-- and comparisons of evaluator.py. The floats are a type of numbers with the operations that the
-- code uses.
use foam_pilot.Prelude.Dict.{Dict, put}
use foam_pilot.Prelude.Equality.{text_keys}
use foam_pilot.Prelude.{
  String, Bool, true, false, not, ◌&&◌, ◌||◌, Option, none, some, List, [], ◌∷◌, all, if◌then◌else◌,
  Result, ok, raise,
}

-- Python's floats
pub record Floats (F : Type 0) : Type 0 where
  pub less : F → F → Bool
  pub less_equal : F → F → Bool
  pub equal : F → F → Bool
  pub subtract : F → F → F
  pub divide : F → F → F
  pub absolute : F → F
  pub is_zero : F → Bool
  pub is_finite : F → Bool

pub data Value (F : Type 0) : Type 0 where
  scalar : F → Value F
  vector : List F → Value F

pub record Sample (F : Type 0) : Type 0 where
  pub time : Option F
  pub value : Value F
  pub unit : String
  pub evidence_refs : List String

pub data SeriesStatus : Type 0 where
  available unavailable partial : SeriesStatus

pub record MetricSeries (F : Type 0) : Type 0 where
  pub observation_id : String
  pub status : SeriesStatus
  pub samples : List (Sample F)

-- `AcceptanceScope`, whose contract gives a range its bounds
pub data Scope (F : Type 0) : Type 0 where
  latest final all_times : Scope F
  range : F → F → Scope F

pub data Operator : Type 0 where
  exists finite less_equal greater_equal between relative_error absolute_balance : Operator

pub record AcceptanceCondition (F : Type 0) : Type 0 where
  pub condition_id : String
  pub observation_id : String
  pub operator : Operator
  pub limit : Option F
  pub lower : Option F
  pub upper : Option F
  pub reference : Option F
  pub tolerance : Option F
  pub unit : String
  pub scope : Scope F

pub data ConditionStatus : Type 0 where
  pass fail not_evaluated : ConditionStatus

pub record ConditionResult (F : Type 0) : Type 0 where
  pub condition_id : String
  pub observation_id : String
  pub status : ConditionStatus
  pub observed_value : Option F
  pub unit : Option String
  pub detail : String
  pub evidence_refs : List String

pub data Verdict : Type 0 where
  verdict_pass verdict_fail incomplete not_requested : Verdict

-- `assert` that fails
pub data AssertionError : Type 0 where
  assertion_failed : AssertionError

unfoldable pub is_available : SeriesStatus → Bool
is_available available = true
is_available _ = false

-- a comprehension with a condition
unfoldable pub select {ℓ} : {A : Type ℓ} → (A → Bool) → List A → List A
select p [] = []
select p (x ∷ xs) = let rest = select p xs in if p x then x ∷ rest else rest

-- `xs[-1:]`
unfoldable pub last_only {ℓ} : {A : Type ℓ} → List A → List A
last_only [] = []
last_only (x ∷ []) = x ∷ []
last_only (x ∷ y ∷ xs) = last_only (y ∷ xs)

unfoldable pub accepts_vectors : Operator → Bool
accepts_vectors exists = true
accepts_vectors finite = true
accepts_vectors _ = false

module _ {F : Type 0} where
  unfoldable pub is_scalar : Value F → Bool
  is_scalar (scalar x) = true
  is_scalar (vector xs) = false

  -- `float(sample.value)` of a scalar, else None
  unfoldable pub scalar_of : Value F → Option F
  scalar_of (scalar x) = some x
  scalar_of (vector xs) = none

  unfoldable pub has_time : Sample F → Bool
  has_time s = elim s.time [ none ↦ false | some t ↦ true ]

  -- `by_id`
  unfoldable pub by_id :
      List (MetricSeries F) → Dict String (MetricSeries F) → Dict String (MetricSeries F)
  unfolding put
  by_id [] d = d
  by_id (m ∷ series) d = by_id series (put m.observation_id m d)

  -- the first sample that failed
  unfoldable pub first_failed : List (Sample F × Bool) → Option (Sample F)
  first_failed [] = none
  first_failed ((s, passed) ∷ l) = if not passed then some s else first_failed l

  unfoldable pub last_sample : Sample F → List (Sample F) → Sample F
  last_sample s [] = s
  last_sample s (t ∷ l) = last_sample t l

  unfoldable pub result_of :
      AcceptanceCondition F → ConditionStatus → String → Sample F → ConditionResult F
  unfolding scalar_of
  result_of c status detail s = record {
    condition_id = c.condition_id;
    observation_id = c.observation_id;
    status = status;
    observed_value = scalar_of s.value;
    unit = some s.unit;
    detail = detail;
    evidence_refs = s.evidence_refs;
  }

  unfoldable pub unavailable_result : AcceptanceCondition F → ConditionResult F
  unavailable_result c = record {
    condition_id = c.condition_id;
    observation_id = c.observation_id;
    status = not_evaluated;
    observed_value = none;
    unit = none;
    detail = "required scalar metric is unavailable";
    evidence_refs = [];
  }

  -- whether the operator of the condition takes the value of the sample
  unfoldable pub is_supported : AcceptanceCondition F → Sample F → Bool
  unfolding accepts_vectors is_scalar
  is_supported c s = accepts_vectors c.operator || is_scalar s.value

module _ {F : Type 0} (floats : Floats F) where
  unfoldable pub max_time : F → List (Sample F) → F
  max_time t [] = t
  max_time t (s ∷ samples) = elim s.time [
    | none ↦ max_time t samples
    | some u ↦ if floats.less t u then max_time u samples else max_time t samples
  ]

  unfoldable pub time_is : F → Sample F → Bool
  time_is t s = elim s.time [ none ↦ false | some u ↦ floats.equal u t ]

  unfoldable pub in_range : F → F → Sample F → Bool
  in_range start end s = elim s.time [
    | none ↦ false
    | some t ↦ floats.less_equal start t && floats.less_equal t end
  ]

  unfoldable pub at_latest : List (Sample F) → List (Sample F) → List (Sample F)
  unfolding max_time time_is last_only select
  at_latest [] samples = last_only samples
  at_latest (s ∷ timed) samples = elim s.time [
    | none ↦ last_only samples
    | some t ↦ select (time_is (max_time t timed)) (s ∷ timed)
  ]

  -- `_scoped_samples`
  unfoldable pub scoped_samples : Scope F → List (Sample F) → List (Sample F)
  unfolding at_latest in_range select has_time
  scoped_samples (range start end) samples = select (in_range start end) samples
  scoped_samples latest samples = at_latest (select has_time samples) samples
  scoped_samples final samples = at_latest (select has_time samples) samples
  scoped_samples all_times samples = samples

  unfoldable pub asserted : {A : Type 0} → Option A → (A → Bool) → Result AssertionError Bool
  asserted none test = raise assertion_failed
  asserted (some a) test = ok (test a)

  unfoldable pub both : Option F → Option F → Option (F × F)
  both (some a) (some b) = some (a, b)
  both _ _ = none

  unfoldable pub relative : F → F → F
  relative value reference =
      let error = floats.absolute (floats.subtract value reference) in
      let denominator = floats.absolute reference in
      if floats.is_zero denominator then error else floats.divide error denominator

  -- `_matches` of a scalar, by the operator
  unfoldable pub compare_scalar : Operator → AcceptanceCondition F → F → Result AssertionError Bool
  unfolding asserted both relative
  compare_scalar exists c value = ok true
  compare_scalar finite c value = ok (floats.is_finite value)
  compare_scalar less_equal c value = asserted c.limit (λ limit. floats.less_equal value limit)
  compare_scalar greater_equal c value = asserted c.limit (λ limit. floats.less_equal limit value)
  compare_scalar between c value =
      asserted (both c.lower c.upper)
        (λ b. floats.less_equal b.0 value && floats.less_equal value b.1)
  compare_scalar relative_error c value =
      asserted (both c.reference c.tolerance) (λ b. floats.less_equal (relative value b.0) b.1)
  compare_scalar absolute_balance c value =
      asserted c.limit (λ limit. floats.less_equal (floats.absolute value) limit)

  unfoldable pub compare_vector : Operator → List F → Bool
  compare_vector exists values = true
  compare_vector finite values = all floats.is_finite values
  compare_vector _ values = false

  unfoldable pub matches : AcceptanceCondition F → Value F → Result AssertionError Bool
  unfolding compare_vector
  matches c (scalar value) = compare_scalar c.operator c value
  matches c (vector values) = ok (compare_vector c.operator values)
