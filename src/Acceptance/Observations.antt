-- ===== src/Acceptance/Observations.antt =====
-- What a report of src/foampilot/acceptance/evaluator.py says of the observations that a plan requests.
use foam_pilot.Prelude.Dict.{Dict, get}
use foam_pilot.Prelude.Equality.{text_keys}
use foam_pilot.Prelude.{String, Option, none, some, List, [], ◌∷◌, map, if◌then◌else◌}
use foam_pilot.Acceptance.Conditions.{
  Floats, Value, Sample, SeriesStatus, unavailable, MetricSeries, select, has_time, last_sample,
}

pub record ObservationResult (F : Type 0) : Type 0 where
  pub observation_id : String
  pub status : SeriesStatus
  pub latest_value : Option (Value F)
  pub unit : Option String
  pub evidence_refs : List String

module _ {F : Type 0} where
  unfoldable pub last_or_none : List (Sample F) → Option (Sample F)
  unfolding last_sample
  last_or_none [] = none
  last_or_none (s ∷ samples) = some (last_sample s samples)

  -- the result for a series that is there
  unfoldable pub observed : String → SeriesStatus → Option (Sample F) → ObservationResult F
  observed name status (some s) = record {
    observation_id = name;
    status = status;
    latest_value = some s.value;
    unit = some s.unit;
    evidence_refs = s.evidence_refs;
  }
  observed name status none = record {
    observation_id = name;
    status = status;
    latest_value = none;
    unit = none;
    evidence_refs = [];
  }

module _ {F : Type 0} (floats : Floats F) where
  -- `max` by the time, which keeps the first of equals: the best sample so far and its time
  unfoldable pub max_by_time : Sample F → F → List (Sample F) → Sample F
  max_by_time best t [] = best
  max_by_time best t (s ∷ samples) = elim s.time [
    | none ↦ max_by_time best t samples
    | some u ↦ if floats.less t u then max_by_time s u samples else max_by_time best t samples
  ]

  unfoldable pub latest_of : List (Sample F) → List (Sample F) → Option (Sample F)
  unfolding max_by_time last_or_none
  latest_of [] samples = last_or_none samples
  latest_of (s ∷ timed) samples = elim s.time [
    | none ↦ last_or_none samples
    | some t ↦ some (max_by_time s t timed)
  ]

  -- `_latest_sample`
  unfoldable pub latest_sample : List (Sample F) → Option (Sample F)
  unfolding latest_of select has_time
  latest_sample samples = latest_of (select has_time samples) samples

  -- the body of the loop over the requests
  unfoldable pub observe : Dict String (MetricSeries F) → String → ObservationResult F
  unfolding observed latest_sample get
  observe d name = elim (get name d) [
    | none ↦ observed name unavailable none
    | some series ↦ observed name series.status (latest_sample series.samples)
  ]

  unfoldable pub observations_of :
      Dict String (MetricSeries F) → List String → List (ObservationResult F)
  unfolding observe
  observations_of d names = map (observe d) names
