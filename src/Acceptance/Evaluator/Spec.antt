-- ===== src/Acceptance/Evaluator/Spec.antt =====
-- What a condition of src/foampilot/acceptance/models.py asks of the metrics, without the code of
-- evaluator.py.
use text.Mathlib.Text.{◌==◌}
use foam_pilot.Prelude.{
  ◌≡◌, ◌↔◌, ◌⊎◌, String, true, false, Option, none, some, List, [], ◌∷◌, ◌++◌, All, Some,
  if◌then◌else◌,
}
use foam_pilot.Acceptance.Conditions.{
  Floats, Value, scalar, vector, Sample, available, MetricSeries, Scope, latest, final, all_times,
  range, Operator, exists, finite, less_equal, greater_equal, between, relative_error,
  absolute_balance, AcceptanceCondition,
}

module _ {F : Type 0} where
  -- the series of an observation, the last one of several
  abbrev pub series_of : String → List (MetricSeries F) → Option (MetricSeries F)
  series_of name [] = none
  series_of name (m ∷ series) = elim (series_of name series) [
    | some later ↦ some later
    | none ↦ if m.observation_id == name then some m else none
  ]

  abbrev pub Untimed : Sample F → Type 0
  Untimed s = s.time ≡ none

  abbrev pub IsLast : List (Sample F) → Sample F → Type 0
  IsLast samples s = (front : List (Sample F)) × (samples ≡ front ++ s ∷ [])

module _ {F : Type 0} (floats : Floats F) where
  abbrev pub AtMost : F → F → Type 0
  AtMost a b = floats.less_equal a b ≡ true

  -- the comparisons are those of an order: no float of the contracts is a NaN
  pub record HasOrder : Type 0 where
    pub reflexive : (a : F) → AtMost a a
    pub transitive : (a b c : F) → AtMost a b → AtMost b c → AtMost a c
    pub below : (a b : F) → floats.less a b ≡ true → AtMost a b
    pub not_below : (a b : F) → floats.less a b ≡ false → AtMost b a
    pub same : (a b : F) → (floats.equal a b ≡ true) ↔ (AtMost a b × AtMost b a)

  -- the sample has no time, or none after `t`
  abbrev pub NotAfter : F → Sample F → Type 0
  NotAfter t s = (u : F) → s.time ≡ some u → AtMost u t

  -- A sample at the latest time of all; without any time, the last sample.
  abbrev pub IsLatest : List (Sample F) → Sample F → Type 0
  IsLatest samples s =
      (All Untimed samples × IsLast samples s)
      ⊎ ((t : F) × (s.time ≡ some t) × All (NotAfter t) samples)

  abbrev pub InScope : Scope F → List (Sample F) → Sample F → Type 0
  InScope all_times samples s = Unit
  InScope (range start end) samples s = (t : F) × (s.time ≡ some t) × AtMost start t × AtMost t end
  InScope latest samples s = IsLatest samples s
  InScope final samples s = IsLatest samples s

  -- what an operator says of a value; only two of them speak of vectors
  abbrev pub Fulfils : Operator → AcceptanceCondition F → Value F → Type 0
  Fulfils exists c v = Unit
  Fulfils finite c (scalar x) = floats.is_finite x ≡ true
  Fulfils finite c (vector xs) = All (λ x. floats.is_finite x ≡ true) xs
  Fulfils less_equal c (scalar x) = (l : F) × (c.limit ≡ some l) × AtMost x l
  Fulfils less_equal c (vector xs) = ⊥
  Fulfils greater_equal c (scalar x) = (l : F) × (c.limit ≡ some l) × AtMost l x
  Fulfils greater_equal c (vector xs) = ⊥
  Fulfils between c (scalar x) =
      (l : F) × (u : F) × (c.lower ≡ some l) × (c.upper ≡ some u) × AtMost l x × AtMost x u
  Fulfils between c (vector xs) = ⊥
  Fulfils relative_error c (scalar x) =
      let error = λ (r : F). floats.absolute (floats.subtract x r) in
      (r : F) × (t : F) × (c.reference ≡ some r)
      × (c.tolerance ≡ some t)
      × (floats.is_zero (floats.absolute r) ≡ true → AtMost (error r) t)
      × (floats.is_zero (floats.absolute r) ≡ false
          → AtMost (floats.divide (error r) (floats.absolute r)) t)
  Fulfils relative_error c (vector xs) = ⊥
  Fulfils absolute_balance c (scalar x) =
      (l : F) × (c.limit ≡ some l) × AtMost (floats.absolute x) l
  Fulfils absolute_balance c (vector xs) = ⊥

  -- a sample in the unit of the condition that fulfils it
  abbrev pub Meets : AcceptanceCondition F → Sample F → Type 0
  Meets c s = (s.unit ≡ c.unit) × Fulfils c.operator c s.value

  -- The series is available and has a sample in the scope, and each of these meets the condition.
  abbrev pub IsMet : List (MetricSeries F) → AcceptanceCondition F → Type 0
  IsMet series c =
      (m : MetricSeries F) × (series_of c.observation_id series ≡ some m)
      × (m.status ≡ available)
      × Some (InScope c.scope m.samples) m.samples
      × All (λ s. InScope c.scope m.samples s → Meets c s) m.samples
