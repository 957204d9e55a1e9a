-- ===== src/Acceptance/Evaluator/Examples.antt =====
-- Two conditions over one series, for src/foampilot/acceptance/evaluator.py.
use foam_pilot.Prelude.{
  arith, ◌≡◌, String, ℕ, ◌-◌, true, none, some, List, [], ◌∷◌, ltb, leb, nat_beq, ok,
}
use foam_pilot.Acceptance.Conditions.{
  Floats, Sample, scalar, MetricSeries, available, AcceptanceCondition, less_equal, between, latest,
  all_times,
}
use foam_pilot.Acceptance.Evaluator.{evaluate, ResultReport}
use foam_pilot.Acceptance.Evaluator.Spec.{HasOrder}
use foam_pilot.Acceptance.Evaluator.Totality.{Meant, evaluate-Meant}

abbrev whole_numbers : Floats ℕ
whole_numbers = record {
  less = ltb;
  less_equal = leb;
  equal = nat_beq;
  subtract = λ a b. a - b;
  divide = λ a b. a;
  absolute = λ a. a;
  is_zero = λ a. nat_beq a 0;
  is_finite = λ a. true;
}

abbrev sample_at : ℕ → ℕ → Sample ℕ
sample_at t v = record { time = some t; value = scalar v; unit = "Pa"; evidence_refs = [] }

abbrev pressures : List (MetricSeries ℕ)
pressures =
    (record {
      observation_id = "pressure";
      status = available;
      samples = sample_at 1 40 ∷ sample_at 2 7 ∷ [];
    })
    ∷ []

abbrev at_most_ten : AcceptanceCondition ℕ
at_most_ten = record {
  condition_id = "settled";
  observation_id = "pressure";
  operator = less_equal;
  limit = some 10;
  lower = none;
  upper = none;
  reference = none;
  tolerance = none;
  unit = "Pa";
  scope = latest;
}

abbrev in_bounds : AcceptanceCondition ℕ
in_bounds = record {
  condition_id = "bounded";
  observation_id = "pressure";
  operator = between;
  limit = none;
  lower = some 1;
  upper = some 50;
  reference = none;
  tolerance = none;
  unit = "Pa";
  scope = all_times;
}

abbrev requested : List String
requested = "pressure" ∷ "residual" ∷ []

abbrev two_conditions : List (AcceptanceCondition ℕ)
two_conditions = at_most_ten ∷ in_bounds ∷ []

numbers-HasOrder : HasOrder whole_numbers
numbers-HasOrder = record {
  reflexive = λ a. ground arith;
  transitive = λ a b c h k. ground (arith, h, k);
  below = λ a b h. ground (arith, h);
  not_below = λ a b h. ground (arith, h);
  same = λ a b. ground arith;
}

evaluate-Meant_example :
    (report : ResultReport ℕ) × (evaluate whole_numbers requested two_conditions pressures
      ≡ ok report)
    × Meant whole_numbers two_conditions pressures report
evaluate-Meant_example =
    evaluate-Meant whole_numbers requested two_conditions pressures numbers-HasOrder
      ((λ z. cc), (((λ z. cc), (λ z. cc)), tt))
