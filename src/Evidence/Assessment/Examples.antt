-- ===== src/Evidence/Assessment/Examples.antt =====
-- A run of two steps for src/foampilot/evidence/assessment.py, and the theorems about its assessment.
use foam_pilot.Prelude.{
  ◌≡◌, ◌≢◌, ◌↔◌, ◌⊎◌, refl, String, pos, Bool, true, false, Option, some, none, [], ◌∷◌, All,
}
use foam_pilot.Evidence.Assessment.{
  CommandEvidence, RunFacts, assess_native_run, assess_failed, first_failed, has_failed, is_zero,
}
use foam_pilot.Evidence.Assessment.Truth.{
  HasSucceeded, CaseChecked, SolverEnded, IsFirstFailed, IsTruthful, assess_native_run-exactly,
  assess_native_run-blames,
}

abbrev meshing : CommandEvidence
meshing = record {
  step_id = "mesh";
  stage = "mesh";
  return_code = some (pos 0);
  timed_out = false;
  cancelled = false;
}

abbrev solving : CommandEvidence
solving = record meshing { step_id = "solve"; stage = "solve"; timed_out = true }

abbrev facts : RunFacts
facts = record {
  raw_steps = meshing ∷ solving ∷ [];
  mesh_checks = [];
  solver_progress = record { step_id = "solve"; completed_normally = some true } ∷ [];
  courant = [];
  native_errors = [];
}

facts-blamed : (assess_native_run facts none).failed_step_id ≡ some "solve"
unfolding assess_native_run assess_failed first_failed has_failed is_zero
facts-blamed = refl

assess_native_run-exactly_example : ((assess_native_run facts none).is_ok ≡ true) ↔ (
    All HasSucceeded facts.raw_steps
    × (◌≢◌ {A = Option Bool} none (some false))
    × (CaseChecked facts ⊎ SolverEnded facts))
assess_native_run-exactly_example = assess_native_run-exactly facts none

assess_native_run-blames_example :
    IsTruthful (assess_native_run facts none)
    × ((id : String)
        → (assess_native_run facts none).failed_step_id ≡ some id
        → (step : CommandEvidence) × IsFirstFailed facts.raw_steps step × (step.step_id ≡ id))
assess_native_run-blames_example = assess_native_run-blames facts none
