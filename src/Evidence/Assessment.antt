-- ===== src/Evidence/Assessment.antt =====
-- src/foampilot/evidence/assessment.py: `assess_native_run`, with the facts of
-- src/foampilot/evidence/models.py that it and its readers use.
pub mod Truth
mod Examples
use Prim.Native.String.{◌++◌ as str_append}
use text.Mathlib.Text.{◌==◌}
use foam_pilot.Prelude.{
  ℕ, zero, String, ℤ, pos, Bool, true, false, not, ◌&&◌, ◌||◌, Option, none, some, List, [], ◌∷◌,
  map, any, if◌then◌else◌,
}

-- `RawCommandEvidence`, without the command line, the times and the output
pub record CommandEvidence : Type 0 where
  pub step_id : String
  pub stage : String
  pub return_code : Option ℤ
  pub timed_out : Bool
  pub cancelled : Bool

pub record MeshCheckFact : Type 0 where
  pub step_id : String
  pub mesh_ok : Option Bool

pub record SolverProgressFact : Type 0 where
  pub step_id : String
  pub completed_normally : Option Bool

-- of `maximum`, what the program reads of it
pub record CourantFact : Type 0 where
  pub step_id : String
  pub maximum_above_1 : Bool

pub record NativeErrorFact : Type 0 where
  pub step_id : String
  pub code : String
  pub subject : Option String
  pub path : Option String

pub record RunFacts : Type 0 where
  pub raw_steps : List CommandEvidence
  pub mesh_checks : List MeshCheckFact
  pub solver_progress : List SolverProgressFact
  pub courant : List CourantFact
  pub native_errors : List NativeErrorFact

pub data FailureLayer : Type 0 where
  environment_blocked static_inspection_failed mesh_failed mesh_quality_failed : FailureLayer
  initialization_failed solver_failed postprocess_failed : FailureLayer

pub record RunAssessment : Type 0 where
  pub is_ok : Bool
  pub failure_layer : Option FailureLayer
  pub failed_step_id : Option String
  pub reason_codes : List String
  pub detail : String

-- `return_code == 0`
unfoldable pub is_zero : Option ℤ → Bool
is_zero (some (pos zero)) = true
is_zero _ = false

-- the test on a step in `assess_native_run`
unfoldable pub has_failed : CommandEvidence → Bool
unfolding is_zero
has_failed step = not (is_zero step.return_code) || step.timed_out || step.cancelled

-- `next(...)` over the steps
unfoldable pub first_failed : List CommandEvidence → Option CommandEvidence
first_failed [] = none
first_failed (step ∷ steps) =
    let rest = first_failed steps in if has_failed step then some step else rest

unfoldable pub is_backend_error : String → NativeErrorFact → Bool
is_backend_error step_id item = item.step_id == step_id && item.code == "EXECUTION_BACKEND_ERROR"

unfoldable pub layer_of_stage : String → FailureLayer
layer_of_stage stage =
    if stage == "mesh" || stage == "check"
    then mesh_failed
    else if stage == "initialize"
    then initialization_failed
    else if stage == "postprocess"
    then postprocess_failed
    else solver_failed

-- `_failed_layer`
unfoldable pub failed_layer : CommandEvidence → RunFacts → FailureLayer
unfolding is_backend_error layer_of_stage
failed_layer step facts =
    if any (is_backend_error step.step_id) facts.native_errors
    then environment_blocked
    else layer_of_stage step.stage

unfoldable pub is_true : Option Bool → Bool
is_true (some true) = true
is_true _ = false

unfoldable pub solve_steps : List CommandEvidence → List CommandEvidence
solve_steps [] = []
solve_steps (step ∷ steps) =
    let rest = solve_steps steps in if step.stage == "solve" then step ∷ rest else rest

-- whether a fact says that one of the steps came to its normal end
unfoldable pub ends : List CommandEvidence → SolverProgressFact → Bool
unfolding is_true
ends steps item =
    any (λ id. id == item.step_id) (map (λ step. step.step_id) steps)
    && is_true item.completed_normally

unfoldable pub failure_reason : CommandEvidence → String
failure_reason step =
    if step.cancelled
    then "COMMAND_CANCELLED"
    else if step.timed_out
    then "COMMAND_TIMED_OUT"
    else "COMMAND_FAILED"

-- the assessment of a run with a failed step
unfoldable pub assess_failed : RunFacts → CommandEvidence → RunAssessment
unfolding failed_layer failure_reason
assess_failed facts step = record {
  is_ok = false;
  failure_layer = some (failed_layer step facts);
  failed_step_id = some step.step_id;
  reason_codes = failure_reason step ∷ [];
  detail = str_append "typed command " (str_append step.step_id " did not complete successfully");
}

unfoldable pub rejected : FailureLayer → String → String → RunAssessment
rejected layer reason detail = record {
  is_ok = false;
  failure_layer = some layer;
  failed_step_id = none;
  reason_codes = reason ∷ [];
  detail = detail;
}

unfoldable pub passed : String → String → RunAssessment
passed reason detail = record {
  is_ok = true;
  failure_layer = none;
  failed_step_id = none;
  reason_codes = reason ∷ [];
  detail = detail;
}

-- a run with no solve step
unfoldable pub assess_case_only : List MeshCheckFact → RunAssessment
unfolding rejected passed is_true
assess_case_only [] =
    rejected mesh_failed "MESH_CHECK_NOT_PASSED"
      "case-only execution requires a successful mesh check"
assess_case_only (check ∷ checks) =
    if any (λ c. not (is_true c.mesh_ok)) (check ∷ checks)
    then rejected mesh_failed "MESH_CHECK_NOT_PASSED"
        "case-only execution requires a successful mesh check"
    else passed "CASE_AUTHORING_CHECKS_PASSED"
        "case files were authored and deterministic checks passed"

unfoldable pub assess_solve : RunFacts → List CommandEvidence → RunAssessment
unfolding rejected passed assess_case_only
assess_solve facts [] = assess_case_only facts.mesh_checks
assess_solve facts (step ∷ steps) =
    if not (any (ends (step ∷ steps)) facts.solver_progress)
    then rejected solver_failed "NORMAL_SOLVER_END_MISSING"
        "no solver step has a canonical normal-End fact"
    else passed "NORMAL_SOLVER_END" "typed commands completed and solver emitted canonical End"

-- the assessment behind the test for a failed step; `quality` is whether the mesh quality passed
unfoldable pub assess_completed : RunFacts → Option Bool → RunAssessment
unfolding rejected
assess_completed facts (some false) =
    rejected mesh_quality_failed "MESH_INTENT_NOT_SATISFIED"
      "deterministic mesh facts do not satisfy MeshIntent"
assess_completed facts _ = assess_solve facts (solve_steps facts.raw_steps)

unfoldable pub assess_native_run : RunFacts → Option Bool → RunAssessment
assess_native_run facts quality = elim (first_failed facts.raw_steps) [
  | some step ↦ assess_failed facts step
  | none ↦ assess_completed facts quality
]

-- `assessment_for_inspection`
unfoldable pub assessment_for_inspection : String → RunAssessment
unfolding rejected
assessment_for_inspection issue_code =
    rejected static_inspection_failed issue_code "static case inspection failed before execution"
