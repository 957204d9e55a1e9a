-- ===== src/Agent/Failure/Examples.antt =====
-- A run without a mesh for src/foampilot/agent/failure.py, and the theorems about its classification.
use foam_pilot.Prelude.Texts.{casefold, lower, is_identifier}
use foam_pilot.Prelude.{
  raise, ◌≢◌, false, ◌≡◌, refl, String, true, false, none, some, pos, List, [], ◌∷◌, All, Some,
  IsDistinct, ok,
}
use foam_pilot.Evidence.Assessment.{
  FailureLayer, RunFacts, RunAssessment, solver_failed, static_inspection_failed, assess_native_run,
  assess_failed, first_failed, has_failed, is_zero,
}
use foam_pilot.Plans.Validation.{ExecutionPlan, solve, is_mesh}
use foam_pilot.Workflow.Records.{solver}
use foam_pilot.Agent.Failure.{
  NativeFailureClassification, code_not_valid, domain_conflicts, InspectionIssue,
  classify_native_failure, classify_in, inspection_result, resolve_declared_paths, high,
  solve_stage, run_fact, insert_command_before, insert_command_after, publish,
  validate_failure_classification, same_domain, domain_of, stage_of, is_stage, stage_conflict,
  step_conflict, result_of, diagnose, first_of, poly_mesh_rule, fact_of, has_mesh_command, distinct,
  resolve_each, by_length,
}
use foam_pilot.Agent.Failure.Agreement.{
  Agrees, classify_native_failure-inspection, assess_native_run-classified,
}
use foam_pilot.Agent.Failure.Paths.{IsResolution, resolve_declared_paths-longest}
use foam_pilot.Agent.Failure.Operations.{Justified, classify_native_failure-Justified}

abbrev native_plan : ExecutionPlan
native_plan = record {
  files = record { path = "system/controlDict"; content = "application icoFoam;" } ∷ [];
  commands =
      record {
        step_id = "solve";
        stage = solve;
        executable = "icoFoam";
        args = [];
        mpi_ranks = 1;
        timeout = 500;
      }
      ∷ [];
}

abbrev facts : RunFacts
facts = record {
  raw_steps =
      record {
        step_id = "solve";
        stage = "solve";
        return_code = some (pos 1);
        timed_out = false;
        cancelled = false;
      }
      ∷ [];
  mesh_checks = [];
  solver_progress = [];
  courant = [];
  native_errors =
      record {
        step_id = "solve";
        code = "MISSING_CASE_FILE";
        subject = none;
        path = some "constant/polyMesh/points";
      }
      ∷ [];
}

abbrev assessment : RunAssessment
assessment = record {
  is_ok = false;
  failure_layer = some solver_failed;
  failed_step_id = some "solve";
  reason_codes = "COMMAND_FAILED" ∷ [];
  detail = "typed command solve did not complete successfully";
}

abbrev classified : NativeFailureClassification
classified = record {
  domain = solver;
  code = "missing_typed_command";
  confidence = high;
  failed_stage = some solve_stage;
  failed_step_id = some "solve";
  evidence = record { kind = run_fact; value = "missing_typed_command" } ∷ [];
  scope_hints = record { files = []; dictionary_blocks = []; commands = "solve" ∷ [] };
  allowed_operations = insert_command_before ∷ insert_command_after ∷ [];
}

assessment-classified : classify_native_failure native_plan assessment facts [] none ≡ ok classified
unfolding classify_native_failure classify_in publish validate_failure_classification same_domain
    domain_of stage_of is_stage stage_conflict step_conflict result_of diagnose first_of
    poly_mesh_rule fact_of has_mesh_command is_mesh casefold is_identifier resolve_declared_paths
    distinct resolve_each by_length
assessment-classified = refl

abbrev issue : InspectionIssue
issue = record { code = "MISSING_FILE"; path = none }

classify_native_failure-inspection_example :
    let answer = classify_native_failure native_plan assessment facts (issue ∷ []) none in
    (solver_failed ≡ static_inspection_failed
      → is_identifier (lower "MISSING_FILE") ≡ true
      → answer ≡ ok (inspection_result assessment none issue))
    × (is_identifier (lower "MISSING_FILE") ≡ false → answer ≡ raise code_not_valid)
    × (solver_failed ≢ static_inspection_failed
        → is_identifier (lower "MISSING_FILE") ≡ true
        → answer ≡ raise domain_conflicts)
classify_native_failure-inspection_example =
    classify_native_failure-inspection native_plan assessment facts none solver_failed issue [] refl

facts-failed : (assess_native_run facts none).is_ok ≡ false
unfolding assess_native_run assess_failed first_failed has_failed is_zero
facts-failed = refl

assess_native_run-classified_example :
    (layer : FailureLayer) × ((assess_native_run facts none).failure_layer ≡ some layer)
    × (c : NativeFailureClassification) × (classify_native_failure native_plan
          (assess_native_run facts none)
          facts
          []
          none
        ≡ ok c)
    × Agrees (assess_native_run facts none) layer c
assess_native_run-classified_example =
    assess_native_run-classified native_plan facts none none facts-failed

classify_native_failure-Justified_example :
    Justified native_plan solver_failed
      (some "solve")
      facts.native_errors
      (insert_command_before ∷ insert_command_after ∷ [])
classify_native_failure-Justified_example =
    classify_native_failure-Justified native_plan assessment facts none solver_failed
      {c = classified} refl assessment-classified

abbrev candidates : List String
candidates = "constant/polyMesh/points" ∷ "0/U" ∷ []

abbrev declared : List String
declared = "constant" ∷ "constant/polyMesh" ∷ []

resolve_declared_paths-longest_example :
    IsDistinct (resolve_declared_paths candidates declared)
    × All
        (λ m. Some (λ c. IsResolution declared c m) candidates)
        (resolve_declared_paths candidates declared)
    × All
        (λ c. Some (IsResolution declared c) (resolve_declared_paths candidates declared))
        candidates
resolve_declared_paths-longest_example = resolve_declared_paths-longest candidates declared
