-- ===== src/Agent/Failure/Validity.antt =====
-- src/foampilot/agent/failure.py: the layers of an assessment, and `validate_failure_classification`.
use text.Mathlib.Text.{◌==◌}
use foam_pilot.Prelude.Texts.{is_identifier}
use foam_pilot.Prelude.{
  String, Bool, true, false, not, Option, none, some, if◌then◌else◌, Result, ok, raise,
}
use foam_pilot.Evidence.Assessment.{FailureLayer, RunAssessment}
use foam_pilot.Workflow.Records.{
  FailureDomain, task, environment, backend, design, plan, case, inspection, mesh, initialization,
  solver, postprocess, validation, workflow, legacy,
}
use foam_pilot.Agent.Failure.Contracts.{
  FailedStage, NativeFailureClassification, ClassifyError, domain_of, stage_of, mesh_stage,
  check_stage, initialize_stage, solve_stage, postprocess_stage, domain_conflicts, stage_conflicts,
  step_conflicts, code_not_valid,
}

unfoldable pub same_domain : FailureDomain → FailureDomain → Bool
same_domain task task = true
same_domain environment environment = true
same_domain backend backend = true
same_domain design design = true
same_domain plan plan = true
same_domain case case = true
same_domain inspection inspection = true
same_domain mesh mesh = true
same_domain initialization initialization = true
same_domain solver solver = true
same_domain postprocess postprocess = true
same_domain validation validation = true
same_domain workflow workflow = true
same_domain legacy legacy = true
same_domain _ _ = false

-- whether the stage of a classification is the given one
unfoldable pub is_stage : FailedStage → Option FailedStage → Bool
is_stage mesh_stage (some mesh_stage) = true
is_stage check_stage (some check_stage) = true
is_stage initialize_stage (some initialize_stage) = true
is_stage solve_stage (some solve_stage) = true
is_stage postprocess_stage (some postprocess_stage) = true
is_stage _ _ = false

unfoldable pub stage_conflict : Option FailedStage → Option FailedStage → Bool
unfolding is_stage
stage_conflict none failed = false
stage_conflict (some s) failed = not (is_stage s failed)

unfoldable pub step_conflict : Option String → Option String → Bool
step_conflict none failed = false
step_conflict (some id) none = true
step_conflict (some id) (some failed) = not (failed == id)

-- `validate_failure_classification`, for an assessment with the given layer
unfoldable pub validate_failure_classification :
    NativeFailureClassification
    → FailureLayer
    → RunAssessment
    → Result ClassifyError NativeFailureClassification
validate_failure_classification c layer assessment =
    if not (same_domain c.domain (domain_of layer))
    then raise domain_conflicts
    else if stage_conflict (stage_of layer) c.failed_stage
    then raise stage_conflicts
    else if step_conflict assessment.failed_step_id c.failed_step_id
    then raise step_conflicts
    else ok c

-- the contract of a classification, and then its validation
unfoldable pub publish :
    NativeFailureClassification
    → FailureLayer
    → RunAssessment
    → Result ClassifyError NativeFailureClassification
publish c layer assessment =
    if is_identifier c.code
    then validate_failure_classification c layer assessment
    else raise code_not_valid
