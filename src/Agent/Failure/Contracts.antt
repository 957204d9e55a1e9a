-- ===== src/Agent/Failure/Contracts.antt =====
-- The data of src/foampilot/agent/failure.py.
use foam_pilot.Prelude.{String, Option, none, some, List}
use foam_pilot.Workflow.Records.{
  FailureDomain, environment, inspection, mesh, initialization, solver, postprocess,
}
use foam_pilot.Evidence.Assessment.{
  FailureLayer, environment_blocked, static_inspection_failed, mesh_failed, mesh_quality_failed,
  initialization_failed, solver_failed, postprocess_failed,
}

pub data FailedStage : Type 0 where
  mesh_stage check_stage initialize_stage solve_stage postprocess_stage : FailedStage

pub data Confidence : Type 0 where
  high medium low : Confidence

pub data RepairOperation : Type 0 where
  add_file replace_file insert_command_before insert_command_after : RepairOperation
  replace_command remove_command : RepairOperation

pub data EvidenceKind : Type 0 where
  inspection_issue run_fact run_assessment prior_failure : EvidenceKind

pub record FailureEvidence : Type 0 where
  pub kind : EvidenceKind
  pub value : String

pub record FailureScopeHints : Type 0 where
  pub files : List String
  pub dictionary_blocks : List String
  pub commands : List String

pub record NativeFailureClassification : Type 0 where
  pub domain : FailureDomain
  pub code : String
  pub confidence : Confidence
  pub failed_stage : Option FailedStage
  pub failed_step_id : Option String
  pub evidence : List FailureEvidence
  pub scope_hints : FailureScopeHints
  pub allowed_operations : List RepairOperation

-- `FailureClassificationError`s by their details, and the refusal of a code that is no identifier by
-- the contract of the classification
pub data ClassifyError : Type 0 where
  passing_report domain_conflicts stage_conflicts step_conflicts code_not_valid : ClassifyError

-- `_LAYER_FACTS`
unfoldable pub domain_of : FailureLayer → FailureDomain
domain_of environment_blocked = environment
domain_of static_inspection_failed = inspection
domain_of mesh_failed = mesh
domain_of mesh_quality_failed = mesh
domain_of initialization_failed = initialization
domain_of solver_failed = solver
domain_of postprocess_failed = postprocess

unfoldable pub stage_of : FailureLayer → Option FailedStage
stage_of environment_blocked = none
stage_of static_inspection_failed = none
stage_of mesh_failed = some mesh_stage
stage_of mesh_quality_failed = some check_stage
stage_of initialization_failed = some initialize_stage
stage_of solver_failed = some solve_stage
stage_of postprocess_failed = some postprocess_stage

-- what an inspection says of one issue
pub record InspectionIssue : Type 0 where
  pub code : String
  pub path : Option String
