-- ===== src/Workflow/Records.antt =====
-- src/foampilot/workflow/models.py and events.py: stages, states, failures and events.
use foam_pilot.Prelude.{ℕ, String, Bool, Option, List}

-- `WorkflowStage`
pub data WorkflowStage : Type 0 where
  ingesting_assets inspecting_input planning_observations acceptance_compiled : WorkflowStage
  observation_planned authoring_case case_authored verifying_case executing : WorkflowStage
  extracting_evidence run_assessed post_processing postprocessed evaluating : WorkflowStage
  acceptance_evaluated task_validated environment_ready geometry_ready : WorkflowStage
  routing_ready context_ready interpreting_intent resolving_requirements : WorkflowStage
  designing_case waiting_for_information waiting_for_confirmation : WorkflowStage
  model_generation_started plan_ready case_materialized static_inspection_complete : WorkflowStage
  openfoam_step_started openfoam_step_complete mesh_quality_complete : WorkflowStage
  public_validation_complete repair_scope_ready model_repair_started repair_applied : WorkflowStage
  run_finalized : WorkflowStage

pub data WorkflowEventState : Type 0 where
  started completed failed deferred cancelled interrupted : WorkflowEventState

pub data WorkflowState : Type 0 where
  run_completed run_failed run_deferred run_cancelled run_interrupted : WorkflowState

pub data FailureDomain : Type 0 where
  task environment backend design plan case inspection mesh initialization solver : FailureDomain
  postprocess validation workflow legacy : FailureDomain

pub record FailureRecord : Type 0 where
  pub domain : FailureDomain
  pub code : String
  pub step_id : Option String
  pub retryable : Bool
  pub detail : String
  pub message : Option String
  pub recovery : Option String
  pub evidence_paths : List String

-- An event; times are milliseconds.
pub record WorkflowEvent : Type 0 where
  pub sequence : ℕ
  pub stage : WorkflowStage
  pub state : WorkflowEventState
  pub occurred_at : ℕ
  pub attempt : Option ℕ
  pub step_id : Option String
  pub detail : String
  pub evidence_paths : List String

-- `stage.value`
unfoldable pub stage_value : WorkflowStage → String
stage_value ingesting_assets = "INGESTING_ASSETS"
stage_value inspecting_input = "INSPECTING_INPUT"
stage_value planning_observations = "PLANNING_OBSERVATIONS"
stage_value acceptance_compiled = "ACCEPTANCE_COMPILED"
stage_value observation_planned = "OBSERVATION_PLANNED"
stage_value authoring_case = "AUTHORING_CASE"
stage_value case_authored = "CASE_AUTHORED"
stage_value verifying_case = "VERIFYING_CASE"
stage_value executing = "EXECUTING"
stage_value extracting_evidence = "EXTRACTING_EVIDENCE"
stage_value run_assessed = "RUN_ASSESSED"
stage_value post_processing = "POST_PROCESSING"
stage_value postprocessed = "POSTPROCESSED"
stage_value evaluating = "EVALUATING"
stage_value acceptance_evaluated = "ACCEPTANCE_EVALUATED"
stage_value task_validated = "TASK_VALIDATED"
stage_value environment_ready = "ENVIRONMENT_READY"
stage_value geometry_ready = "GEOMETRY_READY"
stage_value routing_ready = "ROUTING_READY"
stage_value context_ready = "CONTEXT_READY"
stage_value interpreting_intent = "INTERPRETING_INTENT"
stage_value resolving_requirements = "RESOLVING_REQUIREMENTS"
stage_value designing_case = "DESIGNING_CASE"
stage_value waiting_for_information = "WAITING_FOR_INFORMATION"
stage_value waiting_for_confirmation = "WAITING_FOR_CONFIRMATION"
stage_value model_generation_started = "MODEL_GENERATION_STARTED"
stage_value plan_ready = "PLAN_READY"
stage_value case_materialized = "CASE_MATERIALIZED"
stage_value static_inspection_complete = "STATIC_INSPECTION_COMPLETE"
stage_value openfoam_step_started = "OPENFOAM_STEP_STARTED"
stage_value openfoam_step_complete = "OPENFOAM_STEP_COMPLETE"
stage_value mesh_quality_complete = "MESH_QUALITY_COMPLETE"
stage_value public_validation_complete = "PUBLIC_VALIDATION_COMPLETE"
stage_value repair_scope_ready = "REPAIR_SCOPE_READY"
stage_value model_repair_started = "MODEL_REPAIR_STARTED"
stage_value repair_applied = "REPAIR_APPLIED"
stage_value run_finalized = "RUN_FINALIZED"

-- the value of a stage, in lower case
unfoldable pub stage_name : WorkflowStage → String
stage_name ingesting_assets = "ingesting_assets"
stage_name inspecting_input = "inspecting_input"
stage_name planning_observations = "planning_observations"
stage_name acceptance_compiled = "acceptance_compiled"
stage_name observation_planned = "observation_planned"
stage_name authoring_case = "authoring_case"
stage_name case_authored = "case_authored"
stage_name verifying_case = "verifying_case"
stage_name executing = "executing"
stage_name extracting_evidence = "extracting_evidence"
stage_name run_assessed = "run_assessed"
stage_name post_processing = "post_processing"
stage_name postprocessed = "postprocessed"
stage_name evaluating = "evaluating"
stage_name acceptance_evaluated = "acceptance_evaluated"
stage_name task_validated = "task_validated"
stage_name environment_ready = "environment_ready"
stage_name geometry_ready = "geometry_ready"
stage_name routing_ready = "routing_ready"
stage_name context_ready = "context_ready"
stage_name interpreting_intent = "interpreting_intent"
stage_name resolving_requirements = "resolving_requirements"
stage_name designing_case = "designing_case"
stage_name waiting_for_information = "waiting_for_information"
stage_name waiting_for_confirmation = "waiting_for_confirmation"
stage_name model_generation_started = "model_generation_started"
stage_name plan_ready = "plan_ready"
stage_name case_materialized = "case_materialized"
stage_name static_inspection_complete = "static_inspection_complete"
stage_name openfoam_step_started = "openfoam_step_started"
stage_name openfoam_step_complete = "openfoam_step_complete"
stage_name mesh_quality_complete = "mesh_quality_complete"
stage_name public_validation_complete = "public_validation_complete"
stage_name repair_scope_ready = "repair_scope_ready"
stage_name model_repair_started = "model_repair_started"
stage_name repair_applied = "repair_applied"
stage_name run_finalized = "run_finalized"
