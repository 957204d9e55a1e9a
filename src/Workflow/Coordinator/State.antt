-- ===== src/Workflow/Coordinator/State.antt =====
-- The data of src/foampilot/workflow/coordinator.py and its choices of states, failures and texts.
use Prim.Native.String.{◌++◌ as str_append}
use text.Mathlib.Text.{◌==◌}
use foam_pilot.Prelude.{
  ℕ, String, Bool, false, Option, none, some, List, [], if◌then◌else◌, Result, ok, raise,
}
use foam_pilot.Workflow.Records.{
  WorkflowStage, WorkflowEventState, completed, failed, deferred, cancelled, interrupted,
  WorkflowState, run_completed, run_failed, run_deferred, run_cancelled, run_interrupted, workflow,
  FailureRecord,
}
use foam_pilot.Workflow.Store.{Codec, StoreError, WorkflowStore}
use foam_pilot.Workflow.Services.{
  WorkflowContext, StageStatus, stage_completed, stage_deferred, stage_failed, stage_cancelled,
  StageOutcome, canonical_stage_order, from_stage,
}

pub record WorkflowCoordinatorSummary : Type 0 where
  pub run_id : String
  pub task_id : String
  pub workflow_state : WorkflowState
  pub current_stage : WorkflowStage
  pub completed_stages : List WorkflowStage
  pub failure : Option FailureRecord

-- the callables that the coordinator was made with, and the codec of its store
pub record Environment (W J : Type 0) : Type 0 where
  pub cancellation_requested : W → Bool × W
  pub now : W → ℕ × W
  pub codec : Codec J

pub record Session (W J : Type 0) : Type 0 where
  pub store : WorkflowStore J WorkflowCoordinatorSummary
  pub world : W

pub data RunError : Type 0 where
  not_resumable services_differ : RunError
  store_failed : StoreError → RunError

-- the next call, unless the one before has raised
unfoldable pub and_then :
    {E A B W : Type 0} → Result E A × W → (A → W → Result E B × W) → Result E B × W
and_then (ok a, w) next = next a w
and_then (raise e, w) next = (raise e, w)

-- `_required_order`, or `none` where it raises
unfoldable pub required_order : WorkflowContext → Option (List WorkflowStage)
required_order c = elim c.start_stage [
  | none ↦ some canonical_stage_order
  | some start ↦ from_stage start canonical_stage_order
]

unfoldable pub workflow_failure : String → String → FailureRecord
workflow_failure code detail = record {
  domain = workflow;
  code = code;
  step_id = none;
  retryable = false;
  detail = detail;
  message = none;
  recovery = none;
  evidence_paths = [];
}

unfoldable pub final_event_state : WorkflowState → WorkflowEventState
final_event_state run_completed = completed
final_event_state run_failed = failed
final_event_state run_deferred = deferred
final_event_state run_cancelled = cancelled
final_event_state run_interrupted = interrupted

unfoldable pub event_state_of : StageStatus → WorkflowEventState
event_state_of stage_completed = completed
event_state_of stage_deferred = deferred
event_state_of stage_failed = failed
event_state_of stage_cancelled = cancelled

unfoldable pub paths_of : Option FailureRecord → List String
paths_of none = []
paths_of (some f) = f.evidence_paths

-- `outcome.failure or FailureRecord(...)`
unfoldable pub failure_or : Option FailureRecord → FailureRecord → FailureRecord
failure_or none f = f
failure_or (some g) f = g

-- `text or other`
unfoldable pub or_text : String → String → String
or_text text other = if text == "" then other else text

-- the fields of an outcome that names no checkpoint
unfoldable pub stopped : {J : Type 0} → StageStatus → String → FailureRecord → StageOutcome J
stopped status detail failure = record {
  status = status;
  checkpoint_name = none;
  checkpoint_payload = none;
  detail = detail;
  failure = some failure;
  artifact_paths = [];
}

abbrev pub cancel_detail : String
cancel_detail = "cancellation requested before the next stage"

-- the outcome of a service that may have raised
unfoldable pub settled : {J : Type 0} → Result String (StageOutcome J) → StageOutcome J
settled (ok outcome) = outcome
settled (raise name) =
    let detail = str_append name ": stage service raised an exception" in
    stopped stage_failed detail (workflow_failure "STAGE_SERVICE_FAILED" detail)

unfoldable pub payload_or : {J : Type 0} → Option J → J → J
payload_or none p = p
payload_or (some q) p = q
