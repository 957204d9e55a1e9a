-- ===== src/Workflow/Coordinator.antt =====
-- `WorkflowCoordinator` of src/foampilot/workflow/coordinator.py. The session is the state that its
-- calls share: the store of the run and the world of the services and the clock.
mod State
pub mod Story
mod Appends
mod Stages
pub mod Endings
mod Rounds
pub mod Refinement
unfoldable pub use State.*
use Prim.Native.String.{◌++◌ as str_append}
use foam_pilot.Prelude.Texts.{text_or}
use text.Mathlib.Text.{◌==◌}
use foam_pilot.Prelude.{
  ℕ, ◌+◌, String, Bool, true, false, not, Option, none, some, List, [], ◌∷◌, ◌++◌, map, ltb,
  if◌then◌else◌, Result, ok, raise,
}
use foam_pilot.Workflow.Records.{
  WorkflowStage, run_finalized, WorkflowEventState, started, completed, failed, deferred, cancelled,
  interrupted, WorkflowState, run_completed, run_failed, run_deferred, run_cancelled,
  run_interrupted, workflow, FailureRecord, WorkflowEvent, stage_name,
}
use foam_pilot.Workflow.Store.{
  Codec, StoreError, WorkflowStore, next_sequence, record_event, checkpoint, finish,
}
use foam_pilot.Workflow.Services.{
  WorkflowContext, StageStatus, stage_completed, stage_deferred, stage_failed, stage_cancelled,
  StageOutcome, StageService, constructed, canonical_stage_order, from_stage, same_stages,
}

module _ {W J : Type 0} (env : Environment W J) (context : WorkflowContext) where
  -- `_record`
  unfoldable pub record_stage :
      WorkflowStage
      → WorkflowEventState
      → String
      → List String
      → Session W J
      → Result StoreError (Unit {0}) × Session W J
  record_stage stage state detail paths s =
      let (now, world) = env.now s.world in
      let (answer, store) =
        record_event env.codec
          (record {
            sequence = next_sequence s.store;
            stage = stage;
            state = state;
            occurred_at = now;
            attempt = some context.attempt;
            step_id = none;
            detail = detail;
            evidence_paths = paths;
          })
          s.store in
      (answer, record { store = store; world = world })

  -- `self.store.checkpoint(...)` of a completed outcome
  unfoldable pub save :
      WorkflowStage → StageOutcome J → Session W J → Result StoreError (Unit {0}) × Session W J
  unfolding payload_or
  save stage outcome s =
      let (answer, store) =
        checkpoint env.codec (text_or outcome.checkpoint_name (stage_name stage))
          (payload_or outcome.checkpoint_payload env.codec.empty_payload) s.store in
      (answer, record s { store = store })

  unfoldable pub save_if_completed :
      StageStatus
      → WorkflowStage
      → StageOutcome J
      → Session W J
      → Result StoreError (Unit {0}) × Session W J
  save_if_completed stage_completed stage outcome s = save stage outcome s
  save_if_completed _ stage outcome s = (ok tt, s)

  -- `advance` from the outcome of the service on
  unfoldable pub settle :
      WorkflowStage
      → StageOutcome J
      → Session W J
      → Result StoreError (StageOutcome J) × Session W J
  unfolding and_then
  settle stage outcome s = and_then (save_if_completed outcome.status stage outcome s) (λ _ s1.
      and_then
        (record_stage stage (event_state_of outcome.status) outcome.detail outcome.artifact_paths
          s1)
        (λ _ s2. (ok outcome, s2)))

  unfoldable pub cancel_before :
      WorkflowStage → Session W J → Result StoreError (StageOutcome J) × Session W J
  unfolding and_then
  cancel_before stage s = and_then (record_stage stage cancelled cancel_detail [] s) (λ _ s1. (
    ok (stopped stage_cancelled cancel_detail (workflow_failure "USER_CANCELLED" cancel_detail)),
    s1,
  ))

  -- `advance` from its `STARTED` event on
  unfoldable pub start_service :
      StageService W J → Session W J → Result StoreError (StageOutcome J) × Session W J
  unfolding and_then settled
  start_service service s = and_then (record_stage service.stage started "" [] s) (λ _ s1.
      let (answer, world) = service.run context s1.world in
      settle service.stage (settled (constructed answer)) (record s1 { world = world }))

  unfoldable pub advance :
      StageService W J → Session W J → Result StoreError (StageOutcome J) × Session W J
  advance service s =
      let (stop, world) = env.cancellation_requested s.world in
      if stop
      then cancel_before service.stage (record s { world = world })
      else start_service service (record s { world = world })

  -- `_finalize`
  unfoldable pub finalize :
      WorkflowState
      → List WorkflowStage
      → Option FailureRecord
      → String
      → Session W J
      → Result StoreError WorkflowCoordinatorSummary × Session W J
  unfolding and_then
  finalize state done failure detail s =
      and_then (record_stage run_finalized (final_event_state state) detail (paths_of failure) s)
        (λ _ s1.
          let summary : WorkflowCoordinatorSummary = record {
            run_id = context.run_id;
            task_id = context.task_id;
            workflow_state = state;
            current_stage = run_finalized;
            completed_stages = done;
            failure = failure;
          } in
          let (answer, store) = finish summary s1.store in
          and_then (answer, record s1 { store = store }) (λ _ s2. (ok summary, s2)))

  -- the end of `run` at a stage that did not complete
  unfoldable pub stop_at :
      WorkflowState
      → String
      → List WorkflowStage
      → StageOutcome J
      → Session W J
      → Result StoreError WorkflowCoordinatorSummary × Session W J
  unfolding failure_or or_text workflow_failure
  stop_at state code done outcome s =
      let failure =
        failure_or outcome.failure
          (workflow_failure code (or_text outcome.detail "stage did not complete")) in
      finalize state done (some failure) (or_text outcome.detail failure.detail) s

  -- the body of the loop of `run` behind `advance`: `continue`, or the end at this stage
  unfoldable pub after_stage :
      StageStatus
      → (Session W J → Result StoreError WorkflowCoordinatorSummary × Session W J)
      → List WorkflowStage
      → StageOutcome J
      → Session W J
      → Result StoreError WorkflowCoordinatorSummary × Session W J
  after_stage stage_completed continue done outcome s = continue s
  after_stage stage_deferred continue done outcome s =
      stop_at run_deferred "STAGE_DID_NOT_COMPLETE" done outcome s
  after_stage stage_failed continue done outcome s =
      stop_at run_failed "STAGE_DID_NOT_COMPLETE" done outcome s
  after_stage stage_cancelled continue done outcome s =
      stop_at run_cancelled "USER_CANCELLED" done outcome s

  -- the loop of `run`
  unfoldable pub each_service :
      List (StageService W J)
      → List WorkflowStage
      → Session W J
      → Result StoreError WorkflowCoordinatorSummary × Session W J
  each_service [] done s = finalize run_completed done none "workflow completed" s
  each_service (service ∷ services) done s = and_then (advance service s) (λ outcome s1.
      after_stage outcome.status (λ s2. each_service services (done ++ service.stage ∷ []) s2) done
        outcome s1)

  unfoldable pub exhausted :
      Session W J → Result StoreError WorkflowCoordinatorSummary × Session W J
  exhausted s =
      let detail : String = "repair cycle budget was exhausted before execution" in
      finalize run_failed [] (some (workflow_failure "REPAIR_BUDGET_EXHAUSTED" detail)) detail s

  unfoldable pub raising :
      Result StoreError WorkflowCoordinatorSummary × Session W J
      → Result RunError WorkflowCoordinatorSummary × Session W J
  raising (ok summary, s) = (ok summary, s)
  raising (raise e, s) = (raise (store_failed e), s)

  -- `run` from `_required_order` on
  unfoldable pub run_required :
      Option (List WorkflowStage)
      → List (StageService W J)
      → Session W J
      → Result RunError WorkflowCoordinatorSummary × Session W J
  run_required none services s = (raise not_resumable, s)
  run_required (some required) services s =
      if not (same_stages (map (λ service. service.stage) services) required)
      then (raise services_differ, s)
      else if ltb context.max_repair_cycles context.repair_cycles_used
      then raising (exhausted s)
      else raising (each_service services [] s)

  unfoldable pub run :
      List (StageService W J)
      → Session W J
      → Result RunError WorkflowCoordinatorSummary × Session W J
  run services s = run_required (required_order context) services s
