-- ===== src/Workflow/Examples.antt =====
-- A run of two stages for src/foampilot/workflow, and the theorems about it.
use foam_pilot.Prelude.{true, ◌≡◌, refl, String, ℕ, suc, false, none, some, List, [], ◌∷◌, ok}
use foam_pilot.Workflow.Records.{
  WorkflowEvent, stage_name, postprocessed, acceptance_evaluated, validation, FailureRecord,
  started, run_failed, run_finalized,
}
use foam_pilot.Workflow.Store.{
  Codec, WorkflowStore, opened, append_line, next_sequence, is_safe_name, finish, record_event,
  open_store, checkpoint,
}
use foam_pilot.Workflow.Store.Log.{IsLogged, Reaches, here, next, records, saves, Reaches-IsLogged}
use foam_pilot.Workflow.Store.Reopen.{open_store-IsLogged, Keeps, Reaches-Keeps}
use foam_pilot.Workflow.Services.{
  WorkflowContext, StageOutcome, StageService, from_stage, canonical_stage_order, same_stage,
  same_stages, constructed, validate_contract, is_blank, is_given, stage_completed, stage_failed,
}
use foam_pilot.Workflow.Coordinator.{
  WorkflowCoordinatorSummary, Environment, Session, run, run_required, required_order, raising,
  each_service, advance, start_service, and_then, record_stage, settle, settled, event_state_of,
  save_if_completed, save, payload_or, after_stage, stop_at, failure_or, or_text, finalize,
  final_event_state, paths_of, cancel_before,
}
use foam_pilot.Prelude.PosixPath
use foam_pilot.Prelude.Lines.{has_break}
use foam_pilot.Prelude.Dict.{get}
use foam_pilot.Prelude.Texts.{text_or}
use foam_pilot.Workflow.Coordinator.Endings.{Told}
use foam_pilot.Workflow.Coordinator.Refinement.{RunStory, run-Refines}

abbrev first_event : WorkflowEvent
first_event = record {
  sequence = 1;
  stage = postprocessed;
  state = started;
  occurred_at = 7;
  attempt = some 1;
  step_id = none;
  detail = "";
  evidence_paths = [];
}

-- payloads are texts, and any line of text is the first event
abbrev codec : Codec String
codec = record {
  dump_event = λ e. "event";
  validate_event = λ line. some first_event;
  canonical = λ p. some p;
  hears = λ e. true;
  digest = λ t. "digest";
  empty_payload = "{}";
}

abbrev empty_store : WorkflowStore String WorkflowCoordinatorSummary
empty_store = record {
  events = none;
  checkpoints = [];
  summary = none;
  last_sequence = 0;
  heard = [];
}

empty_store-IsLogged : IsLogged codec [] [] empty_store
unfolding opened
empty_store-IsLogged = record { written = refl; numbered = tt; counted = refl; told = refl }

abbrev one_event : WorkflowStore String WorkflowCoordinatorSummary
one_event = (record_event codec first_event empty_store).1

abbrev one_checkpoint : WorkflowStore String WorkflowCoordinatorSummary
one_checkpoint = (checkpoint codec "derived-metrics" "{}" one_event).1

calls : Reaches codec empty_store one_checkpoint
calls = next (next here (records empty_store first_event)) (saves one_event "derived-metrics" "{}")

Reaches-IsLogged_example : (es : List WorkflowEvent) × IsLogged codec [] es one_checkpoint
Reaches-IsLogged_example = Reaches-IsLogged codec [] [] calls empty_store-IsLogged

Reaches-Keeps_example : Keeps codec empty_store one_checkpoint
Reaches-Keeps_example = Reaches-Keeps codec calls

one_event-IsLogged : IsLogged codec [] (first_event ∷ []) one_event
unfolding record_event
one_event-IsLogged = record { written = refl; numbered = (refl, tt); counted = refl; told = refl }

open_store-IsLogged_example :
    open_store codec one_event.events one_event.checkpoints one_event.summary
    ≡ ok (record one_event { heard = [] })
unfolding has_break
open_store-IsLogged_example =
    open_store-IsLogged codec [] (first_event ∷ []) one_event one_event-IsLogged ((refl, refl), tt)

abbrev context : WorkflowContext
context = record {
  run_id = "run-1";
  task_id = "cavity";
  attempt = 1;
  start_stage = some postprocessed;
  repair_cycles_used = 0;
  max_repair_cycles = 1;
}

-- the world is the clock
abbrev env : Environment ℕ String
env = record { cancellation_requested = λ w. (false, w); now = λ w. (w, suc w); codec = codec }

abbrev metrics : StageOutcome String
metrics = record {
  status = stage_completed;
  checkpoint_name = some "derived-metrics";
  checkpoint_payload = some "{}";
  detail = "";
  failure = none;
  artifact_paths = [];
}

abbrev missed : FailureRecord
missed = record {
  domain = validation;
  code = "LIMIT_MISSED";
  step_id = none;
  retryable = false;
  detail = "a limit was missed";
  message = none;
  recovery = none;
  evidence_paths = [];
}

abbrev report : StageOutcome String
report = record {
  status = stage_failed;
  checkpoint_name = none;
  checkpoint_payload = none;
  detail = "a limit was missed";
  failure = some missed;
  artifact_paths = [];
}

abbrev services : List (StageService ℕ String)
services =
    record { stage = postprocessed; run = λ c w. (ok metrics, w) }
    ∷ record { stage = acceptance_evaluated; run = λ c w. (ok report, w) }
    ∷ []

abbrev start : Session ℕ String
start = record { store = empty_store; world = 100 }

abbrev failed_summary : WorkflowCoordinatorSummary
failed_summary = record {
  run_id = "run-1";
  task_id = "cavity";
  workflow_state = run_failed;
  current_stage = run_finalized;
  completed_stages = postprocessed ∷ [];
  failure = some missed;
}

run-Refines_example :
    Told env context
      (RunStory context (postprocessed ∷ acceptance_evaluated ∷ []))
      []
      start.store
      (run env context services start).1.store
      failed_summary
unfolding run run_required required_order from_stage canonical_stage_order same_stage same_stages
    stage_name raising each_service advance start_service and_then record_stage record_event
    next_sequence settle settled constructed validate_contract is_blank is_given event_state_of
    save_if_completed save checkpoint is_safe_name PosixPath.contains get text_or payload_or
    after_stage stop_at failure_or or_text finalize final_event_state paths_of finish opened
    append_line cancel_before
run-Refines_example = run-Refines env context services start
