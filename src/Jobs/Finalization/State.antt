-- ===== src/Jobs/Finalization/State.antt =====
-- The data of `recover_finalize` in src/foampilot/jobs/recovery.py: the files of a run, their texts,
-- the host, and the choices of codes, events and texts.
use text.Mathlib.Text.{◌==◌}
use foam_pilot.Prelude.Dict.{Dict}
use foam_pilot.Prelude.Equality.{text_keys}
use foam_pilot.Prelude.{
  ℕ, max, String, Bool, true, false, not, ◌&&◌, ◌||◌, Option, none, some, List, [], ◌∷◌, ◌++◌,
  if◌then◌else◌,
}
use foam_pilot.Workflow.Records.{
  WorkflowStage, run_finalized, WorkflowEventState, completed, interrupted, WorkflowState,
  run_interrupted, workflow, FailureRecord, WorkflowEvent, stage_name, stage_value,
}
use foam_pilot.Workflow.Store.{LogFile, split_lines}
use foam_pilot.Artifacts.Manifest.{Content, file, log, Files, Hashing}
use foam_pilot.Jobs.Records.{
  JobState, RecoveryState, finalized, orphaned_stopped, ProcessIdentity, JobStatus,
}
use foam_pilot.Jobs.Worker.{no_update, update_status}

-- The files of a run that the recovery touches, and the others. `workflow-events.jsonl` is a plain
-- file if it is there.
pub record RunDirectory : Type 0 where
  pub interruption : Option Content
  pub events : Option LogFile
  pub summary : Option Content
  pub manifest : Option Content
  pub others : Files

-- `interruption.json`, with the cleanup that it always claims left out
pub record Interruption : Type 0 where
  pub code : String
  pub recorded_at : ℕ
  pub last_stage : Option String
  pub last_step_id : Option String
  pub last_heartbeat_at : Option ℕ
  pub worker : Option ProcessIdentity
  pub child : Option ProcessIdentity
  pub log_offsets : Dict String ℕ

-- `RunSummary`, as far as it is set here or read
pub record RunSummary : Type 0 where
  pub task_id : String
  pub workflow_state : WorkflowState
  pub last_completed_stage : Option String
  pub primary_failure : Option FailureRecord
  pub terminal_blocker : Option FailureRecord
  pub resume_allowed : Bool
  pub message : String

-- json, yaml and pydantic: the texts of events, interruptions and summaries and what comes back.
-- `load_interruption` gives the code and, if it is a time, `recorded_at` of a mapping of version 1.
pub record Documents : Type 0 where
  pub dump_event : WorkflowEvent → String
  pub validate_event : String → Option WorkflowEvent
  pub dump_interruption : Interruption → String
  pub load_interruption : String → Option (String × Option ℕ)
  pub dump_summary : RunSummary → String
  pub load_summary : String → Option RunSummary
  pub load_task_id : String → Option String
  pub hashing : Hashing

-- the host under the lock: the processes, the lock, the boot ID, the clock at its first
-- and second reading, and the sizes of the logs
pub record Host : Type 0 where
  pub matches : ProcessIdentity → Bool
  pub lock_free : Bool
  pub boot_id : String
  pub now : ℕ
  pub later : ℕ
  pub log_offsets : Dict String ℕ

pub data RecoverError : Type 0 where
  process_alive other_terminal_state terminal_evidence_exists invalid_timestamp : RecoverError
  lock_unavailable run_unavailable name_exists summary_unreadable : RecoverError
  state_not_allowed : RecoveryState → RecoverError

-- `path.is_file() and not path.is_symlink()`, and then the text
unfoldable pub plain : Option Content → Option String
plain (some (file text)) = some text
plain _ = none

unfoldable pub is_stage : WorkflowStage → WorkflowStage → Bool
unfolding stage_name
is_stage s t = stage_name s == stage_name t

unfoldable pub is_completed : WorkflowEventState → Bool
is_completed completed = true
is_completed _ = false

unfoldable pub is_interrupted : WorkflowEventState → Bool
is_interrupted interrupted = true
is_interrupted _ = false

unfoldable pub is_interrupted_run : WorkflowState → Bool
is_interrupted_run run_interrupted = true
is_interrupted_run _ = false

-- the lines of the log; there are none without a file
unfoldable pub lines_of : Option LogFile → List String
unfolding split_lines
lines_of none = []
lines_of (some f) = split_lines f

-- one round of the loop of `_workflow_evidence`
unfoldable pub note_event : Option WorkflowEvent → ℕ × Option String → ℕ × Option String
unfolding is_completed
note_event none acc = acc
note_event (some e) acc =
    (max acc.0 e.sequence, (if is_completed e.state then some (stage_value e.stage) else acc.1))

unfoldable pub is_final_event : Option WorkflowEvent → Bool
unfolding is_stage is_interrupted
is_final_event none = false
is_final_event (some e) = is_stage e.stage run_finalized && is_interrupted e.state

unfoldable pub end_last : List String → String → List String
end_last lines String.[] = lines
end_last lines (String.◌∷◌ c tail) = lines ++ (String.◌∷◌ c tail) ∷ []

-- the lines of the file once a separator has ended the last one
unfoldable pub closed_lines : Option LogFile → List String
unfolding end_last
closed_lines none = []
closed_lines (some f) = end_last f.lines f.tail

-- the file with a line behind its lines, and a separator if the last one has no end
unfoldable pub append_separated : String → Option LogFile → LogFile
unfolding closed_lines
append_separated line f = record { lines = closed_lines f ++ line ∷ []; tail = "" }

-- `{"HOST_RESTARTED", "WORKER_INTERRUPTED"}`
unfoldable pub is_recovery_code : String → Bool
is_recovery_code code = code == "HOST_RESTARTED" || code == "WORKER_INTERRUPTED"

unfoldable pub listed : String → Option Content → Files → Files
listed name none files = files
listed name (some content) files = (name, content) ∷ files

unfoldable pub log_of : Option LogFile → Option Content
log_of none = none
log_of (some f) = some (log f)

-- all files of the run but the manifest
unfoldable pub files_of : RunDirectory → Files
unfolding listed log_of
files_of d =
    listed "interruption.json" d.interruption
      (listed "workflow-events.jsonl" (log_of d.events) (listed "summary.json" d.summary d.others))

unfoldable pub starts_elsewhere : Option ProcessIdentity → String → Bool
starts_elsewhere none boot_id = false
starts_elsewhere (some worker) boot_id = not (worker.boot_id == boot_id)

-- the code of a recovery that begins
unfoldable pub fresh_code : Host → JobStatus → String
unfolding starts_elsewhere
fresh_code host status =
    if starts_elsewhere status.worker host.boot_id then "HOST_RESTARTED" else "WORKER_INTERRUPTED"

unfoldable pub blocker_of : String → FailureRecord
blocker_of code = record {
  domain = workflow;
  code = code;
  step_id = none;
  retryable = false;
  detail = "The durable worker ended without a canonical terminal outcome.";
  message = some "本机 worker 异常中断，现有证据已安全固化。";
  recovery = some "从已保存的规范输入完整重跑；不要把它当作 OpenFOAM 断点续算。";
  evidence_paths = "interruption.json" ∷ [];
}

unfoldable pub is_interrupted_job : JobState → Bool
is_interrupted_job JobState.interrupted = true
is_interrupted_job _ = false

unfoldable pub is_finalized : RecoveryState → Bool
is_finalized finalized = true
is_finalized _ = false

unfoldable pub is_orphaned_stopped : RecoveryState → Bool
is_orphaned_stopped orphaned_stopped = true
is_orphaned_stopped _ = false

-- the event that ends an interrupted run
unfoldable pub final_event : ℕ → ℕ → WorkflowEvent
final_event sequence now = record {
  sequence = sequence;
  stage = run_finalized;
  state = interrupted;
  occurred_at = now;
  attempt = none;
  step_id = none;
  detail = "The local worker stopped before a canonical terminal outcome.";
  evidence_paths = "interruption.json" ∷ [];
}

unfoldable pub interruption_of : Host → JobStatus → String → ℕ → Interruption
interruption_of host status code time = record {
  code = code;
  recorded_at = time;
  last_stage = status.current_stage;
  last_step_id = status.current_step_id;
  last_heartbeat_at = status.last_heartbeat_at;
  worker = status.worker;
  child = status.current_child;
  log_offsets = host.log_offsets;
}

-- a payload counts only with a code of this function
unfoldable pub own_code : Option (String × Option ℕ) → Option (String × Option ℕ)
unfolding is_recovery_code
own_code none = none
own_code (some (code, time)) = if is_recovery_code code then some (code, time) else none

unfoldable pub mark_interrupted : String → ℕ → ℕ → JobStatus → JobStatus
unfolding update_status
mark_interrupted code finished beat status =
    update_status
      (record no_update {
        state = some JobState.interrupted;
        current_child = some none;
        finished_at = some finished;
        last_heartbeat_at = some beat;
        terminal_code = some code;
      })
      status
