-- ===== src/Jobs/Finalization.antt =====
-- `recover_finalize` of src/foampilot/jobs/recovery.py behind `reconcile_job`: how a run that nobody
-- owns any more becomes interrupted evidence. A crash leaves the files of the writes done so far.
mod State
mod Events
pub mod Restart
pub mod Guards
mod Examples
unfoldable pub use State.*
use text.Mathlib.Text.{◌==◌}
use foam_pilot.Prelude.Dict.{Dict, get}
use foam_pilot.Prelude.Equality.{text_keys}
use foam_pilot.Prelude.{
  ℕ, ◌+◌, max, String, Bool, true, false, not, ◌&&◌, ◌||◌, Option, none, some, List, [], ◌∷◌, ◌++◌,
  if◌then◌else◌, Result, ok, raise, any,
}
use foam_pilot.Workflow.Records.{
  WorkflowStage, run_finalized, WorkflowEventState, completed, interrupted, WorkflowState,
  run_interrupted, workflow, FailureRecord, WorkflowEvent, stage_name,
}
use foam_pilot.Workflow.Store.{LogFile, split_lines, empty_file}
use foam_pilot.Artifacts.Manifest.{Content, file, log, Files, Hashing, manifest_name, entries}
use foam_pilot.Jobs.Records.{
  JobState, RecoveryState, finalized, orphaned_stopped, ProcessIdentity, JobStatus,
}
use foam_pilot.Jobs.Recovery.{RecoveryDecision, alive, is_some}
use foam_pilot.Jobs.Worker.{no_update, update_status}

module _ (docs : Documents) where
  -- `_workflow_evidence`
  unfoldable pub evidence_from : List String → ℕ × Option String → ℕ × Option String
  unfolding note_event
  evidence_from [] acc = acc
  evidence_from (line ∷ lines) acc = evidence_from lines (note_event (docs.validate_event line) acc)

  -- `_has_interrupted_final_event`
  unfoldable pub has_interrupted_final_event : List String → Bool
  unfolding is_final_event
  has_interrupted_final_event lines = any (λ line. is_final_event (docs.validate_event line)) lines

  unfoldable pub allows : Option Content → Bool
  unfolding plain is_interrupted_run
  allows none = true
  allows (some content) = elim (plain (some content)) [
    | none ↦ false
    | some text ↦ elim (docs.load_summary text) [
      | none ↦ false
      | some summary ↦ is_interrupted_run summary.workflow_state
    ]
  ]

  unfoldable pub load_plain : Option String → Option (String × Option ℕ)
  load_plain none = none
  load_plain (some text) = docs.load_interruption text

  -- `_partial_recovery_payload`: the code and the time of a transaction of this function that was
  -- not finished
  unfoldable pub partial_recovery_payload : RunDirectory → Option (String × Option ℕ)
  unfolding plain own_code load_plain
  partial_recovery_payload d =
      let payload = own_code (load_plain (plain d.interruption)) in
      if is_some d.manifest || not (allows d.summary) then none else payload

  unfoldable pub task_of : Option String → String → String
  task_of none fallback = fallback
  task_of (some text) fallback = elim (docs.load_task_id text) [ none ↦ fallback | some id ↦ id ]

  -- `_append_interrupted_event`, unless the log has the event
  unfoldable pub append_event : ℕ → ℕ → Option LogFile → Option LogFile
  append_event sequence now events =
      if has_interrupted_final_event (lines_of events)
      then events
      else some (append_separated (docs.dump_event (final_event sequence now)) events)

  -- What the recovery has decided before it writes: its code and time, those of an unfinished
  -- transaction if there is one, and what the log says.
  pub record Plan : Type 0 where
    pub fresh : Bool
    pub code : String
    pub time : ℕ
    pub sequence : ℕ
    pub last_completed : Option String

  unfoldable pub plan_with : Bool → String → ℕ → RunDirectory → Plan
  plan_with fresh code time d =
      let found = evidence_from (lines_of d.events) (0, none) in
      record {
        fresh = fresh;
        code = code;
        time = time;
        sequence = found.0;
        last_completed = found.1;
      }

  unfoldable pub plan_from :
      Option (String × Option ℕ) → Host → JobStatus → RunDirectory → Result RecoverError Plan
  plan_from (some (code, some time)) host status d = ok (plan_with false code time d)
  plan_from (some (code, none)) host status d = raise invalid_timestamp
  plan_from none host status d =
      if is_some d.summary || is_some d.manifest || is_some d.interruption
      then raise terminal_evidence_exists
      else ok (plan_with true (fresh_code host status) host.now d)

  unfoldable pub write_interruption : Host → JobStatus → Plan → RunDirectory → RunDirectory
  write_interruption host status plan d = if not plan.fresh then d else record d {
    interruption =
        some (file (docs.dump_interruption (interruption_of host status plan.code plan.time)));
  }

  unfoldable pub write_event : Plan → RunDirectory → RunDirectory
  write_event plan d = record d { events = append_event (plan.sequence + 1) plan.time d.events }

  unfoldable pub summary_of : String → Plan → RunDirectory → RunSummary
  summary_of job_id plan d = record {
    task_id = task_of (plain (get "task.yaml" d.others)) job_id;
    workflow_state = run_interrupted;
    last_completed_stage = plan.last_completed;
    primary_failure = none;
    terminal_blocker = some (blocker_of plan.code);
    resume_allowed = false;
    message = "The interrupted local job was finalized without claiming CFD success.";
  }

  unfoldable pub write_summary : String → Plan → RunDirectory → RunDirectory
  write_summary job_id plan d =
      if is_some d.summary
      then d
      else record d { summary = some (file (docs.dump_summary (summary_of job_id plan d))) }

  -- `ArtifactStore.finalize`
  unfoldable pub write_manifest : RunDirectory → Result RecoverError RunDirectory
  write_manifest d = elim d.manifest [
    | some existing ↦ raise name_exists
    | none ↦ ok (record d {
      manifest = some (file (docs.hashing.dump (entries docs.hashing (files_of d))));
    })
  ]

  unfoldable pub all_but_manifest : String → Host → JobStatus → Plan → RunDirectory → RunDirectory
  all_but_manifest job_id host status plan d =
      write_summary job_id plan (write_event plan (write_interruption host status plan d))

  -- the end of the transaction, at the manifest and the status
  unfoldable pub seal :
      String
      → ℕ
      → JobStatus
      → RunDirectory
      → Result RecoverError RunDirectory
      → Result RecoverError JobStatus × RunDirectory
  seal code time status d (raise e) = (raise e, d)
  seal code time status d (ok d') = (ok (mark_interrupted code time time status), d')

  unfoldable pub carry_out :
      String
      → Host
      → JobStatus
      → RunDirectory
      → Result RecoverError Plan
      → Result RecoverError JobStatus × RunDirectory
  carry_out job_id host status d (raise e) = (raise e, d)
  carry_out job_id host status d (ok plan) =
      let d' = all_but_manifest job_id host status plan d in
      seal plan.code plan.time status d' (write_manifest d')

  -- what happens under the lock
  unfoldable pub recover_locked :
      String → Host → JobStatus → RunDirectory → Result RecoverError JobStatus × RunDirectory
  recover_locked job_id host status d =
      if not host.lock_free
      then (raise lock_unavailable, d)
      else if alive host.matches status.worker || alive host.matches status.current_child
      then (raise process_alive, d)
      else carry_out job_id host status d (plan_from (partial_recovery_payload d) host status d)

  unfoldable pub blocker_code : Option FailureRecord → String
  blocker_code none = "WORKER_INTERRUPTED"
  blocker_code (some f) = f.code

  -- the branch of a run that is finalized: only its status may still be behind
  unfoldable pub catch_up :
      Option RunSummary
      → Host
      → JobStatus
      → RunDirectory
      → Result RecoverError JobStatus × RunDirectory
  unfolding is_interrupted_run is_interrupted_job blocker_code
  catch_up none host status d = (raise summary_unreadable, d)
  catch_up (some summary) host status d =
      if not (is_interrupted_run summary.workflow_state)
      then (raise other_terminal_state, d)
      else if is_interrupted_job status.state
      then (ok status, d)
      else if alive host.matches status.worker || alive host.matches status.current_child
      then (raise process_alive, d)
      else if not host.lock_free
      then (raise lock_unavailable, d)
      else (
        ok (mark_interrupted (blocker_code summary.terminal_blocker) host.now host.later status),
        d,
      )

  unfoldable pub read_summary : Option Content → Option RunSummary
  unfolding plain
  read_summary content = elim (plain content) [ none ↦ none | some text ↦ docs.load_summary text ]

  -- `recover_finalize` with the decision of `reconcile_job`
  unfoldable pub recover_finalize :
      RecoveryDecision
      → String
      → Host
      → JobStatus
      → RunDirectory
      → Result RecoverError JobStatus × RunDirectory
  unfolding is_finalized is_orphaned_stopped
  recover_finalize decision job_id host status d =
      if is_finalized decision.state && is_some decision.run_dir
      then catch_up (read_summary d.summary) host status d
      else if not (is_orphaned_stopped decision.state)
          && not (is_some decision.run_dir && is_some (partial_recovery_payload d))
      then (raise (state_not_allowed decision.state), d)
      else if not (is_some decision.run_dir)
      then (raise run_unavailable, d)
      else recover_locked job_id host status d
