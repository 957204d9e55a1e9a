-- ===== src/Jobs/Finalization/Examples.antt =====
-- A run that its worker left without an event, for `recover_finalize` of src/foampilot/jobs/recovery.py.
use text.Mathlib.Text.{◌==◌}
use foam_pilot.Prelude.Lines.{has_break}
use foam_pilot.Prelude.Dict.{get}
use foam_pilot.Prelude.{if◌then◌else◌, ◌≡◌, refl, true, false, none, some, [], ◌∷◌, ok}
use foam_pilot.Jobs.Records.{
  running, JobStatus, orphaned_stopped, evidence_damaged, recover_finalize as recovering,
}
use foam_pilot.Workflow.Records.{run_interrupted}
use foam_pilot.Jobs.Recovery.{RecoveryDecision, alive}
use foam_pilot.Jobs.Finalization.{
  RunSummary, Documents, Host, final_event, blocker_of, fresh_code, starts_elsewhere, summary_of,
  plan_with, evidence_from, lines_of, task_of, plain, recover_finalize, mark_interrupted,
}
use foam_pilot.Jobs.Finalization.Restart.{
  IsFree, IsReadable, left, first_plan, crashed, event_written, recover_finalize-restarts,
}
use foam_pilot.Jobs.Finalization.Guards.{Guarded, recover_finalize-Guarded}

abbrev status : JobStatus
status = record {
  job_id = "job";
  revision = 3;
  state = running;
  worker = none;
  current_child = none;
  current_stage = some "EXECUTING";
  current_step_id = none;
  run_dir = some "run-1";
  started_at = some 1;
  last_heartbeat_at = some 2;
  finished_at = none;
  terminal_code = none;
}

abbrev host : Host
host = record {
  matches = λ p. true;
  lock_free = true;
  boot_id = "boot";
  now = 5;
  later = 6;
  log_offsets = [];
}

-- after a restart of the machine, and later
abbrev other_host : Host
other_host = record {
  matches = λ p. true;
  lock_free = true;
  boot_id = "other boot";
  now = 90;
  later = 91;
  log_offsets = [];
}

abbrev summary : RunSummary
summary = record {
  task_id = "job";
  workflow_state = run_interrupted;
  last_completed_stage = none;
  primary_failure = none;
  terminal_blocker = some (blocker_of "WORKER_INTERRUPTED");
  resume_allowed = false;
  message = "The interrupted local job was finalized without claiming CFD success.";
}

-- texts of which each kind has one value
abbrev docs : Documents
docs = record {
  dump_event = λ e. "event";
  validate_event = λ line. if line == "event" then some (final_event 1 5) else none;
  dump_interruption = λ i. "interruption";
  load_interruption = λ t. some ("WORKER_INTERRUPTED", some 5);
  dump_summary = λ s. "summary";
  load_summary = λ t. some summary;
  load_task_id = λ t. none;
  hashing = record {
    bytes = λ c. 1;
    sha256 = λ c. "digest";
    dump = λ d. "manifest";
    load = λ t. some [];
    follow = λ t. none;
  };
}

host-IsFree : IsFree docs host status
unfolding alive
host-IsFree = record { unlocked = refl; no_worker = refl; no_child = refl }

other_host-IsFree : IsFree docs other_host status
unfolding alive
other_host-IsFree = record { unlocked = refl; no_worker = refl; no_child = refl }

left-IsReadable : IsReadable docs "job" host status (left docs none [])
unfolding has_break plan_with evidence_from lines_of fresh_code starts_elsewhere summary_of task_of
    plain final_event get
left-IsReadable = record {
  event = (refl, refl);
  blank_line = refl;
  interruption = refl;
  summary = refl;
}

abbrev decision : RecoveryDecision
decision = record {
  state = orphaned_stopped;
  code = "JOB_ORPHANED_STOPPED";
  allowed_actions = recovering ∷ [];
  worker_alive = false;
  child_alive = false;
  writer_lock_held = false;
  run_dir = some ("run-1" ∷ []);
  manifest_issues = [];
}

-- what the next reconciliation decides once the interruption stands there alone
abbrev damaged : RecoveryDecision
damaged = record decision { state = evidence_damaged; code = "JOB_EVIDENCE_DAMAGED" }

recover_finalize-restarts_example :
    (recover_finalize docs damaged "job" other_host status (
        crashed docs event_written "job" host status
          (first_plan docs host status (left docs none []))
          (left docs none []))
      ≡ recover_finalize docs decision "job" host status (left docs none []))
    × ((recover_finalize docs decision "job" host status (left docs none [])).0
        ≡ ok (mark_interrupted (fresh_code host status) 5 5 status))
recover_finalize-restarts_example =
    recover_finalize-restarts docs event_written "job" host other_host status none [] decision
      damaged refl refl (λ h. cc) refl host-IsFree other_host-IsFree left-IsReadable

recover_finalize-Guarded_example :
    Guarded docs host status
      (left docs none [])
      (recover_finalize docs decision "job" host status (left docs none []))
recover_finalize-Guarded_example =
    recover_finalize-Guarded docs decision "job" host status (left docs none [])
