-- ===== src/Jobs/Worker.antt =====
-- src/foampilot/jobs/worker.py and the status file of src/foampilot/jobs/store.py: what the main
-- thread, the heartbeat thread and the callers of a job write, as interleaved steps. `_thread_lock`
-- makes each `update_status` one step; a heartbeat is two, since it reads before it writes.
pub mod Terminal
mod Examples
use Prim.Native.String.{◌++◌ as str_append}
use text.Mathlib.Text.{◌==◌}
use foam_pilot.Prelude.{
  ℤ, pos, is_pos, ℕ, suc, ◌+◌, ℤ, pos, String, Bool, true, false, not, ◌&&◌, ◌||◌, Option, none,
  some, List, [], ◌∷◌, nat_beq, if◌then◌else◌,
}
use foam_pilot.Jobs.Records.{
  JobState, starting, running, cancel_requested, cancelling, cancelled, completed, job_failed,
  ProcessIdentity, JobStatus, is_terminal,
}

-- the keyword arguments of `update_status`; a field without a value is not given
pub record StatusUpdate : Type 0 where
  pub state : Option JobState
  pub current_child : Option (Option ProcessIdentity)
  pub current_stage : Option String
  pub current_step_id : Option String
  pub run_dir : Option String
  pub last_heartbeat_at : Option ℕ
  pub finished_at : Option ℕ
  pub terminal_code : Option String

abbrev pub no_update : StatusUpdate
no_update = record {
  state = none;
  current_child = none;
  current_stage = none;
  current_step_id = none;
  run_dir = none;
  last_heartbeat_at = none;
  finished_at = none;
  terminal_code = none;
}

abbrev pub given_or {ℓ} : {A : Type ℓ} → Option A → A → A
given_or none old = old
given_or (some new) old = new

abbrev pub given_or_else {ℓ} : {A : Type ℓ} → Option A → Option A → Option A
given_or_else none old = old
given_or_else (some new) old = some new

-- `update_status`, when the write succeeds
unfoldable pub update_status : StatusUpdate → JobStatus → JobStatus
update_status u s = record s {
  revision = s.revision + 1;
  state = given_or u.state s.state;
  current_child = given_or u.current_child s.current_child;
  current_stage = given_or_else u.current_stage s.current_stage;
  current_step_id = given_or_else u.current_step_id s.current_step_id;
  run_dir = given_or_else u.run_dir s.run_dir;
  last_heartbeat_at = given_or_else u.last_heartbeat_at s.last_heartbeat_at;
  finished_at = given_or_else u.finished_at s.finished_at;
  terminal_code = given_or_else u.terminal_code s.terminal_code;
}

-- `emergency_fail_status`
unfoldable pub emergency_fail_status : ℕ → JobStatus → JobStatus
emergency_fail_status now s = record s {
  revision = s.revision + 1;
  state = job_failed;
  current_child = none;
  finished_at = some now;
  last_heartbeat_at = some now;
  terminal_code = some "JOB_STATUS_WRITE_FAILED";
}

-- `next_state` of the heartbeat, of a state that is not terminal
unfoldable pub next_state : Bool → JobState → JobState
next_state cancel starting = if cancel then cancel_requested else starting
next_state cancel running = if cancel then cancel_requested else running
next_state cancel state = state

-- how the command line's run ended, in the order of the tests
pub record Ending : Type 0 where
  pub status_write_failed : Bool
  pub exit_code : ℤ
  pub process_cancelled : Bool
  pub internal_error : Bool

unfoldable pub terminal_state : Ending → JobState
terminal_state e =
    if e.status_write_failed
    then job_failed
    else if is_pos e.exit_code 130 || e.process_cancelled
    then cancelled
    else if e.internal_error || is_pos e.exit_code 5
    then job_failed
    else completed

-- `exit_text` is the decimal text of the exit code
unfoldable pub terminal_code : Ending → String → String
terminal_code e exit_text =
    if e.status_write_failed
    then "JOB_STATUS_WRITE_FAILED"
    else if is_pos e.exit_code 130 || e.process_cancelled
    then "USER_CANCELLED"
    else if e.internal_error || is_pos e.exit_code 5
    then "JOB_WORKER_FAILED"
    else str_append "CLI_EXIT_" exit_text

-- what the listener reads of an `ActivityEvent`
pub record ActivityEvent : Type 0 where
  pub kind : String
  pub state : String
  pub stage : Option String
  pub step_id : Option String
  pub run_id : Option String
  pub pid : Option ℕ

-- what the listener asks the system: whether a run is a directory of the job and no symbolic link,
-- and the identity of a process, if it can be read
pub record System : Type 0 where
  pub is_run_dir : String → Bool
  pub process_identity : ℕ → Option ProcessIdentity

ends_process : String → Bool
ends_process state =
    state == "completed" || state == "failed" || state == "timed_out" || state == "cancelled"

child_change : System → ActivityEvent → ℕ → Option (Option ProcessIdentity)
unfolding ends_process
child_change system event pid =
    if event.state == "started"
    then elim (system.process_identity pid) [ none ↦ none | some i ↦ some (some i) ]
    else if ends_process event.state
    then some none
    else none

child_of : System → ActivityEvent → Option (Option ProcessIdentity)
unfolding child_change
child_of system event = elim event.pid [
  | none ↦ none
  | some pid ↦ if event.kind == "command" then child_change system event pid else none
]

run_of : System → Option String → Option String
run_of system none = none
run_of system (some run_id) = if system.is_run_dir run_id then some run_id else none

-- the updates of `_StatusListener.__call__`
unfoldable pub updates_of : System → ActivityEvent → StatusUpdate
unfolding child_of run_of
updates_of system event = record no_update {
  state = if event.state == "cancelled" then some cancelling else none;
  current_child = child_of system event;
  current_stage = event.stage;
  current_step_id = event.step_id;
  run_dir = run_of system event.run_id;
}

abbrev is_given {ℓ} : {A : Type ℓ} → Option A → Bool
is_given none = false
is_given (some a) = true

-- `if updates:`, for the fields that the listener gives
unfoldable pub gives_any : StatusUpdate → Bool
gives_any u =
    is_given u.state
    || is_given u.current_child
    || is_given u.current_stage
    || is_given u.current_step_id
    || is_given u.run_dir

-- the files that the threads share, and what the heartbeat holds between its read and its write
pub record JobWorld : Type 0 where
  pub status : JobStatus
  pub cancel_requested : Bool
  pub beats : Bool
  pub pending : Option JobState

-- The steps. `written` says whether one of the `_STATUS_WRITE_ATTEMPTS` writes of a critical update
-- succeeded, `emergency` whether the emergency write after it did; times are `_utc_now()`.
pub data Step : Type 0 where
  ask_cancel : Step
  beat_read : Step
  beat_write : (now : ℕ) (written : Bool) → Step
  listen : ActivityEvent → (written : Bool) → Step
  finish : Ending → (exit_text : String) (now later : ℕ) (written emergency : Bool) → Step

-- the first half of a round of `heartbeat`
unfoldable pub read_beat : JobWorld → JobWorld
read_beat w =
    if is_terminal w.status.state
    then record w { beats = false }
    else record w { pending = some (next_state w.cancel_requested w.status.state) }

-- the second half: the update, or the end of the thread
unfoldable pub write_beat : ℕ → Bool → JobState → JobWorld → JobWorld
write_beat now true state w = record w {
  status =
      update_status (record no_update { state = some state; last_heartbeat_at = some now })
        w.status;
  pending = none;
}
write_beat now false state w = record w { beats = false; pending = none }

unfoldable pub hear : System → ActivityEvent → Bool → JobWorld → JobWorld
unfolding updates_of
hear system event written w =
    if gives_any (updates_of system event) && written
    then record w { status = update_status (updates_of system event) w.status }
    else w

-- the last update of `run_local_job`, at `now`, and the emergency write, at `later`
unfoldable pub end_job : Ending → String → ℕ → ℕ → Bool → Bool → JobStatus → JobStatus
end_job e exit_text now later true emergency s =
    update_status
      (record no_update {
        state = some (terminal_state e);
        current_child = some none;
        last_heartbeat_at = some now;
        finished_at = some now;
        terminal_code = some (terminal_code e exit_text);
      })
      s
end_job e exit_text now later false true s = emergency_fail_status later s
end_job e exit_text now later false false s = s

unfoldable pub step : System → JobWorld → Step → JobWorld
step system w ask_cancel = record w { cancel_requested = true }
step system w beat_read = elim w.pending [
  | none ↦ if w.beats then read_beat w else w
  | some state ↦ w
]
step system w (beat_write now written) = elim w.pending [
  | none ↦ w
  | some state ↦ write_beat now written state w
]
step system w (listen event written) = hear system event written w
step system w (finish e exit_text now later written emergency) = record w {
  status = end_job e exit_text now later written emergency w.status;
}

unfoldable pub run_steps : System → JobWorld → List Step → JobWorld
run_steps system w [] = w
run_steps system w (s ∷ steps) = run_steps system (step system w s) steps
