-- ===== src/Jobs/Recovery.antt =====
-- `reconcile_job` of src/foampilot/jobs/recovery.py and what it reads. The texts for the user,
-- `reason_zh` and `recovery_zh`, are left out. Times are milliseconds.
pub mod Actions
pub mod Files
mod Examples
use text.Mathlib.Text.{◌==◌}
use foam_pilot.Prelude.PosixPath
use foam_pilot.Prelude.{
  ℕ, ◌-◌, String, Bool, true, false, not, ◌&&◌, ◌||◌, Option, none, some, List, [], ◌∷◌, ◌++◌, leb,
  ltb, length, if◌then◌else◌, Result, ok, raise, any,
}
use foam_pilot.Jobs.Records.{
  JobOperation, solve, resume, rerun, JobState, cancelled, job_failed, RecoveryState, run_alive,
  unresponsive, orphaned_active, orphaned_stopped, finalized, evidence_damaged, RecoveryAction,
  attach, inspect, cancel, terminate_orphan, recover_finalize, strict_resume, rerun_job, report,
  ProcessIdentity, JobStatus, is_active, is_terminal,
}

-- `PurePosixPath` of a run directory, below the job root
pub record RunPath : Type 0 where
  pub is_absolute : Bool
  pub parts : List String

-- What the file system says: of a path below the job root, by its parts, and of the terminal
-- evidence of a run. `children` are the entries that match `run-*`, sorted.
pub record FileSystem : Type 0 where
  pub is_symlink : List String → Bool
  pub resolves_inside : List String → Bool
  pub is_dir : List String → Bool
  pub children : List String

-- what `ArtifactStore` finds at a run: `none` if reading the summary or the check raises, else
-- the issues of the manifest and whether the summary allows a resume
pub record Evidence : Type 0 where
  pub summary_exists : Bool
  pub manifest_exists : Bool
  pub summary_is_file : Bool
  pub manifest_is_file : Bool
  pub verified : Option (List String × Bool)

pub prefixes_from : List String → List String → List (List String)
prefixes_from base [] = []
prefixes_from base (part ∷ parts) = (base ++ part ∷ []) ∷ prefixes_from (base ++ part ∷ []) parts

-- the loop of `_run_path` over the parts: whether a step on the way is a symbolic link
pub has_symlink : FileSystem → List String → Bool
unfolding prefixes_from
has_symlink fs parts = any fs.is_symlink (prefixes_from [] parts)

real_children : FileSystem → List String → List (List String)
real_children fs [] = []
real_children fs (name ∷ names) =
    let rest = real_children fs names in
    if fs.is_dir (name ∷ []) && not (fs.is_symlink (name ∷ [])) then (name ∷ []) ∷ rest else rest

only_child : List (List String) → Option (List String) × List String
only_child [] = (none, [])
only_child (c ∷ []) = (some c, [])
only_child _ = (none, "job root contains multiple unbound runs" ∷ [])

-- `_run_path`: the run directory and the issues
unfoldable pub run_path : FileSystem → Option RunPath → Option (List String) × List String
unfolding has_symlink real_children only_child
run_path fs none = only_child (real_children fs fs.children)
run_path fs (some p) =
    if p.is_absolute || any (λ part. part == "..") p.parts
    then (none, "job status run path escapes the job root" ∷ [])
    else if has_symlink fs p.parts
    then (none, "job status run path contains a symbolic link" ∷ [])
    else if not (fs.resolves_inside p.parts) || not (fs.is_dir p.parts)
    then (none, "job status run path is unavailable" ∷ [])
    else (some p.parts, [])

pub record ArtifactState : Type 0 where
  pub valid : Bool
  pub issues : List String
  pub resumable : Bool

checked : Option (List String × Bool) → ArtifactState
checked none = record { valid = false; issues = "invalid terminal evidence" ∷ []; resumable = true }
checked (some ([], allowed)) = record { valid = true; issues = []; resumable = allowed }
checked (some (issue ∷ issues, allowed)) = record {
  valid = false;
  issues = issue ∷ issues;
  resumable = true;
}

-- `_artifact_state`
unfoldable pub artifact_state : (List String → Evidence) → Option (List String) → ArtifactState
unfolding checked
artifact_state evidence none = record { valid = false; issues = []; resumable = false }
artifact_state evidence (some run) =
    let e = evidence run in
    if not e.summary_exists && not e.manifest_exists
    then record { valid = false; issues = []; resumable = false }
    else if not e.summary_is_file || not e.manifest_is_file
    then record {
      valid = false;
      issues = "terminal summary/manifest pair is incomplete" ∷ [];
      resumable = true;
    }
    else checked e.verified

pub record RecoveryDecision : Type 0 where
  pub state : RecoveryState
  pub code : String
  pub allowed_actions : List RecoveryAction
  pub worker_alive : Bool
  pub child_alive : Bool
  pub writer_lock_held : Bool
  pub run_dir : Option (List String)
  pub manifest_issues : List String

-- the facts that `reconcile_job` gathers before it decides
pub record Facts : Type 0 where
  pub operation : JobOperation
  pub state : JobState
  pub terminal_code : Option String
  pub worker_alive : Bool
  pub child_alive : Bool
  pub lock_held : Bool
  pub run_dir : Option (List String)
  pub issues : List String
  pub artifact : ArtifactState
  pub control_failure_recorded : Bool
  pub stale : Bool

abbrev decision :
    RecoveryState
    → String
    → List RecoveryAction
    → Facts
    → Option (List String)
    → List String
    → RecoveryDecision
decision state code actions f run_dir manifest_issues = record {
  state = state;
  code = code;
  allowed_actions = actions;
  worker_alive = f.worker_alive;
  child_alive = f.child_alive;
  writer_lock_held = f.lock_held;
  run_dir = run_dir;
  manifest_issues = manifest_issues;
}

-- the branch of a worker that is alive, holds the lock and has an active state
unfoldable pub decide_alive : Facts → RecoveryDecision
decide_alive f =
    decision (if f.stale then unresponsive else run_alive)
      (if f.stale then "JOB_HEARTBEAT_STALE" else "JOB_RUNNING") (attach ∷ cancel ∷ []) f f.run_dir
      []

-- the branch of a valid terminal pair of summary and manifest
unfoldable pub decide_finalized : Facts → RecoveryDecision
decide_finalized f =
    decision finalized "JOB_FINALIZED"
      (if f.artifact.resumable
        then report ∷ strict_resume ∷ rerun_job ∷ []
        else report ∷ rerun_job ∷ [])
      f f.run_dir []

or_invalid : List String → List String
or_invalid [] = "terminal run is invalid" ∷ []
or_invalid (i ∷ issues) = i ∷ issues

unfoldable pub decide_damaged : Facts → RecoveryDecision
unfolding or_invalid
decide_damaged f =
    decision evidence_damaged "JOB_EVIDENCE_DAMAGED" (inspect ∷ []) f f.run_dir
      (or_invalid f.issues)

-- `_RUN_PRODUCING_OPERATIONS`
unfoldable pub produces_run : JobOperation → Bool
produces_run solve = true
produces_run resume = true
produces_run rerun = true
produces_run _ = false

is_cancelled : JobState → Bool
is_cancelled cancelled = true
is_cancelled _ = false

is_failed : JobState → Bool
is_failed job_failed = true
is_failed _ = false

has_code : Option String → String → Bool
has_code none code = false
has_code (some c) code = c == code

-- the branch of a terminal state with no run directory
unfoldable pub decide_without_run : Facts → RecoveryDecision
unfolding produces_run is_cancelled is_failed has_code
decide_without_run f =
    if is_cancelled f.state && has_code f.terminal_code "USER_CANCELLED"
    then decision finalized "USER_CANCELLED" (inspect ∷ []) f none []
    else if is_failed f.state && has_code f.terminal_code "JOB_BOOTSTRAP_FAILED"
    then decision finalized "JOB_BOOTSTRAP_FAILED" (inspect ∷ []) f none []
    else if is_failed f.state && has_code f.terminal_code "JOB_STATUS_WRITE_FAILED"
    then decision finalized "JOB_STATUS_WRITE_FAILED" (inspect ∷ []) f none []
    else if produces_run f.operation
    then decision evidence_damaged "JOB_TERMINAL_RUN_MISSING" (inspect ∷ []) f none
        ("terminal solve-like job has no run" ∷ [])
    else decision finalized "JOB_FINALIZED_WITHOUT_RUN" (report ∷ []) f none []

-- the branch in which nothing of the job is alive
unfoldable pub decide_stopped : Facts → RecoveryDecision
decide_stopped f =
    if f.control_failure_recorded
    then decision orphaned_stopped "JOB_STATUS_WRITE_FAILED"
        (elim f.run_dir [ none ↦ inspect ∷ [] | some run ↦ recover_finalize ∷ [] ]) f f.run_dir []
    else elim f.run_dir [
      | none ↦ decision orphaned_stopped "JOB_ORPHANED_STOPPED_WITHOUT_RUN" (inspect ∷ []) f none []
      | some run ↦
          decision orphaned_stopped "JOB_ORPHANED_STOPPED" (recover_finalize ∷ []) f (some run) []
    ]

abbrev pub is_some {ℓ} : {A : Type ℓ} → Option A → Bool
is_some none = false
is_some (some a) = true

abbrev non_empty {ℓ} : {A : Type ℓ} → List A → Bool
non_empty [] = false
non_empty (a ∷ l) = true

-- the branches of `reconcile_job`, in its order
unfoldable pub decide : Facts → RecoveryDecision
decide f =
    if f.worker_alive && f.lock_held && is_active f.state
    then decide_alive f
    else if f.child_alive && not f.worker_alive && not f.lock_held
    then decision orphaned_active "JOB_ORPHANED_ACTIVE" (inspect ∷ terminate_orphan ∷ []) f
        f.run_dir []
    else if f.artifact.valid
    then decide_finalized f
    else if non_empty f.issues || is_terminal f.state && is_some f.run_dir
    then decide_damaged f
    else if is_terminal f.state && not (is_some f.run_dir)
    then decide_without_run f
    else if not f.worker_alive && not f.child_alive && not f.lock_held
    then decide_stopped f
    else decision evidence_damaged "JOB_OWNERSHIP_INCONSISTENT" (inspect ∷ []) f f.run_dir
        ("job ownership evidence is inconsistent" ∷ [])

-- what `reconcile_job` reads: the receipt, the status, the lock, the processes, the files, and the
-- job ID and code of a readable `worker-control-failure.json`
pub record Observed : Type 0 where
  pub spec_job_id : String
  pub operation : JobOperation
  pub status : JobStatus
  pub lock_held : Bool
  pub identity_matches : ProcessIdentity → Bool
  pub files : FileSystem
  pub evidence : List String → Evidence
  pub control_failure : Option (String × String)

pub data ReconcileError : Type 0 where
  threshold_not_positive ids_differ : ReconcileError

unfoldable pub alive : (ProcessIdentity → Bool) → Option ProcessIdentity → Bool
alive matches none = false
alive matches (some p) = matches p

unfoldable pub posix_run_path : Option String → Option RunPath
posix_run_path none = none
posix_run_path (some p) =
    some (record { is_absolute = PosixPath.is_absolute p; parts = PosixPath.parts p })

control_failed : String → Option (String × String) → Bool
control_failed job_id none = false
control_failed job_id (some (id, code)) = id == job_id && code == "JOB_STATUS_WRITE_FAILED"

-- `heartbeat is None or now - heartbeat > heartbeat_stale_seconds`
unfoldable pub is_stale : Option ℕ → ℕ → ℕ → Bool
is_stale none stale_after now = true
is_stale (some heartbeat) stale_after now = ltb stale_after (now - heartbeat)

unfoldable pub gather : Observed → ℕ → ℕ → Facts
unfolding posix_run_path control_failed
gather o stale_after now =
    let found = run_path o.files (posix_run_path o.status.run_dir) in
    let artifact = artifact_state o.evidence found.0 in
    record {
      operation = o.operation;
      state = o.status.state;
      terminal_code = o.status.terminal_code;
      worker_alive = alive o.identity_matches o.status.worker;
      child_alive = alive o.identity_matches o.status.current_child;
      lock_held = o.lock_held;
      run_dir = found.0;
      issues = found.1 ++ artifact.issues;
      artifact = artifact;
      control_failure_recorded = control_failed o.spec_job_id o.control_failure;
      stale = is_stale o.status.last_heartbeat_at stale_after now;
    }

unfoldable pub reconcile_job : Observed → ℕ → ℕ → Result ReconcileError RecoveryDecision
reconcile_job o stale_after now =
    if leb stale_after 0
    then raise threshold_not_positive
    else if not (o.status.job_id == o.spec_job_id)
    then raise ids_differ
    else ok (decide (gather o stale_after now))
