-- ===== src/Jobs/Records.antt =====
-- src/foampilot/jobs/models.py: the contracts of one local job. Times are milliseconds.
use foam_pilot.Prelude.{ℕ, String, Bool, true, false, Option}

pub data JobOperation : Type 0 where
  draft plan solve resume rerun confirm : JobOperation

pub data JobState : Type 0 where
  submitted starting running cancel_requested cancelling : JobState
  cancelled completed job_failed interrupted : JobState

pub data RecoveryState : Type 0 where
  run_alive unresponsive orphaned_active orphaned_stopped finalized evidence_damaged : RecoveryState

pub data RecoveryAction : Type 0 where
  attach inspect cancel terminate_orphan recover_finalize strict_resume rerun_job report :
      RecoveryAction

-- `ProcessIdentity`
pub record ProcessIdentity : Type 0 where
  pub pid : ℕ
  pub pgid : ℕ
  pub start_token : ℕ
  pub boot_id : String

pub record JobStatus : Type 0 where
  pub job_id : String
  pub revision : ℕ
  pub state : JobState
  pub worker : Option ProcessIdentity
  pub current_child : Option ProcessIdentity
  pub current_stage : Option String
  pub current_step_id : Option String
  pub run_dir : Option String
  pub started_at : Option ℕ
  pub last_heartbeat_at : Option ℕ
  pub finished_at : Option ℕ
  pub terminal_code : Option String

-- `_ACTIVE_STATES` of recovery.py
unfoldable pub is_active : JobState → Bool
is_active submitted = true
is_active starting = true
is_active running = true
is_active cancel_requested = true
is_active cancelling = true
is_active _ = false

-- `_TERMINAL_STATES` of recovery.py
unfoldable pub is_terminal : JobState → Bool
is_terminal cancelled = true
is_terminal completed = true
is_terminal job_failed = true
is_terminal interrupted = true
is_terminal _ = false
