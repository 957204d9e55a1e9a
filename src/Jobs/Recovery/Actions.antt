-- ===== src/Jobs/Recovery/Actions.antt =====
-- When `reconcile_job` of src/foampilot/jobs/recovery.py offers each action.
use foam_pilot.Prelude.{◌≡◌, ◌≢◌, ◌↔◌, Bool, true, false, not, ◌&&◌, ◌||◌, none, [], arith, any}
use foam_pilot.Jobs.Records.{
  RecoveryAction, attach, inspect, cancel, terminate_orphan, recover_finalize, strict_resume,
  rerun_job, report, is_active, is_terminal, JobState,
}
use foam_pilot.Jobs.Recovery.{
  Facts, RecoveryDecision, decide, decide_alive, decide_finalized, decide_damaged,
  decide_without_run, decide_stopped, is_some,
}

-- whether two actions are one
unfoldable pub same_action : RecoveryAction → RecoveryAction → Bool
same_action attach attach = true
same_action inspect inspect = true
same_action cancel cancel = true
same_action terminate_orphan terminate_orphan = true
same_action recover_finalize recover_finalize = true
same_action strict_resume strict_resume = true
same_action rerun_job rerun_job = true
same_action report report = true
same_action _ _ = false

abbrev pub offers : RecoveryAction → RecoveryDecision → Bool
offers a d = any (same_action a) d.allowed_actions

-- what a decision offers of the four actions that change a job or build on its evidence
abbrev pub Offers : (cancels terminates finalizes resumes : Bool) → RecoveryDecision → Type 0
Offers cancels terminates finalizes resumes d =
    (offers cancel d ≡ cancels)
    × (offers attach d ≡ cancels)
    × (offers terminate_orphan d ≡ terminates)
    × (offers recover_finalize d ≡ finalizes)
    × (offers strict_resume d ≡ resumes)
    × (d.allowed_actions ≢ [])

module _ (f : Facts) where
  decide_alive-Offers : Offers true false false false (decide_alive f)
  unfolding decide_alive same_action
  decide_alive-Offers = ground arith

  decide_finalized-Offers : Offers false false false f.artifact.resumable (decide_finalized f)
  unfolding decide_finalized same_action
  decide_finalized-Offers = ground arith

  decide_damaged-Offers : Offers false false false false (decide_damaged f)
  unfolding decide_damaged same_action
  decide_damaged-Offers = ground arith

  pub decide_without_run-Offers : Offers false false false false (decide_without_run f)
  unfolding decide_without_run same_action
  decide_without_run-Offers = ground arith

  decide_stopped-Offers : Offers false false (is_some f.run_dir) false (decide_stopped f)
  unfolding decide_stopped same_action
  decide_stopped-Offers = ground arith

active-not_terminal : (s : JobState) → is_active s ≡ true → is_terminal s ≡ false
unfolding is_active is_terminal
active-not_terminal s h = ground arith

-- The signals that end a process group are offered exactly when the recorded child lives, its
-- worker does not, and nobody holds the writer lock.
pub terminate_orphan-exactly :
    (f : Facts)
    → (offers terminate_orphan (decide f) ≡ true)
      ↔ ((f.child_alive ≡ true) × (f.worker_alive ≡ false) × (f.lock_held ≡ false))
unfolding decide same_action
terminate_orphan-exactly f = ground (
  arith,
  decide_alive-Offers f,
  decide_finalized-Offers f,
  decide_damaged-Offers f,
  decide_without_run-Offers f,
  decide_stopped-Offers f,
  active-not_terminal f.state,
)

-- Closing a run as interrupted is offered exactly when the worker and the child are gone, nobody
-- holds the lock, the job has not reached a terminal state, and there is a run without issues and
-- without valid terminal evidence.
pub recover_finalize-exactly :
    (f : Facts)
    → (offers recover_finalize (decide f) ≡ true) ↔ (
        (f.worker_alive ≡ false)
        × (f.child_alive ≡ false)
        × (f.lock_held ≡ false)
        × (is_terminal f.state ≡ false)
        × (f.run_dir ≢ none)
        × (f.issues ≡ [])
        × (f.artifact.valid ≡ false))
unfolding decide same_action
recover_finalize-exactly f = ground (
  arith,
  decide_alive-Offers f,
  decide_finalized-Offers f,
  decide_damaged-Offers f,
  decide_without_run-Offers f,
  decide_stopped-Offers f,
  active-not_terminal f.state,
)

-- whether the job is supervised, or its child lives without supervision
abbrev pub runs_still : Facts → Bool
runs_still f =
    (f.worker_alive && f.lock_held && is_active f.state)
    || (f.child_alive && not f.worker_alive && not f.lock_held)

-- A strict resume is offered exactly for a run with valid terminal evidence that allows it, and not
-- while the job still runs; observing and cancelling exactly while a worker that holds the lock
-- runs the job.
pub resume_attach-exactly :
    (f : Facts)
    → ((offers strict_resume (decide f) ≡ true)
        ↔ ((f.artifact.valid ≡ true) × (f.artifact.resumable ≡ true) × (runs_still f ≡ false)))
      × ((offers cancel (decide f) ≡ true)
          ↔ ((f.worker_alive ≡ true) × (f.lock_held ≡ true) × (is_active f.state ≡ true)))
      × (offers attach (decide f) ≡ offers cancel (decide f))
unfolding decide same_action
resume_attach-exactly f = ground (
  arith,
  decide_alive-Offers f,
  decide_finalized-Offers f,
  decide_damaged-Offers f,
  decide_without_run-Offers f,
  decide_stopped-Offers f,
  active-not_terminal f.state,
)

-- At most one of the four actions that change a job or build on its evidence is offered, and some
-- action always is.
pub actions_exclusive :
    (f : Facts)
    → ((decide f).allowed_actions ≢ [])
      × (offers terminate_orphan (decide f) ≡ true
          → (offers recover_finalize (decide f) ≡ false)
            × (offers strict_resume (decide f) ≡ false)
            × (offers cancel (decide f) ≡ false))
      × (offers recover_finalize (decide f) ≡ true
          → (offers strict_resume (decide f) ≡ false) × (offers cancel (decide f) ≡ false))
      × (offers strict_resume (decide f) ≡ true → offers cancel (decide f) ≡ false)
unfolding decide same_action
actions_exclusive f = ground (
  arith,
  decide_alive-Offers f,
  decide_finalized-Offers f,
  decide_damaged-Offers f,
  decide_without_run-Offers f,
  decide_stopped-Offers f,
  active-not_terminal f.state,
)
