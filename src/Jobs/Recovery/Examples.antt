-- ===== src/Jobs/Recovery/Examples.antt =====
-- A stopped solve with a damaged control file, for `reconcile_job` of
-- src/foampilot/jobs/recovery.py, and the theorems about it at concrete inputs.
use foam_pilot.Prelude.PosixPath.{segments, kept, parts, is_absolute}
use foam_pilot.Prelude.{◌≡◌, ◌≢◌, ◌↔◌, refl, String, true, false, none, some, List, [], ◌∷◌, ok}
use foam_pilot.Jobs.Records.{
  solve, running, completed, JobStatus, is_active, is_terminal, terminate_orphan, recover_finalize,
  strict_resume,
}
use foam_pilot.Jobs.Recovery.{
  FileSystem, Evidence, Observed, Facts, RunPath, decide, gather, reconcile_job, posix_run_path,
  run_path, artifact_state, alive, is_stale, decide_finalized,
}
use foam_pilot.Jobs.Recovery.Actions.{
  offers, same_action, terminate_orphan-exactly, recover_finalize-exactly,
}
use foam_pilot.Jobs.Recovery.Files.{
  IsInside, IsResumable, run_dir-IsInside, strict_resume-IsResumable,
}

abbrev files : FileSystem
files = record {
  is_symlink = λ p. false;
  resolves_inside = λ p. true;
  is_dir = λ p. true;
  children = "run-1" ∷ [];
}

abbrev sound : Evidence
sound = record {
  summary_exists = true;
  manifest_exists = true;
  summary_is_file = true;
  manifest_is_file = true;
  verified = some ([], true);
}

abbrev status : JobStatus
status = record {
  job_id = "job-1";
  revision = 7;
  state = completed;
  worker = none;
  current_child = none;
  current_stage = none;
  current_step_id = none;
  run_dir = some "run-1";
  started_at = some 1000;
  last_heartbeat_at = some 5000;
  finished_at = some 6000;
  terminal_code = none;
}

abbrev observed : Observed
observed = record {
  spec_job_id = "job-1";
  operation = solve;
  status = status;
  lock_held = false;
  identity_matches = λ p. false;
  files = files;
  evidence = λ run. sound;
  control_failure = none;
}

-- the facts of `observed`, written out
abbrev facts : Facts
facts = record {
  operation = solve;
  state = completed;
  terminal_code = none;
  worker_alive = false;
  child_alive = false;
  lock_held = false;
  run_dir = some ("run-1" ∷ []);
  issues = [];
  artifact = record { valid = true; issues = []; resumable = true };
  control_failure_recorded = false;
  stale = true;
}

-- the facts of a run whose worker died
abbrev stopped : Facts
stopped = record facts {
  state = running;
  artifact = record { valid = false; issues = []; resumable = false };
}

abbrev orphan : Facts
orphan = record stopped { child_alive = true }

terminate_orphan-exactly_example :
    (offers terminate_orphan (decide orphan) ≡ true)
    ↔ ((true ≡ true) × (false ≡ false) × (false ≡ false))
terminate_orphan-exactly_example = terminate_orphan-exactly orphan

recover_finalize-exactly_example : (offers recover_finalize (decide stopped) ≡ true) ↔ (
    (false ≡ false)
    × (false ≡ false)
    × (false ≡ false)
    × (is_terminal running ≡ false)
    × (stopped.run_dir ≢ none)
    × (stopped.issues ≡ [])
    × (false ≡ false))
recover_finalize-exactly_example = recover_finalize-exactly stopped

observed-decision : reconcile_job observed 30000 90000 ≡ ok (decide facts)
unfolding reconcile_job gather posix_run_path run_path artifact_state alive is_stale parts
    is_absolute segments kept
observed-decision = refl

facts-run_dir : (decide facts).run_dir ≡ some ("run-1" ∷ [])
unfolding decide decide_finalized is_active is_terminal
facts-run_dir = refl

abbrev run_1 : RunPath
run_1 = record { is_absolute = false; parts = "run-1" ∷ [] }

observed-path : posix_run_path (some "run-1") ≡ some run_1
unfolding posix_run_path parts is_absolute segments kept
observed-path = refl

run_dir-IsInside_example : IsInside files run_1 × (run_1.parts ≡ run_1.parts)
run_dir-IsInside_example =
    run_dir-IsInside observed 30000 90000 {d = decide facts} {p = run_1} {run = run_1.parts}
      observed-decision observed-path facts-run_dir

facts-offer : offers strict_resume (decide facts) ≡ true
unfolding decide decide_finalized is_active is_terminal same_action
facts-offer = refl

strict_resume-IsResumable_example :
    (run : List String) × ((decide facts).run_dir ≡ some run) × IsResumable sound
strict_resume-IsResumable_example =
    strict_resume-IsResumable observed 30000 90000 {d = decide facts} observed-decision facts-offer
