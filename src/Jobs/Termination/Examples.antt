-- ===== src/Jobs/Termination/Examples.antt =====
-- A child that goes after a while, for `terminate_orphan` of src/foampilot/jobs/recovery.py.
use foam_pilot.Prelude.{ℕ, ◌+◌, true, none, some, ltb, if◌then◌else◌, arith}
use foam_pilot.Jobs.Records.{running, orphaned_active, JobStatus}
use foam_pilot.Jobs.Termination.{System, delivered, no_such_group, terminate_orphan}
use foam_pilot.Jobs.Termination.Safety.{IsClock, Ends, terminate_orphan-Ends}

-- the world is the clock, and the group is gone at 115
abbrev system : System ℕ
system = record {
  matches = λ p w. (true, w);
  own_group = 1;
  take_lock = λ w. (true, w);
  kill = λ signal pgid w. (delivered, w);
  probe = λ pgid w. ((if ltb w 115 then delivered else no_such_group), w);
  reap = λ pid w. w;
  clock = λ w. w;
  sleep = λ n w. w + n;
}

abbrev status : JobStatus
status = record {
  job_id = "job";
  revision = 3;
  state = running;
  worker = none;
  current_child = some (record { pid = 40; pgid = 40; start_token = 7; boot_id = "boot" });
  current_stage = some "EXECUTING";
  current_step_id = none;
  run_dir = some "run-1";
  started_at = some 1;
  last_heartbeat_at = some 2;
  finished_at = none;
  terminal_code = none;
}

system-IsClock : IsClock system
system-IsClock = record {
  sleeps = λ n w. omega arith;
  probes = λ pgid w. omega arith;
  reaps = λ pid w. omega arith;
}

terminate_orphan-Ends_example :
    let r = terminate_orphan system 20 orphaned_active status 100 in
    Ends system orphaned_active status r.0 r.1
terminate_orphan-Ends_example =
    terminate_orphan-Ends system 20 orphaned_active status 100 system-IsClock
