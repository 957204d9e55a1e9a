-- ===== src/Jobs/Worker/Examples.antt =====
-- A job that ends while its heartbeat is about to write, for src/foampilot/jobs/worker.py, and the
-- theorems about the status at it.
use foam_pilot.Prelude.{pos, ◌+◌, ◌≡◌, ◌≢◌, ◌↔◌, refl, true, false, some, none, List, [], ◌∷◌, All}
use foam_pilot.Jobs.Records.{running, completed, JobStatus, is_terminal}
use foam_pilot.Jobs.Worker.{
  Ending, System, JobWorld, Step, ask_cancel, beat_read, beat_write, finish, end_job, step,
  run_steps,
}
use foam_pilot.Jobs.Worker.Terminal.{
  IsSettled, IsAfterwards, IsNoBeatWrite, run_steps-IsSettled, beat_write-overwrites,
  end_job-terminal,
}

abbrev system : System
system = record { is_run_dir = λ r. true; process_identity = λ p. none }

abbrev status : JobStatus
status = record {
  job_id = "job-1";
  revision = 7;
  state = running;
  worker = none;
  current_child = none;
  current_stage = none;
  current_step_id = none;
  run_dir = some "run-1";
  started_at = some 1000;
  last_heartbeat_at = some 5000;
  finished_at = none;
  terminal_code = none;
}

abbrev world : JobWorld
world = record { status = status; cancel_requested = false; beats = true; pending = some running }

abbrev good : Ending
good = record {
  status_write_failed = false;
  exit_code = pos 0;
  process_cancelled = false;
  internal_error = false;
}

abbrev ended : List Step
ended = finish good "0" 6000 6002 true true ∷ ask_cancel ∷ []

ended-no_beat : All IsNoBeatWrite ended
ended-no_beat = (tt, (tt, tt))

beat_write-overwrites_example :
    (step system (run_steps system world ended) (beat_write 6001 true)).status.state ≡ running
beat_write-overwrites_example = beat_write-overwrites system world ended 6001 ended-no_beat refl

abbrev settled : JobWorld
settled = record world { status = record status { state = completed }; pending = none }

settled-IsSettled : IsSettled (record status { state = completed }) settled
unfolding is_terminal
settled-IsSettled = record { same = refl; terminal = refl; no_write = refl }

abbrev later : List Step
later = ask_cancel ∷ beat_read ∷ beat_write 7000 true ∷ []

later-IsAfterwards : All IsAfterwards later
later-IsAfterwards = (tt, (tt, (tt, tt)))

run_steps-IsSettled_example :
    IsSettled (record status { state = completed }) (run_steps system settled later)
run_steps-IsSettled_example =
    run_steps-IsSettled system (record status { state = completed }) settled later
      later-IsAfterwards settled-IsSettled

end_job-terminal_example :
    (is_terminal (end_job good "0" 6000 6002 true true status).state ≡ true)
    × ((end_job good "0" 6000 6002 true true status).current_child ≡ none)
    × ((end_job good "0" 6000 6002 true true status).finished_at ≡ some 6000)
    × ((end_job good "0" 6000 6002 true true status).revision ≡ 7 + 1)
    × (((end_job good "0" 6000 6002 true true status).state ≡ completed) ↔ (
        (true ≡ true)
        × (false ≡ false)
        × (false ≡ false)
        × (false ≡ false)
        × (good.exit_code ≢ pos 130)
        × (good.exit_code ≢ pos 5)))
end_job-terminal_example = end_job-terminal good "0" 6000 6002 true true status refl
