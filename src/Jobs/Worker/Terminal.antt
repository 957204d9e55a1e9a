-- ===== src/Jobs/Worker/Terminal.antt =====
-- How a job of src/foampilot/jobs/worker.py comes to its terminal state, and whether it stays there.
use mathlib.Core.Path.{subst}
use foam_pilot.Prelude.{
  pos, sym, ℕ, ◌+◌, String, ◌≡◌, ◌≢◌, ◌↔◌, Bool, true, false, ◌||◌, none, some, List, [], ◌∷◌, All,
  if◌then◌else◌, arith,
}
use foam_pilot.Jobs.Records.{JobState, completed, JobStatus, is_terminal}
use foam_pilot.Jobs.Worker.{
  Ending, terminal_state, System, JobWorld, Step, ask_cancel, beat_read, beat_write, listen, finish,
  read_beat, write_beat, hear, end_job, step, run_steps, update_status, emergency_fail_status,
}

-- the steps that are left once the main thread is done: cancel requests and the heartbeat
abbrev pub IsAfterwards : Step → Type 0
IsAfterwards ask_cancel = Unit {0}
IsAfterwards beat_read = Unit {0}
IsAfterwards (beat_write now written) = Unit {0}
IsAfterwards (listen event written) = ⊥
IsAfterwards (finish e exit_text now later written emergency) = ⊥

-- A terminal status that no heartbeat is about to write over.
pub record IsSettled (s : JobStatus) (w : JobWorld) : Type 0 where
  pub same : w.status ≡ s
  pub terminal : is_terminal s.state ≡ true
  pub no_write : w.pending ≡ none

read-IsSettled : (s : JobStatus) (w : JobWorld) → IsSettled s w → IsSettled s (read_beat w)
unfolding read_beat
read-IsSettled s w h =
    let t : is_terminal w.status.state ≡ true =
      subst (λ x. is_terminal x.state ≡ true) (sym h.same) h.terminal in
    rw t (record { same = h.same; terminal = h.terminal; no_write = h.no_write })

idle_beat :
    (system : System) (w : JobWorld)
    → w.pending ≡ none
    → step system w beat_read ≡ (if w.beats then read_beat w else w)
unfolding step
idle_beat system w h = simp (h, step)

idle_write :
    (system : System) (w : JobWorld) (now : ℕ) (written : Bool)
    → w.pending ≡ none
    → step system w (beat_write now written) ≡ w
unfolding step
idle_write system w now written h = simp (h, step)

maybe_read-IsSettled :
    (s : JobStatus) (w : JobWorld) (beats : Bool)
    → IsSettled s w
    → IsSettled s (if beats then read_beat w else w)
maybe_read-IsSettled s w true h = read-IsSettled s w h
maybe_read-IsSettled s w false h = h

step-IsSettled :
    (system : System) (s : JobStatus) (w : JobWorld) (x : Step)
    → IsAfterwards x
    → IsSettled s w
    → IsSettled s (step system w x)
unfolding step
step-IsSettled system s w ask_cancel a h = record {
  same = h.same;
  terminal = h.terminal;
  no_write = h.no_write;
}
step-IsSettled system s w beat_read a h =
    subst (IsSettled s) (sym (idle_beat system w h.no_write)) (maybe_read-IsSettled s w w.beats h)
step-IsSettled system s w (beat_write now written) a h =
    subst (IsSettled s) (sym (idle_write system w now written h.no_write)) h
step-IsSettled system s w (listen event written) a h = absurd a
step-IsSettled system s w (finish e exit_text now later written emergency) a h = absurd a

-- A terminal status stays exactly as it is, through any cancel requests and any rounds of the
-- heartbeat, if no heartbeat had read the status before and was yet to write.
pub run_steps-IsSettled :
    (system : System) (s : JobStatus) (w : JobWorld) (steps : List Step)
    → All IsAfterwards steps
    → IsSettled s w
    → IsSettled s (run_steps system w steps)
unfolding run_steps
run_steps-IsSettled system s w [] a h = h
run_steps-IsSettled system s w (x ∷ steps) a h =
    run_steps-IsSettled system s (step system w x) steps a.1 (step-IsSettled system s w x a.0 h)

-- any step but the write of a heartbeat
abbrev pub IsNoBeatWrite : Step → Type 0
IsNoBeatWrite ask_cancel = Unit {0}
IsNoBeatWrite beat_read = Unit {0}
IsNoBeatWrite (beat_write now written) = ⊥
IsNoBeatWrite (listen event written) = Unit {0}
IsNoBeatWrite (finish e exit_text now later written emergency) = Unit {0}

step-pending :
    (system : System) (w : JobWorld) (x : Step) {p : JobState}
    → IsNoBeatWrite x
    → w.pending ≡ some p
    → (step system w x).pending ≡ some p
unfolding step hear
step-pending system w ask_cancel a h = h
step-pending system w beat_read a h = ground (arith, h)
step-pending system w (beat_write now written) a h = absurd a
step-pending system w (listen event written) a h = ground (arith, h)
step-pending system w (finish e exit_text now later written emergency) a h = h

run_steps-pending :
    (system : System) (w : JobWorld) (steps : List Step) {p : JobState}
    → All IsNoBeatWrite steps
    → w.pending ≡ some p
    → (run_steps system w steps).pending ≡ some p
unfolding run_steps
run_steps-pending system w [] a h = h
run_steps-pending system w (x ∷ steps) a h =
    run_steps-pending system (step system w x) steps a.1 (step-pending system w x a.0 h)

written_state :
    (system : System) (w : JobWorld) (now : ℕ) {p : JobState}
    → w.pending ≡ some p
    → (step system w (beat_write now true)).status.state ≡ p
unfolding step write_beat update_status
written_state system w now h = ground (arith, h)

-- A heartbeat that has read the status before other threads wrote it takes their state back when it
-- writes: whatever they did in between, the end of the job included, the state is then the one that
-- the heartbeat had decided on.
pub beat_write-overwrites :
    (system : System) (w : JobWorld) (steps : List Step) (now : ℕ) {p : JobState}
    → All IsNoBeatWrite steps
    → w.pending ≡ some p
    → (step system (run_steps system w steps) (beat_write now true)).status.state ≡ p
beat_write-overwrites system w steps now a h =
    written_state system (run_steps system w steps) now (run_steps-pending system w steps a h)

-- The last update of a job, if it or the emergency write after it succeeds, leaves a terminal state
-- with its time and without a child; the state is completed exactly if the first of them succeeded,
-- no status write had failed, the process was not cancelled, nothing was raised, and the exit code is
-- neither 130 nor 5.
pub end_job-terminal :
    (e : Ending) (exit_text : String) (now later : ℕ) (written emergency : Bool) (s : JobStatus)
    → (written || emergency) ≡ true
    → let ended = end_job e exit_text now later written emergency s in
      (is_terminal ended.state ≡ true)
      × (ended.current_child ≡ none)
      × (ended.finished_at ≡ some (if written then now else later))
      × (ended.revision ≡ s.revision + 1)
      × ((ended.state ≡ completed) ↔ (
          (written ≡ true)
          × (e.status_write_failed ≡ false)
          × (e.process_cancelled ≡ false)
          × (e.internal_error ≡ false)
          × (e.exit_code ≢ pos 130)
          × (e.exit_code ≢ pos 5)))
unfolding end_job update_status emergency_fail_status terminal_state is_terminal
end_job-terminal e exit_text now later true emergency s h = ground arith
end_job-terminal e exit_text now later false true s h = ground arith
end_job-terminal e exit_text now later false false s h = cc
