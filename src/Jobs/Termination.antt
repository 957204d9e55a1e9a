-- ===== src/Jobs/Termination.antt =====
-- `terminate_orphan` of src/foampilot/jobs/recovery.py behind `reconcile_job`: the signals to the
-- process group of a child that its worker has left. Times are milliseconds.
pub mod Safety
mod Examples
use foam_pilot.Prelude.{
  ℕ, zero, suc, ◌+◌, max, Bool, true, false, not, Option, none, some, List, [], ◌∷◌, ◌++◌, ltb,
  nat_beq, if◌then◌else◌, Result, ok, raise,
}
use foam_pilot.Jobs.Records.{RecoveryState, orphaned_active, ProcessIdentity, JobStatus}
use foam_pilot.Jobs.Worker.{no_update, update_status}

pub data Signal : Type 0 where
  sigterm sigkill : Signal

-- how `os.killpg` answers: `ProcessLookupError` and `PermissionError` are the last two
pub data KillAnswer : Type 0 where
  delivered no_such_group not_permitted : KillAnswer

-- the system, whose state the calls may change
pub record System (W : Type 0) : Type 0 where
  pub matches : ProcessIdentity → W → Bool × W
  pub own_group : ℕ
  pub take_lock : W → Bool × W
  pub kill : Signal → ℕ → W → KillAnswer × W
  pub probe : ℕ → W → KillAnswer × W
  pub reap : ℕ → W → W
  pub clock : W → ℕ
  pub sleep : ℕ → W → W

pub data TerminateError : Type 0 where
  not_active identity_mismatch group_not_owned lock_unavailable : TerminateError
  permission_error cancel_incomplete loops : TerminateError

-- the world and the signals that were sent so far, each with its group
pub record Scene (W : Type 0) : Type 0 where
  pub world : W
  pub sent : List (Signal × ℕ)

unfoldable pub exists_by : KillAnswer → Bool
exists_by delivered = true
exists_by no_such_group = false
exists_by not_permitted = true

unfoldable pub is_orphaned_active : RecoveryState → Bool
is_orphaned_active orphaned_active = true
is_orphaned_active _ = false

unfoldable pub is_not_permitted : KillAnswer → Bool
is_not_permitted not_permitted = true
is_not_permitted _ = false

unfoldable pub exit_or_loop : Option Bool → Result TerminateError Bool
exit_or_loop none = raise loops
exit_or_loop (some b) = ok b

unfoldable pub cleared : JobStatus → JobStatus
unfolding update_status
cleared status = update_status (record no_update { current_child = some none }) status

module _ {W : Type 0} (system : System W) where
  -- `_group_exists`
  unfoldable pub group_exists : ℕ → W → Bool × W
  unfolding exists_by
  group_exists pgid w = let (answer, w1) = system.probe pgid w in (exists_by answer, w1)

  -- `_wait_group_exit` on fuel; `none` is a loop that goes on
  unfoldable pub wait_group_exit : ℕ → ℕ → ℕ → ℕ → W → Option Bool × W
  wait_group_exit zero pgid pid deadline w = (none, w)
  wait_group_exit (suc fuel) pgid pid deadline w =
      let (exists, w1) = group_exists pgid (system.reap pid w) in
      let rest = wait_group_exit fuel pgid pid deadline (system.sleep 10 w1) in
      if ltb (system.clock w) deadline
      then if not exists then (some true, w1) else rest
      else (some (not exists), w1)

  -- one wait of at most `grace`, whose loop takes at most `grace + 1` rounds
  unfoldable pub wait_for : ℕ → ProcessIdentity → W → Option Bool × W
  wait_for grace child w =
      wait_group_exit (suc grace) child.pgid child.pid (system.clock w + grace) w

  -- `os.killpg` under its `except ProcessLookupError`, and then the wait
  unfoldable pub signal_and_wait :
      Signal → ℕ → ProcessIdentity → Scene W → Result TerminateError Bool × Scene W
  signal_and_wait signal grace child s =
      let (answer, w1) = system.kill signal child.pgid s.world in
      let sent = s.sent ++ (signal, child.pgid) ∷ [] in
      let (exited, w2) = wait_for grace child w1 in
      if is_not_permitted answer
      then (raise permission_error, record { world = w1; sent = sent })
      else (exit_or_loop exited, record { world = w2; sent = sent })

  unfoldable pub after_kill :
      JobStatus → Result TerminateError Bool × Scene W → Result TerminateError JobStatus × Scene W
  after_kill status (raise e, s) = (raise e, s)
  after_kill status (ok false, s) = (raise cancel_incomplete, s)
  after_kill status (ok true, s) = (ok (cleared status), s)

  unfoldable pub after_term :
      ℕ
      → ProcessIdentity
      → JobStatus
      → Result TerminateError Bool × Scene W
      → Result TerminateError JobStatus × Scene W
  after_term grace child status (raise e, s) = (raise e, s)
  after_term grace child status (ok true, s) = (ok (cleared status), s)
  after_term grace child status (ok false, s) =
      after_kill status (signal_and_wait sigkill (max grace 500) child s)

  -- what happens under the lock
  unfoldable pub terminate_locked :
      ℕ → ProcessIdentity → JobStatus → W → Result TerminateError JobStatus × Scene W
  terminate_locked grace child status w =
      let (still, w1) = system.matches child w in
      let s : Scene W = record { world = w1; sent = [] } in
      if not still
      then (raise identity_mismatch, s)
      else after_term grace child status (signal_and_wait sigterm grace child s)

  unfoldable pub terminate_child :
      ℕ → ProcessIdentity → JobStatus → W → Result TerminateError JobStatus × Scene W
  terminate_child grace child status w =
      let (known, w1) = system.matches child w in
      let (locked, w2) = system.take_lock w1 in
      if not known
      then (raise identity_mismatch, record { world = w1; sent = [] })
      else if nat_beq child.pgid system.own_group
      then (raise group_not_owned, record { world = w1; sent = [] })
      else if not locked
      then (raise lock_unavailable, record { world = w2; sent = [] })
      else terminate_locked grace child status w2

  -- `terminate_orphan` from `identity = status.current_child` on
  unfoldable pub terminate_current :
      Option ProcessIdentity → ℕ → JobStatus → W → Result TerminateError JobStatus × Scene W
  terminate_current none grace status w = (raise identity_mismatch, record { world = w; sent = [] })
  terminate_current (some child) grace status w = terminate_child grace child status w

  -- `terminate_orphan` with the state of the decision of `reconcile_job`
  unfoldable pub terminate_orphan :
      ℕ → RecoveryState → JobStatus → W → Result TerminateError JobStatus × Scene W
  unfolding is_orphaned_active
  terminate_orphan grace state status w =
      if not (is_orphaned_active state)
      then (raise not_active, record { world = w; sent = [] })
      else terminate_current status.current_child grace status w
