-- ===== src/Jobs/Termination/Safety.antt =====
-- Whom `terminate_orphan` of src/foampilot/jobs/recovery.py signals, and that it ends.
use mathlib.Core.Path.{subst}
use foam_pilot.Prelude.{
  ◌≡◌, ◌≢◌, refl, ℕ, zero, suc, ◌+◌, ◌-◌, ◌≤◌, ◌<◌, ◌⊎◌, ◌↔◌, inl, inr, max, Bool, true, false, not,
  Option, none, some, List, [], ◌∷◌, ◌++◌, ltb, ltb→lt, nat_beq, nat_beq_iff, if-rule, arith,
  Result, ok, raise,
}
use foam_pilot.Jobs.Records.{RecoveryState, orphaned_active, ProcessIdentity, JobStatus}
use foam_pilot.Jobs.Termination.{
  Signal, sigterm, sigkill, System, TerminateError, not_active, identity_mismatch, group_not_owned,
  lock_unavailable, permission_error, cancel_incomplete, loops, Scene, is_orphaned_active,
  group_exists, wait_group_exit, wait_for, cleared, is_not_permitted, exit_or_loop, signal_and_wait,
  after_kill, after_term, terminate_locked, terminate_child, terminate_current, terminate_orphan,
}

some-none : (b : Bool) → some b ≢ none
some-none b z = cc

module _ {W : Type 0} (system : System W) where
  open system use {clock, sleep, probe, reap}

  -- A sleep takes its time, and no call turns the clock back.
  pub record IsClock : Type 0 where
    pub sleeps : (n : ℕ) (w : W) → clock w + n ≤ clock (sleep n w)
    pub probes : (pgid : ℕ) (w : W) → clock w ≤ clock (probe pgid w).1
    pub reaps : (pid : ℕ) (w : W) → clock w ≤ clock (reap pid w)

  wait_group_exit-returns :
      (fuel pgid pid deadline : ℕ) (w : W)
      → IsClock
      → deadline - clock w < fuel
      → (wait_group_exit system fuel pgid pid deadline w).0 ≢ none
  unfolding wait_group_exit group_exists
  wait_group_exit-returns zero pgid pid deadline w c h = ground (arith, h)
  wait_group_exit-returns (suc fuel) pgid pid deadline w c h =
      let w1 = (probe pgid (reap pid w)).1 in
      if-rule (λ (r : Option Bool × W). r.0 ≢ none) (ltb (clock w) deadline) _ _
        (λ early.
          if-rule (λ (r : Option Bool × W). r.0 ≢ none)
            (not (group_exists system pgid (reap pid w)).0) _ _ (λ e. some-none true)
            (λ e. wait_group_exit-returns fuel pgid pid deadline (sleep 10 w1) c (
              omega (
                arith,
                h,
                ltb→lt (clock w) deadline early,
                c.sleeps 10 w1,
                c.probes pgid (reap pid w),
                c.reaps pid w,
              ))))
        (λ late. some-none _)

  wait_for-returns :
      (grace : ℕ) (child : ProcessIdentity) (w : W)
      → IsClock
      → (wait_for system grace child w).0 ≢ none
  unfolding wait_for
  wait_for-returns grace child w c =
      wait_group_exit-returns (suc grace) child.pgid child.pid (clock w + grace) w c (omega arith)

  -- the signals of one run: none, or those to one group in their order
  abbrev pub IsEscalation : ℕ → List (Signal × ℕ) → Type 0
  IsEscalation pgid sent =
      (sent ≡ (sigterm, pgid) ∷ []) ⊎ (sent ≡ (sigterm, pgid) ∷ (sigkill, pgid) ∷ [])

  -- the errors that may follow a signal
  abbrev pub IsLate : TerminateError → Type 0
  IsLate permission_error = Unit
  IsLate cancel_incomplete = Unit
  IsLate _ = ⊥

  abbrev Sends :
      Signal → ProcessIdentity → List (Signal × ℕ) → Result TerminateError Bool → Scene W → Type 0
  Sends signal child before (ok b) s = s.sent ≡ before ++ (signal, child.pgid) ∷ []
  Sends signal child before (raise e) s = IsLate e × (s.sent ≡ before ++ (signal, child.pgid) ∷ [])

  exit-Sends :
      (signal : Signal) (child : ProcessIdentity) (before : List (Signal × ℕ))
      (exited : Option Bool) (s : Scene W)
      → exited ≢ none
      → s.sent ≡ before ++ (signal, child.pgid) ∷ []
      → Sends signal child before (exit_or_loop exited) s
  unfolding exit_or_loop
  exit-Sends signal child before none s n h = absurd (n refl)
  exit-Sends signal child before (some b) s n h = h

  signal_and_wait-Sends :
      (signal : Signal) (grace : ℕ) (child : ProcessIdentity) (s : Scene W)
      → IsClock
      → let r = signal_and_wait system signal grace child s in Sends signal child s.sent r.0 r.1
  unfolding signal_and_wait
  signal_and_wait-Sends signal grace child s c =
      let (answer, w1) = system.kill signal child.pgid s.world in
      if-rule (λ (r : Result TerminateError Bool × Scene W). Sends signal child s.sent r.0 r.1)
        (is_not_permitted answer) _ _ (λ e. (tt, refl))
        (λ e.
          exit-Sends signal child s.sent (wait_for system grace child w1).0 _
            (wait_for-returns grace child w1 c) refl)

  -- the child that is signalled is the one of the status, in a group of its own
  pub record IsOwned (state : RecoveryState) (status : JobStatus) (child : ProcessIdentity)
      : Type 0 where
    pub orphaned : state ≡ orphaned_active
    pub current : status.current_child ≡ some child
    pub apart : child.pgid ≢ system.own_group

  -- How a termination may end. With a new status: the group of the child got SIGTERM, and SIGKILL at
  -- most after it, and no child is left in the status. With an error: nothing was sent, or the same
  -- and the group would not go, or may not be signalled.
  abbrev pub Ends : RecoveryState → JobStatus → Result TerminateError JobStatus → Scene W → Type 0
  Ends state status (ok new) s =
      (child : ProcessIdentity) × IsOwned state status child
      × IsEscalation child.pgid s.sent
      × (new ≡ cleared status)
  Ends state status (raise e) s =
      (e ≢ loops)
      × ((s.sent ≡ [])
          ⊎ ((child : ProcessIdentity) × IsOwned state status child
              × IsEscalation child.pgid s.sent
              × IsLate e))

  IsLate-returns : (e : TerminateError) → IsLate e → e ≢ loops
  IsLate-returns permission_error h z = cc
  IsLate-returns cancel_incomplete h z = cc
  IsLate-returns not_active h z = absurd h
  IsLate-returns identity_mismatch h z = absurd h
  IsLate-returns group_not_owned h z = absurd h
  IsLate-returns lock_unavailable h z = absurd h
  IsLate-returns loops h z = absurd h

  after_kill-Ends :
      (state : RecoveryState) (status : JobStatus) (child : ProcessIdentity)
      (r : Result TerminateError Bool) (s : Scene W)
      → IsOwned state status child
      → Sends sigkill child ((sigterm, child.pgid) ∷ []) r s
      → let r' = after_kill system status (r, s) in Ends state status r'.0 r'.1
  unfolding after_kill
  after_kill-Ends state status child (raise e) s o h =
      (IsLate-returns e h.0, inr (child, o, inr h.1, h.0))
  after_kill-Ends state status child (ok false) s o h = ((λ z. cc), inr (child, o, inr h, tt))
  after_kill-Ends state status child (ok true) s o h = (child, o, inr h, refl)

  after_term-Ends :
      (grace : ℕ) (state : RecoveryState) (status : JobStatus) (child : ProcessIdentity)
      (r : Result TerminateError Bool) (s : Scene W)
      → IsClock
      → IsOwned state status child
      → Sends sigterm child [] r s
      → let r' = after_term system grace child status (r, s) in Ends state status r'.0 r'.1
  unfolding after_term
  after_term-Ends grace state status child (raise e) s c o h =
      (IsLate-returns e h.0, inr (child, o, inl h.1, h.0))
  after_term-Ends grace state status child (ok true) s c o h = (child, o, inl h, refl)
  after_term-Ends grace state status child (ok false) s c o h =
      after_kill-Ends state status child _ _ o (
        subst
          (λ sent.
            Sends sigkill child sent (signal_and_wait system sigkill (max grace 500) child s).0
              (signal_and_wait system sigkill (max grace 500) child s).1)
          h (signal_and_wait-Sends sigkill (max grace 500) child s c))

  -- the way out of a refusal
  refused :
      (state : RecoveryState) (status : JobStatus) (e : TerminateError) (w : W)
      → e ≢ loops
      → Ends state status (raise e) (record { world = w; sent = [] })
  refused state status e w n = (n, inl refl)

  terminate_locked-Ends :
      (grace : ℕ) (state : RecoveryState) (status : JobStatus) (child : ProcessIdentity) (w : W)
      → IsClock
      → IsOwned state status child
      → let r = terminate_locked system grace child status w in Ends state status r.0 r.1
  unfolding terminate_locked
  terminate_locked-Ends grace state status child w c o =
      if-rule (λ (r : Result TerminateError JobStatus × Scene W). Ends state status r.0 r.1)
        (not (system.matches child w).0) _ _
        (λ e. refused state status identity_mismatch (system.matches child w).1 (λ z. cc))
        (λ e.
          after_term-Ends grace state status child _ _ c o
            (signal_and_wait-Sends sigterm grace child _ c))

  terminate_child-Ends :
      (grace : ℕ) (state : RecoveryState) (status : JobStatus) (child : ProcessIdentity) (w : W)
      → IsClock
      → state ≡ orphaned_active
      → status.current_child ≡ some child
      → let r = terminate_child system grace child status w in Ends state status r.0 r.1
  unfolding terminate_child
  terminate_child-Ends grace state status child w c orphaned current =
      let P = λ (r : Result TerminateError JobStatus × Scene W). Ends state status r.0 r.1 in
      if-rule P (not (system.matches child w).0) _ _
        (λ e. refused state status identity_mismatch (system.matches child w).1 (λ z. cc))
        (λ e.
          if-rule P (nat_beq child.pgid system.own_group) _ _
            (λ g. refused state status group_not_owned (system.matches child w).1 (λ z. cc))
            (λ g.
              if-rule P (not (system.take_lock (system.matches child w).1).0) _ _
                (λ l.
                  refused state status lock_unavailable
                    (system.take_lock (system.matches child w).1).1 (λ z. cc))
                (λ l. terminate_locked-Ends grace state status child _ c (record {
                  orphaned = orphaned;
                  current = current;
                  apart = ground (arith, g, nat_beq_iff child.pgid system.own_group);
                }))))

  is_orphaned_active_iff :
      (state : RecoveryState) → (is_orphaned_active state ≡ true) ↔ (state ≡ orphaned_active)
  unfolding is_orphaned_active
  is_orphaned_active_iff state = ground arith

  terminate_current-Ends :
      (current : Option ProcessIdentity) (grace : ℕ) (state : RecoveryState) (status : JobStatus)
      (w : W)
      → IsClock
      → state ≡ orphaned_active
      → status.current_child ≡ current
      → let r = terminate_current system current grace status w in Ends state status r.0 r.1
  unfolding terminate_current
  terminate_current-Ends none grace state status w c o h =
      refused state status identity_mismatch w (λ z. cc)
  terminate_current-Ends (some child) grace state status w c o h =
      terminate_child-Ends grace state status child w c o h

  -- A termination always ends, whatever the processes do, if the clock goes on. It signals nobody but
  -- the group of the child in the status of an orphaned job, which is not its own group: first with
  -- SIGTERM, and at most once more, with SIGKILL. It removes the child from the status only then; and
  -- every refusal but a group that will not go, or may not be signalled, comes before any signal.
  pub terminate_orphan-Ends :
      (grace : ℕ) (state : RecoveryState) (status : JobStatus) (w : W)
      → IsClock
      → let r = terminate_orphan system grace state status w in Ends state status r.0 r.1
  unfolding terminate_orphan
  terminate_orphan-Ends grace state status w c =
      if-rule (λ (r : Result TerminateError JobStatus × Scene W). Ends state status r.0 r.1)
        (not (is_orphaned_active state)) _ _ (λ e. refused state status not_active w (λ z. cc))
        (λ e.
          terminate_current-Ends status.current_child grace state status w c
            ((is_orphaned_active_iff state).0 (ground (arith, e))) refl)
