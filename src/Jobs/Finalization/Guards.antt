-- ===== src/Jobs/Finalization/Guards.antt =====
-- What a recovery of src/foampilot/jobs/recovery.py may touch, however it ends.
use mathlib.Core.Path.{subst}
use mathlib.Core.List.{append-nil, append_assoc}
use foam_pilot.Prelude.{
  if-rule, ◌≡◌, refl, sym, ap, ◌∙◌, ℕ, ◌+◌, ◌⊎◌, String, true, false, not, ◌&&◌, ◌||◌, Option, none,
  some, List, [], ◌++◌, Result, ok, raise, arith, inl, inr, Bool-cases, Option-cases, if◌then◌else◌,
}
use foam_pilot.Workflow.Store.{LogFile}
use foam_pilot.Jobs.Records.{JobStatus}
use foam_pilot.Jobs.Recovery.{RecoveryDecision, alive, is_some}
use foam_pilot.Jobs.Finalization.Events.{lines_of-appended}
use foam_pilot.Jobs.Finalization.{
  final_event, RunDirectory, Documents, Host, RecoverError, state_not_allowed, run_unavailable,
  lines_of, has_interrupted_final_event, partial_recovery_payload, append_event, Plan, plan_from,
  plan_with, write_interruption, write_event, write_summary, write_manifest, all_but_manifest, seal,
  carry_out, recover_locked, recover_finalize, catch_up, read_summary, is_finalized,
  is_orphaned_stopped,
}

-- what is there stays: evidence is only added, and the log only grows by lines
pub record Keeps (d d' : RunDirectory) : Type 0 where
  pub interruption_kept : (d.interruption ≡ none) ⊎ (d'.interruption ≡ d.interruption)
  pub summary_kept : (d.summary ≡ none) ⊎ (d'.summary ≡ d.summary)
  pub manifest_kept : (d.manifest ≡ none) ⊎ (d'.manifest ≡ d.manifest)
  pub log_kept : (more : List String) × (lines_of d'.events ≡ lines_of d.events ++ more)
  pub others_kept : d'.others ≡ d.others

Keeps-self : (d : RunDirectory) → Keeps d d
Keeps-self d = record {
  interruption_kept = inr refl;
  summary_kept = inr refl;
  manifest_kept = inr refl;
  log_kept = ([], sym (append-nil (lines_of d.events)));
  others_kept = refl;
}

-- nothing changed, or the caller owns the job and nothing has ended the run
abbrev pub IsGuarded : Host → JobStatus → RunDirectory → RunDirectory → Type 0
IsGuarded host status d d' =
    (d' ≡ d)
    ⊎ ((host.lock_free ≡ true)
        × (alive host.matches status.worker ≡ false)
        × (alive host.matches status.current_child ≡ false))

module _ (docs : Documents) where
  is_some-false : {A : Type 0} (o : Option A) → is_some o ≡ false → o ≡ none
  is_some-false none h = refl
  is_some-false (some a) h = cc

  append_event-grows :
      (sequence now : ℕ) (events : Option LogFile)
      → (more : List String) × (lines_of (append_event docs sequence now events)
          ≡ lines_of events ++ more)
  unfolding append_event
  append_event-grows sequence now events =
      elim (Bool-cases (has_interrupted_final_event docs (lines_of events))) [
        | inl e ↦ rw (e, append_event) ([], sym (append-nil (lines_of events)))
        | inr e ↦
            rw (e, append_event)
              (let (more, kind, q) =
                  lines_of-appended (docs.dump_event (final_event sequence now)) events in
                (_, q ∙ append_assoc (lines_of events) more _))
      ]

  all_but_manifest-log :
      (job_id : String) (host : Host) (status : JobStatus) (plan : Plan docs) (d : RunDirectory)
      → (all_but_manifest docs job_id host status plan d).events
        ≡ append_event docs (plan.sequence + 1) plan.time d.events
  unfolding all_but_manifest write_summary write_event write_interruption
  all_but_manifest-log job_id host status plan d = ground arith

  all_but_manifest-Keeps :
      (job_id : String) (host : Host) (status : JobStatus) (plan : Plan docs) (d : RunDirectory)
      → (plan.fresh ≡ false) ⊎ (d.interruption ≡ none)
      → Keeps d (all_but_manifest docs job_id host status plan d)
  unfolding all_but_manifest write_summary write_event write_interruption
  all_but_manifest-Keeps job_id host status plan d f =
      let (more, e) = append_event-grows (plan.sequence + 1) plan.time d.events in
      record {
        interruption_kept = ground (arith, f);
        summary_kept = ground (arith, is_some-false d.summary);
        manifest_kept = ground arith;
        log_kept =
            (more, ap (λ x. lines_of x) (all_but_manifest-log job_id host status plan d) ∙ e);
        others_kept = ground arith;
      }

  abbrev KeepsIn : RunDirectory → Result RecoverError RunDirectory → Type 0
  KeepsIn d (ok d') = Keeps d d'
  KeepsIn d (raise e) = Unit

  write_manifest-Keeps :
      (d full : RunDirectory) → Keeps d full → KeepsIn d (write_manifest docs full)
  unfolding write_manifest
  write_manifest-Keeps d full k = elim (Option-cases full.manifest) [
    | inl e ↦
        let none_yet : d.manifest ≡ none = ground (arith, k.manifest_kept, e) in
        rw (e, write_manifest)
          (record {
            interruption_kept = k.interruption_kept;
            summary_kept = k.summary_kept;
            manifest_kept = inl none_yet;
            log_kept = k.log_kept;
            others_kept = k.others_kept;
          })
    | inr (x, e) ↦ rw (e, write_manifest) tt
  ]

  seal-Keeps :
      (code : String) (time : ℕ) (status : JobStatus) (d full : RunDirectory)
      (r : Result RecoverError RunDirectory)
      → KeepsIn d r
      → Keeps d full
      → Keeps d (seal docs code time status full r).1
  unfolding seal
  seal-Keeps code time status d full (ok d') h k = h
  seal-Keeps code time status d full (raise e) h k = k

  planned-Keeps :
      (job_id : String) (host : Host) (status : JobStatus) (d : RunDirectory) (plan : Plan docs)
      → (plan.fresh ≡ false) ⊎ (d.interruption ≡ none)
      → Keeps d (carry_out docs job_id host status d (ok plan)).1
  unfolding carry_out
  planned-Keeps job_id host status d plan f =
      let k = all_but_manifest-Keeps job_id host status plan d f in
      seal-Keeps plan.code plan.time status d _ _ (write_manifest-Keeps d _ k) k

  begun-Keeps :
      (job_id : String) (host : Host) (status : JobStatus) (d : RunDirectory)
      → Keeps d (carry_out docs job_id host status d (plan_from docs none host status d)).1
  unfolding plan_from carry_out
  begun-Keeps job_id host status d =
      elim (Bool-cases (is_some d.summary || is_some d.manifest || is_some d.interruption)) [
        | inl e ↦ rw (e, plan_from, carry_out) (Keeps-self d)
        | inr e ↦
            rw (e, plan_from)
              (planned-Keeps job_id host status d _
                (inr (is_some-false d.interruption (ground (arith, e)))))
      ]

  carry_out-Keeps :
      (job_id : String) (host : Host) (status : JobStatus) (d : RunDirectory)
      (payload : Option (String × Option ℕ))
      → Keeps d (carry_out docs job_id host status d (plan_from docs payload host status d)).1
  unfolding carry_out plan_from plan_with
  carry_out-Keeps job_id host status d (some (code, some time)) =
      planned-Keeps job_id host status d (plan_with docs false code time d) (inl refl)
  carry_out-Keeps job_id host status d (some (code, none)) = Keeps-self d
  carry_out-Keeps job_id host status d none = begun-Keeps job_id host status d

  abbrev pub Guarded :
      Host → JobStatus → RunDirectory → Result RecoverError JobStatus × RunDirectory → Type 0
  Guarded host status d r = Keeps d r.1 × IsGuarded host status d r.1

  recover_locked-Guarded :
      (job_id : String) (host : Host) (status : JobStatus) (d : RunDirectory)
      → Guarded host status d (recover_locked docs job_id host status d)
  unfolding recover_locked
  recover_locked-Guarded job_id host status d =
      if-rule (Guarded host status d) (not host.lock_free) _ _ (λ e. (Keeps-self d, inl refl))
        (λ l.
          if-rule (Guarded host status d)
            (alive host.matches status.worker || alive host.matches status.current_child) _ _
            (λ e. (Keeps-self d, inl refl))
            (λ a. (
              carry_out-Keeps job_id host status d (partial_recovery_payload docs d),
              inr (ground (arith, l), ground (arith, a), ground (arith, a)),
            )))

  catch_up-untouched :
      (summary : Option _) (host : Host) (status : JobStatus) (d : RunDirectory)
      → (catch_up docs summary host status d).1 ≡ d
  unfolding catch_up
  catch_up-untouched none host status d = refl
  catch_up-untouched (some s) host status d = ground arith

  -- However a recovery ends, an interruption, a summary and a manifest that are there stay as they
  -- are, the log keeps its lines, and no other file is touched; and it writes into the run only if
  -- the lock of the job is free and neither its worker nor its child is alive.
  pub recover_finalize-Guarded :
      (decision : RecoveryDecision) (job_id : String) (host : Host) (status : JobStatus)
      (d : RunDirectory)
      → Guarded host status d (recover_finalize docs decision job_id host status d)
  unfolding recover_finalize
  recover_finalize-Guarded decision job_id host status d =
      let left_alone : Keeps d d × IsGuarded host status d d = (Keeps-self d, inl refl) in
      if-rule (Guarded host status d) (is_finalized decision.state && is_some decision.run_dir) _ _
        (λ e.
          let same = catch_up-untouched (read_summary docs d.summary) host status d in
          (subst (Keeps d) (sym same) (Keeps-self d), inl same))
        (λ e.
          if-rule (Guarded host status d)
            (not (is_orphaned_stopped decision.state)
              && not (is_some decision.run_dir && is_some (partial_recovery_payload docs d)))
            (raise (state_not_allowed decision.state), d)
            (if not (is_some decision.run_dir)
              then (raise run_unavailable, d)
              else recover_locked docs job_id host status d)
            (λ e. left_alone)
            (λ e.
              if-rule (Guarded host status d) (not (is_some decision.run_dir))
                (raise run_unavailable, d) (recover_locked docs job_id host status d)
                (λ e. left_alone) (λ e. recover_locked-Guarded job_id host status d)))
