-- ===== src/Jobs/Finalization/Restart.antt =====
-- A recovery of src/foampilot/jobs/recovery.py that is begun again after a crash.
use foam_pilot.Prelude.Lines.{IsOneLine}
use foam_pilot.Prelude.{
  arith, ◌≢◌, ◌⊎◌, ◌≡◌, refl, sym, ap, ◌∙◌, ℕ, ◌+◌, String, true, false, Option, none, some, ok,
  inl, inr, Bool-cases,
}
use foam_pilot.Workflow.Store.{LogFile}
use foam_pilot.Artifacts.Manifest.{Content, file, Files}
use foam_pilot.Jobs.Records.{JobStatus, RecoveryState, finalized, orphaned_stopped}
use foam_pilot.Jobs.Recovery.{RecoveryDecision, alive, is_some}
use foam_pilot.Jobs.Finalization.{
  RunDirectory, RunSummary, Documents, Host, plain, is_interrupted_run, is_recovery_code,
  starts_elsewhere, fresh_code, final_event, interruption_of, allows, own_code, load_plain,
  partial_recovery_payload, Plan, plan_with, plan_from, write_interruption, write_event, summary_of,
  write_summary, write_manifest, mark_interrupted, all_but_manifest, seal, carry_out,
  recover_locked, recover_finalize, is_finalized, is_orphaned_stopped,
}
use foam_pilot.Jobs.Finalization.Events.{
  append_event-has, append_event-completed, append_event-idle,
}

not_finalized : (state : RecoveryState) → state ≢ finalized → is_finalized state ≡ false
unfolding is_finalized
not_finalized state h = ground (arith, h)

module _ (docs : Documents) where
  fresh_code-own :
      (host : Host) (status : JobStatus) (time : Option ℕ)
      → own_code (some (fresh_code host status, time)) ≡ some (fresh_code host status, time)
  unfolding own_code fresh_code is_recovery_code
  fresh_code-own host status time =
      elim (Bool-cases (starts_elsewhere status.worker host.boot_id)) [
        | inl e ↦ rw (e, fresh_code) refl
        | inr e ↦ rw (e, fresh_code) refl
      ]

  -- Whoever owns the lock may recover: nobody else is alive.
  pub record IsFree (host : Host) (status : JobStatus) : Type 0 where
    pub unlocked : host.lock_free ≡ true
    pub no_worker : alive host.matches status.worker ≡ false
    pub no_child : alive host.matches status.current_child ≡ false

  free-locked :
      (job_id : String) (host : Host) (status : JobStatus) (d : RunDirectory)
      → IsFree host status
      → recover_locked docs job_id host status d
        ≡ carry_out docs job_id host status d
            (plan_from docs (partial_recovery_payload docs d) host status d)
  unfolding recover_locked
  free-locked job_id host status d h = rw (h.unlocked, h.no_worker, h.no_child, recover_locked) refl

  -- what a worker that stopped early has left
  abbrev pub left : Option LogFile → Files → RunDirectory
  left events others = record {
    interruption = none;
    events = events;
    summary = none;
    manifest = none;
    others = others;
  }

  abbrev pub first_plan : Host → JobStatus → RunDirectory → Plan docs
  first_plan host status d = plan_with docs true (fresh_code host status) host.now d

  -- how far a recovery came before it crashed
  pub data Progress : Type 0 where
    interruption_written event_written summary_written : Progress

  unfoldable pub crashed :
      Progress → String → Host → JobStatus → Plan docs → RunDirectory → RunDirectory
  crashed interruption_written job_id host status plan d =
      write_interruption docs host status plan d
  crashed event_written job_id host status plan d =
      write_event docs plan (write_interruption docs host status plan d)
  crashed summary_written job_id host status plan d =
      write_summary docs job_id plan
        (write_event docs plan (write_interruption docs host status plan d))

  -- The texts that the recovery writes bring back what they were written from, the event on one line,
  -- and an empty line is no event.
  pub record IsReadable (job_id : String) (host : Host) (status : JobStatus) (d : RunDirectory)
      : Type 0 where
    pub event :
        let e = final_event ((first_plan host status d).sequence + 1) host.now in
        (docs.validate_event (docs.dump_event e) ≡ some e) × IsOneLine (docs.dump_event e)
    pub blank_line : docs.validate_event "" ≡ none
    pub interruption :
        docs.load_interruption
          (docs.dump_interruption (interruption_of host status (fresh_code host status) host.now))
        ≡ some (fresh_code host status, some host.now)
    pub summary :
        let s = summary_of docs job_id (first_plan host status d) d in
        docs.load_summary (docs.dump_summary s) ≡ some s

  -- a directory that says what an unfinished recovery had decided
  payload-written :
      (host : Host) (status : JobStatus) (time : ℕ) (events : Option LogFile)
      (summary : Option Content) (others : Files)
      → allows docs summary ≡ true
      → docs.load_interruption
          (docs.dump_interruption (interruption_of host status (fresh_code host status) time))
        ≡ some (fresh_code host status, some time)
      → partial_recovery_payload docs (record {
        interruption = some (
            file
              (docs.dump_interruption (interruption_of host status (fresh_code host status) time)));
        events = events;
        summary = summary;
        manifest = none;
        others = others;
      })
        ≡ some (fresh_code host status, some time)
  unfolding partial_recovery_payload plain load_plain
  payload-written host status time events summary others a l =
      rw (a, partial_recovery_payload, l, fresh_code-own host status (some time)) refl

  allows-none : allows docs none ≡ true
  unfolding allows
  allows-none = refl

  allows-written :
      (s : RunSummary)
      → docs.load_summary (docs.dump_summary s) ≡ some s
      → is_interrupted_run s.workflow_state ≡ true
      → allows docs (some (file (docs.dump_summary s))) ≡ true
  unfolding allows plain
  allows-written s h i = rw (h, allows) i

  -- The second recovery, in the state of the first one at its crash, decides and writes the same.
  Same : String → Host → Host → JobStatus → RunDirectory → RunDirectory → Type 0
  Same job_id host host' status d c =
      let again = plan_with docs false (fresh_code host status) host.now c in
      (partial_recovery_payload docs c ≡ some (fresh_code host status, some host.now))
      × (all_but_manifest docs job_id host' status again c
          ≡ all_but_manifest docs job_id host status (first_plan host status d) d)

  interruption-Same :
      (job_id : String) (host host' : Host) (status : JobStatus) (events : Option LogFile)
      (others : Files)
      → let d = left events others in
        IsReadable job_id host status d
        → Same job_id host host' status d
            (crashed interruption_written job_id host status (first_plan host status d) d)
  unfolding Same crashed all_but_manifest write_interruption write_event write_summary plan_with
      summary_of
  interruption-Same job_id host host' status events others r =
      (payload-written host status host.now events none others allows-none r.interruption, refl)

  event-Same :
      (job_id : String) (host host' : Host) (status : JobStatus) (events : Option LogFile)
      (others : Files)
      → let d = left events others in
        IsReadable job_id host status d
        → Same job_id host host' status d
            (crashed event_written job_id host status (first_plan host status d) d)
  unfolding Same crashed all_but_manifest write_interruption write_event write_summary plan_with
      summary_of
  event-Same job_id host host' status events others r = (
    payload-written host status host.now _ none others allows-none r.interruption,
    rw
        (
          append_event-idle docs _ _ _ (append_event-has docs _ _ r.event.0 r.event.1 events),
          append_event-completed docs _ _ r.event.0 r.event.1 events r.blank_line,
        )
        refl,
  )

  summary-Same :
      (job_id : String) (host host' : Host) (status : JobStatus) (events : Option LogFile)
      (others : Files)
      → let d = left events others in
        IsReadable job_id host status d
        → Same job_id host host' status d
            (crashed summary_written job_id host status (first_plan host status d) d)
  unfolding Same crashed all_but_manifest write_interruption write_event write_summary plan_with
      summary_of is_interrupted_run
  summary-Same job_id host host' status events others r = (
    payload-written host status host.now _ _ others (allows-written _ r.summary refl)
        r.interruption,
    rw (append_event-idle docs _ _ _ (append_event-has docs _ _ r.event.0 r.event.1 events)) refl,
  )

  crashed-Same :
      (p : Progress) (job_id : String) (host host' : Host) (status : JobStatus)
      (events : Option LogFile) (others : Files)
      → let d = left events others in
        IsReadable job_id host status d
        → Same job_id host host' status d
            (crashed p job_id host status (first_plan host status d) d)
  crashed-Same interruption_written job_id host host' status events others r =
      interruption-Same job_id host host' status events others r
  crashed-Same event_written job_id host host' status events others r =
      event-Same job_id host host' status events others r
  crashed-Same summary_written job_id host host' status events others r =
      summary-Same job_id host host' status events others r

  -- the first recovery, when nothing stops it
  first-recovery :
      (job_id : String) (host : Host) (status : JobStatus) (events : Option LogFile)
      (others : Files)
      → IsFree host status
      → let d = left events others in
        let plan = first_plan host status d in
        let full = all_but_manifest docs job_id host status plan d in
        recover_locked docs job_id host status d
        ≡ seal docs plan.code plan.time status full (write_manifest docs full)
  unfolding partial_recovery_payload plain load_plain own_code plan_from carry_out allows plan_with
  first-recovery job_id host status events others free =
      free-locked job_id host status (left events others) free ∙ refl

  second-recovery :
      (job_id : String) (host host' : Host) (status : JobStatus) (d c : RunDirectory)
      → IsFree host' status
      → Same job_id host host' status d c
      → let plan = first_plan host status d in
        let full = all_but_manifest docs job_id host status plan d in
        recover_locked docs job_id host' status c
        ≡ seal docs plan.code plan.time status full (write_manifest docs full)
  unfolding Same plan_from carry_out plan_with
  second-recovery job_id host host' status d c free (payload, same) =
      free-locked job_id host' status c free ∙ rw (payload, same) refl

  -- under the lock: the second recovery ends as the first one would have
  recover_locked-restarts :
      (p : Progress) (job_id : String) (host host' : Host) (status : JobStatus)
      (events : Option LogFile) (others : Files)
      → IsFree host status
      → IsFree host' status
      → let d = left events others in
        let plan = first_plan host status d in
        IsReadable job_id host status d
        → (recover_locked docs job_id host' status (crashed p job_id host status plan d)
            ≡ recover_locked docs job_id host status d)
          × ((recover_locked docs job_id host status d).0
              ≡ ok (mark_interrupted (fresh_code host status) host.now host.now status))
  unfolding seal write_manifest all_but_manifest write_summary write_event write_interruption
      plan_with
  recover_locked-restarts p job_id host host' status events others free free' readable =
      let d = left events others in
      let first = first-recovery job_id host status events others free in
      (
        second-recovery job_id host host' status d _ free'
              (crashed-Same p job_id host host' status events others readable)
            ∙ sym first,
        ap (λ r. r.0) first ∙ refl,
      )

  -- the guards of `recover_finalize` let an orphaned or half finalized run pass
  passes-guards :
      (decision : RecoveryDecision) (job_id : String) (host : Host) (status : JobStatus)
      (d : RunDirectory)
      → is_finalized decision.state ≡ false
      → is_some decision.run_dir ≡ true
      → (is_orphaned_stopped decision.state ≡ true)
        ⊎ (is_some (partial_recovery_payload docs d) ≡ true)
      → recover_finalize docs decision job_id host status d
        ≡ recover_locked docs job_id host status d
  unfolding recover_finalize
  passes-guards decision job_id host status d f r (inl o) = rw (f, r, o, recover_finalize) refl
  passes-guards decision job_id host status d f r (inr q) =
      elim (Bool-cases (is_orphaned_stopped decision.state)) [
        | inl o ↦ rw (f, r, o, recover_finalize) refl
        | inr o ↦ rw (f, r, o, q, recover_finalize) refl
      ]

  -- A recovery that was decided on as ORPHANED_STOPPED and crashed behind any of its writes before the
  -- manifest, and is begun again on the same or another host under whatever clock and boot ID, with
  -- whatever the second decision on the run is save FINALIZED, ends exactly as if it had not crashed:
  -- with the same files, the interruption and its time and code included, and the same status. And
  -- the first recovery succeeds. This is so in a run that has neither interruption, summary nor
  -- manifest and that both decisions name, while the lock is free and no process of the job is alive,
  -- if the texts bring back what was written, the event has one line, and an empty line is no event.
  pub recover_finalize-restarts :
      (p : Progress) (job_id : String) (host host' : Host) (status : JobStatus)
      (events : Option LogFile) (others : Files) (decision decision' : RecoveryDecision)
      → decision.state ≡ orphaned_stopped
      → is_some decision.run_dir ≡ true
      → decision'.state ≢ finalized
      → is_some decision'.run_dir ≡ true
      → IsFree host status
      → IsFree host' status
      → let d = left events others in
        let plan = first_plan host status d in
        IsReadable job_id host status d
        → (recover_finalize docs decision' job_id host' status (crashed p job_id host status plan d)
            ≡ recover_finalize docs decision job_id host status d)
          × ((recover_finalize docs decision job_id host status d).0
              ≡ ok (mark_interrupted (fresh_code host status) host.now host.now status))
  unfolding Same is_finalized is_orphaned_stopped
  recover_finalize-restarts p job_id host host' status events others decision decision' o r f r'
        free free' readable =
      let d = left events others in
      let c = crashed p job_id host status (first_plan host status d) d in
      let (same, done) =
        recover_locked-restarts p job_id host host' status events others free free' readable in
      let written = (crashed-Same p job_id host host' status events others readable).0 in
      let first =
        passes-guards decision job_id host status d (ap is_finalized o) r
          (inl (ap is_orphaned_stopped o)) in
      let second =
        passes-guards decision' job_id host' status c (not_finalized decision'.state f) r'
          (inr (ap is_some written)) in
      (second ∙ same ∙ sym first, ap (λ x. x.0) first ∙ done)
