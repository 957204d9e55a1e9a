-- ===== src/Jobs/Recovery/Files.antt =====
-- The files behind the decisions of `reconcile_job` in src/foampilot/jobs/recovery.py.
use text.Mathlib.Text.{◌==◌}
use foam_pilot.Prelude.{
  ℕ, String, ◌≡◌, ◌∙◌, refl, Bool, true, false, Option, none, some, List, [], ◌∷◌, arith, ok, any,
}
use foam_pilot.Jobs.Records.{strict_resume}
use foam_pilot.Jobs.Recovery.{
  RunPath, FileSystem, Evidence, run_path, has_symlink, prefixes_from, real_children, only_child,
  artifact_state, checked, Facts, decide, RecoveryDecision, decide_stopped, decide_finalized,
  decide_alive, decide_damaged, decide_without_run, Observed, gather, posix_run_path, reconcile_job,
}
use foam_pilot.Jobs.Recovery.Actions.{
  offers, same_action, decide_without_run-Offers, resume_attach-exactly,
}

-- A directory that the recorded path names without leaving the job root: relative, without `..`,
-- reached through no symbolic link, and resolved inside the root.
pub record IsInside (fs : FileSystem) (p : RunPath) : Type 0 where
  pub relative : p.is_absolute ≡ false
  pub no_parent : any (λ part. part == "..") p.parts ≡ false
  pub no_symlink : any fs.is_symlink (prefixes_from [] p.parts) ≡ false
  pub resolved : fs.resolves_inside p.parts ≡ true
  pub directory : fs.is_dir p.parts ≡ true

run_path-IsInside :
    (fs : FileSystem) (p : RunPath) {run : List String}
    → (run_path fs (some p)).0 ≡ some run
    → IsInside fs p × (run ≡ p.parts)
unfolding run_path has_symlink
run_path-IsInside fs p h = ground arith

run_path-issues :
    (fs : FileSystem) (p : Option RunPath) {run : List String}
    → (run_path fs p).0 ≡ some run
    → (run_path fs p).1 ≡ []
unfolding run_path only_child
run_path-issues fs none h = only_child-issues (real_children fs fs.children) h
  where
    only_child-issues :
        (l : List (List String)) {run : List String}
        → (only_child l).0 ≡ some run
        → (only_child l).1 ≡ []
    only_child-issues [] h = cc
    only_child-issues (c ∷ []) h = refl
    only_child-issues (c ∷ c' ∷ l) h = cc
run_path-issues fs (some p) h = ground arith

checked-resumable :
    (v : Option (List String × Bool))
    → (checked v).valid ≡ true
    → (checked v).resumable ≡ true
    → v ≡ some ([], true)
unfolding checked
checked-resumable none h k = cc
checked-resumable (some ([], allowed)) h k = λ i. some ([], k i)
checked-resumable (some (issue ∷ issues, allowed)) h k = cc

-- A summary and a manifest that are files, read and checked without an issue, and that allow a
-- resume.
pub record IsResumable (e : Evidence) : Type 0 where
  pub summary : e.summary_is_file ≡ true
  pub manifest : e.manifest_is_file ≡ true
  pub verified : e.verified ≡ some ([], true)

artifact_state-IsResumable :
    (evidence : List String → Evidence) (run : Option (List String))
    → (artifact_state evidence run).valid ≡ true
    → (artifact_state evidence run).resumable ≡ true
    → (r : List String) × (run ≡ some r) × IsResumable (evidence r)
unfolding artifact_state
artifact_state-IsResumable evidence none h k = cc
artifact_state-IsResumable evidence (some r) h k =
    (r, refl, ground (arith, checked-resumable (evidence r).verified))

reconciled :
    (o : Observed) (stale_after now : ℕ) {d : RecoveryDecision}
    → reconcile_job o stale_after now ≡ ok d
    → d ≡ decide (gather o stale_after now)
unfolding reconcile_job
reconciled o stale_after now h = ground arith

module _ (f : Facts) where
  alive-run_dir : (decide_alive f).run_dir ≡ f.run_dir
  unfolding decide_alive
  alive-run_dir = refl

  finalized-run_dir : (decide_finalized f).run_dir ≡ f.run_dir
  unfolding decide_finalized
  finalized-run_dir = refl

  damaged-run_dir : (decide_damaged f).run_dir ≡ f.run_dir
  unfolding decide_damaged
  damaged-run_dir = refl

  without_run-run_dir : (decide_without_run f).run_dir ≡ none
  unfolding decide_without_run
  without_run-run_dir = ground arith

  stopped-run_dir : (decide_stopped f).run_dir ≡ f.run_dir
  unfolding decide_stopped
  stopped-run_dir = ground arith

run_dir-decide :
    (f : Facts) {run : List String} → (decide f).run_dir ≡ some run → f.run_dir ≡ some run
unfolding decide
run_dir-decide f h = ground (
  arith,
  alive-run_dir f,
  finalized-run_dir f,
  damaged-run_dir f,
  without_run-run_dir f,
  stopped-run_dir f,
)

run_dir-resume :
    (f : Facts) → offers strict_resume (decide f) ≡ true → (decide f).run_dir ≡ f.run_dir
unfolding decide same_action
run_dir-resume f h = ground (
  arith,
  alive-run_dir f,
  finalized-run_dir f,
  damaged-run_dir f,
  stopped-run_dir f,
  decide_without_run-Offers f,
)

-- A decision that names a run directory although the status records a path names that path, and it
-- lies inside the job root: relative, without `..`, through no symbolic link.
pub run_dir-IsInside :
    (o : Observed) (stale_after now : ℕ) {d : RecoveryDecision} {p : RunPath} {run : List String}
    → reconcile_job o stale_after now ≡ ok d
    → posix_run_path o.status.run_dir ≡ some p
    → d.run_dir ≡ some run
    → IsInside o.files p × (run ≡ p.parts)
unfolding gather
run_dir-IsInside o stale_after now {p} h e r =
    run_path-IsInside o.files p (
      rw e at
        (run_dir-decide (gather o stale_after now) (rw (reconciled o stale_after now h) at r)))

-- A strict resume is offered only for a run whose summary and manifest are files that were read,
-- verified without an issue, and allow it.
pub strict_resume-IsResumable :
    (o : Observed) (stale_after now : ℕ) {d : RecoveryDecision}
    → reconcile_job o stale_after now ≡ ok d
    → offers strict_resume d ≡ true
    → (run : List String) × (d.run_dir ≡ some run) × IsResumable (o.evidence run)
unfolding gather
strict_resume-IsResumable o stale_after now {d} h s =
    let f = gather o stale_after now in
    let e = reconciled o stale_after now h in
    let s' : offers strict_resume (decide f) ≡ true = rw e at s in
    let exact = (resume_attach-exactly f).0.0 s' in
    let (run, known, ready) = artifact_state-IsResumable o.evidence f.run_dir exact.0 exact.1 in
    (run, rw e (run_dir-resume f s' ∙ known), ready)
