-- ===== src/Workflow/Coordinator/Rounds.antt =====
-- The loop over the stages in `run` of src/foampilot/workflow/coordinator.py tells a story.
use mathlib.Core.Path.{subst}
use mathlib.Core.List.{append-nil, append_assoc}
use foam_pilot.Prelude.{
  ◌≡◌, refl, sym, ◌∙◌, ◌+◌, ◌≢◌, String, none, some, List, [], ◌∷◌, ◌++◌, map, length, Result, ok,
  raise, arith,
}
use foam_pilot.Workflow.Records.{
  WorkflowStage, WorkflowState, run_completed, run_failed, run_deferred, run_cancelled,
}
use foam_pilot.Workflow.Store.{StoreError, WorkflowStore}
use foam_pilot.Workflow.Services.{
  WorkflowContext, StageStatus, stage_completed, stage_deferred, stage_failed, stage_cancelled,
  StageOutcome, StageService,
}
use foam_pilot.Workflow.Coordinator.{
  WorkflowCoordinatorSummary, Environment, Session, stop_at, after_stage, each_service,
  event_state_of, failure_or, or_text, workflow_failure,
}
use foam_pilot.Workflow.Coordinator.Story.{
  Mark, Story, all_complete, completes, defers, fails, cancels, never_starts,
}
use foam_pilot.Workflow.Coordinator.Appends.{Appends, Appends-trans, Appends-none}
use foam_pilot.Workflow.Coordinator.Stages.{
  and_then-rule, StageMarks, runs, skipped, Passed, Advanced, advance-Advanced,
}
use foam_pilot.Workflow.Coordinator.Endings.{Told, finalize-Finished, Ends, Finished-Ends}

Story-step :
    {s : WorkflowStage} {rest done : List WorkflowStage} {marks more : List Mark}
    {state : WorkflowState}
    → StageMarks s stage_completed marks
    → Story rest more state done
    → Story (s ∷ rest) (marks ++ more) state (s ∷ done)
unfolding event_state_of
Story-step {s} (runs stage_completed) story = completes s story

Story-defer :
    {s : WorkflowStage} {marks : List Mark} (rest : List WorkflowStage)
    → StageMarks s stage_deferred marks
    → Story (s ∷ rest) marks run_deferred []
unfolding event_state_of
Story-defer {s} rest (runs stage_deferred) = defers s rest

Story-fail :
    {s : WorkflowStage} {marks : List Mark} (rest : List WorkflowStage)
    → StageMarks s stage_failed marks
    → Story (s ∷ rest) marks run_failed []
unfolding event_state_of
Story-fail {s} rest (runs stage_failed) = fails s rest

Story-cancel :
    {s : WorkflowStage} {marks : List Mark} (rest : List WorkflowStage)
    → StageMarks s stage_cancelled marks
    → Story (s ∷ rest) marks run_cancelled []
unfolding event_state_of
Story-cancel {s} rest (runs stage_cancelled) = cancels s rest
Story-cancel {s} rest skipped = never_starts s rest

module _ {W J : Type 0} (env : Environment W J) (context : WorkflowContext) where
  abbrev Store : Type 0
  Store = WorkflowStore J WorkflowCoordinatorSummary

  -- the end of a run behind a stage that stopped it
  stop-Ends :
      (stage : WorkflowStage) (rest before : List WorkflowStage) (status : StageStatus)
      (state : WorkflowState) (code : String) (outcome : StageOutcome J) (s s1 : Session W J)
      (p : Passed env context stage status s.store s1.store)
      → Story (stage ∷ rest) p.marks state []
      → state ≢ run_completed
      → length s1.store.checkpoints ≡ length s.store.checkpoints + 0
      → let r = stop_at env context state code before outcome s1 in
        Ends env context (Story (stage ∷ rest)) before s r.0 r.1
  unfolding stop_at
  stop-Ends stage rest before status state code outcome s s1 p story n l =
      let failure =
        failure_or outcome.failure
          (workflow_failure code (or_text outcome.detail "stage did not complete")) in
      Finished-Ends env context (Story (stage ∷ rest)) before before [] p.marks state (some failure)
        s s1 (sym (append-nil before)) story p.appends l p.unfinished
        ((λ e. cc), (λ e. absurd (n e))) _ _
        (finalize-Finished env context state before (some failure) _ s1)

  -- after a stage that completed
  Told-step :
      (stage : WorkflowStage) (rest before : List WorkflowStage) (s s1 t : Store)
      (summary : WorkflowCoordinatorSummary)
      → Passed env context stage stage_completed s s1
      → Told env context (Story rest) (before ++ stage ∷ []) s1 t summary
      → Told env context (Story (stage ∷ rest)) before s t summary
  Told-step stage rest before s s1 t summary p k = record {
    marks = p.marks ++ k.marks;
    state = k.state;
    done = stage ∷ k.done;
    story = Story-step p.shown k.story;
    logged =
        subst (λ m. Appends env.codec context.attempt m s t) (sym (append_assoc p.marks k.marks _))
          (Appends-trans env.codec context.attempt p.appends k.logged);
    saved = omega (arith, p.saved, k.saved);
    outcome = k.outcome;
    listed = k.listed ∙ append_assoc before (stage ∷ []) k.done;
    blamed = k.blamed;
    unfinished = sym p.unfinished ∙ k.unfinished;
    finished = k.finished;
  }

  continue-Ends :
      (stage : WorkflowStage) (rest before : List WorkflowStage) (s s1 : Session W J)
      → Passed env context stage stage_completed s.store s1.store
      → (answer : Result StoreError WorkflowCoordinatorSummary) (t : Session W J)
      → Ends env context (Story rest) (before ++ stage ∷ []) s1 answer t
      → Ends env context (Story (stage ∷ rest)) before s answer t
  continue-Ends stage rest before s s1 p (ok summary) t k =
      Told-step stage rest before s.store s1.store t.store summary p k
  continue-Ends stage rest before s s1 p (raise e) t k = k

  after_stage-Ends :
      (stage : WorkflowStage) (rest before : List WorkflowStage) (status : StageStatus)
      (continue : Session W J → Result StoreError WorkflowCoordinatorSummary × Session W J)
      (outcome : StageOutcome J) (s s1 : Session W J)
      → Passed env context stage status s.store s1.store
      → let more = continue s1 in
        let r = after_stage env context status continue before outcome s1 in
        Ends env context (Story rest) (before ++ stage ∷ []) s1 more.0 more.1
        → Ends env context (Story (stage ∷ rest)) before s r.0 r.1
  unfolding after_stage
  after_stage-Ends stage rest before stage_completed continue outcome s s1 p k =
      continue-Ends stage rest before s s1 p _ _ k
  after_stage-Ends stage rest before stage_deferred continue outcome s s1 p k =
      stop-Ends stage rest before stage_deferred run_deferred _ outcome s s1 p
        (Story-defer rest p.shown) (λ e. cc) p.saved
  after_stage-Ends stage rest before stage_failed continue outcome s s1 p k =
      stop-Ends stage rest before stage_failed run_failed _ outcome s s1 p (Story-fail rest p.shown)
        (λ e. cc) p.saved
  after_stage-Ends stage rest before stage_cancelled continue outcome s s1 p k =
      stop-Ends stage rest before stage_cancelled run_cancelled _ outcome s s1 p
        (Story-cancel rest p.shown) (λ e. cc) p.saved

  pub each_service-Ends :
      (services : List (StageService W J)) (before : List WorkflowStage) (s : Session W J)
      → let r = each_service env context services before s in
        Ends env context (Story (map (λ service. service.stage) services)) before s r.0 r.1
  unfolding each_service
  each_service-Ends [] before s =
      Finished-Ends env context (Story []) before before [] [] run_completed none s s
        (sym (append-nil before)) all_complete (Appends-none env.codec context.attempt s.store)
        (omega arith) refl ((λ e. refl), (λ e. refl)) _ _
        (finalize-Finished env context run_completed before none _ s)
  each_service-Ends (service ∷ services) before s =
      and_then-rule (Advanced env context service.stage s)
        (Ends env context (Story (service.stage ∷ map (λ x. x.stage) services)) before s) _ _
        (advance-Advanced env context service s) (λ e w q. q)
        (λ outcome s1 p.
          after_stage-Ends service.stage _ before outcome.status _ outcome s s1 p
            (each_service-Ends services (before ++ service.stage ∷ []) s1))
