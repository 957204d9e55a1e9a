-- ===== src/Workflow/Coordinator/Endings.antt =====
-- The end of a run of src/foampilot/workflow/coordinator.py: the final event and the summary.
use foam_pilot.Prelude.{
  ◌≡◌, refl, sym, ap, ◌∙◌, ◌+◌, ◌↔◌, String, Option, none, some, List, [], ◌∷◌, ◌++◌, length,
  Result, ok, raise, inl, inr, Option-cases,
}
use foam_pilot.Workflow.Records.{
  WorkflowStage, run_finalized, WorkflowState, run_completed, FailureRecord,
}
use foam_pilot.Workflow.Store.{StoreError, WorkflowStore, finish}
use foam_pilot.Workflow.Services.{WorkflowContext}
use foam_pilot.Workflow.Coordinator.{
  WorkflowCoordinatorSummary, Environment, Session, and_then, finalize, final_event_state,
}
use foam_pilot.Workflow.Coordinator.Story.{Mark}
use foam_pilot.Workflow.Coordinator.Appends.{Appends, Appends-trans, Appends-summary}
use foam_pilot.Workflow.Coordinator.Stages.{IsRefusal, and_then-rule, Noted, record_stage-Noted}

module _ {W J : Type 0} (env : Environment W J) (context : WorkflowContext) where
  abbrev Store : Type 0
  Store = WorkflowStore J WorkflowCoordinatorSummary

  -- the log got the marks and the final event, one checkpoint for each completed stage was added,
  -- and the summary, the first one, tells the same
  pub record Told (Tale : List Mark → WorkflowState → List WorkflowStage → Type 0)
      (before : List WorkflowStage) (s t : Store) (summary : WorkflowCoordinatorSummary)
      : Type 0 where
    pub marks : List Mark
    pub state : WorkflowState
    pub done : List WorkflowStage
    pub story : Tale marks state done
    pub logged :
        Appends env.codec context.attempt
          (marks ++ (run_finalized, final_event_state state) ∷ [])
          s
          t
    pub saved : length t.checkpoints ≡ length s.checkpoints + length done
    pub outcome : summary.workflow_state ≡ state
    pub listed : summary.completed_stages ≡ before ++ done
    pub blamed : (summary.failure ≡ none) ↔ (state ≡ run_completed)
    pub unfinished : s.summary ≡ none
    pub finished : t.summary ≡ some summary

  abbrev pub Finished :
      WorkflowState
      → List WorkflowStage
      → Option FailureRecord
      → Session W J
      → Result StoreError WorkflowCoordinatorSummary
      → Session W J
      → Type 0
  Finished state done failure s (ok summary) t =
      Appends env.codec context.attempt ((run_finalized, final_event_state state) ∷ []) s.store
        t.store
      × (t.store.checkpoints ≡ s.store.checkpoints)
      × (summary.workflow_state ≡ state)
      × (summary.completed_stages ≡ done)
      × (summary.failure ≡ failure)
      × (s.store.summary ≡ none)
      × (t.store.summary ≡ some summary)
  Finished state done failure s (raise e) t = IsRefusal e

  pub finalize-Finished :
      (state : WorkflowState) (done : List WorkflowStage) (failure : Option FailureRecord)
      (detail : String) (s : Session W J)
      → let r = finalize env context state done failure detail s in
        Finished state done failure s r.0 r.1
  unfolding finalize finish and_then
  finalize-Finished state done failure detail s =
      and_then-rule (Noted env context ((run_finalized, final_event_state state) ∷ []) s)
        (Finished state done failure s) _ _
        (record_stage-Noted env context run_finalized (final_event_state state) detail _ s)
        (λ e w z. z)
        (λ _ s1 z. elim (Option-cases s1.store.summary) [
          | inl e ↦
              rw (e, finish)
                (
                  Appends-summary env.codec context.attempt _ z.0,
                  z.1,
                  refl,
                  refl,
                  refl,
                  sym z.2 ∙ e,
                  refl,
                )
          | inr (x, e) ↦ rw (e, finish) tt
        ])

  abbrev pub Ends :
      (List Mark → WorkflowState → List WorkflowStage → Type 0)
      → List WorkflowStage
      → Session W J
      → Result StoreError WorkflowCoordinatorSummary
      → Session W J
      → Type 0
  Ends Tale before s (ok summary) t = Told Tale before s.store t.store summary
  Ends Tale before s (raise e) t = IsRefusal e

  -- a story that is told up to `s1`, and what `finalize` makes of it
  pub Finished-Ends :
      (Tale : List Mark → WorkflowState → List WorkflowStage → Type 0)
      (all before done : List WorkflowStage) (marks : List Mark) (state : WorkflowState)
      (failure : Option FailureRecord) (s s1 : Session W J)
      → all ≡ before ++ done
      → Tale marks state done
      → Appends env.codec context.attempt marks s.store s1.store
      → length s1.store.checkpoints ≡ length s.store.checkpoints + length done
      → s1.store.summary ≡ s.store.summary
      → (failure ≡ none) ↔ (state ≡ run_completed)
      → (answer : Result StoreError WorkflowCoordinatorSummary) (t : Session W J)
      → Finished state all failure s1 answer t
      → Ends Tale before s answer t
  Finished-Ends Tale all before done marks state failure s s1 v tale a l u b (raise e) t f = f
  Finished-Ends Tale all before done marks state failure s s1 v tale a l u b (ok summary) t
        (logged, kept, outcome, listed, blame, fresh, finished) =
      record {
        marks = marks;
        state = state;
        done = done;
        story = tale;
        logged = Appends-trans env.codec context.attempt a logged;
        saved = ap (λ c. length c) kept ∙ l;
        outcome = outcome;
        listed = listed ∙ v;
        blamed = rw (blame) b;
        unfinished = sym u ∙ fresh;
        finished = finished;
      }
