-- ===== src/Workflow/Coordinator/Refinement.antt =====
-- `WorkflowCoordinator.run` of src/foampilot/workflow/coordinator.py implements the stories of Story:
-- its events, checkpoints and summary are those of one story.
use foam_pilot.Prelude.{
  ◌≡◌, refl, ◌≤◌, ◌<◌, Option, none, some, List, [], map, Result, ok, raise, arith, tests, ltb,
  ltb→lt, inl, inr, Bool-cases,
}
use foam_pilot.Workflow.Records.{WorkflowStage, WorkflowState, run_failed}
use foam_pilot.Workflow.Store.{StoreError}
use foam_pilot.Workflow.Services.{WorkflowContext, StageService, same_stages}
use foam_pilot.Workflow.Coordinator.{
  WorkflowCoordinatorSummary, Environment, Session, RunError, not_resumable, services_differ,
  store_failed, each_service, exhausted, raising, run_required, run, required_order,
}
use foam_pilot.Workflow.Coordinator.Story.{Mark, Story}
use foam_pilot.Workflow.Coordinator.Appends.{Appends-none}
use foam_pilot.Workflow.Coordinator.Stages.{IsRefusal}
use foam_pilot.Workflow.Coordinator.Endings.{Told, finalize-Finished, Ends, Finished-Ends}
use foam_pilot.Workflow.Coordinator.Rounds.{each_service-Ends}

-- What a run can come to, with the stages of its services: its story, or at once a failure if more
-- repair cycles were used than allowed.
pub data RunStory (context : WorkflowContext) (required : List WorkflowStage)
    : List Mark → WorkflowState → List WorkflowStage → Type 0 where
  goes :
      {marks : List Mark} {state : WorkflowState} {done : List WorkflowStage}
      → context.repair_cycles_used ≤ context.max_repair_cycles
      → Story required marks state done
      → RunStory context required marks state done
  spent :
      context.max_repair_cycles < context.repair_cycles_used
      → RunStory context required [] run_failed []

module _ {W J : Type 0} (env : Environment W J) (context : WorkflowContext) where
  -- How `run` answers: with the summary of its story, or with an error of the store, which is never
  -- about the number or the text of an event; and it refuses other services before anything happens.
  abbrev pub Refines :
      List (StageService W J)
      → Session W J
      → Result RunError WorkflowCoordinatorSummary
      → Session W J
      → Type 0
  Refines services s (ok summary) t =
      Told env context (RunStory context (map (λ service. service.stage) services)) [] s.store
        t.store summary
  Refines services s (raise (store_failed e)) t = IsRefusal e
  Refines services s (raise not_resumable) t = t ≡ s
  Refines services s (raise services_differ) t = t ≡ s

  raising-Refines :
      (services : List (StageService W J)) (s : Session W J)
      (r : Result StoreError WorkflowCoordinatorSummary × Session W J)
      → Ends env context (RunStory context (map (λ service. service.stage) services)) [] s r.0 r.1
      → let r' = raising env context r in Refines services s r'.0 r'.1
  unfolding raising
  raising-Refines services s (ok summary, t) h = h
  raising-Refines services s (raise e, t) h = h

  Ends-goes :
      (required : List WorkflowStage) (s : Session W J)
      → context.repair_cycles_used ≤ context.max_repair_cycles
      → (answer : Result StoreError WorkflowCoordinatorSummary) (t : Session W J)
      → Ends env context (Story required) [] s answer t
      → Ends env context (RunStory context required) [] s answer t
  Ends-goes required s b (ok summary) t k = record {
    marks = k.marks;
    state = k.state;
    done = k.done;
    story = goes b k.story;
    logged = k.logged;
    saved = k.saved;
    outcome = k.outcome;
    listed = k.listed;
    blamed = k.blamed;
    unfinished = k.unfinished;
    finished = k.finished;
  }
  Ends-goes required s b (raise e) t k = k

  exhausted-Ends :
      (required : List WorkflowStage) (s : Session W J)
      → context.max_repair_cycles < context.repair_cycles_used
      → let r = exhausted env context s in Ends env context (RunStory context required) [] s r.0 r.1
  unfolding exhausted
  exhausted-Ends required s b =
      Finished-Ends env context (RunStory context required) [] [] [] [] run_failed (some _) s s refl
        (spent b) (Appends-none env.codec context.attempt s.store) (omega arith) refl
        ((λ e. cc), (λ e. cc)) _ _ (finalize-Finished env context run_failed [] (some _) _ s)

  run_required-Refines :
      (required : Option (List WorkflowStage)) (services : List (StageService W J))
      (s : Session W J)
      → let r = run_required env context required services s in Refines services s r.0 r.1
  unfolding run_required
  run_required-Refines none services s = refl
  run_required-Refines (some required) services s =
      let stages : List WorkflowStage = map (λ service. service.stage) services in
      elim (Bool-cases (same_stages stages required)) [
        | inr e ↦ rw (e, run_required) refl
        | inl e ↦ elim (Bool-cases (ltb context.max_repair_cycles context.repair_cycles_used)) [
          | inl b ↦
              rw (e, b, run_required)
                (raising-Refines services s (exhausted env context s) (
                  exhausted-Ends stages s
                    (ltb→lt context.max_repair_cycles context.repair_cycles_used b)))
          | inr b ↦
              rw (e, b, run_required)
                (raising-Refines services s (each_service env context services [] s) (
                  Ends-goes stages s (grind (tests, b)) _ _
                    (each_service-Ends env context services [] s)))
        ]
      ]

  -- A run that returns a summary has told one story of the stages of its services: the log grew by
  -- exactly the marks of that story and the final event, with the next numbers and the attempt of
  -- the run; each completed stage added one checkpoint; and the summary, written where none was,
  -- names the state and the completed stages of the story, and a failure exactly if the run did not
  -- complete. A run that raises has changed nothing, or met a checkpoint with an unsafe name or with
  -- a payload that is no JSON, or a file that exists already, or its listener raised.
  pub run-Refines :
      (services : List (StageService W J)) (s : Session W J)
      → let r = run env context services s in Refines services s r.0 r.1
  unfolding run
  run-Refines services s = run_required-Refines (required_order context) services s
