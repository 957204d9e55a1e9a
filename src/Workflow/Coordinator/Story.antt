-- ===== src/Workflow/Coordinator/Story.antt =====
-- What a run of src/foampilot/workflow/coordinator.py can come to, apart from stores and clocks: the
-- stages with the states that the log shows of them.
use foam_pilot.Prelude.{◌≡◌, refl, ap, List, [], ◌∷◌, ◌++◌}
use foam_pilot.Workflow.Records.{
  WorkflowStage, WorkflowEventState, started, completed, failed, deferred, cancelled, WorkflowState,
  run_completed, run_failed, run_deferred, run_cancelled,
}

abbrev pub Mark : Type 0
Mark = WorkflowStage × WorkflowEventState

-- `Story required marks state done`: with the stages `required` to go, the log gets `marks`, the run
-- ends in `state`, and `done` are the stages that complete.
pub data Story : List WorkflowStage → List Mark → WorkflowState → List WorkflowStage → Type 0 where
  all_complete : Story [] [] run_completed []
  completes :
      (s : WorkflowStage) {rest : List WorkflowStage} {marks : List Mark} {state : WorkflowState}
      {done : List WorkflowStage}
      → Story rest marks state done
      → Story (s ∷ rest) ((s, started) ∷ (s, completed) ∷ marks) state (s ∷ done)
  defers :
      (s : WorkflowStage) (rest : List WorkflowStage)
      → Story (s ∷ rest) ((s, started) ∷ (s, deferred) ∷ []) run_deferred []
  fails :
      (s : WorkflowStage) (rest : List WorkflowStage)
      → Story (s ∷ rest) ((s, started) ∷ (s, failed) ∷ []) run_failed []
  cancels :
      (s : WorkflowStage) (rest : List WorkflowStage)
      → Story (s ∷ rest) ((s, started) ∷ (s, cancelled) ∷ []) run_cancelled []
  never_starts :
      (s : WorkflowStage) (rest : List WorkflowStage)
      → Story (s ∷ rest) ((s, cancelled) ∷ []) run_cancelled []

-- the stages that complete are the first ones
pub Story-prefix :
    {required done : List WorkflowStage} {marks : List Mark} {state : WorkflowState}
    → Story required marks state done
    → (rest : List WorkflowStage) × (required ≡ done ++ rest)
Story-prefix all_complete = ([], refl)
Story-prefix (completes s story) = let (rest, e) = Story-prefix story in (rest, ap (λ l. s ∷ l) e)
Story-prefix (defers s rest) = (s ∷ rest, refl)
Story-prefix (fails s rest) = (s ∷ rest, refl)
Story-prefix (cancels s rest) = (s ∷ rest, refl)
Story-prefix (never_starts s rest) = (s ∷ rest, refl)

-- a run that completes has completed all stages
pub Story-complete :
    {required done : List WorkflowStage} {marks : List Mark} {state : WorkflowState}
    → Story required marks state done
    → state ≡ run_completed
    → done ≡ required
Story-complete all_complete e = refl
Story-complete (completes s story) e = ap (λ l. s ∷ l) (Story-complete story e)
Story-complete (defers s rest) e = cc
Story-complete (fails s rest) e = cc
Story-complete (cancels s rest) e = cc
Story-complete (never_starts s rest) e = cc
