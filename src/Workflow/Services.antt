-- ===== src/Workflow/Services.antt =====
-- src/foampilot/workflow/services.py: the contracts of the stage services and the order of the stages.
use text.Mathlib.Text.{◌==◌}
use foam_pilot.Prelude.{
  ℕ, String, Bool, true, false, not, ◌&&◌, ◌||◌, Option, none, some, List, [], ◌∷◌, if◌then◌else◌,
  Result, ok, raise,
}
use foam_pilot.Workflow.Records.{
  WorkflowStage, FailureRecord, stage_name, ingesting_assets, inspecting_input, interpreting_intent,
  resolving_requirements, designing_case, acceptance_compiled, observation_planned, case_authored,
  verifying_case, executing, extracting_evidence, run_assessed, postprocessed, acceptance_evaluated,
}

pub record WorkflowContext : Type 0 where
  pub run_id : String
  pub task_id : String
  pub attempt : ℕ
  pub start_stage : Option WorkflowStage
  pub repair_cycles_used : ℕ
  pub max_repair_cycles : ℕ

pub data StageStatus : Type 0 where
  stage_completed stage_deferred stage_failed stage_cancelled : StageStatus

pub record StageOutcome (J : Type 0) : Type 0 where
  pub status : StageStatus
  pub checkpoint_name : Option String
  pub checkpoint_payload : Option J
  pub detail : String
  pub failure : Option FailureRecord
  pub artifact_paths : List String

-- `not text` of an optional text
unfoldable pub is_blank : Option String → Bool
is_blank none = true
is_blank (some t) = t == ""

unfoldable pub is_given {ℓ} : {A : Type ℓ} → Option A → Bool
is_given none = false
is_given (some a) = true

-- `StageOutcome.validate_contract`: whether the outcome passes
unfoldable pub validate_contract : {J : Type 0} → StageOutcome J → Bool
unfolding is_blank is_given
validate_contract o = elim o.status [
  | stage_completed ↦
      if is_blank o.checkpoint_name || not (is_given o.checkpoint_payload)
      then false
      else not (is_given o.failure)
  | stage_deferred ↦ is_given o.failure
  | stage_failed ↦ is_given o.failure
  | stage_cancelled ↦ true
]

-- A service may change the world `W`, and returns an outcome or raises an exception of a named type.
pub record StageService (W J : Type 0) : Type 0 where
  pub stage : WorkflowStage
  pub run : WorkflowContext → W → Result String (StageOutcome J) × W

-- an outcome exists only if its construction did not raise
unfoldable pub constructed :
    {J : Type 0} → Result String (StageOutcome J) → Result String (StageOutcome J)
constructed (raise name) = raise name
constructed (ok o) = if validate_contract o then ok o else raise "ValidationError"

-- `CANONICAL_STAGE_ORDER`
unfoldable pub canonical_stage_order : List WorkflowStage
canonical_stage_order =
    ingesting_assets ∷ inspecting_input ∷ interpreting_intent ∷ resolving_requirements
    ∷ designing_case ∷ acceptance_compiled ∷ observation_planned ∷ case_authored ∷ verifying_case
    ∷ executing ∷ extracting_evidence ∷ run_assessed ∷ postprocessed ∷ acceptance_evaluated ∷ []

-- Stages are texts, and are compared as texts.
unfoldable pub same_stage : WorkflowStage → WorkflowStage → Bool
unfolding stage_name
same_stage s t = stage_name s == stage_name t

-- the stages from the first `start` on, or `none` where `index` raises
unfoldable pub from_stage : WorkflowStage → List WorkflowStage → Option (List WorkflowStage)
from_stage start [] = none
from_stage start (s ∷ stages) =
    let rest = from_stage start stages in if same_stage s start then some (s ∷ stages) else rest

unfoldable pub same_stages : List WorkflowStage → List WorkflowStage → Bool
same_stages [] [] = true
same_stages (s ∷ stages) (t ∷ others) = same_stage s t && same_stages stages others
same_stages _ _ = false
