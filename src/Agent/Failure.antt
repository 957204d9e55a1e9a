-- ===== src/Agent/Failure.antt =====
-- src/foampilot/agent/failure.py: the classification of a failed run from public evidence.
mod Hints
mod Contracts
mod Validity
mod Rules
pub mod Agreement
pub mod Paths
pub mod Operations
mod Examples
unfoldable pub use Hints.{
  keyword_hints, insert, by_length, covers, declared_match, resolve_each, distinct,
  resolve_declared_paths,
}
unfoldable pub use Contracts.*
unfoldable pub use Validity.*
unfoldable pub use Rules.*
use Prim.Native.String.{◌++◌ as str_append}
use text.Mathlib.Text.{◌==◌, starts_with}
use foam_pilot.Prelude.Texts.{casefold, lower, is_identifier, take_text, text_or}
use foam_pilot.Prelude.{
  String, Bool, true, false, not, ◌&&◌, ◌||◌, Option, none, some, List, [], ◌∷◌, ◌++◌, map, any,
  if◌then◌else◌, Result, ok, raise,
}
use foam_pilot.Evidence.Assessment.{
  FailureLayer, environment_blocked, static_inspection_failed, mesh_failed, mesh_quality_failed,
  initialization_failed, solver_failed, postprocess_failed, NativeErrorFact, RunFacts,
  RunAssessment,
}
use foam_pilot.Plans.Validation.{ExecutionPlan, is_mesh}
use foam_pilot.Workflow.Records.{inspection}

-- `prior_failure` as the text that its evidence shows
abbrev pub prior_evidence : Option String → List FailureEvidence
prior_evidence none = []
prior_evidence (some s) = record { kind = prior_failure; value = s } ∷ []

unfoldable pub inspection_result :
    RunAssessment → Option String → InspectionIssue → NativeFailureClassification
inspection_result assessment prior issue = record {
  domain = inspection;
  code = lower issue.code;
  confidence = high;
  failed_stage = none;
  failed_step_id = assessment.failed_step_id;
  evidence =
      prior_evidence prior
      ++ record {
        kind = inspection_issue;
        value = str_append issue.code (str_append ":" (text_or issue.path "<case>"));
      }
        ∷ [];
  scope_hints = record {
    files = listed issue.path;
    dictionary_blocks = [];
    commands = listed assessment.failed_step_id;
  };
  allowed_operations = replace_file ∷ [];
}

unfoldable pub result_of :
    ExecutionPlan
    → FailureLayer
    → RunAssessment
    → Option String
    → Option Diagnosis
    → NativeFailureClassification
result_of p layer assessment prior none = record {
  domain = domain_of layer;
  code = "unclassified_native_failure";
  confidence = low;
  failed_stage = stage_of layer;
  failed_step_id = assessment.failed_step_id;
  evidence =
      prior_evidence prior
      ++ record { kind = run_assessment; value = take_text 500 assessment.detail } ∷ [];
  scope_hints = record {
    files = [];
    dictionary_blocks = [];
    commands = listed assessment.failed_step_id;
  };
  allowed_operations = replace_file ∷ [];
}
result_of p layer assessment prior (some d) = record {
  domain = domain_of layer;
  code = d.code;
  confidence = high;
  failed_stage = stage_of layer;
  failed_step_id = assessment.failed_step_id;
  evidence = prior_evidence prior ++ record { kind = run_fact; value = d.code } ∷ [];
  scope_hints = record {
    files = resolve_declared_paths d.files (map (λ f. f.path) p.files);
    dictionary_blocks = d.dictionary_blocks;
    commands = listed assessment.failed_step_id;
  };
  allowed_operations = d.allowed;
}

unfoldable pub classify_in :
    ExecutionPlan
    → FailureLayer
    → RunAssessment
    → RunFacts
    → List InspectionIssue
    → Option String
    → Result ClassifyError NativeFailureClassification
classify_in p layer assessment facts (issue ∷ issues) prior =
    publish (inspection_result assessment prior issue) layer assessment
classify_in p layer assessment facts [] prior =
    publish (result_of p layer assessment prior (diagnose p layer assessment.failed_step_id facts))
      layer assessment

-- `issues` are those of the inspection report, none of them without a report
unfoldable pub classify_native_failure :
    ExecutionPlan
    → RunAssessment
    → RunFacts
    → List InspectionIssue
    → Option String
    → Result ClassifyError NativeFailureClassification
classify_native_failure p assessment facts issues prior = elim assessment.failure_layer [
  | none ↦ raise passing_report
  | some layer ↦ classify_in p layer assessment facts issues prior
]
