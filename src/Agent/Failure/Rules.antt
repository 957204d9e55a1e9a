-- ===== src/Agent/Failure/Rules.antt =====
-- src/foampilot/agent/failure.py: the branches of `classify_native_failure`, one rule each.
use Prim.Native.String.{◌++◌ as str_append}
use text.Mathlib.Text.{◌==◌, starts_with}
use foam_pilot.Prelude.Texts.{casefold, text_or}
use foam_pilot.Prelude.{
  String, Bool, true, false, not, ◌&&◌, ◌||◌, Option, none, some, List, [], ◌∷◌, any, if◌then◌else◌,
}
use foam_pilot.Evidence.Assessment.{FailureLayer, initialization_failed, NativeErrorFact, RunFacts}
use foam_pilot.Plans.Validation.{ExecutionPlan, is_mesh}
use foam_pilot.Agent.Failure.Hints.{keyword_hints}
use foam_pilot.Agent.Failure.Contracts.{
  RepairOperation, stage_of, postprocess_stage, add_file, replace_file, insert_command_before,
  insert_command_after, remove_command,
}
use foam_pilot.Agent.Failure.Validity.{is_stage}

abbrev pub listed : Option String → List String
listed none = []
listed (some s) = s ∷ []

-- `by_code.get(code)`: the dictionary keeps the last fact with a code
unfoldable pub fact_of : String → List NativeErrorFact → Option NativeErrorFact
fact_of code [] = none
fact_of code (e ∷ errors) = elim (fact_of code errors) [
  | some f ↦ some f
  | none ↦ if e.code == code then some e else none
]

unfoldable pub has_mesh_command : ExecutionPlan → Bool
has_mesh_command p = any (λ c. is_mesh c.stage) p.commands

-- what a branch of `classify_native_failure` decides
pub record Diagnosis : Type 0 where
  pub code : String
  pub files : List String
  pub dictionary_blocks : List String
  pub allowed : List RepairOperation

abbrev pub diagnosis : String → List String → List String → List RepairOperation → Diagnosis
diagnosis code files blocks allowed = record {
  code = code;
  files = files;
  dictionary_blocks = blocks;
  allowed = allowed;
}

abbrev pub missing_command : Diagnosis
missing_command =
    diagnosis "missing_typed_command" [] [] (insert_command_before ∷ insert_command_after ∷ [])

unfoldable pub names_poly_mesh : Option NativeErrorFact → Bool
names_poly_mesh none = false
names_poly_mesh (some f) = elim f.path [
  | none ↦ false
  | some path ↦ starts_with (casefold path) "constant/polymesh/"
]

unfoldable pub poly_mesh_rule : ExecutionPlan → List NativeErrorFact → Option Diagnosis
unfolding names_poly_mesh
poly_mesh_rule p errors =
    if names_poly_mesh (fact_of "MISSING_CASE_FILE" errors) && not (has_mesh_command p)
    then some missing_command
    else none

unfoldable pub keyword_rule : List NativeErrorFact → Option Diagnosis
keyword_rule errors = elim (fact_of "MISSING_DICTIONARY_KEYWORD" errors) [
  | none ↦ none
  | some f ↦ some (
      diagnosis "missing_dictionary_keyword" (keyword_hints (text_or f.subject "unknown") f.path).0
        (keyword_hints (text_or f.subject "unknown") f.path).1 (replace_file ∷ []))
]

unfoldable pub function_object_rule : List NativeErrorFact → Option Diagnosis
function_object_rule errors = elim (fact_of "UNKNOWN_FUNCTION_OBJECT_TYPE" errors) [
  | none ↦ none
  | some f ↦ some (
      diagnosis "unknown_function_object_type" ("system/controlDict" ∷ []) ("functions" ∷ [])
        (replace_file ∷ []))
]

unfoldable pub is_initialization : FailureLayer → Bool
is_initialization initialization_failed = true
is_initialization _ = false

unfoldable pub initialization_rule : FailureLayer → Option String → Option Diagnosis
unfolding is_initialization
initialization_rule layer none = if is_initialization layer then some missing_command else none
initialization_rule layer (some id) = none

unfoldable pub may_remove : FailureLayer → Option String → Bool
may_remove layer step_id =
    is_stage postprocess_stage (stage_of layer) || starts_with (text_or step_id "") "optional"

unfoldable pub option_rule : FailureLayer → Option String → List NativeErrorFact → Option Diagnosis
option_rule layer step_id errors = elim (fact_of "INVALID_OPTION" errors) [
  | none ↦ none
  | some f ↦
      if may_remove layer step_id
      then some (diagnosis "unsupported_typed_command" [] [] (remove_command ∷ []))
      else none
]

unfoldable pub case_file_rule : List NativeErrorFact → Option Diagnosis
case_file_rule errors = elim (fact_of "MISSING_CASE_FILE" errors) [
  | none ↦ none
  | some f ↦ some (diagnosis "missing_case_file" (listed f.path) [] (add_file ∷ []))
]

unfoldable pub object_files : String → List String
object_files name =
    if name == "rho" || name == "thermo:rho" then "0/p_rgh" ∷ [] else str_append "0/" name ∷ []

unfoldable pub registry_rule : List NativeErrorFact → Option Diagnosis
unfolding object_files
registry_rule errors = elim (fact_of "MISSING_REGISTRY_OBJECT" errors) [
  | none ↦ none
  | some f ↦ some (
      diagnosis "missing_registry_object" (object_files (text_or f.subject "unknown")) []
        (add_file ∷ replace_file ∷ []))
]

unfoldable pub dimension_rule : List NativeErrorFact → Option Diagnosis
dimension_rule errors = elim (fact_of "DIMENSION_MISMATCH" errors) [
  | none ↦ none
  | some f ↦ some (
      diagnosis "dimension_mismatch" (text_or f.path "constant/physicalProperties" ∷ []) []
        (replace_file ∷ []))
]

unfoldable pub instability_rule : RunFacts → Option Diagnosis
instability_rule facts =
    if any (λ e. e.code == "NON_FINITE_VALUE" || e.code == "FLOATING_POINT_EXCEPTION")
        facts.native_errors
      || any (λ c. c.maximum_above_1) facts.courant
    then some (diagnosis "numerical_instability" ("system/controlDict" ∷ []) [] (replace_file ∷ []))
    else none

unfoldable pub first_of : List (Option Diagnosis) → Option Diagnosis
first_of [] = none
first_of (some d ∷ rules) = some d
first_of (none ∷ rules) = first_of rules

-- the branches of `classify_native_failure` for a run that no inspection refused, in their order;
-- `none` is its `else`
unfoldable pub diagnose : ExecutionPlan → FailureLayer → Option String → RunFacts → Option Diagnosis
diagnose p layer step_id facts = first_of (
    poly_mesh_rule p facts.native_errors
    ∷ keyword_rule facts.native_errors
    ∷ function_object_rule facts.native_errors
    ∷ initialization_rule layer step_id
    ∷ option_rule layer step_id facts.native_errors
    ∷ case_file_rule facts.native_errors
    ∷ registry_rule facts.native_errors
    ∷ dimension_rule facts.native_errors
    ∷ instability_rule facts
    ∷ [])
