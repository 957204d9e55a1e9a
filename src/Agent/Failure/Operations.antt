-- ===== src/Agent/Failure/Operations.antt =====
-- Which repairs a classification of src/foampilot/agent/failure.py allows, and on what evidence.
use mathlib.Core.Path.{subst}
use text.Mathlib.Text.{◌==◌, starts_with}
use foam_pilot.Prelude.Texts.{casefold}
use foam_pilot.Prelude.{
  String, ◌≡◌, ◌⊎◌, inl, inr, refl, ap, Bool, true, false, not, ◌&&◌, ◌||◌, Option, none, some,
  List, [], ◌∷◌, All, Some, any, arith, eq_iff, Option-cases, Bool-cases, ok, sym, ◌∙◌,
}
use foam_pilot.Evidence.Assessment.{
  FailureLayer, initialization_failed, NativeErrorFact, RunFacts, RunAssessment,
}
use foam_pilot.Plans.Validation.{ExecutionPlan}
use foam_pilot.Agent.Failure.{
  NativeFailureClassification, RepairOperation, add_file, replace_file, insert_command_before,
  insert_command_after, replace_command, remove_command, fact_of, has_mesh_command, Diagnosis,
  poly_mesh_rule, names_poly_mesh, keyword_rule, function_object_rule, initialization_rule,
  is_initialization, may_remove, option_rule, case_file_rule, registry_rule, dimension_rule,
  instability_rule, first_of, diagnose, publish, validate_failure_classification, result_of,
  classify_in, classify_native_failure,
}
use foam_pilot.Agent.Failure.Agreement.{in_layer}

unfoldable pub same_operation : RepairOperation → RepairOperation → Bool
same_operation add_file add_file = true
same_operation replace_file replace_file = true
same_operation insert_command_before insert_command_before = true
same_operation insert_command_after insert_command_after = true
same_operation replace_command replace_command = true
same_operation remove_command remove_command = true
same_operation _ _ = false

abbrev pub allows : RepairOperation → List RepairOperation → Bool
allows o l = any (same_operation o) l

-- a file of the mesh is missing
abbrev pub LacksMeshFile : List NativeErrorFact → Type 0
LacksMeshFile = Some (λ e.
    (e.code ≡ "MISSING_CASE_FILE")
    × ((path : String) × (e.path ≡ some path)
        × (starts_with (casefold path) "constant/polymesh/" ≡ true)))

abbrev pub HasFact : String → List NativeErrorFact → Type 0
HasFact code = Some (λ e. e.code ≡ code)

fact_of-HasFact :
    (code : String) (errors : List NativeErrorFact) {f : NativeErrorFact}
    → fact_of code errors ≡ some f
    → HasFact code errors
unfolding fact_of
fact_of-HasFact code [] h = cc
fact_of-HasFact code (e ∷ errors) h = elim (Option-cases (fact_of code errors)) [
  | inl n ↦ inl (ground (arith, n, h, eq_iff e.code code))
  | inr (g, k) ↦ inr (fact_of-HasFact code errors k)
]

names_poly_mesh-path :
    (f : NativeErrorFact)
    → names_poly_mesh (some f) ≡ true
    → (path : String) × (f.path ≡ some path)
      × (starts_with (casefold path) "constant/polymesh/" ≡ true)
unfolding names_poly_mesh
names_poly_mesh-path f h = elim (Option-cases f.path) [
  | inl e ↦ absurd (ground (arith, e, h))
  | inr (path, e) ↦ (path, e, ground (arith, e, h))
]

fact_of-LacksMeshFile :
    (errors : List NativeErrorFact) {f : NativeErrorFact}
    → fact_of "MISSING_CASE_FILE" errors ≡ some f
    → names_poly_mesh (some f) ≡ true
    → LacksMeshFile errors
unfolding fact_of
fact_of-LacksMeshFile [] h t = cc
fact_of-LacksMeshFile (e ∷ errors) {f} h t =
    elim (Option-cases (fact_of "MISSING_CASE_FILE" errors)) [
      | inl n ↦
          let same : e ≡ f = ground (arith, n, h) in
          inl (
            ground (arith, n, h, eq_iff e.code "MISSING_CASE_FILE"),
            names_poly_mesh-path e (ap (λ g. names_poly_mesh (some g)) same ∙ t),
          )
      | inr (g, k) ↦ inr (fact_of-LacksMeshFile errors k (ground (arith, k, h, t)))
    ]

module _ (p : ExecutionPlan) (layer : FailureLayer) (step : Option String)
    (errors : List NativeErrorFact) where
  -- The evidence for the operations that change the commands or add a file.
  abbrev pub Justified : List RepairOperation → Type 0
  Justified l =
      (allows replace_command l ≡ false)
      × (allows remove_command l ≡ true
          → HasFact "INVALID_OPTION" errors × (may_remove layer step ≡ true))
      × (allows insert_command_before l ≡ true
          → (LacksMeshFile errors × (has_mesh_command p ≡ false))
            ⊎ ((layer ≡ initialization_failed) × (step ≡ none)))
      × (allows insert_command_after l ≡ allows insert_command_before l)
      × (allows add_file l ≡ true
          → HasFact "MISSING_CASE_FILE" errors ⊎ HasFact "MISSING_REGISTRY_OBJECT" errors)

  abbrev IsJustified : Option Diagnosis → Type 0
  IsJustified none = Unit {0}
  IsJustified (some d) = Justified d.allowed

  first_of-IsJustified :
      (l : List (Option Diagnosis)) → All IsJustified l → IsJustified (first_of l)
  unfolding first_of
  first_of-IsJustified [] h = tt
  first_of-IsJustified (some d ∷ l) h = h.0
  first_of-IsJustified (none ∷ l) h = first_of-IsJustified l h.1

  -- an allowance of replacing files alone needs no evidence
  replacing : Justified (replace_file ∷ [])
  unfolding same_operation
  replacing = ground arith

  inserting :
      (LacksMeshFile errors × (has_mesh_command p ≡ false))
        ⊎ ((layer ≡ initialization_failed) × (step ≡ none))
      → Justified (insert_command_before ∷ insert_command_after ∷ [])
  unfolding same_operation
  inserting h = (refl, (λ k. cc), (λ k. h), refl, (λ k. cc))

  poly_mesh_rule-IsJustified : IsJustified (poly_mesh_rule p errors)
  unfolding poly_mesh_rule
  poly_mesh_rule-IsJustified = elim (Option-cases (fact_of "MISSING_CASE_FILE" errors)) [
    | inl e ↦ rw (e, names_poly_mesh) tt
    | inr (f, e) ↦ elim (Bool-cases (names_poly_mesh (some f) && not (has_mesh_command p))) [
      | inl t ↦ rw e (
          rw t (
            inserting
              (inl (fact_of-LacksMeshFile errors e (ground (arith, t)), ground (arith, t)))))
      | inr t ↦ rw e (rw t tt)
    ]
  ]

  keyword_rule-IsJustified : IsJustified (keyword_rule errors)
  unfolding keyword_rule
  keyword_rule-IsJustified = elim (Option-cases (fact_of "MISSING_DICTIONARY_KEYWORD" errors)) [
    | inl e ↦ rw (e, keyword_rule) tt
    | inr (f, e) ↦ rw (e, keyword_rule) replacing
  ]

  function_object_rule-IsJustified : IsJustified (function_object_rule errors)
  unfolding function_object_rule
  function_object_rule-IsJustified =
      elim (Option-cases (fact_of "UNKNOWN_FUNCTION_OBJECT_TYPE" errors)) [
        | inl e ↦ rw (e, function_object_rule) tt
        | inr (f, e) ↦ rw (e, function_object_rule) replacing
      ]

  option_rule-IsJustified : IsJustified (option_rule layer step errors)
  unfolding option_rule same_operation
  option_rule-IsJustified = elim (Option-cases (fact_of "INVALID_OPTION" errors)) [
    | inl e ↦ rw (e, option_rule) tt
    | inr (f, e) ↦ elim (Bool-cases (may_remove layer step)) [
      | inl t ↦
          rw (e, option_rule)
            (rw t (refl, (λ k. (fact_of-HasFact _ errors e, t)), (λ k. cc), refl, (λ k. cc)))
      | inr t ↦ rw (e, option_rule) (rw t tt)
    ]
  ]

  case_file_rule-IsJustified : IsJustified (case_file_rule errors)
  unfolding case_file_rule same_operation
  case_file_rule-IsJustified = elim (Option-cases (fact_of "MISSING_CASE_FILE" errors)) [
    | inl e ↦ rw (e, case_file_rule) tt
    | inr (f, e) ↦
        rw (e, case_file_rule)
          (refl, (λ k. cc), (λ k. cc), refl, (λ k. inl (fact_of-HasFact _ errors e)))
  ]

  registry_rule-IsJustified : IsJustified (registry_rule errors)
  unfolding registry_rule same_operation
  registry_rule-IsJustified = elim (Option-cases (fact_of "MISSING_REGISTRY_OBJECT" errors)) [
    | inl e ↦ rw (e, registry_rule) tt
    | inr (f, e) ↦
        rw (e, registry_rule)
          (refl, (λ k. cc), (λ k. cc), refl, (λ k. inr (fact_of-HasFact _ errors e)))
  ]

  dimension_rule-IsJustified : IsJustified (dimension_rule errors)
  unfolding dimension_rule
  dimension_rule-IsJustified = elim (Option-cases (fact_of "DIMENSION_MISMATCH" errors)) [
    | inl e ↦ rw (e, dimension_rule) tt
    | inr (f, e) ↦ rw (e, dimension_rule) replacing
  ]

is_initialization-eq :
    (layer : FailureLayer) → is_initialization layer ≡ true → layer ≡ initialization_failed
unfolding is_initialization
is_initialization-eq layer h = ground arith

initialization_rule-IsJustified :
    (p : ExecutionPlan) (layer : FailureLayer) (step : Option String)
    (errors : List NativeErrorFact)
    → IsJustified p layer step errors (initialization_rule layer step)
unfolding initialization_rule
initialization_rule-IsJustified p layer (some id) errors = tt
initialization_rule-IsJustified p layer none errors = elim (Bool-cases (is_initialization layer)) [
  | inl t ↦ rw t (inserting p layer none errors (inr (is_initialization-eq layer t, refl)))
  | inr t ↦ rw t tt
]

instability_rule-IsJustified :
    (p : ExecutionPlan) (layer : FailureLayer) (step : Option String) (facts : RunFacts)
    → IsJustified p layer step facts.native_errors (instability_rule facts)
unfolding instability_rule
instability_rule-IsJustified p layer step facts =
    elim (Bool-cases (
      any (λ e. e.code == "NON_FINITE_VALUE" || e.code == "FLOATING_POINT_EXCEPTION")
        facts.native_errors
      || any (λ c. c.maximum_above_1) facts.courant)) [
        | inl t ↦ rw t (replacing p layer step facts.native_errors)
        | inr t ↦ rw t tt
      ]

diagnose-IsJustified :
    (p : ExecutionPlan) (layer : FailureLayer) (step : Option String) (facts : RunFacts)
    → IsJustified p layer step facts.native_errors (diagnose p layer step facts)
unfolding diagnose
diagnose-IsJustified p layer step facts =
    let errors = facts.native_errors in
    first_of-IsJustified p layer step errors _ (
      poly_mesh_rule-IsJustified p layer step errors,
      (
        keyword_rule-IsJustified p layer step errors,
        (
          function_object_rule-IsJustified p layer step errors,
          (
            initialization_rule-IsJustified p layer step errors,
            (
              option_rule-IsJustified p layer step errors,
              (
                case_file_rule-IsJustified p layer step errors,
                (
                  registry_rule-IsJustified p layer step errors,
                  (
                    dimension_rule-IsJustified p layer step errors,
                    (instability_rule-IsJustified p layer step facts, tt),
                  ),
                ),
              ),
            ),
          ),
        ),
      ),
    )

result_of-Justified :
    (p : ExecutionPlan) (layer : FailureLayer) (assessment : RunAssessment) (prior : Option String)
    (errors : List NativeErrorFact) (d : Option Diagnosis)
    → IsJustified p layer assessment.failed_step_id errors d
    → Justified p layer assessment.failed_step_id errors
        (result_of p layer assessment prior d).allowed_operations
unfolding result_of
result_of-Justified p layer assessment prior errors none j =
    replacing p layer assessment.failed_step_id errors
result_of-Justified p layer assessment prior errors (some d) j = j

published_same :
    (c : NativeFailureClassification) (layer : FailureLayer) (assessment : RunAssessment)
    {c' : NativeFailureClassification}
    → publish c layer assessment ≡ ok c'
    → c ≡ c'
unfolding publish validate_failure_classification
published_same c layer assessment h = ground (arith, h)

-- A classification of a run that no inspection refused never allows to replace a command; it allows
-- to remove the failed command only after an invalid option in the post-processing or in an optional
-- step, to insert commands only if a file below constant/polyMesh is missing from a plan without a mesh command or if
-- the initialization failed outside of any step, and to add a file only if a file or an object of the
-- registry is missing.
pub classify_native_failure-Justified :
    (p : ExecutionPlan) (assessment : RunAssessment) (facts : RunFacts) (prior : Option String)
    (layer : FailureLayer) {c : NativeFailureClassification}
    → assessment.failure_layer ≡ some layer
    → classify_native_failure p assessment facts [] prior ≡ ok c
    → Justified p layer assessment.failed_step_id facts.native_errors c.allowed_operations
unfolding classify_in
classify_native_failure-Justified p assessment facts prior layer h k =
    let d = diagnose p layer assessment.failed_step_id facts in
    subst
      (λ (r : NativeFailureClassification).
        Justified p layer assessment.failed_step_id facts.native_errors r.allowed_operations)
      (published_same (result_of p layer assessment prior d) layer assessment
        (sym (in_layer p assessment facts [] prior layer h) ∙ k))
      (result_of-Justified p layer assessment prior facts.native_errors d
        (diagnose-IsJustified p layer assessment.failed_step_id facts))
