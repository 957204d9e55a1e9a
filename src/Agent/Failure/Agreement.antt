-- ===== src/Agent/Failure/Agreement.antt =====
-- What every classification of src/foampilot/agent/failure.py agrees with.
use foam_pilot.Prelude.Texts.{lower, is_identifier}
use foam_pilot.Prelude.{
  String, ◌≡◌, ◌≢◌, ◌↔◌, refl, ◌∙◌, Bool, true, false, Option, none, some, List, [], ◌∷◌, ◌++◌, All,
  arith, eq_iff, Option-cases, Bool-cases, inl, inr, ok, raise,
}
use foam_pilot.Evidence.Assessment.{
  FailureLayer, NativeErrorFact, RunFacts, RunAssessment, static_inspection_failed,
  assess_native_run,
}
use foam_pilot.Evidence.Assessment.Truth.{assess_native_run-blames}
use foam_pilot.Plans.Validation.{ExecutionPlan}
use foam_pilot.Workflow.Records.{FailureDomain}
use foam_pilot.Agent.Failure.{
  FailedStage, NativeFailureClassification, domain_conflicts, code_not_valid, domain_of, stage_of,
  same_domain, is_stage, stage_conflict, step_conflict, validate_failure_classification, publish,
  InspectionIssue, listed, Diagnosis, poly_mesh_rule, keyword_rule, function_object_rule,
  initialization_rule, option_rule, case_file_rule, registry_rule, dimension_rule, instability_rule,
  first_of, diagnose, prior_evidence, inspection_result, result_of, classify_in,
  classify_native_failure,
}

-- A classification keeps the layer's domain, its stage if it has one, and the failed step of the
-- assessment; it has evidence, and allows some operation.
pub record Agrees (assessment : RunAssessment) (layer : FailureLayer)
    (c : NativeFailureClassification) : Type 0 where
  pub domain : c.domain ≡ domain_of layer
  pub stage : c.failed_stage ≡ stage_of layer
  pub step : c.failed_step_id ≡ assessment.failed_step_id
  pub commands : c.scope_hints.commands ≡ listed assessment.failed_step_id
  pub evidence : c.evidence ≢ []
  pub operations : c.allowed_operations ≢ []

-- a diagnosis has a code that the contract allows, and an operation
abbrev IsFine : Option Diagnosis → Type 0
IsFine none = Unit {0}
IsFine (some d) = (is_identifier d.code ≡ true) × (d.allowed ≢ [])

first_of-IsFine : (l : List (Option Diagnosis)) → All IsFine l → IsFine (first_of l)
unfolding first_of
first_of-IsFine [] h = tt
first_of-IsFine (some d ∷ l) h = h.0
first_of-IsFine (none ∷ l) h = first_of-IsFine l h.1

module _ (errors : List NativeErrorFact) where
  poly_mesh_rule-IsFine : (p : ExecutionPlan) → IsFine (poly_mesh_rule p errors)
  unfolding poly_mesh_rule is_identifier
  poly_mesh_rule-IsFine p = ground arith

  keyword_rule-IsFine : IsFine (keyword_rule errors)
  unfolding keyword_rule is_identifier
  keyword_rule-IsFine = ground arith

  function_object_rule-IsFine : IsFine (function_object_rule errors)
  unfolding function_object_rule is_identifier
  function_object_rule-IsFine = ground arith

  option_rule-IsFine :
      (layer : FailureLayer) (id : Option String) → IsFine (option_rule layer id errors)
  unfolding option_rule is_identifier
  option_rule-IsFine layer id = ground arith

  case_file_rule-IsFine : IsFine (case_file_rule errors)
  unfolding case_file_rule is_identifier
  case_file_rule-IsFine = ground arith

  registry_rule-IsFine : IsFine (registry_rule errors)
  unfolding registry_rule is_identifier
  registry_rule-IsFine = ground arith

  dimension_rule-IsFine : IsFine (dimension_rule errors)
  unfolding dimension_rule is_identifier
  dimension_rule-IsFine = ground arith

initialization_rule-IsFine :
    (layer : FailureLayer) (id : Option String) → IsFine (initialization_rule layer id)
unfolding initialization_rule is_identifier
initialization_rule-IsFine layer none = ground arith
initialization_rule-IsFine layer (some id) = tt

instability_rule-IsFine : (facts : RunFacts) → IsFine (instability_rule facts)
unfolding instability_rule is_identifier
instability_rule-IsFine facts = ground arith

diagnose-IsFine :
    (p : ExecutionPlan) (layer : FailureLayer) (id : Option String) (facts : RunFacts)
    → IsFine (diagnose p layer id facts)
unfolding diagnose
diagnose-IsFine p layer id facts =
    let errors = facts.native_errors in
    first_of-IsFine _ (
      poly_mesh_rule-IsFine errors p,
      (
        keyword_rule-IsFine errors,
        (
          function_object_rule-IsFine errors,
          (
            initialization_rule-IsFine layer id,
            (
              option_rule-IsFine errors layer id,
              (
                case_file_rule-IsFine errors,
                (
                  registry_rule-IsFine errors,
                  (dimension_rule-IsFine errors, (instability_rule-IsFine facts, tt)),
                ),
              ),
            ),
          ),
        ),
      ),
    )

same_domain_self : (d : FailureDomain) → same_domain d d ≡ true
unfolding same_domain
same_domain_self d = ground arith

same_domain-inspection :
    (layer : FailureLayer)
    → (same_domain FailureDomain.inspection (domain_of layer) ≡ true)
      ↔ (layer ≡ static_inspection_failed)
unfolding same_domain domain_of
same_domain-inspection layer = ground arith

stage_conflict_self : (s : Option FailedStage) → stage_conflict s s ≡ false
unfolding stage_conflict is_stage
stage_conflict_self none = refl
stage_conflict_self (some s) = ground arith

stage_conflict-static :
    (layer : FailureLayer)
    → layer ≡ static_inspection_failed
    → stage_conflict (stage_of layer) none ≡ false
unfolding stage_conflict stage_of
stage_conflict-static layer h = rw h refl

step_conflict_self : (id : Option String) → step_conflict id id ≡ false
unfolding step_conflict
step_conflict_self none = refl
step_conflict_self (some id) = ground (arith, eq_iff id id)

-- a classification that agrees with the assessment, and whose code is valid, is published
agreeing-published :
    (c : NativeFailureClassification) (layer : FailureLayer) (assessment : RunAssessment)
    → Agrees assessment layer c
    → is_identifier c.code ≡ true
    → publish c layer assessment ≡ ok c
unfolding publish validate_failure_classification
agreeing-published c layer assessment a v = rw (
  v,
  a.domain,
  a.stage,
  a.step,
  same_domain_self (domain_of layer),
  stage_conflict_self (stage_of layer),
  step_conflict_self assessment.failed_step_id,
)

append-non_empty {ℓ} : {A : Type ℓ} (l : List A) (x : A) → l ++ x ∷ [] ≢ []
append-non_empty [] x h = cc
append-non_empty (y ∷ l) x h = cc

result_of-Agrees :
    (p : ExecutionPlan) (layer : FailureLayer) (assessment : RunAssessment) (prior : Option String)
    (d : Option Diagnosis)
    → IsFine d
    → Agrees assessment layer (result_of p layer assessment prior d)
      × (is_identifier (result_of p layer assessment prior d).code ≡ true)
unfolding result_of is_identifier
result_of-Agrees p layer assessment prior none f = (
  record {
    domain = refl;
    stage = refl;
    step = refl;
    commands = refl;
    evidence = append-non_empty (prior_evidence prior) _;
    operations = λ h. cc;
  },
  refl,
)
result_of-Agrees p layer assessment prior (some d) f = (
  record {
    domain = refl;
    stage = refl;
    step = refl;
    commands = refl;
    evidence = append-non_empty (prior_evidence prior) _;
    operations = f.1;
  },
  f.0,
)

pub in_layer :
    (p : ExecutionPlan) (assessment : RunAssessment) (facts : RunFacts)
    (issues : List InspectionIssue) (prior : Option String) (layer : FailureLayer)
    → assessment.failure_layer ≡ some layer
    → classify_native_failure p assessment facts issues prior
      ≡ classify_in p layer assessment facts issues prior
unfolding classify_native_failure
in_layer p assessment facts issues prior layer h = ground (arith, h)

publish-exactly :
    (c : NativeFailureClassification) (layer : FailureLayer) (assessment : RunAssessment)
    → (publish c layer assessment ≡ ok c) ↔ (
        (is_identifier c.code ≡ true)
        × (same_domain c.domain (domain_of layer) ≡ true)
        × (stage_conflict (stage_of layer) c.failed_stage ≡ false)
        × (step_conflict assessment.failed_step_id c.failed_step_id ≡ false))
unfolding publish validate_failure_classification
publish-exactly c layer assessment = ground arith

publish-not_valid :
    (c : NativeFailureClassification) (layer : FailureLayer) (assessment : RunAssessment)
    → is_identifier c.code ≡ false
    → publish c layer assessment ≡ raise code_not_valid
unfolding publish
publish-not_valid c layer assessment v = rw v refl

publish-conflict :
    (c : NativeFailureClassification) (layer : FailureLayer) (assessment : RunAssessment)
    → is_identifier c.code ≡ true
    → same_domain c.domain (domain_of layer) ≡ false
    → publish c layer assessment ≡ raise domain_conflicts
unfolding publish validate_failure_classification
publish-conflict c layer assessment v d = rw (v, d) refl

not_inspection :
    (layer : FailureLayer)
    → layer ≢ static_inspection_failed
    → same_domain FailureDomain.inspection (domain_of layer) ≡ false
not_inspection layer n =
    elim (Bool-cases (same_domain FailureDomain.inspection (domain_of layer))) [
      | inl e ↦ absurd (n ((same_domain-inspection layer).0 e))
      | inr e ↦ e
    ]

-- A failed run that no inspection refused is always classified, and the classification agrees with
-- the assessment: the domain and the stage of its layer, its failed step, some evidence and some
-- allowed operation.
pub classify_native_failure-total :
    (p : ExecutionPlan) (assessment : RunAssessment) (facts : RunFacts) (prior : Option String)
    (layer : FailureLayer)
    → assessment.failure_layer ≡ some layer
    → (c : NativeFailureClassification) × (classify_native_failure p assessment facts [] prior
        ≡ ok c)
      × Agrees assessment layer c
unfolding classify_in
classify_native_failure-total p assessment facts prior layer h =
    let d = diagnose p layer assessment.failed_step_id facts in
    let (agrees, valid) =
      result_of-Agrees p layer assessment prior d
        (diagnose-IsFine p layer assessment.failed_step_id facts) in
    (
      result_of p layer assessment prior d,
      in_layer p assessment facts [] prior layer h
          ∙ agreeing-published _ layer assessment agrees valid,
      agrees,
    )

-- An inspection with an issue is classified by its first issue if the layer is that of the static
-- inspection and the code of the issue, in lower case, is an identifier. Otherwise there is no
-- classification: for any other layer the call raises that the domains conflict, and for a code that
-- is no identifier that it is not valid.
pub classify_native_failure-inspection :
    (p : ExecutionPlan) (assessment : RunAssessment) (facts : RunFacts) (prior : Option String)
    (layer : FailureLayer) (issue : InspectionIssue) (issues : List InspectionIssue)
    → assessment.failure_layer ≡ some layer
    → let answer = classify_native_failure p assessment facts (issue ∷ issues) prior in
      (layer ≡ static_inspection_failed
        → is_identifier (lower issue.code) ≡ true
        → answer ≡ ok (inspection_result assessment prior issue))
      × (is_identifier (lower issue.code) ≡ false → answer ≡ raise code_not_valid)
      × (layer ≢ static_inspection_failed
          → is_identifier (lower issue.code) ≡ true
          → answer ≡ raise domain_conflicts)
unfolding classify_in inspection_result
classify_native_failure-inspection p assessment facts prior layer issue issues h =
    let c = inspection_result assessment prior issue in
    let same = in_layer p assessment facts (issue ∷ issues) prior layer h in
    (
      (λ s v.
          same
          ∙ (publish-exactly c layer assessment).1 (
            v,
            (same_domain-inspection layer).1 s,
            stage_conflict-static layer s,
            step_conflict_self assessment.failed_step_id,
          )),
      (λ v. same ∙ publish-not_valid c layer assessment v),
      (λ n v. same ∙ publish-conflict c layer assessment v (not_inspection layer n)),
    )

-- Every run that is assessed as failed has a layer of failure and can be classified, under the domain
-- and the stage of that layer and at the failed step of the assessment, with some evidence and some
-- allowed operation.
pub assess_native_run-classified :
    (p : ExecutionPlan) (facts : RunFacts) (quality : Option Bool) (prior : Option String)
    → (assess_native_run facts quality).is_ok ≡ false
    → (layer : FailureLayer) × ((assess_native_run facts quality).failure_layer ≡ some layer)
      × (c : NativeFailureClassification) × (classify_native_failure p
            (assess_native_run facts quality)
            facts
            []
            prior
          ≡ ok c)
      × Agrees (assess_native_run facts quality) layer c
assess_native_run-classified p facts quality prior h =
    let assessment = assess_native_run facts quality in
    elim (Option-cases assessment.failure_layer) [
      | inl e ↦ absurd ((assess_native_run-blames facts quality).0.1 h e)
      | inr (layer, e) ↦
          let (c, published, agrees) =
            classify_native_failure-total p assessment facts prior layer e in
          (layer, e, c, published, agrees)
    ]
