-- ===== src/Evidence/Assessment/Truth.antt =====
-- What an assessment of src/foampilot/evidence/assessment.py says of the run.
use mathlib.Core.Path.{subst}
use text.Mathlib.Text.{◌==◌}
use foam_pilot.Prelude.{
  ℕ, zero, String, ℤ, pos, negsuc, ◌≡◌, ◌≢◌, ◌↔◌, ◌⊎◌, inl, inr, refl, Bool, true, false, not,
  Option, none, some, List, [], ◌∷◌, map, any, All, Some, any-Some, arith, eq_iff, Bool-cases,
  Option-cases,
}
use foam_pilot.Evidence.Assessment.{
  CommandEvidence, MeshCheckFact, SolverProgressFact, RunFacts, RunAssessment, is_zero, has_failed,
  first_failed, is_true, solve_steps, ends, assess_failed, rejected, passed, assess_case_only,
  assess_solve, assess_completed, assess_native_run,
}

-- A step that ended with exit code 0, neither timed out nor cancelled.
abbrev pub HasSucceeded : CommandEvidence → Type 0
HasSucceeded s = (s.return_code ≡ some (pos 0)) × (s.timed_out ≡ false) × (s.cancelled ≡ false)

is_zero_iff : (c : Option ℤ) → (is_zero c ≡ true) ↔ (c ≡ some (pos 0))
unfolding is_zero
is_zero_iff none = ((λ h. cc), (λ h. cc))
is_zero_iff (some (pos zero)) = ((λ h. refl), (λ h. refl))
is_zero_iff (some (pos (ℕ.suc n))) = ((λ h. cc), (λ h. cc))
is_zero_iff (some (negsuc n)) = ((λ h. cc), (λ h. cc))

is_true_iff : (b : Option Bool) → (is_true b ≡ true) ↔ (b ≡ some true)
unfolding is_true
is_true_iff none = ((λ h. cc), (λ h. cc))
is_true_iff (some true) = ((λ h. refl), (λ h. refl))
is_true_iff (some false) = ((λ h. cc), (λ h. cc))

has_failed-HasSucceeded : (s : CommandEvidence) → (has_failed s ≡ false) ↔ HasSucceeded s
unfolding has_failed
has_failed-HasSucceeded s = ground (arith, is_zero_iff s.return_code)

first_failed-none : (l : List CommandEvidence) → (first_failed l ≡ none) ↔ All HasSucceeded l
unfolding first_failed
first_failed-none [] = ((λ h. tt), (λ h. refl))
first_failed-none (s ∷ l) = ground (arith, has_failed-HasSucceeded s, first_failed-none l)

-- a step that is the first one in the list without success
abbrev pub IsFirstFailed : List CommandEvidence → CommandEvidence → Type 0
IsFirstFailed [] step = ⊥
IsFirstFailed (s ∷ l) step =
    ((s ≡ step) × (has_failed step ≡ true)) ⊎ (HasSucceeded s × IsFirstFailed l step)

first_failed-some :
    (l : List CommandEvidence) {step : CommandEvidence}
    → first_failed l ≡ some step
    → IsFirstFailed l step
unfolding first_failed
first_failed-some [] h = cc
first_failed-some (s ∷ l) {step} h = elim (Bool-cases (has_failed s)) [
  | inl e ↦
      let same : s ≡ step = ground (arith, h, e) in
      inl (same, subst (λ x. has_failed x ≡ true) same e)
  | inr e ↦ inr ((has_failed-HasSucceeded s).0 e, first_failed-some l (ground (arith, h, e)))
]

-- Some fact of the solver's progress reports a normal end of a solve step of the run.
abbrev pub SolverEnded : RunFacts → Type 0
SolverEnded facts =
    Some
      (λ item.
        Some (λ s. (s.stage ≡ "solve") × (s.step_id ≡ item.step_id)) facts.raw_steps
        × (item.completed_normally ≡ some true))
      facts.solver_progress

-- The run solves nothing, and its mesh checks, at least one, passed.
abbrev pub CaseChecked : RunFacts → Type 0
CaseChecked facts =
    All (λ s. s.stage ≢ "solve") facts.raw_steps
    × (facts.mesh_checks ≢ [])
    × All (λ c. c.mesh_ok ≡ some true) facts.mesh_checks

true-not_false : {b : Bool} → b ≡ true → b ≢ false
true-not_false h k = cc

none-not_some : {o : Option String} {id : String} → o ≡ none → o ≢ some id
none-not_some h k = cc

solve_steps-empty :
    (l : List CommandEvidence) → (solve_steps l ≡ []) ↔ All (λ s. s.stage ≢ "solve") l
unfolding solve_steps
solve_steps-empty [] = ((λ h. tt), (λ h. refl))
solve_steps-empty (s ∷ l) = ground (arith, eq_iff s.stage "solve", solve_steps-empty l)

solve_steps-names :
    (x : String) (l : List CommandEvidence)
    → (any (λ id. id == x) (map (λ s. s.step_id) (solve_steps l)) ≡ true)
      ↔ Some (λ s. (s.stage ≡ "solve") × (s.step_id ≡ x)) l
unfolding solve_steps
solve_steps-names x [] = ((λ h. cc), (λ h. absurd h))
solve_steps-names x (s ∷ l) =
    ground (arith, eq_iff s.stage "solve", eq_iff s.step_id x, solve_steps-names x l)

ends-SolverEnded :
    (facts : RunFacts)
    → (any (ends (solve_steps facts.raw_steps)) facts.solver_progress ≡ true) ↔ SolverEnded facts
unfolding ends
ends-SolverEnded facts =
    any-Some _ _
      (λ item. ground (
        arith,
        solve_steps-names item.step_id facts.raw_steps,
        is_true_iff item.completed_normally,
      ))
      facts.solver_progress

ends_nothing : (l : List SolverProgressFact) → any (ends []) l ≡ false
unfolding ends
ends_nothing [] = refl
ends_nothing (item ∷ l) = ends_nothing l

checks_pass :
    (l : List MeshCheckFact)
    → (any (λ c. not (is_true c.mesh_ok)) l ≡ false) ↔ All (λ c. c.mesh_ok ≡ some true) l
checks_pass [] = ((λ h. tt), (λ h. refl))
checks_pass (c ∷ l) = ground (arith, is_true_iff c.mesh_ok, checks_pass l)

case_only-ok :
    (l : List MeshCheckFact)
    → ((assess_case_only l).is_ok ≡ true) ↔ ((l ≢ []) × All (λ c. c.mesh_ok ≡ some true) l)
unfolding assess_case_only rejected passed
case_only-ok [] = ((λ h. cc), (λ h. absurd (h.0 refl)))
case_only-ok (c ∷ l) = ground (arith, checks_pass (c ∷ l))

solved-ok :
    (facts : RunFacts) (steps : List CommandEvidence)
    → (steps ≡ []) ↔ All (λ s. s.stage ≢ "solve") facts.raw_steps
    → (any (ends steps) facts.solver_progress ≡ true) ↔ SolverEnded facts
    → ((assess_solve facts steps).is_ok ≡ true) ↔ (CaseChecked facts ⊎ SolverEnded facts)
unfolding assess_solve rejected passed
solved-ok facts [] e k =
    let checked = case_only-ok facts.mesh_checks in
    (
      (λ h. let (some_checks, all_ok) = checked.0 h in inl (e.0 refl, some_checks, all_ok)),
      (λ h. elim h [
        | inl c ↦ let (_, some_checks, all_ok) = c in checked.1 (some_checks, all_ok)
        | inr s ↦ absurd (true-not_false (k.1 s) (ends_nothing facts.solver_progress))
      ]),
    )
solved-ok facts (s ∷ steps) e k = ground (arith, e, k)

solve-ok :
    (facts : RunFacts)
    → ((assess_solve facts (solve_steps facts.raw_steps)).is_ok ≡ true)
      ↔ (CaseChecked facts ⊎ SolverEnded facts)
solve-ok facts =
    solved-ok facts (solve_steps facts.raw_steps) (solve_steps-empty facts.raw_steps)
      (ends-SolverEnded facts)

-- What the exact conditions of a success are.
abbrev pub Succeeded : RunFacts → Option Bool → Type 0
Succeeded facts quality =
    All HasSucceeded facts.raw_steps
    × (quality ≢ some false)
    × (CaseChecked facts ⊎ SolverEnded facts)

completed-ok :
    (facts : RunFacts) (quality : Option Bool)
    → All HasSucceeded facts.raw_steps
    → ((assess_completed facts quality).is_ok ≡ true) ↔ Succeeded facts quality
unfolding assess_completed rejected
completed-ok facts none a =
    let e = solve-ok facts in ((λ h. (a, (λ k. cc), e.0 h)), (λ h. let (_, _, t) = h in e.1 t))
completed-ok facts (some true) a =
    let e = solve-ok facts in ((λ h. (a, (λ k. cc), e.0 h)), (λ h. let (_, _, t) = h in e.1 t))
completed-ok facts (some false) a =
    ((λ h. cc), (λ h. let (_, unwanted, _) = h in absurd (unwanted refl)))

failed-ok :
    (facts : RunFacts) (quality : Option Bool) (step : CommandEvidence)
    → first_failed facts.raw_steps ≡ some step
    → ((assess_failed facts step).is_ok ≡ true) ↔ Succeeded facts quality
unfolding assess_failed
failed-ok facts quality step e =
    ((λ h. cc), (λ h. let n = (first_failed-none facts.raw_steps).1 h.0 in cc))

-- A run is assessed as successful exactly when every step ended with exit code 0 in time and was not
-- cancelled, the mesh quality was not found wanting, and either the solver's progress reports the
-- normal end of a solve step, or the run solves nothing and its mesh checks, at least one, passed.
pub assess_native_run-exactly :
    (facts : RunFacts) (quality : Option Bool)
    → ((assess_native_run facts quality).is_ok ≡ true) ↔ (
        All HasSucceeded facts.raw_steps
        × (quality ≢ some false)
        × (CaseChecked facts ⊎ SolverEnded facts))
unfolding assess_native_run
assess_native_run-exactly facts quality = elim (Option-cases (first_failed facts.raw_steps)) [
  | inl e ↦
      rw (e, assess_native_run)
        (completed-ok facts quality ((first_failed-none facts.raw_steps).0 e))
  | inr (step, e) ↦ rw (e, assess_native_run) (failed-ok facts quality step e)
]

-- What the validator of `RunAssessment` demands.
abbrev pub IsTruthful : RunAssessment → Type 0
IsTruthful a =
    (a.is_ok ≡ true → (a.failure_layer ≡ none) × (a.failed_step_id ≡ none))
    × (a.is_ok ≡ false → a.failure_layer ≢ none)

case_only-IsTruthful : (l : List MeshCheckFact) → IsTruthful (assess_case_only l)
unfolding assess_case_only rejected passed
case_only-IsTruthful [] = ground arith
case_only-IsTruthful (c ∷ l) = ground arith

solve-IsTruthful :
    (facts : RunFacts) (steps : List CommandEvidence) → IsTruthful (assess_solve facts steps)
unfolding assess_solve rejected passed
solve-IsTruthful facts [] = case_only-IsTruthful facts.mesh_checks
solve-IsTruthful facts (s ∷ steps) = ground arith

completed-IsTruthful :
    (facts : RunFacts) (quality : Option Bool) → IsTruthful (assess_completed facts quality)
unfolding assess_completed rejected
completed-IsTruthful facts none = solve-IsTruthful facts (solve_steps facts.raw_steps)
completed-IsTruthful facts (some true) = solve-IsTruthful facts (solve_steps facts.raw_steps)
completed-IsTruthful facts (some false) = ground arith

case_only-unblamed : (l : List MeshCheckFact) → (assess_case_only l).failed_step_id ≡ none
unfolding assess_case_only rejected passed
case_only-unblamed [] = refl
case_only-unblamed (c ∷ l) = ground arith

solve-unblamed :
    (facts : RunFacts) (steps : List CommandEvidence)
    → (assess_solve facts steps).failed_step_id ≡ none
unfolding assess_solve rejected passed
solve-unblamed facts [] = case_only-unblamed facts.mesh_checks
solve-unblamed facts (s ∷ steps) = ground arith

completed-unblamed :
    (facts : RunFacts) (quality : Option Bool)
    → (assess_completed facts quality).failed_step_id ≡ none
unfolding assess_completed rejected
completed-unblamed facts none = solve-unblamed facts (solve_steps facts.raw_steps)
completed-unblamed facts (some true) = solve-unblamed facts (solve_steps facts.raw_steps)
completed-unblamed facts (some false) = refl

-- An assessment satisfies its validator: a success names no layer and no step, a failure names a
-- layer; and a step that it names is the first one of the run that did not succeed.
pub assess_native_run-blames :
    (facts : RunFacts) (quality : Option Bool)
    → IsTruthful (assess_native_run facts quality)
      × ((id : String)
          → (assess_native_run facts quality).failed_step_id ≡ some id
          → (step : CommandEvidence) × IsFirstFailed facts.raw_steps step × (step.step_id ≡ id))
unfolding assess_native_run assess_failed
assess_native_run-blames facts quality = elim (Option-cases (first_failed facts.raw_steps)) [
  | inl e ↦
      rw (e, assess_native_run)
        (
          completed-IsTruthful facts quality,
          (λ id h. absurd (none-not_some (completed-unblamed facts quality) h)),
        )
  | inr (step, e) ↦
      rw (e, assess_native_run)
        (ground arith, (λ id h. (step, first_failed-some facts.raw_steps e, ground (arith, h))))
]
