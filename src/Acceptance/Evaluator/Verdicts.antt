-- ===== src/Acceptance/Evaluator/Verdicts.antt =====
-- When the verdict of src/foampilot/acceptance/evaluator.py passes.
use mathlib.Core.Path.{subst}
use foam_pilot.Prelude.Dict.{Dict}
use foam_pilot.Prelude.{
  ◌≡◌, ◌≢◌, ◌↔◌, inl, inr, refl, String, false, List, [], ◌∷◌, any, All, Result, ok, raise,
  Result-cases, arith, if-rule,
}
use foam_pilot.Acceptance.Conditions.{
  Floats, MetricSeries, AcceptanceCondition, pass, ConditionResult, verdict_pass, incomplete,
  AssertionError,
}
use foam_pilot.Acceptance.Observations.{ObservationResult}
use foam_pilot.Acceptance.Evaluator.{
  judge, selected_of, each_condition, is_fail, is_not_evaluated, verdict_of, ResultReport,
  report_of, evaluate, by_id,
}
use foam_pilot.Acceptance.Evaluator.Judgement.{AreAccepted, PassesIf, judge-PassesIf}

module _ {F : Type 0} (floats : Floats F) where
  -- the conditions of a plan and their results
  abbrev AllPassIf :
      Dict String (MetricSeries F)
      → List (AcceptanceCondition F)
      → Result AssertionError (List (ConditionResult F))
      → Type 0
  AllPassIf d conditions (ok results) =
      (All (λ r. r.status ≡ pass) results
        ↔ All (λ c. AreAccepted floats c (selected_of floats d c)) conditions)
      × ((results ≡ []) ↔ (conditions ≡ []))
  AllPassIf d conditions (raise e) = Unit

  each_condition-AllPassIf :
      (d : Dict String (MetricSeries F)) (conditions : List (AcceptanceCondition F))
      → AllPassIf d conditions (each_condition floats d conditions)
  unfolding each_condition
  each_condition-AllPassIf d [] = (((λ h. tt), (λ h. tt)), ((λ h. refl), (λ h. refl)))
  each_condition-AllPassIf d (c ∷ conditions) =
      elim (Result-cases (judge floats c (selected_of floats d c))) [
        | inr (x, e) ↦ rw (e, each_condition) tt
        | inl (r, e) ↦ elim (Result-cases (each_condition floats d conditions)) [
          | inr (x, f) ↦ rw (e, f, each_condition) tt
          | inl (results, f) ↦
              let (all, none_left) =
                subst (AllPassIf d conditions) f (each_condition-AllPassIf d conditions) in
              let one =
                subst (PassesIf floats (AreAccepted floats c (selected_of floats d c))) e
                  (judge-PassesIf floats c (selected_of floats d c)) in
              rw (e, f, each_condition)
                (
                  ((λ h. (one.0 h.0, all.0 h.1)), (λ h. (one.1 h.0, all.1 h.1))),
                  ((λ h. cc), (λ h. cc)),
                )
        ]
      ]

  abbrev AllPass : List (ConditionResult F) → Type 0
  AllPass results = All (λ r. r.status ≡ pass) results

  statuses :
      (results : List (ConditionResult F))
      → ((any (λ x. is_fail x.status) results ≡ false)
          × (any (λ x. is_not_evaluated x.status) results ≡ false))
        ↔ AllPass results
  unfolding is_fail is_not_evaluated
  statuses [] = ((λ h. tt), (λ h. (refl, refl)))
  statuses (r ∷ results) = ground (arith, statuses results)

  verdict_of-pass :
      (results : List (ConditionResult F))
      → (verdict_of results ≡ verdict_pass) ↔ ((results ≢ []) × AllPass results)
  unfolding verdict_of
  verdict_of-pass [] = ((λ h. cc), (λ h. absurd (h.0 refl)))
  verdict_of-pass (r ∷ results) =
      let whole : List (ConditionResult F) = r ∷ results in
      let (to, from) = statuses whole in
      if-rule (λ v. (v ≡ verdict_pass) ↔ ((whole ≢ []) × AllPass whole))
        (any (λ x. is_fail x.status) whole) _ _
        (λ e. ((λ z. cc), (λ m. let q = (from m.1).0 in absurd (ground (arith, e, q)))))
        (λ e.
          if-rule (λ v. (v ≡ verdict_pass) ↔ ((whole ≢ []) × AllPass whole))
            (any (λ x. is_not_evaluated x.status) whole) incomplete verdict_pass
            (λ f. ((λ z. cc), (λ m. let q = (from m.1).1 in absurd (ground (arith, f, q)))))
            (λ f. ((λ z. ((λ n. cc), to (e, f))), (λ m. refl))))

  abbrev pub Concluded :
      List (AcceptanceCondition F)
      → List (MetricSeries F)
      → Result AssertionError (ResultReport F)
      → Type 0
  Concluded conditions series (ok report) = (report.verdict ≡ verdict_pass) ↔ (
      (conditions ≢ [])
      × All (λ c. AreAccepted floats c (selected_of floats (by_id series []) c)) conditions)
  Concluded conditions series (raise e) = Unit

  report_of-Concluded :
      (conditions : List (AcceptanceCondition F)) (series : List (MetricSeries F))
      (observations : List (ObservationResult F))
      (r : Result AssertionError (List (ConditionResult F)))
      → AllPassIf (by_id series []) conditions r
      → Concluded conditions series (report_of floats observations r)
  unfolding report_of
  report_of-Concluded conditions series observations (raise e) h = tt
  report_of-Concluded conditions series observations (ok results) h =
      let ((all, back), (none_to, none_from)) = h in
      let (to, from) = verdict_of-pass results in
      (
        (λ v. ((λ e. (to v).0 (none_from e)), all (to v).1)),
        (λ m. from ((λ e. m.0 (none_to e)), back m.1)),
      )

  -- the meaning of the verdict of a report, if there is one
  pub evaluated-Concluded :
      (requests : List String) (conditions : List (AcceptanceCondition F))
      (series : List (MetricSeries F))
      → Concluded conditions series (evaluate floats requests conditions series)
  unfolding evaluate
  evaluated-Concluded requests conditions series =
      report_of-Concluded conditions series _ _
        (each_condition-AllPassIf (by_id series []) conditions)
