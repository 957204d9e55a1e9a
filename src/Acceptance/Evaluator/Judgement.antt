-- ===== src/Acceptance/Evaluator/Judgement.antt =====
-- What the result of one condition means, for the body of the loop of
-- src/foampilot/acceptance/evaluator.py.
use mathlib.Core.Path.{subst}
use Prim.Native.String.{◌++◌ as str_append}
use text.Mathlib.Text.{◌==◌}
use foam_pilot.Prelude.{
  ◌≡◌, ◌≢◌, ◌↔◌, inl, inr, refl, sym, ap, ◌∙◌, suc, ◌≤◌, Bool, true, false, not, none, List, [],
  ◌∷◌, length, any, All, Result, ok, raise, Result-cases, arith, nat_beq, nat_beq_iff, Bool-cases,
  Option-cases, eq_iff, if-rule,
}
use foam_pilot.Acceptance.Conditions.{
  Floats, Sample, AcceptanceCondition, pass, not_evaluated, ConditionResult, AssertionError, select,
  is_supported, first_failed, last_sample, result_of, unavailable_result, matches,
}
use foam_pilot.Acceptance.Evaluator.{evaluated, conclude, judge_supported, judge}

module _ {A : Type 0} (p : A → Bool) where
  select-shorter : (xs : List A) → length (select p xs) ≤ length xs
  unfolding select
  select-shorter [] = omega arith
  select-shorter (x ∷ xs) = ground (arith, select-shorter xs)

  select-all :
      (xs : List A)
      → length (select p xs) ≡ length xs
      → (select p xs ≡ xs) × All (λ x. p x ≡ true) xs
  unfolding select
  select-all [] h = (refl, tt)
  select-all (x ∷ xs) h = elim (Bool-cases (p x)) [
    | inl e ↦
        let same : length (select p xs) ≡ length xs = ground (arith, h, e) in
        let (s, a) = select-all xs same in rw (e, select, s) (refl, (refl, a))
    | inr e ↦
        let longer : length (select p xs) ≡ suc (length xs) = ground (arith, h, e) in
        absurd (omega (arith, longer, select-shorter xs))
  ]

  all-select : (xs : List A) → All (λ x. p x ≡ true) xs → select p xs ≡ xs
  unfolding select
  all-select [] h = refl
  all-select (x ∷ xs) h = rw (h.0, select, all-select xs h.1) refl

module _ {F : Type 0} (floats : Floats F) where
  -- what the code tests of a sample: the kind of its value, its unit, and the comparison
  pub record Accepts (c : AcceptanceCondition F) (s : Sample F) : Type 0 where
    pub supported : is_supported c s ≡ true
    pub in_unit : s.unit ≡ c.unit
    pub holds : matches floats c s.value ≡ ok true

  abbrev Passed : Sample F × Bool → Type 0
  Passed p = p.1 ≡ true

  first_failed-none : (l : List (Sample F × Bool)) → (first_failed l ≡ none) ↔ All Passed l
  unfolding first_failed
  first_failed-none [] = ground arith
  first_failed-none ((s, true) ∷ l) = ground (arith, first_failed-none l)
  first_failed-none ((s, false) ∷ l) = ground arith

  abbrev Matching : AcceptanceCondition F → Sample F → Type 0
  Matching c s = matches floats c s.value ≡ ok true

  -- every comparison passed exactly if the condition holds for every sample
  abbrev Evaluates :
      AcceptanceCondition F
      → List (Sample F)
      → Result AssertionError (List (Sample F × Bool))
      → Type 0
  Evaluates c samples (ok l) = All Passed l ↔ All (Matching c) samples
  Evaluates c samples (raise e) = Unit

  evaluated-Evaluates :
      (c : AcceptanceCondition F) (samples : List (Sample F))
      → Evaluates c samples (evaluated floats c samples)
  unfolding evaluated
  evaluated-Evaluates c [] = ((λ h. tt), (λ h. tt))
  evaluated-Evaluates c (s ∷ samples) = elim (Result-cases (matches floats c s.value)) [
    | inr (x, e) ↦ rw (e, evaluated) tt
    | inl (b, e) ↦ elim (Result-cases (evaluated floats c samples)) [
      | inr (x, f) ↦ rw (e, f, evaluated) tt
      | inl (l, f) ↦
          let (to, from) = subst (Evaluates c samples) f (evaluated-Evaluates c samples) in
          rw (e, f, evaluated)
            (
              (λ h. (e ∙ ap (λ z. ok z) h.0, to h.1)),
              (λ h. (let q : ok b ≡ ok true = sym e ∙ h.0 in cc, from h.1)),
            )
    ]
  ]

  -- what the code asks of the samples that were selected for a condition
  abbrev pub AreAccepted : AcceptanceCondition F → List (Sample F) → Type 0
  AreAccepted c samples = (samples ≢ []) × All (Accepts c) samples

  abbrev pub PassesIf : Type 0 → Result AssertionError (ConditionResult F) → Type 0
  PassesIf P (ok r) = (r.status ≡ pass) ↔ P
  PassesIf P (raise e) = Unit

  conclude-PassesIf :
      (c : AcceptanceCondition F) (last : Sample F) (samples : List (Sample F))
      (r : Result AssertionError (List (Sample F × Bool)))
      → Evaluates c samples r
      → PassesIf (All (Matching c) samples) (conclude floats c last r)
  unfolding conclude result_of
  conclude-PassesIf c last samples (raise e) h = tt
  conclude-PassesIf c last samples (ok l) h =
      let (to, from) = first_failed-none l in
      elim (Option-cases (first_failed l)) [
        | inl n ↦ rw (n, conclude) ((λ z. h.0 (to n)), (λ z. refl))
        | inr (s, n) ↦ rw (n, conclude) ((λ z. cc), (λ z. let q = from (h.1 z) in cc))
      ]

  PassesIf-↔ :
      (P Q : Type 0) (r : Result AssertionError (ConditionResult F))
      → P ↔ Q
      → PassesIf P r
      → PassesIf Q r
  PassesIf-↔ P Q (ok r) e h = ((λ z. e.0 (h.0 z)), (λ z. h.1 (e.1 z)))
  PassesIf-↔ P Q (raise x) e h = tt

  -- a condition that says why it was not evaluated
  PassesIf-never :
      (P : Type 0) (r : ConditionResult F) → r.status ≡ not_evaluated → (P → ⊥) → PassesIf P (ok r)
  PassesIf-never P r e n = ((λ z. cc), (λ z. absurd (n z)))

  abbrev InUnit : AcceptanceCondition F → Sample F → Type 0
  InUnit c s = s.unit ≡ c.unit

  abbrev Supported : AcceptanceCondition F → Sample F → Type 0
  Supported c s = is_supported c s ≡ true

  units :
      (c : AcceptanceCondition F) (samples : List (Sample F))
      → (any (λ x. not (x.unit == c.unit)) samples ≡ false) ↔ All (InUnit c) samples
  units c [] = ((λ h. tt), (λ h. refl))
  units c (s ∷ samples) = ground (arith, units c samples, eq_iff s.unit c.unit)

  Accepts-all :
      (c : AcceptanceCondition F) (samples : List (Sample F))
      → All (Supported c) samples
      → All (InUnit c) samples
      → All (Matching c) samples ↔ All (Accepts c) samples
  Accepts-all c [] h u = ((λ z. tt), (λ z. tt))
  Accepts-all c (s ∷ samples) h u =
      let (to, from) = Accepts-all c samples h.1 u.1 in
      (
        (λ z. (record { supported = h.0; in_unit = u.0; holds = z.0 }, to z.1)),
        (λ z. (z.0.holds, from z.1)),
      )

  Accepts-units :
      (c : AcceptanceCondition F) (samples : List (Sample F))
      → All (Accepts c) samples
      → All (Supported c) samples × All (InUnit c) samples
  Accepts-units c [] h = (tt, tt)
  Accepts-units c (s ∷ samples) h =
      let (a, b) = Accepts-units c samples h.1 in ((h.0.supported, a), (h.0.in_unit, b))

  judge_supported-PassesIf :
      (c : AcceptanceCondition F) (s : Sample F) (samples : List (Sample F))
      → All (Supported c) (s ∷ samples)
      → PassesIf (AreAccepted c (s ∷ samples)) (judge_supported floats c (s ∷ samples))
  unfolding judge_supported result_of
  judge_supported-PassesIf c s samples h =
      let whole : List (Sample F) = s ∷ samples in
      if-rule (PassesIf (AreAccepted c whole)) (any (λ x. not (x.unit == c.unit)) whole) _ _
        (λ e.
          PassesIf-never (AreAccepted c whole)
            (result_of c not_evaluated (str_append "unit mismatch: expected " c.unit)
              (last_sample s samples))
            refl
            (λ m.
              let q = (units c whole).1 (Accepts-units c whole m.1).1 in
              absurd (ground (arith, e, q))))
        (λ e.
          let u = (units c whole).0 e in
          let (to, from) = Accepts-all c whole h u in
          PassesIf-↔ (All (Matching c) whole) (AreAccepted c whole) _
            ((λ z. ((λ n. cc), to z)), (λ z. from z.1))
            (conclude-PassesIf c _ whole _ (evaluated-Evaluates c whole)))

  pub judge-PassesIf :
      (c : AcceptanceCondition F) (samples : List (Sample F))
      → PassesIf (AreAccepted c samples) (judge floats c samples)
  unfolding judge unavailable_result judge_supported
  judge-PassesIf c [] =
      PassesIf-never (AreAccepted c []) (unavailable_result c) refl (λ m. m.0 refl)
  judge-PassesIf c (s ∷ samples) =
      let whole : List (Sample F) = s ∷ samples in
      let kept : List (Sample F) = select (is_supported c) whole in
      if-rule (PassesIf (AreAccepted c whole)) (not (nat_beq (length kept) (length whole)))
        (ok (unavailable_result c)) (judge_supported floats c kept)
        (λ e. PassesIf-never (AreAccepted c whole) (unavailable_result c) refl (λ m.
          let q : kept ≡ whole = all-select (is_supported c) whole (Accepts-units c whole m.1).0 in
          absurd
            (ground (arith, e, ap (λ x. length x) q, nat_beq_iff (length kept) (length whole)))))
        (λ e.
          let (same, h) =
            select-all (is_supported c) whole
              ((nat_beq_iff (length kept) (length whole)).0 (ground (arith, e))) in
          subst (λ l. PassesIf (AreAccepted c whole) (judge_supported floats c l)) (sym same)
            (judge_supported-PassesIf c s samples h))
