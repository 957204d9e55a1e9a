-- ===== src/Acceptance/Evaluator/Selection.antt =====
-- The samples that src/foampilot/acceptance/evaluator.py selects and accepts, against what a condition
-- asks of the metrics.
use mathlib.Core.Path.{subst}
use foam_pilot.Prelude.Dict.{Dict, get, put, get-put}
use foam_pilot.Prelude.Equality.{text_keys, ◌==◌}
use foam_pilot.Prelude.{
  ◌≡◌, ◌↔◌, refl, sym, ap, ◌∙◌, String, Bool, true, false, Option, none, some, List, [], ◌∷◌, All,
  All-↔, Some, arith, inl, inr, Bool-cases, if◌then◌else◌,
}
use foam_pilot.Acceptance.Conditions.{
  Floats, Sample, SeriesStatus, available, MetricSeries, AcceptanceCondition, is_available, by_id,
  scoped_samples, is_supported,
}
use foam_pilot.Acceptance.Evaluator.{selected_of}
use foam_pilot.Acceptance.Evaluator.Spec.{series_of, HasOrder, InScope, Meets, IsMet}
use foam_pilot.Acceptance.Evaluator.Fulfilment.{matches-Fulfils}
use foam_pilot.Acceptance.Evaluator.Scopes.{scoped-Picks}
use foam_pilot.Acceptance.Evaluator.Judgement.{Accepts, AreAccepted}

is_available-eq : (s : SeriesStatus) → is_available s ≡ true → s ≡ available
unfolding is_available
is_available-eq s h = ground arith

available-is : (s : SeriesStatus) → s ≡ available → is_available s ≡ true
unfolding is_available
available-is s h = rw h refl

module _ {F : Type 0} where
  abbrev or_in : Option (MetricSeries F) → Option (MetricSeries F) → Option (MetricSeries F)
  or_in (some m) o = some m
  or_in none o = o

  or_in-none : (o : Option (MetricSeries F)) → or_in o none ≡ o
  or_in-none none = refl
  or_in-none (some m) = refl

  tested :
      (b : Bool) (m : MetricSeries F) (o : Option (MetricSeries F))
      → (if b then some m else o) ≡ or_in (if b then some m else none) o
  tested true m o = refl
  tested false m o = refl

  put-or_in :
      (name : String) (m : MetricSeries F) (o : Option (MetricSeries F))
      (d : Dict String (MetricSeries F))
      → or_in o (get name (put m.observation_id m d))
        ≡ or_in
            (elim o [
              | some later ↦ some later
              | none ↦ if m.observation_id == name then some m else none
            ])
            (get name d)
  put-or_in name m (some later) d = refl
  put-or_in name m none d =
      get-put m.observation_id name m d ∙ tested (m.observation_id == name) m (get name d)

  -- the dictionary has the last series of each observation
  get-by_id :
      (name : String) (series : List (MetricSeries F)) (d : Dict String (MetricSeries F))
      → get name (by_id series d) ≡ or_in (series_of name series) (get name d)
  unfolding by_id
  get-by_id name [] d = refl
  get-by_id name (m ∷ series) d =
      get-by_id name series (put m.observation_id m d) ∙ put-or_in name m (series_of name series) d

module _ {F : Type 0} (floats : Floats F) where
  Accepts-Meets : (c : AcceptanceCondition F) (s : Sample F) → Accepts floats c s ↔ Meets floats c s
  unfolding is_supported
  Accepts-Meets c s =
      let (to, from) = matches-Fulfils floats c s.value in
      (
        (λ a. (a.in_unit, to (a.supported, a.holds))),
        (λ h.
            let (supported, holds) = from h.1 in
            record { supported = supported; in_unit = h.0; holds = holds }),
      )

  selected-series :
      (d : Dict String (MetricSeries F)) (c : AcceptanceCondition F) (o : Option (MetricSeries F))
      → get c.observation_id d ≡ o
      → selected_of floats d c ≡ (elim o [
        | none ↦ []
        | some m ↦ if is_available m.status then scoped_samples floats c.scope m.samples else []
      ])
  unfolding selected_of
  selected-series d c o e = rw (e, selected_of) refl

  scope-IsMet :
      (order : HasOrder floats) (c : AcceptanceCondition F) (l : List (Sample F))
      → AreAccepted floats c (scoped_samples floats c.scope l) ↔ (
          Some (InScope floats c.scope l) l
          × All (λ s. InScope floats c.scope l s → Meets floats c s) l)
  scope-IsMet order c l =
      let (some_in, all_in) = scoped-Picks floats order c.scope l (Meets floats c) in
      let (to, from) =
        All-↔ (Accepts floats c) (Meets floats c) (Accepts-Meets c)
          (scoped_samples floats c.scope l) in
      ((λ h. (some_in.0 h.0, all_in.0 (to h.1))), (λ h. (some_in.1 h.0, from (all_in.1 h.1))))

  series-IsMet :
      (order : HasOrder floats) (series : List (MetricSeries F)) (c : AcceptanceCondition F)
      (o : Option (MetricSeries F))
      → series_of c.observation_id series ≡ o
      → AreAccepted floats c (elim o [
        | none ↦ []
        | some m ↦ if is_available m.status then scoped_samples floats c.scope m.samples else []
      ])
        ↔ IsMet floats series c
  series-IsMet order series c none e = (
    (λ h. absurd (h.0 refl)),
    (λ h. let q : none ≡ some h.0 = sym e ∙ h.1 in absurd (ground (arith, q))),
  )
  series-IsMet order series c (some m) e = elim (Bool-cases (is_available m.status)) [
    | inl a ↦
        let (to, from) = scope-IsMet order c m.samples in
        rw a (
          (λ h. let (i, j) = to h in (m, e, is_available-eq m.status a, i, j)),
          (λ h.
              let (m', e', a', i, j) = h in
              let q : some m' ≡ some m = sym e' ∙ e in
              let same : m' ≡ m = cc in
              from (
                subst
                  (λ (x : MetricSeries F).
                    Some (InScope floats c.scope x.samples) x.samples
                    × All (λ s. InScope floats c.scope x.samples s → Meets floats c s) x.samples)
                  same (i, j))),
        )
    | inr a ↦ rw a (
      (λ h. absurd (h.0 refl)),
      (λ h.
          let (m', e', a', i, j) = h in
          let q : some m' ≡ some m = sym e' ∙ e in
          let same : m' ≡ m = cc in
          let t = available-is m.status (ap (λ (x : MetricSeries F). x.status) (sym same) ∙ a') in
          absurd (ground (arith, a, t))),
    )
  ]

  pub selected-IsMet :
      (order : HasOrder floats) (series : List (MetricSeries F)) (c : AcceptanceCondition F)
      → AreAccepted floats c (selected_of floats (by_id series []) c) ↔ IsMet floats series c
  unfolding get
  selected-IsMet order series c =
      let name = c.observation_id in
      let found : get name (by_id series []) ≡ series_of name series =
        get-by_id name series [] ∙ or_in-none (series_of name series) in
      subst (λ l. AreAccepted floats c l ↔ IsMet floats series c)
        (sym (selected-series (by_id series []) c (series_of name series) found))
        (series-IsMet order series c (series_of name series) refl)
