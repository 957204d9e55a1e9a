-- ===== src/Acceptance/Evaluator/Maximum.antt =====
-- The latest time of samples, as _scoped_samples of src/foampilot/acceptance/evaluator.py takes it.
use mathlib.Core.Path.{subst}
use foam_pilot.Prelude.{
  ◌≡◌, ◌⊎◌, inl, inr, refl, sym, ap, ◌∙◌, Bool, true, false, none, some, List, [], ◌∷◌, All, Some,
  arith, if◌then◌else◌, Bool-cases, Option-cases,
}
use foam_pilot.Acceptance.Conditions.{Floats, Sample, max_time}
use foam_pilot.Acceptance.Evaluator.Spec.{AtMost, HasOrder, NotAfter}

module _ {F : Type 0} (floats : Floats F) (order : HasOrder floats) where
  -- one step of the maximum
  max_time-untimed :
      (t : F) (s : Sample F) (l : List (Sample F))
      → s.time ≡ none
      → max_time floats t (s ∷ l) ≡ max_time floats t l
  unfolding max_time
  max_time-untimed t s l n = rw (n, max_time) refl

  max_time-timed :
      (t u : F) (s : Sample F) (l : List (Sample F))
      → s.time ≡ some u
      → max_time floats t (s ∷ l) ≡ max_time floats (if floats.less t u then u else t) l
  unfolding max_time
  max_time-timed t u s l n = elim (Bool-cases (floats.less t u)) [
    | inl e ↦ rw (n, max_time, e) refl
    | inr e ↦ rw (n, max_time, e) refl
  ]

  larger :
      (t u : F) → let m = if floats.less t u then u else t in AtMost floats t m × AtMost floats u m
  larger t u = elim (Bool-cases (floats.less t u)) [
    | inl e ↦ rw e (order.below t u e, order.reflexive u)
    | inr e ↦ rw e (order.reflexive t, order.not_below t u e)
  ]

  pub max_time-above : (t : F) (l : List (Sample F)) → AtMost floats t (max_time floats t l)
  unfolding max_time
  max_time-above t [] = order.reflexive t
  max_time-above t (s ∷ l) = elim (Option-cases s.time) [
    | inl n ↦ subst (AtMost floats t) (sym (max_time-untimed t s l n)) (max_time-above t l)
    | inr (u, n) ↦
        let m = if floats.less t u then u else t in
        subst (AtMost floats t) (sym (max_time-timed t u s l n))
          (order.transitive t m _ (larger t u).0 (max_time-above m l))
  ]

  pub one-NotAfter :
      (s : Sample F) (u t : F) → s.time ≡ some u → AtMost floats u t → NotAfter floats t s
  one-NotAfter s u t n h v m =
      let q : some u ≡ some v = sym n ∙ m in
      let w : u ≡ v = cc in subst (λ z. AtMost floats z t) w h

  pub max_time-bounds :
      (t : F) (l : List (Sample F)) → All (NotAfter floats (max_time floats t l)) l
  max_time-bounds t [] = tt
  max_time-bounds t (s ∷ l) = elim (Option-cases s.time) [
    | inl n ↦
        subst (λ m. All (NotAfter floats m) (s ∷ l)) (sym (max_time-untimed t s l n))
          (
            (λ v k. let q : none ≡ some v = sym n ∙ k in absurd (ground (arith, q))),
            max_time-bounds t l,
          )
    | inr (u, n) ↦
        let m = if floats.less t u then u else t in
        subst (λ m'. All (NotAfter floats m') (s ∷ l)) (sym (max_time-timed t u s l n))
          (
            one-NotAfter s u _ n (order.transitive u m _ (larger t u).1 (max_time-above m l)),
            max_time-bounds m l,
          )
  ]

  -- the maximum is the start, or a time of one of the samples
  abbrev IsAttained : F → List (Sample F) → F → Type 0
  IsAttained t l m = (m ≡ t) ⊎ Some (λ s. s.time ≡ some m) l

  IsAttained-later :
      (t u : F) (s : Sample F) (l : List (Sample F)) (b : Bool) (m : F)
      → s.time ≡ some u
      → IsAttained (if b then u else t) l m
      → IsAttained t (s ∷ l) m
  IsAttained-later t u s l true m n (inl q) = inr (inl (n ∙ ap (λ z. some z) (sym q)))
  IsAttained-later t u s l false m n (inl q) = inl q
  IsAttained-later t u s l b m n (inr q) = inr (inr q)

  pub max_time-IsAttained : (t : F) (l : List (Sample F)) → IsAttained t l (max_time floats t l)
  unfolding max_time
  max_time-IsAttained t [] = inl refl
  max_time-IsAttained t (s ∷ l) = elim (Option-cases s.time) [
    | inl n ↦
        subst (IsAttained t (s ∷ l)) (sym (max_time-untimed t s l n))
          (elim (max_time-IsAttained t l) [ inl q ↦ inl q | inr q ↦ inr (inr q) ])
    | inr (u, n) ↦ subst (IsAttained t (s ∷ l)) (sym (max_time-timed t u s l n)) (
        IsAttained-later t u s l (floats.less t u) _ n
          (max_time-IsAttained (if floats.less t u then u else t) l))
  ]
