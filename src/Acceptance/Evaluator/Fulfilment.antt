-- ===== src/Acceptance/Evaluator/Fulfilment.antt =====
-- `_matches` of src/foampilot/acceptance/evaluator.py by the operators.
use foam_pilot.Prelude.{
  ◌≡◌, ◌↔◌, refl, ap, Bool, true, false, ◌&&◌, ◌||◌, Option, none, some, List, [], ◌∷◌, all, All,
  ok, arith, Bool-cases, inl, inr,
}
use foam_pilot.Acceptance.Conditions.{
  Floats, Value, scalar, vector, Operator, exists, finite, less_equal, greater_equal, between,
  relative_error, absolute_balance, AcceptanceCondition, asserted, both, relative, compare_scalar,
  compare_vector, matches, accepts_vectors, is_scalar,
}
use foam_pilot.Acceptance.Evaluator.Spec.{AtMost, Fulfils}

all-All : {A : Type 0} (p : A → Bool) (xs : List A) → (all p xs ≡ true) ↔ All (λ x. p x ≡ true) xs
all-All p [] = ((λ h. tt), (λ h. refl))
all-All p (x ∷ xs) = ground (arith, all-All p xs)

module _ {F : Type 0} (floats : Floats F) where
  asserted-true :
      {A : Type 0} (o : Option A) (test : A → Bool)
      → (asserted floats o test ≡ ok true) ↔ ((a : A) × (o ≡ some a) × (test a ≡ true))
  unfolding asserted
  asserted-true none test = ((λ h. cc), (λ h. let q = h.1 in cc))
  asserted-true (some a) test = ((λ h. (a, refl, cc)), (λ h. let q = h.1 in let t = h.2 in cc))

  both-true :
      (o p : Option F) (test : F × F → Bool)
      → (asserted floats (both floats o p) test ≡ ok true)
        ↔ ((a : F) × (b : F) × (o ≡ some a) × (p ≡ some b) × (test (a, b) ≡ true))
  unfolding asserted both
  both-true none p test = ((λ h. cc), (λ h. let q = h.2 in cc))
  both-true (some a) none test = ((λ h. cc), (λ h. let q = h.3 in cc))
  both-true (some a) (some b) test =
      ((λ h. (a, b, refl, refl, cc)), (λ h. let q = h.2 in let r = h.3 in let t = h.4 in cc))

  relative-AtMost :
      (x r t : F)
      → (floats.less_equal (relative floats x r) t ≡ true) ↔ (
          (floats.is_zero (floats.absolute r) ≡ true
            → AtMost floats (floats.absolute (floats.subtract x r)) t)
          × (floats.is_zero (floats.absolute r) ≡ false
              → AtMost floats
                  (floats.divide (floats.absolute (floats.subtract x r)) (floats.absolute r))
                  t))
  unfolding relative
  relative-AtMost x r t = elim (Bool-cases (floats.is_zero (floats.absolute r))) [
    | inl z ↦ rw (z, relative) ((λ h. ((λ e. h), (λ e. cc))), (λ h. h.0 refl))
    | inr z ↦ rw (z, relative) ((λ h. ((λ e. cc), (λ e. h))), (λ h. h.1 refl))
  ]

  compare_scalar-Fulfils :
      (o : Operator) (c : AcceptanceCondition F) (x : F)
      → (compare_scalar floats o c x ≡ ok true) ↔ Fulfils floats o c (scalar x)
  unfolding compare_scalar
  compare_scalar-Fulfils exists c x = ((λ h. tt), (λ h. refl))
  compare_scalar-Fulfils finite c x = ((λ h. cc), (λ h. ap (λ b. ok b) h))
  compare_scalar-Fulfils less_equal c x = asserted-true c.limit _
  compare_scalar-Fulfils greater_equal c x = asserted-true c.limit _
  compare_scalar-Fulfils between c x =
      let (to, from) =
        both-true c.lower c.upper (λ b. floats.less_equal b.0 x && floats.less_equal x b.1) in
      (
        (λ h. let (l, u, p, q, t) = to h in (l, u, p, q, ground (arith, t), ground (arith, t))),
        (λ h. let (l, u, p, q, a, b) = h in from (l, u, p, q, ground (arith, a, b))),
      )
  compare_scalar-Fulfils relative_error c x =
      let (to, from) =
        both-true c.reference c.tolerance (λ b. floats.less_equal (relative floats x b.0) b.1) in
      (
        (λ h.
            let (r, t, p, q, e) = to h in
            let k = (relative-AtMost x r t).0 e in (r, t, p, q, k.0, k.1)),
        (λ h. let (r, t, p, q, a, b) = h in from (r, t, p, q, (relative-AtMost x r t).1 (a, b))),
      )
  compare_scalar-Fulfils absolute_balance c x = asserted-true c.limit _

  compare_vector-Fulfils :
      (o : Operator) (c : AcceptanceCondition F) (xs : List F)
      → ((accepts_vectors o ≡ true) × (compare_vector floats o xs ≡ true))
        ↔ Fulfils floats o c (vector xs)
  unfolding accepts_vectors compare_vector
  compare_vector-Fulfils exists c xs = ((λ h. tt), (λ h. (refl, refl)))
  compare_vector-Fulfils finite c xs =
      let (to, from) = all-All floats.is_finite xs in ((λ h. to h.1), (λ h. (refl, from h)))
  compare_vector-Fulfils less_equal c xs = ((λ h. let q = h.0 in cc), (λ h. absurd h))
  compare_vector-Fulfils greater_equal c xs = ((λ h. let q = h.0 in cc), (λ h. absurd h))
  compare_vector-Fulfils between c xs = ((λ h. let q = h.0 in cc), (λ h. absurd h))
  compare_vector-Fulfils relative_error c xs = ((λ h. let q = h.0 in cc), (λ h. absurd h))
  compare_vector-Fulfils absolute_balance c xs = ((λ h. let q = h.0 in cc), (λ h. absurd h))

  -- a value of a kind that the operator takes and that matches
  pub matches-Fulfils :
      (c : AcceptanceCondition F) (v : Value F)
      → (((accepts_vectors c.operator || is_scalar v) ≡ true) × (matches floats c v ≡ ok true))
        ↔ Fulfils floats c.operator c v
  unfolding matches is_scalar
  matches-Fulfils c (scalar x) =
      let (to, from) = compare_scalar-Fulfils c.operator c x in
      ((λ h. to h.1), (λ h. (ground arith, from h)))
  matches-Fulfils c (vector xs) =
      let (to, from) = compare_vector-Fulfils c.operator c xs in
      (
        (λ h. to (ground (arith, h.0), (let q = h.1 in cc))),
        (λ h. let (a, b) = from h in (ground (arith, a), ap (λ z. ok z) b)),
      )
