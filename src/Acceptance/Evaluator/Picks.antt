-- ===== src/Acceptance/Evaluator/Picks.antt =====
-- What a comprehension or a slice of src/foampilot/acceptance/evaluator.py keeps of a list.
use foam_pilot.Prelude.{
  ◌≡◌, ◌≢◌, ◌↔◌, ◌⊎◌, inl, inr, refl, sym, ap, ◌∙◌, Bool, true, false, List, [], ◌∷◌, ◌++◌, All,
  Some, arith, Bool-cases,
}
use foam_pilot.Acceptance.Conditions.{select, last_only}

module _ {A : Type 0} where
  -- The list `kept` has those elements of `xs`, and only those, that have the property.
  abbrev pub Picks : (A → Type 0) → List A → List A → Type 1
  Picks P xs kept =
      (Q : A → Type 0) → ((kept ≢ []) ↔ Some P xs) × (All Q kept ↔ All (λ x. P x → Q x) xs)

  pub select-Picks :
      (p : A → Bool) (P : A → Type 0) (xs : List A)
      → All (λ x. (p x ≡ true) ↔ P x) xs
      → Picks P xs (select p xs)
  unfolding select
  select-Picks p P [] h Q = (((λ z. absurd (z refl)), (λ z. absurd z)), ((λ z. tt), (λ z. tt)))
  select-Picks p P (x ∷ xs) h Q =
      let (some_to, all_of) = select-Picks p P xs h.1 Q in
      elim (Bool-cases (p x)) [
        | inl e ↦
            rw (e, select)
              (
                ((λ z. inl (h.0.0 e)), (λ z. λ k. cc)),
                ((λ z. ((λ k. z.0), all_of.0 z.1)), (λ z. (z.0 (h.0.0 e), all_of.1 z.1))),
              )
        | inr e ↦
            let never : P x → ⊥ = λ k. let q = h.0.1 k in absurd (ground (arith, e, q)) in
            rw (e, select)
              (
                (
                  (λ z. inr (some_to.0 z)),
                  (λ z. elim z [ inl k ↦ absurd (never k) | inr k ↦ some_to.1 k ]),
                ),
                ((λ z. ((λ k. absurd (never k)), all_of.0 z)), (λ z. all_of.1 z.1)),
              )
      ]

  pub select-yes :
      (p : A → Bool) (x : A) (xs : List A) → p x ≡ true → select p (x ∷ xs) ≡ x ∷ select p xs
  unfolding select
  select-yes p x xs e = rw (e, select) refl

  pub select-no :
      (p : A → Bool) (x : A) (xs : List A) → p x ≡ false → select p (x ∷ xs) ≡ select p xs
  unfolding select
  select-no p x xs e = rw (e, select) refl

  pub whole-Picks : (xs : List A) → Picks (λ x. Unit {0}) xs xs
  whole-Picks [] Q = (((λ z. absurd (z refl)), (λ z. absurd z)), ((λ z. tt), (λ z. tt)))
  whole-Picks (x ∷ xs) Q =
      let (some_to, all_of) = whole-Picks xs Q in
      (
        ((λ z. inl tt), (λ z. λ k. cc)),
        ((λ z. ((λ k. z.0), all_of.0 z.1)), (λ z. (z.0 tt, all_of.1 z.1))),
      )

  pub All-weaken : (P Q : A → Type 0) (xs : List A) → ((x : A) → P x → Q x) → All P xs → All Q xs
  All-weaken P Q [] f h = tt
  All-weaken P Q (x ∷ xs) f h = (f x h.0, All-weaken P Q xs f h.1)

  pub All-snoc : (P : A → Type 0) (front : List A) (x : A) → All P (front ++ x ∷ []) → P x
  All-snoc P [] x h = h.0
  All-snoc P (y ∷ front) x h = All-snoc P front x h.1

  pub Some-snoc : (P : A → Type 0) (front : List A) (x : A) → P x → Some P (front ++ x ∷ [])
  Some-snoc P [] x h = inl h
  Some-snoc P (y ∷ front) x h = inr (Some-snoc P front x h)

  pub last_only-snoc : (front : List A) (x : A) → last_only (front ++ x ∷ []) ≡ x ∷ []
  unfolding last_only
  last_only-snoc [] x = refl
  last_only-snoc (y ∷ []) x = refl
  last_only-snoc (y ∷ z ∷ front) x = last_only-snoc (z ∷ front) x

  pub snoc-cases : (xs : List A) → (xs ≡ []) ⊎ ((front : List A) × (x : A) × (xs ≡ front ++ x ∷ []))
  snoc-cases [] = inl refl
  snoc-cases (y ∷ xs) = elim (snoc-cases xs) [
    | inl e ↦ inr ([], y, ap (λ l. y ∷ l) e)
    | inr (front, x, e) ↦ inr (y ∷ front, x, ap (λ l. y ∷ l) e)
  ]

  pub snoc-same : (front more : List A) (x y : A) → front ++ x ∷ [] ≡ more ++ y ∷ [] → x ≡ y
  snoc-same front more x y e =
      let s : x ∷ [] ≡ y ∷ [] =
        sym (last_only-snoc front x) ∙ ap last_only e ∙ last_only-snoc more y in
      cc
