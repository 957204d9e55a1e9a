-- ===== src/Models/Gateway/Soundness.antt =====
-- Where a result of `generate_structured` in src/foampilot/models/gateway.py comes from.
use mathlib.Core.Path.{subst}
use foam_pilot.Prelude.{
  ℕ, suc, ◌+◌, ◌≡◌, inl, inr, refl, some, List, [], ◌∷◌, length, Bool-cases, Result, ok, raise,
}
use foam_pilot.Models.CircuitBreaker.{
  SharedCircuitBreaker, RequestError, deferred, assertion_failed, key_eq,
}
use foam_pilot.Models.Budgets.{ModelBudgetLedger, ModelBudgetWindow}
use foam_pilot.Models.Registry.{BackendMode, ModelBackend}
use foam_pilot.Models.Gateway.State.{
  ModelRequest, Environment, ModelResult, Progress, Flow, again, leave, returned, raised,
}
use foam_pilot.Models.Gateway.Attempt.{is_normal}
use foam_pilot.Models.Gateway.Run.{
  Outcome, decided, exhausted, after_attempts, visit, each_candidate, goes_on, generate_structured,
  result_of, close_trial,
}
use foam_pilot.Models.Gateway.Delivery.{In, Delivered, Delivers, attempts_at-Delivers}

module _ {T : Type 0} (env : Environment T) (budget : ModelBudgetWindow) (mode : BackendMode)
    (base_request : ModelRequest) where
  open env use {World}

  abbrev DeliversFrom : List ModelBackend → Outcome T World → Type 0
  DeliversFrom l (decided (ok r) p) = (b : ModelBackend) × In b l × Delivered env b r p
  DeliversFrom l _ = Unit {0}

  DeliversFrom-later :
      (c : ModelBackend) (l : List ModelBackend) (o : Outcome T World)
      → DeliversFrom l o
      → DeliversFrom (c ∷ l) o
  DeliversFrom-later c l (decided (ok r) p) (b, i, d) = (b, inr i, d)
  DeliversFrom-later c l (decided (raise e) p) d = tt
  DeliversFrom-later c l (exhausted p) d = tt

  after_attempts-DeliversFrom :
      (b : ModelBackend) (l : List ModelBackend) (f : Flow T World)
      (next : Progress World → Outcome T World)
      → Delivers env budget mode base_request b f
      → ((p : Progress World) → DeliversFrom (b ∷ l) (next p))
      → DeliversFrom (b ∷ l) (after_attempts env budget mode base_request b f next)
  unfolding after_attempts
  after_attempts-DeliversFrom b l (again p t) next h k = tt
  after_attempts-DeliversFrom b l (leave p t) next h k =
      elim (Bool-cases
        (goes_on env budget mode base_request (close_trial env budget mode base_request b p t))) [
          | inl e ↦ rw (e, after_attempts) (k _)
          | inr e ↦ rw (e, after_attempts) tt
        ]
  after_attempts-DeliversFrom b l (returned r p) next h k = (b, inl refl, h)
  after_attempts-DeliversFrom b l (raised e p) next h k = tt

  visit-DeliversFrom :
      (b : ModelBackend) (l : List ModelBackend) (ordinal rest started : ℕ)
      (answer : Result RequestError (Unit {0})) (p : Progress World)
      (next : Progress World → Outcome T World)
      → ((p' : Progress World) → DeliversFrom (b ∷ l) (next p'))
      → DeliversFrom
          (b ∷ l)
          (visit env budget mode base_request b ordinal rest started answer p next)
  unfolding visit
  visit-DeliversFrom b l ordinal rest started (raise assertion_failed) p next k = tt
  visit-DeliversFrom b l ordinal rest started (raise (deferred d)) p next k =
      elim (Bool-cases (is_normal mode)) [ inl e ↦ rw (e, visit) (k _) | inr e ↦ rw (e, visit) tt ]
  visit-DeliversFrom b l ordinal rest started (ok _) p next k =
      after_attempts-DeliversFrom b l _ next
        (attempts_at-Delivers env budget mode base_request _ b ordinal rest started p _) k

  each_candidate-DeliversFrom :
      (started index : ℕ) (l : List ModelBackend) (p : Progress World)
      → DeliversFrom l (each_candidate env budget mode base_request started index l p)
  unfolding each_candidate
  each_candidate-DeliversFrom started index [] p = tt
  each_candidate-DeliversFrom started index (b ∷ rest) p =
      visit-DeliversFrom b rest (index + 1) (length rest) started _ _ _ (λ p'.
        DeliversFrom-later b rest _ (each_candidate-DeliversFrom started (suc index) rest p'))

  result_of-DeliversFrom :
      (l : List ModelBackend) (last : ModelBackend) (count : ℕ) (o : Outcome T World)
      {r : ModelResult T}
      → DeliversFrom l o
      → (result_of env budget mode base_request last count o).0 ≡ ok r
      → (b : ModelBackend) × In b l
        × Delivered env b r (result_of env budget mode base_request last count o).1
  unfolding result_of
  result_of-DeliversFrom l last count (decided (ok r') p) {r} d e =
      let same : r' ≡ r = cc in
      subst (λ (x : ModelResult T). (b : ModelBackend) × In b l × Delivered env b x p) same d
  result_of-DeliversFrom l last count (decided (raise x) p) d e = cc
  result_of-DeliversFrom l last count (exhausted p) d e = cc

-- A request that returns a result returns a value that the schema check accepted, out of a response
-- that one of the candidates gave to an exchange, under its own ID and model; that candidate's circuit
-- is closed with its count reset, and the attempts that the result names, at least one, are those of
-- the request.
pub generate_structured-Delivered :
    {T : Type 0} (env : Environment T) (budget : ModelBudgetWindow) (mode : BackendMode)
    (first : ModelBackend) (rest : List ModelBackend) (request : ModelRequest)
    (breaker : SharedCircuitBreaker) (ledger : ModelBudgetLedger) (world : env.World)
    {r : ModelResult T}
    → (generate_structured env budget mode first rest request breaker ledger world).0 ≡ ok r
    → (b : ModelBackend) × In b (first ∷ rest)
      × Delivered env b r
          (generate_structured env budget mode first rest request breaker ledger world).1
unfolding generate_structured
generate_structured-Delivered env budget mode first rest request breaker ledger world e =
    let base_request = record request { response_schema = some env.strict_schema } in
    result_of-DeliversFrom env budget mode base_request (first ∷ rest) _ _ _
      (each_candidate-DeliversFrom env budget mode base_request _ 0 (first ∷ rest) _) e
