-- ===== src/Models/Gateway/Accounting.antt =====
-- The attempts that one request of src/foampilot/models/gateway.py spends: the ledger, the trace
-- and the counter of the request agree.
use foam_pilot.Prelude.{
  ℕ, suc, ◌+◌, ◌≤◌, inl, inr, some, List, [], ◌∷◌, arith, length, Bool-cases, Result, ok, raise,
}
use foam_pilot.Models.Budgets.{ModelBudgetLedger, ModelBudgetWindow}
use foam_pilot.Models.Registry.{BackendMode, ModelBackend}
use foam_pilot.Models.Gateway.State.{
  ModelRequest, Environment, Progress, Trial, Flow, again, leave, returned, raised,
}
use foam_pilot.Models.Gateway.Attempt.{is_normal}
use foam_pilot.Models.CircuitBreaker.{
  SharedCircuitBreaker, RequestError, deferred, assertion_failed,
}
use foam_pilot.Models.Gateway.Run.{
  Outcome, decided, exhausted, close_trial, after_attempts, visit, defer, deferred_error,
  each_candidate, count_switch, goes_on, generate_structured, result_of, conclude,
  fill_deadline_reason, begin,
}
use foam_pilot.Models.Gateway.Steps.{admit, punish}
use foam_pilot.Models.Gateway.Accounts.{Accounts, Balanced, lost_by, lost_of, attempts_at-Balanced}

module _ {T : Type 0} (env : Environment T) (budget : ModelBudgetWindow) (mode : BackendMode)
    (base_request : ModelRequest) (used limit : ℕ) where
  open env use {World}

  abbrev end_of : Outcome T World → Progress World
  end_of (decided r p) = p
  end_of (exhausted p) = p

  abbrev lost_at : Outcome T World → ℕ
  lost_at (decided (raise e) p) = lost_by e
  lost_at _ = 0

  abbrev EndsBalanced : Outcome T World → Type 0
  EndsBalanced o = Accounts used limit budget.max_transport_attempts (lost_at o) (end_of o)

  abbrev Start : Progress World → Type 0
  Start = Accounts used limit budget.max_transport_attempts 0

  close_trial-Accounts :
      (b : ModelBackend) (p : Progress World) (t : Trial)
      → Start p
      → Start (close_trial env budget mode base_request b p t)
  unfolding close_trial punish
  close_trial-Accounts b p t h = ground arith

  after_attempts-Balanced :
      (b : ModelBackend) (f : Flow T World) (next : Progress World → Outcome T World)
      → Balanced env budget mode base_request used limit f
      → ((p : Progress World) → Start p → EndsBalanced (next p))
      → EndsBalanced (after_attempts env budget mode base_request b f next)
  unfolding after_attempts
  after_attempts-Balanced b (again p t) next h k = h
  after_attempts-Balanced b (leave p t) next h k =
      let p' = close_trial env budget mode base_request b p t in
      let h' : Start p' = close_trial-Accounts b p t h in
      elim (Bool-cases (goes_on env budget mode base_request p')) [
        | inl e ↦ rw (e, after_attempts) (k p' h')
        | inr e ↦ rw (e, after_attempts) h'
      ]
  after_attempts-Balanced b (returned r p) next h k = h
  after_attempts-Balanced b (raised e p) next h k = h

  visit-Balanced :
      (b : ModelBackend) (ordinal rest started : ℕ) (answer : Result RequestError (Unit {0}))
      (p : Progress World) (next : Progress World → Outcome T World)
      → Start p
      → ((p' : Progress World) → Start p' → EndsBalanced (next p'))
      → EndsBalanced (visit env budget mode base_request b ordinal rest started answer p next)
  unfolding visit defer deferred_error
  visit-Balanced b ordinal rest started (raise assertion_failed) p next h k = h
  visit-Balanced b ordinal rest started (raise (deferred d)) p next h k =
      elim (Bool-cases (is_normal mode)) [
        | inl e ↦ rw (e, visit) (k _ (omega arith))
        | inr e ↦ rw (e, visit) (omega arith)
      ]
  visit-Balanced b ordinal rest started (ok _) p next h k =
      after_attempts-Balanced b _ next
        (attempts_at-Balanced env budget mode base_request used limit _ b ordinal rest started p _
          h)
        k

  each_candidate-Balanced :
      (started index : ℕ) (l : List ModelBackend) (p : Progress World)
      → Start p
      → EndsBalanced (each_candidate env budget mode base_request started index l p)
  unfolding each_candidate admit count_switch
  each_candidate-Balanced started index [] p h = h
  each_candidate-Balanced started index (b ∷ rest) p h =
      visit-Balanced b (index + 1) (length rest) started _ _ _ (omega arith)
        (λ p' h'. each_candidate-Balanced started (suc index) rest p' h')

  conclude-Balanced :
      (last : ModelBackend) (count : ℕ) (p : Progress World)
      → Start p
      → Accounts used limit budget.max_transport_attempts
          (lost_by (conclude env budget mode base_request last count p).0)
          (conclude env budget mode base_request last count p).1
  unfolding conclude fill_deadline_reason
  conclude-Balanced last count p h = ground arith

  result_of-Balanced :
      (last : ModelBackend) (count : ℕ) (o : Outcome T World)
      → EndsBalanced o
      → Accounts used limit budget.max_transport_attempts
          (lost_of (result_of env budget mode base_request last count o).0)
          (result_of env budget mode base_request last count o).1
  unfolding result_of
  result_of-Balanced last count (decided (ok r) p) h = h
  result_of-Balanced last count (decided (raise e) p) h = h
  result_of-Balanced last count (exhausted p) h = conclude-Balanced last count p h

-- However a request ends, by a result or by an exception, it has charged the ledger with exactly
-- the attempts that it counts, never more than its window or the ledger allows, and has written one
-- entry of the trace for each, save the attempt in which a backend raised something other than a
-- `BackendError`.
pub generate_structured-Accounts :
    {T : Type 0} (env : Environment T) (budget : ModelBudgetWindow) (mode : BackendMode)
    (first : ModelBackend) (rest : List ModelBackend) (request : ModelRequest)
    (breaker : SharedCircuitBreaker) (ledger : ModelBudgetLedger) (world : env.World)
    → ledger.attempts_used ≤ ledger.attempt_limit
    → let run = generate_structured env budget mode first rest request breaker ledger world in
      Accounts ledger.attempts_used ledger.attempt_limit budget.max_transport_attempts
        (lost_of run.0)
        run.1
unfolding generate_structured begin
generate_structured-Accounts env budget mode first rest request breaker ledger world h =
    let base_request = record request { response_schema = some env.strict_schema } in
    result_of-Balanced env budget mode base_request _ _ _ _ _
      (each_candidate-Balanced env budget mode base_request _ _ _ 0 (first ∷ rest) _ (omega arith))
