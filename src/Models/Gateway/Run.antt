-- ===== src/Models/Gateway/Run.antt =====
-- The loop over the candidates and the end of `generate_structured` in
-- src/foampilot/models/gateway.py.
use foam_pilot.Prelude.{
  ℕ, suc, ◌+◌, Bool, true, false, ◌&&◌, none, some, List, [], ◌∷◌, leb, ltb, nat_beq, length,
  if◌then◌else◌, Result, ok, raise,
}
use foam_pilot.Models.Errors.{BackendError}
use foam_pilot.Models.CircuitBreaker.{
  SharedCircuitBreaker, CircuitDeferred, RequestError, deferred, assertion_failed,
}
use foam_pilot.Models.Budgets.{ModelBudgetLedger, ModelBudgetWindow}
use foam_pilot.Models.Registry.{BackendMode, ModelBackend}
use foam_pilot.Models.Gateway.State.{
  ModelRequest, Environment, circuit_open, failed_with, ModelResult, GatewayError, request_failed,
  breaker_assertion, Progress, Trial, Flow, again, leave, returned, raised,
}
use foam_pilot.Models.Gateway.Attempt.{
  circuit_failure, deadline_failure, deadline_reason, is_normal,
}
use foam_pilot.Models.Gateway.Steps.{admit, punish, attempts_at}

-- the end of the loop over the candidates: the request is decided, or the loop ran out
pub data Outcome (T W : Type 0) : Type 0 where
  decided : Result GatewayError (ModelResult T) → Progress W → Outcome T W
  exhausted : Progress W → Outcome T W

unfoldable pub fresh_trial : ModelRequest → Trial
fresh_trial request = record {
  active_request = request;
  backend_attempt = 0;
  first_attempt_timeout = none;
  schema_correction_used = false;
  backend_failure = none;
}

module _ {T : Type 0} (env : Environment T) (budget : ModelBudgetWindow) (mode : BackendMode)
    (base_request : ModelRequest) where
  open env use {World, monotonic}

  -- what follows the `while`
  unfoldable pub close_trial : ModelBackend → Progress World → Trial → Progress World
  close_trial b p t = elim t.backend_failure [
    | none ↦ p
    | some f ↦ record (punish env b f.kind (record p { last_failure = some f })) {
      switch_reason = some (failed_with f.kind);
    }
  ]

  -- `continue` after an open circuit
  unfoldable pub defer : ModelBackend → CircuitDeferred → Progress World → Progress World
  defer b d p = record p {
    deferred_count = p.deferred_count + 1;
    last_failure = some (circuit_failure b base_request d);
    switch_reason = some circuit_open;
  }

  -- the error of a qualification run whose circuit is open
  unfoldable pub deferred_error : ModelBackend → CircuitDeferred → Progress World → GatewayError
  deferred_error b d p = request_failed (record {
    failure = circuit_failure b base_request d;
    transport_attempts = p.attempts;
    backend_switches = p.backend_switches;
    deadline_reason = none;
    deferred_by_circuit = true;
  })

  unfoldable pub count_switch : ℕ → Progress World → Progress World
  count_switch index p = record p {
    backend_switches = if ltb 0 index then p.backend_switches + 1 else p.backend_switches;
  }

  -- whether the loop goes on to the next candidate
  unfoldable pub goes_on : Progress World → Bool
  goes_on p =
      if is_normal mode
      then (if leb budget.max_transport_attempts p.attempts then false else true)
      else false

  -- the end of the attempts at one candidate; `next` is the rest of the loop
  unfoldable pub after_attempts :
      ModelBackend → Flow T World → (Progress World → Outcome T World) → Outcome T World
  -- not reached: the `while` runs to an end
  after_attempts b (again p t) next = exhausted p
  after_attempts b (leave p t) next = elim (goes_on (close_trial b p t)) [
    | false ↦ exhausted (close_trial b p t)
    | true ↦ next (close_trial b p t)
  ]
  after_attempts b (returned r p) next = decided (ok r) p
  after_attempts b (raised e p) next = decided (raise e) p

  -- the body of the loop over the candidates, from the answer of the circuit breaker on
  unfoldable pub visit :
      ModelBackend
      → ℕ
      → ℕ
      → ℕ
      → Result RequestError (Unit {0})
      → Progress World
      → (Progress World → Outcome T World)
      → Outcome T World
  unfolding after_attempts
  visit b ordinal rest started (raise assertion_failed) p next = decided (raise breaker_assertion) p
  visit b ordinal rest started (raise (deferred d)) p next = elim (is_normal mode) [
    | false ↦ decided (raise (deferred_error b d p)) (defer b d p)
    | true ↦ next (defer b d p)
  ]
  visit b ordinal rest started (ok _) p next =
      after_attempts b
        (attempts_at env budget mode base_request budget.max_transport_attempts b ordinal rest
          started p (fresh_trial base_request))
        next

  -- the loop over the candidates; `started` is when the request began
  unfoldable pub each_candidate : ℕ → ℕ → List ModelBackend → Progress World → Outcome T World
  each_candidate started index [] p = exhausted p
  each_candidate started index (b ∷ rest) p =
      let (answer, p') = admit env b (count_switch index p) in
      visit b (index + 1) (length rest) started answer p'
        (λ p''. each_candidate started (suc index) rest p'')

  abbrev exhausted_error : BackendError → ℕ → Progress World → GatewayError
  exhausted_error failure count p = request_failed (record {
    failure = failure;
    transport_attempts = p.attempts;
    backend_switches = p.backend_switches;
    deadline_reason = p.last_deadline_reason;
    deferred_by_circuit = nat_beq p.attempts 0 && nat_beq p.deferred_count count;
  })

  -- `last_deadline_reason or _deadline_reason(...)`, whose argument reads the clock
  unfoldable pub fill_deadline_reason : Progress World → Progress World
  fill_deadline_reason p = elim p.last_deadline_reason [
    | some r ↦ p
    | none ↦ record p {
      world = (monotonic p.world).1;
      last_deadline_reason = some (deadline_reason budget);
    }
  ]

  -- the end of `generate_structured`; `last` is the last candidate and `count` their number
  unfoldable pub conclude : ModelBackend → ℕ → Progress World → GatewayError × Progress World
  conclude last count p = elim p.last_failure [
    | some failure ↦ (exhausted_error failure count p, p)
    | none ↦ (
      exhausted_error (deadline_failure last base_request) count (fill_deadline_reason p),
      fill_deadline_reason p,
    )
  ]

  unfoldable pub result_of :
      ModelBackend → ℕ → Outcome T World → Result GatewayError (ModelResult T) × Progress World
  result_of last count (decided r p) = (r, p)
  result_of last count (exhausted p) = let (e, p') = conclude last count p in (raise e, p')

-- the variables before the loop over the candidates
unfoldable pub begin : {W : Type 0} → SharedCircuitBreaker → ModelBudgetLedger → W → Progress W
begin breaker ledger w = record {
  world = w;
  breaker = breaker;
  ledger = ledger;
  trace = [];
  attempts = 0;
  backend_switches = 0;
  switch_reason = none;
  last_failure = none;
  last_deadline_reason = none;
  deferred_count = 0;
}

unfoldable pub last_of : ModelBackend → List ModelBackend → ModelBackend
last_of b [] = b
last_of b (c ∷ rest) = last_of c rest

-- `generate_structured` of a gateway with the candidates `first ∷ rest`, of which the constructor
-- made sure that there is one
unfoldable pub generate_structured :
    {T : Type 0} (env : Environment T) (budget : ModelBudgetWindow) (mode : BackendMode)
    → ModelBackend
    → List ModelBackend
    → ModelRequest
    → SharedCircuitBreaker
    → ModelBudgetLedger
    → env.World
    → Result GatewayError (ModelResult T) × Progress env.World
generate_structured env budget mode first rest request breaker ledger world =
    let base_request = record request { response_schema = some env.strict_schema } in
    let (started, w) = env.monotonic world in
    result_of env budget mode base_request (last_of first rest) (suc (length rest)) (
      each_candidate env budget mode base_request started 0 (first ∷ rest) (begin breaker ledger w))
