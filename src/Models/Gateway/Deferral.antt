-- ===== src/Models/Gateway/Deferral.antt =====
-- Requests of src/foampilot/models/gateway.py whose candidates all have a probe in flight.
use mathlib.Core.Path.{subst}
use foam_pilot.Prelude.{
  ℕ, suc, ◌+◌, ◌-◌, ◌≡◌, ◌≢◌, inl, inr, refl, sym, ◌∙◌, true, not, none, some, List, [], ◌∷◌, arith,
  length, All, Option-cases, Result, raise,
}
use foam_pilot.Models.CircuitBreaker.{
  CircuitBreakerKey, CircuitDeferred, SharedCircuitBreaker, deferred, record_of, half_open,
  before_request, before_request_on, admit_probe,
}
use foam_pilot.Models.CircuitBreaker.Calls.{request as request_call, run, step}
use foam_pilot.Models.CircuitBreaker.Cooldown.{half_open_run}
use foam_pilot.Models.Budgets.{ModelBudgetLedger, ModelBudgetWindow}
use foam_pilot.Models.Registry.{normal, ModelBackend}
use foam_pilot.Models.Gateway.State.{
  ModelRequest, Environment, GatewayFailure, GatewayError, request_failed, ModelResult, Progress,
}
use foam_pilot.Models.Gateway.Attempt.{key_of_backend}
use foam_pilot.Models.Gateway.Steps.{admit, read_clock_if, is_closed}
use foam_pilot.Models.Gateway.Run.{
  Outcome, exhausted, visit, defer, each_candidate, count_switch, generate_structured, result_of,
  conclude, begin, last_of,
}

-- the circuit of `b` is half open
abbrev pub IsProbing : SharedCircuitBreaker → ModelBackend → Type 0
IsProbing breaker b =
    ((record_of (key_of_backend b) breaker).state ≡ half_open)
    × ((record_of (key_of_backend b) breaker).opened_at ≢ none)

probing_defers :
    (key : CircuitBreakerKey) (now : ℕ) (breaker : SharedCircuitBreaker)
    → (record_of key breaker).state ≡ half_open
    → (record_of key breaker).opened_at ≢ none
    → (d : CircuitDeferred) × ((before_request key now breaker).0 ≡ raise (deferred d))
unfolding before_request before_request_on admit_probe
probing_defers key now breaker h o = elim (Option-cases (record_of key breaker).opened_at) [
  | inl e ↦ absurd (o e)
  | inr (t, e) ↦ (
    record {
      key = key;
      retry_after = t + breaker.cooldown - now;
      last_failure_kind = (record_of key breaker).last_failure_kind;
    },
    rw (h, e),
  )
]

request-IsProbing :
    (key : CircuitBreakerKey) (now : ℕ) (breaker : SharedCircuitBreaker) (b : ModelBackend)
    → IsProbing breaker b
    → IsProbing (before_request key now breaker).1 b
unfolding run step
request-IsProbing key now breaker b h =
    let same = half_open_run breaker (key_of_backend b) (request_call key now ∷ []) h.0 (tt, tt) in
    rw same h

All-request :
    (key : CircuitBreakerKey) (now : ℕ) (breaker : SharedCircuitBreaker) (l : List ModelBackend)
    → All (IsProbing breaker) l
    → All (IsProbing (before_request key now breaker).1) l
All-request key now breaker [] a = tt
All-request key now breaker (b ∷ l) a =
    (request-IsProbing key now breaker b a.0, All-request key now breaker l a.1)

-- What stays as it was while every candidate is deferred.
record Untouched {W : Type 0} (ledger : ModelBudgetLedger) (all : List ModelBackend)
    (p : Progress W) : Type 0 where
  no_attempts : p.attempts ≡ 0
  no_trace : p.trace ≡ []
  same_ledger : p.ledger ≡ ledger
  probing : All (IsProbing p.breaker) all

module _ {T : Type 0} (env : Environment T) (budget : ModelBudgetWindow)
    (base_request : ModelRequest) (ledger : ModelBudgetLedger) (all : List ModelBackend) where
  open env use {World}

  record DeferredAll (count : ℕ) (o : Outcome T World) : Type 0 where
    at_end : Progress World
    ended : o ≡ exhausted at_end
    untouched : Untouched ledger all at_end
    counted : at_end.deferred_count ≡ count
    known : at_end.last_failure ≢ none

  each_candidate-DeferredAll :
      (started index : ℕ) (l : List ModelBackend) (p : Progress World)
      → Untouched ledger all p
      → All (IsProbing p.breaker) l
      → (l ≡ [] → p.last_failure ≢ none)
      → DeferredAll
          (p.deferred_count + length l)
          (each_candidate env budget normal base_request started index l p)
  unfolding each_candidate admit count_switch visit defer
  each_candidate-DeferredAll started index [] p u a k = record {
    at_end = p;
    ended = refl;
    untouched = u;
    counted = omega arith;
    known = k refl;
  }
  each_candidate-DeferredAll started index (b ∷ rest) p u a k =
      let key = key_of_backend b in
      let now = (read_clock_if env (not (is_closed key p.breaker)) p.world).0 in
      let (d, refused) = probing_defers key now p.breaker a.0.0 a.0.1 in
      let p' =
        defer env budget normal base_request b d
          (admit env b (count_switch env budget normal base_request index p)).1 in
      let u' : Untouched ledger all p' = record {
        no_attempts = u.no_attempts;
        no_trace = u.no_trace;
        same_ledger = u.same_ledger;
        probing = All-request key now p.breaker all u.probing;
      } in
      let later : DeferredAll (p.deferred_count + 1 + length rest)
          (each_candidate env budget normal base_request started (suc index) rest p') =
        each_candidate-DeferredAll started (suc index) rest p' u'
          (All-request key now p.breaker rest a.1) (λ e f. cc) in
      rw refused (
        subst
          (λ (n : ℕ).
            DeferredAll n
              (each_candidate env budget normal base_request started (suc index) rest p'))
          (omega arith) later)

  -- the end of a request, after a loop that deferred every candidate
  abbrev EndsDeferred : Result GatewayError (ModelResult T) × Progress World → Type 0
  EndsDeferred run =
      (failure : GatewayFailure) × (run.0 ≡ raise (request_failed failure))
      × (failure.transport_attempts ≡ 0)
      × (failure.deferred_by_circuit ≡ true)
      × (run.1.ledger ≡ ledger)
      × (run.1.trace ≡ [])
      × All (IsProbing run.1.breaker) all

  result_of-EndsDeferred :
      (last : ModelBackend) (count : ℕ) (p : Progress World)
      → Untouched ledger all p
      → p.deferred_count ≡ count
      → p.last_failure ≢ none
      → EndsDeferred (result_of env budget normal base_request last count (exhausted p))
  unfolding result_of conclude
  result_of-EndsDeferred last count p u c k = elim (Option-cases p.last_failure) [
    | inl e ↦ absurd (k e)
    | inr (f, e) ↦ rw e (
      _,
      refl,
      u.no_attempts,
      rw (u.no_attempts, c) (ground arith),
      u.same_ledger,
      u.no_trace,
      u.probing,
    )
  ]

-- When the circuit of every candidate is half open, a normal request sends nothing, whatever the
-- time and the budget: it raises an error that says that the circuits deferred it, charges the
-- ledger with nothing, and leaves every circuit half open, so that the next request ends likewise.
pub all_probing-deferred :
    {T : Type 0} (env : Environment T) (budget : ModelBudgetWindow) (first : ModelBackend)
    (rest : List ModelBackend) (request : ModelRequest) (breaker : SharedCircuitBreaker)
    (ledger : ModelBudgetLedger) (world : env.World)
    → All (IsProbing breaker) (first ∷ rest)
    → let run = generate_structured env budget normal first rest request breaker ledger world in
      (failure : GatewayFailure) × (run.0 ≡ raise (request_failed failure))
      × (failure.transport_attempts ≡ 0)
      × (failure.deferred_by_circuit ≡ true)
      × (run.1.ledger ≡ ledger)
      × (run.1.trace ≡ [])
      × All (IsProbing run.1.breaker) (first ∷ rest)
unfolding generate_structured begin
all_probing-deferred env budget first rest request breaker ledger world a =
    let base_request = record request { response_schema = some env.strict_schema } in
    let d =
      each_candidate-DeferredAll env budget base_request ledger (first ∷ rest)
        (env.monotonic world).0 0 (first ∷ rest) (begin breaker ledger (env.monotonic world).1)
        (record { no_attempts = refl; no_trace = refl; same_ledger = refl; probing = a }) a
        (λ e. cc) in
    subst
      (λ (o : Outcome _ _).
        EndsDeferred env budget base_request ledger (first ∷ rest)
          (result_of env budget normal base_request (last_of first rest) (suc (length rest)) o))
      (sym d.ended)
      (result_of-EndsDeferred env budget base_request ledger (first ∷ rest) _ _ d.at_end d.untouched
        (d.counted ∙ omega arith) d.known)
