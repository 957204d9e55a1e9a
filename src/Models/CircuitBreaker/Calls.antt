-- ===== src/Models/CircuitBreaker/Calls.antt =====
-- Sequences of calls on the shared breaker of src/foampilot/models/circuit_breaker.py, in the order
-- in which the threads take its lock.
use foam_pilot.Prelude.{
  ℕ, ◌≡◌, ◌≢◌, refl, ◌∙◌, List, [], ◌∷◌, arith, inl, inr, if◌then◌else◌, All, Bool-cases,
}
use foam_pilot.Prelude.Equality.{◌==◌}
use foam_pilot.Prelude.Dict.{get-put}
use foam_pilot.Models.Errors.{BackendFailureKind}
use foam_pilot.Models.CircuitBreaker.{
  CircuitBreakerKey, key_eq, key_beq_iff, CircuitRecord, SharedCircuitBreaker, record_of, store,
  before_request, before_request_on, record_success, record_failure, record_failure_on, counts,
  fresh,
}

pub data Call : Type 0 where
  request : CircuitBreakerKey → ℕ → Call
  success : CircuitBreakerKey → Call
  failure : CircuitBreakerKey → BackendFailureKind → ℕ → Call

unfoldable pub step : SharedCircuitBreaker → Call → SharedCircuitBreaker
step b (request key now) = (before_request key now b).1
step b (success key) = record_success key b
step b (failure key kind now) = record_failure key kind now b

unfoldable pub run : SharedCircuitBreaker → List Call → SharedCircuitBreaker
run b [] = b
run b (c ∷ cs) = run (step b c) cs

-- What a call does to the record of its own key.
unfoldable pub step_on : ℕ → ℕ → Call → CircuitRecord → CircuitRecord
step_on threshold cooldown (request key now) r = (before_request_on key cooldown now r).1
step_on threshold cooldown (success key) r = fresh
step_on threshold cooldown (failure key kind now) r =
    if counts kind then record_failure_on threshold now kind r else r

abbrev pub key_of : Call → CircuitBreakerKey
key_of (request key now) = key
key_of (success key) = key
key_of (failure key kind now) = key

pub record_of-store :
    (k j : CircuitBreakerKey) (r : CircuitRecord) (b : SharedCircuitBreaker)
    → record_of j (store k r b) ≡ (if k == j then r else record_of j b)
unfolding record_of store
record_of-store k j r b = ground (arith, get-put k j r b.records)

-- A call changes the record of its key alone, and that as `step_on` says.
pub record_of-step :
    (b : SharedCircuitBreaker) (c : Call) (j : CircuitBreakerKey)
    → record_of j (step b c) ≡ (
        if key_of c == j
        then step_on b.failure_threshold b.cooldown c (record_of (key_of c) b)
        else record_of j b)
unfolding step step_on before_request record_success record_failure
record_of-step b (request key now) j = record_of-store key j _ b
record_of-step b (success key) j = record_of-store key j fresh b
record_of-step b (failure key kind now) j = elim (Bool-cases (counts kind)) [
  | inl e ↦ rw e (record_of-store key j _ b)
  | inr e ↦ rw e (ground (arith, key_beq_iff key j))
]

-- The settings of a breaker never change.
pub failure_threshold-run :
    (b : SharedCircuitBreaker) (cs : List Call) → (run b cs).failure_threshold ≡ b.failure_threshold
unfolding run step before_request record_success record_failure store
failure_threshold-run b [] = refl
failure_threshold-run b (c ∷ cs) = failure_threshold-run (step b c) cs ∙ failure_threshold-step b c
  where
    failure_threshold-step :
        (b : SharedCircuitBreaker) (c : Call) → (step b c).failure_threshold ≡ b.failure_threshold
    failure_threshold-step b (request key now) = refl
    failure_threshold-step b (success key) = refl
    failure_threshold-step b (failure key kind now) = ground arith

pub cooldown-run : (b : SharedCircuitBreaker) (cs : List Call) → (run b cs).cooldown ≡ b.cooldown
unfolding run step before_request record_success record_failure store
cooldown-run b [] = refl
cooldown-run b (c ∷ cs) = cooldown-run (step b c) cs ∙ cooldown-step b c
  where
    cooldown-step : (b : SharedCircuitBreaker) (c : Call) → (step b c).cooldown ≡ b.cooldown
    cooldown-step b (request key now) = refl
    cooldown-step b (success key) = refl
    cooldown-step b (failure key kind now) = ground arith

-- Calls about other backends leave a key's record as it was.
pub record_of-run_others :
    (b : SharedCircuitBreaker) (cs : List Call) (j : CircuitBreakerKey)
    → All (λ c. key_of c ≢ j) cs
    → record_of j (run b cs) ≡ record_of j b
unfolding run
record_of-run_others b [] j h = refl
record_of-run_others b (c ∷ cs) j h =
    record_of-run_others (step b c) cs j h.1
    ∙ ground (arith, record_of-step b c j, key_beq_iff (key_of c) j, h.0)
