-- ===== src/Models/CircuitBreaker/Invariant.antt =====
-- What holds of every record of the shared breaker of src/foampilot/models/circuit_breaker.py.
use foam_pilot.Prelude.{
  ℕ, ◌≤◌, ◌<◌, ◌≡◌, ◌≢◌, true, none, List, [], ◌∷◌, arith, inl, inr, if◌then◌else◌, Bool-cases, ok,
  raise,
}
use foam_pilot.Prelude.Equality.{◌==◌}
use foam_pilot.Prelude.Dict.{get}
use foam_pilot.Models.CircuitBreaker.{
  closed, half_open, CircuitBreakerKey, key_eq, CircuitRecord, SharedCircuitBreaker, init, fresh,
  record_of, before_request, before_request_on, admit_probe, record_failure_on, assertion_failed,
}
use foam_pilot.Models.CircuitBreaker.Calls.{
  Call, request, success, failure, step, step_on, run, key_of, record_of-step,
  failure_threshold-run,
}

-- A closed circuit is below the threshold and has no probe; one that is not closed knows when it
-- opened and has reached the threshold; a probe is in flight exactly in the half-open state.
pub record IsWellFormed (threshold : ℕ) (r : CircuitRecord) : Type 0 where
  pub closed_below : r.state ≡ closed → r.consecutive_failures < threshold
  pub open_reached : r.state ≢ closed → threshold ≤ r.consecutive_failures
  pub opened_known : r.state ≢ closed → r.opened_at ≢ none
  pub probe_half_open : r.state ≡ half_open → r.probe_in_flight ≡ true
  pub half_open_probe : r.probe_in_flight ≡ true → r.state ≡ half_open

pub record IsValid (b : SharedCircuitBreaker) : Type 0 where
  pub positive : 0 < b.failure_threshold
  pub records : (key : CircuitBreakerKey) → IsWellFormed b.failure_threshold (record_of key b)

fresh-IsWellFormed : (threshold : ℕ) → 0 < threshold → IsWellFormed threshold fresh
fresh-IsWellFormed threshold h = ground arith

step_on-IsWellFormed :
    (threshold cooldown : ℕ) (c : Call) (r : CircuitRecord)
    → 0 < threshold
    → IsWellFormed threshold r
    → IsWellFormed threshold (step_on threshold cooldown c r)
unfolding step_on before_request_on admit_probe record_failure_on
step_on-IsWellFormed threshold cooldown (request key now) r pos h = ground arith
step_on-IsWellFormed threshold cooldown (success key) r pos h = ground arith
step_on-IsWellFormed threshold cooldown (failure key kind now) r pos h = ground arith

pub failure_threshold-step :
    (b : SharedCircuitBreaker) (c : Call) → (step b c).failure_threshold ≡ b.failure_threshold
unfolding run
failure_threshold-step b c = failure_threshold-run b (c ∷ [])

pub step-IsValid : (b : SharedCircuitBreaker) (c : Call) → IsValid b → IsValid (step b c)
step-IsValid b c h = record {
  positive = rw failure_threshold-step h.positive;
  records = λ j. simp (failure_threshold-step, record_of-step) (pick j);
}
  where
    pick :
        (j : CircuitBreakerKey)
        → IsWellFormed b.failure_threshold (
            if key_of c == j
            then step_on b.failure_threshold b.cooldown c (record_of (key_of c) b)
            else record_of j b)
    pick j = elim (Bool-cases (key_of c == j)) [
      | inl e ↦ rw e (step_on-IsWellFormed _ _ c _ h.positive (h.records (key_of c)))
      | inr e ↦ rw e (h.records j)
    ]

run-IsValid : (b : SharedCircuitBreaker) (cs : List Call) → IsValid b → IsValid (run b cs)
unfolding run
run-IsValid b [] h = h
run-IsValid b (c ∷ cs) h = run-IsValid (step b c) cs (step-IsValid b c h)

pub init-eq :
    (threshold cooldown : ℕ) {b : SharedCircuitBreaker}
    → init threshold cooldown ≡ ok b
    → (0 < b.failure_threshold)
      × (b.failure_threshold ≡ threshold)
      × (b.cooldown ≡ cooldown)
      × (b.records ≡ [])
unfolding init
init-eq threshold cooldown h = ground arith

record_of-empty :
    (b : SharedCircuitBreaker) (key : CircuitBreakerKey) → b.records ≡ [] → record_of key b ≡ fresh
unfolding record_of get
record_of-empty b key h = rw h

init-IsValid :
    (threshold cooldown : ℕ) {b : SharedCircuitBreaker} → init threshold cooldown ≡ ok b → IsValid b
init-IsValid threshold cooldown {b} h =
    let (pos, _, _, empty) = init-eq threshold cooldown h in
    record {
      positive = pos;
      records = λ key. rw (record_of-empty b key empty) (fresh-IsWellFormed _ pos);
    }

-- A breaker that the constructor returns satisfies the invariant after any calls, by any threads,
-- in any order.
pub init-run-IsValid :
    (threshold cooldown : ℕ) {b : SharedCircuitBreaker} (cs : List Call)
    → init threshold cooldown ≡ ok b
    → IsValid (run b cs)
init-run-IsValid threshold cooldown {b} cs h = run-IsValid b cs (init-IsValid threshold cooldown h)

-- The `assert` in `before_request` never fails on a breaker that satisfies the invariant.
pub before_request-no_assertion :
    (b : SharedCircuitBreaker) (key : CircuitBreakerKey) (now : ℕ)
    → IsValid b
    → (before_request key now b).0 ≢ raise assertion_failed
unfolding before_request before_request_on admit_probe
before_request-no_assertion b key now h = ground (arith, (h.records key).opened_known)
