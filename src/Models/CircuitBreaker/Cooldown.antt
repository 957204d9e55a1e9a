-- ===== src/Models/CircuitBreaker/Cooldown.antt =====
-- When the breaker of src/foampilot/models/circuit_breaker.py trips, admits and defers.
use foam_pilot.Prelude.{
  ℕ, ◌+◌, ◌≤◌, ◌≡◌, ◌≢◌, ◌⊎◌, refl, ◌∙◌, ◌↔◌, true, false, some, List, [], ◌∷◌, arith,
  if◌then◌else◌, ok, All, length, leb,
}
use foam_pilot.Prelude.Equality.{beq_refl}
use foam_pilot.Models.Errors.{BackendFailureKind}
use foam_pilot.Models.CircuitBreaker.{
  closed, opened, half_open, CircuitBreakerKey, key_eq, key_beq_iff, CircuitRecord,
  SharedCircuitBreaker, record_of, before_request, before_request_on, admit_probe,
  record_failure_on, counts,
}
use foam_pilot.Models.CircuitBreaker.Calls.{
  Call, request, success, failure, step, step_on, run, key_of, record_of-step,
}
use foam_pilot.Models.CircuitBreaker.Invariant.{
  IsWellFormed, IsValid, step-IsValid, failure_threshold-step,
}

-- The failures of one backend in a row, each a kind that counts, with the time at which it came.
abbrev pub failures : CircuitBreakerKey → List (BackendFailureKind × ℕ) → List Call
failures key [] = []
failures key ((kind, now) ∷ l) = failure key kind now ∷ failures key l

own_step :
    (b : SharedCircuitBreaker) (c : Call)
    → record_of (key_of c) (step b c)
      ≡ step_on b.failure_threshold b.cooldown c (record_of (key_of c) b)
own_step b c = rw (record_of-step, beq_refl (key_of c))

count_one :
    (threshold now : ℕ) (kind : BackendFailureKind) (r : CircuitRecord)
    → r.state ≢ half_open
    → ((record_failure_on threshold now kind r).state ≢ half_open)
      × ((record_failure_on threshold now kind r).consecutive_failures ≡ r.consecutive_failures + 1)
unfolding record_failure_on
count_one threshold now kind r h = ground arith

one_failure :
    (b : SharedCircuitBreaker) (key : CircuitBreakerKey) (kind : BackendFailureKind) (now : ℕ)
    → counts kind ≡ true
    → record_of key (step b (failure key kind now))
      ≡ record_failure_on b.failure_threshold now kind (record_of key b)
unfolding step_on
one_failure b key kind now h = own_step b (failure key kind now) ∙ rw h

state_by_count :
    (threshold : ℕ) (r : CircuitRecord)
    → IsWellFormed threshold r
    → r.state ≢ half_open
    → r.state ≡ (if leb threshold (r.consecutive_failures + 0) then opened else closed)
state_by_count threshold r h n = ground arith

-- A circuit with no probe in flight is open after a run of failures exactly when they bring its
-- count of consecutive failures to the threshold, whatever the times and the kinds that count, and
-- is closed otherwise.
pub failures-state :
    (b : SharedCircuitBreaker) (key : CircuitBreakerKey) (l : List (BackendFailureKind × ℕ))
    → IsValid b
    → (record_of key b).state ≢ half_open
    → All (λ f. counts f.0 ≡ true) l
    → (record_of key (run b (failures key l))).state ≡ (
        if leb b.failure_threshold ((record_of key b).consecutive_failures + length l)
        then opened
        else closed)
unfolding run
failures-state b key [] v h a =
    state_by_count b.failure_threshold (record_of key b) (v.records key) h
failures-state b key ((kind, now) ∷ l) v h a =
    let next = step b (failure key kind now) in
    let e : record_of key next ≡ record_failure_on b.failure_threshold now kind (record_of key b) =
      one_failure b key kind now a.0 in
    let (open_or_closed, counted) = count_one b.failure_threshold now kind (record_of key b) h in
    let rest =
      failures-state next key l (step-IsValid b (failure key kind now) v) (rw e open_or_closed)
        a.1 in
    ground (arith, rest, e, counted, failure_threshold-step b (failure key kind now))

-- An open circuit admits a request exactly from the end of the cooldown on, and then as the probe.
pub opened-admits :
    (b : SharedCircuitBreaker) (key : CircuitBreakerKey) (now : ℕ) {t : ℕ}
    → (record_of key b).state ≡ opened
    → (record_of key b).opened_at ≡ some t
    → ((before_request key now b).0 ≡ ok tt) ↔ (t + b.cooldown ≤ now)
unfolding before_request before_request_on admit_probe
opened-admits b key now h o = ground arith

-- calls under which a probe stays in flight for ever: requests, calls about other backends, and
-- failures of the kinds that do not count
abbrev pub Ignores : CircuitBreakerKey → Call → Type 0
Ignores key (request k now) = Unit {0}
Ignores key (success k) = k ≢ key
Ignores key (failure k kind now) = (k ≢ key) ⊎ (counts kind ≡ false)

half_open_step :
    (b : SharedCircuitBreaker) (key : CircuitBreakerKey) (c : Call)
    → (record_of key b).state ≡ half_open
    → Ignores key c
    → record_of key (step b c) ≡ record_of key b
unfolding step_on before_request_on admit_probe
half_open_step b key (request k now) h i =
    ground (arith, record_of-step b (request k now) key, key_beq_iff k key)
half_open_step b key (success k) h i =
    ground (arith, record_of-step b (success k) key, key_beq_iff k key)
half_open_step b key (failure k kind now) h i =
    ground (arith, record_of-step b (failure k kind now) key, key_beq_iff k key)

pub half_open_run :
    (b : SharedCircuitBreaker) (key : CircuitBreakerKey) (cs : List Call)
    → (record_of key b).state ≡ half_open
    → All (Ignores key) cs
    → record_of key (run b cs) ≡ record_of key b
unfolding run
half_open_run b key [] h i = refl
half_open_run b key (c ∷ cs) h i =
    let same = half_open_step b key c h i.0 in
    half_open_run (step b c) key cs (rw same h) i.1 ∙ same

-- While the probe of a half-open circuit is in flight, no other request for the backend is
-- admitted, at any time and after any calls but a success of that backend or a failure of it that
-- counts: the circuit stays half open.
pub half_open-single_probe :
    (b : SharedCircuitBreaker) (key : CircuitBreakerKey) (cs : List Call) (now : ℕ)
    → (record_of key b).state ≡ half_open
    → All (Ignores key) cs
    → ((record_of key (run b cs)).state ≡ half_open)
      × ((before_request key now (run b cs)).0 ≢ ok tt)
unfolding before_request before_request_on admit_probe
half_open-single_probe b key cs now h i =
    let same = half_open_run b key cs h i in ground (arith, same)
