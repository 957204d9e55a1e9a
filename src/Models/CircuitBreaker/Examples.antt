-- ===== src/Models/CircuitBreaker/Examples.antt =====
-- Runs of the breaker of src/foampilot/models/circuit_breaker.py, and the theorems about it at
-- concrete inputs.
use foam_pilot.Prelude.{
  ◌+◌, ◌≡◌, ◌≢◌, refl, List, [], ◌∷◌, some, ap, true, false, eq_iff, inr, ok, if◌then◌else◌, leb,
}
use mathlib.Core.Bool.{false≢true}
use foam_pilot.Prelude.Dict.{get, put}
use foam_pilot.Models.Errors.{timeout, auth_failed}
use foam_pilot.Models.CircuitBreaker.{
  CircuitBreakerKey, SharedCircuitBreaker, CircuitRecord, CircuitDeferred, init, record_of, store,
  opened, closed, half_open, before_request, before_request_on, admit_probe, record_failure,
  record_failure_on, counts, key_beq,
}
use foam_pilot.Models.CircuitBreaker.Calls.{Call, request, failure, step, run}
use foam_pilot.Models.CircuitBreaker.Invariant.{IsValid, init-run-IsValid}
use foam_pilot.Models.CircuitBreaker.Cooldown.{failures, failures-state, half_open-single_probe}

abbrev primary : CircuitBreakerKey
primary = record { backend_id = "primary"; model = "m1"; identity_hash = "aa" }

abbrev fallback : CircuitBreakerKey
fallback = record { backend_id = "fallback"; model = "m2"; identity_hash = "bb" }

-- the defaults of `__init__`
abbrev start : SharedCircuitBreaker
start = record { failure_threshold = 2; cooldown = 120_000; records = [] }

-- two timeouts, at 1 s and at 2 s
abbrev tripped : List Call
tripped = failure primary timeout 1_000 ∷ failure primary timeout 2_000 ∷ []

-- the trip, and the probe after the cooldown
abbrev probing : List Call
probing =
    failure primary timeout 1_000 ∷ failure primary timeout 2_000 ∷ request primary 122_000 ∷ []

start-init : init 2 120_000 ≡ ok start
unfolding init
start-init = refl

start-IsValid : IsValid start
unfolding run
start-IsValid = init-run-IsValid 2 120_000 {b = start} [] start-init

abbrev open_record : CircuitRecord
open_record = record {
  state = opened;
  consecutive_failures = 2;
  opened_at = some 2_000;
  probe_in_flight = false;
  last_failure_kind = timeout;
}

probing-record :
    record_of primary (run start probing)
    ≡ record open_record { state = half_open; probe_in_flight = true }
unfolding run step record_failure record_failure_on record_of store counts key_beq get put
    before_request before_request_on admit_probe
probing-record = refl

init-run-IsValid_example : IsValid (run start probing)
init-run-IsValid_example = init-run-IsValid 2 120_000 probing start-init

primary-ne-fallback : primary ≢ fallback
primary-ne-fallback e =
    false≢true ((eq_iff "primary" "fallback").1 (ap (λ (k : CircuitBreakerKey). k.backend_id) e))

start-closed : (record_of primary start).state ≢ half_open
unfolding record_of get
start-closed e = cc

failures-state_example :
    (record_of primary
      (run start (failures primary ((timeout, 1_000) ∷ (timeout, 2_000) ∷ [])))).state
    ≡ (if leb 2 ((record_of primary start).consecutive_failures + 2) then opened else closed)
unfolding counts
failures-state_example =
    failures-state start primary ((timeout, 1_000) ∷ (timeout, 2_000) ∷ []) start-IsValid
      start-closed (refl, (refl, tt))

abbrev early : CircuitDeferred
early = record { key = primary; retry_after = 72_000; last_failure_kind = timeout }

-- the probe failed with a kind that does not count
half_open-single_probe_example :
    ((record_of primary (run (run start probing) (failure primary auth_failed 122_500 ∷ []))).state
      ≡ half_open)
    × ((before_request primary 999_000_000
          (run (run start probing) (failure primary auth_failed 122_500 ∷ []))).0
        ≢ ok tt)
unfolding counts
half_open-single_probe_example =
    half_open-single_probe (run start probing) primary (failure primary auth_failed 122_500 ∷ [])
      999_000_000 (ap (λ (r : CircuitRecord). r.state) probing-record) (inr refl, tt)
