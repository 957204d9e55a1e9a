-- ===== src/Models/CircuitBreaker.antt =====
-- src/foampilot/models/circuit_breaker.py. Each method holds the lock for its whole body, so an
-- execution by many threads is a sequence of whole calls. Times are milliseconds of the monotonic
-- clock, from its origin; the argument `now` is what `self.monotonic()` returns in the call.
pub mod Calls
pub mod Invariant
pub mod Cooldown
mod Examples
use text.Mathlib.Text.{◌==◌ as str_eq}
use foam_pilot.Prelude.{
  ℕ, ◌+◌, ◌-◌, String, ◌≡◌, refl, ◌↔◌, Bool, true, false, ◌&&◌, Option, none, some, arith, eq_iff,
  leb, ltb, if◌then◌else◌, Result, ok, raise, [],
}
use foam_pilot.Prelude.Equality.{Eq}
use foam_pilot.Prelude.Dict.{Dict, get, put}
use foam_pilot.Models.Errors.{
  BackendFailureKind, overloaded, network_unavailable, timeout, process_interrupted,
}

pub data CircuitState : Type 0 where
  closed opened half_open : CircuitState

pub record CircuitBreakerKey : Type 0 where
  pub backend_id : String
  pub model : String
  pub identity_hash : String

unfoldable pub key_beq : CircuitBreakerKey → CircuitBreakerKey → Bool
key_beq a b =
    str_eq a.backend_id b.backend_id
    && str_eq a.model b.model
    && str_eq a.identity_hash b.identity_hash

pub key_beq_iff : (a b : CircuitBreakerKey) → (key_beq a b ≡ true) ↔ (a ≡ b)
unfolding key_beq
key_beq_iff a b = ground (
  arith,
  eq_iff a.backend_id b.backend_id,
  eq_iff a.model b.model,
  eq_iff a.identity_hash b.identity_hash,
)

instance abbrev pub key_eq : Eq CircuitBreakerKey
key_eq = record { beq = key_beq; beq_iff = key_beq_iff }

-- `CircuitDeferredError`
pub record CircuitDeferred : Type 0 where
  pub key : CircuitBreakerKey
  pub retry_after : ℕ
  pub last_failure_kind : BackendFailureKind

-- what a call of `before_request` can raise: the deferral, or its failed `assert`
pub data RequestError : Type 0 where
  deferred : CircuitDeferred → RequestError
  assertion_failed : RequestError

pub record CircuitRecord : Type 0 where
  pub state : CircuitState
  pub consecutive_failures : ℕ
  pub opened_at : Option ℕ
  pub probe_in_flight : Bool
  pub last_failure_kind : BackendFailureKind

-- the defaults of `_CircuitRecord`
abbrev pub fresh : CircuitRecord
fresh = record {
  state = closed;
  consecutive_failures = 0;
  opened_at = none;
  probe_in_flight = false;
  last_failure_kind = network_unavailable;
}

pub record SharedCircuitBreaker : Type 0 where
  pub failure_threshold : ℕ
  pub cooldown : ℕ
  pub records : Dict CircuitBreakerKey CircuitRecord

pub data InitError : Type 0 where
  threshold_not_positive : InitError

-- `__init__`; a negative cooldown is no value of the model's times
unfoldable pub init : ℕ → ℕ → Result InitError SharedCircuitBreaker
init failure_threshold cooldown =
    if ltb failure_threshold 1
    then raise threshold_not_positive
    else ok (record { failure_threshold = failure_threshold; cooldown = cooldown; records = [] })

-- `self._records.setdefault(key, _CircuitRecord())`: the record that a call works on
unfoldable pub record_of : CircuitBreakerKey → SharedCircuitBreaker → CircuitRecord
record_of key b = elim (get key b.records) [ none ↦ fresh | some r ↦ r ]

unfoldable pub store :
    CircuitBreakerKey → CircuitRecord → SharedCircuitBreaker → SharedCircuitBreaker
store key r b = record b { records = put key r b.records }

-- `remaining <= 0` is `opened_at + cooldown <= now`, and `max(remaining, 0)` is the difference that
-- stops at 0.
unfoldable pub admit_probe :
    CircuitBreakerKey → ℕ → ℕ → CircuitRecord → ℕ → Result RequestError (Unit {0}) × CircuitRecord
admit_probe key cooldown now r opened_at = elim r.state [
  | opened ↦
      if leb (opened_at + cooldown) now
      then (ok tt, record r { state = half_open; probe_in_flight = true })
      else (
        raise (
            deferred (record {
              key = key;
              retry_after = opened_at + cooldown - now;
              last_failure_kind = r.last_failure_kind;
            })),
        r,
      )
  | _ ↦ (
    raise (
        deferred (record {
          key = key;
          retry_after = opened_at + cooldown - now;
          last_failure_kind = r.last_failure_kind;
        })),
    r,
  )
]

-- the body of `before_request` on the key's record
unfoldable pub before_request_on :
    CircuitBreakerKey → ℕ → ℕ → CircuitRecord → Result RequestError (Unit {0}) × CircuitRecord
unfolding admit_probe
before_request_on key cooldown now r = elim r.state [
  | closed ↦ (ok tt, r)
  | _ ↦ elim r.opened_at [
    | none ↦ (raise assertion_failed, r)
    | some opened_at ↦ admit_probe key cooldown now r opened_at
  ]
]

unfoldable pub before_request :
    CircuitBreakerKey
    → ℕ
    → SharedCircuitBreaker
    → Result RequestError (Unit {0}) × SharedCircuitBreaker
before_request key now b =
    let (answer, r) = before_request_on key b.cooldown now (record_of key b) in
    (answer, store key r b)

unfoldable pub record_success : CircuitBreakerKey → SharedCircuitBreaker → SharedCircuitBreaker
record_success key b = store key fresh b

-- the kinds that count against a backend
unfoldable pub counts : BackendFailureKind → Bool
counts overloaded = true
counts network_unavailable = true
counts timeout = true
counts process_interrupted = true
counts _ = false

-- the body of `record_failure` on the key's record, for a kind that counts
unfoldable pub record_failure_on : ℕ → ℕ → BackendFailureKind → CircuitRecord → CircuitRecord
record_failure_on failure_threshold now kind r = elim r.state [
  | half_open ↦ record r {
    last_failure_kind = kind;
    state = opened;
    opened_at = some now;
    probe_in_flight = false;
    consecutive_failures = failure_threshold;
  }
  | _ ↦
      if leb failure_threshold (r.consecutive_failures + 1)
      then record r {
        last_failure_kind = kind;
        consecutive_failures = r.consecutive_failures + 1;
        state = opened;
        opened_at = some now;
        probe_in_flight = false;
      }
      else record r { last_failure_kind = kind; consecutive_failures = r.consecutive_failures + 1 }
]

unfoldable pub record_failure :
    CircuitBreakerKey → BackendFailureKind → ℕ → SharedCircuitBreaker → SharedCircuitBreaker
record_failure key kind now b =
    if counts kind
    then store key (record_failure_on b.failure_threshold now kind (record_of key b)) b
    else b
