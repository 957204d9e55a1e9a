-- ===== src/Models/Gateway/State.antt =====
-- The data of src/foampilot/models/gateway.py: what it exchanges with its environment, and the
-- variables of `generate_structured`. The gateway has no activity reporter, as by default, so
-- nothing can cancel it. Times are milliseconds.
use foam_pilot.Prelude.{ℕ, ◌*◌, String, Bool, Option, List}
use foam_pilot.Models.Errors.{BackendFailureKind, BackendError}
use foam_pilot.Models.CircuitBreaker.{SharedCircuitBreaker}
use foam_pilot.Models.Budgets.{ModelBudgetLedger}
use foam_pilot.Models.Registry.{ModelBackend}

abbrev pub seconds : ℕ → ℕ
seconds n = n * 1_000

pub record ModelRequest : Type 0 where
  pub purpose : String
  pub system_prompt : String
  pub user_prompt : String
  pub response_schema : Option String

pub record BackendResponse : Type 0 where
  pub backend_id : String
  pub model : String
  pub output_text : String
  pub status_code : Option ℕ
  pub request_id : Option String
  pub output_bytes : ℕ

-- `backend.exchange` returns, raises a `BackendError`, or raises something else
pub data Exchange : Type 0 where
  replied : BackendResponse → Exchange
  failed : BackendError → Exchange
  crashed : Exchange

-- What the gateway is given: the clock, `sleep`, the transport, the response schema, and the check
-- of an output (`schema.model_validate_json`, or the caller's normalizer), which raises on `none`
-- with the detail that `_schema_validation_detail` makes of it.
pub record Environment (T : Type 0) : Type 1 where
  pub World : Type 0
  pub monotonic : World → ℕ × World
  pub sleep : ℕ → World → World
  pub exchange : ModelBackend → ModelRequest → ℕ → World → Exchange × World
  pub validate : String → Option T
  pub validation_detail : String → String
  pub strict_schema : String

pub data DeadlineReason : Type 0 where
  total_model_deadline stage_deadline insufficient_retry_window request_timeout : DeadlineReason

pub data SwitchReason : Type 0 where
  circuit_open : SwitchReason
  failed_with : BackendFailureKind → SwitchReason

-- `ModelAttemptTrace`, without the hashes, the wall-clock times and what the request fixes
pub record ModelAttemptTrace : Type 0 where
  pub backend_id : String
  pub model : String
  pub transport_attempt : ℕ
  pub backend_ordinal : ℕ
  pub backend_attempt : ℕ
  pub switch_reason : Option SwitchReason
  pub elapsed : ℕ
  pub output_bytes : ℕ
  pub status_code : Option ℕ
  pub request_id : Option String
  pub error_code : Option BackendFailureKind
  pub retryable : Option Bool
  pub partial_output_bytes : ℕ
  pub deadline_reason : Option DeadlineReason

pub record ModelResult (T : Type 0) : Type 0 where
  pub value : T
  pub backend_id : String
  pub model : String
  pub transport_attempts : ℕ
  pub backend_switches : ℕ
  pub elapsed : ℕ

-- `GatewayRequestError`
pub record GatewayFailure : Type 0 where
  pub failure : BackendError
  pub transport_attempts : ℕ
  pub backend_switches : ℕ
  pub deadline_reason : Option DeadlineReason
  pub deferred_by_circuit : Bool

-- what `generate_structured` can raise: its own error, the ledger's, what a backend raised beside
-- `BackendError`, and the breaker's failed assertion
pub data GatewayError : Type 0 where
  request_failed : GatewayFailure → GatewayError
  lineage_exhausted backend_crashed breaker_assertion : GatewayError

-- The state that outlives one candidate: the world, the shared objects, and the variables that
-- stand before the loop over the candidates.
pub record Progress (W : Type 0) : Type 0 where
  pub world : W
  pub breaker : SharedCircuitBreaker
  pub ledger : ModelBudgetLedger
  pub trace : List ModelAttemptTrace
  pub attempts : ℕ
  pub backend_switches : ℕ
  pub switch_reason : Option SwitchReason
  pub last_failure : Option BackendError
  pub last_deadline_reason : Option DeadlineReason
  pub deferred_count : ℕ

-- the variables of the loop over the attempts at one candidate
pub record Trial : Type 0 where
  pub active_request : ModelRequest
  pub backend_attempt : ℕ
  pub first_attempt_timeout : Option ℕ
  pub schema_correction_used : Bool
  pub backend_failure : Option BackendError

-- How a piece of the loop ends: by the next round, by `break`, by `return` or by an exception.
pub data Flow (T W : Type 0) : Type 0 where
  again : Progress W → Trial → Flow T W
  leave : Progress W → Trial → Flow T W
  returned : ModelResult T → Progress W → Flow T W
  raised : GatewayError → Progress W → Flow T W
