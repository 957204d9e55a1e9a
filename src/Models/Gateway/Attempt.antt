-- ===== src/Models/Gateway/Attempt.antt =====
-- One transport attempt of `generate_structured` in src/foampilot/models/gateway.py: the loop body,
-- cut where the code decides.
use text.Mathlib.Text.{◌==◌}
use Prim.Native.String.{◌++◌ as str_append}
use foam_pilot.Prelude.{
  ℕ, ◌-◌, ◌*◌, min, String, Bool, true, false, not, ◌||◌, Option, none, some, leb, ltb, nat_beq,
  if◌then◌else◌,
}
use foam_pilot.Models.Errors.{
  BackendFailureKind, BackendError, backend_unavailable, backend_misconfigured, auth_failed,
  rate_limited, overloaded, network_unavailable, timeout, process_interrupted, schema_invalid,
  policy_rejected,
}
use foam_pilot.Models.CircuitBreaker.{CircuitBreakerKey, CircuitDeferred}
use foam_pilot.Models.Budgets.{ModelBudgetWindow}
use foam_pilot.Models.Registry.{BackendMode, normal, qualification, ModelBackend}
use foam_pilot.Models.Gateway.State.{
  seconds, ModelRequest, BackendResponse, Exchange, replied, failed, crashed, Environment,
  DeadlineReason, total_model_deadline, stage_deadline, request_timeout, SwitchReason,
  ModelAttemptTrace,
}

-- `_deadline_reason`; `total - now <= stage - now` is `total <= stage`
unfoldable pub deadline_reason : ModelBudgetWindow → DeadlineReason
deadline_reason budget =
    if leb budget.total_deadline budget.stage_deadline then total_model_deadline else stage_deadline

-- `delays[backend_attempt - 1]`; an index -1 is the last delay
unfoldable pub backoff : ℕ → Option ℕ
backoff attempt =
    if nat_beq attempt 1
    then some (seconds 5)
    else if leb attempt 2
    then some (seconds 15)
    else none

-- `_retry_delay`
unfoldable pub retry_delay : BackendError → ℕ → Option ℕ
unfolding backoff
retry_delay failure backend_attempt = elim failure.kind [
  | rate_limited ↦ failure.retry_after
  | overloaded ↦ backoff backend_attempt
  | network_unavailable ↦ backoff backend_attempt
  | timeout ↦ backoff backend_attempt
  | process_interrupted ↦ backoff backend_attempt
  | _ ↦ none
]

-- `_key`
unfoldable pub key_of_backend : ModelBackend → CircuitBreakerKey
key_of_backend b = record {
  backend_id = b.backend_id;
  model = b.model;
  identity_hash = b.identity_hash;
}

-- a `BackendError` with the defaults of its constructor
abbrev pub plain_error :
    BackendFailureKind → ModelBackend → ModelRequest → String → Bool → BackendError
plain_error kind b request detail retryable = record {
  kind = kind;
  backend_id = b.backend_id;
  model = b.model;
  purpose = request.purpose;
  detail = detail;
  retryable = retryable;
  status_code = none;
  request_id = none;
  retry_after = none;
  partial_output_bytes = 0;
  request_timed_out = false;
  allows_schema_correction = false;
}

-- `_circuit_failure`
unfoldable pub circuit_failure : ModelBackend → ModelRequest → CircuitDeferred → BackendError
circuit_failure b request d =
    record (plain_error d.last_failure_kind b request "backend circuit is open" true) {
      retry_after = some d.retry_after;
    }

-- `_deadline_failure`
unfoldable pub deadline_failure : ModelBackend → ModelRequest → BackendError
deadline_failure b request =
    plain_error timeout b request "model request deadline expired before transport" true

-- `_corrected_request`
unfoldable pub corrected_request : ModelRequest → String → ModelRequest
corrected_request request detail = record request {
  system_prompt =
      str_append
        (str_append request.system_prompt "\n\n上一次输出未通过 JSON Schema 验证。只纠正输出结构，不要解释原因。验证位置：")
        detail;
}

-- The smallest of the three windows; a window that is negative or 0 in the code is 0 here.
unfoldable pub attempt_window : ModelBudgetWindow → ℕ → ℕ
attempt_window budget now =
    min (min budget.request_timeout (budget.stage_deadline - now)) (budget.total_deadline - now)

unfoldable pub remaining_deadline : ModelBudgetWindow → ℕ → ℕ
remaining_deadline budget now = min (budget.stage_deadline - now) (budget.total_deadline - now)

-- `attempt_timeout < min(120.0, first_attempt_timeout / 2.0)`, doubled
unfoldable pub retry_window_too_short : ℕ → ℕ → Bool
retry_window_too_short window first = ltb (2 * window) (min (2 * seconds 120) first)

-- what one exchange comes to: a value, or the failure with the response that it came with
pub data Verdict (T : Type 0) : Type 0 where
  accepted : T → BackendResponse → Verdict T
  rejected : Option BackendResponse → BackendError → Verdict T
  crash : Verdict T

module _ {T : Type 0} (env : Environment T) where
  unfoldable pub check_output : ModelBackend → ModelRequest → BackendResponse → Option T → Verdict T
  check_output b request response (some value) = accepted value response
  check_output b request response none =
      rejected (some response)
        (record (plain_error schema_invalid b request (env.validation_detail response.output_text)
          false) {
            allows_schema_correction = true;
            status_code = response.status_code;
            request_id = response.request_id;
          })

  -- the `try` block round the exchange
  unfoldable pub judge : ModelBackend → ModelRequest → Exchange → Verdict T
  unfolding check_output
  judge b request (replied response) =
      if not (response.backend_id == b.backend_id) || not (response.model == b.model)
      then rejected (some response) (
          plain_error schema_invalid b request "backend response identity does not match request"
            false)
      else check_output b request response (env.validate response.output_text)
  judge b request (failed failure) = rejected none failure
  judge b request crashed = crash

abbrev or_none {ℓ κ} : {A : Type ℓ} {B : Type κ} → (A → B) → Option A → Option B
or_none f none = none
or_none f (some a) = some (f a)

abbrev either_code : Option BackendResponse → Option BackendError → Option ℕ
either_code (some r) f = r.status_code
either_code none none = none
either_code none (some f) = f.status_code

abbrev either_id : Option BackendResponse → Option BackendError → Option String
either_id (some r) f = r.request_id
either_id none none = none
either_id none (some f) = f.request_id

abbrev timed_out : Option BackendError → Option DeadlineReason
timed_out none = none
timed_out (some f) = if f.request_timed_out then some request_timeout else none

-- the `ModelAttemptTrace` of an attempt, from its response and its failure
unfoldable pub trace_entry :
    ModelBackend
    → ℕ
    → ℕ
    → ℕ
    → Option SwitchReason
    → ℕ
    → Option BackendResponse
    → Option BackendError
    → ModelAttemptTrace
trace_entry b ordinal attempts backend_attempt switch_reason elapsed response failure = record {
  backend_id = b.backend_id;
  model = b.model;
  transport_attempt = attempts;
  backend_ordinal = ordinal;
  backend_attempt = backend_attempt;
  switch_reason = if nat_beq backend_attempt 1 then switch_reason else none;
  elapsed = elapsed;
  output_bytes = elim response [ none ↦ 0 | some r ↦ r.output_bytes ];
  status_code = either_code response failure;
  request_id = either_id response failure;
  error_code = or_none (λ (f : BackendError). f.kind) failure;
  retryable = or_none (λ (f : BackendError). f.retryable) failure;
  partial_output_bytes = elim failure [ none ↦ 0 | some f ↦ f.partial_output_bytes ];
  deadline_reason = timed_out failure;
}

-- the kinds after which a backend is not asked again
unfoldable pub gives_up : BackendFailureKind → Bool
gives_up backend_unavailable = true
gives_up backend_misconfigured = true
gives_up auth_failed = true
gives_up schema_invalid = true
gives_up _ = false

unfoldable pub is_schema_invalid : BackendFailureKind → Bool
is_schema_invalid schema_invalid = true
is_schema_invalid _ = false

unfoldable pub is_policy_rejected : BackendFailureKind → Bool
is_policy_rejected policy_rejected = true
is_policy_rejected _ = false

abbrev pub is_normal : BackendMode → Bool
is_normal normal = true
is_normal qualification = false
