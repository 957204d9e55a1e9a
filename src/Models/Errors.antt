-- ===== src/Models/Errors.antt =====
-- src/foampilot/models/errors.py: the failure kinds of a model backend, and one failure.
use foam_pilot.Prelude.{ℕ, Bool, Option, String}

pub data BackendFailureKind : Type 0 where
  backend_unavailable backend_misconfigured auth_failed rate_limited : BackendFailureKind
  overloaded network_unavailable timeout process_interrupted : BackendFailureKind
  schema_invalid policy_rejected : BackendFailureKind

-- `BackendError`; times are milliseconds
pub record BackendError : Type 0 where
  pub kind : BackendFailureKind
  pub backend_id : String
  pub model : String
  pub purpose : String
  pub detail : String
  pub retryable : Bool
  pub status_code : Option ℕ
  pub request_id : Option String
  pub retry_after : Option ℕ
  pub partial_output_bytes : ℕ
  pub request_timed_out : Bool
  pub allows_schema_correction : Bool
