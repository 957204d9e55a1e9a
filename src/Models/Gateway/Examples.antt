-- ===== src/Models/Gateway/Examples.antt =====
-- The gateway of src/foampilot/models/gateway.py against a scripted transport, and the theorems
-- about it at concrete inputs.
use foam_pilot.Prelude.{
  All, ℕ, ◌+◌, ◌≡◌, refl, List, [], ◌∷◌, some, none, true, false, arith, ok, raise,
}
use foam_pilot.Prelude.Dict.{get, put}
use foam_pilot.Models.Errors.{BackendError, overloaded}
use foam_pilot.Models.CircuitBreaker.{
  SharedCircuitBreaker, CircuitRecord, half_open, record_of, store, before_request,
  before_request_on, admit_probe, record_success, record_failure, record_failure_on, counts,
  key_beq,
}
use foam_pilot.Models.Budgets.{
  ModelBudgetLedger, ModelBudgetWindow, case_authoring, reserve_transport_attempt,
}
use foam_pilot.Models.Registry.{ModelBackend, normal}
use foam_pilot.Models.Gateway.State.{
  seconds, ModelRequest, BackendResponse, Exchange, replied, failed, Environment, GatewayFailure,
  request_failed, ModelResult,
}
use foam_pilot.Models.Gateway.Attempt.{
  attempt_window, remaining_deadline, retry_window_too_short, retry_delay, key_of_backend, judge,
  gives_up, is_schema_invalid, is_policy_rejected,
}
use foam_pilot.Models.Gateway.Steps.{
  admit, punish, open_window, wait, retry, react, settle, send, continue_round, round, and_then,
  attempts_at, is_closed, trips, read_clock_if,
}
use foam_pilot.Models.Gateway.Run.{
  generate_structured, each_candidate, result_of, visit, after_attempts, close_trial, count_switch,
  goes_on, fresh_trial, begin,
}
use foam_pilot.Models.Gateway.Accounts.{Accounts, lost_of}
use foam_pilot.Models.Gateway.Accounting.{generate_structured-Accounts}
use foam_pilot.Models.Gateway.Delivery.{In, Delivered}
use foam_pilot.Models.Gateway.Deferral.{IsProbing, all_probing-deferred}
use foam_pilot.Models.Gateway.Rounds.{attempts_at-enough}
use foam_pilot.Models.Gateway.Soundness.{generate_structured-Delivered}

abbrev primary : ModelBackend
primary = record { backend_id = "primary"; model = "m1"; identity_hash = "aa" }

abbrev fallback : ModelBackend
fallback = record { backend_id = "fallback"; model = "m2"; identity_hash = "bb" }

abbrev overload : BackendError
overload = record {
  kind = overloaded;
  backend_id = "primary";
  model = "m1";
  purpose = "author";
  detail = "busy";
  retryable = true;
  status_code = some 529;
  request_id = none;
  retry_after = none;
  partial_output_bytes = 0;
  request_timed_out = false;
  allows_schema_correction = false;
}

-- the clock, which moves by a second at each reading, and the replies to come
abbrev Script : Type 0
Script = ℕ × List Exchange

abbrev next_reply : Script → Exchange × Script
next_reply (now, []) = (failed overload, (now, []))
next_reply (now, x ∷ l) = (x, (now, l))

abbrev scripted : Environment ℕ
scripted = record {
  World = Script;
  monotonic = λ w. (w.0, (w.0 + seconds 1, w.1));
  sleep = λ n w. (w.0 + n, w.1);
  exchange = λ b request window w. next_reply w;
  validate = λ text. some 7;
  validation_detail = λ text. text;
  strict_schema = "{}";
}

abbrev answer : BackendResponse
answer = record {
  backend_id = "fallback";
  model = "m2";
  output_text = "7";
  status_code = some 200;
  request_id = none;
  output_bytes = 1;
}

abbrev window : ModelBudgetWindow
window = record {
  stage = case_authoring;
  request_timeout = seconds 300;
  stage_deadline = seconds 600;
  total_deadline = seconds 900;
  max_transport_attempts = 3;
}

abbrev breaker : SharedCircuitBreaker
breaker = record { failure_threshold = 2; cooldown = seconds 120; records = [] }

abbrev ledger : ModelBudgetLedger
ledger = record { total_deadline = seconds 900; attempt_limit = 9; attempts_used = 0 }

abbrev request : ModelRequest
request = record {
  purpose = "author";
  system_prompt = "s";
  user_prompt = "u";
  response_schema = none;
}

-- two overloads at the primary, an answer of the fallback
abbrev script : Script
script = (0, failed overload ∷ failed overload ∷ replied answer ∷ [])

abbrev delivered : ModelResult ℕ
delivered = record {
  value = 7;
  backend_id = "fallback";
  model = "m2";
  transport_attempts = 3;
  backend_switches = 1;
  elapsed = seconds 16;
}

sent-delivered :
    (generate_structured scripted window normal primary
      (fallback ∷ [])
      request
      breaker
      ledger
      script).0
    ≡ ok delivered
unfolding generate_structured each_candidate result_of visit after_attempts attempts_at round
    continue_round open_window send settle react retry wait and_then punish admit close_trial
    count_switch goes_on fresh_trial begin is_closed trips read_clock_if attempt_window
    remaining_deadline retry_window_too_short retry_delay key_of_backend judge gives_up
    is_schema_invalid is_policy_rejected record_of store before_request before_request_on
    admit_probe record_success record_failure record_failure_on counts key_beq get put
    reserve_transport_attempt
sent-delivered = refl

generate_structured-Accounts_example :
    let run =
      generate_structured scripted window normal primary
        (fallback ∷ [])
        request
        breaker
        ledger
        script in
    Accounts 0 9 3 (lost_of run.0) run.1
generate_structured-Accounts_example =
    generate_structured-Accounts scripted window normal primary (fallback ∷ []) request breaker
      ledger script (omega arith)

generate_structured-Delivered_example :
    (b : ModelBackend) × In b (primary ∷ fallback ∷ [])
    × Delivered scripted b delivered
        (generate_structured scripted window normal primary
          (fallback ∷ [])
          request
          breaker
          ledger
          script).1
generate_structured-Delivered_example =
    generate_structured-Delivered scripted window normal primary (fallback ∷ []) request breaker
      ledger script {r = delivered} sent-delivered

-- a circuit whose probe is in flight
abbrev probing : CircuitRecord
probing = record {
  state = half_open;
  consecutive_failures = 2;
  opened_at = some (seconds 10);
  probe_in_flight = true;
  last_failure_kind = overloaded;
}

abbrev stuck : SharedCircuitBreaker
stuck = record breaker {
  records = (key_of_backend primary, probing) ∷ (key_of_backend fallback, probing) ∷ [];
}

stuck-IsProbing : All (IsProbing stuck) (primary ∷ fallback ∷ [])
unfolding key_of_backend record_of get key_beq
stuck-IsProbing = ((refl, λ e. cc), ((refl, λ e. cc), tt))

all_probing-deferred_example :
    let run =
      generate_structured scripted window normal primary
        (fallback ∷ [])
        request
        stuck
        ledger
        script in
    (failure : GatewayFailure) × (run.0 ≡ raise (request_failed failure))
    × (failure.transport_attempts ≡ 0)
    × (failure.deferred_by_circuit ≡ true)
    × (run.1.ledger ≡ ledger)
    × (run.1.trace ≡ [])
    × All (IsProbing run.1.breaker) (primary ∷ fallback ∷ [])
all_probing-deferred_example =
    all_probing-deferred scripted window primary (fallback ∷ []) request stuck ledger script
      stuck-IsProbing

attempts_at-enough_example :
    attempts_at scripted window normal request 3 primary 1 1 0
      (begin breaker ledger script)
      (fresh_trial request)
    ≡ attempts_at scripted window normal request
        (3 + 2)
        primary
        1
        1
        0
        (begin breaker ledger script)
        (fresh_trial request)
attempts_at-enough_example =
    attempts_at-enough scripted window normal request 2 primary 1 1 0 (begin breaker ledger script)
      (fresh_trial request)
