-- ===== src/Models/Budgets.antt =====
-- src/foampilot/models/budgets.py: the deadlines and the transport attempts of one run lineage.
-- Times are milliseconds of the monotonic clock; `now` is what the argument `now()` returns.
pub mod Reservations
mod Examples
use foam_pilot.Prelude.{
  ℕ, ◌+◌, ◌-◌, ◌*◌, Bool, not, ◌&&◌, leb, ltb, if◌then◌else◌, Result, ok, raise,
}

pub data ModelStage : Type 0 where
  task_extraction intent_interpretation case_design case_authoring : ModelStage
  generation repair routing failure_diagnostic : ModelStage

-- the messages of the `ValueError`s, and `LineageBudgetExhausted`
pub data BudgetError : Type 0 where
  limit_not_positive used_outside_limit total_deadline_not_positive : BudgetError
  request_timeout_not_positive stage_deadline_not_positive : BudgetError
  max_attempts_not_positive lineage_budget_exhausted : BudgetError

pub record ModelBudgetLedger : Type 0 where
  pub total_deadline : ℕ
  pub attempt_limit : ℕ
  pub attempts_used : ℕ

-- a window refers to its ledger, which is passed beside it
pub record ModelBudgetWindow : Type 0 where
  pub stage : ModelStage
  pub request_timeout : ℕ
  pub stage_deadline : ℕ
  pub total_deadline : ℕ
  pub max_transport_attempts : ℕ

-- `NATIVE_MODEL_LINEAGE_ATTEMPT_LIMIT`
abbrev pub native_attempt_limit : ℕ
native_attempt_limit = 9

-- `ModelBudgetLedger.__init__`
unfoldable pub init : ℕ → ℕ → ℕ → Result BudgetError ModelBudgetLedger
init total_deadline attempt_limit attempts_used =
    if ltb attempt_limit 1
    then raise limit_not_positive
    else if not (leb attempts_used attempt_limit)
    then raise used_outside_limit
    else ok (record {
      total_deadline = total_deadline;
      attempt_limit = attempt_limit;
      attempts_used = attempts_used;
    })

-- the class method; `total` is `total_model_deadline_seconds`
unfoldable pub start : ℕ → ℕ → ℕ → ℕ → Result BudgetError ModelBudgetLedger
unfolding init
start total attempt_limit attempts_used now =
    if leb total 0
    then raise total_deadline_not_positive
    else init (now + total) attempt_limit attempts_used

unfoldable pub transport_attempts_remaining : ModelBudgetLedger → ℕ
transport_attempts_remaining l = l.attempt_limit - l.attempts_used

unfoldable pub total_remaining : ModelBudgetLedger → ℕ → ℕ
total_remaining l now = l.total_deadline - now

unfoldable pub open_stage :
    ModelBudgetLedger → ModelStage → ℕ → ℕ → ℕ → ℕ → Result BudgetError ModelBudgetWindow
open_stage l stage request_timeout stage_deadline max_transport_attempts now =
    if leb request_timeout 0
    then raise request_timeout_not_positive
    else if leb stage_deadline 0
    then raise stage_deadline_not_positive
    else if ltb max_transport_attempts 1
    then raise max_attempts_not_positive
    else ok (record {
      stage = stage;
      request_timeout = request_timeout;
      stage_deadline = now + stage_deadline;
      total_deadline = l.total_deadline;
      max_transport_attempts = max_transport_attempts;
    })

-- The lock is held for the whole call. It returns the number of the attempt.
unfoldable pub reserve_transport_attempt :
    ModelBudgetLedger → Result BudgetError ℕ × ModelBudgetLedger
reserve_transport_attempt l =
    if leb l.attempt_limit l.attempts_used
    then (raise lineage_budget_exhausted, l)
    else (ok (l.attempts_used + 1), record l { attempts_used = l.attempts_used + 1 })
