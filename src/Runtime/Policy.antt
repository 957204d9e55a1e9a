-- ===== src/Runtime/Policy.antt =====
-- src/foampilot/runtime/policy.py, with the types of src/foampilot/runtime/models.py that it reads:
-- which backend runs an OpenFOAM attempt.
pub mod Safety
mod Examples
use foam_pilot.Prelude.{
  String, Bool, true, false, not, ◌&&◌, ◌||◌, Option, none, some, if◌then◌else◌,
}

pub data IsolationPolicy : Type 0 where
  sandbox_required sandbox_preferred trusted_host : IsolationPolicy

pub record RuntimeConfig : Type 0 where
  pub isolation : IsolationPolicy
  pub allow_dynamic_code_on_host : Bool

pub data RiskLevel : Type 0 where
  low high unknown : RiskLevel

pub data ProbeStatus : Type 0 where
  passed failed not_requested : ProbeStatus

pub data ProbeFailure : Type 0 where
  bwrap_unavailable namespace_unavailable sandbox_setup_failed : ProbeFailure
  trusted_runtime_root_invalid : ProbeFailure

-- `ok` is true, false or null
pub record SandboxProbe : Type 0 where
  pub status : ProbeStatus
  pub probe_ok : Option Bool
  pub failure_code : Option ProbeFailure
  pub detail : String

is_some {ℓ} : {A : Type ℓ} → Option A → Bool
is_some none = false
is_some (some a) = true

-- the checks of `_consistent_status`, without which no probe is built
unfoldable pub consistent_status : ProbeStatus → Option Bool → Option ProbeFailure → Bool
unfolding is_some
consistent_status passed (some true) code = not (is_some code)
consistent_status failed (some false) code = is_some code
consistent_status not_requested none code = not (is_some code)
consistent_status _ _ _ = false

pub data Backend : Type 0 where
  bubblewrap host : Backend

pub data PolicyCode : Type 0 where
  host_dynamic_code_blocked trusted_host_dynamic_code_opt_in trusted_host_selected : PolicyCode
  sandbox_selected sandbox_required_unavailable host_fallback_selected : PolicyCode
  probe_failure : ProbeFailure → PolicyCode

pub record ExecutionPolicyDecision : Type 0 where
  pub requested_isolation : IsolationPolicy
  pub actual_backend : Option Backend
  pub allowed : Bool
  pub code : PolicyCode
  pub dynamic_code_host_opt_in : Bool
  pub fallback_reason : Option String
  pub unisolated_warning : Option String

-- `_HOST_WARNING`
abbrev pub host_warning : String
host_warning = "当前 attempt 在宿主机以当前用户权限执行；typed argv 不等价于文件系统和网络隔离。"

abbrev warning_for : Option Backend → Option String
warning_for (some host) = some host_warning
warning_for _ = none

-- `_decision`
unfoldable pub decision :
    RuntimeConfig → Option Backend → Bool → PolicyCode → Option String → ExecutionPolicyDecision
decision config backend allowed code fallback_reason = record {
  requested_isolation = config.isolation;
  actual_backend = backend;
  allowed = allowed;
  code = code;
  dynamic_code_host_opt_in = config.allow_dynamic_code_on_host;
  fallback_reason = fallback_reason;
  unisolated_warning = warning_for backend;
}

unfoldable pub is_low : RiskLevel → Bool
is_low low = true
is_low _ = false

-- `risk.risk_level in {"high", "unknown"}`
unfoldable pub is_risky : RiskLevel → Bool
is_risky high = true
is_risky unknown = true
is_risky low = false

-- `probe.status == "passed" and probe.ok is True`
unfoldable pub sandbox_available : ProbeStatus → Option Bool → Bool
sandbox_available passed (some true) = true
sandbox_available _ _ = false

-- `_MECHANISM_FAILURES`
unfoldable pub is_mechanism_failure : ProbeFailure → Bool
is_mechanism_failure bwrap_unavailable = true
is_mechanism_failure namespace_unavailable = true
is_mechanism_failure _ = false

-- `probe.failure_code or "SANDBOX_SETUP_FAILED"`
unfoldable pub failure_or_setup : Option ProbeFailure → ProbeFailure
failure_or_setup none = sandbox_setup_failed
failure_or_setup (some f) = f

unfoldable pub decide_trusted_host : RuntimeConfig → RiskLevel → ExecutionPolicyDecision
unfolding decision is_risky
decide_trusted_host config risk =
    if is_risky risk
    then (if not config.allow_dynamic_code_on_host
        then decision config none false host_dynamic_code_blocked none
        else decision config (some host) true trusted_host_dynamic_code_opt_in none)
    else decision config (some host) true trusted_host_selected none

-- the part of `decide_execution_policy` behind the test for an available sandbox
unfoldable pub decide_without_sandbox :
    RuntimeConfig → RiskLevel → SandboxProbe → ExecutionPolicyDecision
unfolding decision is_low is_mechanism_failure failure_or_setup
decide_without_sandbox config risk probe =
    let failure = failure_or_setup probe.failure_code in
    if not (is_mechanism_failure failure)
    then decision config none false (probe_failure failure) (some probe.detail)
    else elim config.isolation [
      | sandbox_required ↦
          decision config none false sandbox_required_unavailable (some probe.detail)
      | _ ↦
          if not (is_low risk)
          then decision config none false host_dynamic_code_blocked (some probe.detail)
          else decision config (some host) true host_fallback_selected (some probe.detail)
    ]

unfoldable pub decide_execution_policy :
    RuntimeConfig → RiskLevel → SandboxProbe → ExecutionPolicyDecision
unfolding decide_trusted_host decide_without_sandbox sandbox_available decision
decide_execution_policy config risk probe = elim config.isolation [
  | trusted_host ↦ decide_trusted_host config risk
  | _ ↦
      if sandbox_available probe.status probe.probe_ok
      then decision config (some bubblewrap) true sandbox_selected none
      else decide_without_sandbox config risk probe
]
