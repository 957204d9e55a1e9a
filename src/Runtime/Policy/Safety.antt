-- ===== src/Runtime/Policy/Safety.antt =====
-- What the decisions of src/foampilot/runtime/policy.py guarantee.
use foam_pilot.Prelude.{◌≡◌, ◌≢◌, ◌⊎◌, ◌↔◌, true, none, some, arith}
use foam_pilot.Runtime.Policy.{
  sandbox_required, sandbox_preferred, trusted_host, RuntimeConfig, RiskLevel, low, SandboxProbe,
  bwrap_unavailable, namespace_unavailable, consistent_status, passed, bubblewrap, host,
  host_warning, decide_execution_policy, ExecutionPolicyDecision,
}

-- An attempt runs on the host exactly when the configuration trusts the host and either the risk is
-- low or dynamic code on the host is opted in, or when the sandbox is preferred, the risk is low and
-- the probe failed because bubblewrap or its namespaces are not there.
pub host-exactly :
    (config : RuntimeConfig) (risk : RiskLevel) (probe : SandboxProbe)
    → consistent_status probe.status probe.probe_ok probe.failure_code ≡ true
    → ((decide_execution_policy config risk probe).actual_backend ≡ some host) ↔ (
        ((config.isolation ≡ trusted_host)
          × ((risk ≡ low) ⊎ (config.allow_dynamic_code_on_host ≡ true)))
        ⊎ ((config.isolation ≡ sandbox_preferred)
            × (risk ≡ low)
            × ((probe.failure_code ≡ some bwrap_unavailable)
                ⊎ (probe.failure_code ≡ some namespace_unavailable))))
unfolding decide_execution_policy consistent_status
host-exactly config risk probe c = ground arith

-- What a decision promises to those who act on it.
pub record IsCoherent (config : RuntimeConfig) (risk : RiskLevel) (probe : SandboxProbe)
    (d : ExecutionPolicyDecision) : Type 0 where
  -- it allows the attempt exactly if it names a backend
  pub allowed_backend : (d.allowed ≡ true) ↔ (d.actual_backend ≢ none)
  -- it warns exactly if the attempt runs on the host
  pub warned : (d.unisolated_warning ≡ some host_warning) ↔ (d.actual_backend ≡ some host)
  -- a passed probe means the sandbox, unless the host is trusted, and nothing else does
  pub sandboxed :
      (d.actual_backend ≡ some bubblewrap)
      ↔ ((config.isolation ≢ trusted_host) × (probe.status ≡ passed))
  -- a required sandbox is never replaced by the host
  pub required_kept : config.isolation ≡ sandbox_required → d.actual_backend ≢ some host
  -- the host runs code of a risk that is not low only after the opt-in
  pub opted_in :
      d.actual_backend ≡ some host → risk ≢ low → config.allow_dynamic_code_on_host ≡ true
  pub recorded : d.requested_isolation ≡ config.isolation

-- Every decision on a consistent probe allows an attempt exactly if it names a backend, warns
-- exactly on the host, takes the sandbox exactly if it passed its probe and the host is not
-- trusted, never replaces a required sandbox by the host, and sends code of a risk that is not low
-- to the host only after the opt-in.
pub decide_execution_policy-IsCoherent :
    (config : RuntimeConfig) (risk : RiskLevel) (probe : SandboxProbe)
    → consistent_status probe.status probe.probe_ok probe.failure_code ≡ true
    → IsCoherent config risk probe (decide_execution_policy config risk probe)
unfolding decide_execution_policy consistent_status
decide_execution_policy-IsCoherent config risk probe c = ground arith
