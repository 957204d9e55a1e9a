-- ===== src/Runtime/Policy/Examples.antt =====
-- The theorems about src/foampilot/runtime/policy.py at concrete inputs.
use foam_pilot.Prelude.{◌≡◌, ◌⊎◌, ◌↔◌, true, false, some, refl}
use foam_pilot.Runtime.Policy.{
  sandbox_preferred, trusted_host, RuntimeConfig, low, high, SandboxProbe, failed,
  bwrap_unavailable, namespace_unavailable, consistent_status, host, decide_execution_policy,
}
use foam_pilot.Runtime.Policy.Safety.{host-exactly, IsCoherent, decide_execution_policy-IsCoherent}

abbrev preferred : RuntimeConfig
preferred = record { isolation = sandbox_preferred; allow_dynamic_code_on_host = true }

abbrev no_bwrap : SandboxProbe
no_bwrap = record {
  status = failed;
  probe_ok = some false;
  failure_code = some bwrap_unavailable;
  detail = "bwrap not found";
}

host-exactly_example :
    ((decide_execution_policy preferred low no_bwrap).actual_backend ≡ some host) ↔ (
      ((sandbox_preferred ≡ trusted_host) × ((low ≡ low) ⊎ (true ≡ true)))
      ⊎ ((sandbox_preferred ≡ sandbox_preferred)
          × (low ≡ low)
          × ((some bwrap_unavailable ≡ some bwrap_unavailable)
              ⊎ (some bwrap_unavailable ≡ some namespace_unavailable))))
unfolding consistent_status
host-exactly_example = host-exactly preferred low no_bwrap refl

decide_execution_policy-IsCoherent_example :
    IsCoherent preferred high no_bwrap (decide_execution_policy preferred high no_bwrap)
unfolding consistent_status
decide_execution_policy-IsCoherent_example =
    decide_execution_policy-IsCoherent preferred high no_bwrap refl
