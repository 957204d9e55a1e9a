-- ===== src/Agent/Repair.antt =====
-- src/foampilot/agent/repair.py: `should_stop_repair`.
pub mod Stop
mod Examples
use text.Mathlib.Text.{◌==◌}
use foam_pilot.Prelude.{
  ℕ, String, Bool, true, false, not, Option, none, some, List, [], ◌∷◌, leb, nat_beq, if◌then◌else◌,
}

-- the reasons; `continue` is the one that stops nothing
pub data StopReason : Type 0 where
  environment_failure budget_exhausted repeated_failure no_op unchanged_bytes continue : StopReason

pub record RepairStop : Type 0 where
  pub stop : Bool
  pub reason : StopReason

-- `len(fingerprints) >= 2 and fingerprints[-1] == fingerprints[-2]`
unfoldable pub repeats : List String → Bool
repeats [] = false
repeats (x ∷ []) = false
repeats (x ∷ y ∷ []) = y == x
repeats (x ∷ y ∷ z ∷ l) = repeats (y ∷ z ∷ l)

unfoldable pub is_empty_patch : Option ℕ → Bool
is_empty_patch none = false
is_empty_patch (some n) = nat_beq n 0

unfoldable pub is_given : Option ℕ → Bool
is_given none = false
is_given (some n) = true

abbrev stop_for : StopReason → RepairStop
stop_for r = record { stop = true; reason = r }

-- the arguments in the order of the source
unfoldable pub should_stop_repair : List String → ℕ → ℕ → Bool → Option ℕ → Bool → RepairStop
should_stop_repair fingerprints attempts_used max_attempts generated_bytes_changed
      patch_operation_count environment_failed =
    if environment_failed
    then stop_for environment_failure
    else if leb max_attempts attempts_used
    then stop_for budget_exhausted
    else if repeats fingerprints
    then stop_for repeated_failure
    else if is_empty_patch patch_operation_count
    then stop_for no_op
    else if is_given patch_operation_count
    then (if not generated_bytes_changed
        then stop_for unchanged_bytes
        else record { stop = false; reason = continue })
    else record { stop = false; reason = continue }
