-- ===== src/Models/Budgets/Examples.antt =====
-- The theorems about src/foampilot/models/budgets.py at concrete inputs.
use foam_pilot.Prelude.{◌+◌, ◌≡◌, refl, inr, arith, ok}
use foam_pilot.Models.Budgets.{ModelBudgetLedger, start, native_attempt_limit}
use foam_pilot.Models.Budgets.Reservations.{reserve_times, schedule, reserve_times-schedule}

-- a lineage that has sent seven of its nine attempts
abbrev resumed : ModelBudgetLedger
resumed = record { total_deadline = 601_000; attempt_limit = 9; attempts_used = 7 }

resumed-start : start 600_000 native_attempt_limit 7 1_000 ≡ ok resumed
unfolding start
resumed-start = refl

reserve_times-schedule_example :
    reserve_times (2 + 2) resumed ≡ (schedule 8 2 2, record resumed { attempts_used = 7 + 2 })
reserve_times-schedule_example = reserve_times-schedule 2 2 resumed (omega arith) (inr refl)
