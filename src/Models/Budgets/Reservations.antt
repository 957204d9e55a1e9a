-- ===== src/Models/Budgets/Reservations.antt =====
-- The transport attempts that src/foampilot/models/budgets.py grants to the threads of a lineage.
use Prim.Native.Nat.add
use foam_pilot.Prelude.{
  ◌⊎◌, ◌↔◌, ℕ, zero, suc, ◌+◌, ◌≤◌, ◌<◌, ◌≡◌, refl, List, [], ◌∷◌, arith, Result, ok, raise,
}
use foam_pilot.Models.Budgets.{
  BudgetError, ModelBudgetLedger, start, reserve_transport_attempt, transport_attempts_remaining,
  lineage_budget_exhausted,
}

pub record IsValid (l : ModelBudgetLedger) : Type 0 where
  pub positive : 0 < l.attempt_limit
  pub within : l.attempts_used ≤ l.attempt_limit

-- `n` calls in a row, by any threads: their answers and the ledger after them
unfoldable pub reserve_times :
    ℕ → ModelBudgetLedger → List (Result BudgetError ℕ) × ModelBudgetLedger
reserve_times zero l = ([], l)
reserve_times (suc n) l =
    let (answer, l') = reserve_transport_attempt l in
    let (answers, l'') = reserve_times n l' in (answer ∷ answers, l'')

-- first, first + 1, ..., for `granted` attempts, and then `refused` refusals
abbrev pub schedule : ℕ → ℕ → ℕ → List (Result BudgetError ℕ)
schedule first (suc granted) refused = ok first ∷ schedule (suc first) granted refused
schedule first zero (suc refused) = raise lineage_budget_exhausted ∷ schedule first zero refused
schedule first zero zero = []

-- A ledger that `start` returns is valid, with its deadline `total` after now.
pub start-IsValid :
    (total limit used now : ℕ) {l : ModelBudgetLedger}
    → start total limit used now ≡ ok l
    → IsValid l × (l.total_deadline ≡ now + total) × (0 < total)
unfolding start
start-IsValid total limit used now h = ground arith

refused_one :
    (l : ModelBudgetLedger)
    → l.attempt_limit ≤ l.attempts_used
    → reserve_transport_attempt l ≡ (raise lineage_budget_exhausted, l)
unfolding reserve_transport_attempt
refused_one l h = ground arith

granted_one :
    (l : ModelBudgetLedger)
    → l.attempts_used < l.attempt_limit
    → reserve_transport_attempt l
      ≡ (ok (suc l.attempts_used), record l { attempts_used = suc l.attempts_used })
unfolding reserve_transport_attempt
granted_one l h = ground arith

refused_all :
    (n : ℕ) (l : ModelBudgetLedger)
    → l.attempt_limit ≤ l.attempts_used
    → reserve_times n l ≡ (schedule (suc l.attempts_used) 0 n, l)
unfolding reserve_times
refused_all zero l h = refl
refused_all (suc n) l h = rw (refused_one l h, refused_all n l h)

counted :
    (answers : List (Result BudgetError ℕ)) (l : ModelBudgetLedger) {m n : ℕ}
    → m ≡ n
    → ◌≡◌ {A = List (Result BudgetError ℕ) × ModelBudgetLedger}
        (answers, record l { attempts_used = m })
        (answers, record l { attempts_used = n })
counted answers l e = λ i. (answers, record l { attempts_used = e i })

-- Of any number of calls, in any order of the threads, the first ones get the numbers that follow
-- the attempts already used, without a gap or a repetition, until the limit is reached; each later
-- one raises, and the ledger counts exactly the granted ones.
pub reserve_times-schedule :
    (granted refused : ℕ) (l : ModelBudgetLedger)
    → l.attempts_used + granted ≤ l.attempt_limit
    → (refused ≡ 0) ⊎ (l.attempts_used + granted ≡ l.attempt_limit)
    → reserve_times (granted + refused) l ≡ (
      schedule (suc l.attempts_used) granted refused,
      record l { attempts_used = l.attempts_used + granted },
    )
unfolding reserve_times
reserve_times-schedule zero zero l h k = rw (add.zero 0) (counted _ l (omega arith))
reserve_times-schedule zero (suc n) l h k =
    rw (add.zero (suc n)) (rw (refused_all (suc n) l (omega arith)) (counted _ l (omega arith)))
reserve_times-schedule (suc g) refused l h k = rw (add.suc g refused) (
    rw (granted_one l (omega arith)) (
      rw
        (reserve_times-schedule g refused (record l { attempts_used = suc l.attempts_used })
          (omega arith) (omega arith))
        (counted _ l (omega arith))))

-- What is used and what remains add up to the limit, before and after a call.
pub remaining-reserve :
    (l : ModelBudgetLedger)
    → IsValid l
    → IsValid (reserve_transport_attempt l).1
      × ((reserve_transport_attempt l).1.attempts_used
            + transport_attempts_remaining (reserve_transport_attempt l).1
          ≡ l.attempt_limit)
      × (((reserve_transport_attempt l).0 ≡ raise lineage_budget_exhausted)
          ↔ (transport_attempts_remaining l ≡ 0))
unfolding reserve_transport_attempt transport_attempts_remaining
remaining-reserve l v = ground arith
