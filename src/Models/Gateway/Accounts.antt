-- ===== src/Models/Gateway/Accounts.antt =====
-- The attempts that one candidate of a request of src/foampilot/models/gateway.py spends: the ledger, the trace
-- and the counter of the request agree.
use foam_pilot.Prelude.{
  ℕ, zero, suc, ◌+◌, ◌≤◌, ◌<◌, ◌≡◌, ◌⊎◌, inl, inr, arith, leb, ltb, length, length-snoc, ltb→lt,
  Option-cases, Bool-cases, Result, ok, raise,
}
use foam_pilot.Models.Errors.{BackendError}
use foam_pilot.Models.Budgets.{
  BudgetError, lineage_budget_exhausted, ModelBudgetLedger, ModelBudgetWindow,
  reserve_transport_attempt,
}
use foam_pilot.Models.Registry.{BackendMode, ModelBackend}
use foam_pilot.Models.Gateway.State.{
  ModelRequest, Environment, ModelResult, GatewayError, backend_crashed, Progress, Trial, Flow,
  again, leave, returned, raised,
}
use foam_pilot.Models.Gateway.Attempt.{
  Verdict, accepted, rejected, crash, attempt_window, retry_window_too_short,
}
use foam_pilot.Models.Gateway.Steps.{
  punish, open_window, wait, retry, react, settle, send, continue_round, round, and_then,
  attempts_at,
}

-- where a piece of the loop ends
abbrev pub progress_of : {T W : Type 0} → Flow T W → Progress W
progress_of (again p t) = p
progress_of (leave p t) = p
progress_of (returned r p) = p
progress_of (raised e p) = p

-- the attempts that have no entry in the trace: the one in which a backend raised something that
-- is no `BackendError`
abbrev pub lost_by : GatewayError → ℕ
lost_by backend_crashed = 1
lost_by _ = 0

abbrev pub lost_in : {T W : Type 0} → Flow T W → ℕ
lost_in (raised e p) = lost_by e
lost_in _ = 0

-- `used` and `limit` are the ledger's when the request began.
pub record Accounts {W : Type 0} (used limit most lost : ℕ) (p : Progress W) : Type 0 where
  pub charged : p.ledger.attempts_used ≡ used + p.attempts
  pub same_limit : p.ledger.attempt_limit ≡ limit
  pub within : p.ledger.attempts_used ≤ limit
  pub bounded : p.attempts ≤ most
  pub traced : length p.trace + lost ≡ p.attempts

-- A call of `reserve_transport_attempt` raises, or adds one attempt below the limit.
pub reservation :
    (l : ModelBudgetLedger)
    → ((e : BudgetError) × ((reserve_transport_attempt l).0 ≡ raise e))
      ⊎ ((l.attempts_used < l.attempt_limit)
          × ((reserve_transport_attempt l).0 ≡ ok (l.attempts_used + 1))
          × ((reserve_transport_attempt l).1.attempts_used ≡ l.attempts_used + 1)
          × ((reserve_transport_attempt l).1.attempt_limit ≡ l.attempt_limit))
unfolding reserve_transport_attempt
reservation l = elim (Bool-cases (leb l.attempt_limit l.attempts_used)) [
  | inl e ↦ inl (lineage_budget_exhausted, rw e)
  | inr e ↦ inr (ground arith)
]

-- the attempts of a request without an entry in the trace
abbrev pub lost_of : {T : Type 0} → Result GatewayError (ModelResult T) → ℕ
lost_of (raise e) = lost_by e
lost_of (ok r) = 0

module _ {T : Type 0} (env : Environment T) (budget : ModelBudgetWindow) (mode : BackendMode)
    (base_request : ModelRequest) (used limit : ℕ) where
  open env use {World}

  abbrev pub Balanced : Flow T World → Type 0
  Balanced f = Accounts used limit budget.max_transport_attempts (lost_in f) (progress_of f)

  wait-Balanced :
      (delay : ℕ) (p : Progress World) (t : Trial)
      → Accounts used limit budget.max_transport_attempts 0 p
      → Balanced (wait env budget mode base_request delay p t)
  unfolding wait
  wait-Balanced delay p t h = ground arith

  retry-Balanced :
      (rest : ℕ) (failure : BackendError) (p : Progress World) (t : Trial)
      → Accounts used limit budget.max_transport_attempts 0 p
      → Balanced (retry env budget mode base_request rest failure p t)
  unfolding retry wait
  retry-Balanced rest failure p t h = ground arith

  react-Balanced :
      (b : ModelBackend) (rest : ℕ) (failure : BackendError) (p : Progress World) (t : Trial)
      → Accounts used limit budget.max_transport_attempts 0 p
      → Balanced (react env budget mode base_request b rest failure p t)
  unfolding react punish
  react-Balanced b rest failure p t h = ground (arith, retry-Balanced rest failure p t h)

  -- before the entry of an attempt is written, that attempt is the one that the trace lacks
  settle-Balanced :
      (b : ModelBackend) (ordinal rest started began : ℕ) (v : Verdict T) (p : Progress World)
      (t : Trial)
      → Accounts used limit budget.max_transport_attempts 1 p
      → Balanced (settle env budget mode base_request b ordinal rest started began v p t)
  unfolding settle
  settle-Balanced b ordinal rest started began crash p t h = ground arith
  settle-Balanced b ordinal rest started began (accepted value response) p t h =
      omega (arith, length-snoc {0})
  settle-Balanced b ordinal rest started began (rejected response failure) p t h =
      react-Balanced b rest failure _ _ (omega (arith, length-snoc {0}))

  send-Balanced :
      (b : ModelBackend) (ordinal rest started window : ℕ) (p : Progress World) (t : Trial)
      → p.attempts < budget.max_transport_attempts
      → Accounts used limit budget.max_transport_attempts 0 p
      → Balanced (send env budget mode base_request b ordinal rest started window p t)
  unfolding send
  send-Balanced b ordinal rest started window p t lt h = elim (reservation p.ledger) [
    | inl (e, refused) ↦ rw (refused, send) h
    | inr (below, granted, one_more, same) ↦
        rw (granted, send) (settle-Balanced b ordinal rest started _ _ _ _ (omega arith))
  ]

  -- the window is open for one more attempt, or the attempts at this candidate have ended
  abbrev CanSend : Flow T World ⊎ (ℕ × Progress World × Trial) → Type 0
  CanSend (inl f) = Balanced f
  CanSend (inr (window, p, t)) =
      (p.attempts < budget.max_transport_attempts)
      × Accounts used limit budget.max_transport_attempts 0 p

  open_window-CanSend :
      (b : ModelBackend) (p : Progress World) (t : Trial)
      → p.attempts < budget.max_transport_attempts
      → Accounts used limit budget.max_transport_attempts 0 p
      → CanSend (open_window env budget mode base_request b p t)
  unfolding open_window
  open_window-CanSend b p t lt h =
      let window = attempt_window budget (env.monotonic p.world).0 in
      elim (Bool-cases (leb window 0)) [
        | inl e ↦ rw e (omega arith)
        | inr e ↦ rw e (elim (Option-cases t.first_attempt_timeout) [
          | inl n ↦ rw n (lt, omega arith)
          | inr (first, s) ↦ rw s (elim (Bool-cases (retry_window_too_short window first)) [
            | inl short ↦ rw short (omega arith)
            | inr long ↦ rw long (lt, omega arith)
          ])
        ])
      ]

  round-Balanced :
      (b : ModelBackend) (ordinal rest started : ℕ) (p : Progress World) (t : Trial)
      → p.attempts < budget.max_transport_attempts
      → Accounts used limit budget.max_transport_attempts 0 p
      → Balanced (round env budget mode base_request b ordinal rest started p t)
  unfolding round
  round-Balanced b ordinal rest started p t lt h =
      continue_round-Balanced (open_window env budget mode base_request b p t)
        (open_window-CanSend b p t lt h)
    where
      continue_round-Balanced :
          (o : Flow T World ⊎ (ℕ × Progress World × Trial))
          → CanSend o
          → Balanced (continue_round env budget mode base_request b ordinal rest started o)
      continue_round-Balanced (inl ended) c = c
      continue_round-Balanced (inr (window, p', t')) c =
          send-Balanced b ordinal rest started window p' t' c.0 c.1

  and_then-Balanced :
      (f : Flow T World) (next : Progress World → Trial → Flow T World)
      → Balanced f
      → ((p : Progress World) (t : Trial)
          → Accounts used limit budget.max_transport_attempts 0 p
          → Balanced (next p t))
      → Balanced (and_then f next)
  unfolding and_then
  and_then-Balanced (again p t) next h k = k p t h
  and_then-Balanced (leave p t) next h k = h
  and_then-Balanced (returned r p) next h k = h
  and_then-Balanced (raised e p) next h k = h

  pub attempts_at-Balanced :
      (rounds : ℕ) (b : ModelBackend) (ordinal rest started : ℕ) (p : Progress World) (t : Trial)
      → Accounts used limit budget.max_transport_attempts 0 p
      → Balanced (attempts_at env budget mode base_request rounds b ordinal rest started p t)
  unfolding attempts_at
  attempts_at-Balanced zero b ordinal rest started p t h = h
  attempts_at-Balanced (suc rounds) b ordinal rest started p t h =
      elim (Bool-cases (ltb p.attempts budget.max_transport_attempts)) [
        | inl e ↦
            rw (e, attempts_at)
              (and_then-Balanced _ _ (round-Balanced b ordinal rest started p t (ltb→lt _ _ e) h)
                (λ p' t' h'. attempts_at-Balanced rounds b ordinal rest started p' t' h'))
        | inr e ↦ rw (e, attempts_at) h
      ]
