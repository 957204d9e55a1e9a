-- ===== src/Models/Gateway/Rounds.antt =====
-- The number of rounds of the loop over the attempts in src/foampilot/models/gateway.py.
use mathlib.Core.Path.{subst}
use foam_pilot.Prelude.{
  ℕ, zero, suc, ◌+◌, ◌≤◌, ◌≡◌, ◌⊎◌, inl, inr, refl, sym, false, arith, leb, ltb, Bool-cases,
  Option-cases,
}
use foam_pilot.Models.Errors.{BackendError}
use foam_pilot.Models.Budgets.{ModelBudgetWindow}
use foam_pilot.Models.Registry.{BackendMode, ModelBackend}
use foam_pilot.Models.Gateway.State.{
  ModelRequest, Environment, Progress, Trial, Flow, again, leave, returned, raised,
}
use foam_pilot.Models.Gateway.Attempt.{
  Verdict, accepted, rejected, crash, attempt_window, retry_window_too_short,
}
use foam_pilot.Models.Gateway.Steps.{
  wait, retry, react, punish, settle, send, open_window, continue_round, round, and_then,
  attempts_at,
}
use foam_pilot.Models.Gateway.Accounts.{reservation}

-- a piece of the loop that goes on to the next round has made `n` attempts by then
abbrev Proceeds : {T W : Type 0} → ℕ → Flow T W → Type 0
Proceeds n (again p t) = p.attempts ≡ n
Proceeds n _ = Unit {0}

module _ {T : Type 0} (env : Environment T) (budget : ModelBudgetWindow) (mode : BackendMode)
    (base_request : ModelRequest) where
  open env use {World}

  wait-Proceeds :
      (delay : ℕ) (p : Progress World) (t : Trial)
      → Proceeds p.attempts (wait env budget mode base_request delay p t)
  unfolding wait
  wait-Proceeds delay p t = ground arith

  retry-Proceeds :
      (rest : ℕ) (failure : BackendError) (p : Progress World) (t : Trial)
      → Proceeds p.attempts (retry env budget mode base_request rest failure p t)
  unfolding retry wait
  retry-Proceeds rest failure p t = ground arith

  react-Proceeds :
      (b : ModelBackend) (rest : ℕ) (failure : BackendError) (p : Progress World) (t : Trial)
      → Proceeds p.attempts (react env budget mode base_request b rest failure p t)
  unfolding react punish
  react-Proceeds b rest failure p t = ground (arith, retry-Proceeds rest failure p t)

  settle-Proceeds :
      (b : ModelBackend) (ordinal rest started began : ℕ) (v : Verdict T) (p : Progress World)
      (t : Trial)
      → Proceeds p.attempts (settle env budget mode base_request b ordinal rest started began v p t)
  unfolding settle
  settle-Proceeds b ordinal rest started began crash p t = tt
  settle-Proceeds b ordinal rest started began (accepted value response) p t = tt
  settle-Proceeds b ordinal rest started began (rejected response failure) p t =
      react-Proceeds b rest failure _ _

  send-Proceeds :
      (b : ModelBackend) (ordinal rest started window : ℕ) (p : Progress World) (t : Trial)
      → Proceeds
          (p.attempts + 1)
          (send env budget mode base_request b ordinal rest started window p t)
  unfolding send
  send-Proceeds b ordinal rest started window p t = elim (reservation p.ledger) [
    | inl (e, refused) ↦ rw (refused, send) tt
    | inr (below, granted, one_more, same) ↦
        rw (granted, send) (settle-Proceeds b ordinal rest started _ _ _ _)
  ]

  -- what `open_window` comes to: an end, or the same number of attempts
  abbrev Opens : ℕ → Flow T World ⊎ (ℕ × Progress World × Trial) → Type 0
  Opens n (inl f) = (m : ℕ) → Proceeds m f
  Opens n (inr (window, p, t)) = p.attempts ≡ n

  open_window-Opens :
      (b : ModelBackend) (p : Progress World) (t : Trial)
      → Opens p.attempts (open_window env budget mode base_request b p t)
  unfolding open_window
  open_window-Opens b p t =
      let window = attempt_window budget (env.monotonic p.world).0 in
      elim (Bool-cases (leb window 0)) [
        | inl e ↦ rw e (λ m. tt)
        | inr e ↦ rw e (elim (Option-cases t.first_attempt_timeout) [
          | inl n ↦ rw n refl
          | inr (first, s) ↦ rw s (elim (Bool-cases (retry_window_too_short window first)) [
            | inl short ↦ rw short (λ m. tt)
            | inr long ↦ rw long refl
          ])
        ])
      ]

  continue_round-Proceeds :
      (b : ModelBackend) (ordinal rest started n : ℕ)
      (o : Flow T World ⊎ (ℕ × Progress World × Trial))
      → Opens n o
      → Proceeds (n + 1) (continue_round env budget mode base_request b ordinal rest started o)
  unfolding continue_round
  continue_round-Proceeds b ordinal rest started n (inl ended) h = h (n + 1)
  continue_round-Proceeds b ordinal rest started n (inr (window, p, t)) h =
      subst
        (λ (m : ℕ).
          Proceeds (m + 1) (send env budget mode base_request b ordinal rest started window p t))
        h (send-Proceeds b ordinal rest started window p t)

  round-Proceeds :
      (b : ModelBackend) (ordinal rest started : ℕ) (p : Progress World) (t : Trial)
      → Proceeds (p.attempts + 1) (round env budget mode base_request b ordinal rest started p t)
  unfolding round
  round-Proceeds b ordinal rest started p t =
      continue_round-Proceeds b ordinal rest started p.attempts
        (open_window env budget mode base_request b p t) (open_window-Opens b p t)

  and_then-same :
      (n : ℕ) (f : Flow T World) (next next' : Progress World → Trial → Flow T World)
      → Proceeds n f
      → ((p : Progress World) (t : Trial) → p.attempts ≡ n → next p t ≡ next' p t)
      → and_then f next ≡ and_then f next'
  unfolding and_then
  and_then-same n (again p t) next next' h e = e p t h
  and_then-same n (leave p t) next next' h e = refl
  and_then-same n (returned r p) next next' h e = refl
  and_then-same n (raised x p) next next' h e = refl

  exhausted_attempts :
      (rounds : ℕ) (b : ModelBackend) (ordinal rest started : ℕ) (p : Progress World) (t : Trial)
      → budget.max_transport_attempts ≤ p.attempts
      → attempts_at env budget mode base_request rounds b ordinal rest started p t ≡ leave p t
  unfolding attempts_at
  exhausted_attempts zero b ordinal rest started p t h = refl
  exhausted_attempts (suc rounds) b ordinal rest started p t h =
      let no_more : ltb p.attempts budget.max_transport_attempts ≡ false = ground (arith, h) in
      rw (no_more, attempts_at) refl

  attempts_at-same :
      (m n : ℕ) (b : ModelBackend) (ordinal rest started : ℕ) (p : Progress World) (t : Trial)
      → budget.max_transport_attempts ≤ p.attempts + m
      → budget.max_transport_attempts ≤ p.attempts + n
      → attempts_at env budget mode base_request m b ordinal rest started p t
        ≡ attempts_at env budget mode base_request n b ordinal rest started p t
  unfolding attempts_at
  attempts_at-same zero n b ordinal rest started p t h k =
      sym (exhausted_attempts n b ordinal rest started p t (omega (arith, h)))
  attempts_at-same (suc m) zero b ordinal rest started p t h k =
      exhausted_attempts (suc m) b ordinal rest started p t (omega (arith, k))
  attempts_at-same (suc m) (suc n) b ordinal rest started p t h k =
      elim (Bool-cases (ltb p.attempts budget.max_transport_attempts)) [
        | inl e ↦
            rw (e, attempts_at)
              (and_then-same (p.attempts + 1) _ _ _ (round-Proceeds b ordinal rest started p t)
                (λ p' t' e'.
                  attempts_at-same m n b ordinal rest started p' t' (omega (arith, h, e'))
                    (omega (arith, k, e'))))
        | inr e ↦ rw (e, attempts_at) refl
      ]

-- The loop over the attempts at a candidate, which is given `max_transport_attempts` rounds, comes to
-- the same end with any larger number of them: it ends before its rounds run out.
pub attempts_at-enough :
    {T : Type 0} (env : Environment T) (budget : ModelBudgetWindow) (mode : BackendMode)
    (base_request : ModelRequest) (extra : ℕ) (b : ModelBackend) (ordinal rest started : ℕ)
    (p : Progress env.World) (t : Trial)
    → attempts_at env budget mode base_request budget.max_transport_attempts b ordinal rest started
        p t
      ≡ attempts_at env budget mode base_request
          (budget.max_transport_attempts + extra)
          b
          ordinal
          rest
          started
          p
          t
attempts_at-enough env budget mode base_request extra b ordinal rest started p t =
    attempts_at-same env budget mode base_request budget.max_transport_attempts
      (budget.max_transport_attempts + extra) b ordinal rest started p t (omega arith) (omega arith)
