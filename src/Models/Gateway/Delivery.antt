-- ===== src/Models/Gateway/Delivery.antt =====
-- What a result of `generate_structured` in src/foampilot/models/gateway.py rests on.
use text.Mathlib.Text.{◌==◌ as str_eq}
use foam_pilot.Prelude.{
  ℕ, zero, suc, ◌<◌, ◌≡◌, ◌⊎◌, inl, inr, refl, ◌∙◌, not, ◌||◌, Bool, true, false, Option, none,
  some, List, [], ◌∷◌, arith, ltb, eq_iff, Bool-cases,
}
use foam_pilot.Prelude.Equality.{beq_refl}
use foam_pilot.Models.Errors.{BackendError}
use foam_pilot.Models.CircuitBreaker.{
  SharedCircuitBreaker, record_of, record_success, fresh, key_eq,
}
use foam_pilot.Models.CircuitBreaker.Calls.{record_of-store}
use foam_pilot.Models.Budgets.{ModelBudgetWindow}
use foam_pilot.Models.Registry.{BackendMode, ModelBackend}
use foam_pilot.Models.Gateway.State.{
  ModelRequest, BackendResponse, Exchange, replied, failed, crashed, Environment, ModelResult,
  Progress, Trial, Flow, again, leave, returned, raised,
}
use foam_pilot.Models.Gateway.Attempt.{
  Verdict, accepted, rejected, crash, judge, check_output, key_of_backend,
}
use foam_pilot.Models.Gateway.Steps.{
  open_window, wait, retry, react, settle, send, continue_round, round, and_then, attempts_at,
}
use foam_pilot.Models.Gateway.Accounts.{reservation}

-- whether a list holds a backend
abbrev pub In : ModelBackend → List ModelBackend → Type 0
In b [] = ⊥
In b (c ∷ l) = (b ≡ c) ⊎ In b l

-- The result `r` is the valid output of what `b` replied to a request, under its own ID and model, and
-- the circuit of `b` is closed and reset.
-- a reply that the transport gave when `b` was asked
abbrev pub Replies : {T : Type 0} → Environment T → ModelBackend → BackendResponse → Type 0
Replies env b response =
    (request : ModelRequest) × (window : ℕ) × (w : env.World) × ((env.exchange b request window w).0
      ≡ replied response)

pub record Delivered {T : Type 0} (env : Environment T) (b : ModelBackend) (r : ModelResult T)
    (p : Progress env.World) : Type 0 where
  pub response : BackendResponse
  pub replied_to : Replies env b response
  pub valid : env.validate response.output_text ≡ some r.value
  pub from_backend : (response.backend_id ≡ b.backend_id) × (response.model ≡ b.model)
  pub named : (r.backend_id ≡ b.backend_id) × (r.model ≡ b.model)
  pub reset : record_of (key_of_backend b) p.breaker ≡ fresh
  pub counted : (r.transport_attempts ≡ p.attempts) × (0 < p.attempts)

reset_after_success :
    (b : ModelBackend) (breaker : SharedCircuitBreaker)
    → record_of (key_of_backend b) (record_success (key_of_backend b) breaker) ≡ fresh
unfolding record_success
reset_after_success b breaker =
    record_of-store (key_of_backend b) (key_of_backend b) fresh breaker
    ∙ rw (beq_refl (key_of_backend b))

module _ {T : Type 0} (env : Environment T) (budget : ModelBudgetWindow) (mode : BackendMode)
    (base_request : ModelRequest) where
  open env use {World}

  abbrev pub Delivers : ModelBackend → Flow T World → Type 0
  Delivers b (returned r p) = Delivered env b r p
  Delivers b _ = Unit {0}

  abbrev not_returned : Flow T World → Bool
  not_returned (returned r p) = false
  not_returned _ = true

  not_returned-Delivers :
      (b : ModelBackend) (f : Flow T World) → not_returned f ≡ true → Delivers b f
  not_returned-Delivers b (again p t) h = tt
  not_returned-Delivers b (leave p t) h = tt
  not_returned-Delivers b (returned r p) h = cc
  not_returned-Delivers b (raised e p) h = tt

  -- an accepted output is valid and comes from the backend that was asked
  abbrev Genuine : ModelBackend → Exchange → Verdict T → Type 0
  Genuine b x (accepted value response) =
      (x ≡ replied response)
      × (env.validate response.output_text ≡ some value)
      × (response.backend_id ≡ b.backend_id)
      × (response.model ≡ b.model)
  Genuine b x _ = Unit {0}

  check_output-Genuine :
      (b : ModelBackend) (response : BackendResponse)
      → response.backend_id ≡ b.backend_id
      → response.model ≡ b.model
      → (o : Option T) → env.validate response.output_text ≡ o
      → Genuine b (replied response) (check_output env b base_request response o)
  unfolding check_output
  check_output-Genuine b response i m none e = tt
  check_output-Genuine b response i m (some value) e = (refl, e, i, m)

  judge-Genuine : (b : ModelBackend) (x : Exchange) → Genuine b x (judge env b base_request x)
  unfolding judge
  judge-Genuine b (replied response) =
      let other =
        not (str_eq response.backend_id b.backend_id) || not (str_eq response.model b.model) in
      elim (Bool-cases other) [
        | inl e ↦ rw e tt
        | inr e ↦ rw e (
            check_output-Genuine b response
              (ground (arith, eq_iff response.backend_id b.backend_id))
              (ground (arith, eq_iff response.model b.model)) _ refl)
      ]
  judge-Genuine b (failed failure) = tt
  judge-Genuine b crashed = tt

  retry-not_returned :
      (rest : ℕ) (failure : BackendError) (p : Progress World) (t : Trial)
      → not_returned (retry env budget mode base_request rest failure p t) ≡ true
  unfolding retry wait
  retry-not_returned rest failure p t = ground arith

  react-not_returned :
      (b : ModelBackend) (rest : ℕ) (failure : BackendError) (p : Progress World) (t : Trial)
      → not_returned (react env budget mode base_request b rest failure p t) ≡ true
  unfolding react
  react-not_returned b rest failure p t = ground (arith, retry-not_returned rest failure p t)

  settle-Delivers :
      (b : ModelBackend) (ordinal rest started began : ℕ) (v : Verdict T) (p : Progress World)
      (t : Trial) (request : ModelRequest) (window : ℕ) (w : World)
      → 0 < p.attempts
      → Genuine b (env.exchange b request window w).0 v
      → Delivers b (settle env budget mode base_request b ordinal rest started began v p t)
  unfolding settle
  settle-Delivers b ordinal rest started began crash p t request window w h g = tt
  settle-Delivers b ordinal rest started began (rejected response failure) p t request window w h
        g =
      not_returned-Delivers b _ (react-not_returned b rest failure _ _)
  settle-Delivers b ordinal rest started began (accepted value response) p t request window w h g =
      record {
        response = response;
        replied_to = (request, window, w, g.0);
        valid = g.1;
        from_backend = (g.2, g.3);
        named = (refl, refl);
        reset = reset_after_success b p.breaker;
        counted = (refl, h);
      }

  send-Delivers :
      (b : ModelBackend) (ordinal rest started window : ℕ) (p : Progress World) (t : Trial)
      → Delivers b (send env budget mode base_request b ordinal rest started window p t)
  unfolding send
  send-Delivers b ordinal rest started window p t = elim (reservation p.ledger) [
    | inl (e, refused) ↦ rw (refused, send) tt
    | inr (below, granted, one_more, same) ↦
        rw (granted, send)
          (settle-Delivers b ordinal rest started _ _ _ _ t.active_request window
            (env.monotonic p.world).1 (omega arith) (judge-Genuine b _))
  ]

  abbrev ends_without_result : Flow T World ⊎ (ℕ × Progress World × Trial) → Bool
  ends_without_result (inl f) = not_returned f
  ends_without_result (inr w) = true

  open_window-no_result :
      (b : ModelBackend) (p : Progress World) (t : Trial)
      → ends_without_result (open_window env budget mode base_request b p t) ≡ true
  unfolding open_window
  open_window-no_result b p t = ground arith

  continue_round-Delivers :
      (b : ModelBackend) (ordinal rest started : ℕ)
      (o : Flow T World ⊎ (ℕ × Progress World × Trial))
      → ends_without_result o ≡ true
      → Delivers b (continue_round env budget mode base_request b ordinal rest started o)
  unfolding continue_round
  continue_round-Delivers b ordinal rest started (inl f) h = not_returned-Delivers b f h
  continue_round-Delivers b ordinal rest started (inr (window, p, t)) h =
      send-Delivers b ordinal rest started window p t

  and_then-Delivers :
      (b : ModelBackend) (f : Flow T World) (next : Progress World → Trial → Flow T World)
      → Delivers b f
      → ((p : Progress World) (t : Trial) → Delivers b (next p t))
      → Delivers b (and_then f next)
  unfolding and_then
  and_then-Delivers b (again p t) next h k = k p t
  and_then-Delivers b (leave p t) next h k = tt
  and_then-Delivers b (returned r p) next h k = h
  and_then-Delivers b (raised e p) next h k = tt

  pub attempts_at-Delivers :
      (rounds : ℕ) (b : ModelBackend) (ordinal rest started : ℕ) (p : Progress World) (t : Trial)
      → Delivers b (attempts_at env budget mode base_request rounds b ordinal rest started p t)
  unfolding attempts_at round
  attempts_at-Delivers zero b ordinal rest started p t = tt
  attempts_at-Delivers (suc rounds) b ordinal rest started p t =
      elim (Bool-cases (ltb p.attempts budget.max_transport_attempts)) [
        | inl e ↦
            rw (e, attempts_at)
              (and_then-Delivers b _ _
                (continue_round-Delivers b ordinal rest started _ (open_window-no_result b p t))
                (λ p' t'. attempts_at-Delivers rounds b ordinal rest started p' t'))
        | inr e ↦ rw (e, attempts_at) tt
      ]
