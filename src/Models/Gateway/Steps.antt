-- ===== src/Models/Gateway/Steps.antt =====
-- The loops of `generate_structured` in src/foampilot/models/gateway.py.
use foam_pilot.Prelude.{
  ℕ, zero, suc, ◌+◌, ◌-◌, ◌⊎◌, inl, inr, Bool, true, false, not, ◌&&◌, none, some, [], ◌∷◌, ◌++◌,
  leb, ltb, if◌then◌else◌, Result, ok, raise,
}
use foam_pilot.Models.Errors.{BackendFailureKind, BackendError}
use foam_pilot.Models.CircuitBreaker.{
  closed, half_open, CircuitBreakerKey, SharedCircuitBreaker, before_request, record_success,
  record_failure, record_of, counts, RequestError,
}
use foam_pilot.Models.Budgets.{ModelBudgetWindow, reserve_transport_attempt}
use foam_pilot.Models.Registry.{BackendMode, ModelBackend}
use foam_pilot.Models.Gateway.State.{
  ModelRequest, Environment, insufficient_retry_window, request_timeout, request_failed,
  lineage_exhausted, backend_crashed, Progress, Trial, Flow, again, leave, returned, raised,
}
use foam_pilot.Models.Gateway.Attempt.{
  deadline_reason, retry_delay, key_of_backend, deadline_failure, corrected_request, attempt_window,
  remaining_deadline, retry_window_too_short, Verdict, accepted, rejected, crash, judge,
  trace_entry, gives_up, is_schema_invalid, is_policy_rejected, is_normal,
}

-- Which calls on the breaker read its clock.
unfoldable pub is_closed : CircuitBreakerKey → SharedCircuitBreaker → Bool
is_closed key b = elim (record_of key b).state [ closed ↦ true | _ ↦ false ]

unfoldable pub trips : CircuitBreakerKey → BackendFailureKind → SharedCircuitBreaker → Bool
trips key kind b = counts kind && elim (record_of key b).state [
  | half_open ↦ true
  | _ ↦ leb b.failure_threshold ((record_of key b).consecutive_failures + 1)
]

-- the next round of a loop, unless it has ended
unfoldable pub and_then : {T W : Type 0} → Flow T W → (Progress W → Trial → Flow T W) → Flow T W
and_then (again p t) next = next p t
and_then (leave p t) next = leave p t
and_then (returned r p) next = returned r p
and_then (raised e p) next = raised e p

module _ {T : Type 0} (env : Environment T) where
  open env use {World, monotonic, sleep, exchange}

  unfoldable pub read_clock_if : Bool → World → ℕ × World
  read_clock_if true w = monotonic w
  read_clock_if false w = (0, w)

  unfoldable pub admit :
      ModelBackend → Progress World → Result RequestError (Unit {0}) × Progress World
  unfolding is_closed read_clock_if
  admit b p =
      let key = key_of_backend b in
      let (now, w) = read_clock_if (not (is_closed key p.breaker)) p.world in
      let (answer, breaker) = before_request key now p.breaker in
      (answer, record p { world = w; breaker = breaker })

  unfoldable pub punish : ModelBackend → BackendFailureKind → Progress World → Progress World
  unfolding trips read_clock_if
  punish b kind p =
      let key = key_of_backend b in
      let (now, w) = read_clock_if (trips key kind p.breaker) p.world in
      record p { world = w; breaker = record_failure key kind now p.breaker }

  module _ (budget : ModelBudgetWindow) (mode : BackendMode) (base_request : ModelRequest) where
    -- the end of the attempts at one candidate for want of time, or the window of the next one
    unfoldable pub open_window :
        ModelBackend → Progress World → Trial → Flow T World ⊎ (ℕ × Progress World × Trial)
    open_window b p t =
        let (now, w) = monotonic p.world in
        let window = attempt_window budget now in
        if leb window 0
        then inl (
            leave (record p { world = w; last_deadline_reason = some (deadline_reason budget) })
              (record t { backend_failure = some (deadline_failure b base_request) }))
        else elim t.first_attempt_timeout [
          | none ↦
              inr (window, record p { world = w }, record t { first_attempt_timeout = some window })
          | some first ↦
              if retry_window_too_short window first
              then inl (
                  leave
                    (record p { world = w; last_deadline_reason = some insufficient_retry_window })
                    t)
              else inr (window, record p { world = w }, t)
        ]

    -- `self.sleep(delay)`, if the deadlines leave time for it
    unfoldable pub wait : ℕ → Progress World → Trial → Flow T World
    wait delay p t =
        let (now, w) = monotonic p.world in
        if leb (remaining_deadline budget now) delay
        then leave (record p { world = w; last_deadline_reason = some (deadline_reason budget) }) t
        else again (record p { world = sleep delay w }) t

    -- a failure that allows a retry; `rest` counts the candidates behind this one
    unfoldable pub retry : ℕ → BackendError → Progress World → Trial → Flow T World
    retry rest failure p t = elim (retry_delay failure t.backend_attempt) [
      | none ↦ leave p t
      | some delay ↦
          if leb budget.max_transport_attempts p.attempts
          then leave p t
          else if is_normal mode
              && ltb 0 rest
              && leb (budget.max_transport_attempts - p.attempts) rest
          then leave p t
          else wait delay p t
    ]

    -- what follows a failure that the variables already hold
    unfoldable pub react : ModelBackend → ℕ → BackendError → Progress World → Trial → Flow T World
    react b rest failure p t =
        if is_policy_rejected failure.kind
        then raised
            (request_failed (record {
              failure = failure;
              transport_attempts = p.attempts;
              backend_switches = p.backend_switches;
              deadline_reason = p.last_deadline_reason;
              deferred_by_circuit = false;
            }))
            (punish b failure.kind p)
        else if is_schema_invalid failure.kind
            && failure.allows_schema_correction
            && not t.schema_correction_used
            && ltb p.attempts budget.max_transport_attempts
        then again p (record t {
          schema_correction_used = true;
          active_request = corrected_request base_request failure.detail;
        })
        else if gives_up failure.kind
        then leave p t
        else retry rest failure p t

    -- from the end of the exchange, which began at `began`, to the end of the round
    unfoldable pub settle :
        ModelBackend → ℕ → ℕ → ℕ → ℕ → Verdict T → Progress World → Trial → Flow T World
    settle b ordinal rest started began crash p t = raised backend_crashed p
    settle b ordinal rest started began (accepted value response) p t =
        let (ended, w) = monotonic p.world in
        let (finished, w') = monotonic w in
        let entry =
          trace_entry b ordinal p.attempts t.backend_attempt p.switch_reason (ended - began)
            (some response) none in
        returned
          (record {
            value = value;
            backend_id = b.backend_id;
            model = b.model;
            transport_attempts = p.attempts;
            backend_switches = p.backend_switches;
            elapsed = finished - started;
          })
          (record p {
            world = w';
            trace = p.trace ++ entry ∷ [];
            breaker = record_success (key_of_backend b) p.breaker;
          })
    settle b ordinal rest started began (rejected response failure) p t =
        let (ended, w) = monotonic p.world in
        let entry =
          trace_entry b ordinal p.attempts t.backend_attempt p.switch_reason (ended - began)
            response (some failure) in
        react b rest failure
          (record p {
            world = w;
            trace = p.trace ++ entry ∷ [];
            last_failure = some failure;
            last_deadline_reason =
                if failure.request_timed_out then some request_timeout else p.last_deadline_reason;
          })
          (record t { backend_failure = some failure })

    -- the reservation and the exchange
    unfoldable pub send : ModelBackend → ℕ → ℕ → ℕ → ℕ → Progress World → Trial → Flow T World
    send b ordinal rest started window p t = elim (reserve_transport_attempt p.ledger).0 [
      | raise e ↦ raised lineage_exhausted p
      | ok number ↦
          let (began, w) = monotonic p.world in
          let (reply, w') = exchange b t.active_request window w in
          settle b ordinal rest started began (judge env b base_request reply)
            (record p {
              world = w';
              ledger = (reserve_transport_attempt p.ledger).1;
              attempts = p.attempts + 1;
            })
            (record t { backend_attempt = t.backend_attempt + 1 })
    ]

    -- one round of the `while`, from what `open_window` came to
    unfoldable pub continue_round :
        ModelBackend → ℕ → ℕ → ℕ → Flow T World ⊎ (ℕ × Progress World × Trial) → Flow T World
    continue_round b ordinal rest started (inl ended) = ended
    continue_round b ordinal rest started (inr (window, p, t)) =
        send b ordinal rest started window p t

    unfoldable pub round : ModelBackend → ℕ → ℕ → ℕ → Progress World → Trial → Flow T World
    unfolding continue_round
    round b ordinal rest started p t = continue_round b ordinal rest started (open_window b p t)

    -- the `while`, with a number of rounds
    unfoldable pub attempts_at :
        ℕ → ModelBackend → ℕ → ℕ → ℕ → Progress World → Trial → Flow T World
    attempts_at zero b ordinal rest started p t = leave p t
    attempts_at (suc rounds) b ordinal rest started p t =
        elim (ltb p.attempts budget.max_transport_attempts) [
          | false ↦ leave p t
          | true ↦
              and_then (round b ordinal rest started p t)
                (λ p' t'. attempts_at rounds b ordinal rest started p' t')
        ]
