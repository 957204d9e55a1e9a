-- ===== src/Workflow/Coordinator/Stages.antt =====
-- One stage of src/foampilot/workflow/coordinator.py: what `advance` leaves in the store.
use mathlib.Core.Path.{subst}
use mathlib.Core.List.{append-nil}
use foam_pilot.Prelude.Dict.{get}
use foam_pilot.Prelude.Equality.{text_keys}
use foam_pilot.Prelude.{
  ◌≡◌, refl, sym, ap, ◌∙◌, ℕ, ◌+◌, String, List, [], ◌∷◌, length, length-snoc, Result, ok, raise,
  arith, inl, inr, Bool-cases, Option-cases,
}
use foam_pilot.Workflow.Records.{WorkflowStage, WorkflowEventState, started, cancelled}
use foam_pilot.Workflow.Store.{
  StoreError, unsafe_name, not_json, file_exists, listener_failed, not_contiguous, invalid_event,
  WorkflowStore, opened, checkpoint, is_safe_name,
}
use foam_pilot.Workflow.Services.{
  WorkflowContext, StageStatus, stage_completed, stage_deferred, stage_failed, stage_cancelled,
  StageOutcome, StageService,
}
use foam_pilot.Workflow.Coordinator.{
  WorkflowCoordinatorSummary, Environment, Session, and_then, record_stage, save, save_if_completed,
  settle, cancel_before, start_service, advance, event_state_of, stopped,
}
use foam_pilot.Workflow.Coordinator.Story.{Mark}
use foam_pilot.Workflow.Coordinator.Appends.{
  Appends, Appends-trans, record_stage-answer, noted-Appends, noted-same,
}

-- the errors of a store under a coordinator: never the number of an event, never its text
abbrev pub IsRefusal : StoreError → Type 0
IsRefusal unsafe_name = Unit
IsRefusal file_exists = Unit
IsRefusal not_json = Unit
IsRefusal listener_failed = Unit
IsRefusal not_contiguous = ⊥
IsRefusal invalid_event = ⊥

-- A chain of calls ends well if each of its calls does.
pub and_then-rule {ℓ κ} :
    {E A B W : Type 0} (Q : Result E A → W → Type ℓ) (Post : Result E B → W → Type κ)
    (r : Result E A × W) (next : A → W → Result E B × W)
    → Q r.0 r.1
    → ((e : E) (w : W) → Q (raise e) w → Post (raise e) w)
    → ((a : A) (w : W) → Q (ok a) w → Post (next a w).0 (next a w).1)
    → Post (and_then r next).0 (and_then r next).1
unfolding and_then
and_then-rule Q Post (ok a, w) next q h k = k a w q
and_then-rule Q Post (raise e, w) next q h k = h e w q

-- the marks of a stage by the status of its outcome
pub data StageMarks (s : WorkflowStage) : StageStatus → List Mark → Type 0 where
  runs :
      (status : StageStatus) → StageMarks s status ((s, started) ∷ (s, event_state_of status) ∷ [])
  skipped : StageMarks s stage_cancelled ((s, cancelled) ∷ [])

abbrev pub saves : StageStatus → ℕ
saves stage_completed = 1
saves _ = 0

module _ {W J : Type 0} (env : Environment W J) (context : WorkflowContext) where
  abbrev Store : Type 0
  Store = WorkflowStore J WorkflowCoordinatorSummary

  -- What a stage does to the store if it ends with the given status.
  pub record Passed (stage : WorkflowStage) (status : StageStatus) (s t : Store) : Type 0 where
    pub marks : List Mark
    pub shown : StageMarks stage status marks
    pub appends : Appends env.codec context.attempt marks s t
    pub saved : length t.checkpoints ≡ length s.checkpoints + saves status
    pub unfinished : t.summary ≡ s.summary

  abbrev pub Noted : List Mark → Session W J → Result StoreError (Unit {0}) → Session W J → Type 0
  Noted marks s (ok _) t =
      Appends env.codec context.attempt marks s.store t.store
      × (t.store.checkpoints ≡ s.store.checkpoints)
      × (t.store.summary ≡ s.store.summary)
  Noted marks s (raise e) t = IsRefusal e

  pub record_stage-Noted :
      (stage : WorkflowStage) (state : WorkflowEventState) (detail : String) (paths : List String)
      (s : Session W J)
      → let r = record_stage env context stage state detail paths s in
        Noted ((stage, state) ∷ []) s r.0 r.1
  record_stage-Noted stage state detail paths s =
      let holds = λ (a : Result StoreError (Unit {0})).
        Noted ((stage, state) ∷ []) s a (record_stage env context stage state detail paths s).1 in
      elim (record_stage-answer env context stage state detail paths s) [
        | inr e ↦ subst holds (sym e) tt
        | inl e ↦ subst holds (sym e) (
          noted-Appends env context stage state detail paths s,
          (noted-same env context stage state detail paths s).0,
          (noted-same env context stage state detail paths s).1,
        )
      ]

  abbrev Saved : StageStatus → Session W J → Result StoreError (Unit {0}) → Session W J → Type 0
  Saved status s (ok _) t =
      Appends env.codec context.attempt [] s.store t.store
      × (length t.store.checkpoints ≡ length s.store.checkpoints + saves status)
      × (t.store.summary ≡ s.store.summary)
  Saved status s (raise e) t = IsRefusal e

  silent :
      (s t : Session W J)
      → s.store.events ≡ t.store.events
      → s.store.last_sequence ≡ t.store.last_sequence
      → s.store.heard ≡ t.store.heard
      → Appends env.codec context.attempt [] s.store t.store
  silent s t e n h = record {
    added = [];
    marked = refl;
    numbered = tt;
    counted = omega (arith, n);
    written = ap opened (sym e);
    told = sym h ∙ sym (append-nil s.store.heard);
    attempted = tt;
  }

  abbrev Kept : Result StoreError (Unit {0}) → (s t : Store) → Type 0
  Kept (ok _) s t =
      (s.events ≡ t.events)
      × (s.last_sequence ≡ t.last_sequence)
      × (s.heard ≡ t.heard)
      × (length t.checkpoints ≡ length s.checkpoints + 1)
      × (t.summary ≡ s.summary)
  Kept (raise e) s t = IsRefusal e

  checkpoint-Kept :
      (name : String) (payload : J) (s : Store)
      → let r = checkpoint env.codec name payload s in Kept r.0 s r.1
  unfolding checkpoint
  checkpoint-Kept name payload s = elim (Bool-cases (is_safe_name name)) [
    | inr e ↦ rw (e, checkpoint) tt
    | inl e ↦ elim (Option-cases (env.codec.canonical payload)) [
      | inl g ↦ rw (e, g, checkpoint) tt
      | inr (text, g) ↦ elim (Option-cases (get name s.checkpoints)) [
        | inl f ↦ rw (e, g, f, checkpoint) (refl, refl, refl, length-snoc s.checkpoints _, refl)
        | inr (x, f) ↦ rw (e, g, f, checkpoint) tt
      ]
    ]
  ]

  Kept-Saved :
      (answer : Result StoreError (Unit {0})) (s : Session W J) (t : Store)
      → Kept answer s.store t
      → Saved stage_completed s answer (record s { store = t })
  Kept-Saved (ok _) s t (e, n, h, l, u) = (silent s (record s { store = t }) e n h, l, u)
  Kept-Saved (raise e) s t h = h

  save-Saved :
      (status : StageStatus) (stage : WorkflowStage) (outcome : StageOutcome J) (s : Session W J)
      → let r = save_if_completed env context status stage outcome s in Saved status s r.0 r.1
  unfolding save_if_completed save
  save-Saved stage_completed stage outcome s = Kept-Saved _ s _ (checkpoint-Kept _ _ s.store)
  save-Saved stage_deferred stage outcome s = (silent s s refl refl refl, omega arith, refl)
  save-Saved stage_failed stage outcome s = (silent s s refl refl refl, omega arith, refl)
  save-Saved stage_cancelled stage outcome s = (silent s s refl refl refl, omega arith, refl)

  abbrev pub Advanced :
      WorkflowStage → Session W J → Result StoreError (StageOutcome J) → Session W J → Type 0
  Advanced stage s (ok o) t = Passed stage o.status s.store t.store
  Advanced stage s (raise e) t = IsRefusal e

  settle-Advanced :
      (stage : WorkflowStage) (outcome : StageOutcome J) (s0 s : Session W J)
      → Noted ((stage, started) ∷ []) s0 (ok tt) s
      → let r = settle env context stage outcome s in Advanced stage s0 r.0 r.1
  unfolding settle
  settle-Advanced stage outcome s0 s h =
      and_then-rule (Saved outcome.status s) (Advanced stage s0)
        (save_if_completed env context outcome.status stage outcome s) _
        (save-Saved outcome.status stage outcome s) (λ e w q. q)
        (λ _ s1 q.
          and_then-rule (Noted ((stage, event_state_of outcome.status) ∷ []) s1) (Advanced stage s0)
            _ _
            (record_stage-Noted stage (event_state_of outcome.status) outcome.detail
              outcome.artifact_paths s1)
            (λ e w z. z)
            (λ _ s2 z. record {
              marks = (stage, started) ∷ (stage, event_state_of outcome.status) ∷ [];
              shown = runs outcome.status;
              appends =
                  Appends-trans env.codec context.attempt h.0
                    (Appends-trans env.codec context.attempt q.0 z.0);
              saved = ap (λ l. length l) z.1 ∙ q.1 ∙ ap (λ l. length l + saves outcome.status) h.1;
              unfinished = z.2 ∙ q.2 ∙ h.2;
            }))

  cancel_before-Advanced :
      (stage : WorkflowStage) (s : Session W J)
      → let r = cancel_before env context stage s in Advanced stage s r.0 r.1
  unfolding cancel_before stopped
  cancel_before-Advanced stage s =
      and_then-rule (Noted ((stage, cancelled) ∷ []) s) (Advanced stage s) _ _
        (record_stage-Noted stage cancelled _ [] s) (λ e w z. z)
        (λ _ s1 z. record {
          marks = (stage, cancelled) ∷ [];
          shown = skipped;
          appends = z.0;
          saved = omega (arith, ap (λ l. length l) z.1);
          unfinished = z.2;
        })

  start_service-Advanced :
      (service : StageService W J) (s : Session W J)
      → let r = start_service env context service s in Advanced service.stage s r.0 r.1
  unfolding start_service
  start_service-Advanced service s =
      and_then-rule (Noted ((service.stage, started) ∷ []) s) (Advanced service.stage s) _ _
        (record_stage-Noted service.stage started "" [] s) (λ e w z. z)
        (λ _ s1 z. settle-Advanced service.stage _ s (record s1 { world = _ }) z)

  -- A stage leaves its marks, and its checkpoint if it completed.
  pub advance-Advanced :
      (service : StageService W J) (s : Session W J)
      → let r = advance env context service s in Advanced service.stage s r.0 r.1
  unfolding advance
  advance-Advanced service s = elim (Bool-cases (env.cancellation_requested s.world).0) [
    | inl e ↦ rw (e, advance) (cancel_before-Advanced service.stage _)
    | inr e ↦ rw (e, advance) (start_service-Advanced service _)
  ]
