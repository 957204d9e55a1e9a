-- ===== src/Workflow/Coordinator/Appends.antt =====
-- The events that `WorkflowCoordinator._record` of src/foampilot/workflow/coordinator.py adds to a
-- store.
use mathlib.Core.Path.{subst}
use mathlib.Core.List.{append-nil, append_assoc, map-append}
use foam_pilot.Prelude.{
  if-rule, ◌⊎◌, inl, inr, raise, ◌≡◌, refl, sym, ap, ◌∙◌, ℕ, ◌+◌, String, Option, some, List, [],
  ◌∷◌, ◌++◌, map, length, All, All-append, ok, arith, nat_beq_iff, length-append,
}
use foam_pilot.Workflow.Records.{WorkflowStage, WorkflowEventState, WorkflowEvent}
use foam_pilot.Workflow.Store.{
  LogFile, append_line, Codec, WorkflowStore, opened, next_sequence, record_event, listener_failed,
}
use foam_pilot.Workflow.Store.Log.{Numbered, Numbered-append}
use foam_pilot.Workflow.Services.{WorkflowContext}
use foam_pilot.Workflow.Coordinator.{WorkflowCoordinatorSummary, Environment, Session, record_stage}
use foam_pilot.Workflow.Coordinator.Story.{Mark}

abbrev pub mark_of : WorkflowEvent → Mark
mark_of e = (e.stage, e.state)

abbrev pub append_events : {J : Type 0} → Codec J → List WorkflowEvent → LogFile → LogFile
append_events codec [] f = f
append_events codec (e ∷ es) f = append_events codec es (append_line (codec.dump_event e) f)

append_events-append :
    {J : Type 0} (codec : Codec J) (es fs : List WorkflowEvent) (f : LogFile)
    → append_events codec (es ++ fs) f ≡ append_events codec fs (append_events codec es f)
append_events-append codec [] fs f = refl
append_events-append codec (e ∷ es) fs f =
    append_events-append codec es fs (append_line (codec.dump_event e) f)

module _ {J : Type 0} (codec : Codec J) (attempt : ℕ) where
  abbrev Store : Type 0
  Store = WorkflowStore J WorkflowCoordinatorSummary

  -- From one store to the other the log has grown by events with the given stages and states, with
  -- the next numbers and the attempt of the run, and the listener got the same events.
  pub record Appends (marks : List Mark) (s t : Store) : Type 0 where
    pub added : List WorkflowEvent
    pub marked : map mark_of added ≡ marks
    pub numbered : Numbered s.last_sequence added
    pub counted : t.last_sequence ≡ s.last_sequence + length added
    pub written : opened t.events ≡ append_events codec added (opened s.events)
    pub told : t.heard ≡ s.heard ++ added
    pub attempted : All (λ e. e.attempt ≡ some attempt) added

  pub Appends-trans :
      {marks more : List Mark} {s t u : Store}
      → Appends marks s t
      → Appends more t u
      → Appends (marks ++ more) s u
  Appends-trans {marks} {more} {s} {t} {u} h k = record {
    added = h.added ++ k.added;
    marked =
        map-append mark_of h.added k.added
        ∙ ap (λ l. l ++ map mark_of k.added) h.marked
        ∙ ap (λ l. marks ++ l) k.marked;
    numbered =
        Numbered-append s.last_sequence h.added k.added h.numbered
          (subst (λ n. Numbered n k.added) h.counted k.numbered);
    counted = omega (arith, h.counted, k.counted, length-append h.added k.added);
    written =
        k.written
        ∙ ap (append_events codec k.added) h.written
        ∙ sym (append_events-append codec h.added k.added _);
    told = k.told ∙ ap (λ l. l ++ k.added) h.told ∙ append_assoc s.heard h.added k.added;
    attempted = All-append _ h.added k.added h.attempted k.attempted;
  }

  pub Appends-summary :
      {marks : List Mark} {s t : Store} (summary : Option WorkflowCoordinatorSummary)
      → Appends marks s t
      → Appends marks s (record t { summary = summary })
  Appends-summary summary h = record {
    added = h.added;
    marked = h.marked;
    numbered = h.numbered;
    counted = h.counted;
    written = h.written;
    told = h.told;
    attempted = h.attempted;
  }

  pub Appends-none : (s : Store) → Appends [] s s
  Appends-none s = record {
    added = [];
    marked = refl;
    numbered = tt;
    counted = omega arith;
    written = refl;
    told = sym (append-nil s.heard);
    attempted = tt;
  }

module _ {W J : Type 0} (env : Environment W J) (context : WorkflowContext) where
  -- the session after a call of `_record`
  abbrev pub noted :
      WorkflowStage → WorkflowEventState → String → List String → Session W J → Session W J
  noted stage state detail paths s = (record_stage env context stage state detail paths s).1

  pub record_stage-answer :
      (stage : WorkflowStage) (state : WorkflowEventState) (detail : String) (paths : List String)
      (s : Session W J)
      → let answer = (record_stage env context stage state detail paths s).0 in
        (answer ≡ ok tt) ⊎ (answer ≡ raise listener_failed)
  unfolding record_stage record_event next_sequence
  record_stage-answer stage state detail paths s =
      rw
        ((nat_beq_iff (s.store.last_sequence + 1) (s.store.last_sequence + 1)).1 refl, record_stage)
        (if-rule (λ a. (a ≡ ok tt) ⊎ (a ≡ raise listener_failed)) _ _ _ (λ e. inl refl)
          (λ e. inr refl))

  pub noted-Appends :
      (stage : WorkflowStage) (state : WorkflowEventState) (detail : String) (paths : List String)
      (s : Session W J)
      → Appends env.codec context.attempt
          ((stage, state) ∷ [])
          s.store
          (noted stage state detail paths s).store
  unfolding record_stage record_event next_sequence
  noted-Appends stage state detail paths s =
      rw
        ((nat_beq_iff (s.store.last_sequence + 1) (s.store.last_sequence + 1)).1 refl, record_stage)
        (record {
          added = _ ∷ [];
          marked = refl;
          numbered = (refl, tt);
          counted = refl;
          written = refl;
          told = refl;
          attempted = (refl, tt);
        })

  pub noted-same :
      (stage : WorkflowStage) (state : WorkflowEventState) (detail : String) (paths : List String)
      (s : Session W J)
      → let t = (noted stage state detail paths s).store in
        (t.checkpoints ≡ s.store.checkpoints) × (t.summary ≡ s.store.summary)
  unfolding record_stage record_event
  noted-same stage state detail paths s = ground arith
