-- ===== src/Jobs/Finalization/Events.antt =====
-- The log of a run after `_append_interrupted_event` of src/foampilot/jobs/recovery.py, as
-- `_workflow_evidence` and `_has_interrupted_final_event` read it.
use mathlib.Core.List.{append-nil, append_assoc}
use Prim.Native.String.{◌++◌ as str_append}
use foam_pilot.Prelude.Lines.{
  splitlines, splitlines-one, splitlines-Closes, split_all, split_all-append, split_all_one-line,
  IsOneLine,
}
use foam_pilot.Prelude.{
  ◌⊎◌, sym, ◌≡◌, refl, ap, ◌∙◌, ℕ, String, true, Option, none, some, List, [], ◌∷◌, ◌++◌, arith,
  inl, inr, Bool-cases,
}
use foam_pilot.Workflow.Records.{stage_name}
use foam_pilot.Workflow.Store.{LogFile, split_lines}
use foam_pilot.Jobs.Finalization.{
  Documents, closed_lines, is_stage, is_completed, is_interrupted, lines_of, note_event,
  is_final_event, append_separated, final_event, evidence_from, has_interrupted_final_event,
  append_event,
}

-- the lines of a file whose last line was ended: there is at most an empty one more
split-closed :
    (lines : List String) (tail : String)
    → let f : LogFile = record { lines = lines; tail = tail } in
      (more : List String) × ((more ≡ []) ⊎ (more ≡ "" ∷ []))
      × (split_all (closed_lines (some f)) ≡ split_lines f ++ more)
unfolding closed_lines split_lines splitlines
split-closed lines String.[] = ([], inl refl, sym (append-nil _ ∙ append-nil (split_all lines)))
split-closed lines (String.◌∷◌ c s) =
    let (more, kind, e) = splitlines-Closes c s in
    (
      more,
      kind,
      split_all-append lines ((String.◌∷◌ c s) ∷ [])
          ∙ ap (λ l. split_all lines ++ l) (split_all_one-line (String.◌∷◌ c s) ∙ e)
          ∙ sym (append_assoc (split_all lines) (splitlines (String.◌∷◌ c s)) more),
    )

pub lines_of-appended :
    (line : String) (events : Option LogFile)
    → (more : List String) × ((more ≡ []) ⊎ (more ≡ "" ∷ []))
      × (lines_of (some (append_separated line events))
          ≡ (lines_of events ++ more) ++ splitlines (str_append line "\n"))
unfolding lines_of append_separated split_lines splitlines closed_lines
lines_of-appended line none =
    ([], inl refl, append-nil (split_all (line ∷ [])) ∙ split_all_one-line line)
lines_of-appended line (some f) =
    let (more, kind, e) = split-closed f.lines f.tail in
    (
      more,
      kind,
      append-nil (split_all (closed_lines (some f) ++ line ∷ []))
          ∙ split_all-append (closed_lines (some f)) (line ∷ [])
          ∙ ap (λ l. l ++ split_all (line ∷ [])) e
          ∙ ap (λ l. (split_lines f ++ more) ++ l) (split_all_one-line line),
    )

module _ (docs : Documents) where
  evidence_from-snoc :
      (xs : List String) (x : String) (acc : ℕ × Option String)
      → evidence_from docs (xs ++ x ∷ []) acc
        ≡ note_event (docs.validate_event x) (evidence_from docs xs acc)
  unfolding evidence_from
  evidence_from-snoc [] x acc = refl
  evidence_from-snoc (y ∷ xs) x acc = evidence_from-snoc xs x _

  has_interrupted-snoc :
      (xs : List String) (x : String)
      → is_final_event (docs.validate_event x) ≡ true
      → has_interrupted_final_event docs (xs ++ x ∷ []) ≡ true
  unfolding has_interrupted_final_event
  has_interrupted-snoc [] x h = ground (arith, h)
  has_interrupted-snoc (y ∷ xs) x h = ground (arith, has_interrupted-snoc xs x h)

  evidence_from-blank :
      (xs more : List String) (acc : ℕ × Option String)
      → docs.validate_event "" ≡ none
      → (more ≡ []) ⊎ (more ≡ "" ∷ [])
      → evidence_from docs (xs ++ more) acc ≡ evidence_from docs xs acc
  unfolding note_event
  evidence_from-blank xs more acc blank (inl e) =
      ap (λ m. evidence_from docs (xs ++ m) acc) e
      ∙ ap (λ l. evidence_from docs l acc) (append-nil xs)
  evidence_from-blank xs more acc blank (inr e) =
      ap (λ m. evidence_from docs (xs ++ m) acc) e
      ∙ evidence_from-snoc xs "" acc
      ∙ ap (λ o. note_event o (evidence_from docs xs acc)) blank

  module _ (sequence now : ℕ)
      (readable : docs.validate_event (docs.dump_event (final_event sequence now))
        ≡ some (final_event sequence now))
      (one_line : IsOneLine (docs.dump_event (final_event sequence now))) where
    lines_of-append :
        (events : Option LogFile)
        → (more : List String) × ((more ≡ []) ⊎ (more ≡ "" ∷ []))
          × (lines_of (some (append_separated (docs.dump_event (final_event sequence now)) events))
              ≡ (lines_of events ++ more) ++ docs.dump_event (final_event sequence now) ∷ [])
    lines_of-append events =
        let (more, kind, e) =
          lines_of-appended (docs.dump_event (final_event sequence now)) events in
        (
          more,
          kind,
          e
              ∙ ap (λ l. (lines_of events ++ more) ++ l)
                  (splitlines-one (docs.dump_event (final_event sequence now)) one_line),
        )

    final_is_final :
        is_final_event (docs.validate_event (docs.dump_event (final_event sequence now))) ≡ true
    unfolding is_final_event is_stage is_interrupted final_event stage_name
    final_is_final = rw (readable) refl

    note_final :
        (acc : ℕ × Option String)
        → (note_event (docs.validate_event (docs.dump_event (final_event sequence now))) acc).1
          ≡ acc.1
    unfolding note_event is_completed final_event
    note_final acc = rw (readable) refl

    pub append_event-has :
        (events : Option LogFile)
        → has_interrupted_final_event docs (lines_of (append_event docs sequence now events)) ≡ true
    unfolding append_event
    append_event-has events =
        elim (Bool-cases (has_interrupted_final_event docs (lines_of events))) [
          | inl e ↦ rw (e, append_event) e
          | inr e ↦
              rw (e, append_event)
                (let (more, kind, q) = lines_of-append events in
                  ap (has_interrupted_final_event docs) q
                  ∙ has_interrupted-snoc (lines_of events ++ more) _ final_is_final)
        ]

    pub append_event-completed :
        (events : Option LogFile)
        → docs.validate_event "" ≡ none
        → (evidence_from docs (lines_of (append_event docs sequence now events)) (0, none)).1
          ≡ (evidence_from docs (lines_of events) (0, none)).1
    unfolding append_event
    append_event-completed events blank =
        elim (Bool-cases (has_interrupted_final_event docs (lines_of events))) [
          | inl e ↦ rw (e, append_event) refl
          | inr e ↦
              rw (e, append_event)
                (let (more, kind, q) = lines_of-append events in
                  ap (λ l. (evidence_from docs l (0, none)).1) q
                  ∙ ap (λ p. p.1) (evidence_from-snoc (lines_of events ++ more) _ (0, none))
                  ∙ note_final _
                  ∙ ap (λ p. p.1) (evidence_from-blank (lines_of events) more (0, none) blank kind))
        ]

  pub append_event-idle :
      (events : Option LogFile) (s t : ℕ)
      → has_interrupted_final_event docs (lines_of events) ≡ true
      → append_event docs s t events ≡ events
  unfolding append_event
  append_event-idle events s t h = rw (h, append_event) refl
