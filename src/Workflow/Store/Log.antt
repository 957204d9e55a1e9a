-- ===== src/Workflow/Store/Log.antt =====
-- The event log of src/foampilot/workflow/store.py: its numbering, its growth and its reopening.
use mathlib.Core.Path.{subst}
use mathlib.Core.List.{append_assoc, map-append}
use text.Mathlib.TextLemmas.{nil-append}
use foam_pilot.Prelude.Equality.{text_keys}
use foam_pilot.Prelude.{
  true, ◌≡◌, refl, sym, ap, ◌∙◌, ℕ, suc, ◌+◌, String, List, [], ◌∷◌, ◌++◌, map, length, ok, arith,
  nat_beq, nat_beq_iff, inl, inr, Bool-cases, length-append,
}
use foam_pilot.Workflow.Records.{WorkflowEvent}
use foam_pilot.Workflow.Store.{
  LogFile, append_line, Codec, WorkflowStore, opened, record_event, checkpoint, finish,
}

-- The events are numbered one by one, from `n + 1` on.
abbrev pub Numbered : ℕ → List WorkflowEvent → Type 0
Numbered n [] = Unit
Numbered n (e ∷ es) = (e.sequence ≡ n + 1) × Numbered (suc n) es

pub Numbered-append :
    (n : ℕ) (es fs : List WorkflowEvent)
    → Numbered n es
    → Numbered (n + length es) fs
    → Numbered n (es ++ fs)
Numbered-append n [] fs h k = subst (λ m. Numbered m fs) (omega arith) k
Numbered-append n (e ∷ es) fs h k =
    (h.0, Numbered-append (suc n) es fs h.1 (subst (λ m. Numbered m fs) (omega arith) k))

module _ {J : Type 0} (codec : Codec J) where
  abbrev pub file_of : List WorkflowEvent → LogFile
  file_of es = record { lines = map codec.dump_event es; tail = "" }

  file_of-snoc :
      (es : List WorkflowEvent) (e : WorkflowEvent)
      → append_line (codec.dump_event e) (file_of es) ≡ file_of (es ++ e ∷ [])
  unfolding append_line
  file_of-snoc es e =
      ap (λ x. record { lines = map codec.dump_event es ++ x ∷ []; tail = "" })
        (nil-append (codec.dump_event e))
      ∙ ap (λ l. record { lines = l; tail = "" }) (sym (map-append codec.dump_event es (e ∷ [])))

module _ {J S : Type 0} (codec : Codec J) where
  -- The events `es` are those of the log, `before` and those that the listener heard; they are
  -- numbered from one on, and the store counts them.
  pub record IsLogged (before es : List WorkflowEvent) (s : WorkflowStore J S) : Type 0 where
    pub written : opened s.events ≡ file_of codec es
    pub numbered : Numbered 0 es
    pub counted : s.last_sequence ≡ length es
    pub told : es ≡ before ++ s.heard

  -- a call that has the next number
  pub record_event-next :
      (before es : List WorkflowEvent) (e : WorkflowEvent) (s : WorkflowStore J S)
      → e.sequence ≡ s.last_sequence + 1
      → IsLogged before es s
      → (codec.hears e ≡ true → (record_event codec e s).0 ≡ ok tt)
        × IsLogged before (es ++ e ∷ []) (record_event codec e s).1
  unfolding record_event
  record_event-next before es e s n h =
      rw ((nat_beq_iff e.sequence (s.last_sequence + 1)).1 n, record_event)
        (
          (λ h. rw h refl),
          record {
            written = ap (append_line (codec.dump_event e)) h.written ∙ file_of-snoc codec es e;
            numbered = Numbered-append 0 es (e ∷ []) h.numbered (omega (arith, h.counted, n), tt);
            counted = omega (arith, length-append es (e ∷ []), h.counted, n);
            told = ap (λ l. l ++ e ∷ []) h.told ∙ append_assoc before s.heard (e ∷ []);
          },
        )

  -- One call of an operation of the store, whatever it answers.
  pub data Call : WorkflowStore J S → WorkflowStore J S → Type 0 where
    records : (s : WorkflowStore J S) (e : WorkflowEvent) → Call s (record_event codec e s).1
    saves :
        (s : WorkflowStore J S) (name : String) (payload : J)
        → Call s (checkpoint codec name payload s).1
    finishes : (s : WorkflowStore J S) (summary : S) → Call s (finish summary s).1

  pub data Reaches (s : WorkflowStore J S) : WorkflowStore J S → Type 0 where
    here : Reaches s s
    next : {t u : WorkflowStore J S} → Reaches s t → Call t u → Reaches s u

  record_event-IsLogged :
      (before es : List WorkflowEvent) (e : WorkflowEvent) (s : WorkflowStore J S)
      → IsLogged before es s
      → (es' : List WorkflowEvent) × IsLogged before es' (record_event codec e s).1
  unfolding record_event
  record_event-IsLogged before es e s h =
      elim (Bool-cases (nat_beq e.sequence (s.last_sequence + 1))) [
        | inl t ↦ (
          es ++ e ∷ [],
          (record_event-next before es e s ((nat_beq_iff e.sequence (s.last_sequence + 1)).0 t)
              h).1,
        )
        | inr f ↦ rw (f, record_event) (es, h)
      ]

  same_log :
      (before es : List WorkflowEvent) (s t : WorkflowStore J S)
      → s.events ≡ t.events
      → s.last_sequence ≡ t.last_sequence
      → s.heard ≡ t.heard
      → IsLogged before es s
      → IsLogged before es t
  same_log before es s t e n l h = record {
    written = ap opened (sym e) ∙ h.written;
    numbered = h.numbered;
    counted = sym n ∙ h.counted;
    told = h.told ∙ ap (λ x. before ++ x) l;
  }

  checkpoint-same :
      (name : String) (payload : J) (s : WorkflowStore J S)
      → let t = (checkpoint codec name payload s).1 in
        (s.events ≡ t.events)
        × (s.last_sequence ≡ t.last_sequence)
        × (s.heard ≡ t.heard)
        × (s.summary ≡ t.summary)
  unfolding checkpoint
  checkpoint-same name payload s = ground arith

  pub finish-same :
      (summary : S) (s : WorkflowStore J S)
      → let t = (finish summary s).1 in
        (s.events ≡ t.events)
        × (s.last_sequence ≡ t.last_sequence)
        × (s.heard ≡ t.heard)
        × (s.checkpoints ≡ t.checkpoints)
  unfolding finish
  finish-same summary s = ground arith

  Call-IsLogged :
      {s t : WorkflowStore J S} (before es : List WorkflowEvent)
      → Call s t
      → IsLogged before es s
      → (es' : List WorkflowEvent) × IsLogged before es' t
  Call-IsLogged before es (records s e) h = record_event-IsLogged before es e s h
  Call-IsLogged before es (saves s name payload) h =
      let (e, n, l, _) = checkpoint-same name payload s in (es, same_log before es s _ e n l h)
  Call-IsLogged before es (finishes s summary) h =
      let (e, n, l, _) = finish-same summary s in (es, same_log before es s _ e n l h)

  -- Whatever calls are made on a store and however they answer, the file of events holds complete
  -- lines, those of the log before and after them those of the events that the listener heard,
  -- numbered one by one from 1, and the store counts them.
  pub Reaches-IsLogged :
      {s t : WorkflowStore J S} (before es : List WorkflowEvent)
      → Reaches s t
      → IsLogged before es s
      → (es' : List WorkflowEvent) × IsLogged before es' t
  Reaches-IsLogged before es here h = (es, h)
  Reaches-IsLogged before es (next r c) h =
      let (es', h') = Reaches-IsLogged before es r h in Call-IsLogged before es' c h'
