-- ===== src/Workflow/Store/Reopen.antt =====
-- A store of src/foampilot/workflow/store.py made again over the files of a run, and what the files
-- keep from then on.
use mathlib.Core.List.{append_assoc, append-nil}
use foam_pilot.Prelude.Lines.{IsOneLine, split_all, split_all-one}
use foam_pilot.Prelude.Dict.{Dict, get}
use foam_pilot.Prelude.Equality.{text_keys}
use foam_pilot.Prelude.{
  ◌≡◌, refl, sym, ap, ◌∙◌, ℕ, suc, ◌+◌, String, Option, none, some, List, [], ◌∷◌, ◌++◌, map,
  length, All, ok, arith, ◌⊎◌, inl, inr, Bool-cases, Option-cases,
}
use foam_pilot.Workflow.Records.{WorkflowEvent}
use foam_pilot.Workflow.Store.{
  LogFile, split_lines, Codec, Envelope, WorkflowStore, opened, last_line, sequence_of,
  read_last_sequence, open_store, record_event, checkpoint, finish, is_safe_name,
}
use foam_pilot.Workflow.Store.Log.{
  Numbered, IsLogged, file_of, Call, records, saves, finishes, Reaches, here, next, finish-same,
}

module _ {J : Type 0} (codec : Codec J) where
  -- an event whose text is one line, and brings it back
  abbrev pub Readable : WorkflowEvent → Type 0
  Readable e = (codec.validate_event (codec.dump_event e) ≡ some e) × IsOneLine (codec.dump_event e)

  one_lines : (es : List WorkflowEvent) → All Readable es → All IsOneLine (map codec.dump_event es)
  one_lines [] r = tt
  one_lines (e ∷ es) r = (r.0.1, one_lines es r.1)

  split-file_of :
      (es : List WorkflowEvent)
      → All Readable es
      → split_lines (file_of codec es) ≡ map codec.dump_event es
  unfolding split_lines
  split-file_of es r =
      append-nil (split_all (map codec.dump_event es))
      ∙ split_all-one (map codec.dump_event es) (one_lines es r)

  last-sequence :
      (n : ℕ) (e : WorkflowEvent) (es : List WorkflowEvent)
      → Numbered n (e ∷ es)
      → All Readable (e ∷ es)
      → (line : String) × (last_line (map codec.dump_event (e ∷ es)) ≡ some line)
        × (sequence_of (codec.validate_event line) ≡ ok (n + length (e ∷ es)))
  unfolding last_line sequence_of
  last-sequence n e [] h r =
      (codec.dump_event e, refl, ap sequence_of r.0.0 ∙ ap (λ k. ok k) (omega (arith, h.0)))
  last-sequence n e (f ∷ es) h r =
      let (line, l, q) = last-sequence (suc n) f es h.1 r.1 in
      (line, l, q ∙ ap (λ k. ok k) (omega arith))

  read-file_of :
      (es : List WorkflowEvent)
      → Numbered 0 es
      → All Readable es
      → read_last_sequence codec (some (file_of codec es)) ≡ ok (length es)
  unfolding read_last_sequence split_lines last_line
  read-file_of [] h r = refl
  read-file_of (e ∷ es) h r =
      let (line, l, q) = last-sequence 0 e es h r in
      let m : last_line (split_lines (file_of codec (e ∷ es))) ≡ some line =
        ap last_line (split-file_of (e ∷ es) r) ∙ l in
      rw (m, read_last_sequence) (q ∙ ap (λ k. ok k) (omega arith))

  read-opened :
      (events : Option LogFile) (es : List WorkflowEvent)
      → opened events ≡ file_of codec es
      → Numbered 0 es
      → All Readable es
      → read_last_sequence codec events ≡ ok (length es)
  unfolding opened read_last_sequence
  read-opened none [] w h r = refl
  read-opened none (e ∷ es) w h r = cc
  read-opened (some f) es w h r =
      ap (λ x. read_last_sequence codec (some x)) w ∙ read-file_of es h r

module _ {J S : Type 0} (codec : Codec J) where
  -- A store made over the files that another one has left, whatever calls were made on that,
  -- continues its numbering and has its checkpoints and its summary, if the text of each event in the
  -- log has no line break of `splitlines` in it and brings back its event.
  pub open_store-IsLogged :
      (before es : List WorkflowEvent) (s : WorkflowStore J S)
      → IsLogged codec before es s
      → All (Readable codec) es
      → open_store codec s.events s.checkpoints s.summary ≡ ok (record s { heard = [] })
  unfolding open_store
  open_store-IsLogged before es s h r =
      let e : read_last_sequence codec s.events ≡ ok s.last_sequence =
        read-opened codec s.events es h.written h.numbered r ∙ ap (λ n. ok n) (sym h.counted) in
      rw (e, open_store) refl

  -- A checkpoint once written keeps its content, and so does a summary.
  pub record Keeps (s t : WorkflowStore J S) : Type 0 where
    pub checkpoints_kept :
        (added : Dict String (Envelope J)) × (t.checkpoints ≡ s.checkpoints ++ added)
    pub summary_kept : (s.summary ≡ none) ⊎ (t.summary ≡ s.summary)

  Keeps-refl :
      (s t : WorkflowStore J S) → s.checkpoints ≡ t.checkpoints → s.summary ≡ t.summary → Keeps s t
  Keeps-refl s t e f = record {
    checkpoints_kept = ([], sym e ∙ sym (append-nil s.checkpoints));
    summary_kept = inr (sym f);
  }

  checkpoint-Keeps :
      (name : String) (payload : J) (s : WorkflowStore J S)
      → Keeps s (checkpoint codec name payload s).1
  unfolding checkpoint
  checkpoint-Keeps name payload s = elim (Bool-cases (is_safe_name name)) [
    | inr e ↦ rw (e, checkpoint) (Keeps-refl s s refl refl)
    | inl e ↦ elim (Option-cases (codec.canonical payload)) [
      | inl g ↦ rw (e, g, checkpoint) (Keeps-refl s s refl refl)
      | inr (text, g) ↦ elim (Option-cases (get name s.checkpoints)) [
        | inl f ↦
            rw (e, g, f, checkpoint)
              (record { checkpoints_kept = (_, refl); summary_kept = inr refl })
        | inr (x, f) ↦ rw (e, g, f, checkpoint) (Keeps-refl s s refl refl)
      ]
    ]
  ]

  finish-Keeps : (summary : S) (s : WorkflowStore J S) → Keeps s (finish summary s).1
  unfolding finish
  finish-Keeps summary s = record {
    checkpoints_kept = (
      [],
      sym (let (_, _, _, c) = finish-same codec summary s in c) ∙ sym (append-nil s.checkpoints),
    );
    summary_kept = elim (Option-cases s.summary) [
      | inl f ↦ inl f
      | inr (x, f) ↦ inr (rw (f, finish) f)
    ];
  }

  record_event-Keeps :
      (e : WorkflowEvent) (s : WorkflowStore J S) → Keeps s (record_event codec e s).1
  unfolding record_event
  record_event-Keeps e s = Keeps-refl s _ (ground arith) (ground arith)

  Keeps-trans : {s t u : WorkflowStore J S} → Keeps s t → Keeps t u → Keeps s u
  Keeps-trans {s} h k = record {
    checkpoints_kept = (
      h.checkpoints_kept.0 ++ k.checkpoints_kept.0,
      k.checkpoints_kept.1
          ∙ ap (λ d. d ++ k.checkpoints_kept.0) h.checkpoints_kept.1
          ∙ append_assoc s.checkpoints _ _,
    );
    summary_kept = ground (arith, h.summary_kept, k.summary_kept);
  }

  Call-Keeps : {s t : WorkflowStore J S} → Call codec s t → Keeps s t
  Call-Keeps (records s e) = record_event-Keeps e s
  Call-Keeps (saves s name payload) = checkpoint-Keeps name payload s
  Call-Keeps (finishes s summary) = finish-Keeps summary s

  -- Whatever calls are made on a store, its checkpoints stay, each with its content, ahead of those
  -- that are added, and a summary that is there is not replaced.
  pub Reaches-Keeps : {s t : WorkflowStore J S} → Reaches codec s t → Keeps s t
  Reaches-Keeps here = Keeps-refl _ _ refl refl
  Reaches-Keeps (next r c) = Keeps-trans (Reaches-Keeps r) (Call-Keeps c)
