-- ===== src/Workflow/Store.antt =====
-- `WorkflowStore` of src/foampilot/workflow/store.py: the events, checkpoints and the summary of a run.
pub mod Log
pub mod Reopen
use Prim.Native.String.{◌++◌ as str_append}
use text.Mathlib.Text.{◌==◌}
use foam_pilot.Prelude.PosixPath
use foam_pilot.Prelude.Lines.{splitlines, split_all}
use foam_pilot.Prelude.Dict.{Dict, get}
use foam_pilot.Prelude.Equality.{text_keys}
use foam_pilot.Prelude.{
  ℕ, ◌+◌, String, Bool, true, false, not, ◌||◌, Option, none, some, List, [], ◌∷◌, ◌++◌,
  if◌then◌else◌, Result, ok, raise, nat_beq, eq_iff,
}
use foam_pilot.Workflow.Records.{WorkflowEvent}

-- A text file: what stands before each `\n`, and what stands behind the last one.
pub record LogFile : Type 0 where
  pub lines : List String
  pub tail : String

-- `splitlines` of the file, which also splits at other line breaks than `\n`
unfoldable pub split_lines : LogFile → List String
unfolding split_all splitlines
split_lines f = split_all f.lines ++ splitlines f.tail

-- appending a line and its end
unfoldable pub append_line : String → LogFile → LogFile
append_line line f = record { lines = f.lines ++ str_append f.tail line ∷ []; tail = "" }

-- pydantic and json: an event as a line of text and back, a payload as canonical text, its digest.
-- A payload of which `json.dumps` makes no text raises. `hears` says of which events the listener
-- returns: of all of them if there is none.
pub record Codec (J : Type 0) : Type 0 where
  pub dump_event : WorkflowEvent → String
  pub validate_event : String → Option WorkflowEvent
  pub canonical : J → Option String
  pub digest : String → String
  pub empty_payload : J
  pub hears : WorkflowEvent → Bool

-- the file of a checkpoint
pub record Envelope (J : Type 0) : Type 0 where
  pub sha256 : String
  pub payload : J

pub data StoreError : Type 0 where
  not_contiguous unsafe_name not_json file_exists listener_failed invalid_event : StoreError

-- The files of a run and the fields of the store; `heard` is what the listener was called
-- with, `S` the type of the summary.
pub record WorkflowStore (J S : Type 0) : Type 0 where
  pub events : Option LogFile
  pub checkpoints : Dict String (Envelope J)
  pub summary : Option S
  pub last_sequence : ℕ
  pub heard : List WorkflowEvent

unfoldable pub next_sequence : {J S : Type 0} → WorkflowStore J S → ℕ
next_sequence s = s.last_sequence + 1

abbrev pub empty_file : LogFile
empty_file = record { lines = []; tail = "" }

-- the file as `open("a")` finds it
unfoldable pub opened : Option LogFile → LogFile
opened none = empty_file
opened (some f) = f

unfoldable pub last_line : List String → Option String
last_line [] = none
last_line (l ∷ []) = some l
last_line (l ∷ m ∷ ls) = last_line (m ∷ ls)

-- the sequence of a line that was parsed
unfoldable pub sequence_of : Option WorkflowEvent → Result StoreError ℕ
sequence_of none = raise invalid_event
sequence_of (some e) = ok e.sequence

unfoldable pub is_safe_name : String → Bool
is_safe_name name = not (
    name == ""
    || PosixPath.contains "/" name
    || PosixPath.contains "\\" name
    || name == "."
    || name == "..")

module _ {J : Type 0} (codec : Codec J) where
  -- `_read_last_sequence`
  unfoldable pub read_last_sequence : Option LogFile → Result StoreError ℕ
  unfolding split_lines last_line sequence_of
  read_last_sequence none = ok 0
  read_last_sequence (some f) = elim (last_line (split_lines f)) [
    | none ↦ ok 0
    | some line ↦ sequence_of (codec.validate_event line)
  ]

module _ {J S : Type 0} (codec : Codec J) where
  -- `WorkflowStore(run_dir=...)` over the files of a run
  unfoldable pub open_store :
      Option LogFile → Dict String (Envelope J) → Option S → Result StoreError (WorkflowStore J S)
  open_store events checkpoints summary = elim (read_last_sequence codec events) [
    | raise e ↦ raise e
    | ok n ↦ ok (record {
      events = events;
      checkpoints = checkpoints;
      summary = summary;
      last_sequence = n;
      heard = [];
    })
  ]

  -- `record`
  unfoldable pub record_event :
      WorkflowEvent → WorkflowStore J S → Result StoreError (Unit {0}) × WorkflowStore J S
  unfolding opened append_line next_sequence
  record_event event s =
      if not (nat_beq event.sequence (s.last_sequence + 1)) then (raise not_contiguous, s) else (
        (if codec.hears event then ok tt else raise listener_failed),
        record s {
          events = some (append_line (codec.dump_event event) (opened s.events));
          last_sequence = event.sequence;
          heard = s.heard ++ event ∷ [];
        },
      )

  -- `checkpoint`
  unfoldable pub checkpoint :
      String → J → WorkflowStore J S → Result StoreError (Unit {0}) × WorkflowStore J S
  unfolding is_safe_name get
  checkpoint name payload s =
      if not (is_safe_name name) then (raise unsafe_name, s) else elim (codec.canonical payload) [
        | none ↦ (raise not_json, s)
        | some text ↦ elim (get name s.checkpoints) [
          | some existing ↦ (raise file_exists, s)
          | none ↦
              let envelope : Envelope J = record {
                sha256 = codec.digest text;
                payload = payload;
              } in
              (ok tt, record s { checkpoints = s.checkpoints ++ (name, envelope) ∷ [] })
        ]
      ]

module _ {J S : Type 0} where
  -- `finish`
  unfoldable pub finish : S → WorkflowStore J S → Result StoreError (Unit {0}) × WorkflowStore J S
  finish summary s = elim s.summary [
    | some existing ↦ (raise file_exists, s)
    | none ↦ (ok tt, record s { summary = some summary })
  ]
