-- ===== src/Artifacts/Manifest.antt =====
-- `ArtifactStore` of src/foampilot/artifacts/store.py: `_entries`, `finalize` and `verify` over the
-- files of one run directory. Messages are left out, and names stand in the order of the files.
pub mod Verification
use Prim.Native.String.{◌++◌ as str_append}
use text.Mathlib.Text.{◌==◌}
use foam_pilot.Prelude.Dict.{Dict, get}
use foam_pilot.Prelude.Equality.{text_keys, Eq}
use foam_pilot.Prelude.{
  ℕ, String, Bool, true, false, not, ◌&&◌, ◌||◌, Option, none, some, List, [], ◌∷◌, ◌++◌, map,
  if◌then◌else◌, Result, ok, raise, nat_beq,
}
use foam_pilot.Workflow.Store.{LogFile}

-- What stands at a path: a text, a log of lines, or a symbolic link, to a directory or not.
pub data Content : Type 0 where
  file : String → Content
  log : LogFile → Content
  link : String → Content
  directory_link : String → Content

-- the files below a run directory by their relative paths
abbrev pub Files : Type 0
Files = Dict String Content

pub data Entry : Type 0 where
  link_entry : String → Entry
  file_entry : ℕ → String → Entry

unfoldable pub same_entry : Entry → Entry → Bool
same_entry (link_entry s) (link_entry t) = s == t
same_entry (file_entry m s) (file_entry n t) = nat_beq m n && s == t
same_entry _ _ = false

-- hashlib, json and the file system: the size and digest of a file, the text of a manifest, where
-- `none` is a text of which `json.loads` or the mapping fails, and the text of the file that a
-- symbolic link leads to, if it leads to one
pub record Hashing : Type 0 where
  pub bytes : Content → ℕ
  pub sha256 : Content → String
  pub dump : Dict String Entry → String
  pub load : String → Option (Dict String Entry)
  pub follow : String → Option String

abbrev pub manifest_name : String
manifest_name = "artifact-manifest.json"

pub data Problem : Type 0 where
  missing_manifest invalid_manifest : Problem
  missing_artifact unexpected_artifact hash_mismatch : String → Problem

-- `os.link` refuses a name that exists
pub data LinkError : Type 0 where
  name_exists : LinkError

-- `set(expected) - set(actual)` and `set(actual) - set(expected)`, each name a problem
unfoldable pub lacking : (String → Problem) → Dict String Entry → Dict String Entry → List Problem
unfolding get
lacking problem [] other = []
lacking problem ((name, e) ∷ d) other = elim (get name other) [
  | some e' ↦ lacking problem d other
  | none ↦ problem name ∷ lacking problem d other
]

-- `actual[relative] == expected[relative]`
unfoldable pub agree : Option Entry → Option Entry → Bool
unfolding same_entry
agree (some e) (some f) = same_entry e f
agree _ _ = false

-- the loop over `set(actual) & set(expected)`: the names that both have
unfoldable pub mismatches : Dict String Entry → Dict String Entry → Dict String Entry → List Problem
unfolding get agree
mismatches [] actual expected = []
mismatches ((name, e) ∷ d) actual expected = elim (get name expected) [
  | none ↦ mismatches d actual expected
  | some e' ↦
      if agree (get name actual) (some e')
      then mismatches d actual expected
      else hash_mismatch name ∷ mismatches d actual expected
]

unfoldable pub compare : Option (Dict String Entry) → Dict String Entry → List Problem
compare none actual = invalid_manifest ∷ []
compare (some expected) actual =
    lacking missing_artifact expected actual
    ++ lacking unexpected_artifact actual expected
    ++ mismatches actual actual expected

-- the text of a log
unfoldable pub text_of : List String → String → String
text_of [] tail = tail
text_of (line ∷ lines) tail = str_append line (str_append "\n" (text_of lines tail))

module _ (hashing : Hashing) where
  -- what `read_text` gets of a manifest for which `is_file` holds, both of which follow links
  unfoldable pub manifest_text : Option Content → Option String
  unfolding text_of
  manifest_text none = none
  manifest_text (some (file text)) = some text
  manifest_text (some (log f)) = some (text_of f.lines f.tail)
  manifest_text (some (link target)) = hashing.follow target
  manifest_text (some (directory_link target)) = none

  -- the entry of one path, unless it is a directory
  unfoldable pub entry_of : Content → Option Entry
  entry_of (link target) = some (link_entry target)
  entry_of (directory_link target) = none
  entry_of (file text) = some (file_entry (hashing.bytes (file text)) (hashing.sha256 (file text)))
  entry_of (log lines) = some (file_entry (hashing.bytes (log lines)) (hashing.sha256 (log lines)))

  -- `entries[relative] = ...`, if there is an entry
  unfoldable pub add_entry : String → Option Entry → Dict String Entry → Dict String Entry
  add_entry name none rest = rest
  add_entry name (some e) rest = (name, e) ∷ rest

  -- `_entries`
  unfoldable pub entries : Files → Dict String Entry
  unfolding entry_of add_entry
  entries [] = []
  entries ((name, content) ∷ files) =
      let rest = entries files in
      if name == manifest_name then rest else add_entry name (entry_of content) rest

  unfoldable pub finalize : Files → Result LinkError Files
  unfolding get
  finalize files = elim (get manifest_name files) [
    | some existing ↦ raise name_exists
    | none ↦ ok (files ++ (manifest_name, file (hashing.dump (entries files))) ∷ [])
  ]

  unfoldable pub verify : Files → List Problem
  unfolding manifest_text get
  verify files = elim (manifest_text (get manifest_name files)) [
    | none ↦ missing_manifest ∷ []
    | some text ↦ compare (hashing.load text) (entries files)
  ]
