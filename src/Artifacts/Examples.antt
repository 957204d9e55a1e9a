-- ===== src/Artifacts/Examples.antt =====
-- A run directory with two files for src/foampilot/artifacts/store.py.
use foam_pilot.Prelude.Dict.{Dict, get}
use foam_pilot.Prelude.Equality.{text_keys}
use foam_pilot.Prelude.{◌≡◌, ◌↔◌, refl, String, none, some, [], ◌∷◌, ◌++◌, ok}
use foam_pilot.Artifacts.Manifest.{
  file, link, Files, Entry, link_entry, file_entry, Hashing, entry_of, add_entry, entries, finalize,
  verify, manifest_name,
}
use foam_pilot.Artifacts.Manifest.Verification.{IsFrozen, verify-exactly, finalize-verify}

abbrev run_files : Files
run_files = ("summary.json", file "{}") ∷ ("latest", link "summary.json") ∷ []

abbrev run_entries : Dict String Entry
run_entries = ("summary.json", file_entry 2 "digest") ∷ ("latest", link_entry "summary.json") ∷ []

abbrev hashing : Hashing
hashing = record {
  bytes = λ c. 2;
  sha256 = λ c. "digest";
  dump = λ d. "manifest";
  load = λ t. some run_entries;
  follow = λ t. none;
}

verify-exactly_example : (verify hashing run_files ≡ []) ↔ IsFrozen hashing run_files
verify-exactly_example = verify-exactly hashing run_files

finalize-verify_example :
    let frozen =
      run_files ++ (manifest_name, file (hashing.dump (entries hashing run_files))) ∷ [] in
    (finalize hashing run_files ≡ ok frozen) × (verify hashing frozen ≡ [])
unfolding entries entry_of add_entry get
finalize-verify_example = finalize-verify hashing run_files refl refl
