-- ===== src/Desktop/Cursors/Examples.antt =====
-- A log that is read in three rounds, for src/foampilot/desktop/cursors.py.
use foam_pilot.Prelude.{◌≡◌, refl, String, true, if◌then◌else◌, nat_beq, none, some, List, [], ◌∷◌}
use foam_pilot.Desktop.Cursors.{
  Bytes, FileState, IncrementalLineCursor, new_cursor, must_reset, same_identity, split, put_byte,
  numbered, strip_returns, put_unless_return,
}
use foam_pilot.Desktop.Cursors.Chunks.{IsCurrent, grown, reads, joined, reads-whole}

abbrev decode : Bytes → String
decode [] = ""
decode (c ∷ bytes) = if nat_beq c 97 then "a" else "b"

-- "a", then the rest of its line with a return, and then "b" and its line end
abbrev pieces : List Bytes
pieces = (97 ∷ []) ∷ (13 ∷ 10 ∷ []) ∷ (98 ∷ 10 ∷ []) ∷ []

abbrev empty_log : FileState
empty_log = record { device = 1; inode = 7; content = [] }

reads-whole_example :
    ((reads decode empty_log pieces (new_cursor none)).0 ≡ (1, "a") ∷ (2, "b") ∷ [])
    × IsCurrent
        (grown empty_log (joined pieces))
        (reads decode empty_log pieces (new_cursor none)).1
unfolding numbered split put_byte strip_returns put_unless_return
reads-whole_example = reads-whole decode 1 7 pieces

abbrev rotated : IncrementalLineCursor
rotated = record {
  initial_bytes_limit = none;
  offset = 5;
  identity = some (1, 6);
  tail = 97 ∷ [];
  line_number = 2;
}

rotated-reset : must_reset empty_log rotated ≡ true
unfolding must_reset same_identity
rotated-reset = refl
