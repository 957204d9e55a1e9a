-- ===== src/Prelude/PosixPath.antt =====
-- Python's `PurePosixPath`, as far as the program reads it: the parts of a path, and whether it is
-- absolute. The root is no part here. Also `startswith`, `in` and `casefold` on texts.
use Prim.Native.Char.{Char, code}
use Prim.Native.String.{String}
use text.Mathlib.Text.{◌==◌, starts_with}
use mathlib.Core.Bool.{Bool, ◌||◌}
use mathlib.Core.List.{List, [], ◌∷◌}
use foam_pilot.Prelude.Tests.{nat_beq, if◌then◌else◌}

-- a character in front of the first segment
prepend : Char → List String → List String
prepend c [] = (String.◌∷◌ c String.[]) ∷ []
prepend c (w ∷ ws) = (String.◌∷◌ c w) ∷ ws

-- the text between slashes
unfoldable pub segments : String → List String
unfolding prepend
segments String.[] = "" ∷ []
segments (String.◌∷◌ c s) =
    let rest = segments s in if nat_beq (code c) b'/' then "" ∷ rest else prepend c rest

-- `parts` drops empty segments and single dots
unfoldable pub kept : List String → List String
kept [] = []
kept (w ∷ ws) = let rest = kept ws in if w == "" || w == "." then rest else w ∷ rest

unfoldable pub parts : String → List String
unfolding segments kept
parts p = kept (segments p)

unfoldable pub is_absolute : String → Bool
is_absolute p = starts_with p "/"

-- `needle in text`
unfoldable pub contains : String → String → Bool
contains needle String.[] = needle == ""
contains needle (String.◌∷◌ c s) = starts_with (String.◌∷◌ c s) needle || contains needle s
