-- ===== src/Prelude/Texts.antt =====
-- Python's texts: `casefold`, `split("=", 1)`, and a part from the start.
use Prim.Native.Char.{Char, code}
use Prim.Native.Nat.{ℕ, zero, suc}
use Prim.Native.String.{String}
use mathlib.Core.Bool.{Bool, true, false, ◌&&◌, ◌||◌}
use mathlib.Core.List.{List, [], ◌∷◌}
use mathlib.Core.Option.{Option, none, some}
use text.Mathlib.Text.{◌==◌}
use foam_pilot.Prelude.Tests.{nat_beq, leb, if◌then◌else◌}
use Prim.Native.String.{◌++◌ as str_append}

-- The characters whose folding is ASCII text, and their foldings. Every other character folds to a
-- text that has a character outside of ASCII, or to itself, and is left as it is here: the result is
-- only compared with ASCII texts.
unfoldable folds : List (ℕ × String)
folds =
    (65, "a")
    ∷ (66, "b")
    ∷ (67, "c")
    ∷ (68, "d")
    ∷ (69, "e")
    ∷ (70, "f")
    ∷ (71, "g")
    ∷ (72, "h")
    ∷ (73, "i")
    ∷ (74, "j")
    ∷ (75, "k")
    ∷ (76, "l")
    ∷ (77, "m")
    ∷ (78, "n")
    ∷ (79, "o")
    ∷ (80, "p")
    ∷ (81, "q")
    ∷ (82, "r")
    ∷ (83, "s")
    ∷ (84, "t")
    ∷ (85, "u")
    ∷ (86, "v")
    ∷ (87, "w")
    ∷ (88, "x")
    ∷ (89, "y")
    ∷ (90, "z")
    ∷ (223, "ss")
    ∷ (383, "s")
    ∷ (7838, "ss")
    ∷ (8490, "k")
    ∷ (64256, "ff")
    ∷ (64257, "fi")
    ∷ (64258, "fl")
    ∷ (64259, "ffi")
    ∷ (64260, "ffl")
    ∷ (64261, "st")
    ∷ (64262, "st")
    ∷ []

fold_char : Char → List (ℕ × String) → String
fold_char c [] = String.◌∷◌ c String.[]
fold_char c ((n, s) ∷ l) = let rest = fold_char c l in if nat_beq (code c) n then s else rest

unfoldable pub casefold : String → String
unfolding folds fold_char
casefold String.[] = ""
casefold (String.◌∷◌ c s) = str_append (fold_char c folds) (casefold s)

is_equals : Char → Bool
is_equals c = nat_beq (code c) b'='

-- `"=" in s`
unfoldable pub has_equals : String → Bool
unfolding is_equals
has_equals String.[] = false
has_equals (String.◌∷◌ c s) = is_equals c || has_equals s

-- `s.split("=", 1)[0]`
unfoldable pub before_equals : String → String
unfolding is_equals
before_equals String.[] = ""
before_equals (String.◌∷◌ c s) =
    let rest = before_equals s in if is_equals c then "" else String.◌∷◌ c rest

-- `s.split("=", 1)[1]`, of a text that has a `=`
unfoldable pub after_equals : String → String
unfolding is_equals
after_equals String.[] = ""
after_equals (String.◌∷◌ c s) = let rest = after_equals s in if is_equals c then s else rest

-- `s[:n]`
unfoldable pub take_text : ℕ → String → String
take_text zero s = ""
take_text (suc n) String.[] = ""
take_text (suc n) (String.◌∷◌ c s) = String.◌∷◌ c (take_text n s)

-- The characters whose `lower()` is ASCII text, with it; see `folds`.
unfoldable lowers : List (ℕ × String)
lowers =
    (65, "a")
    ∷ (66, "b")
    ∷ (67, "c")
    ∷ (68, "d")
    ∷ (69, "e")
    ∷ (70, "f")
    ∷ (71, "g")
    ∷ (72, "h")
    ∷ (73, "i")
    ∷ (74, "j")
    ∷ (75, "k")
    ∷ (76, "l")
    ∷ (77, "m")
    ∷ (78, "n")
    ∷ (79, "o")
    ∷ (80, "p")
    ∷ (81, "q")
    ∷ (82, "r")
    ∷ (83, "s")
    ∷ (84, "t")
    ∷ (85, "u")
    ∷ (86, "v")
    ∷ (87, "w")
    ∷ (88, "x")
    ∷ (89, "y")
    ∷ (90, "z")
    ∷ (8490, "k")
    ∷ []

unfoldable pub lower : String → String
unfolding lowers fold_char
lower String.[] = ""
lower (String.◌∷◌ c s) = str_append (fold_char c lowers) (lower s)

is_between : ℕ → ℕ → Char → Bool
is_between a b c = leb a (code c) && leb (code c) b

is_word : String → Bool
unfolding is_between
is_word String.[] = true
is_word (String.◌∷◌ c s) =
    (is_between b'a' b'z' c || is_between b'0' b'9' c || nat_beq (code c) b'_') && is_word s

-- the pattern `^[a-z][a-z0-9_]*$`
unfoldable pub is_identifier : String → Bool
unfolding is_between is_word
is_identifier String.[] = false
is_identifier (String.◌∷◌ c s) = is_between b'a' b'z' c && is_word s

-- `text or default`, for a text that may be None
unfoldable pub text_or : Option String → String → String
text_or none default = default
text_or (some s) default = if s == "" then default else s
