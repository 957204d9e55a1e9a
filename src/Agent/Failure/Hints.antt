-- ===== src/Agent/Failure/Hints.antt =====
-- src/foampilot/agent/failure.py: `_keyword_hints` and `_resolve_declared_paths`.
use Prim.Native.String.{◌++◌ as str_append, count}
use text.Mathlib.Text.{◌==◌, starts_with}
use foam_pilot.Prelude.{String, Bool, ◌||◌, Option, none, some, List, [], ◌∷◌, leb, if◌then◌else◌}

keyword_files : String → Option String → List String
keyword_files keyword (some path) = path ∷ []
keyword_files keyword none =
    if starts_with keyword "div(" || starts_with keyword "grad("
    then "system/fvSchemes" ∷ []
    else if keyword == "simulationType" || keyword == "model"
    then "constant/thermophysicalTransport" ∷ []
    else "system/fvSolution" ∷ "system/fvSchemes" ∷ []

keyword_blocks : String → List String
keyword_blocks keyword =
    if starts_with keyword "div("
    then "divSchemes" ∷ []
    else if starts_with keyword "grad("
    then "gradSchemes" ∷ []
    else if keyword == "solver" || keyword == "preconditioner" || keyword == "smoother"
    then "solvers" ∷ []
    else []

-- `_keyword_hints`: files and blocks
unfoldable pub keyword_hints : String → Option String → List String × List String
unfolding keyword_files keyword_blocks
keyword_hints keyword explicit_path = (keyword_files keyword explicit_path, keyword_blocks keyword)

-- `sorted(..., key=len, reverse=True)`: the longest first, and stable
unfoldable pub insert : String → List String → List String
insert p [] = p ∷ []
insert p (q ∷ l) = if leb (count q) (count p) then p ∷ q ∷ l else q ∷ insert p l

unfoldable pub by_length : List String → List String
by_length [] = []
by_length (p ∷ l) = insert p (by_length l)

-- whether a declared path is the candidate, or a directory above it
unfoldable pub covers : String → String → Bool
covers candidate path = candidate == path || starts_with candidate (str_append path "/")

-- `next(..., candidate)`
unfoldable pub declared_match : String → List String → String
declared_match candidate [] = candidate
declared_match candidate (path ∷ declared) =
    let rest = declared_match candidate declared in if covers candidate path then path else rest

unfoldable pub resolve_each : List String → List String → List String
resolve_each declared [] = []
resolve_each declared (c ∷ files) = declared_match c declared ∷ resolve_each declared files

unfoldable pub remove : String → List String → List String
remove x [] = []
remove x (y ∷ l) = let rest = remove x l in if y == x then rest else y ∷ rest

-- `list(dict.fromkeys(l))`: the first occurrences
unfoldable pub distinct : List String → List String
distinct [] = []
distinct (x ∷ l) = x ∷ remove x (distinct l)

-- `paths` are the paths of the plan's files
unfoldable pub resolve_declared_paths : List String → List String → List String
resolve_declared_paths files paths = distinct (resolve_each (by_length paths) files)
