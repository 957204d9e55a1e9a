-- ===== src/Plans/Validation.antt =====
-- src/foampilot/plans/validation.py: `validate_execution_plan`, with the types of
-- src/foampilot/plans/models.py and src/foampilot/tasks/models.py that it reads. The details of the
-- issues, texts for the user, are left out.
pub mod Spec
mod Tests
pub mod Safety
mod Examples
use Prim.Native.String.{◌++◌ as str_append}
use text.Mathlib.Text.{◌==◌, starts_with}
use foam_pilot.Prelude.PosixPath
use foam_pilot.Prelude.{
  ℕ, suc, ◌+◌, String, Bool, true, false, not, ◌&&◌, ◌||◌, Option, none, some, List, [], ◌∷◌, ◌++◌,
  map, ltb, any, if◌then◌else◌,
}
use foam_pilot.Prelude.Texts.{casefold, before_equals, after_equals, has_equals}

pub record GeneratedFile : Type 0 where
  pub path : String
  pub content : String

pub data CommandStage : Type 0 where
  mesh check initialize decompose solve reconstruct postprocess : CommandStage

pub record NativeCommand : Type 0 where
  pub step_id : String
  pub stage : CommandStage
  pub executable : String
  pub args : List String
  pub mpi_ranks : ℕ
  pub timeout : ℕ

pub record ExecutionPlan : Type 0 where
  pub files : List GeneratedFile
  pub commands : List NativeCommand

pub data AssetKind : Type 0 where
  file directory : AssetKind

pub record PublicAsset : Type 0 where
  pub path : String
  pub kind : AssetKind
  pub install_path : Option String

pub data MeshStrategy : Type 0 where
  auto block_mesh snappy_hex_mesh gmsh provided : MeshStrategy

-- what the policy reads of a `TaskSpec` and its resource budget
pub record TaskSpec : Type 0 where
  pub public_assets : List PublicAsset
  pub mesh_strategy : Option MeshStrategy
  pub protected_paths : List String
  pub max_wall_seconds : ℕ
  pub max_mpi_ranks : ℕ

-- the codes of the issues
pub data IssueCode : Type 0 where
  duplicate_file_path reserved_internal_path unsafe_file_path public_asset_overwrite : IssueCode
  provided_mesh_regeneration protected_reference duplicate_step_id timeout_budget : IssueCode
  mpi_launcher_unnormalized executable_unavailable mpi_rank_limit shell_token : IssueCode
  parent_traversal external_absolute_path case_context_override mpi_host_selection : IssueCode

-- the texts `files`, `commands`, `files[i].path` and so on
pub data Location : Type 0 where
  all_files all_commands : Location
  file_path file_content : ℕ → Location
  command executable_of ranks_of : ℕ → Location
  argument_of : ℕ → ℕ → Location

pub record PlanIssue : Type 0 where
  pub code : IssueCode
  pub location : Location

-- an issue behind an `if`
unfoldable pub issue_if : Bool → IssueCode → Location → List PlanIssue
issue_if true code location = record { code = code; location = location } ∷ []
issue_if false code location = []

-- `len(l) != len(set(l))`
unfoldable pub has_duplicates : List String → Bool
has_duplicates [] = false
has_duplicates (x ∷ l) = let rest = has_duplicates l in any (λ y. y == x) l || rest

-- `part in path.parts`
unfoldable pub has_part : String → String → Bool
has_part part path = any (λ p. p == part) (PosixPath.parts path)

-- `_safe_relative`
unfoldable pub safe_relative : String → Bool
unfolding has_part
safe_relative value =
    not (value == "") && not (PosixPath.is_absolute value) && not (has_part ".." value)

unfoldable pub shell_tokens : List String
shell_tokens = "&&" ∷ "||" ∷ ";" ∷ "|" ∷ "<" ∷ ">" ∷ []

-- `_SHELL_MARKERS`
unfoldable pub shell_markers : List String
shell_markers = "$(" ∷ "`" ∷ "\n" ∷ "\r" ∷ "\0" ∷ []

unfoldable pub shell_characters : List String
shell_characters = ";" ∷ "|" ∷ "<" ∷ ">" ∷ []

-- the first test of `_validate_argument`
unfoldable pub has_shell_syntax : String → Bool
unfolding shell_tokens shell_markers shell_characters
has_shell_syntax argument =
    any (λ t. t == argument) shell_tokens
    || any (λ m. PosixPath.contains m argument) shell_markers
    || any (λ c. PosixPath.contains c argument) shell_characters

-- the loop of `_validate_argument` for one value
unfoldable pub value_issues : Location → String → List PlanIssue
value_issues location value =
    issue_if (has_part ".." value) parent_traversal location
    ++ issue_if (PosixPath.is_absolute value) external_absolute_path location

-- `values`: the argument, and what an option assigns
unfoldable pub values_of : String → List String
values_of argument =
    if starts_with argument "-" && has_equals argument
    then argument ∷ after_equals argument ∷ []
    else argument ∷ []

unfoldable pub each_value : Location → List String → List PlanIssue
each_value location [] = []
each_value location (v ∷ values) = value_issues location v ++ each_value location values

-- `_validate_argument`
unfoldable pub validate_argument : Location → String → List PlanIssue
unfolding each_value
validate_argument location argument =
    issue_if (has_shell_syntax argument) shell_token location
    ++ each_value location (values_of argument)

-- an element of `public_assets`
unfoldable pub asset_path : PublicAsset → Option String
asset_path asset = elim asset.kind [ directory ↦ asset.install_path | file ↦ some asset.path ]

-- the test of a generated path against one asset, which None does not pass
unfoldable pub overwrites : String → Option String → Bool
overwrites path none = false
overwrites path (some asset) = path == asset || starts_with path (str_append asset "/")

unfoldable pub is_provided : Option MeshStrategy → Bool
is_provided (some provided) = true
is_provided _ = false

unfoldable pub is_mesh : CommandStage → Bool
is_mesh mesh = true
is_mesh _ = false

unfoldable pub mentions_protected : TaskSpec → String → Bool
mentions_protected task text = any (λ p. PosixPath.contains p text) task.protected_paths

unfoldable pub overwrites_asset : TaskSpec → String → Bool
overwrites_asset task path = any (λ a. overwrites path (asset_path a)) task.public_assets

-- the body of the loop over the files
unfoldable pub file_issues : TaskSpec → ℕ → GeneratedFile → List PlanIssue
file_issues task index generated =
    issue_if (has_part ".foampilot" generated.path) reserved_internal_path (file_path index)
    ++ issue_if (not (safe_relative generated.path)) unsafe_file_path (file_path index)
    ++ issue_if (overwrites_asset task generated.path) public_asset_overwrite (file_path index)
    ++ issue_if (overwrites_asset task generated.path && is_provided task.mesh_strategy)
        provided_mesh_regeneration (file_path index)
    ++ issue_if (mentions_protected task generated.content) protected_reference (file_content index)

unfoldable pub each_file : TaskSpec → ℕ → List GeneratedFile → List PlanIssue
each_file task index [] = []
each_file task index (f ∷ files) = file_issues task index f ++ each_file task (suc index) files

unfoldable pub context_override_options : List String
context_override_options =
    "-case" ∷ "--case" ∷ "-roots" ∷ "--roots" ∷ "-hostroots" ∷ "--hostroots" ∷ []

unfoldable pub mpi_host_options : List String
mpi_host_options = "--host" ∷ "--hostfile" ∷ "-host" ∷ "-hostfile" ∷ []

unfoldable pub mpi_launchers : List String
mpi_launchers = "mpirun" ∷ "mpiexec" ∷ "orterun" ∷ []

unfoldable pub overrides_context : String → Bool
unfolding context_override_options
overrides_context argument =
    any (λ o. o == before_equals (casefold argument)) context_override_options

unfoldable pub selects_host : String → Bool
unfolding mpi_host_options
selects_host argument =
    any (λ o. o == argument) mpi_host_options
    || any (λ o. starts_with argument (str_append o "=")) mpi_host_options

-- the body of the loop over the arguments of a command
unfoldable pub argument_issues : TaskSpec → ℕ → ℕ → String → List PlanIssue
argument_issues task index j argument =
    validate_argument (argument_of index j) argument
    ++ issue_if (overrides_context argument) case_context_override (argument_of index j)
    ++ issue_if (selects_host argument) mpi_host_selection (argument_of index j)
    ++ issue_if (mentions_protected task argument) protected_reference (argument_of index j)

unfoldable pub each_argument : TaskSpec → ℕ → ℕ → List String → List PlanIssue
each_argument task index j [] = []
each_argument task index j (a ∷ args) =
    argument_issues task index j a ++ each_argument task index (suc j) args

unfoldable pub is_launcher : String → Bool
unfolding mpi_launchers
is_launcher executable = any (λ l. l == executable) mpi_launchers

-- the body of the loop over the commands
unfoldable pub command_issues : TaskSpec → List String → ℕ → NativeCommand → List PlanIssue
command_issues task available index c =
    issue_if (is_provided task.mesh_strategy && is_mesh c.stage) provided_mesh_regeneration
      (command index)
    ++ issue_if (is_launcher c.executable) mpi_launcher_unnormalized (executable_of index)
    ++ issue_if (not (any (λ e. e == c.executable) available)) executable_unavailable
        (executable_of index)
    ++ issue_if (ltb task.max_mpi_ranks c.mpi_ranks) mpi_rank_limit (ranks_of index)
    ++ each_argument task index 0 c.args

unfoldable pub each_command : TaskSpec → List String → ℕ → List NativeCommand → List PlanIssue
each_command task available index [] = []
each_command task available index (c ∷ commands) =
    command_issues task available index c ++ each_command task available (suc index) commands

unfoldable pub total_timeout : List NativeCommand → ℕ
total_timeout [] = 0
total_timeout (c ∷ commands) = c.timeout + total_timeout commands

-- `available` are the available executables
unfoldable pub validate_execution_plan : ExecutionPlan → TaskSpec → List String → List PlanIssue
validate_execution_plan plan task available =
    issue_if (has_duplicates (map (λ f. f.path) plan.files)) duplicate_file_path all_files
    ++ each_file task 0 plan.files
    ++ issue_if (has_duplicates (map (λ c. c.step_id) plan.commands)) duplicate_step_id all_commands
    ++ issue_if (ltb task.max_wall_seconds (total_timeout plan.commands)) timeout_budget
        all_commands
    ++ each_command task available 0 plan.commands
