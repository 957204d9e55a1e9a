-- ===== src/Plans/Validation/Spec.antt =====
-- The plans that the policy of src/foampilot/plans/validation.py is meant to accept.
use text.Mathlib.Text.{starts_with}
use Prim.Native.String.{◌++◌ as str_append}
use foam_pilot.Prelude.PosixPath
use foam_pilot.Prelude.{
  ◌≤◌, String, ◌≡◌, ◌≢◌, ◌⊎◌, true, false, List, [], ◌∷◌, map, All, Option, none, some, IsDistinct,
}
use foam_pilot.Prelude.Texts.{casefold, before_equals, after_equals, has_equals}
use foam_pilot.Plans.Validation.{
  provided, mesh, GeneratedFile, NativeCommand, ExecutionPlan, TaskSpec, shell_tokens,
  shell_markers, shell_characters, asset_path, context_override_options, mpi_host_options,
  mpi_launchers, total_timeout,
}

abbrev pub In : String → List String → Type 0
In x [] = ⊥
In x (y ∷ l) = (y ≡ x) ⊎ In x l

-- A path without `..`, and not from the root: it stays below the directory it is read in.
pub record IsConfined (path : String) : Type 0 where
  pub relative : PosixPath.is_absolute path ≡ false
  pub no_parent : All (λ p. p ≢ "..") (PosixPath.parts path)

-- As a text, a path is neither that of the asset nor begins with it and a slash.
abbrev pub Spares : String → Option String → Type 0
Spares path none = Unit {0}
Spares path (some asset) = (path ≢ asset) × (starts_with path (str_append asset "/") ≡ false)

pub record FileIsSafe (task : TaskSpec) (f : GeneratedFile) : Type 0 where
  pub named : f.path ≢ ""
  pub confined : IsConfined f.path
  pub not_internal : All (λ p. p ≢ ".foampilot") (PosixPath.parts f.path)
  pub spares_assets : All (λ a. Spares f.path (asset_path a)) task.public_assets
  pub no_protected : All (λ p. PosixPath.contains p f.content ≡ false) task.protected_paths

pub record ArgumentIsSafe (task : TaskSpec) (a : String) : Type 0 where
  pub no_token : All (λ t. t ≢ a) shell_tokens
  pub no_marker : All (λ m. PosixPath.contains m a ≡ false) shell_markers
  pub no_character : All (λ c. PosixPath.contains c a ≡ false) shell_characters
  pub confined : IsConfined a
  pub confined_value : starts_with a "-" ≡ true → has_equals a ≡ true → IsConfined (after_equals a)
  pub no_context : All (λ o. o ≢ before_equals (casefold a)) context_override_options
  pub no_host : All (λ o. o ≢ a) mpi_host_options
  pub no_host_value : All (λ o. starts_with a (str_append o "=") ≡ false) mpi_host_options
  pub no_protected : All (λ p. PosixPath.contains p a ≡ false) task.protected_paths

pub record CommandIsSafe (task : TaskSpec) (available : List String) (c : NativeCommand)
    : Type 0 where
  pub meshes_nothing_provided : task.mesh_strategy ≡ some provided → c.stage ≢ mesh
  pub launches_nothing : All (λ l. l ≢ c.executable) mpi_launchers
  pub installed : In c.executable available
  pub ranks : c.mpi_ranks ≤ task.max_mpi_ranks
  pub arguments : All (ArgumentIsSafe task) c.args

pub record PlanIsSafe (task : TaskSpec) (available : List String) (plan : ExecutionPlan)
    : Type 0 where
  pub distinct_paths : IsDistinct (map (λ f. f.path) plan.files)
  pub files : All (FileIsSafe task) plan.files
  pub distinct_steps : IsDistinct (map (λ c. c.step_id) plan.commands)
  pub in_time : total_timeout plan.commands ≤ task.max_wall_seconds
  pub commands : All (CommandIsSafe task available) plan.commands
