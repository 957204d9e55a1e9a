-- ===== src/Plans/Validation/Examples.antt =====
-- A plan with two bad arguments for src/foampilot/plans/validation.py, and the theorems about the
-- policy at it.
use foam_pilot.Prelude.PosixPath.{segments, kept, parts, is_absolute, contains}
use foam_pilot.Prelude.{◌≡◌, ◌↔◌, refl, some, [], ◌∷◌}
use foam_pilot.Prelude.Texts.{casefold, before_equals, after_equals, has_equals}
use foam_pilot.Plans.Validation.{
  ExecutionPlan, TaskSpec, directory, provided, solve, case_context_override, parent_traversal,
  argument_of, validate_execution_plan, issue_if, has_duplicates, has_part, safe_relative,
  has_shell_syntax, value_issues, values_of, each_value, validate_argument, asset_path, overwrites,
  is_provided, is_mesh, mentions_protected, overwrites_asset, file_issues, each_file,
  overrides_context, selects_host, argument_issues, each_argument, is_launcher, command_issues,
  each_command, total_timeout, shell_tokens, shell_markers, shell_characters,
  context_override_options, mpi_host_options, mpi_launchers,
}
use foam_pilot.Plans.Validation.Spec.{PlanIsSafe}
use foam_pilot.Plans.Validation.Safety.{validate_execution_plan-exactly}

abbrev task : TaskSpec
task = record {
  public_assets =
      record { path = "mesh.zip"; kind = directory; install_path = some "constant/polyMesh" } ∷ [];
  mesh_strategy = some provided;
  protected_paths = "/evaluator" ∷ [];
  max_wall_seconds = 600;
  max_mpi_ranks = 4;
}

abbrev plan : ExecutionPlan
plan = record {
  files = record { path = "system/controlDict"; content = "application icoFoam;" } ∷ [];
  commands =
      record {
        step_id = "solve";
        stage = solve;
        executable = "icoFoam";
        args = "-CASE" ∷ "-dict=../x" ∷ [];
        mpi_ranks = 1;
        timeout = 500;
      }
      ∷ [];
}

found-issues :
    validate_execution_plan plan task ("icoFoam" ∷ [])
    ≡ record { code = case_context_override; location = argument_of 0 0 }
      ∷ record { code = parent_traversal; location = argument_of 0 1 }
      ∷ []
unfolding validate_execution_plan issue_if has_duplicates has_part safe_relative has_shell_syntax
    value_issues values_of each_value validate_argument asset_path overwrites is_provided is_mesh
    mentions_protected overwrites_asset file_issues each_file overrides_context selects_host
    argument_issues each_argument is_launcher command_issues each_command total_timeout shell_tokens
    shell_markers shell_characters context_override_options mpi_host_options mpi_launchers casefold
    before_equals after_equals has_equals segments kept parts is_absolute contains
found-issues = refl

validate_execution_plan-exactly_example :
    (validate_execution_plan plan task ("icoFoam" ∷ []) ≡ [])
    ↔ PlanIsSafe task ("icoFoam" ∷ []) plan
validate_execution_plan-exactly_example = validate_execution_plan-exactly plan task ("icoFoam" ∷ [])
