-- ===== src/Plans/Validation/Safety.antt =====
-- The plans that `validate_execution_plan` of src/foampilot/plans/validation.py accepts.
use text.Mathlib.Text.{starts_with}
use Prim.Native.String.{◌++◌ as str_append}
use foam_pilot.Prelude.PosixPath
use foam_pilot.Prelude.{
  ℕ, suc, String, ◌≡◌, ◌≢◌, ◌↔◌, refl, false, List, [], ◌∷◌, map, All, All-↔, any-false, arith,
}
use foam_pilot.Prelude.Texts.{casefold, before_equals}
use foam_pilot.Plans.Validation.{
  GeneratedFile, NativeCommand, ExecutionPlan, TaskSpec, shell_tokens, shell_markers,
  shell_characters, has_shell_syntax, values_of, validate_argument, asset_path, overwrites,
  mentions_protected, overwrites_asset, file_issues, each_file, context_override_options,
  mpi_host_options, mpi_launchers, overrides_context, selects_host, argument_issues, each_argument,
  is_launcher, command_issues, each_command, validate_execution_plan,
}
use foam_pilot.Plans.Validation.Spec.{Spares, FileIsSafe, ArgumentIsSafe, CommandIsSafe, PlanIsSafe}
use foam_pilot.Plans.Validation.Tests.{
  issue_if-empty, both_empty, test_empty, neither, none_equal, some_equal,
  has_duplicates-IsDistinct, has_part-absent, safe_relative-IsConfined, each_value-empty,
  overwrites-Spares, values_of-IsConfined, is_provided_iff, is_mesh_iff,
}

module _ (task : TaskSpec) where
  mentions_protected-none :
      (text : String)
      → (mentions_protected task text ≡ false)
        ↔ All (λ p. PosixPath.contains p text ≡ false) task.protected_paths
  unfolding mentions_protected
  mentions_protected-none text = any-false _ task.protected_paths

  overwrites_asset-none :
      (path : String)
      → (overwrites_asset task path ≡ false)
        ↔ All (λ a. Spares path (asset_path a)) task.public_assets
  unfolding overwrites_asset
  overwrites_asset-none path =
      let none_does = any-false (λ a. overwrites path (asset_path a)) task.public_assets in
      let each =
        All-↔ _ (λ a. Spares path (asset_path a)) (λ a. overwrites-Spares path (asset_path a))
          task.public_assets in
      ((λ h. each.0 (none_does.0 h)), (λ h. none_does.1 (each.1 h)))

  file_issues-empty : (i : ℕ) (f : GeneratedFile) → (file_issues task i f ≡ []) ↔ FileIsSafe task f
  unfolding file_issues
  file_issues-empty i f =
      let e : (file_issues task i f ≡ []) ↔ _ =
        both_empty _ _
          (both_empty _ _
            (both_empty _ _
              (both_empty _ _ (test_empty _ _ _ (has_part-absent ".foampilot" f.path))
                (test_empty _ _ _ (safe_relative-IsConfined f.path)))
              (test_empty _ _ _ (overwrites_asset-none f.path)))
            (issue_if-empty _ _ _))
          (test_empty _ _ _ (mentions_protected-none f.content)) in
      (
        (λ h.
            let ((((internal, (named, confined)), spares), _), protected) = e.0 h in
            record {
              named = named;
              confined = confined;
              not_internal = internal;
              spares_assets = spares;
              no_protected = protected;
            }),
        (λ s. e.1 (
          (
            ((s.not_internal, (s.named, s.confined)), s.spares_assets),
            rw ((overwrites_asset-none f.path).1 s.spares_assets) refl,
          ),
          s.no_protected,
        )),
      )

  each_file-empty :
      (i : ℕ) (l : List GeneratedFile) → (each_file task i l ≡ []) ↔ All (FileIsSafe task) l
  unfolding each_file
  each_file-empty i [] = ((λ h. tt), (λ h. refl))
  each_file-empty i (f ∷ l) = both_empty _ _ (file_issues-empty i f) (each_file-empty (suc i) l)

  has_shell_syntax-none :
      (a : String)
      → (has_shell_syntax a ≡ false) ↔ (
          (All (λ t. t ≢ a) shell_tokens × All (λ m. PosixPath.contains m a ≡ false) shell_markers)
          × All (λ c. PosixPath.contains c a ≡ false) shell_characters)
  unfolding has_shell_syntax
  has_shell_syntax-none a =
      neither _ _
        (neither _ _ (none_equal a shell_tokens)
          (any-false (λ m. PosixPath.contains m a) shell_markers))
        (any-false (λ c. PosixPath.contains c a) shell_characters)

  selects_host-none :
      (a : String)
      → (selects_host a ≡ false) ↔ (
          All (λ o. o ≢ a) mpi_host_options
          × All (λ o. starts_with a (str_append o "=") ≡ false) mpi_host_options)
  unfolding selects_host
  selects_host-none a =
      neither _ _ (none_equal a mpi_host_options)
        (any-false (λ o. starts_with a (str_append o "=")) mpi_host_options)

  overrides_context-none :
      (a : String)
      → (overrides_context a ≡ false)
        ↔ All (λ o. o ≢ before_equals (casefold a)) context_override_options
  unfolding overrides_context
  overrides_context-none a = none_equal (before_equals (casefold a)) context_override_options

  argument_issues-empty :
      (i j : ℕ) (a : String) → (argument_issues task i j a ≡ []) ↔ ArgumentIsSafe task a
  unfolding argument_issues validate_argument
  argument_issues-empty i j a =
      let e : (argument_issues task i j a ≡ []) ↔ _ =
        both_empty _ _
          (both_empty _ _
            (both_empty _ _
              (both_empty _ _ (test_empty _ _ _ (has_shell_syntax-none a))
                (each_value-empty _ (values_of a)))
              (test_empty _ _ _ (overrides_context-none a)))
            (test_empty _ _ _ (selects_host-none a)))
          (test_empty _ _ _ (mentions_protected-none a)) in
      (
        (λ h.
            let (
              (((((token, marker), character), values), context), (host, host_value)),
              protected,
            ) =
              e.0 h in
            record {
              no_token = token;
              no_marker = marker;
              no_character = character;
              confined = ((values_of-IsConfined a).0 values).0;
              confined_value = ((values_of-IsConfined a).0 values).1;
              no_context = context;
              no_host = host;
              no_host_value = host_value;
              no_protected = protected;
            }),
        (λ s. e.1 (
          (
            (
              (
                ((s.no_token, s.no_marker), s.no_character),
                (values_of-IsConfined a).1 (s.confined, s.confined_value),
              ),
              s.no_context,
            ),
            (s.no_host, s.no_host_value),
          ),
          s.no_protected,
        )),
      )

  each_argument-empty :
      (i j : ℕ) (l : List String) → (each_argument task i j l ≡ []) ↔ All (ArgumentIsSafe task) l
  unfolding each_argument
  each_argument-empty i j [] = ((λ h. tt), (λ h. refl))
  each_argument-empty i j (a ∷ l) =
      both_empty _ _ (argument_issues-empty i j a) (each_argument-empty i (suc j) l)

  module _ (available : List String) where
    command_issues-empty :
        (i : ℕ) (c : NativeCommand)
        → (command_issues task available i c ≡ []) ↔ CommandIsSafe task available c
    unfolding command_issues is_launcher
    command_issues-empty i c =
        let e : (command_issues task available i c ≡ []) ↔ _ =
          both_empty _ _
            (both_empty _ _
              (both_empty _ _
                (both_empty _ _ (issue_if-empty _ _ _)
                  (test_empty _ _ _ (none_equal c.executable mpi_launchers)))
                (issue_if-empty _ _ _))
              (issue_if-empty _ _ _))
            (each_argument-empty i 0 c.args) in
        (
          (λ h.
              let ((((mesh_test, launches), known), ranks), arguments) = e.0 h in
              record {
                meshes_nothing_provided =
                    λ k m. ground (arith, is_provided_iff task.mesh_strategy, is_mesh_iff c.stage);
                launches_nothing = launches;
                installed = (some_equal c.executable available).0 (ground arith);
                ranks = ground arith;
                arguments = arguments;
              }),
          (λ s.
              let known = (some_equal c.executable available).1 s.installed in
              let unmeshed = s.meshes_nothing_provided in
              e.1 (
                (
                  (
                    (
                      ground (
                        arith,
                        unmeshed,
                        is_provided_iff task.mesh_strategy,
                        is_mesh_iff c.stage,
                      ),
                      s.launches_nothing,
                    ),
                    ground (arith, known),
                  ),
                  ground (arith, s.ranks),
                ),
                s.arguments,
              )),
        )

    each_command-empty :
        (i : ℕ) (l : List NativeCommand)
        → (each_command task available i l ≡ []) ↔ All (CommandIsSafe task available) l
    unfolding each_command
    each_command-empty i [] = ((λ h. tt), (λ h. refl))
    each_command-empty i (c ∷ l) =
        both_empty _ _ (command_issues-empty i c) (each_command-empty (suc i) l)

-- The policy finds no issue exactly in a plan in which no path and no step ID stands twice; the
-- timeouts fit the wall-time budget; every file has a name below the case directory, outside of
-- `.foampilot`, that as a text neither is the path of a public asset nor begins with one and a slash,
-- which says nothing of other spellings of such a path, and content that mentions no protected path;
-- and every command is an installed executable that is no MPI launcher, within the budget of ranks, of no mesh
-- stage if the mesh is provided, and with arguments free of shell syntax, escaping paths (also as
-- the value of an option), case or host selection and protected paths.
pub validate_execution_plan-exactly :
    (plan : ExecutionPlan) (task : TaskSpec) (available : List String)
    → (validate_execution_plan plan task available ≡ []) ↔ PlanIsSafe task available plan
unfolding validate_execution_plan
validate_execution_plan-exactly plan task available =
    let e : (validate_execution_plan plan task available ≡ []) ↔ _ =
      both_empty _ _
        (both_empty _ _
          (both_empty _ _
            (both_empty _ _
              (test_empty _ _ _ (has_duplicates-IsDistinct (map (λ f. f.path) plan.files)))
              (each_file-empty task 0 plan.files))
            (test_empty _ _ _ (has_duplicates-IsDistinct (map (λ c. c.step_id) plan.commands))))
          (issue_if-empty _ _ _))
        (each_command-empty task available 0 plan.commands) in
    (
      (λ h.
          let ((((paths, files), steps), time), commands) = e.0 h in
          record {
            distinct_paths = paths;
            files = files;
            distinct_steps = steps;
            in_time = ground arith;
            commands = commands;
          }),
      (λ s. e.1 (
        (((s.distinct_paths, s.files), s.distinct_steps), ground (arith, s.in_time)),
        s.commands,
      )),
    )
