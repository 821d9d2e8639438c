-- ===== src/Outputs.antt =====
-- Output targets and the options they share (limulus/execution/typed_output_planning.py). The test of
-- two floats for equality and the normalization of a target are parameters.
pub mod Options
pub mod Laws
pub mod Projection
pub mod Shaping
pub mod Faults
use limulus.Prelude.{
  ℕ, Bool, true, false, not, ◌&&◌, ◌||◌, List, [], ◌∷◌, ◌++◌, map, Option, none, some, ltb,
  if◌then◌else◌,
}
use limulus.Prelude.Sort.{sort_by}
use limulus.Text.{Text, codes, text_eq}
use limulus.Dict.{Dict, get?, set, contains}
use limulus.Naming.{dataset_key}
use limulus.Syntax.Source.{SourceDocument}
use limulus.Syntax.Options.{DatasetOption, no_options, DatasetReference}
use limulus.Syntax.Statement.{
  StatementKind, data_kind, output_kind, Payload, data_statement, output_statement, if_statement,
  else_statement, Action, absent, inline, deferred_action, Statement, statement, Block,
}
use limulus.Validation.{ValidationDiagnostic, build_typed_validation_diagnostic, mem}
use limulus.Validation.Targets.{data_outputs}
use limulus.Outputs.Options.{has_nonempty_option, normalized_options, same_options}

pub record TypedOutputTargetPlan (F : Type 0) : Type 0 where
  pub targets : List Text
  pub default_target : Option Text
  pub suppress_implicit_output : Bool
  pub effective_output_options : Dict (DatasetOption F)
  pub diagnostics : List ValidationDiagnostic

abbrev is_output : StatementKind → Bool
is_output output_kind = true
is_output _ = false

-- What the statements of a block refer to.
pub record References (F : Type 0) : Type 0 where
  pub top_level : List (DatasetReference F)
  pub inlined : List (DatasetReference F)
  pub suppress : Bool

module _ {F : Type 0} where
  unfoldable pub first_data_references : List (Statement F) → List (DatasetReference F)
  unfolding data_outputs
  first_data_references [] = []
  first_data_references (s ∷ statements) =
      let rest = first_data_references statements in
      elim (data_outputs s) [ none ↦ rest | some outputs ↦ outputs ]

  unfoldable pub inline_output_references : Action F → List (DatasetReference F) × Bool
  inline_output_references (inline (statement kind (output_statement targets) notes)) =
      if is_output kind then (targets, true) else ([], false)
  inline_output_references
        (inline
          (statement kind (if_statement condition then_action subset then_do display) notes)) =
      inline_output_references then_action
  inline_output_references (inline (statement kind (else_statement action) notes)) =
      inline_output_references action
  inline_output_references _ = ([], false)

  -- What one statement refers to.
  unfoldable pub statement_references : Statement F → References F
  unfolding inline_output_references
  statement_references (statement kind (output_statement targets) notes) =
      if is_output kind
      then record { top_level = targets; inlined = []; suppress = true }
      else record { top_level = []; inlined = []; suppress = false }
  statement_references
        (statement kind (if_statement condition then_action subset then_do display) notes) =
      let (found, has_output) = inline_output_references then_action in
      record { top_level = []; inlined = found; suppress = has_output }
  statement_references (statement kind (else_statement action) notes) =
      let (found, has_output) = inline_output_references action in
      record { top_level = []; inlined = found; suppress = has_output }
  statement_references _ = record { top_level = []; inlined = []; suppress = false }

  unfoldable pub block_references : List (Statement F) → References F
  unfolding statement_references
  block_references [] = record { top_level = []; inlined = []; suppress = false }
  block_references (s ∷ statements) =
      let found = statement_references s in
      let rest = block_references statements in
      record {
        top_level = found.top_level ++ rest.top_level;
        inlined = found.inlined ++ rest.inlined;
        suppress = found.suppress || rest.suppress;
      }

  -- `sorted` by the start of the span keeps the order of references that start together.
  unfoldable pub in_source_order : List (DatasetReference F) → List (DatasetReference F)
  unfolding sort_by
  in_source_order = sort_by (λ a b. ltb a.span.start b.span.start)

  unfoldable pub set_default_options : Dict (DatasetOption F) → List Text → Dict (DatasetOption F)
  unfolding dataset_key contains set
  set_default_options options [] = options
  set_default_options options (target ∷ targets) =
      set_default_options
        (if contains options (dataset_key target)
          then options
          else set options (dataset_key target) no_options)
        targets

-- The options of each target, the first normalized ones of a key, and the faults.
pub record Resolving (F : Type 0) : Type 0 where
  pub options_by_target : Dict (DatasetOption F)
  pub first_nonempty : Dict (DatasetOption F)
  pub faults : List ValidationDiagnostic

module _ {F : Type 0} (same : F → F → Bool) (source : SourceDocument) (registered : List Text) where
  unfoldable pub fault : Text → DatasetReference F → Resolving F → Resolving F
  unfolding build_typed_validation_diagnostic
  fault message reference resolving = record resolving {
    faults =
        resolving.faults
        ++ build_typed_validation_diagnostic (codes "RUNTIME_DATASET_OPTION_INVALID")
            (message ++ reference.name) (some reference.span) source none (codes "validate")
          ∷ [];
  }

  unfoldable pub compare_options :
      Resolving F → DatasetReference F → Option (DatasetOption F) → Resolving F
  unfolding dataset_key set normalized_options same_options fault
  compare_options resolving reference none = record resolving {
    options_by_target =
        set resolving.options_by_target (dataset_key reference.name) reference.options;
    first_nonempty =
        set resolving.first_nonempty (dataset_key reference.name)
          (normalized_options reference.options);
  }
  compare_options resolving reference (some previous) =
      if same_options same previous (normalized_options reference.options)
      then resolving
      else fault (codes "Conflicting output options for target: ") reference resolving

  unfoldable pub resolve_reference : Resolving F → DatasetReference F → Option Text → Resolving F
  unfolding dataset_key text_eq get? has_nonempty_option compare_options fault
  resolve_reference resolving reference in_var =
      if not (mem (dataset_key reference.name) registered) then resolving else elim in_var [
        | some name ↦
            fault (codes "Input-only IN option is not allowed for output target: ") reference
              resolving
        | none ↦
            if has_nonempty_option reference.options
            then compare_options resolving reference
                (get? resolving.first_nonempty (dataset_key reference.name))
            else resolving
      ]

  unfoldable pub resolve_references : Resolving F → List (DatasetReference F) → Resolving F
  unfolding resolve_reference
  resolve_references resolving [] = resolving
  resolve_references resolving (reference ∷ references) =
      resolve_references (resolve_reference resolving reference reference.options.in_var) references

abbrev first_target : List Text → Option Text
first_target [] = none
first_target (target ∷ targets) = some target

abbrev default_target :
    {F : Type 0} → (Text → Text) → List (DatasetReference F) → List Text → Option Text
default_target normalize_target (reference ∷ references) targets =
    some (normalize_target reference.name)
default_target normalize_target [] targets = first_target targets

module _ {F : Type 0} where
  -- All references of the block, in source order.
  unfoldable pub output_references : Block F → List (DatasetReference F)
  unfolding first_data_references block_references in_source_order
  output_references block =
      let found = block_references block.statements in
      in_source_order (first_data_references block.statements ++ (found.top_level ++ found.inlined))

module _ {F : Type 0} (same : F → F → Bool) where
  unfoldable pub plan_typed_output_targets :
      Block F → SourceDocument → List Text → (Text → Text) → TypedOutputTargetPlan F
  unfolding block_references output_references dataset_key set_default_options resolve_references
  plan_typed_output_targets block source resolved_output_targets normalize_target =
      let found = block_references block.statements in
      let targets = map normalize_target resolved_output_targets in
      let start : Resolving F = record {
        options_by_target = set_default_options [] targets;
        first_nonempty = [];
        faults = [];
      } in
      let resolved =
        resolve_references same source (map dataset_key targets) start (output_references block) in
      record {
        targets = targets;
        default_target = default_target normalize_target found.top_level targets;
        suppress_implicit_output = found.suppress;
        effective_output_options = resolved.options_by_target;
        diagnostics = resolved.faults;
      }
