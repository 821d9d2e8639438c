-- ===== src/Validation/Targets.antt =====
-- The output targets of a block: their registrations, reserved names, and duplicates within one
-- DATA statement.
pub mod Laws
use limulus.Prelude.{
  ℕ, Bool, true, false, not, ◌&&◌, ◌||◌, List, [], ◌∷◌, ◌++◌, map, Option, none, some,
  if◌then◌else◌,
}
use limulus.Text.{Text, codes, text_eq, starts_with}
use limulus.Naming.{dataset_key}
use limulus.Catalog.{normalize_dataset_name}
use limulus.Syntax.Expression.{SourceSpan}
use limulus.Syntax.Source.{SourceDocument}
use limulus.Syntax.Options.{DatasetReference}
use limulus.Syntax.Statement.{
  StatementKind, data_kind, output_kind, Payload, data_statement, output_statement, Statement,
  statement, notes_of, Block,
}
use limulus.Validation.{
  ValidationDiagnostic, ValidationRequest, validation_diagnostic, build_typed_validation_diagnostic,
  mem,
}

abbrev is_empty : Text → Bool
is_empty [] = true
is_empty (c ∷ s) = false

-- The names of a group that are new are added at the end. `seen` holds their keys.
unfoldable pub merge_group : List Text → List Text → List Text → List Text × List Text
unfolding normalize_dataset_name dataset_key text_eq
merge_group [] merged seen = (merged, seen)
merge_group (target ∷ group) merged seen =
    let name = normalize_dataset_name target in
    let key = dataset_key name in
    let skipped = is_empty name || mem key seen in
    merge_group group (if skipped then merged else merged ++ name ∷ [])
      (if skipped then seen else key ∷ seen)

unfoldable pub merge_unique_targets : List Text → List Text → List Text
unfolding merge_group
merge_unique_targets first second =
    let (merged, seen) = merge_group first [] [] in (merge_group second merged seen).0

module _ {F : Type 0} where
  abbrev names_of : List (DatasetReference F) → List Text
  names_of = map (λ r. r.name)

  unfoldable pub data_target_names : List (Statement F) → List Text
  data_target_names [] = []
  data_target_names (statement data_kind (data_statement outputs) notes ∷ statements) =
      names_of outputs ++ data_target_names statements
  data_target_names (_ ∷ statements) = data_target_names statements

  unfoldable pub output_target_names : List (Statement F) → List Text
  output_target_names [] = []
  output_target_names (statement output_kind (output_statement targets) notes ∷ statements) =
      names_of targets ++ output_target_names statements
  output_target_names (_ ∷ statements) = output_target_names statements

  unfoldable pub resolve_typed_output_targets : List (Statement F) → List Text → List Text
  unfolding normalize_dataset_name merge_unique_targets data_target_names output_target_names
  resolve_typed_output_targets statements (target ∷ explicit) =
      map normalize_dataset_name (target ∷ explicit)
  resolve_typed_output_targets statements [] =
      merge_unique_targets (data_target_names statements) (output_target_names statements)

  -- The span of the first DATA or OUTPUT statement.
  unfoldable pub owner_span : List (Statement F) → Option SourceSpan
  owner_span [] = none
  owner_span (statement data_kind payload notes ∷ statements) = some notes.span
  owner_span (statement output_kind payload notes ∷ statements) = some notes.span
  owner_span (_ ∷ statements) = owner_span statements

abbrev pub is_reserved : Text → Bool
is_reserved key = text_eq key (codes "DICTIONARY") || starts_with key (codes "DICTIONARY.")

unfoldable pub reserved_diagnostics :
    Option SourceSpan → SourceDocument → List Text → List ValidationDiagnostic
unfolding dataset_key text_eq starts_with validation_diagnostic
reserved_diagnostics span source [] = []
reserved_diagnostics span source (target ∷ targets) =
    let rest = reserved_diagnostics span source targets in
    if is_reserved (dataset_key target)
    then validation_diagnostic (codes "VALIDATE_RESERVED_OUTPUT_TARGET")
        (codes "Reserved output target is not allowed: " ++ target) span source.text none []
      ∷ rest
    else rest

-- The first repeated reference of one DATA statement.
unfoldable pub duplicate_reference :
    {F : Type 0} → List Text → List (DatasetReference F) → Option (DatasetReference F)
unfolding dataset_key text_eq
duplicate_reference seen [] = none
duplicate_reference seen (reference ∷ references) =
    let rest = duplicate_reference (dataset_key reference.name ∷ seen) references in
    if mem (dataset_key reference.name) seen then some reference else rest

abbrev pub duplicate_diagnostic :
    {F : Type 0} → SourceDocument → DatasetReference F → ValidationDiagnostic
unfolding build_typed_validation_diagnostic
duplicate_diagnostic source reference =
    build_typed_validation_diagnostic (codes "VALIDATE_DUPLICATE_DATA_TARGET")
      (codes "DATA statement has duplicate output target: " ++ reference.name) (some reference.span)
      source none (codes "validate")

-- The references of a DATA statement.
unfoldable pub data_outputs : {F : Type 0} → Statement F → Option (List (DatasetReference F))
data_outputs (statement data_kind (data_statement outputs) notes) = some outputs
data_outputs _ = none

unfoldable pub duplicate_diagnostics :
    {F : Type 0} → SourceDocument → List (Statement F) → List ValidationDiagnostic
unfolding data_outputs duplicate_reference build_typed_validation_diagnostic
duplicate_diagnostics source [] = []
duplicate_diagnostics source (s ∷ statements) =
    let rest = duplicate_diagnostics source statements in
    elim (data_outputs s) [
      | none ↦ rest
      | some outputs ↦ elim (duplicate_reference [] outputs) [
        | some reference ↦ duplicate_diagnostic source reference ∷ []
        | none ↦ rest
      ]
    ]

abbrev pub unless_explicit : List Text → Option SourceSpan → Option SourceSpan
unless_explicit [] span = span
unless_explicit (target ∷ explicit) span = none

module _ {F D : Type 0} where
  unfoldable pub validate_typed_reserved_output_targets :
      ValidationRequest F D → List ValidationDiagnostic
  unfolding resolve_typed_output_targets owner_span reserved_diagnostics
  validate_typed_reserved_output_targets request =
      reserved_diagnostics
        (unless_explicit request.explicit_output_targets (owner_span request.block.statements))
        request.source
        (resolve_typed_output_targets request.block.statements request.explicit_output_targets)

  unfoldable pub validate_typed_data_duplicate_targets :
      ValidationRequest F D → List ValidationDiagnostic
  unfolding duplicate_diagnostics
  validate_typed_data_duplicate_targets request =
      duplicate_diagnostics request.source request.block.statements
