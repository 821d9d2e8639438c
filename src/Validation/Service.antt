-- ===== src/Validation/Service.antt =====
-- `validate_typed` of limulus/execution/validation.py, and its check of the input data sets.
pub mod Laws
use limulus.Prelude.{
  ℕ, Bool, true, false, List, [], ◌∷◌, ◌++◌, map, Option, none, some, if◌then◌else◌,
}
use limulus.Text.{Text, codes}
use limulus.Dict.{Dict}
use limulus.Catalog.{resolve_dataset_alias, resolved_candidate_inputs}
use limulus.Syntax.Expression.{SourceSpan}
use limulus.Validation.{ValidationDiagnostic, ValidationRequest, validation_diagnostic}
use limulus.Validation.Targets.{
  validate_typed_reserved_output_targets, validate_typed_data_duplicate_targets,
}
use limulus.Validation.References.{typed_source_statement, validate_typed_static_column_refs}

module _ {D : Type 0} where
  unfoldable pub missing_inputs : Dict D → SourceSpan → Text → List Text → List ValidationDiagnostic
  unfolding resolve_dataset_alias validation_diagnostic
  missing_inputs candidates span source_text [] = []
  missing_inputs candidates span source_text (name ∷ names) =
      let rest = missing_inputs candidates span source_text names in
      elim (resolve_dataset_alias candidates name) [
        | some dataset ↦ rest
        | none ↦
            validation_diagnostic (codes "RUNTIME_SET_DATASET_NOT_FOUND")
              (codes "Input dataset is not provided: " ++ name) (some span) source_text none []
            ∷ rest
      ]

  -- The names of the sources, of which there has to be one.
  unfoldable pub check_inputs : Dict D → SourceSpan → Text → List Text → List ValidationDiagnostic
  unfolding missing_inputs validation_diagnostic
  check_inputs candidates span source_text [] =
      validation_diagnostic (codes "RUNTIME_SET_DATASET_NOT_FOUND")
        (codes "SET statement requires an input dataset name.") (some span) source_text none []
      ∷ []
  check_inputs candidates span source_text (name ∷ names) =
      missing_inputs candidates span source_text (name ∷ names)

module _ {F D : Type 0} (build : Text → Dict D → D) where
  unfoldable pub validate_typed_input_dataset_refs :
      ValidationRequest F D → List ValidationDiagnostic
  unfolding typed_source_statement resolved_candidate_inputs check_inputs
  validate_typed_input_dataset_refs request =
      elim (typed_source_statement request.block.statements) [
        | none ↦ []
        | some typed ↦
            let names = map (λ r. r.name) typed.refs in
            check_inputs
              (resolved_candidate_inputs build names request.explicit_inputs
                request.available_inputs request.registered_tables)
              typed.span request.source.text names
      ]

  unfoldable pub validate_typed :
      (D → Option (List Text)) → ValidationRequest F D → List ValidationDiagnostic
  unfolding validate_typed_reserved_output_targets validate_typed_data_duplicate_targets
      validate_typed_input_dataset_refs validate_typed_static_column_refs
  validate_typed infer request =
      let early =
        validate_typed_reserved_output_targets request
        ++ (validate_typed_data_duplicate_targets request
            ++ validate_typed_input_dataset_refs request) in
      elim early [
        | diagnostic ∷ diagnostics ↦ diagnostic ∷ diagnostics
        | [] ↦ validate_typed_static_column_refs infer build request
      ]
