-- ===== src/Validation/References.antt =====
-- The references that a block makes: its input data sets, and the columns that BY, KEEP, DROP, LABEL
-- and RENAME name. What a data set has for columns is a parameter, since it asks the adapters.
use limulus.Prelude.{
  Bool, true, false, List, [], ◌∷◌, ◌++◌, map, Option, none, some, ◌==◌, if◌then◌else◌, all, length,
}
use limulus.Text.{Text, codes, text_eq}
use limulus.Dict.{Dict, get?, set, keys}
use limulus.Naming.{column_key, dataset_key}
use limulus.Catalog.{resolve_dataset_alias, resolved_candidate_inputs}
use limulus.Syntax.Expression.{SourceSpan}
use limulus.Syntax.Source.{SourceDocument}
use limulus.Syntax.Options.{DatasetReference, SetStatementOption}
use limulus.Syntax.Statement.{
  set_kind, merge_kind, by_kind, keep_kind, drop_kind, label_kind, rename_kind, source_statement,
  name_list, label_statement, rename_statement, Statement, statement, Annotations,
}
use limulus.Validation.{
  ValidationDiagnostic, ValidationRequest, validation_diagnostic, build_typed_validation_diagnostic,
  mem,
}
use limulus.Validation.Columns.{
  columns, rejected, distinct, dict_of, values_of, apply_source_option_columns_for_validate,
  collect_typed_step_defined_columns,
}

-- The first SET or MERGE statement that has structure.
pub record SourceStatement (F : Type 0) : Type 0 where
  pub span : SourceSpan
  pub refs : List (DatasetReference F)
  pub options : SetStatementOption

module _ {F : Type 0} where
  unfoldable pub typed_source_statement : List (Statement F) → Option (SourceStatement F)
  typed_source_statement [] = none
  typed_source_statement (statement set_kind (source_statement refs options) notes ∷ statements) =
      some (record { span = notes.span; refs = refs; options = options })
  typed_source_statement (statement merge_kind (source_statement refs options) notes ∷ statements) =
      some (record { span = notes.span; refs = refs; options = options })
  typed_source_statement (_ ∷ statements) = typed_source_statement statements

  -- `_typed_variable_list(…, "BY")`
  unfoldable pub by_names : List (Statement F) → List Text
  by_names [] = []
  by_names (statement by_kind (name_list names) notes ∷ statements) = map (λ n. n.0) names
  by_names (_ ∷ statements) = by_names statements

  unfoldable pub in_option_vars : List (DatasetReference F) → List Text
  in_option_vars [] = []
  in_option_vars (ref ∷ refs) =
      let rest = in_option_vars refs in elim ref.options.in_var [ none ↦ rest | some v ↦ v ∷ rest ]

-- Not in the source are names that are empty.
abbrev given : Option Text → List Text
given (some (c ∷ s)) = (c ∷ s) ∷ []
given _ = []

unfoldable pub nonempty_names : List Text → List Text
nonempty_names [] = []
nonempty_names (n ∷ names) = given (some n) ++ nonempty_names names

unfoldable pub flag_names : List Text → List Text
flag_names [] = []
flag_names (k ∷ ks) =
    (codes "FIRST." ++ k)
    ∷ (codes "LAST." ++ k)
    ∷ (codes "first." ++ k)
    ∷ (codes "last." ++ k)
    ∷ flag_names ks

unfoldable pub collect_internal_variable_names :
    List Text → Option Text → Option Text → List Text → List Text
unfolding nonempty_names flag_names
collect_internal_variable_names in_vars indsname_var end_var by_keys =
    nonempty_names in_vars ++ (given indsname_var ++ (given end_var ++ flag_names by_keys))

-- The first name whose key is none of the columns'.
unfoldable pub first_unknown : List Text → List Text → Option Text
unfolding column_key text_eq
first_unknown available [] = none
first_unknown available (name ∷ names) =
    if mem (column_key name) (map column_key available)
    then first_unknown available names
    else some name

unfoldable pub unknown_column_diagnostic :
    Text → List Text → List Text → Text → SourceSpan → Text → Option ValidationDiagnostic
unfolding first_unknown validation_diagnostic
unknown_column_diagnostic statement_kind referenced available code span source_text =
    elim (first_unknown available referenced) [
      | none ↦ none
      | some missing ↦ some (
          validation_diagnostic code
            (statement_kind ++ (codes " statement references unknown variable: " ++ missing))
            (some span) source_text (some (codes "unknown variable")) [])
    ]

unfoldable pub has_circular_rename : Dict Text → Dict Text → Bool
unfolding get? text_eq
has_circular_rename renames [] = false
has_circular_rename renames ((source, target) ∷ entries) =
    let rest = has_circular_rename renames entries in
    elim (get? renames target) [
      | none ↦ rest
      | some back ↦ if text_eq back source then true else rest
    ]

-- The message of a refused RENAME.
unfoldable pub validate_rename_statement_contract : Dict Text → Option Text
unfolding distinct has_circular_rename
validate_rename_statement_contract renames =
    if length (distinct (values_of renames)) == length renames
    then if has_circular_rename renames renames
      then some (codes "RENAME statement contains circular reference.")
      else none
    else some (codes "RENAME statement has duplicate target variable names.")

unfoldable pub rename_diagnostic :
    Dict Text → List Text → Annotations → SourceDocument → Option ValidationDiagnostic
unfolding validate_rename_statement_contract build_typed_validation_diagnostic
    unknown_column_diagnostic
rename_diagnostic renames available notes source =
    elim (validate_rename_statement_contract renames) [
      | some message ↦ some (
          build_typed_validation_diagnostic (codes "RUNTIME_RENAME_STATEMENT_INVALID") message
            (some notes.span) source (some (codes "invalid rename")) [])
      | none ↦
          unknown_column_diagnostic (codes "RENAME") (keys renames) available
            (codes "RUNTIME_RENAME_STATEMENT_INVALID") notes.span source.text
    ]

unfoldable pub validate_typed_statement_column_refs :
    {F : Type 0} → Statement F → List Text → SourceDocument → Option ValidationDiagnostic
unfolding rename_diagnostic dict_of unknown_column_diagnostic
validate_typed_statement_column_refs (statement rename_kind (rename_statement pairs) notes)
      available source =
    rename_diagnostic (dict_of pairs []) available notes source
validate_typed_statement_column_refs (statement keep_kind (name_list names) notes) available
      source =
    unknown_column_diagnostic (codes "KEEP") (map (λ n. n.0) names) available
      (codes "VALIDATE_COLUMN_NOT_FOUND") notes.span source.text
validate_typed_statement_column_refs (statement drop_kind (name_list names) notes) available
      source =
    unknown_column_diagnostic (codes "DROP") (map (λ n. n.0) names) available
      (codes "VALIDATE_COLUMN_NOT_FOUND") notes.span source.text
validate_typed_statement_column_refs (statement label_kind (label_statement labels) notes) available
      source =
    unknown_column_diagnostic (codes "LABEL") (map (λ l. l.name) labels) available
      (codes "VALIDATE_COLUMN_NOT_FOUND") notes.span source.text
validate_typed_statement_column_refs _ available source = none

-- A BY key that some source lacks.
unfoldable pub first_missing_by_key : Dict (List Text) → List Text → Option Text
unfolding column_key text_eq
first_missing_by_key sources [] = none
first_missing_by_key sources (k ∷ ks) =
    if all (λ s. mem (column_key k) (map column_key s.1)) sources
    then first_missing_by_key sources ks
    else some k

abbrev by_diagnostic : Option Text → Annotations → SourceDocument → Option ValidationDiagnostic
unfolding build_typed_validation_diagnostic
by_diagnostic none notes source = none
by_diagnostic (some k) notes source = some (
    build_typed_validation_diagnostic (codes "RUNTIME_BY_PRECONDITION_FAILED")
      (codes "BY key '" ++ (k ++ codes "' is missing in source rows.")) (some notes.span) source
      (some (codes "missing BY key")) [])

-- What one round of the loop over the statements finds.
unfoldable pub statement_diagnostic :
    {F : Type 0}
    → Dict (List Text)
    → List Text
    → SourceDocument
    → Statement F
    → Option ValidationDiagnostic
unfolding first_missing_by_key build_typed_validation_diagnostic
    validate_typed_statement_column_refs
statement_diagnostic sources available source (statement by_kind (name_list names) notes) =
    by_diagnostic (first_missing_by_key sources (map (λ n. n.0) names)) notes source
statement_diagnostic sources available source s =
    validate_typed_statement_column_refs s available source

-- The loop over the statements, which ends with the first diagnostic.
unfoldable pub check_statements :
    {F : Type 0}
    → Dict (List Text)
    → List Text
    → SourceDocument
    → List (Statement F)
    → List ValidationDiagnostic
unfolding statement_diagnostic
check_statements sources available source [] = []
check_statements sources available source (s ∷ statements) =
    let rest = check_statements sources available source statements in
    elim (statement_diagnostic sources available source s) [
      | some diagnostic ↦ diagnostic ∷ []
      | none ↦ rest
    ]

-- What the loop over the sources builds: the columns of each, and all of them; or a diagnostic.
pub data SourceColumns : Type 0 where
  known : Dict (List Text) → List Text → SourceColumns
  refused : ValidationDiagnostic → SourceColumns

module _ {F D : Type 0} where
  unfoldable pub collect_source_columns :
      (D → Option (List Text))
      → Dict D
      → SourceSpan
      → Text
      → List (DatasetReference F)
      → Dict (List Text)
      → List Text
      → SourceColumns
  unfolding resolve_dataset_alias apply_source_option_columns_for_validate validation_diagnostic set
      dataset_key
  collect_source_columns infer candidates span source_text [] sources available =
      known sources available
  collect_source_columns infer candidates span source_text (ref ∷ refs) sources available =
      let skip = collect_source_columns infer candidates span source_text refs sources available in
      let next = λ (found : List Text).
        collect_source_columns infer candidates span source_text refs
          (set sources (dataset_key ref.name) found) (available ++ found) in
      elim (resolve_dataset_alias candidates ref.name) [
        | none ↦ skip
        | some input ↦ elim (infer input) [
          | none ↦ skip
          | some found ↦
              elim (apply_source_option_columns_for_validate found ref.name ref.options) [
                | rejected code message label ↦
                    refused
                      (validation_diagnostic code message (some span) source_text (some label) [])
                | columns transformed ↦ next transformed
              ]
        ]
      ]

  -- All columns that a statement of the step may name.
  unfoldable pub available_columns :
      ValidationRequest F D → SourceStatement F → List Text → List Text
  unfolding collect_internal_variable_names in_option_vars by_names
      collect_typed_step_defined_columns
  available_columns request typed available =
      available
      ++ (collect_internal_variable_names (in_option_vars typed.refs) typed.options.indsname_var
            typed.options.end_var (by_names request.block.statements)
          ++ collect_typed_step_defined_columns request.block.statements)

  -- What follows the loop over the sources.
  unfoldable pub check_columns :
      ValidationRequest F D → SourceStatement F → SourceColumns → List ValidationDiagnostic
  unfolding available_columns check_statements
  check_columns request typed (refused diagnostic) = diagnostic ∷ []
  check_columns request typed (known sources available) =
      check_statements sources (available_columns request typed available) request.source
        request.block.statements

  unfoldable pub validate_typed_static_column_refs :
      (D → Option (List Text))
      → (Text → Dict D → D)
      → ValidationRequest F D
      → List ValidationDiagnostic
  unfolding typed_source_statement resolved_candidate_inputs collect_source_columns check_columns
  validate_typed_static_column_refs infer build request =
      elim (typed_source_statement request.block.statements) [
        | none ↦ []
        | some typed ↦
            let candidates =
              resolved_candidate_inputs build (map (λ r. r.name) typed.refs) request.explicit_inputs
                request.available_inputs request.registered_tables in
            check_columns request typed (
              collect_source_columns infer candidates typed.span request.source.text typed.refs []
                [])
      ]
