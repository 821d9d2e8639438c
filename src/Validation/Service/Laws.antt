-- ===== src/Validation/Service/Laws.antt =====
-- What a block satisfies that validation reports nothing for.
use limulus.Prelude.{
  ◌≡◌, refl, ◌≢◌, Bool, true, false, List, [], ◌∷◌, ◌++◌, map, Option, none, some, arith, all,
  Option-cases, inl, inr,
}
use limulus.Text.{Text, codes}
use limulus.Dict.{Dict}
use limulus.Naming.{column_key}
use limulus.Catalog.{resolve_dataset_alias, resolved_candidate_inputs}
use limulus.Syntax.Expression.{SourceSpan, Place}
use limulus.Syntax.Source.{SourceDocument}
use limulus.Syntax.Statement.{Statement, statement, keep_kind, drop_kind, name_list, Annotations}
use limulus.Validation.{ValidationDiagnostic, ValidationRequest, mem}
use limulus.Validation.Targets.{
  validate_typed_reserved_output_targets, validate_typed_data_duplicate_targets,
}
use limulus.Validation.Targets.Laws.{no_duplicates, duplicate_diagnostics-no_duplicates}
use limulus.Validation.References.{
  SourceStatement, typed_source_statement, known, collect_source_columns, statement_diagnostic,
  check_columns, check_statements, first_unknown, unknown_column_diagnostic,
  validate_typed_statement_column_refs, validate_typed_static_column_refs, available_columns,
}
use limulus.Validation.Service.{
  missing_inputs, check_inputs, validate_typed_input_dataset_refs, validate_typed,
}

append-eq_nil {ℓ} : {A : Type ℓ} (xs ys : List A) → xs ++ ys ≡ [] → (xs ≡ []) × (ys ≡ [])
append-eq_nil [] ys h = (refl, h)
append-eq_nil (x ∷ xs) ys h = cc

is_found : {D : Type 0} → Option D → Bool
is_found none = false
is_found (some d) = true

module _ {D : Type 0} where
  abbrev pub all_found : Dict D → List Text → Bool
  unfolding is_found
  all_found candidates names = all (λ n. is_found (resolve_dataset_alias candidates n)) names

  missing_inputs-nil :
      (candidates : Dict D) (span : SourceSpan) (source_text : Text) (names : List Text)
      → missing_inputs candidates span source_text names ≡ []
      → all_found candidates names ≡ true
  unfolding missing_inputs is_found
  missing_inputs-nil candidates span source_text [] h = refl
  missing_inputs-nil candidates span source_text (n ∷ names) h =
      elim (Option-cases (resolve_dataset_alias candidates n)) [
        | inl e ↦ absurd (ground arith)
        | inr (d, e) ↦ ground (arith, missing_inputs-nil candidates span source_text names)
      ]

  check_inputs-nil :
      (candidates : Dict D) (span : SourceSpan) (source_text : Text) (names : List Text)
      → check_inputs candidates span source_text names ≡ []
      → (names ≢ []) × (all_found candidates names ≡ true)
  unfolding check_inputs
  check_inputs-nil candidates span source_text [] h = cc
  check_inputs-nil candidates span source_text (n ∷ names) h =
      (λ e. cc, missing_inputs-nil candidates span source_text (n ∷ names) h)

-- Every name has the key of a column.
abbrev pub all_known : List Text → List (Text × Place) → Bool
all_known available names = all (λ n. mem (column_key n.0) (map column_key available)) names

first_unknown-none :
    (available : List Text) (names : List (Text × Place))
    → first_unknown available (map (λ n. n.0) names) ≡ none
    → all_known available names ≡ true
unfolding first_unknown
first_unknown-none available [] h = refl
first_unknown-none available (n ∷ names) h = ground (arith, first_unknown-none available names)

unknown_column_diagnostic-none :
    (kind code source_text : Text) (available : List Text) (names : List (Text × Place))
    (span : SourceSpan)
    → unknown_column_diagnostic kind (map (λ n. n.0) names) available code span source_text ≡ none
    → all_known available names ≡ true
unfolding unknown_column_diagnostic
unknown_column_diagnostic-none kind code source_text available names span h =
    elim (Option-cases (first_unknown available (map (λ n. n.0) names))) [
      | inl e ↦ first_unknown-none available names e
      | inr (m, e) ↦ absurd (ground arith)
    ]

-- A statement that keeps or drops columns.
pub data Selects {F : Type 0} : Statement F → List (Text × Place) → Type 0 where
  keeps :
      (names : List (Text × Place)) (notes : Annotations)
      → Selects (statement keep_kind (name_list names) notes) names
  drops :
      (names : List (Text × Place)) (notes : Annotations)
      → Selects (statement drop_kind (name_list names) notes) names

Selects-all_known :
    {F : Type 0} (sources : Dict (List Text)) (available : List Text) (source : SourceDocument)
    (s : Statement F) (names : List (Text × Place))
    → Selects s names
    → statement_diagnostic sources available source s ≡ none
    → all_known available names ≡ true
unfolding statement_diagnostic validate_typed_statement_column_refs
Selects-all_known sources available source s names (keeps _ notes) h =
    unknown_column_diagnostic-none (codes "KEEP") (codes "VALIDATE_COLUMN_NOT_FOUND") source.text
      available names notes.span h
Selects-all_known sources available source s names (drops _ notes) h =
    unknown_column_diagnostic-none (codes "DROP") (codes "VALIDATE_COLUMN_NOT_FOUND") source.text
      available names notes.span h

check_statements-nil :
    {F : Type 0} (sources : Dict (List Text)) (available : List Text) (source : SourceDocument)
    (before after : List (Statement F)) (s : Statement F)
    → check_statements sources available source (before ++ s ∷ after) ≡ []
    → statement_diagnostic sources available source s ≡ none
unfolding check_statements
check_statements-nil sources available source [] after s h = ground arith
check_statements-nil sources available source (b ∷ before) after s h =
    elim (Option-cases (statement_diagnostic sources available source b)) [
      | inl e ↦ ground (arith, check_statements-nil sources available source before after s)
      | inr (d, e) ↦ absurd (ground arith)
    ]

check_statements-at :
    {F : Type 0} (sources : Dict (List Text)) (available : List Text) (source : SourceDocument)
    (statements before after : List (Statement F)) (s : Statement F)
    → statements ≡ before ++ s ∷ after
    → check_statements sources available source statements ≡ []
    → statement_diagnostic sources available source s ≡ none
check_statements-at sources available source statements before after s split h =
    check_statements-nil sources available source before after s (rw split at h)

module _ {F D : Type 0} (build : Text → Dict D → D) (infer : D → Option (List Text))
    (request : ValidationRequest F D) where
  abbrev pub candidates_of : SourceStatement F → Dict D
  candidates_of typed =
      resolved_candidate_inputs build (map (λ r. r.name) typed.refs) request.explicit_inputs
        request.available_inputs request.registered_tables

  parts :
      validate_typed build infer request ≡ []
      → (validate_typed_data_duplicate_targets request ≡ [])
        × (validate_typed_input_dataset_refs build request ≡ [])
        × (validate_typed_static_column_refs infer build request ≡ [])
  unfolding validate_typed
  parts h =
      go (validate_typed_reserved_output_targets request)
        (validate_typed_data_duplicate_targets request)
        (validate_typed_input_dataset_refs build request) refl refl refl
    where
      go :
          (a b c : List ValidationDiagnostic)
          → validate_typed_reserved_output_targets request ≡ a
          → validate_typed_data_duplicate_targets request ≡ b
          → validate_typed_input_dataset_refs build request ≡ c
          → (b ≡ []) × (c ≡ []) × (validate_typed_static_column_refs infer build request ≡ [])
      go (d ∷ a) b c ea eb ec = absurd (ground arith)
      go [] (d ∷ b) c ea eb ec = absurd (ground arith)
      go [] [] (d ∷ c) ea eb ec = absurd (ground arith)
      go [] [] [] ea eb ec = (refl, refl, ground arith)

  -- If validation reports nothing for a block, then no DATA statement names two references of one key,
  -- and its first SET or MERGE statement that has structure, if there is one, names at least one data
  -- set, and each that it names is in the catalog.
  pub validate_typed-inputs :
      validate_typed build infer request ≡ []
      → (no_duplicates request.block.statements ≡ true)
        × ((typed : SourceStatement F)
            → typed_source_statement request.block.statements ≡ some typed
            → (map (λ r. r.name) typed.refs ≢ [])
              × (all_found (candidates_of typed) (map (λ r. r.name) typed.refs) ≡ true))
  unfolding validate_typed_data_duplicate_targets validate_typed_input_dataset_refs
  validate_typed-inputs h =
      let (duplicates, inputs, columns) = parts h in
      (
        elim (duplicate_diagnostics-no_duplicates request.source request.block.statements) [
          | inl (clean, nothing) ↦ clean
          | inr (bad, (d, reported)) ↦ absurd (ground arith)
        ],
        λ typed e.
            check_inputs-nil (candidates_of typed) typed.span request.source.text
              (map (λ r. r.name) typed.refs) (rw (validate_typed_input_dataset_refs, e) at inputs),
      )

  static :
      (typed : SourceStatement F) (sources : Dict (List Text)) (available : List Text)
      → validate_typed_static_column_refs infer build request ≡ []
      → typed_source_statement request.block.statements ≡ some typed
      → collect_source_columns infer
          (candidates_of typed)
          typed.span
          request.source.text
          typed.refs
          []
          []
        ≡ known sources available
      → check_statements sources
          (available_columns request typed available)
          request.source
          request.block.statements
        ≡ []
  unfolding check_columns validate_typed_static_column_refs
  static typed sources available h e c = rw (validate_typed_static_column_refs, e, c) at h

  -- If validation reports nothing for a block with a source statement, then every name of a KEEP or DROP
  -- statement of it has the key of a column of the sources, of an internal variable, or of a column that
  -- a statement of the step defines. The columns of the sources are what the sources have after their
  -- options.
  pub validate_typed-columns :
      (typed : SourceStatement F) (sources : Dict (List Text)) (available : List Text)
      (before after : List (Statement F)) (s : Statement F) (names : List (Text × Place))
      → validate_typed build infer request ≡ []
      → typed_source_statement request.block.statements ≡ some typed
      → collect_source_columns infer
          (candidates_of typed)
          typed.span
          request.source.text
          typed.refs
          []
          []
        ≡ known sources available
      → request.block.statements ≡ before ++ s ∷ after
      → Selects s names
      → all_known (available_columns request typed available) names ≡ true
  validate_typed-columns typed sources available before after s names h e c split selects =
      let silent = static typed sources available (parts h).2 e c in
      Selects-all_known sources (available_columns request typed available) request.source s names
        selects
        (check_statements-at sources (available_columns request typed available) request.source
          request.block.statements before after s split silent)
