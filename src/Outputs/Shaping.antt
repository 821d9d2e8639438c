-- ===== src/Outputs/Shaping.antt =====
-- The columns of an output target (limulus/execution/output_handoff.py): what the statements of a step
-- define, keep, drop and rename, and which names are internal.
-- An input that is resolved is given by the internal names of its preparation.
pub mod Laws
pub mod Defined
pub mod Origins
pub mod Complete
use limulus.Prelude.{
  ℕ, Bool, true, false, not, ◌&&◌, ◌||◌, List, [], ◌∷◌, ◌++◌, map, Option, none, some, leb, ◌==◌,
  if◌then◌else◌, all, get_or,
}
use limulus.Prelude.Sort.{select}
use limulus.Text.{Text, text_eq}
use limulus.Dict.{Dict, get?, set, keys}
use limulus.Naming.{column_key, dataset_key}
use limulus.Syntax.Source.{SourceDocument}
use limulus.Syntax.Options.{DatasetOption, DatasetReference, SetStatementOption}
use limulus.Syntax.Statement.{
  StatementKind, keep_kind, drop_kind, by_kind, rename_kind, retain_kind, AssignmentTarget, plain,
  element, Payload, name_list, rename_statement, assign_statement, sum_statement, if_statement,
  else_statement, do_statement, array_statement, Action, inline, Statement, statement, Block,
}
use limulus.Validation.{ValidationDiagnostic, ValidationRequest, mem}
use limulus.Validation.Targets.{validate_typed_data_duplicate_targets, resolve_typed_output_targets}
use limulus.Validation.Columns.{dict_of}
use limulus.Validation.References.{
  SourceStatement, typed_source_statement, collect_internal_variable_names,
}
use limulus.Outputs.{TypedOutputTargetPlan, plan_typed_output_targets}
use limulus.Outputs.Projection.{first_of_keys, has_key}

abbrev is_keep : StatementKind → Bool
is_keep keep_kind = true
is_keep _ = false

abbrev is_drop : StatementKind → Bool
is_drop drop_kind = true
is_drop _ = false

abbrev is_by : StatementKind → Bool
is_by by_kind = true
is_by _ = false

abbrev is_rename : StatementKind → Bool
is_rename rename_kind = true
is_rename _ = false

abbrev payload_names : {F : Type 0} → Payload F → List Text
payload_names (name_list names) = map (λ n. n.0) names
payload_names _ = []

abbrev payload_pairs : {F : Type 0} → Payload F → List (Text × Text)
payload_pairs (rename_statement pairs) = pairs
payload_pairs _ = []

module _ {F : Type 0} where
  -- The names of the first statement of a kind, and the renames of the first RENAME.
  unfoldable pub typed_name_list : (StatementKind → Bool) → List (Statement F) → List Text
  typed_name_list is_kind [] = []
  typed_name_list is_kind (statement kind payload notes ∷ statements) =
      let rest = typed_name_list is_kind statements in
      if is_kind kind then payload_names payload else rest

  unfoldable pub typed_rename_pairs : List (Statement F) → List (Text × Text)
  typed_rename_pairs [] = []
  typed_rename_pairs (statement kind payload notes ∷ statements) =
      let rest = typed_rename_pairs statements in
      if is_rename kind then payload_pairs payload else rest

  unfoldable pub typed_rename_map : List (Statement F) → Dict Text
  unfolding typed_rename_pairs dict_of
  typed_rename_map statements = dict_of (typed_rename_pairs statements) []

  -- None is the ValueError for a target that the plan lacks.
  unfoldable pub typed_target_options : TypedOutputTargetPlan F → Text → Option (DatasetOption F)
  unfolding get? dataset_key
  typed_target_options plan target = get? plan.effective_output_options (dataset_key target)

pub record OutputProjectionStage : Type 0 where
  pub keep : List Text
  pub drop : List Text
  pub rename : Dict Text

module _ {F : Type 0} where
  unfoldable pub option_stage : DatasetOption F → OutputProjectionStage
  unfolding dict_of
  option_stage options = record {
    keep = options.keep_vars;
    drop = options.drop_vars;
    rename = dict_of options.rename_map [];
  }

  unfoldable pub statement_stage : List (Statement F) → OutputProjectionStage
  unfolding typed_name_list typed_rename_map
  statement_stage statements = record {
    keep = typed_name_list is_keep statements;
    drop = typed_name_list is_drop statements;
    rename = typed_rename_map statements;
  }

  -- The two stages of each target: the statements', and then its options'.
  unfoldable pub build_typed_output_lineage_projection_plan :
      Block F
      → TypedOutputTargetPlan F
      → List Text
      → Dict (List OutputProjectionStage)
      → Option (Dict (List OutputProjectionStage))
  unfolding typed_target_options option_stage statement_stage set
  build_typed_output_lineage_projection_plan block plan [] stages = some stages
  build_typed_output_lineage_projection_plan block plan (target ∷ targets) stages =
      elim (typed_target_options plan target) [
        | none ↦ none
        | some options ↦
            build_typed_output_lineage_projection_plan block plan targets
              (set stages target (statement_stage block.statements ∷ option_stage options ∷ []))
      ]

-- `[A-Za-z_][A-Za-z0-9_\.]*`
abbrev is_start : ℕ → Bool
is_start c = (leb 65 c && leb c 90) || ((leb 97 c && leb c 122) || (c == 95))

abbrev pub is_part : ℕ → Bool
is_part c = is_start c || ((leb 48 c && leb c 57) || (c == 46))

unfoldable pub is_retained_name : Text → Bool
is_retained_name [] = false
is_retained_name (c ∷ s) = is_start c && all is_part s

abbrev target_name : AssignmentTarget → Text
target_name (plain target) = target.name
target_name (element name delimiter index span) = name

abbrev pub optional : Option Text → List Text
optional none = []
optional (some n) = n ∷ []

module _ {F : Type 0} where
  -- The names that an action defines, through nested IF and ELSE.
  unfoldable pub action_names : Action F → List Text
  action_names (inline (statement kind (assign_statement target value) notes)) =
      target_name target ∷ []
  action_names (inline (statement kind (sum_statement target increment) notes)) = target.name ∷ []
  action_names
        (inline (statement kind (if_statement condition action subset then_do display) notes)) =
      action_names action
  action_names (inline (statement kind (else_statement action) notes)) = action_names action
  action_names _ = []

  unfoldable pub statement_names : Statement F → List Text
  unfolding action_names is_retained_name
  statement_names (statement kind (assign_statement target value) notes) = target_name target ∷ []
  statement_names (statement kind (sum_statement target increment) notes) = target.name ∷ []
  statement_names (statement kind (if_statement condition action subset then_do display) notes) =
      action_names action
  statement_names (statement kind (else_statement action) notes) = action_names action
  statement_names (statement kind (do_statement loop_var start end spans) notes) = optional loop_var
  statement_names (statement kind (array_statement declaration) notes) = declaration.variables
  statement_names (statement retain_kind (name_list names) notes) =
      select is_retained_name (map (λ n. n.0) names)
  statement_names _ = []

  unfoldable pub defined_names : List (Statement F) → List Text
  unfolding statement_names
  defined_names [] = []
  defined_names (s ∷ statements) = statement_names s ++ defined_names statements

unfoldable pub typed_step_defined_columns : {F : Type 0} → List (Statement F) → List Text
unfolding defined_names first_of_keys
typed_step_defined_columns statements = first_of_keys [] (defined_names statements)

-- The targets of renames whose sources are excluded are excluded too, in the order of the renames.
unfoldable pub exclude_renamed : List (Text × Text) → List Text → List Text
unfolding has_key
exclude_renamed [] excluded = excluded
exclude_renamed ((source, target) ∷ renames) excluded =
    exclude_renamed renames (if has_key excluded source then target ∷ excluded else excluded)

abbrev concatenated : List (List Text) → List Text
concatenated [] = []
concatenated (names ∷ lists) = names ++ concatenated lists

abbrev nonempty : List Text → List Text
nonempty [] = []
nonempty ([] ∷ names) = nonempty names
nonempty ((c ∷ s) ∷ names) = (c ∷ s) ∷ nonempty names

module _ {F : Type 0} where
  unfoldable pub given_in_vars : List (DatasetReference F) → List Text
  given_in_vars [] = []
  given_in_vars (r ∷ refs) = nonempty (optional r.options.in_var) ++ given_in_vars refs

  unfoldable pub source_internal_names : Option (SourceStatement F) → List Text → List Text
  unfolding given_in_vars collect_internal_variable_names
  source_internal_names none by_keys = collect_internal_variable_names [] none none by_keys
  source_internal_names (some source) by_keys =
      collect_internal_variable_names (given_in_vars source.refs) source.options.indsname_var
        source.options.end_var by_keys

  unfoldable pub source_renames : Option (SourceStatement F) → List (Text × Text)
  source_renames none = []
  source_renames (some source) = go source.refs
    where
      go : List (DatasetReference F) → List (Text × Text)
      go [] = []
      go (r ∷ refs) = r.options.rename_map ++ go refs

  unfoldable pub typed_internal_output_names :
      List (Statement F)
      → (internal_names : List (List Text)) → (additional : List Text) → List Text
  unfolding typed_source_statement typed_name_list source_internal_names exclude_renamed
      source_renames typed_rename_map
  typed_internal_output_names statements internal_names additional =
      let source = typed_source_statement statements in
      let internal =
        source_internal_names source (typed_name_list is_by statements)
        ++ concatenated internal_names in
      exclude_renamed (typed_rename_map statements)
        (exclude_renamed (source_renames source) internal)
      ++ nonempty additional

  -- None is the ValueError for a target that the plan lacks.
  unfoldable pub typed_internal_output_names_by_target :
      List Text → TypedOutputTargetPlan F → List Text → Dict (List Text) → Option (Dict (List Text))
  unfolding typed_target_options exclude_renamed set
  typed_internal_output_names_by_target base plan [] result = some result
  typed_internal_output_names_by_target base plan (target ∷ targets) result =
      elim (typed_target_options plan target) [
        | none ↦ none
        | some options ↦
            typed_internal_output_names_by_target base plan targets
              (set result target (exclude_renamed options.rename_map base))
      ]

-- Refused for duplicates, or planned for the resolved targets.
unfoldable pub plan_typed :
    {F D : Type 0}
    → (F → F → Bool)
    → (Text → Text)
    → ValidationRequest F D
    → TypedOutputTargetPlan F
unfolding validate_typed_data_duplicate_targets resolve_typed_output_targets
    plan_typed_output_targets
plan_typed same normalize_target request = elim (validate_typed_data_duplicate_targets request) [
  | diagnostic ∷ diagnostics ↦ record {
    targets = [];
    default_target = none;
    suppress_implicit_output = false;
    effective_output_options = [];
    diagnostics = diagnostic ∷ diagnostics;
  }
  | [] ↦
      plan_typed_output_targets same request.block request.source
        (resolve_typed_output_targets request.block.statements request.explicit_output_targets)
        normalize_target
]
