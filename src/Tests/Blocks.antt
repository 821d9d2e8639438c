-- ===== src/Tests/Blocks.antt =====
-- A data step `data out; set a (in=ina) b; keep x; y = lag(x); if x then output out (label='L');`, its
-- validation and its plans. A data set is the list of its columns, and floats are numbers.
use limulus.Prelude.{
  ℕ, ◌+◌, ◌≡◌, ◌≢◌, refl, true, false, List, [], ◌∷◌, map, all, Option, none, some, ◌==◌,
  if◌then◌else◌, ◌↔◌,
}
use limulus.Text.{Text, codes}
use limulus.Dict.{Dict, get?, keys}
use limulus.Naming.{dataset_key, column_key}
use limulus.Syntax.Expression.{SourceSpan, Place, name, call, cons, nil}
use limulus.Syntax.Source.{SourceDocument}
use limulus.Syntax.Options.{DatasetOption, no_options, DatasetReference}
use limulus.Syntax.Statement.{
  data_kind, set_kind, keep_kind, assign_kind, if_kind, else_kind, output_kind, plain, Annotations,
  data_statement, source_statement, name_list, assign_statement, if_statement, else_statement,
  output_statement, inline, Statement, statement, Block,
}
use limulus.Syntax.Statement.Valid.{is_valid_block}
use limulus.Catalog.{resolved_candidate_inputs}
use limulus.Validation.{ValidationRequest, mem}
use limulus.Validation.Targets.{merge_unique_targets}
use limulus.Validation.Targets.Laws.{
  is_distinct, keys_of, covers, Reported, merge_unique_targets-is_distinct,
  duplicate_diagnostics-no_duplicates, no_duplicates,
}
use limulus.Validation.References.{
  SourceStatement, typed_source_statement, collect_source_columns, known, available_columns,
}
use limulus.Validation.Service.{validate_typed}
use limulus.Validation.Service.Laws.{
  all_found, all_known, candidates_of, keeps, validate_typed-inputs, validate_typed-columns,
}
use limulus.Planning.Slots.{block_expression_slots}
use limulus.Planning.Slots.Owned.{HasSlot, OneOwns, block_expression_slots-OneOwns}
use limulus.Planning.Helpers.{build_typed_plan}
use limulus.Planning.Helpers.Laws.{is_owned_once, build_typed_plan-is_owned_once}
use limulus.Outputs.{plan_typed_output_targets, output_references}
use limulus.Outputs.Laws.{declared_options, or_else, plan_typed_output_targets-get?}
use limulus.Outputs.Shaping.Origins.{OneDefines}
use limulus.Outputs.Shaping.Complete.{typed_step_defined_columns-OneDefines}
use limulus.Outputs.Projection.{
  filter_excluded_output_columns, project_output_columns, apply_type_projection,
}
use limulus.Outputs.Shaping.{typed_step_defined_columns, plan_typed}
use limulus.Outputs.Shaping.Laws.{
  is_fresh, has_all_keys, filter_excluded_output_columns-is_fresh,
  apply_type_projection-project_output_columns,
}
use limulus.Validation.Columns.{collect_typed_step_defined_columns}
use limulus.Outputs.Shaping.Defined.{collect_typed_step_defined_columns-typed_step_defined_columns}
use limulus.Outputs.Faults.{is_allowed, plan_typed_output_targets-is_allowed}

abbrev span_at : ℕ → SourceSpan
span_at a = record {
  start = a;
  end = a + 1;
  line = 1;
  column = a;
  source_id = codes "in";
  end_line = none;
  end_column = none;
}

abbrev at : ℕ → Place
at a = record { span = span_at a; origin = none }

abbrev notes_at : ℕ → Annotations
notes_at a = record {
  span = span_at a;
  apply_references = [];
  origin = none;
  legacy_display_span = none;
}

abbrev reference_at : ℕ → Text → DatasetOption ℕ → DatasetReference ℕ
reference_at a n options = record { name = n; options = options; span = span_at a }

abbrev labelled : DatasetOption ℕ
labelled = record no_options { label = some (codes "L") }

abbrev output_out : Statement ℕ
output_out =
    statement output_kind (output_statement (reference_at 41 (codes "OUT") labelled ∷ []))
      (notes_at 40)

abbrev keep_x : Statement ℕ
keep_x = statement keep_kind (name_list ((codes "x", at 21) ∷ [])) (notes_at 20)

abbrev read_a_b : Statement ℕ
read_a_b =
    statement set_kind
      (source_statement
        (reference_at 11 (codes "a") (record no_options { in_var = some (codes "ina") })
          ∷ reference_at 12 (codes "b") no_options
          ∷ [])
        (record { indsname_var = none; end_var = none }))
      (notes_at 10)

abbrev data_out : Statement ℕ
data_out =
    statement data_kind (data_statement (reference_at 1 (codes "out") no_options ∷ [])) (notes_at 0)

abbrev lagged : Statement ℕ
lagged =
    statement assign_kind
      (assign_statement (plain (record { name = codes "y"; span = span_at 30 }))
        (call (codes "lag") (cons (name (codes "x") (at 32)) nil) (at 31)))
      (notes_at 30)

abbrev output_if : Statement ℕ
output_if =
    statement if_kind
      (if_statement (name (codes "x") (at 38)) (inline output_out) false false
        (record { edits = []; span = none }))
      (notes_at 37)

abbrev step : Block ℕ
step = record {
  span = span_at 0;
  statements = data_out ∷ read_a_b ∷ keep_x ∷ lagged ∷ output_if ∷ [];
}

abbrev document : SourceDocument
document = record { text = codes "data out; ..."; source_id = codes "in" }

abbrev request : ValidationRequest ℕ (List Text)
request = record {
  block = step;
  source = document;
  explicit_inputs = (codes "A", codes "x" ∷ []) ∷ [];
  available_inputs = (codes "work.b", codes "z" ∷ []) ∷ [];
  registered_tables = [];
  explicit_output_targets = [];
}

abbrev no_synthetic : Text → Dict (List Text) → List Text
no_synthetic n inputs = []

abbrev columns : List Text → Option (List Text)
columns = some

abbrev typed_source : SourceStatement ℕ
typed_source = record {
  span = span_at 10;
  refs =
      reference_at 11 (codes "a") (record no_options { in_var = some (codes "ina") })
      ∷ reference_at 12 (codes "b") no_options
      ∷ [];
  options = record { indsname_var = none; end_var = none };
}

validate_typed_step : validate_typed no_synthetic columns request ≡ []
unfolding validate_typed
validate_typed_step = refl

typed_source_step : typed_source_statement step.statements ≡ some typed_source
unfolding typed_source_statement
typed_source_step = refl

collect_source_columns_step :
    collect_source_columns columns
      (candidates_of no_synthetic columns request typed_source)
      (span_at 10)
      document.text
      typed_source.refs
      []
      []
    ≡ known
        ((codes "A", codes "x" ∷ []) ∷ (codes "B", codes "z" ∷ []) ∷ [])
        (codes "x" ∷ codes "z" ∷ [])
unfolding collect_source_columns resolved_candidate_inputs
collect_source_columns_step = refl

merge_unique_targets-is_distinct_example :
    let merged =
      merge_unique_targets (codes "out" ∷ codes "work.OUT" ∷ []) (codes "b" ∷ codes " " ∷ []) in
    (is_distinct (keys_of merged) ≡ true)
    × (covers (keys_of merged) (codes "out" ∷ codes "work.OUT" ∷ []) ≡ true)
    × (covers (keys_of merged) (codes "b" ∷ codes " " ∷ []) ≡ true)
merge_unique_targets-is_distinct_example =
    merge_unique_targets-is_distinct (codes "out" ∷ codes "work.OUT" ∷ [])
      (codes "b" ∷ codes " " ∷ [])

merged_names :
    merge_unique_targets (codes "out" ∷ codes "work.OUT" ∷ []) (codes "b" ∷ codes " " ∷ [])
    ≡ codes "out" ∷ codes "b" ∷ []
unfolding merge_unique_targets
merged_names = refl

abbrev twice : List (Statement ℕ)
twice =
    statement data_kind
      (data_statement
        (reference_at 1 (codes "a") no_options ∷ reference_at 2 (codes "A") no_options ∷ []))
      (notes_at 0)
    ∷ []

duplicate_diagnostics-no_duplicates_example : Reported document twice
duplicate_diagnostics-no_duplicates_example = duplicate_diagnostics-no_duplicates document twice

validate_typed-inputs_example :
    (no_duplicates step.statements ≡ true)
    × ((typed : SourceStatement ℕ)
        → typed_source_statement step.statements ≡ some typed
        → (map (λ r. r.name) typed.refs ≢ [])
          × (all_found
                (candidates_of no_synthetic columns request typed)
                (map (λ r. r.name) typed.refs)
              ≡ true))
validate_typed-inputs_example =
    validate_typed-inputs no_synthetic columns request validate_typed_step

validate_typed-columns_example :
    all_known
      (available_columns request typed_source (codes "x" ∷ codes "z" ∷ []))
      ((codes "x", at 21) ∷ [])
    ≡ true
validate_typed-columns_example =
    validate_typed-columns no_synthetic columns request typed_source
      ((codes "A", codes "x" ∷ []) ∷ (codes "B", codes "z" ∷ []) ∷ []) (codes "x" ∷ codes "z" ∷ [])
      (data_out ∷ read_a_b ∷ []) (lagged ∷ output_if ∷ []) keep_x ((codes "x", at 21) ∷ [])
      validate_typed_step typed_source_step collect_source_columns_step refl
      (keeps ((codes "x", at 21) ∷ []) (notes_at 20))

step-is_valid : is_valid_block step ≡ true
unfolding is_valid_block
step-is_valid = refl

block_expression_slots-OneOwns_example :
    HasSlot (block_expression_slots step) (codes "if_condition") (name (codes "x") (at 38))
    ↔ OneOwns step.statements (codes "if_condition") (name (codes "x") (at 38))
block_expression_slots-OneOwns_example =
    block_expression_slots-OneOwns step (codes "if_condition") (name (codes "x") (at 38))

build_typed_plan-is_owned_once_example :
    all (is_owned_once (build_typed_plan step)) (build_typed_plan step).lag_lead_specs ≡ true
build_typed_plan-is_owned_once_example = build_typed_plan-is_owned_once step

columns_of_step :
    (build_typed_plan step).helper_source_columns ≡ codes "ina" ∷ codes "__rewrite_lag_x_1_1__" ∷ []
unfolding build_typed_plan
columns_of_step = refl

abbrev as_written : Text → Text
as_written n = n

plan_typed_output_targets-get?_example :
    get?
      (plan_typed_output_targets
        (λ m n. m == n)
        step
        document
        (codes "out" ∷ [])
        as_written).effective_output_options
      (codes "OUT")
    ≡ (if mem (codes "OUT") (map dataset_key (map as_written (codes "out" ∷ [])))
        then or_else (declared_options (codes "OUT") (output_references step)) (some no_options)
        else none)
plan_typed_output_targets-get?_example =
    plan_typed_output_targets-get? (λ m n. m == n) step document (codes "out" ∷ []) as_written
      (codes "OUT")

options_of_out :
    get?
      (plan_typed_output_targets
        (λ m n. m == n)
        step
        document
        (codes "out" ∷ [])
        as_written).effective_output_options
      (codes "OUT")
    ≡ some labelled
unfolding plan_typed_output_targets get?
options_of_out = refl

no_output_faults :
    (plan_typed_output_targets
      (λ m n. m == n)
      step
      document
      (codes "out" ∷ [])
      as_written).diagnostics
    ≡ []
unfolding plan_typed_output_targets
no_output_faults = refl

plan_typed_output_targets-is_allowed_example :
    all (is_allowed (map dataset_key (map as_written (codes "out" ∷ [])))) (output_references step)
    ≡ true
plan_typed_output_targets-is_allowed_example =
    plan_typed_output_targets-is_allowed (λ m n. m == n) step document (codes "out" ∷ []) as_written
      no_output_faults

abbrev output_columns : List Text
output_columns = codes "x" ∷ codes "X" ∷ codes "first.x" ∷ codes "y" ∷ []

abbrev flags : List Text
flags = codes "FIRST.x" ∷ []

filter_excluded_output_columns-is_fresh_example :
    (is_fresh
        (map column_key flags)
        (map column_key (filter_excluded_output_columns output_columns flags))
      ≡ true)
    × (has_all_keys
          (map column_key flags)
          (map column_key (filter_excluded_output_columns output_columns flags))
          output_columns
        ≡ true)
filter_excluded_output_columns-is_fresh_example =
    filter_excluded_output_columns-is_fresh output_columns flags

filtered_columns : filter_excluded_output_columns output_columns flags ≡ codes "x" ∷ codes "y" ∷ []
unfolding filter_excluded_output_columns
filtered_columns = refl

-- `if x then ...; else y = lag(x);`
abbrev else_lagged : List (Statement ℕ)
else_lagged = output_if ∷ statement else_kind (else_statement (inline lagged)) (notes_at 50) ∷ []

typed_step_defined_columns-OneDefines_example :
    (is_fresh [] (map column_key (typed_step_defined_columns else_lagged)) ≡ true)
    × (OneDefines else_lagged (codes "y")
        → mem (column_key (codes "y")) (map column_key (typed_step_defined_columns else_lagged))
          ≡ true)
    × (mem (codes "y") (typed_step_defined_columns else_lagged) ≡ true
        → OneDefines else_lagged (codes "y"))
typed_step_defined_columns-OneDefines_example =
    typed_step_defined_columns-OneDefines else_lagged (codes "y")

defined_columns : typed_step_defined_columns else_lagged ≡ codes "y" ∷ []
unfolding typed_step_defined_columns
defined_columns = refl

abbrev types : Dict Text
types = (codes "x", codes "int64") ∷ (codes "y", codes "string") ∷ []

apply_type_projection-project_output_columns_example :
    mem
      (codes "z")
      (keys (apply_type_projection types [] (codes "y" ∷ []) ((codes "X", codes "z") ∷ [])))
    ≡ mem
        (codes "z")
        (project_output_columns (keys types) [] (codes "y" ∷ []) ((codes "X", codes "z") ∷ []))
apply_type_projection-project_output_columns_example =
    apply_type_projection-project_output_columns types [] (codes "y" ∷ [])
      ((codes "X", codes "z") ∷ []) (codes "z")

projected_columns :
    project_output_columns (keys types) [] (codes "y" ∷ []) ((codes "X", codes "z") ∷ [])
    ≡ codes "z" ∷ []
unfolding project_output_columns
projected_columns = refl

planned_targets : (plan_typed (λ m n. m == n) as_written request).targets ≡ codes "out" ∷ []
unfolding plan_typed
planned_targets = refl

collect_typed_step_defined_columns-typed_step_defined_columns_example :
    has_all_keys []
      (map column_key (typed_step_defined_columns step.statements))
      (collect_typed_step_defined_columns step.statements)
    ≡ true
collect_typed_step_defined_columns-typed_step_defined_columns_example =
    collect_typed_step_defined_columns-typed_step_defined_columns step.statements refl

columns_defined :
    (collect_typed_step_defined_columns step.statements ≡ codes "y" ∷ [])
    × (typed_step_defined_columns step.statements ≡ codes "y" ∷ [])
unfolding collect_typed_step_defined_columns typed_step_defined_columns
columns_defined = (refl, refl)
