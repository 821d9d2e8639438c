-- ===== src/Planning/Helpers.antt =====
-- `RewritePlanner.build_typed_plan` of limulus/execution/rewrites.py: the helper columns of a block,
-- and who owns them.
pub mod Laws
use limulus.Prelude.{
  ℕ, Bool, true, false, not, List, [], ◌∷◌, ◌++◌, map, Option, none, some, if◌then◌else◌,
}
use limulus.Prelude.Sort.{select}
use limulus.Text.{Text, codes}
use limulus.Syntax.Expression.{Expression, Place}
use limulus.Syntax.Options.{DatasetReference, SetStatementOption}
use limulus.Syntax.Statement.{
  StatementKind, set_kind, merge_kind, by_kind, where_kind, Payload, source_statement, name_list,
  where_statement, Statement, statement, Block,
}
use limulus.Planning.Specs.{TypedLagLeadSpec, collect_typed_lag_lead_specs}
use limulus.Planning.Slots.{StatementExpressionSlot, block_expression_slots}

pub record TypedHelperPlan : Type 0 where
  pub merge_mode : Text
  pub lag_lead_mode : Text
  pub where_mode : Text
  pub helper_source_columns : List Text
  pub helper_runtime_columns : List Text
  pub lag_lead_specs : List TypedLagLeadSpec
  pub pre_evaluation_targets : List StatementExpressionSlot
  pub pre_row_filter_expression : Option Expression

-- `if name:`
abbrev given : Option Text → List Text
given (some (c ∷ s)) = (c ∷ s) ∷ []
given _ = []

-- The first SET or MERGE statement that has structure: whether it is a MERGE, and what it holds.
pub record SourceFound (F : Type 0) : Type 0 where
  pub is_merge : Bool
  pub refs : List (DatasetReference F)
  pub options : SetStatementOption

module _ {F : Type 0} where
  unfoldable pub source_found : List (Statement F) → Option (SourceFound F)
  source_found [] = none
  source_found (statement set_kind (source_statement refs options) notes ∷ statements) =
      some (record { is_merge = false; refs = refs; options = options })
  source_found (statement merge_kind (source_statement refs options) notes ∷ statements) =
      some (record { is_merge = true; refs = refs; options = options })
  source_found (_ ∷ statements) = source_found statements

  abbrev in_vars : List (DatasetReference F) → List Text
  in_vars [] = []
  in_vars (ref ∷ refs) = given ref.options.in_var ++ in_vars refs

  unfoldable pub source_columns : Option (SourceFound F) → List Text
  source_columns none = []
  source_columns (some found) =
      in_vars found.refs ++ (given found.options.indsname_var ++ given found.options.end_var)

  abbrev payload_names : Payload F → List Text
  payload_names (name_list names) = map (λ n. n.0) names
  payload_names _ = []

  -- The names of the first BY statement, none if it has no structure.
  unfoldable pub first_by_names : List (Statement F) → List Text
  first_by_names [] = []
  first_by_names (statement by_kind payload notes ∷ statements) = payload_names payload
  first_by_names (_ ∷ statements) = first_by_names statements

  unfoldable pub first_where : List (Statement F) → Option Expression
  first_where [] = none
  first_where (statement where_kind (where_statement condition) notes ∷ statements) = some condition
  first_where (_ ∷ statements) = first_where statements

  unfoldable pub has_where : List (Statement F) → Bool
  has_where [] = false
  has_where (statement where_kind payload notes ∷ statements) = true
  has_where (_ ∷ statements) = has_where statements

unfoldable pub by_flags : List Text → List Text
by_flags [] = []
by_flags (n ∷ names) = (codes "first." ++ n) ∷ (codes "last." ++ n) ∷ by_flags names

unfoldable pub source_owned : List TypedLagLeadSpec → List TypedLagLeadSpec
source_owned = select (λ s. s.is_source_owned)

unfoldable pub runtime_owned : List TypedLagLeadSpec → List TypedLagLeadSpec
runtime_owned = select (λ s. not s.is_source_owned)

abbrev pub columns_of : List TypedLagLeadSpec → List Text
columns_of = map (λ s. s.helper_column)

unfoldable pub lag_lead_mode : List TypedLagLeadSpec → List TypedLagLeadSpec → Text
lag_lead_mode (s ∷ source) runtime = codes "planner_precomputed_columns"
lag_lead_mode [] (s ∷ runtime) = codes "runtime_owned_helpers"
lag_lead_mode [] [] = codes "none"

abbrev merge_mode : {F : Type 0} → Option (SourceFound F) → Text
merge_mode none = codes "none"
merge_mode (some found) = if found.is_merge then codes "prepared_merge_rows" else codes "none"

unfoldable pub build_typed_plan : {F : Type 0} → Block F → TypedHelperPlan
unfolding block_expression_slots collect_typed_lag_lead_specs source_found source_columns
    first_by_names by_flags source_owned runtime_owned lag_lead_mode first_where has_where
build_typed_plan block =
    let found = source_found block.statements in
    let targets = block_expression_slots block in
    let specs = collect_typed_lag_lead_specs (map (λ s. s.expression) targets) in
    record {
      merge_mode = merge_mode found;
      lag_lead_mode = lag_lead_mode (source_owned specs) (runtime_owned specs);
      where_mode =
          if has_where block.statements then codes "shared_pre_row_filter" else codes "none";
      helper_source_columns =
          source_columns found
          ++ (by_flags (first_by_names block.statements) ++ columns_of (source_owned specs));
      helper_runtime_columns = columns_of (runtime_owned specs);
      lag_lead_specs = specs;
      pre_evaluation_targets = targets;
      pre_row_filter_expression = first_where block.statements;
    }
