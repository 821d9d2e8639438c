-- ===== src/Tests/Rows.antt =====
-- SET, BY groups and lag helpers on small data.
use limulus.Prelude.{
  ◌≡◌, refl, true, false, List, [], ◌∷◌, map, none, some, arith, ◌⊎◌, any, length, get_elem?,
}
use limulus.Prelude.Int.{pos}
use limulus.Prelude.Sort.{IsSorted}
use mathlib.Core.List.{Perm}
use limulus.Text.{Text, codes, text_eq}
use limulus.Naming.{column_key}
use limulus.Diagnostic.{build_by_rows_precondition_failed}
use limulus.Value.{null}
use limulus.Rows.Resolve.{Row, done, failed, resolve_row_key, resolve_row_value, row_value_of_key}
use limulus.Rows.Resolve.Laws.{row_value_of_key-eq-resolve_row_value}
use limulus.Rows.ByGroups.{
  first_name, last_name, flag, first_values, last_values, annotate_by_group_flags,
}
use limulus.Rows.ByGroups.Columns.{column, stored, values, among}
use limulus.Rows.ByGroups.Flags.{
  lacks, annotate_by_group_flags-columns, annotate_by_group_flags-total,
}
use limulus.Rows.LagLead.{LagLeadSpec, owned_specs, materialize_lag_lead_columns}
use limulus.Rows.LagLead.Cells.{
  expected_cell, source_values, helper_cells, materialize_lag_lead_columns-cell,
}
use limulus.Rows.LagLead.Shifted.{
  materialize_lag_lead_columns-lag, materialize_lag_lead_columns-lead,
}
use limulus.Rows.SetRows.{Sourced, gather_rows, interleave, sourced_lt, prepare_set_rows, is_var}
use limulus.Prelude.Stable.{KeepsTies}
use limulus.Rows.SetRows.Laws.{last_only, interleave-sorts, interleave-stable, prepare_set_rows-end}
use limulus.Rows.SetRows.InVars.{prepare_set_rows-in}
use limulus.Rows.Sort.{build_row_sort_key}
use limulus.Tests.Samples.{
  integral, integral-FloatLaws, num, left_rows, rows_of, load_rows, inputs, refs, by_k,
}

abbrev flagged : List (Row integral)
flagged = rows_of (annotate_by_group_flags resolve_row_key resolve_row_value left_rows by_k)

annotate_by_group_flags-columns_example :
    (column (first_name (codes "k")) flagged
      ≡ stored (first_values none (values resolve_row_value (codes "k") left_rows)))
    × (column (last_name (codes "k")) flagged
        ≡ stored (last_values (values resolve_row_value (codes "k") left_rows)))
unfolding annotate_by_group_flags resolve_row_key resolve_row_value column_key text_eq
annotate_by_group_flags-columns_example =
    annotate_by_group_flags-columns left_rows flagged by_k (codes "k") refl refl refl

-- Keys 1, 3, 3: the first two rows begin a group.
first_of_flagged : column (first_name (codes "k")) flagged ≡ stored (true ∷ true ∷ false ∷ [])
unfolding annotate_by_group_flags resolve_row_key resolve_row_value
first_of_flagged = refl

abbrev missing_key_rows : List (Row integral)
missing_key_rows = ((codes "a", num 1) ∷ []) ∷ []

annotate_by_group_flags-total_example :
    (any (lacks (((codes "a", num 1) ∷ []) ∷ [])) by_k ≡ false)
      × ((out : List (Row integral)) × (annotate_by_group_flags resolve_row_key resolve_row_value
              missing_key_rows by_k
            ≡ done out)
          × (length out ≡ length missing_key_rows))
    ⊎ ((j : Text) × (among j by_k ≡ true)
        × (lacks missing_key_rows j ≡ true)
        × (annotate_by_group_flags resolve_row_key resolve_row_value missing_key_rows by_k
            ≡ failed (build_by_rows_precondition_failed j)))
annotate_by_group_flags-total_example =
    annotate_by_group_flags-total ((codes "a", num 1) ∷ []) [] (codes "k") []

row_value_of_key_example :
    row_value_of_key ((codes "K", num 1) ∷ []) (codes "k")
    ≡ resolve_row_value {S = integral} ((codes "K", num 1) ∷ []) (codes "k")
row_value_of_key_example =
    row_value_of_key-eq-resolve_row_value ((codes "K", num 1) ∷ []) (codes "k")

abbrev lag_spec : LagLeadSpec integral
lag_spec = record {
  function_name = codes "lag";
  argument_is_string_literal = false;
  source_name = codes "a";
  offset = pos 1;
  default_expr = none;
  typed_default_value = null;
  helper_column = codes "__rewrite_lag_a_1_1__";
  is_source_owned = some true;
}

abbrev lead_spec : LagLeadSpec integral
lead_spec = record lag_spec {
  function_name = codes "lead";
  helper_column = codes "__rewrite_lead_a_1_2__";
}

abbrev specs : List (LagLeadSpec integral)
specs = lag_spec ∷ lead_spec ∷ []

materialize_lag_lead_columns-cell_example :
    get_elem?
      (helper_cells (codes "__rewrite_lag_a_1_1__") (materialize_lag_lead_columns left_rows specs))
      1
    ≡ some (some (expected_cell (source_values (codes "a") left_rows) 1 lag_spec))
unfolding owned_specs column_key text_eq
materialize_lag_lead_columns-cell_example =
    materialize_lag_lead_columns-cell left_rows specs [] (lead_spec ∷ []) lag_spec 1 refl refl refl
      (omega arith)

lag_of_second_row : expected_cell (source_values (codes "a") left_rows) 1 lag_spec ≡ num 10
unfolding expected_cell resolve_row_value
lag_of_second_row = refl

-- The third row, after the second.
abbrev second_row : Row integral
second_row = (codes "k", num 3) ∷ (codes "a", num 30) ∷ []

materialize_lag_lead_columns-lag_example :
    get_elem?
      (helper_cells (codes "__rewrite_lag_a_1_1__") (materialize_lag_lead_columns left_rows specs))
      2
    ≡ some (some (num 30))
unfolding owned_specs column_key text_eq resolve_row_value
materialize_lag_lead_columns-lag_example =
    materialize_lag_lead_columns-lag left_rows specs [] (lead_spec ∷ []) lag_spec 1 2 second_row
      refl refl refl refl refl (omega arith) refl

materialize_lag_lead_columns-lead_example :
    get_elem?
      (helper_cells lead_spec.helper_column (materialize_lag_lead_columns left_rows specs))
      1
    ≡ some (some (num 31))
unfolding owned_specs column_key text_eq resolve_row_value
materialize_lag_lead_columns-lead_example =
    materialize_lag_lead_columns-lead left_rows specs (lag_spec ∷ []) [] lead_spec 1 1 refl refl
      refl refl refl (omega arith)

abbrev gathered : List (Sourced integral)
gathered = rows_of (gather_rows load_rows inputs [] refs)

interleave-sorts_example :
    Perm (interleave resolve_row_value by_k gathered) gathered
    × IsSorted (sourced_lt resolve_row_value by_k) (interleave resolve_row_value by_k gathered)
interleave-sorts_example =
    interleave-sorts resolve_row_value (codes "k") [] integral-FloatLaws gathered

abbrev from_left : Row integral → Sourced integral
from_left row = record { source_name = codes "left"; row = row; in_var = some (codes "inl") }

abbrev from_right : Row integral → Sourced integral
from_right row = record { source_name = codes "right"; row = row; in_var = some (codes "inr") }

-- The gathered rows by their keys 1, 1, 2, 3 and 3.
abbrev arranged : List (Sourced integral)
arranged =
    from_left ((codes "k", num 1) ∷ (codes "a", num 10) ∷ [])
    ∷ from_right ((codes "K", num 1) ∷ (codes "b", num 100) ∷ [])
    ∷ from_right ((codes "K", num 2) ∷ (codes "b", num 200) ∷ [])
    ∷ from_left ((codes "k", num 3) ∷ (codes "a", num 30) ∷ [])
    ∷ from_left ((codes "k", num 3) ∷ (codes "a", num 31) ∷ [])
    ∷ []

arranged-perm : Perm arranged gathered
unfolding interleave resolve_row_value build_row_sort_key gather_rows
arranged-perm = (interleave-sorts resolve_row_value (codes "k") [] integral-FloatLaws gathered).0

interleave-stable_example :
    (arranged ≡ interleave resolve_row_value by_k gathered)
    × KeepsTies
        (sourced_lt resolve_row_value by_k)
        (interleave resolve_row_value by_k gathered)
        gathered
unfolding resolve_row_value interleave build_row_sort_key gather_rows
interleave-stable_example =
    interleave-stable resolve_row_value (codes "k") [] integral-FloatLaws gathered arranged refl
      arranged-perm (refl, (refl, (refl, (refl, tt))))
      ((refl, (refl, (refl, (refl, (refl, tt))))), (refl, (refl, (refl, (refl, (refl, tt))))))

abbrev in_vars : List Text
in_vars = codes "inl" ∷ codes "inr" ∷ []

abbrev set_out : List (Row integral)
set_out = rows_of (
    prepare_set_rows load_rows resolve_row_key resolve_row_value refs by_k in_vars none
      (some (codes "eof")) inputs [])

prepare_set_rows-end_example :
    (items : List (Sourced integral)) × (gather_rows load_rows inputs [] refs ≡ done items)
    × (column (codes "eof") set_out ≡ stored (last_only (interleave resolve_row_value by_k items)))
unfolding prepare_set_rows resolve_row_key resolve_row_value text_eq
prepare_set_rows-end_example =
    prepare_set_rows-end load_rows resolve_row_key resolve_row_value refs by_k in_vars none inputs
      [] b'e' (codes "of") set_out refl refl

end_of_set : column (codes "eof") set_out ≡ stored (false ∷ false ∷ false ∷ false ∷ true ∷ [])
unfolding prepare_set_rows resolve_row_key resolve_row_value
end_of_set = refl

prepare_set_rows-in_example :
    column (codes "inr") set_out
    ≡ map
        (λ item. some (flag (is_var item.in_var (codes "inr"))))
        (interleave resolve_row_value by_k gathered)
unfolding prepare_set_rows resolve_row_key resolve_row_value text_eq
prepare_set_rows-in_example =
    prepare_set_rows-in load_rows resolve_row_key resolve_row_value refs by_k in_vars none
      (some (codes "eof")) inputs [] (codes "inr") gathered set_out refl refl refl refl refl refl
      refl

-- The keys 1, 1, 2, 3, 3 in order, with the rows of `left` first where they are equal.
in_of_set : column (codes "inr") set_out ≡ stored (false ∷ true ∷ true ∷ false ∷ false ∷ [])
unfolding prepare_set_rows resolve_row_key resolve_row_value
in_of_set = refl
