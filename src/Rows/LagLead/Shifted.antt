-- ===== src/Rows/LagLead/Shifted.antt =====
-- What the helper columns of LAG, LEAD and SHIFT hold after `materialize_lag_lead_columns`.
use limulus.Prelude.{
  ℕ, ◌+◌, ◌-◌, ◌<◌, ◌≡◌, ap, ◌∙◌, true, false, List, ◌∷◌, ◌++◌, some, arith, if◌then◌else◌, length,
  get_elem?, get_elem?-map, ltb, get_or,
}
use limulus.Prelude.Int.{pos, ◌+ℤ◌, ◌-ℤ◌}
use limulus.Text.{codes, text_eq}
use limulus.Value.{Scalars, Value}
use limulus.Rows.Resolve.{Row, resolve_row_value}
use limulus.Rows.LagLead.{LagLeadSpec, owned_specs, materialize_lag_lead_columns}
use limulus.Rows.LagLead.Cells.{
  source_values, helper_cells, leaves_source, leaves_column, expected_cell,
  materialize_lag_lead_columns-cell,
}

module _ {S : Scalars} where
  expected_cell-lag :
      (sources : List (Value S)) (s : LagLeadSpec S) (n index : ℕ) (v : Value S)
      → text_eq s.function_name (codes "lag") ≡ true
      → s.offset ≡ pos n
      → get_elem? sources (index - n) ≡ some v
      → expected_cell sources index s ≡ (if ltb index n then s.typed_default_value else v)
  unfolding expected_cell ◌-ℤ◌
  expected_cell-lag sources s n index v f o h = ground arith

  expected_cell-lead :
      (sources : List (Value S)) (s : LagLeadSpec S) (n index : ℕ)
      → text_eq s.function_name (codes "lag") ≡ false
      → s.offset ≡ pos n
      → expected_cell sources index s ≡ get_or (get_elem? sources (index + n)) s.typed_default_value
  unfolding expected_cell ◌+ℤ◌
  expected_cell-lead sources s n index f o = ground arith

  -- After `materialize_lag_lead_columns` the helper column of a source-owned LAG by `n` holds the default
  -- in the first `n` rows, and in a later row the value that the source column had `n` rows before,
  -- before the helper columns were written. The source column is not a helper column of a spec,
  -- and no later source-owned spec writes the same helper column.
  pub materialize_lag_lead_columns-lag :
      (rows : List (Row S)) (specs before after : List (LagLeadSpec S)) (s : LagLeadSpec S)
      (n index : ℕ) (row : Row S)
      → owned_specs specs ≡ before ++ s ∷ after
      → leaves_source (before ++ s ∷ after) s.source_name ≡ true
      → leaves_column after s.helper_column ≡ true
      → text_eq s.function_name (codes "lag") ≡ true
      → s.offset ≡ pos n
      → index < length rows
      → get_elem? rows (index - n) ≡ some row
      → get_elem? (helper_cells s.helper_column (materialize_lag_lead_columns rows specs)) index
        ≡ some (
            some
              (if ltb index n then s.typed_default_value else resolve_row_value row s.source_name))
  materialize_lag_lead_columns-lag rows specs before after s n index row e apart last f o inside h =
      materialize_lag_lead_columns-cell rows specs before after s index e apart last inside
      ∙ ap (λ v. some (some v))
          (expected_cell-lag (source_values s.source_name rows) s n index _ f o
            (get_elem?-map (λ r. resolve_row_value r s.source_name) rows (index - n) h))

  -- After `materialize_lag_lead_columns` the helper column of a source-owned spec that is not LAG, so of
  -- LEAD or SHIFT, by `n` holds in a row the value that the source column had `n` rows later, before
  -- the helper columns were written, and the default where there is no such row. The source column
  -- is not a helper column of a spec, and no later source-owned spec writes the same helper
  -- column.
  pub materialize_lag_lead_columns-lead :
      (rows : List (Row S)) (specs before after : List (LagLeadSpec S)) (s : LagLeadSpec S)
      (n index : ℕ)
      → owned_specs specs ≡ before ++ s ∷ after
      → leaves_source (before ++ s ∷ after) s.source_name ≡ true
      → leaves_column after s.helper_column ≡ true
      → text_eq s.function_name (codes "lag") ≡ false
      → s.offset ≡ pos n
      → index < length rows
      → get_elem? (helper_cells s.helper_column (materialize_lag_lead_columns rows specs)) index
        ≡ some (
            some (
              get_or
                (get_elem? (source_values s.source_name rows) (index + n))
                s.typed_default_value))
  materialize_lag_lead_columns-lead rows specs before after s n index e apart last f o inside =
      materialize_lag_lead_columns-cell rows specs before after s index e apart last inside
      ∙ ap (λ v. some (some v))
          (expected_cell-lead (source_values s.source_name rows) s n index f o)
