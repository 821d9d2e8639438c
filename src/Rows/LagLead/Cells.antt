-- ===== src/Rows/LagLead/Cells.antt =====
-- What stands in the helper columns after `materialize_lag_lead_columns`.
use limulus.Prelude.{
  ℕ, zero, suc, ◌+◌, ◌<◌, ◌≤◌, ◌≡◌, refl, ap, ◌∙◌, ◌≢◌, Bool, true, not, List, [], ◌∷◌, ◌++◌, map,
  Option, none, some, arith, inl, inr, all, length, Option-cases, get_elem?, get_elem?-map,
  get_elem?-map-none, map-modify, get_elem?-map-modify_ne, get_elem?-map-modify_self, length-modify,
}
use native.Mathlib.Decide.{ℕ_discrete}
use limulus.Prelude.Int.{ℤ, pos, negsuc}
use limulus.Text.{Text, text_eq, ne_of_text_eq}
use limulus.Dict.{get?, get?-set_self, get?-set_ne}
use limulus.Naming.{column_key}
use limulus.Value.{Scalars, Value}
use limulus.Rows.Resolve.{Row, resolve_row_value}
use limulus.Rows.Resolve.Laws.{resolve_row_value-set_ne}
use limulus.Rows.LagLead.{
  LagLeadSpec, target_index_for_spec, cell_value, write_cell, fill_row, fill_rows, owned_specs,
  materialize_lag_lead_columns,
}

module _ {S : Scalars} where
  abbrev pub source_values : Text → List (Row S) → List (Value S)
  source_values n = map (λ row. resolve_row_value row n)

  abbrev pub helper_cells : Text → List (Row S) → List (Option (Value S))
  helper_cells n = map (λ row. get? row n)

  -- No spec writes a column under the key of `n`.
  abbrev pub leaves_source : List (LagLeadSpec S) → Text → Bool
  leaves_source specs n = all (λ s. not (text_eq (column_key s.helper_column) (column_key n))) specs

  -- No spec writes the column `n`.
  abbrev pub leaves_column : List (LagLeadSpec S) → Text → Bool
  leaves_column specs n = all (λ s. not (text_eq s.helper_column n)) specs

  -- The value of the source column in the row that the spec points to, or the default.
  unfoldable pub expected_cell : List (Value S) → ℕ → LagLeadSpec S → Value S
  unfolding target_index_for_spec
  expected_cell sources index spec = elim (target_index_for_spec index spec) [
    | negsuc _ ↦ spec.typed_default_value
    | pos target ↦ elim (get_elem? sources target) [ none ↦ spec.typed_default_value | some v ↦ v ]
  ]

  cell_value-eq-expected :
      (rows : List (Row S)) (i : ℕ) (s : LagLeadSpec S)
      → cell_value rows i s ≡ expected_cell (source_values s.source_name rows) i s
  unfolding cell_value expected_cell
  cell_value-eq-expected rows i s = at (target_index_for_spec i s) refl
    where
      at :
          (t : ℤ)
          → target_index_for_spec i s ≡ t
          → cell_value rows i s ≡ expected_cell (source_values s.source_name rows) i s
      at (negsuc t) e = ground arith
      at (pos t) e = elim (Option-cases (get_elem? rows t)) [
        | inl past ↦
            ground
              (arith, get_elem?-map-none (λ row. resolve_row_value row s.source_name) rows t past)
        | inr (row, there) ↦
            ground (arith, get_elem?-map (λ row. resolve_row_value row s.source_name) rows t there)
      ]

  source_values-fill_row :
      (specs : List (LagLeadSpec S)) (i : ℕ) (n : Text) (rows : List (Row S))
      → leaves_source specs n ≡ true
      → source_values n (fill_row i specs rows) ≡ source_values n rows
  unfolding fill_row
  source_values-fill_row [] i n rows h = refl
  source_values-fill_row (s ∷ specs) i n rows h =
      source_values-fill_row specs i n (write_cell i s rows) (ground arith)
      ∙ unfold write_cell in
        map-modify (λ row. resolve_row_value row n) rows i _
          (λ row. resolve_row_value-set_ne row s.helper_column n _ (ground arith))

  length-fill_row :
      (specs : List (LagLeadSpec S)) (i : ℕ) (rows : List (Row S))
      → length (fill_row i specs rows) ≡ length rows
  unfolding fill_row
  length-fill_row [] i rows = refl
  length-fill_row (s ∷ specs) i rows =
      length-fill_row specs i (write_cell i s rows) ∙ unfold write_cell in length-modify rows i _

  -- A row that is not being filled keeps its cells.
  helper_cells-fill_row_ne :
      (specs : List (LagLeadSpec S)) (i j : ℕ) (n : Text) (rows : List (Row S))
      → i ≢ j
      → get_elem? (helper_cells n (fill_row i specs rows)) j ≡ get_elem? (helper_cells n rows) j
  unfolding fill_row
  helper_cells-fill_row_ne [] i j n rows h = refl
  helper_cells-fill_row_ne (s ∷ specs) i j n rows h =
      helper_cells-fill_row_ne specs i j n (write_cell i s rows) h
      ∙ unfold write_cell in get_elem?-map-modify_ne (λ row. get? row n) rows i j _ h

  helper_cells-fill_row_other :
      (specs : List (LagLeadSpec S)) (i : ℕ) (n : Text) (rows : List (Row S))
      → leaves_column specs n ≡ true
      → helper_cells n (fill_row i specs rows) ≡ helper_cells n rows
  unfolding fill_row
  helper_cells-fill_row_other [] i n rows h = refl
  helper_cells-fill_row_other (s ∷ specs) i n rows h =
      helper_cells-fill_row_other specs i n (write_cell i s rows) (ground arith)
      ∙ unfold write_cell in
        map-modify (λ row. get? row n) rows i _
          (λ row. get?-set_ne row s.helper_column n _ (ne_of_text_eq _ _ (ground arith)))

  -- The filled row holds the expected value for a spec whose column no later spec writes.
  helper_cells-fill_row_self :
      (before after : List (LagLeadSpec S)) (s : LagLeadSpec S) (i : ℕ) (rows : List (Row S))
      → leaves_source (before ++ s ∷ after) s.source_name ≡ true
      → leaves_column after s.helper_column ≡ true
      → i < length rows
      → get_elem? (helper_cells s.helper_column (fill_row i (before ++ s ∷ after) rows)) i
        ≡ some (some (expected_cell (source_values s.source_name rows) i s))
  unfolding fill_row
  helper_cells-fill_row_self [] after s i rows apart last h =
      rw (helper_cells-fill_row_other after i s.helper_column (write_cell i s rows) last) (
        unfold write_cell in
        get_elem?-map-modify_self (λ row. get? row s.helper_column) rows i _ h
          (λ row. get?-set_self row s.helper_column _ ∙ ap some (cell_value-eq-expected rows i s)))
  helper_cells-fill_row_self (t ∷ before) after s i rows apart last h =
      let same : source_values s.source_name (write_cell i t rows)
          ≡ source_values s.source_name rows =
        source_values-fill_row (t ∷ []) i s.source_name rows (ground arith) in
      let size : length (write_cell i t rows) ≡ length rows = length-fill_row (t ∷ []) i rows in
      rw same at (
        helper_cells-fill_row_self before after s i (write_cell i t rows) (ground arith) last
          (omega (arith, size)))

  -- The rows before the first filled one keep their cells.
  helper_cells-fill_rows_below :
      (count k j : ℕ) (specs : List (LagLeadSpec S)) (n : Text) (rows : List (Row S))
      → j < k
      → get_elem? (helper_cells n (fill_rows k count specs rows)) j
        ≡ get_elem? (helper_cells n rows) j
  unfolding fill_rows
  helper_cells-fill_rows_below zero k j specs n rows h = refl
  helper_cells-fill_rows_below (suc count) k j specs n rows h =
      helper_cells-fill_rows_below count (suc k) j specs n (fill_row k specs rows) (omega arith)
      ∙ helper_cells-fill_row_ne specs k j n rows (omega arith)

  helper_cells-fill_rows :
      (count k j : ℕ) (before after : List (LagLeadSpec S)) (s : LagLeadSpec S)
      (rows : List (Row S))
      → leaves_source (before ++ s ∷ after) s.source_name ≡ true
      → leaves_column after s.helper_column ≡ true
      → k ≤ j
      → j < k + count
      → j < length rows
      → get_elem? (helper_cells s.helper_column (fill_rows k count (before ++ s ∷ after) rows)) j
        ≡ some (some (expected_cell (source_values s.source_name rows) j s))
  unfolding fill_rows
  helper_cells-fill_rows zero k j before after s rows apart last low high inside =
      absurd (omega arith)
  helper_cells-fill_rows (suc count) k j before after s rows apart last low high inside =
      let specs = before ++ s ∷ after in
      let same : source_values s.source_name (fill_row k specs rows)
          ≡ source_values s.source_name rows =
        source_values-fill_row specs k s.source_name rows apart in
      elim (ℕ_discrete k j) [
        | yes here ↦
            helper_cells-fill_rows_below count (suc k) j specs s.helper_column
              (fill_row k specs rows) (omega arith)
            ∙ rw here (helper_cells-fill_row_self before after s j rows apart last inside)
        | no later ↦ rw same at (
            helper_cells-fill_rows count (suc k) j before after s (fill_row k specs rows) apart last
              (omega arith) (omega arith) (omega (arith, length-fill_row specs k rows)))
      ]

  length-fill_rows :
      (count k : ℕ) (specs : List (LagLeadSpec S)) (rows : List (Row S))
      → length (fill_rows k count specs rows) ≡ length rows
  unfolding fill_rows
  length-fill_rows zero k specs rows = refl
  length-fill_rows (suc count) k specs rows =
      length-fill_rows count (suc k) specs (fill_row k specs rows) ∙ length-fill_row specs k rows

  materialize-fill_rows :
      (rows : List (Row S)) (specs : List (LagLeadSpec S)) (s : LagLeadSpec S)
      (before after : List (LagLeadSpec S))
      → owned_specs specs ≡ before ++ s ∷ after
      → materialize_lag_lead_columns rows specs
        ≡ fill_rows 0 (length rows) (before ++ s ∷ after) rows
  unfolding materialize_lag_lead_columns
  materialize-fill_rows rows specs s [] after e = ground arith
  materialize-fill_rows rows specs s (t ∷ before) after e = ground arith

  -- After `materialize_lag_lead_columns` every row holds, in the helper column of a source-owned spec,
  -- the value of the source column in the row that the spec points to, and the default of the spec
  -- where that row is before the first or behind the last one. The source column is not a helper
  -- column of a spec, and no later source-owned spec writes the same helper column.
  pub materialize_lag_lead_columns-cell :
      (rows : List (Row S)) (specs before after : List (LagLeadSpec S)) (s : LagLeadSpec S)
      (index : ℕ)
      → owned_specs specs ≡ before ++ s ∷ after
      → leaves_source (before ++ s ∷ after) s.source_name ≡ true
      → leaves_column after s.helper_column ≡ true
      → index < length rows
      → get_elem? (helper_cells s.helper_column (materialize_lag_lead_columns rows specs)) index
        ≡ some (some (expected_cell (source_values s.source_name rows) index s))
  materialize_lag_lead_columns-cell rows specs before after s index e apart last inside =
      rw (materialize-fill_rows rows specs s before after e) (
        helper_cells-fill_rows (length rows) 0 index before after s rows apart last (omega arith)
          (omega arith) inside)
