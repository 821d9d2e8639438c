-- ===== src/Rows/LagLead.antt =====
-- Helper columns for LAG, LEAD and SHIFT: `materialize_lag_lead_columns` and the functions that it
-- calls in limulus/execution/rewrites.py. A position in Python's list is an integer here, and one
-- that is negative or past the end takes the default.
pub mod Cells
pub mod Shifted
use limulus.Prelude.{
  ℕ, zero, suc, Bool, true, false, not, ◌&&◌, ◌||◌, List, [], ◌∷◌, Option, none, some,
  if◌then◌else◌, any, length, get_elem?, modify,
}
use limulus.Prelude.Int.{ℤ, pos, negsuc, ◌+ℤ◌, ◌-ℤ◌}
use limulus.Text.{Text, codes, text_eq, strip}
use limulus.Dict.{set}
use limulus.Value.{Scalars, Value}
use limulus.Rows.Resolve.{Row, resolve_row_value}

-- A spec mapping: the entries that the functions read. `is_source_owned` may be missing from it.
pub record LagLeadSpec (S : Scalars) : Type 0 where
  pub function_name : Text
  pub argument_is_string_literal : Bool
  pub source_name : Text
  pub offset : ℤ
  pub default_expr : Option Text
  pub typed_default_value : Value S
  pub helper_column : Text
  pub is_source_owned : Option Bool

abbrev null_spellings : List Text
null_spellings = codes "." ∷ codes "None" ∷ codes "none" ∷ codes "null" ∷ codes "NULL" ∷ []

module _ {S : Scalars} where
  unfoldable pub is_source_owned_lag_lead_spec : LagLeadSpec S → Bool
  unfolding strip text_eq
  is_source_owned_lag_lead_spec spec = elim spec.is_source_owned [
    | some owned ↦ owned
    | none ↦
        if text_eq spec.function_name (codes "shift") && not spec.argument_is_string_literal
        then false
        else elim spec.default_expr [
          | none ↦ true
          | some default ↦ any (text_eq (strip default)) null_spellings
        ]
  ]

  unfoldable pub target_index_for_spec : ℕ → LagLeadSpec S → ℤ
  unfolding ◌+ℤ◌ ◌-ℤ◌ text_eq
  target_index_for_spec index spec =
      if text_eq spec.function_name (codes "lag")
      then pos index -ℤ spec.offset
      else if text_eq spec.function_name (codes "lead")
      then pos index +ℤ spec.offset
      else pos index +ℤ spec.offset

  abbrev pub lag_lead_default_value : LagLeadSpec S → Value S
  lag_lead_default_value spec = spec.typed_default_value

  -- The value that one round of the inner loop writes.
  unfoldable pub cell_value : List (Row S) → ℕ → LagLeadSpec S → Value S
  unfolding target_index_for_spec resolve_row_value
  cell_value rows index spec = elim (target_index_for_spec index spec) [
    | negsuc _ ↦ lag_lead_default_value spec
    | pos target ↦ elim (get_elem? rows target) [
      | none ↦ lag_lead_default_value spec
      | some row ↦ resolve_row_value row spec.source_name
    ]
  ]

  -- `row[helper] = value`, in place.
  unfoldable pub write_cell : ℕ → LagLeadSpec S → List (Row S) → List (Row S)
  unfolding cell_value set
  write_cell index spec rows =
      modify rows index (λ row. set row spec.helper_column (cell_value rows index spec))

  unfoldable pub fill_row : ℕ → List (LagLeadSpec S) → List (Row S) → List (Row S)
  unfolding write_cell
  fill_row index [] rows = rows
  fill_row index (spec ∷ specs) rows = fill_row index specs (write_cell index spec rows)

  -- The rows from `index` on, as many as `count`.
  unfoldable pub fill_rows : ℕ → ℕ → List (LagLeadSpec S) → List (Row S) → List (Row S)
  unfolding fill_row
  fill_rows index zero specs rows = rows
  fill_rows index (suc count) specs rows =
      fill_rows (suc index) count specs (fill_row index specs rows)

  unfoldable pub owned_specs : List (LagLeadSpec S) → List (LagLeadSpec S)
  unfolding is_source_owned_lag_lead_spec
  owned_specs [] = []
  owned_specs (spec ∷ specs) =
      if is_source_owned_lag_lead_spec spec then spec ∷ owned_specs specs else owned_specs specs

  -- Without specs the rows are only copied, as `fill_rows` leaves them then.
  unfoldable pub materialize_lag_lead_columns : List (Row S) → List (LagLeadSpec S) → List (Row S)
  unfolding fill_rows owned_specs
  materialize_lag_lead_columns rows specs = elim (owned_specs specs) [
    | [] ↦ rows
    | spec ∷ rest ↦ fill_rows 0 (length rows) (spec ∷ rest) rows
  ]
