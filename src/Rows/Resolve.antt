-- ===== src/Rows/Resolve.antt =====
-- Finding a column of a row: by its exact name first, then by its column key.
-- limulus/execution/rewrites.py (`resolve_row_value`) and limulus/execution/input_preparation.py
-- (`_resolve_row_key`, `_resolve_row_value`).
pub mod Laws
use limulus.Prelude.{
  ◌≡◌, refl, sym, ◌≢◌, Bool, true, false, List, [], ◌∷◌, Option, none, some, arith, Bool-cases, inl,
  inr, if◌then◌else◌, ◌⊎◌, ◌∙◌,
}
use limulus.Text.{Text, text_eq, text_eq_iff}
use limulus.Dict.{Dict, get?, set, contains, get?-set}
use limulus.Naming.{column_key}
use limulus.Value.{Scalars, Value, null}

abbrev pub Row : Scalars → Type 0
Row S = Dict (Value S)

-- What a step returns with a diagnostic: Python's `(rows, None)` and `([], diagnostic)`.
pub data Outcome {ℓ} (E : Type 0) (A : Type ℓ) : Type ℓ where
  done : A → Outcome E A
  failed : E → Outcome E A

module _ {S : Scalars} where
  -- The first value whose column has the key.
  unfoldable pub value_by_key : Row S → Text → Option (Value S)
  unfolding column_key text_eq
  value_by_key [] key = none
  value_by_key ((candidate, v) ∷ row) key =
      if text_eq (column_key candidate) key then some v else value_by_key row key

  abbrev or_null : Option (Value S) → Value S
  or_null (some v) = v
  or_null none = null

  unfoldable pub resolve_row_value : Row S → Text → Value S
  unfolding value_by_key get?
  resolve_row_value row source_name = elim (get? row source_name) [
    | some v ↦ v
    | none ↦ or_null (value_by_key row (column_key source_name))
  ]

  unfoldable pub name_by_key : Row S → Text → Option Text
  unfolding column_key text_eq
  name_by_key [] key = none
  name_by_key ((candidate, v) ∷ row) key =
      if text_eq (column_key candidate) key then some candidate else name_by_key row key

  unfoldable pub resolve_row_key : Row S → Text → Option Text
  unfolding name_by_key contains
  resolve_row_key row name =
      if contains row name then some name else name_by_key row (column_key name)

  -- The value lookup of the input preparation service, through the resolved key.
  unfoldable pub row_value_of_key : Row S → Text → Value S
  unfolding resolve_row_key get?
  row_value_of_key row name = elim (resolve_row_key row name) [
    | some resolved ↦ or_null (get? row resolved)
    | none ↦ null
  ]
