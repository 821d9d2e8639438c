-- ===== src/Rows/ByGroups.antt =====
-- FIRST. and LAST. flags of BY groups: `annotate_by_group_flags` of limulus/execution/rewrites.py
-- on rows, and the two flag columns that `_annotate_arrow_by_group_flags` of
-- limulus/execution/input_preparation.py computes from a column of values.
pub mod Columns
pub mod Flags
use limulus.Prelude.{
  ◌≡◌, refl, Bool, true, false, not, List, [], ◌∷◌, ◌++◌, Option, none, some, if◌then◌else◌, any,
}
use limulus.Prelude.Int.{pos}
use limulus.Text.{Text, codes}
use limulus.Dict.{set}
use limulus.Diagnostic.{Diagnostic, build_by_rows_precondition_failed}
use limulus.Value.{Scalars, Value, int, value_eq}
use limulus.Rows.Resolve.{Row, Outcome, done, failed}

abbrev pub first_name : Text → Text
first_name k = codes "FIRST." ++ k

abbrev pub last_name : Text → Text
last_name k = codes "LAST." ++ k

abbrev pub first_alias : Text → Text
first_alias k = codes "first." ++ k

abbrev pub last_alias : Text → Text
last_alias k = codes "last." ++ k

-- The names that the flags of one key take.
abbrev pub flag_names : Text → List Text
flag_names k = first_name k ∷ last_name k ∷ first_alias k ∷ last_alias k ∷ []

abbrev pub head? {ℓ} : {A : Type ℓ} → List A → Option A
head? [] = none
head? (x ∷ xs) = some x

abbrev pub is_missing : Option Text → Bool
is_missing none = true
is_missing (some _) = false

module _ {S : Scalars} where
  abbrev pub flag : Bool → Value S
  flag true = int (pos 1)
  flag false = int (pos 0)

  -- `current != neighbour`, where a missing neighbour is a fresh `object()`.
  unfoldable pub differs : Value S → Option (Value S) → Bool
  unfolding value_eq
  differs current none = true
  differs current (some neighbour) = not (value_eq current neighbour)

  -- The four writes of one row.
  unfoldable pub set_flags : Text → Bool → Bool → Row S → Row S
  unfolding set
  set_flags k first last row =
      set
        (set (set (set row (first_name k) (flag first)) (last_name k) (flag last)) (first_alias k)
          (flag first))
        (last_alias k) (flag last)

  -- `first_values` and `last_values` of the Arrow path.
  unfoldable pub first_values : Option (Value S) → List (Value S) → List Bool
  unfolding differs
  first_values previous [] = []
  first_values previous (v ∷ vs) = differs v previous ∷ first_values (some v) vs

  unfoldable pub last_values : List (Value S) → List Bool
  unfolding differs
  last_values [] = []
  last_values (v ∷ vs) = differs v (head? vs) ∷ last_values vs

module _ {S : Scalars} (resolve_value : Row S → Text → Value S) where
  abbrev pub neighbour : Text → Option (Row S) → Option (Value S)
  neighbour k none = none
  neighbour k (some row) = some (resolve_value row k)

  -- The loop over the rows for one key. The rows are changed in place, so the previous row has its
  -- flags already, and the next one has not.
  unfoldable pub annotate_key : Text → Option (Row S) → List (Row S) → List (Row S)
  unfolding set_flags differs
  annotate_key k previous [] = []
  annotate_key k previous (row ∷ rest) =
      let current = resolve_value row k in
      let flagged =
        set_flags k (differs current (neighbour k previous))
          (differs current (neighbour k (head? rest))) row in
      flagged ∷ annotate_key k (some flagged) rest

  unfoldable pub annotate_keys : List Text → List (Row S) → List (Row S)
  unfolding annotate_key
  annotate_keys [] rows = rows
  annotate_keys (k ∷ ks) rows = annotate_keys ks (annotate_key k none rows)

module _ {S : Scalars} (resolve_key : Row S → Text → Option Text) where
  -- The first key that some row lacks.
  unfoldable pub missing_key : List Text → List (Row S) → Option Text
  missing_key [] rows = none
  missing_key (k ∷ ks) rows =
      if any (λ row. is_missing (resolve_key row k)) rows then some k else missing_key ks rows

module _ {S : Scalars} (resolve_key : Row S → Text → Option Text)
    (resolve_value : Row S → Text → Value S) where
  unfoldable pub annotate_by_group_flags :
      List (Row S) → List Text → Outcome Diagnostic (List (Row S))
  unfolding annotate_keys missing_key
  annotate_by_group_flags [] by_keys = done []
  annotate_by_group_flags (row ∷ rows) [] = done (row ∷ rows)
  annotate_by_group_flags (row ∷ rows) (k ∷ ks) =
      elim (missing_key resolve_key (k ∷ ks) (row ∷ rows)) [
        | some missing ↦ failed (build_by_rows_precondition_failed missing)
        | none ↦ done (annotate_keys resolve_value (k ∷ ks) (row ∷ rows))
      ]
