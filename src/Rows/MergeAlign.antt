-- ===== src/Rows/MergeAlign.antt =====
-- How MERGE aligns rows: by the groups of equal BY values, or by position without BY keys
-- (`prepare_merge_rows` of limulus/execution/rewrites.py, after its checks).
use limulus.Prelude.{
  ℕ, max, Bool, true, false, not, ◌&&◌, List, [], ◌∷◌, ◌++◌, map, Option, none, some, if◌then◌else◌,
  any, length, get_elem?,
}
use limulus.Prelude.Sort.{sort_by, select}
use limulus.Text.{Text, text_eq}
use limulus.Dict.{set, update, pop, keys}
use limulus.Naming.{column_key}
use limulus.Value.{Scalars, Value, value_eq, sortable_value, keys_lt}
use limulus.Rows.Resolve.{Row}
use limulus.Rows.ByGroups.{flag}
use limulus.Rows.MergeSources.{MergeSource, member}

abbrev pub MergeKey : Scalars → Type 0
MergeKey S = List (Value S)

abbrev pub Groups : Scalars → Type 0
Groups S = List (MergeKey S × List (Row S))

module _ {S : Scalars} where
  -- Equality of two tuples of values, as a `dict` compares its keys.
  unfoldable pub merge_key_eq : MergeKey S → MergeKey S → Bool
  unfolding value_eq
  merge_key_eq [] [] = true
  merge_key_eq [] (w ∷ l) = false
  merge_key_eq (v ∷ k) [] = false
  merge_key_eq (v ∷ k) (w ∷ l) = value_eq v w && merge_key_eq k l

  -- `grouped.setdefault(key, []).append(row)`
  unfoldable pub add_to_group : MergeKey S → Row S → Groups S → Groups S
  unfolding merge_key_eq
  add_to_group key row [] = (key, row ∷ []) ∷ []
  add_to_group key row ((k, rows) ∷ groups) =
      if merge_key_eq k key
      then (k, rows ++ row ∷ []) ∷ groups
      else (k, rows) ∷ add_to_group key row groups

  -- `grouped.get(key, [])`
  unfoldable pub group_of : Groups S → MergeKey S → List (Row S)
  unfolding merge_key_eq
  group_of [] key = []
  group_of ((k, rows) ∷ groups) key = if merge_key_eq k key then rows else group_of groups key

  -- The rows of one source, from the groups so far.
  unfoldable pub group_rows : (Row S → MergeKey S) → List (Row S) → Groups S → Groups S
  unfolding add_to_group
  group_rows key_of [] groups = groups
  group_rows key_of (row ∷ rows) groups =
      group_rows key_of rows (add_to_group (key_of row) row groups)

  unfoldable pub note_key : MergeKey S → List (MergeKey S) → List (MergeKey S)
  unfolding merge_key_eq
  note_key key seen = if any (λ k. merge_key_eq k key) seen then seen else seen ++ key ∷ []

  -- `merge_key_order` before it is sorted.
  unfoldable pub note_keys :
      (Row S → MergeKey S) → List (Row S) → List (MergeKey S) → List (MergeKey S)
  unfolding note_key
  note_keys key_of [] seen = seen
  note_keys key_of (row ∷ rows) seen = note_keys key_of rows (note_key (key_of row) seen)

  unfoldable pub all_merge_keys :
      (Row S → MergeKey S) → List (MergeSource S) → List (MergeKey S) → List (MergeKey S)
  unfolding note_keys
  all_merge_keys key_of [] seen = seen
  all_merge_keys key_of (s ∷ sources) seen =
      all_merge_keys key_of sources (note_keys key_of s.rows seen)

  -- As `sorted` does, if no BY value is NaN.
  unfoldable pub sort_merge_keys : List (MergeKey S) → List (MergeKey S)
  unfolding sort_by sortable_value keys_lt
  sort_merge_keys = sort_by (λ k l. keys_lt (map sortable_value k) (map sortable_value l))

  abbrev pub last? : List (Row S) → Option (Row S)
  last? [] = none
  last? (row ∷ []) = some row
  last? (row ∷ next ∷ rows) = last? (next ∷ rows)

  -- The row that a group gives to the output row at `row_index`: its own, or its last one again.
  unfoldable pub carried_row : ℕ → List (Row S) → Option (Row S)
  carried_row row_index rows = elim (get_elem? rows row_index) [
    | some row ↦ some row
    | none ↦ last? rows
  ]

  -- The loop over the sources for one output row: what each gives, in order, is written over what
  -- was there, and the names of those that give a row are noted.
  unfoldable pub combine_rows : List (Text × Option (Row S)) → Row S → List Text → Row S × List Text
  unfolding update
  combine_rows [] merged contributing = (merged, contributing)
  combine_rows ((source_name, none) ∷ parts) merged contributing =
      combine_rows parts merged contributing
  combine_rows ((source_name, some row) ∷ parts) merged contributing =
      combine_rows parts (update merged row) (contributing ++ source_name ∷ [])

  -- The IN= variables of one output row.
  unfoldable pub mark_contributors : List (Text × Option Text) → List Text → Row S → Row S
  unfolding set text_eq
  mark_contributors [] contributing row = row
  mark_contributors ((source_name, some (c ∷ s)) ∷ sources) contributing row =
      mark_contributors sources contributing
        (set row (c ∷ s) (flag (member contributing source_name)))
  mark_contributors ((source_name, _) ∷ sources) contributing row =
      mark_contributors sources contributing row

  unfoldable pub pop_names : List Text → Row S → Row S
  unfolding pop
  pop_names [] row = row
  pop_names (n ∷ names) row = pop_names names (pop row n)

  -- One BY column: other spellings of it go, and it takes the value of the key.
  unfoldable pub write_by_key : Text → Text → Value S → Row S → Row S
  unfolding pop_names column_key text_eq set
  write_by_key normalized by_key v row =
      set
        (pop_names
          (select (λ n. text_eq (column_key n) normalized && not (text_eq n by_key)) (keys row))
          row)
        by_key v

  -- The loop over `output_by_keys`, beside the given keys and the values of the merge key.
  unfoldable pub write_by_keys : List Text → List Text → MergeKey S → Row S → Row S
  unfolding write_by_key
  write_by_keys (k ∷ ks) (o ∷ os) (v ∷ vs) row =
      write_by_keys ks os vs (write_by_key (column_key k) o v row)
  write_by_keys _ _ _ row = row

  abbrev pub in_vars_of : List (MergeSource S) → List (Text × Option Text)
  in_vars_of = map (λ s. (s.source_name, s.in_var))

-- The longest of some lists, 0 of none.
abbrev pub max_length {ℓ} : {A : Type ℓ} → List (List A) → ℕ
max_length [] = 0
max_length (l ∷ ls) = max (length l) (max_length ls)
