-- ===== src/Rows/MergeRows.antt =====
-- `prepare_merge_rows` of limulus/execution/rewrites.py as a whole: load and check the sources,
-- align their rows by position or by BY groups, and flag the BY groups of the result.
pub mod Grouping
pub mod Combine
pub mod Result
pub mod Position
pub mod Count
pub mod Disjoint
use limulus.Prelude.{
  ℕ, zero, suc, Bool, true, false, List, [], ◌∷◌, ◌++◌, map, Option, none, some, if◌then◌else◌,
  get_elem?, get_or,
}
use limulus.Text.{Text, codes}
use limulus.Dict.{Dict, get?}
use limulus.Naming.{column_key}
use limulus.Diagnostic.{Diagnostic}
use limulus.Value.{Scalars, Value}
use limulus.Rows.Resolve.{Row, Outcome, done, failed}
use limulus.Rows.ByGroups.{annotate_by_group_flags}
use limulus.Rows.Sources.{SourceRef, InputRef, ◌>>=◌}
use limulus.Rows.MergeSources.{MergeSource, load_sources, check_duplicates, join}
use limulus.Rows.MergeAlign.{
  MergeKey, Groups, group_of, group_rows, all_merge_keys, sort_merge_keys, carried_row,
  combine_rows, mark_contributors, write_by_keys, in_vars_of, max_length,
}

-- An output row with the names of the sources that contribute to it, joined by commas.
abbrev pub Merged : Scalars → Type 0
Merged S = Text × Row S

module _ {S : Scalars} where
  -- Without BY keys: the output row at one position.
  unfoldable pub ordinal_row : List (MergeSource S) → ℕ → Merged S
  unfolding combine_rows mark_contributors join
  ordinal_row sources row_index =
      let (merged, contributing) =
        combine_rows (map (λ s. (s.source_name, get_elem? s.rows row_index)) sources) [] [] in
      (join (codes ",") contributing, mark_contributors (in_vars_of sources) contributing merged)

  -- `count` output rows from the position `row_index` on.
  unfoldable pub ordinal_rows : List (MergeSource S) → ℕ → ℕ → List (Merged S)
  unfolding ordinal_row
  ordinal_rows sources row_index zero = []
  ordinal_rows sources row_index (suc count) =
      ordinal_row sources row_index ∷ ordinal_rows sources (suc row_index) count

  -- Each source stands beside its groups.
  abbrev pub key_parts :
      List (MergeSource S × Groups S) → MergeKey S → ℕ → List (Text × Option (Row S))
  key_parts grouped key row_index =
      map (λ g. (g.0.source_name, carried_row row_index (group_of g.1 key))) grouped

  -- With BY keys: the output row at one position of the group of a key.
  unfoldable pub key_row :
      List Text → List Text → List (MergeSource S × Groups S) → MergeKey S → ℕ → Merged S
  unfolding combine_rows mark_contributors write_by_keys group_of carried_row join
  key_row by_keys output_by_keys grouped key row_index =
      let (merged, contributing) = combine_rows (key_parts grouped key row_index) [] [] in
      (
        join (codes ",") contributing,
        mark_contributors (in_vars_of (map (λ g. g.0) grouped)) contributing
            (write_by_keys by_keys output_by_keys key merged),
      )

  unfoldable pub key_rows :
      List Text → List Text → List (MergeSource S × Groups S) → MergeKey S → ℕ → ℕ → List (Merged S)
  unfolding key_row
  key_rows by_keys output_by_keys grouped key row_index zero = []
  key_rows by_keys output_by_keys grouped key row_index (suc count) =
      key_row by_keys output_by_keys grouped key row_index
      ∷ key_rows by_keys output_by_keys grouped key (suc row_index) count

  -- `max_group_length`
  abbrev pub group_length : List (MergeSource S × Groups S) → MergeKey S → ℕ
  group_length grouped key = max_length (map (λ g. group_of g.1 key) grouped)

  unfoldable pub merge_keys_rows :
      List Text → List Text → List (MergeSource S × Groups S) → List (MergeKey S) → List (Merged S)
  unfolding key_rows group_of
  merge_keys_rows by_keys output_by_keys grouped [] = []
  merge_keys_rows by_keys output_by_keys grouped (key ∷ merge_keys) =
      key_rows by_keys output_by_keys grouped key 0 (group_length grouped key)
      ++ merge_keys_rows by_keys output_by_keys grouped merge_keys

  unfoldable pub merge_by_position : List (MergeSource S) → List (Merged S)
  unfolding ordinal_rows
  merge_by_position sources = ordinal_rows sources 0 (max_length (map (λ s. s.rows) sources))

module _ {S : Scalars} (resolve_value : Row S → Text → Value S) where
  abbrev pub key_of : List Text → Row S → MergeKey S
  key_of by_keys row = map (resolve_value row) by_keys

  unfoldable pub group_sources : List Text → List (MergeSource S) → List (MergeSource S × Groups S)
  unfolding group_rows
  group_sources by_keys = map (λ s. (s, group_rows (key_of by_keys) s.rows []))

  -- The loop over the sorted keys.
  unfoldable pub merge_by_keys : List Text → Dict Text → List (MergeSource S) → List (Merged S)
  unfolding group_sources all_merge_keys sort_merge_keys merge_keys_rows column_key get?
  merge_by_keys by_keys canonical sources =
      merge_keys_rows by_keys (map (λ k. get_or (get? canonical (column_key k)) k) by_keys)
        (group_sources by_keys sources)
        (sort_merge_keys (all_merge_keys (key_of by_keys) sources []))

-- `zip` of the source names and the annotated rows.
abbrev pub zip_rows : {S : Scalars} → List (Merged S) → List (Row S) → List (Merged S)
zip_rows (m ∷ merged) (row ∷ rows) = (m.0, row) ∷ zip_rows merged rows
zip_rows _ _ = []

module _ {S : Scalars} (resolve_key : Row S → Text → Option Text)
    (resolve_value : Row S → Text → Value S) where
  -- What follows the checks.
  unfoldable pub finish_merge :
      List Text → Dict Text → List (MergeSource S) → Outcome Diagnostic (List (Merged S))
  unfolding merge_by_position merge_by_keys annotate_by_group_flags
  finish_merge [] canonical sources = done (merge_by_position sources)
  finish_merge (k ∷ ks) canonical sources =
      let merged = merge_by_keys resolve_value (k ∷ ks) canonical sources in
      annotate_by_group_flags resolve_key resolve_value (map (λ m. m.1) merged) (k ∷ ks) >>= λ rows.
      done (zip_rows merged rows)

module _ {S : Scalars} {H : Type 0} (load : InputRef H → Outcome Diagnostic (List (Row S)))
    (resolve_key : Row S → Text → Option Text) (resolve_value : Row S → Text → Value S) where
  unfoldable pub prepare_merge_rows :
      List SourceRef
      → List Text
      → Dict (InputRef H)
      → List Text
      → Outcome Diagnostic (List (Merged S))
  unfolding load_sources check_duplicates finish_merge
  prepare_merge_rows refs by_keys resolved_inputs names =
      load_sources resolve_key load resolved_inputs names by_keys refs [] >>= λ loaded.
      check_duplicates by_keys loaded.0 >>= λ _.
      finish_merge resolve_key resolve_value by_keys loaded.1 loaded.0
