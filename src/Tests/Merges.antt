-- ===== src/Tests/Merges.antt =====
-- MERGE on small data.
use limulus.Prelude.{
  ℕ, ◌≡◌, refl, ◌⊎◌, true, false, List, [], ◌∷◌, ◌++◌, map, Option, none, some, all, length,
}
use limulus.Prelude.Sort.{select, sum_of}
use limulus.Text.{Text, codes, text_eq}
use limulus.Dict.{Dict, get?, contains}
use limulus.Rows.Resolve.{Row, done, failed, resolve_row_key, resolve_row_value}
use limulus.Rows.ByGroups.{flag}
use limulus.Rows.ByGroups.Columns.{column, stored}
use limulus.Rows.Sources.{InputRef, load_checked}
use limulus.Rows.MergeSources.{MergeSource, member, non_key_columns, load_sources}
use limulus.Rows.MergeAlign.{
  merge_key_eq, group_of, group_rows, combine_rows, mark_contributors, carried_row,
}
use limulus.Rows.MergeRows.{Merged, key_of, prepare_merge_rows}
use limulus.Rows.MergeRows.Grouping.{group_of-group_rows}
use limulus.Rows.MergeRows.Combine.{
  last_value, names_with_row, or_else, combine_rows_lem, mark_contributors_lem,
}
use limulus.Rows.MergeRows.Result.{selected_index, map_option, carried_row-eq-selected}
use limulus.Rows.MergeRows.Count.{new_keys, keys_of_rows, most_rows, prepare_merge_rows-length}
use limulus.Rows.MergeRows.Disjoint.{is_clear, prepare_merge_rows-disjoint, load_checked-done}
use limulus.Tests.Samples.{
  integral, integral-EqualityLaws, num, left_rows, right_rows, rows_of, load_rows, inputs, refs,
  by_k, input_of,
}

group_of-group_rows_example :
    group_of (group_rows (key_of resolve_row_value by_k) left_rows []) (num 3 ∷ [])
    ≡ select (λ row. merge_key_eq (key_of resolve_row_value by_k row) (num 3 ∷ [])) left_rows
group_of-group_rows_example =
    group_of-group_rows integral-EqualityLaws (key_of resolve_row_value by_k) (num 3 ∷ []) left_rows

abbrev parts : List (Text × Option (Row integral))
parts =
    (codes "left", some ((codes "k", num 1) ∷ (codes "a", num 10) ∷ []))
    ∷ (codes "empty", none)
    ∷ (codes "right", some ((codes "k", num 2) ∷ (codes "b", num 100) ∷ []))
    ∷ []

combine_rows_example :
    (get? (combine_rows parts [] []).0 (codes "k") ≡ or_else (last_value parts (codes "k")) none)
    × ((combine_rows parts [] []).1 ≡ [] ++ names_with_row parts)
unfolding get? contains text_eq
combine_rows_example = combine_rows_lem parts [] [] (codes "k") refl

-- The later source wins, and the names are those of the parts with a row.
k_of_parts : get? (combine_rows parts [] []).0 (codes "k") ≡ some (num 2)
unfolding combine_rows get? text_eq
k_of_parts = refl

mark_contributors_example :
    get?
      (mark_contributors
        ((codes "left", none)
          ∷ (codes "right", some (codes "inr"))
          ∷ (codes "other", some (codes "ino"))
          ∷ [])
        (codes "right" ∷ [])
        ((codes "k", num 1) ∷ []))
      (codes "inr")
    ≡ some (flag (member (codes "right" ∷ []) (codes "right")))
unfolding text_eq
mark_contributors_example =
    mark_contributors_lem ((codes "left", none) ∷ []) ((codes "other", some (codes "ino")) ∷ [])
      (codes "right") b'i' (codes "nr") (codes "right" ∷ []) ((codes "k", num 1) ∷ []) refl

abbrev numbered : ℕ → Row integral
numbered i = (codes "a", num i) ∷ []

carried_row_example :
    carried_row 5 (map numbered (4 ∷ 7 ∷ [])) ≡ map_option numbered (selected_index (4 ∷ 7 ∷ []) 5)
carried_row_example = carried_row-eq-selected numbered (4 ∷ 7 ∷ []) 5

-- Two sources without a common column.
abbrev apart_inputs : Dict (InputRef (List (Row integral)))
apart_inputs =
    (codes "left", input_of (numbered 1 ∷ numbered 2 ∷ numbered 3 ∷ []))
    ∷ (codes "right", input_of (((codes "b", num 100) ∷ []) ∷ []))
    ∷ []

abbrev loaded :
    Dict (InputRef (List (Row integral))) → List Text → List (MergeSource integral) × Dict Text
loaded all_inputs by_keys =
    elim (load_sources resolve_row_key load_rows all_inputs [] by_keys refs []) [
      | done found ↦ found
      | failed d ↦ ([], [])
    ]

abbrev by_position : List (Merged integral)
by_position =
    rows_of (prepare_merge_rows load_rows resolve_row_key resolve_row_value refs [] apart_inputs [])

abbrev by_group : List (Merged integral)
by_group =
    rows_of (prepare_merge_rows load_rows resolve_row_key resolve_row_value refs by_k inputs [])

prepare_merge_rows-length_example :
    length by_group
    ≡ sum_of
        (most_rows (key_of resolve_row_value by_k) (loaded inputs by_k).0)
        (new_keys [] (keys_of_rows (key_of resolve_row_value by_k) (loaded inputs by_k).0))
unfolding prepare_merge_rows load_sources resolve_row_key resolve_row_value
prepare_merge_rows-length_example =
    prepare_merge_rows-length load_rows resolve_row_key resolve_row_value refs inputs []
      integral-EqualityLaws (loaded inputs by_k).0 (loaded inputs by_k).1 (codes "k") [] by_group
      refl refl

-- The keys 1, 2 and 3, of which 3 has two rows on the left.
columns_of_merge :
    (map (λ m. m.0) by_group
      ≡ codes "left,right" ∷ codes "right" ∷ codes "left" ∷ codes "left" ∷ [])
    × (column (codes "inr") (map (λ m. m.1) by_group) ≡ stored (true ∷ true ∷ false ∷ false ∷ []))
    × (column (codes "a") (map (λ m. m.1) by_group)
        ≡ some (num 10) ∷ none ∷ some (num 30) ∷ some (num 31) ∷ [])
unfolding prepare_merge_rows resolve_row_key resolve_row_value
columns_of_merge = (refl, refl, refl)

abbrev left_source : MergeSource integral
left_source = record { source_name = codes "left"; in_var = some (codes "inl"); rows = left_rows }

abbrev right_source : MergeSource integral
right_source = record {
  source_name = codes "right";
  in_var = some (codes "inr");
  rows = right_rows;
}

prepare_merge_rows-disjoint_example :
    member (non_key_columns by_k right_source.rows) (codes "A") ≡ false
unfolding prepare_merge_rows load_sources resolve_row_key resolve_row_value non_key_columns
prepare_merge_rows-disjoint_example =
    prepare_merge_rows-disjoint load_rows resolve_row_key resolve_row_value refs inputs [] [] [] []
      left_source right_source (loaded inputs by_k).1 by_k by_group (codes "A") refl refl refl

load_checked-done_example :
    (input : InputRef (List (Row integral))) × (get? inputs (codes "left") ≡ some input)
    × (load_rows input ≡ done left_rows)
    × ((text_eq input.preparation_kind (codes "prepared_merge") ≡ true)
        ⊎ (all (is_clear (codes "_n_" ∷ [])) left_rows ≡ true))
unfolding load_checked text_eq
load_checked-done_example =
    load_checked-done load_rows inputs (codes "_n_" ∷ [])
      (record { name = codes "left"; in_var = some (codes "inl") }) left_rows refl
