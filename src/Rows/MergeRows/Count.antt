-- ===== src/Rows/MergeRows/Count.antt =====
-- A MERGE with BY keys: how many rows it returns.
use limulus.Prelude.{ℕ, ◌≡◌, refl, ap, ◌∙◌, List, [], ◌∷◌, map, Option, length}
use limulus.Prelude.Sort.{sum_of}
use limulus.Text.{Text}
use limulus.Dict.{Dict}
use limulus.Diagnostic.{Diagnostic}
use limulus.Value.{Scalars, Value}
use limulus.Rows.Resolve.{Row, Outcome, done}
use limulus.Rows.Sources.{SourceRef, InputRef}
use limulus.Rows.MergeSources.{MergeSource, load_sources}
use limulus.Rows.MergeAlign.{MergeKey, max_length, sort_merge_keys, all_merge_keys}
use limulus.Rows.MergeRows.{
  Merged, group_length, group_sources, key_of, merge_by_keys, prepare_merge_rows,
}
use limulus.Rows.MergeRows.Result.{checked, finish_merge-length, length-merge_keys_rows}
use limulus.Rows.MergeRows.Grouping.{EqualityLaws, group_of-group_rows}
use limulus.Rows.MergeAlign.{merge_key_eq, note_keys, note_key}
use limulus.Prelude.Sort.{sum_of, sum_of-sort_by, sum_of-same, select}
use limulus.Prelude.{any, ◌++◌, if◌then◌else◌, Bool-cases, inl, inr, sym}
use mathlib.Core.List.{append_assoc, append-nil}

-- The keys that equal none of the seen ones and none before them.
unfoldable pub new_keys : {S : Scalars} → (seen merge_keys : List (MergeKey S)) → List (MergeKey S)
unfolding merge_key_eq
new_keys seen [] = []
new_keys seen (key ∷ merge_keys) =
    let rest = new_keys (seen ++ key ∷ []) merge_keys in
    if any (λ k. merge_key_eq k key) seen then new_keys seen merge_keys else key ∷ rest

module _ {S : Scalars} (key_of_row : Row S → MergeKey S) where
  -- The keys of the rows of all sources, in order.
  abbrev pub keys_of_rows : List (MergeSource S) → List (MergeKey S)
  keys_of_rows [] = []
  keys_of_rows (s ∷ sources) = map key_of_row s.rows ++ keys_of_rows sources

  -- The most rows with BY values equal to the key that a source has.
  abbrev pub most_rows : List (MergeSource S) → MergeKey S → ℕ
  most_rows sources key =
      max_length (map (λ s. select (λ row. merge_key_eq (key_of_row row) key) s.rows) sources)

  note_keys-new_keys :
      (rows : List (Row S)) (seen rest : List (MergeKey S))
      → seen ++ new_keys seen (map key_of_row rows ++ rest)
        ≡ note_keys key_of_row rows seen ++ new_keys (note_keys key_of_row rows seen) rest
  unfolding note_keys note_key new_keys
  note_keys-new_keys [] seen rest = refl
  note_keys-new_keys (row ∷ rows) seen rest =
      elim (Bool-cases (any (λ k. merge_key_eq k (key_of_row row)) seen)) [
        | inl known ↦ rw known (note_keys-new_keys rows seen rest)
        | inr fresh ↦ rw fresh (
            sym (
              append_assoc seen (key_of_row row ∷ [])
                (new_keys (seen ++ key_of_row row ∷ []) (map key_of_row rows ++ rest)))
            ∙ note_keys-new_keys rows (seen ++ key_of_row row ∷ []) rest)
      ]

  all_merge_keys-new_keys :
      (sources : List (MergeSource S)) (seen : List (MergeKey S))
      → all_merge_keys key_of_row sources seen ≡ seen ++ new_keys seen (keys_of_rows sources)
  unfolding all_merge_keys
  all_merge_keys-new_keys [] seen = unfold new_keys in sym (append-nil seen)
  all_merge_keys-new_keys (s ∷ sources) seen =
      all_merge_keys-new_keys sources (note_keys key_of_row s.rows seen)
      ∙ sym (note_keys-new_keys s.rows seen (keys_of_rows sources))

module _ {S : Scalars} (laws : EqualityLaws S) (resolve_value : Row S → Text → Value S)
    (by_keys : List Text) where
  group_length-most_rows :
      (sources : List (MergeSource S)) (key : MergeKey S)
      → group_length (group_sources resolve_value by_keys sources) key
        ≡ most_rows (key_of resolve_value by_keys) sources key
  unfolding group_sources
  group_length-most_rows [] key = refl
  group_length-most_rows (s ∷ sources) key =
      rw
        (
          group_of-group_rows laws (key_of resolve_value by_keys) key s.rows,
          group_length-most_rows sources key,
        )
        refl

  length-merge_by_keys :
      (canonical : Dict Text) (sources : List (MergeSource S))
      → length (merge_by_keys resolve_value by_keys canonical sources)
        ≡ sum_of
            (most_rows (key_of resolve_value by_keys) sources)
            (new_keys [] (keys_of_rows (key_of resolve_value by_keys) sources))
  unfolding merge_by_keys sort_merge_keys
  length-merge_by_keys canonical sources =
      length-merge_keys_rows by_keys _ (group_sources resolve_value by_keys sources) _
      ∙ sum_of-sort_by _ (group_length (group_sources resolve_value by_keys sources)) _
      ∙ ap (sum_of (group_length (group_sources resolve_value by_keys sources)))
          (all_merge_keys-new_keys (key_of resolve_value by_keys) sources [])
      ∙ sum_of-same (group_length (group_sources resolve_value by_keys sources))
          (most_rows (key_of resolve_value by_keys) sources) (group_length-most_rows sources)
          (new_keys [] (keys_of_rows (key_of resolve_value by_keys) sources))

module _ {S : Scalars} {H : Type 0} (load : InputRef H → Outcome Diagnostic (List (Row S)))
    (resolve_key : Row S → Text → Option Text) (resolve_value : Row S → Text → Value S)
    (refs : List SourceRef) (inputs : Dict (InputRef H)) (names : List Text) (laws : EqualityLaws S)
    (sources : List (MergeSource S)) (canonical : Dict Text) where
  -- A MERGE with BY keys returns, for each of the different BY values of the rows of its sources, as
  -- many rows as the source has that has the most rows of these BY values. Equality of values is
  -- symmetric and transitive.
  pub prepare_merge_rows-length :
      (k : Text) (ks : List Text) (out : List (Merged S))
      → load_sources resolve_key load inputs names (k ∷ ks) refs [] ≡ done (sources, canonical)
      → prepare_merge_rows load resolve_key resolve_value refs (k ∷ ks) inputs names ≡ done out
      → length out
        ≡ sum_of
            (most_rows (key_of resolve_value (k ∷ ks)) sources)
            (new_keys [] (keys_of_rows (key_of resolve_value (k ∷ ks)) sources))
  prepare_merge_rows-length k ks out l h =
      finish_merge-length resolve_key resolve_value k ks canonical sources out
        (checked load resolve_key resolve_value refs inputs names sources canonical (k ∷ ks) out l
          h).1
      ∙ length-merge_by_keys laws resolve_value (k ∷ ks) canonical sources
