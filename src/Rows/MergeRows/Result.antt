-- ===== src/Rows/MergeRows/Result.antt =====
-- The row that a group gives to an output row, on the row path and on the Arrow path, and the lengths
-- of what the parts of `prepare_merge_rows` return.
use limulus.Prelude.{
  ℕ, zero, suc, ◌-◌, ◌≡◌, refl, ap, ◌∙◌, List, [], ◌∷◌, map, Option, none, some, arith, length,
  get_elem?, length-append, length-map, get_elem?-some_of_lt, get_elem?-none_of_le,
}
use Prim.Native.Nat.{min}
use native.Mathlib.Decide.{dec_lt}
use limulus.Prelude.Sort.{sum_of}
use limulus.Text.{Text}
use limulus.Dict.{Dict}
use limulus.Diagnostic.{Diagnostic}
use limulus.Value.{Scalars, Value}
use limulus.Rows.Resolve.{Row, Outcome, done, failed}
use limulus.Rows.ByGroups.{annotate_by_group_flags, annotate_keys}
use limulus.Rows.ByGroups.Flags.{length-annotate_keys}
use limulus.Rows.Sources.{SourceRef, InputRef, ◌>>=◌}
use limulus.Rows.MergeSources.{MergeSource, load_sources, check_duplicates}
use limulus.Rows.MergeAlign.{MergeKey, Groups, carried_row, last?}
use limulus.Rows.MergeRows.{
  Merged, key_rows, group_length, merge_keys_rows, merge_by_keys, zip_rows, finish_merge,
  prepare_merge_rows,
}

-- The index that the Arrow path selects for an output row of a group:
-- `source_rows[min(group_offset, len(source_rows) - 1)]`, nothing for an empty group.
unfoldable pub selected_index : List ℕ → ℕ → Option ℕ
selected_index [] group_offset = none
selected_index (i ∷ indices) group_offset =
    get_elem? (i ∷ indices) (min group_offset (length (i ∷ indices) - 1))

module _ {S : Scalars} where
  abbrev pub map_option : (ℕ → Row S) → Option ℕ → Option (Row S)
  map_option f none = none
  map_option f (some i) = some (f i)

  get_elem?-map_option :
      (f : ℕ → Row S) (indices : List ℕ) (i : ℕ)
      → get_elem? (map f indices) i ≡ map_option f (get_elem? indices i)
  get_elem?-map_option f [] i = refl
  get_elem?-map_option f (x ∷ indices) zero = refl
  get_elem?-map_option f (x ∷ indices) (suc i) = get_elem?-map_option f indices i

  last?-get_elem? :
      (row : Row S) (rows : List (Row S))
      → last? (row ∷ rows) ≡ get_elem? (row ∷ rows) (length rows)
  last?-get_elem? row [] = refl
  last?-get_elem? row (next ∷ rows) = last?-get_elem? next rows

  carried_row-min :
      (row : Row S) (rows : List (Row S)) (i : ℕ)
      → carried_row i (row ∷ rows) ≡ get_elem? (row ∷ rows) (min i (length rows))
  unfolding carried_row
  carried_row-min row rows i = elim (dec_lt i (length (row ∷ rows))) [
    | yes inside ↦
        let (r, e) = get_elem?-some_of_lt (row ∷ rows) i inside in
        let same : min i (length rows) ≡ i = omega arith in rw same (ground (arith, e))
    | no past ↦
        let e = get_elem?-none_of_le (row ∷ rows) i (omega arith) in
        let same : min i (length rows) ≡ length rows = omega arith in
        rw same (ground (arith, e, last?-get_elem? row rows))
  ]

  -- Carrying the last row of a group forward, as the row path does, takes the row that the Arrow path
  -- selects by index, for every group and every output row.
  pub carried_row-eq-selected :
      (row_at : ℕ → Row S) (indices : List ℕ) (row_index : ℕ)
      → carried_row row_index (map row_at indices)
        ≡ map_option row_at (selected_index indices row_index)
  unfolding selected_index
  carried_row-eq-selected row_at [] row_index = unfold carried_row in refl
  carried_row-eq-selected row_at (i ∷ indices) row_index =
      let same : min row_index (length (map row_at indices))
          ≡ min row_index (length (i ∷ indices) - 1) =
        omega (arith, length-map row_at indices) in
      carried_row-min (row_at i) (map row_at indices) row_index
      ∙ ap (get_elem? (map row_at (i ∷ indices))) same
      ∙ get_elem?-map_option row_at (i ∷ indices) (min row_index (length (i ∷ indices) - 1))

  length-key_rows :
      (by_keys output : List Text) (grouped : List (MergeSource S × Groups S)) (key : MergeKey S)
      (i count : ℕ)
      → length (key_rows by_keys output grouped key i count) ≡ count
  unfolding key_rows
  length-key_rows by_keys output grouped key i zero = refl
  length-key_rows by_keys output grouped key i (suc count) =
      ap suc (length-key_rows by_keys output grouped key (suc i) count)

  pub length-merge_keys_rows :
      (by_keys output : List Text) (grouped : List (MergeSource S × Groups S))
      (merge_keys : List (MergeKey S))
      → length (merge_keys_rows by_keys output grouped merge_keys)
        ≡ sum_of (group_length grouped) merge_keys
  unfolding merge_keys_rows
  length-merge_keys_rows by_keys output grouped [] = refl
  length-merge_keys_rows by_keys output grouped (key ∷ merge_keys) = omega (
    arith,
    length-append {0} (key_rows by_keys output grouped key 0 (group_length grouped key))
        (merge_keys_rows by_keys output grouped merge_keys),
    length-key_rows by_keys output grouped key 0 (group_length grouped key),
    length-merge_keys_rows by_keys output grouped merge_keys,
  )

  length-zip_rows :
      (merged : List (Merged S)) (rows : List (Row S))
      → length rows ≡ length merged
      → length (zip_rows merged rows) ≡ length merged
  length-zip_rows [] [] h = refl
  length-zip_rows [] (row ∷ rows) h = refl
  length-zip_rows (m ∷ merged) [] h = absurd (omega arith)
  length-zip_rows (m ∷ merged) (row ∷ rows) h = ap suc (length-zip_rows merged rows (omega arith))

  length-annotate_by_group_flags :
      (resolve_key : Row S → Text → Option Text) (resolve_value : Row S → Text → Value S)
      (rows out : List (Row S)) (ks : List Text)
      → annotate_by_group_flags resolve_key resolve_value rows ks ≡ done out
      → length out ≡ length rows
  unfolding annotate_by_group_flags
  length-annotate_by_group_flags resolve_key resolve_value [] out ks h =
      let e : out ≡ [] = cc in rw e
  length-annotate_by_group_flags resolve_key resolve_value (row ∷ rows) out [] h =
      let e : out ≡ row ∷ rows = cc in rw e
  length-annotate_by_group_flags resolve_key resolve_value (row ∷ rows) out (k ∷ ks) h =
      let e : annotate_keys resolve_value (k ∷ ks) (row ∷ rows) ≡ out = ground arith in
      rw (← e) (length-annotate_keys resolve_value (k ∷ ks) (row ∷ rows))

  pub finish_merge-length :
      (resolve_key : Row S → Text → Option Text) (resolve_value : Row S → Text → Value S) (k : Text)
      (ks : List Text) (canonical : Dict Text) (sources : List (MergeSource S))
      (out : List (Merged S))
      → finish_merge resolve_key resolve_value (k ∷ ks) canonical sources ≡ done out
      → length out ≡ length (merge_by_keys resolve_value (k ∷ ks) canonical sources)
  unfolding finish_merge
  finish_merge-length resolve_key resolve_value k ks canonical sources out h =
      go (annotate_by_group_flags resolve_key resolve_value rows (k ∷ ks)) refl
    where
      merged : List (Merged S)
      merged = merge_by_keys resolve_value (k ∷ ks) canonical sources

      rows : List (Row S)
      rows = map (λ m. m.1) merged

      go :
          (a : Outcome Diagnostic (List (Row S)))
          → annotate_by_group_flags resolve_key resolve_value rows (k ∷ ks) ≡ a
          → length out ≡ length merged
      go (failed d) e = absurd (ground arith)
      go (done flagged) e =
          let same : zip_rows merged flagged ≡ out = ground arith in
          rw (← same) (
            length-zip_rows merged flagged (
              length-annotate_by_group_flags resolve_key resolve_value rows flagged (k ∷ ks) e
              ∙ length-map (λ m. m.1) merged))

module _ {S : Scalars} {H : Type 0} (load : InputRef H → Outcome Diagnostic (List (Row S)))
    (resolve_key : Row S → Text → Option Text) (resolve_value : Row S → Text → Value S)
    (refs : List SourceRef) (inputs : Dict (InputRef H)) (names : List Text)
    (sources : List (MergeSource S)) (canonical : Dict Text) where
  pub checked :
      (by_keys : List Text) (out : List (Merged S))
      → load_sources resolve_key load inputs names by_keys refs [] ≡ done (sources, canonical)
      → prepare_merge_rows load resolve_key resolve_value refs by_keys inputs names ≡ done out
      → (check_duplicates by_keys sources ≡ done tt)
        × (finish_merge resolve_key resolve_value by_keys canonical sources ≡ done out)
  unfolding prepare_merge_rows
  checked by_keys out l h = go (check_duplicates by_keys sources) refl
    where
      after :
          (check_duplicates by_keys sources >>= λ _.
          finish_merge resolve_key resolve_value by_keys canonical sources)
          ≡ done out
      after = rw l at h

      go :
          (c : Outcome Diagnostic (Unit {0}))
          → check_duplicates by_keys sources ≡ c
          → (check_duplicates by_keys sources ≡ done tt)
            × (finish_merge resolve_key resolve_value by_keys canonical sources ≡ done out)
      go (failed d) e = absurd (ground arith)
      go (done tt) e = (e, rw e at after)
