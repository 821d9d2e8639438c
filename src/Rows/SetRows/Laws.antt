-- ===== src/Rows/SetRows/Laws.antt =====
-- The order of the rows that SET interleaves, and its END= and IN= variables.
use limulus.Prelude.{
  ℕ, suc, ◌+◌, ◌≡◌, refl, ◌∙◌, Bool, true, false, not, List, [], ◌∷◌, Option, none, some, arith,
  all, length, and_left, and_right, not-true, ◌==◌,
}
use mathlib.Core.List.{Perm}
use mathlib.Core.Path.{ap₂}
use limulus.Prelude.Stable.{is_weak_order, KeepsTies, sort_by_unique, sort_by-KeepsTies}
use limulus.Prelude.Sort.{IsSorted, sort_by-perm, sort_by-IsSorted}
use limulus.Text.{Text, ne_of_text_eq}
use limulus.Dict.{Dict, get?-set_self}
use limulus.Diagnostic.{Diagnostic}
use limulus.Value.{Scalars, Value, FloatLaws}
use limulus.Rows.Resolve.{Row, Outcome, done, failed}
use limulus.Rows.ByGroups.{flag_names, annotate_key, annotate_keys, annotate_by_group_flags}
use limulus.Rows.ByGroups.Columns.{column, stored, among, get?-set_flags_ne}
use limulus.Rows.Sort.{build_row_sort_key, keys_lt_asymm}
use limulus.Rows.Sources.{SourceRef, InputRef}
use limulus.Rows.SetRows.{
  Sourced, gather_rows, enrich_rows, sourced_lt, interleave, prepare_set_rows,
}

module _ {S : Scalars} (resolve_value : Row S → Text → Value S) (k : Text) (ks : List Text) where
  -- SET with BY keys returns the rows that it gathered, each as often, and no row is below the one
  -- before it in the order of the keys.
  pub interleave-sorts :
      (laws : FloatLaws S) (items : List (Sourced S))
      → Perm (interleave resolve_value (k ∷ ks) items) items
        × IsSorted (sourced_lt resolve_value (k ∷ ks)) (interleave resolve_value (k ∷ ks) items)
  unfolding interleave
  interleave-sorts laws items = (
    sort_by-perm (sourced_lt resolve_value (k ∷ ks)) items,
    sort_by-IsSorted (sourced_lt resolve_value (k ∷ ks))
        (λ a b.
          keys_lt_asymm laws (build_row_sort_key resolve_value (k ∷ ks) a.row)
            (build_row_sort_key resolve_value (k ∷ ks) b.row))
        items,
  )

  -- If the order of the keys is transitive among the gathered rows, in that a row is not below another
  -- when it is not below a third that is not below the other, as it is without NaN among the keys:
  -- every sorted rearrangement in which rows of which none is below the other keep the order of
  -- the sources, as `list.sort` makes one, is what SET with BY keys returns, and this keeps them.
  pub interleave-stable :
      (laws : FloatLaws S) (items out : List (Sourced S))
      → is_weak_order (sourced_lt resolve_value (k ∷ ks)) items ≡ true
      → Perm out items
      → IsSorted (sourced_lt resolve_value (k ∷ ks)) out
      → KeepsTies (sourced_lt resolve_value (k ∷ ks)) out items
      → (out ≡ interleave resolve_value (k ∷ ks) items)
        × KeepsTies
            (sourced_lt resolve_value (k ∷ ks))
            (interleave resolve_value (k ∷ ks) items)
            items
  unfolding interleave
  interleave-stable laws items out weak h s t =
      let lt = sourced_lt resolve_value (k ∷ ks) in
      let asymm : (a b : Sourced S) → lt a b ≡ true → lt b a ≡ false = λ a b.
        keys_lt_asymm laws (build_row_sort_key resolve_value (k ∷ ks) a.row)
          (build_row_sort_key resolve_value (k ∷ ks) b.row) in
      (sort_by_unique lt asymm items weak out h s t, sort_by-KeepsTies lt asymm items weak)

-- `n` is no flag of the keys.
abbrev pub is_no_flag : List Text → Text → Bool
is_no_flag ks n = all (λ k. not (among n (flag_names k))) ks

module _ {S : Scalars} (resolve_value : Row S → Text → Value S) where
  column-annotate_key_ne :
      (k n : Text) (rows : List (Row S)) (p : Option (Row S))
      → among n (flag_names k) ≡ false
      → column n (annotate_key resolve_value k p rows) ≡ column n rows
  unfolding annotate_key
  column-annotate_key_ne k n [] p h = refl
  column-annotate_key_ne k n (row ∷ rest) p h =
      ap₂ ◌∷◌
        (get?-set_flags_ne k _ _ row n (ne_of_text_eq _ _ (ground arith))
          (ne_of_text_eq _ _ (ground arith)) (ne_of_text_eq _ _ (ground arith))
          (ne_of_text_eq _ _ (ground arith)))
        (column-annotate_key_ne k n rest _ h)

  column-annotate_keys_ne :
      (ks : List Text) (n : Text) (rows : List (Row S))
      → is_no_flag ks n ≡ true
      → column n (annotate_keys resolve_value ks rows) ≡ column n rows
  unfolding annotate_keys
  column-annotate_keys_ne [] n rows h = refl
  column-annotate_keys_ne (k ∷ ks) n rows h =
      column-annotate_keys_ne ks n (annotate_key resolve_value k none rows) (and_right _ _ h)
      ∙ column-annotate_key_ne k n rows none (not-true _ (and_left _ _ h))

  -- The flags leave every column that is none of them.
  pub column-annotate_by_group_flags_ne :
      (resolve_key : Row S → Text → Option Text) (ks : List Text) (n : Text)
      (rows out : List (Row S))
      → is_no_flag ks n ≡ true
      → annotate_by_group_flags resolve_key resolve_value rows ks ≡ done out
      → column n out ≡ column n rows
  unfolding annotate_by_group_flags
  column-annotate_by_group_flags_ne resolve_key ks n [] out h e =
      let same : out ≡ [] = cc in rw same
  column-annotate_by_group_flags_ne resolve_key [] n (row ∷ rows) out h e =
      let same : out ≡ row ∷ rows = cc in rw same
  column-annotate_by_group_flags_ne resolve_key (k ∷ ks) n (row ∷ rows) out h e =
      let same : annotate_keys resolve_value (k ∷ ks) (row ∷ rows) ≡ out = ground arith in
      rw (← same) (column-annotate_keys_ne (k ∷ ks) n (row ∷ rows) h)

-- True for the last element alone.
abbrev pub last_only {ℓ} : {A : Type ℓ} → List A → List Bool
last_only [] = []
last_only (x ∷ []) = true ∷ []
last_only (x ∷ y ∷ ys) = false ∷ last_only (y ∷ ys)

module _ {S : Scalars} where
  column_end-enrich_rows :
      (vars : List Text) (indsname : Option Text) (c : ℕ) (s : Text) (total index : ℕ)
      (items : List (Sourced S))
      → index + length items ≡ total
      → column (c ∷ s) (enrich_rows vars indsname (some (c ∷ s)) total index items)
        ≡ stored (last_only items)
  unfolding enrich_rows
  column_end-enrich_rows vars indsname c s total index [] h = refl
  column_end-enrich_rows vars indsname c s total index (x ∷ []) h =
      let e : (index + 1 == total) ≡ true = ground arith in
      rw e (ap₂ ◌∷◌ (get?-set_self _ (c ∷ s) _) refl)
  column_end-enrich_rows vars indsname c s total index (x ∷ y ∷ ys) h =
      let e : (index + 1 == total) ≡ false = ground arith in
      rw e (
        ap₂ ◌∷◌ (get?-set_self _ (c ∷ s) _)
          (column_end-enrich_rows vars indsname c s total (suc index) (y ∷ ys) (omega arith)))

module _ {S : Scalars} {H : Type 0} (load : InputRef H → Outcome Diagnostic (List (Row S)))
    (resolve_key : Row S → Text → Option Text) (resolve_value : Row S → Text → Value S)
    (refs : List SourceRef) (by_keys in_vars : List Text) (indsname : Option Text)
    (inputs : Dict (InputRef H)) (names : List Text) where
  -- If `prepare_set_rows` returns rows, then the sources were gathered, and the END= variable is 1 in
  -- the last row alone: it is one that is given, and no FIRST. or LAST. flag.
  pub prepare_set_rows-end :
      (c : ℕ) (s : Text) (out : List (Row S))
      → is_no_flag by_keys (c ∷ s) ≡ true
      → prepare_set_rows load resolve_key resolve_value refs by_keys in_vars indsname
          (some (c ∷ s))
          inputs
          names
        ≡ done out
      → (gathered : List (Sourced S)) × (gather_rows load inputs names refs ≡ done gathered)
        × (column (c ∷ s) out ≡ stored (last_only (interleave resolve_value by_keys gathered)))
  unfolding prepare_set_rows
  prepare_set_rows-end c s out h e = go (gather_rows load inputs names refs) refl
    where
      go :
          (g : Outcome Diagnostic (List (Sourced S)))
          → gather_rows load inputs names refs ≡ g
          → (gathered : List (Sourced S)) × (gather_rows load inputs names refs ≡ done gathered)
            × (column (c ∷ s) out ≡ stored (last_only (interleave resolve_value by_keys gathered)))
      go (failed d) f = absurd (ground arith)
      go (done gathered) f =
          let items = interleave resolve_value by_keys gathered in
          let rows = enrich_rows in_vars indsname (some (c ∷ s)) (length items) 0 items in
          let finished : annotate_by_group_flags resolve_key resolve_value rows by_keys ≡ done out =
            rw f at e in
          (
            gathered,
            f,
            column-annotate_by_group_flags_ne resolve_value resolve_key by_keys (c ∷ s) rows out h
                  finished
                ∙ column_end-enrich_rows in_vars indsname c s (length items) 0 items (omega arith),
          )
