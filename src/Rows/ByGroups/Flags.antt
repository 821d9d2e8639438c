-- ===== src/Rows/ByGroups/Flags.antt =====
-- What `annotate_by_group_flags` returns, with the row lookups that the program passes to it.
use limulus.Prelude.{
  suc, ◌≡◌, refl, ap, ◌∙◌, Bool, true, false, not, List, [], ◌∷◌, Option, none, some, arith,
  Bool-cases, inl, inr, any, all, length, ◌⊎◌, Option-cases,
}
use limulus.Text.{Text, text_eq, text_eq_iff}
use limulus.Naming.{column_key}
use limulus.Diagnostic.{build_by_rows_precondition_failed}
use limulus.Value.{Scalars, Value}
use limulus.Rows.Resolve.{Row, done, failed, resolve_row_key, resolve_row_value}
use limulus.Rows.Resolve.Laws.{resolve_row_value-set_ne}
use limulus.Rows.ByGroups.{
  first_name, last_name, first_alias, last_alias, flag_names, set_flags, first_values, last_values,
  annotate_keys, annotate_key, missing_key, is_missing, annotate_by_group_flags,
}
use limulus.Rows.ByGroups.Columns.{column, stored, values, Leaves, among, columns-annotate_keys}

-- No flag of `k` is a column under the key of `j`.
abbrev pub flags_apart : Text → Text → Bool
flags_apart j k = all (λ n. not (text_eq (column_key n) (column_key j))) (flag_names k)

-- No flag of the keys is a column under the key of `j`.
abbrev pub keeps_apart : List Text → Text → Bool
keeps_apart ks j = all (flags_apart j) ks

all-among :
    (p : Text → Bool) (ks : List Text) (k : Text) → all p ks ≡ true → among k ks ≡ true → p k ≡ true
all-among p [] k h m = cc
all-among p (j ∷ ks) k h m = ground (arith, text_eq_iff j k, all-among p ks k)

module _ {S : Scalars} where
  Leaves-of_apart : (k j : Text) → flags_apart j k ≡ true → Leaves (resolve_row_value {S = S}) k j
  unfolding set_flags
  Leaves-of_apart k j h f l row =
      resolve_row_value-set_ne _ (last_alias k) j _ (ground arith)
      ∙ resolve_row_value-set_ne _ (first_alias k) j _ (ground arith)
      ∙ resolve_row_value-set_ne _ (last_name k) j _ (ground arith)
      ∙ resolve_row_value-set_ne row (first_name k) j _ (ground arith)

  -- The rows that `annotate_by_group_flags` returns hold, for each BY key whose column no flag hides,
  -- the FIRST. and LAST. columns that the column pass computes from the values of the key in the
  -- given rows: 1 exactly where a value differs from the one before, or after, it.
  pub annotate_by_group_flags-columns :
      (rows out : List (Row S)) (by_keys : List Text) (j : Text)
      → among j by_keys ≡ true
      → keeps_apart by_keys j ≡ true
      → annotate_by_group_flags resolve_row_key resolve_row_value rows by_keys ≡ done out
      → (column (first_name j) out ≡ stored (first_values none (values resolve_row_value j rows)))
        × (column (last_name j) out ≡ stored (last_values (values resolve_row_value j rows)))
  unfolding annotate_by_group_flags first_values last_values
  annotate_by_group_flags-columns [] out by_keys j m a h = let e : out ≡ [] = cc in (rw e, rw e)
  annotate_by_group_flags-columns (row ∷ rows) out [] j m a h = cc
  annotate_by_group_flags-columns (row ∷ rows) out (k ∷ ks) j m a h =
      let e : annotate_keys resolve_row_value (k ∷ ks) (row ∷ rows) ≡ out = ground arith in
      rw e at (
        columns-annotate_keys resolve_row_value (k ∷ ks) j m
          (λ i present. Leaves-of_apart i j (all-among (flags_apart j) (k ∷ ks) i a present))
          (row ∷ rows))

  length-annotate_key :
      (value : Row S → Text → Value S) (k : Text) (rows : List (Row S)) (p : Option (Row S))
      → length (annotate_key value k p rows) ≡ length rows
  unfolding annotate_key
  length-annotate_key value k [] p = refl
  length-annotate_key value k (row ∷ rest) p = ap suc (length-annotate_key value k rest _)

  pub length-annotate_keys :
      (value : Row S → Text → Value S) (ks : List Text) (rows : List (Row S))
      → length (annotate_keys value ks rows) ≡ length rows
  unfolding annotate_keys
  length-annotate_keys value [] rows = refl
  length-annotate_keys value (k ∷ ks) rows =
      length-annotate_keys value ks (annotate_key value k none rows)
      ∙ length-annotate_key value k rows none

  -- Some row has no column for the key.
  abbrev pub lacks : List (Row S) → Text → Bool
  lacks rows k = any (λ row. is_missing (resolve_row_key row k)) rows

  missing_key-some :
      (ks : List Text) (rows : List (Row S)) (k : Text)
      → missing_key resolve_row_key ks rows ≡ some k
      → (among k ks ≡ true) × (lacks rows k ≡ true)
  unfolding missing_key
  missing_key-some [] rows k h = cc
  missing_key-some (j ∷ ks) rows k h = elim (Bool-cases (lacks rows j)) [
    | inl missing ↦
        let e : j ≡ k = ground arith in (ground (arith, text_eq_iff j k), rw e at missing)
    | inr there ↦ let ih = missing_key-some ks rows k (ground arith) in (ground arith, ih.1)
  ]

  missing_key-none :
      (ks : List Text) (rows : List (Row S))
      → missing_key resolve_row_key ks rows ≡ none
      → any (lacks rows) ks ≡ false
  unfolding missing_key
  missing_key-none [] rows h = refl
  missing_key-none (j ∷ ks) rows h = ground (arith, missing_key-none ks rows)

  -- On rows and keys that are not empty, `annotate_by_group_flags` returns as many rows as it is
  -- given if every row has a column for every key, and otherwise the diagnostic for one of the keys
  -- that some row lacks.
  pub annotate_by_group_flags-total :
      (row : Row S) (rows : List (Row S)) (k : Text) (ks : List Text)
      → (any (lacks (row ∷ rows)) (k ∷ ks) ≡ false)
          × ((out : List (Row S)) × (annotate_by_group_flags resolve_row_key resolve_row_value
                  (row ∷ rows)
                  (k ∷ ks)
                ≡ done out)
              × (length out ≡ length (row ∷ rows)))
        ⊎ ((j : Text) × (among j (k ∷ ks) ≡ true)
            × (lacks (row ∷ rows) j ≡ true)
            × (annotate_by_group_flags resolve_row_key resolve_row_value (row ∷ rows) (k ∷ ks)
                ≡ failed (build_by_rows_precondition_failed j)))
  unfolding annotate_by_group_flags
  annotate_by_group_flags-total row rows k ks =
      elim (Option-cases (missing_key resolve_row_key (k ∷ ks) (row ∷ rows))) [
        | inl there ↦ inl (
          missing_key-none (k ∷ ks) (row ∷ rows) there,
          (
            annotate_keys resolve_row_value (k ∷ ks) (row ∷ rows),
            ground arith,
            length-annotate_keys resolve_row_value (k ∷ ks) (row ∷ rows),
          ),
        )
        | inr (j, e) ↦
            let (member, missing) = missing_key-some (k ∷ ks) (row ∷ rows) j e in
            inr (j, member, missing, ground arith)
      ]
