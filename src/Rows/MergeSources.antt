-- ===== src/Rows/MergeSources.antt =====
-- The sources of a MERGE: the first loop of `prepare_merge_rows` in
-- limulus/execution/rewrites.py, which loads and checks them, and its check for columns that two
-- sources share.
use limulus.Prelude.{Bool, not, List, [], ◌∷◌, ◌++◌, map, Option, none, some, if◌then◌else◌, any}
use limulus.Prelude.Sort.{select, sort_by}
use limulus.Text.{Text, codes, text_eq}
use limulus.Dict.{Dict, set, keys, contains}
use limulus.Naming.{column_key}
use limulus.Diagnostic.{Diagnostic, build_by_precondition_failed, build_merge_duplicate_column}
use limulus.Value.{Scalars, text_lt}
use limulus.Rows.Resolve.{Row, Outcome, done, failed}
use limulus.Rows.Sources.{SourceRef, InputRef, ◌>>=◌, load_checked}

-- One entry of `loaded_sources`.
pub record MergeSource (S : Scalars) : Type 0 where
  pub source_name : Text
  pub in_var : Option Text
  pub rows : List (Row S)

abbrev pub member : List Text → Text → Bool
member names n = any (λ m. text_eq m n) names

-- `d.setdefault(k, v)`
abbrev set_default : Dict Text → Text → Text → Dict Text
set_default d k v = if contains d k then d else set d k v

module _ {S : Scalars} (resolve_key : Row S → Text → Option Text) where
  -- The BY keys of one row: each has a column, whose name is noted if it is the first for the key.
  unfoldable pub check_by_keys :
      Text → List Text → Row S → Dict Text → Outcome Diagnostic (Dict Text)
  unfolding contains set column_key
  check_by_keys input_name [] row canonical = done canonical
  check_by_keys input_name (k ∷ ks) row canonical = elim (resolve_key row k) [
    | none ↦ failed (build_by_precondition_failed k input_name)
    | some resolved ↦
        check_by_keys input_name ks row (set_default canonical (column_key k) resolved)
  ]

  unfoldable pub check_rows :
      Text → List Text → List (Row S) → Dict Text → Outcome Diagnostic (Dict Text)
  unfolding check_by_keys
  check_rows input_name by_keys [] canonical = done canonical
  check_rows input_name by_keys (row ∷ rows) canonical =
      check_by_keys input_name by_keys row canonical >>= λ next.
      check_rows input_name by_keys rows next

  -- What the loop over the sources builds up: the sources and `canonical_by_names`.
  unfoldable pub load_sources :
      {H : Type 0}
      → (InputRef H → Outcome Diagnostic (List (Row S)))
      → Dict (InputRef H)
      → List Text
      → List Text
      → List SourceRef
      → Dict Text
      → Outcome Diagnostic (List (MergeSource S) × Dict Text)
  unfolding load_checked check_rows
  load_sources load resolved_inputs names by_keys [] canonical = done ([], canonical)
  load_sources load resolved_inputs names by_keys (ref ∷ refs) canonical =
      load_checked load resolved_inputs names ref >>= λ rows.
      check_rows ref.name by_keys rows canonical >>= λ next.
      load_sources load resolved_inputs names by_keys refs next >>= λ rest.
      done (record { source_name = ref.name; in_var = ref.in_var; rows = rows } ∷ rest.0, rest.1)

module _ {S : Scalars} where
  -- The column keys of the rows that are no BY keys. A set in the source.
  unfoldable pub non_key_columns : List Text → List (Row S) → List Text
  unfolding column_key text_eq
  non_key_columns by_keys [] = []
  non_key_columns by_keys (row ∷ rows) =
      select (λ c. not (member (map column_key by_keys) c)) (map column_key (keys row))
      ++ non_key_columns by_keys rows

-- The columns that a source shares with a later one. A set in the source.
unfoldable pub duplicate_columns : List (List Text) → List Text
unfolding text_eq
duplicate_columns [] = []
duplicate_columns (left ∷ rights) =
    select (λ c. any (λ right. member right c) rights) left ++ duplicate_columns rights

unfoldable pub distinct : List Text → List Text
unfolding text_eq
distinct [] = []
distinct (n ∷ names) = let rest = distinct names in if member rest n then rest else n ∷ rest

-- `separator.join(names)`
unfoldable pub join : Text → List Text → Text
join separator [] = []
join separator (n ∷ []) = n
join separator (n ∷ m ∷ names) = n ++ (separator ++ join separator (m ∷ names))

unfoldable pub check_duplicates :
    {S : Scalars} → List Text → List (MergeSource S) → Outcome Diagnostic (Unit {0})
unfolding non_key_columns duplicate_columns distinct join sort_by text_lt
check_duplicates by_keys sources =
    elim (duplicate_columns (map (λ s. non_key_columns by_keys s.rows) sources)) [
      | [] ↦ done tt
      | n ∷ names ↦ failed (
          build_merge_duplicate_column (join (codes ", ") (sort_by text_lt (distinct (n ∷ names)))))
    ]
