-- ===== src/Outputs/Projection.antt =====
-- The projections of columns and of their types (limulus/execution/output_handoff.py).
use limulus.Prelude.{Bool, not, List, [], ◌∷◌, map, if◌then◌else◌, get_or}
use limulus.Prelude.Sort.{select}
use limulus.Text.{Text, text_eq}
use limulus.Dict.{Dict, get?, set}
use limulus.Naming.{column_key}
use limulus.Validation.{mem}

-- The names whose keys were not seen before, in their order.
unfoldable pub first_of_keys : (seen : List Text) → List Text → List Text
unfolding column_key text_eq
first_of_keys seen [] = []
first_of_keys seen (n ∷ names) =
    let rest =
      first_of_keys (if mem (column_key n) seen then seen else column_key n ∷ seen) names in
    if mem (column_key n) seen then rest else n ∷ rest

unfoldable pub has_key : List Text → Text → Bool
unfolding column_key text_eq
has_key names n = mem (column_key n) (map column_key names)

-- The later of two entries with one key counts.
unfoldable pub normalized_rename : Dict Text → Dict Text → Dict Text
unfolding column_key set
normalized_rename [] result = result
normalized_rename ((source, target) ∷ renames) result =
    normalized_rename renames (set result (column_key source) target)

unfoldable pub kept : {A : Type 0} → (A → Text) → List Text → List A → List A
unfolding has_key
kept name_of [] entries = entries
kept name_of (k ∷ keep) entries = select (λ e. has_key (k ∷ keep) (name_of e)) entries

unfoldable pub not_dropped : {A : Type 0} → (A → Text) → List Text → List A → List A
unfolding has_key
not_dropped name_of drop entries = select (λ e. not (has_key drop (name_of e))) entries

unfoldable pub renamed : Dict Text → Text → Text
unfolding normalized_rename get? column_key
renamed renames n = get_or (get? (normalized_rename renames []) (column_key n)) n

abbrev pub itself : Text → Text
itself n = n

unfoldable pub project_output_columns : (columns keep drop : List Text) → Dict Text → List Text
unfolding kept not_dropped renamed
project_output_columns columns keep drop renames =
    map (renamed renames) (not_dropped itself drop (kept itself keep columns))

abbrev pub entry_name : {A : Type 0} → Text × A → Text
entry_name e = e.0

unfoldable pub rename_entries : Dict Text → Dict Text → Dict Text → Dict Text
unfolding renamed set
rename_entries renames [] result = result
rename_entries renames ((n, type_name) ∷ entries) result =
    rename_entries renames entries (set result (renamed renames n) type_name)

unfoldable pub apply_type_projection : Dict Text → (keep drop : List Text) → Dict Text → Dict Text
unfolding kept not_dropped rename_entries
apply_type_projection types keep drop [] = not_dropped entry_name drop (kept entry_name keep types)
apply_type_projection types keep drop (r ∷ renames) =
    rename_entries (r ∷ renames) (not_dropped entry_name drop (kept entry_name keep types)) []

unfoldable pub filter_excluded_output_columns : List Text → List Text → List Text
unfolding first_of_keys column_key
filter_excluded_output_columns columns excluded = first_of_keys (map column_key excluded) columns
