-- ===== src/Rows/MergeRows/Position.antt =====
-- A MERGE without BY keys: how many rows it returns and what each column of each row holds.
use limulus.Prelude.{ℕ, List, map, Option, get_elem?}
use limulus.Text.{Text}
use limulus.Dict.{Dict}
use limulus.Diagnostic.{Diagnostic}
use limulus.Value.{Scalars, Value}
use limulus.Rows.Resolve.{Row}
use limulus.Rows.MergeSources.{MergeSource}
use limulus.Rows.MergeRows.Combine.{is_dict}
use limulus.Prelude.{Bool, all}

-- What the sources give at one position.
abbrev pub parts_at : {S : Scalars} → List (MergeSource S) → ℕ → List (Text × Option (Row S))
parts_at sources j = map (λ s. (s.source_name, get_elem? s.rows j)) sources

-- The rows of the sources have no column twice.
abbrev pub are_dicts : {S : Scalars} → List (MergeSource S) → Bool
are_dicts sources = all (λ s. all is_dict s.rows) sources
