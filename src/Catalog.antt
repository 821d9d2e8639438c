-- ===== src/Catalog.antt =====
-- The names of data sets and how they are looked up (`ExecutorIOService` of limulus/io.py), and the
-- catalog that validation sees (`_resolved_candidate_inputs` of limulus/execution/validation.py).
use limulus.Prelude.{Bool, ◌||◌, List, [], ◌∷◌, Option, none, some, if◌then◌else◌}
use limulus.Text.{Text, codes, text_eq, strip, lower, starts_with}
use limulus.Dict.{Dict, set, update}
use limulus.Naming.{dataset_key}

-- `s[5:]`
abbrev drop_five : Text → Text
drop_five (_ ∷ _ ∷ _ ∷ _ ∷ _ ∷ rest) = rest
drop_five _ = []

unfoldable pub normalize_dataset_name : Text → Text
unfolding strip lower starts_with
normalize_dataset_name name =
    let normalized = strip name in
    elim normalized [
      | [] ↦ []
      | c ∷ s ↦ if starts_with (lower (c ∷ s)) (codes "work.") then drop_five (c ∷ s) else c ∷ s
    ]

abbrev is_dictionary : Text → Bool
is_dictionary key =
    text_eq key (codes "DICTIONARY.TABLES") || text_eq key (codes "DICTIONARY.COLUMNS")

module _ {D : Type 0} where
  -- The first entry under a name with the key.
  unfoldable pub alias_of_key : Dict D → Text → Option D
  unfolding dataset_key text_eq
  alias_of_key [] key = none
  alias_of_key ((candidate, dataset) ∷ datasets) key =
      if text_eq (dataset_key candidate) key then some dataset else alias_of_key datasets key

  unfoldable pub resolve_dataset_alias : Dict D → Text → Option D
  unfolding alias_of_key dataset_key
  resolve_dataset_alias datasets requested_name = alias_of_key datasets (dataset_key requested_name)

  unfoldable pub canonical_inputs : Dict D → Dict D → Dict D
  unfolding set dataset_key
  canonical_inputs [] canonical = canonical
  canonical_inputs ((name, dataset) ∷ visible) canonical =
      canonical_inputs visible (set canonical (dataset_key name) dataset)

  -- `build` makes a dictionary table of the visible inputs.
  unfoldable pub synthetic_inputs : (Text → Dict D → D) → Dict D → List Text → Dict D → Dict D
  unfolding set dataset_key text_eq
  synthetic_inputs build visible [] resolved = resolved
  synthetic_inputs build visible (name ∷ names) resolved = synthetic_inputs build visible names (
      if is_dictionary (dataset_key name) then set resolved name (build name visible) else resolved)

  unfoldable pub resolve_synthetic_inputs_for_names :
      (Text → Dict D → D) → List Text → (explicit available registered : Dict D) → Dict D
  unfolding update canonical_inputs synthetic_inputs
  resolve_synthetic_inputs_for_names build requested explicit available registered =
      synthetic_inputs build (canonical_inputs (update (update registered explicit) available) [])
        requested []

  unfoldable pub resolved_candidate_inputs :
      (Text → Dict D → D) → List Text → (explicit available registered : Dict D) → Dict D
  unfolding update resolve_synthetic_inputs_for_names
  resolved_candidate_inputs build requested explicit available registered =
      update (update (update registered available) explicit)
        (resolve_synthetic_inputs_for_names build requested explicit available registered)
