-- ===== src/Rows/SetRows.antt =====
-- `prepare_set_rows` of limulus/execution/rewrites.py: the rows of the sources one after the other,
-- interleaved by the BY keys if there are any, with the IN=, INDSNAME= and END= variables and the
-- FIRST. and LAST. flags.
pub mod Laws
pub mod InVars
use limulus.Prelude.{
  ℕ, suc, ◌+◌, ◌≡◌, refl, Bool, true, false, not, ◌&&◌, ◌||◌, List, [], ◌∷◌, ◌++◌, map, Option,
  none, some, if◌then◌else◌, length, ltb, ◌==◌,
}
use limulus.Prelude.Sort.{sort_by}
use limulus.Text.{Text, text_eq}
use limulus.Dict.{Dict, set, contains}
use limulus.Diagnostic.{Diagnostic}
use limulus.Value.{Scalars, Value, text, keys_lt}
use limulus.Rows.Resolve.{Row, Outcome, done, failed}
use limulus.Rows.ByGroups.{flag, annotate_by_group_flags}
use limulus.Rows.Sort.{build_row_sort_key}
use limulus.Rows.Sources.{SourceRef, InputRef, ◌>>=◌, is_given, load_checked}

-- One entry of `rows_with_source`.
pub record Sourced (S : Scalars) : Type 0 where
  pub source_name : Text
  pub row : Row S
  pub in_var : Option Text

-- `row_in_var == in_var`
abbrev pub is_var : Option Text → Text → Bool
is_var none v = false
is_var (some u) v = text_eq u v

abbrev pub is_none : Option Text → Bool
is_none none = true
is_none (some u) = false

module _ {S : Scalars} where
  abbrev pub sourced : SourceRef → List (Row S) → List (Sourced S)
  sourced ref = map (λ row. record { source_name = ref.name; row = row; in_var = ref.in_var })

  -- The loop over the sources.
  unfoldable pub gather_rows :
      {H : Type 0}
      → (InputRef H → Outcome Diagnostic (List (Row S)))
      → Dict (InputRef H)
      → List Text
      → List SourceRef
      → Outcome Diagnostic (List (Sourced S))
  unfolding load_checked
  gather_rows load resolved_inputs names [] = done []
  gather_rows load resolved_inputs names (ref ∷ refs) =
      load_checked load resolved_inputs names ref >>= λ rows.
      gather_rows load resolved_inputs names refs >>= λ rest. done (sourced ref rows ++ rest)

  -- The loop over the IN= variables. A row of a source without one keeps a column of that name.
  unfoldable pub set_in_vars : Option Text → List Text → Row S → Row S
  unfolding set contains text_eq
  set_in_vars row_in_var [] row = row
  set_in_vars row_in_var (v ∷ vars) row =
      set_in_vars row_in_var vars (
        if is_none row_in_var && contains row v
        then row
        else set row v (flag (is_var row_in_var v)))

  -- An assignment to a variable that may not be given.
  unfoldable pub set_given : Option Text → Value S → Row S → Row S
  unfolding set
  set_given (some (c ∷ s)) v row = set row (c ∷ s) v
  set_given _ v row = row

  unfoldable pub enrich_row : List Text → Option Text → Option Text → Bool → Sourced S → Row S
  unfolding set_in_vars set_given
  enrich_row in_option_vars indsname_var end_var at_end item = set_given end_var (flag at_end) (
      set_given indsname_var (text item.source_name)
        (set_in_vars item.in_var in_option_vars item.row))

  -- `enumerate(rows_with_source)`, of `total` rows, from `index` on.
  unfoldable pub enrich_rows :
      List Text → Option Text → Option Text → ℕ → ℕ → List (Sourced S) → List (Row S)
  unfolding enrich_row
  enrich_rows in_option_vars indsname_var end_var total index [] = []
  enrich_rows in_option_vars indsname_var end_var total index (item ∷ items) =
      enrich_row in_option_vars indsname_var end_var (index + 1 == total) item
      ∷ enrich_rows in_option_vars indsname_var end_var total (suc index) items

module _ {S : Scalars} (resolve_value : Row S → Text → Value S) where
  abbrev pub sourced_lt : List Text → Sourced S → Sourced S → Bool
  sourced_lt by_keys a b =
      keys_lt (build_row_sort_key resolve_value by_keys a.row)
        (build_row_sort_key resolve_value by_keys b.row)

  -- A list of one row or none is left as it is, as a sort leaves it. With NaN among the BY values
  -- `list.sort` can give another arrangement of the rows than this one.
  unfoldable pub interleave : List Text → List (Sourced S) → List (Sourced S)
  unfolding sort_by build_row_sort_key keys_lt
  interleave [] items = items
  interleave (k ∷ ks) items = sort_by (sourced_lt (k ∷ ks)) items

module _ {S : Scalars} {H : Type 0} (load : InputRef H → Outcome Diagnostic (List (Row S)))
    (resolve_key : Row S → Text → Option Text) (resolve_value : Row S → Text → Value S) where
  unfoldable pub prepare_set_rows :
      List SourceRef
      → List Text
      → List Text
      → Option Text
      → Option Text
      → Dict (InputRef H)
      → List Text
      → Outcome Diagnostic (List (Row S))
  unfolding gather_rows interleave enrich_rows annotate_by_group_flags
  prepare_set_rows refs by_keys in_option_vars indsname_var end_var resolved_inputs names =
      gather_rows load resolved_inputs names refs >>= λ gathered.
      let items = interleave resolve_value by_keys gathered in
      annotate_by_group_flags resolve_key resolve_value
        (enrich_rows in_option_vars indsname_var end_var (length items) 0 items) by_keys
