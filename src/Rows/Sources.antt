-- ===== src/Rows/Sources.antt =====
-- The sources of a SET or MERGE statement, and the check of their rows that
-- limulus/execution/rewrites.py makes before it works on them: the input is there, it loads, and no
-- row has a column named like an internal variable (`detect_internal_variable_collision`).
use limulus.Prelude.{Bool, true, false, List, [], ◌∷◌, Option, none, some, if◌then◌else◌}
use limulus.Text.{Text, codes, text_eq}
use limulus.Dict.{Dict, get?, contains}
use limulus.Diagnostic.{Diagnostic, build_runtime_set_not_found, build_internal_var_collision}
use limulus.Value.{Scalars, text_lt}
use limulus.Rows.Resolve.{Row, Outcome, done, failed}

-- A data set reference: its name, and the variable of its IN= option.
pub record SourceRef : Type 0 where
  pub name : Text
  pub in_var : Option Text

-- A resolved input: the kind of its preparation ("none" without one), and what it is loaded from.
pub record InputRef (H : Type 0) : Type 0 where
  pub preparation_kind : Text
  pub carrier : H

infixl 5 ◌>>=◌
abbrev pub ◌>>=◌ {ℓ κ} :
    {E : Type 0} {A : Type ℓ} {B : Type κ} → Outcome E A → (A → Outcome E B) → Outcome E B
done a >>= f = f a
failed e >>= f = failed e

-- `if name:`
abbrev pub is_given : Option Text → Bool
is_given (some (c ∷ s)) = true
is_given _ = false

-- `sorted(names)[0]`
unfoldable pub least : List Text → Option Text
unfolding text_lt
least [] = none
least (s ∷ names) = elim (least names) [
  | none ↦ some s
  | some t ↦ if text_lt t s then some t else some s
]

module _ {S : Scalars} where
  -- The internal names that are columns of the row.
  unfoldable pub collided_names : List Text → Row S → List Text
  unfolding contains
  collided_names [] row = []
  collided_names (n ∷ names) row =
      if contains row n then n ∷ collided_names names row else collided_names names row

  unfoldable pub first_collision : List Text → List (Row S) → Option Text
  unfolding collided_names least
  first_collision names [] = none
  first_collision names (row ∷ rows) = elim (least (collided_names names row)) [
    | some n ↦ some n
    | none ↦ first_collision names rows
  ]

  unfoldable pub detect_internal_variable_collision :
      List (Row S) → Text → List Text → Bool → Option Diagnostic
  unfolding first_collision
  detect_internal_variable_collision rows source_name names allow_internal_names =
      if allow_internal_names then none else elim (first_collision names rows) [
        | none ↦ none
        | some n ↦ some (build_internal_var_collision n source_name)
      ]

  -- The rows of one source, or the diagnostic that ends the statement.
  unfoldable pub load_checked :
      {H : Type 0}
      → (InputRef H → Outcome Diagnostic (List (Row S)))
      → Dict (InputRef H)
      → List Text
      → SourceRef
      → Outcome Diagnostic (List (Row S))
  unfolding get? detect_internal_variable_collision
  load_checked load resolved_inputs names ref = elim (get? resolved_inputs ref.name) [
    | none ↦ failed (build_runtime_set_not_found ref.name)
    | some input ↦ load input >>= λ rows.
        elim (detect_internal_variable_collision rows ref.name names
          (text_eq input.preparation_kind (codes "prepared_merge"))) [
            | some diagnostic ↦ failed diagnostic
            | none ↦ done rows
          ]
  ]
