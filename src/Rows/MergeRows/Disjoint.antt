-- ===== src/Rows/MergeRows/Disjoint.antt =====
-- What a MERGE, or the load of one source, rules out when it returns rows.
use limulus.Prelude.{
  ◌≡◌, refl, ap, ◌∙◌, Bool, true, false, not, List, [], ◌∷◌, ◌++◌, map, Option, none, some, arith,
  Bool-cases, inl, inr, any, all, Option-cases, ◌⊎◌,
}
use limulus.Prelude.Sort.{select}
use mathlib.Core.List.{map-append}
use limulus.Text.{Text, codes, text_eq, text_eq_iff}
use limulus.Dict.{Dict, get?, contains}
use limulus.Diagnostic.{Diagnostic}
use limulus.Value.{Scalars, Value}
use limulus.Rows.Resolve.{Row, Outcome, done, failed}
use limulus.Rows.Sources.{
  SourceRef, InputRef, least, collided_names, first_collision, detect_internal_variable_collision,
  load_checked,
}
use limulus.Rows.MergeSources.{
  MergeSource, load_sources, check_duplicates, member, non_key_columns, duplicate_columns,
}
use limulus.Rows.MergeRows.{Merged, prepare_merge_rows}
use limulus.Rows.MergeRows.Result.{checked}

append-eq_nil {ℓ} : {A : Type ℓ} (xs ys : List A) → xs ++ ys ≡ [] → (xs ≡ []) × (ys ≡ [])
append-eq_nil [] ys h = (refl, h)
append-eq_nil (x ∷ xs) ys h = cc

select-eq_nil :
    (p : Text → Bool) (xs : List Text) (c : Text)
    → select p xs ≡ []
    → member xs c ≡ true
    → p c ≡ false
select-eq_nil p [] c h m = cc
select-eq_nil p (x ∷ xs) c h m = elim (Bool-cases (p x)) [
  | inl kept ↦ absurd (ground arith)
  | inr gone ↦ ground (arith, text_eq_iff x c, select-eq_nil p xs c)
]

any-false :
    (p : List Text → Bool) (middle after : List (List Text)) (b : List Text)
    → any p (middle ++ b ∷ after) ≡ false
    → p b ≡ false
any-false p [] after b h = ground arith
any-false p (m ∷ middle) after b h = ground (arith, any-false p middle after b)

duplicate_columns-nil :
    (before middle after : List (List Text)) (a b : List Text) (c : Text)
    → duplicate_columns (before ++ a ∷ (middle ++ b ∷ after)) ≡ []
    → member a c ≡ true
    → member b c ≡ false
unfolding duplicate_columns
duplicate_columns-nil [] middle after a b c h m =
    any-false (λ right. member right c) middle after b
      (select-eq_nil _ a c (append-eq_nil _ _ h).0 m)
duplicate_columns-nil (x ∷ before) middle after a b c h m =
    duplicate_columns-nil before middle after a b c (append-eq_nil _ _ h).1 m

module _ {S : Scalars} where
  check_duplicates-done :
      (by_keys : List Text) (sources : List (MergeSource S))
      → check_duplicates by_keys sources ≡ done tt
      → duplicate_columns (map (λ s. non_key_columns by_keys s.rows) sources) ≡ []
  unfolding check_duplicates
  check_duplicates-done by_keys sources h = ground arith

module _ {S : Scalars} {H : Type 0} (load : InputRef H → Outcome Diagnostic (List (Row S)))
    (resolve_key : Row S → Text → Option Text) (resolve_value : Row S → Text → Value S)
    (refs : List SourceRef) (inputs : Dict (InputRef H)) (names : List Text) where
  -- If a MERGE returns rows, no column that is no BY key stands in two of its sources, whatever the
  -- case of its name.
  pub prepare_merge_rows-disjoint :
      (before middle after : List (MergeSource S)) (a b : MergeSource S) (canonical : Dict Text)
      (by_keys : List Text) (out : List (Merged S)) (c : Text)
      → load_sources resolve_key load inputs names by_keys refs []
        ≡ done (before ++ a ∷ (middle ++ b ∷ after), canonical)
      → prepare_merge_rows load resolve_key resolve_value refs by_keys inputs names ≡ done out
      → member (non_key_columns by_keys a.rows) c ≡ true
      → member (non_key_columns by_keys b.rows) c ≡ false
  prepare_merge_rows-disjoint before middle after a b canonical by_keys out c l h m =
      let columns = λ (s : MergeSource S). non_key_columns by_keys s.rows in
      let none_twice =
        check_duplicates-done by_keys _
          (checked load resolve_key resolve_value refs inputs names _ canonical by_keys out l
            h).0 in
      let split : map columns (before ++ a ∷ (middle ++ b ∷ after))
          ≡ map columns before
            ++ columns a ∷ (map columns middle ++ columns b ∷ map columns after) =
        map-append columns before (a ∷ (middle ++ b ∷ after))
        ∙ ap (λ l. map columns before ++ columns a ∷ l) (map-append columns middle (b ∷ after)) in
      duplicate_columns-nil (map columns before) (map columns middle) (map columns after)
        (columns a) (columns b) c (rw split at none_twice) m

least-none : (names : List Text) → least names ≡ none → names ≡ []
unfolding least
least-none [] h = refl
least-none (n ∷ names) h = elim (Option-cases (least names)) [
  | inl e ↦ absurd (ground arith)
  | inr (m, e) ↦ absurd (ground arith)
]

module _ {S : Scalars} where
  -- No internal variable is a column of the row.
  abbrev pub is_clear : List Text → Row S → Bool
  is_clear names row = all (λ n. not (contains row n)) names

  collided_names-nil :
      (names : List Text) (row : Row S) → collided_names names row ≡ [] → is_clear names row ≡ true
  unfolding collided_names
  collided_names-nil [] row h = refl
  collided_names-nil (n ∷ names) row h = ground (arith, collided_names-nil names row)

  first_collision-none :
      (names : List Text) (rows : List (Row S))
      → first_collision names rows ≡ none
      → all (is_clear names) rows ≡ true
  unfolding first_collision
  first_collision-none names [] h = refl
  first_collision-none names (row ∷ rows) h =
      elim (Option-cases (least (collided_names names row))) [
        | inl e ↦
            ground (
              arith,
              collided_names-nil names row (least-none _ e),
              first_collision-none names rows,
            )
        | inr (m, e) ↦ absurd (ground arith)
      ]

  detect-none :
      (rows : List (Row S)) (name : Text) (names : List Text) (allow : Bool)
      → detect_internal_variable_collision rows name names allow ≡ none
      → (allow ≡ true) ⊎ (all (is_clear names) rows ≡ true)
  unfolding detect_internal_variable_collision
  detect-none rows name names true h = inl refl
  detect-none rows name names false h = elim (Option-cases (first_collision names rows)) [
    | inl e ↦ inr (first_collision-none names rows e)
    | inr (n, e) ↦ absurd (ground arith)
  ]

  -- The rows of a source that passes the checks are those that its input loads, and no row has a
  -- column named exactly like an internal variable, unless the input is a prepared MERGE.
  pub load_checked-done :
      {H : Type 0} (load : InputRef H → Outcome Diagnostic (List (Row S)))
      (inputs : Dict (InputRef H)) (names : List Text) (ref : SourceRef) (rows : List (Row S))
      → load_checked load inputs names ref ≡ done rows
      → (input : InputRef H) × (get? inputs ref.name ≡ some input)
        × (load input ≡ done rows)
        × ((text_eq input.preparation_kind (codes "prepared_merge") ≡ true)
            ⊎ (all (is_clear names) rows ≡ true))
  unfolding load_checked
  load_checked-done {H} load inputs names ref rows h = found (get? inputs ref.name) refl
    where
      Result : Type 0
      Result =
          (input : InputRef H) × (get? inputs ref.name ≡ some input)
          × (load input ≡ done rows)
          × ((text_eq input.preparation_kind (codes "prepared_merge") ≡ true)
              ⊎ (all (is_clear names) rows ≡ true))

      cleared :
          (input : InputRef H)
          → get? inputs ref.name ≡ some input
          → (loaded : List (Row S)) → load input ≡ done loaded
          → (o : Option Diagnostic)
          → detect_internal_variable_collision loaded ref.name names
              (text_eq input.preparation_kind (codes "prepared_merge"))
            ≡ o
          → Result
      cleared input e loaded l (some d) c = absurd (ground arith)
      cleared input e loaded l none c =
          let same : loaded ≡ rows = ground arith in
          (input, e, l ∙ ap done same, rw same at (detect-none loaded ref.name names _ c))

      loads :
          (input : InputRef H)
          → get? inputs ref.name ≡ some input
          → (o : Outcome Diagnostic (List (Row S))) → load input ≡ o
          → Result
      loads input e (failed d) l = absurd (ground arith)
      loads input e (done loaded) l = cleared input e loaded l _ refl

      found : (o : Option (InputRef H)) → get? inputs ref.name ≡ o → Result
      found none e = absurd (ground arith)
      found (some input) e = loads input e (load input) refl
