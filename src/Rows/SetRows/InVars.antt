-- ===== src/Rows/SetRows/InVars.antt =====
-- The IN= variables of SET.
use limulus.Prelude.{
  ℕ, suc, ◌≡◌, refl, ◌∙◌, Bool, true, false, not, ◌&&◌, List, [], ◌∷◌, map, Option, none, some,
  arith, Bool-cases, inl, inr, if◌then◌else◌, all, length, and_left, and_right, not-true,
}
use limulus.Prelude.Sort.{all-sort_by}
use mathlib.Core.Path.{ap₂}
use limulus.Text.{Text, text_eq, text_eq_iff, ne_of_text_eq}
use limulus.Dict.{Dict, set, get?, contains, contains-set, get?-set, get?-set_ne}
use limulus.Diagnostic.{Diagnostic}
use limulus.Value.{Scalars, Value}
use limulus.Rows.Resolve.{Row, Outcome, done}
use limulus.Rows.ByGroups.{flag, annotate_by_group_flags}
use limulus.Rows.ByGroups.Columns.{column, among}
use limulus.Rows.Sources.{SourceRef, InputRef}
use limulus.Rows.SetRows.{
  Sourced, gather_rows, set_in_vars, is_var, is_none, set_given, enrich_rows, interleave,
  prepare_set_rows, sourced_lt,
}
use limulus.Rows.SetRows.Laws.{is_no_flag, column-annotate_by_group_flags_ne}

module _ {S : Scalars} (r : Option Text) (u : Text) where
  -- The row holds what the IN= variable `u` has to be.
  abbrev Marked : Row S → Type 0
  Marked row = get? row u ≡ some (flag (is_var r u))

  set_in_vars-Marked :
      (vars : List Text) (row : Row S) → Marked row → Marked (set_in_vars r vars row)
  unfolding set_in_vars
  set_in_vars-Marked [] row m = m
  set_in_vars-Marked (v ∷ vars) row m =
      set_in_vars-Marked vars _ (step (is_none r && contains row v))
    where
      step : (b : Bool) → Marked (if b then row else set row v (flag (is_var r v)))
      step true = m
      step false = ground (arith, get?-set row v u (flag (is_var r v)), text_eq_iff v u)

  set_in_vars-marks :
      (vars : List Text) (row : Row S)
      → among u vars ≡ true
      → (is_none r && contains row u) ≡ false
      → Marked (set_in_vars r vars row)
  unfolding set_in_vars
  set_in_vars-marks [] row m free = cc
  set_in_vars-marks (v ∷ vars) row m free = elim (Bool-cases (text_eq v u)) [
    | inl same ↦
        let e : v ≡ u = (text_eq_iff v u).0 same in
        let here : (is_none r && contains row v) ≡ false = rw e free in
        rw here (
          set_in_vars-Marked vars (set row v (flag (is_var r v)))
            (ground (arith, get?-set row v u (flag (is_var r v)))))
    | inr other ↦ elim (Bool-cases (is_none r && contains row v)) [
      | inl skip ↦ rw skip (set_in_vars-marks vars row (ground arith) free)
      | inr write ↦ rw write (
          set_in_vars-marks vars (set row v (flag (is_var r v))) (ground arith)
            (ground (arith, contains-set row v u (flag (is_var r v)))))
    ]
  ]

-- A variable of an option that is not the given one.
abbrev pub is_other : Option Text → Text → Bool
is_other none u = true
is_other (some v) u = not (text_eq v u)

-- A row of a source without IN= has no column of that name.
abbrev pub is_free : {S : Scalars} → Text → Sourced S → Bool
is_free u item = not (is_none item.in_var && contains item.row u)

module _ {S : Scalars} where
  get?-set_given_ne :
      (o : Option Text) (v : Value S) (u : Text) (row : Row S)
      → is_other o u ≡ true
      → get? (set_given o v row) u ≡ get? row u
  unfolding set_given
  get?-set_given_ne none v u row h = refl
  get?-set_given_ne (some []) v u row h = refl
  get?-set_given_ne (some (c ∷ s)) v u row h =
      get?-set_ne row (c ∷ s) u v (ne_of_text_eq (c ∷ s) u (not-true _ h))

  column_in-enrich_rows :
      (vars : List Text) (indsname end_var : Option Text) (u : Text) (total index : ℕ)
      (items : List (Sourced S))
      → among u vars ≡ true
      → is_other indsname u ≡ true
      → is_other end_var u ≡ true
      → all (is_free u) items ≡ true
      → column u (enrich_rows vars indsname end_var total index items)
        ≡ map (λ item. some (flag (is_var item.in_var u))) items
  unfolding enrich_rows
  column_in-enrich_rows vars indsname end_var u total index [] m i e f = refl
  column_in-enrich_rows vars indsname end_var u total index (x ∷ xs) m i e f =
      ap₂ ◌∷◌
        (get?-set_given_ne end_var _ u _ e
          ∙ get?-set_given_ne indsname _ u _ i
          ∙ set_in_vars-marks x.in_var u vars x.row m (not-true _ (and_left _ _ f)))
        (column_in-enrich_rows vars indsname end_var u total (suc index) xs m i e (and_right _ _ f))

  all-interleave :
      (resolve_value : Row S → Text → Value S) (ks : List Text) (p : Sourced S → Bool)
      (items : List (Sourced S))
      → all p (interleave resolve_value ks items) ≡ all p items
  unfolding interleave
  all-interleave resolve_value [] p items = refl
  all-interleave resolve_value (k ∷ ks) p items =
      all-sort_by (sourced_lt resolve_value (k ∷ ks)) p items

module _ {S : Scalars} {H : Type 0} (load : InputRef H → Outcome Diagnostic (List (Row S)))
    (resolve_key : Row S → Text → Option Text) (resolve_value : Row S → Text → Value S)
    (refs : List SourceRef) (by_keys in_vars : List Text) (indsname end_var : Option Text)
    (inputs : Dict (InputRef H)) (names : List Text) where
  -- If `prepare_set_rows` returns rows from the gathered ones, then an IN= variable is 1 exactly in the
  -- rows whose source declared it and 0 in all others. The variable is none of the INDSNAME= and
  -- END= variables and no flag, and the rows of sources without IN= have no column of its name.
  pub prepare_set_rows-in :
      (u : Text) (gathered : List (Sourced S)) (out : List (Row S))
      → among u in_vars ≡ true
      → is_other indsname u ≡ true
      → is_other end_var u ≡ true
      → is_no_flag by_keys u ≡ true
      → gather_rows load inputs names refs ≡ done gathered
      → all (is_free u) gathered ≡ true
      → prepare_set_rows load resolve_key resolve_value refs by_keys in_vars indsname end_var inputs
          names
        ≡ done out
      → column u out
        ≡ map
            (λ item. some (flag (is_var item.in_var u)))
            (interleave resolve_value by_keys gathered)
  unfolding prepare_set_rows
  prepare_set_rows-in u gathered out m i e n f free h =
      let items = interleave resolve_value by_keys gathered in
      let rows = enrich_rows in_vars indsname end_var (length items) 0 items in
      let finished : annotate_by_group_flags resolve_key resolve_value rows by_keys ≡ done out =
        rw f at h in
      column-annotate_by_group_flags_ne resolve_value resolve_key by_keys u rows out n finished
      ∙ column_in-enrich_rows in_vars indsname end_var u (length items) 0 items m i e
          (all-interleave resolve_value by_keys (is_free u) gathered ∙ free)
