-- ===== src/Rows/MergeRows/Combine.antt =====
-- One output row of a MERGE: which source gives the value of a column, which sources contribute,
-- and what the IN= variables say.
use limulus.Prelude.{
  ℕ, ◌≡◌, refl, sym, ap, ◌∙◌, Bool, true, false, not, ◌&&◌, List, [], ◌∷◌, ◌++◌, Option, none, some,
  arith, Bool-cases, inl, inr, all, and_left, and_right, not-true, get_or,
}
use mathlib.Core.List.{append_assoc, append-nil}
use limulus.Text.{Text, text_eq, text_eq_iff, ne_of_text_eq}
use limulus.Dict.{get?, set, update, contains, get?-set, get?-set_self, get?-set_ne}
use limulus.Value.{Scalars, Value}
use limulus.Rows.Resolve.{Row}
use limulus.Rows.ByGroups.{flag}
use limulus.Rows.MergeSources.{member}
use limulus.Rows.MergeAlign.{combine_rows, mark_contributors}

-- No column stands twice, as in every `dict`.
abbrev pub is_dict : {S : Scalars} → Row S → Bool
is_dict [] = true
is_dict ((k, v) ∷ row) = not (contains row k) && is_dict row

-- The first value that there is.
abbrev pub or_else {ℓ} : {A : Type ℓ} → Option A → Option A → Option A
or_else (some a) o = some a
or_else none o = o

or_else_assoc {ℓ} :
    {A : Type ℓ} (o p q : Option A) → or_else o (or_else p q) ≡ or_else (or_else o p) q
or_else_assoc none p q = refl
or_else_assoc (some a) p q = refl

-- No source declares the IN= variable `u`.
abbrev pub no_in_var : List (Text × Option Text) → Text → Bool
no_in_var sources u = all (λ s. not (text_eq (get_or s.1 []) u)) sources

module _ {S : Scalars} where
  get?-of_absent : (row : Row S) (c : Text) → contains row c ≡ false → get? row c ≡ none
  unfolding get? contains
  get?-of_absent [] c h = refl
  get?-of_absent ((k, v) ∷ row) c h = ground (arith, get?-of_absent row c)

  get?-update :
      (d e : Row S) (c : Text)
      → is_dict e ≡ true
      → get? (update d e) c ≡ or_else (get? e c) (get? d c)
  unfolding update get?
  get?-update d [] c h = refl
  get?-update d ((k, v) ∷ e) c h =
      let free : contains e k ≡ false =
        not-true (contains e k) (and_left (not (contains e k)) (is_dict e) h) in
      let tail : is_dict e ≡ true = and_right (not (contains e k)) (is_dict e) h in
      elim (Bool-cases (text_eq k c)) [
        | inl same ↦
            let eq : k ≡ c = (text_eq_iff k c).0 same in
            let absent : get? e c ≡ none = get?-of_absent e c (rw eq at free) in
            ground (arith, get?-update (set d k v) e c tail, get?-set d k c v)
        | inr other ↦ ground (arith, get?-update (set d k v) e c tail, get?-set d k c v)
      ]

  abbrev pub row_or_empty : Option (Row S) → Row S
  row_or_empty none = []
  row_or_empty (some row) = row

  -- The value of a column in the last part that has the column.
  unfoldable pub last_value : List (Text × Option (Row S)) → Text → Option (Value S)
  unfolding get?
  last_value [] c = none
  last_value ((n, part) ∷ parts) c = or_else (last_value parts c) (get? (row_or_empty part) c)

  -- The names of the parts that have a row.
  unfoldable pub names_with_row : List (Text × Option (Row S)) → List Text
  names_with_row [] = []
  names_with_row ((n, none) ∷ parts) = names_with_row parts
  names_with_row ((n, some row) ∷ parts) = n ∷ names_with_row parts

  -- Merging the rows of the sources, each of which is a `dict`, gives every column the value of the
  -- last source that has it, or else the value from before, and notes exactly the sources that
  -- have a row, in order.
  pub combine_rows_lem :
      (parts : List (Text × Option (Row S))) (merged : Row S) (names : List Text) (c : Text)
      → all (λ part. is_dict (row_or_empty part.1)) parts ≡ true
      → (get? (combine_rows parts merged names).0 c ≡ or_else (last_value parts c) (get? merged c))
        × ((combine_rows parts merged names).1 ≡ names ++ names_with_row parts)
  unfolding combine_rows last_value names_with_row
  combine_rows_lem [] merged names c h = (refl, sym (append-nil names))
  combine_rows_lem ((n, none) ∷ parts) merged names c h =
      let ih = combine_rows_lem parts merged names c h in
      (ih.0 ∙ unfold get? in or_else_assoc (last_value parts c) none (get? merged c), ih.1)
  combine_rows_lem ((n, some row) ∷ parts) merged names c h =
      let ih = combine_rows_lem parts (update merged row) (names ++ n ∷ []) c (and_right _ _ h) in
      (
        ih.0
            ∙ ap (or_else (last_value parts c)) (get?-update merged row c (and_left _ _ h))
            ∙ or_else_assoc (last_value parts c) (get? row c) (get? merged c),
        ih.1 ∙ append_assoc names (n ∷ []) (names_with_row parts),
      )

  pub mark_contributors_ne :
      (sources : List (Text × Option Text)) (names : List Text) (u : Text) (row : Row S)
      → no_in_var sources u ≡ true
      → get? (mark_contributors sources names row) u ≡ get? row u
  unfolding mark_contributors
  mark_contributors_ne [] names u row h = refl
  mark_contributors_ne ((n, none) ∷ sources) names u row h =
      mark_contributors_ne sources names u row (and_right _ _ h)
  mark_contributors_ne ((n, some []) ∷ sources) names u row h =
      mark_contributors_ne sources names u row (and_right _ _ h)
  mark_contributors_ne ((n, some (c ∷ s)) ∷ sources) names u row h =
      mark_contributors_ne sources names u _ (and_right _ _ h)
      ∙ get?-set_ne row (c ∷ s) u _ (ne_of_text_eq (c ∷ s) u (not-true _ (and_left _ _ h)))

  -- An IN= variable says whether a source of that name contributes to the row, if no later source
  -- declares the same variable.
  pub mark_contributors_lem :
      (before after : List (Text × Option Text)) (n : Text) (c : ℕ) (s : Text) (names : List Text)
      (row : Row S)
      → no_in_var after (c ∷ s) ≡ true
      → get? (mark_contributors (before ++ (n, some (c ∷ s)) ∷ after) names row) (c ∷ s)
        ≡ some (flag (member names n))
  unfolding mark_contributors
  mark_contributors_lem [] after n c s names row h =
      mark_contributors_ne after names (c ∷ s) _ h
      ∙ get?-set_self row (c ∷ s) (flag (member names n))
  mark_contributors_lem ((m, none) ∷ before) after n c s names row h =
      mark_contributors_lem before after n c s names row h
  mark_contributors_lem ((m, some []) ∷ before) after n c s names row h =
      mark_contributors_lem before after n c s names row h
  mark_contributors_lem ((m, some (d ∷ t)) ∷ before) after n c s names row h =
      mark_contributors_lem before after n c s names (set row (d ∷ t) (flag (member names m))) h
