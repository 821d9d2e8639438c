-- ===== src/Rows/ByGroups/Columns.antt =====
-- The row pass writes the flag columns that the column pass computes.
use limulus.Prelude.{
  ◌≡◌, refl, ◌∙◌, ◌≢◌, Bool, true, false, List, [], ◌∷◌, map, Option, none, some, arith, Bool-cases,
  inl, inr, any,
}
use mathlib.Core.Path.{ap₂}
use limulus.Text.{Text, text_eq, text_eq_iff, text_eq_refl}
use limulus.Dict.{get?, set, get?-set, get?-set_ne, get?-set_self}
use limulus.Value.{Scalars, Value}
use limulus.Rows.Resolve.{Row}
use limulus.Rows.ByGroups.{
  first_name, last_name, first_alias, last_alias, flag, differs, set_flags, first_values,
  last_values, head?, annotate_key, annotate_keys, neighbour,
}

module _ {S : Scalars} where
  pub get?-set_flags_first :
      (k : Text) (f l : Bool) (row : Row S)
      → get? (set_flags k f l row) (first_name k) ≡ some (flag f)
  unfolding set_flags text_eq
  get?-set_flags_first k f l row =
      rw (get?-set, get?-set, get?-set) (get?-set_self row (first_name k) (flag f))

  pub get?-set_flags_last :
      (k : Text) (f l : Bool) (row : Row S)
      → get? (set_flags k f l row) (last_name k) ≡ some (flag l)
  unfolding set_flags text_eq
  get?-set_flags_last k f l row =
      rw (get?-set, get?-set)
        (get?-set_self (set row (first_name k) (flag f)) (last_name k) (flag l))

  pub get?-set_flags_ne :
      (k : Text) (f l : Bool) (row : Row S) (n : Text)
      → first_name k ≢ n
      → last_name k ≢ n
      → first_alias k ≢ n
      → last_alias k ≢ n
      → get? (set_flags k f l row) n ≡ get? row n
  unfolding set_flags
  get?-set_flags_ne k f l row n a b c d =
      rw
        (
          get?-set_ne _ (last_alias k) n _ d,
          get?-set_ne _ (first_alias k) n _ c,
          get?-set_ne _ (last_name k) n _ b,
        )
        (get?-set_ne row (first_name k) n (flag f) a)

  get?-set_flags_other_first :
      (k j : Text) (f l : Bool) (row : Row S)
      → text_eq k j ≡ false
      → get? (set_flags k f l row) (first_name j) ≡ get? row (first_name j)
  unfolding set_flags text_eq
  get?-set_flags_other_first k j f l row h = rw (get?-set, get?-set, get?-set, get?-set, h) refl

  get?-set_flags_other_last :
      (k j : Text) (f l : Bool) (row : Row S)
      → text_eq k j ≡ false
      → get? (set_flags k f l row) (last_name j) ≡ get? row (last_name j)
  unfolding set_flags text_eq
  get?-set_flags_other_last k j f l row h = rw (get?-set, get?-set, get?-set, get?-set, h) refl

-- One column of the rows, as it is stored.
abbrev pub column : {S : Scalars} → Text → List (Row S) → List (Option (Value S))
column n = map (λ row. get? row n)

-- The flags as the rows store them.
abbrev pub stored : {S : Scalars} → List Bool → List (Option (Value S))
stored = map (λ b. some (flag b))

-- `k` is one of the keys.
abbrev pub among : Text → List Text → Bool
among k = any (λ j. text_eq j k)

module _ {S : Scalars} (resolve_value : Row S → Text → Value S) where
  abbrev pub values : Text → List (Row S) → List (Value S)
  values k = map (λ row. resolve_value row k)

  -- The flags of `k` do not change what the rows hold for `j`.
  abbrev pub Leaves : Text → Text → Type 0
  Leaves k j =
      (f l : Bool) (row : Row S) → resolve_value (set_flags k f l row) j ≡ resolve_value row j

  -- The row after the four writes of `annotate_key`.
  abbrev flagged : Text → Option (Row S) → Row S → List (Row S) → Row S
  flagged k p row rest =
      set_flags k (differs (resolve_value row k) (neighbour resolve_value k p))
        (differs (resolve_value row k) (neighbour resolve_value k (head? rest))) row

  head?-values :
      (k : Text) (rows : List (Row S))
      → neighbour resolve_value k (head? rows) ≡ head? (values k rows)
  head?-values k [] = refl
  head?-values k (row ∷ rows) = refl

  values-annotate_key :
      (k j : Text) (keep : Leaves k j) (p : Option (Row S)) (rows : List (Row S))
      → values j (annotate_key resolve_value k p rows) ≡ values j rows
  unfolding annotate_key
  values-annotate_key k j keep p [] = refl
  values-annotate_key k j keep p (row ∷ rest) =
      ap₂ ◌∷◌ (keep _ _ row) (values-annotate_key k j keep (some (flagged k p row rest)) rest)

  column_first-annotate_key :
      (k : Text) (keep : Leaves k k) (p : Option (Row S)) (rows : List (Row S))
      → column (first_name k) (annotate_key resolve_value k p rows)
        ≡ stored (first_values (neighbour resolve_value k p) (values k rows))
  unfolding annotate_key first_values
  column_first-annotate_key k keep p [] = refl
  column_first-annotate_key k keep p (row ∷ rest) =
      let next = flagged k p row rest in
      let same : resolve_value next k ≡ resolve_value row k = keep _ _ row in
      ap₂ ◌∷◌ (get?-set_flags_first k _ _ row)
        (rw same at (column_first-annotate_key k keep (some next) rest))

  column_last-annotate_key :
      (k : Text) (p : Option (Row S)) (rows : List (Row S))
      → column (last_name k) (annotate_key resolve_value k p rows)
        ≡ stored (last_values (values k rows))
  unfolding annotate_key last_values
  column_last-annotate_key k p [] = refl
  column_last-annotate_key k p (row ∷ rest) =
      ap₂ ◌∷◌ (get?-set_flags_last k _ _ row ∙ rw (head?-values k rest))
        (column_last-annotate_key k (some (flagged k p row rest)) rest)

  column_first-annotate_other :
      (k j : Text) (other : text_eq k j ≡ false) (p : Option (Row S)) (rows : List (Row S))
      → column (first_name j) (annotate_key resolve_value k p rows) ≡ column (first_name j) rows
  unfolding annotate_key
  column_first-annotate_other k j other p [] = refl
  column_first-annotate_other k j other p (row ∷ rest) =
      ap₂ ◌∷◌ (get?-set_flags_other_first k j _ _ row other)
        (column_first-annotate_other k j other (some (flagged k p row rest)) rest)

  column_last-annotate_other :
      (k j : Text) (other : text_eq k j ≡ false) (p : Option (Row S)) (rows : List (Row S))
      → column (last_name j) (annotate_key resolve_value k p rows) ≡ column (last_name j) rows
  unfolding annotate_key
  column_last-annotate_other k j other p [] = refl
  column_last-annotate_other k j other p (row ∷ rest) =
      ap₂ ◌∷◌ (get?-set_flags_other_last k j _ _ row other)
        (column_last-annotate_other k j other (some (flagged k p row rest)) rest)

  columns-annotate_absent :
      (ks : List Text) (j : Text)
      → among j ks ≡ false
      → (rows : List (Row S))
      → (column (first_name j) (annotate_keys resolve_value ks rows) ≡ column (first_name j) rows)
        × (column (last_name j) (annotate_keys resolve_value ks rows) ≡ column (last_name j) rows)
  unfolding annotate_keys
  columns-annotate_absent [] j absent rows = (refl, refl)
  columns-annotate_absent (k ∷ ks) j absent rows =
      let ih =
        columns-annotate_absent ks j (ground arith) (annotate_key resolve_value k none rows) in
      (
        ih.0 ∙ column_first-annotate_other k j (ground arith) none rows,
        ih.1 ∙ column_last-annotate_other k j (ground arith) none rows,
      )

  values-annotate_keys :
      (ks : List Text) (j : Text) (keep : (k : Text) → among k ks ≡ true → Leaves k j)
      (rows : List (Row S))
      → values j (annotate_keys resolve_value ks rows) ≡ values j rows
  unfolding annotate_keys
  values-annotate_keys [] j keep rows = refl
  values-annotate_keys (k ∷ ks) j keep rows =
      values-annotate_keys ks j (λ i m. keep i (ground arith))
        (annotate_key resolve_value k none rows)
      ∙ values-annotate_key k j (keep k (ground (arith, text_eq_refl k))) none rows

  pub columns-annotate_keys :
      (ks : List Text) (j : Text)
      → among j ks ≡ true
      → (keep : (k : Text) → among k ks ≡ true → Leaves k j) (rows : List (Row S))
      → (column (first_name j) (annotate_keys resolve_value ks rows)
          ≡ stored (first_values none (values j rows)))
        × (column (last_name j) (annotate_keys resolve_value ks rows)
            ≡ stored (last_values (values j rows)))
  unfolding annotate_keys
  columns-annotate_keys [] j present keep rows = absurd (ground arith)
  columns-annotate_keys (k ∷ ks) j present keep rows = elim (Bool-cases (among j ks)) [
    | inl again ↦
        let next = annotate_key resolve_value k none rows in
        let same = values-annotate_key k j (keep k (ground (arith, text_eq_refl k))) none rows in
        rw same at (columns-annotate_keys ks j again (λ i m. keep i (ground arith)) next)
    | inr last ↦
        let next = annotate_key resolve_value k none rows in
        let e : k ≡ j = ground (arith, text_eq_iff k j) in
        let ends = columns-annotate_absent ks j last next in
        let own = keep k (ground (arith, text_eq_refl k)) in
        (
          ends.0 ∙ rw (← e) (column_first-annotate_key k (rw (← e) at own) none rows),
          ends.1 ∙ rw (← e) (column_last-annotate_key k none rows),
        )
  ]
