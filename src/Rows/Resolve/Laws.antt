-- ===== src/Rows/Resolve/Laws.antt =====
-- A write under another column key leaves the value of a column, and the two value lookups agree.
use limulus.Prelude.{
  ◌≡◌, refl, ap, true, false, [], ◌∷◌, none, some, arith, Bool-cases, inl, inr, Option-cases,
}
use limulus.Text.{Text, text_eq, text_eq→eq, text_eq_iff, ne_of_text_eq, text_eq-false}
use limulus.Dict.{get?, set, contains, get?-set_ne}
use limulus.Naming.{column_key}
use limulus.Value.{Scalars, Value}
use limulus.Rows.Resolve.{Row, value_by_key, name_by_key, resolve_row_value, row_value_of_key}

module _ {S : Scalars} where
  value_by_key-set :
      (row : Row S) (n key : Text) (v : Value S)
      → text_eq (column_key n) key ≡ false
      → value_by_key (set row n v) key ≡ value_by_key row key
  unfolding value_by_key set
  value_by_key-set [] n key v h = rw h
  value_by_key-set ((i, w) ∷ row) n key v h = elim (Bool-cases (text_eq i n)) [
    | inl same ↦
        let e : i ≡ n = text_eq→eq i n same in
        let apart : text_eq (column_key i) key ≡ false = rw e h in ground arith
    | inr other ↦ ground (arith, value_by_key-set row n key v h)
  ]

  pub resolve_row_value-set_ne :
      (row : Row S) (n j : Text) (v : Value S)
      → text_eq (column_key n) (column_key j) ≡ false
      → resolve_row_value (set row n v) j ≡ resolve_row_value row j
  unfolding resolve_row_value
  resolve_row_value-set_ne row n j v h = ground (
    arith,
    get?-set_ne row n j v (λ e. ne_of_text_eq _ _ h (ap column_key e)),
    value_by_key-set row n (column_key j) v h,
  )

  get?-of_contains-false : (row : Row S) (n : Text) → contains row n ≡ false → get? row n ≡ none
  unfolding get? contains
  get?-of_contains-false [] n h = refl
  get?-of_contains-false ((i, w) ∷ row) n h = ground (arith, get?-of_contains-false row n)

  get?-of_contains :
      (row : Row S) (n : Text) → contains row n ≡ true → (v : Value S) × (get? row n ≡ some v)
  unfolding get? contains
  get?-of_contains [] n h = cc
  get?-of_contains ((i, w) ∷ row) n h = elim (Bool-cases (text_eq i n)) [
    | inl same ↦ (w, rw same)
    | inr other ↦ let (v, e) = get?-of_contains row n (ground arith) in (v, rw other e)
  ]

  name_by_key-key :
      (row : Row S) (key c : Text)
      → name_by_key row key ≡ some c
      → text_eq (column_key c) key ≡ true
  unfolding name_by_key
  name_by_key-key [] key c h = cc
  name_by_key-key ((i, w) ∷ row) key c h = ground (arith, name_by_key-key row key c)

  -- The first column with the key is also the first column of its name.
  get?-name_by_key :
      (row : Row S) (key c : Text)
      → name_by_key row key ≡ some c
      → get? row c ≡ value_by_key row key
  unfolding get? value_by_key name_by_key
  get?-name_by_key [] key c h = cc
  get?-name_by_key ((i, w) ∷ row) key c h = elim (Bool-cases (text_eq (column_key i) key)) [
    | inl same ↦ ground (arith, text_eq_iff i c)
    | inr other ↦
        let keyed = name_by_key-key row key c (ground arith) in
        let apart : text_eq i c ≡ false =
          text_eq-false i c (λ (e : i ≡ c). ground (arith, ap column_key e)) in
        ground (arith, get?-name_by_key row key c)
  ]

  value_by_key-none :
      (row : Row S) (key : Text) → name_by_key row key ≡ none → value_by_key row key ≡ none
  unfolding value_by_key name_by_key
  value_by_key-none [] key h = refl
  value_by_key-none ((i, w) ∷ row) key h = ground (arith, value_by_key-none row key)

  -- The lookup of the row stages and that of the input preparation service give the same value, for
  -- every row and every name.
  pub row_value_of_key-eq-resolve_row_value :
      (row : Row S) (name : Text) → row_value_of_key row name ≡ resolve_row_value row name
  unfolding row_value_of_key resolve_row_value
  row_value_of_key-eq-resolve_row_value row name = elim (Bool-cases (contains row name)) [
    | inl there ↦ let (v, e) = get?-of_contains row name there in ground arith
    | inr absent ↦
        let none_there = get?-of_contains-false row name absent in
        elim (Option-cases (name_by_key row (column_key name))) [
          | inl nowhere ↦ ground (arith, value_by_key-none row (column_key name) nowhere)
          | inr (c, e) ↦ ground (arith, get?-name_by_key row (column_key name) c e)
        ]
  ]
