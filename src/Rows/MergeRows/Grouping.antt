-- ===== src/Rows/MergeRows/Grouping.antt =====
-- The groups of a source are its rows of equal BY values, in order.
use limulus.Prelude.{
  ◌≡◌, refl, sym, ap, ◌∙◌, Bool, true, false, List, [], ◌∷◌, ◌++◌, arith, Bool-cases, inl, inr,
  if◌then◌else◌,
}
use mathlib.Core.List.{append_assoc, append-nil}
use limulus.Prelude.Sort.{select}
use limulus.Value.{Scalars, Value, value_eq}
use limulus.Rows.Resolve.{Row}
use limulus.Rows.MergeAlign.{MergeKey, Groups, merge_key_eq, add_to_group, group_of, group_rows}

-- What Python's `==` satisfies on the values of rows, NaN included.
pub record EqualityLaws (S : Scalars) : Type 0 where
  pub symm : (v w : Value S) → value_eq v w ≡ true → value_eq w v ≡ true
  pub trans : (u v w : Value S) → value_eq u v ≡ true → value_eq v w ≡ true → value_eq u w ≡ true

module _ {S : Scalars} (laws : EqualityLaws S) where
  merge_key_eq_symm : (k l : MergeKey S) → merge_key_eq k l ≡ true → merge_key_eq l k ≡ true
  unfolding merge_key_eq
  merge_key_eq_symm [] [] h = refl
  merge_key_eq_symm [] (w ∷ l) h = cc
  merge_key_eq_symm (v ∷ k) [] h = cc
  merge_key_eq_symm (v ∷ k) (w ∷ l) h = ground (arith, laws.symm v w, merge_key_eq_symm k l)

  merge_key_eq_trans :
      (k l m : MergeKey S)
      → merge_key_eq k l ≡ true
      → merge_key_eq l m ≡ true
      → merge_key_eq k m ≡ true
  unfolding merge_key_eq
  merge_key_eq_trans [] [] m h g = g
  merge_key_eq_trans [] (w ∷ l) m h g = cc
  merge_key_eq_trans (v ∷ k) [] m h g = cc
  merge_key_eq_trans (v ∷ k) (w ∷ l) [] h g = cc
  merge_key_eq_trans (v ∷ k) (w ∷ l) (x ∷ m) h g =
      ground (arith, laws.trans v w x, merge_key_eq_trans k l m)

  group_of-add_to_group :
      (key k : MergeKey S) (row : Row S) (groups : Groups S)
      → group_of (add_to_group k row groups) key
        ≡ group_of groups key ++ (if merge_key_eq k key then row ∷ [] else [])
  unfolding group_of add_to_group
  group_of-add_to_group key k row [] = refl
  group_of-add_to_group key k row ((g, rows) ∷ groups) = elim (Bool-cases (merge_key_eq g k)) [
    | inl same ↦ elim (Bool-cases (merge_key_eq g key)) [
      | inl found ↦ rw (same, found, merge_key_eq_trans k g key (merge_key_eq_symm g k same) found)
      | inr other ↦ elim (Bool-cases (merge_key_eq k key)) [
        | inl hit ↦ absurd (ground (arith, merge_key_eq_trans g k key same hit))
        | inr miss ↦ rw (same, other, miss) (sym (append-nil (group_of groups key)))
      ]
    ]
    | inr apart ↦ elim (Bool-cases (merge_key_eq g key)) [
      | inl found ↦ elim (Bool-cases (merge_key_eq k key)) [
        | inl hit ↦
            absurd (ground (arith, merge_key_eq_trans g key k found (merge_key_eq_symm k key hit)))
        | inr miss ↦ rw (apart, found, miss) (sym (append-nil rows))
      ]
      | inr other ↦ rw (apart, other) (group_of-add_to_group key k row groups)
    ]
  ]

  group_of-group_rows_from :
      (key_of : Row S → MergeKey S) (key : MergeKey S) (rows : List (Row S)) (groups : Groups S)
      → group_of (group_rows key_of rows groups) key
        ≡ group_of groups key ++ select (λ row. merge_key_eq (key_of row) key) rows
  unfolding group_rows
  group_of-group_rows_from key_of key [] groups = sym (append-nil (group_of groups key))
  group_of-group_rows_from key_of key (row ∷ rows) groups =
      group_of-group_rows_from key_of key rows (add_to_group (key_of row) row groups)
      ∙ ap (λ g. g ++ select (λ row. merge_key_eq (key_of row) key) rows)
          (group_of-add_to_group key (key_of row) row groups)
      ∙ step (merge_key_eq (key_of row) key)
    where
      step :
          (b : Bool)
          → (group_of groups key ++ (if b then row ∷ [] else []))
              ++ select (λ row. merge_key_eq (key_of row) key) rows
            ≡ group_of groups key
              ++ (if b
                  then row ∷ select (λ row. merge_key_eq (key_of row) key) rows
                  else select (λ row. merge_key_eq (key_of row) key) rows)
      step true =
          append_assoc (group_of groups key) (row ∷ [])
            (select (λ row. merge_key_eq (key_of row) key) rows)
      step false = rw (append-nil (group_of groups key))

  -- The group of a key holds the rows of the source whose BY values equal the key, each as often as it
  -- is there and in the order of the source. Equality of values is symmetric and transitive.
  pub group_of-group_rows :
      (key_of : Row S → MergeKey S) (key : MergeKey S) (rows : List (Row S))
      → group_of (group_rows key_of rows []) key
        ≡ select (λ row. merge_key_eq (key_of row) key) rows
  unfolding group_of
  group_of-group_rows key_of key rows = group_of-group_rows_from key_of key rows []
