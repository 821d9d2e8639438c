-- ===== src/Rows/Sort.antt =====
-- The order of rows by their BY values: `build_row_sort_key` of limulus/execution/rewrites.py.
use limulus.Prelude.{◌≡◌, refl, true, false, List, [], ◌∷◌, map, arith}
use limulus.Prelude.Int.{ℤ, ltb_ℤ}
use limulus.Text.{Text, text_eq, text_eq_iff}
use limulus.Value.{
  Scalars, Value, SortKey, SortItem, number, real, word, sortable_value, keys_lt, key_lt, key_eq,
  item_lt, item_eq, text_lt, eq_ℤ, FloatLaws,
}
use limulus.Rows.Resolve.{Row}

module _ {S : Scalars} (resolve_value : Row S → Text → Value S) where
  unfoldable pub build_row_sort_key : List Text → Row S → List (SortKey S)
  unfolding sortable_value
  build_row_sort_key by_keys row = map (λ key. sortable_value (resolve_value row key)) by_keys

text_lt_asymm : (s t : Text) → text_lt s t ≡ true → text_lt t s ≡ false
unfolding text_lt
text_lt_asymm [] [] h = refl
text_lt_asymm (c ∷ s) [] h = cc
text_lt_asymm [] (d ∷ t) h = refl
text_lt_asymm (c ∷ s) (d ∷ t) h = ground (arith, text_lt_asymm s t)

eq_ℤ_symm : (a b : ℤ) → eq_ℤ a b ≡ eq_ℤ b a
unfolding eq_ℤ
eq_ℤ_symm a b = ground arith

ltb_ℤ_asymm : (a b : ℤ) → ltb_ℤ a b ≡ true → ltb_ℤ b a ≡ false
ltb_ℤ_asymm a b h = ground arith

text_eq_symm : (s t : Text) → text_eq s t ≡ text_eq t s
text_eq_symm s t = ground (arith, text_eq_iff s t, text_eq_iff t s)

module _ {S : Scalars} (laws : FloatLaws S) where
  item_eq_symm : (x y : SortItem S) → item_eq x y ≡ item_eq y x
  unfolding item_eq
  item_eq_symm (number a) (number b) = eq_ℤ_symm a b
  item_eq_symm (real a) (real b) = laws.eq_symm a b
  item_eq_symm (word a) (word b) = text_eq_symm a b
  item_eq_symm _ _ = refl

  item_lt_asymm : (x y : SortItem S) → item_lt x y ≡ true → item_lt y x ≡ false
  unfolding item_lt
  item_lt_asymm (number a) (number b) h = ltb_ℤ_asymm a b h
  item_lt_asymm (real a) (real b) h = laws.lt_asymm a b h
  item_lt_asymm (word a) (word b) h = text_lt_asymm a b h
  item_lt_asymm _ _ h = refl

  key_eq_symm : (k l : SortKey S) → key_eq k l ≡ key_eq l k
  unfolding key_eq
  key_eq_symm (a, b, x) (c, d, y) = ground (arith, item_eq_symm x y)

  key_lt_asymm : (k l : SortKey S) → key_lt k l ≡ true → key_lt l k ≡ false
  unfolding key_lt
  key_lt_asymm (a, b, x) (c, d, y) h = ground (arith, item_eq_symm x y, item_lt_asymm x y)

  -- Of two rows' keys at most one is below the other.
  pub keys_lt_asymm : (ks ls : List (SortKey S)) → keys_lt ks ls ≡ true → keys_lt ls ks ≡ false
  unfolding keys_lt
  keys_lt_asymm [] [] h = cc
  keys_lt_asymm (k ∷ ks) [] h = cc
  keys_lt_asymm [] (l ∷ ls) h = refl
  keys_lt_asymm (k ∷ ks) (l ∷ ls) h =
      ground (arith, key_eq_symm k l, key_lt_asymm k l, keys_lt_asymm ks ls)
