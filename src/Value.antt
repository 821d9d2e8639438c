-- ===== src/Value.antt =====
-- The values that a row holds (`Any` in limulus/execution/rewrites.py), and the order by which rows
-- are sorted. Floats, date-times, times and values of further classes are parameters.
use limulus.Prelude.{ℕ, ◌≡◌, Bool, true, false, ◌&&◌, List, [], ◌∷◌, ltb, ◌==◌, if◌then◌else◌}
use limulus.Prelude.Int.{ℤ, pos, negsuc, ltb_ℤ}
use limulus.Text.{Text, text_eq}

-- What Python gives for the classes whose values are not written out here.
pub record Scalars : Type 1 where
  pub Float : Type 0
  pub Datetime : Type 0
  pub Time : Type 0
  pub Object : Type 0
  -- `float(i)`
  pub to_float : ℤ → Float
  pub float_eq : Float → Float → Bool
  pub float_lt : Float → Float → Bool
  -- `i == x` of an int and a float
  pub int_float_eq : ℤ → Float → Bool
  pub timestamp : Datetime → Float
  pub datetime_eq : Datetime → Datetime → Bool
  pub isoformat : Time → Text
  pub time_eq : Time → Time → Bool
  -- `str(x)`
  pub str : Object → Text
  pub object_eq : Object → Object → Bool

-- `date` holds the ordinal of the day.
pub data Value (S : Scalars) : Type 0 where
  null : Value S
  bool : Bool → Value S
  int : ℤ → Value S
  float : S.Float → Value S
  text : Text → Value S
  datetime : S.Datetime → Value S
  date : ℕ → Value S
  time : S.Time → Value S
  object : S.Object → Value S

abbrev pub int_of_bool : Bool → ℤ
int_of_bool true = pos 1
int_of_bool false = pos 0

unfoldable pub eq_ℤ : ℤ → ℤ → Bool
eq_ℤ (pos a) (pos b) = a == b
eq_ℤ (negsuc a) (negsuc b) = a == b
eq_ℤ _ _ = false

-- Python's `==`: numbers are compared across their classes, and a value of a further class equals
-- only values of such classes.
unfoldable pub value_eq : {S : Scalars} → Value S → Value S → Bool
unfolding eq_ℤ text_eq
value_eq null null = true
value_eq (bool a) (bool b) = eq_ℤ (int_of_bool a) (int_of_bool b)
value_eq (bool a) (int b) = eq_ℤ (int_of_bool a) b
value_eq {S} (bool a) (float b) = S.int_float_eq (int_of_bool a) b
value_eq (int a) (bool b) = eq_ℤ a (int_of_bool b)
value_eq (int a) (int b) = eq_ℤ a b
value_eq {S} (int a) (float b) = S.int_float_eq a b
value_eq {S} (float a) (bool b) = S.int_float_eq (int_of_bool b) a
value_eq {S} (float a) (int b) = S.int_float_eq b a
value_eq {S} (float a) (float b) = S.float_eq a b
value_eq (text a) (text b) = text_eq a b
value_eq {S} (datetime a) (datetime b) = S.datetime_eq a b
value_eq (date a) (date b) = a == b
value_eq {S} (time a) (time b) = S.time_eq a b
value_eq {S} (object a) (object b) = S.object_eq a b
value_eq _ _ = false

-- The last entry of a sort key.
pub data SortItem (S : Scalars) : Type 0 where
  number : ℤ → SortItem S
  real : S.Float → SortItem S
  word : Text → SortItem S

abbrev pub SortKey : Scalars → Type 0
SortKey S = ℕ × ℕ × SortItem S

unfoldable pub sortable_value : {S : Scalars} → Value S → SortKey S
sortable_value null = (1, 0, number (pos 0))
sortable_value (bool b) = (0, 0, number (int_of_bool b))
sortable_value {S} (int n) = (0, 1, real (S.to_float n))
sortable_value (float x) = (0, 1, real x)
sortable_value {S} (datetime d) = (0, 2, real (S.timestamp d))
sortable_value (date ordinal) = (0, 3, number (pos ordinal))
sortable_value {S} (time t) = (0, 4, word (S.isoformat t))
sortable_value (text s) = (0, 5, word s)
sortable_value {S} (object o) = (0, 5, word (S.str o))

-- `s < t` on texts: by code points, a prefix first.
unfoldable pub text_lt : Text → Text → Bool
text_lt s [] = false
text_lt [] (d ∷ t) = true
text_lt (c ∷ s) (d ∷ t) = if c == d then text_lt s t else ltb c d

-- Items of two kinds are never compared: the rank beside an item determines its kind.
unfoldable pub item_eq : {S : Scalars} → SortItem S → SortItem S → Bool
unfolding eq_ℤ text_eq
item_eq (number a) (number b) = eq_ℤ a b
item_eq {S} (real a) (real b) = S.float_eq a b
item_eq (word a) (word b) = text_eq a b
item_eq _ _ = false

unfoldable pub item_lt : {S : Scalars} → SortItem S → SortItem S → Bool
unfolding text_lt
item_lt (number a) (number b) = ltb_ℤ a b
item_lt {S} (real a) (real b) = S.float_lt a b
item_lt (word a) (word b) = text_lt a b
item_lt _ _ = false

module _ {S : Scalars} where
  -- Tuples are compared at the first place where they differ.
  unfoldable pub key_eq : SortKey S → SortKey S → Bool
  unfolding item_eq
  key_eq (a, b, x) (c, d, y) = (a == c) && ((b == d) && item_eq x y)

  unfoldable pub key_lt : SortKey S → SortKey S → Bool
  unfolding item_eq item_lt
  key_lt (a, b, x) (c, d, y) =
      if a == c
      then if b == d then if item_eq x y then false else item_lt x y else ltb b d
      else ltb a c

  unfoldable pub keys_lt : List (SortKey S) → List (SortKey S) → Bool
  unfolding key_eq key_lt
  keys_lt ks [] = false
  keys_lt [] (l ∷ ls) = true
  keys_lt (k ∷ ks) (l ∷ ls) = if key_eq k l then keys_lt ks ls else key_lt k l

-- What IEEE comparison gives for every pair of floats, NaN included.
pub record FloatLaws (S : Scalars) : Type 0 where
  pub lt_asymm : (x y : S.Float) → S.float_lt x y ≡ true → S.float_lt y x ≡ false
  pub eq_symm : (x y : S.Float) → S.float_eq x y ≡ S.float_eq y x
