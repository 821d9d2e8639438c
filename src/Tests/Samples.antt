-- ===== src/Tests/Samples.antt =====
-- A concrete choice of the scalars, in which floats are integral, and small data sets.
use limulus.Prelude.{ℕ, ◌≡◌, refl, sym, ◌∙◌, true, List, [], ◌∷◌, some, arith, ◌==◌}
use limulus.Prelude.Int.{ℤ, pos, ltb_ℤ}
use limulus.Text.{Text, codes, text_eq, text_eq_iff}
use limulus.Dict.{Dict}
use limulus.Diagnostic.{Diagnostic}
use limulus.Value.{
  Scalars, Value, null, bool, int, float, text, datetime, date, time, object, eq_ℤ, value_eq,
  int_of_bool, FloatLaws,
}
use limulus.Rows.Resolve.{Row, Outcome, done, failed}
use limulus.Rows.Sources.{InputRef, SourceRef}
use limulus.Rows.MergeRows.Grouping.{EqualityLaws}

abbrev pub integral : Scalars
integral = record {
  Float = ℤ;
  Datetime = ℕ;
  Time = Text;
  Object = Text;
  to_float = λ n. n;
  float_eq = eq_ℤ;
  float_lt = ltb_ℤ;
  int_float_eq = eq_ℤ;
  timestamp = λ d. pos d;
  datetime_eq = λ a b. a == b;
  isoformat = λ t. t;
  time_eq = text_eq;
  str = λ o. o;
  object_eq = text_eq;
}

eq_ℤ→eq : (a b : ℤ) → eq_ℤ a b ≡ true → a ≡ b
unfolding eq_ℤ
eq_ℤ→eq a b h = ground arith

eq_ℤ_refl : (a : ℤ) → eq_ℤ a a ≡ true
unfolding eq_ℤ
eq_ℤ_refl a = ground arith

pub integral-FloatLaws : FloatLaws integral
unfolding eq_ℤ
integral-FloatLaws = record { lt_asymm = λ x y h. ground arith; eq_symm = λ x y. ground arith }

-- Equal values have equal forms, and the other way round.
form : Value integral → ℕ × ℤ × Text
form null = (0, pos 0, [])
form (bool b) = (1, int_of_bool b, [])
form (int n) = (1, n, [])
form (float x) = (1, x, [])
form (text s) = (2, pos 0, s)
form (datetime d) = (3, pos d, [])
form (date d) = (4, pos d, [])
form (time t) = (5, pos 0, t)
form (object o) = (6, pos 0, o)

value_eq→form : (v w : Value integral) → value_eq v w ≡ true → form v ≡ form w
unfolding value_eq form
value_eq→form null null h = refl
value_eq→form (bool a) (bool b) h = rw (eq_ℤ→eq (int_of_bool a) (int_of_bool b) h)
value_eq→form (bool a) (int b) h = rw (eq_ℤ→eq (int_of_bool a) b h)
value_eq→form (bool a) (float b) h = rw (eq_ℤ→eq (int_of_bool a) b h)
value_eq→form (int a) (bool b) h = rw (eq_ℤ→eq a (int_of_bool b) h)
value_eq→form (int a) (int b) h = rw (eq_ℤ→eq a b h)
value_eq→form (int a) (float b) h = rw (eq_ℤ→eq a b h)
value_eq→form (float a) (bool b) h = rw (eq_ℤ→eq (int_of_bool b) a h)
value_eq→form (float a) (int b) h = rw (eq_ℤ→eq b a h)
value_eq→form (float a) (float b) h = rw (eq_ℤ→eq a b h)
value_eq→form (text a) (text b) h = rw ((text_eq_iff a b).0 h)
value_eq→form (datetime a) (datetime b) h = let e : a ≡ b = ground arith in rw e
value_eq→form (date a) (date b) h = let e : a ≡ b = ground arith in rw e
value_eq→form (time a) (time b) h = rw ((text_eq_iff a b).0 h)
value_eq→form (object a) (object b) h = rw ((text_eq_iff a b).0 h)
value_eq→form _ _ h = cc

form→value_eq : (v w : Value integral) → form v ≡ form w → value_eq v w ≡ true
unfolding value_eq form
form→value_eq null null h = refl
form→value_eq (bool a) (bool b) h = ground (arith, eq_ℤ_refl (int_of_bool a))
form→value_eq (bool a) (int b) h = ground (arith, eq_ℤ_refl b)
form→value_eq (bool a) (float b) h = ground (arith, eq_ℤ_refl b)
form→value_eq (int a) (bool b) h = ground (arith, eq_ℤ_refl a)
form→value_eq (int a) (int b) h = ground (arith, eq_ℤ_refl a)
form→value_eq (int a) (float b) h = ground (arith, eq_ℤ_refl a)
form→value_eq (float a) (bool b) h = ground (arith, eq_ℤ_refl a)
form→value_eq (float a) (int b) h = ground (arith, eq_ℤ_refl a)
form→value_eq (float a) (float b) h = ground (arith, eq_ℤ_refl a)
form→value_eq (text a) (text b) h = ground (arith, text_eq_iff a b)
form→value_eq (datetime a) (datetime b) h = ground arith
form→value_eq (date a) (date b) h = ground arith
form→value_eq (time a) (time b) h = ground (arith, text_eq_iff a b)
form→value_eq (object a) (object b) h = ground (arith, text_eq_iff a b)
form→value_eq _ _ h = ground arith

pub integral-EqualityLaws : EqualityLaws integral
integral-EqualityLaws = record {
  symm = λ v w h. form→value_eq w v (sym (value_eq→form v w h));
  trans = λ u v w h g. form→value_eq u w (value_eq→form u v h ∙ value_eq→form v w g);
}

-- The rows of an outcome.
abbrev pub rows_of : {A : Type 0} → Outcome Diagnostic (List A) → List A
rows_of (done rows) = rows
rows_of (failed d) = []

abbrev pub num : ℕ → Value integral
num n = int (pos n)

abbrev pub load_rows : InputRef (List (Row integral)) → Outcome Diagnostic (List (Row integral))
load_rows input = done input.carrier

-- Two sources with a key, spelled `k` and `K`, and a column each.
abbrev pub left_rows : List (Row integral)
left_rows =
    ((codes "k", num 1) ∷ (codes "a", num 10) ∷ [])
    ∷ ((codes "k", num 3) ∷ (codes "a", num 30) ∷ [])
    ∷ ((codes "k", num 3) ∷ (codes "a", num 31) ∷ [])
    ∷ []

abbrev pub right_rows : List (Row integral)
right_rows =
    ((codes "K", num 1) ∷ (codes "b", num 100) ∷ [])
    ∷ ((codes "K", num 2) ∷ (codes "b", num 200) ∷ [])
    ∷ []

abbrev pub input_of : List (Row integral) → InputRef (List (Row integral))
input_of rows = record { preparation_kind = codes "none"; carrier = rows }

abbrev pub inputs : Dict (InputRef (List (Row integral)))
inputs = (codes "left", input_of left_rows) ∷ (codes "right", input_of right_rows) ∷ []

abbrev pub refs : List SourceRef
refs =
    record { name = codes "left"; in_var = some (codes "inl") }
    ∷ record { name = codes "right"; in_var = some (codes "inr") }
    ∷ []

abbrev pub by_k : List Text
by_k = codes "k" ∷ []
