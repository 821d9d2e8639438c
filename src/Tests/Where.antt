-- ===== src/Tests/Where.antt =====
-- A WHERE= option over a table of one column, in an Arrow of vectors that are functions: a length, the
-- truth values of a mask, and the cells of a column.
use limulus.Prelude.{
  ℕ, ◌≡◌, refl, Bool, true, false, not, List, [], ◌∷◌, Option, none, some, ◌==◌, ltb, get_or,
  if◌then◌else◌,
}
use limulus.Prelude.Int.{pos}
use limulus.Text.{Text, codes, lower, text_eq}
use limulus.Dict.{Dict}
use limulus.Syntax.Options.{
  WhereScalar, int, gt, and_, WhereExpression, comparison, null_predicate, logical, not_, nil, cons,
}
use limulus.Where.{
  Attempt, returns, raises, Kernel, equal, not_equal, greater, greater_equal, less, less_equal,
  Arrow, mask, invalid, evaluate_dataset_where, matches,
}
use limulus.Where.Meaning.{
  kleene_not, kleene_and, kleene_or, is_none, tested, KernelLaws, is_supported, row_value,
}
use limulus.Where.Laws.{evaluate_dataset_where-row_value}

record Vector : Type 0 where
  count : ℕ
  truth : ℕ → Option Bool
  cell : ℕ → Option ℕ

abbrev no_cells : ℕ → Option ℕ
no_cells i = none

abbrev entries : ℕ → (ℕ → Option Bool) → Attempt Vector
entries n truth = returns (record { count = n; truth = truth; cell = no_cells })

abbrev holds : Kernel → WhereScalar ℕ → ℕ → Bool
holds equal (int (pos n)) c = c == n
holds not_equal (int (pos n)) c = not (c == n)
holds greater (int (pos n)) c = ltb n c
holds greater_equal (int (pos n)) c = not (ltb c n)
holds less (int (pos n)) c = ltb c n
holds less_equal (int (pos n)) c = not (ltb n c)
holds _ _ c = false

abbrev is_int : WhereScalar ℕ → Bool
is_int (int n) = true
is_int _ = false

abbrev compared : Kernel → Vector → WhereScalar ℕ → Attempt Vector
compared k v s =
    if is_int s
    then entries v.count (λ i. tested (holds k s) (v.cell i))
    else raises (codes "ArrowNotImplementedError")

abbrev find_column : Dict Vector → Text → Attempt Vector
unfolding text_eq
find_column [] n = raises (codes "KeyError")
find_column ((m, v) ∷ table) n = if text_eq m n then returns v else find_column table n

names_of : Dict Vector → List Text
names_of [] = []
names_of ((n, v) ∷ table) = n ∷ names_of table

abbrev arrow : Arrow ℕ (Dict Vector) Vector
unfolding find_column names_of lower
arrow = record {
  column_names = λ table. returns (names_of table);
  column = find_column;
  is_nested = λ v. false;
  type_name = λ v. codes "int64";
  is_null = λ v. entries v.count (λ i. some (is_none (v.cell i)));
  invert = λ v. entries v.count (λ i. kleene_not (v.truth i));
  compare = compared;
  and_kleene = λ v w. entries v.count (λ i. kleene_and (v.truth i) (w.truth i));
  or_kleene = λ v w. entries v.count (λ i. kleene_or (v.truth i) (w.truth i));
  fill_null = λ v b. entries v.count (λ i. some (get_or (v.truth i) b));
  casefold = lower;
  repr = λ s. s;
}

laws : KernelLaws arrow ℕ
unfolding arrow
laws = record {
  length = λ v. v.count;
  cell = λ v. v.cell;
  is_mask = λ v. true;
  truth = λ v. v.truth;
  test = holds;
  is_comparable = λ k v s. is_int s;
  is_null_law = λ v. (_, refl, refl, refl, λ i. refl);
  invert_law = λ v m. (_, refl, refl, refl, λ i. refl);
  compare_law = λ k v s h. rw h (_, refl, refl, refl, λ i. refl);
  and_law = λ v w m n e. (_, refl, refl, refl, λ i. refl);
  or_law = λ v w m n e. (_, refl, refl, refl, λ i. refl);
  fill_law = λ v b m. (_, refl, refl, refl, λ i. refl);
}

abbrev ages : ℕ → Option ℕ
ages i = if i == 0 then some 10 else if i == 1 then none else some 30

abbrev people : Dict Vector
people = (codes "Age", record { count = 3; truth = λ i. none; cell = ages }) ∷ []

-- `age > 20 and not age is null`
abbrev older : WhereExpression ℕ
older = logical and_ (
    cons (comparison (codes "age") gt (int (pos 20)))
      (cons (not_ (null_predicate (codes "age") false)) nil))

older-is_supported : is_supported arrow laws people 3 older ≡ true
unfolding is_supported arrow laws matches
older-is_supported = refl

evaluate_dataset_where-row_value_example :
    (m : Vector) × (evaluate_dataset_where arrow people (codes "people") older ≡ mask m)
    × (laws.length m ≡ 3)
    × ((i : ℕ) → laws.truth m i ≡ some (get_or (row_value arrow laws people 3 older i) false))
evaluate_dataset_where-row_value_example =
    evaluate_dataset_where-row_value arrow laws people 3 (codes "people") older older-is_supported

-- What evaluation says of a row.
abbrev selects : ℕ → Option Bool
unfolding evaluate_dataset_where arrow
selects i = elim (evaluate_dataset_where arrow people (codes "people") older) [
  | mask m ↦ m.truth i
  | invalid diagnostic ↦ none
]

selected_rows : (selects 0 ≡ some false) × (selects 1 ≡ some false) × (selects 2 ≡ some true)
unfolding selects evaluate_dataset_where arrow matches
selected_rows = (refl, refl, refl)
