-- ===== src/Tests/Planning.antt =====
-- The helper columns of `lag(x, 2) + lead('a b', 1, .)` and `lag(x, 0)`.
use limulus.Prelude.{ℕ, ◌≡◌, refl, true, List, [], ◌∷◌, map, all, none}
use limulus.Text.{Text, codes}
use limulus.Syntax.Expression.{
  Place, Expression, literal, name, binary, call, nil, cons, string, numeric, missing, add_op,
}
use limulus.Planning.Specs.{collect_typed_lag_lead_specs}
use limulus.Planning.Columns.{is_distinct, collect_typed_lag_lead_specs-is_distinct}
use limulus.Planning.Ownership.{is_planned, collect_typed_lag_lead_specs-is_planned}

abbrev at : ℕ → ℕ → Place
at a b = record {
  span = record {
    start = a;
    end = b;
    line = 1;
    column = a;
    source_id = codes "in";
    end_line = none;
    end_column = none;
  };
  origin = none;
}

abbrev number : Text → Expression
number s = literal numeric s (at 1 2)

abbrev sum : Expression
sum =
    binary add_op
      (call (codes "lag") (cons (name (codes "x") (at 4 5)) (cons (number (codes "2")) nil))
        (at 0 9))
      (call (codes "LEAD")
        (cons (literal string (codes "'a b'") (at 15 20))
          (cons (number (codes "1")) (cons (literal missing (codes ".") (at 23 24)) nil)))
        (at 12 25))
      (at 0 25)

abbrev targets : List Expression
targets =
    sum
    ∷ call (codes "lag") (cons (name (codes "x") (at 4 5)) (cons (number (codes "0")) nil)) (at 6 7)
    ∷ []

collect_typed_lag_lead_specs-is_distinct_example :
    is_distinct (map (λ s. s.helper_column) (collect_typed_lag_lead_specs targets)) ≡ true
collect_typed_lag_lead_specs-is_distinct_example = collect_typed_lag_lead_specs-is_distinct targets

collect_typed_lag_lead_specs-is_planned_example :
    all is_planned (collect_typed_lag_lead_specs targets) ≡ true
collect_typed_lag_lead_specs-is_planned_example = collect_typed_lag_lead_specs-is_planned targets

-- The call without reach is counted between the two.
columns_of_targets :
    map (λ s. s.helper_column) (collect_typed_lag_lead_specs targets)
    ≡ codes "__rewrite_lag_x_2_1__" ∷ codes "__rewrite_lead_a_b_1_3__" ∷ []
unfolding collect_typed_lag_lead_specs
columns_of_targets = refl
