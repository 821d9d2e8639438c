-- ===== src/Where/Laws.antt =====
-- The mask of a WHERE= option is what three-valued logic says of each row.
use limulus.Prelude.{
  ℕ, ◌≡◌, refl, sym, ap, ◌∙◌, Bool, true, false, [], Option, none, some, arith, get_or, and_left,
  and_right,
}
use limulus.Text.{Text, codes}
use limulus.Syntax.Options.{
  LogicalOperator, and_, or_, WhereExpression, comparison, null_predicate, logical, not_, Operands,
  nil, cons,
}
use limulus.Where.{
  Arrow, mask, has_two, evaluate_dataset_where_mask, evaluate_first, evaluate_others,
  evaluate_dataset_where, combine, upper_operator, expression_attempted,
}
use limulus.Where.Meaning.{
  kleene_not, kleene_and, kleene_or, KernelLaws, column_of, is_supported, are_supported, unit_of,
  kleene, row_value, row_values,
}
use limulus.Where.Leaves.{
  Reads, Evaluates, Evaluates-map, attempted-Yields, and_then-Evaluates, comparison-Evaluates,
  null_predicate-Evaluates,
}

kleene_and_assoc :
    (a b c : Option Bool) → kleene_and (kleene_and a b) c ≡ kleene_and a (kleene_and b c)
kleene_and_assoc a b c = ground arith

kleene_or_assoc : (a b c : Option Bool) → kleene_or (kleene_or a b) c ≡ kleene_or a (kleene_or b c)
kleene_or_assoc a b c = ground arith

module _ {F Table Vector C : Type 0} (arrow : Arrow F Table Vector) (laws : KernelLaws arrow C)
    (table : Table) (rows : ℕ) where
  module _ (source_name : Text) where
    combine-Evaluates :
        (operator : LogicalOperator) (v w : Vector) (f g : ℕ → Option Bool)
        → Reads arrow laws table rows v f
        → Reads arrow laws table rows w g
        → Evaluates arrow laws table rows
            (expression_attempted arrow table source_name
              (upper_operator operator)
              (combine arrow table source_name operator v w))
            (λ i. kleene operator (f i) (g i))
    combine-Evaluates and_ v w f g rv rw_ =
        Evaluates-map arrow laws table rows _ _ _
          (λ i.
            ap (λ x. kleene_and x (laws.truth w i)) (rv.entry i)
            ∙ ap (kleene_and (f i)) (rw_.entry i))
          (attempted-Yields arrow laws table rows source_name (codes "<expression>") (codes "AND")
            (codes "boolean kernel failed: ") (arrow.and_kleene v w) (laws.length v) _ rv.long
            (laws.and_law v w rv.boolean rw_.boolean (rv.long ∙ sym rw_.long)))
    combine-Evaluates or_ v w f g rv rw_ =
        Evaluates-map arrow laws table rows _ _ _
          (λ i.
            ap (λ x. kleene_or x (laws.truth w i)) (rv.entry i)
            ∙ ap (kleene_or (f i)) (rw_.entry i))
          (attempted-Yields arrow laws table rows source_name (codes "<expression>") (codes "OR")
            (codes "boolean kernel failed: ") (arrow.or_kleene v w) (laws.length v) _ rv.long
            (laws.or_law v w rv.boolean rw_.boolean (rv.long ∙ sym rw_.long)))

    kleene_assoc :
        (operator : LogicalOperator) (a b c : Option Bool)
        → kleene operator (kleene operator a b) c ≡ kleene operator a (kleene operator b c)
    kleene_assoc and_ a b c = kleene_and_assoc a b c
    kleene_assoc or_ a b c = kleene_or_assoc a b c

    kleene_unit :
        (operator : LogicalOperator) (a : Option Bool) → a ≡ kleene operator a (unit_of operator)
    kleene_unit and_ none = refl
    kleene_unit and_ (some true) = refl
    kleene_unit and_ (some false) = refl
    kleene_unit or_ none = refl
    kleene_unit or_ (some true) = refl
    kleene_unit or_ (some false) = refl

    mutual
      unfolding evaluate_dataset_where_mask is_supported row_value Evaluates

      evaluate_dataset_where_mask-Evaluates :
          (e : WhereExpression F)
          → is_supported arrow laws table rows e ≡ true
          → Evaluates arrow laws table rows
              (evaluate_dataset_where_mask arrow table source_name e)
              (row_value arrow laws table rows e)
      evaluate_dataset_where_mask-Evaluates (comparison column operator value) h =
          comparison-Evaluates arrow laws table rows source_name column operator value
            (column_of arrow table column) refl h
      evaluate_dataset_where_mask-Evaluates (null_predicate column negated) h =
          null_predicate-Evaluates arrow laws table rows source_name column negated
            (column_of arrow table column) refl h
      evaluate_dataset_where_mask-Evaluates (not_ e) h =
          and_then-Evaluates arrow laws table rows source_name
            (evaluate_dataset_where_mask arrow table source_name e) _
            (row_value arrow laws table rows e) _ (evaluate_dataset_where_mask-Evaluates e h)
            (λ v reads.
              Evaluates-map arrow laws table rows _ _ _ (λ i. ap kleene_not (reads.entry i))
                (attempted-Yields arrow laws table rows source_name (codes "<expression>")
                  (codes "NOT") (codes "boolean kernel failed: ") (arrow.invert v) (laws.length v) _
                  reads.long (laws.invert_law v reads.boolean)))
      evaluate_dataset_where_mask-Evaluates (logical operator operands) h =
          rw
            (
              evaluate_dataset_where_mask,
              and_left (has_two operands) (are_supported arrow laws table rows operands) h,
            )
            (evaluate_first-Evaluates operator operands
              (and_left (has_two operands) (are_supported arrow laws table rows operands) h)
              (and_right (has_two operands) (are_supported arrow laws table rows operands) h))

      evaluate_first-Evaluates :
          (operator : LogicalOperator) (operands : Operands F)
          → has_two operands ≡ true
          → are_supported arrow laws table rows operands ≡ true
          → Evaluates arrow laws table rows
              (evaluate_first arrow table source_name operator operands)
              (row_values arrow laws table rows operator operands)
      evaluate_first-Evaluates operator nil t h = absurd (ground (arith, t))
      evaluate_first-Evaluates operator (cons e operands) t h =
          and_then-Evaluates arrow laws table rows source_name
            (evaluate_dataset_where_mask arrow table source_name e) _
            (row_value arrow laws table rows e) _
            (evaluate_dataset_where_mask-Evaluates e (
              and_left (is_supported arrow laws table rows e)
                (are_supported arrow laws table rows operands) h))
            (λ v reads.
              evaluate_others-Evaluates operator operands v (row_value arrow laws table rows e)
                (and_right (is_supported arrow laws table rows e)
                  (are_supported arrow laws table rows operands) h)
                reads)

      evaluate_others-Evaluates :
          (operator : LogicalOperator) (operands : Operands F) (v : Vector) (f : ℕ → Option Bool)
          → are_supported arrow laws table rows operands ≡ true
          → Reads arrow laws table rows v f
          → Evaluates arrow laws table rows
              (evaluate_others arrow table source_name operator operands v)
              (λ i. kleene operator (f i) (row_values arrow laws table rows operator operands i))
      evaluate_others-Evaluates operator nil v f h reads = (
        v,
        refl,
        record {
          boolean = reads.boolean;
          long = reads.long;
          entry = λ i. reads.entry i ∙ kleene_unit operator (f i);
        },
      )
      evaluate_others-Evaluates operator (cons e operands) v f h reads =
          and_then-Evaluates arrow laws table rows source_name
            (evaluate_dataset_where_mask arrow table source_name e) _
            (row_value arrow laws table rows e) _
            (evaluate_dataset_where_mask-Evaluates e (
              and_left (is_supported arrow laws table rows e)
                (are_supported arrow laws table rows operands) h))
            (λ w found.
              and_then-Evaluates arrow laws table rows source_name _ _
                (λ i. kleene operator (f i) (row_value arrow laws table rows e i)) _
                (combine-Evaluates operator v w f (row_value arrow laws table rows e) reads found)
                (λ next both.
                  Evaluates-map arrow laws table rows _ _ _
                    (λ i.
                      kleene_assoc operator (f i) (row_value arrow laws table rows e i)
                        (row_values arrow laws table rows operator operands i))
                    (evaluate_others-Evaluates operator operands next
                      (λ i. kleene operator (f i) (row_value arrow laws table rows e i))
                      (and_right (is_supported arrow laws table rows e)
                        (are_supported arrow laws table rows operands) h)
                      both)))

-- On a table whose columns suit a WHERE expression, evaluation returns a mask with one entry for each
-- row: true where three-valued logic makes the expression true of the row, and false where it makes it
-- false or unknown.
pub evaluate_dataset_where-row_value :
    {F Table Vector C : Type 0} (arrow : Arrow F Table Vector) (laws : KernelLaws arrow C)
    (table : Table) (rows : ℕ) (source_name : Text) (e : WhereExpression F)
    → is_supported arrow laws table rows e ≡ true
    → (m : Vector) × (evaluate_dataset_where arrow table source_name e ≡ mask m)
      × (laws.length m ≡ rows)
      × ((i : ℕ) → laws.truth m i ≡ some (get_or (row_value arrow laws table rows e i) false))
unfolding evaluate_dataset_where Evaluates
evaluate_dataset_where-row_value arrow laws table rows source_name e h =
    let (m, returned_, reads) =
      and_then-Evaluates arrow laws table rows source_name
        (evaluate_dataset_where_mask arrow table source_name e) _
        (row_value arrow laws table rows e)
        (λ i. some (get_or (row_value arrow laws table rows e i) false))
        (evaluate_dataset_where_mask-Evaluates arrow laws table rows source_name e h)
        (λ v reads.
          Evaluates-map arrow laws table rows _ _ _
            (λ i. ap (λ x. some (get_or x false)) (reads.entry i))
            (attempted-Yields arrow laws table rows source_name (codes "<mask>") []
              (codes "final boolean mask normalization failed: ") (arrow.fill_null v false)
              (laws.length v) _ reads.long (laws.fill_law v false reads.boolean))) in
    (m, returned_, reads.long, reads.entry)
