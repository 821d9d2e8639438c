-- ===== src/Where/Leaves.antt =====
-- The masks of the single tests of a WHERE= option.
use limulus.Prelude.{
  ℕ, ◌≡◌, refl, ap, ◌∙◌, Bool, true, false, not, List, [], ◌∷◌, Option, none, some, arith,
  if◌then◌else◌, ◌==◌, and_left, and_right, not-true, ==_iff,
}
use limulus.Text.{Text}
use limulus.Syntax.Options.{WhereScalar, ComparisonOperator}
use limulus.Where.{
  Attempt, returns, raises, Arrow, EvaluationResult, mask, kernel_of, matches, with_column,
  null_mask, evaluate_comparison, evaluate_null_predicate, attempted, and_then, one_column,
  among_names, kernel_failure, operator_text, null_operator,
}
use limulus.Where.Meaning.{
  kleene_not, is_none, tested, Yields, KernelLaws, returned, one_of, one_among, column_of,
  is_null_column, is_test_column, cell_of,
}

module _ {F Table Vector : Type 0} (arrow : Arrow F Table Vector) (table : Table)
    (source_name : Text) where
  and_then-attempted :
      (column operator reason : Text) (a : Attempt Vector) (v : Vector)
      (use_ : Vector → EvaluationResult Vector)
      → returned a ≡ some v
      → and_then arrow table source_name
          (attempted arrow table source_name column operator reason a)
          use_
        ≡ use_ v
  and_then-attempted column operator reason (returns w) v use_ h = ground (arith, h)
  and_then-attempted column operator reason (raises error) v use_ h = ground (arith, h)

  one_column-one_of :
      (column operator : Text) (names : List Text) (v : Vector)
      (use_ : Vector → EvaluationResult Vector)
      → one_of arrow table names ≡ some v
      → one_column arrow table source_name column operator names use_ ≡ use_ v
  one_column-one_of column operator [] v use_ h = ground (arith, h)
  one_column-one_of column operator (n ∷ []) v use_ h =
      and_then-attempted column operator kernel_failure (arrow.column table n) v use_ h
  one_column-one_of column operator (n ∷ m ∷ names) v use_ h = ground (arith, h)

  among_names-one_among :
      (column operator : Text) (a : Attempt (List Text)) (v : Vector)
      (use_ : Vector → EvaluationResult Vector)
      → one_among arrow table column a ≡ some v
      → among_names arrow table source_name column operator a use_ ≡ use_ v
  unfolding among_names
  among_names-one_among column operator (raises error) v use_ h = ground (arith, h)
  among_names-one_among column operator (returns names) v use_ h =
      one_column-one_of column operator (matches arrow names column) v use_ h

module _ {F Table Vector C : Type 0} (arrow : Arrow F Table Vector) (laws : KernelLaws arrow C)
    (table : Table) (rows : ℕ) where
  -- A mask with one entry for each row.
  pub record Reads (v : Vector) (entries : ℕ → Option Bool) : Type 0 where
    pub boolean : laws.is_mask v ≡ true
    pub long : laws.length v ≡ rows
    pub entry : (i : ℕ) → laws.truth v i ≡ entries i

  unfoldable pub Evaluates : EvaluationResult Vector → (ℕ → Option Bool) → Type 0
  Evaluates result entries = (m : Vector) × (result ≡ mask m) × Reads m entries

  pub Evaluates-map :
      (r : EvaluationResult Vector) (f g : ℕ → Option Bool)
      → ((i : ℕ) → f i ≡ g i)
      → Evaluates r f
      → Evaluates r g
  unfolding Evaluates
  Evaluates-map r f g h (m, e, reads) = (
    m,
    e,
    record { boolean = reads.boolean; long = reads.long; entry = λ i. reads.entry i ∙ h i },
  )

  pub Evaluates-path :
      (r s : EvaluationResult Vector) (f : ℕ → Option Bool) → r ≡ s → Evaluates s f → Evaluates r f
  unfolding Evaluates
  Evaluates-path r s f p (m, e, reads) = (m, p ∙ e, reads)

  module _ (source_name : Text) where
    pub attempted-Yields :
        (column operator reason : Text) (a : Attempt Vector) (n : ℕ) (f : ℕ → Option Bool)
        → n ≡ rows
        → Yields arrow laws.is_mask laws.length laws.truth a n f
        → Evaluates (attempted arrow table source_name column operator reason a) f
    unfolding Evaluates
    attempted-Yields column operator reason a n f p (w, e, boolean, long, entry) = (
      w,
      ap (attempted arrow table source_name column operator reason) e,
      record { boolean = boolean; long = long ∙ p; entry = entry },
    )

    pub and_then-Evaluates :
        (r : EvaluationResult Vector) (use_ : Vector → EvaluationResult Vector)
        (f g : ℕ → Option Bool)
        → Evaluates r f
        → ((v : Vector) → Reads v f → Evaluates (use_ v) g)
        → Evaluates (and_then arrow table source_name r use_) g
    unfolding Evaluates
    and_then-Evaluates r use_ f g (m, e, reads) k =
        let (m', e', reads') = k m reads in
        (m', ap (λ x. and_then arrow table source_name x use_) e ∙ e', reads')

    pub comparison-Evaluates :
        (column : Text) (operator : ComparisonOperator) (value : WhereScalar F) (o : Option Vector)
        → column_of arrow table column ≡ o
        → is_test_column arrow laws table rows (kernel_of operator) value o ≡ true
        → Evaluates
            (evaluate_comparison arrow table source_name column operator value)
            (λ i. tested (laws.test (kernel_of operator) value) (cell_of arrow laws table rows o i))
    unfolding evaluate_comparison with_column
    comparison-Evaluates column operator value none e h = absurd (ground (arith, h))
    comparison-Evaluates column operator value (some v) e h =
        Evaluates-path _ _ _
          (among_names-one_among arrow table source_name column (operator_text operator)
            (arrow.column_names table) v _ e)
          (attempted-Yields column (operator_text operator) kernel_failure
            (arrow.compare (kernel_of operator) v value) (laws.length v) _
            ((==_iff (laws.length v) rows).0 (
              and_left (laws.length v == rows) (laws.is_comparable (kernel_of operator) v value) h))
            (laws.compare_law (kernel_of operator) v value (
              and_right (laws.length v == rows) (laws.is_comparable (kernel_of operator) v value)
                h)))

    null_mask-Evaluates :
        (column operator : Text) (negated : Bool) (v : Vector)
        → laws.length v ≡ rows
        → arrow.is_nested v ≡ false
        → Evaluates
            (null_mask arrow table source_name column operator negated v)
            (λ i. some (if negated then not (is_none (laws.cell v i)) else is_none (laws.cell v i)))
    unfolding null_mask Evaluates
    null_mask-Evaluates column operator negated v p flat =
        rw (null_mask, flat)
          (and_then-Evaluates
            (attempted arrow table source_name column operator kernel_failure (arrow.is_null v)) _
            (λ i. some (is_none (laws.cell v i))) _
            (attempted-Yields column operator kernel_failure (arrow.is_null v) (laws.length v) _ p
              (laws.is_null_law v))
            (λ w reads. negate negated w reads))
      where
        negate :
            (b : Bool) (w : Vector)
            → Reads w (λ i. some (is_none (laws.cell v i)))
            → Evaluates
                (if b
                  then attempted arrow table source_name column operator kernel_failure
                      (arrow.invert w)
                  else mask w)
                (λ i. some (if b then not (is_none (laws.cell v i)) else is_none (laws.cell v i)))
        negate false w reads = (w, refl, reads)
        negate true w reads =
            Evaluates-map _ _ _ (λ i. ap kleene_not (reads.entry i))
              (attempted-Yields column operator kernel_failure (arrow.invert w) (laws.length w) _
                reads.long (laws.invert_law w reads.boolean))

    pub null_predicate-Evaluates :
        (column : Text) (negated : Bool) (o : Option Vector)
        → column_of arrow table column ≡ o
        → is_null_column arrow laws table rows o ≡ true
        → Evaluates (evaluate_null_predicate arrow table source_name column negated) (λ i. some (
            if negated
            then not (is_none (cell_of arrow laws table rows o i))
            else is_none (cell_of arrow laws table rows o i)))
    unfolding evaluate_null_predicate with_column
    null_predicate-Evaluates column negated none e h = absurd (ground (arith, h))
    null_predicate-Evaluates column negated (some v) e h =
        Evaluates-path _ _ _
          (among_names-one_among arrow table source_name column (null_operator negated)
            (arrow.column_names table) v _ e)
          (null_mask-Evaluates column (null_operator negated) negated v
            ((==_iff (laws.length v) rows).0
              (and_left (laws.length v == rows) (not (arrow.is_nested v)) h))
            (not-true (arrow.is_nested v)
              (and_right (laws.length v == rows) (not (arrow.is_nested v)) h)))
