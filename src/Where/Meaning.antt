-- ===== src/Where/Meaning.antt =====
-- What a WHERE= option means for one row in three-valued logic, and the laws of the kernels.
use limulus.Prelude.{
  ℕ, ◌≡◌, Bool, true, false, not, ◌&&◌, List, [], ◌∷◌, Option, none, some, if◌then◌else◌, ◌==◌,
  get_or,
}
use limulus.Text.{Text}
use limulus.Syntax.Options.{
  WhereScalar, LogicalOperator, and_, or_, WhereExpression, comparison, null_predicate, logical,
  not_, Operands, nil, cons,
}
use limulus.Where.{Attempt, returns, raises, Kernel, Arrow, kernel_of, has_two, matches}

-- Truth values, of which none is unknown.
abbrev pub kleene_not : Option Bool → Option Bool
kleene_not none = none
kleene_not (some b) = some (not b)

abbrev pub kleene_and : Option Bool → Option Bool → Option Bool
kleene_and (some true) b = b
kleene_and (some false) b = some false
kleene_and none (some false) = some false
kleene_and none _ = none

abbrev pub kleene_or : Option Bool → Option Bool → Option Bool
kleene_or (some false) b = b
kleene_or (some true) b = some true
kleene_or none (some true) = some true
kleene_or none _ = none

abbrev pub is_none : {A : Type 0} → Option A → Bool
is_none none = true
is_none (some a) = false

abbrev pub tested : {C : Type 0} → (C → Bool) → Option C → Option Bool
tested test none = none
tested test (some c) = some (test c)

abbrev pub unit_of : LogicalOperator → Option Bool
unit_of and_ = some true
unit_of or_ = some false

abbrev pub kleene : LogicalOperator → Option Bool → Option Bool → Option Bool
kleene and_ = kleene_and
kleene or_ = kleene_or

module _ {F Table Vector : Type 0} (arrow : Arrow F Table Vector) where
  -- A call returns a Boolean vector of some length with some entries.
  abbrev pub Yields :
      (Vector → Bool)
      → (Vector → ℕ)
      → (Vector → ℕ → Option Bool)
      → Attempt Vector
      → ℕ
      → (ℕ → Option Bool)
      → Type 0
  Yields is_mask length truth result n entries =
      (w : Vector) × (result ≡ returns w)
      × (is_mask w ≡ true)
      × (length w ≡ n)
      × ((i : ℕ) → truth w i ≡ entries i)

  -- What pyarrow documents of its kernels: they go entry by entry, and pass null on as an unknown truth
  -- value. A comparison returns for the types that it supports.
  pub record KernelLaws (C : Type 0) : Type 0 where
    pub length : Vector → ℕ
    pub cell : Vector → ℕ → Option C
    pub is_mask : Vector → Bool
    pub truth : Vector → ℕ → Option Bool
    pub test : Kernel → WhereScalar F → C → Bool
    pub is_comparable : Kernel → Vector → WhereScalar F → Bool
    pub is_null_law :
        (v : Vector)
        → Yields is_mask length truth (arrow.is_null v) (length v) (λ i. some (is_none (cell v i)))
    pub invert_law :
        (v : Vector)
        → is_mask v ≡ true
        → Yields is_mask length truth (arrow.invert v) (length v) (λ i. kleene_not (truth v i))
    pub compare_law :
        (k : Kernel) (v : Vector) (s : WhereScalar F)
        → is_comparable k v s ≡ true
        → Yields is_mask length truth
            (arrow.compare k v s)
            (length v)
            (λ i. tested (test k s) (cell v i))
    pub and_law :
        (v w : Vector)
        → is_mask v ≡ true
        → is_mask w ≡ true
        → length v ≡ length w
        → Yields is_mask length truth
            (arrow.and_kleene v w)
            (length v)
            (λ i. kleene_and (truth v i) (truth w i))
    pub or_law :
        (v w : Vector)
        → is_mask v ≡ true
        → is_mask w ≡ true
        → length v ≡ length w
        → Yields is_mask length truth
            (arrow.or_kleene v w)
            (length v)
            (λ i. kleene_or (truth v i) (truth w i))
    pub fill_law :
        (v : Vector) (b : Bool)
        → is_mask v ≡ true
        → Yields is_mask length truth
            (arrow.fill_null v b)
            (length v)
            (λ i. some (get_or (truth v i) b))

abbrev pub returned : {A : Type 0} → Attempt A → Option A
returned (returns a) = some a
returned (raises error) = none

module _ {F Table Vector : Type 0} (arrow : Arrow F Table Vector) (table : Table) where
  abbrev pub one_of : List Text → Option Vector
  one_of [] = none
  one_of (n ∷ []) = returned (arrow.column table n)
  one_of (n ∷ m ∷ names) = none

  abbrev pub one_among : Text → Attempt (List Text) → Option Vector
  one_among name (raises error) = none
  one_among name (returns names) = one_of (matches arrow names name)

  -- The column that a name means, if there is just one.
  abbrev pub column_of : Text → Option Vector
  column_of name = one_among name (arrow.column_names table)

module _ {F Table Vector C : Type 0} (arrow : Arrow F Table Vector) (laws : KernelLaws arrow C)
    (table : Table) (rows : ℕ) where
  abbrev pub is_null_column : Option Vector → Bool
  is_null_column none = false
  is_null_column (some v) = (laws.length v == rows) && not (arrow.is_nested v)

  abbrev pub is_test_column : Kernel → WhereScalar F → Option Vector → Bool
  is_test_column k s none = false
  is_test_column k s (some v) = (laws.length v == rows) && laws.is_comparable k v s

  -- Each column is there once, with as many entries as there are rows, and of a type that its test
  -- supports; and each logical expression has two operands.
  unfoldable mutual
    pub is_supported : WhereExpression F → Bool
    is_supported (comparison column operator value) =
        is_test_column (kernel_of operator) value (column_of arrow table column)
    is_supported (null_predicate column negated) = is_null_column (column_of arrow table column)
    is_supported (not_ operand) = is_supported operand
    is_supported (logical operator operands) = has_two operands && are_supported operands

    pub are_supported : Operands F → Bool
    are_supported nil = true
    are_supported (cons operand operands) = is_supported operand && are_supported operands

  abbrev pub cell_of : Option Vector → ℕ → Option C
  cell_of none i = none
  cell_of (some v) i = laws.cell v i

  -- What the expression says of one row.
  unfoldable mutual
    pub row_value : WhereExpression F → ℕ → Option Bool
    row_value (comparison column operator value) i =
        tested (laws.test (kernel_of operator) value) (cell_of (column_of arrow table column) i)
    row_value (null_predicate column negated) i = some (
        if negated
        then not (is_none (cell_of (column_of arrow table column) i))
        else is_none (cell_of (column_of arrow table column) i))
    row_value (not_ operand) i = kleene_not (row_value operand i)
    row_value (logical operator operands) i = row_values operator operands i

    pub row_values : LogicalOperator → Operands F → ℕ → Option Bool
    row_values operator nil i = unit_of operator
    row_values operator (cons operand operands) i =
        kleene operator (row_value operand i) (row_values operator operands i)
