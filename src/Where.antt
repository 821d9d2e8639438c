-- ===== src/Where.antt =====
-- The evaluation of a WHERE= data set option into a mask (limulus/dataset_option_expressions.py). What
-- it asks of pyarrow and of Python's strings is a parameter.
pub mod Meaning
pub mod Leaves
pub mod Laws
use limulus.Prelude.{
  ℕ, Bool, true, false, not, ◌&&◌, List, [], ◌∷◌, ◌++◌, Option, none, some, if◌then◌else◌,
}
use limulus.Prelude.Sort.{select}
use limulus.Text.{Text, codes, text_eq}
use limulus.Syntax.Options.{
  WhereScalar, ComparisonOperator, eq, eq_eq, ne, gt, ge, lt, le, LogicalOperator, and_, or_,
  WhereExpression, comparison, null_predicate, logical, not_, Operands, nil, cons,
}

-- What a call returns, or the text of the exception that it raises.
pub data Attempt (A : Type 0) : Type 0 where
  returns : A → Attempt A
  raises : Text → Attempt A

pub data Kernel : Type 0 where
  equal not_equal greater greater_equal less less_equal : Kernel

-- The tables, vectors and kernels of pyarrow, with `str.casefold` and `repr`. `compare` makes a scalar
-- and calls a kernel.
pub record Arrow (F Table Vector : Type 0) : Type 0 where
  pub column_names : Table → Attempt (List Text)
  pub column : Table → Text → Attempt Vector
  pub is_nested : Vector → Bool
  pub type_name : Vector → Text
  pub is_null : Vector → Attempt Vector
  pub invert : Vector → Attempt Vector
  pub compare : Kernel → Vector → WhereScalar F → Attempt Vector
  pub and_kleene : Vector → Vector → Attempt Vector
  pub or_kleene : Vector → Vector → Attempt Vector
  pub fill_null : Vector → Bool → Attempt Vector
  pub casefold : Text → Text
  pub repr : Text → Text

pub record EvaluationDiagnostic : Type 0 where
  pub code : Text
  pub severity : Text
  pub location : Text
  pub stage : Text
  pub message : Text

-- A result has either a mask or one diagnostic.
pub data EvaluationResult (Vector : Type 0) : Type 0 where
  mask : Vector → EvaluationResult Vector
  invalid : EvaluationDiagnostic → EvaluationResult Vector

abbrev pub kernel_of : ComparisonOperator → Kernel
kernel_of eq = equal
kernel_of eq_eq = equal
kernel_of ne = not_equal
kernel_of gt = greater
kernel_of ge = greater_equal
kernel_of lt = less
kernel_of le = less_equal

abbrev operator_text : ComparisonOperator → Text
operator_text eq = codes "="
operator_text eq_eq = codes "=="
operator_text ne = codes "!="
operator_text gt = codes ">"
operator_text ge = codes ">="
operator_text lt = codes "<"
operator_text le = codes "<="

abbrev null_operator : Bool → Text
null_operator negated = if negated then codes "IS NOT NULL" else codes "IS NULL"

abbrev upper_operator : LogicalOperator → Text
upper_operator and_ = codes "AND"
upper_operator or_ = codes "OR"

abbrev pub kernel_failure : Text
kernel_failure = codes "comparison kernel/type conversion failed: "

-- `', '.join`
abbrev joined : List Text → Text
joined [] = []
joined (n ∷ []) = n
joined (n ∷ m ∷ names) = n ++ (codes ", " ++ joined (m ∷ names))

abbrev pub has_two : {F : Type 0} → Operands F → Bool
has_two (cons first (cons second rest)) = true
has_two _ = false

unfoldable pub matches :
    {F Table Vector : Type 0} → Arrow F Table Vector → List Text → Text → List Text
unfolding text_eq
matches arrow names column_name =
    select (λ n. text_eq (arrow.casefold n) (arrow.casefold column_name)) names

module _ {F Table Vector : Type 0} (arrow : Arrow F Table Vector) (table : Table)
    (source_name : Text) where
  abbrev evaluation_diagnostic : (column operator reason : Text) → EvaluationDiagnostic
  evaluation_diagnostic column operator reason = record {
    code = codes "RUNTIME_DATASET_OPTION_INVALID";
    severity = codes "error";
    location = codes "dataset-option WHERE=" ++ source_name;
    stage = codes "input preparation";
    message =
        codes "dataset option WHERE= evaluation failed for source "
        ++ (arrow.repr source_name
            ++ (codes ", column "
                ++ (arrow.repr column
                    ++ (codes ", operator " ++ (arrow.repr operator ++ (codes ": " ++ reason))))));
  }

  abbrev attempted : (column operator reason : Text) → Attempt Vector → EvaluationResult Vector
  attempted column operator reason (returns v) = mask v
  attempted column operator reason (raises error) =
      invalid (evaluation_diagnostic column operator (reason ++ error))

  abbrev and_then :
      EvaluationResult Vector → (Vector → EvaluationResult Vector) → EvaluationResult Vector
  and_then (mask v) f = f v
  and_then (invalid diagnostic) f = invalid diagnostic

  -- The one column that a name means.
  abbrev one_column :
      (column operator : Text)
      → List Text
      → (Vector → EvaluationResult Vector)
      → EvaluationResult Vector
  one_column column operator [] use_ = invalid (
      evaluation_diagnostic column operator
        (codes "column was not found (case-insensitive resolution)"))
  one_column column operator (n ∷ m ∷ names) use_ = invalid (
      evaluation_diagnostic column operator
        (codes "column resolution is ambiguous (" ++ (joined (n ∷ m ∷ names) ++ codes ")")))
  one_column column operator (n ∷ []) use_ =
      and_then (attempted column operator kernel_failure (arrow.column table n)) use_

  unfoldable pub among_names :
      (column operator : Text)
      → Attempt (List Text)
      → (Vector → EvaluationResult Vector)
      → EvaluationResult Vector
  unfolding matches
  among_names column operator (raises reason) use_ =
      invalid (evaluation_diagnostic column operator reason)
  among_names column operator (returns names) use_ =
      one_column column operator (matches arrow names column) use_

  unfoldable pub with_column :
      (column operator : Text) → (Vector → EvaluationResult Vector) → EvaluationResult Vector
  unfolding among_names
  with_column column operator use_ = among_names column operator (arrow.column_names table) use_

  unfoldable pub null_mask : (column operator : Text) → Bool → Vector → EvaluationResult Vector
  null_mask column operator negated v =
      if arrow.is_nested v
      then invalid (
          evaluation_diagnostic column operator
            (codes "complex access is unsupported for nested Arrow type " ++ arrow.type_name v))
      else and_then (attempted column operator kernel_failure (arrow.is_null v)) λ nulls.
        if negated
        then attempted column operator kernel_failure (arrow.invert nulls)
        else mask nulls

  -- `_evaluate_dataset_where_leaf`, of a comparison and of a null predicate.
  unfoldable pub evaluate_comparison :
      Text → ComparisonOperator → WhereScalar F → EvaluationResult Vector
  unfolding with_column
  evaluate_comparison column operator value = with_column column (operator_text operator) λ v.
      attempted column (operator_text operator) kernel_failure
        (arrow.compare (kernel_of operator) v value)

  unfoldable pub evaluate_null_predicate : Text → Bool → EvaluationResult Vector
  unfolding with_column null_mask
  evaluate_null_predicate column negated =
      with_column column (null_operator negated) (null_mask column (null_operator negated) negated)

  abbrev combine : LogicalOperator → Vector → Vector → Attempt Vector
  combine and_ = arrow.and_kleene
  combine or_ = arrow.or_kleene

  abbrev expression_attempted : Text → Attempt Vector → EvaluationResult Vector
  expression_attempted operator =
      attempted (codes "<expression>") operator (codes "boolean kernel failed: ")

  unfoldable mutual
    unfolding evaluate_comparison evaluate_null_predicate

    pub evaluate_dataset_where_mask : WhereExpression F → EvaluationResult Vector
    evaluate_dataset_where_mask (comparison column operator value) =
        evaluate_comparison column operator value
    evaluate_dataset_where_mask (null_predicate column negated) =
        evaluate_null_predicate column negated
    evaluate_dataset_where_mask (not_ operand) =
        and_then (evaluate_dataset_where_mask operand)
          λ v. expression_attempted (codes "NOT") (arrow.invert v)
    evaluate_dataset_where_mask (logical operator operands) =
        let result = evaluate_first operator operands in
        if has_two operands
        then result
        else invalid (
            evaluation_diagnostic (codes "<expression>") (upper_operator operator)
              (codes "logical expression requires at least two operands"))

    -- The first operand, and then the others. There are at least two.
    pub evaluate_first : LogicalOperator → Operands F → EvaluationResult Vector
    evaluate_first operator nil = invalid (
        evaluation_diagnostic (codes "<expression>") (upper_operator operator)
          (codes "logical expression requires at least two operands"))
    evaluate_first operator (cons operand operands) =
        and_then (evaluate_dataset_where_mask operand) (evaluate_others operator operands)

    pub evaluate_others : LogicalOperator → Operands F → Vector → EvaluationResult Vector
    evaluate_others operator nil v = mask v
    evaluate_others operator (cons operand operands) v =
        and_then (evaluate_dataset_where_mask operand) λ w.
          and_then (expression_attempted (upper_operator operator) (combine operator v w))
            λ next. evaluate_others operator operands next

  unfoldable pub evaluate_dataset_where : WhereExpression F → EvaluationResult Vector
  unfolding evaluate_dataset_where_mask
  evaluate_dataset_where expression = and_then (evaluate_dataset_where_mask expression) λ v.
      attempted (codes "<mask>") [] (codes "final boolean mask normalization failed: ")
        (arrow.fill_null v false)
