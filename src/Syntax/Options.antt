-- ===== src/Syntax/Options.antt =====
-- Data set references and their options (limulus/syntax/models.py), with the restrictive WHERE
-- dialect. The type of floats is a parameter.
use limulus.Prelude.{Bool, List, [], Option, none}
use limulus.Prelude.Int.{ℤ}
use limulus.Text.{Text}
use limulus.Syntax.Expression.{SourceSpan}

pub data WhereScalar (F : Type 0) : Type 0 where
  text : Text → WhereScalar F
  int : ℤ → WhereScalar F
  float : F → WhereScalar F
  bool : Bool → WhereScalar F

-- `=` and `==` are two spellings that stay apart.
pub data ComparisonOperator : Type 0 where
  eq eq_eq ne gt ge lt le : ComparisonOperator

pub data LogicalOperator : Type 0 where
  and_ or_ : LogicalOperator

mutual
  pub data WhereExpression (F : Type 0) : Type 0 where
    comparison : (column : Text) → ComparisonOperator → WhereScalar F → WhereExpression F
    null_predicate : (column : Text) → (negated : Bool) → WhereExpression F
    logical : LogicalOperator → Operands F → WhereExpression F
    not_ : WhereExpression F → WhereExpression F

  pub data Operands (F : Type 0) : Type 0 where
    nil : Operands F
    cons : WhereExpression F → Operands F → Operands F

pub record DatasetOption (F : Type 0) : Type 0 where
  pub in_var : Option Text
  pub keep_vars : List Text
  pub drop_vars : List Text
  pub where_expr : Option (WhereExpression F)
  pub rename_map : List (Text × Text)
  pub firstobs : Option ℤ
  pub obs : Option ℤ
  pub label : Option Text

-- `DatasetOptionSyntax()`
abbrev pub no_options : {F : Type 0} → DatasetOption F
no_options = record {
  in_var = none;
  keep_vars = [];
  drop_vars = [];
  where_expr = none;
  rename_map = [];
  firstobs = none;
  obs = none;
  label = none;
}

pub record DatasetReference (F : Type 0) : Type 0 where
  pub name : Text
  pub options : DatasetOption F
  pub span : SourceSpan

-- The options of a SET or MERGE statement.
pub record SetStatementOption : Type 0 where
  pub indsname_var : Option Text
  pub end_var : Option Text
