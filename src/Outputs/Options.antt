-- ===== src/Outputs/Options.antt =====
-- Options of output targets up to the spelling of names (limulus/execution/typed_output_planning.py,
-- `_has_nonempty_option` to `_typed_scalar`).
use limulus.Prelude.{
  ℕ, Bool, true, false, not, ◌&&◌, ◌||◌, List, [], ◌∷◌, map, Option, none, some, ◌==◌,
}
use limulus.Prelude.Int.{ℤ, pos, negsuc}
use limulus.Text.{Text, text_eq}
use limulus.Naming.{column_key}
use limulus.Syntax.Options.{
  WhereScalar, text, int, float, bool, ComparisonOperator, eq, eq_eq, ne, gt, ge, lt, le,
  LogicalOperator, and_, or_, WhereExpression, comparison, null_predicate, logical, not_, Operands,
  nil, cons, DatasetOption,
}

abbrev pub is_given : {A : Type 0} → Option A → Bool
is_given none = false
is_given (some a) = true

abbrev is_nonempty : {A : Type 0} → List A → Bool
is_nonempty [] = false
is_nonempty (x ∷ xs) = true

unfoldable pub has_nonempty_option : {F : Type 0} → DatasetOption F → Bool
has_nonempty_option options =
    is_nonempty options.keep_vars
    || (is_nonempty options.drop_vars
        || (is_nonempty options.rename_map
            || (is_given options.where_expr
                || (is_given options.firstobs
                    || (is_given options.obs || is_given options.label)))))

module _ {F : Type 0} where
  unfoldable mutual
    unfolding column_key

    pub normalized_where : WhereExpression F → WhereExpression F
    normalized_where (comparison column operator value) =
        comparison (column_key column) operator value
    normalized_where (null_predicate column negated) = null_predicate (column_key column) negated
    normalized_where (logical operator operands) = logical operator (normalized_operands operands)
    normalized_where (not_ operand) = not_ (normalized_where operand)

    pub normalized_operands : Operands F → Operands F
    normalized_operands nil = nil
    normalized_operands (cons operand operands) =
        cons (normalized_where operand) (normalized_operands operands)

  unfoldable pub normalized_option_where : Option (WhereExpression F) → Option (WhereExpression F)
  unfolding normalized_where
  normalized_option_where none = none
  normalized_option_where (some expression) = some (normalized_where expression)

  -- The tuple that two options are compared by leaves out IN.
  unfoldable pub normalized_options : DatasetOption F → DatasetOption F
  unfolding column_key normalized_where normalized_option_where
  normalized_options options = record options {
    in_var = none;
    keep_vars = map column_key options.keep_vars;
    drop_vars = map column_key options.drop_vars;
    rename_map = map (λ r. (column_key r.0, column_key r.1)) options.rename_map;
    where_expr = normalized_option_where options.where_expr;
  }

abbrev same_option : {A : Type 0} → (A → A → Bool) → Option A → Option A → Bool
same_option same none none = true
same_option same (some a) (some b) = same a b
same_option same _ _ = false

abbrev same_list : {A : Type 0} → (A → A → Bool) → List A → List A → Bool
same_list same [] [] = true
same_list same (a ∷ as_) (b ∷ bs) = same a b && same_list same as_ bs
same_list same _ _ = false

abbrev same_int : ℤ → ℤ → Bool
same_int (pos m) (pos n) = m == n
same_int (negsuc m) (negsuc n) = m == n
same_int _ _ = false

abbrev same_bool : Bool → Bool → Bool
same_bool true b = b
same_bool false b = not b

abbrev operator_number : ComparisonOperator → ℕ
operator_number eq = 0
operator_number eq_eq = 1
operator_number ne = 2
operator_number gt = 3
operator_number ge = 4
operator_number lt = 5
operator_number le = 6

abbrev is_and : LogicalOperator → Bool
is_and and_ = true
is_and or_ = false

unfoldable pub same_names : List Text → List Text → Bool
unfolding text_eq
same_names = same_list text_eq

module _ {F : Type 0} (same : F → F → Bool) where
  -- The tags of a scalar's type keep true and 1 apart.
  unfoldable pub same_scalar : WhereScalar F → WhereScalar F → Bool
  unfolding text_eq
  same_scalar (text s) (text t) = text_eq s t
  same_scalar (int m) (int n) = same_int m n
  same_scalar (float x) (float y) = same x y
  same_scalar (bool a) (bool b) = same_bool a b
  same_scalar _ _ = false

  unfoldable mutual
    unfolding text_eq same_scalar

    pub same_where : WhereExpression F → WhereExpression F → Bool
    same_where (comparison c o v) (comparison d p w) =
        text_eq c d && ((operator_number o == operator_number p) && same_scalar v w)
    same_where (null_predicate c m) (null_predicate d n) = text_eq c d && same_bool m n
    same_where (logical o xs) (logical p ys) =
        same_bool (is_and o) (is_and p) && same_operands xs ys
    same_where (not_ x) (not_ y) = same_where x y
    same_where _ _ = false

    pub same_operands : Operands F → Operands F → Bool
    same_operands nil nil = true
    same_operands (cons x xs) (cons y ys) = same_where x y && same_operands xs ys
    same_operands _ _ = false

  -- Equality of two normalized tuples.
  unfoldable pub same_options : DatasetOption F → DatasetOption F → Bool
  unfolding text_eq same_where same_names
  same_options a b =
      same_names a.keep_vars b.keep_vars
      && (same_names a.drop_vars b.drop_vars
          && (same_list (λ r s. text_eq r.0 s.0 && text_eq r.1 s.1) a.rename_map b.rename_map
              && (same_option same_where a.where_expr b.where_expr
                  && (same_option same_int a.firstobs b.firstobs
                      && (same_option same_int a.obs b.obs
                          && same_option text_eq a.label b.label)))))
