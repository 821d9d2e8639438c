-- ===== src/Outputs/Shaping/Defined.antt =====
-- The columns that validation takes for defined by a step are among those that its outputs may have.
use limulus.Prelude.{
  ◌≡◌, refl, Bool, true, false, not, List, [], ◌∷◌, ◌++◌, map, Option, none, some, arith, all,
  and_left, and_right, not-true,
}
use limulus.Prelude.Sort.{select}
use limulus.Text.{Text, text_eq_iff, text_eq_refl}
use limulus.Naming.{column_key}
use limulus.Syntax.Statement.{
  StatementKind, retain_kind, data_kind, set_kind, merge_kind, where_kind, assign_kind, sum_kind,
  keep_kind, drop_kind, by_kind, label_kind, rename_kind, output_kind, if_kind, else_if_kind,
  else_kind, do_kind, end_kind, array_kind, delete_kind, stop_kind, run_kind, skipped_kind,
  assign_statement, sum_statement, data_statement, source_statement, where_statement, name_list,
  label_statement, rename_statement, output_statement, if_statement, else_statement, do_statement,
  array_statement, delete_statement, stop_statement, end_statement, run_statement,
  skipped_statement, deferred_statement, Action, absent, inline, deferred_action, Statement,
  statement,
}
use limulus.Validation.{mem}
use limulus.Validation.Columns.{
  action_defined, statement_defined, collect_typed_step_defined_columns, given, is_empty,
}
use limulus.Outputs.Shaping.{
  action_names, statement_names, defined_names, typed_step_defined_columns, optional,
}
use limulus.Outputs.Shaping.Laws.{has_all_keys, typed_step_defined_columns-is_fresh}

abbrev pub is_retain : StatementKind → Bool
is_retain retain_kind = true
is_retain _ = false

abbrev is_retaining : {F : Type 0} → Statement F → Bool
is_retaining (statement kind payload notes) = is_retain kind

-- Each of some names is among others.
abbrev within : (names others : List Text) → Bool
within names others = all (λ n. mem n others) names

within-one : (n : Text) → within (n ∷ []) (n ∷ []) ≡ true
within-one n = ground (arith, text_eq_refl n)

within-cons :
    (n : Text) (names others : List Text)
    → within names others ≡ true
    → within names (n ∷ others) ≡ true
within-cons n [] others h = refl
within-cons n (m ∷ names) others h = ground (arith, within-cons n names others)

within-select : (p : Text → Bool) (names : List Text) → within (select p names) names ≡ true
within-select p [] = refl
within-select p (n ∷ names) =
    ground (arith, text_eq_refl n, within-cons n (select p names) names (within-select p names))

within-given : (v : Option Text) → within (given v) (optional v) ≡ true
within-given none = refl
within-given (some []) = refl
within-given (some (c ∷ s)) = within-one (c ∷ s)

mem_append_left : (n : Text) (xs ys : List Text) → mem n xs ≡ true → mem n (xs ++ ys) ≡ true
mem_append_left n [] ys h = ground (arith, h)
mem_append_left n (x ∷ xs) ys h = ground (arith, mem_append_left n xs ys)

mem_append_right : (n : Text) (xs ys : List Text) → mem n ys ≡ true → mem n (xs ++ ys) ≡ true
mem_append_right n [] ys h = h
mem_append_right n (x ∷ xs) ys h = ground (arith, mem_append_right n xs ys)

within-append :
    (a b x y : List Text) → within a x ≡ true → within b y ≡ true → within (a ++ b) (x ++ y) ≡ true
within-append [] [] x y h g = refl
within-append [] (n ∷ b) x y h g = ground (arith, mem_append_right n x y, within-append [] b x y)
within-append (n ∷ a) b x y h g = ground (arith, mem_append_left n x y, within-append a b x y)

within-action :
    {F : Type 0} (action : Action F) → within (action_defined action) (action_names action) ≡ true
unfolding action_defined action_names
within-action absent = refl
within-action (deferred_action fault) = refl
within-action (inline (statement kind (assign_statement target value) notes)) = within-one _
within-action (inline (statement kind (sum_statement target increment) notes)) = within-one _
within-action (inline (statement kind (data_statement a) notes)) = refl
within-action (inline (statement kind (source_statement a b) notes)) = refl
within-action (inline (statement kind (where_statement a) notes)) = refl
within-action (inline (statement kind (name_list a) notes)) = refl
within-action (inline (statement kind (label_statement a) notes)) = refl
within-action (inline (statement kind (rename_statement a) notes)) = refl
within-action (inline (statement kind (output_statement a) notes)) = refl
within-action (inline (statement kind (if_statement a b c d e) notes)) = refl
within-action (inline (statement kind (else_statement a) notes)) = refl
within-action (inline (statement kind (do_statement a b c d) notes)) = refl
within-action (inline (statement kind (array_statement a) notes)) = refl
within-action (inline (statement kind delete_statement notes)) = refl
within-action (inline (statement kind stop_statement notes)) = refl
within-action (inline (statement kind end_statement notes)) = refl
within-action (inline (statement kind run_statement notes)) = refl
within-action (inline (statement kind skipped_statement notes)) = refl
within-action (inline (statement kind (deferred_statement a) notes)) = refl

within-statement :
    {F : Type 0} (s : Statement F)
    → is_retaining s ≡ false
    → within (statement_defined s) (statement_names s) ≡ true
unfolding statement_defined statement_names
within-statement (statement kind (assign_statement target value) notes) h = within-one _
within-statement (statement kind (sum_statement target increment) notes) h = within-one _
within-statement (statement retain_kind (name_list names) notes) h = ground (arith, h)
within-statement (statement kind (data_statement a) notes) h = refl
within-statement (statement kind (source_statement a b) notes) h = refl
within-statement (statement kind (where_statement a) notes) h = refl
within-statement (statement data_kind (name_list names) notes) h = refl
within-statement (statement set_kind (name_list names) notes) h = refl
within-statement (statement merge_kind (name_list names) notes) h = refl
within-statement (statement where_kind (name_list names) notes) h = refl
within-statement (statement assign_kind (name_list names) notes) h = refl
within-statement (statement sum_kind (name_list names) notes) h = refl
within-statement (statement keep_kind (name_list names) notes) h = refl
within-statement (statement drop_kind (name_list names) notes) h = refl
within-statement (statement by_kind (name_list names) notes) h = refl
within-statement (statement label_kind (name_list names) notes) h = refl
within-statement (statement rename_kind (name_list names) notes) h = refl
within-statement (statement output_kind (name_list names) notes) h = refl
within-statement (statement if_kind (name_list names) notes) h = refl
within-statement (statement else_if_kind (name_list names) notes) h = refl
within-statement (statement else_kind (name_list names) notes) h = refl
within-statement (statement do_kind (name_list names) notes) h = refl
within-statement (statement end_kind (name_list names) notes) h = refl
within-statement (statement array_kind (name_list names) notes) h = refl
within-statement (statement delete_kind (name_list names) notes) h = refl
within-statement (statement stop_kind (name_list names) notes) h = refl
within-statement (statement run_kind (name_list names) notes) h = refl
within-statement (statement skipped_kind (name_list names) notes) h = refl
within-statement (statement kind (label_statement a) notes) h = refl
within-statement (statement kind (rename_statement a) notes) h = refl
within-statement (statement kind (output_statement a) notes) h = refl
within-statement (statement kind (if_statement a action c d e) notes) h = within-action action
within-statement (statement kind (else_statement a) notes) h = refl
within-statement (statement kind (do_statement v b c d) notes) h = within-given v
within-statement (statement kind (array_statement declaration) notes) h =
    within-select (λ n. not (is_empty n)) declaration.variables
within-statement (statement kind delete_statement notes) h = refl
within-statement (statement kind stop_statement notes) h = refl
within-statement (statement kind end_statement notes) h = refl
within-statement (statement kind run_statement notes) h = refl
within-statement (statement kind skipped_statement notes) h = refl
within-statement (statement kind (deferred_statement a) notes) h = refl

abbrev pub has_no_retain : {F : Type 0} → List (Statement F) → Bool
has_no_retain = all (λ s. not (is_retaining s))

within-defined_names :
    {F : Type 0} (statements : List (Statement F))
    → has_no_retain statements ≡ true
    → within (collect_typed_step_defined_columns statements) (defined_names statements) ≡ true
unfolding collect_typed_step_defined_columns defined_names
within-defined_names [] h = refl
within-defined_names (s ∷ statements) h =
    within-append (statement_defined s) (collect_typed_step_defined_columns statements)
      (statement_names s) (defined_names statements)
      (within-statement s
        (not-true (is_retaining s) (and_left (not (is_retaining s)) (has_no_retain statements) h)))
      (within-defined_names statements
        (and_right (not (is_retaining s)) (has_no_retain statements) h))

has_all_keys-mem :
    (n : Text) (ks names : List Text)
    → has_all_keys [] ks names ≡ true
    → mem n names ≡ true
    → mem (column_key n) ks ≡ true
has_all_keys-mem n ks [] h g = ground (arith, g)
has_all_keys-mem n ks (m ∷ names) h g = ground (arith, text_eq_iff n m, has_all_keys-mem n ks names)

has_all_keys-within :
    (ks names others : List Text)
    → has_all_keys [] ks others ≡ true
    → within names others ≡ true
    → has_all_keys [] ks names ≡ true
has_all_keys-within ks [] others h g = refl
has_all_keys-within ks (n ∷ names) others h g =
    ground (arith, has_all_keys-mem n ks others, has_all_keys-within ks names others)

-- In a step without RETAIN, each column that validation takes for defined by a statement has its key
-- among those of the columns that the outputs of the step may have.
pub collect_typed_step_defined_columns-typed_step_defined_columns :
    {F : Type 0} (statements : List (Statement F))
    → has_no_retain statements ≡ true
    → has_all_keys []
        (map column_key (typed_step_defined_columns statements))
        (collect_typed_step_defined_columns statements)
      ≡ true
collect_typed_step_defined_columns-typed_step_defined_columns statements h =
    has_all_keys-within (map column_key (typed_step_defined_columns statements))
      (collect_typed_step_defined_columns statements) (defined_names statements)
      (typed_step_defined_columns-is_fresh statements).1 (within-defined_names statements h)
