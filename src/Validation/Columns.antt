-- ===== src/Validation/Columns.antt =====
-- The columns that a source has after its data set options, and the columns that the statements of a
-- step define. A set is a list here, gone through in its order, in which a member may stand twice.
use limulus.Prelude.{
  ℕ, Bool, true, false, not, ◌&&◌, ◌||◌, List, [], ◌∷◌, ◌++◌, map, Option, none, some, leb, ◌==◌,
  if◌then◌else◌, all, length, get_or,
}
use limulus.Prelude.Sort.{select}
use limulus.Text.{Text, codes, text_eq, starts_with}
use limulus.Dict.{Dict, get?, set, keys}
use limulus.Naming.{column_key}
use limulus.Syntax.Expression.{Place}
use limulus.Syntax.Options.{DatasetOption}
use limulus.Syntax.Statement.{
  retain_kind, AssignmentTarget, plain, element, assign_statement, sum_statement, if_statement,
  do_statement, array_statement, name_list, Action, inline, Statement, statement,
}
use limulus.Validation.{mem}

-- The first column with the key of a name.
unfoldable pub resolve_column : List Text → Text → Option Text
unfolding column_key text_eq
resolve_column [] name = none
resolve_column (candidate ∷ working) name =
    if text_eq (column_key candidate) (column_key name)
    then some candidate
    else resolve_column working name

-- The first name that no column has.
unfoldable pub first_missing : List Text → List Text → Option Text
unfolding resolve_column
first_missing working [] = none
first_missing working (name ∷ names) = elim (resolve_column working name) [
  | none ↦ some name
  | some column ↦ first_missing working names
]

-- The columns that some names have.
unfoldable pub resolved_columns : List Text → List Text → List Text
unfolding resolve_column
resolved_columns working [] = []
resolved_columns working (name ∷ names) =
    let rest = resolved_columns working names in
    elim (resolve_column working name) [ none ↦ rest | some column ↦ column ∷ rest ]

-- `dict` of some pairs.
unfoldable pub dict_of : List (Text × Text) → Dict Text → Dict Text
unfolding set
dict_of [] entries = entries
dict_of ((k, v) ∷ pairs) entries = dict_of pairs (set entries k v)

abbrev pub values_of : Dict Text → List Text
values_of = map (λ e. e.1)

-- The members of a set, without repetition.
unfoldable pub distinct : List Text → List Text
unfolding text_eq
distinct [] = []
distinct (n ∷ names) = let rest = distinct names in if mem n rest then rest else n ∷ rest

unfoldable pub resolved_renames : List Text → Dict Text → Dict Text → Dict Text
unfolding resolve_column set
resolved_renames working [] renames = renames
resolved_renames working ((old, new) ∷ entries) renames =
    resolved_renames working entries
      (elim (resolve_column working old) [ none ↦ renames | some column ↦ set renames column new ])

unfoldable pub rename_columns : Dict Text → List Text → List Text
unfolding get?
rename_columns renames = map (λ n. get_or (get? renames n) n)

-- What an option leaves of the columns, or the diagnostic: its code, message and label.
pub data Columns : Type 0 where
  columns : List Text → Columns
  rejected : (code message label : Text) → Columns

abbrev pub unknown_variable : (option missing source_name : Text) → Columns
unknown_variable option missing source_name =
    rejected (codes "VALIDATE_COLUMN_NOT_FOUND")
      (codes "Dataset option "
        ++ (option
            ++ (codes "= references unknown variable '"
                ++ (missing ++ (codes "' for source '" ++ (source_name ++ codes "'."))))))
      (codes "unknown variable")

unfoldable pub keep_columns : Text → List Text → List Text → Columns
unfolding first_missing resolved_columns
keep_columns source_name [] working = columns working
keep_columns source_name (k ∷ keep_vars) working = elim (first_missing working (k ∷ keep_vars)) [
  | some missing ↦ unknown_variable (codes "KEEP") missing source_name
  | none ↦ columns (resolved_columns working (k ∷ keep_vars))
]

unfoldable pub drop_columns : Text → List Text → List Text → Columns
unfolding first_missing resolved_columns text_eq
drop_columns source_name [] working = columns working
drop_columns source_name (d ∷ drop_vars) working = elim (first_missing working (d ∷ drop_vars)) [
  | some missing ↦ unknown_variable (codes "DROP") missing source_name
  | none ↦ columns (select (λ n. not (mem n (resolved_columns working (d ∷ drop_vars)))) working)
]

abbrev has_duplicate_targets : Dict Text → Bool
unfolding distinct column_key
has_duplicate_targets renames =
    not (length (distinct (map column_key (values_of renames))) == length renames)

unfoldable pub apply_renames : Text → Dict Text → List Text → Columns
unfolding distinct column_key first_missing resolved_renames rename_columns
apply_renames source_name [] working = columns working
apply_renames source_name (r ∷ renames) working =
    if has_duplicate_targets (r ∷ renames)
    then rejected (codes "RUNTIME_DATASET_OPTION_INVALID")
        (codes "Dataset option RENAME= has duplicate target names for source '"
          ++ (source_name ++ codes "'."))
        (codes "invalid rename")
    else elim (first_missing working (keys (r ∷ renames))) [
      | some missing ↦
          rejected (codes "RUNTIME_DATASET_OPTION_INVALID")
            (codes "Dataset option RENAME= references unknown variable '"
              ++ (missing ++ (codes "' for source '" ++ (source_name ++ codes "'."))))
            (codes "unknown variable")
      | none ↦ columns (rename_columns (resolved_renames working (r ∷ renames) []) working)
    ]

infixl 5 ◌>>=◌
abbrev pub ◌>>=◌ : Columns → (List Text → Columns) → Columns
columns working >>= f = f working
rejected code message label >>= f = rejected code message label

unfoldable pub apply_source_option_columns_for_validate :
    {F : Type 0} → List Text → Text → DatasetOption F → Columns
unfolding keep_columns drop_columns apply_renames dict_of
apply_source_option_columns_for_validate available source_name options =
    keep_columns source_name options.keep_vars available >>= λ kept.
    drop_columns source_name options.drop_vars kept >>= λ working.
    apply_renames source_name (dict_of options.rename_map []) working

abbrev is_digit : ℕ → Bool
is_digit c = leb 48 c && leb c 57

-- `body.partition(".")`
unfoldable pub partition_dot : Text → Text × Bool × Text
partition_dot [] = ([], false, [])
partition_dot (c ∷ s) =
    let (whole, dot, fraction) = partition_dot s in
    if c == 46 then ([], true, s) else (c ∷ whole, dot, fraction)

abbrev unsigned : Text → Text
unsigned [] = []
unsigned (c ∷ s) = if (c == 43) || (c == 45) then s else c ∷ s

abbrev pub is_empty : Text → Bool
is_empty [] = true
is_empty (c ∷ s) = false

-- `str.isdigit`, of ASCII digits.
abbrev are_digits : Text → Bool
are_digits s = not (is_empty s) && all is_digit s

abbrev numeric_parts : Text × Bool × Text → Bool
numeric_parts (whole, false, fraction) = are_digits whole
numeric_parts (whole, true, fraction) =
    not (is_empty whole && is_empty fraction)
    && (is_empty whole || are_digits whole)
    && (is_empty fraction || are_digits fraction)

unfoldable pub is_numeric_column_token : Text → Bool
unfolding partition_dot
is_numeric_column_token token = numeric_parts (partition_dot (unsigned token))

abbrev is_quoted : Text → Bool
unfolding starts_with
is_quoted token = starts_with token (codes "'") || starts_with token (codes "\"")

unfoldable pub retained_defined_names : List (Text × Place) → List Text
unfolding is_numeric_column_token starts_with
retained_defined_names [] = []
retained_defined_names ((token, place) ∷ names) =
    let rest = retained_defined_names names in
    if is_quoted token || is_numeric_column_token token then rest else token ∷ rest

abbrev target_name : AssignmentTarget → Text
target_name (plain target) = target.name
target_name (element name delimiter index span) = name

abbrev pub given : Option Text → List Text
given (some (c ∷ s)) = (c ∷ s) ∷ []
given _ = []

module _ {F : Type 0} where
  -- What an inline action defines.
  unfoldable pub action_defined : Action F → List Text
  action_defined (inline (statement kind (assign_statement target value) notes)) =
      target_name target ∷ []
  action_defined (inline (statement kind (sum_statement target increment) notes)) = target.name ∷ []
  action_defined _ = []

  unfoldable pub statement_defined : Statement F → List Text
  unfolding action_defined retained_defined_names
  statement_defined (statement kind (assign_statement target value) notes) = target_name target ∷ []
  statement_defined (statement kind (sum_statement target increment) notes) = target.name ∷ []
  statement_defined (statement kind (if_statement condition action subset then_do display) notes) =
      action_defined action
  statement_defined (statement kind (do_statement loop_var start end spans) notes) = given loop_var
  statement_defined (statement kind (array_statement declaration) notes) =
      select (λ n. not (is_empty n)) declaration.variables
  statement_defined (statement retain_kind (name_list names) notes) = retained_defined_names names
  statement_defined _ = []

  unfoldable pub collect_typed_step_defined_columns : List (Statement F) → List Text
  unfolding statement_defined
  collect_typed_step_defined_columns [] = []
  collect_typed_step_defined_columns (s ∷ statements) =
      statement_defined s ++ collect_typed_step_defined_columns statements
