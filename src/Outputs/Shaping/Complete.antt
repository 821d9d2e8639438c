-- ===== src/Outputs/Shaping/Complete.antt =====
-- The columns that a step defines are the names that its statements define
-- (`_typed_step_defined_columns` of limulus/execution/output_handoff.py).
use limulus.Prelude.{◌≡◌, sym, true, List, [], ◌∷◌, map, none, some, inl, inr, arith, Bool-cases}
use mathlib.Core.Path.{subst}
use limulus.Text.{Text, text_eq, text_eq_iff}
use limulus.Naming.{column_key}
use limulus.Syntax.Statement.{
  data_kind, set_kind, merge_kind, where_kind, assign_kind, sum_kind, keep_kind, drop_kind, by_kind,
  retain_kind, label_kind, rename_kind, output_kind, if_kind, else_if_kind, else_kind, do_kind,
  end_kind, array_kind, delete_kind, stop_kind, run_kind, skipped_kind, plain, element,
  data_statement, source_statement, where_statement, assign_statement, sum_statement, name_list,
  label_statement, rename_statement, output_statement, if_statement, else_statement, do_statement,
  array_statement, delete_statement, stop_statement, end_statement, run_statement,
  skipped_statement, deferred_statement, absent, inline, deferred_action, Statement, statement,
}
use limulus.Validation.{mem}
use limulus.Outputs.Projection.{first_of_keys}
use limulus.Outputs.Shaping.{
  action_names, statement_names, defined_names, is_retained_name, typed_step_defined_columns,
}
use limulus.Outputs.Shaping.Laws.{
  keys_of, is_fresh, has_all_keys, typed_step_defined_columns-is_fresh,
}
use limulus.Outputs.Shaping.Origins.{
  Sets, variable, array_element, sum, in_if, in_else, Defines, sets, loop, array, retain,
  OneDefines, nothing, mem_one_eq, mem-append, mem-select, OneDefines-defined_names,
  is_retained_name-is_dotted_name,
}

action_names-Sets :
    {F : Type 0} (s : Statement F) (n : Text) → mem n (action_names (inline s)) ≡ true → Sets s n
unfolding action_names
action_names-Sets (statement kind (assign_statement (plain target) value) notes) n h =
    subst (Sets _) (sym (mem_one_eq n target.name h)) (variable target value)
action_names-Sets
      (statement kind (assign_statement (element name delimiter index span) value) notes) n h =
    subst (Sets _) (sym (mem_one_eq n name h)) (array_element name delimiter index span value)
action_names-Sets (statement kind (sum_statement target increment) notes) n h =
    subst (Sets _) (sym (mem_one_eq n target.name h)) (sum target increment)
action_names-Sets (statement kind (if_statement condition (inline s) subset then_do display) notes)
      n h =
    in_if condition s subset then_do display n (action_names-Sets s n h)
action_names-Sets (statement kind (else_statement (inline s)) notes) n h =
    in_else s n (action_names-Sets s n h)
action_names-Sets (statement kind (data_statement outputs) notes) n h = nothing n h
action_names-Sets (statement kind (source_statement refs options) notes) n h = nothing n h
action_names-Sets (statement kind (where_statement condition) notes) n h = nothing n h
action_names-Sets (statement kind (name_list names) notes) n h = nothing n h
action_names-Sets (statement kind (label_statement a) notes) n h = nothing n h
action_names-Sets (statement kind (rename_statement pairs) notes) n h = nothing n h
action_names-Sets (statement kind (output_statement targets) notes) n h = nothing n h
action_names-Sets (statement kind (if_statement condition absent subset then_do display) notes) n
      h =
    nothing n h
action_names-Sets
      (statement kind (if_statement condition (deferred_action a) subset then_do display) notes) n
      h =
    nothing n h
action_names-Sets (statement kind (else_statement absent) notes) n h = nothing n h
action_names-Sets (statement kind (else_statement (deferred_action a)) notes) n h = nothing n h
action_names-Sets (statement kind (do_statement loop_var start end boundary_display_spans) notes) n
      h =
    nothing n h
action_names-Sets (statement kind (array_statement a) notes) n h = nothing n h
action_names-Sets (statement kind delete_statement notes) n h = nothing n h
action_names-Sets (statement kind stop_statement notes) n h = nothing n h
action_names-Sets (statement kind end_statement notes) n h = nothing n h
action_names-Sets (statement kind run_statement notes) n h = nothing n h
action_names-Sets (statement kind skipped_statement notes) n h = nothing n h
action_names-Sets (statement kind (deferred_statement a) notes) n h = nothing n h

statement_names-Defines :
    {F : Type 0} (s : Statement F) (n : Text) → mem n (statement_names s) ≡ true → Defines s n
unfolding statement_names
statement_names-Defines (statement kind (assign_statement (plain target) value) notes) n h =
    sets _ n (subst (Sets _) (sym (mem_one_eq n target.name h)) (variable target value))
statement_names-Defines
      (statement kind (assign_statement (element name delimiter index span) value) notes) n h =
    sets _ n
      (subst (Sets _) (sym (mem_one_eq n name h)) (array_element name delimiter index span value))
statement_names-Defines (statement kind (sum_statement target increment) notes) n h =
    sets _ n (subst (Sets _) (sym (mem_one_eq n target.name h)) (sum target increment))
statement_names-Defines
      (statement kind (if_statement condition (inline s) subset then_do display) notes) n h =
    sets _ n (in_if condition s subset then_do display n (action_names-Sets s n h))
statement_names-Defines (statement kind (else_statement (inline s)) notes) n h =
    sets _ n (in_else s n (action_names-Sets s n h))
statement_names-Defines (statement kind (do_statement (some m) start end spans) notes) n h =
    subst (Defines _) (sym (mem_one_eq n m h)) (loop m start end spans)
statement_names-Defines (statement kind (array_statement declaration) notes) n h =
    array declaration n h
statement_names-Defines (statement retain_kind (name_list names) notes) n h =
    let split = rw (mem-select is_retained_name n (map (λ m. m.0) names)) at h in
    retain names n (ground (arith, split))
      (ground (arith, split, is_retained_name-is_dotted_name n))
statement_names-Defines (statement kind (data_statement outputs) notes) n h = nothing n h
statement_names-Defines (statement kind (source_statement refs options) notes) n h = nothing n h
statement_names-Defines (statement kind (where_statement condition) notes) n h = nothing n h
statement_names-Defines (statement data_kind (name_list names) notes) n h = nothing n h
statement_names-Defines (statement set_kind (name_list names) notes) n h = nothing n h
statement_names-Defines (statement merge_kind (name_list names) notes) n h = nothing n h
statement_names-Defines (statement where_kind (name_list names) notes) n h = nothing n h
statement_names-Defines (statement assign_kind (name_list names) notes) n h = nothing n h
statement_names-Defines (statement sum_kind (name_list names) notes) n h = nothing n h
statement_names-Defines (statement keep_kind (name_list names) notes) n h = nothing n h
statement_names-Defines (statement drop_kind (name_list names) notes) n h = nothing n h
statement_names-Defines (statement by_kind (name_list names) notes) n h = nothing n h
statement_names-Defines (statement label_kind (name_list names) notes) n h = nothing n h
statement_names-Defines (statement rename_kind (name_list names) notes) n h = nothing n h
statement_names-Defines (statement output_kind (name_list names) notes) n h = nothing n h
statement_names-Defines (statement if_kind (name_list names) notes) n h = nothing n h
statement_names-Defines (statement else_if_kind (name_list names) notes) n h = nothing n h
statement_names-Defines (statement else_kind (name_list names) notes) n h = nothing n h
statement_names-Defines (statement do_kind (name_list names) notes) n h = nothing n h
statement_names-Defines (statement end_kind (name_list names) notes) n h = nothing n h
statement_names-Defines (statement array_kind (name_list names) notes) n h = nothing n h
statement_names-Defines (statement delete_kind (name_list names) notes) n h = nothing n h
statement_names-Defines (statement stop_kind (name_list names) notes) n h = nothing n h
statement_names-Defines (statement run_kind (name_list names) notes) n h = nothing n h
statement_names-Defines (statement skipped_kind (name_list names) notes) n h = nothing n h
statement_names-Defines (statement kind (label_statement a) notes) n h = nothing n h
statement_names-Defines (statement kind (rename_statement pairs) notes) n h = nothing n h
statement_names-Defines (statement kind (output_statement targets) notes) n h = nothing n h
statement_names-Defines
      (statement kind (if_statement condition absent subset then_do display) notes) n h =
    nothing n h
statement_names-Defines
      (statement kind (if_statement condition (deferred_action a) subset then_do display) notes) n
      h =
    nothing n h
statement_names-Defines (statement kind (else_statement absent) notes) n h = nothing n h
statement_names-Defines (statement kind (else_statement (deferred_action a)) notes) n h =
    nothing n h
statement_names-Defines (statement kind (do_statement none start end spans) notes) n h = nothing n h
statement_names-Defines (statement kind delete_statement notes) n h = nothing n h
statement_names-Defines (statement kind stop_statement notes) n h = nothing n h
statement_names-Defines (statement kind end_statement notes) n h = nothing n h
statement_names-Defines (statement kind run_statement notes) n h = nothing n h
statement_names-Defines (statement kind skipped_statement notes) n h = nothing n h
statement_names-Defines (statement kind (deferred_statement a) notes) n h = nothing n h

defined_names-OneDefines :
    {F : Type 0} (statements : List (Statement F)) (n : Text)
    → mem n (defined_names statements) ≡ true
    → OneDefines statements n
unfolding defined_names
defined_names-OneDefines [] n h = nothing n h
defined_names-OneDefines (s ∷ statements) n h = elim (Bool-cases (mem n (statement_names s))) [
  | inl here ↦ inl (statement_names-Defines s n here)
  | inr later ↦ inr (
      defined_names-OneDefines statements n
        (ground (arith, mem-append n (statement_names s) (defined_names statements), later, h)))
]

mem-first_of_keys :
    (n : Text) (seen names : List Text)
    → mem n (first_of_keys seen names) ≡ true
    → mem n names ≡ true
unfolding first_of_keys
mem-first_of_keys n seen [] h = h
mem-first_of_keys n seen (m ∷ names) h =
    ground
      (arith, h, mem-first_of_keys n seen names, mem-first_of_keys n (column_key m ∷ seen) names)

has_all_keys-mem :
    (ks names : List Text) (n : Text)
    → has_all_keys [] ks names ≡ true
    → mem n names ≡ true
    → mem (column_key n) ks ≡ true
has_all_keys-mem ks [] n h g = nothing n g
has_all_keys-mem ks (m ∷ names) n h g = elim (Bool-cases (text_eq n m)) [
  | inl same ↦
      let here : mem (column_key m) ks ≡ true = ground (arith, h) in
      rw (← (text_eq_iff n m).0 same) at here
  | inr other ↦ has_all_keys-mem ks names n (ground (arith, h)) (ground (arith, g, other))
]

-- The columns that a step defines have different keys. A name that a statement defines has its key
-- among them: a variable or array that is assigned or summed, also in an IF or ELSE and in those
-- inside it, a loop variable, an array variable or a retained dotted name; and each column is such
-- a name.
pub typed_step_defined_columns-OneDefines :
    {F : Type 0} (statements : List (Statement F)) (n : Text)
    → (is_fresh [] (keys_of (typed_step_defined_columns statements)) ≡ true)
      × (OneDefines statements n
          → mem (column_key n) (keys_of (typed_step_defined_columns statements)) ≡ true)
      × (mem n (typed_step_defined_columns statements) ≡ true → OneDefines statements n)
unfolding typed_step_defined_columns
typed_step_defined_columns-OneDefines statements n =
    let (fresh, all_there) = typed_step_defined_columns-is_fresh statements in
    (
      fresh,
      λ d.
          has_all_keys-mem _ (defined_names statements) n all_there
            (OneDefines-defined_names statements n d),
      λ h.
          defined_names-OneDefines statements n
            (mem-first_of_keys n [] (defined_names statements) h),
    )
