-- ===== src/Syntax/Statement/Valid.antt =====
-- What the constructors of the statements check by value (`__post_init__` in
-- limulus/syntax/models.py).
use limulus.Prelude.{Bool, true, false, ◌&&◌, List, [], ◌∷◌, Option, none, some, leb, all, any}
use limulus.Text.{Text, codes, text_eq}
use limulus.Syntax.Expression.{SourceSpan, Expression, is_valid}
use limulus.Syntax.Options.{DatasetReference}
use limulus.Syntax.Statement.{
  StatementKind, data_kind, set_kind, merge_kind, where_kind, assign_kind, sum_kind, keep_kind,
  drop_kind, by_kind, retain_kind, label_kind, rename_kind, output_kind, if_kind, else_if_kind,
  else_kind, do_kind, end_kind, array_kind, delete_kind, stop_kind, run_kind, skipped_kind,
  AssignmentTarget, plain, element, Payload, data_statement, source_statement, where_statement,
  assign_statement, sum_statement, name_list, label_statement, rename_statement, output_statement,
  if_statement, else_statement, do_statement, array_statement, delete_statement, stop_statement,
  end_statement, run_statement, skipped_statement, deferred_statement, Action, absent, inline,
  deferred_action, Statement, statement, Block,
}

abbrev pub is_nonempty : Text → Bool
is_nonempty [] = false
is_nonempty (c ∷ s) = true

abbrev condition_display_replacements : List Text
condition_display_replacements =
    codes "==" ∷ codes "!=" ∷ codes "and" ∷ codes "or" ∷ codes "not" ∷ []

-- The edits of a condition are in order, do not overlap and share one source. The last one before
-- them, if any, is given.
unfoldable pub are_valid_edits : Option SourceSpan → List (SourceSpan × Text) → Bool
unfolding text_eq
are_valid_edits previous [] = true
are_valid_edits none ((span, replacement) ∷ edits) =
    any (text_eq replacement) condition_display_replacements && are_valid_edits (some span) edits
are_valid_edits (some previous) ((span, replacement) ∷ edits) =
    any (text_eq replacement) condition_display_replacements
    && leb previous.end span.start
    && text_eq span.source_id previous.source_id
    && are_valid_edits (some span) edits

abbrev is_given {ℓ} : {A : Type ℓ} → Option A → Bool
is_given none = false
is_given (some a) = true

abbrev is_valid_option : Option Expression → Bool
unfolding is_valid
is_valid_option none = true
is_valid_option (some e) = is_valid e

-- The three parts of a DO loop are there together, or none is.
unfoldable pub are_loop_parts : Option Text → Option Expression → Option Expression → Bool
are_loop_parts (some v) (some s) (some e) = true
are_loop_parts none none none = true
are_loop_parts _ _ _ = false

unfoldable pub is_valid_target : AssignmentTarget → Bool
unfolding is_valid
is_valid_target (plain target) = is_nonempty target.name
is_valid_target (element name delimiter index span) = is_nonempty name && is_valid index

-- `_STATEMENT_PAYLOAD_KINDS`
unfoldable pub accepts : {F : Type 0} → StatementKind → Payload F → Bool
accepts kind (deferred_statement fault) = true
accepts data_kind (data_statement outputs) = true
accepts set_kind (source_statement refs options) = true
accepts merge_kind (source_statement refs options) = true
accepts where_kind (where_statement condition) = true
accepts assign_kind (assign_statement target value) = true
accepts sum_kind (sum_statement target increment) = true
accepts keep_kind (name_list names) = true
accepts drop_kind (name_list names) = true
accepts by_kind (name_list names) = true
accepts retain_kind (name_list names) = true
accepts label_kind (label_statement labels) = true
accepts rename_kind (rename_statement pairs) = true
accepts output_kind (output_statement targets) = true
accepts if_kind (if_statement condition action subset then_do display) = true
accepts else_if_kind (if_statement condition action subset then_do display) = true
accepts else_kind (else_statement action) = true
accepts do_kind (do_statement loop_var start end spans) = true
accepts end_kind end_statement = true
accepts array_kind (array_statement declaration) = true
accepts delete_kind delete_statement = true
accepts stop_kind stop_statement = true
accepts run_kind run_statement = true
accepts skipped_kind skipped_statement = true
accepts _ _ = false

abbrev are_named : {F : Type 0} → List (DatasetReference F) → Bool
are_named = all (λ r. is_nonempty r.name)

unfoldable mutual
  unfolding is_valid is_valid_target are_valid_edits are_loop_parts accepts

  pub is_valid_payload : {F : Type 0} → Payload F → Bool
  is_valid_payload (data_statement outputs) = are_named outputs
  is_valid_payload (source_statement refs options) = are_named refs
  is_valid_payload (where_statement condition) = is_valid condition
  is_valid_payload (assign_statement target value) = is_valid_target target && is_valid value
  is_valid_payload (sum_statement target increment) = is_nonempty target.name && is_valid increment
  is_valid_payload (name_list names) = all (λ n. is_nonempty n.0) names
  is_valid_payload (label_statement labels) = all (λ l. is_nonempty l.name) labels
  is_valid_payload (rename_statement pairs) = all (λ p. is_nonempty p.0 && is_nonempty p.1) pairs
  is_valid_payload (output_statement targets) = are_named targets
  is_valid_payload (if_statement condition action subset then_do display) =
      is_valid condition && is_valid_action action && are_valid_edits none display.edits
  is_valid_payload (else_statement action) = is_valid_action action
  is_valid_payload (do_statement loop_var start end spans) =
      are_loop_parts loop_var start end && is_valid_option start && is_valid_option end
  is_valid_payload (array_statement declaration) = is_nonempty declaration.array_name
  is_valid_payload _ = true

  pub is_valid_action : {F : Type 0} → Action F → Bool
  is_valid_action absent = true
  is_valid_action (inline s) = is_valid_statement s
  is_valid_action (deferred_action fault) = true

  pub is_valid_statement : {F : Type 0} → Statement F → Bool
  is_valid_statement (statement kind payload notes) =
      accepts kind payload && is_valid_payload payload

unfoldable pub is_valid_block : {F : Type 0} → Block F → Bool
unfolding is_valid_statement
is_valid_block block = all is_valid_statement block.statements
