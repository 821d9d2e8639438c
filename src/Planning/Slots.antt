-- ===== src/Planning/Slots.antt =====
-- The expressions that the statements of a block own, in source order
-- (limulus/execution/statement_expressions.py).
pub mod Owned
use limulus.Prelude.{ℕ, List, [], ◌∷◌, ◌++◌, Option, none, some}
use limulus.Text.{Text, codes}
use limulus.Syntax.Expression.{Expression}
use limulus.Syntax.Statement.{
  AssignmentTarget, plain, element, Payload, data_statement, source_statement, where_statement,
  assign_statement, sum_statement, name_list, label_statement, rename_statement, output_statement,
  if_statement, else_statement, do_statement, array_statement, delete_statement, stop_statement,
  end_statement, run_statement, skipped_statement, deferred_statement, Action, absent, inline,
  deferred_action, Statement, statement, Block,
}

pub record StatementExpressionSlot : Type 0 where
  pub role : Text
  pub expression : Expression

abbrev pub slot : Text → Expression → StatementExpressionSlot
slot role e = record { role = role; expression = e }

unfoldable pub target_slots : AssignmentTarget → List StatementExpressionSlot
target_slots (plain target) = []
target_slots (element name delimiter index span) = slot (codes "assign_target_index") index ∷ []

unfoldable pub assign_slots : AssignmentTarget → Expression → List StatementExpressionSlot
unfolding target_slots
assign_slots target value = target_slots target ++ slot (codes "assign_value") value ∷ []

unfoldable pub do_slots : Option Expression → Option Expression → List StatementExpressionSlot
do_slots (some start) (some end) = slot (codes "do_start") start ∷ slot (codes "do_end") end ∷ []
do_slots _ _ = []

unfoldable mutual
  unfolding assign_slots do_slots

  pub payload_slots : {F : Type 0} → Payload F → List StatementExpressionSlot
  payload_slots (where_statement condition) = slot (codes "where_condition") condition ∷ []
  payload_slots (assign_statement target value) = assign_slots target value
  payload_slots (sum_statement target increment) = slot (codes "sum_increment") increment ∷ []
  payload_slots (if_statement condition action subset then_do display) =
      slot (codes "if_condition") condition ∷ structured_action_slots action
  payload_slots (else_statement action) = structured_action_slots action
  payload_slots (do_statement loop_var start end spans) = do_slots start end
  payload_slots _ = []

  pub structured_action_slots : {F : Type 0} → Action F → List StatementExpressionSlot
  structured_action_slots absent = []
  structured_action_slots (inline s) = statement_expression_slots s
  structured_action_slots (deferred_action fault) = []

  pub statement_expression_slots : {F : Type 0} → Statement F → List StatementExpressionSlot
  statement_expression_slots (statement kind payload notes) = payload_slots payload

unfoldable pub expression_slots : {F : Type 0} → List (Statement F) → List StatementExpressionSlot
unfolding statement_expression_slots
expression_slots [] = []
expression_slots (s ∷ statements) = statement_expression_slots s ++ expression_slots statements

unfoldable pub block_expression_slots : {F : Type 0} → Block F → List StatementExpressionSlot
unfolding expression_slots
block_expression_slots block = expression_slots block.statements
