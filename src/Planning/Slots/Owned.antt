-- ===== src/Planning/Slots/Owned.antt =====
-- Which expressions the slots of a block hold (limulus/execution/statement_expressions.py).
use limulus.Prelude.{
  ◌≡◌, refl, sym, Bool, List, [], ◌∷◌, ◌++◌, Option, none, some, ◌⊎◌, inl, inr, ◌↔◌,
}
use mathlib.Core.Path.{subst}
use limulus.Text.{Text, codes}
use limulus.Syntax.Expression.{SourceSpan, Expression}
use limulus.Syntax.Statement.{
  StatementKind, NameTarget, Delimiter, ConditionDisplay, Annotations, AssignmentTarget, plain,
  element, data_statement, source_statement, where_statement, assign_statement, sum_statement,
  name_list, label_statement, rename_statement, output_statement, if_statement, else_statement,
  do_statement, array_statement, delete_statement, stop_statement, end_statement, run_statement,
  skipped_statement, deferred_statement, Action, absent, inline, deferred_action, Statement,
  statement, Block,
}
use limulus.Planning.Slots.{
  StatementExpressionSlot, slot, target_slots, assign_slots, do_slots, payload_slots,
  structured_action_slots, statement_expression_slots, expression_slots, block_expression_slots,
}

-- The roles of the expressions that a statement has, an IF or ELSE with those of its inline action.
-- A DO loop has its bounds only if it has both.
pub data Owns {F : Type 0} : Statement F → Text → Expression → Type 0 where
  where_condition :
      {kind : StatementKind} {notes : Annotations} (condition : Expression)
      → Owns (statement kind (where_statement condition) notes) (codes "where_condition") condition
  assign_value :
      {kind : StatementKind} {notes : Annotations} (target : AssignmentTarget) (value : Expression)
      → Owns (statement kind (assign_statement target value) notes) (codes "assign_value") value
  assign_target_index :
      {kind : StatementKind} {notes : Annotations} (name : Text) (delimiter : Delimiter)
      (index : Expression) (span : SourceSpan) (value : Expression)
      → Owns
          (statement kind (assign_statement (element name delimiter index span) value) notes)
          (codes "assign_target_index")
          index
  sum_increment :
      {kind : StatementKind} {notes : Annotations} (target : NameTarget) (increment : Expression)
      → Owns
          (statement kind (sum_statement target increment) notes)
          (codes "sum_increment")
          increment
  if_condition :
      {kind : StatementKind} {notes : Annotations} (condition : Expression) (action : Action F)
      (subset then_do : Bool) (display : ConditionDisplay)
      → Owns
          (statement kind (if_statement condition action subset then_do display) notes)
          (codes "if_condition")
          condition
  if_action :
      {kind : StatementKind} {notes : Annotations} (condition : Expression) (s : Statement F)
      (subset then_do : Bool) (display : ConditionDisplay) (role : Text) (e : Expression)
      → Owns s role e
      → Owns
          (statement kind (if_statement condition (inline s) subset then_do display) notes)
          role
          e
  else_action :
      {kind : StatementKind} {notes : Annotations} (s : Statement F) (role : Text) (e : Expression)
      → Owns s role e
      → Owns (statement kind (else_statement (inline s)) notes) role e
  do_start :
      {kind : StatementKind} {notes : Annotations} (loop_var : Option Text) (start end : Expression)
      (spans : Option (SourceSpan × SourceSpan))
      → Owns
          (statement kind (do_statement loop_var (some start) (some end) spans) notes)
          (codes "do_start")
          start
  do_end :
      {kind : StatementKind} {notes : Annotations} (loop_var : Option Text) (start end : Expression)
      (spans : Option (SourceSpan × SourceSpan))
      → Owns
          (statement kind (do_statement loop_var (some start) (some end) spans) notes)
          (codes "do_end")
          end

-- A statement of a list has the expression in the role.
abbrev pub OneOwns : {F : Type 0} → List (Statement F) → Text → Expression → Type 0
OneOwns [] role e = ⊥
OneOwns (s ∷ statements) role e = Owns s role e ⊎ OneOwns statements role e

-- A slot stands in a list.
abbrev pub HasSlot : List StatementExpressionSlot → Text → Expression → Type 0
HasSlot [] role e = ⊥
HasSlot (s ∷ slots) role e = (slot role e ≡ s) ⊎ HasSlot slots role e

HasSlot-append :
    (xs ys : List StatementExpressionSlot) (role : Text) (e : Expression)
    → HasSlot (xs ++ ys) role e
    → HasSlot xs role e ⊎ HasSlot ys role e
HasSlot-append [] ys role e h = inr h
HasSlot-append (x ∷ xs) ys role e (inl p) = inl (inl p)
HasSlot-append (x ∷ xs) ys role e (inr h) = elim (HasSlot-append xs ys role e h) [
  | inl g ↦ inl (inr g)
  | inr g ↦ inr g
]

HasSlot-left :
    (xs ys : List StatementExpressionSlot) (role : Text) (e : Expression)
    → HasSlot xs role e
    → HasSlot (xs ++ ys) role e
HasSlot-left [] ys role e h = elim h [ ]
HasSlot-left (x ∷ xs) ys role e (inl p) = inl p
HasSlot-left (x ∷ xs) ys role e (inr h) = inr (HasSlot-left xs ys role e h)

HasSlot-right :
    (xs ys : List StatementExpressionSlot) (role : Text) (e : Expression)
    → HasSlot ys role e
    → HasSlot (xs ++ ys) role e
HasSlot-right [] ys role e h = h
HasSlot-right (x ∷ xs) ys role e h = inr (HasSlot-right xs ys role e h)

-- A derivation for a slot is one for an equal slot.
move :
    {F : Type 0} {s : Statement F} (role role' : Text) (e e' : Expression)
    → slot role e ≡ slot role' e'
    → Owns s role' e'
    → Owns s role e
move {F} {s} role role' e e' p o =
    subst (λ (t : StatementExpressionSlot). Owns s t.role t.expression) (sym p) o

Owns-HasSlot :
    {F : Type 0} (s : Statement F) (role : Text) (e : Expression)
    → Owns s role e
    → HasSlot (statement_expression_slots s) role e
unfolding statement_expression_slots payload_slots assign_slots target_slots do_slots
    structured_action_slots
Owns-HasSlot _ _ _ (where_condition condition) = inl refl
Owns-HasSlot _ _ _ (assign_value (plain target) value) = inl refl
Owns-HasSlot _ _ _ (assign_value (element name delimiter index span) value) = inr (inl refl)
Owns-HasSlot _ _ _ (assign_target_index name delimiter index span value) = inl refl
Owns-HasSlot _ _ _ (sum_increment target increment) = inl refl
Owns-HasSlot _ _ _ (if_condition condition action subset then_do display) = inl refl
Owns-HasSlot _ _ _ (if_action condition s subset then_do display role e o) =
    inr (Owns-HasSlot s role e o)
Owns-HasSlot _ _ _ (else_action s role e o) = Owns-HasSlot s role e o
Owns-HasSlot _ _ _ (do_start loop_var start end spans) = inl refl
Owns-HasSlot _ _ _ (do_end loop_var start end spans) = inr (inl refl)

HasSlot-Owns :
    {F : Type 0} (s : Statement F) (role : Text) (e : Expression)
    → HasSlot (statement_expression_slots s) role e
    → Owns s role e
unfolding statement_expression_slots payload_slots assign_slots target_slots do_slots
    structured_action_slots
HasSlot-Owns (statement kind (where_statement condition) notes) role e (inl p) =
    move role _ e condition p (where_condition condition)
HasSlot-Owns (statement kind (assign_statement (plain target) value) notes) role e (inl p) =
    move role _ e value p (assign_value (plain target) value)
HasSlot-Owns (statement kind (assign_statement (element name delimiter index span) value) notes)
      role e (inl p) =
    move role _ e index p (assign_target_index name delimiter index span value)
HasSlot-Owns (statement kind (assign_statement (element name delimiter index span) value) notes)
      role e (inr (inl p)) =
    move role _ e value p (assign_value (element name delimiter index span) value)
HasSlot-Owns (statement kind (sum_statement target increment) notes) role e (inl p) =
    move role _ e increment p (sum_increment target increment)
HasSlot-Owns (statement kind (if_statement condition action subset then_do display) notes) role e
      (inl p) =
    move role _ e condition p (if_condition condition action subset then_do display)
HasSlot-Owns (statement kind (if_statement condition (inline s) subset then_do display) notes) role
      e (inr h) =
    if_action condition s subset then_do display role e (HasSlot-Owns s role e h)
HasSlot-Owns (statement kind (else_statement (inline s)) notes) role e h =
    else_action s role e (HasSlot-Owns s role e h)
HasSlot-Owns (statement kind (do_statement loop_var (some start) (some end) spans) notes) role e
      (inl p) =
    move role _ e start p (do_start loop_var start end spans)
HasSlot-Owns (statement kind (do_statement loop_var (some start) (some end) spans) notes) role e
      (inr (inl p)) =
    move role _ e end p (do_end loop_var start end spans)
HasSlot-Owns (statement kind (data_statement outputs) notes) role e h = elim h [ ]
HasSlot-Owns (statement kind (source_statement refs options) notes) role e h = elim h [ ]
HasSlot-Owns (statement kind (where_statement condition) notes) role e (inr h) = elim h [ ]
HasSlot-Owns (statement kind (assign_statement (plain target) value) notes) role e (inr h) =
    elim h [ ]
HasSlot-Owns (statement kind (assign_statement (element name delimiter index span) value) notes)
      role e (inr (inr x12)) =
    elim x12 [ ]
HasSlot-Owns (statement kind (sum_statement target increment) notes) role e (inr h) = elim h [ ]
HasSlot-Owns (statement kind (name_list names) notes) role e h = elim h [ ]
HasSlot-Owns (statement kind (label_statement a) notes) role e h = elim h [ ]
HasSlot-Owns (statement kind (rename_statement pairs) notes) role e h = elim h [ ]
HasSlot-Owns (statement kind (output_statement targets) notes) role e h = elim h [ ]
HasSlot-Owns (statement kind (if_statement condition absent subset then_do display) notes) role e
      (inr h) =
    elim h [ ]
HasSlot-Owns
      (statement kind (if_statement condition (deferred_action a) subset then_do display) notes)
      role e (inr h) =
    elim h [ ]
HasSlot-Owns (statement kind (else_statement absent) notes) role e h = elim h [ ]
HasSlot-Owns (statement kind (else_statement (deferred_action a)) notes) role e h = elim h [ ]
HasSlot-Owns (statement kind (do_statement loop_var none end spans) notes) role e h = elim h [ ]
HasSlot-Owns (statement kind (do_statement loop_var (some start) none spans) notes) role e h =
    elim h [ ]
HasSlot-Owns (statement kind (do_statement loop_var (some start) (some end) spans) notes) role e
      (inr (inr x21)) =
    elim x21 [ ]
HasSlot-Owns (statement kind (array_statement a) notes) role e h = elim h [ ]
HasSlot-Owns (statement kind delete_statement notes) role e h = elim h [ ]
HasSlot-Owns (statement kind stop_statement notes) role e h = elim h [ ]
HasSlot-Owns (statement kind end_statement notes) role e h = elim h [ ]
HasSlot-Owns (statement kind run_statement notes) role e h = elim h [ ]
HasSlot-Owns (statement kind skipped_statement notes) role e h = elim h [ ]
HasSlot-Owns (statement kind (deferred_statement a) notes) role e h = elim h [ ]

OneOwns-HasSlot :
    {F : Type 0} (statements : List (Statement F)) (role : Text) (e : Expression)
    → OneOwns statements role e
    → HasSlot (expression_slots statements) role e
unfolding expression_slots
OneOwns-HasSlot [] role e h = elim h [ ]
OneOwns-HasSlot (s ∷ statements) role e (inl o) =
    HasSlot-left (statement_expression_slots s) (expression_slots statements) role e
      (Owns-HasSlot s role e o)
OneOwns-HasSlot (s ∷ statements) role e (inr o) =
    HasSlot-right (statement_expression_slots s) (expression_slots statements) role e
      (OneOwns-HasSlot statements role e o)

HasSlot-OneOwns :
    {F : Type 0} (statements : List (Statement F)) (role : Text) (e : Expression)
    → HasSlot (expression_slots statements) role e
    → OneOwns statements role e
unfolding expression_slots
HasSlot-OneOwns [] role e h = h
HasSlot-OneOwns (s ∷ statements) role e h =
    elim (HasSlot-append (statement_expression_slots s) (expression_slots statements) role e h) [
      | inl g ↦ inl (HasSlot-Owns s role e g)
      | inr g ↦ inr (HasSlot-OneOwns statements role e g)
    ]

-- The slots of a block are the expressions of its statements in their roles: the WHERE and IF
-- conditions, assigned values and target indices, sum increments and DO bounds, those of inline
-- actions included at any depth, and nothing else.
pub block_expression_slots-OneOwns :
    {F : Type 0} (block : Block F) (role : Text) (e : Expression)
    → HasSlot (block_expression_slots block) role e ↔ OneOwns block.statements role e
unfolding block_expression_slots
block_expression_slots-OneOwns block role e =
    (HasSlot-OneOwns block.statements role e, OneOwns-HasSlot block.statements role e)
