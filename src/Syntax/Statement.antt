-- ===== src/Syntax/Statement.antt =====
-- The typed statements of limulus/syntax/models.py: their kinds and payloads, and what the
-- constructors check by value. What they check by type is ruled out here.
pub mod Valid
use limulus.Prelude.{ℕ, Bool, true, false, List, [], ◌∷◌, Option, none, some}
use limulus.Prelude.Int.{ℤ}
use limulus.Text.{Text}
use limulus.Syntax.Expression.{SourceSpan, Place, ApplyReference, Expression}
use limulus.Syntax.Options.{DatasetReference, SetStatementOption}

pub data StatementKind : Type 0 where
  data_kind set_kind merge_kind where_kind assign_kind sum_kind keep_kind drop_kind : StatementKind
  by_kind retain_kind label_kind rename_kind output_kind if_kind else_if_kind : StatementKind
  else_kind do_kind end_kind array_kind delete_kind stop_kind run_kind skipped_kind : StatementKind

pub record NameTarget : Type 0 where
  pub name : Text
  pub span : SourceSpan

pub data Delimiter : Type 0 where
  round square curly : Delimiter

pub data AssignmentTarget : Type 0 where
  plain : NameTarget → AssignmentTarget
  element : (name : Text) → Delimiter → (index : Expression) → SourceSpan → AssignmentTarget

pub record LabelAttribute : Type 0 where
  pub name : Text
  pub label : Text
  pub span : SourceSpan

pub record ArrayDeclaration : Type 0 where
  pub array_name : Text
  pub variables : List Text
  pub span : SourceSpan
  pub declared_size : Option ℤ
  pub wildcard_size : Bool
  pub character_array : Bool

-- A fault that is saved at the initial parse. A diagnostic display is its source text.
pub record DeferredStatement : Type 0 where
  pub error_kind : Text
  pub native_cause : Text
  pub span : SourceSpan
  pub where_syntax_summary : Text
  pub display_text : Text
  pub diagnostic_display : Option Text

-- What IF keeps for the display of its condition: the replacements and the span of the condition.
pub record ConditionDisplay : Type 0 where
  pub edits : List (SourceSpan × Text)
  pub span : Option SourceSpan

-- The spans and references of a statement.
pub record Annotations : Type 0 where
  pub span : SourceSpan
  pub apply_references : List ApplyReference
  pub origin : Option SourceSpan
  pub legacy_display_span : Option SourceSpan

mutual
  pub data Payload (F : Type 0) : Type 0 where
    data_statement : (outputs : List (DatasetReference F)) → Payload F
    source_statement : (refs : List (DatasetReference F)) → SetStatementOption → Payload F
    where_statement : (condition : Expression) → Payload F
    assign_statement : AssignmentTarget → (value : Expression) → Payload F
    sum_statement : NameTarget → (increment : Expression) → Payload F
    name_list : (names : List (Text × Place)) → Payload F
    label_statement : List LabelAttribute → Payload F
    rename_statement : (pairs : List (Text × Text)) → Payload F
    output_statement : (targets : List (DatasetReference F)) → Payload F
    if_statement :
        (condition : Expression)
        → Action F
        → (is_subset is_then_do : Bool) → ConditionDisplay
        → Payload F
    else_statement : Action F → Payload F
    do_statement :
        (loop_var : Option Text)
        → (start end : Option Expression)
        → (boundary_display_spans : Option (SourceSpan × SourceSpan)) → Payload F
    array_statement : ArrayDeclaration → Payload F
    delete_statement : Payload F
    stop_statement : Payload F
    end_statement : Payload F
    run_statement : Payload F
    skipped_statement : Payload F
    deferred_statement : DeferredStatement → Payload F

  -- The action of an IF or ELSE.
  pub data Action (F : Type 0) : Type 0 where
    absent : Action F
    inline : Statement F → Action F
    deferred_action : DeferredStatement → Action F

  pub data Statement (F : Type 0) : Type 0 where
    statement : StatementKind → Payload F → Annotations → Statement F

abbrev pub kind_of : {F : Type 0} → Statement F → StatementKind
kind_of (statement kind payload notes) = kind

abbrev pub payload_of : {F : Type 0} → Statement F → Payload F
payload_of (statement kind payload notes) = payload

abbrev pub notes_of : {F : Type 0} → Statement F → Annotations
notes_of (statement kind payload notes) = notes

pub record Block (F : Type 0) : Type 0 where
  pub span : SourceSpan
  pub statements : List (Statement F)
