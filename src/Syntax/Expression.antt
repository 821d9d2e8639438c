-- ===== src/Syntax/Expression.antt =====
-- The typed expressions of limulus/syntax/models.py. Types exclude what `__post_init__` rejects by
-- type; what it rejects by value, empty names and concatenations of less than two parts, is
-- `is_valid`.
use limulus.Prelude.{ℕ, suc, Bool, true, false, ◌&&◌, List, [], ◌∷◌, Option, leb}
use limulus.Text.{Text}

pub record SourceSpan : Type 0 where
  pub start : ℕ
  pub end : ℕ
  pub line : ℕ
  pub column : ℕ
  pub source_id : Text
  pub end_line : Option ℕ
  pub end_column : Option ℕ

-- Where a node stands, and where it came from if that is another place: its `span` and `origin`.
pub record Place : Type 0 where
  pub span : SourceSpan
  pub origin : Option SourceSpan

pub record ApplyReference : Type 0 where
  pub target : Text
  pub call_span : SourceSpan
  pub owner_span : SourceSpan

pub data LiteralKind : Type 0 where
  missing string numeric format : LiteralKind

pub data UnaryOperator : Type 0 where
  logical_not minus : UnaryOperator

pub data BinaryOperator : Type 0 where
  or_op and_op eq_op ne_op gt_op ge_op lt_op le_op add_op sub_op mul_op div_op pow_op mod_op :
      BinaryOperator

-- The children of calls and concatenations are `Arguments`, a list.
mutual
  pub data Expression : Type 0 where
    literal : LiteralKind → (lexeme : Text) → Place → Expression
    name : Text → Place → Expression
    unary : UnaryOperator → Expression → Place → Expression
    binary : BinaryOperator → Expression → Expression → Place → Expression
    call : Text → Arguments → Place → Expression
    subscript : Expression → Expression → Place → Expression
    concat : Arguments → Place → Expression
    deferred :
        (error_kind native_cause : Text)
        → SourceSpan
        → (where_syntax_summary display_text : Text) → List ApplyReference
        → Expression

  pub data Arguments : Type 0 where
    nil : Arguments
    cons : Expression → Arguments → Arguments

abbrev pub to_list : Arguments → List Expression
to_list nil = []
to_list (cons e es) = e ∷ to_list es

abbrev pub count : Arguments → ℕ
count nil = 0
count (cons e es) = suc (count es)

abbrev is_nonempty : Text → Bool
is_nonempty [] = false
is_nonempty (c ∷ s) = true

unfoldable mutual
  pub is_valid : Expression → Bool
  is_valid (literal kind lexeme span) = is_nonempty lexeme
  is_valid (name n span) = is_nonempty n
  is_valid (unary op e span) = is_valid e
  is_valid (binary op l r span) = is_valid l && is_valid r
  is_valid (call n es span) = is_nonempty n && all_valid es
  is_valid (subscript b i span) = is_valid b && is_valid i
  is_valid (concat es span) = leb 2 (count es) && all_valid es
  is_valid (deferred kind cause span summary display references) = true

  pub all_valid : Arguments → Bool
  all_valid nil = true
  all_valid (cons e es) = is_valid e && all_valid es
