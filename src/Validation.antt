-- ===== src/Validation.antt =====
-- Validation of a block before its inputs are resolved (limulus/execution/validation.py): the
-- diagnostics, and the request. A diagnostic span has the fields of a source span, and is one here.
pub mod Targets
pub mod Columns
pub mod References
pub mod Service
use limulus.Prelude.{
  ℕ, Bool, true, false, not, ◌&&◌, ◌||◌, List, [], ◌∷◌, Option, none, some, leb, ◌==◌,
  if◌then◌else◌, all, any,
}
use limulus.Text.{Text, codes, text_eq}
use limulus.Dict.{Dict}
use limulus.Naming.{column_key}
use limulus.Syntax.Expression.{SourceSpan}
use limulus.Syntax.Source.{SourceDocument}
use limulus.Syntax.Statement.{Block}

pub record ValidationDiagnostic : Type 0 where
  pub code : Text
  pub severity : Text
  pub message : Text
  pub stage : Text
  pub span : Option SourceSpan
  pub labels : List (SourceSpan × Text)
  pub source_text : Option Text

-- `TypedValidationRequest`, with a type of data sets.
pub record ValidationRequest (F D : Type 0) : Type 0 where
  pub block : Block F
  pub source : SourceDocument
  pub explicit_inputs : Dict D
  pub available_inputs : Dict D
  pub registered_tables : Dict D
  pub explicit_output_targets : List Text

unfoldable pub validate_label_message : Text → Text
unfolding text_eq
validate_label_message code =
    if text_eq code (codes "RUNTIME_SET_DATASET_NOT_FOUND")
    then codes "missing dataset"
    else if text_eq code (codes "VALIDATE_RESERVED_OUTPUT_TARGET")
    then codes "reserved name"
    else if text_eq code (codes "VALIDATE_COLUMN_NOT_FOUND")
    then codes "unknown variable"
    else if text_eq code (codes "RUNTIME_BY_PRECONDITION_FAILED")
    then codes "missing BY key"
    else if text_eq code (codes "RUNTIME_RENAME_STATEMENT_INVALID")
    then codes "invalid rename"
    else if text_eq code (codes "RUNTIME_DATASET_OPTION_INVALID")
    then codes "invalid dataset option"
    else if text_eq code (codes "VALIDATE_DUPLICATE_DATA_TARGET")
    then codes "duplicate target"
    else codes "validation issue"

-- `label_message or …`
abbrev or_category : Text → Option Text → Text
unfolding validate_label_message
or_category code (some (c ∷ s)) = c ∷ s
or_category code _ = validate_label_message code

abbrev labels_at : Option SourceSpan → Text → List (SourceSpan × Text)
labels_at none label = []
labels_at (some span) label = (span, label) ∷ []

abbrev text_at : Option SourceSpan → Text → Option Text
text_at none source_text = none
text_at (some span) source_text = some source_text

unfoldable pub validation_diagnostic :
    (code message : Text)
    → Option SourceSpan
    → (source_text : Text) → (label : Option Text) → (stage : Text) → ValidationDiagnostic
unfolding validate_label_message
validation_diagnostic code message span source_text label stage = record {
  code = code;
  severity = codes "error";
  message = message;
  stage = stage;
  span = span;
  labels = labels_at span (or_category code label);
  source_text = text_at span source_text;
}

unfoldable pub build_typed_validation_diagnostic :
    (code message : Text)
    → Option SourceSpan
    → SourceDocument
    → (label : Option Text) → (stage : Text) → ValidationDiagnostic
unfolding validation_diagnostic
build_typed_validation_diagnostic code message span source label stage =
    validation_diagnostic code message span source.text label stage

-- Membership in a set of texts.
abbrev pub mem : Text → List Text → Bool
mem n names = any (text_eq n) names

unfoldable pub collides : List Text → List Text → Bool
unfolding column_key text_eq
collides seen [] = false
collides seen (column ∷ columns) =
    let rest = collides (column_key column ∷ seen) columns in
    if mem (column_key column) seen then true else rest

unfoldable pub has_output_projection_collision : List Text → Bool
unfolding collides
has_output_projection_collision columns = collides [] columns
