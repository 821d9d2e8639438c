-- ===== src/Syntax/Source.antt =====
-- Source text and its spans (limulus/syntax/models.py): `_codepoint_line_column`, the check of
-- `SourceSpan`, `SourceDocument.span`, and the check that a program makes of its span. What raises a
-- ValueError gives nothing. Offsets that a caller hands over are integers.
pub mod Positions
use limulus.Prelude.{
  ℕ, zero, suc, ◌+◌, ◌-◌, Bool, true, false, ◌&&◌, List, [], ◌∷◌, Option, none, some, leb, ◌==◌,
  if◌then◌else◌, length,
}
use limulus.Prelude.Int.{ℤ, pos, negsuc}
use limulus.Text.{Text, text_eq}
use limulus.Syntax.Expression.{SourceSpan}

pub record SourceDocument : Type 0 where
  pub text : Text
  pub source_id : Text

-- `text[:n]`
abbrev pub take : ℕ → Text → Text
take zero s = []
take (suc n) [] = []
take (suc n) (c ∷ s) = c ∷ take n s

abbrev pub newline : ℕ
newline = 10

-- `text.count("\n")`
unfoldable pub count_newlines : Text → ℕ
count_newlines [] = 0
count_newlines (c ∷ s) = if c == newline then suc (count_newlines s) else count_newlines s

-- `text.rfind("\n")`, nothing for -1.
unfoldable pub rfind_newline : Text → Option ℕ
rfind_newline [] = none
rfind_newline (c ∷ s) = elim (rfind_newline s) [
  | some i ↦ some (suc i)
  | none ↦ if c == newline then some 0 else none
]

abbrev pub column_of : ℕ → Option ℕ → ℕ
column_of offset none = offset + 1
column_of offset (some last_newline) = offset - last_newline

unfoldable pub codepoint_line_column : Text → ℤ → Option (ℕ × ℕ)
unfolding count_newlines rfind_newline
codepoint_line_column s (negsuc n) = none
codepoint_line_column s (pos offset) =
    if leb offset (length s)
    then some (count_newlines (take offset s) + 1, column_of offset (rfind_newline (take offset s)))
    else none

abbrev pub is_one_based : Option ℕ → Bool
is_one_based none = true
is_one_based (some n) = leb 1 n

-- What the constructor of a span accepts.
unfoldable pub is_valid_span : SourceSpan → Bool
is_valid_span s =
    leb s.start s.end
    && (leb 1 s.line && leb 1 s.column)
    && is_one_based s.end_line
    && is_one_based s.end_column

unfoldable pub checked_span : SourceSpan → Option SourceSpan
unfolding is_valid_span
checked_span s = if is_valid_span s then some s else none

-- A position that was found is that of a number which is not negative.
abbrev pub to_ℕ : ℤ → ℕ
to_ℕ (pos n) = n
to_ℕ (negsuc n) = 0

-- The constructor's check of what the two positions make.
unfoldable pub span_between :
    SourceDocument → ℕ → ℕ → Option (ℕ × ℕ) → Option (ℕ × ℕ) → Option SourceSpan
unfolding checked_span
span_between document start end (some (line, column)) (some (end_line, end_column)) =
    checked_span (record {
      start = start;
      end = end;
      line = line;
      column = column;
      source_id = document.source_id;
      end_line = some end_line;
      end_column = some end_column;
    })
span_between document start end _ _ = none

unfoldable pub document_span : SourceDocument → ℤ → ℤ → Option SourceSpan
unfolding codepoint_line_column span_between
document_span document start end =
    span_between document (to_ℕ start) (to_ℕ end) (codepoint_line_column document.text start)
      (codepoint_line_column document.text end)

-- What a program over the document accepts as its span.
unfoldable pub is_program_span : SourceDocument → SourceSpan → Bool
unfolding text_eq
is_program_span document s =
    text_eq s.source_id document.source_id && leb s.end (length document.text)
