-- ===== src/Tests/Expressions.antt =====
-- The walks over the expression `log(x) !! 'a' !! upcase(y)`, and spans of a text of two lines.
use limulus.Prelude.{
  ◌≡◌, refl, ◌⊎◌, ◌≤◌, ◌<◌, true, false, List, [], ◌∷◌, ◌++◌, map, none, some, all, length,
}
use limulus.Text.{Text, codes}
use limulus.Syntax.Expression.{
  Place, Expression, literal, name, call, concat, nil, cons, string, is_valid,
}
use mathlib.Core.List.{Perm}
use limulus.Syntax.Walk.{
  Label, label, walk_queue, calls_of_stack, function_names, column_names, find_unsupported,
}
use limulus.Syntax.Walk.Order.{nodes}
use limulus.Syntax.Walk.Levels.{levels, walk_queue-nodes}
use limulus.Syntax.Walk.Preorder.{
  calls, size, calls_of_stack-preorder, is_supported, find_unsupported_lem,
}
use limulus.Syntax.Source.{SourceDocument, newline, codepoint_line_column, document_span}
use limulus.Syntax.Source.Positions.{
  offset_at, Spanned, codepoint_line_column-offset_at, document_span-total,
}
use limulus.Prelude.Int.{pos}

abbrev place : Place
place = record {
  span = record {
    start = 0;
    end = 1;
    line = 1;
    column = 1;
    source_id = codes "in";
    end_line = none;
    end_column = none;
  };
  origin = none;
}

abbrev log_x : Expression
log_x = call (codes "log") (cons (name (codes "x") place) nil) place

abbrev upcase_y : Expression
upcase_y = call (codes "upcase") (cons (name (codes "y") place) nil) place

abbrev joined : Expression
joined = concat (cons log_x (cons (literal string (codes "a") place) (cons upcase_y nil))) place

walk_queue-nodes_example :
    (found : List Expression) × (walk_queue (length (nodes joined)) (joined ∷ []) ≡ some found)
    × Perm found (nodes joined)
    × (found ≡ levels (length (nodes joined)) (joined ∷ []))
unfolding is_valid
walk_queue-nodes_example = walk_queue-nodes joined refl

calls_of_stack_example : calls_of_stack (size joined) (joined ∷ []) ≡ some (calls joined)
calls_of_stack_example = calls_of_stack-preorder joined

abbrev found : List Label
found = elim (walk_queue 7 (joined ∷ [])) [ none ↦ [] | some nodes ↦ map label nodes ]

-- The walk meets the call that joins the last part first.
names_of_found :
    (function_names found
      ≡ codes "__dsl_concat__" ∷ codes "__dsl_concat__" ∷ codes "upcase" ∷ codes "log" ∷ [])
    × (column_names found ≡ codes "y" ∷ codes "x" ∷ [])
unfolding walk_queue label function_names column_names
names_of_found = (refl, refl)

abbrev supported : List Text
supported = codes "LOG" ∷ []

abbrev written : List Text
written = codes "log" ∷ codes "And" ∷ codes "upcase" ∷ []

find_unsupported_example :
    (find_unsupported supported written ≡ none) × (all (is_supported supported) written ≡ true)
    ⊎ ((before after : List Text) × (n : Text) × (written ≡ before ++ n ∷ after)
        × (find_unsupported supported written ≡ some n)
        × (is_supported supported n ≡ false)
        × (all (is_supported supported) before ≡ true))
find_unsupported_example = find_unsupported_lem supported written

-- Two lines, of which the second begins at offset 3.
abbrev two_lines : SourceDocument
two_lines = record { text = codes "ab" ++ (newline ∷ codes "cd"); source_id = codes "in" }

codepoint_line_column-offset_at_example : (1 ≤ 2) × (1 ≤ 2) × (offset_at two_lines.text 2 2 ≡ 4)
unfolding codepoint_line_column
codepoint_line_column-offset_at_example = codepoint_line_column-offset_at two_lines.text 4 2 2 refl

document_span-total_example :
    (1 ≤ 4) × (4 ≤ length two_lines.text) × Spanned two_lines 1 4
    ⊎ (document_span two_lines (pos 1) (pos 4) ≡ none) × ((4 < 1) ⊎ (length two_lines.text < 4))
document_span-total_example = document_span-total two_lines 1 4
