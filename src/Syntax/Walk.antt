-- ===== src/Syntax/Walk.antt =====
-- The two walks over typed expressions. limulus/expression_semantics.py goes level by level with a
-- queue and unfolds a concatenation into the calls that lowering makes of it;
-- limulus/execution/rewrites.py (`_typed_calls`) goes depth first with a stack. Both loops take
-- fuel, one unit for each round, and give nothing when it runs out.
pub mod Order
pub mod Levels
pub mod Preorder
use limulus.Prelude.{
  ℕ, zero, suc, ◌+◌, Bool, true, false, not, ◌||◌, List, [], ◌∷◌, ◌++◌, map, Option, none, some,
  if◌then◌else◌, any,
}
use limulus.Text.{Text, codes, text_eq}
use limulus.Naming.{column_key}
use limulus.Syntax.Expression.{
  Place, Expression, literal, name, unary, binary, call, subscript, concat, deferred, Arguments,
  nil, cons, to_list,
}

abbrev pub concat_helper : Text
concat_helper = codes "__dsl_concat__"

-- `for part in node.parts[1:]`
unfoldable pub fold_parts : Expression → Arguments → Place → Expression
fold_parts folded nil place = folded
fold_parts folded (cons part parts) place =
    fold_parts
      (call concat_helper (cons folded (cons part nil))
        (record { span = place.span; origin = none }))
      parts place

-- No concatenation has no parts; one would be an IndexError.
unfoldable pub folded_concat_node : Arguments → Place → Expression
unfolding fold_parts
folded_concat_node nil span = concat nil span
folded_concat_node (cons part parts) span = fold_parts part parts span

-- A queued node as the walk yields it.
unfoldable pub expand : Expression → Expression
unfolding folded_concat_node
expand (concat parts span) = folded_concat_node parts span
expand node = node

unfoldable pub typed_expression_children : Expression → List Expression
typed_expression_children (unary op e span) = e ∷ []
typed_expression_children (binary op l r span) = l ∷ r ∷ []
typed_expression_children (call n es span) = to_list es
typed_expression_children (subscript b i span) = b ∷ i ∷ []
typed_expression_children (concat es span) = to_list es
typed_expression_children _ = []

abbrev pub prepend {ℓ} : {A : Type ℓ} → A → Option (List A) → Option (List A)
prepend a none = none
prepend a (some rest) = some (a ∷ rest)

-- The loop over the queue.
unfoldable pub walk_queue : ℕ → List Expression → Option (List Expression)
unfolding expand typed_expression_children
walk_queue fuel [] = some []
walk_queue zero (e ∷ queue) = none
walk_queue (suc fuel) (e ∷ queue) =
    let node = expand e in prepend node (walk_queue fuel (queue ++ typed_expression_children node))

-- The loop over the stack, whose top is the head here.
unfoldable pub calls_of_stack : ℕ → List Expression → Option (List Expression)
unfolding typed_expression_children
calls_of_stack fuel [] = some []
calls_of_stack zero (e ∷ pending) = none
calls_of_stack (suc fuel) (e ∷ pending) =
    let rest = calls_of_stack fuel (typed_expression_children e ++ pending) in
    elim e [ call n es span ↦ prepend (call n es span) rest | _ ↦ rest ]

-- What the classification reads of a node.
pub data Label : Type 0 where
  called : Text → Label
  named : Text → Label
  other : Label

unfoldable pub label : Expression → Label
label (call n es span) = called n
label (name n span) = named n
label _ = other

-- `function_names_typed` and `column_names_typed`, of the walked nodes.
unfoldable pub function_names : List Label → List Text
function_names [] = []
function_names (called n ∷ ls) = n ∷ function_names ls
function_names (_ ∷ ls) = function_names ls

unfoldable pub column_names : List Label → List Text
column_names [] = []
column_names (named n ∷ ls) = n ∷ column_names ls
column_names (_ ∷ ls) = column_names ls

abbrev pub reserved_function_names : List Text
reserved_function_names = map column_key (codes "and" ∷ codes "or" ∷ codes "not" ∷ codes "in" ∷ [])

-- `find_unsupported_function_typed`, of the function names.
unfoldable pub find_unsupported : List Text → List Text → Option Text
unfolding column_key text_eq
find_unsupported supported_functions [] = none
find_unsupported supported_functions (function_name ∷ names) =
    let normalized = column_key function_name in
    if any (text_eq normalized) reserved_function_names
      || any (text_eq normalized) (map column_key supported_functions)
    then find_unsupported supported_functions names
    else some function_name
