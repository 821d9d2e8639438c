-- ===== src/Planning.antt =====
-- Which calls of LAG, LEAD and SHIFT become helper columns, and under which names: `RewritePlanner`
-- of limulus/execution/rewrites.py and its functions on typed calls. The digits that a numeric lexeme
-- may have are the ASCII ones.
pub mod Specs
pub mod Columns
pub mod Ownership
pub mod Slots
pub mod Helpers
use limulus.Prelude.{
  ℕ, zero, suc, ◌+◌, ◌-◌, ◌*◌, Bool, true, false, not, ◌&&◌, ◌||◌, List, [], ◌∷◌, ◌++◌, Option,
  none, some, leb, ltb, ◌==◌, if◌then◌else◌, all, any, get_or,
}
use limulus.Prelude.Int.{ℤ, pos, negsuc}
use limulus.Prelude.Sort.{sort_by}
use limulus.Text.{Text, codes, text_eq, strip, lower}
use limulus.Text.Decimal.{decimal, read_decimal}
use limulus.Syntax.Expression.{
  SourceSpan, Place, Expression, literal, name, unary, binary, call, subscript, concat, deferred,
  Arguments, nil, cons, LiteralKind, missing, string, numeric, format, UnaryOperator, minus,
  logical_not,
}
use limulus.Syntax.Walk.{calls_of_stack}
use limulus.Syntax.Walk.Preorder.{size}

abbrev pub is_digit : ℕ → Bool
is_digit c = leb 48 c && leb c 57

-- `\d+` on the whole lexeme, and its `int`.
unfoldable pub unsigned_value : Text → Option ℕ
unsigned_value [] = none
unsigned_value (c ∷ s) = if all is_digit (c ∷ s) then some (read_decimal (c ∷ s) 0) else none

abbrev pub negate : ℕ → ℤ
negate zero = pos 0
negate (suc n) = negsuc n

abbrev pub signed_value : Bool → Option ℕ → Option ℤ
signed_value negative none = none
signed_value true (some n) = some (negate n)
signed_value false (some n) = some (pos n)

abbrev pub numeric_value : Bool → Expression → Option ℤ
unfolding unsigned_value strip
numeric_value negative (literal numeric lexeme place) =
    signed_value negative (unsigned_value (strip lexeme))
numeric_value negative _ = none

unfoldable pub typed_integer_value : Expression → Option ℤ
unfolding unsigned_value strip
typed_integer_value (unary minus e place) = numeric_value true e
typed_integer_value e = numeric_value false e

abbrev pub is_plain_literal : Expression → Bool
is_plain_literal (literal format lexeme place) = false
is_plain_literal (literal _ lexeme place) = true
is_plain_literal _ = false

abbrev pub is_numeric : Expression → Bool
is_numeric (literal numeric lexeme place) = true
is_numeric _ = false

unfoldable pub is_default_owned : Option Expression → Bool
is_default_owned none = true
is_default_owned (some (unary minus e place)) = is_numeric e
is_default_owned (some (unary logical_not e place)) = false
is_default_owned (some e) = is_plain_literal e

unfoldable pub is_typed_source_owned_lag_lead : Text → Bool → Option Expression → Bool
unfolding text_eq is_default_owned
is_typed_source_owned_lag_lead function_name argument_is_string_literal default_expression =
    if text_eq function_name (codes "shift") && not argument_is_string_literal
    then false
    else is_default_owned default_expression

abbrev last_or : ℕ → Text → ℕ
last_or c [] = c
last_or c (d ∷ s) = last_or d s

-- All but the last.
abbrev init : Text → Text
init [] = []
init (c ∷ []) = []
init (c ∷ d ∷ s) = c ∷ init (d ∷ s)

-- What stands between equal quotes.
unfoldable pub unquoted : Text → Option Text
unquoted (q ∷ c ∷ s) =
    if ((q == 39) || (q == 34)) && (last_or c s == q) then some (init (c ∷ s)) else none
unquoted _ = none

abbrev pub as_literal : Option Text → Option (Text × Bool)
as_literal none = none
as_literal (some s) = some (s, true)

-- The name that the first argument gives, and whether it is a string.
unfoldable pub source_argument : Expression → Option (Text × Bool)
unfolding unquoted strip
source_argument (name n place) = some (n, false)
source_argument (literal string lexeme place) = as_literal (unquoted (strip lexeme))
source_argument _ = none

-- What the further arguments give: the offset and the default.
unfoldable pub offset_and_default : Arguments → Option (ℤ × Option Expression)
unfolding typed_integer_value
offset_and_default nil = some (pos 1, none)
offset_and_default (cons e nil) = elim (typed_integer_value e) [
  | some n ↦ some (n, none)
  | none ↦ some (pos 1, some e)
]
offset_and_default (cons e (cons d nil)) = elim (typed_integer_value e) [
  | some n ↦ some (n, some d)
  | none ↦ none
]
offset_and_default _ = none

-- `_typed_calls`, with enough fuel.
abbrev pub typed_calls : Expression → List Expression
unfolding calls_of_stack size
typed_calls e = get_or (calls_of_stack (size e) (e ∷ [])) []

unfoldable pub has_calls : Option Expression → Bool
unfolding calls_of_stack size
has_calls none = false
has_calls (some e) = elim (typed_calls e) [ [] ↦ false | c ∷ cs ↦ true ]

pub record LagLeadArguments : Type 0 where
  pub source_name : Text
  pub argument_is_string_literal : Bool
  pub offset : ℤ
  pub default_expression : Option Expression

unfoldable pub both_arguments :
    Option (Text × Bool) → Option (ℤ × Option Expression) → Option LagLeadArguments
unfolding has_calls
both_arguments (some (source, quoted)) (some (offset, default)) =
    if has_calls default
    then none
    else some (record {
      source_name = source;
      argument_is_string_literal = quoted;
      offset = offset;
      default_expression = default;
    })
both_arguments _ _ = none

unfoldable pub typed_lag_lead_arguments : Arguments → Option LagLeadArguments
unfolding source_argument offset_and_default both_arguments
typed_lag_lead_arguments nil = none
typed_lag_lead_arguments (cons first rest) =
    both_arguments (source_argument first) (offset_and_default rest)
