-- ===== src/Planning/Specs.antt =====
-- The specs of the helper columns of a block: `_build_helper_column_name` and
-- `_collect_typed_lag_lead_specs` of limulus/execution/rewrites.py.
use limulus.Prelude.{
  ℕ, suc, Bool, true, false, not, ◌&&◌, ◌||◌, List, [], ◌∷◌, ◌++◌, Option, none, some, leb, ltb,
  ◌==◌, if◌then◌else◌,
}
use limulus.Prelude.Int.{ℤ, pos, negsuc}
use limulus.Prelude.Sort.{sort_by}
use limulus.Text.{Text, codes, text_eq, lower}
use limulus.Text.Decimal.{decimal}
use limulus.Syntax.Expression.{
  SourceSpan, Expression, literal, name, unary, binary, call, subscript, concat, deferred,
  Arguments,
}
use limulus.Planning.{
  LagLeadArguments, typed_lag_lead_arguments, typed_calls, is_typed_source_owned_lag_lead,
}

pub record TypedLagLeadSpec : Type 0 where
  pub the_call : Expression
  pub function_name : Text
  pub argument_is_string_literal : Bool
  pub source_name : Text
  pub offset : ℤ
  pub default_expression : Option Expression
  pub helper_column : Text
  pub is_source_owned : Bool

abbrev is_word : ℕ → Bool
is_word c = (leb 65 c && leb c 90) || (leb 97 c && leb c 122) || (leb 48 c && leb c 57) || (c == 95)

-- `re.sub(r"[^A-Za-z0-9_]+", "_", s)`, where `in_run` says that the last code point was replaced.
unfoldable pub replace_runs : Bool → Text → Text
replace_runs in_run [] = []
replace_runs in_run (c ∷ s) =
    let kept = replace_runs false s in
    let replaced = replace_runs true s in
    if is_word c then c ∷ kept else if in_run then replaced else 95 ∷ replaced

abbrev lstrip_underscores : Text → Text
lstrip_underscores [] = []
lstrip_underscores (c ∷ s) = if c == 95 then lstrip_underscores s else c ∷ s

abbrev rstrip_underscores : Text → Text
rstrip_underscores [] = []
rstrip_underscores (c ∷ s) =
    let rest = rstrip_underscores s in
    elim rest [ [] ↦ if c == 95 then [] else c ∷ [] | d ∷ t ↦ c ∷ d ∷ t ]

-- `s or "value"`
abbrev or_value : Text → Text
or_value [] = codes "value"
or_value (c ∷ s) = c ∷ s

unfoldable pub sanitized : Text → Text
unfolding replace_runs
sanitized source_name =
    or_value (rstrip_underscores (lstrip_underscores (replace_runs false source_name)))

unfoldable pub offset_token : ℤ → Text
unfolding decimal
offset_token (pos n) = decimal n
offset_token (negsuc n) = codes "neg" ++ decimal (suc n)

-- The name up to the number of the occurrence.
unfoldable pub helper_column_prefix : Text → Text → ℤ → Text
unfolding sanitized lower offset_token
helper_column_prefix function_name source_name offset =
    codes "__rewrite_"
    ++ (function_name
        ++ (codes "_" ++ (lower (sanitized source_name) ++ (codes "_" ++ offset_token offset))))

unfoldable pub build_helper_column_name : Text → Text → ℤ → ℕ → Text
unfolding helper_column_prefix decimal
build_helper_column_name function_name source_name offset occurrence =
    helper_column_prefix function_name source_name offset
    ++ (95 ∷ (decimal occurrence ++ codes "__"))

abbrev pub is_helper_function : Text → Bool
is_helper_function n =
    text_eq n (codes "lag") || text_eq n (codes "lead") || text_eq n (codes "shift")

-- The arguments, if the call is one of a helper function.
unfoldable pub helper_arguments : Text → Arguments → Option LagLeadArguments
unfolding text_eq typed_lag_lead_arguments
helper_arguments function_name arguments =
    if is_helper_function function_name then typed_lag_lead_arguments arguments else none

abbrev pub is_positive : ℤ → Bool
is_positive (pos n) = leb 1 n
is_positive (negsuc n) = false

-- LAG and LEAD reach at least one row far.
unfoldable pub is_reaching : Text → ℤ → Bool
unfolding text_eq
is_reaching function_name offset =
    not (text_eq function_name (codes "lag") || text_eq function_name (codes "lead"))
    || is_positive offset

unfoldable pub make_spec : Expression → Text → LagLeadArguments → ℕ → TypedLagLeadSpec
unfolding build_helper_column_name is_typed_source_owned_lag_lead
make_spec the_call function_name parsed occurrence = record {
  the_call = the_call;
  function_name = function_name;
  argument_is_string_literal = parsed.argument_is_string_literal;
  source_name = parsed.source_name;
  offset = parsed.offset;
  default_expression = parsed.default_expression;
  helper_column =
      build_helper_column_name function_name parsed.source_name parsed.offset occurrence;
  is_source_owned =
      is_typed_source_owned_lag_lead function_name parsed.argument_is_string_literal
        parsed.default_expression;
}

-- The loop over the sorted candidates. A call that does not reach far enough is counted, though it
-- makes no spec.
unfoldable pub collect_specs : ℕ → List Expression → List TypedLagLeadSpec
unfolding helper_arguments is_reaching make_spec lower
collect_specs occurrence [] = []
collect_specs occurrence (call n arguments place ∷ candidates) =
    let rest = collect_specs occurrence candidates in
    let counted = collect_specs (suc occurrence) candidates in
    elim (helper_arguments (lower n) arguments) [
      | none ↦ rest
      | some parsed ↦
          if is_reaching (lower n) parsed.offset
          then make_spec (call n arguments place) (lower n) parsed (suc occurrence) ∷ counted
          else counted
    ]
collect_specs occurrence (_ ∷ candidates) = collect_specs occurrence candidates

abbrev span_of : Expression → SourceSpan
span_of (literal kind lexeme place) = place.span
span_of (name n place) = place.span
span_of (unary op e place) = place.span
span_of (binary op l r place) = place.span
span_of (call n es place) = place.span
span_of (subscript b i place) = place.span
span_of (concat es place) = place.span
span_of (deferred kind cause span summary display references) = span

-- The order by start, and by end from the last to the first.
abbrev pub span_lt : Expression → Expression → Bool
span_lt a b =
    if (span_of a).start == (span_of b).start
    then ltb (span_of b).end (span_of a).end
    else ltb (span_of a).start (span_of b).start

abbrev pub all_calls : List Expression → List Expression
all_calls [] = []
all_calls (e ∷ targets) = typed_calls e ++ all_calls targets

unfoldable pub collect_typed_lag_lead_specs : List Expression → List TypedLagLeadSpec
unfolding collect_specs sort_by
collect_typed_lag_lead_specs targets = collect_specs 0 (sort_by span_lt (all_calls targets))
