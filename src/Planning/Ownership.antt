-- ===== src/Planning/Ownership.antt =====
-- What the specs of the planned helper columns hold.
use limulus.Prelude.{
  ℕ, zero, suc, ◌≡◌, refl, ap, Bool, true, false, not, ◌&&◌, ◌||◌, List, [], ◌∷◌, Option, none,
  some, arith, all, Bool-cases, Option-cases, inl, inr, get_or,
}
use limulus.Prelude.Int.{ℤ, pos, negsuc, ltb_ℤ}
use limulus.Prelude.Sort.{sort_by}
use limulus.Text.{Text, codes, text_eq, lower}
use limulus.Syntax.Expression.{
  Expression, literal, name, unary, binary, call, subscript, concat, deferred, Arguments, nil, cons,
}
use limulus.Syntax.Walk.{calls_of_stack}
use limulus.Syntax.Walk.Preorder.{calls, size, calls_of_stack-preorder}
use limulus.Planning.{
  LagLeadArguments, has_calls, both_arguments, source_argument, offset_and_default,
  typed_lag_lead_arguments,
}
use limulus.Planning.Specs.{
  TypedLagLeadSpec, is_helper_function, helper_arguments, is_reaching, make_spec, span_lt,
  all_calls, collect_specs, collect_typed_lag_lead_specs,
}

abbrev pub no_calls : Option Expression → Bool
no_calls none = true
no_calls (some e) = elim (calls e) [ [] ↦ true | c ∷ cs ↦ false ]

abbrev is_lag_or_lead : Text → Bool
is_lag_or_lead f = text_eq f (codes "lag") || text_eq f (codes "lead")

-- The function is LAG, LEAD or SHIFT; of LAG and LEAD the offset is above 0; the default has no calls.
abbrev pub is_planned : TypedLagLeadSpec → Bool
is_planned s =
    (is_lag_or_lead s.function_name || text_eq s.function_name (codes "shift"))
    && (not (is_lag_or_lead s.function_name) || ltb_ℤ (pos 0) s.offset)
    && no_calls s.default_expression

is_helper_function-named :
    (f : Text)
    → is_helper_function f ≡ true
    → (is_lag_or_lead f || text_eq f (codes "shift")) ≡ true
is_helper_function-named f h = ground (arith, h)

is_reaching-positive :
    (f : Text) (offset : ℤ)
    → is_reaching f offset ≡ true
    → (not (is_lag_or_lead f) || ltb_ℤ (pos 0) offset) ≡ true
unfolding is_reaching
is_reaching-positive f (pos zero) h = ground (arith, h)
is_reaching-positive f (pos (suc n)) h = ground (arith, h)
is_reaching-positive f (negsuc n) h = ground (arith, h)

has_calls-no_calls : (o : Option Expression) → has_calls o ≡ false → no_calls o ≡ true
unfolding has_calls
has_calls-no_calls none h = refl
has_calls-no_calls (some e) h =
    let h' : elim (get_or (calls_of_stack (size e) (e ∷ [])) []) [ [] ↦ false | c ∷ cs ↦ true ]
        ≡ false =
      h in
    go (calls e) (rw (calls_of_stack-preorder e) at h')
  where
    go :
        (cs : List Expression)
        → elim cs [ [] ↦ false | c ∷ cs ↦ true ] ≡ false
        → elim cs [ [] ↦ true | c ∷ cs ↦ false ] ≡ true
    go [] g = refl
    go (c ∷ cs) g = cc

both_arguments-some :
    (o : Option (Text × Bool)) (p : Option (ℤ × Option Expression)) (parsed : LagLeadArguments)
    → both_arguments o p ≡ some parsed
    → no_calls parsed.default_expression ≡ true
unfolding both_arguments
both_arguments-some none none parsed h = cc
both_arguments-some none (some (offset, default)) parsed h = cc
both_arguments-some (some (source, quoted)) none parsed h = cc
both_arguments-some (some (source, quoted)) (some (offset, default)) parsed h =
    elim (Bool-cases (has_calls default)) [
      | inl calling ↦ absurd (ground arith)
      | inr clean ↦
          let same : record {
            source_name = source;
            argument_is_string_literal = quoted;
            offset = offset;
            default_expression = default;
          }
              ≡ parsed =
            ground arith in
          let default_same : default ≡ parsed.default_expression =
            ap (λ (r : LagLeadArguments). r.default_expression) same in
          rw (← default_same) (has_calls-no_calls default clean)
    ]

typed_lag_lead_arguments-some :
    (es : Arguments) (parsed : LagLeadArguments)
    → typed_lag_lead_arguments es ≡ some parsed
    → no_calls parsed.default_expression ≡ true
unfolding typed_lag_lead_arguments
typed_lag_lead_arguments-some nil parsed h = absurd (ground arith)
typed_lag_lead_arguments-some (cons first rest) parsed h =
    both_arguments-some (source_argument first) (offset_and_default rest) parsed h

helper_arguments-some :
    (f : Text) (es : Arguments) (parsed : LagLeadArguments)
    → helper_arguments f es ≡ some parsed
    → (is_helper_function f ≡ true) × (no_calls parsed.default_expression ≡ true)
unfolding helper_arguments
helper_arguments-some f es parsed h = elim (Bool-cases (is_helper_function f)) [
  | inl helper ↦ (helper, typed_lag_lead_arguments-some es parsed (ground arith))
  | inr further ↦ absurd (ground arith)
]

make_spec-is_planned :
    (e : Expression) (f : Text) (parsed : LagLeadArguments) (n : ℕ)
    → (is_helper_function f ≡ true) × (no_calls parsed.default_expression ≡ true)
    → is_reaching f parsed.offset ≡ true
    → is_planned (make_spec e f parsed n) ≡ true
unfolding make_spec
make_spec-is_planned e f parsed n (h, clean) far =
    rw (is_helper_function-named f h, is_reaching-positive f parsed.offset far, clean) refl

collect_specs-is_planned :
    (n : ℕ) (candidates : List Expression) → all is_planned (collect_specs n candidates) ≡ true
unfolding collect_specs
collect_specs-is_planned n [] = refl
collect_specs-is_planned n (literal kind lexeme place ∷ cs) = collect_specs-is_planned n cs
collect_specs-is_planned n (name m place ∷ cs) = collect_specs-is_planned n cs
collect_specs-is_planned n (unary op e place ∷ cs) = collect_specs-is_planned n cs
collect_specs-is_planned n (binary op l r place ∷ cs) = collect_specs-is_planned n cs
collect_specs-is_planned n (subscript b i place ∷ cs) = collect_specs-is_planned n cs
collect_specs-is_planned n (concat es place ∷ cs) = collect_specs-is_planned n cs
collect_specs-is_planned n (deferred kind cause span summary display references ∷ cs) =
    collect_specs-is_planned n cs
collect_specs-is_planned n (call f es place ∷ cs) =
    elim (Option-cases (helper_arguments (lower f) es)) [
      | inl e ↦ rw (collect_specs, e) (collect_specs-is_planned n cs)
      | inr (parsed, e) ↦ elim (Bool-cases (is_reaching (lower f) parsed.offset)) [
        | inr near ↦ rw (collect_specs, e, near) (collect_specs-is_planned (suc n) cs)
        | inl far ↦
            let planned =
              make_spec-is_planned (call f es place) (lower f) parsed (suc n)
                (helper_arguments-some (lower f) es parsed e) far in
            rw (collect_specs, e, far) (rw planned (collect_specs-is_planned (suc n) cs))
      ]
    ]

-- Every collected spec is of LAG, LEAD or SHIFT, has an offset above 0 if it is of LAG or LEAD, and
-- has no call anywhere in its default.
pub collect_typed_lag_lead_specs-is_planned :
    (targets : List Expression) → all is_planned (collect_typed_lag_lead_specs targets) ≡ true
unfolding collect_typed_lag_lead_specs
collect_typed_lag_lead_specs-is_planned targets =
    collect_specs-is_planned 0 (sort_by span_lt (all_calls targets))
