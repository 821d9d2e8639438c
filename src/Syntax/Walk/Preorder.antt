-- ===== src/Syntax/Walk/Preorder.antt =====
-- The depth-first walk of limulus/execution/rewrites.py (`_typed_calls`) ends with the calls of the
-- expression in preorder, and what `find_unsupported_function_typed` answers.
use limulus.Prelude.{
  ℕ, zero, suc, ◌+◌, ◌≤◌, ◌≡◌, refl, sym, ap, ◌∙◌, Bool, true, false, ◌||◌, List, [], ◌∷◌, ◌++◌,
  map, none, some, arith, Bool-cases, inl, inr, any, all, ◌⊎◌,
}
use mathlib.Core.List.{append_assoc, append-nil}
use limulus.Text.{Text, text_eq}
use limulus.Naming.{column_key}
use limulus.Syntax.Expression.{
  Expression, literal, name, unary, binary, call, subscript, concat, deferred, Arguments, nil, cons,
  to_list,
}
use limulus.Syntax.Walk.{prepend, calls_of_stack, find_unsupported, reserved_function_names}

-- The calls of a tree, each before those in its arguments, from left to right.
unfoldable mutual
  pub calls : Expression → List Expression
  calls (literal kind lexeme place) = []
  calls (name n place) = []
  calls (unary op e place) = calls e
  calls (binary op l r place) = calls l ++ calls r
  calls (call n es place) = call n es place ∷ argument_calls es
  calls (subscript b i place) = calls b ++ calls i
  calls (concat es place) = argument_calls es
  calls (deferred kind cause span summary display references) = []

  pub argument_calls : Arguments → List Expression
  argument_calls nil = []
  argument_calls (cons e es) = calls e ++ argument_calls es

-- The number of nodes.
unfoldable mutual
  pub size : Expression → ℕ
  size (literal kind lexeme place) = 1
  size (name n place) = 1
  size (unary op e place) = suc (size e)
  size (binary op l r place) = suc (size l + size r)
  size (call n es place) = suc (argument_size es)
  size (subscript b i place) = suc (size b + size i)
  size (concat es place) = suc (argument_size es)
  size (deferred kind cause span summary display references) = 1

  pub argument_size : Arguments → ℕ
  argument_size nil = 0
  argument_size (cons e es) = size e + argument_size es

abbrev stack_calls : List Expression → List Expression
stack_calls [] = []
stack_calls (e ∷ pending) = calls e ++ stack_calls pending

abbrev stack_size : List Expression → ℕ
stack_size [] = 0
stack_size (e ∷ pending) = size e + stack_size pending

stack_calls-to_list :
    (es : Arguments) (pending : List Expression)
    → stack_calls (to_list es ++ pending) ≡ argument_calls es ++ stack_calls pending
unfolding calls
stack_calls-to_list nil pending = refl
stack_calls-to_list (cons e es) pending =
    ap (λ l. calls e ++ l) (stack_calls-to_list es pending)
    ∙ sym (append_assoc (calls e) (argument_calls es) (stack_calls pending))

stack_size-to_list :
    (es : Arguments) (pending : List Expression)
    → stack_size (to_list es ++ pending) ≡ argument_size es + stack_size pending
unfolding size
stack_size-to_list nil pending = omega arith
stack_size-to_list (cons e es) pending = omega (arith, stack_size-to_list es pending)

calls_of_stack_lem :
    (fuel : ℕ) (pending : List Expression)
    → stack_size pending ≤ fuel
    → calls_of_stack fuel pending ≡ some (stack_calls pending)
unfolding calls_of_stack calls size
calls_of_stack_lem zero [] h = refl
calls_of_stack_lem (suc fuel) [] h = refl
calls_of_stack_lem zero (literal kind lexeme place ∷ pending) h = absurd (omega arith)
calls_of_stack_lem zero (name n place ∷ pending) h = absurd (omega arith)
calls_of_stack_lem zero (unary op e place ∷ pending) h = absurd (omega arith)
calls_of_stack_lem zero (binary op l r place ∷ pending) h = absurd (omega arith)
calls_of_stack_lem zero (call n es place ∷ pending) h = absurd (omega arith)
calls_of_stack_lem zero (subscript b i place ∷ pending) h = absurd (omega arith)
calls_of_stack_lem zero (concat es place ∷ pending) h = absurd (omega arith)
calls_of_stack_lem zero (deferred kind cause span summary display references ∷ pending) h =
    absurd (omega arith)
calls_of_stack_lem (suc fuel) (literal kind lexeme place ∷ pending) h =
    calls_of_stack_lem fuel pending (omega arith)
calls_of_stack_lem (suc fuel) (name n place ∷ pending) h =
    calls_of_stack_lem fuel pending (omega arith)
calls_of_stack_lem (suc fuel) (unary op e place ∷ pending) h =
    calls_of_stack_lem fuel (e ∷ pending) (omega arith)
calls_of_stack_lem (suc fuel) (binary op l r place ∷ pending) h =
    calls_of_stack_lem fuel (l ∷ r ∷ pending) (omega arith)
    ∙ ap some (sym (append_assoc (calls l) (calls r) (stack_calls pending)))
calls_of_stack_lem (suc fuel) (call n es place ∷ pending) h = ap (prepend (call n es place)) (
    calls_of_stack_lem fuel (to_list es ++ pending) (omega (arith, stack_size-to_list es pending))
    ∙ ap some (stack_calls-to_list es pending))
calls_of_stack_lem (suc fuel) (subscript b i place ∷ pending) h =
    calls_of_stack_lem fuel (b ∷ i ∷ pending) (omega arith)
    ∙ ap some (sym (append_assoc (calls b) (calls i) (stack_calls pending)))
calls_of_stack_lem (suc fuel) (concat es place ∷ pending) h =
    calls_of_stack_lem fuel (to_list es ++ pending) (omega (arith, stack_size-to_list es pending))
    ∙ ap some (stack_calls-to_list es pending)
calls_of_stack_lem (suc fuel) (deferred kind cause span summary display references ∷ pending) h =
    calls_of_stack_lem fuel pending (omega arith)

-- The depth-first walk over an expression ends within as many rounds as it has nodes, and returns its
-- calls in preorder, from left to right.
pub calls_of_stack-preorder : (e : Expression) → calls_of_stack (size e) (e ∷ []) ≡ some (calls e)
calls_of_stack-preorder e =
    calls_of_stack_lem (size e) (e ∷ []) (omega arith) ∙ ap some (append-nil (calls e))

-- A function name that is reserved or supported, up to case and white space around it.
abbrev pub is_supported : List Text → Text → Bool
is_supported supported_functions n =
    any (text_eq (column_key n)) reserved_function_names
    || any (text_eq (column_key n)) (map column_key supported_functions)

-- `find_unsupported_function_typed` answers with nothing exactly when every function name is reserved or
-- supported, and otherwise with the first name that is not.
pub find_unsupported_lem :
    (supported_functions names : List Text)
    → (find_unsupported supported_functions names ≡ none)
        × (all (is_supported supported_functions) names ≡ true)
      ⊎ ((before after : List Text) × (n : Text) × (names ≡ before ++ n ∷ after)
          × (find_unsupported supported_functions names ≡ some n)
          × (is_supported supported_functions n ≡ false)
          × (all (is_supported supported_functions) before ≡ true))
unfolding find_unsupported
find_unsupported_lem supported_functions [] = inl (refl, refl)
find_unsupported_lem supported_functions (n ∷ names) =
    elim (Bool-cases (is_supported supported_functions n)) [
      | inr bad ↦ inr ([], names, n, refl, rw bad refl, bad, refl)
      | inl good ↦ elim (find_unsupported_lem supported_functions names) [
        | inl (nothing, rest) ↦ inl (rw good nothing, rw good rest)
        | inr (before, after, m, split, found, bad, clean) ↦
            inr (n ∷ before, after, m, ap (◌∷◌ n) split, rw good found, bad, rw good clean)
      ]
    ]
