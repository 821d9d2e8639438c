-- ===== src/Syntax/Walk/Levels.antt =====
-- The level-order walk as a whole (`_walk_typed_expression` of limulus/expression_semantics.py).
use limulus.Prelude.{
  ℕ, zero, suc, ◌+◌, ◌≤◌, ◌≡◌, refl, sym, ap, ◌∙◌, true, List, [], ◌∷◌, ◌++◌, map, Option, none,
  some, arith, length,
}
use mathlib.Core.List.{Perm, append_assoc, append-nil}
use limulus.Syntax.Expression.{
  Expression, literal, name, unary, binary, call, subscript, concat, deferred, to_list, is_valid,
}
use limulus.Syntax.Walk.{expand, typed_expression_children, walk_queue, prepend}
use limulus.Syntax.Walk.Order.{nodes, Yields, walk_queue-Yields}

-- The operands, arguments or parts of a node, from left to right.
abbrev operands : Expression → List Expression
operands (literal kind lexeme place) = []
operands (name n place) = []
operands (unary op e place) = e ∷ []
operands (binary op left right place) = left ∷ right ∷ []
operands (call n arguments place) = to_list arguments
operands (subscript base index place) = base ∷ index ∷ []
operands (concat parts place) = to_list parts
operands (deferred kind cause span summary display references) = []

operands-typed_expression_children : (e : Expression) → operands e ≡ typed_expression_children e
unfolding typed_expression_children
operands-typed_expression_children (literal kind lexeme place) = refl
operands-typed_expression_children (name n place) = refl
operands-typed_expression_children (unary op e place) = refl
operands-typed_expression_children (binary op left right place) = refl
operands-typed_expression_children (call n arguments place) = refl
operands-typed_expression_children (subscript base index place) = refl
operands-typed_expression_children (concat parts place) = refl
operands-typed_expression_children (deferred kind cause span summary display references) = refl

-- What the queue holds after one level.
abbrev next_level : List Expression → List Expression
next_level [] = []
next_level (e ∷ level) = operands (expand e) ++ next_level level

-- The nodes of a level and of at most `depth` levels from it on, each level as a whole before the next,
-- and the operands of each level in the order of their nodes.
unfoldable pub levels : (depth : ℕ) (level : List Expression) → List Expression
unfolding expand
levels zero level = []
levels (suc depth) level = map expand level ++ levels depth (next_level level)

levels-nil : (depth : ℕ) → levels depth [] ≡ []
unfolding levels
levels-nil zero = refl
levels-nil (suc depth) = levels-nil depth

-- The walk of a level, and then of what was queued behind it.
abbrev AfterLevel : (fuel : ℕ) (level later found : List Expression) → Type 0
AfterLevel fuel level later found =
    (left : ℕ) × (rest : List Expression) × (left + length level ≡ fuel)
    × (found ≡ map expand level ++ rest)
    × (walk_queue left (later ++ next_level level) ≡ some rest)

walk_queue-AfterLevel :
    (fuel : ℕ) (level later found : List Expression)
    → walk_queue fuel (level ++ later) ≡ some found
    → AfterLevel fuel level later found
walk_queue-AfterLevel fuel [] later found h =
    (fuel, found, omega arith, refl, rw (append-nil later) h)
walk_queue-AfterLevel zero (e ∷ level) later found h =
    unfold walk_queue in absurd (ground (arith, h))
walk_queue-AfterLevel (suc fuel) (e ∷ level) later found h =
    go (walk_queue fuel (level ++ (later ++ children))) refl
      (walk_queue-AfterLevel fuel level (later ++ children))
  where
    children : List Expression
    children = typed_expression_children (expand e)

    unfolded : prepend (expand e) (walk_queue fuel (level ++ (later ++ children))) ≡ some found
    unfolded =
        ap (λ q. prepend (expand e) (walk_queue fuel q)) (sym (append_assoc level later children))
        ∙ unfold walk_queue in h

    go :
        (o : Option (List Expression))
        → walk_queue fuel (level ++ (later ++ children)) ≡ o
        → ((tail : List Expression)
            → walk_queue fuel (level ++ (later ++ children)) ≡ some tail
            → AfterLevel fuel level (later ++ children) tail)
        → (left : ℕ) × (rest : List Expression) × (left + length (e ∷ level) ≡ suc fuel)
          × (found ≡ map expand (e ∷ level) ++ rest)
          × (walk_queue left (later ++ next_level (e ∷ level)) ≡ some rest)
    go none g further_level = absurd (ground (arith, unfolded, g))
    go (some tail) g further_level =
        let (left, rest, size, shape, further) = further_level tail g in
        let whole : expand e ∷ tail ≡ found = ground (arith, unfolded, g) in
        (
          left,
          rest,
          omega (arith, size),
          sym whole ∙ ap (λ l. expand e ∷ l) shape,
          ap (λ c. walk_queue left (later ++ (c ++ next_level level)))
                (operands-typed_expression_children (expand e))
              ∙ ap (walk_queue left) (sym (append_assoc later children (next_level level)))
              ∙ further,
        )

walk_queue_nil : (fuel : ℕ) → walk_queue fuel [] ≡ some []
unfolding walk_queue
walk_queue_nil zero = refl
walk_queue_nil (suc fuel) = refl

walk_queue-levels :
    (depth fuel : ℕ) (level found : List Expression)
    → fuel ≤ depth
    → walk_queue fuel level ≡ some found
    → found ≡ levels depth level
unfolding levels
walk_queue-levels depth fuel [] found h g =
    let e : [] ≡ found = ground (arith, walk_queue_nil fuel, g) in sym e ∙ sym (levels-nil depth)
walk_queue-levels depth zero (e ∷ level) found h g = unfold walk_queue in absurd (ground (arith, g))
walk_queue-levels zero (suc fuel) (e ∷ level) found h g = absurd (omega arith)
walk_queue-levels (suc depth) (suc fuel) (e ∷ level) found h g =
    let (left, rest, size, shape, further) =
      walk_queue-AfterLevel (suc fuel) (e ∷ level) [] found
        (ap (walk_queue (suc fuel)) (append-nil (e ∷ level)) ∙ g) in
    shape
    ∙ ap (λ l. map expand (e ∷ level) ++ l)
        (walk_queue-levels depth left (next_level (e ∷ level)) rest (omega (arith, size)) further)

-- The walk over a well-formed expression ends within as many rounds as the expression has nodes,
-- a concatenation of n parts counted as the n - 1 calls that join them from the left. It yields
-- exactly these nodes, each as often, level by level, and each level from left to right.
pub walk_queue-nodes :
    (e : Expression)
    → is_valid e ≡ true
    → (found : List Expression) × (walk_queue (length (nodes e)) (e ∷ []) ≡ some found)
      × Perm found (nodes e)
      × (found ≡ levels (length (nodes e)) (e ∷ []))
walk_queue-nodes e v =
    let (found, reached, same) : Yields (walk_queue (length (nodes e)) (e ∷ [])) (nodes e) =
      rw (append-nil (nodes e)) at (
        walk_queue-Yields (length (nodes e)) (e ∷ []) (ground arith)
          (omega (arith, ap length (append-nil (nodes e))))) in
    (
      found,
      reached,
      same,
      walk_queue-levels (length (nodes e)) (length (nodes e)) (e ∷ []) found (omega arith) reached,
    )
