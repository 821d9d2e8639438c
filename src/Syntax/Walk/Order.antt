-- ===== src/Syntax/Walk/Order.antt =====
-- The level-order walk yields each node of the tree once, a concatenation of n parts as n - 1 calls
-- (`_walk_typed_expression` of limulus/expression_semantics.py).
use limulus.Prelude.{
  ℕ, zero, suc, ◌≤◌, ◌≡◌, refl, sym, ap, ◌∙◌, Bool, true, List, [], ◌∷◌, ◌++◌, Option, none, some,
  arith, all, length, and_left, and_right, length-append,
}
use mathlib.Core.List.{Perm, append_assoc, append-nil, perm_middle, perm_append_comm}
use mathlib.Core.List.Perm
use limulus.Prelude.Perm.{perm_length}
use limulus.Syntax.Expression.{
  Place, Expression, literal, name, unary, binary, call, subscript, concat, deferred, Arguments,
  nil, cons, to_list, is_valid, all_valid,
}
use limulus.Syntax.Walk.{
  concat_helper, fold_parts, folded_concat_node, expand, typed_expression_children, walk_queue,
}

-- The nodes of a tree, in which a concatenation counts as the calls that join its parts.
unfoldable mutual
  pub nodes : Expression → List Expression
  nodes (literal kind lexeme place) = literal kind lexeme place ∷ []
  nodes (name n place) = name n place ∷ []
  nodes (unary op e place) = unary op e place ∷ (nodes e ++ [])
  nodes (binary op l r place) = binary op l r place ∷ (nodes l ++ (nodes r ++ []))
  nodes (call n es place) = call n es place ∷ argument_nodes es
  nodes (subscript b i place) = subscript b i place ∷ (nodes b ++ (nodes i ++ []))
  nodes (concat es place) = part_nodes es place
  nodes (deferred kind cause span summary display references) =
      deferred kind cause span summary display references ∷ []

  pub argument_nodes : Arguments → List Expression
  argument_nodes nil = []
  argument_nodes (cons e es) = nodes e ++ argument_nodes es

  -- The first part, and a call with each further one.
  pub part_nodes : Arguments → Place → List Expression
  part_nodes nil place = concat nil place ∷ []
  part_nodes (cons e es) place = nodes e ++ joined_nodes e es place

  -- Each further part, and the call of what was joined before and the part.
  pub joined_nodes : Expression → Arguments → Place → List Expression
  joined_nodes acc nil place = []
  joined_nodes acc (cons e es) place =
      call concat_helper (cons acc (cons e nil)) (record { span = place.span; origin = none })
      ∷ (nodes e
          ++ joined_nodes
              (call concat_helper (cons acc (cons e nil))
                (record { span = place.span; origin = none }))
              es place)

abbrev pub queue_nodes : List Expression → List Expression
queue_nodes [] = []
queue_nodes (e ∷ queue) = nodes e ++ queue_nodes queue

queue_nodes-append : (p q : List Expression) → queue_nodes (p ++ q) ≡ queue_nodes p ++ queue_nodes q
queue_nodes-append [] q = refl
queue_nodes-append (e ∷ p) q =
    ap (λ l. nodes e ++ l) (queue_nodes-append p q)
    ∙ sym (append_assoc (nodes e) (queue_nodes p) (queue_nodes q))

queue_nodes-to_list : (es : Arguments) → queue_nodes (to_list es) ≡ argument_nodes es
unfolding nodes
queue_nodes-to_list nil = refl
queue_nodes-to_list (cons e es) = ap (λ l. nodes e ++ l) (queue_nodes-to_list es)

nodes-fold_parts :
    (acc : Expression) (es : Arguments) (place : Place)
    → Perm (nodes (fold_parts acc es place)) (nodes acc ++ joined_nodes acc es place)
unfolding nodes fold_parts
nodes-fold_parts acc nil place = rw (append-nil (nodes acc)) Perm.rfl
nodes-fold_parts acc (cons e es) place =
    let joined =
      call concat_helper (cons acc (cons e nil)) (record { span = place.span; origin = none }) in
    let rest = joined_nodes joined es place in
    Perm.trans (nodes-fold_parts joined es place) (
      rw (append-nil (nodes e)) (
        Perm.trans (rw (append_assoc (nodes acc) (nodes e) rest) Perm.rfl)
          (Perm.symm (perm_middle (nodes acc) (nodes e ++ rest)))))

fold_parts-call :
    (n : List ℕ) (args es : Arguments) (p place : Place)
    → (m : List ℕ) × (rest : Arguments) × (q : Place) × (fold_parts (call n args p) es place
        ≡ call m rest q)
unfolding fold_parts
fold_parts-call n args nil p place = (n, args, p, refl)
fold_parts-call n args (cons e es) p place =
    fold_parts-call concat_helper (cons (call n args p) (cons e nil)) es _ place

is_valid-fold_parts :
    (acc : Expression) (es : Arguments) (place : Place)
    → is_valid acc ≡ true
    → all_valid es ≡ true
    → is_valid (fold_parts acc es place) ≡ true
unfolding fold_parts is_valid
is_valid-fold_parts acc nil place h g = h
is_valid-fold_parts acc (cons e es) place h g =
    is_valid-fold_parts _ es place (ground (arith, and_left (is_valid e) (all_valid es) g))
      (and_right (is_valid e) (all_valid es) g)

abbrev all_valid_in : List Expression → Bool
all_valid_in = all is_valid

all_valid-to_list : (es : Arguments) → all_valid es ≡ true → all is_valid (to_list es) ≡ true
unfolding is_valid
all_valid-to_list nil h = refl
all_valid-to_list (cons e es) h = ground (arith, all_valid-to_list es)

-- What one round of the queue yields and queues, for a call that stands for a concatenation.
record Unfolds (e : Expression) : Type 0 where
  kept : Perm (nodes e) (expand e ∷ queue_nodes (typed_expression_children (expand e)))
  valid : all is_valid (typed_expression_children (expand e)) ≡ true

nodes-of_call :
    (x : Expression) (m : List ℕ) (rest : Arguments) (q : Place)
    → x ≡ call m rest q
    → nodes x ≡ x ∷ queue_nodes (typed_expression_children x)
unfolding nodes typed_expression_children
nodes-of_call x m rest q e = rw e (ap (λ l. call m rest q ∷ l) (sym (queue_nodes-to_list rest)))

children-of_call :
    (x : Expression) (m : List ℕ) (rest : Arguments) (q : Place)
    → x ≡ call m rest q
    → is_valid x ≡ true
    → all is_valid (typed_expression_children x) ≡ true
unfolding typed_expression_children is_valid
children-of_call x m rest q e h =
    let v : is_valid (call m rest q) ≡ true = rw e at h in
    rw e (all_valid-to_list rest (and_right _ _ v))

Unfolds-concat :
    (p q : Expression) (es : Arguments) (place : Place)
    → is_valid p ≡ true
    → is_valid q ≡ true
    → all_valid es ≡ true
    → Unfolds (concat (cons p (cons q es)) place)
unfolding expand folded_concat_node
Unfolds-concat p q es place hp hq hs =
    let node = fold_parts p (cons q es) place in
    let (m, rest, at, e) = is_call in
    let all_parts : all_valid (cons q es) ≡ true = unfold is_valid in ground arith in
    let folded : Perm (nodes (concat (cons p (cons q es)) place)) (nodes node) =
      unfold nodes in Perm.symm (nodes-fold_parts p (cons q es) place) in
    record {
      kept = rw (nodes-of_call node m rest at e) at folded;
      valid =
          children-of_call node m rest at e (is_valid-fold_parts p (cons q es) place hp all_parts);
    }
  where
    is_call :
        (m : List ℕ) × (rest : Arguments) × (at : Place) × (fold_parts p (cons q es) place
          ≡ call m rest at)
    is_call =
        unfold fold_parts in
        fold_parts-call concat_helper (cons p (cons q nil)) es
          (record { span = place.span; origin = none }) place

unfolds : (e : Expression) → is_valid e ≡ true → Unfolds e
unfolding expand typed_expression_children nodes is_valid
unfolds (literal kind lexeme place) h = record { kept = Perm.rfl; valid = refl }
unfolds (name n place) h = record { kept = Perm.rfl; valid = refl }
unfolds (unary op e place) h = record { kept = Perm.rfl; valid = ground arith }
unfolds (binary op l r place) h = record { kept = Perm.rfl; valid = ground arith }
unfolds (call n es place) h = record {
  kept = rw (queue_nodes-to_list es) Perm.rfl;
  valid = all_valid-to_list es (ground arith);
}
unfolds (subscript b i place) h = record { kept = Perm.rfl; valid = ground arith }
unfolds (concat nil place) h = absurd (ground arith)
unfolds (concat (cons p nil) place) h = absurd (ground arith)
unfolds (concat (cons p (cons q es)) place) h =
    Unfolds-concat p q es place (ground arith) (ground arith) (ground arith)
unfolds (deferred kind cause span summary display references) h = record {
  kept = Perm.rfl;
  valid = refl;
}

all-append :
    (p : Expression → Bool) (xs ys : List Expression)
    → all p xs ≡ true
    → all p ys ≡ true
    → all p (xs ++ ys) ≡ true
all-append p [] ys h g = g
all-append p (x ∷ xs) ys h g = ground (arith, all-append p xs ys)

-- What a walk has to yield.
abbrev pub Yields : Option (List Expression) → List Expression → Type 0
Yields result ns = (found : List Expression) × (result ≡ some found) × Perm found ns

pub walk_queue-Yields :
    (fuel : ℕ) (queue : List Expression)
    → all is_valid queue ≡ true
    → length (queue_nodes queue) ≤ fuel
    → Yields (walk_queue fuel queue) (queue_nodes queue)
unfolding walk_queue
walk_queue-Yields zero [] v h = ([], refl, Perm.rfl)
walk_queue-Yields (suc fuel) [] v h = ([], refl, Perm.rfl)
walk_queue-Yields zero (e ∷ queue) v h =
    let u = unfolds e (and_left (is_valid e) (all is_valid queue) v) in
    absurd (omega (arith, perm_length u.kept, length-append {0} (nodes e) (queue_nodes queue)))
walk_queue-Yields (suc fuel) (e ∷ queue) v h =
    let u = unfolds e (and_left (is_valid e) (all is_valid queue) v) in
    let node = expand e in
    let children = typed_expression_children node in
    let order : Perm (queue_nodes (e ∷ queue)) (node ∷ queue_nodes (queue ++ children)) =
      rw (queue_nodes-append queue children) (
        Perm.trans (Perm.append u.kept (Perm.refl (queue_nodes queue)))
          (Perm.cons node (perm_append_comm (queue_nodes children) (queue_nodes queue)))) in
    let (rest, found, same) =
      walk_queue-Yields fuel (queue ++ children)
        (all-append is_valid queue children (and_right (is_valid e) (all is_valid queue) v) u.valid)
        (omega (arith, perm_length order)) in
    (node ∷ rest, rw found refl, Perm.trans (Perm.cons node same) (Perm.symm order))
