-- ===== src/Outputs/Shaping/Origins.antt =====
-- Which names a step defines (`_typed_step_defined_columns` of limulus/execution/output_handoff.py).
use limulus.Prelude.{
  ℕ, ◌≡◌, refl, ap, Bool, true, false, ◌&&◌, ◌||◌, List, [], ◌∷◌, ◌++◌, map, Option, some, ◌⊎◌, inl,
  inr, arith, leb, ◌==◌, all, Bool-cases,
}
use limulus.Prelude.Sort.{select}
use limulus.Text.{Text, text_eq, text_eq_iff, text_eq_refl}
use limulus.Syntax.Expression.{SourceSpan, Expression, Place}
use limulus.Syntax.Statement.{
  StatementKind, NameTarget, Delimiter, ConditionDisplay, Annotations, ArrayDeclaration,
  retain_kind, plain, element, assign_statement, sum_statement, name_list, if_statement,
  else_statement, do_statement, array_statement, inline, Statement, statement,
}
use limulus.Validation.{mem}
use limulus.Outputs.Shaping.{
  action_names, statement_names, defined_names, is_retained_name, is_part,
}

abbrev is_letter : ℕ → Bool
is_letter c = (leb 65 c && leb c 90) || ((leb 97 c && leb c 122) || (c == 95))

-- A letter or underscore, and then letters, underscores, digits and dots.
abbrev pub is_dotted_name : Text → Bool
is_dotted_name [] = false
is_dotted_name (c ∷ s) =
    is_letter c && all (λ d. is_letter d || ((leb 48 d && leb d 57) || (d == 46))) s

-- The name that a statement inside an IF or ELSE defines: what it assigns or sums, or what the action
-- of an IF or ELSE inside it does.
pub data Sets {F : Type 0} : Statement F → Text → Type 0 where
  variable :
      {kind : StatementKind} {notes : Annotations} (target : NameTarget) (value : Expression)
      → Sets (statement kind (assign_statement (plain target) value) notes) target.name
  array_element :
      {kind : StatementKind} {notes : Annotations} (name : Text) (delimiter : Delimiter)
      (index : Expression) (span : SourceSpan) (value : Expression)
      → Sets
          (statement kind (assign_statement (element name delimiter index span) value) notes)
          name
  sum :
      {kind : StatementKind} {notes : Annotations} (target : NameTarget) (increment : Expression)
      → Sets (statement kind (sum_statement target increment) notes) target.name
  in_if :
      {kind : StatementKind} {notes : Annotations} (condition : Expression) (s : Statement F)
      (subset then_do : Bool) (display : ConditionDisplay) (n : Text)
      → Sets s n
      → Sets (statement kind (if_statement condition (inline s) subset then_do display) notes) n
  in_else :
      {kind : StatementKind} {notes : Annotations} (s : Statement F) (n : Text)
      → Sets s n
      → Sets (statement kind (else_statement (inline s)) notes) n

-- The names that a statement of a step defines.
pub data Defines {F : Type 0} : Statement F → Text → Type 0 where
  sets : (s : Statement F) (n : Text) → Sets s n → Defines s n
  loop :
      {kind : StatementKind} {notes : Annotations} (n : Text) (start end : Option Expression)
      (spans : Option (SourceSpan × SourceSpan))
      → Defines (statement kind (do_statement (some n) start end spans) notes) n
  array :
      {kind : StatementKind} {notes : Annotations} (declaration : ArrayDeclaration) (n : Text)
      → mem n declaration.variables ≡ true
      → Defines (statement kind (array_statement declaration) notes) n
  retain :
      {notes : Annotations} (names : List (Text × Place)) (n : Text)
      → mem n (map (λ m. m.0) names) ≡ true
      → is_dotted_name n ≡ true
      → Defines (statement retain_kind (name_list names) notes) n

-- A statement of the list defines the name.
abbrev pub OneDefines : {F : Type 0} → List (Statement F) → Text → Type 0
OneDefines [] n = ⊥
OneDefines (s ∷ statements) n = Defines s n ⊎ OneDefines statements n

pub mem-append : (n : Text) (xs ys : List Text) → mem n (xs ++ ys) ≡ (mem n xs || mem n ys)
mem-append n [] ys = refl
mem-append n (x ∷ xs) ys = ground (arith, mem-append n xs ys)

pub nothing : {A : Type 0} (n : Text) → mem n [] ≡ true → A
nothing n h = absurd (ground (arith, h))

mem-one : (n : Text) → mem n (n ∷ []) ≡ true
mem-one n = ground (arith, text_eq_refl n)

pub mem_one_eq : (n m : Text) → mem n (m ∷ []) ≡ true → n ≡ m
mem_one_eq n m h = (text_eq_iff n m).0 (ground (arith, h))

pub mem-select :
    (p : Text → Bool) (n : Text) (xs : List Text) → mem n (select p xs) ≡ (mem n xs && p n)
mem-select p n [] = refl
mem-select p n (x ∷ xs) = elim (Bool-cases (text_eq n x)) [
  | inl same ↦
      let e : p n ≡ p x = ap p ((text_eq_iff n x).0 same) in
      ground (arith, mem-select p n xs, e, same)
  | inr other ↦ ground (arith, mem-select p n xs, other)
]

pub is_retained_name-is_dotted_name : (n : Text) → is_retained_name n ≡ is_dotted_name n
unfolding is_retained_name
is_retained_name-is_dotted_name [] = refl
is_retained_name-is_dotted_name (c ∷ s) = ap (λ b. is_letter c && b) (all-part s)
  where
    all-part :
        (t : Text)
        → all is_part t ≡ all (λ d. is_letter d || ((leb 48 d && leb d 57) || (d == 46))) t
    all-part [] = refl
    all-part (d ∷ t) = ap (λ b. is_part d && b) (all-part t)

Sets-action_names :
    {F : Type 0} (s : Statement F) (n : Text) → Sets s n → mem n (action_names (inline s)) ≡ true
unfolding action_names
Sets-action_names _ _ (variable target value) = mem-one target.name
Sets-action_names _ _ (array_element name delimiter index span value) = mem-one name
Sets-action_names _ _ (sum target increment) = mem-one target.name
Sets-action_names _ _ (in_if condition s subset then_do display n d) = Sets-action_names s n d
Sets-action_names _ _ (in_else s n d) = Sets-action_names s n d

Sets-statement_names :
    {F : Type 0} (s : Statement F) (n : Text) → Sets s n → mem n (statement_names s) ≡ true
unfolding statement_names
Sets-statement_names _ _ (variable target value) = mem-one target.name
Sets-statement_names _ _ (array_element name delimiter index span value) = mem-one name
Sets-statement_names _ _ (sum target increment) = mem-one target.name
Sets-statement_names _ _ (in_if condition s subset then_do display n d) = Sets-action_names s n d
Sets-statement_names _ _ (in_else s n d) = Sets-action_names s n d

Defines-statement_names :
    {F : Type 0} (s : Statement F) (n : Text) → Defines s n → mem n (statement_names s) ≡ true
unfolding statement_names
Defines-statement_names _ _ (sets s n d) = Sets-statement_names s n d
Defines-statement_names _ _ (loop n start end spans) = mem-one n
Defines-statement_names _ _ (array declaration n h) = h
Defines-statement_names _ _ (retain names n h named) =
    rw
      (
        mem-select is_retained_name n (map (λ m. m.0) names),
        h,
        is_retained_name-is_dotted_name n,
        named,
      )
      refl

pub OneDefines-defined_names :
    {F : Type 0} (statements : List (Statement F)) (n : Text)
    → OneDefines statements n
    → mem n (defined_names statements) ≡ true
unfolding defined_names
OneDefines-defined_names [] n d = elim d [ ]
OneDefines-defined_names (s ∷ statements) n (inl d) = ground (
  arith,
  mem-append n (statement_names s) (defined_names statements),
  Defines-statement_names s n d,
)
OneDefines-defined_names (s ∷ statements) n (inr d) = ground (
  arith,
  mem-append n (statement_names s) (defined_names statements),
  OneDefines-defined_names statements n d,
)
