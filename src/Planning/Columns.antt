-- ===== src/Planning/Columns.antt =====
-- The helper columns of a block are all different, and what their specs may hold.
use limulus.Prelude.{
  ℕ, suc, ◌≡◌, refl, ap, ◌∙◌, Bool, true, false, not, ◌&&◌, List, [], ◌∷◌, ◌++◌, map, arith, ltb,
  ◌==◌, if◌then◌else◌, all, Bool-cases, Option-cases, inl, inr, and_left, ltb→lt,
}
use limulus.Text.{Text, codes, text_eq, text_eq_iff, lower}
use limulus.Text.Decimal.{decimal, read_decimal, read_decimal-decimal, is_plain, is_plain-decimal}
use limulus.Prelude.Sort.{sort_by}
use limulus.Syntax.Expression.{
  Expression, literal, name, unary, binary, call, subscript, concat, deferred,
}
use limulus.Planning.{LagLeadArguments}
use limulus.Planning.Specs.{
  TypedLagLeadSpec, helper_column_prefix, build_helper_column_name, helper_arguments, is_reaching,
  make_spec, span_lt, all_calls, collect_specs, collect_typed_lag_lead_specs,
}
use mathlib.Core.List.{append-nil}

-- No name stands twice.
abbrev pub is_distinct : List Text → Bool
is_distinct [] = true
is_distinct (n ∷ names) = all (λ m. not (text_eq n m)) names && is_distinct names

-- Reading a name from its end: how many underscores there were, up to three, and what stands between
-- the second and the third.
add_code : ℕ → ℕ × Text → ℕ × Text
add_code c (k, s) = if k == 3 then (k, s) else if c == 95 then (suc k, s) else (k, c ∷ s)

scan : Text → ℕ × Text → ℕ × Text
scan [] state = state
scan (c ∷ s) state = add_code c (scan s state)

scan-append : (s t : Text) (state : ℕ × Text) → scan (s ++ t) state ≡ scan s (scan t state)
unfolding scan
scan-append [] t state = refl
scan-append (c ∷ s) t state = ap (add_code c) (scan-append s t state)

scan-full : (s t : Text) → scan s (3, t) ≡ (3, t)
unfolding scan add_code
scan-full [] t = refl
scan-full (c ∷ s) t = rw (scan-full s t) refl

scan-plain : (s t : Text) → is_plain s ≡ true → scan s (2, t) ≡ (2, s ++ t)
unfolding scan add_code
scan-plain [] t h = refl
scan-plain (c ∷ s) t h =
    let ih = scan-plain s t (ground arith) in
    let other : (c == 95) ≡ false = ground arith in rw (ih, other) refl

-- The number of the occurrence that a name ends with.
occurrence_of : Text → ℕ
occurrence_of s = read_decimal (scan s (0, [])).1 0

occurrence_of-append :
    (p : Text) (m : ℕ) → occurrence_of (p ++ (95 ∷ (decimal m ++ codes "__"))) ≡ m
unfolding occurrence_of
occurrence_of-append p m = rw scanned (read_decimal-decimal m)
  where
    tail : scan (codes "__") (0, []) ≡ (2, [])
    tail = unfold scan in unfold add_code in refl

    digits : scan (decimal m) (2, []) ≡ (2, decimal m ++ [])
    digits = scan-plain (decimal m) [] (is_plain-decimal m)

    number : scan (decimal m ++ codes "__") (0, []) ≡ (2, decimal m)
    number =
        scan-append (decimal m) (codes "__") (0, [])
        ∙ ap (scan (decimal m)) tail
        ∙ digits
        ∙ ap (λ s. (2, s)) (append-nil (decimal m))

    third : add_code 95 (2, decimal m) ≡ (3, decimal m)
    third = unfold add_code in refl

    before : scan (95 ∷ (decimal m ++ codes "__")) (0, []) ≡ (3, decimal m)
    before = unfold scan in (ap (add_code 95) number ∙ third)

    scanned : scan (p ++ (95 ∷ (decimal m ++ codes "__"))) (0, []) ≡ (3, decimal m)
    scanned =
        scan-append p (95 ∷ (decimal m ++ codes "__")) (0, [])
        ∙ ap (scan p) before
        ∙ scan-full p (decimal m)

-- The columns of the specs are numbered from behind `n` on.
abbrev numbered_after : ℕ → List TypedLagLeadSpec → Bool
numbered_after n specs = all (λ s. ltb n (occurrence_of s.helper_column)) specs

numbered_after-suc :
    (n : ℕ) (specs : List TypedLagLeadSpec)
    → numbered_after (suc n) specs ≡ true
    → numbered_after n specs ≡ true
numbered_after-suc n [] h = refl
numbered_after-suc n (s ∷ specs) h = ground (arith, numbered_after-suc n specs)

occurrence_of-make_spec :
    (e : Expression) (n : Text) (parsed : LagLeadArguments) (m : ℕ)
    → occurrence_of (make_spec e n parsed m).helper_column ≡ m
unfolding make_spec build_helper_column_name
occurrence_of-make_spec e n parsed m =
    occurrence_of-append (helper_column_prefix n parsed.source_name parsed.offset) m

differs-numbered_after :
    (column : Text) (specs : List TypedLagLeadSpec)
    → numbered_after (occurrence_of column) specs ≡ true
    → all (λ m. not (text_eq column m)) (map (λ s. s.helper_column) specs) ≡ true
differs-numbered_after column [] h = refl
differs-numbered_after column (s ∷ specs) h = elim (Bool-cases (text_eq column s.helper_column)) [
  | inr other ↦ ground (arith, other, differs-numbered_after column specs)
  | inl same ↦
      let e : column ≡ s.helper_column = (text_eq_iff column s.helper_column).0 same in
      absurd (
        omega (
          arith,
          ap occurrence_of e,
          ltb→lt (occurrence_of column) (occurrence_of s.helper_column) (
              and_left (ltb (occurrence_of column) (occurrence_of s.helper_column))
                (numbered_after (occurrence_of column) specs) h),
        ))
]

abbrev columns_of : List TypedLagLeadSpec → List Text
columns_of specs = map (λ s. s.helper_column) specs

Numbered : ℕ → List TypedLagLeadSpec → Type 0
Numbered n specs = (numbered_after n specs ≡ true) × (is_distinct (columns_of specs) ≡ true)

collect_specs-Numbered :
    (n : ℕ) (candidates : List Expression) → Numbered n (collect_specs n candidates)
unfolding collect_specs Numbered
collect_specs-Numbered n [] = (refl, refl)
collect_specs-Numbered n (literal kind lexeme place ∷ cs) = collect_specs-Numbered n cs
collect_specs-Numbered n (name m place ∷ cs) = collect_specs-Numbered n cs
collect_specs-Numbered n (unary op e place ∷ cs) = collect_specs-Numbered n cs
collect_specs-Numbered n (binary op l r place ∷ cs) = collect_specs-Numbered n cs
collect_specs-Numbered n (subscript b i place ∷ cs) = collect_specs-Numbered n cs
collect_specs-Numbered n (concat es place ∷ cs) = collect_specs-Numbered n cs
collect_specs-Numbered n (deferred kind cause span summary display references ∷ cs) =
    collect_specs-Numbered n cs
collect_specs-Numbered n (call f es place ∷ cs) =
    elim (Option-cases (helper_arguments (lower f) es)) [
      | inl e ↦ rw (collect_specs, e) (collect_specs-Numbered n cs)
      | inr (parsed, e) ↦
          let (after, apart) = collect_specs-Numbered (suc n) cs in
          let spec = make_spec (call f es place) (lower f) parsed (suc n) in
          let number : occurrence_of spec.helper_column ≡ suc n =
            occurrence_of-make_spec (call f es place) (lower f) parsed (suc n) in
          elim (Bool-cases (is_reaching (lower f) parsed.offset)) [
            | inr near ↦
                rw (collect_specs, e, near)
                  (numbered_after-suc n (collect_specs (suc n) cs) after, apart)
            | inl far ↦
                let differs =
                  differs-numbered_after spec.helper_column (collect_specs (suc n) cs)
                    (rw number after) in
                rw (collect_specs, e, far)
                  (
                    rw number
                        (ground (arith, numbered_after-suc n (collect_specs (suc n) cs) after)),
                    rw differs apart,
                  )
          ]
    ]

-- The helper columns that the calls of some expressions are given are all different.
pub collect_typed_lag_lead_specs-is_distinct :
    (targets : List Expression)
    → is_distinct (map (λ s. s.helper_column) (collect_typed_lag_lead_specs targets)) ≡ true
unfolding collect_typed_lag_lead_specs Numbered
collect_typed_lag_lead_specs-is_distinct targets =
    (collect_specs-Numbered 0 (sort_by span_lt (all_calls targets))).1
