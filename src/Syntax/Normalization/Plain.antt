-- ===== src/Syntax/Normalization/Plain.antt =====
-- A text without quotes and comments loses all its tabs.
use limulus.Prelude.{
  ℕ, zero, suc, ◌≤◌, ◌≡◌, refl, ap, ◌∙◌, Bool, true, false, not, ◌&&◌, ◌||◌, [], ◌∷◌, ◌++◌, map,
  Option, none, some, ◌==◌, arith, if◌then◌else◌, any, all, length, and_left, and_right, Bool-cases,
  inl, inr,
}
use limulus.Text.{Text, is_space}
use limulus.Syntax.Normalization.{
  take, drop, Step, without_tab, normalize_region_span, token_step, step, normalize,
  initial_analysis_text, is_quote, copy, chunk_length, is_next, semicolon,
  skip_quoted_or_open_fragment, block_comment_end, line_comment_end, region_control_token_end,
  in_front,
}
use limulus.Syntax.Normalization.Laws.{step-Turn}

-- No quote and no `*`, with which each comment begins.
abbrev pub is_plain : Text → Bool
is_plain = all (λ c. not (is_quote c) && not (c == 42))

-- What was written, before the rest without its tabs, is the text without its tabs.
record Plain (s written rest : Text) : Type 0 where
  same : written ++ map without_tab rest ≡ map without_tab s
  plain : is_plain rest ≡ true

-- A character in front, which is no tab or lost it.
cons-Plain :
    (c d : ℕ) (s written rest : Text)
    → d ≡ without_tab c
    → Plain s written rest
    → Plain (c ∷ s) (d ∷ written) rest
cons-Plain c d s written rest e p = record {
  same = ap (λ x. x ∷ (written ++ map without_tab rest)) e ∙ ap (λ t. without_tab c ∷ t) p.same;
  plain = p.plain;
}

rest-Plain : (s : Text) → is_plain s ≡ true → Plain s [] s
rest-Plain s h = record { same = refl; plain = h }

plain_head :
    (c : ℕ) (s : Text)
    → is_plain (c ∷ s) ≡ true
    → (is_quote c ≡ false) × (((c == 42) ≡ false) × (is_plain s ≡ true))
plain_head c s h = ground (arith, h)

span-Plain :
    (n : ℕ) (s : Text)
    → is_plain s ≡ true
    → Plain s (normalize_region_span 0 n s).0 (normalize_region_span 0 n s).1
unfolding normalize_region_span
span-Plain n [] h = rest-Plain [] refl
span-Plain zero (c ∷ s) h = rest-Plain (c ∷ s) h
span-Plain (suc n) (c ∷ s) h =
    let (quote, (star, rest)) = plain_head c s h in
    rw (normalize_region_span, quote)
      (cons-Plain c (without_tab c) s _ _ refl (span-Plain n s rest))

no_tab : (c : ℕ) → (is_quote c || ((c == semicolon) || is_space c)) ≡ false → c ≡ without_tab c
unfolding is_space
no_tab c h = ground (arith, h)

chunk-Plain :
    (s : Text) → is_plain s ≡ true → Plain s (take (chunk_length s) s) (drop (chunk_length s) s)
unfolding chunk_length
chunk-Plain [] h = rest-Plain [] refl
chunk-Plain (c ∷ s) h = elim (Bool-cases (is_quote c || ((c == semicolon) || is_space c))) [
  | inl ends ↦ rw (chunk_length, ends) (rest-Plain (c ∷ s) h)
  | inr inside ↦
      rw (chunk_length, inside)
        (cons-Plain c c s _ _ (no_tab c inside) (chunk-Plain s (plain_head c s h).1.1))
]

-- A turn of the loop leaves out the tabs.
abbrev PlainStep : ℕ → Text → Step → Type 0
PlainStep c s next = Plain (c ∷ s) next.written next.rest

if-Plain :
    (b : Bool) (c : ℕ) (s : Text) (x y : Step)
    → (b ≡ true → PlainStep c s x)
    → (b ≡ false → PlainStep c s y)
    → PlainStep c s (if b then x else y)
if-Plain true c s x y f g = f refl
if-Plain false c s x y f g = g refl

one-Plain :
    (c d : ℕ) (s : Text) (flag : Bool)
    → is_plain (c ∷ s) ≡ true
    → d ≡ without_tab c
    → PlainStep c s (record { written = d ∷ []; rest = s; at_statement_start = flag })
one-Plain c d s flag h e = cons-Plain c d s [] s e (rest-Plain s (plain_head c s h).1.1)

token_step-Plain :
    (o : Option ℕ) (c : ℕ) (s : Text)
    → is_plain (c ∷ s) ≡ true
    → c ≡ without_tab c
    → PlainStep c s (token_step o c s)
unfolding token_step
token_step-Plain none c s h e = cons-Plain c c s _ _ e (chunk-Plain s (plain_head c s h).1.1)
token_step-Plain (some n) c s h e = span-Plain n (c ∷ s) h

impossible : (b : Bool) → b ≡ true → b ≡ false → ⊥
impossible b t f = ground (arith, t, f)

not_space : (c : ℕ) → (c == 9) ≡ false → c ≡ without_tab c
not_space c h = ground (arith, h)

next_star : (s : Text) → is_plain s ≡ true → is_next 42 s ≡ false
next_star [] h = refl
next_star (c ∷ s) h = (plain_head c s h).1.0

module _ (is_alnum : ℕ → Bool) where
  step-Plain :
      (at_start : Bool) (c : ℕ) (s : Text)
      → is_plain (c ∷ s) ≡ true
      → PlainStep c s (step is_alnum at_start c s)
  unfolding step
  step-Plain at_start c s h =
      let (quote, (star, rest)) = plain_head c s h in
      if-Plain (c == 9) c s _ _ (λ e. one-Plain c 32 s at_start h (ground (arith, e)))
        (λ tab.
          if-Plain (is_space c) c s _ _ (λ _. one-Plain c c s at_start h (not_space c tab))
            (λ _.
              if-Plain (is_quote c) c s
                (copy (suc (skip_quoted_or_open_fragment c s)) (c ∷ s) false) _
                (λ e. absurd (impossible (is_quote c) e quote))
                (λ _.
                  if-Plain (c == semicolon) c s _ _ (λ _. one-Plain c c s true h (not_space c tab))
                    (λ _.
                      if-Plain ((c == 47) && is_next 42 s) c s
                        (copy (suc (suc (block_comment_end (drop 1 s)))) (c ∷ s) at_start) _
                        (λ e. absurd (
                          impossible (is_next 42 s) (and_right (c == 47) (is_next 42 s) e)
                            (next_star s rest)))
                        (λ _.
                          if-Plain ((c == 42) && (not (is_next 47 s) && at_start)) c s
                            (copy (suc (line_comment_end s)) (c ∷ s) at_start) _
                            (λ e. absurd (
                              impossible (c == 42)
                                (and_left (c == 42) (not (is_next 47 s) && at_start) e) star))
                            (λ _.
                              token_step-Plain (region_control_token_end is_alnum (c ∷ s)) c s h
                                (not_space c tab)))))))

  normalize-plain :
      (fuel : ℕ) (at_start : Bool) (s : Text)
      → length s ≤ fuel
      → is_plain s ≡ true
      → normalize is_alnum fuel at_start s ≡ some (map without_tab s)
  unfolding normalize
  normalize-plain fuel at_start [] h p = refl
  normalize-plain zero at_start (c ∷ s) h p = absurd (omega (arith, h))
  normalize-plain (suc fuel) at_start (c ∷ s) h p =
      let next = step is_alnum at_start c s in
      let turn = step-Plain at_start c s p in
      ap (in_front is_alnum next.written) (
        normalize-plain fuel next.at_statement_start next.rest
          (omega (arith, (step-Turn is_alnum at_start c s).shorter, h)) turn.plain)
      ∙ ap some turn.same

without_tabs : (s : Text) → any (λ c. c == 9) s ≡ false → s ≡ map without_tab s
without_tabs [] h = refl
without_tabs (c ∷ s) h = ground (arith, without_tabs s, h)

-- In a text that has no quote and no `*`, all tabs become spaces.
pub initial_analysis_text-is_plain :
    (is_alnum : ℕ → Bool) (text : Text)
    → is_plain text ≡ true
    → initial_analysis_text is_alnum text ≡ some (map without_tab text)
unfolding initial_analysis_text
initial_analysis_text-is_plain is_alnum text h = elim (Bool-cases (any (λ c. c == 9) text)) [
  | inl tabs ↦
      rw (initial_analysis_text, tabs)
        (normalize-plain is_alnum (length text) true text (omega arith) h)
  | inr tabs ↦ rw (initial_analysis_text, tabs) (ap some (without_tabs text tabs))
]
