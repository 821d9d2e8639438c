-- ===== src/Syntax/Normalization/Laws.antt =====
-- The loop of `initial_analysis_text` ends, and nothing but tabs changes.
use limulus.Prelude.{
  ℕ, zero, suc, ◌+◌, ◌-◌, ◌≤◌, ◌≡◌, refl, ap, Bool, true, false, not, ◌&&◌, ◌||◌, [], ◌∷◌, ◌++◌,
  Option, none, some, ◌==◌, arith, if◌then◌else◌, any, length,
}
use limulus.Text.{Text, codes, is_space}
use limulus.Syntax.Normalization.{
  take, drop, Step, without_tab, skip_quoted, one_more, scan_macro_line_end, scan_macro_block_end,
  scan_proc_block_end, region_control_token_end, normalize_region_span, token_step, step, normalize,
  initial_analysis_text, is_quote, is_word, matches_word, macro_region_tail, count_spaces, is_next,
  semicolon, skip_quoted_or_open_fragment, block_comment_end, line_comment_end, in_front, copy,
  chunk_length,
}

-- The texts are equally long, and where they differ a tab became a space.
abbrev pub only_tabs : Text → Text → Bool
only_tabs [] [] = true
only_tabs (c ∷ s) (d ∷ t) = ((d == c) || ((c == 9) && (d == 32))) && only_tabs s t
only_tabs _ _ = false

only_tabs_refl : (s : Text) → only_tabs s s ≡ true
only_tabs_refl [] = refl
only_tabs_refl (c ∷ s) = ground (arith, only_tabs_refl s)

only_tabs-take :
    (n : ℕ) (s out : Text) → only_tabs (drop n s) out ≡ true → only_tabs s (take n s ++ out) ≡ true
only_tabs-take zero s out h = h
only_tabs-take (suc n) [] out h = h
only_tabs-take (suc n) (c ∷ s) out h = ground (arith, only_tabs-take n s out h)

length-drop : (n : ℕ) (s : Text) → length (drop n s) ≤ length s
length-drop zero s = omega arith
length-drop (suc n) [] = omega arith
length-drop (suc n) (c ∷ s) = omega (arith, length-drop n s)

-- One character in front.
only_tabs-cons :
    (c d : ℕ) (s t : Text)
    → ((d == c) || ((c == 9) && (d == 32))) ≡ true
    → only_tabs s t ≡ true
    → only_tabs (c ∷ s) (d ∷ t) ≡ true
only_tabs-cons c d s t e h = ground (arith, e, h)

same_self : (c : ℕ) → ((c == c) || ((c == 9) && (c == 32))) ≡ true
same_self c = ground arith

same-without_tab :
    (c : ℕ) (q : Bool)
    → (((if q then c else without_tab c) == c)
        || ((c == 9) && ((if q then c else without_tab c) == 32)))
      ≡ true
same-without_tab c true = same_self c
same-without_tab c false = ground arith

only_tabs-span :
    (k n : ℕ) (s out : Text)
    → only_tabs (normalize_region_span k n s).1 out ≡ true
    → only_tabs s ((normalize_region_span k n s).0 ++ out) ≡ true
unfolding normalize_region_span
only_tabs-span k n [] out h = h
only_tabs-span (suc k) n (c ∷ s) out h =
    only_tabs-cons c c s _ (same_self c) (only_tabs-span k (n - 1) s out h)
only_tabs-span zero zero (c ∷ s) out h = h
only_tabs-span zero (suc n) (c ∷ s) out h =
    only_tabs-cons c (if is_quote c then c else without_tab c) s _ (same-without_tab c (is_quote c))
      (only_tabs-span (if is_quote c then skip_quoted c s else 0) n s out h)

length-span : (k n : ℕ) (s : Text) → length (normalize_region_span k n s).1 ≤ length s
unfolding normalize_region_span
length-span k n [] = omega arith
length-span (suc k) n (c ∷ s) = omega (arith, length-span k (n - 1) s)
length-span zero zero (c ∷ s) = omega arith
length-span zero (suc n) (c ∷ s) =
    omega (arith, length-span (if is_quote c then skip_quoted c s else 0) n s)

-- A token is not empty.
abbrev is_positive : Option ℕ → Bool
is_positive none = true
is_positive (some zero) = false
is_positive (some (suc n)) = true

is_positive-one_more : (o : Option ℕ) → is_positive (one_more o) ≡ true
is_positive-one_more none = refl
is_positive-one_more (some m) = refl

is_positive-plus : (j k : ℕ) → 1 ≤ j → is_positive (some (j + k)) ≡ true
is_positive-plus j k h = ground (arith, h)

is_positive-if :
    (b : Bool) (x y : Option ℕ)
    → (b ≡ true → is_positive x ≡ true)
    → is_positive y ≡ true
    → is_positive (if b then x else y) ≡ true
is_positive-if true x y f g = f refl
is_positive-if false x y f g = g

is_positive-line_end :
    (c : ℕ) (s : Text)
    → (c == 37) ≡ true
    → is_positive (some (scan_macro_line_end 0 (c ∷ s))) ≡ true
unfolding scan_macro_line_end
is_positive-line_end c s h = ground (arith, h)

module _ (is_alnum : ℕ → Bool) where
  is_positive-scan_macro_block_end :
      (k : ℕ) (s : Text) → is_positive (scan_macro_block_end is_alnum k s) ≡ true
  unfolding scan_macro_block_end
  is_positive-scan_macro_block_end k [] = refl
  is_positive-scan_macro_block_end (suc k) (c ∷ s) =
      is_positive-one_more (scan_macro_block_end is_alnum k s)
  is_positive-scan_macro_block_end zero (c ∷ s) =
      is_positive-if (not (is_quote c) && matches_word is_alnum (codes "%mend") (c ∷ s))
        (some (5 + macro_region_tail (drop 5 (c ∷ s)))) _
        (λ _. is_positive-plus 5 (macro_region_tail (drop 5 (c ∷ s))) (omega arith))
        (is_positive-one_more
          (scan_macro_block_end is_alnum (if is_quote c then skip_quoted c s else 0) s))

  is_positive-scan_proc_block_end :
      (w : Bool) (k : ℕ) (s : Text) → is_positive (scan_proc_block_end is_alnum w k s) ≡ true
  unfolding scan_proc_block_end
  is_positive-scan_proc_block_end w k [] = refl
  is_positive-scan_proc_block_end w (suc k) (c ∷ s) =
      is_positive-one_more (scan_proc_block_end is_alnum (is_word is_alnum c) k s)
  is_positive-scan_proc_block_end w zero (c ∷ s) =
      let rest =
        scan_proc_block_end is_alnum (is_word is_alnum c)
          (if is_quote c then skip_quoted c s else 0) s in
      let runs = some (3 + count_spaces (drop 3 (c ∷ s))) in
      let quits = some (4 + count_spaces (drop 4 (c ∷ s))) in
      is_positive-if (is_quote c) (one_more rest) _ (λ _. is_positive-one_more rest)
        (is_positive-if (not w && matches_word is_alnum (codes "run") (c ∷ s)) runs _
          (λ _. is_positive-plus 3 (count_spaces (drop 3 (c ∷ s))) (omega arith))
          (is_positive-if (not w && matches_word is_alnum (codes "quit") (c ∷ s)) quits
            (one_more rest) (λ _. is_positive-plus 4 (count_spaces (drop 4 (c ∷ s))) (omega arith))
            (is_positive-one_more rest)))

  is_positive-region_control_token_end :
      (c : ℕ) (s : Text) → is_positive (region_control_token_end is_alnum (c ∷ s)) ≡ true
  unfolding region_control_token_end
  is_positive-region_control_token_end c s =
      let text : Text = c ∷ s in
      let macro =
        if matches_word is_alnum (codes "%let") text
          || (matches_word is_alnum (codes "%put") text || is_next 42 s)
        then some (scan_macro_line_end 0 text)
        else none in
      is_positive-if (c == 37)
        (if matches_word is_alnum (codes "%macro") text
          then scan_macro_block_end is_alnum 0 text
          else macro)
        _
        (λ p.
          is_positive-if (matches_word is_alnum (codes "%macro") text)
            (scan_macro_block_end is_alnum 0 text) macro
            (λ _. is_positive-scan_macro_block_end 0 text)
            (is_positive-if
              (matches_word is_alnum (codes "%let") text
                || (matches_word is_alnum (codes "%put") text || is_next 42 s))
              (some (scan_macro_line_end 0 text)) none (λ _. is_positive-line_end c s p) refl))
        (is_positive-if (matches_word is_alnum (codes "proc") text)
          (scan_proc_block_end is_alnum false 0 text) none
          (λ _. is_positive-scan_proc_block_end false 0 text) refl)

  -- A turn passes a character, and changes only tabs.
  pub record Turn (c : ℕ) (s : Text) (next : Step) : Type 0 where
    pub shorter : length next.rest ≤ length s
    pub tabs :
        (out : Text)
        → only_tabs next.rest out ≡ true
        → only_tabs (c ∷ s) (next.written ++ out) ≡ true

  copy-Turn : (n c : ℕ) (s : Text) (flag : Bool) → Turn c s (copy (suc n) (c ∷ s) flag)
  copy-Turn n c s flag = record {
    shorter = length-drop n s;
    tabs = λ out. only_tabs-take (suc n) (c ∷ s) out;
  }

  token_step-Turn :
      (o : Option ℕ) (c : ℕ) (s : Text) → is_positive o ≡ true → Turn c s (token_step o c s)
  unfolding token_step normalize_region_span
  token_step-Turn none c s p = copy-Turn (chunk_length s) c s false
  token_step-Turn (some zero) c s p = absurd (ground (arith, p))
  token_step-Turn (some (suc n)) c s p = record {
    shorter = length-span (if is_quote c then skip_quoted c s else 0) n s;
    tabs = λ out h. only_tabs-span 0 (suc n) (c ∷ s) out h;
  }

  tab-Turn :
      (at_start : Bool) (c : ℕ) (s : Text)
      → (c == 9) ≡ true
      → Turn c s (record { written = 32 ∷ []; rest = s; at_statement_start = at_start })
  tab-Turn at_start c s e = record {
    shorter = omega arith;
    tabs = λ out h. only_tabs-cons c 32 s out (ground (arith, e)) h;
  }

  if-Turn :
      (b : Bool) (c : ℕ) (s : Text) (x y : Step)
      → (b ≡ true → Turn c s x)
      → Turn c s y
      → Turn c s (if b then x else y)
  if-Turn true c s x y f g = f refl
  if-Turn false c s x y f g = g

  pub step-Turn : (at_start : Bool) (c : ℕ) (s : Text) → Turn c s (step is_alnum at_start c s)
  unfolding step
  step-Turn at_start c s =
      let quoted = skip_quoted_or_open_fragment c s in
      let block = suc (block_comment_end (drop 1 s)) in
      let line = line_comment_end s in
      if-Turn (c == 9) c s _ _ (λ e. tab-Turn at_start c s e)
        (if-Turn (is_space c) c s _ _ (λ _. copy-Turn 0 c s at_start)
          (if-Turn (is_quote c) c s _ _ (λ _. copy-Turn quoted c s false)
            (if-Turn (c == semicolon) c s _ _ (λ _. copy-Turn 0 c s true)
              (if-Turn ((c == 47) && is_next 42 s) c s _ _ (λ _. copy-Turn block c s at_start)
                (if-Turn ((c == 42) && (not (is_next 47 s) && at_start)) c s _ _
                  (λ _. copy-Turn line c s at_start)
                  (token_step-Turn (region_control_token_end is_alnum (c ∷ s)) c s
                    (is_positive-region_control_token_end c s)))))))

-- What the loop is to return.
abbrev pub Normalized : Text → Option Text → Type 0
Normalized text result = (out : Text) × (result ≡ some out) × (only_tabs text out ≡ true)

Normalized-unless :
    (b : Bool) (text : Text) (result : Option Text)
    → Normalized text result
    → Normalized text (if not b then some text else result)
Normalized-unless true text result h = h
Normalized-unless false text result h = (text, refl, only_tabs_refl text)

module _ (is_alnum : ℕ → Bool) where
  normalize-Normalized :
      (fuel : ℕ) (at_start : Bool) (s : Text)
      → length s ≤ fuel
      → Normalized s (normalize is_alnum fuel at_start s)
  unfolding normalize
  normalize-Normalized fuel at_start [] h = ([], refl, refl)
  normalize-Normalized zero at_start (c ∷ s) h = absurd (omega (arith, h))
  normalize-Normalized (suc fuel) at_start (c ∷ s) h =
      let next = step is_alnum at_start c s in
      let turn = step-Turn is_alnum at_start c s in
      let (out, returned, tabs) =
        normalize-Normalized fuel next.at_statement_start next.rest
          (omega (arith, turn.shorter, h)) in
      (next.written ++ out, ap (in_front is_alnum next.written) returned, turn.tabs out tabs)

  -- The loop ends, and returns a text of the same length that differs only where a tab became a space.
  pub initial_analysis_text-Normalized :
      (text : Text) → Normalized text (initial_analysis_text is_alnum text)
  unfolding initial_analysis_text
  initial_analysis_text-Normalized text =
      Normalized-unless (any (λ c. c == 9) text) text (normalize is_alnum (length text) true text)
        (normalize-Normalized (length text) true text (omega arith))
