-- ===== src/Syntax/Normalization.antt =====
-- `initial_analysis_text` of limulus/syntax/normalization.py: tabs become spaces outside quoted runs
-- and comments. A cursor is the text from it on, an end is a distance from the start of a scan, and a
-- jump of the cursor is a number of characters still to pass. Python's `str.isalnum` is a parameter.
pub mod Laws
pub mod Plain
use limulus.Prelude.{
  ℕ, zero, suc, ◌+◌, ◌-◌, leb, Bool, true, false, not, ◌&&◌, ◌||◌, List, [], ◌∷◌, ◌++◌, Option,
  none, some, ◌==◌, if◌then◌else◌, any, length,
}
use limulus.Text.{Text, codes, is_space}

abbrev pub tab : ℕ
tab = 9

abbrev pub is_quote : ℕ → Bool
is_quote c = (c == 39) || (c == 34)

abbrev semicolon : ℕ
semicolon = 59

abbrev pub take : ℕ → Text → Text
take zero s = []
take (suc n) [] = []
take (suc n) (c ∷ s) = c ∷ take n s

abbrev pub drop : ℕ → Text → Text
drop zero s = s
drop (suc n) [] = []
drop (suc n) (c ∷ s) = drop n s

-- `text[i : i + 1] == c`
abbrev is_next : ℕ → Text → Bool
is_next c [] = false
is_next c (d ∷ s) = d == c

abbrev further : ℕ → ℕ × Bool → ℕ × Bool
further k (n, closed) = (k + n, closed)

-- How far the run reaches behind its opening quote, and whether it is closed. A backslash passes
-- two characters, also at the end of the text.
unfoldable pub quoted_run : ℕ → Text → ℕ × Bool
quoted_run quote [] = (0, false)
quoted_run quote (c ∷ []) = if c == 92 then (2, false) else (1, c == quote)
quoted_run quote (c ∷ d ∷ s) =
    let two = quoted_run quote s in
    let one = quoted_run quote (d ∷ s) in
    if c == 92
    then further 2 two
    else if c == quote
    then (if d == quote then further 2 two else (1, true))
    else further 1 one

unfoldable pub skip_quoted : ℕ → Text → ℕ
unfolding quoted_run
skip_quoted quote s = (quoted_run quote s).0

-- `find`, or the length.
unfoldable pub distance_to : ℕ → Text → ℕ
distance_to c [] = 0
distance_to c (d ∷ s) = let rest = distance_to c s in if d == c then 0 else suc rest

unfoldable pub skip_quoted_or_open_fragment : ℕ → Text → ℕ
unfolding quoted_run distance_to
skip_quoted_or_open_fragment quote s =
    let (n, closed) = quoted_run quote s in if closed then n else distance_to semicolon s

abbrev is_between : ℕ → ℕ → ℕ → Bool
is_between low high c = leb low c && leb c high

-- A character of a word in either case. With IGNORECASE, `i` stands also for its Turkish forms.
abbrev same_letter : ℕ → ℕ → Bool
same_letter l c =
    (c == l)
    || ((is_between 97 122 l && (c == l - 32)) || ((l == 105) && ((c == 304) || (c == 305))))

abbrev starts_with_letters : Text → Text → Bool
starts_with_letters [] s = true
starts_with_letters (l ∷ letters) [] = false
starts_with_letters (l ∷ letters) (c ∷ s) = same_letter l c && starts_with_letters letters s

unfoldable pub count_spaces : Text → ℕ
unfolding is_space
count_spaces [] = 0
count_spaces (c ∷ s) = let rest = count_spaces s in if is_space c then suc rest else 0

abbrev is_letter : ℕ → Bool
is_letter c = is_between 65 90 c || (is_between 97 122 c || (c == 95))

abbrev is_name_part : ℕ → Bool
is_name_part c = is_letter c || is_between 48 57 c

abbrev count_name_parts : Text → ℕ
count_name_parts [] = 0
count_name_parts (c ∷ s) = let rest = count_name_parts s in if is_name_part c then suc rest else 0

abbrev starts_name : Text → Bool
starts_name [] = false
starts_name (c ∷ s) = is_letter c

-- `_MACRO_REGION_TAIL`
unfoldable pub macro_region_tail : Text → ℕ
unfolding count_spaces
macro_region_tail s =
    let spaces = count_spaces s in
    let behind = drop spaces s in
    let name = count_name_parts behind in
    if not (spaces == 0) && starts_name behind
    then spaces + (name + count_spaces (drop name behind))
    else spaces

-- The end of a `%let`, `%put` or `%*` token. `skip` characters of a quoted run are still to pass.
unfoldable pub scan_macro_line_end : (skip : ℕ) → Text → ℕ
unfolding skip_quoted
scan_macro_line_end skip [] = 0
scan_macro_line_end (suc skip) (c ∷ s) = suc (scan_macro_line_end skip s)
scan_macro_line_end zero (c ∷ s) =
    let rest = scan_macro_line_end (if is_quote c then skip_quoted c s else 0) s in
    if c == semicolon then 0 else suc rest

abbrev one_more : Option ℕ → Option ℕ
one_more none = none
one_more (some n) = some (suc n)

module _ (is_alnum : ℕ → Bool) where
  abbrev is_word : ℕ → Bool
  is_word c = is_alnum c || (c == 95)

  -- `\b` behind a word.
  abbrev ends_word : Text → Bool
  ends_word [] = true
  ends_word (c ∷ s) = not (is_word c)

  -- The letters, then a word boundary.
  abbrev matches_word : Text → Text → Bool
  matches_word letters s = starts_with_letters letters s && ends_word (drop (length letters) s)

  unfoldable pub scan_macro_block_end : (skip : ℕ) → Text → Option ℕ
  unfolding skip_quoted macro_region_tail
  scan_macro_block_end skip [] = none
  scan_macro_block_end (suc skip) (c ∷ s) = one_more (scan_macro_block_end skip s)
  scan_macro_block_end zero (c ∷ s) =
      let rest = scan_macro_block_end (if is_quote c then skip_quoted c s else 0) s in
      if not (is_quote c) && matches_word (codes "%mend") (c ∷ s)
      then some (5 + macro_region_tail (drop 5 (c ∷ s)))
      else one_more rest

  -- `after_word`: the character before the cursor is part of a word.
  unfoldable pub scan_proc_block_end : (after_word : Bool) → (skip : ℕ) → Text → Option ℕ
  unfolding skip_quoted count_spaces
  scan_proc_block_end after_word skip [] = none
  scan_proc_block_end after_word (suc skip) (c ∷ s) =
      one_more (scan_proc_block_end (is_word c) skip s)
  scan_proc_block_end after_word zero (c ∷ s) =
      let rest = scan_proc_block_end (is_word c) (if is_quote c then skip_quoted c s else 0) s in
      if is_quote c
      then one_more rest
      else if not after_word && matches_word (codes "run") (c ∷ s)
      then some (3 + count_spaces (drop 3 (c ∷ s)))
      else if not after_word && matches_word (codes "quit") (c ∷ s)
      then some (4 + count_spaces (drop 4 (c ∷ s)))
      else one_more rest

  -- The end of a token that begins here. A token that begins with `proc` has no `run` or `quit` at
  -- its start, whatever is before it.
  unfoldable pub region_control_token_end : Text → Option ℕ
  unfolding scan_macro_block_end scan_macro_line_end scan_proc_block_end
  region_control_token_end [] = none
  region_control_token_end (c ∷ s) =
      let text = c ∷ s in
      if c == 37
      then (if matches_word (codes "%macro") text
          then scan_macro_block_end 0 text
          else if matches_word (codes "%let") text
              || (matches_word (codes "%put") text || is_next 42 s)
          then some (scan_macro_line_end 0 text)
          else none)
      else if matches_word (codes "proc") text
      then scan_proc_block_end false 0 text
      else none

-- What a step writes, the text behind it, and whether a statement starts there.
pub record Step : Type 0 where
  pub written : Text
  pub rest : Text
  pub at_statement_start : Bool

-- A tab becomes a space.
abbrev pub without_tab : ℕ → ℕ
without_tab c = if c == tab then 32 else c

abbrev write : ℕ → Text × Text → Text × Text
write c (written, rest) = (c ∷ written, rest)

-- The `remaining` characters of a token. A quoted run may pass its end.
unfoldable pub normalize_region_span : (skip remaining : ℕ) → Text → Text × Text
unfolding skip_quoted
normalize_region_span skip remaining [] = ([], [])
normalize_region_span (suc skip) remaining (c ∷ s) =
    write c (normalize_region_span skip (remaining - 1) s)
normalize_region_span zero zero (c ∷ s) = ([], c ∷ s)
normalize_region_span zero (suc remaining) (c ∷ s) =
    write (if is_quote c then c else without_tab c)
      (normalize_region_span (if is_quote c then skip_quoted c s else 0) remaining s)

-- The characters up to the next quote, semicolon or space.
unfoldable pub chunk_length : Text → ℕ
unfolding is_space
chunk_length [] = 0
chunk_length (c ∷ s) =
    let rest = chunk_length s in
    if is_quote c || ((c == semicolon) || is_space c) then 0 else suc rest

-- The distance behind the next `*/`, or the length.
unfoldable pub block_comment_end : Text → ℕ
block_comment_end [] = 0
block_comment_end (c ∷ s) =
    let rest = block_comment_end s in if (c == 42) && is_next 47 s then 2 else suc rest

-- The distance behind the next semicolon, or the length.
unfoldable pub line_comment_end : Text → ℕ
line_comment_end [] = 0
line_comment_end (c ∷ s) = let rest = line_comment_end s in if c == semicolon then 1 else suc rest

abbrev copy : ℕ → Text → Bool → Step
copy n s flag = record { written = take n s; rest = drop n s; at_statement_start = flag }

abbrev normalized : Text × Text → Step
normalized (written, rest) = record {
  written = written;
  rest = rest;
  at_statement_start = not (is_next semicolon rest);
}

-- A token of region control, or else a chunk, whose first character is known not to end it.
unfoldable pub token_step : Option ℕ → ℕ → Text → Step
unfolding normalize_region_span chunk_length
token_step (some end) c s = normalized (normalize_region_span 0 end (c ∷ s))
token_step none c s = copy (suc (chunk_length s)) (c ∷ s) false

module _ (is_alnum : ℕ → Bool) where
  -- One turn of the loop, at the character c.
  unfoldable pub step : Bool → ℕ → Text → Step
  unfolding is_space skip_quoted_or_open_fragment block_comment_end line_comment_end
      region_control_token_end token_step
  step at_start c s =
      if c == tab
      then record { written = 32 ∷ []; rest = s; at_statement_start = at_start }
      else if is_space c
      then copy 1 (c ∷ s) at_start
      else if is_quote c
      then copy (suc (skip_quoted_or_open_fragment c s)) (c ∷ s) false
      else if c == semicolon
      then copy 1 (c ∷ s) true
      else if (c == 47) && is_next 42 s
      then copy (suc (suc (block_comment_end (drop 1 s)))) (c ∷ s) at_start
      else if (c == 42) && (not (is_next 47 s) && at_start)
      then copy (suc (line_comment_end s)) (c ∷ s) at_start
      else token_step (region_control_token_end is_alnum (c ∷ s)) c s

  abbrev in_front : Text → Option Text → Option Text
  in_front written none = none
  in_front written (some rest) = some (written ++ rest)

  -- The loop. None means that the fuel ran out.
  unfoldable pub normalize : (fuel : ℕ) → Bool → Text → Option Text
  unfolding step
  normalize fuel at_start [] = some []
  normalize zero at_start (c ∷ s) = none
  normalize (suc fuel) at_start (c ∷ s) =
      let next = step at_start c s in
      in_front next.written (normalize fuel next.at_statement_start next.rest)

  -- Each turn passes a character, so the length is fuel enough.
  unfoldable pub initial_analysis_text : Text → Option Text
  unfolding normalize
  initial_analysis_text text =
      if not (any (λ c. c == tab) text) then some text else normalize (length text) true text
