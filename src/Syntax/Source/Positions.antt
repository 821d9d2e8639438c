-- ===== src/Syntax/Source/Positions.antt =====
-- Lines and columns determine the offset, and which offsets make a span.
use limulus.Prelude.{
  ℕ, zero, suc, ◌+◌, ◌-◌, ◌<◌, ◌≤◌, ◌≡◌, refl, sym, ap, ◌∙◌, ◌⊎◌, inl, inr, true, [], ◌∷◌, Option,
  none, some, arith, leb, ◌==◌, if◌then◌else◌, length, Option-cases, Bool-cases,
}
use native.Mathlib.Decide.{dec_lt}
use limulus.Prelude.Int.{pos}
use limulus.Text.{Text, text_eq_refl}
use limulus.Syntax.Expression.{SourceSpan}
use limulus.Syntax.Source.{
  SourceDocument, take, newline, count_newlines, rfind_newline, column_of, codepoint_line_column,
  is_valid_span, checked_span, span_between, document_span, is_program_span,
}

-- Where the line after `n` ends of lines begins.
unfoldable pub line_start : Text → ℕ → ℕ
line_start s zero = 0
line_start [] (suc n) = 0
line_start (c ∷ s) (suc n) = suc (if c == newline then line_start s n else line_start s (suc n))

-- The offset of a line and a column.
unfoldable pub offset_at : Text → ℕ → ℕ → ℕ
unfolding line_start
offset_at s line column = line_start s (line - 1) + (column - 1)

abbrev after_last : Option ℕ → ℕ
after_last none = 0
after_last (some i) = suc i

no_newline : (s : Text) → rfind_newline s ≡ none → count_newlines s ≡ 0
unfolding rfind_newline count_newlines
no_newline [] h = refl
no_newline (c ∷ s) h = elim (Option-cases (rfind_newline s)) [
  | inl e ↦ ground (arith, no_newline s e)
  | inr (i, e) ↦ absurd (ground arith)
]

some_newline :
    (s : Text) (i : ℕ) → rfind_newline s ≡ some i → (0 < count_newlines s) × (i < length s)
unfolding rfind_newline count_newlines
some_newline [] i h = absurd (ground arith)
some_newline (c ∷ s) i h = elim (Option-cases (rfind_newline s)) [
  | inl e ↦ elim (Bool-cases (c == newline)) [
    | inl at_end ↦ let same : i ≡ 0 = ground arith in (ground arith, omega (arith, same))
    | inr other ↦ absurd (ground arith)
  ]
  | inr (j, e) ↦
      let (found, inside) = some_newline s j e in
      let same : i ≡ suc j = ground arith in (ground arith, omega (arith, same, inside))
]

length-take : (n : ℕ) (s : Text) → n ≤ length s → length (take n s) ≡ n
length-take zero s h = refl
length-take (suc n) [] h = absurd (omega arith)
length-take (suc n) (c ∷ s) h = ap suc (length-take n s (omega arith))

line_start-take :
    (n : ℕ) (s : Text)
    → n ≤ length s
    → line_start s (count_newlines (take n s)) ≡ after_last (rfind_newline (take n s))
unfolding line_start count_newlines rfind_newline
line_start-take zero s h = refl
line_start-take (suc n) [] h = absurd (omega arith)
line_start-take (suc n) (c ∷ s) h =
    step n s c (line_start-take n s (omega arith)) (rfind_newline (take n s)) refl
  where
    step :
        (n : ℕ) (s : Text) (c : ℕ)
        → line_start s (count_newlines (take n s)) ≡ after_last (rfind_newline (take n s))
        → (o : Option ℕ) → rfind_newline (take n s) ≡ o
        → line_start (c ∷ s) (count_newlines (c ∷ take n s))
          ≡ after_last (rfind_newline (c ∷ take n s))
    step n s c ih none e = elim (Bool-cases (c == newline)) [
      | inl at_end ↦
          let z : count_newlines (take n s) ≡ 0 = no_newline (take n s) e in ground (arith, z)
      | inr other ↦
          let z : count_newlines (take n s) ≡ 0 = no_newline (take n s) e in ground (arith, z)
    ]
    step n s c ih (some i) e =
        let (found, inside) = some_newline (take n s) i e in
        more (count_newlines (take n s)) refl found
      where
        more :
            (k : ℕ)
            → count_newlines (take n s) ≡ k
            → 0 < k
            → line_start (c ∷ s) (count_newlines (c ∷ take n s))
              ≡ after_last (rfind_newline (c ∷ take n s))
        more zero z p = absurd (omega arith)
        more (suc k) z p = ground (arith, e, z, ih)

column-positive :
    (n : ℕ) (s : Text)
    → n ≤ length s
    → (0 < column_of n (rfind_newline (take n s)))
      × (after_last (rfind_newline (take n s)) + (column_of n (rfind_newline (take n s)) - 1) ≡ n)
column-positive n s h = go (rfind_newline (take n s)) refl
  where
    go :
        (o : Option ℕ)
        → rfind_newline (take n s) ≡ o
        → (0 < column_of n o) × (after_last o + (column_of n o - 1) ≡ n)
    go none e = (omega arith, omega arith)
    go (some i) e =
        let below : i < n = omega (arith, (some_newline (take n s) i e).1, length-take n s h) in
        (omega (arith, below), omega (arith, below))

abbrev line_of : Text → ℕ → ℕ
line_of s n = count_newlines (take n s) + 1

abbrev column_at : Text → ℕ → ℕ
column_at s n = column_of n (rfind_newline (take n s))

inside_text :
    (s : Text) (n : ℕ)
    → n ≤ length s
    → codepoint_line_column s (pos n) ≡ some (line_of s n, column_at s n)
unfolding codepoint_line_column
inside_text s n h = ground arith

outside_text : (s : Text) (n : ℕ) → length s < n → codepoint_line_column s (pos n) ≡ none
unfolding codepoint_line_column
outside_text s n h = ground arith

some_pair : (a b c d : ℕ) → ◌≡◌ {A = Option (ℕ × ℕ)} (some (a, b)) (some (c, d)) → (a ≡ c) × (b ≡ d)
some_pair a b c d h = (cc, cc)

-- The line and the column of an offset are counted from 1, and lead back to the offset.
pub codepoint_line_column-offset_at :
    (s : Text) (n line column : ℕ)
    → codepoint_line_column s (pos n) ≡ some (line, column)
    → (1 ≤ line) × (1 ≤ column) × (offset_at s line column ≡ n)
unfolding codepoint_line_column offset_at
codepoint_line_column-offset_at s n line column h = elim (Bool-cases (leb n (length s))) [
  | inr past ↦ absurd (ground arith)
  | inl inside ↦
      let (l, c) =
        some_pair (line_of s n) (column_at s n) line column
          (sym (inside_text s n (ground arith)) ∙ h) in
      let back = column-positive n s (ground arith) in
      let start = line_start-take n s (ground arith) in
      let k : line - 1 ≡ count_newlines (take n s) = omega (arith, l) in
      (omega (arith, l), rw c at back.0, rw (k, start, ← c) back.1)
]

abbrev made_span : SourceDocument → ℕ → ℕ → SourceSpan
made_span document a b = record {
  start = a;
  end = b;
  line = line_of document.text a;
  column = column_at document.text a;
  source_id = document.source_id;
  end_line = some (line_of document.text b);
  end_column = some (column_at document.text b);
}

document_span-inside :
    (document : SourceDocument) (a b : ℕ)
    → a ≤ length document.text
    → b ≤ length document.text
    → document_span document (pos a) (pos b) ≡ checked_span (made_span document a b)
unfolding document_span span_between
document_span-inside document a b ha hb =
    rw (inside_text document.text a ha, inside_text document.text b hb) refl

checked_span-valid : (s : SourceSpan) → is_valid_span s ≡ true → checked_span s ≡ some s
unfolding checked_span
checked_span-valid s h = ground arith

made_span-crossed :
    (document : SourceDocument) (a b : ℕ) → b < a → checked_span (made_span document a b) ≡ none
unfolding checked_span is_valid_span
made_span-crossed document a b h = ground arith

made_span-is_valid_span :
    (document : SourceDocument) (a b : ℕ)
    → a ≤ b
    → b ≤ length document.text
    → is_valid_span (made_span document a b) ≡ true
unfolding is_valid_span
made_span-is_valid_span document a b h hb =
    let first : 0 < column_at document.text a = (column-positive a document.text (omega arith)).0 in
    let last : 0 < column_at document.text b = (column-positive b document.text hb).0 in
    ground arith

-- The span of a document that the offsets `a` and `b` make.
abbrev pub Spanned : SourceDocument → ℕ → ℕ → Type 0
Spanned document a b =
    (s : SourceSpan) × (document_span document (pos a) (pos b) ≡ some s)
    × (s.start ≡ a)
    × (s.end ≡ b)
    × (codepoint_line_column document.text (pos a) ≡ some (s.line, s.column))
    × (is_valid_span s ≡ true)
    × (is_program_span document s ≡ true)

-- Two offsets make a span exactly when the first is not behind the second and both lie in the text or at
-- its end. The span has these offsets and the position of the first, and a program over the document
-- accepts it.
pub document_span-total :
    (document : SourceDocument) (a b : ℕ)
    → (a ≤ b) × (b ≤ length document.text) × Spanned document a b
      ⊎ (document_span document (pos a) (pos b) ≡ none) × ((b < a) ⊎ (length document.text < b))
document_span-total document a b = elim (dec_lt (length document.text) b) [
  | yes past ↦ inr (behind past, inr past)
  | no inside ↦ elim (dec_lt b a) [
    | yes crossed ↦ inr (rejected crossed (omega arith), inl crossed)
    | no ordered ↦ inl (
      omega arith,
      omega arith,
      (
        made_span document a b,
        made (omega arith) (omega arith),
        refl,
        refl,
        inside_text document.text a (omega arith),
        made_span-is_valid_span document a b (omega arith) (omega arith),
        accepted (omega arith),
      ),
    )
  ]
]
  where
    behind : length document.text < b → document_span document (pos a) (pos b) ≡ none
    behind h =
        unfold document_span in
        rw (outside_text document.text b h) (no_end (codepoint_line_column document.text (pos a)))
      where
        no_end : (o : Option (ℕ × ℕ)) → span_between document a b o none ≡ none
        no_end none = unfold span_between in refl
        no_end (some p) = unfold span_between in refl

    rejected : b < a → b ≤ length document.text → document_span document (pos a) (pos b) ≡ none
    rejected h hb = elim (dec_lt (length document.text) a) [
      | yes past ↦
          unfold document_span in unfold span_between in rw (outside_text document.text a past) refl
      | no inside ↦
          document_span-inside document a b (omega arith) hb ∙ made_span-crossed document a b h
    ]

    made :
        a ≤ b
        → b ≤ length document.text
        → document_span document (pos a) (pos b) ≡ some (made_span document a b)
    made h hb =
        document_span-inside document a b (omega arith) hb
        ∙ checked_span-valid (made_span document a b) (made_span-is_valid_span document a b h hb)

    accepted : b ≤ length document.text → is_program_span document (made_span document a b) ≡ true
    accepted h = unfold is_program_span in ground (arith, text_eq_refl document.source_id)
