-- ===== src/Tests/Normalization.antt =====
-- Analysis texts of small programs, with the ASCII letters and digits for `str.isalnum`.
use limulus.Prelude.{ℕ, ◌≡◌, refl, Bool, [], ◌∷◌, ◌++◌, ◌&&◌, ◌||◌, map, some, leb}
use limulus.Text.{Text, codes}
use limulus.Syntax.Normalization.{tab, without_tab, initial_analysis_text}
use limulus.Syntax.Normalization.Laws.{Normalized, initial_analysis_text-Normalized}
use limulus.Syntax.Normalization.Plain.{initial_analysis_text-is_plain}

abbrev is_ascii_alnum : ℕ → Bool
is_ascii_alnum c = (leb 48 c && leb c 57) || ((leb 65 c && leb c 90) || (leb 97 c && leb c 122))

-- A tab in a quoted run, one in a comment, one in a macro, and one between tokens.
abbrev quoted : Text
quoted =
    codes "x='"
    ++ (tab ∷ codes "';*" ++ (tab ∷ codes ";%let" ++ (tab ∷ codes "a;" ++ (tab ∷ codes "y"))))

initial_analysis_text-Normalized_example :
    Normalized quoted (initial_analysis_text is_ascii_alnum quoted)
initial_analysis_text-Normalized_example = initial_analysis_text-Normalized is_ascii_alnum quoted

text_of_quoted :
    initial_analysis_text is_ascii_alnum quoted
    ≡ some (codes "x='" ++ (tab ∷ codes "';*" ++ (tab ∷ codes ";%let a; y")))
unfolding initial_analysis_text
text_of_quoted = refl

-- A procedure, an unclosed run that ends at the semicolon, and a `*` inside a statement.
abbrev mixed : Text
mixed =
    codes "proc"
    ++ (tab ∷ codes "x; run"
        ++ (tab ∷ codes ";a*" ++ (tab ∷ codes "b='" ++ (tab ∷ codes ";" ++ (tab ∷ [])))))

text_of_mixed :
    initial_analysis_text is_ascii_alnum mixed
    ≡ some (codes "proc x; run ;a* b='" ++ (tab ∷ codes "; "))
unfolding initial_analysis_text
text_of_mixed = refl

abbrev plain : Text
plain = codes "keep" ++ (tab ∷ codes "x /" ++ (tab ∷ codes "y;"))

initial_analysis_text-is_plain_example :
    initial_analysis_text is_ascii_alnum plain ≡ some (map without_tab plain)
initial_analysis_text-is_plain_example = initial_analysis_text-is_plain is_ascii_alnum plain refl
