-- ===== src/Naming.antt =====
-- limulus/naming.py: the keys under which column and data set names are compared.
use limulus.Prelude.{◌≡◌, refl, [], ◌∷◌, if◌then◌else◌}
use limulus.Text.{Text, codes, strip, upper, starts_with}

unfoldable pub column_key : Text → Text
unfolding strip upper
column_key name = upper (strip name)

-- `normalized[5:]`
abbrev drop_work : Text → Text
drop_work (_ ∷ _ ∷ _ ∷ _ ∷ _ ∷ rest) = rest
drop_work _ = []

unfoldable pub dataset_key : Text → Text
unfolding strip upper starts_with
dataset_key name =
    let normalized = upper (strip name) in
    if starts_with normalized (codes "WORK.") then drop_work normalized else normalized

dataset_key-work : dataset_key (codes " work.Sales ") ≡ codes "SALES"
unfolding dataset_key
dataset_key-work = refl
