-- ===== src/Prelude/Perm.antt =====
-- Permutations keep the length in native numbers.
use Prim.Native.Nat.{suc}
use mathlib.Core.Path.{◌≡◌, refl, ap, sym, ◌∙◌}
use mathlib.Core.List
use mathlib.Core.List.{List, [], ◌∷◌, Perm}
use mathlib.Core.List.Perm
use native.Mathlib.Bridge.{from_ℕ}
use limulus.Prelude.{length}

module _ {ℓ} {A : Type ℓ} where
  length-from_ℕ : (xs : List A) → length xs ≡ from_ℕ (List.length xs)
  length-from_ℕ [] = refl
  length-from_ℕ (x ∷ xs) = ap suc (length-from_ℕ xs)

  pub perm_length : {xs ys : List A} → Perm xs ys → length xs ≡ length ys
  perm_length {xs} {ys} p = length-from_ℕ xs ∙ ap from_ℕ (Perm.length-eq p) ∙ sym (length-from_ℕ ys)
