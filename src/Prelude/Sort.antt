-- ===== src/Prelude/Sort.antt =====
-- Insertion sort by a strict comparison, for `list.sort` and `sorted` with a key. It gives what they
-- give if the comparison is a strict weak order on the elements, as without NaN; with NaN among the
-- keys both give a rearrangement, but not always the same one.
use limulus.Prelude.{
  ℕ, ◌+◌, ◌≡◌, refl, Bool, true, false, List, [], ◌∷◌, arith, if◌then◌else◌, all, ap, ◌&&◌, ◌∙◌,
  Bool-cases, inl, inr,
}
use mathlib.Core.List.{Perm}
use mathlib.Core.List.Perm

module _ {ℓ} {A : Type ℓ} where
  -- The elements of a test, in order.
  abbrev pub select : (A → Bool) → List A → List A
  select p [] = []
  select p (x ∷ xs) = if p x then x ∷ select p xs else select p xs

  -- The sum of the numbers of the elements.
  abbrev pub sum_of : (A → ℕ) → List A → ℕ
  sum_of f [] = 0
  sum_of f (x ∷ xs) = f x + sum_of f xs

  pub sum_of-same :
      (f g : A → ℕ) → ((x : A) → f x ≡ g x) → (xs : List A) → sum_of f xs ≡ sum_of g xs
  sum_of-same f g h [] = refl
  sum_of-same f g h (x ∷ xs) = omega (arith, h x, sum_of-same f g h xs)

module _ {ℓ} {A : Type ℓ} (lt : A → A → Bool) where
  unfoldable pub insert : A → List A → List A
  insert x [] = x ∷ []
  insert x (y ∷ ys) = if lt y x then y ∷ insert x ys else x ∷ y ∷ ys

  unfoldable pub sort_by : List A → List A
  unfolding insert
  sort_by [] = []
  sort_by (x ∷ xs) = insert x (sort_by xs)

  -- No element is below the one before it.
  abbrev pub IsSorted : List A → Type 0
  IsSorted [] = Unit
  IsSorted (x ∷ []) = Unit
  IsSorted (x ∷ y ∷ ys) = (lt y x ≡ false) × IsSorted (y ∷ ys)

  insert-perm : (x : A) (ys : List A) → Perm (insert x ys) (x ∷ ys)
  unfolding insert
  insert-perm x [] = Perm.rfl
  insert-perm x (y ∷ ys) = elim (Bool-cases (lt y x)) [
    | inl below ↦ rw below (Perm.trans (Perm.cons y (insert-perm x ys)) (Perm.swap x y ys))
    | inr above ↦ rw above Perm.rfl
  ]

  pub sort_by-perm : (xs : List A) → Perm (sort_by xs) xs
  unfolding sort_by
  sort_by-perm [] = Perm.rfl
  sort_by-perm (x ∷ xs) = Perm.trans (insert-perm x (sort_by xs)) (Perm.cons x (sort_by-perm xs))

  all-insert : (p : A → Bool) (x : A) (ys : List A) → all p (insert x ys) ≡ all p (x ∷ ys)
  unfolding insert
  all-insert p x [] = refl
  all-insert p x (y ∷ ys) = ground (arith, all-insert p x ys)

  pub all-sort_by : (p : A → Bool) (xs : List A) → all p (sort_by xs) ≡ all p xs
  unfolding sort_by
  all-sort_by p [] = refl
  all-sort_by p (x ∷ xs) = all-insert p x (sort_by xs) ∙ ap (λ b. p x && b) (all-sort_by p xs)

  sum_of-insert : (f : A → ℕ) (x : A) (ys : List A) → sum_of f (insert x ys) ≡ f x + sum_of f ys
  unfolding insert
  sum_of-insert f x [] = refl
  sum_of-insert f x (y ∷ ys) = ground (arith, sum_of-insert f x ys)

  pub sum_of-sort_by : (f : A → ℕ) (xs : List A) → sum_of f (sort_by xs) ≡ sum_of f xs
  unfolding sort_by
  sum_of-sort_by f [] = refl
  sum_of-sort_by f (x ∷ xs) = omega (arith, sum_of-insert f x (sort_by xs), sum_of-sort_by f xs)

  module _ (asymm : (x y : A) → lt x y ≡ true → lt y x ≡ false) where
    insert-IsSorted : (x : A) (ys : List A) → IsSorted ys → IsSorted (insert x ys)
    unfolding insert
    insert-IsSorted x [] h = tt
    insert-IsSorted x (y ∷ []) h = ground (arith, asymm y x)
    insert-IsSorted x (y ∷ z ∷ zs) h = elim (Bool-cases (lt y x)) [
      | inl below ↦ elim (Bool-cases (lt z x)) [
        | inl lower ↦
            rw (below, insert, lower) (h.0, rw (insert, lower) at (insert-IsSorted x (z ∷ zs) h.1))
        | inr upper ↦ rw (below, insert, upper) (asymm y x below, (upper, h.1))
      ]
      | inr above ↦ rw above (above, h)
    ]

    pub sort_by-IsSorted : (xs : List A) → IsSorted (sort_by xs)
    unfolding sort_by
    sort_by-IsSorted [] = tt
    sort_by-IsSorted (x ∷ xs) = insert-IsSorted x (sort_by xs) (sort_by-IsSorted xs)
