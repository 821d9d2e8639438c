-- ===== src/Prelude/Lists.antt =====
-- Lists measured and indexed by native numbers, under the library's names, with their laws.
use Prim.Native.Nat.{ℕ, zero, suc, ◌+◌, ◌<◌, ◌≤◌}
use mathlib.Core.Path.{◌≡◌, refl, ap}
use mathlib.Core.Logic.{◌≢◌}
use mathlib.Core.Bool.{Bool, true, false, ◌||◌, ◌&&◌}
use mathlib.Core.List.{List, [], ◌∷◌, ◌++◌, map}
use mathlib.Core.Option.{Option, none, some}
use native.Mathlib.Omega.{arith}

module _ {ℓ} {A : Type ℓ} where
  abbrev pub length : List A → ℕ
  length [] = 0
  length (x ∷ xs) = suc (length xs)

  abbrev pub get_elem? : List A → ℕ → Option A
  get_elem? [] i = none
  get_elem? (x ∷ xs) zero = some x
  get_elem? (x ∷ xs) (suc i) = get_elem? xs i

  -- A write out of bounds changes nothing.
  abbrev pub set : List A → ℕ → A → List A
  set [] i v = []
  set (x ∷ xs) zero v = v ∷ xs
  set (x ∷ xs) (suc i) v = x ∷ set xs i v

  -- A change in place; out of bounds there is none.
  abbrev pub modify : List A → ℕ → (A → A) → List A
  modify [] i f = []
  modify (x ∷ xs) zero f = f x ∷ xs
  modify (x ∷ xs) (suc i) f = x ∷ modify xs i f

  -- Python's `any` and `all` over a generator.
  abbrev pub any : (A → Bool) → List A → Bool
  any p [] = false
  any p (x ∷ xs) = p x || any p xs

  abbrev pub all : (A → Bool) → List A → Bool
  all p [] = true
  all p (x ∷ xs) = p x && all p xs

  -- A predicate on every member, as nested pairs.
  abbrev pub All {κ} : (A → Type κ) → List A → Type κ
  All P [] = Unit
  All P (x ∷ xs) = P x × All P xs

  pub length-append : (xs ys : List A) → length (xs ++ ys) ≡ length xs + length ys
  length-append [] ys = omega arith
  length-append (x ∷ xs) ys = omega (arith, length-append xs ys)

  pub length-set : (xs : List A) (i : ℕ) (v : A) → length (set xs i v) ≡ length xs
  length-set [] i v = refl
  length-set (x ∷ xs) zero v = refl
  length-set (x ∷ xs) (suc i) v = ap suc (length-set xs i v)

  pub get_elem?-set_self :
      (xs : List A) (i : ℕ) (v : A) → i < length xs → get_elem? (set xs i v) i ≡ some v
  get_elem?-set_self [] i v h = elim h [ ]
  get_elem?-set_self (x ∷ xs) zero v h = refl
  get_elem?-set_self (x ∷ xs) (suc i) v h = get_elem?-set_self xs i v (omega arith)

  pub get_elem?-set_ne :
      (xs : List A) (i j : ℕ) (v : A) → i ≢ j → get_elem? (set xs i v) j ≡ get_elem? xs j
  get_elem?-set_ne [] i j v h = refl
  get_elem?-set_ne (x ∷ xs) zero zero v h = absurd (h refl)
  get_elem?-set_ne (x ∷ xs) zero (suc j) v h = refl
  get_elem?-set_ne (x ∷ xs) (suc i) zero v h = refl
  get_elem?-set_ne (x ∷ xs) (suc i) (suc j) v h = get_elem?-set_ne xs i j v (λ e. h (ap suc e))

  pub get_elem?-some_of_lt :
      (xs : List A) (i : ℕ) → i < length xs → (a : A) × (get_elem? xs i ≡ some a)
  get_elem?-some_of_lt [] i h = elim h [ ]
  get_elem?-some_of_lt (x ∷ xs) zero h = (x, refl)
  get_elem?-some_of_lt (x ∷ xs) (suc i) h = get_elem?-some_of_lt xs i (omega arith)

  pub get_elem?-none_of_le : (xs : List A) (i : ℕ) → length xs ≤ i → get_elem? xs i ≡ none
  get_elem?-none_of_le [] i h = refl
  get_elem?-none_of_le (x ∷ xs) zero h = absurd (omega arith)
  get_elem?-none_of_le (x ∷ xs) (suc i) h = get_elem?-none_of_le xs i (omega arith)

module _ {ℓ κ} {A : Type ℓ} {B : Type κ} (f : A → B) where
  pub length-map : (xs : List A) → length (map f xs) ≡ length xs
  length-map [] = refl
  length-map (x ∷ xs) = ap suc (length-map xs)

  pub get_elem?-map :
      (xs : List A) (i : ℕ) {x : A} → get_elem? xs i ≡ some x → get_elem? (map f xs) i ≡ some (f x)
  get_elem?-map [] i h = cc
  get_elem?-map (x ∷ xs) zero h = cc
  get_elem?-map (x ∷ xs) (suc i) h = get_elem?-map xs i h

  pub get_elem?-map-none :
      (xs : List A) (i : ℕ) → get_elem? xs i ≡ none → get_elem? (map f xs) i ≡ none
  get_elem?-map-none [] i h = refl
  get_elem?-map-none (x ∷ xs) zero h = cc
  get_elem?-map-none (x ∷ xs) (suc i) h = get_elem?-map-none xs i h

  -- A change that a view does not see.
  pub map-modify :
      (xs : List A) (i : ℕ) (g : A → A)
      → ((x : A) → f (g x) ≡ f x)
      → map f (modify xs i g) ≡ map f xs
  map-modify [] i g h = refl
  map-modify (x ∷ xs) zero g h = rw (h x)
  map-modify (x ∷ xs) (suc i) g h = ap (◌∷◌ (f x)) (map-modify xs i g h)

  pub get_elem?-map-modify_ne :
      (xs : List A) (i j : ℕ) (g : A → A)
      → i ≢ j
      → get_elem? (map f (modify xs i g)) j ≡ get_elem? (map f xs) j
  get_elem?-map-modify_ne [] i j g h = refl
  get_elem?-map-modify_ne (x ∷ xs) zero zero g h = absurd (h refl)
  get_elem?-map-modify_ne (x ∷ xs) zero (suc j) g h = refl
  get_elem?-map-modify_ne (x ∷ xs) (suc i) zero g h = refl
  get_elem?-map-modify_ne (x ∷ xs) (suc i) (suc j) g h =
      get_elem?-map-modify_ne xs i j g (λ e. h (ap suc e))

  pub get_elem?-map-modify_self :
      (xs : List A) (i : ℕ) (g : A → A) {b : B}
      → i < length xs
      → ((x : A) → f (g x) ≡ b)
      → get_elem? (map f (modify xs i g)) i ≡ some b
  get_elem?-map-modify_self [] i g l h = absurd (omega arith)
  get_elem?-map-modify_self (x ∷ xs) zero g l h = rw (h x)
  get_elem?-map-modify_self (x ∷ xs) (suc i) g l h =
      get_elem?-map-modify_self xs i g (omega arith) h

module _ {ℓ} {A : Type ℓ} where
  pub length-modify : (xs : List A) (i : ℕ) (g : A → A) → length (modify xs i g) ≡ length xs
  length-modify [] i g = refl
  length-modify (x ∷ xs) zero g = refl
  length-modify (x ∷ xs) (suc i) g = ap suc (length-modify xs i g)
