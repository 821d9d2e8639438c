-- ===== src/Prelude/Stable.antt =====
-- When the order makes a sorted list unique: a strict weak order on the elements, and elements of
-- which none is below the other in the order that they had.
use limulus.Prelude.{
  ◌≡◌, refl, sym, ap, ◌∙◌, Bool, true, false, not, ◌&&◌, ◌||◌, List, [], ◌∷◌, arith, all,
  Bool-cases, inl, inr, and_left, and_right,
}
use mathlib.Core.List.{Perm, foldr}
use mathlib.Core.List.Perm
use mathlib.Core.Path.{ap₂}
use mathlib.Core.Bool.{Bool-set}
use limulus.Prelude.Sort.{select, insert, sort_by, IsSorted, sort_by-IsSorted, all-sort_by}

module _ {ℓ} {A : Type ℓ} where
  -- A predicate of every element.
  abbrev Each : (A → Type ℓ) → List A → Type ℓ
  Each P [] = Unit
  Each P (x ∷ xs) = P x × Each P xs

  Each-map : (P Q : A → Type ℓ) → ((x : A) → P x → Q x) → (xs : List A) → Each P xs → Each Q xs
  Each-map P Q f [] h = tt
  Each-map P Q f (x ∷ xs) h = (f x h.0, Each-map P Q f xs h.1)

  Each-both :
      (P Q R : A → Type ℓ)
      → ((x : A) → P x → Q x → R x)
      → (xs : List A) → Each P xs
      → Each Q xs
      → Each R xs
  Each-both P Q R f [] h g = tt
  Each-both P Q R f (x ∷ xs) h g = (f x h.0 g.0, Each-both P Q R f xs h.1 g.1)

  all-foldr : (p : A → Bool) (xs : List A) → all p xs ≡ foldr (λ x b. p x && b) true xs
  all-foldr p [] = refl
  all-foldr p (x ∷ xs) = ap (λ b. p x && b) (all-foldr p xs)

  all-select : (p q : A → Bool) (xs : List A) → all q xs ≡ true → all q (select p xs) ≡ true
  all-select p q [] h = refl
  all-select p q (x ∷ xs) h = ground (arith, h, all-select p q xs)

module _ {ℓ} {A : Type ℓ} (lt : A → A → Bool) where
  -- Neither is below the other.
  abbrev tied : A → A → Bool
  tied a b = not (lt a b) && not (lt b a)

  -- Among the elements, `a` is not below `c` if it is not below `b` and `b` is not below `c`.
  abbrev pub is_weak_order : List A → Bool
  is_weak_order xs = all (λ a. all (λ b. all (λ c. lt a b || (lt b c || not (lt a c))) xs) xs) xs

  -- For each element the two lists have the elements tied with it in the same order.
  abbrev pub KeepsTies : List A → List A → Type ℓ
  KeepsTies xs ys =
      Each (λ a. select (tied a) xs ≡ select (tied a) ys) xs
      × Each (λ a. select (tied a) xs ≡ select (tied a) ys) ys

  module _ (asymm : (x y : A) → lt x y ≡ true → lt y x ≡ false) (items : List A)
      (weak : is_weak_order items ≡ true) where
    -- Every test that the items pass, it passes.
    abbrev OneOf : A → Type ℓ
    OneOf x = (p : A → Bool) → all p items ≡ true → p x ≡ true

    abbrev Within : List A → Type ℓ
    Within xs = (p : A → Bool) → all p items ≡ true → all p xs ≡ true

    not_below_trans :
        (a b c : A) → OneOf a → OneOf b → OneOf c → lt a b ≡ false → lt b c ≡ false → lt a c ≡ false
    not_below_trans a b c oa ob oc h g =
        let at_c : (lt a b || (lt b c || not (lt a c))) ≡ true =
          oc (λ z. lt a b || (lt b z || not (lt a z)))
            (ob (λ y. all (λ z. lt a y || (lt y z || not (lt a z))) items)
              (oa (λ x. all (λ y. all (λ z. lt x y || (lt y z || not (lt x z))) items) items)
                weak)) in
        ground (arith, at_c, h, g)

    irrefl : (x : A) → lt x x ≡ false
    irrefl x = ground (arith, asymm x x)

    none_below :
        (y z : A) (ws : List A)
        → OneOf y
        → OneOf z
        → Within ws
        → lt z y ≡ false
        → all (λ w. not (lt w z)) ws ≡ true
        → all (λ w. not (lt w y)) ws ≡ true
    none_below y z [] oy oz w h g = refl
    none_below y z (v ∷ ws) oy oz w h g =
        let first : lt v y ≡ false =
          not_below_trans v z y (λ p hp. and_left _ _ (w p hp)) oz oy (ground (arith, g)) h in
        let rest = none_below y z ws oy oz (λ p hp. and_right _ _ (w p hp)) h (ground (arith, g)) in
        ground (arith, first, rest)

    -- No element of a sorted list is below its head.
    head_least :
        (y : A) (ys : List A)
        → Within (y ∷ ys)
        → IsSorted lt (y ∷ ys)
        → all (λ z. not (lt z y)) (y ∷ ys) ≡ true
    head_least y [] w s = ground (arith, irrefl y)
    head_least y (z ∷ zs) w s =
        let rest =
          none_below y z (z ∷ zs) (λ p hp. and_left _ _ (w p hp))
            (λ p hp. and_left _ _ (and_right _ _ (w p hp))) (λ p hp. and_right _ _ (w p hp)) s.0
            (head_least z zs (λ p hp. and_right _ _ (w p hp)) s.1) in
        ground (arith, irrefl y, rest)

    select_self : (y : A) (ys : List A) → select (tied y) (y ∷ ys) ≡ y ∷ select (tied y) ys
    select_self y ys = rw (irrefl y) refl

    -- The head of a sorted list is not above an element whose ties the list has.
    head_not_above :
        (x y : A) (xs ys : List A)
        → Within (x ∷ xs)
        → IsSorted lt (x ∷ xs)
        → select (tied y) (x ∷ xs) ≡ select (tied y) (y ∷ ys)
        → lt y x ≡ false
    head_not_above x y xs ys w s e =
        let found = all-select (tied y) (λ z. not (lt z x)) (x ∷ xs) (head_least x xs w s) in
        let moved : all (λ z. not (lt z x)) (y ∷ select (tied y) ys) ≡ true =
          ap (all (λ z. not (lt z x))) (sym (e ∙ select_self y ys)) ∙ found in
        ground (arith, moved)

    tail_ties :
        (x y a : A) (xs ys : List A)
        → x ≡ y
        → select (tied a) (x ∷ xs) ≡ select (tied a) (y ∷ ys)
        → select (tied a) xs ≡ select (tied a) ys
    tail_ties x y a xs ys e h = elim (Bool-cases (tied a x)) [
      | inl same ↦ let same_y : tied a y ≡ true = rw e at same in ground (arith, same, same_y, h)
      | inr other ↦
          let other_y : tied a y ≡ false = rw e at other in ground (arith, other, other_y, h)
    ]

    tail-IsSorted : (x : A) (xs : List A) → IsSorted lt (x ∷ xs) → IsSorted lt xs
    tail-IsSorted x [] s = tt
    tail-IsSorted x (y ∷ ys) s = s.1

    sorted_unique :
        (xs ys : List A)
        → Within xs
        → Within ys
        → IsSorted lt xs
        → IsSorted lt ys
        → Each (λ a. select (tied a) xs ≡ select (tied a) ys) xs
        → Each (λ a. select (tied a) xs ≡ select (tied a) ys) ys
        → xs ≡ ys
    sorted_unique [] [] wx wy sx sy tx ty = refl
    sorted_unique [] (y ∷ ys) wx wy sx sy tx ty =
        let e : [] ≡ y ∷ select (tied y) ys = ty.0 ∙ select_self y ys in absurd (ground (arith, e))
    sorted_unique (x ∷ xs) [] wx wy sx sy tx ty =
        let e : x ∷ select (tied x) xs ≡ [] = sym (select_self x xs) ∙ tx.0 in
        absurd (ground (arith, e))
    sorted_unique (x ∷ xs) (y ∷ ys) wx wy sx sy tx ty =
        let y_not_below = head_not_above x y xs ys wx sx ty.0 in
        let x_not_below = head_not_above y x ys xs wy sy (sym tx.0) in
        let both : tied x y ≡ true = ground (arith, y_not_below, x_not_below) in
        let heads : x ∷ select (tied x) xs ≡ y ∷ select (tied x) ys =
          sym (select_self x xs) ∙ tx.0 ∙ rw both refl in
        let e : x ≡ y = ground (arith, heads) in
        ap₂ ◌∷◌ e (
          sorted_unique xs ys (λ p hp. and_right _ _ (wx p hp)) (λ p hp. and_right _ _ (wy p hp))
            (tail-IsSorted x xs sx) (tail-IsSorted y ys sy)
            (Each-map _ _ (λ a. tail_ties x y a xs ys e) xs tx.1)
            (Each-map _ _ (λ a. tail_ties x y a xs ys e) ys ty.1))

    all-perm : (p : A → Bool) (xs ys : List A) → Perm xs ys → all p xs ≡ all p ys
    all-perm p xs ys h =
        all-foldr p xs
        ∙ Perm.foldr-eq Bool-set (λ x b. p x && b) (λ a b c. ground arith) h true
        ∙ sym (all-foldr p ys)

    -- What holds of each element holds of each of the sorted list.
    Each-insert : (P : A → Type ℓ) (x : A) (ys : List A) → P x → Each P ys → Each P (insert lt x ys)
    unfolding insert
    Each-insert P x [] h g = (h, tt)
    Each-insert P x (y ∷ ys) h g = elim (Bool-cases (lt y x)) [
      | inl below ↦ rw below (g.0, Each-insert P x ys h g.1)
      | inr above ↦ rw above (h, g)
    ]

    Each-sort_by : (P : A → Type ℓ) (xs : List A) → Each P xs → Each P (sort_by lt xs)
    unfolding sort_by
    Each-sort_by P [] h = tt
    Each-sort_by P (x ∷ xs) h = Each-insert P x (sort_by lt xs) h.0 (Each-sort_by P xs h.1)

    Each-OneOf : (xs : List A) → Within xs → Each OneOf xs
    Each-OneOf [] w = tt
    Each-OneOf (x ∷ xs) w =
        (λ p hp. and_left _ _ (w p hp), Each-OneOf xs (λ p hp. and_right _ _ (w p hp)))

    tied_trans :
        (a x y : A)
        → OneOf a
        → OneOf x
        → OneOf y
        → tied a x ≡ true
        → tied a y ≡ true
        → lt y x ≡ false
    tied_trans a x y oa ox oy h g =
        not_below_trans y a x oy oa ox (ground (arith, g)) (ground (arith, h))

    select-insert-tied :
        (a x : A) (ys : List A)
        → OneOf a
        → OneOf x
        → Within ys
        → select (tied a) (insert lt x ys) ≡ select (tied a) (x ∷ ys)
    unfolding insert
    select-insert-tied a x [] oa ox w = refl
    select-insert-tied a x (y ∷ ys) oa ox w =
        let rest = select-insert-tied a x ys oa ox (λ p hp. and_right _ _ (w p hp)) in
        let apart = tied_trans a x y oa ox (λ p hp. and_left _ _ (w p hp)) in
        ground (arith, rest, apart)

    select-sort_by-tied :
        (a : A) (xs : List A)
        → OneOf a
        → Within xs
        → select (tied a) (sort_by lt xs) ≡ select (tied a) xs
    unfolding sort_by
    select-sort_by-tied a [] oa w = refl
    select-sort_by-tied a (x ∷ xs) oa w =
        let within : Within xs = λ p hp. and_right _ _ (w p hp) in
        let rest = select-sort_by-tied a xs oa within in
        let step =
          select-insert-tied a x (sort_by lt xs) oa (λ p hp. and_left _ _ (w p hp))
            (λ p hp. all-sort_by lt p xs ∙ within p hp) in
        ground (arith, rest, step)

    -- A sorted rearrangement in which tied elements keep their order is what the sort returns.
    pub sort_by_unique :
        (out : List A)
        → Perm out items
        → IsSorted lt out
        → KeepsTies out items
        → out ≡ sort_by lt items
    sort_by_unique out h s t =
        let within : Within out = λ p hp. all-perm p out items h ∙ hp in
        let settle : (a : A)
            → select (tied a) out ≡ select (tied a) items
            → OneOf a
            → select (tied a) out ≡ select (tied a) (sort_by lt items) =
          λ a e oa. e ∙ sym (select-sort_by-tied a items oa (λ p hp. hp)) in
        sorted_unique out (sort_by lt items) within (λ p hp. all-sort_by lt p items ∙ hp) s
          (sort_by-IsSorted lt asymm items) (Each-both _ _ _ settle out t.0 (Each-OneOf out within))
          (Each-sort_by _ items (Each-both _ _ _ settle items t.1 (Each-OneOf items (λ p hp. hp))))

    -- Tied elements keep their order in the sort.
    pub sort_by-KeepsTies : KeepsTies (sort_by lt items) items
    sort_by-KeepsTies =
        let keeps : (a : A) → OneOf a → select (tied a) (sort_by lt items) ≡ select (tied a) items =
          λ a oa. select-sort_by-tied a items oa (λ p hp. hp) in
        let each = Each-map _ _ keeps items (Each-OneOf items (λ p hp. hp)) in
        (Each-sort_by _ items each, each)
