-- ===== src/Validation/Targets/Laws.antt =====
-- The registered output targets have different keys, and what the check for duplicates lets through.
use limulus.Prelude.{
  ◌≡◌, refl, ◌∙◌, Bool, true, false, not, ◌&&◌, ◌||◌, List, [], ◌∷◌, ◌++◌, map, Option, none, some,
  arith, if◌then◌else◌, all, Bool-cases, inl, inr, ◌⊎◌, ◌↔◌, and_right,
}
use mathlib.Core.List.{map-append}
use limulus.Text.{Text, text_eq, text_eq_iff, text_eq_refl}
use limulus.Naming.{dataset_key}
use limulus.Catalog.{normalize_dataset_name}
use limulus.Syntax.Source.{SourceDocument}
use limulus.Syntax.Options.{DatasetReference}
use limulus.Syntax.Statement.{Statement}
use limulus.Validation.{mem, ValidationDiagnostic}
use limulus.Validation.Targets.{
  merge_group, merge_unique_targets, duplicate_reference, duplicate_diagnostic, data_outputs,
  duplicate_diagnostics, is_empty,
}

-- No text stands twice.
abbrev pub is_distinct : List Text → Bool
is_distinct [] = true
is_distinct (n ∷ names) = not (mem n names) && is_distinct names

abbrev pub keys_of : List Text → List Text
keys_of = map dataset_key

-- Every name of a group has its key among the keys, unless it is empty.
abbrev pub covers : List Text → List Text → Bool
covers keys group =
    all
      (λ n.
        is_empty (normalize_dataset_name n) || mem (dataset_key (normalize_dataset_name n)) keys)
      group

mem-append : (n : Text) (xs ys : List Text) → mem n (xs ++ ys) ≡ (mem n xs || mem n ys)
mem-append n [] ys = refl
mem-append n (x ∷ xs) ys = ground (arith, mem-append n xs ys)

is_distinct-concat :
    (xs : List Text) (n : Text)
    → is_distinct xs ≡ true
    → mem n xs ≡ false
    → is_distinct (xs ++ n ∷ []) ≡ true
is_distinct-concat [] n h g = refl
is_distinct-concat (x ∷ xs) n h g =
    ground
      (arith, is_distinct-concat xs n, mem-append x xs (n ∷ []), text_eq_iff x n, text_eq_iff n x)

-- The names merged so far, whose keys are the seen ones.
record Merging (merged seen : List Text) : Type 0 where
  apart : is_distinct (keys_of merged) ≡ true
  same : (n : Text) → mem n (keys_of merged) ≡ mem n seen

grow :
    (b : Bool) (name : Text) (merged seen : List Text)
    → Merging merged seen
    → (b ≡ false → mem (dataset_key name) seen ≡ false)
    → Merging
        (if b then merged else merged ++ name ∷ [])
        (if b then seen else dataset_key name ∷ seen)
grow true name merged seen m h = m
grow false name merged seen m h =
    let keys : keys_of (merged ++ name ∷ []) ≡ keys_of merged ++ dataset_key name ∷ [] =
      map-append dataset_key merged (name ∷ []) in
    record {
      apart = rw keys (
          is_distinct-concat (keys_of merged) (dataset_key name) m.apart
            (m.same (dataset_key name) ∙ h refl));
      same = λ n. rw keys (
          mem-append n (keys_of merged) (dataset_key name ∷ [])
          ∙ swap (mem n (keys_of merged)) (mem n seen) (text_eq n (dataset_key name)) (m.same n));
    }
  where
    swap : (a b c : Bool) → a ≡ b → (a || (c || false)) ≡ (c || b)
    swap a b c e = ground arith

abbrev skips : List Text → Text → Bool
skips seen target =
    is_empty (normalize_dataset_name target)
    || mem (dataset_key (normalize_dataset_name target)) seen

skips-false :
    (seen : List Text) (target : Text)
    → skips seen target ≡ false
    → mem (dataset_key (normalize_dataset_name target)) seen ≡ false
skips-false seen target h = ground arith

merge_group-Merging :
    (group merged seen : List Text)
    → Merging merged seen
    → Merging (merge_group group merged seen).0 (merge_group group merged seen).1
unfolding merge_group
merge_group-Merging [] merged seen m = m
merge_group-Merging (target ∷ group) merged seen m = merge_group-Merging group _ _ (
    grow (skips seen target) (normalize_dataset_name target) merged seen m
      (skips-false seen target))

-- What was seen stays seen.
merge_group-grows :
    (group merged seen : List Text) (n : Text)
    → mem n seen ≡ true
    → mem n (merge_group group merged seen).1 ≡ true
unfolding merge_group
merge_group-grows [] merged seen n h = h
merge_group-grows (target ∷ group) merged seen n h =
    merge_group-grows group _ _ n (kept (skips seen target))
  where
    kept :
        (b : Bool)
        → mem n (if b then seen else dataset_key (normalize_dataset_name target) ∷ seen) ≡ true
    kept true = h
    kept false = ground arith

noted :
    (name : Text) (seen : List Text)
    → is_empty name ≡ false
    → mem
        (dataset_key name)
        (if is_empty name || mem (dataset_key name) seen then seen else dataset_key name ∷ seen)
      ≡ true
noted name seen h = elim (Bool-cases (mem (dataset_key name) seen)) [
  | inl there ↦ rw (h, there) there
  | inr new ↦ rw (h, new) (ground (arith, text_eq_refl (dataset_key name)))
]

both : (a b : Bool) → a ≡ true → b ≡ true → (a && b) ≡ true
both a b h g = ground arith

merge_group-covers :
    (group merged seen : List Text) → covers (merge_group group merged seen).1 group ≡ true
unfolding merge_group
merge_group-covers [] merged seen = refl
merge_group-covers (target ∷ group) merged seen =
    both _ _ (head (Bool-cases (is_empty (normalize_dataset_name target))))
      (merge_group-covers group _ _)
  where
    result : List Text
    result = (merge_group (target ∷ group) merged seen).1

    head :
        (is_empty (normalize_dataset_name target) ≡ true)
          ⊎ (is_empty (normalize_dataset_name target) ≡ false)
        → (is_empty (normalize_dataset_name target)
            || mem (dataset_key (normalize_dataset_name target)) result)
          ≡ true
    head (inl empty) = rw empty refl
    head (inr given) =
        let there : mem (dataset_key (normalize_dataset_name target)) result ≡ true =
          merge_group-grows group _ _ (dataset_key (normalize_dataset_name target))
            (noted (normalize_dataset_name target) seen given) in
        ground arith

covers_mono :
    (xs ys group : List Text)
    → ((n : Text) → mem n xs ≡ true → mem n ys ≡ true)
    → covers xs group ≡ true
    → covers ys group ≡ true
covers_mono xs ys [] h g = refl
covers_mono xs ys (n ∷ group) h g =
    ground (arith, covers_mono xs ys group h, h (dataset_key (normalize_dataset_name n)))

-- The output targets that are registered have different keys, and every name of the two groups that
-- is not empty has the key of one of them.
pub merge_unique_targets-is_distinct :
    (first second : List Text)
    → let targets = merge_unique_targets first second in
      (is_distinct (keys_of targets) ≡ true)
      × (covers (keys_of targets) first ≡ true)
      × (covers (keys_of targets) second ≡ true)
unfolding merge_unique_targets
merge_unique_targets-is_distinct first second =
    let one = merge_group first [] [] in
    let two = merge_group second one.0 one.1 in
    let m : Merging two.0 two.1 =
      merge_group-Merging second one.0 one.1
        (merge_group-Merging first [] [] (record { apart = refl; same = λ n. refl })) in
    let into : (n : Text) → mem n two.1 ≡ true → mem n (keys_of two.0) ≡ true =
      λ n h. m.same n ∙ h in
    (
      m.apart,
      covers_mono one.1 (keys_of two.0) first
          (λ n h. into n (merge_group-grows second one.0 one.1 n h))
          (merge_group-covers first [] []),
      covers_mono two.1 (keys_of two.0) second into (merge_group-covers second one.0 one.1),
    )

abbrev unseen : List Text → List Text → Bool
unseen seen keys = all (λ k. not (mem k seen)) keys

unseen-cons :
    (k : Text) (seen keys : List Text)
    → unseen (k ∷ seen) keys ≡ (not (mem k keys) && unseen seen keys)
unseen-cons k seen [] = refl
unseen-cons k seen (j ∷ keys) =
    ground (arith, unseen-cons k seen keys, text_eq_iff j k, text_eq_iff k j)

unseen-nil : (keys : List Text) → unseen [] keys ≡ true
unseen-nil [] = refl
unseen-nil (k ∷ keys) = unseen-nil keys

module _ {F : Type 0} where
  abbrev reference_keys : List (DatasetReference F) → List Text
  reference_keys = map (λ r. dataset_key r.name)

  -- The DATA statement, if it is one, does not name two references of one key.
  abbrev pub has_distinct_outputs : Option (List (DatasetReference F)) → Bool
  has_distinct_outputs none = true
  has_distinct_outputs (some outputs) = is_distinct (reference_keys outputs)

  abbrev pub no_duplicates : List (Statement F) → Bool
  no_duplicates = all (λ s. has_distinct_outputs (data_outputs s))

  duplicate_reference-none :
      (seen : List Text) (references : List (DatasetReference F))
      → (duplicate_reference seen references ≡ none) ↔ (
          (unseen seen (reference_keys references) && is_distinct (reference_keys references))
          ≡ true)
  unfolding duplicate_reference
  duplicate_reference-none seen [] = (λ h. refl, λ h. refl)
  duplicate_reference-none seen (r ∷ references) =
      let ih = duplicate_reference-none (dataset_key r.name ∷ seen) references in
      let split = unseen-cons (dataset_key r.name) seen (reference_keys references) in
      (λ h. ground (arith, ih.0, split), λ h. ground (arith, ih.1, split))

  abbrev pub Reported : SourceDocument → List (Statement F) → Type 0
  Reported source statements =
      (no_duplicates statements ≡ true) × (duplicate_diagnostics source statements ≡ [])
      ⊎ (no_duplicates statements ≡ false)
        × ((d : ValidationDiagnostic) × (duplicate_diagnostics source statements ≡ d ∷ []))

  Reported-cons :
      (source : SourceDocument) (s : Statement F) (statements : List (Statement F))
      → Reported source statements
      → Reported source (s ∷ statements)
  unfolding duplicate_diagnostics
  Reported-cons source s statements rest = go (data_outputs s) refl
    where
      repeated :
          (outputs : List (DatasetReference F))
          → data_outputs s ≡ some outputs
          → (o : Option (DatasetReference F)) → duplicate_reference [] outputs ≡ o
          → Reported source (s ∷ statements)
      repeated outputs e none f =
          let clean : is_distinct (reference_keys outputs) ≡ true =
            and_right (unseen [] (reference_keys outputs)) (is_distinct (reference_keys outputs))
              ((duplicate_reference-none [] outputs).0 f) in
          rw (duplicate_diagnostics, e, f, clean) rest
      repeated outputs e (some r) f = elim (Bool-cases (is_distinct (reference_keys outputs))) [
        | inr bad ↦
            rw (duplicate_diagnostics, e, f, bad)
              (inr (refl, (duplicate_diagnostic source r, refl)))
        | inl clean ↦
            let nothing : duplicate_reference [] outputs ≡ none =
              (duplicate_reference-none [] outputs).1
                (both _ _ (unseen-nil (reference_keys outputs)) clean) in
            absurd (ground arith)
      ]

      go :
          (o : Option (List (DatasetReference F)))
          → data_outputs s ≡ o
          → Reported source (s ∷ statements)
      go none e = rw (duplicate_diagnostics, e) rest
      go (some outputs) e = repeated outputs e (duplicate_reference [] outputs) refl

  -- Nothing is reported for duplicates exactly when no DATA statement names two references of one key,
  -- and otherwise one diagnostic is.
  pub duplicate_diagnostics-no_duplicates :
      (source : SourceDocument) (statements : List (Statement F)) → Reported source statements
  unfolding duplicate_diagnostics
  duplicate_diagnostics-no_duplicates source [] = inl (refl, refl)
  duplicate_diagnostics-no_duplicates source (s ∷ statements) =
      Reported-cons source s statements (duplicate_diagnostics-no_duplicates source statements)
