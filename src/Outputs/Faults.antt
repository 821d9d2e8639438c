-- ===== src/Outputs/Faults.antt =====
-- What the absence of faults in a plan of output targets says.
use limulus.Prelude.{
  ◌≡◌, refl, ap, Bool, true, false, not, ◌&&◌, ◌||◌, List, [], ◌∷◌, ◌++◌, map, Option, none, some,
  arith, if◌then◌else◌, all,
}
use limulus.Text.{Text}
use limulus.Dict.{get?}
use limulus.Naming.{dataset_key}
use limulus.Syntax.Source.{SourceDocument}
use limulus.Syntax.Options.{DatasetOption, DatasetReference}
use limulus.Syntax.Statement.{Block}
use limulus.Validation.{mem}
use limulus.Outputs.Options.{has_nonempty_option, is_given}
use limulus.Outputs.{
  Resolving, fault, compare_options, resolve_reference, resolve_references, set_default_options,
  output_references, plan_typed_output_targets,
}

abbrev is_nil : {A : Type 0} → List A → Bool
is_nil [] = true
is_nil (x ∷ xs) = false

is_nil-concat : {A : Type 0} (xs : List A) (x : A) → is_nil (xs ++ x ∷ []) ≡ false
is_nil-concat [] x = refl
is_nil-concat (y ∷ xs) x = refl

-- Reading a fact of one of two states.
chosen-fact :
    {S : Type 0} (get : S → Bool) (st changed : S) (m h : Bool)
    → get (if not m then st else (if h then changed else st)) ≡ true
    → (get changed ≡ true → get st ≡ true)
    → (get st && (not m || true)) ≡ true
chosen-fact get st changed true true h c = ground (arith, c h, h)
chosen-fact get st changed true false h c = ground (arith, h)
chosen-fact get st changed false g h c = ground (arith, h)

unchanged-fact :
    {S : Type 0} (get : S → Bool) (st changed : S) (m : Bool)
    → get (if not m then st else changed) ≡ true
    → get changed ≡ false
    → (get st && (not m || false)) ≡ true
unchanged-fact get st changed true h c = ground (arith, h, c)
unchanged-fact get st changed false h c = ground (arith, h)

and_chain :
    (n next a rest : Bool)
    → (next && rest) ≡ true
    → (next ≡ true → (n && a) ≡ true)
    → (n && (a && rest)) ≡ true
and_chain n false a rest h f = ground (arith, h)
and_chain n true a rest h f = ground (arith, h, f refl)

-- A registered target without IN.
abbrev pub is_allowed : {F : Type 0} → List Text → DatasetReference F → Bool
is_allowed registered r =
    not (mem (dataset_key r.name) registered) || not (is_given r.options.in_var)

module _ {F : Type 0} (same : F → F → Bool) (source : SourceDocument) (registered : List Text) where
  compare_options-faults :
      (st : Resolving F) (r : DatasetReference F) (o : Option (DatasetOption F))
      → is_nil (compare_options same source registered st r o).faults ≡ true
      → is_nil st.faults ≡ true
  unfolding compare_options fault
  compare_options-faults st r none h = h
  compare_options-faults st r (some previous) h = ground (arith, is_nil-concat st.faults, h)

  resolve_reference-faults :
      (st : Resolving F) (r : DatasetReference F) (o : Option Text)
      → is_nil (resolve_reference same source registered st r o).faults ≡ true
      → (is_nil st.faults && (not (mem (dataset_key r.name) registered) || not (is_given o))) ≡ true
  unfolding resolve_reference fault
  resolve_reference-faults st r none h =
      chosen-fact (λ s. is_nil s.faults) st
        (compare_options same source registered st r (get? st.first_nonempty (dataset_key r.name)))
        (mem (dataset_key r.name) registered) (has_nonempty_option r.options) h
        (compare_options-faults st r (get? st.first_nonempty (dataset_key r.name)))
  resolve_reference-faults st r (some name) h =
      unchanged-fact (λ s. is_nil s.faults) st _ (mem (dataset_key r.name) registered) h
        (is_nil-concat st.faults _)

  resolve_references-faults :
      (st : Resolving F) (references : List (DatasetReference F))
      → is_nil (resolve_references same source registered st references).faults ≡ true
      → (is_nil st.faults && all (is_allowed registered) references) ≡ true
  unfolding resolve_references
  resolve_references-faults st [] h = ground (arith, h)
  resolve_references-faults st (r ∷ references) h =
      and_chain (is_nil st.faults)
        (is_nil (resolve_reference same source registered st r r.options.in_var).faults)
        (is_allowed registered r) (all (is_allowed registered) references)
        (resolve_references-faults (resolve_reference same source registered st r r.options.in_var)
          references h)
        (resolve_reference-faults st r r.options.in_var)

-- If a plan has no faults, no reference to one of its targets has an IN option.
pub plan_typed_output_targets-is_allowed :
    {F : Type 0} (same : F → F → Bool) (block : Block F) (source : SourceDocument)
    (targets : List Text) (normalize_target : Text → Text)
    → (plan_typed_output_targets same block source targets normalize_target).diagnostics ≡ []
    → all (is_allowed (map dataset_key (map normalize_target targets))) (output_references block)
      ≡ true
unfolding plan_typed_output_targets
plan_typed_output_targets-is_allowed {F} same block source targets normalize_target h =
    resolve_references-faults same source (map dataset_key (map normalize_target targets))
      (record {
        options_by_target = set_default_options [] (map normalize_target targets);
        first_nonempty = [];
        faults = [];
      })
      (output_references block) (ap is_nil h)
