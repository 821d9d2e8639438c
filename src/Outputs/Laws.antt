-- ===== src/Outputs/Laws.antt =====
-- The options that a plan keeps for each output target.
use limulus.Prelude.{
  ◌≡◌, refl, sym, ap, ◌∙◌, Bool, true, false, not, ◌&&◌, ◌||◌, List, [], ◌∷◌, map, Option, none,
  some, arith, if◌then◌else◌,
}
use limulus.Text.{Text, text_eq, text_eq_iff, text_eq→eq}
use limulus.Dict.{Dict, get?, set, contains, get?-set}
use limulus.Naming.{dataset_key}
use limulus.Syntax.Source.{SourceDocument}
use limulus.Syntax.Options.{DatasetOption, no_options, DatasetReference}
use limulus.Syntax.Statement.{Block}
use limulus.Validation.{mem}
use limulus.Outputs.Options.{has_nonempty_option, normalized_options, is_given}
use limulus.Outputs.{
  Resolving, compare_options, resolve_reference, resolve_references, set_default_options,
  output_references, plan_typed_output_targets, fault,
}

module _ {F : Type 0} where
  -- A reference to the target, with options and without IN.
  abbrev pub declares : Text → DatasetReference F → Option Text → Bool
  declares key reference in_var =
      text_eq (dataset_key reference.name) key
      && (not (is_given in_var) && has_nonempty_option reference.options)

  -- The options of the first such reference, none if there is no such reference.
  abbrev pub declared_options : Text → List (DatasetReference F) → Option (DatasetOption F)
  declared_options key [] = none
  declared_options key (reference ∷ references) =
      if declares key reference reference.options.in_var
      then some reference.options
      else declared_options key references

abbrev pub or_else : {A : Type 0} → Option A → Option A → Option A
or_else (some a) b = some a
or_else none b = b

-- One reference in front of others.
pick_step :
    {A N : Type 0} (m g d : Bool) (new : A) (normalized : N) (later old next : Option A)
    (first first' : Option N)
    → is_given first ≡ g
    → next ≡ (if m && (d && not g) then some new else old)
    → first' ≡ (if m && (d && not g) then some normalized else first)
    → (if m && not (is_given first') then or_else later next else next)
      ≡ (if m && not g then or_else (if d then some new else later) old else old)
pick_step m true d new normalized later old next first first' g e f = ground arith
pick_step false false d new normalized later old next first first' g e f = ground arith
pick_step true false true new normalized later old next first first' g e f = ground arith
pick_step true false false new normalized later old next first first' g e f = ground arith

-- Reading what one of two states holds.
read-chosen :
    {S A : Type 0} (get : S → Option A) (st changed : S) (new : A) (m m' e h g g' : Bool)
    → (e ≡ true → m ≡ m')
    → (e ≡ true → g ≡ g')
    → get changed ≡ (if e && not g then some new else get st)
    → get (if not m then st else (if h then changed else st))
      ≡ (if m' && ((e && (true && h)) && not g') then some new else get st)
read-chosen get st changed new false m' false h g g' sm sg c = ground arith
read-chosen get st changed new true m' false true g g' sm sg c = ground arith
read-chosen get st changed new true m' false false g g' sm sg c = ground arith
read-chosen get st changed new true true true true g g' sm sg c = ground arith
read-chosen get st changed new false true true h g g' sm sg c = ground arith
read-chosen get st changed new true false true h g g' sm sg c = ground arith
read-chosen get st changed new false false true h g g' sm sg c = ground arith
read-chosen get st changed new true true true false g g' sm sg c = ground arith

module _ {F : Type 0} (same : F → F → Bool) (source : SourceDocument) (registered : List Text) where
  -- What one reference does to the options of a key.
  compare_options-get? :
      (st : Resolving F) (r : DatasetReference F) (o : Option (DatasetOption F)) (key : Text)
      → (get? (compare_options same source registered st r o).options_by_target key ≡ (
          if text_eq (dataset_key r.name) key && not (is_given o)
          then some r.options
          else get? st.options_by_target key))
        × (get? (compare_options same source registered st r o).first_nonempty key ≡ (
            if text_eq (dataset_key r.name) key && not (is_given o)
            then some (normalized_options r.options)
            else get? st.first_nonempty key))
  unfolding compare_options fault
  compare_options-get? st r none key = (
    ground (arith, get?-set st.options_by_target (dataset_key r.name) key r.options),
    ground
        (arith, get?-set st.first_nonempty (dataset_key r.name) key (normalized_options r.options)),
  )
  compare_options-get? st r (some previous) key = (ground (arith), ground (arith))

  -- It counts when the key is registered and has no options yet.
  abbrev takes : Resolving F → Text → DatasetReference F → Option Text → Bool
  takes st key r o =
      mem key registered && (declares key r o && not (is_given (get? st.first_nonempty key)))

  resolve_reference-get? :
      (st : Resolving F) (r : DatasetReference F) (o : Option Text) (key : Text)
      → (get? (resolve_reference same source registered st r o).options_by_target key
          ≡ (if takes st key r o then some r.options else get? st.options_by_target key))
        × (get? (resolve_reference same source registered st r o).first_nonempty key ≡ (
            if takes st key r o
            then some (normalized_options r.options)
            else get? st.first_nonempty key))
  unfolding resolve_reference fault
  resolve_reference-get? st r none key =
      let c = compare_options-get? st r (get? st.first_nonempty (dataset_key r.name)) key in
      let changed =
        compare_options same source registered st r (get? st.first_nonempty (dataset_key r.name)) in
      let is_key = text_eq (dataset_key r.name) key in
      let same_member : is_key ≡ true → mem (dataset_key r.name) registered ≡ mem key registered =
        λ h. ap (λ k. mem k registered) (text_eq→eq (dataset_key r.name) key h) in
      let same_given : is_key ≡ true
          → is_given (get? st.first_nonempty (dataset_key r.name))
            ≡ is_given (get? st.first_nonempty key) =
        λ h.
          ap (λ k. is_given (get? st.first_nonempty k)) (text_eq→eq (dataset_key r.name) key h) in
      (
        read-chosen (λ s. get? s.options_by_target key) st changed r.options _ _ _
            (has_nonempty_option r.options) _ _ same_member same_given c.0,
        read-chosen (λ s. get? s.first_nonempty key) st changed (normalized_options r.options) _ _ _
            (has_nonempty_option r.options) _ _ same_member same_given c.1,
      )
  resolve_reference-get? st r (some name) key = (ground arith, ground arith)

  -- What the references do to the options of a key.
  resolve_references-get? :
      (st : Resolving F) (references : List (DatasetReference F)) (key : Text)
      → get? (resolve_references same source registered st references).options_by_target key ≡ (
          if mem key registered && not (is_given (get? st.first_nonempty key))
          then or_else (declared_options key references) (get? st.options_by_target key)
          else get? st.options_by_target key)
  unfolding resolve_references
  resolve_references-get? st [] key = ground arith
  resolve_references-get? st (r ∷ references) key =
      let next = resolve_reference same source registered st r r.options.in_var in
      let step = resolve_reference-get? st r r.options.in_var key in
      resolve_references-get? next references key
      ∙ pick_step (mem key registered) (is_given (get? st.first_nonempty key))
          (declares key r r.options.in_var) r.options (normalized_options r.options)
          (declared_options key references) (get? st.options_by_target key)
          (get? next.options_by_target key) (get? st.first_nonempty key)
          (get? next.first_nonempty key) refl step.0 step.1

contains_iff_given : {V : Type 0} (d : Dict V) (k : Text) → contains d k ≡ is_given (get? d k)
unfolding contains get?
contains_iff_given [] k = refl
contains_iff_given ((j, v) ∷ d) k = ground (arith, contains_iff_given d k)

or_else-none : {A : Type 0} (o : Option A) → or_else o none ≡ o
or_else-none none = refl
or_else-none (some a) = refl

read-default :
    {S A : Type 0} (get : S → Option A) (st changed : S) (v : A) (c e : Bool)
    → (e ≡ true → c ≡ is_given (get st))
    → get changed ≡ (if e then some v else get st)
    → get (if c then st else changed) ≡ or_else (get st) (if e then some v else none)
read-default get st changed v true true h g = ground arith
read-default get st changed v true false h g = ground (arith, or_else-none (get st))
read-default get st changed v false true h g = ground arith
read-default get st changed v false false h g = ground (arith, or_else-none (get st))

text_eq_comm : (s t : Text) → text_eq s t ≡ text_eq t s
text_eq_comm s t = ground (arith, text_eq_iff s t, text_eq_iff t s)

plan_step :
    {A : Type 0} (m : Bool) (later : Option A) (empty : A) (o : Option A)
    → o ≡ or_else none (if m then some empty else none)
    → (if m && true then or_else later o else o) ≡ (if m then or_else later (some empty) else none)
plan_step true later empty o h = ground arith
plan_step false later empty o h = ground arith

-- `setdefault`
get?-set_default :
    {V : Type 0} (d : Dict V) (k j : Text) (v : V)
    → get? (if contains d k then d else set d k v) j
      ≡ or_else (get? d j) (if text_eq j k then some v else none)
get?-set_default d k j v =
    read-default (λ s. get? s j) d (set d k v) v (contains d k) (text_eq j k)
      (λ e. contains_iff_given d k ∙ ap (λ n. is_given (get? d n)) (sym (text_eq→eq j k e)))
      (get?-set d k j v ∙ ap (λ e. if e then some v else get? d j) (text_eq_comm k j))

default_step :
    {A : Type 0} (o next : Option A) (a : A) (e m : Bool)
    → next ≡ or_else o (if e then some a else none)
    → or_else next (if m then some a else none) ≡ or_else o (if e || m then some a else none)
default_step (some b) next a e m h = ground arith
default_step none next a true m h = ground arith
default_step none next a false m h = ground arith

set_default_options-get? :
    {F : Type 0} (options : Dict (DatasetOption F)) (targets : List Text) (key : Text)
    → get? (set_default_options options targets) key
      ≡ or_else
          (get? options key)
          (if mem key (map dataset_key targets) then some (no_options {F = F}) else none)
unfolding set_default_options
set_default_options-get? {F} options [] key = sym (or_else-none (get? options key))
set_default_options-get? {F} options (target ∷ targets) key =
    let next : Dict (DatasetOption F) =
      if contains options (dataset_key target)
      then options
      else set options (dataset_key target) no_options in
    set_default_options-get? next targets key
    ∙ default_step (get? options key) (get? next key) no_options (text_eq key (dataset_key target))
        (mem key (map dataset_key targets))
        (get?-set_default options (dataset_key target) key no_options)

-- For each key, the plan keeps the options of the first reference in source order that names a
-- target of that key, has a nonempty option and no IN option; it keeps empty options if there is no
-- such reference, and nothing if no target has the key.
pub plan_typed_output_targets-get? :
    {F : Type 0} (same : F → F → Bool) (block : Block F) (source : SourceDocument)
    (targets : List Text) (normalize_target : Text → Text) (key : Text)
    → get?
        (plan_typed_output_targets same block source targets
          normalize_target).effective_output_options
        key
      ≡ (if mem key (map dataset_key (map normalize_target targets))
          then or_else (declared_options key (output_references block)) (some no_options)
          else none)
unfolding plan_typed_output_targets get?
plan_typed_output_targets-get? {F} same block source targets normalize_target key =
    let keys = map dataset_key (map normalize_target targets) in
    let start : Resolving F = record {
      options_by_target = set_default_options [] (map normalize_target targets);
      first_nonempty = [];
      faults = [];
    } in
    resolve_references-get? same source keys start (output_references block) key
    ∙ plan_step (mem key keys) (declared_options key (output_references block)) no_options
        (get? start.options_by_target key)
        (set_default_options-get? [] (map normalize_target targets) key)
