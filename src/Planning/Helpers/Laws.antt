-- ===== src/Planning/Helpers/Laws.antt =====
-- Each helper column of a plan has one owner.
use limulus.Prelude.{
  ◌≡◌, refl, ap, ◌∙◌, Bool, true, false, not, ◌&&◌, List, [], ◌∷◌, ◌++◌, map, arith, all, any,
  Bool-cases, inl, inr, if◌then◌else◌, and_left, and_right,
}
use limulus.Text.{Text, text_eq, text_eq_iff, text_eq_refl}
use limulus.Syntax.Statement.{Block}
use limulus.Planning.Specs.{TypedLagLeadSpec, collect_typed_lag_lead_specs}
use limulus.Planning.Columns.{is_distinct, collect_typed_lag_lead_specs-is_distinct}
use limulus.Planning.Slots.{block_expression_slots}
use limulus.Planning.Helpers.{
  TypedHelperPlan, source_owned, runtime_owned, columns_of, source_found, source_columns,
  first_by_names, by_flags, build_typed_plan,
}

abbrev pub member : Text → List Text → Bool
member n names = any (text_eq n) names

-- The runtime owns the column, or else the source stage does.
abbrev pub is_owned_once : TypedHelperPlan → TypedLagLeadSpec → Bool
is_owned_once plan s =
    if s.is_source_owned
    then member s.helper_column plan.helper_source_columns
      && not (member s.helper_column plan.helper_runtime_columns)
    else member s.helper_column plan.helper_runtime_columns

-- What the specs behind some, whose columns differ from those, say of two lists of columns.
abbrev splits : List Text → List Text → List TypedLagLeadSpec → Bool
splits source runtime specs =
    all
      (λ s.
        if s.is_source_owned
        then member s.helper_column source && not (member s.helper_column runtime)
        else member s.helper_column runtime)
      specs

abbrev apart : Text → List TypedLagLeadSpec → Bool
apart c specs = all (λ m. not (text_eq c m)) (columns_of specs)

apart-runtime :
    (c : Text) (specs : List TypedLagLeadSpec)
    → apart c specs ≡ true
    → member c (columns_of (runtime_owned specs)) ≡ false
unfolding runtime_owned
apart-runtime c [] h = refl
apart-runtime c (s ∷ specs) h = ground (arith, apart-runtime c specs)

-- Another source-owned column in front of the source columns.
splits-source :
    (c : Text) (source runtime : List Text) (specs : List TypedLagLeadSpec)
    → splits source runtime specs ≡ true
    → splits (c ∷ source) runtime specs ≡ true
splits-source c source runtime [] h = refl
splits-source c source runtime (s ∷ specs) h = ground (arith, splits-source c source runtime specs)

splits-runtime :
    (c : Text) (source runtime : List Text) (specs : List TypedLagLeadSpec)
    → apart c specs ≡ true
    → splits source runtime specs ≡ true
    → splits source (c ∷ runtime) specs ≡ true
splits-runtime c source runtime [] a h = refl
splits-runtime c source runtime (s ∷ specs) a h = ground (
  arith,
  splits-runtime c source runtime specs,
  text_eq_iff c s.helper_column,
  text_eq_iff s.helper_column c,
)

-- A spec in front of specs that are split, on either side.
splits-cons_source :
    (s : TypedLagLeadSpec) (source runtime : List Text) (specs : List TypedLagLeadSpec)
    → s.is_source_owned ≡ true
    → member s.helper_column runtime ≡ false
    → splits source runtime specs ≡ true
    → splits (s.helper_column ∷ source) runtime (s ∷ specs) ≡ true
splits-cons_source s source runtime specs owned out h = ground (
  arith,
  owned,
  out,
  splits-source s.helper_column source runtime specs h,
  text_eq_refl s.helper_column,
)

splits-cons_runtime :
    (s : TypedLagLeadSpec) (source runtime : List Text) (specs : List TypedLagLeadSpec)
    → s.is_source_owned ≡ false
    → apart s.helper_column specs ≡ true
    → splits source runtime specs ≡ true
    → splits source (s.helper_column ∷ runtime) (s ∷ specs) ≡ true
splits-cons_runtime s source runtime specs run out h = ground (
  arith,
  run,
  splits-runtime s.helper_column source runtime specs out h,
  text_eq_refl s.helper_column,
)

owned-cons :
    (s : TypedLagLeadSpec) (specs : List TypedLagLeadSpec)
    → s.is_source_owned ≡ true
    → (source_owned (s ∷ specs) ≡ s ∷ source_owned specs)
      × (runtime_owned (s ∷ specs) ≡ runtime_owned specs)
unfolding source_owned runtime_owned
owned-cons s specs owned = (ground (arith, owned), ground (arith, owned))

run-cons :
    (s : TypedLagLeadSpec) (specs : List TypedLagLeadSpec)
    → s.is_source_owned ≡ false
    → (source_owned (s ∷ specs) ≡ source_owned specs)
      × (runtime_owned (s ∷ specs) ≡ s ∷ runtime_owned specs)
unfolding source_owned runtime_owned
run-cons s specs run = (ground (arith, run), ground (arith, run))

splits-owned :
    (specs : List TypedLagLeadSpec)
    → is_distinct (columns_of specs) ≡ true
    → splits (columns_of (source_owned specs)) (columns_of (runtime_owned specs)) specs ≡ true
splits-owned [] h = refl
splits-owned (s ∷ specs) h =
    let out : apart s.helper_column specs ≡ true =
      and_left (apart s.helper_column specs) (is_distinct (columns_of specs)) h in
    let rest =
      splits-owned specs
        (and_right (apart s.helper_column specs) (is_distinct (columns_of specs)) h) in
    elim (Bool-cases s.is_source_owned) [
      | inl owned ↦
          ap (λ l. splits (columns_of l) (columns_of (runtime_owned (s ∷ specs))) (s ∷ specs))
            (owned-cons s specs owned).0
          ∙ ap (λ l. splits (columns_of (s ∷ source_owned specs)) (columns_of l) (s ∷ specs))
              (owned-cons s specs owned).1
          ∙ (splits-cons_source s (columns_of (source_owned specs))
              (columns_of (runtime_owned specs)) specs owned
              (apart-runtime s.helper_column specs out) rest)
      | inr run ↦
          ap (λ l. splits (columns_of l) (columns_of (runtime_owned (s ∷ specs))) (s ∷ specs))
            (run-cons s specs run).0
          ∙ ap (λ l. splits (columns_of (source_owned specs)) (columns_of l) (s ∷ specs))
              (run-cons s specs run).1
          ∙ (splits-cons_runtime s (columns_of (source_owned specs))
              (columns_of (runtime_owned specs)) specs run out rest)
    ]

-- More source columns in front.
splits-append :
    (more source runtime : List Text) (specs : List TypedLagLeadSpec)
    → splits source runtime specs ≡ true
    → splits (more ++ source) runtime specs ≡ true
splits-append [] source runtime specs h = h
splits-append (c ∷ more) source runtime specs h =
    splits-source c (more ++ source) runtime specs (splits-append more source runtime specs h)

-- In the plan of a block, the column of each LAG or LEAD call that the source stage owns is among the
-- source columns and not among the runtime's, and the column of each other call is among the
-- runtime's.
pub build_typed_plan-is_owned_once :
    {F : Type 0} (block : Block F)
    → all (is_owned_once (build_typed_plan block)) (build_typed_plan block).lag_lead_specs ≡ true
unfolding build_typed_plan
build_typed_plan-is_owned_once block =
    let specs =
      collect_typed_lag_lead_specs (map (λ s. s.expression) (block_expression_slots block)) in
    let runtime = columns_of (runtime_owned specs) in
    splits-append (source_columns (source_found block.statements))
      (by_flags (first_by_names block.statements) ++ columns_of (source_owned specs)) runtime specs
      (splits-append (by_flags (first_by_names block.statements)) (columns_of (source_owned specs))
        runtime specs
        (splits-owned specs (
          collect_typed_lag_lead_specs-is_distinct
            (map (λ s. s.expression) (block_expression_slots block)))))
