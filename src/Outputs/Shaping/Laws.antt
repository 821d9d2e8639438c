-- ===== src/Outputs/Shaping/Laws.antt =====
-- The columns of an output target have different keys, and the projected types are those of the
-- projected columns.
use limulus.Prelude.{
  ◌≡◌, refl, sym, ap, ◌∙◌, Bool, true, false, not, ◌&&◌, ◌||◌, List, [], ◌∷◌, map, arith, all,
  Bool-cases, inl, inr,
}
use limulus.Prelude.Sort.{select}
use limulus.Text.{Text, text_eq, text_eq_iff, text_eq_refl}
use limulus.Dict.{Dict, set, keys}
use limulus.Naming.{column_key}
use limulus.Syntax.Statement.{Statement}
use limulus.Validation.{mem}
use limulus.Outputs.Projection.{
  first_of_keys, filter_excluded_output_columns, has_key, kept, not_dropped, itself, entry_name,
  renamed, rename_entries, project_output_columns, apply_type_projection,
}
use limulus.Outputs.Shaping.{typed_step_defined_columns, defined_names}

abbrev pub keys_of : List Text → List Text
keys_of = map column_key

-- No key is among the seen ones or stands twice.
abbrev pub is_fresh : (seen names : List Text) → Bool
is_fresh seen [] = true
is_fresh seen (k ∷ names) = not (mem k seen) && is_fresh (k ∷ seen) names

-- Each name has its key among those of one of two lists.
abbrev pub has_all_keys : (seen ks names : List Text) → Bool
has_all_keys seen ks names = all (λ n. mem (column_key n) seen || mem (column_key n) ks) names

first_of_keys-seen :
    (seen names : List Text) (n : Text)
    → mem (column_key n) seen ≡ true
    → first_of_keys seen (n ∷ names) ≡ first_of_keys seen names
unfolding first_of_keys
first_of_keys-seen seen names n e = rw (first_of_keys, e) refl

first_of_keys-new :
    (seen names : List Text) (n : Text)
    → mem (column_key n) seen ≡ false
    → first_of_keys seen (n ∷ names) ≡ n ∷ first_of_keys (column_key n ∷ seen) names
unfolding first_of_keys
first_of_keys-new seen names n e = rw (first_of_keys, e) refl

both : (a b : Bool) → a ≡ true → b ≡ true → (a && b) ≡ true
both a b h g = ground (arith, h, g)

either_left : (a b : Bool) → a ≡ true → (a || b) ≡ true
either_left a b h = ground (arith, h)

either_right : (a b : Bool) → b ≡ true → (a || b) ≡ true
either_right a b h = ground (arith, h)

first_of_keys-is_fresh :
    (seen names : List Text) → is_fresh seen (keys_of (first_of_keys seen names)) ≡ true
unfolding first_of_keys
first_of_keys-is_fresh seen [] = refl
first_of_keys-is_fresh seen (n ∷ names) = elim (Bool-cases (mem (column_key n) seen)) [
  | inl e ↦
      ap (λ r. is_fresh seen (keys_of r)) (first_of_keys-seen seen names n e)
      ∙ first_of_keys-is_fresh seen names
  | inr e ↦
      ap (λ r. is_fresh seen (keys_of r)) (first_of_keys-new seen names n e)
      ∙ both (not (mem (column_key n) seen)) _ (ap not e)
          (first_of_keys-is_fresh (column_key n ∷ seen) names)
]

has_all_keys-cons :
    (k : Text) (seen ks names : List Text)
    → has_all_keys (k ∷ seen) ks names ≡ true
    → has_all_keys seen (k ∷ ks) names ≡ true
has_all_keys-cons k seen ks [] h = refl
has_all_keys-cons k seen ks (n ∷ names) h = ground (arith, has_all_keys-cons k seen ks names)

first_of_keys-has_all_keys :
    (seen names : List Text) → has_all_keys seen (keys_of (first_of_keys seen names)) names ≡ true
unfolding first_of_keys
first_of_keys-has_all_keys seen [] = refl
first_of_keys-has_all_keys seen (n ∷ names) = elim (Bool-cases (mem (column_key n) seen)) [
  | inl e ↦
      ap (λ r. has_all_keys seen (keys_of r) (n ∷ names)) (first_of_keys-seen seen names n e)
      ∙ both (mem (column_key n) seen || mem (column_key n) (keys_of (first_of_keys seen names))) _
          (either_left (mem (column_key n) seen) _ e) (first_of_keys-has_all_keys seen names)
  | inr e ↦
      ap (λ r. has_all_keys seen (keys_of r) (n ∷ names)) (first_of_keys-new seen names n e)
      ∙ both
          (mem (column_key n) seen
            || mem (column_key n)
                (column_key n ∷ keys_of (first_of_keys (column_key n ∷ seen) names)))
          _
          (either_right (mem (column_key n) seen) _
            (either_left (text_eq (column_key n) (column_key n)) _ (text_eq_refl (column_key n))))
          (has_all_keys-cons (column_key n) seen
            (keys_of (first_of_keys (column_key n ∷ seen) names)) names
            (first_of_keys-has_all_keys (column_key n ∷ seen) names))
]

-- A renamed entry is under its new name.
mem-keys-set :
    (n k : Text) (v : Text) (d : Dict Text)
    → mem n (keys (set d k v)) ≡ (text_eq n k || mem n (keys d))
unfolding set
mem-keys-set n k v [] = refl
mem-keys-set n k v ((j, w) ∷ d) =
    ground (arith, mem-keys-set n k v d, text_eq_iff j k, text_eq_iff n j, text_eq_iff n k)

mem-rename_entries :
    (n : Text) (renames entries result : Dict Text)
    → mem n (keys (rename_entries renames entries result))
      ≡ (mem n (map (renamed renames) (keys entries)) || mem n (keys result))
unfolding rename_entries
mem-rename_entries n renames [] result = refl
mem-rename_entries n renames ((m, t) ∷ entries) result = ground (
  arith,
  mem-rename_entries n renames entries (set result (renamed renames m) t),
  mem-keys-set n (renamed renames m) t result,
)

select-keys :
    (p : Text → Bool) (entries : Dict Text)
    → keys (select (λ e. p (entry_name e)) entries) ≡ select p (keys entries)
select-keys p [] = refl
select-keys p ((m, t) ∷ entries) = ground (arith, select-keys p entries)

or_false : (b : Bool) → (b || false) ≡ b
or_false true = refl
or_false false = refl

mem-cong : (n : Text) (xs ys : List Text) → xs ≡ ys → mem n xs ≡ mem n ys
mem-cong n xs ys p = ap (mem n) p

-- The columns of a target have different keys, none of which is excluded; and each column that is
-- not excluded has its key among theirs.
pub filter_excluded_output_columns-is_fresh :
    (columns excluded : List Text)
    → (is_fresh (keys_of excluded) (keys_of (filter_excluded_output_columns columns excluded))
        ≡ true)
      × (has_all_keys
            (keys_of excluded)
            (keys_of (filter_excluded_output_columns columns excluded))
            columns
          ≡ true)
unfolding filter_excluded_output_columns
filter_excluded_output_columns-is_fresh columns excluded = (
  first_of_keys-is_fresh (keys_of excluded) columns,
  first_of_keys-has_all_keys (keys_of excluded) columns,
)

-- The columns that a step defines have different keys, and each name that one of its statements
-- defines, nested actions included, has its key among theirs.
pub typed_step_defined_columns-is_fresh :
    {F : Type 0} (statements : List (Statement F))
    → (is_fresh [] (keys_of (typed_step_defined_columns statements)) ≡ true)
      × (has_all_keys []
            (keys_of (typed_step_defined_columns statements))
            (defined_names statements)
          ≡ true)
unfolding typed_step_defined_columns
typed_step_defined_columns-is_fresh statements = (
  first_of_keys-is_fresh [] (defined_names statements),
  first_of_keys-has_all_keys [] (defined_names statements),
)

keys-kept :
    (keep : List Text) (entries : Dict Text)
    → keys (kept entry_name keep entries) ≡ kept itself keep (keys entries)
unfolding kept
keys-kept [] entries = refl
keys-kept (k ∷ keep) entries = select-keys (has_key (k ∷ keep)) entries

keys-not_dropped :
    (drop : List Text) (entries : Dict Text)
    → keys (not_dropped entry_name drop entries) ≡ not_dropped itself drop (keys entries)
unfolding not_dropped
keys-not_dropped drop entries = select-keys (λ n. not (has_key drop n)) entries

-- The names left of types are those left of their columns.
keys-left :
    (keep drop : List Text) (types : Dict Text)
    → keys (not_dropped entry_name drop (kept entry_name keep types))
      ≡ not_dropped itself drop (kept itself keep (keys types))
keys-left keep drop types =
    keys-not_dropped drop (kept entry_name keep types)
    ∙ ap (not_dropped itself drop) (keys-kept keep types)

map-renamed_nil : (names : List Text) → map (renamed []) names ≡ names
unfolding renamed
map-renamed_nil [] = refl
map-renamed_nil (n ∷ names) = ap (λ t. n ∷ t) (map-renamed_nil names)

-- A name has a projected type exactly when it is a projected column of those that have types.
pub apply_type_projection-project_output_columns :
    (types : Dict Text) (keep drop : List Text) (renames : Dict Text) (n : Text)
    → mem n (keys (apply_type_projection types keep drop renames))
      ≡ mem n (project_output_columns (keys types) keep drop renames)
unfolding apply_type_projection project_output_columns
apply_type_projection-project_output_columns types keep drop [] n = mem-cong n _ _ (
    keys-left keep drop types
    ∙ sym (map-renamed_nil (not_dropped itself drop (kept itself keep (keys types)))))
apply_type_projection-project_output_columns types keep drop (r ∷ renames) n =
    mem-rename_entries n (r ∷ renames) (not_dropped entry_name drop (kept entry_name keep types)) []
    ∙ or_false (
        mem n (
          map (renamed (r ∷ renames))
            (keys (not_dropped entry_name drop (kept entry_name keep types)))))
    ∙ mem-cong n _ _ (ap (map (renamed (r ∷ renames))) (keys-left keep drop types))
