-- ===== src/Dict.antt =====
-- Python's `dict` with text keys: an association list in insertion order. A write to a key that
-- is there keeps its place, a new key goes to the end.
use limulus.Prelude.{
  ◌≡◌, refl, ◌≢◌, Bool, true, false, List, [], ◌∷◌, map, Option, none, some, arith, if◌then◌else◌,
}
use limulus.Text.{Text, text_eq, text_eq_iff}

abbrev pub Dict {ℓ} : Type ℓ → Type ℓ
Dict V = List (Text × V)

module _ {ℓ} {V : Type ℓ} where
  unfoldable pub get? : Dict V → Text → Option V
  get? [] k = none
  get? ((j, v) ∷ d) k = if text_eq j k then some v else get? d k

  -- `d[k] = v`
  unfoldable pub set : Dict V → Text → V → Dict V
  set [] k v = (k, v) ∷ []
  set ((j, w) ∷ d) k v = if text_eq j k then (j, v) ∷ d else (j, w) ∷ set d k v

  -- `d.update(e)`
  unfoldable pub update : Dict V → Dict V → Dict V
  unfolding set
  update d [] = d
  update d ((k, v) ∷ e) = update (set d k v) e

  -- `d.pop(k, None)`
  unfoldable pub pop : Dict V → Text → Dict V
  pop [] k = []
  pop ((j, w) ∷ d) k = if text_eq j k then d else (j, w) ∷ pop d k

  abbrev pub keys : Dict V → List Text
  keys = map (λ e. e.0)

  -- `k in d`
  unfoldable pub contains : Dict V → Text → Bool
  contains [] k = false
  contains ((j, v) ∷ d) k = if text_eq j k then true else contains d k

  pub get?-set :
      (d : Dict V) (k j : Text) (v : V)
      → get? (set d k v) j ≡ (if text_eq k j then some v else get? d j)
  unfolding get? set
  get?-set [] k j v = refl
  get?-set ((i, w) ∷ d) k j v =
      ground (arith, text_eq_iff i k, text_eq_iff i j, text_eq_iff k j, get?-set d k j v)

  pub get?-set_self : (d : Dict V) (k : Text) (v : V) → get? (set d k v) k ≡ some v
  get?-set_self d k v = ground (arith, get?-set d k k v, text_eq_iff k k)

  pub get?-set_ne : (d : Dict V) (k j : Text) (v : V) → k ≢ j → get? (set d k v) j ≡ get? d j
  get?-set_ne d k j v h = ground (arith, get?-set d k j v, text_eq_iff k j)

  pub contains-set :
      (d : Dict V) (k j : Text) (v : V)
      → contains (set d k v) j ≡ (if text_eq k j then true else contains d j)
  unfolding contains set
  contains-set [] k j v = refl
  contains-set ((i, w) ∷ d) k j v =
      ground (arith, text_eq_iff i k, text_eq_iff i j, text_eq_iff k j, contains-set d k j v)
