-- ===== src/Python/Dict.antt =====
-- A Python dict with text keys, in its order of insertion.
use turbocat.Prelude.{
  String, ◌≡◌, refl, Bool, true, false, Option, none, some, List, [], ◌∷◌, arith, str_eq, eq_iff,
  if◌then◌else◌,
}

abbrev pub Dict {ℓ} : Type ℓ → Type ℓ
Dict V = List (String × V)

module _ {ℓ} {V : Type ℓ} where
  -- d.get(k)
  unfoldable pub get? : String → Dict V → Option V
  get? k [] = none
  get? k ((j, v) ∷ d) = if str_eq j k then some v else get? k d

  -- k in d
  unfoldable pub has : String → Dict V → Bool
  unfolding get?
  has k d = elim (get? k d) [ none ↦ false | some _ ↦ true ]

  -- d[k] = v: a key that is there keeps its place.
  unfoldable pub put : String → V → Dict V → Dict V
  put k v [] = (k, v) ∷ []
  put k v ((j, w) ∷ d) = if str_eq j k then (j, v) ∷ d else (j, w) ∷ put k v d

  -- d.pop(k, None), d without the key
  unfoldable pub remove : String → Dict V → Dict V
  remove k [] = []
  remove k ((j, w) ∷ d) = let rest = remove k d in if str_eq j k then rest else (j, w) ∷ rest

  -- {**d, **e} and d.update(e): the later dict wins.
  unfoldable pub update : Dict V → Dict V → Dict V
  unfolding put
  update d [] = d
  update d ((k, v) ∷ e) = update (put k v d) e

  unfoldable pub keys : Dict V → List String
  keys [] = []
  keys ((k, v) ∷ d) = k ∷ keys d

  pub get?-put :
      (k j : String) (v : V) (d : Dict V)
      → get? j (put k v d) ≡ (if str_eq k j then some v else get? j d)
  unfolding get? put
  get?-put k j v [] = refl
  get?-put k j v ((i, w) ∷ d) = ground (arith, eq_iff k j, eq_iff i k, eq_iff i j, get?-put k j v d)

  pub get?-remove :
      (k j : String) (d : Dict V) → get? j (remove k d) ≡ (if str_eq k j then none else get? j d)
  unfolding get? remove
  get?-remove k j [] = ground arith
  get?-remove k j ((i, w) ∷ d) =
      ground (arith, eq_iff k j, eq_iff i k, eq_iff i j, get?-remove k j d)

  -- The later entry of two dicts, if it is there.
  abbrev pub or_else : Option V → Option V → Option V
  or_else none o = o
  or_else (some v) o = some v

  -- The last value that a list of entries gives a key.
  abbrev pub last? : String → Dict V → Option V
  last? k [] = none
  last? k ((j, v) ∷ d) = or_else (last? k d) (if str_eq j k then some v else none)

  pub get?-update :
      (k : String) (d e : Dict V) → get? k (update d e) ≡ or_else (last? k e) (get? k d)
  unfolding update
  get?-update k d [] = refl
  get?-update k d ((j, v) ∷ e) = ground (arith, get?-update k (put j v d) e, get?-put j k v d)
