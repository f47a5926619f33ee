-- ===== src/Dict.antt =====
-- A Python dict with string keys, in insertion order: `_expire_times` and `_tags` of
-- python/diskcache_rs/cache.py. `get`, `put`, `remove` are `d.get(k)`, `d[k] = v`, `d.pop(k, None)`.
use diskcache_rs.Base.{
  String, ◌≡◌, refl, Option, none, some, List, [], ◌∷◌, map, arith, str_eq, eq_iff, if◌then◌else◌,
}

abbrev pub Dict {ℓ} : Type ℓ → Type ℓ
Dict V = List (String × V)

module _ {ℓ} {V : Type ℓ} where
  unfoldable pub get : Dict V → String → Option V
  get [] k = none
  get ((j, v) ∷ d) k = if str_eq j k then some v else get d k

  unfoldable pub put : Dict V → String → V → Dict V
  put [] k v = (k, v) ∷ []
  put ((j, w) ∷ d) k v = if str_eq j k then (j, v) ∷ d else (j, w) ∷ put d k v

  unfoldable pub remove : Dict V → String → Dict V
  remove [] k = []
  remove ((j, w) ∷ d) k = let rest = remove d k in if str_eq j k then rest else (j, w) ∷ rest

  abbrev pub keys : Dict V → List String
  keys = map (λ e. e.0)

  pub get-put :
      (d : Dict V) (k j : String) (v : V)
      → get (put d k v) j ≡ (if str_eq k j then some v else get d j)
  unfolding get put
  get-put [] k j v = refl
  get-put ((i, w) ∷ d) k j v = ground (arith, eq_iff k j, eq_iff i k, eq_iff i j, get-put d k j v)

  pub get-remove :
      (d : Dict V) (k j : String) → get (remove d k) j ≡ (if str_eq k j then none else get d j)
  unfolding get remove
  get-remove [] k j = ground arith
  get-remove ((i, w) ∷ d) k j = ground (arith, eq_iff k j, eq_iff i k, eq_iff i j, get-remove d k j)

  -- `d[k] = v` for a value that is not None, else `d.pop(k, None)`
  unfoldable pub note : Dict V → String → Option V → Dict V
  note d k none = remove d k
  note d k (some v) = put d k v

  pub get-note :
      (d : Dict V) (k j : String) (o : Option V)
      → get (note d k o) j ≡ (if str_eq k j then o else get d j)
  unfolding note
  get-note d k j none = get-remove d k j
  get-note d k j (some v) = get-put d k j v

pub ruleset dict_laws = (get-put, get-remove, get-note)
