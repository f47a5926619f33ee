-- ===== src/Cache/Laws/Evict.antt =====
-- `evict` of python/diskcache_rs/cache.py and the record `_tags` that it reads.
use diskcache_rs.Base.{
  ℕ, ◌+◌, String, ◌≡◌, refl, ◌∙◌, Bool, true, false, Option, none, some, arith, Bool-cases,
  Option-cases, inl, inr, str_eq, eq_iff, List, [], ◌∷◌, if◌then◌else◌,
}
use diskcache_rs.Cache.Laws.{ready}
use diskcache_rs.Cache.Laws.Erase.{delete_erases, delete_refused}
use diskcache_rs.Cache.Laws.Picked.{is_in, distinct, picked, passes, picked-passes}
use diskcache_rs.Cache.Queue.Holds.{ready_of_view}
use diskcache_rs.Cache.Remove.{delete, evict, evict_each, tagged_keys}
use diskcache_rs.Cache.State.{Cache}
use diskcache_rs.Cache.View.{view}
use diskcache_rs.Dict
use diskcache_rs.Dict.{Dict}
use diskcache_rs.Exec.{ok}
use diskcache_rs.Host.{Host}
use diskcache_rs.Host.Sound.{IsSound}

-- a tag that is there and is the one given
abbrev pub is_tagged : String → Option String → Bool
is_tagged tag none = false
is_tagged tag (some t) = str_eq t tag

tagged_keys-picked :
    (tag : String) (d : Dict String) → tagged_keys tag d ≡ picked (λ t. str_eq t tag) d
unfolding tagged_keys picked
tagged_keys-picked tag [] = refl
tagged_keys-picked tag ((k, t) ∷ d) = rw (tagged_keys-picked tag d)

passes-is_tagged :
    (tag : String) (o : Option String) → passes (λ t. str_eq t tag) o ≡ is_tagged tag o
passes-is_tagged tag none = refl
passes-is_tagged tag (some t) = refl

tagged_lem :
    (tag : String) (d : Dict String) (j : String)
    → distinct d ≡ true
    → is_in j (tagged_keys tag d) ≡ is_tagged tag (Dict.get d j)
tagged_lem tag d j u =
    rw (tagged_keys-picked tag d)
      (picked-passes (λ t. str_eq t tag) d j u ∙ passes-is_tagged tag (Dict.get d j))

module _ {h : Host} (sound : IsSound h) where
  -- a key that the cache does not take has no value
  view_refused : (c : Cache h) (k : String) → ready sound c k ≡ false → view sound c k ≡ none
  view_refused c k cannot = elim (Option-cases (view sound c k)) [
    | inl gone ↦ gone
    | inr (v, here) ↦ absurd (ground (arith, cannot, ready_of_view sound none c k v here))
  ]

  -- one round of the loop
  evicts :
      (c : Cache h) (k : String)
      → (b : Bool) × (c' : Cache h) × (delete h k c ≡ (ok b, c'))
        × ((j : String) → view sound c' j ≡ (if str_eq k j then none else view sound c j))
  evicts c k = elim (Bool-cases (ready sound c k)) [
    | inl can ↦ let (c', e, erased) = delete_erases sound k c can in (_, c', e, erased.views)
    | inr cannot ↦ (
      false,
      c,
      delete_refused sound k c cannot,
      λ j. elim (Bool-cases (str_eq k j)) [
        | inl same ↦ let e : k ≡ j = (eq_iff k j).0 same in rw (same, ← e) (view_refused c k cannot)
        | inr other ↦ rw (other)
      ],
    )
  ]

  evict_each_lem :
      (ks : List String) (n : ℕ) (c : Cache h)
      → (m : ℕ) × (c' : Cache h) × (evict_each h ks n c ≡ (ok m, c'))
        × ((j : String) → view sound c' j ≡ (if is_in j ks then none else view sound c j))
  unfolding evict_each is_in
  evict_each_lem [] n c = (n, c, refl, λ j. refl)
  evict_each_lem (k ∷ ks) n c =
      let (b, c₁, e₁, vs₁) = evicts c k in
      let (m, c₂, e₂, vs₂) = evict_each_lem ks (if b then n + 1 else n) c₁ in
      (m, c₂, rw (e₁, e₂), λ j. vs₂ j ∙ ground (arith, vs₁ j))

  -- If no key stands twice in the record of tags, then evict returns on every cache, and then the
  -- keys with that tag have no value and all others read as before.
  pub evict_lem :
      (tag : String) (c : Cache h)
      → distinct c.tags ≡ true
      → (n : ℕ) × (c' : Cache h) × (evict h tag c ≡ (ok n, c'))
        × ((j : String)
            → view sound c' j
              ≡ (if is_tagged tag (Dict.get c.tags j) then none else view sound c j))
  unfolding evict
  evict_lem tag c unique =
      let (n, c', e, vs) = evict_each_lem (tagged_keys tag c.tags) 0 c in
      (n, c', e, λ j. rw (← tagged_lem tag c.tags j unique) (vs j))
