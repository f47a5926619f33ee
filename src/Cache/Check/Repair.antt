-- ===== src/Cache/Check/Repair.antt =====
-- What `check` with its fix leaves: expiration times and tags of keys that have a row.
use diskcache_rs.Base.{
  String, ◌≡◌, refl, Bool, true, false, not, ◌&&◌, ◌||◌, Option, none, some, List, [], ◌∷◌, ◌++◌,
  arith, str_eq, eq_iff, is_some, Bool-cases, Option-cases, inl, inr, if◌then◌else◌,
}
use diskcache_rs.Cache.Check.{
  Warning, check, check_rows, check_times, check_tags, remove_inaccessible, inaccessible,
  removed_inaccessible, missing_expire, removed_expire, missing_tag, removed_tag,
}
use diskcache_rs.Cache.Read.{keys}
use diskcache_rs.Cache.State.{Cache, ask, call_open, call_closed}
use diskcache_rs.Cache.View.{row, has, contains-has}
use diskcache_rs.Dict
use diskcache_rs.Dict.{Dict, get-remove}
use diskcache_rs.Exec.{Result-cases, ok, raised}
use diskcache_rs.Host.{Host}
use diskcache_rs.Host.Sound.{IsSound}

-- a key is among those given
abbrev pub among : String → List String → Bool
among k [] = false
among k (j ∷ js) = str_eq j k || among k js

among_keys :
    {V : Type 0} (d : Dict V) (k : String)
    → is_some (Dict.get d k) ≡ true
    → among k (Dict.keys d) ≡ true
unfolding Dict.get
among_keys [] k there = absurd (ground arith)
among_keys ((j, v) ∷ d) k there = ground (arith, among_keys d k)

module _ {h : Host} (sound : IsSound h) where
  -- `d'` is `d` without those of the keys given that have no row
  abbrev Kept : {V : Type 0} → Cache h → List String → Dict V → Dict V → Type 0
  Kept c ks d d' =
      (j : String)
      → Dict.get d' j ≡ (if among j ks && not (has sound c j) then none else Dict.get d j)

  prune_times :
      (ks : List String) (c : Cache h)
      → (ws : List Warning) × (d : Dict _) × (check_times h true ks c
          ≡ (ok ws, record c { expire_times = d }))
        × Kept c ks c.expire_times d
  unfolding check_times row
  prune_times [] c = ([], c.expire_times, refl, λ j. refl)
  prune_times (k ∷ ks) c = elim (Bool-cases (has sound c k)) [
    | inl there ↦
        let (ws, d, e, kept) = prune_times ks c in
        (ws, d, rw (contains-has sound c k, there) e, λ j. ground (arith, kept j, eq_iff k j))
    | inr gone ↦
        let (ws, d, e, kept) =
          prune_times ks (record c { expire_times = Dict.remove c.expire_times k }) in
        (
          missing_expire k ∷ removed_expire k ∷ ws,
          d,
          rw (contains-has sound c k, gone, e),
          λ j. ground (arith, kept j, eq_iff k j, get-remove c.expire_times k j),
        )
  ]

  prune_tags :
      (ks : List String) (c : Cache h)
      → (ws : List Warning) × (d : Dict _) × (check_tags h true ks c
          ≡ (ok ws, record c { tags = d }))
        × Kept c ks c.tags d
  unfolding check_tags row
  prune_tags [] c = ([], c.tags, refl, λ j. refl)
  prune_tags (k ∷ ks) c = elim (Bool-cases (has sound c k)) [
    | inl there ↦
        let (ws, d, e, kept) = prune_tags ks c in
        (ws, d, rw (contains-has sound c k, there) e, λ j. ground (arith, kept j, eq_iff k j))
    | inr gone ↦
        let (ws, d, e, kept) = prune_tags ks (record c { tags = Dict.remove c.tags k }) in
        (
          missing_tag k ∷ removed_tag k ∷ ws,
          d,
          rw (contains-has sound c k, gone, e),
          λ j. ground (arith, kept j, eq_iff k j, get-remove c.tags k j),
        )
  ]

  -- Nothing is lost beside what has no row.
  tracked_all :
      {V : Type 0} (c : Cache h) (d d' : Dict V)
      → Kept c (Dict.keys d) d d'
      → (j : String) → Dict.get d' j ≡ (if has sound c j then Dict.get d j else none)
  tracked_all c d d' kept j = elim (Bool-cases (has sound c j)) [
    | inl there ↦ ground (arith, kept j)
    | inr gone ↦ elim (Bool-cases (is_some (Dict.get d j))) [
      | inl tracked ↦ ground (arith, kept j, among_keys d j tracked)
      | inr free ↦ ground (arith, kept j)
    ]
  ]

  -- one row that the loop over the keys reads
  row_checked :
      (fix : Bool) (k : String) (c : Cache h)
      → (ws : List Warning) × (s : Option h.State) × (remove_inaccessible h fix k c
          ≡ (ok ws, record c { rust = s }))
  unfolding remove_inaccessible
  row_checked false k c = (inaccessible k ∷ [], c.rust, refl)
  row_checked true k c = elim (Option-cases c.rust) [
    | inl closed ↦ (inaccessible k ∷ [], c.rust, rw (call_closed (λ s. h.delete s k) c closed))
    | inr (s, open_) ↦ elim (Result-cases (h.delete s k).0) [
      | inl (b, good) ↦ (
        inaccessible k ∷ removed_inaccessible k ∷ [],
        some (h.delete s k).1,
        rw (call_open (λ s. h.delete s k) c s (ok b) open_ good),
      )
      | inr (x, bad) ↦ (
        inaccessible k ∷ [],
        some (h.delete s k).1,
        rw (call_open (λ s. h.delete s k) c s (raised x) open_ bad),
      )
    ]
  ]

  asked : (c : Cache h) (k : String) → ask (λ s. h.get s k) c ≡ ((ask (λ s. h.get s k) c).0, c)
  unfolding ask
  asked c k = elim (Option-cases c.rust) [ inl closed ↦ rw (closed) | inr (s, open_) ↦ rw (open_) ]

  rows_checked :
      (fix : Bool) (ks : List String) (c : Cache h)
      → (ws : List Warning) × (s : Option h.State) × (check_rows h fix ks c
          ≡ (ok ws, record c { rust = s }))
  unfolding check_rows
  rows_checked fix [] c = ([], c.rust, refl)
  rows_checked fix (k ∷ ks) c = elim (Result-cases (ask (λ s. h.get s k) c).0) [
    | inl (o, good) ↦ let (ws, s, e) = rows_checked fix ks c in (ws, s, rw (asked c k, good, e))
    | inr (x, bad) ↦
        let (w, s₁, e₁) = row_checked fix k c in
        let (ws, s₂, e₂) = rows_checked fix ks (record c { rust = s₁ }) in
        (w ++ ws, s₂, rw (asked c k, bad, e₁, e₂))
  ]

  -- what tracking holds of the keys that have a row
  abbrev pub Tracks : {V : Type 0} → Cache h → Dict V → Dict V → Type 0
  Tracks c d d' = (j : String) → Dict.get d' j ≡ (if has sound c j then Dict.get d j else none)

  keys_run : (c : Cache h) → (ks : List String) × (keys h c ≡ (ok ks, c))
  unfolding keys ask
  keys_run c = elim (Option-cases c.rust) [
    | inl closed ↦ ([], rw (closed))
    | inr (s, open_) ↦ elim (Result-cases (h.keys s)) [
      | inl (ks, good) ↦ (ks, rw (open_, good))
      | inr (x, bad) ↦ ([], rw (open_, bad))
    ]
  ]

  -- check with its fix returns on every cache, and then the record of expiration times and that
  -- of tags hold what they held before for the keys that have a row, and nothing for other keys.
  pub check_repairs :
      (c : Cache h)
      → (ws : List Warning) × (c' : Cache h) × (check h true c ≡ (ok ws, c'))
        × Tracks c' c.expire_times c'.expire_times
        × Tracks c' c.tags c'.tags
  unfolding check row
  check_repairs c =
      let (ks, e₀) = keys_run c in
      let (ws, s, e₁) = rows_checked true ks c in
      let read = record c { rust = s } in
      let (ws', d, e₂, kept) = prune_times (Dict.keys c.expire_times) read in
      let timed = record read { expire_times = d } in
      let (ws'', d', e₃, kept') = prune_tags (Dict.keys c.tags) timed in
      (
        ws ++ ws' ++ ws'',
        record timed { tags = d' },
        rw (e₀, e₁, e₂, e₃),
        tracked_all read c.expire_times d kept,
        tracked_all timed c.tags d' kept',
      )
