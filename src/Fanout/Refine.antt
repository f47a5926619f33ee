-- ===== src/Fanout/Refine.antt =====
-- A fanout cache read as one map from keys to values, and its methods on that map.
use diskcache_rs.Base.{
  ℕ, String, ◌≡◌, Bool, true, false, Option, none, some, length, ◌==◌, arith, if◌then◌else◌, str_eq,
  inl, inr, Bool-cases, Option-cases,
}
use diskcache_rs.Cache.Laws.{ready, store_writes}
use diskcache_rs.Cache.Laws.Erase.{delete_erases}
use diskcache_rs.Cache.State.{Cache}
use diskcache_rs.Cache.View
use diskcache_rs.Cache.View.{get_or, get_value-view}
use diskcache_rs.Exec.{ok}
use diskcache_rs.Fanout.{Fanout, set, get_value, delete}
use diskcache_rs.Sharded.{shard_of}
use diskcache_rs.Sharded.Routes.{route_lem, home-replace, home_same, home_kept, apart}
use diskcache_rs.Sharded.Places.{replace, length-replace, home}
use diskcache_rs.Host.{Host}
use diskcache_rs.Host.Sound.{IsSound}
use diskcache_rs.Value.{Value, is_plain}

module _ {h : Host} (sound : IsSound h) (hash : String → ℕ) where
  -- the value of a key, in the cache that it is routed to
  unfoldable pub view : Fanout h → String → Option Value
  view cs k = elim (home hash k cs) [ none ↦ none | some c ↦ View.view sound c k ]

  unfoldable pub takes : Fanout h → String → Bool
  takes cs k = elim (home hash k cs) [ none ↦ false | some c ↦ ready sound c k ]

  -- a key that is taken has a cache
  home-takes :
      (cs : Fanout h) (k : String)
      → takes cs k ≡ true
      → (c : Cache h) × (home hash k cs ≡ some c) × (ready sound c k ≡ true)
  unfolding takes
  home-takes cs k t = elim (Option-cases (home hash k cs)) [
    | inl gone ↦ absurd (ground arith)
    | inr (c, here) ↦ (c, here, ground arith)
  ]

  -- `cs'` is `cs` with `o` at the key `k`.
  pub record IsChange (cs : Fanout h) (k : String) (o : Option Value) (cs' : Fanout h)
      : Type 0 where
    pub views : (j : String) → view cs' j ≡ (if str_eq k j then o else view cs j)
    pub takes_same : (j : String) → takes cs' j ≡ takes cs j
    pub shards : length cs' ≡ length cs

  changed :
      (cs : Fanout h) (k : String) (o : Option Value) (c c' : Cache h)
      → home hash k cs ≡ some c
      → ((j : String) → View.view sound c' j ≡ (if str_eq k j then o else View.view sound c j))
      → ((j : String) → ready sound c' j ≡ ready sound c j)
      → IsChange cs k o (replace (shard_of hash k (length cs)) c' cs)
  unfolding view takes
  changed cs k o c c' here vs rs = record {
    views = λ j. (elim (Bool-cases (shard_of hash k (length cs) == shard_of hash j (length cs))) [
      | inl same ↦
          rw (home-replace hash cs k j c c' here, same, home_same hash cs k j c here same, view)
            (vs j)
      | inr other ↦ rw (home-replace hash cs k j c c' here, other, apart hash cs k j other, view)
    ]);
    takes_same = λ j.
        (elim (Bool-cases (shard_of hash k (length cs) == shard_of hash j (length cs))) [
          | inl same ↦
              rw
                (home-replace hash cs k j c c' here, same, home_same hash cs k j c here same, takes)
                (rs j)
          | inr other ↦ rw (home-replace hash cs k j c c' here, other, takes)
        ]);
    shards = length-replace _ c' cs;
  }

  module _ (cs : Fanout h) (k : String) (can : takes cs k ≡ true) where
    -- If the cache that a key is routed to is open and takes it, then set of a plain value on the
    -- fanout cache returns True and changes the map of the whole fanout cache at that key alone;
    -- the number of caches and what keys they take stay.
    pub set_changes :
        (v : Value) (expire : Option ℕ) (tag : Option String)
        → is_plain v ≡ true
        → (cs' : Fanout h) × (set h hash k v expire false tag cs ≡ (ok true, cs'))
          × IsChange cs k (some v) cs'
    unfolding set
    set_changes v expire tag plain =
        let (c, here, open_) = home-takes cs k can in
        let (c', e, w) = store_writes sound k v expire tag c open_ plain in
        (
          _,
          route_lem hash k _ cs c c' (ok true) here e,
          changed cs k (some v) c c' here w.views w.opens,
        )

    -- If the cache that a key is routed to is open and takes it, then delete on the fanout cache
    -- returns, and takes that key and no other out of the map of the whole fanout cache; the
    -- number of caches and what keys they take stay.
    pub delete_changes :
        (b : Bool) × (cs' : Fanout h) × (delete h hash k cs ≡ (ok b, cs')) × IsChange cs k none cs'
    unfolding delete
    delete_changes =
        let (c, here, open_) = home-takes cs k can in
        let (c', e, w) = delete_erases sound k c open_ in
        (_, _, route_lem hash k _ cs c c' _ here e, changed cs k none c c' here w.views w.opens)

    -- If the cache that a key is routed to is open and takes it, then get without extras on the
    -- fanout cache returns what the map of the whole has at the key, or the default, and changes
    -- nothing.
    pub get_value-map : (d : Value) → get_value h hash k d cs ≡ (ok (get_or (view cs k) d), cs)
    unfolding get_value view
    get_value-map d =
        let (c, here, open_) = home-takes cs k can in
        rw (
          view,
          here,
          route_lem hash k _ cs c c _ here (get_value-view sound c k d),
          home_kept hash cs k c here,
        )
