-- ===== src/Fanout/Alike.antt =====
-- What a fanout cache tells of its keys and its statistics.
use mathlib.Core.List.{Perm}
use diskcache_rs.Base.{
  ℕ, ◌+◌, String, ◌≡◌, refl, Bool, none, some, List, [], ◌∷◌, Option-cases, inl, inr, if◌then◌else◌,
  reverse,
}
use diskcache_rs.Cache.Listing
use diskcache_rs.Cache.Listing.{sorted, stat, renamed, iterkeys}
use diskcache_rs.Cache.Listing.Ordered.{sorted-eq}
use diskcache_rs.Cache.Read
use diskcache_rs.Cache.State.{Cache, ask}
use diskcache_rs.Cache.View.{get_or, result_value}
use diskcache_rs.Dict
use diskcache_rs.Dict.{Dict}
use diskcache_rs.Exec.{ok, Result-cases}
use diskcache_rs.Fanout
use diskcache_rs.Fanout.{Fanout}
use diskcache_rs.Fanout.Whole
use diskcache_rs.Fanout.Whole.{add_stats}
use diskcache_rs.Host.{Host}
use diskcache_rs.Sharded.{each}

-- the statistics of some caches, from a number for each name that the extension module has
abbrev pub seven : (String → ℕ) → Dict ℕ
seven count_of =
    ("hits", count_of "hits")
    ∷ ("misses", count_of "misses")
    ∷ ("sets", count_of "sets")
    ∷ ("deletes", count_of "deletes")
    ∷ ("evictions", count_of "evictions")
    ∷ ("size", count_of "total_size")
    ∷ ("count", count_of "entry_count")
    ∷ []

-- what a dict of the extension module has under a name of its own, or 0
abbrev pub recorded : Dict ℕ → String → ℕ
recorded d own = elim (Dict.get d own) [ none ↦ 0 | some n ↦ n ]

seven-add_stats :
    (d : Dict ℕ) (sums : String → ℕ)
    → add_stats (renamed d) (seven sums) ≡ seven (λ own. sums own + recorded d own)
unfolding add_stats renamed stat Dict.get
seven-add_stats d sums = refl

seven_same : (sums : String → ℕ) → add_stats [] (seven sums) ≡ seven (λ own. sums own + 0)
unfolding add_stats stat Dict.get
seven_same sums = refl

module _ {h : Host} where
  -- If the caches of a fanout cache list together the keys that a single cache lists, in whatever
  -- order, then iterkeys yields the same for both, in either direction, and changes nothing.
  pub iterkeys-Fanout :
      (backwards : Bool) (c : Cache h) (cs : Fanout h) (js ks : List String)
      → Read.keys h c ≡ (ok js, c)
      → Fanout.keys h cs ≡ (ok ks, cs)
      → Perm ks js
      → (found : List String) × (iterkeys h backwards c ≡ (ok found, c))
        × (Whole.iterkeys h backwards cs ≡ (ok found, cs))
  unfolding iterkeys Whole.iterkeys
  iterkeys-Fanout backwards c cs js ks one all p = (
    (if backwards then reverse (sorted js) else sorted js),
    rw (one),
    rw (all, sorted-eq ks js p),
  )

  -- the dict of the extension module of a cache, empty where the cache is closed or it fails
  unfoldable pub counts : Cache h → Dict ℕ
  counts c = elim c.rust [ none ↦ [] | some s ↦ get_or (result_value (h.stats s)) [] ]

  -- the sum over the caches of what they have under a name
  abbrev pub total : Fanout h → String → ℕ
  total [] own = 0
  total (c ∷ cs) own = total cs own + recorded (counts c) own

  stats_returns :
      (c : Cache h)
      → (d : Dict ℕ) × (Listing.stats h c ≡ (ok d, c))
        × ((sums : String → ℕ)
            → add_stats d (seven sums) ≡ seven (λ own. sums own + recorded (counts c) own))
  unfolding Listing.stats ask counts Dict.get
  stats_returns c = elim (Option-cases c.rust) [
    | inl closed ↦ ([], rw (closed), λ sums. rw (closed) (seven_same sums))
    | inr (s, open_) ↦ elim (Result-cases (h.stats s)) [
      | inl (d, e) ↦ (renamed d, rw (open_, e), λ sums. rw (open_, e) (seven-add_stats d sums))
      | inr (x, e) ↦ ([], rw (open_, e), λ sums. rw (open_, e) (seven_same sums))
    ]
  ]

  -- On any fanout cache, stats returns and changes nothing, and its result is exactly the dict of
  -- hits, misses, sets, deletes, evictions, size and count, in this order, each of them the sum
  -- over the caches of what the extension module counts as hits, misses, sets, deletes,
  -- evictions, total_size and entry_count, where a cache that is closed or fails counts 0.
  pub stats_lem :
      (cs : Fanout h)
      → Whole.stats h cs ≡ (
        ok (
            ("hits", total cs "hits")
            ∷ ("misses", total cs "misses")
            ∷ ("sets", total cs "sets")
            ∷ ("deletes", total cs "deletes")
            ∷ ("evictions", total cs "evictions")
            ∷ ("size", total cs "total_size")
            ∷ ("count", total cs "entry_count")
            ∷ []),
        cs,
      )
  unfolding Whole.stats each
  stats_lem [] = refl
  stats_lem (c ∷ cs) =
      let (d, e, sums) = stats_returns c in rw (e, stats_lem cs) (rw (sums (total cs)))
