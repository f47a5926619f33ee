-- ===== src/Fanout/Clear.antt =====
-- `clear` of a fanout cache.
use diskcache_rs.Base.{
  ℕ, ◌+◌, String, ◌≡◌, true, none, some, length, is_some, Option-cases, inl, inr, arith,
}
use diskcache_rs.Cache.Laws.Erase.{clear_clears}
use diskcache_rs.Cache.Remove
use diskcache_rs.Cache.State.{Cache}
use diskcache_rs.Cache.View
use diskcache_rs.Exec.{ok}
use diskcache_rs.Fanout.{Fanout, clear}
use diskcache_rs.Fanout.Refine.{view}
use diskcache_rs.Host.{Host}
use diskcache_rs.Host.Sound.{IsSound}
use diskcache_rs.Sharded.Every.{each_goes}
use diskcache_rs.Sharded.Places.{cache_at, home}

module _ {h : Host} (sound : IsSound h) (hash : String → ℕ) where
  -- a cache with no value, expiration time or tag
  abbrev Blank : Cache h → Type 0
  Blank c = (j : String) → View.view sound c j ≡ none

  abbrev pub IsOpen : Cache h → Type 0
  IsOpen c = is_some c.rust ≡ true

  blanked :
      (c : Cache h)
      → IsOpen c
      → (n : ℕ) × (c' : Cache h) × (Remove.clear h c ≡ (ok n, c')) × Blank c'
  blanked c open_ = elim (Option-cases c.rust) [
    | inl closed ↦ absurd (ground arith)
    | inr (s, found) ↦
        let (c', e, cleared) = clear_clears sound c s found in
        (length (sound.names s), c', e, cleared.views)
  ]

  Blank-view :
      (cs : Fanout h)
      → ((i : ℕ) (c : Cache h) → cache_at i cs ≡ some c → Blank c)
      → (k : String) → view sound hash cs k ≡ none
  unfolding home view
  Blank-view cs blank k = elim (Option-cases (home hash k cs)) [
    | inl gone ↦ rw (gone, view)
    | inr (c, here) ↦ rw (here, view) (blank _ c here k)
  ]

  -- If every cache of a fanout cache is open, then clear returns, the number of caches stays the
  -- same, and no key has a value.
  pub clear_blanks :
      (cs : Fanout h)
      → ((i : ℕ) (c : Cache h) → cache_at i cs ≡ some c → IsOpen c)
      → (n : ℕ) × (cs' : Fanout h) × (clear h cs ≡ (ok n, cs'))
        × (length cs' ≡ length cs)
        × ((k : String) → view sound hash cs' k ≡ none)
  unfolding clear
  clear_blanks cs all =
      let (n, cs', e, len, blank) =
        each_goes (Remove.clear h) (λ n rest. n + rest) 0 IsOpen Blank blanked cs all in
      (n, cs', e, len, Blank-view cs' blank)
