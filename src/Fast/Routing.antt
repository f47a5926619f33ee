-- ===== src/Fast/Routing.antt =====
-- `FastFanoutCache` as one set of entries.
use diskcache_rs.Base.{
  ℕ, String, ◌≡◌, true, Option, none, some, length, ◌==◌, str_eq, if◌then◌else◌, Bool-cases, inl,
  inr,
}
use diskcache_rs.Exec.{ok}
use diskcache_rs.Fast.{FastCache}
use diskcache_rs.Fast.Laws.{entry, Becomes, set_lem}
use diskcache_rs.Fast.Shards.{FastFanout, set}
use diskcache_rs.Host.{Host}
use diskcache_rs.Host.Sound.{IsSound}
use diskcache_rs.Pickled.Backend.{Pickles, IsKept}
use diskcache_rs.Sharded.{shard_of}
use diskcache_rs.Sharded.Places.{home, replace}
use diskcache_rs.Sharded.Routes.{route_lem, home-replace, home_same, apart}
use diskcache_rs.Value.{Value, is_plain, Bytes}

module _ {h : Host} (sound : IsSound h) (x : Pickles) (kept : IsKept x) (hash : String → ℕ) where
  abbrev entry_in : Option (FastCache x) → String → Option Bytes
  entry_in none k = none
  entry_in (some c) k = entry sound x kept c k

  -- the entry of a key, in the cache the key is routed to
  abbrev pub entry_of : FastFanout x → String → Option Bytes
  entry_of cs k = entry_in (home hash k cs) k

  -- What becomes of the whole when one cache changes at one key.
  Becomes-whole :
      (cs : FastFanout x) (k : String) (c c' : FastCache x) (o : Option Bytes)
      → home hash k cs ≡ some c
      → Becomes sound x kept c k o c'
      → (j : String)
      → entry_of (replace (shard_of hash k (length cs)) c' cs) j
        ≡ (if str_eq k j then o else entry_of cs j)
  Becomes-whole cs k c c' o here ls j =
      elim (Bool-cases (shard_of hash k (length cs) == shard_of hash j (length cs))) [
        | inl same ↦
            rw (home-replace hash cs k j c c' here, same, home_same hash cs k j c here same, ls j)
        | inr other ↦ rw (home-replace hash cs k j c c' here, other, apart hash cs k j other)
      ]

  -- If a key is routed to a cache of a FastFanoutCache, then set of a plain value without
  -- expiration returns True, and on the entries of all caches together it puts the pickle of the
  -- value at the key and changes no other key.
  pub set_whole :
      (k : String) (v d : Value) (cs : FastFanout x) (c : FastCache x)
      → home hash k cs ≡ some c
      → is_plain v ≡ true
      → (cs' : FastFanout x) × (set h x hash k v none cs ≡ (ok true, cs'))
        × ((j : String)
            → entry_of cs' j ≡ (if str_eq k j then some (sound.pickled v) else entry_of cs j))
  unfolding set
  set_whole k v d cs c here plain =
      let (c', e, ls) = set_lem sound x kept k v c plain in
      (
        replace (shard_of hash k (length cs)) c' cs,
        route_lem hash k _ cs c c' (ok true) here e,
        Becomes-whole cs k c c' (some (sound.pickled v)) here ls,
      )
