-- ===== src/Sharded/Routes.antt =====
-- A routed method acts on the object of its key alone.
use diskcache_rs.Base.{
  ℕ, String, ◌≡◌, ap, true, false, some, List, [], ◌∷◌, length, ◌==◌, arith, if◌then◌else◌, str_eq,
  eq_iff, inl, inr, Bool-cases,
}
use diskcache_rs.Exec.{Exec, Result}
use diskcache_rs.Sharded.{route, shard_of}
use diskcache_rs.Sharded.Places.{
  cache_at, replace, length-replace, cache_at-replace, replace_same, on_lem, home,
}

module _ {S : Type 0} (hash : String → ℕ) where
  pub nonempty : (i : ℕ) (cs : List S) (c : S) → cache_at i cs ≡ some c → (length cs == 0) ≡ false
  unfolding cache_at
  nonempty i [] c e = absurd (ground arith)
  nonempty i (d ∷ cs) c e = ground arith

  -- A routed method acts on the cache of the key.
  pub route_lem :
      {A : Type 0} (k : String) (f : Exec (S) A) (cs : List S) (c c' : S) (r : Result A)
      → home hash k cs ≡ some c
      → f c ≡ (r, c')
      → route hash k f cs ≡ (r, replace (shard_of hash k (length cs)) c' cs)
  unfolding route home
  route_lem k f cs c c' r here e = rw (nonempty _ cs c here, on_lem _ f c cs here, e)

  pub home_kept :
      (cs : List S) (k : String) (c : S)
      → home hash k cs ≡ some c
      → replace (shard_of hash k (length cs)) c cs ≡ cs
  unfolding home
  home_kept cs k c here = replace_same _ c cs here

  -- After a change of one cache, the others are where they were.
  pub home-replace :
      (cs : List S) (k j : String) (c c' : S)
      → home hash k cs ≡ some c
      → home hash j (replace (shard_of hash k (length cs)) c' cs) ≡ (
          if shard_of hash k (length cs) == shard_of hash j (length cs)
          then some c'
          else home hash j cs)
  unfolding home
  home-replace cs k j c c' here =
      let i = shard_of hash k (length cs) in
      rw (length-replace i c' cs) (cache_at-replace i (shard_of hash j (length cs)) c' c cs here)

  -- a key in the same cache as `k` has that cache
  pub home_same :
      (cs : List S) (k j : String) (c : S)
      → home hash k cs ≡ some c
      → (shard_of hash k (length cs) == shard_of hash j (length cs)) ≡ true
      → home hash j cs ≡ some c
  unfolding home
  home_same cs k j c here same =
      let e : shard_of hash k (length cs) ≡ shard_of hash j (length cs) = ground arith in
      rw (← e) here

  -- keys in other caches are other keys
  pub apart :
      (cs : List S) (k j : String)
      → (shard_of hash k (length cs) == shard_of hash j (length cs)) ≡ false
      → str_eq k j ≡ false
  apart cs k j other = elim (Bool-cases (str_eq k j)) [
    | inl same ↦
        let e : k ≡ j = (eq_iff k j).0 same in
        absurd (ground (arith, ap (λ x. shard_of hash x (length cs)) e))
    | inr different ↦ different
  ]
