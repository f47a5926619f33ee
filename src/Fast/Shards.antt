-- ===== src/Fast/Shards.antt =====
-- The class `FastFanoutCache` of python/diskcache_rs/fast_cache.py: a list of caches, and the hash of
-- a key decides which of them has it. The hash, eight bytes of BLAKE2b as a number, is a parameter.
use diskcache_rs.Base.{ℕ, ◌+◌, String, Bool, Option, none, some, List, [], ◌++◌}
use diskcache_rs.Base.Int.{ℤ}
use diskcache_rs.Cache.Read.{Reply}
use diskcache_rs.Dict
use diskcache_rs.Dict.{Dict}
use diskcache_rs.Exec.{Exec}
use diskcache_rs.Fast
use diskcache_rs.Fast.{FastCache}
use diskcache_rs.Host.{Host}
use diskcache_rs.Pickled.Backend.{Pickles}
use diskcache_rs.Sharded.{each, route}
use diskcache_rs.Value.{Value}

-- `_caches`; `shards` is its length
abbrev pub FastFanout : Pickles → Type 0
FastFanout x = List (FastCache x)

module _ (h : Host) (x : Pickles) (hash : String → ℕ) where
  unfoldable pub set : String → Value → Option ℤ → Exec (FastFanout x) Bool
  unfolding route
  set key value expire = route hash key (Fast.set h x key value expire)

  unfoldable pub get : String → Value → Bool → Bool → Exec (FastFanout x) Reply
  unfolding route
  get key default expire_time tag = route hash key (Fast.get h x key default expire_time tag)

  unfoldable pub get_value : String → Value → Exec (FastFanout x) Value
  unfolding route
  get_value key default = route hash key (Fast.get_value h x key default)

  unfoldable pub delete : String → Exec (FastFanout x) Bool
  unfolding route
  delete key = route hash key (Fast.delete h x key)

  unfoldable pub exists : String → Exec (FastFanout x) Bool
  unfolding route
  exists key = route hash key (Fast.exists h x key)

  unfoldable pub get_item : String → Exec (FastFanout x) Value
  unfolding route
  get_item key = route hash key (Fast.get_item h x key)

  unfoldable pub set_item : String → Value → Exec (FastFanout x) (Unit {0})
  unfolding route
  set_item key value = route hash key (Fast.set_item h x key value)

  unfoldable pub delete_item : String → Exec (FastFanout x) (Unit {0})
  unfolding route
  delete_item key = route hash key (Fast.delete_item h x key)

-- `stats.get(name, 0)`
abbrev pub counted : Dict ℕ → String → ℕ
counted d name = elim (Dict.get d name) [ none ↦ 0 | some n ↦ n ]

module _ (h : Host) (x : Pickles) where
  unfoldable pub keys : Exec (FastFanout x) (List String)
  unfolding each
  keys = each (Fast.keys h x) (λ ks rest. ks ++ rest) []

  unfoldable pub clear : Exec (FastFanout x) (Unit {0})
  unfolding each
  clear = each (Fast.clear h x) (λ u rest. rest) tt

  -- the two sums that `stats` returns, "entries" and "size_bytes"
  unfoldable pub stats : Exec (FastFanout x) (ℕ × ℕ)
  unfolding each
  stats =
      each (Fast.stats h x)
        (λ d sums. (counted d "entries" + sums.0, counted d "size_bytes" + sums.1)) (0, 0)

  unfoldable pub len : Exec (FastFanout x) ℕ
  unfolding each
  len = each (Fast.len h x) (λ n rest. n + rest) 0
