-- ===== src/Cache/Remove.antt =====
-- `delete`, `del cache[key]`, `clear`, `pop`, `expire`, `evict`, `cull`, `vacuum` and `close`.
use diskcache_rs.Base.{
  ℕ, ◌+◌, String, Bool, false, ◌&&◌, not, Option, none, some, List, [], ◌∷◌, leb, str_eq,
  if◌then◌else◌,
}
use diskcache_rs.Cache.Read.{Reply, part, missing, get_value, contains, len}
use diskcache_rs.Cache.State.{Cache, call, time}
use diskcache_rs.Dict
use diskcache_rs.Dict.{Dict}
use diskcache_rs.Exec.{Exec, key_error, pure, raise, gets, attempt, modify, ◌>>=◌, ◌>>◌}
use diskcache_rs.Host.{Host}
use diskcache_rs.Value.{Value, null, is_null}

-- `[key for key, t in expire_times.items() if t <= now]`
unfoldable pub expired_keys : ℕ → Dict ℕ → List String
expired_keys now [] = []
expired_keys now ((k, t) ∷ d) =
    let rest = expired_keys now d in if leb t now then k ∷ rest else rest

-- `[k for k, t in tags.items() if t == tag]`
unfoldable pub tagged_keys : String → Dict String → List String
tagged_keys tag [] = []
tagged_keys tag ((k, t) ∷ d) =
    let rest = tagged_keys tag d in if str_eq t tag then k ∷ rest else rest

module _ (h : Host) where
  abbrev pub drop_expiry : String → Cache h → Cache h
  drop_expiry key c = record c { expire_times = Dict.remove c.expire_times key }

  -- forget the expiration time and the tag of a key
  unfoldable pub forget : String → Cache h → Cache h
  forget key c = record c {
    expire_times = Dict.remove c.expire_times key;
    tags = Dict.remove c.tags key;
  }

  unfoldable pub delete : String → Exec (Cache h) Bool
  unfolding forget
  delete key =
      attempt
        (do
          result ← call (λ s. h.delete s key)
          modify (if result then forget key else λ c. c)
          pure result)
        (pure false)

  -- `del cache[key]`
  unfoldable pub delete_item : String → Exec (Cache h) (Unit {0})
  unfolding delete
  delete_item key = do deleted ← delete key; if deleted then pure tt else raise (key_error key)

  unfoldable pub clear : Exec (Cache h) ℕ
  unfolding len
  clear =
      attempt
        (do
          count ← len h
          call h.clear
          modify (λ c. record c { expire_times = []; tags = [] })
          pure count)
        (pure 0)

  -- No part of `pop` raises, so its `except` is never reached.
  unfoldable pub pop : String → Value → Bool → Bool → Exec (Cache h) Reply
  unfolding get_value contains delete missing
  pop key default expire_time tag =
      attempt
        (do
          value ← get_value h key null
          found ← contains h key
          if is_null value && not found then pure (missing default expire_time tag) else do
            r ← gets λ c. record {
              value = value;
              expire_time = part expire_time (Dict.get c.expire_times key);
              tag = part tag (Dict.get c.tags key);
            }
            delete key
            pure r)
        (pure (missing default expire_time tag))

  -- the loop of `expire` over the keys that have expired
  unfoldable pub expire_each : List String → ℕ → Exec (Cache h) ℕ
  expire_each [] count = pure count
  expire_each (key ∷ ks) count = do
    counted ← attempt (do call (λ s. h.delete s key); pure (count + 1)) (pure count)
    modify (drop_expiry key)
    expire_each ks counted

  -- `expire(now)`; without `now` the clock is read
  unfoldable pub expire : Option ℕ → Exec (Cache h) ℕ
  unfolding expired_keys expire_each
  expire (some now) = do ks ← gets (λ c. expired_keys now c.expire_times); expire_each ks 0
  expire none = do now ← time h; ks ← gets (λ c. expired_keys now c.expire_times); expire_each ks 0

  -- the loop of `evict` over the keys with the tag
  unfoldable pub evict_each : List String → ℕ → Exec (Cache h) ℕ
  unfolding delete
  evict_each [] count = pure count
  evict_each (key ∷ ks) count = do
    deleted ← attempt (delete key) (pure false)
    evict_each ks (if deleted then count + 1 else count)

  unfoldable pub evict : String → Exec (Cache h) ℕ
  unfolding tagged_keys evict_each
  evict tag = do ks ← gets (λ c. tagged_keys tag c.tags); evict_each ks 0

  unfoldable pub vacuum : Exec (Cache h) (Unit {0})
  vacuum = call h.vacuum

  unfoldable pub cull : Exec (Cache h) ℕ
  unfolding expire vacuum
  cull = do count ← expire none; attempt vacuum (pure tt); pure count

  unfoldable pub close : Exec (Cache h) (Unit {0})
  close = modify (λ c. record c { rust = none })
