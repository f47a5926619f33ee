-- ===== src/Fast.antt =====
-- The classes `FastCache` and `FastFanoutCache` of python/diskcache_rs/fast_cache.py, over a
-- `PickleCache`.
pub mod Shards
pub mod Laws
pub mod Routing
pub mod Lifetime
pub mod Open
use diskcache_rs.Base.{
  ℕ, suc, ◌+◌, ◌-◌, ◌*◌, ◌/◌, String, Bool, true, false, not, Option, none, some, List, ltb, ◌==◌,
  if◌then◌else◌, length,
}
use diskcache_rs.Base.Int.{ℤ, pos, negsuc, ◌+ℤ◌, ◌-ℤ◌, ltb_ℤ}
use diskcache_rs.Cache.Read.{Reply, part}
use diskcache_rs.Cache.Write.{second}
use diskcache_rs.Dict
use diskcache_rs.Dict.{Dict}
use diskcache_rs.Exec.{
  Exec, Result, ok, raised, key_error, value_error, pure, raise, lift, attempt, ◌>>=◌, ◌>>◌,
}
use diskcache_rs.Host.{Host}
use diskcache_rs.Pickled
use diskcache_rs.Pickled.Backend.{Pickles}
use diskcache_rs.Value.{Value, null, int, other, is_null}

-- `rust` is `_cache`; `reads` counts the readings of the clock.
pub record FastCache (x : Pickles) : Type 0 where
  pub rust : x.State
  pub reads : ℕ

-- `int()` of a number of microseconds as seconds, which cuts towards zero
unfoldable pub whole_seconds : ℤ → ℤ
whole_seconds (pos n) = pos (n / second)
whole_seconds (negsuc n) = if ltb (suc n) second then pos 0 else negsuc (suc n / second - 1)

-- `expire > time.time()` at a reading of the clock
abbrev pub ahead : ℤ → ℕ → Bool
ahead expire now = ltb_ℤ (pos now) expire

module _ {x : Pickles} {A : Type 0} where
  -- a method of `self._cache`
  unfoldable pub inner : Exec x.State A → Exec (FastCache x) A
  inner f c = let (r, s) = f c.rust in (r, record c { rust = s })

-- `time.time()`
unfoldable pub time : (h : Host) (x : Pickles) → Exec (FastCache x) ℕ
time h x c = (ok (h.clock c.reads), record c { reads = c.reads + 1 })

module _ (h : Host) (x : Pickles) where
  -- the time to live, of an `expire` in microseconds: a time if it lies ahead of the clock, else a
  -- duration
  unfoldable pub ttl_of : ℤ → Exec (FastCache x) ℤ
  unfolding whole_seconds time
  ttl_of expire = do
    now ← time h x
    if ahead expire now
        then (do later ← time h x; pure (whole_seconds (expire -ℤ pos later)))
        else pure (whole_seconds expire)

  unfoldable pub ttl_or_none : Option ℤ → Exec (FastCache x) (Option ℤ)
  unfolding ttl_of
  ttl_or_none none = pure none
  ttl_or_none (some expire) = do t ← ttl_of expire; pure (some t)

  unfoldable pub set : String → Value → Option ℤ → Exec (FastCache x) Bool
  unfolding ttl_or_none inner
  set key value expire =
      attempt (do t ← ttl_or_none expire; inner (Pickled.set h x key value t); pure true)
        (pure false)

  unfoldable pub ttl : String → Exec (FastCache x) (Option ℕ)
  unfolding inner
  ttl key = inner (Pickled.ttl h x key)

  -- the time at which an entry expires, from what it has to live
  unfoldable pub expires_at : String → Exec (FastCache x) (Option ℕ)
  unfolding inner time
  expires_at key = do
    t ← inner (Pickled.ttl h x key)
    elim t [
      | none ↦ pure none
      | some seconds ↦ (do now ← time h x; pure (some (now + seconds * second)))
    ]

  -- `get`; what is not asked for is left out, and all of it after an exception
  unfoldable pub get : String → Value → Bool → Bool → Exec (FastCache x) Reply
  unfolding inner expires_at
  get key default expire_time tag =
      attempt
        (do
          value ← inner (Pickled.get h x key default)
          at ← (if expire_time then expires_at key else pure none)
          pure (record { value = value; expire_time = part expire_time at; tag = part tag none }))
        (pure (record { value = default; expire_time = none; tag = none }))

  unfoldable pub get_value : String → Value → Exec (FastCache x) Value
  unfolding get
  get_value key default = do r ← get key default false false; pure r.value

  unfoldable pub delete : String → Exec (FastCache x) Bool
  unfolding inner
  delete key = inner (Pickled.delete h x key)

  unfoldable pub exists : String → Exec (FastCache x) Bool
  unfolding inner
  exists key = inner (Pickled.exists h x key)

  unfoldable pub keys : Exec (FastCache x) (List String)
  unfolding inner
  keys = inner (Pickled.keys h x)

  unfoldable pub clear : Exec (FastCache x) (Unit {0})
  unfolding inner
  clear = inner (Pickled.clear h x)

  unfoldable pub stats : Exec (FastCache x) (Dict ℕ)
  unfolding inner
  stats = inner (Pickled.stats h x)

  unfoldable pub expire : String → ℤ → Exec (FastCache x) Bool
  unfolding inner
  expire key t = inner (Pickled.expire h x key t)

  -- `cache[key]`
  unfoldable pub get_item : String → Exec (FastCache x) Value
  unfolding get_value exists
  get_item key = do
    result ← get_value key null
    if not (is_null result)
        then pure result
        else do found ← exists key; if not found then raise (key_error key) else pure result

  unfoldable pub set_item : String → Value → Exec (FastCache x) (Unit {0})
  unfolding set
  set_item key value = do set key value none; pure tt

  unfoldable pub delete_item : String → Exec (FastCache x) (Unit {0})
  unfolding delete
  delete_item key = do deleted ← delete key; if not deleted then raise (key_error key) else pure tt

  unfoldable pub len : Exec (FastCache x) ℕ
  unfolding keys
  len = do ks ← keys; pure (length ks)

  unfoldable pub add : String → Value → Option ℤ → Exec (FastCache x) Bool
  unfolding exists set
  add key value expires = do found ← exists key; if found then pure false else set key value expires

  unfoldable pub touch : String → Option ℤ → Exec (FastCache x) Bool
  unfolding exists ttl_or_none expire
  touch key expires = do
    found ← exists key
    if not found then pure false else do
      t ← ttl_or_none expires
      elim t [ none ↦ pure true | some seconds ↦ expire key seconds ]

  unfoldable pub pop : String → Value → Exec (FastCache x) Value
  unfolding get_value exists delete
  pop key default = do
    value ← get_value key default
    found ← exists key
    if found then (do delete key; pure value) else pure value

  unfoldable pub volume : Exec (FastCache x) ℕ
  unfolding stats
  volume = do d ← stats; pure (elim (Dict.get d "size_bytes") [ none ↦ 0 | some n ↦ n ])

-- `plus` is `a + b` for an object that is no integer but a number, and nothing for other objects
module _ (h : Host) (x : Pickles) (plus : ℕ → ℤ → Option Value) where
  -- the sum of a number and an integer; anything else raises ValueError
  unfoldable pub sum : Value → ℤ → Result Value
  sum (int i) delta = ok (int (i +ℤ delta))
  sum (other n) delta = elim (plus n delta) [ none ↦ raised value_error | some v ↦ ok v ]
  sum v delta = raised value_error

  unfoldable pub incr : String → ℤ → Exec (FastCache x) Value
  unfolding get_value set sum
  incr key delta =
      attempt
        (do
          current ← get_value h x key (int (pos 0))
          new_value ← lift (sum current delta)
          set h x key new_value none
          pure new_value)
        (raise value_error)

  unfoldable pub decr : String → ℤ → Exec (FastCache x) Value
  unfolding incr
  decr key delta = incr key (pos 0 -ℤ delta)
