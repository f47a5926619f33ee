-- ===== src/Cache/Memo.antt =====
-- `memoize` and `transact`: methods that take code to run.
pub mod Key
use diskcache_rs.Base.{
  ℕ, ◌+◌, ◌-◌, String, ◌≡◌, ◌∙◌, true, false, Option, none, some, eq_refl, if◌then◌else◌,
}
use diskcache_rs.Cache.Laws.{ready, store_writes}
use diskcache_rs.Cache.Read.{get_value, contains}
use diskcache_rs.Cache.Remove
use diskcache_rs.Cache.State.{Cache}
use diskcache_rs.Cache.View.{view, has, get_or, get_value-view, contains-has}
use diskcache_rs.Cache.Write.{set}
use diskcache_rs.Exec.{Exec, Result, ok, and_then, pure, ◌>>=◌, ◌>>◌}
use diskcache_rs.Host.{Host}
use diskcache_rs.Host.Sound.{IsSound}
use diskcache_rs.Value.{Value, null, is_plain}

module _ (h : Host) where
  -- the wrapper of a memoized function, at the key of its arguments
  unfoldable pub memoized : String → Option ℕ → Exec (Cache h) Value → Exec (Cache h) Value
  memoized key expire func = do
    found ← contains h key
    if found
        then get_value h key null
        else do result ← func; set h key result expire false none; pure result

  abbrev leave : {A : Type 0} → Result A × Cache h → Result A × Cache h
  leave (r, c) = (r, record c { depth = c.depth - 1 })

  -- `with cache.transact(): body`, in one thread
  unfoldable pub transact : {A : Type 0} → Exec (Cache h) A → Exec (Cache h) A
  transact body c = leave (body (record c { depth = c.depth + 1 }))

  abbrev closing : {A : Type 0} → Result A × Cache h → Result A × Cache h
  closing (r, c) = let (closed, c') = Remove.close h c in (and_then closed (λ u. r), c')

  -- `with cache: body`
  unfoldable pub with_cache : {A : Type 0} → Exec (Cache h) A → Exec (Cache h) A
  unfolding Remove.close
  with_cache body c = closing (body c)

module _ {h : Host} (sound : IsSound h) (key : String) (expire : Option ℕ) where
  pub memoized-hit :
      (func : Exec (Cache h) Value) (c : Cache h)
      → has sound c key ≡ true
      → memoized h key expire func c ≡ (ok (get_or (view sound c key) null), c)
  unfolding memoized
  memoized-hit func c hit = rw (contains-has sound c key, hit, get_value-view sound c key null)

  -- If the key of a memoized call has no row, the function returns a plain value and the cache
  -- then takes the key, the call returns that value and leaves a cache on which a call at the
  -- same key returns it again and changes nothing, whatever its function does.
  pub memoized_once :
      (func other : Exec (Cache h) Value) (c d : Cache h) (v : Value)
      → has sound c key ≡ false
      → func c ≡ (ok v, d)
      → ready sound d key ≡ true
      → is_plain v ≡ true
      → (c' : Cache h) × (memoized h key expire func c ≡ (ok v, c'))
        × (memoized h key expire other c' ≡ (ok v, c'))
  unfolding memoized
  memoized_once func other c d v miss runs can plain =
      let (c', e, w) = store_writes sound key v expire none d can plain in
      let there : has sound c' key ≡ true = w.rows key ∙ rw (eq_refl key) in
      let value : view sound c' key ≡ some v = w.views key ∙ rw (eq_refl key) in
      (c', rw (contains-has sound c key, miss, runs, e), memoized-hit other c' there ∙ rw value)
