-- ===== src/Recipes/Barrier.antt =====
-- The decorator `barrier` with `Lock` as its lock: `with lock: return func(*args, **kwargs)`, run by one
-- user alone; Mutex/Race is on users of a `Lock` who overlap.
use diskcache_rs.Base.{ℕ, zero, suc, ◌≡◌, refl, true, false, Option, none, some, if◌then◌else◌}
use diskcache_rs.Cache.Laws.{ready}
use diskcache_rs.Cache.State.{Cache}
use diskcache_rs.Cache.View.{has}
use diskcache_rs.Exec.{Exec, Result, ok, raised, pure, lift, ◌>>=◌, ◌>>◌}
use diskcache_rs.Host.{Host}
use diskcache_rs.Host.Sound.{IsSound}
use diskcache_rs.Recipes.Mutex.{
  Params, acquire, release, try_acquire_free, try_acquire_held, release_lem,
}

module _ {h : Host} where
  -- what follows `func` in `__exit__`: the release, and then the result or the exception
  abbrev exit : {A : Type 0} → Params → Result A × Cache h → Result A × Cache h
  exit p (r, c) = (release h p >> lift r) c

  -- `with lock: return func()`
  unfoldable pub locked_call : {A : Type 0} → Params → Exec (Cache h) A → Exec (Cache h) A
  locked_call p func c = exit p (func c)

  -- the wrapper, with as many turns of `acquire` as given; nothing if these are not enough
  unfoldable pub wrapper : {A : Type 0} → Params → ℕ → Exec (Cache h) A → Exec (Cache h) (Option A)
  unfolding locked_call
  wrapper p turns func = do
    got ← acquire h p turns
    if got then (do a ← locked_call p func; pure (some a)) else pure none

-- the result of a wrapper that ran its function
abbrev pub finished : {A : Type 0} → Result A → Result (Option A)
finished (ok a) = ok (some a)
finished (raised e) = raised e

module _ {h : Host} (sound : IsSound h) (p : Params) where
  after_call :
      {A : Type 0} (func : Exec (Cache h) A) (c d : Cache h) (r : Result A)
      → func c ≡ (r, d)
      → ready sound d p.key ≡ true
      → (c' : Cache h) × ((do a ← locked_call p func; pure (some a)) c ≡ (finished r, c'))
        × (has sound c' p.key ≡ false)
  unfolding locked_call
  after_call func c d (ok a) runs can =
      let (c', e, gone, _) = release_lem sound p d can in (c', rw (runs, e), gone)
  after_call func c d (raised x) runs can =
      let (c', e, gone, _) = release_lem sound p d can in (c', rw (runs, e), gone)

  -- If a cache takes the key of a barrier's lock, the lock is free, and the function leaves a
  -- cache that takes the key when it is called on one that has it, then the wrapper, given at
  -- least one turn, calls the function on a cache in which the lock is held, returns its result
  -- or raises its exception, and leaves the lock free.
  pub barrier_runs :
      {A : Type 0} (turns : ℕ) (func : Exec (Cache h) A) (c : Cache h)
      → ready sound c p.key ≡ true
      → has sound c p.key ≡ false
      → ((d : Cache h) → has sound d p.key ≡ true → ready sound (func d).1 p.key ≡ true)
      → (d : Cache h) × (c' : Cache h) × (has sound d p.key ≡ true)
        × (wrapper p (suc turns) func c ≡ (finished (func d).0, c'))
        × (has sound c' p.key ≡ false)
  unfolding wrapper acquire
  barrier_runs turns func c can free stays =
      let (d, e, there, _) = try_acquire_free sound p c can free in
      let (c', e', gone) = after_call func d (func d).1 (func d).0 refl (stays d there) in
      (d, c', there, rw (e, e'), gone)

  acquire_held :
      (turns : ℕ) (c : Cache h) → has sound c p.key ≡ true → acquire h p turns c ≡ (ok false, c)
  unfolding acquire
  acquire_held zero c held = refl
  acquire_held (suc turns) c held = rw (try_acquire_held sound p c held) (acquire_held turns c held)

  -- While the lock is held, the wrapper does not call the function, whatever its number of turns.
  pub barrier_blocks :
      {A : Type 0} (turns : ℕ) (func : Exec (Cache h) A) (c : Cache h)
      → has sound c p.key ≡ true
      → wrapper p turns func c ≡ (ok none, c)
  unfolding wrapper
  barrier_blocks turns func c held = rw (acquire_held turns c held)
