-- ===== src/Recipes/Semaphore.antt =====
-- The class `BoundedSemaphore`: the key has the number of permits that are left.
pub mod Safety
use diskcache_rs.Base.{
  ℕ, zero, suc, String, ◌≡◌, refl, ◌∙◌, Bool, true, false, not, Option, none, some, eq_refl, inl,
  inr, Bool-cases, if◌then◌else◌,
}
use diskcache_rs.Base.Int.{ℤ, pos, ◌+ℤ◌, ◌-ℤ◌, ltb_ℤ}
use diskcache_rs.Cache.Laws.{ready, store_writes, plain_int}
use diskcache_rs.Cache.Read.{get_value}
use diskcache_rs.Cache.State.{Cache}
use diskcache_rs.Cache.View.{view, get_or, get_value-view}
use diskcache_rs.Cache.Write.{set}
use diskcache_rs.Exec.{
  Exec, Result, ok, raised, type_error, assertion_error, pure, raise, lift, ◌>>=◌, ◌>>◌,
}
use diskcache_rs.Host.{Host}
use diskcache_rs.Host.Sound.{IsSound}
use diskcache_rs.Value.{Value, int}

-- the arguments of the constructor besides the cache
pub record Params : Type 0 where
  pub key : String
  pub value : ℤ
  pub expire : Option ℕ
  pub tag : Option String

-- what a comparison with an integer takes; numbers that are no integers are left out
unfoldable pub as_int : Value → Result ℤ
as_int (int i) = ok i
as_int _ = raised type_error

module _ (h : Host) (p : Params) where
  -- `self._cache.get(self._key, default=self._value)`
  unfoldable pub left : Exec (Cache h) ℤ
  unfolding as_int
  left = do v ← get_value h p.key (int p.value); lift (as_int v)

  unfoldable pub store : ℤ → Exec (Cache h) Bool
  store n = set h p.key (int n) p.expire false p.tag

  -- one turn of `acquire`
  unfoldable pub try_acquire : Exec (Cache h) Bool
  unfolding left store
  try_acquire = do
    n ← left
    if ltb_ℤ (pos 0) n then (do store (n -ℤ pos 1); pure true) else pure false

  -- `acquire` for at most as many turns as given, and whether it got a permit
  unfoldable pub acquire : ℕ → Exec (Cache h) Bool
  unfolding try_acquire
  acquire zero = pure false
  acquire (suc turns) =
      let rest = acquire turns in do got ← try_acquire; if got then pure true else rest

  unfoldable pub release : Exec (Cache h) (Unit {0})
  unfolding left store
  release = do
    n ← left
    if ltb_ℤ n p.value then (do store (n +ℤ pos 1); pure tt) else raise assertion_error

module _ {h : Host} (sound : IsSound h) (p : Params) where
  -- the cache takes the key and has `n` permits left there
  pub record IsLeft (c : Cache h) (n : ℤ) : Type 0 where
    pub takes : ready sound c p.key ≡ true
    pub count : as_int (get_or (view sound c p.key) (int p.value)) ≡ ok n

  left_lem : (c : Cache h) (n : ℤ) → IsLeft c n → left h p c ≡ (ok n, c)
  unfolding left
  left_lem c n s = rw (get_value-view sound c p.key (int p.value), s.count)

  store_lem :
      (c : Cache h) (n m : ℤ)
      → IsLeft c n
      → (c' : Cache h) × (store h p m c ≡ (ok true, c')) × IsLeft c' m
  unfolding store as_int
  store_lem c n m s =
      let (c', e, w) =
        store_writes sound p.key (int m) p.expire p.tag c s.takes (plain_int sound m) in
      (c', e, record { takes = w.opens p.key ∙ s.takes; count = rw (w.views p.key, eq_refl p.key) })

  pub try_acquire_lem :
      (c : Cache h) (n : ℤ)
      → IsLeft c n
      → (ltb_ℤ (pos 0) n ≡ true
          → (c' : Cache h) × (try_acquire h p c ≡ (ok true, c')) × IsLeft c' (n -ℤ pos 1))
        × (ltb_ℤ (pos 0) n ≡ false → try_acquire h p c ≡ (ok false, c))
  unfolding try_acquire
  try_acquire_lem c n s =
      let (c', e, s') = store_lem c n (n -ℤ pos 1) s in
      (
        λ some_left. (c', rw (left_lem c n s, some_left, e), s'),
        λ none_left. rw (left_lem c n s, none_left),
      )

  pub release_lem :
      (c : Cache h) (n : ℤ)
      → IsLeft c n
      → (ltb_ℤ n p.value ≡ true
          → (c' : Cache h) × (release h p c ≡ (ok tt, c')) × IsLeft c' (n +ℤ pos 1))
        × (ltb_ℤ n p.value ≡ false → release h p c ≡ (raised assertion_error, c))
  unfolding release
  release_lem c n s =
      let (c', e, s') = store_lem c n (n +ℤ pos 1) s in
      (λ taken. (c', rw (left_lem c n s, taken, e), s'), λ all_left. rw (left_lem c n s, all_left))

  -- A permit that is left is got on the first turn.
  pub acquire_lem :
      (c : Cache h) (n : ℤ) (turns : ℕ)
      → IsLeft c n
      → ltb_ℤ (pos 0) n ≡ true
      → (c' : Cache h) × (acquire h p (suc turns) c ≡ (ok true, c')) × IsLeft c' (n -ℤ pos 1)
  unfolding acquire
  acquire_lem c n turns s some_left =
      let (takes, spins) = try_acquire_lem c n s in
      let (c', e, s') = takes some_left in (c', rw e, s')
