-- ===== src/Recipes/Reentrant.antt =====
-- The class `RLock`: the key has the name of the owner and how often it holds the lock. A user is
-- the text of its process and thread numbers.
pub mod Safety
use diskcache_rs.Base.{
  ℕ, zero, suc, String, ◌≡◌, refl, ◌∙◌, Bool, true, false, ◌&&◌, ◌||◌, not, Option, none, some,
  eq_refl, inl, inr, Bool-cases, str_eq, arith, if◌then◌else◌,
}
use diskcache_rs.Base.Int.{ℤ, pos, ◌+ℤ◌, ◌-ℤ◌, ltb_ℤ, eqb_ℤ, int_laws}
use diskcache_rs.Cache.Laws.{ready, store_writes}
use diskcache_rs.Cache.Read.{get_value}
use diskcache_rs.Cache.State.{Cache}
use diskcache_rs.Cache.View.{view, get_or, get_value-view}
use diskcache_rs.Cache.Write.{set}
use diskcache_rs.Exec.{
  Exec, Result, ok, raised, type_error, assertion_error, pure, raise, lift, ◌>>=◌, ◌>>◌,
}
use diskcache_rs.Host.{Host}
use diskcache_rs.Host.Sound.{IsSound}
use diskcache_rs.Recipes.Mutex.{Params}
use diskcache_rs.Value.{Value, null, int, text, pair, is_plain}

-- `value, count = …`; counts that are no integers are left out
unfoldable pub owner_and_count : Value → Result (Value × ℤ)
owner_and_count (pair v (int n)) = ok (v, n)
owner_and_count _ = raised type_error

-- `pid_tid == value`
unfoldable pub is_name : String → Value → Bool
is_name user (text t) = str_eq user t
is_name user _ = false

module _ (h : Host) (p : Params) where
  -- `self._cache.get(self._key, default=(None, 0))`
  unfoldable pub state : Exec (Cache h) (Value × ℤ)
  unfolding owner_and_count
  state = do v ← get_value h p.key (pair null (int (pos 0))); lift (owner_and_count v)

  unfoldable pub store : Value → ℤ → Exec (Cache h) Bool
  store owner count = set h p.key (pair owner (int count)) p.expire false p.tag

  -- one turn of `acquire`
  unfoldable pub try_acquire : String → Exec (Cache h) Bool
  unfolding state store is_name
  try_acquire user = do
    (value, count) ← state
    if is_name user value || eqb_ℤ count (pos 0)
        then (do store (text user) (count +ℤ pos 1); pure true)
        else pure false

  -- `acquire` for at most as many turns as given, and whether it got the lock
  unfoldable pub acquire : String → ℕ → Exec (Cache h) Bool
  unfolding try_acquire
  acquire user zero = pure false
  acquire user (suc turns) =
      let rest = acquire user turns in do got ← try_acquire user; if got then pure true else rest

  unfoldable pub release : String → Exec (Cache h) (Unit {0})
  unfolding state store is_name
  release user = do
    (value, count) ← state
    if is_name user value && ltb_ℤ (pos 0) count
        then (do store value (count -ℤ pos 1); pure tt)
        else raise assertion_error

module _ {h : Host} (sound : IsSound h) (p : Params) where
  -- the cache takes the key, and the owner there holds the lock `n` times
  pub record IsHeld (c : Cache h) (owner : Value) (n : ℕ) : Type 0 where
    pub takes : ready sound c p.key ≡ true
    pub entry :
        owner_and_count (get_or (view sound c p.key) (pair null (int (pos 0)))) ≡ ok (owner, pos n)

  state_lem : (c : Cache h) (o : Value) (n : ℕ) → IsHeld c o n → state h p c ≡ (ok (o, pos n), c)
  unfolding state
  state_lem c o n s = rw (get_value-view sound c p.key (pair null (int (pos 0))), s.entry)

  store_lem :
      (c : Cache h) (o : Value) (n : ℕ) (user : String) (m : ℕ)
      → IsHeld c o n
      → (c' : Cache h) × (store h p (text user) (pos m) c ≡ (ok true, c')) × IsHeld c' (text user) m
  unfolding store owner_and_count
  store_lem c o n user m s =
      let plain : is_plain (pair (text user) (int (pos m))) ≡ true = unfold is_plain in refl in
      let (c', e, w) =
        store_writes sound p.key (pair (text user) (int (pos m))) p.expire p.tag c s.takes plain in
      (c', e, record { takes = w.opens p.key ∙ s.takes; entry = rw (w.views p.key, eq_refl p.key) })

  one_more : (n : ℕ) → pos n +ℤ pos 1 ≡ pos (suc n)
  one_more n = omega int_laws

  one_less : (n : ℕ) → pos (suc n) -ℤ pos 1 ≡ pos n
  one_less n = omega int_laws

  -- The lock is free, or the user has it: a turn takes it once more.
  pub try_acquire_open :
      (c : Cache h) (o : Value) (n : ℕ) (user : String)
      → IsHeld c o n
      → is_name user o || eqb_ℤ (pos n) (pos 0) ≡ true
      → (c' : Cache h) × (try_acquire h p user c ≡ (ok true, c')) × IsHeld c' (text user) (suc n)
  unfolding try_acquire
  try_acquire_open c o n user s open_ =
      let (c', e, s') = store_lem c o n user (suc n) s in
      (c', rw (state_lem c o n s, open_, one_more n, e), s')

  pub try_acquire_busy :
      (c : Cache h) (o : Value) (n : ℕ) (user : String)
      → IsHeld c o n
      → is_name user o || eqb_ℤ (pos n) (pos 0) ≡ false
      → try_acquire h p user c ≡ (ok false, c)
  unfolding try_acquire
  try_acquire_busy c o n user s busy = rw (state_lem c o n s, busy)

  pub release-IsHeld :
      (c : Cache h) (user : String) (n : ℕ)
      → IsHeld c (text user) (suc n)
      → (c' : Cache h) × (release h p user c ≡ (ok tt, c')) × IsHeld c' (text user) n
  unfolding release is_name
  release-IsHeld c user n s =
      let (c', e, s') = store_lem c (text user) (suc n) user n s in
      let more : ltb_ℤ (pos 0) (pos (suc n)) ≡ true = ground arith in
      (c', rw (state_lem c (text user) (suc n) s, eq_refl user, more, one_less n, e), s')

  pub release_refused :
      (c : Cache h) (o : Value) (n : ℕ) (user : String)
      → IsHeld c o n
      → is_name user o && ltb_ℤ (pos 0) (pos n) ≡ false
      → release h p user c ≡ (raised assertion_error, c)
  unfolding release
  release_refused c o n user s foreign = rw (state_lem c o n s, foreign)

  -- A lock that is free, or that the user has, is got on the first turn.
  pub acquire_open :
      (c : Cache h) (o : Value) (n : ℕ) (user : String) (turns : ℕ)
      → IsHeld c o n
      → is_name user o || eqb_ℤ (pos n) (pos 0) ≡ true
      → (c' : Cache h) × (acquire h p user (suc turns) c ≡ (ok true, c'))
        × IsHeld c' (text user) (suc n)
  unfolding acquire
  acquire_open c o n user turns s open_ =
      let (c', e, s') = try_acquire_open c o n user s open_ in (c', rw e, s')
