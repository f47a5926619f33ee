-- ===== src/Recipes/Mutex.antt =====
-- The class `Lock`: the lock is held while its key is in the cache. A turn of the loop of `acquire`
-- is `Cache.add`, which takes no lock: it looks for the key, and then writes it. Between the two, and
-- between two turns, other users may step.
pub mod Safety
pub mod Race
use diskcache_rs.Base.{
  ℕ, zero, suc, ◌≤◌, String, ◌≡◌, refl, sym, ◌∙◌, ap, Bool, true, false, not, Option, none, some,
  List, [], ◌∷◌, length, arith, eq_refl, inl, inr, ◌⊎◌, Bool-cases, if◌then◌else◌, ◌==◌, ◌||◌,
}
use diskcache_rs.Cache.Laws.{ready, store_writes, set_refused, IsWrite}
use diskcache_rs.Cache.Laws.Erase.{delete_erases}
use diskcache_rs.Cache.Read.{contains}
use diskcache_rs.Cache.Remove.{delete}
use diskcache_rs.Cache.State.{Cache}
use diskcache_rs.Cache.Update.{add}
use diskcache_rs.Cache.View.{has, contains-has}
use diskcache_rs.Cache.Write.{set}
use diskcache_rs.Exec.{Exec, ok, raised, pure, ◌>>=◌, ◌>>◌}
use diskcache_rs.Host.{Host}
use diskcache_rs.Host.Sound.{IsSound}
use diskcache_rs.Value.{null, is_plain}

-- the arguments of the constructor besides the cache
pub record Params : Type 0 where
  pub key : String
  pub expire : Option ℕ
  pub tag : Option String

module _ (h : Host) (p : Params) where
  -- the first half of `add` in a turn of `acquire`: `key in self`
  unfoldable pub look : Exec (Cache h) Bool
  look = contains h p.key

  -- its second half, once it is known whether the key was there
  unfoldable pub finish : Bool → Exec (Cache h) Bool
  finish found = if found then pure false else set h p.key null p.expire false p.tag

  -- one turn of `acquire`, without a step of another user in it
  unfoldable pub try_acquire : Exec (Cache h) Bool
  unfolding look finish
  try_acquire = do found ← look; finish found

  -- `acquire` for at most as many turns as given, and whether it got the lock
  unfoldable pub acquire : ℕ → Exec (Cache h) Bool
  unfolding try_acquire
  acquire zero = pure false
  acquire (suc turns) =
      let rest = acquire turns in do added ← try_acquire; if added then pure true else rest

  unfoldable pub release : Exec (Cache h) (Unit {0})
  unfolding delete
  release = do delete h p.key; pure tt

  unfoldable pub locked : Exec (Cache h) Bool
  unfolding contains
  locked = contains h p.key

-- Users are numbers.
unfoldable pub holds : ℕ → List ℕ → Bool
holds u [] = false
holds u (v ∷ us) = u == v || holds u us

-- without the first occurrence of a user
unfoldable pub leave : ℕ → List ℕ → List ℕ
leave u [] = []
leave u (v ∷ us) = let rest = leave u us in if u == v then us else v ∷ rest

module _ {h : Host} (sound : IsSound h) (p : Params) where
  -- The two halves of a turn are what `add` does.
  pub try_acquire-add : (c : Cache h) → try_acquire h p c ≡ add h p.key null p.expire false p.tag c
  unfolding try_acquire add
  try_acquire-add c = refl

  pub look-has : (c : Cache h) → look h p c ≡ (ok (has sound c p.key), c)
  unfolding look
  look-has c = contains-has sound c p.key

  pub finish_found : (c : Cache h) → finish h p true c ≡ (ok false, c)
  unfolding finish
  finish_found c = refl

  -- The second half writes the key whenever the first did not see it.
  pub finish_missing :
      (c : Cache h)
      → ready sound c p.key ≡ true
      → (c' : Cache h) × (finish h p false c ≡ (ok true, c'))
        × (has sound c' p.key ≡ true)
        × (ready sound c' p.key ≡ true)
  unfolding finish
  finish_missing c can =
      let plain : is_plain null ≡ true = unfold is_plain in refl in
      let (c', e, w) = store_writes sound p.key null p.expire p.tag c can plain in
      (c', e, w.rows p.key ∙ rw (eq_refl p.key), w.opens p.key ∙ can)

  -- A turn on a lock that nobody holds takes it.
  pub try_acquire_free :
      (c : Cache h)
      → ready sound c p.key ≡ true
      → has sound c p.key ≡ false
      → (c' : Cache h) × (try_acquire h p c ≡ (ok true, c'))
        × (has sound c' p.key ≡ true)
        × (ready sound c' p.key ≡ true)
  unfolding try_acquire
  try_acquire_free c can free =
      let (c', e, there, open_) = finish_missing c can in
      (c', rw (look-has c, free, e), there, open_)

  -- A turn on a lock that is held changes nothing.
  pub try_acquire_held :
      (c : Cache h) → has sound c p.key ≡ true → try_acquire h p c ≡ (ok false, c)
  unfolding try_acquire
  try_acquire_held c held = rw (look-has c, held, finish_found c)

  pub release_lem :
      (c : Cache h)
      → ready sound c p.key ≡ true
      → (c' : Cache h) × (release h p c ≡ (ok tt, c'))
        × (has sound c' p.key ≡ false)
        × (ready sound c' p.key ≡ true)
  unfolding release
  release_lem c can =
      let (c', e, r) = delete_erases sound p.key c can in
      (c', rw e, r.rows p.key ∙ rw (eq_refl p.key), r.opens p.key ∙ can)
