-- ===== src/Recipes/Throttle.antt =====
-- The decorator `throttle`: a key holds the time of the last call and a tally of the calls that
-- are allowed. The code's tally is a float; here it is exact, counted in parts of one over
-- `window`, which is `seconds` in microseconds, so that `rate` is `count` parts a microsecond.
pub mod Bound
pub mod Calls
use diskcache_rs.Base.{
  ℕ, zero, suc, ◌-◌, ◌*◌, ◌==◌, String, Bool, true, false, Option, none, some, List, [], ◌∷◌,
  if◌then◌else◌,
}
use diskcache_rs.Base.Int.{ℤ, pos, negsuc, ◌+ℤ◌, ◌-ℤ◌, ltb_ℤ, leb_ℤ, pos_part}
use diskcache_rs.Cache.Memo.{transact}
use diskcache_rs.Cache.Read.{get_value}
use diskcache_rs.Cache.State.{Cache}
use diskcache_rs.Cache.Write.{set}
use diskcache_rs.Exec.{
  Exec, Result, ok, raised, type_error, zero_division_error, pure, raise, lift, ◌>>=◌, ◌>>◌,
}
use diskcache_rs.Host.{Host}
use diskcache_rs.Value.{Value, null, int, pair}

-- the arguments of the decorator; `key` is the name, or that of the function
pub record Rate : Type 0 where
  pub key : String
  pub count : ℕ
  pub window : ℕ
  pub expire : Option ℕ
  pub tag : Option String

-- `i * n`
abbrev pub scale : ℤ → ℕ → ℤ
scale (pos a) n = pos (a * n)
scale (negsuc a) n = pos 0 -ℤ pos (suc a * n)

-- `last, tally = v` for a value that the decorator stored
unfoldable pub two_of : Value → Result (ℤ × ℤ)
two_of (pair (int a) (int b)) = ok (a, b)
two_of v = raised type_error

module _ (h : Host) (r : Rate) where
  -- the decorator, called at the time `now`
  unfoldable pub decorate : ℕ → Exec (Cache h) (Unit {0})
  decorate now = if r.window == 0 then raise zero_division_error else do
    set h r.key (pair (int (pos now)) (int (pos (r.count * r.window)))) r.expire false r.tag
    pure tt

  -- `if tally > count: ... elif tally >= 1: ... else: delay = (1 - tally) / rate`, and what is
  -- missing for the next call, in parts of one over `window`
  unfoldable pub spend : ℕ → ℤ → Exec (Cache h) (Option ℕ)
  spend now tally =
      if ltb_ℤ (pos (r.count * r.window)) tally
      then (do
        set h r.key (pair (int (pos now)) (int (pos (r.count * r.window) -ℤ pos r.window))) r.expire
            false none
        pure none)
      else if leb_ℤ (pos r.window) tally
      then (do
        set h r.key (pair (int (pos now)) (int (tally -ℤ pos r.window))) r.expire false none
        pure none)
      else if r.count == 0
      then raise zero_division_error
      else pure (some (pos_part (pos r.window -ℤ tally)))

  -- one turn of the loop, at the time `now`
  unfoldable pub turn : ℕ → Exec (Cache h) (Option ℕ)
  unfolding two_of spend
  turn now = transact h (do
    found ← get_value h r.key null
    both ← lift (two_of found)
    spend now (both.1 +ℤ scale (pos now -ℤ both.0) r.count))

  -- The loop, from the time `now` on, for at most as many turns as given, and whether the call was
  -- let through. `sleep now missing rate` is the time at which `sleep_func` returns that was called
  -- at the time `now` with `missing / rate`, where `rate` is the number of parts a microsecond.
  unfoldable pub wrapper : (ℕ → ℕ → ℕ → ℕ) → ℕ → ℕ → Exec (Cache h) Bool
  unfolding turn
  wrapper sleep zero now = pure false
  wrapper sleep (suc turns) now = do
    wait ← turn now
    elim wait [ none ↦ pure true | some missing ↦ wrapper sleep turns (sleep now missing r.count) ]
