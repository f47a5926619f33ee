-- ===== src/Recipes/Stampede.antt =====
-- The decorator `memoize_stampede`. The thread that computes a result again is not run here: a call
-- tells whether it starts one, and what the thread does is a step of its own. Times are
-- microseconds; `repr` of a tuple and the draw of the random test are parameters.
pub mod Once
pub mod Marks
pub mod Turns
use diskcache_rs.Base.{
  ℕ, ◌+◌, String, Bool, true, false, ◌&&◌, Option, none, some, List, [], ◌∷◌, ◌++◌, ◌==◌,
  if◌then◌else◌,
}
use diskcache_rs.Base.Int.{ℤ, pos, ◌-ℤ◌, ltb_ℤ, pos_part}
use diskcache_rs.Cache.Read.{Reply, get}
use diskcache_rs.Cache.State.{Cache, time}
use diskcache_rs.Cache.Update.{add}
use diskcache_rs.Cache.Write.{set}
use diskcache_rs.Exec.{Exec, Result, ok, raised, type_error, pure, lift, ◌>>=◌, ◌>>◌}
use diskcache_rs.Host.{Host}
use diskcache_rs.Text.{◌<>◌}
use diskcache_rs.Value.{Value, null, int, pair, other}

-- The arguments of the decorator and what the code calls. `eno` is the number of the object ENOVAL,
-- and `fresh delta ttl` the test `-delta * beta * math.log(random.random()) < ttl`.
pub record Options : Type 0 where
  pub expire : ℕ
  pub tag : Option String
  pub eno : ℕ
  pub repr : List Value → String
  pub fresh : ℤ → ℤ → Bool

-- `v is ENOVAL`
abbrev pub is_eno : Options → Value → Bool
is_eno o (other n) = n == o.eno
is_eno o v = false

-- `result, delta = v` for a pair that the wrapper stored
unfoldable pub two_of : Value → Result (Value × ℤ)
two_of (pair a (int d)) = ok (a, d)
two_of v = raised type_error

-- `_to_cache_key` of a tuple
unfoldable pub cache_key : Options → List Value → String
cache_key o key = "memoize_stampede:" <> o.repr key

-- the key of the mark that a thread has been started
unfoldable pub thread_key : Options → List Value → String
unfolding cache_key
thread_key o key = cache_key o (key ++ (other o.eno ∷ []))

module _ (h : Host) (o : Options) where
  -- `timer`: the result and the time it took
  unfoldable pub timer : Exec (Cache h) Value → Exec (Cache h) Value
  timer func = do
    start ← time h
    result ← func
    end ← time h
    pure (pair result (int (pos end -ℤ pos start)))

  -- what the thread runs
  unfoldable pub recompute : List Value → Exec (Cache h) Value → Exec (Cache h) (Unit {0})
  unfolding timer cache_key
  recompute raw_key func = do
    both ← timer func
    set h (cache_key o raw_key) both (some o.expire) false o.tag
    pure tt

  -- `expire_time - now if expire_time is not None else expire`
  abbrev pub time_left : Option (Option ℕ) → ℕ → ℤ
  time_left (some (some at)) now = pos at -ℤ pos now
  time_left _ now = pos o.expire

  -- the call when the cache has the key: the result, and whether a thread is started; a time that
  -- is below 0, of a clock set back, counts as 0 in the expiration of the mark
  unfoldable pub hit : List Value → Value → Option (Option ℕ) → Exec (Cache h) (Value × Bool)
  unfolding two_of thread_key
  hit raw_key both expire_time = do
    found ← lift (two_of both)
    now ← time h
    if ltb_ℤ (pos 0) (time_left expire_time now) && o.fresh found.1 (time_left expire_time now)
        then pure (found.0, false)
        else do
          added ← add h (thread_key o raw_key) null (some (pos_part found.1)) false none
          pure (found.0, added)

  -- the call when it has not
  unfoldable pub miss : List Value → Exec (Cache h) Value → Exec (Cache h) (Value × Bool)
  unfolding timer cache_key
  miss raw_key func = do
    both ← timer func
    set h (cache_key o raw_key) both (some o.expire) false o.tag
    found ← lift (two_of both)
    pure (found.0, false)

  unfoldable pub wrapper : List Value → Exec (Cache h) Value → Exec (Cache h) (Value × Bool)
  unfolding hit miss
  wrapper raw_key func = do
    r ← get h (cache_key o raw_key) (other o.eno) false true false
    if is_eno o r.value then miss raw_key func else hit raw_key r.value r.expire_time
