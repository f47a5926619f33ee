-- ===== src/Fanout/Whole.antt =====
-- The other methods of `FanoutCache`: those on all of its caches, those on the first, and the ones
-- that run a function.
use diskcache_rs.Base.{
  ℕ, ◌+◌, ◌-◌, String, Bool, true, false, Option, none, some, List, [], ◌∷◌, ◌++◌, map, reverse,
  if◌then◌else◌,
}
use diskcache_rs.Base.Int.{ℤ}
use diskcache_rs.Cache.Check
use diskcache_rs.Cache.Check.{Warning}
use diskcache_rs.Cache.Listing
use diskcache_rs.Cache.Listing.{sorted, first_or_last, stat}
use diskcache_rs.Cache.Memo.Key
use diskcache_rs.Cache.Memo.Key.{Printer}
use diskcache_rs.Recipes.Keys.{Ignored}
use diskcache_rs.Cache.Queue
use diskcache_rs.Cache.Queue.{Pulled}
use diskcache_rs.Cache.Read
use diskcache_rs.Cache.Read.{Reply, part}
use diskcache_rs.Cache.Remove
use diskcache_rs.Cache.Settings
use diskcache_rs.Cache.State.{Cache}
use diskcache_rs.Dict
use diskcache_rs.Dict.{Dict}
use diskcache_rs.Exec.{Exec, Result, ok, and_then, key_error, pure, raise, gets, ◌>>=◌, ◌>>◌}
use diskcache_rs.Fanout
use diskcache_rs.Fanout.{Fanout, keys}
use diskcache_rs.Host.{Host}
use diskcache_rs.Sharded.{each, route, on}
use diskcache_rs.Value.{Value, null}

-- the counts that `stats` sums up, added to those of one cache
unfoldable pub add_stats : Dict ℕ → Dict ℕ → Dict ℕ
unfolding stat
add_stats d [] = []
add_stats d ((name, n) ∷ sums) = (name, n + stat d name) ∷ add_stats d sums

abbrev pub no_stats : Dict ℕ
no_stats =
    ("hits", 0)
    ∷ ("misses", 0)
    ∷ ("sets", 0)
    ∷ ("deletes", 0)
    ∷ ("evictions", 0)
    ∷ ("size", 0)
    ∷ ("count", 0)
    ∷ []

module _ (h : Host) where
  unfoldable pub stats : Exec (Fanout h) (Dict ℕ)
  unfolding each add_stats
  stats = each (Listing.stats h) add_stats no_stats

  unfoldable pub volume : Exec (Fanout h) ℕ
  unfolding each
  volume = each (Listing.volume h) (λ n rest. n + rest) 0

  unfoldable pub iterkeys : Bool → Exec (Fanout h) (List String)
  unfolding sorted
  iterkeys backwards = do ks ← keys h; pure (if backwards then reverse (sorted ks) else sorted ks)

  -- `reversed(self)`
  unfoldable pub reversed : Exec (Fanout h) (List String)
  unfolding iterkeys
  reversed = iterkeys true

  -- the method `keys`; `__iter__` yields the same
  unfoldable pub all_keys : Exec (Fanout h) (List String)
  all_keys = keys h

  unfoldable pub create_tag_index : Exec (Fanout h) (Unit {0})
  unfolding each
  create_tag_index = each (Listing.create_tag_index h) (λ u rest. rest) tt

  unfoldable pub drop_tag_index : Exec (Fanout h) (Unit {0})
  unfolding each
  drop_tag_index = each (Listing.drop_tag_index h) (λ u rest. rest) tt

  unfoldable pub cull : Exec (Fanout h) ℕ
  unfolding each
  cull = each (Remove.cull h) (λ n rest. n + rest) 0

  unfoldable pub evict : String → Exec (Fanout h) ℕ
  unfolding each
  evict tag = each (Remove.evict h tag) (λ n rest. n + rest) 0

  unfoldable pub vacuum : Exec (Fanout h) (Unit {0})
  unfolding each
  vacuum = each (Remove.vacuum h) (λ u rest. rest) tt

  unfoldable pub values : Exec (Fanout h) (List Value)
  unfolding each
  values = each (Listing.values h) (λ vs rest. vs ++ rest) []

  unfoldable pub items : Exec (Fanout h) (List (String × Value))
  unfolding each
  items = each (Listing.items h) (λ kvs rest. kvs ++ rest) []

  -- the warnings of each cache, with the number of the cache, from the `i`-th on
  unfoldable pub numbered : ℕ → List (List Warning) → List (ℕ × Warning)
  numbered i [] = []
  numbered i (ws ∷ rest) = map (λ w. (i, w)) ws ++ numbered (i + 1) rest

  unfoldable pub check : Bool → Exec (Fanout h) (List (ℕ × Warning))
  unfolding each numbered
  check fix = do found ← each (Check.check h fix) (λ ws rest. ws ∷ rest) []; pure (numbered 0 found)

  -- The result of the last cache, and None without one; the caches take no part.
  unfoldable pub reset : String → Value → Exec (Fanout h) Value
  reset key value cs = elim cs [
    | [] ↦ (ok null, [])
    | c ∷ rest ↦ (ok (Settings.reset key value true), c ∷ rest)
  ]

  -- the first cache has the queues
  unfoldable pub push :
      Value → Option String → String → Option ℕ → Option String → Exec (Fanout h) ℤ
  unfolding on
  push value prefix side expire tag = on 0 (Queue.push h value prefix side expire tag)

  unfoldable pub pull :
      Option String → Value × Value → String → Bool → Bool → Exec (Fanout h) Pulled
  unfolding on
  pull prefix default side expire_time tag = on 0 (Queue.pull h prefix default side expire_time tag)

  unfoldable pub peek :
      Option String → Value × Value → String → Bool → Bool → Exec (Fanout h) Pulled
  unfolding on
  peek prefix default side expire_time tag = on 0 (Queue.peek h prefix default side expire_time tag)

  -- `with cache.transact(): body`, in one thread
  abbrev entered : Cache h → Cache h
  entered c = record c { depth = c.depth + 1 }

  abbrev left : Cache h → Cache h
  left c = record c { depth = c.depth - 1 }

  abbrev leave : {A : Type 0} → Result A × Fanout h → Result A × Fanout h
  leave (r, cs) = (r, map left cs)

  unfoldable pub transact : {A : Type 0} → Exec (Fanout h) A → Exec (Fanout h) A
  transact body cs = leave (body (map entered cs))

  abbrev closing : {A : Type 0} → Result A × Fanout h → Result A × Fanout h
  closing (r, cs) = let (closed, cs') = Fanout.close h cs in (and_then closed (λ u. r), cs')

  -- `with cache: body`
  unfoldable pub with_fanout : {A : Type 0} → Exec (Fanout h) A → Exec (Fanout h) A
  unfolding Fanout.close
  with_fanout body cs = closing (body cs)

  module _ (hash : String → ℕ) where
    unfoldable pub exists : String → Exec (Fanout h) Bool
    unfolding route
    exists key = route hash key (Read.exists h key)

    unfoldable pub read : String → Exec (Fanout h) Value
    unfolding route
    read key = route hash key (Read.read h key)

    -- the value of a key with what was asked for
    unfoldable pub peek_reply : String → Bool → Bool → Exec (Fanout h) (String × Reply)
    unfolding route
    peek_reply key expire_time tag = do
      value ← Fanout.get_value h hash key null
      at ← route hash key (gets (λ c. Dict.get c.expire_times key))
      tagged ← route hash key (gets (λ c. Dict.get c.tags key))
      pure (key, record { value = value; expire_time = part expire_time at; tag = part tag tagged })

    unfoldable pub peek_chosen : Option String → Bool → Bool → Exec (Fanout h) (String × Reply)
    unfolding peek_reply
    peek_chosen none expire_time tag = raise (key_error "cache is empty")
    peek_chosen (some key) expire_time tag = peek_reply key expire_time tag

    unfoldable pub peekitem : Bool → Bool → Bool → Exec (Fanout h) (String × Reply)
    unfolding sorted first_or_last peek_chosen
    peekitem last expire_time tag = do
      ks ← keys h
      peek_chosen (first_or_last last (sorted ks)) expire_time tag

    -- the wrapper of a memoized function, at the key of its arguments
    unfoldable pub memoized : String → Option ℕ → Exec (Fanout h) Value → Exec (Fanout h) Value
    memoized key expire func = do
      found ← Fanout.contains h hash key
      if found
          then Fanout.get_value h hash key null
          else do result ← func; Fanout.set h hash key result expire false none; pure result

-- `_make_key`, which has the same code as that of `Cache`
unfoldable pub make_key : Printer → String → List Value → Dict Value → Bool → Ignored → String
unfolding Key.make_key
make_key print prefix args kwargs typed ignore = Key.make_key print prefix args kwargs typed ignore
