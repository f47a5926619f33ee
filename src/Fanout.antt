-- ===== src/Fanout.antt =====
-- The class `FanoutCache` of python/diskcache_rs/cache.py: a list of caches, and the hash of a key
-- decides which of them has it. The hash, eight bytes of BLAKE2b as a number, is a parameter.
pub mod Refine
pub mod Whole
pub mod Clear
pub mod Alike
use diskcache_rs.Base.{
  ℕ, zero, suc, ◌+◌, ◌%◌, String, Bool, Option, List, [], ◌∷◌, ◌++◌, length, ◌==◌, if◌then◌else◌,
}
use diskcache_rs.Base.Int.{ℤ}
use diskcache_rs.Cache.Read
use diskcache_rs.Cache.Read.{Reply}
use diskcache_rs.Cache.Remove
use diskcache_rs.Cache.State.{Cache}
use diskcache_rs.Cache.Update
use diskcache_rs.Cache.Write
use diskcache_rs.Sharded.{each, route}
use diskcache_rs.Exec.{Exec, Result, ok, raised, and_then, index_error, zero_division_error}
use diskcache_rs.Host.{Host}
use diskcache_rs.Value.{Value}

-- `_caches`; `shards` is its length
abbrev pub Fanout : Host → Type 0
Fanout h = List (Cache h)

module _ (h : Host) (hash : String → ℕ) where
  unfoldable pub set : String → Value → Option ℕ → Bool → Option String → Exec (Fanout h) Bool
  unfolding route
  set key value expire read tag = route hash key (Write.set h key value expire read tag)

  unfoldable pub get : String → Value → Bool → Bool → Bool → Exec (Fanout h) Reply
  unfolding route
  get key default read expire_time tag =
      route hash key (Read.get h key default read expire_time tag)

  unfoldable pub get_value : String → Value → Exec (Fanout h) Value
  unfolding route
  get_value key default = route hash key (Read.get_value h key default)

  unfoldable pub delete : String → Exec (Fanout h) Bool
  unfolding route
  delete key = route hash key (Remove.delete h key)

  unfoldable pub contains : String → Exec (Fanout h) Bool
  unfolding route
  contains key = route hash key (Read.contains h key)

  unfoldable pub get_item : String → Exec (Fanout h) Value
  unfolding route
  get_item key = route hash key (Read.get_item h key)

  unfoldable pub set_item : String → Value → Exec (Fanout h) (Unit {0})
  unfolding route
  set_item key value = route hash key (Write.set_item h key value)

  unfoldable pub delete_item : String → Exec (Fanout h) (Unit {0})
  unfolding route
  delete_item key = route hash key (Remove.delete_item h key)

  unfoldable pub add : String → Value → Option ℕ → Bool → Option String → Exec (Fanout h) Bool
  unfolding route
  add key value expire read tag = route hash key (Update.add h key value expire read tag)

  unfoldable pub incr : String → ℤ → Option ℤ → Exec (Fanout h) ℤ
  unfolding route
  incr key delta default = route hash key (Update.incr h key delta default)

  unfoldable pub decr : String → ℤ → Option ℤ → Exec (Fanout h) ℤ
  unfolding route
  decr key delta default = route hash key (Update.decr h key delta default)

  unfoldable pub pop : String → Value → Bool → Bool → Exec (Fanout h) Reply
  unfolding route
  pop key default expire_time tag = route hash key (Remove.pop h key default expire_time tag)

  unfoldable pub touch : String → Option ℕ → Exec (Fanout h) Bool
  unfolding route
  touch key expire = route hash key (Update.touch h key expire)

module _ (h : Host) where
  unfoldable pub keys : Exec (Fanout h) (List String)
  unfolding each
  keys = each (Read.keys h) (λ ks rest. ks ++ rest) []

  unfoldable pub len : Exec (Fanout h) ℕ
  unfolding each
  len = each (Read.len h) (λ n rest. n + rest) 0

  unfoldable pub clear : Exec (Fanout h) ℕ
  unfolding each
  clear = each (Remove.clear h) (λ n rest. n + rest) 0

  unfoldable pub expire : Option ℕ → Exec (Fanout h) ℕ
  unfolding each
  expire now = each (Remove.expire h now) (λ n rest. n + rest) 0

  unfoldable pub close : Exec (Fanout h) (Unit {0})
  unfolding each
  close = each (Remove.close h) (λ u rest. tt) tt
