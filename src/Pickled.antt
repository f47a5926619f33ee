-- ===== src/Pickled.antt =====
-- The class `PickleCache` of python/diskcache_rs/pickle_cache.py over the object of the extension
-- module, whose entries expire there.
pub mod Backend
pub mod Laws
use diskcache_rs.Base.{
  ℕ, String, Bool, true, false, ◌&&◌, not, Option, none, some, List, length, if◌then◌else◌,
}
use diskcache_rs.Base.Int.{ℤ}
use diskcache_rs.Dict.{Dict}
use diskcache_rs.Exec.{
  Exec, Result, ok, raised, key_error, runtime_error, pure, raise, lift, attempt, ◌>>=◌, ◌>>◌,
}
use diskcache_rs.Host.{Host}
use diskcache_rs.Pickled.Backend.{Pickles}
use diskcache_rs.Value.{Value, null, is_null, Bytes}

module _ (h : Host) (x : Pickles) where
  -- `pickle.dumps` and `set_pickle`; any exception becomes RuntimeError
  unfoldable pub set : String → Value → Option ℤ → Exec x.State (Unit {0})
  set key value ttl =
      attempt (do d ← lift (h.dumps value); x.set_pickle key d ttl) (raise runtime_error)

  -- the default, or the object of the bytes
  unfoldable pub unpickled : Value → Option Bytes → Exec x.State Value
  unpickled default none = pure default
  unpickled default (some d) = lift (h.loads d)

  -- an entry that cannot be read is removed
  unfoldable pub get : String → Value → Exec x.State Value
  unfolding unpickled
  get key default =
      attempt (do found ← x.get_pickle key; unpickled default found)
        (do attempt (do x.delete_pickle key; pure tt) (pure tt); pure default)

  unfoldable pub delete : String → Exec x.State Bool
  delete key = x.delete_pickle key

  unfoldable pub exists : String → Exec x.State Bool
  exists key = x.exists_pickle key

  unfoldable pub keys : Exec x.State (List String)
  keys = x.keys_pickle

  unfoldable pub clear : Exec x.State (Unit {0})
  clear = x.clear_pickle

  unfoldable pub stats : Exec x.State (Dict ℕ)
  stats = x.stats_pickle

  unfoldable pub expire : String → ℤ → Exec x.State Bool
  expire key ttl = x.expire_pickle key ttl

  unfoldable pub ttl : String → Exec x.State (Option ℕ)
  ttl key = x.ttl_pickle key

  -- `cache[key]`
  unfoldable pub get_item : String → Exec x.State Value
  unfolding get exists
  get_item key = do
    result ← get key null
    if not (is_null result)
        then pure result
        else do found ← exists key; if not found then raise (key_error key) else pure result

  unfoldable pub set_item : String → Value → Exec x.State (Unit {0})
  unfolding set
  set_item key value = set key value none

  unfoldable pub delete_item : String → Exec x.State (Unit {0})
  unfolding delete
  delete_item key = do deleted ← delete key; if not deleted then raise (key_error key) else pure tt

  unfoldable pub len : Exec x.State ℕ
  unfolding keys
  len = do ks ← keys; pure (length ks)

-- The functions that make a cache in a directory, use it and drop it. `opened` is the object of the
-- extension module for a directory and a size limit; the result has its state afterwards.
module _ (h : Host) (x : Pickles) (opened : String → Option ℕ → x.State) where
  unfoldable pub cache_object :
      String → String → Value → Option ℤ → Option ℕ → Result (Unit {0}) × x.State
  unfolding set
  cache_object directory key value ttl max_size = set h x key value ttl (opened directory max_size)

  unfoldable pub get_cached_object : String → String → Value → Result Value × x.State
  unfolding get
  get_cached_object directory key default = get h x key default (opened directory none)

  unfoldable pub clear_cache : String → Result (Unit {0}) × x.State
  unfolding clear
  clear_cache directory = clear h x (opened directory none)
