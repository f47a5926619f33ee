-- ===== src/Cache/Update.antt =====
-- `add`, `incr`, `decr` and `touch`, which are built from `get` and `set`.
use diskcache_rs.Base.{ℕ, String, Bool, false, not, Option, none, some, if◌then◌else◌}
use diskcache_rs.Base.Int.{ℤ, pos, ◌+ℤ◌, ◌-ℤ◌}
use diskcache_rs.Cache.Read.{get_value, contains}
use diskcache_rs.Cache.State.{Cache, int_of}
use diskcache_rs.Cache.Write.{set}
use diskcache_rs.Exec.{
  Exec, Result, ok, raised, key_error, type_error, pure, raise, lift, attempt, and_then, ◌>>=◌,
  ◌>>◌,
}
use diskcache_rs.Host.{Host}
use diskcache_rs.Value.{Value, null, int, is_null}

-- `default + delta`, where `default` may be None
unfoldable pub from_default : Option ℤ → ℤ → Result ℤ
from_default none delta = raised type_error
from_default (some d) delta = ok (d +ℤ delta)

module _ (h : Host) where
  unfoldable pub add : String → Value → Option ℕ → Bool → Option String → Exec (Cache h) Bool
  unfolding contains set
  add key value expire read tag = do
    found ← contains h key
    if found then pure false else set h key value expire read tag

  -- the new value of a counter
  unfoldable pub counted : Value → ℤ → Option ℤ → Result ℤ
  unfolding from_default int_of
  counted current delta default =
      if is_null current
      then from_default default delta
      else and_then (int_of h current) (λ n. ok (n +ℤ delta))

  -- the handler of `incr`
  unfoldable pub recover : String → ℤ → Option ℤ → Exec (Cache h) ℤ
  unfolding set
  recover key delta none = raise (key_error key)
  recover key delta (some default) = do
    set h key (int (default +ℤ delta)) none false none
    pure (default +ℤ delta)

  unfoldable pub incr : String → ℤ → Option ℤ → Exec (Cache h) ℤ
  unfolding get_value set counted recover
  incr key delta default =
      attempt
        (do
          current ← get_value h key null
          new_value ← lift (counted current delta default)
          set h key (int new_value) none false none
          pure new_value)
        (recover key delta default)

  unfoldable pub decr : String → ℤ → Option ℤ → Exec (Cache h) ℤ
  unfolding incr
  decr key delta default = incr key (pos 0 -ℤ delta) default

  unfoldable pub touch : String → Option ℕ → Exec (Cache h) Bool
  unfolding get_value contains set
  touch key expire = do
    found ← contains h key
    if not found then pure false else do
      value ← get_value h key null
      if is_null value then pure false else set h key value expire false none
