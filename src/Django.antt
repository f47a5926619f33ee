-- ===== src/Django.antt =====
-- The class `DjangoCache` of python/diskcache_rs/djangocache.py: the methods of a Django cache
-- backend over a `Cache`. What it inherits from Django is a parameter.
pub mod Laws
use diskcache_rs.Base.{
  ℕ, String, Bool, true, false, not, Option, none, some, List, [], ◌∷◌, if◌then◌else◌,
}
use diskcache_rs.Cache.Read
use diskcache_rs.Cache.Remove
use diskcache_rs.Cache.State.{Cache, time}
use diskcache_rs.Cache.Update
use diskcache_rs.Cache.Write
use diskcache_rs.Dict
use diskcache_rs.Dict.{Dict}
use diskcache_rs.Exec.{Exec, Result, pure, lift, ◌>>=◌, ◌>>◌}
use diskcache_rs.Host.{Host}
use diskcache_rs.Value.{Value, null, is_null}

-- `make_and_validate_key(key, version=…)`, and `get_backend_timeout(timeout)` at a time of day
pub record Backend : Type 1 where
  pub Timeout : Type 0
  pub make_and_validate_key : String → Option ℕ → Result String
  pub get_backend_timeout : Timeout → ℕ → Option ℕ

module _ (h : Host) (b : Backend) where
  unfoldable pub made : String → Option ℕ → Exec (Cache h) String
  made key version = lift (b.make_and_validate_key key version)

  unfoldable pub backend_timeout : b.Timeout → Exec (Cache h) (Option ℕ)
  backend_timeout timeout = do now ← time h; pure (b.get_backend_timeout timeout now)

  unfoldable pub get : String → Value → Option ℕ → Exec (Cache h) Value
  unfolding made
  get key default version = do k ← made key version; Read.get_value h k default

  unfoldable pub set : String → Value → b.Timeout → Option ℕ → Exec (Cache h) Bool
  unfolding made backend_timeout
  set key value timeout version = do
    k ← made key version
    expire ← backend_timeout timeout
    Write.set h k value expire false none

  unfoldable pub add : String → Value → b.Timeout → Option ℕ → Exec (Cache h) Bool
  unfolding made set
  add key value timeout version = do
    k ← made key version
    present ← Read.get_value h k null
    if not (is_null present) then pure false else set k value timeout none

  unfoldable pub touch : String → b.Timeout → Option ℕ → Exec (Cache h) Bool
  unfolding made backend_timeout
  touch key timeout version = do
    k ← made key version
    expire ← backend_timeout timeout
    Update.touch h k expire

  unfoldable pub delete : String → Option ℕ → Exec (Cache h) Bool
  unfolding made
  delete key version = do k ← made key version; Remove.delete h k

  unfoldable pub clear : Exec (Cache h) Bool
  clear = do Remove.clear h; pure true

  -- the loop of `get_many`, with what it has found
  unfoldable pub get_each : List String → Option ℕ → Dict Value → Exec (Cache h) (Dict Value)
  unfolding get
  get_each [] version values = pure values
  get_each (key ∷ keys) version values = do
    value ← get key null version
    get_each keys version (if is_null value then values else Dict.put values key value)

  unfoldable pub get_many : List String → Option ℕ → Exec (Cache h) (Dict Value)
  unfolding get_each
  get_many keys version = get_each keys version []

  unfoldable pub set_many : Dict Value → b.Timeout → Option ℕ → Exec (Cache h) (List String)
  unfolding set
  set_many [] timeout version = pure []
  set_many ((key, value) ∷ items) timeout version = do
    stored ← set key value timeout version
    failed ← set_many items timeout version
    pure (if stored then failed else key ∷ failed)

  unfoldable pub delete_many : List String → Option ℕ → Exec (Cache h) (Unit {0})
  unfolding delete
  delete_many [] version = pure tt
  delete_many (key ∷ keys) version = do delete key version; delete_many keys version

  unfoldable pub has_key : String → Option ℕ → Exec (Cache h) Bool
  unfolding made
  has_key key version = do k ← made key version; Read.contains h k

  unfoldable pub close : Exec (Cache h) (Unit {0})
  close = Remove.close h
