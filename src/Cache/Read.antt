-- ===== src/Cache/Read.antt =====
-- `get`, `exists`, `in`, `cache[key]` and `read`.
use diskcache_rs.Base.{
  ℕ, String, Bool, true, false, ◌&&◌, not, Option, none, some, List, [], length, if◌then◌else◌,
}
use diskcache_rs.Cache.Codec.{auto_deserialize}
use diskcache_rs.Cache.State.{Cache, ask}
use diskcache_rs.Dict
use diskcache_rs.Exec.{Exec, key_error, pure, raise, lift, gets, attempt, ◌>>=◌}
use diskcache_rs.Host.{Host}
use diskcache_rs.Value.{Value, null, bytes, file, Bytes, is_null}

-- What `get` returns: a value, or a tuple with the expiration time, the tag or both behind it.
-- A part that was not asked for is `none`.
pub record Reply : Type 0 where
  pub value : Value
  pub expire_time : Option (Option ℕ)
  pub tag : Option (Option String)

-- a part of the tuple, if it was asked for
abbrev pub part : {A : Type 0} → Bool → Option A → Option (Option A)
part true a = some a
part false a = none

-- the reply for a key that is not there
unfoldable pub missing : Value → Bool → Bool → Reply
missing default expire_time tag = record {
  value = default;
  expire_time = part expire_time none;
  tag = part tag none;
}

-- `read=True` wraps the bytes, or what is stored for a value that is none, in a file
unfoldable pub wrap : Bool → Bytes → Value → Value
wrap true content (bytes b) = file b
wrap true content value = file content
wrap false content value = value

module _ (h : Host) where
  -- the tail of `get`: the value, with what was asked for
  unfoldable pub reply : String → Value → Bool → Bool → Exec (Cache h) Reply
  reply key value expire_time tag = gets λ c. record {
    value = value;
    expire_time = part expire_time (Dict.get c.expire_times key);
    tag = part tag (Dict.get c.tags key);
  }

  -- the `try` of `get`, once the row is read
  unfoldable pub decode_row :
      String → Value → Bool → Bool → Bool → Option Bytes → Exec (Cache h) Reply
  unfolding missing wrap reply
  decode_row key default read expire_time tag none = pure (missing default expire_time tag)
  decode_row key default read expire_time tag (some content) = do
    value ← lift (auto_deserialize h content)
    reply key (wrap read content value) expire_time tag

  unfoldable pub get : String → Value → Bool → Bool → Bool → Exec (Cache h) Reply
  unfolding decode_row
  get key default read expire_time tag =
      attempt (do row ← ask (λ s. h.get s key); decode_row key default read expire_time tag row)
        (pure (missing default expire_time tag))

  -- `self.get(key, default)`
  unfoldable pub get_value : String → Value → Exec (Cache h) Value
  unfolding get
  get_value key default = do r ← get key default false false false; pure r.value

  unfoldable pub exists : String → Exec (Cache h) Bool
  exists key = attempt (ask (λ s. h.exists s key)) (pure false)

  -- `key in self`
  unfoldable pub contains : String → Exec (Cache h) Bool
  contains key = attempt (ask (λ s. h.exists s key)) (pure false)

  -- `cache[key]`
  unfoldable pub get_item : String → Exec (Cache h) Value
  unfolding get_value exists
  get_item key = do
    result ← get_value key null
    found ← exists key
    if is_null result && not found then raise (key_error key) else pure result

  -- `keys`; `__iter__` has the same list
  unfoldable pub keys : Exec (Cache h) (List String)
  keys = attempt (ask (λ s. h.keys s)) (pure [])

  unfoldable pub len : Exec (Cache h) ℕ
  unfolding keys
  len = do ks ← keys; pure (length ks)

  -- `read`: a file over what is stored
  unfoldable pub read : String → Exec (Cache h) Value
  read key =
      attempt
        (do
          row ← ask (λ s. h.get s key)
          elim row [ none ↦ raise (key_error key) | some content ↦ pure (file content) ])
        (raise (key_error key))
