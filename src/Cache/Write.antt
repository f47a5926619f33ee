-- ===== src/Cache/Write.antt =====
-- `set`, `__setitem__` and `set_many`.
use diskcache_rs.Base.{
  ℕ, ◌+◌, ◌*◌, ◌/◌, String, Bool, true, false, Option, none, some, List, [], ◌∷◌, ltb, str_eq,
  length, if◌then◌else◌,
}
use diskcache_rs.Cache.Codec.{serialize_value}
use diskcache_rs.Cache.State.{Cache, call, time}
use diskcache_rs.Dict
use diskcache_rs.Exec.{Exec, Result, ok, pure, lift, attempt, modify, and_then, ◌>>=◌, ◌>>◌}
use diskcache_rs.Host.{Host}
use diskcache_rs.Value.{Value, bytes, file, Bytes}

-- Times are microseconds; the extension module takes whole seconds.
abbrev pub second : ℕ
second = 1000000

-- `if read and hasattr(value, "read"): value = value.read()`
unfoldable pub read_file : Bool → Value → Value
read_file true (file b) = bytes b
read_file _ v = v

-- `[tag] if tag else []`
unfoldable pub tag_list : Option String → List String
tag_list none = []
tag_list (some t) = if str_eq t "" then [] else t ∷ []

-- `float(expire_time)`
abbrev pub seconds : Option ℕ → Option ℕ
seconds none = none
seconds (some e) = some (e * second)

module _ (h : Host) where
  -- the expiration time: `expire` is a time if it lies ahead of the clock, else a duration
  unfoldable pub expiry : Option ℕ → Exec (Cache h) (Option ℕ)
  expiry none = pure none
  expiry (some expire) = do
    now ← time h
    if ltb now expire
        then pure (some (expire / second))
        else do later ← time h; pure (some ((later + expire) / second))

  -- the updates of `_expire_times` and `_tags`
  unfoldable pub track : String → Option ℕ → Option String → Cache h → Cache h
  track key expire_time tag c = record c {
    expire_times = Dict.note c.expire_times key (seconds expire_time);
    tags = Dict.note c.tags key tag;
  }

  unfoldable pub set : String → Value → Option ℕ → Bool → Option String → Exec (Cache h) Bool
  unfolding expiry track
  set key value expire read tag =
      attempt
        (do
          content ← lift (serialize_value h (read_file read value))
          expire_time ← expiry expire
          call (λ s. h.set s key content expire_time (tag_list tag))
          modify (track key expire_time tag)
          pure true)
        (pure false)

  -- `cache[key] = value`
  unfoldable pub set_item : String → Value → Exec (Cache h) (Unit {0})
  set_item key value = do set key value none false none; pure tt

  -- the serialised items of `set_many`; a value that does not serialise raises
  unfoldable pub serialize_items : List (String × Value) → Result (List (String × Bytes))
  serialize_items [] = ok []
  serialize_items ((k, v) ∷ items) =
      and_then (serialize_value h v)
        λ d. and_then (serialize_items items) λ rest. ok ((k, d) ∷ rest)

  -- the loop of `set_many` over the items that were stored
  unfoldable pub track_all : List (String × Value) → Option ℕ → Option String → Cache h → Cache h
  unfolding track
  track_all [] expire_time tag c = c
  track_all ((k, v) ∷ items) expire_time tag c =
      track_all items expire_time tag (track k expire_time tag c)

  unfoldable pub set_many : List (String × Value) → Option ℕ → Option String → Exec (Cache h) ℕ
  unfolding expiry serialize_items track_all
  set_many [] expire tag = pure 0
  set_many (item ∷ items) expire tag =
      attempt
        (do
          expire_time ← expiry expire
          serialized ← lift (serialize_items (item ∷ items))
          call (λ s. h.set_many s serialized expire_time (tag_list tag))
          modify (track_all (item ∷ items) expire_time tag)
          pure (length (item ∷ items)))
        (pure 0)
