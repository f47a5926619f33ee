-- ===== src/Cache/Codec.antt =====
-- `_serialize_value` and `_auto_deserialize`: the bytes that stand for a value.
use diskcache_rs.Base.{
  Bool, true, false, ◌&&◌, ◌||◌, ◌≡◌, refl, [], ◌∷◌, ◌++◌, length, drop, ◌==◌, if◌then◌else◌,
}
use diskcache_rs.Exec.{Result, ok, raised, value_error, and_then, or_else}
use diskcache_rs.Host.{Host}
use diskcache_rs.Host.Sound.{IsSound}
use diskcache_rs.Value.{Value, bytes, text, Bytes, is_plain}

-- b"\x00diskcache_rs:bytes\x00" and b"\x00diskcache_rs:pickle\x00"
abbrev module_name : Bytes
module_name =
    0 ∷ b'd' ∷ b'i' ∷ b's' ∷ b'k' ∷ b'c' ∷ b'a' ∷ b'c' ∷ b'h' ∷ b'e' ∷ b'_' ∷ b'r' ∷ b's' ∷ b':'
    ∷ []

abbrev pub raw_bytes_prefix : Bytes
raw_bytes_prefix = module_name ++ (b'b' ∷ b'y' ∷ b't' ∷ b'e' ∷ b's' ∷ 0 ∷ [])

abbrev pub pickle_prefix : Bytes
pickle_prefix = module_name ++ (b'p' ∷ b'i' ∷ b'c' ∷ b'k' ∷ b'l' ∷ b'e' ∷ 0 ∷ [])

-- `content.startswith(prefix)`
unfoldable pub starts_with : Bytes → Bytes → Bool
starts_with content [] = true
starts_with [] (p ∷ ps) = false
starts_with (d ∷ content) (p ∷ ps) = d == p && starts_with content ps

-- `data and data[0:1] in (b"{", b"[", b'"')`
unfoldable pub looks_like_json : Bytes → Bool
looks_like_json [] = false
looks_like_json (c ∷ content) = c == b'{' || c == b'[' || c == b'"'

module _ (h : Host) where
  -- `_serialize_value`
  unfoldable pub serialize_value : Value → Result Bytes
  serialize_value (bytes b) = ok (raw_bytes_prefix ++ b)
  serialize_value v = and_then (h.dumps v) (λ d. ok (pickle_prefix ++ d))

  -- the formats without a prefix: pickle, JSON, text, raw bytes
  unfoldable pub deserialize_legacy : Bytes → Result Value
  unfolding looks_like_json
  deserialize_legacy content = or_else (h.loads content) (
      or_else
        (if looks_like_json content
          then and_then (h.decode content) h.json_loads
          else raised value_error)
        (or_else (and_then (h.decode content) (λ t. ok (text t))) (ok (bytes content))))

  -- `_auto_deserialize`
  unfoldable pub auto_deserialize : Bytes → Result Value
  unfolding starts_with deserialize_legacy
  auto_deserialize content =
      if starts_with content raw_bytes_prefix
      then ok (bytes (drop (length raw_bytes_prefix) content))
      else if starts_with content pickle_prefix
      then h.loads (drop (length pickle_prefix) content)
      else deserialize_legacy content

  module _ (sound : IsSound h) where
    -- the bytes that a plain value is stored as
    unfoldable pub stored : Value → Bytes
    stored (bytes b) = raw_bytes_prefix ++ b
    stored v = pickle_prefix ++ sound.pickled v

    pub serialize-stored : (v : Value) → is_plain v ≡ true → serialize_value v ≡ ok (stored v)
    unfolding serialize_value stored
    serialize-stored (bytes b) p = refl
    serialize-stored v p = rw (sound.dumps_plain _ p)

    pub auto_deserialize-stored :
        (v : Value) → is_plain v ≡ true → auto_deserialize (stored v) ≡ ok v
    unfolding auto_deserialize stored
    auto_deserialize-stored (bytes b) p = refl
    auto_deserialize-stored v p = sound.loads_pickled _ p

    -- For a plain value, _auto_deserialize reads back from what _serialize_value wrote exactly
    -- that value.
    pub deserialize-serialize :
        (v : Value) → is_plain v ≡ true → and_then (serialize_value v) auto_deserialize ≡ ok v
    deserialize-serialize v p = rw (serialize-stored v p) (auto_deserialize-stored v p)
