-- ===== src/Disk/Json.antt =====
-- The class `JSONDisk`: JSON texts, encoded and compressed.
use diskcache_rs.Base.{Bool, true}
use diskcache_rs.Disk.{Tools, Mode, raw, Stored, of_bytes}
use diskcache_rs.Exec.{Result, ok, raised, type_error, and_then}
use diskcache_rs.Host.{Host}
use diskcache_rs.Value.{Value, bytes, text, file, Bytes}

module _ (h : Host) (w : Tools) where
  -- `json.dumps(value)`, encoded and compressed, and the way back
  unfoldable pub packed : Value → Result Bytes
  packed v = and_then (w.json_dumps v) (λ s. ok (w.compress (w.encode s)))

  unfoldable pub unpacked : Bytes → Result Value
  unpacked b = and_then (w.decompress b) (λ d. and_then (h.decode d) (λ s. h.json_loads s))

  -- `JSONDisk.put` and `JSONDisk.get`
  unfoldable pub put : Value → Result (Bytes × Bool)
  unfolding packed
  put key = and_then (packed key) (λ b. ok (b, true))

  unfoldable pub get : Bytes → Bool → Result Value
  unfolding unpacked
  get key is_raw = unpacked key

  -- `value.read()`, decoded
  unfoldable pub contents : Bool → Value → Result Value
  contents true (file b) = and_then (h.decode b) (λ s. ok (text s))
  contents read v = ok v

  -- `JSONDisk.store` and `JSONDisk.fetch`
  unfoldable pub store : Value → Bool → Result Stored
  unfolding contents packed
  store v read = and_then (contents read v) (λ v'. and_then (packed v') (λ b. ok (of_bytes raw b)))

  unfoldable pub fetch : Mode → Value → Bool → Result Value
  unfolding unpacked
  fetch mode (bytes b) read = unpacked b
  fetch mode v read = raised type_error
