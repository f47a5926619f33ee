-- ===== src/Disk.antt =====
-- The classes `Disk` and `JSONDisk` of python/diskcache_rs/disk.py: how a key or a value becomes
-- what a database row holds, and back. Files and directories are not modelled.
pub mod Json
pub mod Trips
use diskcache_rs.Base.{
  ℕ, String, Bool, true, false, ◌&&◌, List, [], ◌∷◌, length, ltb, if◌then◌else◌,
}
use diskcache_rs.Exec.{Result, ok, raised, type_error, and_then}
use diskcache_rs.Host.{Host}
use diskcache_rs.Value.{Value, null, int, bytes, text, pair, file, other, Bytes}

-- What the two classes call besides the platform: `encode("utf-8")`, `json.dumps`, `zlib` at the
-- compression level of the object, `bytes()` and `str()` of an object, and which objects are floats.
pub record Tools : Type 0 where
  pub encode : String → Bytes
  pub json_dumps : Value → Result String
  pub compress : Bytes → Bytes
  pub decompress : Bytes → Result Bytes
  pub to_bytes : Value → Result Bytes
  pub to_text : Value → Result String
  pub is_float : ℕ → Bool

pub data Mode : Type 0 where
  none raw binary text_mode pickle : Mode

-- `(size, mode, None, db_value)`
pub record Stored : Type 0 where
  pub size : ℕ
  pub mode : Mode
  pub value : Value

abbrev pub of_bytes : Mode → Bytes → Stored
of_bytes m b = record { size = length b; mode = m; value = bytes b }

abbrev pub as_is : Value → Stored
as_is v = record { size = 0; mode = Mode.none; value = v }

-- `io.BytesIO(data)` if it is to be read as a file
abbrev pub as_file : Bool → Bytes → Value
as_file true b = file b
as_file false b = bytes b

module _ (h : Host) (w : Tools) (min_file_size : ℕ) where
  -- `Disk.put` and `Disk.get`
  unfoldable pub put : Value → Result (Bytes × Bool)
  put (bytes b) = ok (b, true)
  put key = and_then (h.dumps key) (λ d. ok (d, false))

  unfoldable pub get : Bytes → Bool → Result Value
  get key is_raw = if is_raw then ok (bytes key) else h.loads key

  unfoldable pub pickled : Value → Result Stored
  pickled v = and_then (h.dumps v) (λ d. ok (of_bytes pickle d))

  -- `Disk.store`
  unfoldable pub store : Value → Bool → Result Stored
  unfolding pickled
  store (bytes b) read =
      if ltb (length b) min_file_size then ok (of_bytes raw b) else ok (of_bytes raw b)
  store (text s) read = ok (of_bytes text_mode (w.encode s))
  store (int i) read = ok (as_is (int i))
  store (other n) read = if w.is_float n then ok (as_is (other n)) else pickled (other n)
  store (file b) read = if read then ok (of_bytes binary b) else pickled (file b)
  store v read = pickled v

  -- `Disk.fetch`
  unfoldable pub fetch : Mode → Value → Bool → Result Value
  fetch raw (bytes b) read = ok (as_file read b)
  fetch raw v read = and_then (w.to_bytes v) (λ b. ok (as_file read b))
  fetch binary (bytes b) read = ok (as_file read b)
  fetch binary v read = if read then raised type_error else ok v
  fetch text_mode (bytes b) read = and_then (h.decode b) (λ s. ok (text s))
  fetch text_mode v read = and_then (w.to_text v) (λ s. ok (text s))
  fetch pickle (bytes b) read = h.loads b
  fetch pickle v read = ok v
  fetch Mode.none v read = ok v
