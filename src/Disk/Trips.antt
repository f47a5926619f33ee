-- ===== src/Disk/Trips.antt =====
-- What is stored and read again.
use diskcache_rs.Base.{ℕ, String, ◌≡◌, refl, Bool, true, false, Bool-cases, inl, inr, ltb, length}
use diskcache_rs.Disk.{Tools, put, get, store, fetch, pickled}
use diskcache_rs.Disk.Json
use diskcache_rs.Disk.Json.{packed, unpacked, contents}
use diskcache_rs.Exec.{ok, and_then}
use diskcache_rs.Host.{Host}
use diskcache_rs.Host.Sound.{IsSound}
use diskcache_rs.Value.{Value, int, bytes, text, file, other, Bytes, is_plain}

-- UTF-8, zlib and JSON read back what they wrote; JSON does so for some values.
pub record IsLossless (h : Host) (w : Tools) : Type 0 where
  pub decode-encode : (s : String) → h.decode (w.encode s) ≡ ok s
  pub decompress-compress : (b : Bytes) → w.decompress (w.compress b) ≡ ok b
  pub has_json : Value → Bool
  pub loads-dumps :
      (v : Value)
      → has_json v ≡ true
      → (s : String) × (w.json_dumps v ≡ ok s) × (h.json_loads s ≡ ok v)

-- what `Disk` keeps without a file: a plain value, or a float
unfoldable pub is_kept : Tools → Value → Bool
is_kept w (other n) = w.is_float n
is_kept w v = is_plain v

module _ {h : Host} (sound : IsSound h) (w : Tools) (lossless : IsLossless h w)
    (min_file_size : ℕ) where
  pickled-fetch :
      (v : Value)
      → is_plain v ≡ true
      → and_then
          (pickled h w min_file_size v)
          (λ st. fetch h w min_file_size st.mode st.value false)
        ≡ ok v
  unfolding pickled fetch
  pickled-fetch v plain = rw (sound.dumps_plain v plain) (sound.loads_pickled v plain)

  -- If encoding and compression can be undone, then fetch returns from what Disk.store made of a
  -- plain value, or of a float, exactly that value.
  pub fetch-store :
      (v : Value)
      → is_kept w v ≡ true
      → and_then
          (store h w min_file_size v false)
          (λ st. fetch h w min_file_size st.mode st.value false)
        ≡ ok v
  unfolding store fetch is_kept
  fetch-store (bytes b) kept = elim (Bool-cases (ltb (length b) min_file_size)) [
    | inl small ↦ rw small
    | inr large ↦ rw large
  ]
  fetch-store (text s) kept = rw (lossless.decode-encode s)
  fetch-store (int i) kept = refl
  fetch-store (other n) kept = rw kept
  fetch-store v kept = pickled-fetch v kept

  -- The key of a row is read back as it was given.
  pub get-put :
      (k : Value)
      → is_plain k ≡ true
      → and_then (put h w min_file_size k) (λ p. get h w min_file_size p.0 p.1) ≡ ok k
  unfolding put get
  get-put (bytes b) plain = refl
  get-put k plain = rw (sound.dumps_plain k plain) (sound.loads_pickled k plain)

  -- A file is read back as a file with the same content.
  pub file_trip :
      (b : Bytes)
      → and_then
          (store h w min_file_size (file b) true)
          (λ st. fetch h w min_file_size st.mode st.value true)
        ≡ ok (file b)
  unfolding store fetch
  file_trip b = refl

  packed-unpacked :
      (v : Value)
      → lossless.has_json v ≡ true
      → (b : Bytes) × (packed h w v ≡ ok b) × (unpacked h w b ≡ ok v)
  unfolding packed unpacked
  packed-unpacked v json =
      let (s, dumps, loads) = lossless.loads-dumps v json in
      (
        w.compress (w.encode s),
        rw dumps,
        rw (lossless.decompress-compress (w.encode s), lossless.decode-encode s, loads),
      )

  -- What JSON can print, its store and fetch read back, and so its put and get.
  pub json_trips :
      (v : Value)
      → lossless.has_json v ≡ true
      → (and_then (Json.put h w v) (λ p. Json.get h w p.0 p.1) ≡ ok v)
        × (and_then (Json.store h w v false) (λ st. Json.fetch h w st.mode st.value false) ≡ ok v)
  unfolding Json.put Json.get Json.store Json.fetch contents
  json_trips v json =
      let (b, there, back) = packed-unpacked v json in (rw (there, back), rw (there, back))
