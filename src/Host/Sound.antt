-- ===== src/Host/Sound.antt =====
-- What the code relies on. The extension module keeps rows of bytes by key, evicts nothing and
-- refuses some keys (the empty one, one that is too long); pickle reads back what it wrote.
use diskcache_rs.Base.{
  ℕ, String, ◌≡◌, Bool, true, false, Option, none, some, List, str_eq, is_some, if◌then◌else◌,
}
use diskcache_rs.Exec.{ok, raised, runtime_error}
use diskcache_rs.Host.Defs.{Host}
use diskcache_rs.Value.{Value, Bytes, is_plain}

pub record IsSound (h : Host) : Type 0 where
  -- the row of a key, and whether a key is one that the module takes
  pub rows : h.State → String → Option Bytes
  pub accepts : String → Bool
  pub get_row : (s : h.State) (k : String) → accepts k ≡ true → h.get s k ≡ ok (rows s k)
  pub get_refused :
      (s : h.State) (k : String) → accepts k ≡ false → h.get s k ≡ raised runtime_error
  pub exists_row :
      (s : h.State) (k : String) → accepts k ≡ true → h.exists s k ≡ ok (is_some (rows s k))
  pub exists_refused :
      (s : h.State) (k : String) → accepts k ≡ false → h.exists s k ≡ raised runtime_error
  pub set_ok :
      (s : h.State) (k : String) (d : Bytes) (e : Option ℕ) (t : List String)
      → accepts k ≡ true
      → (h.set s k d e t).0 ≡ ok tt
  pub rows-set :
      (s : h.State) (k j : String) (d : Bytes) (e : Option ℕ) (t : List String)
      → accepts k ≡ true
      → rows (h.set s k d e t).1 j ≡ (if str_eq k j then some d else rows s j)
  pub set_refused :
      (s : h.State) (k : String) (d : Bytes) (e : Option ℕ) (t : List String)
      → accepts k ≡ false
      → h.set s k d e t ≡ (raised runtime_error, s)
  pub delete_ok :
      (s : h.State) (k : String) → accepts k ≡ true → (h.delete s k).0 ≡ ok (is_some (rows s k))
  pub rows-delete :
      (s : h.State) (k j : String)
      → accepts k ≡ true
      → rows (h.delete s k).1 j ≡ (if str_eq k j then none else rows s j)
  pub delete_refused :
      (s : h.State) (k : String) → accepts k ≡ false → h.delete s k ≡ (raised runtime_error, s)
  -- the keys that have a row, in some order
  pub names : h.State → List String
  pub keys_names : (s : h.State) → h.keys s ≡ ok (names s)
  pub clear_ok : (s : h.State) → (h.clear s).0 ≡ ok tt
  pub rows-clear : (s : h.State) (j : String) → rows (h.clear s).1 j ≡ none
  -- the pickle of a plain value
  pub pickled : Value → Bytes
  pub dumps_plain : (v : Value) → is_plain v ≡ true → h.dumps v ≡ ok (pickled v)
  pub loads_pickled : (v : Value) → is_plain v ≡ true → h.loads (pickled v) ≡ ok v
