-- ===== src/Pickled/Backend.antt =====
-- The `PickleCache` object of the extension module, and what the code relies on.
use diskcache_rs.Base.{
  ℕ, String, ◌≡◌, Bool, true, Option, none, some, List, str_eq, is_some, if◌then◌else◌,
}
use diskcache_rs.Base.Int.{ℤ}
use diskcache_rs.Dict.{Dict}
use diskcache_rs.Exec.{Exec, ok}
use diskcache_rs.Value.{Bytes}

-- Each method may change the state, since a read drops an entry that has expired.
pub record Pickles : Type 1 where
  pub State : Type 0
  pub set_pickle : String → Bytes → Option ℤ → Exec State (Unit {0})
  pub get_pickle : String → Exec State (Option Bytes)
  pub delete_pickle : String → Exec State Bool
  pub exists_pickle : String → Exec State Bool
  pub keys_pickle : Exec State (List String)
  pub clear_pickle : Exec State (Unit {0})
  pub stats_pickle : Exec State (Dict ℕ)
  pub expire_pickle : String → ℤ → Exec State Bool
  pub ttl_pickle : String → Exec State (Option ℕ)

-- The entries that have not expired, for calls between which none does and none is evicted. A call
-- without a time to live makes an entry that does not expire.
pub record IsKept (x : Pickles) : Type 0 where
  pub live : x.State → String → Option Bytes
  pub set_ok :
      (s : x.State) (k : String) (d : Bytes)
      → (s' : x.State) × (x.set_pickle k d none s ≡ (ok tt, s'))
        × ((j : String) → live s' j ≡ (if str_eq k j then some d else live s j))
  pub get_ok :
      (s : x.State) (k : String)
      → (s' : x.State) × (x.get_pickle k s ≡ (ok (live s k), s'))
        × ((j : String) → live s' j ≡ live s j)
  pub exists_ok :
      (s : x.State) (k : String)
      → (s' : x.State) × (x.exists_pickle k s ≡ (ok (is_some (live s k)), s'))
        × ((j : String) → live s' j ≡ live s j)
  pub delete_ok :
      (s : x.State) (k : String)
      → (b : Bool) × (s' : x.State) × (x.delete_pickle k s ≡ (ok b, s'))
        × (is_some (live s k) ≡ true → b ≡ true)
        × ((j : String) → live s' j ≡ (if str_eq k j then none else live s j))
