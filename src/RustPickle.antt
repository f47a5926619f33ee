-- ===== src/RustPickle.antt =====
-- The functions of python/diskcache_rs/rust_pickle.py, which call the bridge of the extension module
-- if it is there and switched on, and pickle otherwise or after an exception of the bridge.
use diskcache_rs.Base.{
  String, ◌≡◌, refl, Bool, true, false, ◌||◌, not, ◌⊎◌, inl, inr, str_eq, List, [], ◌∷◌,
  if◌then◌else◌, Bool-cases,
}
use diskcache_rs.Exec.{Result, ok, raised, Error, or_else, and_then}
use diskcache_rs.Host.{Host}
use diskcache_rs.Host.Sound.{IsSound}
use diskcache_rs.Value.{Value, Bytes, is_plain}

-- whether the bridge could be imported, its functions, and `strip` and `lower` of a text
pub record Bridge : Type 0 where
  pub available : Bool
  pub rust_pickle_dumps : Value → Result Bytes
  pub rust_pickle_loads : Bytes → Result Value
  pub strip_lower : String → String

unfoldable pub is_among : String → List String → Bool
is_among s [] = false
is_among s (t ∷ ts) = str_eq s t || is_among s ts

abbrev truthy_values : List String
truthy_values = "1" ∷ "true" ∷ "yes" ∷ "on" ∷ []

module _ (h : Host) (b : Bridge) where
  -- with the value of the environment variable, empty if there is none
  unfoldable pub is_rust_bridge_enabled : String → Bool
  unfolding is_among
  is_rust_bridge_enabled setting =
      if not b.available then false else is_among (b.strip_lower setting) truthy_values

  unfoldable pub dumps : String → Value → Result Bytes
  unfolding is_rust_bridge_enabled
  dumps setting obj =
      if is_rust_bridge_enabled setting
      then or_else (b.rust_pickle_dumps obj) (h.dumps obj)
      else h.dumps obj

  unfoldable pub loads : String → Bytes → Result Value
  unfolding is_rust_bridge_enabled
  loads setting content =
      if is_rust_bridge_enabled setting
      then or_else (b.rust_pickle_loads content) (h.loads content)
      else h.loads content

-- The bridge raises, or does what pickle does.
pub record IsBridge (h : Host) (b : Bridge) : Type 0 where
  pub dumps_agrees :
      (v : Value)
      → ((e : Error) × (b.rust_pickle_dumps v ≡ raised e)) ⊎ (b.rust_pickle_dumps v ≡ h.dumps v)
  pub loads_agrees :
      (d : Bytes)
      → ((e : Error) × (b.rust_pickle_loads d ≡ raised e)) ⊎ (b.rust_pickle_loads d ≡ h.loads d)

or_else_same : {A : Type 0} (r : Result A) → or_else r r ≡ r
or_else_same (ok a) = refl
or_else_same (raised e) = refl

module _ (h : Host) (b : Bridge) (agrees : IsBridge h b) where
  dumps-pickle : (setting : String) (v : Value) → dumps h b setting v ≡ h.dumps v
  unfolding dumps
  dumps-pickle setting v = elim (Bool-cases (is_rust_bridge_enabled h b setting)) [
    | inl on ↦ elim (agrees.dumps_agrees v) [
      | inl (e, fails) ↦ rw (on, fails)
      | inr same ↦ rw (on, same) (or_else_same (h.dumps v))
    ]
    | inr off ↦ rw (off)
  ]

  loads-pickle : (setting : String) (d : Bytes) → loads h b setting d ≡ h.loads d
  unfolding loads
  loads-pickle setting d = elim (Bool-cases (is_rust_bridge_enabled h b setting)) [
    | inl on ↦ elim (agrees.loads_agrees d) [
      | inl (e, fails) ↦ rw (on, fails)
      | inr same ↦ rw (on, same) (or_else_same (h.loads d))
    ]
    | inr off ↦ rw (off)
  ]

-- Whatever the settings under which a plain value is written and read, it is read back.
pub any_setting_reads :
    {h : Host} (sound : IsSound h) (b : Bridge) (writing reading : String) (v : Value)
    → IsBridge h b
    → is_plain v ≡ true
    → and_then (dumps h b writing v) (loads h b reading) ≡ ok v
any_setting_reads {h} sound b writing reading v agrees plain =
    rw (dumps-pickle h b agrees writing v, sound.dumps_plain v plain)
      (rw (loads-pickle h b agrees reading (sound.pickled v)) (sound.loads_pickled v plain))
