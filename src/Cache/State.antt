-- ===== src/Cache/State.antt =====
-- The attributes of a `Cache` object, its calls of the extension module, and the clock.
use diskcache_rs.Base.{ℕ, ◌+◌, String, Option, none, some, ◌≡◌, arith}
use diskcache_rs.Dict.{Dict}
use diskcache_rs.Exec.{Exec, Result, ok, raised, attribute_error}
use diskcache_rs.Host.{Host}
use diskcache_rs.Value.{Value, int}
use diskcache_rs.Base.Int.{ℤ}

-- `rust` is `_cache`, None once the cache is closed; `reads` counts the readings of the clock.
pub record Cache (h : Host) : Type 0 where
  pub rust : Option h.State
  pub expire_times : Dict ℕ
  pub tags : Dict String
  pub depth : ℕ
  pub reads : ℕ

module _ {h : Host} {A : Type 0} where
  -- a method of `self._cache` that may change it; on a closed cache it is an attribute of None
  unfoldable pub call : (h.State → Result A × h.State) → Exec (Cache h) A
  call f c = elim c.rust [
    | none ↦ (raised attribute_error, c)
    | some s ↦ let (r, s') = f s in (r, record c { rust = some s' })
  ]

  -- a method that only reads
  unfoldable pub ask : (h.State → Result A) → Exec (Cache h) A
  ask f c = elim c.rust [ none ↦ (raised attribute_error, c) | some s ↦ (f s, c) ]

-- `time.time()`
unfoldable pub time : (h : Host) → Exec (Cache h) ℕ
time h c = (ok (h.clock c.reads), record c { reads = c.reads + 1 })

module _ {h : Host} {A : Type 0} where
  pub ask_open :
      (f : h.State → Result A) (c : Cache h) (s : h.State) (r : Result A)
      → c.rust ≡ some s
      → f s ≡ r
      → ask f c ≡ (r, c)
  unfolding ask
  ask_open f c s r open_ e = ground arith

-- `int(value)`
unfoldable pub int_of : Host → Value → Result ℤ
int_of h (int i) = ok i
int_of h v = h.parse_int v

module _ {h : Host} {A : Type 0} (f : h.State → Result A × h.State) (c : Cache h) where
  pub call_open :
      (s : h.State) (r : Result A)
      → c.rust ≡ some s
      → (f s).0 ≡ r
      → call f c ≡ (r, record c { rust = some (f s).1 })
  unfolding call
  call_open s r open_ e = ground arith

  pub call_closed : c.rust ≡ none → call f c ≡ (raised attribute_error, c)
  unfolding call
  call_closed closed = ground arith
