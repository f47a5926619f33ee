-- ===== src/Cache/Laws/Apart.antt =====
-- `set` and the other keys, whatever its value and whether or not it goes through.
use diskcache_rs.Base.{
  ℕ, String, ◌≡◌, refl, ap, Bool, true, false, Option, some, Bool-cases, Option-cases, inl, inr,
  str_eq,
}
use diskcache_rs.Cache.Codec.{serialize_value}
use diskcache_rs.Cache.Laws.{deadline, readings, expiry-deadline}
use diskcache_rs.Cache.State.{Cache, call_open, call_closed}
use diskcache_rs.Cache.View.{row}
use diskcache_rs.Cache.Write.{set, read_file, tag_list, track}
use diskcache_rs.Exec.{Result, ok, raised, runtime_error, Result-cases}
use diskcache_rs.Host.{Host}
use diskcache_rs.Host.Sound.{IsSound}
use diskcache_rs.Value.{Value, Bytes}

module _ {h : Host} (sound : IsSound h) (k : String) (v : Value) (expire : Option ℕ) (read : Bool)
    (tag : Option String) (c : Cache h) where
  abbrev late : Cache h
  late = record c { reads = readings h expire c.reads }

  abbrev stores : Bytes → h.State → Result (Unit {0}) × h.State
  stores d s = h.set s k d (deadline h expire c.reads) (tag_list tag)

  pub set_apart :
      (j : String)
      → str_eq k j ≡ false
      → (b : Bool) × (c' : Cache h) × (set h k v expire read tag c ≡ (ok b, c'))
        × (row sound c' j ≡ row sound c j)
  unfolding set track row
  set_apart j other = elim (Result-cases (serialize_value h (read_file read v))) [
    | inr (e, fails) ↦ (false, c, rw (fails), refl)
    | inl (d, good) ↦ elim (Option-cases c.rust) [
      | inl closed ↦
          (false, late, rw (good, expiry-deadline, call_closed (stores d) late closed), refl)
      | inr (s, open_) ↦ elim (Bool-cases (sound.accepts k)) [
        | inr bad ↦
            let refused = sound.set_refused s k d (deadline h expire c.reads) (tag_list tag) bad in
            (
              false,
              record late { rust = some (stores d s).1 },
              rw (
                good,
                expiry-deadline,
                call_open (stores d) late s (raised runtime_error) open_ (ap (λ p. p.0) refused),
              ),
              rw (ap (λ p. p.1) refused, open_),
            )
        | inl takes ↦
            let written = sound.set_ok s k d (deadline h expire c.reads) (tag_list tag) takes in
            (
              true,
              track h k (deadline h expire c.reads) tag
                  (record late { rust = some (stores d s).1 }),
              rw (good, expiry-deadline, call_open (stores d) late s (ok tt) open_ written),
              rw (
                open_,
                sound.rows-set s k j d (deadline h expire c.reads) (tag_list tag) takes,
                other,
              ),
            )
      ]
    ]
  ]
