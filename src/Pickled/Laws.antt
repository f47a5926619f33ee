-- ===== src/Pickled/Laws.antt =====
-- `PickleCache` on the entries that have not expired.
use diskcache_rs.Base.{String, ◌≡◌, ◌∙◌, true, none, some, eq_refl, str_eq, if◌then◌else◌}
use diskcache_rs.Exec.{ok, raised, Error}
use diskcache_rs.Host.{Host}
use diskcache_rs.Host.Sound.{IsSound}
use diskcache_rs.Pickled.{set, get, unpickled}
use diskcache_rs.Pickled.Backend.{Pickles, IsKept}
use diskcache_rs.Value.{Value, is_plain, Bytes}

module _ {h : Host} (sound : IsSound h) (x : Pickles) (kept : IsKept x) where
  pub set_lem :
      (k : String) (v : Value) (s : x.State)
      → is_plain v ≡ true
      → (s' : x.State) × (set h x k v none s ≡ (ok tt, s'))
        × ((j : String)
            → kept.live s' j ≡ (if str_eq k j then some (sound.pickled v) else kept.live s j))
  unfolding set
  set_lem k v s plain =
      let (s', e, ls) = kept.set_ok s k (sound.pickled v) in
      (s', rw (sound.dumps_plain v plain, e), ls)

  -- A read of an entry that unpickles, or of none.
  pub get_live :
      (k : String) (d v : Value) (s : x.State) (b : Bytes)
      → kept.live s k ≡ some b
      → h.loads b ≡ ok v
      → (s' : x.State) × (get h x k d s ≡ (ok v, s'))
        × ((j : String) → kept.live s' j ≡ kept.live s j)
  unfolding get unpickled
  get_live k d v s b here reads = let (s', e, ls) = kept.get_ok s k in (s', rw (e, here, reads), ls)

  pub get_absent :
      (k : String) (d : Value) (s : x.State)
      → kept.live s k ≡ none
      → (s' : x.State) × (get h x k d s ≡ (ok d, s'))
        × ((j : String) → kept.live s' j ≡ kept.live s j)
  unfolding get unpickled
  get_absent k d s gone = let (s', e, ls) = kept.get_ok s k in (s', rw (e, gone), ls)

  -- A set of a plain value goes through, a get of its key then returns it, and no other entry changes.
  pub set_then_get :
      (k : String) (v d : Value) (s : x.State)
      → is_plain v ≡ true
      → (s' : x.State) × (s'' : x.State) × (set h x k v none s ≡ (ok tt, s'))
        × (get h x k d s' ≡ (ok v, s''))
        × ((j : String)
            → kept.live s'' j ≡ (if str_eq k j then some (sound.pickled v) else kept.live s j))
  set_then_get k v d s plain =
      let (s', e, ls) = set_lem k v s plain in
      let here : kept.live s' k ≡ some (sound.pickled v) = ls k ∙ rw (eq_refl k) in
      let (s'', e', ls') = get_live k d v s' (sound.pickled v) here (sound.loads_pickled v plain) in
      (s', s'', e, e', λ j. ls' j ∙ ls j)

  -- If the bytes of a live entry of a PickleCache fail to unpickle, then get returns the default
  -- without raising, and the entry is gone while no other changes.
  pub get_corrupt :
      (k : String) (d : Value) (s : x.State) (b : Bytes) (e : Error)
      → kept.live s k ≡ some b
      → h.loads b ≡ raised e
      → (s' : x.State) × (get h x k d s ≡ (ok d, s'))
        × ((j : String) → kept.live s' j ≡ (if str_eq k j then none else kept.live s j))
  unfolding get unpickled
  get_corrupt k d s b e here fails =
      let (s₁, e₁, ls₁) = kept.get_ok s k in
      let (_, s₂, e₂, _, ls₂) = kept.delete_ok s₁ k in
      (s₂, rw (e₁, here, fails, e₂), λ j. ls₂ j ∙ rw (ls₁ j))
