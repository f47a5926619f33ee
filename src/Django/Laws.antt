-- ===== src/Django/Laws.antt =====
-- The Django backend on the map that its cache holds.
use diskcache_rs.Base.{
  ℕ, ◌+◌, String, ◌≡◌, refl, ◌∙◌, ◌≢◌, true, Option, none, some, eq_refl, str_eq, if◌then◌else◌,
}
use diskcache_rs.Cache.Laws.{ready, store_writes}
use diskcache_rs.Cache.Queue.Keys.{str_eq_of_ne}
use diskcache_rs.Cache.State.{Cache, time}
use diskcache_rs.Cache.View.{view, row, get_or, get_value-view}
use diskcache_rs.Django.{Backend, get, set, add, made, backend_timeout}
use diskcache_rs.Exec.{ok}
use diskcache_rs.Host.{Host}
use diskcache_rs.Host.Sound.{IsSound}
use diskcache_rs.Value.{Value, null, is_plain}

module _ {h : Host} (sound : IsSound h) (b : Backend) where
  later : Cache h → Cache h
  later c = record c { reads = c.reads + 1 }

  later-time : (c : Cache h) → time h c ≡ (ok (h.clock c.reads), later c)
  unfolding time later
  later-time c = refl

  later-view : (c : Cache h) (k : String) → view sound (later c) k ≡ view sound c k
  unfolding view row later
  later-view c k = refl

  later-ready : (c : Cache h) (k : String) → ready sound (later c) k ≡ ready sound c k
  unfolding ready later
  later-ready c k = refl

  -- what is written under the key that Django makes
  set_at :
      (key k : String) (v : Value) (t : b.Timeout) (version : Option ℕ) (c : Cache h)
      → b.make_and_validate_key key version ≡ ok k
      → ready sound c k ≡ true
      → is_plain v ≡ true
      → (c' : Cache h) × (set h b key v t version c ≡ (ok true, c'))
        × ((j : String) → view sound c' j ≡ (if str_eq k j then some v else view sound c j))
  unfolding set made backend_timeout
  set_at key k v t version c makes can plain =
      let expire = b.get_backend_timeout t (h.clock c.reads) in
      let (c', e, w) = store_writes sound k v expire none (later c) (later-ready c k ∙ can) plain in
      (c', rw (makes, later-time c, e), λ j. w.views j ∙ rw (later-view c j))

  get_at :
      (key k : String) (d : Value) (version : Option ℕ) (c : Cache h)
      → b.make_and_validate_key key version ≡ ok k
      → get h b key d version c ≡ (ok (get_or (view sound c k) d), c)
  unfolding get made
  get_at key k d version c makes = rw (makes, get_value-view sound c k d)

  -- If Django makes a key that the cache takes, then set of a plain value returns True and get
  -- with the same key and version returns that value.
  pub get-set :
      (key k : String) (v d : Value) (t : b.Timeout) (version : Option ℕ) (c : Cache h)
      → b.make_and_validate_key key version ≡ ok k
      → ready sound c k ≡ true
      → is_plain v ≡ true
      → (c' : Cache h) × (set h b key v t version c ≡ (ok true, c'))
        × (get h b key d version c' ≡ (ok v, c'))
  get-set key k v d t version c makes can plain =
      let (c', e, vs) = set_at key k v t version c makes can plain in
      let here : view sound c' k ≡ some v = vs k ∙ rw (eq_refl k) in
      (c', e, get_at key k d version c' makes ∙ rw here)

  -- If Django makes one key of the key given and another key of that one, the cache takes the
  -- latter, the former has no value, and the new value is plain, then add returns True but a get
  -- of the key returns the default, and the value stands under the key that was made twice.
  pub add_misses :
      (key k k' : String) (v d : Value) (t : b.Timeout) (version : Option ℕ) (c : Cache h)
      → b.make_and_validate_key key version ≡ ok k
      → b.make_and_validate_key k none ≡ ok k'
      → k' ≢ k
      → ready sound c k' ≡ true
      → is_plain v ≡ true
      → view sound c k ≡ none
      → (c' : Cache h) × (add h b key v t version c ≡ (ok true, c'))
        × (get h b key d version c' ≡ (ok d, c'))
        × (view sound c' k' ≡ some v)
  unfolding add made
  add_misses key k k' v d t version c makes remakes apart can plain absent =
      let (c', e, vs) = set_at k k' v t none c remakes can plain in
      let still : view sound c' k ≡ none = vs k ∙ rw (str_eq_of_ne k' k apart) absent in
      (
        c',
        rw (makes, get_value-view sound c k null, absent, e),
        get_at key k d version c' makes ∙ rw still,
        vs k' ∙ rw (eq_refl k'),
      )
