-- ===== src/Index/Laws.antt =====
-- The methods of an index on the mapping that its cache holds.
use diskcache_rs.Base.{
  String, ◌≡◌, refl, ap, ◌∙◌, ◌&&◌, arith, Bool, true, false, Option, none, some, List, [], ◌∷◌,
  str_eq, if◌then◌else◌,
}
use diskcache_rs.Cache.Laws.{ready, IsWrite, IsErase, store_writes}
use diskcache_rs.Cache.Laws.Erase.{delete_erases}
use diskcache_rs.Cache.Listing
use diskcache_rs.Cache.Listing.{sorted, first_or_last, peek_reply, peek_chosen}
use diskcache_rs.Cache.Read.{keys}
use diskcache_rs.Cache.Remove
use diskcache_rs.Cache.State.{Cache, ask_open}
use diskcache_rs.Cache.View.{view, has, get_or, get_value-view, contains-has}
use diskcache_rs.Exec.{ok, raised, key_error}
use diskcache_rs.Host.{Host}
use diskcache_rs.Host.Sound.{IsSound}
use diskcache_rs.Index.{set_default, peekitem, popitem, update}
use diskcache_rs.Value.{Value, null, is_plain}

-- every value of the pairs is plain
unfoldable pub pairs_plain : List (String × Value) → Bool
pairs_plain [] = true
pairs_plain ((k, v) ∷ pairs) = is_plain v && pairs_plain pairs

-- the last value that the pairs give a key, or what it has before
unfoldable pub assigned : List (String × Value) → String → Option Value → Option Value
assigned [] j o = o
assigned ((k, v) ∷ pairs) j o = assigned pairs j (if str_eq k j then some v else o)

module _ {h : Host} (sound : IsSound h) where
  -- On a cache that takes the key and has no row for it, setdefault of a plain value returns that
  -- value and writes it at the key alone.
  pub set_default-absent :
      (k : String) (d : Value) (c : Cache h)
      → ready sound c k ≡ true
      → is_plain d ≡ true
      → has sound c k ≡ false
      → (c' : Cache h) × (set_default h k d c ≡ (ok d, c')) × IsWrite sound c k d c'
  unfolding set_default
  set_default-absent k d c can plain absent =
      let (c', e, w) = store_writes sound k d none none c can plain in
      (c', rw (contains-has sound c k, absent, e), w)

  -- On a cache with a row for the key, setdefault returns the value there, or None where it
  -- cannot be read, and changes nothing.
  pub set_default-present :
      (k : String) (d : Value) (c : Cache h)
      → has sound c k ≡ true
      → set_default h k d c ≡ (ok (get_or (view sound c k) null), c)
  unfolding set_default
  set_default-present k d c there =
      rw (contains-has sound c k, there, get_value-view sound c k null)

  peekitem_lem :
      (last : Bool) (c : Cache h) (s : h.State) (k : String)
      → c.rust ≡ some s
      → first_or_last last (sorted (sound.names s)) ≡ some k
      → peekitem h last c ≡ (ok (k, get_or (view sound c k) null), c)
  unfolding peekitem Listing.peekitem keys peek_chosen peek_reply
  peekitem_lem last c s k open_ picked = rw (
    ask_open (λ s. h.keys s) c s (ok (sound.names s)) open_ (sound.keys_names s),
    picked,
    peek_chosen,
    peek_reply,
    get_value-view sound c k null,
  )

  -- If k is the first, or with last the last, of the sorted keys of an open cache, and the cache
  -- takes k and has a row for it, then popitem returns k with its value, or None where that
  -- cannot be read, and takes k and no other key out.
  pub popitem_lem :
      (last : Bool) (c : Cache h) (s : h.State) (k : String)
      → c.rust ≡ some s
      → first_or_last last (sorted (sound.names s)) ≡ some k
      → ready sound c k ≡ true
      → has sound c k ≡ true
      → (c' : Cache h) × (popitem h last c ≡ (ok (k, get_or (view sound c k) null), c'))
        × IsErase sound c k c'
  unfolding popitem Remove.delete_item
  popitem_lem last c s k open_ picked can there =
      let (c', e, r) = delete_erases sound k c can in
      (c', rw (peekitem_lem last c s k open_ picked, e, there), r)

  -- On an open cache without keys popitem raises KeyError and changes nothing.
  pub popitem_empty :
      (last : Bool) (c : Cache h) (s : h.State)
      → c.rust ≡ some s
      → sound.names s ≡ []
      → popitem h last c ≡ (raised (key_error "cache is empty"), c)
  unfolding popitem peekitem Listing.peekitem keys peek_chosen sorted first_or_last
  popitem_empty last c s open_ nothing =
      rw (ask_open (λ s. h.keys s) c s (ok (sound.names s)) open_ (sound.keys_names s), nothing)

  -- the cache takes the key of every pair
  unfoldable pub all_taken : Cache h → List (String × Value) → Bool
  all_taken c [] = true
  all_taken c ((k, v) ∷ pairs) = ready sound c k && all_taken c pairs

  all_taken_same :
      (c c' : Cache h) (pairs : List (String × Value))
      → ((j : String) → ready sound c' j ≡ ready sound c j)
      → all_taken c' pairs ≡ all_taken c pairs
  unfolding all_taken
  all_taken_same c c' [] opens = refl
  all_taken_same c c' ((k, v) ∷ pairs) opens = rw (opens k, all_taken_same c c' pairs opens)

  -- If the cache takes the key of every pair and every value is plain, then update succeeds, and
  -- each key then reads as the last value that the pairs give it, or as before if they give it
  -- none.
  pub update_lem :
      (pairs : List (String × Value)) (c : Cache h)
      → all_taken c pairs ≡ true
      → pairs_plain pairs ≡ true
      → (c' : Cache h) × (update h pairs c ≡ (ok tt, c'))
        × ((j : String) → view sound c' j ≡ assigned pairs j (view sound c j))
  unfolding update assigned pairs_plain all_taken
  update_lem [] c can plain = (c, refl, λ j. refl)
  update_lem ((k, v) ∷ pairs) c can plain =
      let (c₁, e₁, w) =
        store_writes sound k v none none c (ground (arith, can)) (ground (arith, plain)) in
      let (c₂, e₂, vs) =
        update_lem pairs c₁ (all_taken_same c c₁ pairs w.opens ∙ ground (arith, can))
          (ground (arith, plain)) in
      (c₂, rw (e₁, e₂), λ j. vs j ∙ ap (assigned pairs j) (w.views j))
