-- ===== src/Cache/Laws/Erase.antt =====
-- `delete` and `clear` on the map that a cache holds.
use diskcache_rs.Base.{
  String, ◌≡◌, refl, sym, ap, true, false, none, some, arith, is_some, Bool-cases, Option-cases,
  inl, inr, str_eq, [], length, if◌then◌else◌,
}
use diskcache_rs.Cache.Laws.{ready, IsErase}
use diskcache_rs.Cache.State.{Cache, call_open, call_closed, ask_open}
use diskcache_rs.Cache.Remove.{delete, forget, clear}
use diskcache_rs.Cache.Read.{len, keys}
use diskcache_rs.Cache.View.{row, view, view_lem, decoded, has}
use diskcache_rs.Dict.{get-remove}
use diskcache_rs.Exec.{ok, raised, runtime_error}
use diskcache_rs.Host.{Host}
use diskcache_rs.Host.Sound.{IsSound}

decoded-none : (h : Host) → decoded h none ≡ none
unfolding decoded
decoded-none h = refl

module _ {h : Host} (sound : IsSound h) (k : String) where
  -- the cache that a `delete` leaves
  unfoldable pub erased : h.State → Cache h → Cache h
  unfolding forget
  erased s c =
      (if is_some (sound.rows s k) then forget h k else λ c. c)
        (record c { rust = some (h.delete s k).1 })

  delete-erased :
      (s : h.State) (c : Cache h)
      → c.rust ≡ some s
      → sound.accepts k ≡ true
      → delete h k c ≡ (ok (is_some (sound.rows s k)), erased s c)
  unfolding delete erased
  delete-erased s c open_ good = rw (
      call_open (λ s. h.delete s k) c s (ok (is_some (sound.rows s k))) open_
        (sound.delete_ok s k good))

  module _ (s : h.State) (c : Cache h) (open_ : c.rust ≡ some s)
      (good : sound.accepts k ≡ true) where
    has-row : has sound c k ≡ is_some (sound.rows s k)
    unfolding row
    has-row = ground arith

    rust-erased : (erased s c).rust ≡ some (h.delete s k).1
    unfolding erased
    rust-erased = ground arith

    row-erased :
        (j : String) → row sound (erased s c) j ≡ (if str_eq k j then none else row sound c j)
    unfolding row
    row-erased j = rw (rust-erased, sound.rows-delete s k j good) (ground arith)

    erased-IsErase : IsErase sound c k (erased s c)
    erased-IsErase = record {
      views = λ j. (elim (Bool-cases (str_eq k j)) [
        | inl same ↦ rw (view_lem, row-erased j, same) (decoded-none h)
        | inr other ↦ rw (view_lem, row-erased j, other) (sym (view_lem sound c j))
      ]);
      rows = λ j. (elim (Bool-cases (str_eq k j)) [
        | inl same ↦ rw (row-erased j, same)
        | inr other ↦ rw (row-erased j, other)
      ]);
      opens = λ j. unfold ready erased in ground arith;
      times = λ j other. unfold erased in ground (arith, get-remove c.expire_times k j);
      tags = λ j other. unfold erased in ground (arith, get-remove c.tags k j);
      depths = unfold erased in ground arith;
    }

  -- On an open cache that takes the key, delete returns whether the key had a row, takes that key
  -- and no other out, and leaves the expiration times and tags of the other keys.
  pub delete_erases :
      (c : Cache h)
      → ready sound c k ≡ true
      → (c' : Cache h) × (delete h k c ≡ (ok (has sound c k), c')) × IsErase sound c k c'
  unfolding ready
  delete_erases c can = elim (Option-cases c.rust) [
    | inl closed ↦ absurd (ground arith)
    | inr (s, open_) ↦
        let good : sound.accepts k ≡ true = ground arith in
        (
          erased s c,
          rw (has-row s c open_ good) (delete-erased s c open_ good),
          erased-IsErase s c open_ good,
        )
  ]

  -- On a closed cache, or for a key that the extension module refuses, delete returns False and
  -- changes nothing.
  pub delete_refused : (c : Cache h) → ready sound c k ≡ false → delete h k c ≡ (ok false, c)
  unfolding ready delete
  delete_refused c cannot = elim (Option-cases c.rust) [
    | inl closed ↦ rw (call_closed (λ s. h.delete s k) c closed)
    | inr (s, open_) ↦
        let refused = sound.delete_refused s k (ground arith) in
        rw (call_open (λ s. h.delete s k) c s (raised runtime_error) open_ (ap (λ p. p.0) refused))
          (rw (ap (λ p. p.1) refused, ← open_))
  ]

module _ {h : Host} (sound : IsSound h) where
  -- `c'` is an open cache with nothing in it.
  pub record IsCleared (c c' : Cache h) : Type 0 where
    pub views : (j : String) → view sound c' j ≡ none
    pub rows : (j : String) → has sound c' j ≡ false
    pub opens : (j : String) → ready sound c' j ≡ ready sound c j
    pub times : c'.expire_times ≡ []
    pub tags : c'.tags ≡ []

  row-cleared :
      (c : Cache h) (s : h.State) (j : String)
      → row sound (record c { rust = some (h.clear s).1; expire_times = []; tags = [] }) j ≡ none
  unfolding row
  row-cleared c s j = ground (arith, sound.rows-clear s j)

  -- On an open cache, clear returns the number of keys and leaves an open cache with no row, no
  -- expiration time and no tag.
  pub clear_clears :
      (c : Cache h) (s : h.State)
      → c.rust ≡ some s
      → (c' : Cache h) × (clear h c ≡ (ok (length (sound.names s)), c')) × IsCleared c c'
  unfolding clear len keys
  clear_clears c s open_ = (
    record c { rust = some (h.clear s).1; expire_times = []; tags = [] },
    rw (
      ask_open (λ s. h.keys s) c s (ok (sound.names s)) open_ (sound.keys_names s),
      call_open h.clear c s (ok tt) open_ (sound.clear_ok s),
    ),
    record {
      views = λ j. rw (view_lem, row-cleared c s j) (decoded-none h);
      rows = λ j. rw (row-cleared c s j);
      opens = λ j. unfold ready in ground arith;
      times = refl;
      tags = refl;
    },
  )
