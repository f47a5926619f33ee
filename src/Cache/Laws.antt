-- ===== src/Cache/Laws.antt =====
-- `set` on the map that a cache holds, and how one key is written or erased there.
pub mod Erase
pub mod Picked
pub mod Expire
pub mod Change
pub mod Deadline
pub mod Evict
pub mod Touch
pub mod Apart
use diskcache_rs.Base.{
  ℕ, ◌+◌, ◌*◌, ◌/◌, String, ◌≡◌, refl, sym, ap, Bool, true, false, ◌&&◌, not, Option, none, some,
  arith, is_some, Bool-cases, Option-cases, ◌⊎◌, inl, inr, ltb, str_eq, eq_iff, eq_refl,
  if◌then◌else◌,
}
use diskcache_rs.Cache.Codec.{
  auto_deserialize, serialize_value, stored, serialize-stored, auto_deserialize-stored,
}
use diskcache_rs.Cache.State.{Cache, call, call_open, call_closed, time}
use diskcache_rs.Cache.Write.{set, expiry, read_file, tag_list, track, second, seconds}
use diskcache_rs.Cache.Remove.{delete, forget}
use diskcache_rs.Cache.View.{row, view, view_lem, decoded, has}
use diskcache_rs.Dict
use diskcache_rs.Dict.{get-note, get-remove}
use diskcache_rs.Exec.{Result, ok, raised, runtime_error, Exec}
use diskcache_rs.Host.{Host}
use diskcache_rs.Host.Sound.{IsSound}
use diskcache_rs.Base.Int.{ℤ}
use diskcache_rs.Value.{Value, int, is_plain}

-- The expiration time that `set` computes, from the readings of the clock.
unfoldable pub deadline : (h : Host) → Option ℕ → ℕ → Option ℕ
deadline h none n = none
deadline h (some e) n =
    if ltb (h.clock n) e then some (e / second) else some ((h.clock (n + 1) + e) / second)

-- How often it reads the clock.
unfoldable pub readings : (h : Host) → Option ℕ → ℕ → ℕ
readings h none n = n
readings h (some e) n = if ltb (h.clock n) e then n + 1 else n + 1 + 1

module _ {h : Host} where
  pub expiry-deadline :
      (expire : Option ℕ) (c : Cache h)
      → expiry h expire c
        ≡ (ok (deadline h expire c.reads), record c { reads = readings h expire c.reads })
  unfolding expiry deadline readings time
  expiry-deadline none c = refl
  expiry-deadline (some e) c = elim (Bool-cases (ltb (h.clock c.reads) e)) [
    | inl ahead ↦ rw ahead
    | inr past ↦ rw past
  ]

module _ {h : Host} (sound : IsSound h) where
  -- the cache is open and takes the key
  unfoldable pub ready : Cache h → String → Bool
  ready c k = is_some c.rust && sound.accepts k

  -- `c'` is `c` with the value `v` at the key `k`: no other key, expiration time or tag changes.
  pub record IsWrite (c : Cache h) (k : String) (v : Value) (c' : Cache h) : Type 0 where
    pub views : (j : String) → view sound c' j ≡ (if str_eq k j then some v else view sound c j)
    pub rows : (j : String) → has sound c' j ≡ (if str_eq k j then true else has sound c j)
    pub opens : (j : String) → ready c' j ≡ ready c j
    pub times :
        (j : String) → str_eq k j ≡ false → Dict.get c'.expire_times j ≡ Dict.get c.expire_times j
    pub tags : (j : String) → str_eq k j ≡ false → Dict.get c'.tags j ≡ Dict.get c.tags j
    pub depths : c'.depth ≡ c.depth

  -- `c'` is `c` without the key `k`.
  pub record IsErase (c : Cache h) (k : String) (c' : Cache h) : Type 0 where
    pub views : (j : String) → view sound c' j ≡ (if str_eq k j then none else view sound c j)
    pub rows : (j : String) → has sound c' j ≡ (if str_eq k j then false else has sound c j)
    pub opens : (j : String) → ready c' j ≡ ready c j
    pub times :
        (j : String) → str_eq k j ≡ false → Dict.get c'.expire_times j ≡ Dict.get c.expire_times j
    pub tags : (j : String) → str_eq k j ≡ false → Dict.get c'.tags j ≡ Dict.get c.tags j
    pub depths : c'.depth ≡ c.depth

  decoded-stored : (v : Value) → is_plain v ≡ true → decoded h (some (stored h sound v)) ≡ some v
  unfolding decoded
  decoded-stored v plain = rw (auto_deserialize-stored h sound v plain)

  module _ (k : String) (v : Value) (expire : Option ℕ) (read : Bool) (tag : Option String) where
    -- the cache that a `set` which goes through leaves
    unfoldable pub written : h.State → Cache h → Cache h
    written s c = track h k (deadline h expire c.reads) tag (record c {
      rust =
          some
            (h.set s k (stored h sound (read_file read v)) (deadline h expire c.reads)
              (tag_list tag)).1;
      reads = readings h expire c.reads;
    })

    pub set-written :
        (s : h.State) (c : Cache h)
        → c.rust ≡ some s
        → sound.accepts k ≡ true
        → is_plain (read_file read v) ≡ true
        → set h k v expire read tag c ≡ (ok true, written s c)
    unfolding set written
    set-written s c open_ good plain = rw (
      serialize-stored h sound (read_file read v) plain,
      expiry-deadline,
      call_open
          (λ s.
            h.set s k (stored h sound (read_file read v)) (deadline h expire c.reads)
              (tag_list tag))
          (record c { reads = readings h expire c.reads }) s (ok tt) open_
          (sound.set_ok s k _ _ _ good),
    )

    module _ (s : h.State) (c : Cache h) (open_ : c.rust ≡ some s)
        (good : sound.accepts k ≡ true) where
      row-written :
          (j : String)
          → row sound (written s c) j
            ≡ (if str_eq k j then some (stored h sound (read_file read v)) else row sound c j)
      unfolding row written track
      row-written j = elim (Bool-cases (str_eq k j)) [
        | inl same ↦
            let e : k ≡ j = (eq_iff k j).0 same in
            rw (
              sound.rows-set s k j (stored h sound (read_file read v)) (deadline h expire c.reads)
                  (tag_list tag) good,
              same,
              ← e,
              good,
            )
        | inr other ↦
            rw
              (
                sound.rows-set s k j (stored h sound (read_file read v)) (deadline h expire c.reads)
                    (tag_list tag) good,
                other,
              )
              (ground arith)
      ]

      pub written-IsWrite :
          is_plain (read_file read v) ≡ true → IsWrite c k (read_file read v) (written s c)
      written-IsWrite plain = record {
        views = λ j. (elim (Bool-cases (str_eq k j)) [
          | inl same ↦ rw (view_lem, row-written j, same) (decoded-stored _ plain)
          | inr other ↦ rw (view_lem, row-written j, other) (sym (view_lem sound c j))
        ]);
        rows = λ j. (elim (Bool-cases (str_eq k j)) [
          | inl same ↦ rw (row-written j, same)
          | inr other ↦ rw (row-written j, other)
        ]);
        opens = λ j. unfold ready written track in ground arith;
        times = λ j other. unfold written track in rw (get-note, other);
        tags = λ j other. unfold written track in rw (get-note, other);
        depths = unfold written track in refl;
      }

    records_written :
        (s : h.State) (c : Cache h)
        → (Dict.get (written s c).expire_times k ≡ seconds (deadline h expire c.reads))
          × (Dict.get (written s c).tags k ≡ tag)
    unfolding written track
    records_written s c = (
      rw (get-note c.expire_times k k (seconds (deadline h expire c.reads)), eq_refl k),
      rw (get-note c.tags k k tag, eq_refl k),
    )

    -- On an open cache that takes the key, set of a value that is plain, once read from its file
    -- where that is asked for, returns True; the key then reads as that value, every other key
    -- reads as before; the expiration time worked out from expire and the tag are recorded for
    -- the key, and no other key's expiration time or tag changes.
    pub set_writes :
        (c : Cache h)
        → ready c k ≡ true
        → is_plain (read_file read v) ≡ true
        → (c' : Cache h) × (set h k v expire read tag c ≡ (ok true, c'))
          × IsWrite c k (read_file read v) c'
          × (Dict.get c'.expire_times k ≡ seconds (deadline h expire c.reads))
          × (Dict.get c'.tags k ≡ tag)
    unfolding ready
    set_writes c can plain = elim (Option-cases c.rust) [
      | inl closed ↦ absurd (ground arith)
      | inr (s, open_) ↦
          let good : sound.accepts k ≡ true = ground arith in
          (
            written s c,
            set-written s c open_ good plain,
            written-IsWrite s c open_ good plain,
            (records_written s c).0,
            (records_written s c).1,
          )
    ]

    -- On a closed cache, or for a key that the extension module refuses, set of a value that is
    -- plain, once read from its file where that is asked for, returns False; nothing changes but
    -- the number of clock readings.
    pub set_refused :
        (c : Cache h)
        → ready c k ≡ false
        → is_plain (read_file read v) ≡ true
        → set h k v expire read tag c ≡ (ok false, record c { reads = readings h expire c.reads })
    unfolding ready set
    set_refused c cannot plain = elim (Option-cases c.rust) [
      | inl closed ↦ rw (
        serialize-stored h sound (read_file read v) plain,
        expiry-deadline,
        call_closed
            (λ s.
              h.set s k (stored h sound (read_file read v)) (deadline h expire c.reads)
                (tag_list tag))
            (record c { reads = readings h expire c.reads }) closed,
      )
      | inr (s, open_) ↦
          let refused =
            sound.set_refused s k (stored h sound (read_file read v)) (deadline h expire c.reads)
              (tag_list tag) (ground arith) in
          rw
            (
              serialize-stored h sound (read_file read v) plain,
              expiry-deadline,
              call_open
                  (λ s.
                    h.set s k (stored h sound (read_file read v)) (deadline h expire c.reads)
                      (tag_list tag))
                  (record c { reads = readings h expire c.reads }) s (raised runtime_error) open_
                  (ap (λ p. p.0) refused),
            )
            (rw (ap (λ p. p.1) refused, ← open_))
    ]

  pub plain_int : (i : ℤ) → is_plain (int i) ≡ true
  unfolding is_plain
  plain_int i = refl

  -- The same for a value that is not read from a file.
  pub store_writes :
      (k : String) (v : Value) (expire : Option ℕ) (tag : Option String) (c : Cache h)
      → ready c k ≡ true
      → is_plain v ≡ true
      → (c' : Cache h) × (set h k v expire false tag c ≡ (ok true, c')) × IsWrite c k v c'
  unfolding read_file
  store_writes k v expire tag c can plain =
      let (c', e, w, own_time, own_tag) = set_writes k v expire false tag c can plain in (c', e, w)
