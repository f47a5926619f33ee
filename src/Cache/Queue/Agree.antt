-- ===== src/Cache/Queue/Agree.antt =====
-- `peek` beside `pull`, on any cache.
use diskcache_rs.Base.{String, ◌≡◌, Bool, true, false, Option, none, str_eq, inl, inr, Bool-cases}
use diskcache_rs.Base.Int.{ℤ, pos, ◌+ℤ◌, ◌-ℤ◌, leb_ℤ}
use diskcache_rs.Cache.Laws.{ready, set_refused, store_writes, plain_int}
use diskcache_rs.Cache.Laws.Erase.{delete_erases, delete_refused}
use diskcache_rs.Cache.Queue.{
  counter_key, front_key, item_key, is_side, counter, read_counter, write_counters, read_item,
  pull_at, pull, peek,
}
use diskcache_rs.Cache.Queue.Pull.{entry}
use diskcache_rs.Cache.Remove.{delete}
use diskcache_rs.Cache.State.{Cache}
use diskcache_rs.Cache.View.{view, get_or, get_value-view}
use diskcache_rs.Cache.Write.{set, read_file}
use diskcache_rs.Exec.{ok, Result-cases}
use diskcache_rs.Host.{Host}
use diskcache_rs.Host.Sound.{IsSound}
use diskcache_rs.Value.{Value, null, int}

module _ {h : Host} (sound : IsSound h) where
  -- None of the writes raises, on any cache.
  set_returns :
      (k : String) (i : ℤ) (c : Cache h)
      → (b : Bool) × (c' : Cache h) × (set h k (int i) none false none c ≡ (ok b, c'))
  unfolding read_file
  set_returns k i c = elim (Bool-cases (ready sound c k)) [
    | inl can ↦
        let (c', e, w) = store_writes sound k (int i) none none c can (plain_int sound i) in
        (true, c', e)
    | inr cannot ↦
        (false, _, set_refused sound k (int i) none false none c cannot (plain_int sound i))
  ]

  delete_returns :
      (k : String) (c : Cache h) → (b : Bool) × (c' : Cache h) × (delete h k c ≡ (ok b, c'))
  delete_returns k c = elim (Bool-cases (ready sound c k)) [
    | inl can ↦ let (c', e, r) = delete_erases sound k c can in (_, c', e)
    | inr cannot ↦ (false, c, delete_refused sound k c cannot)
  ]

  write_counters_returns :
      (p : Option String) (back front : ℤ) (c : Cache h)
      → (c' : Cache h) × (write_counters h p back front c ≡ (ok tt, c'))
  unfolding write_counters
  write_counters_returns p back front c =
      let (_, c₁, e₁) = set_returns (counter_key p) back c in
      let (_, c₂, e₂) = set_returns (front_key p) front c₁ in (c₂, rw (e₁, e₂))

module _ {h : Host} (sound : IsSound h) (p : Option String) (expire_time tag : Bool)
    (c : Cache h) where
  read_counter-view :
      (k : String) → read_counter h k c ≡ (counter h (get_or (view sound c k) null), c)
  unfolding read_counter
  read_counter-view k = rw (get_value-view sound c k null)

  read_item-view :
      (i : ℤ)
      → read_item h p i expire_time tag c
        ≡ (ok (entry sound p expire_time tag c i (get_or (view sound c (item_key p i)) null)), c)
  unfolding read_item
  read_item-view i = rw (get_value-view sound c (item_key p i) null)

  -- An entry is read with the result with which it is taken out.
  read_item-pull_at :
      (i back front : ℤ)
      → read_item h p i expire_time tag c ≡ ((pull_at h p expire_time tag i back front c).0, c)
  unfolding pull_at
  read_item-pull_at i back front =
      let (_, c₁, e₁) = delete_returns sound (item_key p i) c in
      let (c₂, e₂) = write_counters_returns sound p back front c₁ in rw (read_item-view i, e₁, e₂)

  -- On any cache and for any side, even one that is neither, peek returns or raises just what
  -- pull does, and changes nothing.
  pub peek-pull :
      (default : Value × Value) (side : String)
      → peek h p default side expire_time tag c ≡ ((pull h p default side expire_time tag c).0, c)
  unfolding peek pull
  peek-pull default side = elim (Bool-cases (is_side side)) [
    | inr neither ↦ rw neither
    | inl valid ↦ elim (Result-cases (counter h (get_or (view sound c (counter_key p)) null))) [
      | inr (x, e) ↦ rw (valid, read_counter-view (counter_key p), e)
      | inl (back, eb) ↦
          elim (Result-cases (counter h (get_or (view sound c (front_key p)) null))) [
            | inr (x, e) ↦
                rw
                  (valid, read_counter-view (counter_key p), eb, read_counter-view (front_key p), e)
            | inl (front, ef) ↦ elim (Bool-cases (leb_ℤ back front)) [
              | inl empty ↦ rw (
                valid,
                read_counter-view (counter_key p),
                eb,
                read_counter-view (front_key p),
                ef,
                empty,
              )
              | inr some_left ↦ elim (Bool-cases (str_eq side "front")) [
                | inl first ↦
                    rw
                      (
                        valid,
                        read_counter-view (counter_key p),
                        eb,
                        read_counter-view (front_key p),
                        ef,
                        some_left,
                        first,
                      )
                      (read_item-pull_at front back (front +ℤ pos 1))
                | inr last ↦
                    rw
                      (
                        valid,
                        read_counter-view (counter_key p),
                        eb,
                        read_counter-view (front_key p),
                        ef,
                        some_left,
                        last,
                      )
                      (read_item-pull_at (back -ℤ pos 1) (back -ℤ pos 1) front)
              ]
            ]
          ]
    ]
  ]
