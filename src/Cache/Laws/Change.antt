-- ===== src/Cache/Laws/Change.antt =====
-- `incr` and `pop` on the map that a cache holds.
use mathlib.Core.Option
use diskcache_rs.Base.{String, ◌≡◌, refl, Bool, true, false, ◌&&◌, not, Option, none, some, arith}
use diskcache_rs.Base.Int.{ℤ, ◌+ℤ◌}
use diskcache_rs.Cache.Laws.{ready, IsWrite, IsErase, store_writes, plain_int}
use diskcache_rs.Cache.Laws.Erase.{delete_erases}
use diskcache_rs.Cache.Read.{Reply, part}
use diskcache_rs.Cache.Remove.{pop}
use diskcache_rs.Cache.State.{Cache, int_of}
use diskcache_rs.Cache.Update.{incr, counted, from_default}
use diskcache_rs.Cache.View.{view, has, get_or, get_value-view, contains-has}
use diskcache_rs.Dict
use diskcache_rs.Exec.{ok}
use diskcache_rs.Host.{Host}
use diskcache_rs.Host.Sound.{IsSound}
use diskcache_rs.Value.{Value, null, int, is_null}

module _ {h : Host} (sound : IsSound h) (k : String) (c : Cache h)
    (can : ready sound c k ≡ true) where
  counted-map :
      (o : Option ℤ) (delta d : ℤ)
      → counted h (get_or (Option.map int o) null) delta (some d) ≡ ok (get_or o d +ℤ delta)
  unfolding counted from_default int_of
  counted-map none delta d = refl
  counted-map (some i) delta d = refl

  -- On an open cache that takes the key, where the key reads as an integer or as nothing, incr
  -- with an integer default returns the sum of the delta and that integer, or of the delta and
  -- the default, and writes the sum at the key alone.
  pub incr_lem :
      (o : Option ℤ) (delta d : ℤ)
      → view sound c k ≡ Option.map int o
      → (c' : Cache h) × (incr h k delta (some d) c ≡ (ok (get_or o d +ℤ delta), c'))
        × IsWrite sound c k (int (get_or o d +ℤ delta)) c'
  unfolding incr
  incr_lem o delta d e =
      let n = get_or o d +ℤ delta in
      let (c', e', w) = store_writes sound k (int n) none none c can (plain_int sound n) in
      (c', rw (get_value-view sound c k null, e, counted-map o delta d, e'), w)

  -- what `pop` returns for a key that is there
  abbrev pub popped : Bool → Bool → Reply
  popped expire_time tag = record {
    value = get_or (view sound c k) null;
    expire_time = part expire_time (Dict.get c.expire_times k);
    tag = part tag (Dict.get c.tags k);
  }

  -- On an open cache that takes the key and has a row for it, pop returns the value there, or
  -- None where it cannot be read, with the recorded expiration time and tag as far as they are
  -- asked for, and takes that key and no other out.
  pub pop-present :
      (d : Value) (expire_time tag : Bool)
      → has sound c k ≡ true
      → (c' : Cache h) × (pop h k d expire_time tag c ≡ (ok (popped expire_time tag), c'))
        × IsErase sound c k c'
  unfolding pop
  pop-present d expire_time tag there =
      let (c', e, r) = delete_erases sound k c can in
      let stays : is_null (get_or (view sound c k) null) && not (has sound c k) ≡ false =
        ground (arith, there) in
      (c', rw (get_value-view sound c k null, contains-has sound c k, stays, e), r)
