-- ===== src/Opening/Restored.antt =====
-- A deque that is pickled and restored.
use diskcache_rs.Base.{ℕ, String, ◌≡◌, refl, true, Option, none, some, List, [], arith}
use diskcache_rs.Base.Int.{pos}
use diskcache_rs.Cache.Laws.{ready}
use diskcache_rs.Cache.Queue.{counter_key, front_key}
use diskcache_rs.Cache.State.{Cache}
use diskcache_rs.Deque
use diskcache_rs.Deque.Held.{IsHeld, fewer, ready_open}
use diskcache_rs.Deque.Items.{present, all_items-present}
use diskcache_rs.Deque.Rebuild.{rebuild_open}
use diskcache_rs.Deque.Reorder.{all_plain-present, length-present-le}
use diskcache_rs.Exec.{ok}
use diskcache_rs.Host.{Host}
use diskcache_rs.Host.Sound.{IsSound}
use diskcache_rs.Opening.{
  Files, settings_of, no_keywords, open_cache, open_deque, deque_state, restored_deque,
  min_file_size,
}
use diskcache_rs.Value.{Value}

module _ {h : Host} (sound : IsSound h) (files : Files h) where
  -- a cache over a state of the extension module, as its constructor makes it
  abbrev pub new_cache : h.State → Cache h
  new_cache s = record { rust = some s; expire_times = []; tags = []; depth = 0; reads = 0 }

  -- An open cache takes what another took.
  new_ready :
      (c : Cache h) (s : h.State) (k : String)
      → ready sound c k ≡ true
      → ready sound (new_cache s) k ≡ true
  unfolding ready
  new_ready c s k can = ground arith

  -- If a deque holds a list of plain values, no more than its maximum, the keys of all indices
  -- are taken, and its directory opens again, with whatever rows, then pickling it returns its
  -- directory, its maximum and the values that are not None and changes nothing, and restoring
  -- that gives a deque of that maximum that holds those values.
  pub restored_deque-deque_state :
      (directory : String) (maxlen : Option ℕ) (c : Cache h) (vs : List Value) (s : h.State)
      → IsHeld sound maxlen c vs
      → files.opened directory (settings_of min_file_size no_keywords) ≡ ok s
      → (c' : Cache h) × (deque_state h directory maxlen c
          ≡ (ok (directory, maxlen, present vs), c))
        × (restored_deque h files (directory, maxlen, present vs) ≡ ok c')
        × IsHeld sound maxlen c' (present vs)
  unfolding deque_state restored_deque open_deque open_cache Deque.extend
  restored_deque-deque_state directory maxlen c vs s held opens =
      let at = new_ready c s in
      let fits = fewer sound maxlen vs (present vs) (length-present-le vs) held.fits in
      let plain = all_plain-present vs held.plain in
      let (c', e, q) =
        rebuild_open sound maxlen (new_cache s) s (present vs) refl
          (at (counter_key none) held.deque.takes_counter)
          (at (front_key none) held.deque.takes_front) fits plain
          (λ n lt. at _ (held.takes (pos n))) in
      (
        c',
        rw (all_items-present sound c held.front vs held.deque),
        rw (opens, e),
        record {
          front = pos 0;
          deque = q;
          fits = fits;
          plain = plain;
          takes =
              λ i. ready_open sound maxlen c c' (counter_key none) _ (held.takes i) q.takes_counter;
        },
      )
