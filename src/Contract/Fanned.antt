-- ===== src/Contract/Fanned.antt =====
-- A `FanoutCache` as a map, and the same calls of one `Cache`.
use diskcache_rs.Base.{ℕ, String, ◌≡◌, sym, ◌∙◌, Bool, false, true, Option, List}
use diskcache_rs.Cache.State.{Cache}
use diskcache_rs.Contract.{Acts, every, run, perform, run_lem}
use diskcache_rs.Contract.Calls.{
  Call, Answer, flag, found, count, done, key_of, is_safe, as_answer, step, answer,
}
use diskcache_rs.Contract.Routed.{route_answer, routed, AtHome}
use diskcache_rs.Contract.Store.{Entry, Represents, Cache-Acts, trace}
use diskcache_rs.Exec.{Exec}
use diskcache_rs.Fanout
use diskcache_rs.Fanout.{Fanout}
use diskcache_rs.Host.{Host}
use diskcache_rs.Host.Sound.{IsSound}
use diskcache_rs.Sharded.{route}
use diskcache_rs.Value.{Value}

-- a call of a fanout cache
unfoldable pub fanout_step : (h : Host) → (String → ℕ) → Call → Exec (Fanout h) Answer
fanout_step h hash (Call.set k v e t) = as_answer flag (Fanout.set h hash k v e false t)
fanout_step h hash (Call.add k v e t) = as_answer flag (Fanout.add h hash k v e false t)
fanout_step h hash (Call.get k d) = as_answer found (Fanout.get_value h hash k d)
fanout_step h hash (Call.get_item k) = as_answer found (Fanout.get_item h hash k)
fanout_step h hash (Call.contains k) = as_answer flag (Fanout.contains h hash k)
fanout_step h hash (Call.pop k d) =
    as_answer (λ r. found r.value) (Fanout.pop h hash k d false false)
fanout_step h hash (Call.delete k) = as_answer flag (Fanout.delete h hash k)
fanout_step h hash (Call.delete_item k) = as_answer (λ _. done) (Fanout.delete_item h hash k)
fanout_step h hash (Call.incr k n d) = as_answer count (Fanout.incr h hash k n d)
fanout_step h hash (Call.touch k e) = as_answer flag (Fanout.touch h hash k e)

module _ {h : Host} (sound : IsSound h) (takes : String → Bool) (hash : String → ℕ) where
  fanout_step-routed :
      (call : Call) (cs : Fanout h)
      → fanout_step h hash call cs ≡ route hash (key_of call) (step h call) cs
  unfolding fanout_step step key_of Fanout.set Fanout.add Fanout.get_value Fanout.get_item
      Fanout.contains Fanout.pop Fanout.delete Fanout.delete_item Fanout.incr Fanout.touch
  fanout_step-routed (Call.set k v e t) cs = sym (route_answer flag _ hash k cs)
  fanout_step-routed (Call.add k v e t) cs = sym (route_answer flag _ hash k cs)
  fanout_step-routed (Call.get k d) cs = sym (route_answer found _ hash k cs)
  fanout_step-routed (Call.get_item k) cs = sym (route_answer found _ hash k cs)
  fanout_step-routed (Call.contains k) cs = sym (route_answer flag _ hash k cs)
  fanout_step-routed (Call.pop k d) cs = sym (route_answer (λ r. found r.value) _ hash k cs)
  fanout_step-routed (Call.delete k) cs = sym (route_answer flag _ hash k cs)
  fanout_step-routed (Call.delete_item k) cs = sym (route_answer (λ _. done) _ hash k cs)
  fanout_step-routed (Call.incr k n d) cs = sym (route_answer count _ hash k cs)
  fanout_step-routed (Call.touch k e) cs = sym (route_answer flag _ hash k cs)

  -- the cache of each key has its entry
  abbrev pub Spreads : Fanout h → (String → Option Value) → Type 0
  Spreads cs m = (k : String) → AtHome key_of (answer h takes) hash (Entry sound takes) cs k (m k)

  Fanout-Acts :
      Acts key_of
        (answer h takes)
        is_safe
        (fanout_step h hash)
        (AtHome key_of (answer h takes) hash (Entry sound takes))
  Fanout-Acts = record {
    acts = λ call cs o safe at.
        (let (cs', e, own, others) =
            Acts.acts (routed key_of (answer h takes) hash (Cache-Acts sound takes)) call cs o safe
              at in
          (cs', fanout_step-routed call cs ∙ e, own, others));
  }

  pub fanout_trace :
      (calls : List Call) (m : String → Option Value) (cs : Fanout h)
      → every is_safe calls ≡ true
      → Spreads cs m
      → (cs' : Fanout h) × (run (fanout_step h hash) calls cs
          ≡ ((run (perform key_of (answer h takes)) calls m).0, cs'))
        × Spreads cs' (run (perform key_of (answer h takes)) calls m).1
  fanout_trace = run_lem key_of (answer h takes) Fanout-Acts

  -- If the caches of a fanout cache have together what a map has, each key in the cache it is
  -- routed to, and a single cache has the same, then the fanout cache answers any list of calls
  -- of one key that write none but plain values as the single cache does, whatever the hash and
  -- the number of caches.
  pub fanout-Cache :
      (calls : List Call) (m : String → Option Value) (cs : Fanout h) (c : Cache h)
      → every is_safe calls ≡ true
      → Spreads cs m
      → Represents sound takes c m
      → (run (fanout_step h hash) calls cs).0 ≡ (run (step h) calls c).0
  fanout-Cache calls m cs c safe spread one =
      let (cs', e, _) = fanout_trace calls m cs safe spread in
      let (c', e', _) = trace sound takes calls m c safe one in rw (e, e')
