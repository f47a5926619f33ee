-- ===== src/Contract/Quick/Agree.antt =====
-- The fast caches and a `Cache` answer the calls they share alike.
use diskcache_rs.Base.{ℕ, String, ◌≡◌, ◌∙◌, sym, Bool, true, arith, Option, List}
use diskcache_rs.Cache.State.{Cache}
use diskcache_rs.Contract.{Acts, every, run, perform, run_lem, renamed_calls}
use diskcache_rs.Contract.Calls.{Answer, flag, found, key_of, step, answer}
use diskcache_rs.Contract.Quick.{Basic, Common, as_call, as_basic, fast_step, fast_fanout_step}
use diskcache_rs.Contract.Quick.Entry.{FastEntry, Fast-Acts, is_basic}
use diskcache_rs.Contract.Routed.{route_answer, routed, AtHome}
use diskcache_rs.Contract.Store.{Entry, Represents, Cache-Acts}
use diskcache_rs.Exec.{Result}
use diskcache_rs.Fast.{FastCache}
use diskcache_rs.Fast.Shards
use diskcache_rs.Fast.Shards.{FastFanout}
use diskcache_rs.Host.{Host}
use diskcache_rs.Host.Sound.{IsSound}
use diskcache_rs.Pickled.Backend.{Pickles, IsKept}
use diskcache_rs.Sharded.{route}
use diskcache_rs.Value.{Value}

abbrev pub common_key : Common → String
common_key c = key_of (as_call (as_basic c))

abbrev pub common_answer :
    (h : Host) → (String → Bool) → Common → Option Value → Result Answer × Option Value
common_answer h takes c = answer h takes (as_call (as_basic c))

module _ {h : Host} (sound : IsSound h) (x : Pickles) (kept : IsKept x)
    (takes : String → Bool) where
  -- the calls of `Basic` made of a cache
  Cache-basic :
      Acts
        (λ b. key_of (as_call b))
        (λ b. answer h takes (as_call b))
        (is_basic sound x kept takes)
        (λ b. step h (as_call b))
        (Entry sound takes)
  Cache-basic = renamed_calls as_call (λ b good. ground arith) (Cache-Acts sound takes)

  -- If a FastCache has the pickles of what a map has and a Cache has the same values, then both
  -- answer alike any list of calls of set without expiration, add, get, [], in and pop that write
  -- none but plain values and concern keys that the cache takes.
  pub fast-Cache :
      (calls : List Basic) (m : String → Option Value) (f : FastCache x) (c : Cache h)
      → every (is_basic sound x kept takes) calls ≡ true
      → ((k : String) → FastEntry sound x kept f k (m k))
      → Represents sound takes c m
      → (run (fast_step h x) calls f).0 ≡ (run (λ b. step h (as_call b)) calls c).0
  fast-Cache calls m f c good fast one =
      let (_, e, _) = run_lem _ _ (Fast-Acts sound x kept takes) calls m f good fast in
      let (_, e', _) = run_lem _ _ Cache-basic calls m c good one in rw (e, e')

module _ {h : Host} (sound : IsSound h) (x : Pickles) (kept : IsKept x) (takes : String → Bool)
    (hash : String → ℕ) where
  fast_fanout_step-routed :
      (call : Common) (cs : FastFanout x)
      → fast_fanout_step h x hash call cs
        ≡ route hash (key_of (as_call (as_basic call))) (fast_step h x (as_basic call)) cs
  unfolding fast_fanout_step fast_step key_of as_call as_basic Shards.set Shards.get_value
      Shards.get_item Shards.exists
  fast_fanout_step-routed (Common.set k v) cs = sym (route_answer flag _ hash k cs)
  fast_fanout_step-routed (Common.get k d) cs = sym (route_answer found _ hash k cs)
  fast_fanout_step-routed (Common.get_item k) cs = sym (route_answer found _ hash k cs)
  fast_fanout_step-routed (Common.contains k) cs = sym (route_answer flag _ hash k cs)

  abbrev is_common : Common → Bool
  is_common c = is_basic sound x kept takes (as_basic c)

  abbrev pub AtFast : FastFanout x → String → Option Value → Type 0
  AtFast = AtHome common_key (common_answer h takes) hash (FastEntry sound x kept)

  fast_fanout-Acts :
      Acts common_key (common_answer h takes) is_common (fast_fanout_step h x hash) AtFast
  fast_fanout-Acts = record {
    acts = λ call cs o good at.
        (let class = renamed_calls as_basic (λ c good. good) (Fast-Acts sound x kept takes) in
          let (cs', e, own, others) =
            Acts.acts (routed common_key (common_answer h takes) hash class) call cs o good at in
          (cs', fast_fanout_step-routed call cs ∙ e, own, others));
  }

  -- If the caches of a FastFanoutCache have the pickles of what a map has, each key in the cache
  -- it is routed to, then any list of calls of set without expiration, get, [] and in that write
  -- none but plain values and concern keys that the map takes is answered as the map answers it,
  -- and the caches left have the pickles of what the map has then.
  pub fast_fanout-trace :
      (calls : List Common) (m : String → Option Value) (cs : FastFanout x)
      → every is_common calls ≡ true
      → ((k : String) → AtFast cs k (m k))
      → (cs' : FastFanout x) × (run (fast_fanout_step h x hash) calls cs
          ≡ ((run (perform common_key (common_answer h takes)) calls m).0, cs'))
        × ((k : String)
            → AtFast cs' k ((run (perform common_key (common_answer h takes)) calls m).1 k))
  fast_fanout-trace = run_lem common_key (common_answer h takes) fast_fanout-Acts
