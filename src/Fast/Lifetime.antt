-- ===== src/Fast/Lifetime.antt =====
-- How long an entry of a `FastCache` is given to live.
use diskcache_rs.Base.{ℕ, ◌+◌, ◌*◌, ◌≤◌, ◌<◌, ◌/◌, ◌-◌, ◌≡◌, true, arith}
use diskcache_rs.Base.Int.{pos, sub_pos}
use diskcache_rs.Cache.Write.{second}
use diskcache_rs.Exec.{ok}
use diskcache_rs.Fast.{FastCache, ahead, ttl_of, whole_seconds, time}
use diskcache_rs.Host.{Host}
use diskcache_rs.Pickled.Backend.{Pickles}

begun : (a b : ℕ) → a < b → ahead (pos b) a ≡ true
begun a b lt = ground arith

-- If FastCache is given a time that lies ahead of the clock at its first reading and not behind
-- it at its second, then the time to live in whole seconds, counted from the second reading, ends
-- not later than that time and less than a second before it.
pub ttl_bounds :
    (h : Host) (x : Pickles) (c : FastCache x) (at : ℕ)
    → h.clock (c.reads + 1) ≤ at
    → h.clock c.reads < at
    → (n : ℕ) × ((ttl_of h x (pos at) c).0 ≡ ok (pos n))
      × (h.clock (c.reads + 1) + n * second ≤ at)
      × (at < h.clock (c.reads + 1) + n * second + second)
unfolding ttl_of whole_seconds time
ttl_bounds h x c at later now =
    let n = (at - h.clock (c.reads + 1)) / second in
    (
      n,
      rw (begun (h.clock c.reads) at now, sub_pos at (h.clock (c.reads + 1)) later),
      omega arith,
      omega arith,
    )
