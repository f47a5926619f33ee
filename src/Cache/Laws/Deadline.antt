-- ===== src/Cache/Laws/Deadline.antt =====
-- How exact the expiration time of an entry is.
use diskcache_rs.Base.{
  ℕ, ◌+◌, ◌*◌, ◌≤◌, ◌<◌, ◌/◌, ◌≡◌, some, ltb, arith, Bool-cases, inl, inr, if◌then◌else◌,
}
use diskcache_rs.Cache.Laws.{expiry-deadline, deadline}
use diskcache_rs.Cache.State.{Cache}
use diskcache_rs.Cache.Write.{expiry, second}
use diskcache_rs.Exec.{ok}
use diskcache_rs.Host.{Host}

-- the instant at which an entry is to expire, from the readings of the clock
abbrev pub asked : (h : Host) → ℕ → ℕ → ℕ
asked h expire n = if ltb (h.clock n) expire then expire else h.clock (n + 1) + expire

deadline-asked :
    (h : Host) (expire n : ℕ) → deadline h (some expire) n ≡ some (asked h expire n / second)
unfolding deadline
deadline-asked h expire n = elim (Bool-cases (ltb (h.clock n) expire)) [
  | inl ahead ↦ rw (ahead)
  | inr past ↦ rw (past)
]

-- The expiration time that set works out for an entry is given in whole seconds, not later than
-- the instant asked for and less than a second before it; that instant is expire itself if it
-- lies ahead of the clock, else expire after the next reading of the clock.
pub expiry_bounds :
    (h : Host) (expire : ℕ) (c : Cache h)
    → (d : ℕ) × ((expiry h (some expire) c).0 ≡ ok (some d))
      × (d * second ≤ asked h expire c.reads)
      × (asked h expire c.reads < d * second + second)
expiry_bounds h expire c = (
  asked h expire c.reads / second,
  rw (expiry-deadline (some expire) c, deadline-asked h expire c.reads),
  omega arith,
  omega arith,
)
