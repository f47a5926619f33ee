-- ===== src/Witness/Upkeep.antt =====
-- The theorems on expiration times, on `check`, on `clear` of several caches and on `peek`.
use Prim.Native.String.{len}
use diskcache_rs.Base.{
  ℕ, zero, suc, ◌+◌, ◌*◌, ◌≤◌, ◌<◌, String, ◌≡◌, sym, ap, Bool, true, false, Option, none, some,
  List, [], ◌∷◌, length, is_some, arith,
}
use diskcache_rs.Cache.Check.{Warning, check}
use diskcache_rs.Cache.Check.Repair.{Tracks, check_repairs}
use diskcache_rs.Cache.Laws.Deadline.{asked, expiry_bounds}
use diskcache_rs.Cache.Queue.{peek, pull}
use diskcache_rs.Cache.Queue.Agree.{peek-pull}
use diskcache_rs.Cache.State.{Cache}
use diskcache_rs.Cache.Write.{expiry, second}
use diskcache_rs.Exec.{ok}
use diskcache_rs.Fanout
use diskcache_rs.Fanout.{Fanout}
use diskcache_rs.Fanout.Clear.{clear_blanks, IsOpen}
use diskcache_rs.Fanout.Refine.{view}
use diskcache_rs.Sharded.Places.{cache_at}
use diskcache_rs.Value.{null}
use diskcache_rs.Witness.Reference.{reference, reference-IsSound}
use diskcache_rs.Witness.Samples.{empty, two_values}

expiry_bounds_example :
    (d : ℕ) × ((expiry reference (some 1500000) empty).0 ≡ ok (some d))
    × (d * second ≤ asked reference 1500000 0)
    × (asked reference 1500000 0 < d * second + second)
unfolding reference
expiry_bounds_example = expiry_bounds reference 1500000 empty

-- An expiration time and a tag of keys without a row, and a time of one with a row.
abbrev stale : Cache reference
stale = record two_values {
  expire_times = ("__queue__0", 9) ∷ ("gone", 5) ∷ [];
  tags = ("gone", "t") ∷ [];
}

check_repairs_example :
    (ws : List Warning) × (c' : Cache reference) × (check reference true stale ≡ (ok ws, c'))
    × Tracks reference-IsSound c' stale.expire_times c'.expire_times
    × Tracks reference-IsSound c' stale.tags c'.tags
check_repairs_example = check_repairs reference-IsSound stale

abbrev two_open : Fanout reference
two_open = two_values ∷ empty ∷ []

abbrev open_of : Option (Cache reference) → Bool
open_of none = true
open_of (some c) = is_some c.rust

all-IsOpen :
    (i : ℕ) (c : Cache reference) → cache_at i two_open ≡ some c → IsOpen reference-IsSound len c
unfolding cache_at reference
all-IsOpen zero c there = ap (λ o. open_of o) (sym there)
all-IsOpen (suc zero) c there = ap (λ o. open_of o) (sym there)
all-IsOpen (suc (suc i)) c there = absurd (ground arith)

clear_blanks_example :
    (n : ℕ) × (cs' : Fanout reference) × (Fanout.clear reference two_open ≡ (ok n, cs'))
    × (length cs' ≡ length two_open)
    × ((k : String) → view reference-IsSound len cs' k ≡ none)
clear_blanks_example = clear_blanks reference-IsSound len two_open all-IsOpen

peek-pull_example :
    peek reference none (null, null) "back" false true two_values
    ≡ ((pull reference none (null, null) "back" false true two_values).0, two_values)
peek-pull_example = peek-pull reference-IsSound none false true two_values (null, null) "back"
