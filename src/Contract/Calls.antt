-- ===== src/Contract/Calls.antt =====
-- The calls of a `Cache` that concern one key, by the method and its arguments, and what they mean
-- for a map from keys to values. A key that the map does not take is one the cache cannot write.
use diskcache_rs.Base.{ℕ, String, Bool, true, false, Option, none, some, is_some, if◌then◌else◌}
use diskcache_rs.Base.Int.{ℤ}
use diskcache_rs.Cache.Read
use diskcache_rs.Cache.Remove
use diskcache_rs.Cache.State.{Cache}
use diskcache_rs.Cache.Update
use diskcache_rs.Cache.Update.{counted, from_default}
use diskcache_rs.Cache.View.{get_or}
use diskcache_rs.Cache.Write
use diskcache_rs.Exec.{Exec, Result, ok, raised, key_error, pure, ◌>>=◌, or_else}
use diskcache_rs.Host.{Host}
use diskcache_rs.Value.{Value, null, int, is_plain, is_null}

pub data Call : Type 0 where
  set : String → Value → Option ℕ → Option String → Call
  add : String → Value → Option ℕ → Option String → Call
  get : String → Value → Call
  get_item : String → Call
  contains : String → Call
  pop : String → Value → Call
  delete : String → Call
  delete_item : String → Call
  incr : String → ℤ → Option ℤ → Call
  touch : String → Option ℕ → Call

-- What a call returns; `done` is None.
pub data Answer : Type 0 where
  flag : Bool → Answer
  found : Value → Answer
  count : ℤ → Answer
  done : Answer

unfoldable pub key_of : Call → String
key_of (set k v e t) = k
key_of (add k v e t) = k
key_of (get k d) = k
key_of (get_item k) = k
key_of (contains k) = k
key_of (pop k d) = k
key_of (delete k) = k
key_of (delete_item k) = k
key_of (incr k n d) = k
key_of (touch k e) = k

-- a call that writes none but a plain value
unfoldable pub is_safe : Call → Bool
is_safe (set k v e t) = is_plain v
is_safe (add k v e t) = is_plain v
is_safe _ = true

module _ {S A : Type 0} where
  abbrev pub as_answer : (A → Answer) → Exec S A → Exec S (Answer)
  as_answer f m = m >>= λ a. pure (f a)

-- a call of a cache
unfoldable pub step : (h : Host) → Call → Exec (Cache h) (Answer)
step h (set k v e t) = as_answer flag (Write.set h k v e false t)
step h (add k v e t) = as_answer flag (Update.add h k v e false t)
step h (get k d) = as_answer found (Read.get_value h k d)
step h (get_item k) = as_answer found (Read.get_item h k)
step h (contains k) = as_answer flag (Read.contains h k)
step h (pop k d) = as_answer (λ r. found r.value) (Remove.pop h k d false false)
step h (delete k) = as_answer flag (Remove.delete h k)
step h (delete_item k) = as_answer (λ _. done) (Remove.delete_item h k)
step h (incr k n d) = as_answer count (Update.incr h k n d)
step h (touch k e) = as_answer flag (Update.touch h k e)

-- the entry after a write of a value
abbrev pub put_if : Bool → Value → Option Value → Option Value
put_if takes v o = if takes then some v else o

-- the entry after a counter was set
abbrev pub counter_in : Bool → Result ℤ → Option Value → Option Value
counter_in takes (ok n) o = put_if takes (int n) o
counter_in takes (raised e) o = o

-- the new value of a counter, or the start that `incr` falls back on
unfoldable pub next_count : Host → String → ℤ → Option ℤ → Option Value → Result ℤ
next_count h k n d o =
    or_else (counted h (get_or o null) n d)
      (elim d [ none ↦ raised (key_error k) | some i ↦ from_default (some i) n ])

abbrev pub count_answer : Result ℤ → Result Answer
count_answer (ok n) = ok (count n)
count_answer (raised e) = raised e

-- what a touch does: an entry that is None counts as none
abbrev pub touched : Bool → Option Value → Bool
touched takes none = false
touched takes (some v) = if is_null v then false else takes

-- the answer from the entry of the key, and the entry afterwards
unfoldable pub answer :
    (h : Host) → (String → Bool) → Call → Option Value → Result Answer × Option Value
unfolding next_count
answer h takes (set k v e t) o = (ok (flag (takes k)), put_if (takes k) v o)
answer h takes (add k v e t) none = (ok (flag (takes k)), put_if (takes k) v none)
answer h takes (add k v e t) (some w) = (ok (flag false), some w)
answer h takes (get k d) o = (ok (found (get_or o d)), o)
answer h takes (get_item k) none = (raised (key_error k), none)
answer h takes (get_item k) (some v) = (ok (found v), some v)
answer h takes (contains k) o = (ok (flag (is_some o)), o)
answer h takes (pop k d) o = (ok (found (get_or o d)), none)
answer h takes (delete k) o = (ok (flag (is_some o)), none)
answer h takes (delete_item k) none = (raised (key_error k), none)
answer h takes (delete_item k) (some v) = (ok done, none)
answer h takes (incr k n d) o =
    (count_answer (next_count h k n d o), counter_in (takes k) (next_count h k n d o) o)
answer h takes (touch k e) o = (ok (flag (touched (takes k) o)), o)
