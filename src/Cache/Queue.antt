-- ===== src/Cache/Queue.antt =====
-- `push`, `pull` and `peek`: queues kept as numbered entries of the cache, with two counters.
-- The lock that they hold is not modelled: a call is one step.
pub mod Keys
pub mod Holds
pub mod Push
pub mod Pull
pub mod Agree
use diskcache_rs.Base.{
  ℕ, String, Bool, true, false, ◌||◌, not, Option, none, some, str_eq, if◌then◌else◌,
}
use diskcache_rs.Base.Int.{ℤ, pos, ◌+ℤ◌, ◌-ℤ◌, leb_ℤ}
use diskcache_rs.Cache.Read.{part, get_value}
use diskcache_rs.Cache.Remove.{delete}
use diskcache_rs.Cache.State.{Cache, int_of}
use diskcache_rs.Cache.Write.{set}
use diskcache_rs.Dict
use diskcache_rs.Exec.{Exec, Result, ok, value_error, pure, raise, lift, gets, ◌>>=◌, ◌>>◌}
use diskcache_rs.Host.{Host}
use diskcache_rs.Text.{str, ◌<>◌}
use diskcache_rs.Value.{Value, null, int, is_null}

-- `prefix if prefix is not None else "__queue__"`
unfoldable pub queue_prefix : Option String → String
queue_prefix none = "__queue__"
queue_prefix (some p) = p

unfoldable pub counter_key : Option String → String
counter_key prefix = "__queue_counter_" <> (queue_prefix prefix <> "__")

unfoldable pub front_key : Option String → String
front_key prefix = "__queue_front_" <> (queue_prefix prefix <> "__")

-- f"{prefix}-{key_index}" or f"__queue__{key_index}"
unfoldable pub item_key : Option String → ℤ → String
item_key none i = "__queue__" <> str i
item_key (some p) i = p <> ("-" <> str i)

unfoldable pub is_side : String → Bool
is_side side = str_eq side "back" || str_eq side "front"

-- A pair of key and value, with what was asked for behind it; the key is None in a default.
pub record Pulled : Type 0 where
  pub key : Value
  pub value : Value
  pub expire_time : Option (Option ℕ)
  pub tag : Option (Option String)

-- `default`, with None for what was asked for
unfoldable pub nothing : Value × Value → Bool → Bool → Pulled
nothing (k, v) expire_time tag = record {
  key = k;
  value = v;
  expire_time = part expire_time none;
  tag = part tag none;
}

module _ (h : Host) where
  -- a counter from the value that is read: 0 for None, else `int(value)`
  unfoldable pub counter : Value → Result ℤ
  unfolding int_of
  counter v = if is_null v then ok (pos 0) else int_of h v

  unfoldable pub read_counter : String → Exec (Cache h) ℤ
  read_counter key = do v ← get_value h key null; lift (counter v)

  -- the two writes at the end of `push` and `pull`
  unfoldable pub write_counters : Option String → ℤ → ℤ → Exec (Cache h) (Unit {0})
  write_counters prefix back front = do
    set h (counter_key prefix) (int back) none false none
    set h (front_key prefix) (int front) none false none
    pure tt

  -- the new entry at `index`, and the counters
  unfoldable pub push_at :
      Value → Option String → Option ℕ → Option String → ℤ → ℤ → ℤ → Exec (Cache h) ℤ
  push_at value prefix expire tag index back front = do
    set h (item_key prefix index) value expire false tag
    write_counters prefix back front
    pure index

  unfoldable pub push : Value → Option String → String → Option ℕ → Option String → Exec (Cache h) ℤ
  unfolding is_side
  push value prefix side expire tag = if not (is_side side) then raise value_error else do
    back ← read_counter (counter_key prefix)
    front ← read_counter (front_key prefix)
    if str_eq side "back"
        then push_at value prefix expire tag back (back +ℤ pos 1) front
        else push_at value prefix expire tag (front -ℤ pos 1) back (front -ℤ pos 1)

  -- the entry at `index` with what was asked for
  unfoldable pub read_item : Option String → ℤ → Bool → Bool → Exec (Cache h) Pulled
  read_item prefix index expire_time tag = do
    value ← get_value h (item_key prefix index) null
    gets λ c. record {
      key = int index;
      value = value;
      expire_time = part expire_time (Dict.get c.expire_times (item_key prefix index));
      tag = part tag (Dict.get c.tags (item_key prefix index));
    }

  -- takes the entry at `index` out, and writes the counters
  unfoldable pub pull_at : Option String → Bool → Bool → ℤ → ℤ → ℤ → Exec (Cache h) Pulled
  pull_at prefix expire_time tag index back front = do
    result ← read_item prefix index expire_time tag
    delete h (item_key prefix index)
    write_counters prefix back front
    pure result

  unfoldable pub pull : Option String → Value × Value → String → Bool → Bool → Exec (Cache h) Pulled
  unfolding is_side nothing
  pull prefix default side expire_time tag = if not (is_side side) then raise value_error else do
    back ← read_counter (counter_key prefix)
    front ← read_counter (front_key prefix)
    if leb_ℤ back front
        then pure (nothing default expire_time tag)
        else if str_eq side "front"
        then pull_at prefix expire_time tag front back (front +ℤ pos 1)
        else pull_at prefix expire_time tag (back -ℤ pos 1) (back -ℤ pos 1) front

  unfoldable pub peek : Option String → Value × Value → String → Bool → Bool → Exec (Cache h) Pulled
  unfolding is_side nothing
  peek prefix default side expire_time tag = if not (is_side side) then raise value_error else do
    back ← read_counter (counter_key prefix)
    front ← read_counter (front_key prefix)
    if leb_ℤ back front
        then pure (nothing default expire_time tag)
        else if str_eq side "front"
        then read_item prefix front expire_time tag
        else read_item prefix (back -ℤ pos 1) expire_time tag
